-- ===== src/Privacy/Anonymous.antt =====
-- The users under the requests of data subjects, backend/app/api/v1/admin_data_requests.py and me.py.
use gp_portal.Base.{
  ◌≡◌, refl, ◌∙◌, ap, inl, inr, Bool-cases, find-update_first_other, eq_of_==, String, false,
  Option, none, some, List, [], ◌∷◌, All, All-update_first_keep, if-both, ◌==◌, arith,
}
use gp_portal.Domain.{Uuid, DateTime, User, DataProcessingRecord}
use gp_portal.Store.{
  Db, run, get_user, modify, new_uuid, Keeps, Keeps-modify, Keeps-new_uuid, Keeps-bind, Keeps-run,
  keeps_rules,
}
use gp_portal.Privacy.{
  AdminDataRequestCreate, create_manual_request, fulfill_open, fulfill_request, log_export,
  request_data_deletion, anonymous_name, anonymous_email, anonymized, to_anonymize,
  subject_to_delete, erase_subject, add_data_record,
}

pub data PrivacyRequest : Type 0 where
  manual : AdminDataRequestCreate → PrivacyRequest
  fulfill : Uuid → PrivacyRequest
  export : PrivacyRequest
  ask_deletion : Option String → PrivacyRequest

pub record PrivacyCall : Type 0 where
  pub now : DateTime
  pub user : User
  pub request : PrivacyRequest

module _ (show_uuid : Uuid → String) (lower : String → String) where
  unfoldable pub serve : DateTime → User → PrivacyRequest → Db → Db
  serve now user (manual p) db = (run (create_manual_request lower now user p) db).1
  serve now user (fulfill k) db = (run (fulfill_request show_uuid now user k) db).1
  serve now user export db = (run (log_export now user) db).1
  serve now user (ask_deletion notes) db = (run (request_data_deletion now user notes) db).1

  -- The rows after a sequence of requests, the first one first.
  unfoldable pub after_requests : List PrivacyCall → Db → Db
  unfolding serve
  after_requests [] db = db
  after_requests (c ∷ cs) db = after_requests cs (serve c.now c.user c.request db)

  module _ {P : Db → Type 0}
      (erasing : (now : DateTime) (k : Option Uuid) (db : Db)
        → P db
        → P (erase_subject show_uuid now k db))
      (blind : (db : Db) (k : Uuid) (rows : List DataProcessingRecord)
        → P db
        → P (record db { next_id = k; data_records = rows })) where
    Keeps-add_data_record : (r : DataProcessingRecord) → Keeps P (modify (add_data_record r))
    Keeps-add_data_record r = Keeps-modify _ λ db h. blind db _ _ h

    Keeps-next : Keeps P new_uuid
    Keeps-next = Keeps-new_uuid λ db h. blind db _ _ h

    Keeps-fulfill_open :
        (now : DateTime) (user : User) (k : Uuid) (r : DataProcessingRecord)
        → Keeps P (fulfill_open show_uuid now user k r)
    unfolding fulfill_open
    Keeps-fulfill_open now user k r =
        Keeps-bind _ _ (Keeps-modify _ (erasing now (subject_to_delete r)))
          λ _. Keeps-bind _ _ (Keeps-modify _ (λ db h. blind db _ _ h)) λ _. search keeps_rules

    Keeps-fulfill_request :
        (now : DateTime) (user : User) (k : Uuid) → Keeps P (fulfill_request show_uuid now user k)
    unfolding fulfill_request
    Keeps-fulfill_request now user k = search (keeps_rules, Keeps-fulfill_open)

    serve-Keeps :
        (now : DateTime) (user : User) (r : PrivacyRequest) (db : Db)
        → P db
        → P (serve now user r db)
    unfolding serve create_manual_request log_export request_data_deletion
    serve-Keeps now user (manual p) db h =
        Keeps-run {P = P} (create_manual_request lower now user p) db
          (search (keeps_rules, Keeps-add_data_record, Keeps-next)) h
    serve-Keeps now user (fulfill k) db h = Keeps-run _ db (Keeps-fulfill_request now user k) h
    serve-Keeps now user export db h =
        Keeps-run {P = P} (log_export now user) db
          (search (keeps_rules, Keeps-add_data_record, Keeps-next)) h
    serve-Keeps now user (ask_deletion notes) db h =
        Keeps-run {P = P} (request_data_deletion now user notes) db
          (search (keeps_rules, Keeps-add_data_record, Keeps-next)) h

    after_requests-Keeps : (cs : List PrivacyCall) (db : Db) → P db → P (after_requests cs db)
    unfolding after_requests
    after_requests-Keeps [] db h = h
    after_requests-Keeps (c ∷ cs) db h =
        after_requests-Keeps cs (serve c.now c.user c.request db)
          (serve-Keeps c.now c.user c.request db h)

  -- Of an anonymized user nothing is left that names the subject or lets someone in.
  abbrev pub IsErased : User → Type 0
  IsErased u =
      (t : DateTime)
      → u.anonymized_at ≡ some t
      → (u.name ≡ anonymous_name)
        × (u.email ≡ anonymous_email show_uuid u.id)
        × (u.password_hash ≡ "")

  erase-IsErased :
      (now : DateTime) (o : Option Uuid) (db : Db)
      → All IsErased db.users
      → All IsErased (erase_subject show_uuid now o db).users
  erase-IsErased now none db h = h
  erase-IsErased now (some k) db h =
      if-both (λ (db' : Db). All IsErased db'.users) (to_anonymize (get_user k db)) _ _
        (λ _.
          All-update_first_keep IsErased (λ x. x.id == k) (anonymized show_uuid now) db.users
            (λ x g t e. (refl, refl, refl)) h)
        (λ _. h)

  -- After any sequence of the requests of data subjects, a user who is marked as anonymized has the name, the
  -- address and the password of nobody, if that was so before.
  pub after_requests-IsErased :
      (cs : List PrivacyCall) (db : Db)
      → All IsErased db.users
      → All IsErased (after_requests cs db).users
  after_requests-IsErased cs db h =
      after_requests-Keeps {P = λ db'. All IsErased db'.users}
        (λ now k db' g. erase-IsErased now k db' g) (λ _ _ _ g. g) cs db h

  -- The user has the row for good.
  abbrev pub IsGone : Uuid → User → Db → Type 0
  IsGone k u db = get_user k db ≡ some u

  not_fresh :
      (u : User) (t : DateTime) (o : Option User)
      → u.anonymized_at ≡ some t
      → o ≡ some u
      → to_anonymize o ≡ false
  not_fresh u t o e f = rw (f, e) refl

  erase-IsGone :
      (k : Uuid) (u : User) (t : DateTime)
      → u.anonymized_at ≡ some t
      → (now : DateTime) (o : Option Uuid) (db : Db) → IsGone k u db
      → IsGone k u (erase_subject show_uuid now o db)
  erase-IsGone k u t e now none db h = h
  erase-IsGone k u t e now (some j) db h =
      if-both (λ (db' : Db). IsGone k u db') (to_anonymize (get_user j db)) _ _
        (λ fresh. elim (Bool-cases (j == k)) [
          | inl same ↦
              let gone =
                not_fresh u t (get_user j db) e (ap (λ i. get_user i db) (eq_of_== j k same) ∙ h) in
              cc
          | inr other ↦
              find-update_first_other (λ x. x.id == j) (λ x. x.id == k) (anonymized show_uuid now)
                db.users (λ x a. ground arith) (λ x. refl)
              ∙ h
        ])
        (λ _. h)

  -- The row of an anonymized user is never changed again, whatever requests of data subjects follow.
  pub after_requests-anonymized :
      (k : Uuid) (u : User) (t : DateTime) (cs : List PrivacyCall) (db : Db)
      → get_user k db ≡ some u
      → u.anonymized_at ≡ some t
      → get_user k (after_requests cs db) ≡ some u
  after_requests-anonymized k u t cs db h e =
      after_requests-Keeps {P = IsGone k u} (erase-IsGone k u t e) (λ _ _ _ g. g) cs db h
