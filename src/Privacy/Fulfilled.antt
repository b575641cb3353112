-- ===== src/Privacy/Fulfilled.antt =====
-- The answers of `fulfill_request`, backend/app/api/v1/admin_data_requests.py.
use Prim.Native.String.{◌++◌ as append}
use gp_portal.Base.{
  ◌≡◌, refl, sym, ◌∙◌, ap, ◌⊎◌, inl, inr, String, true, false, Option, none, some, [], ◌∷◌, ◌==◌,
  find_sound, find-update_first, arith, ◌≢◌, Bool-cases, eq_of_==, find-update_first_other, if-both,
}
use gp_portal.Domain.{
  Role, Uuid, DateTime, User, DataProcessingRecord, DpRequestType, DpRequestStatus,
}
use gp_portal.Store.{
  Db, ok, Ends, Ends-raise_if, Ends-gets, Ends-or_raise, Ends-modify, Ends-commit, Ends-pure,
  Ends-if, Ends-ok, get_user, get_data_record, start, run, ◌>>=◌,
}
use gp_portal.Access.{role_in, pmo_role}
use gp_portal.Privacy.{
  anonymized, subject_to_delete, erase_subject, fulfilled_by, is_fulfilled, fulfill_open,
  fulfill_request, same_request_type, same_request_status, to_anonymize,
}

is_deletion :
    (t : DpRequestType)
    → same_request_type t DpRequestType.deletion ≡ true
    → t ≡ DpRequestType.deletion
is_deletion DpRequestType.deletion h = refl
is_deletion DpRequestType.export h = cc
is_deletion DpRequestType.access h = cc
is_deletion DpRequestType.rectification h = cc

fulfilled_status :
    (s : DpRequestStatus)
    → same_request_status s DpRequestStatus.fulfilled ≡ true
    → s ≡ DpRequestStatus.fulfilled
fulfilled_status DpRequestStatus.fulfilled h = refl
fulfilled_status DpRequestStatus.pending h = cc
fulfilled_status DpRequestStatus.approved h = cc
fulfilled_status DpRequestStatus.rejected h = cc

is_fulfilled-of :
    (r : DataProcessingRecord) → r.status ≡ DpRequestStatus.fulfilled → is_fulfilled r ≡ true
is_fulfilled-of r e = rw e refl

not_fulfilled :
    (r : DataProcessingRecord) → is_fulfilled r ≡ false → r.status ≢ DpRequestStatus.fulfilled
not_fulfilled r h e = let wrong : true ≡ false = sym (is_fulfilled-of r e) ∙ h in cc

subject-deleted :
    (r : DataProcessingRecord) (j : Uuid)
    → r.request_type ≡ DpRequestType.deletion
    → r.subject_user_id ≡ some j
    → subject_to_delete r ≡ some j
subject-deleted r j e f = rw (e, f) refl

subject-spared :
    (r : DataProcessingRecord)
    → r.request_type ≢ DpRequestType.deletion
    → subject_to_delete r ≡ none
subject-spared r h = elim (Bool-cases (same_request_type r.request_type DpRequestType.deletion)) [
  | inl e ↦ elim (h (is_deletion r.request_type e)) [ ]
  | inr e ↦ rw e refl
]

subject-other :
    (r : DataProcessingRecord) (j : Uuid)
    → r.subject_user_id ≢ some j
    → subject_to_delete r ≢ some j
subject-other r j h =
    if-both (λ (o : Option Uuid). o ≢ some j)
      (same_request_type r.request_type DpRequestType.deletion) _ _ (λ _. h) (λ _ e. cc)

module _ (show_uuid : Uuid → String) where
  -- What a request that is fulfilled now has written.
  pub record Fulfilling (now : DateTime) (user : User) (k : Uuid) (old : DataProcessingRecord)
      (db after : Db) (r : DataProcessingRecord) : Type 0 where
    pub was_open : old.status ≢ DpRequestStatus.fulfilled
    pub written : r ≡ record old {
      status = DpRequestStatus.fulfilled;
      fulfilled_at = some now;
      handled_by_id = some user.id;
    }
    pub stored : get_data_record k after ≡ some r
    pub erased :
        (j : Uuid) (u : User)
        → old.request_type ≡ DpRequestType.deletion
        → old.subject_user_id ≡ some j
        → get_user j db ≡ some u
        → u.anonymized_at ≡ none
        → get_user j after
          ≡ some (record u {
            name = "Titular removido";
            email = append "anonymized_" (append (show_uuid u.id) "@removed.local");
            password_hash = "";
            anonymized_at = some now;
          })
    pub spared : old.request_type ≢ DpRequestType.deletion → after.users ≡ db.users
    pub others : (j : Uuid) → old.subject_user_id ≢ some j → get_user j after ≡ get_user j db

  -- What an answered request has found, and what it has written or left.
  pub record Fulfilment (now : DateTime) (user : User) (k : Uuid) (db after : Db)
      (r : DataProcessingRecord) : Type 0 where
    pub pmo : user.role ≡ Role.pmo
    pub old : DataProcessingRecord
    pub found : get_data_record k db ≡ some old
    pub outcome :
        (old.status ≡ DpRequestStatus.fulfilled) × (r ≡ old) × (after ≡ db)
        ⊎ Fulfilling now user k old db after r

  erase-erased :
      (now : DateTime) (db : Db) (o : Option Uuid) (j : Uuid) (u : User)
      → o ≡ some j
      → get_user j db ≡ some u
      → u.anonymized_at ≡ none
      → get_user j (erase_subject show_uuid now o db) ≡ some (anonymized show_uuid now u)
  erase-erased now db o j u e found fresh =
      rw (e, found, fresh)
        (find-update_first (λ x. x.id == j) (anonymized show_uuid now) db.users found
          (find_sound (λ x. x.id == j) db.users found))

  erase-spared :
      (now : DateTime) (db : Db) (o : Option Uuid)
      → o ≡ none
      → (erase_subject show_uuid now o db).users ≡ db.users
  erase-spared now db o e = rw e refl

  erase-others :
      (now : DateTime) (db : Db) (o : Option Uuid) (j : Uuid)
      → o ≢ some j
      → get_user j (erase_subject show_uuid now o db) ≡ get_user j db
  erase-others now db none j h = refl
  erase-others now db (some i) j h =
      if-both (λ (x : Db). get_user j x ≡ get_user j db) (to_anonymize (get_user i db)) _ _
        (λ _.
          find-update_first_other (λ x. x.id == i) (λ x. x.id == j) (anonymized show_uuid now)
            db.users (λ x e. unlike x.id (eq_of_== x.id i e)) (λ x. refl))
        (λ _. refl)
    where
      unlike : (x : Uuid) → x ≡ i → (x == j) ≡ false
      unlike x e = elim (Bool-cases (x == j)) [
        | inl same ↦ elim (h (ap some (sym e ∙ eq_of_== x j same))) [ ]
        | inr other ↦ other
      ]

  erase-records :
      (now : DateTime) (db : Db) (o : Option Uuid)
      → (erase_subject show_uuid now o db).data_records ≡ db.data_records
  erase-records now db none = refl
  erase-records now db (some j) = ground arith

  module _ (now : DateTime) (user : User) (k : Uuid) (db : Db) where
    fulfill_open-Ends :
        (old : DataProcessingRecord)
        → user.role ≡ Role.pmo
        → get_data_record k db ≡ some old
        → is_fulfilled old ≡ false
        → Ends
            (λ _. Unit {0})
            (λ r s. Fulfilment now user k db s.store r)
            (fulfill_open show_uuid now user k old)
            (start db)
    unfolding fulfill_open
    fulfill_open-Ends old role found opened = Ends-modify _ _ _ (
        Ends-modify _ _ _ (
          Ends-commit _ _ λ _. (
            tt,
            Ends-pure _ _ (record {
              pmo = role;
              old = old;
              found = found;
              outcome = inr record {
                was_open = not_fulfilled old opened;
                written = refl;
                stored = rw (erase-records now db (subject_to_delete old)) (
                    find-update_first (λ x. x.id == k) (fulfilled_by now user.id) db.data_records
                      found (find_sound (λ x. x.id == k) db.data_records found));
                erased = λ j u e f.
                    erase-erased now db (subject_to_delete old) j u (subject-deleted old j e f);
                spared = λ h. erase-spared now db (subject_to_delete old) (subject-spared old h);
                others =
                    λ j h. erase-others now db (subject_to_delete old) j (subject-other old j h);
              };
            }),
          )))

    fulfill_request-Ends :
        Ends
          (λ _. Unit {0})
          (λ r s. Fulfilment now user k db s.store r)
          (fulfill_request show_uuid now user k)
          (start db)
    unfolding fulfill_request
    fulfill_request-Ends = Ends-raise_if _ _ _ _ λ role. Ends-gets _ _ _ (
        Ends-or_raise _ _ _ _ λ old found.
          Ends-if _ _ _ _
            (λ done. Ends-pure _ _ (record {
              pmo = pmo_role user.role role;
              old = old;
              found = found;
              outcome = inl (fulfilled_status old.status done, refl, refl);
            }))
            (λ opened. fulfill_open-Ends old (pmo_role user.role role) found opened))

    -- A request of a data subject that is answered was fulfilled by a PMO: one that was fulfilled
    -- before is left as it is with every row; another one is stored as fulfilled by this PMO and
    -- now, and if it asks for a deletion, a subject who is a user not yet anonymized loses name,
    -- e-mail and password; no user is touched by a request of another type, and only the subject is
    -- by a deletion.
    pub fulfill_request-Fulfilment :
        (r : DataProcessingRecord)
        → (run (fulfill_request show_uuid now user k) db).0 ≡ ok r
        → Fulfilment now user k db (run (fulfill_request show_uuid now user k) db).1 r
    fulfill_request-Fulfilment r answer =
        Ends-ok (λ _. Unit {0}) (λ r s. Fulfilment now user k db s.store r)
          (fulfill_request show_uuid now user k) db r fulfill_request-Ends tt answer

  answered_before :
      (now : DateTime) (user : User) (k : Uuid) (db : Db) (r : DataProcessingRecord)
      → role_in (Role.pmo ∷ []) user.role ≡ true
      → get_data_record k db ≡ some r
      → is_fulfilled r ≡ true
      → run (fulfill_request show_uuid now user k) db ≡ (ok r, db)
  unfolding fulfill_request ◌>>=◌
  answered_before now user k db r role found done = rw (role, found, done) refl

  -- A request of a data subject that was answered once is answered with the same record from then on, whichever
  -- PMO fulfills it again, and every row is left as it is.
  pub fulfill_request-once :
      (now : DateTime) (user : User) (k : Uuid) (db : Db) (r : DataProcessingRecord)
      → (run (fulfill_request show_uuid now user k) db).0 ≡ ok r
      → (now' : DateTime) (user' : User) → role_in (Role.pmo ∷ []) user'.role ≡ true
      → let after = (run (fulfill_request show_uuid now user k) db).1 in
        run (fulfill_request show_uuid now' user' k) after ≡ (ok r, after)
  fulfill_request-once now user k db r answer now' user' role =
      let after = (run (fulfill_request show_uuid now user k) db).1 in
      let h = fulfill_request-Fulfilment now user k db r answer in
      answered_before now' user' k after r role (stands h h.outcome) (done h h.outcome)
    where
      stands :
          {after : Db} (h : Fulfilment now user k db after r)
          → (h.old.status ≡ DpRequestStatus.fulfilled) × (r ≡ h.old) × (after ≡ db)
            ⊎ Fulfilling now user k h.old db after r
          → get_data_record k after ≡ some r
      stands h (inl (_, same, kept)) = ap (get_data_record k) kept ∙ h.found ∙ ap some (sym same)
      stands h (inr w) = w.stored

      done :
          {after : Db} (h : Fulfilment now user k db after r)
          → (h.old.status ≡ DpRequestStatus.fulfilled) × (r ≡ h.old) × (after ≡ db)
            ⊎ Fulfilling now user k h.old db after r
          → is_fulfilled r ≡ true
      done h (inl (f, same, kept)) = is_fulfilled-of r (ap (λ x. x.status) same ∙ f)
      done h (inr w) = ap is_fulfilled w.written
