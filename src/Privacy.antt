-- ===== src/Privacy.antt =====
-- The requests of data subjects under the LGPD: backend/app/api/v1/admin_data_requests.py, and the
-- records that backend/app/api/v1/me.py adds. The messages to the officer and the subject, and the
-- archive of an export, are no part of the state.
pub mod Fulfilled
pub mod Anonymous
use Prim.Native.String.{◌++◌ as append}
use gp_portal.Base.{
  ℕ, ◌-◌, ◌*◌, String, Bool, true, false, not, ◌&&◌, ◌||◌, Option, none, some, List, [], ◌∷◌, ◌++◌,
  ◌==◌, ltb, length, where_, sort, take, drop, if◌then◌else◌,
}
use gp_portal.Domain.{
  Role, Uuid, DateTime, User, DataProcessingRecord, DpRequestType, DpRequestStatus,
}
use gp_portal.Store.{
  Db, M, http, raise_if, or_raise, pure, gets, modify, new_uuid, commit, ◌>>=◌, ◌>>◌, get_user,
  get_data_record, set_user, set_data_record,
}
use gp_portal.Access.{require_any_role}

pub record AdminDataRequestCreate : Type 0 where
  pub subject_external_email : String
  pub request_type : DpRequestType
  pub notes : Option String

abbrev pub external_record :
    DateTime → Uuid → String → AdminDataRequestCreate → DataProcessingRecord
external_record now k email p = record {
  id = k;
  subject_user_id = none;
  subject_external_email = some email;
  request_type = p.request_type;
  status = DpRequestStatus.pending;
  requested_at = now;
  fulfilled_at = none;
  handled_by_id = none;
  notes = p.notes;
}

abbrev pub add_data_record : DataProcessingRecord → Db → Db
add_data_record r db = record db { data_records = db.data_records ++ r ∷ [] }

-- `lower` is Python's `str.lower`.
unfoldable pub create_manual_request :
    (lower : String → String) → DateTime → User → AdminDataRequestCreate → M DataProcessingRecord
create_manual_request lower now user payload = do
  require_any_role (Role.pmo ∷ []) user
  k ← new_uuid
  let row = external_record now k (lower payload.subject_external_email) payload
  modify (add_data_record row)
  commit
  pure row

abbrev pub same_request_type : DpRequestType → DpRequestType → Bool
same_request_type DpRequestType.export DpRequestType.export = true
same_request_type DpRequestType.deletion DpRequestType.deletion = true
same_request_type DpRequestType.access DpRequestType.access = true
same_request_type DpRequestType.rectification DpRequestType.rectification = true
same_request_type _ _ = false

abbrev pub same_request_status : DpRequestStatus → DpRequestStatus → Bool
same_request_status DpRequestStatus.pending DpRequestStatus.pending = true
same_request_status DpRequestStatus.approved DpRequestStatus.approved = true
same_request_status DpRequestStatus.fulfilled DpRequestStatus.fulfilled = true
same_request_status DpRequestStatus.rejected DpRequestStatus.rejected = true
same_request_status _ _ = false

abbrev pub passes_status : Option DpRequestStatus → DataProcessingRecord → Bool
passes_status none r = true
passes_status (some s) r = same_request_status r.status s

abbrev pub passes_type : Option DpRequestType → DataProcessingRecord → Bool
passes_type none r = true
passes_type (some t) r = same_request_type r.request_type t

abbrev pub requested_later : DataProcessingRecord → DataProcessingRecord → Bool
requested_later r q = not (ltb r.requested_at q.requested_at)

pub record DataProcessingRecordList : Type 0 where
  pub items : List DataProcessingRecord
  pub total : ℕ
  pub page : ℕ
  pub page_size : ℕ

abbrev pub passing : Option DpRequestStatus → Option DpRequestType → Db → List DataProcessingRecord
passing status_filter type_filter db =
    where_ (λ r. passes_status status_filter r && passes_type type_filter r) db.data_records

-- The page and its size are declared with bounds.
unfoldable pub list_requests :
    Option DpRequestStatus → Option DpRequestType → ℕ → ℕ → User → M DataProcessingRecordList
list_requests status_filter type_filter page page_size user = do
  require_any_role (Role.pmo ∷ []) user
  raise_if (ltb page 1 || ltb page_size 1 || ltb 200 page_size) (http 422)
  rows ← gets (passing status_filter type_filter)
  pure record {
    items = take page_size (drop ((page - 1) * page_size) (sort requested_later rows));
    total = length rows;
    page = page;
    page_size = page_size;
  }

-- The constant `_ANON_NAME`.
abbrev pub anonymous_name : String
anonymous_name = "Titular removido"

-- `_anon_email`; `show_uuid` prints a key.
abbrev pub anonymous_email : (show_uuid : Uuid → String) → Uuid → String
anonymous_email show_uuid k = append "anonymized_" (append (show_uuid k) "@removed.local")

abbrev pub anonymized : (show_uuid : Uuid → String) → DateTime → User → User
anonymized show_uuid now u = record u {
  name = anonymous_name;
  email = anonymous_email show_uuid u.id;
  password_hash = "";
  anonymized_at = some now;
}

abbrev pub to_anonymize : Option User → Bool
to_anonymize none = false
to_anonymize (some u) = elim u.anonymized_at [ none ↦ true | some t ↦ false ]

-- The subject of a deletion that is a user of the portal.
abbrev pub subject_to_delete : DataProcessingRecord → Option Uuid
subject_to_delete r =
    if same_request_type r.request_type DpRequestType.deletion then r.subject_user_id else none

abbrev pub erase_subject : (show_uuid : Uuid → String) → DateTime → Option Uuid → Db → Db
erase_subject show_uuid now none db = db
erase_subject show_uuid now (some k) db =
    if to_anonymize (get_user k db) then set_user k (anonymized show_uuid now) db else db

abbrev pub fulfilled_by : DateTime → Uuid → DataProcessingRecord → DataProcessingRecord
fulfilled_by now by r = record r {
  status = DpRequestStatus.fulfilled;
  fulfilled_at = some now;
  handled_by_id = some by;
}

abbrev pub is_fulfilled : DataProcessingRecord → Bool
is_fulfilled r = same_request_status r.status DpRequestStatus.fulfilled

unfoldable pub fulfill_open :
    (show_uuid : Uuid → String)
    → DateTime
    → User
    → Uuid
    → DataProcessingRecord
    → M DataProcessingRecord
fulfill_open show_uuid now user record_id r = do
  modify (erase_subject show_uuid now (subject_to_delete r))
  modify (set_data_record record_id (fulfilled_by now user.id))
  commit
  pure (fulfilled_by now user.id r)

unfoldable pub fulfill_request :
    (show_uuid : Uuid → String) → DateTime → User → Uuid → M DataProcessingRecord
unfolding fulfill_open
fulfill_request show_uuid now user record_id = do
  require_any_role (Role.pmo ∷ []) user
  found ← gets (get_data_record record_id)
  r ← or_raise found (http 404)
  if is_fulfilled r then pure r else fulfill_open show_uuid now user record_id r

abbrev pub subject_record :
    DateTime → Uuid → User → DpRequestType → Option String → DataProcessingRecord
subject_record now k user type notes = record {
  id = k;
  subject_user_id = some user.id;
  subject_external_email = none;
  request_type = type;
  status = DpRequestStatus.pending;
  requested_at = now;
  fulfilled_at = none;
  handled_by_id = none;
  notes = notes;
}

-- The record that `data_export` leaves behind its archive.
unfoldable pub log_export : DateTime → User → M (Unit {0})
log_export now user = do
  k ← new_uuid
  let note = some "Exportação automática via GET /me/data-export."
  modify (
      add_data_record
        (fulfilled_by now user.id (subject_record now k user DpRequestType.export note)))
  commit

unfoldable pub request_data_deletion : DateTime → User → Option String → M DataProcessingRecord
request_data_deletion now user notes = do
  k ← new_uuid
  let row = subject_record now k user DpRequestType.deletion notes
  modify (add_data_record row)
  commit
  pure row
