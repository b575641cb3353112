-- ===== src/Report/Patch/Progresses.antt =====
-- The progresses of the PATCH: the check of acceptance, the flags and the promotion of deliverables.
use gp_portal.Base.{
  String, Bool, true, false, not, Option, none, some, List, [], ◌∷◌, ◌++◌, ◌&&◌, ◌==◌, str_eq, any,
  find, where_, update_where, same_option,
}
use gp_portal.Domain.{ProgressStatus, DeliverableStatus, Uuid, Date, Deliverable, DeliveryProgress}
use gp_portal.Store.{M, pure, gets, modify, new_uuid, ◌>>=◌, ◌>>◌, get_deliverable}
use gp_portal.Report.Patch.Payload.{
  Field, unset, given, get, get_nullable, or_default, items, DeliveryProgressIn,
}

abbrev pub same_text : Option String → Option String → Bool
same_text none none = true
same_text (some s) (some t) = str_eq s t
same_text _ _ = false

abbrev pub same_bool : Option Bool → Option Bool → Bool
same_bool none none = true
same_bool (some true) (some true) = true
same_bool (some false) (some false) = true
same_bool _ _ = false

abbrev pub is_done : Option ProgressStatus → Bool
is_done (some ProgressStatus.done) = true
is_done _ = false

abbrev pub same_progress_status : Option ProgressStatus → Option ProgressStatus → Bool
same_progress_status (some ProgressStatus.planned) (some ProgressStatus.planned) = true
same_progress_status (some ProgressStatus.in_progress) (some ProgressStatus.in_progress) = true
same_progress_status (some ProgressStatus.done) (some ProgressStatus.done) = true
same_progress_status (some ProgressStatus.blocked) (some ProgressStatus.blocked) = true
same_progress_status none none = true
same_progress_status _ _ = false

-- `status == "done" and percent_complete == 100`
abbrev pub is_done_complete : DeliveryProgressIn → Bool
is_done_complete p = is_done (get p.status) && same_option (get p.percent_complete) (some 100)

-- `acceptance_confirmed is True`
abbrev pub is_confirmed : DeliveryProgressIn → Bool
is_confirmed p = same_bool (get_nullable p.acceptance_confirmed) (some true)

abbrev pub unconfirmed : DeliveryProgressIn → Bool
unconfirmed p = is_done_complete p && not (is_confirmed p)

-- The check over `data["progresses"] or []`, made if the key is there.
abbrev pub unconfirmed_in : Field (Option (List DeliveryProgressIn)) → Bool
unconfirmed_in unset = false
unconfirmed_in (given ps) = any unconfirmed (items ps)

-- `_is_edit_of_prepopulated` over `_PROGRESS_SIGNIFICANT_FIELDS`
abbrev pub progress_edited : DeliveryProgress → DeliveryProgressIn → Bool
progress_edited snap p =
    snap.is_prepopulated
    && not (
        same_progress_status (some snap.status) (get p.status)
        && same_option (some snap.percent_complete) (get p.percent_complete)
        && same_text snap.comment (get_nullable p.comment)
        && same_option snap.revised_date (get_nullable p.revised_date)
        && same_bool snap.acceptance_confirmed (get_nullable p.acceptance_confirmed))

-- The flag of the new row: zeroed by an edit, else as given, else kept.
abbrev pub kept_flag : Bool → Bool → Field Bool → Bool
kept_flag true was flag = false
kept_flag false was unset = was
kept_flag false was (given b) = b

abbrev pub progress_flag : Option DeliveryProgress → DeliveryProgressIn → Bool
progress_flag none p = or_default false p.is_prepopulated
progress_flag (some snap) p =
    kept_flag (progress_edited snap p) snap.is_prepopulated p.is_prepopulated

-- `bool(revised and planned and revised != planned)`
abbrev pub deviates : Option Date → Option Date → Bool
deviates (some revised) (some planned) = not (revised == planned)
deviates _ _ = false

abbrev pub due_date_of : Option Deliverable → Option Date
due_date_of none = none
due_date_of (some d) = d.due_date

abbrev pub new_progress :
    Uuid → Uuid → Option Date → Option DeliveryProgress → DeliveryProgressIn → DeliveryProgress
new_progress k report_id planned snap p = record {
  id = k;
  report_id = report_id;
  deliverable_id = p.deliverable_id;
  status = or_default ProgressStatus.planned p.status;
  percent_complete = or_default 0 p.percent_complete;
  comment = get_nullable p.comment;
  revised_date = get_nullable p.revised_date;
  deviation_flag = deviates (get_nullable p.revised_date) planned;
  acceptance_confirmed = get_nullable p.acceptance_confirmed;
  is_prepopulated = progress_flag snap p;
}

-- The loop that adds the rows; `snaps` are the report's rows before the delete.
unfoldable pub add_progresses :
    Uuid → List DeliveryProgress → List DeliveryProgressIn → M (Unit {0})
add_progresses report_id snaps [] = pure tt
add_progresses report_id snaps (p ∷ ps) = do
  deliv ← gets (get_deliverable p.deliverable_id)
  k ← new_uuid
  let snap = find (λ q. q.deliverable_id == p.deliverable_id) snaps
  modify λ db. record db {
    progresses = db.progresses ++ new_progress k report_id (due_date_of deliv) snap p ∷ [];
  }
  add_progresses report_id snaps ps

abbrev pub concludes : DeliveryProgressIn → Bool
concludes p = is_done_complete p && is_confirmed p

-- The deliverable is in `deliv_ids_to_conclude`.
abbrev pub is_concluded_by : List DeliveryProgressIn → Deliverable → Bool
is_concluded_by ps d = any (λ p. concludes p && p.deliverable_id == d.id) ps

abbrev pub conclude : Deliverable → Deliverable
conclude d = record d { status = DeliverableStatus.concluded }

unfoldable pub patch_progresses : Uuid → Field (Option (List DeliveryProgressIn)) → M (Unit {0})
unfolding add_progresses
patch_progresses report_id unset = pure tt
patch_progresses report_id (given ps) = do
  snaps ← gets (λ db. where_ (λ q. q.report_id == report_id) db.progresses)
  modify λ db. record db { progresses = where_ (λ q. not (q.report_id == report_id)) db.progresses }
  add_progresses report_id snaps (items ps)
  modify λ db. record db {
    deliverables = update_where (is_concluded_by (items ps)) conclude db.deliverables;
  }
