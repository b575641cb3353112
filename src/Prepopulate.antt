-- ===== src/Prepopulate.antt =====
-- backend/app/services/prepopulate.py, and its endpoint `create_report_prepopulated` of
-- backend/app/api/v1/reports.py: a draft that inherits from the last report of the project.
pub mod Frame
pub mod Once
pub mod Clash
use gp_portal.Base.{
  ℕ, ◌+◌, ◌-◌, String, Bool, true, false, not, Option, none, some, List, [], ◌∷◌, ◌++◌, ◌&&◌, ◌==◌,
  ltb, leb, where_, sort, head_of, if◌then◌else◌,
}
use gp_portal.Domain.{
  Role, ProgressStatus, PendingItemStatus, Uuid, Date, DateTime, User, Project, Baseline,
  Deliverable, Report, DeliveryProgress, Risk, PendingItem, is_open_risk,
}
use gp_portal.Store.{
  Db, M, http, existing_report, date_overflow, raise, raise_if, or_raise, pure, gets, modify,
  new_uuid, flush, commit, scalar_one_or_none, ◌>>=◌, ◌>>◌,
}
use gp_portal.Access.{require_any_role, ensure_project_owned}
use gp_portal.HealthScore.{active_baselines, is_submitted}
use gp_portal.Report.Create.{new_report, add_report}

-- `_find_existing_in_period`
abbrev pub in_period : Uuid → Date → Date → Report → Bool
in_period k start end_ r = r.project_id == k && r.period_start == start && r.period_end == end_

abbrev pub reports_in_period : Uuid → Date → Date → Db → List Report
reports_in_period k start end_ db = where_ (in_period k start end_) db.reports

abbrev pub ends_later : Report → Report → Bool
ends_later a b = leb b.period_end a.period_end

-- `_find_previous_report`: the statuses of `_HERITABLE_REPORT_STATUSES` are those of a submitted
-- report.
abbrev pub previous_report : Uuid → Db → Option Report
previous_report k db =
    head_of (sort ends_later (where_ (λ r. r.project_id == k && is_submitted r.status) db.reports))

-- `period_start - timedelta(days=30)`: there is no date before day 1.
abbrev pub window_start : Date → Option Date
window_start start = if ltb 30 start then some (start - 30) else none

abbrev pub due_within : Date → Date → Option Date → Bool
due_within first last none = false
due_within first last (some due) = leb first due && leb due last

-- `_deliverables_in_window`
abbrev pub deliverables_in_window : Uuid → Date → Date → Db → List Deliverable
deliverables_in_window k first last db =
    where_ (λ d. d.baseline_id == k && due_within first last d.due_date) db.deliverables

abbrev pub is_opened : PendingItemStatus → Bool
is_opened PendingItemStatus.opened = true
is_opened _ = false

abbrev pub open_risks_of : Uuid → Db → List Risk
open_risks_of k db = where_ (λ r. r.report_id == k && is_open_risk r.status) db.risks

abbrev pub open_pending_of : Uuid → Db → List PendingItem
open_pending_of k db = where_ (λ p. p.report_id == k && is_opened p.status) db.pending_items

abbrev pub inherited_risk : DateTime → Uuid → Uuid → Risk → Risk
inherited_risk now k report_id r = record r {
  id = k;
  report_id = report_id;
  created_at = now;
  is_prepopulated = true;
}

abbrev pub inherited_pending : DateTime → Uuid → Uuid → PendingItem → PendingItem
inherited_pending now k report_id p = record p {
  id = k;
  report_id = report_id;
  created_at = now;
  is_prepopulated = true;
}

abbrev pub placeholder : Uuid → Uuid → Deliverable → DeliveryProgress
placeholder k report_id d = record {
  id = k;
  report_id = report_id;
  deliverable_id = d.id;
  status = ProgressStatus.planned;
  percent_complete = 0;
  comment = none;
  revised_date = none;
  deviation_flag = false;
  acceptance_confirmed = none;
  is_prepopulated = true;
}

unfoldable pub inherit_risks : DateTime → Uuid → List Risk → M (Unit {0})
inherit_risks now report_id [] = pure tt
inherit_risks now report_id (r ∷ rs) = do
  k ← new_uuid
  modify λ db. record db { risks = db.risks ++ inherited_risk now k report_id r ∷ [] }
  inherit_risks now report_id rs

unfoldable pub inherit_pending : DateTime → Uuid → List PendingItem → M (Unit {0})
inherit_pending now report_id [] = pure tt
inherit_pending now report_id (p ∷ ps) = do
  k ← new_uuid
  modify λ db. record db {
    pending_items = db.pending_items ++ inherited_pending now k report_id p ∷ [];
  }
  inherit_pending now report_id ps

unfoldable pub add_placeholders : Uuid → List Deliverable → M (Unit {0})
add_placeholders report_id [] = pure tt
add_placeholders report_id (d ∷ ds) = do
  k ← new_uuid
  modify λ db. record db { progresses = db.progresses ++ placeholder k report_id d ∷ [] }
  add_placeholders report_id ds

-- `if previous:`
unfoldable pub inherit_from : DateTime → Uuid → Option Report → M (Unit {0})
unfolding inherit_risks inherit_pending
inherit_from now report_id none = pure tt
inherit_from now report_id (some previous) = do
  risks ← gets (open_risks_of previous.id)
  inherit_risks now report_id risks
  pending ← gets (open_pending_of previous.id)
  inherit_pending now report_id pending

abbrev pub refuse_existing : Option Report → M (Unit {0})
refuse_existing none = pure tt
refuse_existing (some r) = raise (existing_report r.id)

unfoldable pub prepopulate_report : DateTime → Project → Date → Date → Uuid → M Report
unfolding inherit_from add_placeholders
prepopulate_report now project start end_ author = do
  raise_if (ltb end_ start) (http 400)
  clashes ← gets (reports_in_period project.id start end_)
  existing ← scalar_one_or_none clashes
  refuse_existing existing
  actives ← gets (active_baselines project.id)
  active ← scalar_one_or_none actives
  baseline ← or_raise active (http 409)
  k ← new_uuid
  let report = new_report k project.id start end_ author now
  modify (add_report report)
  flush
  previous ← gets (previous_report project.id)
  inherit_from now k previous
  first ← or_raise (window_start start) date_overflow
  due ← gets (deliverables_in_window baseline.id first end_)
  add_placeholders k due
  commit
  pure report

unfoldable pub create_report_prepopulated : DateTime → User → Uuid → Date → Date → M Report
unfolding prepopulate_report
create_report_prepopulated now user project_id start end_ = do
  require_any_role (Role.gp ∷ []) user
  project ← ensure_project_owned project_id user
  prepopulate_report now project start end_ user.id
