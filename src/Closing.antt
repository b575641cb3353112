-- ===== src/Closing.antt =====
-- The closing of a project and its retrospective: `close_project`, `get_retrospective` of
-- backend/app/api/v1/projects.py.
pub mod Closed
use gp_portal.Base.{
  ℕ, ◌+◌, String, Bool, true, false, not, Option, none, some, List, [], ◌∷◌, ◌++◌, ◌&&◌, ◌||◌, ◌==◌,
  ltb, any, find, length, count_where, if◌then◌else◌,
}
use gp_portal.Domain.{
  Role, ProjectStatus, ReportStatus, ScopeChangeStatus, BaselineStatus, Uuid, Date, DateTime, User,
  Project, Proposal, Baseline, Report, Risk, ScopeChange, MaterializedRiskItem,
  ProjectRetrospective,
}
use gp_portal.Store.{
  Db, M, http, raise, raise_if, or_raise, pure, gets, modify, new_uuid, commit, ◌>>=◌, ◌>>◌,
  get_project, get_proposal, get_report, set_project, scalar_one_or_none,
}
use gp_portal.Base.{where_}
use gp_portal.Access.{require_any_role, foreign_gp, not_client, same_role}
use gp_portal.Baseline.{is_draft}
use gp_portal.Baseline.Transition.{is_proposed, is_later_version}

-- `_REPORT_BLOCKING_STATUSES`
abbrev pub is_blocking : ReportStatus → Bool
is_blocking ReportStatus.draft = true
is_blocking ReportStatus.submitted = true
is_blocking ReportStatus.pmo_approved = true
is_blocking ReportStatus.needs_revision = true
is_blocking _ = false

abbrev pub is_open_project : ProjectStatus → Bool
is_open_project ProjectStatus.active = true
is_open_project _ = false

abbrev pub pending_change : Uuid → ScopeChange → Bool
pending_change k c = c.project_id == k && is_proposed c.status

abbrev pub blocking_report : Uuid → Report → Bool
blocking_report k r = r.project_id == k && is_blocking r.status

-- The join of a draft baseline with a proposal of a later version.
abbrev pub undecided_baseline : Uuid → Db → Baseline → Bool
undecided_baseline k db b =
    b.project_id == k && is_draft b.status && is_later_version (get_proposal b.proposal_id db)

abbrev pub report_in : Uuid → Option Report → Bool
report_in k none = false
report_in k (some r) = r.project_id == k

-- The risk exists, and its report is one of the project.
abbrev pub is_risk_of : Uuid → Db → Uuid → Bool
is_risk_of k db risk_id =
    any (λ r. r.id == risk_id && report_in k (get_report r.report_id db)) db.risks

abbrev pub foreign_risk : Uuid → Db → MaterializedRiskItem → Bool
foreign_risk k db item = not (is_risk_of k db item.risk_id)

pub record RetrospectiveCreate : Type 0 where
  pub delivered_vs_proposed : String
  pub would_do_differently : String
  pub client_feedback : String
  pub materialized_risks : List MaterializedRiskItem

abbrev pub new_retrospective :
    DateTime → Uuid → Uuid → Uuid → RetrospectiveCreate → ProjectRetrospective
new_retrospective now k project_id author p = record {
  id = k;
  project_id = project_id;
  delivered_vs_proposed = p.delivered_vs_proposed;
  would_do_differently = p.would_do_differently;
  client_feedback = p.client_feedback;
  materialized_risks = p.materialized_risks;
  created_by_id = author;
  created_at = now;
}

abbrev pub closed : Date → Project → Project
closed today p = record p { status = ProjectStatus.closed; ended_at = some today }

unfoldable pub close_project :
    DateTime → Date → User → Uuid → RetrospectiveCreate → M ProjectRetrospective
close_project now today user project_id payload = do
  require_any_role (Role.gp ∷ []) user
  found ← gets (get_project project_id)
  project ← or_raise found (http 404)
  raise_if (not (project.gp_user_id == user.id)) (http 403)
  raise_if (not (is_open_project project.status)) (http 409)
  changes ← gets (λ db. any (pending_change project_id) db.scope_changes)
  raise_if changes (http 409)
  reports ← gets (λ db. any (blocking_report project_id) db.reports)
  raise_if reports (http 409)
  baselines ← gets (λ db. any (undecided_baseline project_id db) db.baselines)
  raise_if baselines (http 409)
  foreign ← gets (λ db. any (foreign_risk project_id db) payload.materialized_risks)
  raise_if foreign (http 422)
  k ← new_uuid
  let retro = new_retrospective now k project_id user.id payload
  modify λ db. record db { retrospectives = db.retrospectives ++ retro ∷ [] }
  modify (set_project project_id (closed today))
  commit
  pure retro

unfoldable pub get_retrospective : User → Uuid → M ProjectRetrospective
get_retrospective user project_id = do
  require_any_role (Role.gp ∷ Role.pmo ∷ Role.operator ∷ Role.client ∷ []) user
  found ← gets (get_project project_id)
  project ← or_raise found (http 404)
  raise_if (foreign_gp user project) (http 403)
  raise_if (same_role user.role Role.client && not_client user project) (http 403)
  rows ← gets (λ db. where_ (λ r. r.project_id == project_id) db.retrospectives)
  retro ← scalar_one_or_none rows
  or_raise retro (http 404)
