-- ===== src/Baseline/Transition.antt =====
-- The activation of a first baseline by the GP, the PMO's decision on a later one and the reading
-- of the active one: `activate_baseline`, `decide_baseline_transition`, `get_active_baseline` of
-- backend/app/api/v1/baselines.py.
pub mod Unique
pub mod Decided
pub mod Activated
pub mod Single
use gp_portal.Base.{
  ℕ, String, Bool, true, false, not, Option, none, some, List, [], ◌∷◌, ◌&&◌, ◌==◌, ltb, length,
  where_, update_where, same_option, no_text, if◌then◌else◌,
}
use gp_portal.Domain.{
  Role, BaselineStatus, ScopeChangeStatus, Uuid, DateTime, User, Project, Proposal, Baseline,
  ScopeChange,
}
use gp_portal.Store.{
  Db, M, http, raise_if, or_raise, pure, gets, modify, commit, attempt, scalar_one_or_none, ◌>>=◌,
  ◌>>◌, get_project, get_baseline, get_proposal, set_baseline,
}
use gp_portal.Access.{require_any_role, load_baseline_for_user, foreign_gp}
use gp_portal.Notifications.{notify_transition_decision}
use gp_portal.HealthScore.{is_active, active_baselines}
use gp_portal.Baseline.Deliverables.{is_draft}

-- `proposal and proposal.version > 1`
abbrev pub is_later_version : Option Proposal → Bool
is_later_version none = false
is_later_version (some p) = ltb 1 p.version

-- `project_id == … and id != … and status == ACTIVE`
abbrev pub is_rival : Baseline → Baseline → Bool
is_rival b x = x.project_id == b.project_id && not (x.id == b.id) && is_active x.status

abbrev pub superseded : Baseline → Baseline
superseded x = record x { status = BaselineStatus.superseded }

abbrev pub supersede_rivals : Baseline → Db → Db
supersede_rivals b db = record db { baselines = update_where (is_rival b) superseded db.baselines }

abbrev pub activated : DateTime → Uuid → Baseline → Baseline
activated now by b = record b {
  status = BaselineStatus.active;
  activated_at = some now;
  activated_by_id = some by;
}

-- From the check of the status on; an active baseline is answered as it is.
unfoldable pub activate_from : BaselineStatus → DateTime → User → Baseline → M (Unit {0})
activate_from BaselineStatus.active now user baseline = pure tt
activate_from BaselineStatus.draft now user baseline = do
  proposal ← gets (get_proposal baseline.proposal_id)
  raise_if (is_later_version proposal) (http 403)
  modify (supersede_rivals baseline)
  modify (set_baseline baseline.id (activated now user.id))
  commit
activate_from _ now user baseline = do raise_if true (http 400); pure tt

unfoldable pub activate_baseline : DateTime → User → Uuid → M (Unit {0})
unfolding activate_from
activate_baseline now user baseline_id = do
  require_any_role (Role.gp ∷ []) user
  baseline ← load_baseline_for_user baseline_id user
  activate_from baseline.status now user baseline

pub record TransitionDecisionPayload : Type 0 where
  pub approve : Bool
  pub comment : Option String

-- `_require_reject_comment`
abbrev pub unexplained : TransitionDecisionPayload → Bool
unexplained p = if p.approve then false else no_text p.comment

abbrev pub is_proposed : ScopeChangeStatus → Bool
is_proposed ScopeChangeStatus.proposed = true
is_proposed _ = false

-- `baseline_to_id == … and status == PROPOSED`
abbrev pub awaits : Uuid → ScopeChange → Bool
awaits k c = same_option c.baseline_to_id (some k) && is_proposed c.status

abbrev pub new_change_status : Bool → ScopeChangeStatus
new_change_status approve =
    if approve then ScopeChangeStatus.implemented else ScopeChangeStatus.rejected

abbrev pub decided_change : DateTime → Uuid → Bool → ScopeChange → ScopeChange
decided_change now by approve c = record c {
  status = new_change_status approve;
  approved_by_id = some by;
  decided_at = some now;
}

abbrev pub decide_changes : DateTime → Uuid → Bool → Uuid → Db → Db
decide_changes now by approve k db = record db {
  scope_changes = update_where (awaits k) (decided_change now by approve) db.scope_changes;
}

abbrev pub new_baseline_status : Bool → BaselineStatus
new_baseline_status approve = if approve then BaselineStatus.active else BaselineStatus.rejected

abbrev pub refused : Baseline → Baseline
refused b = record b { status = BaselineStatus.rejected }

-- The rival is demoted before the new baseline is promoted; a rejection leaves it.
abbrev pub decide_baseline : DateTime → Uuid → Bool → Baseline → Db → Db
decide_baseline now by true b db = set_baseline b.id (activated now by) (supersede_rivals b db)
decide_baseline now by false b db = set_baseline b.id refused db

-- `approved` is `decision == "approve"`.
pub record TransitionResult : Type 0 where
  pub baseline_id : Uuid
  pub baseline_status : BaselineStatus
  pub approved : Bool
  pub scope_changes_count : ℕ
  pub decided_at : DateTime
  pub approved_by : Uuid

abbrev pub is_empty {ℓ} : {A : Type ℓ} → List A → Bool
is_empty [] = true
is_empty (x ∷ xs) = false

unfoldable pub decide_baseline_transition :
    DateTime → User → Uuid → TransitionDecisionPayload → M TransitionResult
decide_baseline_transition now user baseline_id payload = do
  require_any_role (Role.pmo ∷ []) user
  raise_if (unexplained payload) (http 422)
  found ← gets (get_baseline baseline_id)
  baseline ← or_raise found (http 404)
  owner ← gets (get_project baseline.project_id)
  project ← or_raise owner (http 404)
  raise_if (not (is_draft baseline.status)) (http 409)
  rows ← gets (λ db. where_ (awaits baseline_id) db.scope_changes)
  raise_if (is_empty rows) (http 422)
  modify (decide_changes now user.id payload.approve baseline_id)
  modify (decide_baseline now user.id payload.approve baseline)
  commit
  attempt (
      notify_transition_decision now project baseline payload.approve (length rows) payload.comment)
  pure (record {
    baseline_id = baseline_id;
    baseline_status = new_baseline_status payload.approve;
    approved = payload.approve;
    scope_changes_count = length rows;
    decided_at = now;
    approved_by = user.id;
  })

unfoldable pub get_active_baseline : User → Uuid → M (Option Baseline)
get_active_baseline user project_id = do
  require_any_role (Role.gp ∷ Role.pmo ∷ Role.operator ∷ []) user
  found ← gets (get_project project_id)
  project ← or_raise found (http 404)
  raise_if (foreign_gp user project) (http 403)
  rows ← gets (active_baselines project_id)
  scalar_one_or_none rows
