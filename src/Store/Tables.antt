-- ===== src/Store/Tables.antt =====
-- The tables as lists of rows in order of insertion, with the unique constraints of
-- backend/app/models/domain.py. Keys made by `uuid.uuid4` come from a counter: all that the program
-- uses of them is that a new key differs from those before it.
use gp_portal.Base.{str_eq, Option, Bool, true, List, [], ◌∷◌, ◌&&◌, not, any, ◌==◌}
use gp_portal.Domain.{
  Uuid, User, Project, Proposal, Baseline, Deliverable, Report, DeliveryProgress, Risk, ActionPlan,
  PendingItem, ScopeChange, AgentRunLog, ReportApproval, ProjectRetrospective, InAppNotification,
  PortfolioConfig, AiInsight, WorkerHeartbeat, DataProcessingRecord, AgentJob,
}

pub record Db : Type 0 where
  pub next_id : Uuid
  pub users : List User
  pub projects : List Project
  pub proposals : List Proposal
  pub baselines : List Baseline
  pub deliverables : List Deliverable
  pub reports : List Report
  pub progresses : List DeliveryProgress
  pub risks : List Risk
  pub action_plans : List ActionPlan
  pub pending_items : List PendingItem
  pub scope_changes : List ScopeChange
  pub agent_runs : List AgentRunLog
  pub approvals : List ReportApproval
  pub retrospectives : List ProjectRetrospective
  pub notifications : List InAppNotification
  pub portfolio_config : Option PortfolioConfig
  pub insights : List AiInsight
  pub heartbeats : List WorkerHeartbeat
  pub data_records : List DataProcessingRecord
  -- The list `jobs.agent` of Redis, which no transaction rolls back.
  pub jobs : List AgentJob

-- No two rows of the table agree by `same`.
abbrev pub all_distinct {ℓ} : {A : Type ℓ} → (A → A → Bool) → List A → Bool
all_distinct same [] = true
all_distinct same (x ∷ xs) = not (any (same x) xs) && all_distinct same xs

-- `uq_progress_report_deliverable`
abbrev pub same_progress : DeliveryProgress → DeliveryProgress → Bool
same_progress p q = p.report_id == q.report_id && p.deliverable_id == q.deliverable_id

-- `uq_proposal_project_version`
abbrev pub same_version : Proposal → Proposal → Bool
same_version p q = p.project_id == q.project_id && p.version == q.version

-- `unique=True` on `ProjectRetrospective.project_id`
abbrev pub same_retrospective : ProjectRetrospective → ProjectRetrospective → Bool
same_retrospective p q = p.project_id == q.project_id

-- `unique=True` on `User.email`
abbrev pub same_email : User → User → Bool
same_email p q = str_eq p.email q.email

-- The primary key of `AgentRunLog`, which is not made by `uuid4`.
abbrev pub same_run : AgentRunLog → AgentRunLog → Bool
same_run p q = str_eq p.run_id q.run_id

-- The primary key of `WorkerHeartbeat`.
abbrev pub same_worker : WorkerHeartbeat → WorkerHeartbeat → Bool
same_worker p q = str_eq p.worker_id q.worker_id

-- The unique constraints hold.
unfoldable pub integrity : Db → Bool
integrity db =
    all_distinct same_progress db.progresses
    && all_distinct same_version db.proposals
    && all_distinct same_retrospective db.retrospectives
    && all_distinct same_email db.users
    && all_distinct same_run db.agent_runs
    && all_distinct same_worker db.heartbeats
