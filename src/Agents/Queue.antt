-- ===== src/Agents/Queue.antt =====
-- The publisher of jobs: backend/app/queue/publisher.py. A job goes to the list `jobs.agent` of
-- Redis at once, which neither the commit nor a rollback of the rows concerns.
pub mod Once
use gp_portal.Base.{
  ℕ, String, Bool, true, false, Option, none, some, List, [], ◌∷◌, ◌++◌, ◌||◌, any, length, str_eq,
  is_some, if◌then◌else◌,
}
use gp_portal.Domain.{
  TaskType, AgentRunStatus, Uuid, DateTime, AgentRunLog, Json, JsonFields, AgentJob,
}
use gp_portal.Store.{Db, M, Session, ok, pure, gets, modify, flush, commit, ◌>>=◌, ◌>>◌, get_run}

-- The arguments of `enqueue_agent_job`; a context and input files that are missing are empty.
pub record JobRequest : Type 0 where
  pub task_type : TaskType
  pub project_id : Option Uuid
  pub proposal_id : Option Uuid
  pub report_id : Option Uuid
  pub context : List (String × Json)
  pub input_files : List (String × String)
  pub output_path_hint : String
  pub schema_hint : Option JsonFields
  pub timeout_hard_s : ℕ
  pub heartbeat_s : ℕ
  pub engine_preference : Option String

-- `context.setdefault(key, value)` for a key that is given.
abbrev pub has_key : String → List (String × Json) → Bool
has_key k [] = false
has_key k ((name, x) ∷ l) = str_eq name k || has_key k l

abbrev pub set_default :
    (show_uuid : Uuid → String) → String → Option Uuid → List (String × Json) → List (String × Json)
set_default show_uuid k none l = l
set_default show_uuid k (some i) l =
    if has_key k l then l else l ++ (k, Json.text (show_uuid i)) ∷ []

abbrev pub full_context : (show_uuid : Uuid → String) → JobRequest → List (String × Json)
full_context show_uuid p = set_default show_uuid "report_id" p.report_id (
    set_default show_uuid "proposal_id" p.proposal_id
      (set_default show_uuid "project_id" p.project_id p.context))

-- `_build_payload`
abbrev pub build_payload : DateTime → String → List (String × Json) → JobRequest → AgentJob
build_payload now run_id context p = record {
  run_id = run_id;
  task_type = p.task_type;
  engine_preference = p.engine_preference;
  context = context;
  input_files = p.input_files;
  output_path_hint = p.output_path_hint;
  schema_hint = p.schema_hint;
  timeout_hard_s = p.timeout_hard_s;
  heartbeat_s = p.heartbeat_s;
  enqueued_at = now;
}

abbrev pub queued_log : DateTime → String → JobRequest → AgentRunLog
queued_log now run_id p = record {
  run_id = run_id;
  task_type = p.task_type;
  project_id = p.project_id;
  proposal_id = p.proposal_id;
  report_id = p.report_id;
  engine_used = none;
  route_used = none;
  failover_occurred = false;
  attempts = [];
  duration_s = none;
  worker_id = none;
  artifact_path = none;
  status = AgentRunStatus.queued;
  failure_reason = none;
  failure_detail = none;
  created_at = now;
  started_at = none;
  completed_at = none;
}

abbrev pub with_job : AgentJob → Db → Db
with_job job db = record db { jobs = db.jobs ++ job ∷ [] }

-- `redis.rpush`, which both what is committed and what is pending have from then on.
unfoldable pub rpush : AgentJob → M (Unit {0})
rpush job s = (ok tt, record s { store = with_job job s.store; work = with_job job s.work })

unfoldable pub publish :
    (show_uuid : Uuid → String) → DateTime → String → JobRequest → M AgentRunLog
unfolding rpush
publish show_uuid now run_id p = do
  let row = queued_log now run_id p
  modify λ db. record db { agent_runs = db.agent_runs ++ row ∷ [] }
  flush
  rpush (build_payload now run_id (full_context show_uuid p) p)
  commit
  pure row

-- The run that stands for the identifier, or a new one.
abbrev pub existing_or_publish :
    (show_uuid : Uuid → String)
    → DateTime
    → String
    → JobRequest
    → Option AgentRunLog
    → M AgentRunLog
existing_or_publish show_uuid now run_id p (some existing) = pure existing
existing_or_publish show_uuid now run_id p none = publish show_uuid now run_id p

-- `enqueue_agent_job` with the identifier of the run, which the caller gives or `make_run_id` makes.
unfoldable pub enqueue_agent_job :
    (show_uuid : Uuid → String) → DateTime → String → JobRequest → M AgentRunLog
unfolding publish
enqueue_agent_job show_uuid now run_id p = do
  existing ← gets (get_run run_id)
  existing_or_publish show_uuid now run_id p existing

-- `queue_depth`
abbrev pub queue_depth : Db → ℕ
queue_depth db = length db.jobs
