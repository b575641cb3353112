-- ===== src/Agents/Results.antt =====
-- The callbacks of a worker: backend/app/api/internal/agent_results.py and heartbeats.py. The
-- reading of a body as JSON by its schema is a parameter: none is an error of either.
pub mod Final
use gp_portal.Base.{
  ℕ, String, Bool, true, false, not, ◌||◌, Option, none, some, List, [], ◌∷◌, ◌++◌, is_some,
  update_first, any, str_eq, if◌then◌else◌, all,
}
use gp_portal.Domain.{
  AgentRunStatus, DateTime, AgentRunLog, Decimal, Json, JsonFields, WorkerHeartbeat,
}
use gp_portal.Store.{
  Db, M, http, raise_if, or_raise, pure, gets, modify, commit, ◌>>=◌, ◌>>◌, get_run, set_run,
  get_heartbeat, type_error,
}
use gp_portal.Agents.Auth.{WorkerKeys, WorkerCallback, require_worker_auth}

pub record AgentResultPayload : Type 0 where
  pub success : Bool
  pub engine_used : Option String
  pub route_used : Option String
  pub artifact_data : Option JsonFields
  pub artifact_path : Option String
  pub attempts : List JsonFields
  pub duration_s : Option Decimal
  pub failure_reason : Option String
  pub failure_detail : Option String
  pub worker_id : Option String

pub record AgentResultAck : Type 0 where
  pub accepted : Bool
  pub run_id : String
  pub status : AgentRunStatus
  pub duplicated : Bool
  pub note : Option String

-- `status in _TERMINAL`
abbrev pub is_terminal : AgentRunStatus → Bool
is_terminal AgentRunStatus.done = true
is_terminal AgentRunStatus.failed = true
is_terminal AgentRunStatus.expired = true
is_terminal _ = false

-- `a.get("engine")`; of a key that stands twice the last value counts.
abbrev pub get_key : String → JsonFields → Option Json
get_key k JsonFields.end = none
get_key k (JsonFields.field name x rest) = elim (get_key k rest) [
  | some y ↦ some y
  | none ↦ if str_eq name k then some x else none
]

-- A list and an object have no hash, so that they are no member of a set.
abbrev pub is_hashable : Option Json → Bool
is_hashable (some (Json.array l)) = false
is_hashable (some (Json.object d)) = false
is_hashable _ = true

abbrev pub engine_of : Option Json → Json
engine_of none = Json.null
engine_of (some x) = x

-- The set of the engines is made of values with a hash.
abbrev pub engines_hashable : List JsonFields → Bool
engines_hashable l = all (λ a. is_hashable (get_key "engine" a)) l

-- `len({a.get("engine") for a in attempts}) > 1`, where `equal` is `==`; a missing key is None.
abbrev pub several_engines : (Json → Json → Bool) → List JsonFields → Bool
several_engines equal [] = false
several_engines equal (a ∷ l) =
    any (λ b. not (equal (engine_of (get_key "engine" a)) (engine_of (get_key "engine" b)))) l

abbrev pub status_of : Bool → AgentRunStatus
status_of true = AgentRunStatus.done
status_of false = AgentRunStatus.failed

abbrev pub attempt_objects : List JsonFields → List Json
attempt_objects [] = []
attempt_objects (a ∷ l) = Json.object a ∷ attempt_objects l

abbrev pub reported :
    (Json → Json → Bool) → DateTime → AgentResultPayload → AgentRunLog → AgentRunLog
reported equal now p r = record r {
  status = status_of p.success;
  engine_used = p.engine_used;
  route_used = p.route_used;
  failover_occurred = several_engines equal p.attempts;
  attempts = attempt_objects p.attempts;
  duration_s = p.duration_s;
  worker_id = p.worker_id;
  artifact_path = p.artifact_path;
  failure_reason = p.failure_reason;
  failure_detail = p.failure_detail;
  completed_at = some now;
}

abbrev pub replay_ignored : String → AgentRunStatus → AgentResultAck
replay_ignored run_id status = record {
  accepted = false;
  run_id = run_id;
  status = status;
  duplicated = true;
  note = some "estado terminal já consolidado; replay ignorado";
}

abbrev pub result_accepted : String → AgentRunStatus → AgentResultAck
result_accepted run_id status = record {
  accepted = true;
  run_id = run_id;
  status = status;
  duplicated = false;
  note = none;
}

unfoldable pub accept_result :
    (Json → Json → Bool) → DateTime → String → AgentResultPayload → M AgentResultAck
accept_result equal now run_id payload = do
  raise_if (not (engines_hashable payload.attempts)) type_error
  modify (set_run run_id (reported equal now payload))
  commit
  pure (result_accepted run_id (status_of payload.success))

-- A heartbeat of a worker, which stands in the row of the worker.
pub record WorkerHeartbeatPayload : Type 0 where
  pub worker_id : String
  pub status : String
  pub sessions_status : JsonFields
  pub jobs_processed_today : ℕ
  pub jobs_failed_today : ℕ
  pub metadata : JsonFields

abbrev pub heartbeat_row : DateTime → WorkerHeartbeatPayload → WorkerHeartbeat
heartbeat_row now p = record {
  worker_id = p.worker_id;
  last_seen_at = now;
  status = p.status;
  sessions_status = p.sessions_status;
  jobs_processed_today = p.jobs_processed_today;
  jobs_failed_today = p.jobs_failed_today;
  metadata_json = p.metadata;
}

-- The row of the worker takes every column of the heartbeat but its key, which is the same.
abbrev pub beat : DateTime → WorkerHeartbeatPayload → WorkerHeartbeat → WorkerHeartbeat
beat now p w = record (heartbeat_row now p) { worker_id = w.worker_id }

abbrev pub upsert_heartbeat : DateTime → WorkerHeartbeatPayload → Db → Db
upsert_heartbeat now p db =
    if is_some (get_heartbeat p.worker_id db)
    then record db {
      heartbeats = update_first (λ w. str_eq w.worker_id p.worker_id) (beat now p) db.heartbeats;
    }
    else record db { heartbeats = db.heartbeats ++ heartbeat_row now p ∷ [] }

module _ (keys : WorkerKeys) where
  unfoldable pub report_agent_result :
      (read : String → Option AgentResultPayload)
      → DateTime
      → WorkerCallback
      → String
      → M AgentResultAck
  unfolding accept_result
  report_agent_result read now callback run_id = do
    body ← require_worker_auth keys now callback
    payload ← or_raise (read body) (http 400)
    found ← gets (get_run run_id)
    existing ← or_raise found (http 404)
    if is_terminal existing.status
        then pure (replay_ignored run_id existing.status)
        else accept_result keys.equal now run_id payload

  unfoldable pub worker_heartbeat :
      (read : String → Option WorkerHeartbeatPayload) → DateTime → WorkerCallback → M (Unit {0})
  worker_heartbeat read now callback = do
    body ← require_worker_auth keys now callback
    payload ← or_raise (read body) (http 400)
    modify (upsert_heartbeat now payload)
    commit
