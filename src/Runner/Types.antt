-- ===== src/Runner/Types.antt =====
-- The types of a run: jump_agent_runner/jump_agent_runner/types.py, the events that are emitted,
-- and the two sets of reasons of policy.py.
use gp_portal.Base.{ℕ, String, Bool, true, false, Option, some, List}
use gp_portal.Domain.{JsonFields}

pub data Engine : Type 0 where
  claude codex : Engine

pub data Route : Type 0 where
  headless broker : Route

pub data FailureReason : Type 0 where
  login_required quota_exceeded interactive_mode_detected timeout_no_artifact : FailureReason
  execution_error sentinel_not_observed artifact_invalid broker_unavailable : FailureReason

abbrev pub engine_value : Engine → String
engine_value Engine.claude = "claude"
engine_value Engine.codex = "codex"

abbrev pub route_value : Route → String
route_value Route.headless = "headless"
route_value Route.broker = "broker"

abbrev pub reason_value : FailureReason → String
reason_value FailureReason.login_required = "login_required"
reason_value FailureReason.quota_exceeded = "quota_exceeded"
reason_value FailureReason.interactive_mode_detected = "interactive_mode_detected"
reason_value FailureReason.timeout_no_artifact = "timeout_no_artifact"
reason_value FailureReason.execution_error = "execution_error"
reason_value FailureReason.sentinel_not_observed = "sentinel_not_observed"
reason_value FailureReason.artifact_invalid = "artifact_invalid"
reason_value FailureReason.broker_unavailable = "broker_unavailable"

pub record AgentTask : Type 0 where
  pub run_id : String
  pub prompt : String
  pub output_path : String
  pub schema_hint : Option JsonFields
  pub workspace : String
  pub timeout_hard_s : ℕ
  pub heartbeat_s : ℕ
  pub metadata : JsonFields
  pub continuation_hint : Option String

-- A time is a count of microseconds.
pub record AttemptLog : Type 0 where
  pub engine : Engine
  pub route : Route
  pub started_at : ℕ
  pub ended_at : ℕ
  pub success : Bool
  pub failure_reason : Option FailureReason
  pub sentinel_observed : Bool
  pub artifact_written : Bool
  pub notes : String

pub record AgentResult : Type 0 where
  pub success : Bool
  pub engine_used : Option Engine
  pub route_used : Option Route
  pub artifact_path : Option String
  pub artifact_data : Option JsonFields
  pub failure_reason : Option FailureReason
  pub failure_detail : Option String
  pub attempts : List AttemptLog
  pub duration_s : ℕ

-- `ValidationResult`, by its two ways to be made: the fields that the other way fills are absent.
pub data ValidationResult : Type 0 where
  accepted_from : String → JsonFields → Bool → ValidationResult
  rejected : FailureReason → String → ValidationResult

-- The events that the providers and the runner emit.
pub data Event : Type 0 where
  provider_selected : Engine → Route → String → Event
  headless_unavailable : Engine → Option FailureReason → Event
  artifact_accepted : String → Bool → Event
  artifact_rejected : FailureReason → String → Event
  provider_failover : Engine → Engine → Option FailureReason → Event
  run_complete : Bool → Option Engine → Option Route → ℕ → ℕ → Event

-- `reason in HEADLESS_TO_BROKER_REASONS`
abbrev pub is_headless_to_broker : Option FailureReason → Bool
is_headless_to_broker (some FailureReason.login_required) = true
is_headless_to_broker (some FailureReason.interactive_mode_detected) = true
is_headless_to_broker (some FailureReason.timeout_no_artifact) = true
is_headless_to_broker (some FailureReason.execution_error) = true
is_headless_to_broker _ = false

-- `reason in PROVIDER_TO_PROVIDER_REASONS`
abbrev pub is_provider_to_provider : Option FailureReason → Bool
is_provider_to_provider (some FailureReason.quota_exceeded) = true
is_provider_to_provider (some FailureReason.login_required) = true
is_provider_to_provider (some FailureReason.sentinel_not_observed) = true
is_provider_to_provider (some FailureReason.artifact_invalid) = true
is_provider_to_provider (some FailureReason.broker_unavailable) = true
is_provider_to_provider _ = false
