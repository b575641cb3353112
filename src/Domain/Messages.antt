-- ===== src/Domain/Messages.antt =====
-- The configuration of the portfolio, the tables of insights, heartbeats and data requests, the
-- jobs of the agents' queue, and the table of in-app notifications. Its texts are kept as the values that they are formatted
-- from: the title is that of the kind with the project's name, the link names its records.
use gp_portal.Base.{ℕ, String, Option, List}
use gp_portal.Domain.Enums.{
  ApprovalDecision, InsightScope, DpRequestType, DpRequestStatus, TaskType,
}
use gp_portal.Domain.Values.{Decimal, Json, JsonFields}
use gp_portal.Domain.Entities.{Uuid, Date, DateTime}

pub data NotificationKind : Type 0 where
  report_submitted report_pending_release report_pmo_approved : NotificationKind
  report_pmo_approved_with_comment report_client_released report_needs_revision : NotificationKind
  scope_transition_approved scope_transition_rejected : NotificationKind

pub data Body : Type 0 where
  period : Date → Date → Body
  period_with_note : Date → Date → String → Body
  comment : String → Body
  decision : ApprovalDecision → Body
  changes : ℕ → Body
  changes_with_reason : ℕ → String → Body

pub data Link : Type 0 where
  review : Uuid → Link
  portal : Uuid → Link
  edit : Uuid → Uuid → Link
  diff : Uuid → Uuid → Link

pub record InAppNotification : Type 0 where
  pub id : Uuid
  pub user_id : Uuid
  pub kind : NotificationKind
  pub title : String
  pub body : Body
  pub link : Link
  pub read_at : Option DateTime
  pub created_at : DateTime

-- The keys of `health_score_weights` that the program reads; a missing one is `none`.
pub record Weights : Type 0 where
  pub rag_avg : Option Decimal
  pub spi : Option Decimal
  pub risk_inverse : Option Decimal
  pub resolution_rate : Option Decimal
  pub stability : Option Decimal

-- The one row of the table, with the key 1.
pub record PortfolioConfig : Type 0 where
  pub health_score_weights : Weights
  pub updated_at : DateTime
  pub updated_by_id : Option Uuid

-- What the analyzer writes of a report, by its kind with the values that its texts are formatted from.
pub data Insight : Type 0 where
  schedule_drift : ℕ → ℕ → Insight
  critical_risk_alert : List String → Insight
  client_blocking_items : List String → Insight
  all_clear : Insight

pub record AiInsight : Type 0 where
  pub id : Uuid
  pub scope : InsightScope
  pub project_id : Option Uuid
  pub report_id : Option Uuid
  pub agent_run_id : Option String
  pub payload : Insight
  pub created_at : DateTime

pub record WorkerHeartbeat : Type 0 where
  pub worker_id : String
  pub last_seen_at : DateTime
  pub status : String
  pub sessions_status : JsonFields
  pub jobs_processed_today : ℕ
  pub jobs_failed_today : ℕ
  pub metadata_json : JsonFields

pub record DataProcessingRecord : Type 0 where
  pub id : Uuid
  pub subject_user_id : Option Uuid
  pub subject_external_email : Option String
  pub request_type : DpRequestType
  pub status : DpRequestStatus
  pub requested_at : DateTime
  pub fulfilled_at : Option DateTime
  pub handled_by_id : Option Uuid
  pub notes : Option String

-- A job of the queue, the object that is sent as JSON. `context` holds its entries in order.
pub record AgentJob : Type 0 where
  pub run_id : String
  pub task_type : TaskType
  pub engine_preference : Option String
  pub context : List (String × Json)
  pub input_files : List (String × String)
  pub output_path_hint : String
  pub schema_hint : Option JsonFields
  pub timeout_hard_s : ℕ
  pub heartbeat_s : ℕ
  pub enqueued_at : DateTime
