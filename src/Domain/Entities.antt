-- ===== src/Domain/Entities.antt =====
-- The tables of backend/app/models/domain.py and backend/app/models/user.py, a record to a row.
-- A `uuid` is a number; a `date` is its ordinal (day 1 is 0001-01-01) and a `datetime` a count of
-- microseconds; a cached health score, a float rounded to one decimal, is its number of tenths.
use gp_portal.Base.{ℕ, String, Bool, Option, List}
use gp_portal.Domain.Enums.{
  Role, ProjectStatus, ProposalStatus, BaselineStatus, DeliverableComplexity, DeliverableType,
  DeliverableCategory, DeliverableStatus, ReportStatus, RagStatus, ProgressStatus, RiskLevel,
  RiskProbability, RiskImpact, RiskStatus, ActionPlanStatus, PendingItemStatus, ScopeChangeStatus,
  ScopeChangeType, TrackedField, TaskType, AgentRunStatus, ApprovalStage, ApprovalDecision,
  compute_risk_level,
}
use gp_portal.Domain.Values.{Decimal, Json}

abbrev pub Uuid : Type 0
Uuid = ℕ

abbrev pub Date : Type 0
Date = ℕ

abbrev pub DateTime : Type 0
DateTime = ℕ

abbrev pub Tenths : Type 0
Tenths = ℕ

pub record User : Type 0 where
  pub id : Uuid
  pub name : String
  pub email : String
  pub password_hash : String
  pub role : Role
  pub created_at : DateTime
  pub anonymized_at : Option DateTime

pub record Project : Type 0 where
  pub id : Uuid
  pub name : String
  pub client_name : String
  pub description : Option String
  pub gp_user_id : Uuid
  pub client_user_id : Option Uuid
  pub status : ProjectStatus
  pub started_at : Option Date
  pub ended_at : Option Date
  pub health_score_cached : Option Tenths
  pub created_at : DateTime

pub record Proposal : Type 0 where
  pub id : Uuid
  pub project_id : Uuid
  pub version : ℕ
  pub file_url : String
  pub file_sha256 : String
  pub original_filename : String
  pub size_bytes : ℕ
  pub status : ProposalStatus
  pub uploaded_by_id : Uuid
  pub uploaded_at : DateTime

pub record Baseline : Type 0 where
  pub id : Uuid
  pub project_id : Uuid
  pub proposal_id : Uuid
  pub status : BaselineStatus
  pub activated_at : Option DateTime
  pub activated_by_id : Option Uuid
  pub payload : Json
  pub created_at : DateTime

pub record Deliverable : Type 0 where
  pub id : Uuid
  pub baseline_id : Uuid
  pub code : Option String
  pub title : String
  pub description : Option String
  pub phase : Option String
  pub category : Option DeliverableCategory
  pub complexity : Option DeliverableComplexity
  pub type : Option DeliverableType
  pub source_excerpt : Option String
  pub due_date : Option Date
  pub acceptance_criteria : Option String
  pub dependencies : List String
  pub status : DeliverableStatus
  pub order_index : ℕ
  pub created_at : DateTime

pub record Report : Type 0 where
  pub id : Uuid
  pub project_id : Uuid
  pub period_start : Date
  pub period_end : Date
  pub rag_status : Option RagStatus
  pub rag_prazo : Option RagStatus
  pub rag_escopo : Option RagStatus
  pub rag_qualidade : Option RagStatus
  pub rag_prazo_justificativa : Option String
  pub rag_escopo_justificativa : Option String
  pub rag_qualidade_justificativa : Option String
  pub status : ReportStatus
  pub highlights : Option String
  pub next_steps : Option String
  pub notes : Option String
  pub health_score : Option Tenths
  pub created_by_id : Uuid
  pub created_at : DateTime
  pub submitted_at : Option DateTime
  pub approved_at : Option DateTime

pub record DeliveryProgress : Type 0 where
  pub id : Uuid
  pub report_id : Uuid
  pub deliverable_id : Uuid
  pub status : ProgressStatus
  pub percent_complete : ℕ
  pub comment : Option String
  pub revised_date : Option Date
  pub deviation_flag : Bool
  pub acceptance_confirmed : Option Bool
  pub is_prepopulated : Bool

pub record Risk : Type 0 where
  pub id : Uuid
  pub report_id : Uuid
  pub description : String
  pub probability : RiskProbability
  pub impact : RiskImpact
  pub mitigation_plan : Option String
  pub owner_id : Option Uuid
  pub due_date : Option Date
  pub status : RiskStatus
  pub created_at : DateTime
  pub is_prepopulated : Bool

-- The property `Risk.level`.
abbrev pub level : Risk → RiskLevel
level r = compute_risk_level r.probability r.impact

pub record ActionPlan : Type 0 where
  pub id : Uuid
  pub report_id : Uuid
  pub description : String
  pub objective : String
  pub owner_id : Option Uuid
  pub due_date : Option Date
  pub status : ActionPlanStatus
  pub linked_risk_id : Option Uuid
  pub linked_deliverable_id : Option Uuid

pub record PendingItem : Type 0 where
  pub id : Uuid
  pub report_id : Uuid
  pub description : String
  pub owner_party : Option String
  pub due_date : Option Date
  pub status : PendingItemStatus
  pub impact : Option String
  pub created_at : DateTime
  pub is_prepopulated : Bool

-- The description of a scope change, as the values that it is formatted from.
pub data ChangeText : Type 0 where
  plain : String → ChangeText
  added removed : String → String → ChangeText
  modified : String → List TrackedField → ChangeText

pub record ScopeChange : Type 0 where
  pub id : Uuid
  pub project_id : Uuid
  pub description : ChangeText
  pub baseline_from_id : Option Uuid
  pub baseline_to_id : Option Uuid
  pub change_type : Option ScopeChangeType
  pub requested_at : DateTime
  pub decided_at : Option DateTime
  pub approved_by_id : Option Uuid
  pub status : ScopeChangeStatus
  pub deliverable_code : Option String
  pub impact_baseline_id : Option Uuid

pub record AgentRunLog : Type 0 where
  pub run_id : String
  pub task_type : TaskType
  pub project_id : Option Uuid
  pub proposal_id : Option Uuid
  pub report_id : Option Uuid
  pub engine_used : Option String
  pub route_used : Option String
  pub failover_occurred : Bool
  pub attempts : List Json
  pub duration_s : Option Decimal
  pub worker_id : Option String
  pub artifact_path : Option String
  pub status : AgentRunStatus
  pub failure_reason : Option String
  pub failure_detail : Option String
  pub created_at : DateTime
  pub started_at : Option DateTime
  pub completed_at : Option DateTime

pub record ReportApproval : Type 0 where
  pub id : Uuid
  pub report_id : Uuid
  pub approver_id : Uuid
  pub stage : ApprovalStage
  pub decision : ApprovalDecision
  pub comment : Option String
  pub decided_at : DateTime

-- An item of the column `materialized_risks`.
pub record MaterializedRiskItem : Type 0 where
  pub risk_id : Uuid
  pub comment : Option String

pub record ProjectRetrospective : Type 0 where
  pub id : Uuid
  pub project_id : Uuid
  pub delivered_vs_proposed : String
  pub would_do_differently : String
  pub client_feedback : String
  pub materialized_risks : List MaterializedRiskItem
  pub created_by_id : Uuid
  pub created_at : DateTime
