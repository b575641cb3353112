-- ===== src/Domain/Enums.antt =====
-- The enumerations of backend/app/models/domain.py and backend/app/models/user.py, and the
-- membership tests that the handlers make on them. A constructor has its member's name; `open`
-- is a reserved word and reads `opened`.
use gp_portal.Base.{Bool, true, false}

pub data Role : Type 0 where
  gp pmo client operator : Role

pub data ProjectStatus : Type 0 where
  active paused closed : ProjectStatus

pub data ProposalStatus : Type 0 where
  pending_extraction extracted needs_ocr superseded extraction_failed : ProposalStatus

pub data BaselineStatus : Type 0 where
  draft active superseded rejected : BaselineStatus

pub data DeliverableComplexity : Type 0 where
  low low_medium medium medium_high high : DeliverableComplexity

pub data DeliverableType : Type 0 where
  code_migration documentation knowledge_transfer stabilization : DeliverableType
  deliverable_software assessment model infrastructure other : DeliverableType

pub data DeliverableCategory : Type 0 where
  technical technical_regulatory business transversal governance : DeliverableCategory

pub data DeliverableStatus : Type 0 where
  not_started in_progress concluded blocked : DeliverableStatus

pub data ReportStatus : Type 0 where
  draft submitted pmo_approved client_released archived needs_revision : ReportStatus

pub data RagStatus : Type 0 where
  green amber red : RagStatus

pub data ProgressStatus : Type 0 where
  planned in_progress done blocked : ProgressStatus

pub data RiskLevel : Type 0 where
  low medium high critical : RiskLevel

pub data RiskProbability : Type 0 where
  alta media baixa : RiskProbability

pub data RiskImpact : Type 0 where
  alto medio baixo : RiskImpact

pub data RiskStatus : Type 0 where
  identified monitoring mitigated materialized : RiskStatus

pub data ActionPlanStatus : Type 0 where
  opened in_progress done : ActionPlanStatus

pub data PendingItemStatus : Type 0 where
  opened in_progress resolved : PendingItemStatus

pub data ScopeChangeStatus : Type 0 where
  proposed approved rejected implemented : ScopeChangeStatus

pub data ScopeChangeType : Type 0 where
  added removed modified : ScopeChangeType

-- `_MODIFIED_TRACKED_FIELDS` of backend/app/api/v1/client_portal.py
pub data TrackedField : Type 0 where
  title phase type category complexity due_date acceptance_criteria dependencies : TrackedField

pub data TaskType : Type 0 where
  proposal_extraction report_analysis portfolio_pattern : TaskType

pub data AgentRunStatus : Type 0 where
  queued running done failed expired : AgentRunStatus

pub data ApprovalStage : Type 0 where
  pmo client : ApprovalStage

pub data ApprovalDecision : Type 0 where
  approved approved_with_comment requested_changes : ApprovalDecision

pub data InsightScope : Type 0 where
  project portfolio : InsightScope

pub data DpRequestType : Type 0 where
  export deletion access rectification : DpRequestType

pub data DpRequestStatus : Type 0 where
  pending approved fulfilled rejected : DpRequestStatus

-- `status in OPEN_RISK_STATUSES`
abbrev pub is_open_risk : RiskStatus → Bool
is_open_risk RiskStatus.identified = true
is_open_risk RiskStatus.monitoring = true
is_open_risk _ = false

-- The matrix `_RISK_LEVEL_MATRIX`.
unfoldable pub compute_risk_level : RiskProbability → RiskImpact → RiskLevel
compute_risk_level RiskProbability.alta RiskImpact.alto = RiskLevel.critical
compute_risk_level RiskProbability.alta RiskImpact.medio = RiskLevel.high
compute_risk_level RiskProbability.alta RiskImpact.baixo = RiskLevel.medium
compute_risk_level RiskProbability.media RiskImpact.alto = RiskLevel.high
compute_risk_level RiskProbability.media RiskImpact.medio = RiskLevel.medium
compute_risk_level RiskProbability.media RiskImpact.baixo = RiskLevel.low
compute_risk_level RiskProbability.baixa RiskImpact.alto = RiskLevel.medium
compute_risk_level RiskProbability.baixa RiskImpact.medio = RiskLevel.low
compute_risk_level RiskProbability.baixa RiskImpact.baixo = RiskLevel.low
