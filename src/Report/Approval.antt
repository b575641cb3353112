-- ===== src/Report/Approval.antt =====
-- The decisions on a submitted report: backend/app/api/v1/approvals.py, and the client's
-- confirmation of reading, backend/app/api/v1/client_portal.py.
use gp_portal.Base.{
  String, Bool, true, false, not, Option, some, [], ◌∷◌, ◌++◌, no_text, if◌then◌else◌,
}
use gp_portal.Domain.{
  Role, ReportStatus, ApprovalStage, ApprovalDecision, Uuid, DateTime, User, Project, Report,
  ReportApproval,
}
use gp_portal.Store.{
  Db, M, http, raise, raise_if, or_raise, pure, gets, modify, new_uuid, commit, attempt, ◌>>=◌,
  ◌>>◌, get_report, get_project, set_report,
}
use gp_portal.Access.{same_role, require_any_role, not_client, ensure_client_owns}
use gp_portal.Notifications.{notify_approval_decision}

-- `_next_status`
abbrev pub next_status : ApprovalStage → ApprovalDecision → ReportStatus
next_status stage ApprovalDecision.requested_changes = ReportStatus.needs_revision
next_status ApprovalStage.pmo _ = ReportStatus.pmo_approved
next_status ApprovalStage.client _ = ReportStatus.client_released

pub record ApprovalDecisionPayload : Type 0 where
  pub decision : ApprovalDecision
  pub comment : Option String

-- The stage follows from the report's status, and with it who may decide.
abbrev pub decision_stage : ReportStatus → User → Project → M ApprovalStage
decision_stage ReportStatus.submitted user project = do
  raise_if (not (same_role user.role Role.pmo)) (http 403)
  pure ApprovalStage.pmo
decision_stage ReportStatus.pmo_approved user project = do
  raise_if (not (same_role user.role Role.client)) (http 403)
  raise_if (not_client user project) (http 403)
  pure ApprovalStage.client
decision_stage _ user project = raise (http 400)

-- `decision in (REQUESTED_CHANGES, APPROVED_WITH_COMMENT)`
abbrev pub needs_comment : ApprovalDecision → Bool
needs_comment ApprovalDecision.approved = false
needs_comment ApprovalDecision.approved_with_comment = true
needs_comment ApprovalDecision.requested_changes = true

abbrev pub missing_comment : ApprovalDecisionPayload → Bool
missing_comment p = if needs_comment p.decision then no_text p.comment else false

-- `report.status = new_status`, and `approved_at` when the PMO has approved.
abbrev pub decided : DateTime → ReportStatus → Report → Report
decided now ReportStatus.pmo_approved r = record r {
  status = ReportStatus.pmo_approved;
  approved_at = some now;
}
decided now new r = record r { status = new }

abbrev pub add_approval : ReportApproval → Db → Db
add_approval a db = record db { approvals = db.approvals ++ a ∷ [] }

abbrev pub new_approval :
    Uuid
    → Uuid
    → Uuid
    → ApprovalStage
    → ApprovalDecision
    → Option String
    → DateTime
    → ReportApproval
new_approval k report_id approver stage decision comment now = record {
  id = k;
  report_id = report_id;
  approver_id = approver;
  stage = stage;
  decision = decision;
  comment = comment;
  decided_at = now;
}

-- `decide_report` from the check of the comment on.
unfoldable pub record_decision :
    DateTime
    → User
    → Uuid
    → ApprovalDecisionPayload
    → Report
    → Project
    → ApprovalStage
    → M ReportApproval
record_decision now user report_id payload report project stage = do
  raise_if (missing_comment payload) (http 400)
  let new = next_status stage payload.decision
  modify (set_report report_id (decided now new))
  k ← new_uuid
  let approval = new_approval k report_id user.id stage payload.decision payload.comment now
  modify (add_approval approval)
  commit
  attempt (notify_approval_decision now (decided now new report) approval project)
  pure approval

unfoldable pub decide_report : DateTime → User → Uuid → ApprovalDecisionPayload → M ReportApproval
decide_report now user report_id payload = do
  require_any_role (Role.pmo ∷ Role.client ∷ []) user
  found ← gets (get_report report_id)
  report ← or_raise found (http 404)
  owner ← gets (get_project report.project_id)
  project ← or_raise owner (http 404)
  stage ← decision_stage report.status user project
  record_decision now user report_id payload report project stage

-- `report.status in (PMO_APPROVED, CLIENT_RELEASED)`
abbrev pub is_readable : ReportStatus → Bool
is_readable ReportStatus.pmo_approved = true
is_readable ReportStatus.client_released = true
is_readable _ = false

-- A report that the PMO has approved is released; a released one stays.
abbrev pub released : DateTime → ReportStatus → Report → Report
released now ReportStatus.pmo_approved r = record r {
  status = ReportStatus.client_released;
  approved_at = some now;
}
released now _ r = r

unfoldable pub confirm_read : DateTime → User → Uuid → M Uuid
confirm_read now user report_id = do
  require_any_role (Role.client ∷ []) user
  found ← gets (get_report report_id)
  report ← or_raise found (http 404)
  project ← ensure_client_owns report.project_id user
  raise_if (not (is_readable report.status)) (http 400)
  k ← new_uuid
  modify (
      add_approval (
        new_approval k report_id user.id ApprovalStage.client ApprovalDecision.approved
          (some "Confirmação de leitura.") now))
  modify (set_report report_id (released now report.status))
  commit
  pure project.id
