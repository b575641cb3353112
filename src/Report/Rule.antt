-- ===== src/Report/Rule.antt =====
-- The interface of a rule on the rows of the reports and the approvals: for each write of the
-- handlers, what an instance shows of it.
pub mod Stage
pub mod Decide
pub mod Edit
pub mod Submit
use gp_portal.Base.{some, ◌≡◌, true, false, List, [], ◌∷◌, ◌++◌, ◌==◌, All, arith}
use gp_portal.Domain.{
  ReportStatus, ApprovalStage, ApprovalDecision, Uuid, Date, DateTime, Tenths, Report,
  ReportApproval,
}
use gp_portal.Store.{Db}
use gp_portal.Report.Create.{new_report}
use gp_portal.Report.Patch.{is_editable, ReportPatch, patch_scalars}
use gp_portal.Report.Submit.{missing_dims, missing_just, submitted_at}
use gp_portal.Report.Approval.{is_readable, released, next_status, decided}

-- The status in which a stage is decided.
abbrev pub awaited : ApprovalStage → ReportStatus
awaited ApprovalStage.pmo = ReportStatus.submitted
awaited ApprovalStage.client = ReportStatus.pmo_approved

pub record ReportRule : Type 1 where
  pub Holds : List ReportApproval → Report → Type 0
  pub grows :
      (log : List ReportApproval) (a : ReportApproval) (r : Report)
      → Holds log r
      → Holds (log ++ a ∷ []) r
  pub created :
      (log : List ReportApproval) (k p : Uuid) (first last : Date) (author : Uuid) (now : DateTime)
      → Holds log (new_report k p first last author now)
  pub patched :
      (log : List ReportApproval) (p : ReportPatch) (r : Report)
      → is_editable r.status ≡ true
      → Holds log r
      → Holds log (patch_scalars p r)
  pub submitted :
      (log : List ReportApproval) (now : DateTime) (r : Report)
      → missing_dims r ≡ false
      → missing_just r ≡ false
      → Holds log r
      → Holds log (submitted_at now r)
  pub scored :
      (log : List ReportApproval) (t : Tenths) (r : Report)
      → Holds log r
      → Holds log (record r { health_score = some t })
  pub judged :
      (log : List ReportApproval) (now : DateTime) (a : ReportApproval) (r : Report)
      → r.id ≡ a.report_id
      → r.status ≡ awaited a.stage
      → Holds log r
      → Holds (log ++ a ∷ []) (decided now (next_status a.stage a.decision) r)
  pub confirmed :
      (log : List ReportApproval) (now : DateTime) (a : ReportApproval) (r : Report)
      → r.id ≡ a.report_id
      → a.stage ≡ ApprovalStage.client
      → a.decision ≡ ApprovalDecision.approved
      → is_readable r.status ≡ true
      → Holds log r
      → Holds (log ++ a ∷ []) (released now r.status r)

abbrev pub AllHold : ReportRule → Db → Type 0
AllHold rule db = All (rule.Holds db.approvals) db.reports
