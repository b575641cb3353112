-- ===== src/Report/Rule/Stage.antt =====
-- Who may decide on a report: the two stages of `decide_report` in backend/app/api/v1/approvals.py.
use gp_portal.Base.{◌≡◌, refl, true, false, arith}
use gp_portal.Domain.{Role, Project, ApprovalStage, ReportStatus, User}
use gp_portal.Store.{
  Db, M, Session, Ends, Ends-raise_if, Ends-assoc, Ends-pure_bind, Ends-raise_bind, ◌>>=◌,
}
use gp_portal.Report.Approval.{decision_stage}
use gp_portal.Access.{same_role, not_client}

-- Who decides follows from the status.
pub Ends-decision_stage :
    {B : Type 0} {E : Db → Type 0} {Q : B → Session → Type 0} (st : ReportStatus) (user : User)
    (project : Project) (k : ApprovalStage → M B) (s : Session)
    → (st ≡ ReportStatus.submitted
        → same_role user.role Role.pmo ≡ true
        → Ends E Q (k ApprovalStage.pmo) s)
    → (st ≡ ReportStatus.pmo_approved
        → same_role user.role Role.client ≡ true
        → not_client user project ≡ false
        → Ends E Q (k ApprovalStage.client) s)
    → Ends E Q (decision_stage st user project >>= k) s
Ends-decision_stage ReportStatus.submitted user project k s hp hc =
    Ends-assoc _ _ _ _ (Ends-raise_if _ _ _ _ λ r. Ends-pure_bind _ _ _ (hp refl (ground arith)))
Ends-decision_stage ReportStatus.pmo_approved user project k s hp hc = Ends-assoc _ _ _ _ (
    Ends-raise_if _ _ _ _ λ r.
      Ends-assoc _ _ _ _
        (Ends-raise_if _ _ _ _ λ q. Ends-pure_bind _ _ _ (hc refl (ground arith) q)))
Ends-decision_stage _ user project k s hp hc = Ends-raise_bind _ _ _
