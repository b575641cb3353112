-- ===== src/Report/Judged.antt =====
-- The answers of `decide_report`, backend/app/api/v1/approvals.py: what it has read and written.
use gp_portal.Base.{
  ◌≡◌, refl, true, false, some, [], ◌∷◌, ◌++◌, ◌==◌, find_sound, find-update_first,
}
use gp_portal.Domain.{
  ApprovalDecision, Role, ReportStatus, ApprovalStage, Uuid, DateTime, User, Project, Report,
  ReportApproval,
}
use gp_portal.Store.{
  Db, ok, Ends, Ends-raise_if, Ends-gets, Ends-or_raise, Ends-modify, Ends-new_uuid, Ends-commit,
  Ends-attempt, Ends-pure, Ends-ok, get_report, set_report, get_project, start, run,
}
use gp_portal.Access.{same_role, not_client}
use gp_portal.Notifications.Frame.{Keeps-notify_approval_decision}
use gp_portal.Report.Approval.{
  next_status, ApprovalDecisionPayload, missing_comment, decided, new_approval, record_decision,
  decide_report,
}
use gp_portal.Report.Patch.{is_editable}
use gp_portal.Report.Rule.{awaited}
use gp_portal.Report.Rule.Stage.{Ends-decision_stage}

-- Who may decide at a stage.
abbrev pub MayDecide : ApprovalStage → User → Project → Type 0
MayDecide ApprovalStage.pmo user project = same_role user.role Role.pmo ≡ true
MayDecide ApprovalStage.client user project =
    (same_role user.role Role.client ≡ true) × (not_client user project ≡ false)

abbrev pub Written : DateTime → Uuid → Report → ReportApproval → Db → Db → Type 0
Written now k report a db after =
    (get_report k after ≡ some (decided now (next_status a.stage a.decision) report))
    × (after.approvals ≡ db.approvals ++ a ∷ [])

-- Where a decision takes the report: back to its GP, on to the client, or out.
abbrev pub Settled : ApprovalStage → ApprovalDecision → Report → Type 0
Settled stage ApprovalDecision.requested_changes row = is_editable row.status ≡ true
Settled ApprovalStage.pmo _ row = row.status ≡ awaited ApprovalStage.client
Settled ApprovalStage.client _ row = row.status ≡ ReportStatus.client_released

-- What an answered decision has found, and what it has written.
pub record Judgement (now : DateTime) (user : User) (k : Uuid) (p : ApprovalDecisionPayload)
    (db after : Db) (a : ReportApproval) : Type 0 where
  pub report : Report
  pub project : Project
  pub stage : ApprovalStage
  pub found : get_report k db ≡ some report
  pub status : report.status ≡ awaited stage
  pub owner : get_project report.project_id db ≡ some project
  pub may_decide : MayDecide stage user project
  pub explained : missing_comment p ≡ false
  pub approval : a ≡ new_approval db.next_id k user.id stage p.decision p.comment now
  pub row : Report
  pub stored : get_report k after ≡ some row
  pub settled : Settled stage p.decision row
  pub recorded : after.approvals ≡ db.approvals ++ a ∷ []

settle :
    (now : DateTime) (stage : ApprovalStage) (d : ApprovalDecision) (r : Report)
    → Settled stage d (decided now (next_status stage d) r)
settle now ApprovalStage.pmo ApprovalDecision.approved r = refl
settle now ApprovalStage.pmo ApprovalDecision.approved_with_comment r = refl
settle now ApprovalStage.pmo ApprovalDecision.requested_changes r = refl
settle now ApprovalStage.client ApprovalDecision.approved r = refl
settle now ApprovalStage.client ApprovalDecision.approved_with_comment r = refl
settle now ApprovalStage.client ApprovalDecision.requested_changes r = refl

decided-id : (now : DateTime) (st : ReportStatus) (r : Report) → (decided now st r).id ≡ r.id
decided-id now ReportStatus.pmo_approved r = refl
decided-id now _ r = refl

module _ (now : DateTime) (user : User) (k : Uuid) (p : ApprovalDecisionPayload) (db : Db) where
  recorded-Ends :
      (report : Report) (project : Project) (stage : ApprovalStage)
      → get_report k db ≡ some report
      → get_project report.project_id db ≡ some project
      → report.status ≡ awaited stage
      → MayDecide stage user project
      → Ends
          (λ _. Unit {0})
          (λ a s. Judgement now user k p db s.store a)
          (record_decision now user k p report project stage)
          (start db)
  unfolding record_decision
  recorded-Ends report project stage found owner status may =
      let a = new_approval db.next_id k user.id stage p.decision p.comment now in
      let new = next_status stage p.decision in
      let key = find_sound (λ r. r.id == k) db.reports found in
      let wrote : (get_report k (set_report k (decided now new) db) ≡ some (decided now new report))
          × (db.approvals ++ a ∷ [] ≡ db.approvals ++ a ∷ []) =
        (
          find-update_first (λ r. r.id == k) (decided now new) db.reports found
              (rw (decided-id now new report) key),
          refl,
        ) in
      Ends-raise_if _ _ _ _ λ comment. Ends-modify _ _ _ (
        Ends-new_uuid _ _ (
          Ends-modify _ _ _ (
            Ends-commit _ _ λ _. (
              tt,
              Ends-attempt {P = Written now k report a db} _ _ _
                  (Keeps-notify_approval_decision (λ db k n h. h) now _ _ project) (wrote, wrote)
                  λ s' both. (
                    tt,
                    Ends-pure _ _ (record {
                      report = report;
                      project = project;
                      stage = stage;
                      found = found;
                      status = status;
                      owner = owner;
                      may_decide = may;
                      explained = comment;
                      approval = refl;
                      row = decided now new report;
                      stored = both.1.0;
                      settled = settle now stage p.decision report;
                      recorded = both.1.1;
                    }),
                  ),
            ))))

  decide_report-Ends :
      Ends
        (λ _. Unit {0})
        (λ a s. Judgement now user k p db s.store a)
        (decide_report now user k p)
        (start db)
  unfolding decide_report
  decide_report-Ends = Ends-raise_if _ _ _ _ λ role. Ends-gets _ _ _ (
      Ends-or_raise _ _ _ _ λ report found. Ends-gets _ _ _ (
        Ends-or_raise _ _ _ _ λ project owner.
          Ends-decision_stage _ _ _ _ _
            (λ st role. recorded-Ends report project ApprovalStage.pmo found owner st role)
            (λ st role mine.
              recorded-Ends report project ApprovalStage.client found owner st (role, mine))))

  -- A decision that is answered was made by a PMO on a submitted report, or by the project's client
  -- on one that the PMO has approved, with a comment unless it approves outright; changes that
  -- are asked for make the report editable again, the PMO's approval takes it to the client, the
  -- client's releases it, and the approval is recorded.
  pub decide_report-Judgement :
      (a : ReportApproval)
      → (run (decide_report now user k p) db).0 ≡ ok a
      → Judgement now user k p db (run (decide_report now user k p) db).1 a
  decide_report-Judgement a answer =
      Ends-ok (λ _. Unit {0}) (λ a s. Judgement now user k p db s.store a)
        (decide_report now user k p) db a decide_report-Ends tt answer
