-- ===== src/Report/Rule/Decide.antt =====
-- `decide_report` of backend/app/api/v1/approvals.py, `confirm_read` of client_portal.py and the
-- rules on the reports.
use gp_portal.Base.{
  ◌≡◌, refl, some, List, [], ◌∷◌, arith, All, find, update_first, All-find, All-update_first, ◌++◌,
  ◌==◌,
}
use gp_portal.Domain.{Project, ApprovalStage, ApprovalDecision, Uuid, DateTime, User, Report}
use gp_portal.Store.{
  Db, Ends, Ends-invariant, Ends-modify, Ends-new_uuid, Ends-commit, Ends-attempt, Ends-pure,
  Ends-raise_if, Ends-gets, Ends-or_raise, start, run, get_report,
}
use gp_portal.Notifications.Frame.{Keeps-notify_approval_decision}
use gp_portal.Report.Approval.{
  ApprovalDecisionPayload, decide_report, confirm_read, record_decision,
}
use gp_portal.Access.{Ends-client_owns}
use gp_portal.Report.Rule.{ReportRule, AllHold, awaited}
use gp_portal.Report.Rule.Stage.{Ends-decision_stage}
use gp_portal.Domain.{ReportApproval}
use gp_portal.Base.{All-map, find_sound, eq_of_==}
use gp_portal.Report.Approval.{new_approval}

module _ (rule : ReportRule) where
  -- Every row keeps the rule under one more approval, and the row it is about under its change.
  changed :
      (log : List ReportApproval) (a : ReportApproval) (k : Uuid) (f : Report → Report)
      (rows : List Report) {r : Report}
      → find (λ x. x.id == k) rows ≡ some r
      → rule.Holds (log ++ a ∷ []) (f r)
      → All (rule.Holds log) rows
      → All (rule.Holds (log ++ a ∷ [])) (update_first (λ x. x.id == k) f rows)
  changed log a k f rows found new h =
      All-update_first (rule.Holds (log ++ a ∷ [])) (λ x. x.id == k) f rows found new
        (All-map (rule.Holds log) _ rows (rule.grows log a) h)

  record_decision-Holds :
      (now : DateTime) (user : User) (k : Uuid) (p : ApprovalDecisionPayload) (report : Report)
      (project : Project) (stage : ApprovalStage) (db : Db)
      → AllHold rule db
      → get_report k db ≡ some report
      → report.status ≡ awaited stage
      → Ends
          (AllHold rule)
          (λ _ s. AllHold rule s.store)
          (record_decision now user k p report project stage)
          (start db)
  unfolding record_decision
  record_decision-Holds now user k p report project stage db h found status =
      let row = All-find (rule.Holds db.approvals) (λ r. r.id == k) db.reports found h in
      let same = eq_of_== report.id k (find_sound (λ r. r.id == k) db.reports found) in
      let approval = new_approval db.next_id k user.id stage p.decision p.comment now in
      let valid =
        changed db.approvals approval k _ db.reports found
          (rule.judged db.approvals now approval report same status row) h in
      Ends-raise_if _ _ _ _ λ _. Ends-modify _ _ _ (
        Ends-new_uuid _ _ (
          Ends-modify _ _ _ (
            Ends-commit _ _ λ _. (
              valid,
              Ends-attempt {P = AllHold rule} _ _ _
                  (Keeps-notify_approval_decision (λ db k n h. h) now _ _ project) (valid, valid)
                  λ s' both. (both.1, Ends-pure _ _ both.1),
            ))))

  pub decide_report-Holds :
      (now : DateTime) (user : User) (k : Uuid) (p : ApprovalDecisionPayload) (db : Db)
      → AllHold rule db
      → AllHold rule (run (decide_report now user k p) db).1
  unfolding decide_report
  decide_report-Holds now user k p db h =
      Ends-invariant (AllHold rule) (decide_report now user k p) db
        (Ends-raise_if _ _ _ _ λ role. Ends-gets _ _ _ (
          Ends-or_raise _ _ _ _ λ report found. Ends-gets _ _ _ (
            Ends-or_raise _ _ _ _ λ project owner.
              let decide = λ (stage : ApprovalStage) (c : report.status ≡ awaited stage).
                record_decision-Holds now user k p report project stage db h found c in
              Ends-decision_stage _ _ _ _ _ (λ st role. decide ApprovalStage.pmo st)
                (λ st role mine. decide ApprovalStage.client st))))
        h

  pub confirm_read-Holds :
      (now : DateTime) (user : User) (k : Uuid) (db : Db)
      → AllHold rule db
      → AllHold rule (run (confirm_read now user k) db).1
  unfolding confirm_read
  confirm_read-Holds now user k db h =
      Ends-invariant (AllHold rule) (confirm_read now user k) db
        (Ends-raise_if _ _ _ _ λ role. Ends-gets _ _ _ (
          Ends-or_raise _ _ _ _ λ report found. Ends-client_owns _ user _ _ λ project owner mine.
            Ends-raise_if _ _ _ _ λ readable.
              let row = All-find (rule.Holds db.approvals) (λ r. r.id == k) db.reports found h in
              let same = eq_of_== report.id k (find_sound (λ r. r.id == k) db.reports found) in
              let approval =
                new_approval db.next_id k user.id ApprovalStage.client ApprovalDecision.approved
                  (some "Confirmação de leitura.") now in
              let valid =
                changed db.approvals approval k _ db.reports found
                  (rule.confirmed db.approvals now approval report same refl refl (ground arith)
                    row)
                  h in
              Ends-new_uuid _ _ (
                Ends-modify _ _ _
                  (Ends-modify _ _ _ (Ends-commit _ _ λ _. (valid, Ends-pure _ _ valid))))))
        h
