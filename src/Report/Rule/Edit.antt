-- ===== src/Report/Rule/Edit.antt =====
-- `create_report` and `patch_report` of backend/app/api/v1/reports.py and the rules on the
-- reports.
use gp_portal.Base.{arith, All-find, All-update_first, All-append, ◌==◌}
use gp_portal.Domain.{Uuid, DateTime, User}
use gp_portal.Store.{
  Db, Ends-invariant, Ends-Writes, Ends-commit_last, Ends-modify, Ends-new_uuid, Ends-commit,
  Ends-pure, Ends-raise_if, Ends-gets, Ends-or_raise, run,
}
use gp_portal.Report.Create.{ReportCreate, create_report}
use gp_portal.Report.Patch.{ReportPatch, patch_scalars, patch_report}
use gp_portal.Report.Patch.Frame.{
  Writes-patch_progresses, Writes-patch_risks, Writes-patch_action_plans,
  Writes-patch_pending_items,
}
use gp_portal.Access.{Ends-project_owned}
use gp_portal.Report.Rule.{ReportRule, AllHold}

module _ (rule : ReportRule) where
  pub patch_report-Holds :
      (now : DateTime) (user : User) (k : Uuid) (p : ReportPatch) (db : Db)
      → AllHold rule db
      → AllHold rule (run (patch_report now user k p) db).1
  unfolding patch_report
  patch_report-Holds now user k p db h =
      Ends-invariant (AllHold rule) (patch_report now user k p) db
        (Ends-raise_if _ _ _ _ λ role. Ends-gets _ _ _ (
          Ends-or_raise _ _ _ _ λ report found. Ends-project_owned _ user _ _ λ project owner mine.
            Ends-raise_if _ _ _ _ λ editable.
              let row = All-find (rule.Holds db.approvals) (λ r. r.id == k) db.reports found h in
              let valid =
                All-update_first (rule.Holds db.approvals) (λ r. r.id == k) (patch_scalars p)
                  db.reports found (rule.patched db.approvals p report (ground arith) row) h in
              Ends-modify _ _ _ (
                Ends-raise_if _ _ _ _ λ confirmed. Ends-raise_if _ _ _ _ λ dates.
                  Ends-Writes {P = AllHold rule} _ _ _
                    (Writes-patch_progresses (λ db _ _ _ _ _ _ h. h) k p.progresses) valid
                    λ _ s₁ v₁ e₁.
                      Ends-Writes {P = AllHold rule} _ _ _
                        (Writes-patch_risks (λ db _ _ _ _ _ _ h. h) now k p.risks) v₁
                        λ _ s₂ v₂ e₂.
                          Ends-Writes {P = AllHold rule} _ _ _
                            (Writes-patch_action_plans (λ db _ _ _ _ _ _ h. h) k p.action_plans) v₂
                            λ _ s₃ v₃ e₃.
                              Ends-Writes {P = AllHold rule} _ _ _
                                (Writes-patch_pending_items (λ db _ _ _ _ _ _ h. h) now k
                                  p.pending_items)
                                v₃ λ _ s₄ v₄ e₄. Ends-commit_last _ λ _. (v₄, v₄))))
        h

  pub create_report-Holds :
      (now : DateTime) (user : User) (p : ReportCreate) (db : Db)
      → AllHold rule db
      → AllHold rule (run (create_report now user p) db).1
  unfolding create_report
  create_report-Holds now user p db h =
      Ends-invariant (AllHold rule) (create_report now user p) db
        (Ends-raise_if _ _ _ _ λ role. Ends-raise_if _ _ _ _ λ dates.
          Ends-project_owned _ user _ _ λ project owner mine.
            let valid = All-append (rule.Holds db.approvals) db.reports _ h (
              rule.created db.approvals db.next_id p.project_id p.period_start p.period_end user.id
                  now,
              tt,
            ) in
            Ends-new_uuid _ _
              (Ends-modify _ _ _ (Ends-commit _ _ λ _. (valid, Ends-pure _ _ valid))))
        h
