-- ===== src/Report/Rule/Submit.antt =====
-- `submit_report` of backend/app/api/v1/reports.py and the rules on the reports.
use gp_portal.Base.{Option, none, some, All-find, All-update_first, All-update_first_keep, ◌==◌}
use gp_portal.Domain.{Tenths, Project, Uuid, DateTime, User, Report}
use gp_portal.Store.{
  Db, Keeps, Ends-invariant, Ends-attempt_last, Keeps-modify, Keeps-bind, Keeps-commit, Keeps-pure,
  Ends-modify, Ends-commit, Ends-attempt, Ends-raise_if, Ends-gets, Ends-or_raise, run,
}
use gp_portal.Notifications.Frame.{Keeps-notify_report_submitted}
use gp_portal.HealthScore.{Floats, cache_to_report}
use gp_portal.HealthScore.Frame.{Keeps-compute_for_project}
use gp_portal.Report.Submit.{submitted_at, cache_score, notify_if, tell_pmos, submit_report}
use gp_portal.Access.{Ends-project_owned}
use gp_portal.Report.Rule.{ReportRule, AllHold}
use gp_portal.Store.{Keeps-gets}

module _ (rule : ReportRule) where
  Keeps-cache_to_report : (r : Report) (t : Tenths) → Keeps (AllHold rule) (cache_to_report r t)
  unfolding cache_to_report
  Keeps-cache_to_report r t =
      Keeps-bind _ _
        (Keeps-modify _ (λ db h.
          All-update_first_keep (rule.Holds db.approvals) _ _ db.reports
            (rule.scored db.approvals t) h))
        λ _. Keeps-bind _ _ (Keeps-modify _ (λ db h. h)) λ _. Keeps-commit

  Keeps-cache_score :
      (fl : Floats) (now : DateTime) (r : Report) → Keeps (AllHold rule) (cache_score fl now r)
  unfolding cache_score
  Keeps-cache_score fl now r =
      Keeps-bind _ _ (Keeps-compute_for_project (λ db c h. h) fl now none r.project_id)
        λ b. Keeps-cache_to_report r b.score

  Keeps-notify_if :
      (now : DateTime) (r : Report) (p : Option Project) → Keeps (AllHold rule) (notify_if now r p)
  Keeps-notify_if now r none = Keeps-pure tt
  Keeps-notify_if now r (some p) = Keeps-notify_report_submitted (λ db k n h. h) now r p

  Keeps-tell_pmos : (now : DateTime) (r : Report) → Keeps (AllHold rule) (tell_pmos now r)
  unfolding tell_pmos
  Keeps-tell_pmos now r = Keeps-bind _ _ (Keeps-gets _) λ p. Keeps-notify_if now r p

  pub submit_report-Holds :
      (fl : Floats) (now : DateTime) (user : User) (k : Uuid) (db : Db)
      → AllHold rule db
      → AllHold rule (run (submit_report fl now user k) db).1
  unfolding submit_report
  submit_report-Holds fl now user k db h =
      Ends-invariant (AllHold rule) (submit_report fl now user k) db
        (Ends-raise_if _ _ _ _ λ role. Ends-gets _ _ _ (
          Ends-or_raise _ _ _ _ λ report found. Ends-project_owned _ user _ _ λ project owner mine.
            Ends-raise_if _ _ _ _ λ editable. Ends-raise_if _ _ _ _ λ dims.
              Ends-raise_if _ _ _ _ λ just.
                let row = All-find (rule.Holds db.approvals) (λ r. r.id == k) db.reports found h in
                let valid =
                  All-update_first (rule.Holds db.approvals) (λ r. r.id == k) (submitted_at now)
                    db.reports found (rule.submitted db.approvals now report dims just row) h in
                Ends-modify _ _ _ (
                  Ends-commit _ _ λ _. (
                    valid,
                    Ends-attempt {P = AllHold rule} _ _ _ (Keeps-cache_score fl now _)
                        (valid, valid)
                        λ s both. (
                          both.1,
                          Ends-attempt_last {P = AllHold rule} _ _ (Keeps-tell_pmos now _) both
                              λ s' both'. (both'.1, both'.1),
                        ),
                  ))))
        h
