-- ===== src/Report/Submitted.antt =====
-- The answers of `submit_report`, backend/app/api/v1/reports.py: what it has read and written.
use gp_portal.Base.{
  ◌≡◌, refl, sym, subst, true, false, some, Option, none, ◌==◌, find_sound, eq_of_==, arith,
  find-update_first,
}
use gp_portal.Report.Rag.{aggregate_rag}
use gp_portal.Domain.{Role, ReportStatus, Uuid, DateTime, Tenths, User, Project, Report}
use gp_portal.Store.{
  Db, ok, Keeps, Keeps-bind, Keeps-modify, Keeps-commit, Keeps-pure, Keeps-gets, Ends,
  Ends-raise_if, Ends-gets, Ends-or_raise, Ends-modify, Ends-commit, Ends-attempt,
  Ends-attempt_last, Ends-ok, get_report, set_report, get_project, start, run,
}
use gp_portal.Access.{gp_role, own_project, Ends-project_owned}
use gp_portal.HealthScore.{Floats, cache_to_report}
use gp_portal.HealthScore.Frame.{Keeps-compute_for_project}
use gp_portal.Notifications.Frame.{Keeps-notify_report_submitted}
use gp_portal.Report.Patch.{is_editable}
use gp_portal.Report.Submit.{
  missing_dims, missing_just, submitted_at, cache_score, notify_if, tell_pmos, submit_report,
}

-- The report is as its submission makes it, but for a score that may have been cached.
abbrev pub IsSubmitted : DateTime → Uuid → Report → Db → Type 0
IsSubmitted now k r db =
    (t : Option Tenths) × (get_report k db
      ≡ some (record (submitted_at now r) { health_score = t }))

-- What an answered submission has found, and what it has written.
pub record Submission (now : DateTime) (user : User) (k : Uuid) (db after : Db) : Type 0 where
  pub report : Report
  pub found : get_report k db ≡ some report
  pub project : Project
  pub owner : get_project report.project_id db ≡ some project
  pub gp : user.role ≡ Role.gp
  pub mine : project.gp_user_id ≡ user.id
  pub editable : is_editable report.status ≡ true
  pub dims : missing_dims report ≡ false
  pub just : missing_just report ≡ false
  pub row : Report
  pub stored : get_report k after ≡ some row
  pub status : row.status ≡ ReportStatus.submitted
  pub aggregate :
      row.rag_status ≡ aggregate_rag report.rag_prazo report.rag_escopo report.rag_qualidade
  pub stamped : row.submitted_at ≡ some now
  pub period : (row.period_start ≡ report.period_start) × (row.period_end ≡ report.period_end)

module _ (now : DateTime) (k : Uuid) (r : Report) (same : (r.id == k) ≡ true) where
  cached-IsSubmitted :
      (t : Tenths) (db : Db)
      → IsSubmitted now k r db
      → IsSubmitted now k r (set_report r.id (λ x. record x { health_score = some t }) db)
  cached-IsSubmitted t db (old, h) =
      let key = eq_of_== r.id k same in
      (
        some t,
        subst
            (λ i.
              get_report k (set_report i (λ x. record x { health_score = some t }) db)
              ≡ some (record (submitted_at now r) { health_score = some t }))
            (sym key)
            (find-update_first (λ x. x.id == k) (λ x. record x { health_score = some t }) db.reports
              h same),
      )

  Keeps-cached : (t : Tenths) → Keeps (IsSubmitted now k r) (cache_to_report (submitted_at now r) t)
  unfolding cache_to_report
  Keeps-cached t =
      Keeps-bind _ _ (Keeps-modify _ (cached-IsSubmitted t))
        λ _. Keeps-bind _ _ (Keeps-modify _ (λ db h. h)) λ _. Keeps-commit

  Keeps-scored :
      (fl : Floats) → Keeps (IsSubmitted now k r) (cache_score fl now (submitted_at now r))
  unfolding cache_score
  Keeps-scored fl =
      Keeps-bind _ _ (Keeps-compute_for_project (λ db c h. h) fl now none r.project_id)
        λ b. Keeps-cached b.score

  Keeps-notified :
      (p : Option Project) → Keeps (IsSubmitted now k r) (notify_if now (submitted_at now r) p)
  Keeps-notified none = Keeps-pure tt
  Keeps-notified (some p) = Keeps-notify_report_submitted (λ db k n h. h) now _ p

  Keeps-told : Keeps (IsSubmitted now k r) (tell_pmos now (submitted_at now r))
  unfolding tell_pmos
  Keeps-told = Keeps-bind _ _ (Keeps-gets _) λ p. Keeps-notified p

module _ (fl : Floats) (now : DateTime) (user : User) (k : Uuid) (db : Db) where
  submit-Ends :
      Ends
        (λ _. Unit {0})
        (λ _ s. Submission now user k db s.store)
        (submit_report fl now user k)
        (start db)
  unfolding submit_report
  submit-Ends = Ends-raise_if _ _ _ _ λ role. Ends-gets _ _ _ (
      Ends-or_raise _ _ _ _ λ report found. Ends-project_owned _ user _ _ λ project owner mine.
        Ends-raise_if _ _ _ _ λ editable. Ends-raise_if _ _ _ _ λ dims.
          Ends-raise_if _ _ _ _ λ just.
            let same = find_sound (λ x. x.id == k) db.reports found in
            let wrote : IsSubmitted now k report (set_report k (submitted_at now) db) = (
              report.health_score,
              find-update_first (λ x. x.id == k) (submitted_at now) db.reports found same,
            ) in
            Ends-modify _ _ _ (
              Ends-commit _ _ λ _. (
                tt,
                Ends-attempt {P = IsSubmitted now k report} _ _ _
                    (Keeps-scored now k report same fl) (wrote, wrote)
                    λ s both. (
                      tt,
                      Ends-attempt_last {P = IsSubmitted now k report} _ _
                          (Keeps-told now k report same) both
                          λ s' both'. (
                            tt,
                            record {
                              report = report;
                              found = found;
                              project = project;
                              owner = owner;
                              gp = gp_role user.role role;
                              mine = own_project user project (gp_role user.role role) mine;
                              editable = ground arith;
                              dims = dims;
                              just = just;
                              row = record (submitted_at now report) { health_score = both'.1.0 };
                              stored = both'.1.1;
                              status = refl;
                              aggregate = refl;
                              stamped = refl;
                              period = (refl, refl);
                            },
                          ),
                    ),
              )))

  -- A submission that is answered was made by the GP of the project, on a report that may be edited
  -- and whose three dimensions are stated and justified; the report is submitted afterwards with the aggregate of
  -- the three, whatever becomes of the score and of the notifications.
  pub submit_report-Submission :
      (run (submit_report fl now user k) db).0 ≡ ok tt
      → Submission now user k db (run (submit_report fl now user k) db).1
  submit_report-Submission answer =
      Ends-ok (λ _. Unit {0}) (λ _ s. Submission now user k db s.store)
        (submit_report fl now user k) db tt submit-Ends tt answer
