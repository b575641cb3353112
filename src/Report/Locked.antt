-- ===== src/Report/Locked.antt =====
-- `patch_report` and `submit_report` of backend/app/api/v1/reports.py on a report that is not
-- editable.
use gp_portal.Base.{◌≡◌, false, some}
use gp_portal.Domain.{Uuid, DateTime, User, Report}
use gp_portal.Store.{
  Refused, Db, Ends, Ends-raise_if, Ends-gets, Ends-or_raise, Ends-Refused, get_report, start,
}
use gp_portal.Access.{Ends-project_owned}
use gp_portal.HealthScore.{Floats}
use gp_portal.Report.Patch.{is_editable, ReportPatch, patch_report}
use gp_portal.Report.Submit.{submit_report}

module _ (fl : Floats) (now : DateTime) (user : User) (k : Uuid) (db : Db) (report : Report)
    (found : get_report k db ≡ some report) (locked : is_editable report.status ≡ false) where
  patch-Ends :
      (p : ReportPatch) → Ends (λ db'. db' ≡ db) (λ _ _. ⊥) (patch_report now user k p) (start db)
  unfolding patch_report
  patch-Ends p = Ends-raise_if _ _ _ _ λ role. Ends-gets _ _ _ (
      Ends-or_raise _ _ _ _ λ report' found'.
        Ends-project_owned _ user _ _ λ project owner mine. Ends-raise_if _ _ _ _ λ editable. cc)

  submit-Ends : Ends (λ db'. db' ≡ db) (λ _ _. ⊥) (submit_report fl now user k) (start db)
  unfolding submit_report
  submit-Ends = Ends-raise_if _ _ _ _ λ role. Ends-gets _ _ _ (
      Ends-or_raise _ _ _ _ λ report' found'.
        Ends-project_owned _ user _ _ λ project owner mine. Ends-raise_if _ _ _ _ λ editable. cc)

  -- A report that is neither a draft nor sent back for revision takes no autosave and no further
  -- submission: whoever asks, the request ends in an error and leaves every row as it is.
  pub locked-Refused :
      (p : ReportPatch)
      → Refused (patch_report now user k p) db × Refused (submit_report fl now user k) db
  locked-Refused p = (
    Ends-Refused (patch_report now user k p) db (patch-Ends p),
    Ends-Refused (submit_report fl now user k) db submit-Ends,
  )
