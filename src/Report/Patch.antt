-- ===== src/Report/Patch.antt =====
-- `patch_report` of backend/app/api/v1/reports.py, the autosave of the wizard.
mod Payload
mod Scalars
mod Progresses
mod Children
pub mod Frame
pub use Payload.*
pub use Scalars.*
unfoldable pub use Progresses.*
unfoldable pub use Children.*
use gp_portal.Base.{ℕ, Bool, true, false, not, Option, none, some, List, [], ◌∷◌, if◌then◌else◌}
use gp_portal.Domain.{Role, ReportStatus, Uuid, DateTime, User, Report}
use gp_portal.Store.{
  Db, M, http, integrity_error, raise, raise_if, or_raise, pure, gets, modify, commit, ◌>>=◌, ◌>>◌,
  get_report, set_report,
}
use gp_portal.Access.{require_any_role, ensure_project_owned}

-- `report.status in (DRAFT, NEEDS_REVISION)`
abbrev pub is_editable : ReportStatus → Bool
is_editable ReportStatus.draft = true
is_editable ReportStatus.needs_revision = true
is_editable _ = false

-- The scalars are written first and the lists after them, in the order of the source. A date set
-- to `None` is refused by its column when the session is first flushed, which is after the check
-- of the progresses.
unfoldable pub patch_report : DateTime → User → Uuid → ReportPatch → M (Unit {0})
unfolding patch_progresses patch_risks patch_action_plans patch_pending_items
patch_report now user report_id payload = do
  require_any_role (Role.gp ∷ []) user
  found ← gets (get_report report_id)
  report ← or_raise found (http 404)
  ensure_project_owned report.project_id user
  raise_if (not (is_editable report.status)) (http 400)
  modify (set_report report_id (patch_scalars payload))
  raise_if (unconfirmed_in payload.progresses) (http 400)
  raise_if (null_period payload) integrity_error
  patch_progresses report_id payload.progresses
  patch_risks now report_id payload.risks
  patch_action_plans report_id payload.action_plans
  patch_pending_items now report_id payload.pending_items
  commit
