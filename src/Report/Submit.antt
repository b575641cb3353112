-- ===== src/Report/Submit.antt =====
-- `submit_report` of backend/app/api/v1/reports.py.
use gp_portal.Base.{
  String, Bool, false, not, Option, none, some, [], ◌∷◌, ◌&&◌, ◌||◌, no_text, is_some,
}
use gp_portal.Domain.{Role, RagStatus, ReportStatus, Uuid, DateTime, User, Project, Report}
use gp_portal.Store.{
  M, http, raise_if, or_raise, pure, gets, modify, commit, attempt, ◌>>=◌, ◌>>◌, get_report,
  get_project, set_report,
}
use gp_portal.Access.{require_any_role, ensure_project_owned}
use gp_portal.HealthScore.{Floats, compute_for_project, cache_to_report}
use gp_portal.Notifications.{notify_report_submitted}
use gp_portal.Report.Rag.{aggregate_rag}
use gp_portal.Report.Patch.{is_editable}

abbrev pub missing_dims : Report → Bool
missing_dims r = not (is_some r.rag_prazo && is_some r.rag_escopo && is_some r.rag_qualidade)

-- `dim in (AMBER, RED)` and a justification that is missing or blank.
abbrev pub lacks_reason : Option RagStatus → Option String → Bool
lacks_reason (some RagStatus.amber) just = no_text just
lacks_reason (some RagStatus.red) just = no_text just
lacks_reason _ just = false

abbrev pub missing_just : Report → Bool
missing_just r =
    lacks_reason r.rag_prazo r.rag_prazo_justificativa
    || lacks_reason r.rag_escopo r.rag_escopo_justificativa
    || lacks_reason r.rag_qualidade r.rag_qualidade_justificativa

abbrev pub submitted_at : DateTime → Report → Report
submitted_at now r = record r {
  rag_status = aggregate_rag r.rag_prazo r.rag_escopo r.rag_qualidade;
  status = ReportStatus.submitted;
  submitted_at = some now;
}

-- The score of the project, cached in the report and in the project.
unfoldable pub cache_score : Floats → DateTime → Report → M (Unit {0})
cache_score fl now report = do
  breakdown ← compute_for_project fl now none report.project_id
  cache_to_report report breakdown.score

abbrev pub notify_if : DateTime → Report → Option Project → M (Unit {0})
notify_if now report none = pure tt
notify_if now report (some project) = notify_report_submitted now report project

unfoldable pub tell_pmos : DateTime → Report → M (Unit {0})
tell_pmos now report = do found ← gets (get_project report.project_id); notify_if now report found

-- The analysis that is scheduled runs in a session of its own, after the request.
unfoldable pub submit_report : Floats → DateTime → User → Uuid → M (Unit {0})
unfolding cache_score tell_pmos
submit_report fl now user report_id = do
  require_any_role (Role.gp ∷ []) user
  found ← gets (get_report report_id)
  report ← or_raise found (http 404)
  ensure_project_owned report.project_id user
  raise_if (not (is_editable report.status)) (http 400)
  raise_if (missing_dims report) (http 400)
  raise_if (missing_just report) (http 400)
  modify (set_report report_id (submitted_at now))
  commit
  attempt (cache_score fl now (submitted_at now report))
  attempt (tell_pmos now (submitted_at now report))
