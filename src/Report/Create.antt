-- ===== src/Report/Create.antt =====
-- `create_report` of backend/app/api/v1/reports.py.
use gp_portal.Base.{none, [], ◌∷◌, ◌++◌, ltb}
use gp_portal.Domain.{Role, ReportStatus, Uuid, Date, DateTime, User, Report}
use gp_portal.Store.{Db, M, http, raise_if, pure, modify, new_uuid, commit, ◌>>=◌, ◌>>◌}
use gp_portal.Access.{require_any_role, ensure_project_owned}

pub record ReportCreate : Type 0 where
  pub project_id : Uuid
  pub period_start : Date
  pub period_end : Date

-- `Report(...)` with the column defaults.
abbrev pub new_report : Uuid → Uuid → Date → Date → Uuid → DateTime → Report
new_report k project_id period_start period_end author now = record {
  id = k;
  project_id = project_id;
  period_start = period_start;
  period_end = period_end;
  rag_status = none;
  rag_prazo = none;
  rag_escopo = none;
  rag_qualidade = none;
  rag_prazo_justificativa = none;
  rag_escopo_justificativa = none;
  rag_qualidade_justificativa = none;
  status = ReportStatus.draft;
  highlights = none;
  next_steps = none;
  notes = none;
  health_score = none;
  created_by_id = author;
  created_at = now;
  submitted_at = none;
  approved_at = none;
}

abbrev pub add_report : Report → Db → Db
add_report r db = record db { reports = db.reports ++ r ∷ [] }

unfoldable pub create_report : DateTime → User → ReportCreate → M Report
create_report now user payload = do
  require_any_role (Role.gp ∷ []) user
  raise_if (ltb payload.period_end payload.period_start) (http 400)
  ensure_project_owned payload.project_id user
  k ← new_uuid
  let report = new_report k payload.project_id payload.period_start payload.period_end user.id now
  modify (add_report report)
  commit
  pure report
