-- ===== src/Examples/Data.antt =====
-- The rows of a small portal: a GP, a PMO and a client, an active project with its baseline, and a
-- report whose dimensions are stated.
use gp_portal.Base.{String, ◌+◌, ◌-◌, ◌*◌, ◌/◌, ltb, leb, ℕ, none, some, List, [], ◌∷◌}
use gp_portal.Domain.{
  Role, ProjectStatus, ProposalStatus, BaselineStatus, ReportStatus, RagStatus, ScopeChangeStatus,
  ScopeChangeType, Uuid, User, Project, Proposal, Baseline, Report, ScopeChange, ChangeText, Json,
}
use gp_portal.Store.{Db}
use gp_portal.HealthScore.{Floats}

abbrev pub person : Uuid → String → Role → User
person k email role = record {
  id = k;
  name = "name";
  email = email;
  password_hash = "hash";
  role = role;
  created_at = 0;
  anonymized_at = none;
}

abbrev pub gp_user : User
gp_user = person 1 "gp@jump" Role.gp

abbrev pub pmo_user : User
pmo_user = person 2 "pmo@jump" Role.pmo

abbrev pub client_user : User
client_user = person 3 "client@jump" Role.client

abbrev pub project : Project
project = record {
  id = 10;
  name = "project";
  client_name = "client";
  description = none;
  gp_user_id = 1;
  client_user_id = some 3;
  status = ProjectStatus.active;
  started_at = none;
  ended_at = none;
  health_score_cached = none;
  created_at = 0;
}

abbrev pub proposal : Uuid → ℕ → Proposal
proposal k version = record {
  id = k;
  project_id = 10;
  version = version;
  file_url = "url";
  file_sha256 = "sha";
  original_filename = "file";
  size_bytes = 1;
  status = ProposalStatus.extracted;
  uploaded_by_id = 1;
  uploaded_at = 0;
}

abbrev pub baseline : Uuid → Uuid → BaselineStatus → Baseline
baseline k proposal_id status = record {
  id = k;
  project_id = 10;
  proposal_id = proposal_id;
  status = status;
  activated_at = none;
  activated_by_id = none;
  payload = Json.null;
  created_at = 0;
}

abbrev pub report : Uuid → ReportStatus → Report
report k status = record {
  id = k;
  project_id = 10;
  period_start = 100;
  period_end = 107;
  rag_status = some RagStatus.amber;
  rag_prazo = some RagStatus.amber;
  rag_escopo = some RagStatus.green;
  rag_qualidade = some RagStatus.green;
  rag_prazo_justificativa = some "late";
  rag_escopo_justificativa = none;
  rag_qualidade_justificativa = none;
  status = status;
  highlights = none;
  next_steps = none;
  notes = none;
  health_score = none;
  created_by_id = 1;
  created_at = 0;
  submitted_at = none;
  approved_at = none;
}

abbrev pub scope_change : ScopeChange
scope_change = record {
  id = 40;
  project_id = 10;
  description = ChangeText.plain "new";
  baseline_from_id = some 30;
  baseline_to_id = some 31;
  change_type = some ScopeChangeType.added;
  requested_at = 0;
  decided_at = none;
  approved_by_id = none;
  status = ScopeChangeStatus.proposed;
  deliverable_code = some "E1";
  impact_baseline_id = none;
}

abbrev pub rows : List Baseline → List Report → List ScopeChange → Db
rows baselines reports changes = record {
  next_id = 1000;
  users = gp_user ∷ pmo_user ∷ client_user ∷ [];
  projects = project ∷ [];
  proposals = proposal 20 1 ∷ proposal 21 2 ∷ [];
  baselines = baselines;
  deliverables = [];
  reports = reports;
  progresses = [];
  risks = [];
  action_plans = [];
  pending_items = [];
  scope_changes = changes;
  agent_runs = [];
  approvals = [];
  retrospectives = [];
  notifications = [];
  portfolio_config = none;
  insights = [];
  heartbeats = [];
  data_records = [];
  jobs = [];
}

-- Whole numbers in the place of floats.
abbrev pub total : List ℕ → ℕ
total [] = 0
total (n ∷ ns) = n + total ns

abbrev pub naturals : Floats
naturals = record {
  F = ℕ;
  of_nat = λ n. n;
  of_decimal = λ d. d.digits;
  add = λ a b. a + b;
  sub = λ a b. a - b;
  mul = λ a b. a * b;
  div = λ a b. a / b;
  abs = λ a. a;
  sum = total;
  lt = ltb;
  le = leb;
  tenths = λ a. a * 10;
}
