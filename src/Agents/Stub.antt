-- ===== src/Agents/Stub.antt =====
-- The stand-in of the worker that extracts a proposal: `_process` of
-- backend/app/services/worker_stub.py, once its delay is over. The event that it emits at its end
-- is no part of the state.
mod Frame
pub mod Extracted
pub mod Single
use Prim.Native.String.{◌++◌ as append}
use gp_portal.Base.{
  ℕ, ◌+◌, String, Bool, true, false, not, Option, none, some, List, [], ◌∷◌, ◌++◌, ltb, length,
  if◌then◌else◌,
}
use gp_portal.Domain.{
  ProposalStatus, BaselineStatus, DeliverableComplexity, DeliverableStatus, AgentRunStatus, Uuid,
  DateTime, Project, Proposal, Baseline, Deliverable, AgentRunLog, Decimal, Json, JsonItems,
  JsonFields,
}
use gp_portal.Store.{
  Db, M, pure, gets, modify, new_uuid, flush, commit, attempt, scalar_one_or_none, ◌>>=◌, ◌>>◌,
  get_proposal, get_project, get_run, set_proposal, set_run,
}
use gp_portal.HealthScore.{active_baselines}
use gp_portal.Baseline.Diff.Propose.{diff_baselines}
use gp_portal.Agents.Results.{is_terminal}

-- What the texts are printed with, and the delay that is configured, in seconds.
pub record StubSettings : Type 0 where
  pub show_number : ℕ → String
  pub isoformat : DateTime → String
  pub delay_s : ℕ

abbrev pub whole : ℕ → Json
whole n = Json.number (record { negative = false; digits = n; places = 0 })

abbrev pub phase_entry : String → String → Json
phase_entry phase_id name = Json.object (
    JsonFields.field "phase_id" (Json.text phase_id) (
      JsonFields.field "name" (Json.text name)
        (JsonFields.field "deliverable_count" (whole 2) JsonFields.end)))

abbrev pub audit_entry : StubSettings → DateTime → Proposal → Json
audit_entry st now proposal = Json.object (
    JsonFields.field "source_proposal_filename" (Json.text proposal.original_filename) (
      JsonFields.field "source_proposal_version" (whole proposal.version) (
        JsonFields.field "extracted_at" (Json.text (st.isoformat now)) (
          JsonFields.field "engine" (Json.text "stub") (
            JsonFields.field "route" (Json.text "stub") (
              JsonFields.field "confidence_score"
                (Json.number (record { negative = false; digits = 62; places = 2 }))
                JsonFields.end))))))

-- `_build_simulated_baseline_payload`
abbrev pub simulated_payload : StubSettings → DateTime → Proposal → Project → Json
simulated_payload st now proposal project = Json.object (
    JsonFields.field "_simulated_by_stub" (Json.boolean true) (
      JsonFields.field "client_name" (Json.text project.client_name) (
        JsonFields.field "project_name" (Json.text project.name) (
          JsonFields.field "summary"
            (Json.text (
              append "Baseline simulado pelo worker_stub para a proposta v" (
                append (st.show_number proposal.version) (
                  append " de " (
                    append project.client_name
                      ". Ative o worker real (F2.6) para extração de produção.")))))
            (JsonFields.field "phases"
              (Json.array (
                JsonItems.item (phase_entry "fase-1" "Convergência inicial") (
                  JsonItems.item (phase_entry "fase-2" "Escala")
                    (JsonItems.item (phase_entry "fase-3" "Fechamento") JsonItems.nil))))
              (JsonFields.field "key_premises"
                (Json.array (
                  JsonItems.item
                    (Json.text "Stub: confirmar premissas com a proposta real antes de ativar")
                    JsonItems.nil))
                (JsonFields.field "audit" (audit_entry st now proposal) JsonFields.end)))))))

-- An item of `_stub_deliverables`: code, title, phase and complexity.
abbrev pub StubItem : Type 0
StubItem = String × String × String × DeliverableComplexity

abbrev pub stub_items : List StubItem
stub_items =
    ("d-001", "Migração rotina A → PySpark/Databricks", "fase-1", DeliverableComplexity.low)
    ∷ ("d-002", "Migração rotina B → PySpark/Databricks", "fase-1", DeliverableComplexity.low)
    ∷ (
      "d-003", "Migração rotina C com lógica intermediária", "fase-2", DeliverableComplexity.medium,
    )
    ∷ (
      "d-004", "Migração rotina D com lógica intermediária", "fase-2", DeliverableComplexity.medium,
    )
    ∷ ("d-005", "Migração rotina E (alta densidade lógica)", "fase-3", DeliverableComplexity.high)
    ∷ ("d-006", "Documentação técnica final + handover", "fase-3", DeliverableComplexity.medium)
    ∷ []

abbrev pub stub_excerpt : String → String
stub_excerpt code = append "[STUB] Trecho simulado da proposta para o entregável " (
    append code
      ". Em produção, o agente leitor preenche este campo com a citação literal da proposta original.")

abbrev pub stub_deliverable : DateTime → Uuid → Uuid → ℕ → StubItem → Deliverable
stub_deliverable now k baseline_id i (code, title, phase, complexity) = record {
  id = k;
  baseline_id = baseline_id;
  code = some code;
  title = title;
  description = none;
  phase = some phase;
  category = none;
  complexity = some complexity;
  type = none;
  source_excerpt = some (stub_excerpt code);
  due_date = none;
  acceptance_criteria = none;
  dependencies = [];
  status = DeliverableStatus.not_started;
  order_index = i;
  created_at = now;
}

unfoldable pub add_deliverables : DateTime → Uuid → ℕ → List StubItem → M (Unit {0})
add_deliverables now baseline_id i [] = pure tt
add_deliverables now baseline_id i (item ∷ items) = do
  k ← new_uuid
  modify λ db. record db {
    deliverables = db.deliverables ++ stub_deliverable now k baseline_id i item ∷ [];
  }
  add_deliverables now baseline_id (i + 1) items

abbrev pub is_pending_extraction : ProposalStatus → Bool
is_pending_extraction ProposalStatus.pending_extraction = true
is_pending_extraction _ = false

abbrev pub draft_of : StubSettings → DateTime → Uuid → Proposal → Project → Baseline
draft_of st now k proposal project = record {
  id = k;
  project_id = project.id;
  proposal_id = proposal.id;
  status = BaselineStatus.draft;
  activated_at = none;
  activated_by_id = none;
  payload = simulated_payload st now proposal project;
  created_at = now;
}

abbrev pub extracted : Proposal → Proposal
extracted p = record p { status = ProposalStatus.extracted }

abbrev pub stub_attempt : Json
stub_attempt = Json.object (
    JsonFields.field "engine" (Json.text "stub") (
      JsonFields.field "route" (Json.text "stub")
        (JsonFields.field "success" (Json.boolean true) JsonFields.end)))

abbrev pub done_by_stub : StubSettings → DateTime → AgentRunLog → AgentRunLog
done_by_stub st now r = record r {
  status = AgentRunStatus.done;
  engine_used = some "stub";
  route_used = some "stub";
  duration_s = some (record { negative = false; digits = st.delay_s; places = 0 });
  worker_id = some "stub-worker";
  completed_at = some now;
  attempts = stub_attempt ∷ [];
}

abbrev pub is_running : Option AgentRunLog → Bool
is_running none = false
is_running (some r) = not (is_terminal r.status)

-- `if run_id`: the run is done, unless it is over already.
abbrev pub finish_run : StubSettings → DateTime → Option String → Db → Db
finish_run st now none db = db
finish_run st now (some String.[]) db = db
finish_run st now (some (String.◌∷◌ c s)) db =
    let run_id = String.◌∷◌ c s in
    if is_running (get_run run_id db) then set_run run_id (done_by_stub st now) db else db

-- The comparison with the active baseline, if there is one.
unfoldable pub compare_with : DateTime → Uuid → Baseline → Option Baseline → M (Unit {0})
compare_with now project_id new none = pure tt
compare_with now project_id new (some active) = do
  n ← diff_baselines now project_id active new
  pure tt

unfoldable pub compare_with_active : DateTime → Project → Baseline → M (Unit {0})
unfolding compare_with
compare_with_active now project new = do
  active ← gets (active_baselines project.id)
  one ← scalar_one_or_none active
  compare_with now project.id new one

unfoldable pub compare_versions : DateTime → Proposal → Project → Baseline → M (Unit {0})
unfolding compare_with_active
compare_versions now proposal project new =
    if ltb 1 proposal.version then compare_with_active now project new else pure tt

unfoldable pub extract_proposal :
    StubSettings → DateTime → Proposal → Project → Option String → M (Unit {0})
unfolding add_deliverables compare_versions
extract_proposal st now proposal project run_id = do
  k ← new_uuid
  let baseline = draft_of st now k proposal project
  modify λ db. record db { baselines = db.baselines ++ baseline ∷ [] }
  flush
  add_deliverables now k 0 stub_items
  modify (set_proposal proposal.id extracted)
  modify (finish_run st now run_id)
  commit
  attempt (compare_versions now proposal project baseline)

abbrev pub process_for :
    StubSettings → DateTime → Option String → Proposal → Option Project → M (Unit {0})
process_for st now run_id proposal none = pure tt
process_for st now run_id proposal (some project) = extract_proposal st now proposal project run_id

abbrev pub process_pending : StubSettings → DateTime → Option String → Proposal → M (Unit {0})
process_pending st now run_id proposal = do
  project ← gets (get_project proposal.project_id)
  process_for st now run_id proposal project

abbrev pub process_found : StubSettings → DateTime → Option String → Option Proposal → M (Unit {0})
process_found st now run_id none = pure tt
process_found st now run_id (some proposal) =
    if is_pending_extraction proposal.status
    then process_pending st now run_id proposal
    else pure tt

unfoldable pub process_proposal : StubSettings → DateTime → Uuid → Option String → M (Unit {0})
unfolding extract_proposal
process_proposal st now proposal_id run_id = do
  found ← gets (get_proposal proposal_id)
  process_found st now run_id found
