-- ===== src/Worker.antt =====
-- The worker that serves the queue: worker/worker/main.py, with http_client.py, heartbeat.py and
-- prompt_builder.py. Redis, the network, the runner, the workspace on disk and the reading of a
-- payload are parameters; the waits between the attempts of a request leave no trace. The texts of a
-- job have the type that the publisher gives them, and its timeouts are not negative. An exception
-- that nobody handles is none: it ends the loop.
pub mod Lost
use Prim.Native.String.{◌++◌ as append}
use gp_portal.Base.{
  ℕ, zero, suc, ◌+◌, ◌-◌, String, Bool, true, false, not, ◌||◌, Option, none, some, List, [], ◌∷◌,
  ◌++◌, ◌==◌, leb, str_eq, if◌then◌else◌,
}
use gp_portal.Domain.{Date, Decimal, Json, JsonFields}
use gp_portal.Runner.Types.{
  AgentTask, AgentResult, AttemptLog, FailureReason, engine_value, route_value, reason_value,
}
use gp_portal.Runner.World.{World}
use gp_portal.Runner.Provider.{is_text}
use gp_portal.Agents.Results.{AgentResultPayload}

pub record JobPayload : Type 0 where
  pub run_id : Option String
  pub task_type : Option String
  pub output_path_hint : Option String
  pub schema_hint : Option JsonFields
  pub timeout_hard_s : Option Json
  pub heartbeat_s : Option Json

-- What `json.loads` makes of an item of the queue: an error, the value null, another value
-- that is no object, or a job.
pub data Payload : Type 0 where
  invalid_json null_value not_object : Payload
  job : JobPayload → Payload

-- What a request over the network ends in: one of the errors that are tried again, another one, or
-- a status.
pub data Answer : Type 0 where
  network_error other_error : String → Answer
  status_code : ℕ → Answer

pub data DeadLetter : Type 0 where
  corrupt : String → DeadLetter
  callback_failed : String → JobPayload → AgentResultPayload → String → DeadLetter
  failure_callback_failed : String → String → String → DeadLetter

pub record WorkerSetting (W : Type 0) : Type 0 where
  pub worker_id : String
  pub workspace_root : String
  pub read : String → Payload
  pub unknown_run : W → String
  -- none is an error of the operating system.
  pub make_workspace : String → W → Option W
  pub remove_workspace : String → W → W
  pub today : W → Date
  -- none is an exception: `AgentRunner.run` has no handler around the routes and the validation.
  pub runner : AgentTask → World W → Option (AgentResult × World W)
  -- Whether Redis takes a dead letter.
  pub takes_letter : W → Bool
  -- `not x` of a value that was read from JSON, and `int(x)`: none is an exception.
  pub is_falsy : Json → Bool
  pub int : Json → Option ℕ
  pub send : String → AgentResultPayload → W → Answer × W
  -- `a / b` of paths, `round(x, 2)` of microseconds as seconds, `str` of a status, the text of the
  -- error of `raise_for_status`, `repr` of a text.
  pub join : String → String → String
  pub round_2 : ℕ → Decimal
  pub show : ℕ → String
  pub status_error : ℕ → String
  pub repr : String → String

pub record Worker (W : Type 0) : Type 0 where
  pub world : World W
  pub delivered : List (String × AgentResultPayload)
  pub dead : List DeadLetter
  pub jobs_today : ℕ
  pub failed_today : ℕ
  pub last_reset_date : Date

-- `build_prompt`; none is the `ValueError` of an unknown type.
unfoldable pub build_prompt : String → Option String
build_prompt t =
    if str_eq t "proposal_extraction"
    then some
        "Você é o agente leitor de propostas comerciais da Jump Label. Extraia escopo, entregas e premissas da proposta indicada no contexto, produzindo o JSON canônico conforme o schema_hint fornecido."
    else if str_eq t "report_analysis"
    then some
        "Você é o agente analisador de reports semanais. Avalie consistência entre RAG, progresso, riscos e pendências; produza insights estruturados no JSON conforme o schema_hint."
    else if str_eq t "portfolio_pattern"
    then some
        "Você é o agente de inteligência cruzada de portfólio. Analise padrões emergentes entre projetos com histórico de pelo menos 3 reports e produza insights consolidados no JSON conforme o schema_hint."
    else none

-- `x or other` for a text.
abbrev pub text_or : Option String → String → String
text_or none other = other
text_or (some s) other = if is_text s then s else other

abbrev pub reason_json : Option FailureReason → Json
reason_json none = Json.null
reason_json (some r) = Json.text (reason_value r)

abbrev pub attempt_json : {W : Type 0} → WorkerSetting W → AttemptLog → JsonFields
attempt_json st a = JsonFields.field "engine" (Json.text (engine_value a.engine)) (
    JsonFields.field "route" (Json.text (route_value a.route)) (
      JsonFields.field "success" (Json.boolean a.success) (
        JsonFields.field "failure_reason" (reason_json a.failure_reason) (
          JsonFields.field "duration_s" (Json.number (st.round_2 (a.ended_at - a.started_at))) (
            JsonFields.field "sentinel_observed" (Json.boolean a.sentinel_observed) (
              JsonFields.field "artifact_written" (Json.boolean a.artifact_written)
                (JsonFields.field "notes" (Json.text a.notes) JsonFields.end)))))))

abbrev pub map_some : {A : Type 0} → (A → String) → Option A → Option String
map_some f none = none
map_some f (some a) = some (f a)

module _ {W : Type 0} (st : WorkerSetting W) where
  abbrev pub attempts_json : List AttemptLog → List JsonFields
  attempts_json [] = []
  attempts_json (a ∷ l) = attempt_json st a ∷ attempts_json l

  -- `int(x or other)`
  abbrev pub number_or : Option Json → ℕ → Option ℕ
  number_or none other = some other
  number_or (some x) other = if st.is_falsy x then some other else st.int x

  -- `_build_callback_payload`
  abbrev pub build_callback_payload : AgentResult → AgentResultPayload
  build_callback_payload r = record {
    success = r.success;
    engine_used = map_some engine_value r.engine_used;
    route_used = map_some route_value r.route_used;
    artifact_data = r.artifact_data;
    artifact_path = r.artifact_path;
    attempts = attempts_json r.attempts;
    duration_s = some (st.round_2 r.duration_s);
    failure_reason = map_some reason_value r.failure_reason;
    failure_detail = r.failure_detail;
    worker_id = some st.worker_id;
  }

  -- What `_report_failure` sends.
  abbrev pub failure_payload : String → AgentResultPayload
  failure_payload detail = record {
    success = false;
    engine_used = none;
    route_used = none;
    artifact_data = none;
    artifact_path = none;
    attempts = [];
    duration_s = some (record { negative = false; digits = 0; places = 0 });
    failure_reason = some "execution_error";
    failure_detail = some detail;
    worker_id = some st.worker_id;
  }

  abbrev pub is_transient : ℕ → Bool
  is_transient code = leb 500 code || code == 408

  -- `post_signed`, with so many attempts left behind the one that is made: none is a success.
  abbrev pub judge_answer : Answer → Option String × W → W → Option String × W
  judge_answer (network_error exc) later w = later
  judge_answer (other_error exc) later w = (some exc, w)
  judge_answer (status_code code) later w =
      if is_transient code
      then later
      else if leb 400 code
      then (some (st.status_error code), w)
      else (none, w)

  abbrev pub error_of : Answer → String
  error_of (network_error exc) = exc
  error_of (other_error exc) = exc
  error_of (status_code code) = append "HTTP " (st.show code)

  unfoldable pub post_attempts : ℕ → String → AgentResultPayload → W → Option String × W
  post_attempts zero run_id payload w0 =
      let (answer, w) = st.send run_id payload w0 in
      judge_answer answer (some (error_of answer), w) w
  post_attempts (suc n) run_id payload w0 =
      let (answer, w) = st.send run_id payload w0 in
      let later = post_attempts n run_id payload w in judge_answer answer later w

  unfoldable pub post_signed : String → AgentResultPayload → W → Option String × W
  post_signed run_id payload w = post_attempts 2 run_id payload w

  abbrev pub with_system : Worker W → W → Worker W
  with_system x w = record x { world = record x.world { system = w } }

  -- A callback that was sent, or the letter that stands for it where Redis takes one.
  abbrev pub settle :
      String
      → AgentResultPayload
      → (String → DeadLetter)
      → Worker W
      → Option String × W
      → Option (Worker W)
  settle run_id payload letter x (none, w) =
      some (record (with_system x w) { delivered = x.delivered ++ (run_id, payload) ∷ [] })
  settle run_id payload letter x (some exc, w) =
      if st.takes_letter w
      then some (record (with_system x w) { dead = x.dead ++ letter exc ∷ [] })
      else none

  abbrev pub post_or_dead :
      String → AgentResultPayload → (String → DeadLetter) → Worker W → Option (Worker W)
  post_or_dead run_id payload letter x =
      settle run_id payload letter x (post_signed run_id payload x.world.system)

  abbrev pub roll_day : Worker W → Worker W
  roll_day x =
      let day = st.today x.world.system in
      if day == x.last_reset_date
      then x
      else record x { jobs_today = 0; failed_today = 0; last_reset_date = day }

  abbrev pub count_failure : Bool → ℕ → ℕ
  count_failure success n = if success then n else n + 1

  -- `HeartbeatTask.record_job`
  abbrev pub record_job : Bool → Worker W → Worker W
  record_job success x0 =
      let x = roll_day x0 in
      record x {
        jobs_today = x.jobs_today + 1;
        failed_today = count_failure success x.failed_today;
      }

  abbrev pub task_of : String → String → String → JobPayload → ℕ → ℕ → AgentTask
  task_of run_id task_type prompt p timeout_hard_s heartbeat_s =
      let workspace = st.join st.workspace_root run_id in
      record {
        run_id = run_id;
        prompt = prompt;
        output_path = st.join workspace (text_or p.output_path_hint "out.json");
        schema_hint = p.schema_hint;
        workspace = workspace;
        timeout_hard_s = timeout_hard_s;
        heartbeat_s = heartbeat_s;
        metadata =
            JsonFields.field "task_type" (Json.text task_type)
              (JsonFields.field "worker_id" (Json.text st.worker_id) JsonFields.end);
        continuation_hint = none;
      }

  -- `_cleanup_workspace`
  abbrev pub cleanup : Bool → String → Worker W → Worker W
  cleanup true workspace x = x
  cleanup false workspace x = with_system x (st.remove_workspace workspace x.world.system)

  -- What follows the report of a run.
  abbrev pub close_job : Bool → String → Option (Worker W) → Option (Worker W)
  close_job success workspace none = none
  close_job success workspace (some sent) =
      some (cleanup (not success) workspace (record_job success sent))

  abbrev pub report_result :
      String → JobPayload → String → Worker W → Option (AgentResult × World W) → Option (Worker W)
  report_result run_id p workspace x none = none
  report_result run_id p workspace x (some (r, w)) =
      let payload = build_callback_payload r in
      close_job r.success workspace
        (post_or_dead run_id payload (callback_failed run_id p payload) (record x { world = w }))

  abbrev pub report_failure : String → String → Worker W → Option (Worker W)
  report_failure run_id detail x =
      post_or_dead run_id (failure_payload detail) (failure_callback_failed run_id detail) x

  -- The failure leaves the workspace.
  abbrev pub count_job : Option (Worker W) → Option (Worker W)
  count_job none = none
  count_job (some sent) = some (record_job false sent)

  abbrev pub run_timed :
      String → String → String → JobPayload → Worker W → Option ℕ → Option ℕ → Option (Worker W)
  run_timed run_id task_type prompt p x (some timeout_hard_s) (some heartbeat_s) =
      let task = task_of run_id task_type prompt p timeout_hard_s heartbeat_s in
      report_result run_id p task.workspace x (st.runner task x.world)
  run_timed run_id task_type prompt p x _ _ = none

  abbrev pub run_task : String → String → JobPayload → Worker W → Option String → Option (Worker W)
  run_task run_id task_type p x none =
      count_job (report_failure run_id (append "task_type desconhecido: " (st.repr task_type)) x)
  run_task run_id task_type p x (some prompt) =
      run_timed run_id task_type prompt p x (number_or p.timeout_hard_s 600)
        (number_or p.heartbeat_s 30)

  abbrev pub run_in : String → String → JobPayload → Worker W → Option W → Option (Worker W)
  run_in run_id task_type p x none = none
  run_in run_id task_type p x (some made) =
      run_task run_id task_type p (with_system x made) (build_prompt task_type)

  unfoldable pub process_job : JobPayload → Worker W → Option (Worker W)
  unfolding build_prompt post_signed
  process_job p x =
      let run_id = text_or p.run_id (st.unknown_run x.world.system) in
      let task_type = text_or p.task_type "proposal_extraction" in
      run_in run_id task_type p x
        (st.make_workspace (st.join st.workspace_root run_id) x.world.system)

  -- The letter for an item that is no JSON is sent by a task of its own: if it is not taken, the loop
  -- goes on.
  abbrev pub push_corrupt : String → Worker W → Worker W
  push_corrupt raw x =
      if st.takes_letter x.world.system then record x { dead = x.dead ++ corrupt raw ∷ [] } else x

  -- One turn of the loop on an item of the queue: null is passed over, and none is an exception.
  abbrev pub serve_payload : String → Payload → Worker W → Option (Worker W)
  serve_payload raw invalid_json x = some (push_corrupt raw x)
  serve_payload raw null_value x = some x
  serve_payload raw not_object x = none
  serve_payload raw (job p) x = process_job p x

  -- The loop of `run` over the items of the queue, the first one first. Where an exception ends it,
  -- the items behind the one that it took last stay in the queue; the worker is then given as it was
  -- before that item.
  unfoldable pub work : List String → Worker W → Worker W × Option (List String)
  unfolding process_job
  work [] x = (x, none)
  work (raw ∷ raws) x = elim (serve_payload raw (st.read raw) x) [
    | none ↦ (x, some raws)
    | some y ↦ work raws y
  ]
