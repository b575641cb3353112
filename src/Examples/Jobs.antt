-- ===== src/Examples/Jobs.antt =====
-- The worker on a queue of two items, one of them no JSON.
use gp_portal.Base.{
  ℕ, ◌==◌, true, false, none, some, [], ◌∷◌, str_eq, if◌then◌else◌, refl, List, String,
}
use gp_portal.Domain.{Decimal}
use gp_portal.Runner.Types.{Engine, Route, AgentResult}
use gp_portal.Worker.{
  JobPayload, invalid_json, job, network_error, status_code, WorkerSetting, Worker, work,
}
use gp_portal.Worker.Lost.{Account, work-Account}

abbrev proposal_job : JobPayload
proposal_job = record {
  run_id = some "run";
  task_type = some "proposal_extraction";
  output_path_hint = none;
  schema_hint = none;
  timeout_hard_s = none;
  heartbeat_s = none;
}

abbrev done : AgentResult
done = record {
  success = true;
  engine_used = some Engine.claude;
  route_used = some Route.headless;
  artifact_path = none;
  artifact_data = none;
  failure_reason = none;
  failure_detail = none;
  attempts = [];
  duration_s = 0;
}

abbrev zero_seconds : Decimal
zero_seconds = record { negative = false; digits = 0; places = 0 }

-- A network that fails at first and recovers.
abbrev setting : WorkerSetting ℕ
setting = record {
  worker_id = "worker";
  workspace_root = "tmp";
  read = λ raw. if str_eq raw "job" then job proposal_job else invalid_json;
  unknown_run = λ w. "unknown";
  make_workspace = λ path w. some w;
  remove_workspace = λ path w. w;
  today = λ w. 739000;
  runner = λ task w. some (done, w);
  takes_letter = λ w. true;
  is_falsy = λ x. false;
  int = λ x. none;
  send = λ run_id payload w. if w == 0 then (network_error "down", 1) else (status_code 200, w);
  join = λ a b. b;
  round_2 = λ n. zero_seconds;
  show = λ n. "200";
  status_error = λ n. "error";
  repr = λ s. s;
}

abbrev started : Worker ℕ
started = record {
  world = record { system = 0; events = [] };
  delivered = [];
  dead = [];
  jobs_today = 0;
  failed_today = 0;
  last_reset_date = 739000;
}

work-Account_example :
    let raws : List String = "bad" ∷ "job" ∷ [] in
    Account setting raws started (work setting raws started).0 (work setting raws started).1
work-Account_example = work-Account setting (λ w. refl) ("bad" ∷ "job" ∷ []) started
