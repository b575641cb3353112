-- ===== src/Examples/Runs.antt =====
-- Runs of the agents on a platform that holds one file.
use gp_portal.Base.{
  ◌≡◌, refl, String, Bool, true, false, Option, none, some, [], ◌∷◌, inl, is_some, str_eq,
  if◌then◌else◌,
}
use gp_portal.Domain.{Json, JsonFields}
use gp_portal.Runner.Types.{Engine, Route, FailureReason, AgentTask, AttemptLog, AgentResult, Event}
use gp_portal.Runner.World.{
  content, os_error, parsed, decode_error, Platform, World, AgentRoute, AgentProvider, emit,
}
use gp_portal.Runner.Extract.{Text, chars, mark_of, remove_fences, extract_json_block}
use gp_portal.Runner.Extract.Grammar.{StringBody, Inner, IsBlock}
use gp_portal.Runner.Extract.First.{extract_json_block-first}
use gp_portal.Runner.Extract.Sound.{Part, extract_json_block-Part}
use gp_portal.Runner.Failover.{run_agent}
use gp_portal.Runner.Failover.Attempts.{Answers, run_agent-Verdict}

-- A block whose string has a brace, behind a word and a fence.
abbrev relay : Text
relay = chars "so: ```json{\"}\"}``` done"

abbrev found : Text
found = "{" ∷ "\"" ∷ "}" ∷ "\"" ∷ "}" ∷ []

brace_string : StringBody ("}" ∷ "\"" ∷ [])
unfolding mark_of
brace_string = StringBody.letter "}" ("\"" ∷ []) (λ q. cc) (λ b. cc) (StringBody.close "\"" refl)

found-IsBlock : IsBlock found
unfolding mark_of
found-IsBlock = record {
  opener = "{";
  inner = "\"" ∷ "}" ∷ "\"" ∷ [];
  closer = "}";
  opens = refl;
  closes = refl;
  whole = refl;
  balanced = Inner.quoted "\"" ("}" ∷ "\"" ∷ []) [] refl brace_string Inner.nothing;
}

extract_json_block-first_example : extract_json_block relay ≡ some found
unfolding remove_fences chars mark_of
extract_json_block-first_example =
    extract_json_block-first relay (chars "so: ") found (chars " done") refl
      (inl refl, (inl refl, (inl refl, (inl refl, tt)))) found-IsBlock

extract_json_block-Part_example : Part (remove_fences relay) found
extract_json_block-Part_example =
    extract_json_block-Part relay found extract_json_block-first_example

abbrev disk : Platform (Option String)
disk = record {
  exists_at = λ w path. is_some w;
  read_text = λ w path. elim w [ none ↦ os_error "missing" | some t ↦ content t ];
  write_text = λ w path t. (none, some t);
  monotonic = λ w. 0;
  loads = λ t.
      if str_eq t "{}" then parsed (Json.object JsonFields.end) else decode_error "bad" "1" "1";
  dumps = λ d. "{}";
  type_name = λ j. "list";
  show_number = λ n. "1";
  show_seconds = λ n. "0.0";
}

abbrev task : AgentTask
task = record {
  run_id = "run";
  prompt = "extract";
  output_path = "out.json";
  schema_hint = none;
  workspace = ".";
  timeout_hard_s = 600;
  heartbeat_s = 30;
  metadata = JsonFields.end;
  continuation_hint = none;
}

abbrev attempt : Engine → Route → Bool → String → AttemptLog
attempt engine route success notes = record {
  engine = engine;
  route = route;
  started_at = 0;
  ended_at = 0;
  success = success;
  failure_reason = if success then none else some FailureReason.quota_exceeded;
  sentinel_observed = success;
  artifact_written = false;
  notes = notes;
}

-- A route that is there and always answers the same.
abbrev route : Engine → Route → Bool → String → AgentRoute (Option String)
route engine r success notes = record {
  is_available = λ w. (true, none, w);
  execute = λ t w. some (attempt engine r success notes, w);
}

abbrev fresh : World (Option String)
fresh = record { system = none; events = [] }

abbrev exhausted : Route → AgentRoute (Option String)
exhausted r = route Engine.claude r false "quota"

abbrev talkative : Route → AgentRoute (Option String)
talkative r = route Engine.codex r true "done {}"

abbrev result : Engine → Bool → AgentResult
result engine success = record {
  success = success;
  engine_used = some engine;
  route_used = some Route.headless;
  artifact_path = none;
  artifact_data = none;
  failure_reason = if success then none else some FailureReason.quota_exceeded;
  failure_detail = none;
  attempts = [];
  duration_s = 0;
}

-- An engine that always gives the same result.
abbrev answering : Engine → Bool → AgentProvider (Option String)
answering e success = record { engine = e; run = λ t w. some (result e success, w) }

-- The world that the second engine is given.
abbrev handed_on : World (Option String)
handed_on =
    emit (Event.provider_failover Engine.claude Engine.codex (some FailureReason.quota_exceeded))
      fresh

run_agent-Verdict_example :
    Answers disk
      (answering Engine.claude false)
      (answering Engine.codex true)
      (result Engine.claude false)
      (result Engine.codex true)
      (run_agent disk (answering Engine.claude false) (answering Engine.codex true) task fresh)
run_agent-Verdict_example =
    run_agent-Verdict disk (answering Engine.claude false) (answering Engine.codex true) task fresh
      fresh handed_on (result Engine.claude false) (result Engine.codex true) refl refl
