-- ===== src/Runner/Provider.antt =====
-- One engine: the headless route first, then the broker. `_BaseProvider` of
-- jump_agent_runner/jump_agent_runner/providers/_base.py.
pub mod Shape
use Prim.Native.String.{◌++◌ as append}
use gp_portal.Base.{
  drop, ℕ, ◌+◌, ◌-◌, String, Bool, true, false, not, ◌||◌, Option, none, some, List, [], ◌∷◌, ◌++◌,
  length, take, if◌then◌else◌,
}
use gp_portal.Domain.{JsonFields}
use gp_portal.Runner.Types.{
  Engine, Route, FailureReason, AgentTask, AttemptLog, AgentResult, ValidationResult, accepted_from,
  rejected, Event, engine_value, reason_value, is_headless_to_broker,
}
use gp_portal.Runner.World.{Platform, World, AgentRoute, AgentProvider, emit}
use gp_portal.Runner.Extract.{chars, text_of}
use gp_portal.Runner.Validator.{validate}

-- `s[-500:]` and `s[:200]`
abbrev pub last_500 : String → String
last_500 s = let cs = chars s in text_of (drop (length cs - 500) cs)

abbrev pub first_200 : String → String
first_200 s = text_of (take 200 (chars s))

abbrev pub is_text : String → Bool
is_text String.[] = false
is_text (String.◌∷◌ c s) = true

-- `replace(log, success=False, ...)` for what the validator rejects.
abbrev pub failed_log : FailureReason → String → AttemptLog → AttemptLog
failed_log reason detail log = record log {
  success = false;
  failure_reason = some reason;
  notes = last_500 detail;
}

abbrev pub reason_or : Option FailureReason → FailureReason → FailureReason
reason_or (some r) other = r
reason_or none other = other

abbrev pub reason_of : Option AttemptLog → Option FailureReason
reason_of none = none
reason_of (some log) = log.failure_reason

abbrev pub detail_of : Option AttemptLog → String
detail_of none = "broker indisponível"
detail_of (some log) = log.notes

abbrev pub last_route : List AttemptLog → Option Route
last_route [] = none
last_route (a ∷ []) = some a.route
last_route (a ∷ b ∷ l) = last_route (b ∷ l)

abbrev pub engine_if_any : Engine → List AttemptLog → Option Engine
engine_if_any e [] = none
engine_if_any e (a ∷ l) = some e

abbrev pub value_or_unknown : Option FailureReason → String
value_or_unknown none = "desconhecido"
value_or_unknown (some r) = reason_value r

abbrev pub continuation_text : Engine → AttemptLog → String
continuation_text engine log = append "A tentativa anterior (headless " (
    append (engine_value engine) (
      append ") falhou com " (
        append (value_or_unknown log.failure_reason)
          (append ". Notas finais do relay/stderr: " (first_200 log.notes)))))

-- The task for the broker, with a hint where the headless attempt has left partial work.
abbrev pub broker_task : Engine → Option AttemptLog → AgentTask → AgentTask
broker_task engine none task = task
broker_task engine (some log) task =
    if log.artifact_written || is_text log.notes
    then record task { continuation_hint = some (continuation_text engine log) }
    else task

module _ {W : Type 0} (os : Platform W) (engine : Engine) where
  abbrev pub make_final_result :
      AgentTask
      → Option AttemptLog
      → List AttemptLog
      → ℕ
      → Option FailureReason
      → World W
      → AgentResult × World W
  make_final_result task failed attempts run_started fallback_reason w = (
    record {
      success = false;
      engine_used = engine_if_any engine attempts;
      route_used = last_route attempts;
      artifact_path =
          if os.exists_at w.system task.output_path then some task.output_path else none;
      artifact_data = none;
      failure_reason = some (
          reason_or (reason_of failed)
            (reason_or fallback_reason FailureReason.broker_unavailable));
      failure_detail = some (detail_of failed);
      attempts = attempts;
      duration_s = os.monotonic w.system - run_started;
    },
    w,
  )

  -- The result of an attempt whose artifact is accepted.
  abbrev pub accepted_result :
      String
      → JsonFields
      → Bool
      → AttemptLog
      → List AttemptLog
      → ℕ
      → World W
      → AgentResult × World W
  accepted_result path d recovered log attempts run_started w0 =
      let w = emit (Event.artifact_accepted path recovered) w0 in
      (
        record {
          success = true;
          engine_used = some engine;
          route_used = some log.route;
          artifact_path = some path;
          artifact_data = some d;
          failure_reason = none;
          failure_detail = none;
          attempts = attempts;
          duration_s = os.monotonic w.system - run_started;
        },
        w,
      )

  -- The validation of what the broker has left.
  abbrev pub judge_broker :
      AgentTask
      → AttemptLog
      → List AttemptLog
      → ℕ
      → World W
      → Option ValidationResult × W
      → Option (AgentResult × World W)
  judge_broker task log before run_started w (some (accepted_from path d recovered), sys) = some (
      accepted_result path d recovered log (before ++ log ∷ []) run_started
        (record w { system = sys }))
  judge_broker task log before run_started w (none, sys) = none
  judge_broker task log before run_started w (some (rejected reason detail), sys) =
      let failed = failed_log reason detail log in
      some (
        make_final_result task (some failed) (before ++ failed ∷ []) run_started none
          (emit (Event.artifact_rejected reason detail) (record w { system = sys })))

  abbrev pub after_broker :
      AgentTask
      → List AttemptLog
      → ℕ
      → Option (AttemptLog × World W)
      → Option (AgentResult × World W)
  after_broker task before run_started none = none
  after_broker task before run_started (some (log, w)) =
      if log.success
      then judge_broker task log before run_started w
          (validate os task log.notes log.sentinel_observed w.system)
      else some (make_final_result task (some log) (before ++ log ∷ []) run_started none w)

  module _ (headless broker : AgentRoute W) where
    abbrev pub on_broker :
        AgentTask
        → Option AttemptLog
        → List AttemptLog
        → ℕ
        → Bool × Option FailureReason × World W
        → Option (AgentResult × World W)
    on_broker task log attempts run_started (false, reason, w) = some (
        make_final_result task none attempts run_started
          (some (reason_or reason FailureReason.broker_unavailable)) w)
    on_broker task log attempts run_started (true, reason, w) =
        after_broker task attempts run_started (broker.execute (broker_task engine log task) w)

    -- A headless attempt that has failed is followed by the broker for some reasons.
    abbrev pub fall_back : AgentTask → AttemptLog → ℕ → World W → Option (AgentResult × World W)
    fall_back task log run_started w =
        if is_headless_to_broker log.failure_reason
        then on_broker task (some log) (log ∷ []) run_started (broker.is_available w)
        else some (make_final_result task (some log) (log ∷ []) run_started none w)

    abbrev pub judge_headless :
        AgentTask
        → AttemptLog
        → ℕ
        → World W
        → Option ValidationResult × W
        → Option (AgentResult × World W)
    judge_headless task log run_started w (some (accepted_from path d recovered), sys) =
        some
          (accepted_result path d recovered log (log ∷ []) run_started (record w { system = sys }))
    judge_headless task log run_started w (none, sys) = none
    judge_headless task log run_started w (some (rejected reason detail), sys) =
        fall_back task (failed_log reason detail log) run_started
          (emit (Event.artifact_rejected reason detail) (record w { system = sys }))

    abbrev pub after_headless :
        AgentTask → ℕ → Option (AttemptLog × World W) → Option (AgentResult × World W)
    after_headless task run_started none = none
    after_headless task run_started (some (log, w)) =
        if log.success
        then judge_headless task log run_started w
            (validate os task log.notes log.sentinel_observed w.system)
        else fall_back task log run_started w

    abbrev pub on_headless :
        AgentTask → ℕ → Bool × Option FailureReason × World W → Option (AgentResult × World W)
    on_headless task run_started (true, reason, w) =
        after_headless task run_started (headless.execute task w)
    on_headless task run_started (false, reason, w0) =
        let w = emit (Event.headless_unavailable engine reason) w0 in
        on_broker task none [] run_started (broker.is_available w)

    unfoldable pub run_provider : AgentTask → World W → Option (AgentResult × World W)
    run_provider task w =
        on_headless task (os.monotonic w.system) (
          headless.is_available
            (emit (Event.provider_selected engine Route.headless task.run_id) w))

  -- `_BaseProvider`
  abbrev pub base_provider : AgentRoute W → AgentRoute W → AgentProvider W
  base_provider headless broker = record { engine = engine; run = run_provider headless broker }
