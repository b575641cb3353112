-- ===== src/Runner/Failover.antt =====
-- Two engines: `AgentRunner` of jump_agent_runner/jump_agent_runner/runner.py.
pub mod Attempts
use Prim.Native.String.{◌++◌ as append}
use gp_portal.Base.{
  ℕ, ◌-◌, ◌+◌, ◌/◌, String, Bool, true, false, Option, none, some, List, [], ◌∷◌, ◌++◌, length,
  if◌then◌else◌,
}
use gp_portal.Runner.Types.{
  Engine, FailureReason, AgentTask, AttemptLog, AgentResult, Event, engine_value, route_value,
  reason_value, is_provider_to_provider,
}
use gp_portal.Runner.World.{Platform, World, AgentProvider, emit}
use gp_portal.Runner.Provider.{first_200}

abbrev pub value_or : String → Option FailureReason → String
value_or s none = s
value_or s (some r) = reason_value r

abbrev pub engine_or : Option Engine → String
engine_or none = "?"
engine_or (some e) = engine_value e

abbrev pub text_or_empty : Option String → String
text_or_empty none = ""
text_or_empty (some s) = s

abbrev pub show_bool : Bool → String
show_bool true = "True"
show_bool false = "False"

-- `"\n".join(lines)`
abbrev pub join_lines : List String → String
join_lines [] = ""
join_lines (s ∷ []) = s
join_lines (s ∷ t ∷ l) = append s (append "\n" (join_lines (t ∷ l)))

module _ {W : Type 0} (os : Platform W) where
  abbrev pub attempt_line : ℕ → AttemptLog → String
  attempt_line i a = append "  [" (
      append (os.show_number i) (
        append "] engine=" (
          append (engine_value a.engine) (
            append " route=" (
              append (route_value a.route) (
                append " success=" (
                  append (show_bool a.success) (
                    append " reason=" (
                      append (value_or "-" a.failure_reason) (
                        append " duration="
                          (append (os.show_seconds (a.ended_at - a.started_at)) "s")))))))))))

  abbrev pub attempt_lines : ℕ → List AttemptLog → List String
  attempt_lines i [] = []
  attempt_lines i (a ∷ l) = attempt_line i a ∷ attempt_lines (i + 1) l

  abbrev pub build_continuation_hint : AgentTask → AgentResult → World W → String
  build_continuation_hint task r w =
      let present = os.exists_at w.system task.output_path in
      join_lines (
        append "O engine " (
            append (engine_or r.engine_used)
              (append " falhou com " (append (value_or "?" r.failure_reason) ".")))
          ∷ append "Detalhe: " (first_200 (text_or_empty r.failure_detail))
          ∷ ""
          ∷ "Tentativas anteriores:"
          ∷ attempt_lines 1 r.attempts
        ++ ""
          ∷ append "Output_path (" (
              append task.output_path
                (append ") já existe: " (append (if present then "sim" else "não") ".")))
          ∷ (if present
              then "Aproveite o conteúdo parcial em vez de recomeçar do zero." ∷ []
              else []))

  abbrev pub emit_complete : AgentResult → ℕ → World W → World W
  emit_complete r run_started w =
      emit
        (Event.run_complete r.success r.engine_used r.route_used
          ((os.monotonic w.system - run_started) / 1000000) (length r.attempts))
        w

  -- The second engine's result, with the attempts of both.
  abbrev pub merge :
      AgentResult → ℕ → Option (AgentResult × World W) → Option (AgentResult × World W)
  merge first run_started none = none
  merge first run_started (some (second, w)) =
      let merged = record second {
        attempts = first.attempts ++ second.attempts;
        duration_s = os.monotonic w.system - run_started;
      } in
      some (merged, emit_complete merged run_started w)

  module _ (primary secondary : AgentProvider W) where
    abbrev pub fail_over : AgentTask → ℕ → AgentResult → World W → Option (AgentResult × World W)
    fail_over task run_started r w0 =
        let w =
          emit (Event.provider_failover primary.engine secondary.engine r.failure_reason) w0 in
        let hint = build_continuation_hint task r w in
        merge r run_started (secondary.run (record task { continuation_hint = some hint }) w)

    abbrev pub after_primary :
        AgentTask → ℕ → Option (AgentResult × World W) → Option (AgentResult × World W)
    after_primary task run_started none = none
    after_primary task run_started (some (r, w)) =
        if r.success
        then some (r, emit_complete r run_started w)
        else if is_provider_to_provider r.failure_reason
        then fail_over task run_started r w
        else some (r, emit_complete r run_started w)

    -- `AgentRunner.run`
    unfoldable pub run_agent : AgentTask → World W → Option (AgentResult × World W)
    run_agent task w = after_primary task (os.monotonic w.system) (primary.run task w)
