-- ===== src/Runner/Failover/Attempts.antt =====
-- The results of `AgentRunner.run`.
use gp_portal.Base.{
  ◌≡◌, sym, ℕ, false, some, List, ◌++◌, if-both, ◌⊎◌, inl, inr, Option, none, true, refl,
  Bool-cases, subst,
}
use gp_portal.Runner.Types.{
  Engine, AgentTask, AgentResult, Event, is_provider_to_provider, FailureReason,
}
use gp_portal.Runner.World.{Platform, World, AgentRoute, AgentProvider, emit}
use gp_portal.Runner.Validator.Artifact.{IsReliable}
use gp_portal.Runner.Provider.Shape.{HasUndecodable, CanRaise}
use gp_portal.Runner.Failover.{merge, build_continuation_hint, after_primary, run_agent}

module _ {W : Type 0} (os : Platform W) where
  module _ (primary secondary : AgentProvider W) where
    -- What the answer of a run is, by the results of the two engines.
    pub data Verdict (first second answer : AgentResult) : Type 0 where
      of_first : first.success ≡ true → answer ≡ first → Verdict first second answer
      final :
          first.success ≡ false
          → (first.failure_reason ≡ none)
            ⊎ (first.failure_reason ≡ some FailureReason.interactive_mode_detected)
            ⊎ (first.failure_reason ≡ some FailureReason.timeout_no_artifact)
            ⊎ (first.failure_reason ≡ some FailureReason.execution_error)
          → answer ≡ first
          → Verdict first second answer
      of_second :
          first.success ≡ false
          → (first.failure_reason ≡ some FailureReason.quota_exceeded)
            ⊎ (first.failure_reason ≡ some FailureReason.login_required)
            ⊎ (first.failure_reason ≡ some FailureReason.sentinel_not_observed)
            ⊎ (first.failure_reason ≡ some FailureReason.artifact_invalid)
            ⊎ (first.failure_reason ≡ some FailureReason.broker_unavailable)
          → answer.success ≡ second.success
          → answer.attempts ≡ first.attempts ++ second.attempts
          → answer.artifact_data ≡ second.artifact_data
          → Verdict first second answer

    -- The run of the second engine, after the first one.
    abbrev pub second_run : AgentTask → AgentResult × World W → Option (AgentResult × World W)
    second_run task (first, w1) =
        let w2 =
          emit (Event.provider_failover primary.engine secondary.engine first.failure_reason) w1 in
        let hint = some (build_continuation_hint os task first w2) in
        secondary.run (record task { continuation_hint = hint }) w2

    -- A run that answers answers so.
    abbrev pub Answers : AgentResult → AgentResult → Option (AgentResult × World W) → Type 0
    Answers first second none = ⊥
    Answers first second (some (answer, w)) = Verdict first second answer

    handed :
        (task : AgentTask) (started : ℕ) (r : AgentResult) (w : World W) (second : AgentResult)
        (w' : World W)
        → second_run task (r, w) ≡ some (second, w')
        → r.success ≡ false
        → is_provider_to_provider r.failure_reason ≡ true
        → (r.failure_reason ≡ some FailureReason.quota_exceeded)
          ⊎ (r.failure_reason ≡ some FailureReason.login_required)
          ⊎ (r.failure_reason ≡ some FailureReason.sentinel_not_observed)
          ⊎ (r.failure_reason ≡ some FailureReason.artifact_invalid)
          ⊎ (r.failure_reason ≡ some FailureReason.broker_unavailable)
        → Answers r second (after_primary os primary secondary task started (some (r, w)))
    handed task started r w second w' g bad h why =
        if-both (Answers r second) r.success _ _ (λ good. cc)
          (λ _.
            if-both (Answers r second) (is_provider_to_provider r.failure_reason) _ _
              (λ _.
                subst (λ o. Answers r second (merge os r started o)) (sym g)
                  (of_second bad why refl refl refl))
              (λ no. cc))

    kept :
        (task : AgentTask) (started : ℕ) (r : AgentResult) (w : World W) (second : AgentResult)
        → r.success ≡ false
        → is_provider_to_provider r.failure_reason ≡ false
        → (r.failure_reason ≡ none)
          ⊎ (r.failure_reason ≡ some FailureReason.interactive_mode_detected)
          ⊎ (r.failure_reason ≡ some FailureReason.timeout_no_artifact)
          ⊎ (r.failure_reason ≡ some FailureReason.execution_error)
        → Answers r second (after_primary os primary secondary task started (some (r, w)))
    kept task started r w second bad h why =
        if-both (Answers r second) r.success _ _ (λ good. cc)
          (λ _.
            if-both (Answers r second) (is_provider_to_provider r.failure_reason) _ _ (λ yes. cc)
              (λ _. final bad why refl))

    reason-Answers :
        (task : AgentTask) (started : ℕ) (r : AgentResult) (w : World W) (second : AgentResult)
        (w' : World W) (o : Option FailureReason)
        → second_run task (r, w) ≡ some (second, w')
        → r.success ≡ false
        → r.failure_reason ≡ o
        → Answers r second (after_primary os primary secondary task started (some (r, w)))
    reason-Answers task started r w second w' none g bad e =
        kept task started r w second bad (rw e refl) (inl e)
    reason-Answers task started r w second w' (some FailureReason.interactive_mode_detected) g bad
          e =
        kept task started r w second bad (rw e refl) (inr (inl e))
    reason-Answers task started r w second w' (some FailureReason.timeout_no_artifact) g bad e =
        kept task started r w second bad (rw e refl) (inr (inr (inl e)))
    reason-Answers task started r w second w' (some FailureReason.execution_error) g bad e =
        kept task started r w second bad (rw e refl) (inr (inr (inr e)))
    reason-Answers task started r w second w' (some FailureReason.quota_exceeded) g bad e =
        handed task started r w second w' g bad (rw e refl) (inl e)
    reason-Answers task started r w second w' (some FailureReason.login_required) g bad e =
        handed task started r w second w' g bad (rw e refl) (inr (inl e))
    reason-Answers task started r w second w' (some FailureReason.sentinel_not_observed) g bad e =
        handed task started r w second w' g bad (rw e refl) (inr (inr (inl e)))
    reason-Answers task started r w second w' (some FailureReason.artifact_invalid) g bad e =
        handed task started r w second w' g bad (rw e refl) (inr (inr (inr (inl e))))
    reason-Answers task started r w second w' (some FailureReason.broker_unavailable) g bad e =
        handed task started r w second w' g bad (rw e refl) (inr (inr (inr (inr e))))

    after_primary-Answers :
        (task : AgentTask) (started : ℕ) (r : AgentResult) (w : World W) (second : AgentResult)
        (w' : World W)
        → second_run task (r, w) ≡ some (second, w')
        → Answers r second (after_primary os primary secondary task started (some (r, w)))
    after_primary-Answers task started r w second w' g = elim (Bool-cases r.success) [
      | inl good ↦ if-both (Answers r second) r.success _ _ (λ _. of_first good refl) (λ bad. cc)
      | inr bad ↦ reason-Answers task started r w second w' r.failure_reason g bad refl
    ]

    -- Where both engines return a result, a run answers the result of the first one if that is a
    -- success, or a failure without a reason, by an interactive mode, a timeout or an error of the
    -- execution; after a failure by the quota, the log-in, a missing sentinel, an invalid artifact
    -- or a missing broker it succeeds exactly if the second engine does, given the hint, with its
    -- data and the attempts of both.
    pub run_agent-Verdict :
        (task : AgentTask) (w w1 w2 : World W) (first second : AgentResult)
        → primary.run task w ≡ some (first, w1)
        → second_run task (first, w1) ≡ some (second, w2)
        → Answers first second (run_agent os primary secondary task w)
    unfolding run_agent
    run_agent-Verdict task w w1 w2 first second e g =
        rw e (after_primary-Answers task (os.monotonic w.system) first w1 second w2 g)

  module _ (reliable : IsReliable os) (first second : Engine)
      (headless1 broker1 headless2 broker2 : AgentRoute W) where
    -- Why a run may raise an exception.
    abbrev pub Breaks : Type 0
    Breaks =
        HasUndecodable os
        ⊎ CanRaise os headless1
        ⊎ CanRaise os broker1
        ⊎ CanRaise os headless2
        ⊎ CanRaise os broker2
