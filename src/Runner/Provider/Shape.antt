-- ===== src/Runner/Provider/Shape.antt =====
-- The results of `_BaseProvider.run`.
use gp_portal.Base.{
  String, ◌≡◌, refl, ap, subst, ℕ, ◌+◌, ◌≤◌, Bool, true, false, Option, none, some, List, [], ◌∷◌,
  ◌++◌, length, length-append, All, All-append, if-both, arith,
}
use gp_portal.Domain.{JsonFields}
use gp_portal.Runner.Types.{
  Engine, Route, FailureReason, AgentTask, AttemptLog, AgentResult, ValidationResult, accepted_from,
  rejected, Event, is_headless_to_broker,
}
use gp_portal.Runner.World.{Platform, World, AgentRoute, emit, undecodable}
use gp_portal.Runner.Validator.{validate}
use gp_portal.Runner.Validator.Artifact.{Holds, IsReliable, Checked, validate-Checked}
use gp_portal.Runner.Provider.{
  failed_log, broker_task, make_final_result, accepted_result, judge_broker, after_broker,
  on_broker, fall_back, judge_headless, after_headless, on_headless, run_provider, reason_or,
  reason_of,
}

abbrev pub HasFailed : AttemptLog → Type 0
HasFailed a = a.success ≡ false

module _ {W : Type 0} (os : Platform W) where
  -- A result of at most so many attempts: a success, which the last one of them has had after the failure of
  -- the others, and whose data the output then holds; or the failure of all of them, with a reason.
  pub data Outcome (path : String) (limit : ℕ) (r : AgentResult) (w : W) : Type 0 where
    succeeded :
        (front : List AttemptLog) (last : AttemptLog) (d : JsonFields)
        → r.success ≡ true
        → r.failure_reason ≡ none
        → r.artifact_path ≡ some path
        → r.artifact_data ≡ some d
        → Holds os w path d
        → r.attempts ≡ front ++ last ∷ []
        → All HasFailed front
        → last.success ≡ true
        → r.route_used ≡ some last.route
        → length r.attempts ≤ limit
        → Outcome path limit r w
    failed :
        (reason : FailureReason)
        → r.success ≡ false
        → r.failure_reason ≡ some reason
        → r.artifact_data ≡ none
        → All HasFailed r.attempts
        → length r.attempts ≤ limit
        → Outcome path limit r w

  -- Where the run has raised an exception, the given reason for one holds.
  abbrev pub Ended : Type 0 → String → ℕ → Option (AgentResult × World W) → Type 0
  Ended R path limit none = R
  Ended R path limit (some (r, w)) = Outcome path limit r w.system

  -- Some text that is read is no UTF-8.
  abbrev pub HasUndecodable : Type 0
  HasUndecodable = (w : W) × (path : String) × (os.read_text w path ≡ undecodable)

  -- The route raises an exception on some task.
  abbrev pub CanRaise : AgentRoute W → Type 0
  CanRaise route = (task : AgentTask) × (w : World W) × (route.execute task w ≡ none)

  length-snoc :
      (l : List AttemptLog) (a : AttemptLog) (n : ℕ) → length l ≤ n → length (l ++ a ∷ []) ≤ n + 1
  length-snoc l a n h = rw (length-append l (a ∷ [])) (omega arith)

  module _ (engine : Engine) {R : Type 0} (unread : HasUndecodable → R) where
    make_final_result-Ended :
        (task : AgentTask) (log : Option AttemptLog) (attempts : List AttemptLog) (started : ℕ)
        (fallback : Option FailureReason) (w : World W)
        → All HasFailed attempts
        → length attempts ≤ 2
        → Ended R task.output_path 2
            (some (make_final_result os engine task log attempts started fallback w))
    make_final_result-Ended task log attempts started fallback w h l =
        failed (reason_or (reason_of log) (reason_or fallback FailureReason.broker_unavailable))
          refl refl refl h l

    accepted_result-Ended :
        (task : AgentTask) (d : JsonFields) (recovered : Bool) (log : AttemptLog)
        (front : List AttemptLog) (started : ℕ) (w : World W) {path : String}
        → path ≡ task.output_path
        → Holds os w.system path d
        → All HasFailed front
        → log.success ≡ true
        → length front ≤ 1
        → Ended R task.output_path 2
            (some (accepted_result os engine path d recovered log (front ++ log ∷ []) started w))
    accepted_result-Ended task d recovered log front started w e h f ok l =
        succeeded front log d refl refl (ap some e) refl (subst (λ p. Holds os w.system p d) e h)
          refl f ok refl (length-snoc front log 1 l)

    judge_broker-Ended :
        (task : AgentTask) (log : AttemptLog) (before : List AttemptLog) (started : ℕ) (w : World W)
        (v : Option ValidationResult × W)
        → log.success ≡ true
        → All HasFailed before
        → length before ≤ 1
        → Checked os task v
        → Ended R task.output_path 2 (judge_broker os engine task log before started w v)
    judge_broker-Ended task log before started w (some (accepted_from path d recovered), sys) ok f l
          h =
        accepted_result-Ended task d recovered log before started (record w { system = sys }) h.0
          h.1 f ok l
    judge_broker-Ended task log before started w (none, sys) ok f l h =
        unread (sys, task.output_path, h)
    judge_broker-Ended task log before started w (some (rejected reason detail), sys) ok f l h =
        let last = failed_log reason detail log in
        make_final_result-Ended task (some last) (before ++ last ∷ []) started none
          (emit (Event.artifact_rejected reason detail) (record w { system = sys }))
          (All-append HasFailed before (last ∷ []) f (refl, tt)) (length-snoc before last 1 l)

    module _ (reliable : IsReliable os) where
      after_broker-Ended :
          (task : AgentTask) (before : List AttemptLog) (started : ℕ)
          (x : Option (AttemptLog × World W))
          → All HasFailed before
          → length before ≤ 1
          → (x ≡ none → R)
          → Ended R task.output_path 2 (after_broker os engine task before started x)
      after_broker-Ended task before started none f l raises = raises refl
      after_broker-Ended task before started (some (log, w)) f l raises =
          if-both (Ended R task.output_path 2) log.success _ _
            (λ ok.
              judge_broker-Ended task log before started w
                (validate os task log.notes log.sentinel_observed w.system) ok f l
                (validate-Checked os reliable task log.notes log.sentinel_observed w.system))
            (λ bad.
              make_final_result-Ended task (some log) (before ++ log ∷ []) started none w
                (All-append HasFailed before (log ∷ []) f (bad, tt)) (length-snoc before log 1 l))

      module _ (headless broker : AgentRoute W) (broken_headless : CanRaise headless → R)
          (broken_broker : CanRaise broker → R) where
        on_broker-Ended :
            (task : AgentTask) (log : Option AttemptLog) (before : List AttemptLog) (started : ℕ)
            (x : Bool × Option FailureReason × World W)
            → All HasFailed before
            → length before ≤ 1
            → Ended R task.output_path 2
                (on_broker os engine headless broker task log before started x)
        on_broker-Ended task log before started (false, reason, w) f l =
            make_final_result-Ended task none before started
              (some (reason_or reason FailureReason.broker_unavailable)) w f (omega arith)
        on_broker-Ended task log before started (true, reason, w) f l =
            after_broker-Ended task before started (broker.execute (broker_task engine log task) w)
              f l (λ e. broken_broker (broker_task engine log task, w, e))

        fall_back-Ended :
            (task : AgentTask) (log : AttemptLog) (started : ℕ) (w : World W)
            → HasFailed log
            → Ended R task.output_path 2 (fall_back os engine headless broker task log started w)
        fall_back-Ended task log started w bad =
            if-both (Ended R task.output_path 2) (is_headless_to_broker log.failure_reason) _ _
              (λ _.
                on_broker-Ended task (some log) (log ∷ []) started (broker.is_available w) (bad, tt)
                  (omega arith))
              (λ _.
                make_final_result-Ended task (some log) (log ∷ []) started none w (bad, tt)
                  (omega arith))

        judge_headless-Ended :
            (task : AgentTask) (log : AttemptLog) (started : ℕ) (w : World W)
            (v : Option ValidationResult × W)
            → log.success ≡ true
            → Checked os task v
            → Ended R task.output_path 2
                (judge_headless os engine headless broker task log started w v)
        judge_headless-Ended task log started w (some (accepted_from path d recovered), sys) ok h =
            accepted_result-Ended task d recovered log [] started (record w { system = sys }) h.0
              h.1 tt ok (omega arith)
        judge_headless-Ended task log started w (none, sys) ok h = unread (sys, task.output_path, h)
        judge_headless-Ended task log started w (some (rejected reason detail), sys) ok h =
            fall_back-Ended task (failed_log reason detail log) started
              (emit (Event.artifact_rejected reason detail) (record w { system = sys })) refl

        after_headless-Ended :
            (task : AgentTask) (started : ℕ) (x : Option (AttemptLog × World W))
            → (x ≡ none → R)
            → Ended R task.output_path 2 (after_headless os engine headless broker task started x)
        after_headless-Ended task started none raises = raises refl
        after_headless-Ended task started (some (log, w)) raises =
            if-both (Ended R task.output_path 2) log.success _ _
              (λ ok.
                judge_headless-Ended task log started w
                  (validate os task log.notes log.sentinel_observed w.system) ok
                  (validate-Checked os reliable task log.notes log.sentinel_observed w.system))
              (λ bad. fall_back-Ended task log started w bad)

        on_headless-Ended :
            (task : AgentTask) (started : ℕ) (x : Bool × Option FailureReason × World W)
            → Ended R task.output_path 2 (on_headless os engine headless broker task started x)
        on_headless-Ended task started (true, reason, w) =
            after_headless-Ended task started (headless.execute task w)
              (λ e. broken_headless (task, w, e))
        on_headless-Ended task started (false, reason, w) =
            let w' = emit (Event.headless_unavailable engine reason) w in
            on_broker-Ended task none [] started (broker.is_available w') tt (omega arith)

        -- An engine makes at most two attempts at a task, and fails with a reason after the failure of each, or
        -- succeeds with the last one: its data then stand in the file at the path of the output.
        pub run_provider-Ended :
            (task : AgentTask) (w : World W)
            → Ended R task.output_path 2 (run_provider os engine headless broker task w)
        unfolding run_provider
        run_provider-Ended task w = on_headless-Ended task (os.monotonic w.system) (
            headless.is_available
              (emit (Event.provider_selected engine Route.headless task.run_id) w))
