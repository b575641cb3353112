-- ===== src/Agents/Results/Final.antt =====
-- The runs under the callbacks of the workers.
use gp_portal.Base.{
  ◌≡◌, refl, ◌⊎◌, inl, inr, String, true, false, Option, some, str_eq, find_sound,
  find-update_first, if◌then◌else◌, Bool, sym,
}
use gp_portal.Domain.{DateTime, AgentRunLog, AgentRunStatus}
use gp_portal.Store.{
  Db, ok, Ends, Ends-gets, Ends-or_raise, Ends-if, Ends-modify, Ends-commit, Ends-pure, Ends-ok,
  get_run, start, run, Ends-raise_if,
}
use gp_portal.Agents.Auth.{WorkerKeys, WorkerCallback}
use gp_portal.Agents.Auth.Skew.{Genuine, Ends-worker_auth}
use gp_portal.Agents.Results.{
  AgentResultPayload, AgentResultAck, is_terminal, reported, status_of, accept_result,
  report_agent_result, several_engines, attempt_objects,
}

abbrev pub IsOver : AgentRunStatus → Type 0
IsOver s = (s ≡ AgentRunStatus.done) ⊎ (s ≡ AgentRunStatus.failed) ⊎ (s ≡ AgentRunStatus.expired)

abbrev pub IsUnderWay : AgentRunStatus → Type 0
IsUnderWay s = (s ≡ AgentRunStatus.queued) ⊎ (s ≡ AgentRunStatus.running)

status-IsOver : (s : AgentRunStatus) → is_terminal s ≡ true → IsOver s
status-IsOver AgentRunStatus.done h = inl refl
status-IsOver AgentRunStatus.failed h = inr (inl refl)
status-IsOver AgentRunStatus.expired h = inr (inr refl)
status-IsOver AgentRunStatus.queued h = cc
status-IsOver AgentRunStatus.running h = cc

status-IsUnderWay : (s : AgentRunStatus) → is_terminal s ≡ false → IsUnderWay s
status-IsUnderWay AgentRunStatus.done h = cc
status-IsUnderWay AgentRunStatus.failed h = cc
status-IsUnderWay AgentRunStatus.expired h = cc
status-IsUnderWay AgentRunStatus.queued h = inl refl
status-IsUnderWay AgentRunStatus.running h = inr refl

result-status :
    (b : Bool) → status_of b ≡ (if b then AgentRunStatus.done else AgentRunStatus.failed)
result-status true = refl
result-status false = refl

module _ (keys : WorkerKeys) (read : String → Option AgentResultPayload) where
  -- What an answered result has found, and what it has written or left.
  pub record Report (now : DateTime) (callback : WorkerCallback) (k : String) (db after : Db)
      (ack : AgentResultAck) : Type 0 where
    pub genuine : Genuine keys now callback
    pub payload : AgentResultPayload
    pub readable : read callback.body ≡ some payload
    pub existing : AgentRunLog
    pub found : get_run k db ≡ some existing
    pub outcome :
        IsOver existing.status
          × ((ack.accepted ≡ false) × (ack.duplicated ≡ true) × (ack.status ≡ existing.status))
          × (after ≡ db)
        ⊎ IsUnderWay existing.status
          × ((ack.accepted ≡ true) × (ack.duplicated ≡ false))
          × (ack.status ≡ (if payload.success then AgentRunStatus.done else AgentRunStatus.failed))
          × (get_run k after
              ≡ some (record existing {
                status = if payload.success then AgentRunStatus.done else AgentRunStatus.failed;
                engine_used = payload.engine_used;
                route_used = payload.route_used;
                failover_occurred = several_engines keys.equal payload.attempts;
                attempts = attempt_objects payload.attempts;
                duration_s = payload.duration_s;
                worker_id = payload.worker_id;
                artifact_path = payload.artifact_path;
                failure_reason = payload.failure_reason;
                failure_detail = payload.failure_detail;
                completed_at = some now;
              }))

  module _ (now : DateTime) (callback : WorkerCallback) (k : String) (db : Db) where
    report_agent_result-Ends :
        Ends
          (λ _. Unit {0})
          (λ ack s. Report now callback k db s.store ack)
          (report_agent_result keys read now callback k)
          (start db)
    unfolding report_agent_result accept_result
    report_agent_result-Ends = Ends-worker_auth keys now callback _ _ λ genuine.
        Ends-or_raise _ _ _ _ λ payload readable. Ends-gets _ _ _ (
          Ends-or_raise _ _ _ _ λ existing found.
            Ends-if _ _ _ _
              (λ over. Ends-pure _ _ record {
                genuine = genuine;
                payload = payload;
                readable = readable;
                existing = existing;
                found = found;
                outcome = inl (status-IsOver existing.status over, (refl, refl, refl), refl);
              })
              (λ opened. Ends-raise_if _ _ _ _ λ hashable. Ends-modify _ _ _ (
                Ends-commit _ _ λ _. (
                  tt,
                  Ends-pure _ _ record {
                    genuine = genuine;
                    payload = payload;
                    readable = readable;
                    existing = existing;
                    found = found;
                    outcome = inr (
                      status-IsUnderWay existing.status opened,
                      (refl, refl),
                      result-status payload.success,
                      rw (sym (result-status payload.success)) (
                          find-update_first (λ x. str_eq x.run_id k)
                            (reported keys.equal now payload) db.agent_runs found
                            (find_sound (λ x. str_eq x.run_id k) db.agent_runs found)),
                    );
                  },
                ))))

    -- A result that is answered came with a genuine callback for a run that exists: of one that was over it is a
    -- replay, which is acknowledged as such and leaves every row as it is; another run is stored as done
    -- where the worker reports a success and as failed where it does not, with what it reports.
    pub report_agent_result-Report :
        (ack : AgentResultAck)
        → (run (report_agent_result keys read now callback k) db).0 ≡ ok ack
        → Report now callback k db (run (report_agent_result keys read now callback k) db).1 ack
    report_agent_result-Report ack answer =
        Ends-ok (λ _. Unit {0}) (λ ack s. Report now callback k db s.store ack)
          (report_agent_result keys read now callback k) db ack report_agent_result-Ends tt answer
