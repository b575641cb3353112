-- ===== src/Agents/Life.antt =====
-- The life of the runs: the calls of the publisher and the callbacks of the workers in any order.
use gp_portal.Base.{
  ◌≡◌, refl, sym, ap, ◌∙◌, inl, inr, String, true, false, Option, none, some, List, [], ◌∷◌, str_eq,
  eq_iff, Bool-cases, find-append, find-update_first_other, arith,
}
use gp_portal.Domain.{Uuid, DateTime, AgentRunLog, AgentJob}
use gp_portal.Store.{
  Db, Ends-gets, Ends-or_raise, Ends-if, Ends-modify, Ends-commit, Ends-pure, Ends-invariant, Keeps,
  Keeps-modify, Keeps-bind, Keeps-pure, Keeps-run, keeps_rules, get_run, set_run, run,
  Ends-raise_if,
}
use gp_portal.Agents.Auth.{WorkerKeys, WorkerCallback}
use gp_portal.Agents.Auth.Skew.{Ends-worker_auth, Keeps-worker_auth}
use gp_portal.Agents.Results.{
  AgentResultPayload, WorkerHeartbeatPayload, is_terminal, reported, accept_result,
  report_agent_result, upsert_heartbeat, worker_heartbeat,
}
use gp_portal.Agents.Queue.{JobRequest, rpush, publish, existing_or_publish, enqueue_agent_job}

pub data AgentRequest : Type 0 where
  enqueue : String → JobRequest → AgentRequest
  result : WorkerCallback → String → AgentRequest
  heartbeat : WorkerCallback → AgentRequest

pub record AgentCall : Type 0 where
  pub now : DateTime
  pub request : AgentRequest

-- The environment of the calls: the secrets, the readers of the bodies, and `str` of a key.
pub record Environment : Type 0 where
  pub keys : WorkerKeys
  pub read_result : String → Option AgentResultPayload
  pub read_heartbeat : String → Option WorkerHeartbeatPayload
  pub show_uuid : Uuid → String

module _ (env : Environment) where
  unfoldable pub serve_agent : DateTime → AgentRequest → Db → Db
  serve_agent now (enqueue k p) db = (run (enqueue_agent_job env.show_uuid now k p) db).1
  serve_agent now (result c k) db =
      (run (report_agent_result env.keys env.read_result now c k) db).1
  serve_agent now (heartbeat c) db = (run (worker_heartbeat env.keys env.read_heartbeat now c) db).1

  -- The rows after a sequence of calls, the first one first.
  unfoldable pub after_agents : List AgentCall → Db → Db
  unfolding serve_agent
  after_agents [] db = db
  after_agents (c ∷ cs) db = after_agents cs (serve_agent c.now c.request db)

  module _ (k : String) (r : AgentRunLog) (over : is_terminal r.status ≡ true) where
    IsFinal : Db → Type 0
    IsFinal db = get_run k db ≡ some r

    Keeps-rpush : (job : AgentJob) → Keeps IsFinal (rpush job)
    unfolding rpush IsFinal
    Keeps-rpush job = record { at = λ s h. h }

    Keeps-existing_or_publish :
        (now : DateTime) (k' : String) (p : JobRequest) (o : Option AgentRunLog)
        → Keeps IsFinal (existing_or_publish env.show_uuid now k' p o)
    unfolding publish IsFinal
    Keeps-existing_or_publish now k' p (some x) = Keeps-pure x
    Keeps-existing_or_publish now k' p none =
        Keeps-bind _ _
          (Keeps-modify _ λ db h. find-append (λ x. str_eq x.run_id k) db.agent_runs _ h)
          λ _. search (keeps_rules, Keeps-rpush)

    Keeps-enqueue_agent_job :
        (now : DateTime) (k' : String) (p : JobRequest)
        → Keeps IsFinal (enqueue_agent_job env.show_uuid now k' p)
    unfolding enqueue_agent_job
    Keeps-enqueue_agent_job now k' p = search (keeps_rules, Keeps-existing_or_publish)

    upsert-IsFinal :
        (now : DateTime) (p : WorkerHeartbeatPayload) (db : Db)
        → IsFinal db
        → IsFinal (upsert_heartbeat now p db)
    unfolding IsFinal
    upsert-IsFinal now p db h = ground arith

    Keeps-worker_heartbeat :
        (now : DateTime) (c : WorkerCallback)
        → Keeps IsFinal (worker_heartbeat env.keys env.read_heartbeat now c)
    unfolding worker_heartbeat
    Keeps-worker_heartbeat now c = Keeps-bind _ _ (Keeps-worker_auth env.keys now c) λ _.
        Keeps-bind _ _ (search keeps_rules)
          λ p. Keeps-bind _ _ (Keeps-modify _ (upsert-IsFinal now p)) λ _. search keeps_rules

    absurd :
        {A : Type 0} (old : AgentRunLog) → some r ≡ some old → is_terminal old.status ≡ false → A
    absurd old e h = cc

    set_run-IsFinal :
        (now : DateTime) (p : AgentResultPayload) (k' : String) (old : AgentRunLog) (db : Db)
        → get_run k' db ≡ some old
        → is_terminal old.status ≡ false
        → IsFinal db
        → IsFinal (set_run k' (reported env.keys.equal now p) db)
    unfolding IsFinal
    set_run-IsFinal now p k' old db found opened h = elim (Bool-cases (str_eq k' k)) [
      | inl same ↦
          let one : some r ≡ some old =
            sym h ∙ ap (λ x. get_run x db) (sym ((eq_iff k' k).0 same)) ∙ found in
          absurd old one opened
      | inr other ↦
          find-update_first_other (λ x. str_eq x.run_id k') (λ x. str_eq x.run_id k)
            (reported env.keys.equal now p) db.agent_runs
            (λ x e. ap (λ y. str_eq y k) ((eq_iff x.run_id k').0 e) ∙ other) (λ x. refl)
          ∙ h
    ]

    report_agent_result-IsFinal :
        (now : DateTime) (c : WorkerCallback) (k' : String) (db : Db)
        → IsFinal db
        → IsFinal (run (report_agent_result env.keys env.read_result now c k') db).1
    unfolding report_agent_result accept_result
    report_agent_result-IsFinal now c k' db h =
        Ends-invariant IsFinal (report_agent_result env.keys env.read_result now c k') db
          (Ends-worker_auth env.keys now c _ _ λ genuine. Ends-or_raise _ _ _ _ λ p readable.
            Ends-gets _ _ _ (
              Ends-or_raise _ _ _ _ λ old found.
                Ends-if _ _ _ _ (λ _. Ends-pure _ _ h)
                  (λ opened.
                    let kept = set_run-IsFinal now p k' old db found opened h in
                    Ends-raise_if _ _ _ _ λ hashable.
                      Ends-modify _ _ _ (Ends-commit _ _ λ _. (kept, Ends-pure _ _ kept)))))
          h

    serve_agent-IsFinal :
        (now : DateTime) (q : AgentRequest) (db : Db) → IsFinal db → IsFinal (serve_agent now q db)
    unfolding serve_agent
    serve_agent-IsFinal now (enqueue k' p) db h =
        Keeps-run {P = IsFinal} _ db (Keeps-enqueue_agent_job now k' p) h
    serve_agent-IsFinal now (result c k') db h = report_agent_result-IsFinal now c k' db h
    serve_agent-IsFinal now (heartbeat c) db h =
        Keeps-run {P = IsFinal} _ db (Keeps-worker_heartbeat now c) h

    -- A run that is done, failed or expired keeps its row for good, whatever jobs are published and whatever
    -- callbacks of workers arrive, in any order.
    pub after_agents-final :
        (cs : List AgentCall) (db : Db)
        → get_run k db ≡ some r
        → get_run k (after_agents cs db) ≡ some r
    unfolding after_agents IsFinal
    after_agents-final [] db h = h
    after_agents-final (c ∷ cs) db h =
        after_agents-final cs (serve_agent c.now c.request db)
          (serve_agent-IsFinal c.now c.request db h)
