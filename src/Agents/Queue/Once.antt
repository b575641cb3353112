-- ===== src/Agents/Queue/Once.antt =====
-- The jobs that `enqueue_agent_job` publishes.
use gp_portal.Base.{
  Option-cases, ◌≡◌, refl, ◌⊎◌, inl, inr, String, Option, none, some, [], ◌∷◌, ◌++◌, str_eq, eq_iff,
  find-append_new,
}
use gp_portal.Domain.{Uuid, DateTime, AgentRunLog, AgentJob}
use gp_portal.Store.{
  Db, M, ok, Session, Ends, Ends-assoc, Ends-pure_bind, Ends-gets, Ends-modify, Ends-flush,
  Ends-commit, Ends-pure, Ends-ok, get_run, start, run, ◌>>=◌,
}
use gp_portal.Agents.Queue.{
  JobRequest, build_payload, full_context, queued_log, with_job, rpush, publish,
  existing_or_publish, enqueue_agent_job,
}

module _ (show_uuid : Uuid → String) where
  Ends-rpush :
      {B : Type 0} {E : Db → Type 0} {Q : B → Session → Type 0} (job : AgentJob)
      (next : Unit {0} → M B) (s : Session)
      → (E s.store → E (with_job job s.store))
      → Ends E Q (next tt) (record s { store = with_job job s.store; work = with_job job s.work })
      → Ends E Q (rpush job >>= next) s
  unfolding rpush ◌>>=◌
  Ends-rpush job next s keep h = record { at = λ e. h.at (keep e) }

  -- What follows a call may use that the run was there, or that its row and its job have been added.
  pub Ends-enqueue :
      {B : Type 0} {E : Db → Type 0} {Q : B → Session → Type 0} (now : DateTime) (k : String)
      (p : JobRequest) (next : AgentRunLog → M B) (s : Session)
      → ((r : AgentRunLog) → get_run k s.work ≡ some r → Ends E Q (next r) s)
      → (get_run k s.work ≡ none
          → let job = build_payload now k (full_context show_uuid p) p in
            let row = queued_log now k p in
            let after =
              with_job job (record s.work { agent_runs = s.work.agent_runs ++ row ∷ [] }) in
            (E s.store → E (with_job job s.store))
            × E after
            × Ends E Q (next row) (record { store = after; work = after }))
      → Ends E Q (enqueue_agent_job show_uuid now k p >>= next) s
  unfolding enqueue_agent_job publish
  Ends-enqueue now k p next s old new = Ends-assoc _ _ _ _ (
      Ends-gets _ _ _ (elim (Option-cases (get_run k s.work)) [
        | inl missing ↦
            let (keep, done, rest) = new missing in
            rw missing (
              Ends-assoc _ _ _ _ (
                Ends-modify _ _ _ (
                  Ends-assoc _ _ _ _ (
                    Ends-flush _ _ λ _. Ends-assoc _ _ _ _ (
                      Ends-rpush _ _ _ keep (
                        Ends-assoc _ _ _ _
                          (Ends-commit _ _ λ _. (done, Ends-pure_bind _ _ _ rest))))))))
        | inr (r, there) ↦ rw there (Ends-pure_bind _ _ _ (old r there))
      ]))

  -- What an answered call has found, and what it has added.
  pub record Enqueued (now : DateTime) (k : String) (p : JobRequest) (db after : Db)
      (r : AgentRunLog) : Type 0 where
    pub stored : get_run k after ≡ some r
    pub outcome :
        (get_run k db ≡ some r) × (after ≡ db)
        ⊎ (get_run k db ≡ none)
          × (r ≡ queued_log now k p)
          × (after.jobs ≡ db.jobs ++ build_payload now k (full_context show_uuid p) p ∷ [])

  module _ (now : DateTime) (k : String) (p : JobRequest) (db : Db) where
    existing_or_publish-Ends :
        (o : Option AgentRunLog)
        → get_run k db ≡ o
        → Ends
            (λ _. Unit {0})
            (λ r s. Enqueued now k p db s.store r)
            (existing_or_publish show_uuid now k p o)
            (start db)
    unfolding publish
    existing_or_publish-Ends (some r) e =
        Ends-pure _ _ record { stored = e; outcome = inl (e, refl) }
    existing_or_publish-Ends none e = Ends-modify _ _ _ (
        Ends-flush _ _ λ _.
          Ends-rpush _ _ _ (λ _. tt)
            (Ends-commit _ _ λ _. (
              tt,
              Ends-pure _ _ record {
                stored =
                    find-append_new (λ x. str_eq x.run_id k) db.agent_runs (queued_log now k p) e
                      ((eq_iff k k).1 refl);
                outcome = inr (e, refl, refl);
              },
            )))

    enqueue_agent_job-Ends :
        Ends
          (λ _. Unit {0})
          (λ r s. Enqueued now k p db s.store r)
          (enqueue_agent_job show_uuid now k p)
          (start db)
    unfolding enqueue_agent_job
    enqueue_agent_job-Ends = Ends-gets _ _ _ (existing_or_publish-Ends (get_run k db) refl)

    enqueue_agent_job-Enqueued :
        (r : AgentRunLog)
        → (run (enqueue_agent_job show_uuid now k p) db).0 ≡ ok r
        → Enqueued now k p db (run (enqueue_agent_job show_uuid now k p) db).1 r
    enqueue_agent_job-Enqueued r answer =
        Ends-ok (λ _. Unit {0}) (λ r s. Enqueued now k p db s.store r)
          (enqueue_agent_job show_uuid now k p) db r enqueue_agent_job-Ends tt answer

  known_run :
      (now : DateTime) (k : String) (p : JobRequest) (db : Db) (r : AgentRunLog)
      → get_run k db ≡ some r
      → run (enqueue_agent_job show_uuid now k p) db ≡ (ok r, db)
  unfolding enqueue_agent_job ◌>>=◌
  known_run now k p db r e = rw e refl

  -- Once a job has been enqueued, every later call for the same run, with whatever arguments, is answered with the
  -- run that stands and publishes nothing: the queue and every row are left as they are.
  pub enqueue_agent_job-once :
      (now : DateTime) (k : String) (p : JobRequest) (db : Db) (r : AgentRunLog)
      → (run (enqueue_agent_job show_uuid now k p) db).0 ≡ ok r
      → (now' : DateTime) (p' : JobRequest)
      → let after = (run (enqueue_agent_job show_uuid now k p) db).1 in
        run (enqueue_agent_job show_uuid now' k p') after ≡ (ok r, after)
  enqueue_agent_job-once now k p db r answer now' p' =
      let h = enqueue_agent_job-Enqueued now k p db r answer in
      known_run now' k p' (run (enqueue_agent_job show_uuid now k p) db).1 r h.stored
