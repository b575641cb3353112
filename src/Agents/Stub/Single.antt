-- ===== src/Agents/Stub/Single.antt =====
-- The active baselines under an extraction.
use gp_portal.Base.{
  ◌≡◌, refl, sym, subst, String, Option, none, some, [], ◌∷◌, ◌++◌, All, All-append, arith,
}
use gp_portal.Domain.{Uuid, DateTime, Proposal, Project}
use gp_portal.Store.{
  Db, pure, bump_id, Ends, Ends-pure, Ends-gets, Ends-modify, Ends-new_uuid, Ends-flush,
  Ends-commit, Ends-if, Ends-attempt_last, Ends-Writes, Ends-invariant, get_proposal, get_project,
  set_proposal, start, run,
}
use gp_portal.Baseline.Transition.Unique.{OneActive, HasKey}
use gp_portal.Agents.Stub.{
  StubSettings, stub_items, is_pending_extraction, draft_of, extracted, finish_run,
  extract_proposal, process_for, process_pending, process_found, process_proposal,
}
use gp_portal.Agents.Stub.Frame.{Keeps-compare_versions, Writes-add_deliverables}

finish_run-baselines :
    (st : StubSettings) (now : DateTime) (run_id : Option String) (db : Db)
    → (finish_run st now run_id db).baselines ≡ db.baselines
finish_run-baselines st now none db = refl
finish_run-baselines st now (some String.[]) db = refl
finish_run-baselines st now (some (String.◌∷◌ c s)) db = ground arith

module _ (st : StubSettings) (now : DateTime) (k : Uuid) (run_id : Option String) where
  draft-OneActive :
      (proposal : Proposal) (project : Project) (i : Uuid) (db : Db)
      → OneActive db
      → OneActive
          (record db { baselines = db.baselines ++ draft_of st now i proposal project ∷ [] })
  draft-OneActive proposal project i db h p = (
    (h p).0,
    All-append (HasKey p (h p).0) db.baselines (draft_of st now i proposal project ∷ []) (h p).1
        ((λ _ a. cc), tt),
  )

  finish-OneActive :
      (i : Uuid) (db : Db)
      → OneActive db
      → OneActive (finish_run st now run_id (set_proposal i extracted db))
  finish-OneActive i db h p = (
    (h p).0,
    subst (All (HasKey p (h p).0))
        (sym (finish_run-baselines st now run_id (set_proposal i extracted db))) (h p).1,
  )

  extract-OneActive :
      (proposal : Proposal) (project : Project) (db : Db)
      → OneActive db
      → Ends OneActive
          (λ _ s. OneActive s.store)
          (extract_proposal st now proposal project run_id)
          (start db)
  unfolding extract_proposal
  extract-OneActive proposal project db h = Ends-new_uuid _ _ (
      Ends-modify _ _ _ (
        Ends-flush _ _ λ _.
          Ends-Writes {P = OneActive} _ _ _
            (Writes-add_deliverables (λ _ _ _ g. g) now db.next_id 0 stub_items)
            (draft-OneActive proposal project db.next_id (bump_id db) h)
            λ _ s g e.
              let done = finish-OneActive proposal.id s.work g in
              Ends-modify _ _ _ (
                Ends-modify _ _ _ (
                  Ends-commit _ _ λ _. (
                    done,
                    Ends-attempt_last {P = OneActive} _ _
                        (Keeps-compare_versions (λ _ _ _ g. g) now proposal project
                          (draft_of st now db.next_id proposal project))
                        (done, done) λ s' both. (both.1, both.1),
                  )))))

  process_for-OneActive :
      (proposal : Proposal) (o : Option Project) (db : Db)
      → OneActive db
      → Ends OneActive (λ _ s. OneActive s.store) (process_for st now run_id proposal o) (start db)
  process_for-OneActive proposal none db h = Ends-pure _ _ h
  process_for-OneActive proposal (some project) db h = extract-OneActive proposal project db h

  process_found-OneActive :
      (o : Option Proposal) (db : Db)
      → OneActive db
      → Ends OneActive (λ _ s. OneActive s.store) (process_found st now run_id o) (start db)
  process_found-OneActive none db h = Ends-pure _ _ h
  process_found-OneActive (some proposal) db h =
      Ends-if (is_pending_extraction proposal.status) (process_pending st now run_id proposal)
        (pure tt) _
        (λ _.
          Ends-gets _ _ _
            (process_for-OneActive proposal (get_project proposal.project_id db) db h))
        (λ _. Ends-pure _ _ h)

  -- An extraction leaves each project with at most one active baseline, if that was so before, whatever becomes of it
  -- and of the comparison with the active one.
  pub process_proposal-OneActive :
      (db : Db) → OneActive db → OneActive (run (process_proposal st now k run_id) db).1
  unfolding process_proposal
  process_proposal-OneActive db h =
      Ends-invariant OneActive (process_proposal st now k run_id) db
        (Ends-gets _ _ _ (process_found-OneActive (get_proposal k db) db h)) h
