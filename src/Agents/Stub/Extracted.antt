-- ===== src/Agents/Stub/Extracted.antt =====
-- What the stand-in of the worker leaves: `_process` of backend/app/services/worker_stub.py.
use gp_portal.Base.{
  ◌≡◌, refl, ◌∙◌, ◌⊎◌, inl, inr, String, false, Option, none, some, ◌==◌, ap, find, Bool-cases,
  eq_of_==, find-update_first, find_sound, arith,
}
use gp_portal.Domain.{Uuid, DateTime, Proposal, Project}
use gp_portal.Store.{
  Db, ok, Ends, Ends-pure, Ends-gets, Ends-modify, Ends-new_uuid, Ends-flush, Ends-commit, Ends-if,
  Ends-attempt_last, Ends-Writes, Ends-ok, get_proposal, get_project, set_proposal, start, run,
  ◌>>=◌,
}
use gp_portal.Agents.Stub.{
  StubSettings, stub_items, is_pending_extraction, draft_of, extracted, finish_run,
  extract_proposal, process_for, process_found, process_proposal,
}
use gp_portal.Agents.Stub.Frame.{Keeps-compare_versions, Writes-add_deliverables}

-- Nothing is left to extract of the proposal: it is missing, or not pending, or has no project.
IsSettled : Uuid → Db → Type 0
IsSettled k db =
    (get_proposal k db ≡ none)
    ⊎ ((p : Proposal) × (get_proposal k db ≡ some p)
        × ((is_pending_extraction p.status ≡ false) ⊎ (get_project p.project_id db ≡ none)))

finish_run-proposals :
    (st : StubSettings) (now : DateTime) (run_id : Option String) (db : Db)
    → (finish_run st now run_id db).proposals ≡ db.proposals
finish_run-proposals st now none db = refl
finish_run-proposals st now (some String.[]) db = refl
finish_run-proposals st now (some (String.◌∷◌ c s)) db = ground arith

set_proposal-extracted :
    (k : Uuid) (p : Proposal) (db : Db)
    → get_proposal k db ≡ some p
    → get_proposal k (set_proposal p.id extracted db) ≡ some (extracted p)
set_proposal-extracted k p db found =
    let key = eq_of_== p.id k (find_sound (λ x. x.id == k) db.proposals found) in
    ap (λ i. get_proposal k (set_proposal i extracted db)) key
    ∙ find-update_first (λ x. x.id == k) extracted db.proposals found
        (find_sound (λ x. x.id == k) db.proposals found)

finished :
    (st : StubSettings) (now : DateTime) (run_id : Option String) (k : Uuid) (p : Proposal)
    (db : Db)
    → get_proposal k db ≡ some p
    → get_proposal k (finish_run st now run_id (set_proposal p.id extracted db))
      ≡ some (extracted p)
finished st now run_id k p db found =
    ap (find (λ x. x.id == k)) (finish_run-proposals st now run_id (set_proposal p.id extracted db))
    ∙ set_proposal-extracted k p db found

module _ (st : StubSettings) (now : DateTime) (k : Uuid) (run_id : Option String) where
  extract_proposal-Ends :
      (proposal : Proposal) (project : Project) (db : Db)
      → get_proposal k db ≡ some proposal
      → Ends
          (λ _. Unit {0})
          (λ _ s. IsSettled k s.store)
          (extract_proposal st now proposal project run_id)
          (start db)
  unfolding extract_proposal IsSettled
  extract_proposal-Ends proposal project db found = Ends-new_uuid _ _ (
      Ends-modify _ _ _ (
        Ends-flush _ _ λ _.
          Ends-Writes {P = λ db'. get_proposal k db' ≡ some proposal} _ _ _
            (Writes-add_deliverables (λ _ _ _ h. h) now db.next_id 0 stub_items) found
            λ _ s h e. Ends-modify _ _ _ (
              Ends-modify _ _ _ (
                Ends-commit _ _ λ _. (
                  tt,
                  Ends-attempt_last {P = λ db'. get_proposal k db' ≡ some (extracted proposal)} _ _
                      (Keeps-compare_versions (λ _ _ _ h. h) now proposal project
                        (draft_of st now db.next_id proposal project))
                      (
                        finished st now run_id k proposal s.work h,
                        finished st now run_id k proposal s.work h,
                      )
                      λ s' both. (tt, inr (extracted proposal, both.1, inl refl)),
                )))))

  process_for-Ends :
      (proposal : Proposal) (o : Option Project) (db : Db)
      → get_proposal k db ≡ some proposal
      → get_project proposal.project_id db ≡ o
      → Ends
          (λ _. Unit {0})
          (λ _ s. IsSettled k s.store)
          (process_for st now run_id proposal o)
          (start db)
  unfolding IsSettled
  process_for-Ends proposal none db found missing =
      Ends-pure _ _ (inr (proposal, found, inr missing))
  process_for-Ends proposal (some project) db found owner =
      extract_proposal-Ends proposal project db found

  process_found-Ends :
      (o : Option Proposal) (db : Db)
      → get_proposal k db ≡ o
      → Ends (λ _. Unit {0}) (λ _ s. IsSettled k s.store) (process_found st now run_id o) (start db)
  unfolding IsSettled
  process_found-Ends none db missing = Ends-pure _ _ (inl missing)
  process_found-Ends (some proposal) db found =
      Ends-if _ _ _ _
        (λ _.
          Ends-gets _ _ _
            (process_for-Ends proposal (get_project proposal.project_id db) db found refl))
        (λ idle. Ends-pure _ _ (inr (proposal, found, inl idle)))

  process_proposal-Ends :
      (db : Db)
      → Ends
          (λ _. Unit {0})
          (λ _ s. IsSettled k s.store)
          (process_proposal st now k run_id)
          (start db)
  unfolding process_proposal
  process_proposal-Ends db = Ends-gets _ _ _ (process_found-Ends (get_proposal k db) db refl)

  settled-idle :
      (db : Db) → IsSettled k db → run (process_proposal st now k run_id) db ≡ (ok tt, db)
  unfolding process_proposal ◌>>=◌ IsSettled
  settled-idle db (inl missing) = rw missing refl
  settled-idle db (inr (p, found, inl idle)) = rw (found, idle) refl
  settled-idle db (inr (p, found, inr missing)) =
      elim (Bool-cases (is_pending_extraction p.status)) [
        | inl pending ↦ rw (found, pending, missing) refl
        | inr idle ↦ rw (found, idle) refl
      ]

-- An extraction that came to its end is not repeated: a later one of the same proposal, for whatever run, leaves every
-- row as it is, whatever became of the comparison with the active baseline.
pub process_proposal-once :
    (st : StubSettings) (now : DateTime) (k : Uuid) (run_id : Option String) (db : Db)
    → (run (process_proposal st now k run_id) db).0 ≡ ok tt
    → (now' : DateTime) (run_id' : Option String)
    → let after = (run (process_proposal st now k run_id) db).1 in
      run (process_proposal st now' k run_id') after ≡ (ok tt, after)
process_proposal-once st now k run_id db answer now' run_id' =
    let after = (run (process_proposal st now k run_id) db).1 in
    settled-idle st now' k run_id' after (
      Ends-ok (λ _. Unit {0}) (λ _ s. IsSettled k s.store) (process_proposal st now k run_id) db tt
        (process_proposal-Ends st now k run_id db) tt answer)
