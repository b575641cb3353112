-- ===== src/Baseline/Frozen.antt =====
-- `create_deliverable`, `update_deliverable` and `delete_deliverable` of
-- backend/app/api/v1/baselines.py on a baseline that is no draft.
use gp_portal.Base.{
  ◌≡◌, ◌≢◌, ◌⊎◌, inl, inr, false, none, some, ◌==◌, eq_of_==, Option-cases, Bool-cases, arith,
}
use gp_portal.Domain.{Uuid, DateTime, User, Baseline, Deliverable}
use gp_portal.Store.{
  Refused, Db, Ends, Ends-raise_if, Ends-gets, Ends-or_raise, Ends-Refused, get_baseline,
  get_deliverable, start,
}
use gp_portal.Access.{Ends-baseline_for_user}
use gp_portal.Baseline.Deliverables.{
  is_draft, DeliverableCreate, DeliverableUpdate, create_deliverable, update_deliverable,
  delete_deliverable,
}

module _ (now : DateTime) (user : User) (db : Db) (baseline : Baseline) (i : Uuid)
    (held : get_baseline i db ≡ some baseline) (decided : is_draft baseline.status ≡ false) where
  create-Ends :
      (p : DeliverableCreate)
      → Ends (λ db'. db' ≡ db) (λ _ _. ⊥) (create_deliverable now user i p) (start db)
  unfolding create_deliverable
  create-Ends p = Ends-raise_if _ _ _ _ λ role.
      Ends-baseline_for_user _ user _ _
        λ b project there owner mine. Ends-raise_if _ _ _ _ λ draft. cc

  update-Ends :
      (k : Uuid) (d : Deliverable)
      → get_deliverable k db ≡ some d
      → d.baseline_id ≡ i
      → (p : DeliverableUpdate)
      → Ends (λ db'. db' ≡ db) (λ _ _. ⊥) (update_deliverable user k p) (start db)
  unfolding update_deliverable
  update-Ends k d found own p = Ends-raise_if _ _ _ _ λ role. Ends-gets _ _ _ (
      Ends-or_raise _ _ _ _ λ d' found'.
        Ends-baseline_for_user _ user _ _
          λ b project there owner mine. Ends-raise_if _ _ _ _ λ draft. cc)

  delete-Ends :
      (k : Uuid) (d : Deliverable)
      → get_deliverable k db ≡ some d
      → d.baseline_id ≡ i
      → Ends (λ db'. db' ≡ db) (λ _ _. ⊥) (delete_deliverable user k) (start db)
  unfolding delete_deliverable
  delete-Ends k d found own = Ends-raise_if _ _ _ _ λ role. Ends-gets _ _ _ (
      Ends-or_raise _ _ _ _ λ d' found'.
        Ends-baseline_for_user _ user _ _
          λ b project there owner mine. Ends-raise_if _ _ _ _ λ draft. cc)

  -- The deliverable is one of another baseline.
  abbrev pub IsElsewhere : Uuid → Type 0
  IsElsewhere k = (d : Deliverable) × (get_deliverable k db ≡ some d) × (d.baseline_id ≢ i)

  missing_update-Ends :
      (k : Uuid)
      → get_deliverable k db ≡ none
      → (p : DeliverableUpdate)
      → Ends (λ db'. db' ≡ db) (λ _ _. ⊥) (update_deliverable user k p) (start db)
  unfolding update_deliverable
  missing_update-Ends k e p =
      Ends-raise_if _ _ _ _ λ role. Ends-gets _ _ _ (Ends-or_raise _ _ _ _ λ d found. cc)

  missing_delete-Ends :
      (k : Uuid)
      → get_deliverable k db ≡ none
      → Ends (λ db'. db' ≡ db) (λ _ _. ⊥) (delete_deliverable user k) (start db)
  unfolding delete_deliverable
  missing_delete-Ends k e =
      Ends-raise_if _ _ _ _ λ role. Ends-gets _ _ _ (Ends-or_raise _ _ _ _ λ d found. cc)

  apart : (a b : Uuid) → (a == b) ≡ false → a ≢ b
  apart a b h = λ e. ground arith

  -- A baseline that is no longer a draft takes no new deliverable, and no deliverable is edited or
  -- removed unless it is one of another baseline: each of the three requests ends in an error and
  -- leaves every row as it is.
  pub frozen-Refused :
      (new : DeliverableCreate) (k : Uuid) (change : DeliverableUpdate)
      → Refused (create_deliverable now user i new) db
        × (IsElsewhere k
            ⊎ Refused (update_deliverable user k change) db
              × Refused (delete_deliverable user k) db)
  frozen-Refused new k change = (
    Ends-Refused (create_deliverable now user i new) db (create-Ends new),
    elim (Option-cases (get_deliverable k db)) [
      | inl e ↦ inr (
        Ends-Refused (update_deliverable user k change) db (missing_update-Ends k e change),
        Ends-Refused (delete_deliverable user k) db (missing_delete-Ends k e),
      )
      | inr (d, found) ↦ elim (Bool-cases (d.baseline_id == i)) [
        | inl own ↦
            let same = eq_of_== d.baseline_id i own in
            inr (
              Ends-Refused (update_deliverable user k change) db
                  (update-Ends k d found same change),
              Ends-Refused (delete_deliverable user k) db (delete-Ends k d found same),
            )
        | inr other ↦ inl (d, found, apart d.baseline_id i other)
      ]
    ],
  )
