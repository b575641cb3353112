-- ===== src/Baseline/Transition/Unique.antt =====
-- The number of active baselines under `activate_baseline` and `decide_baseline_transition` of
-- backend/app/api/v1/baselines.py.
use gp_portal.Base.{
  ◌≡◌, refl, sym, subst, All-update_first_keep, Bool, true, false, some, List, [], ◌∷◌, ◌==◌, All,
  All-update_where, All-update_first, find, find_sound, eq_of_==, update_where, Bool-cases, inl,
  inr, arith,
}
use gp_portal.Domain.{BaselineStatus, Uuid, DateTime, User, Baseline}
use gp_portal.Store.{
  Db, Ends, Ends-raise_if, Ends-gets, Ends-or_raise, Ends-modify, Ends-commit, Ends-commit_last,
  Ends-pure, Ends-attempt, Ends-invariant, get_baseline, set_baseline, start, run,
}
use gp_portal.Access.{Ends-baseline_for_user}
use gp_portal.Notifications.Frame.{Keeps-notify_transition_decision}
use gp_portal.HealthScore.{is_active}
use gp_portal.Baseline.Transition.{
  is_rival, superseded, decide_changes, activated, refused, decide_baseline, activate_from,
  activate_baseline, TransitionDecisionPayload, decide_baseline_transition,
}

-- An active baseline of the project has the key.
abbrev pub HasKey : Uuid → Uuid → Baseline → Type 0
HasKey p k b = b.project_id ≡ p → is_active b.status ≡ true → b.id ≡ k

-- The active baselines of each project have one key.
abbrev pub OneActive : Db → Type 0
OneActive db = (p : Uuid) → (k : Uuid) × All (HasKey p k) db.baselines

pub find-update_where :
    {A : Type 0} (q p : A → Bool) (f : A → A) (xs : List A) {x : A}
    → ((y : A) → q (f y) ≡ q y)
    → p x ≡ false
    → find q xs ≡ some x
    → find q (update_where p f xs) ≡ some x
find-update_where q p f [] same spared e = cc
find-update_where q p f (y ∷ ys) {x} same spared e = elim (Bool-cases (q y)) [
  | inl t ↦ ground (arith, same y)
  | inr t ↦ ground (arith, same y, find-update_where q p f ys {x = x} same spared)
]

pub not_own_rival : (b : Baseline) → is_rival b b ≡ false
not_own_rival b = ground arith

rival-project : (b x : Baseline) → is_rival b x ≡ true → x.project_id ≡ b.project_id
rival-project b x h = ground arith

-- Once the rivals are superseded, an active baseline of the project is the one they rivalled.
rivals_gone :
    (b : Baseline) (rows : List Baseline)
    → All (HasKey b.project_id b.id) (update_where (is_rival b) superseded rows)
rivals_gone b [] = tt
rivals_gone b (x ∷ xs) = elim (Bool-cases (is_rival b x)) [
  | inl e ↦ rw e ((λ _ a. ground (arith, a)), rivals_gone b xs)
  | inr e ↦ rw e ((λ p a. ground (arith, p, a, e)), rivals_gone b xs)
]

-- The rows of another project stand as they are.
others_kept :
    (b : Baseline) (p k : Uuid) (rows : List Baseline)
    → (p ≡ b.project_id → ⊥)
    → All (HasKey p k) rows
    → All (HasKey p k) (update_where (is_rival b) superseded rows)
others_kept b p k rows other h =
    All-update_where (HasKey p k) (is_rival b) superseded rows (λ x r _ q a. cc) h

after_promotion :
    (now : DateTime) (by : Uuid) (b : Baseline) (db : Db)
    → get_baseline b.id db ≡ some b
    → OneActive db
    → OneActive (decide_baseline now by true b db)
after_promotion now by b db found h p =
    let rows = update_where (is_rival b) superseded db.baselines in
    let found' =
      find-update_where (λ x. x.id == b.id) (is_rival b) superseded db.baselines (λ y. refl)
        (not_own_rival b) found in
    elim (Bool-cases (p == b.project_id)) [
      | inl e ↦ (
        b.id,
        All-update_first (HasKey p b.id) (λ x. x.id == b.id) (activated now by) rows found'
            (λ _ _. refl)
            (subst (λ q. All (HasKey q b.id) rows) (sym (eq_of_== p b.project_id e))
              (rivals_gone b db.baselines)),
      )
      | inr e ↦
          (let other : p ≡ b.project_id → ⊥ = λ q. ground (arith, e, q) in
            let (k, old) = h p in
            (
              k,
              All-update_first (HasKey p k) (λ x. x.id == b.id) (activated now by) rows found'
                  (λ q _. ground (arith, e, q)) (others_kept b p k db.baselines other old),
            ))
    ]

after_refusal : (b : Baseline) (db : Db) → OneActive db → OneActive (set_baseline b.id refused db)
after_refusal b db h p =
    let (k, old) = h p in
    (
      k,
      All-update_first_keep (HasKey p k) (λ x. x.id == b.id) refused db.baselines (λ x _ _ a. cc)
          old,
    )

module _ (now : DateTime) (user : User) where
  activate_from-OneActive :
      (st : BaselineStatus) (b : Baseline) (db : Db)
      → get_baseline b.id db ≡ some b
      → OneActive db
      → Ends OneActive (λ _ s. OneActive s.store) (activate_from st now user b) (start db)
  unfolding activate_from
  activate_from-OneActive BaselineStatus.draft b db found h =
      let one = after_promotion now user.id b db found h in
      Ends-gets _ _ _ (
        Ends-raise_if _ _ _ _
          λ first. Ends-modify _ _ _ (Ends-modify _ _ _ (Ends-commit_last _ λ _. (one, one))))
  activate_from-OneActive BaselineStatus.active b db found h = Ends-pure _ _ h
  activate_from-OneActive BaselineStatus.superseded b db found h = Ends-raise_if _ _ _ _ λ e. cc
  activate_from-OneActive BaselineStatus.rejected b db found h = Ends-raise_if _ _ _ _ λ e. cc

  pub own_key :
      (k : Uuid) (b : Baseline) (db : Db)
      → get_baseline k db ≡ some b
      → get_baseline b.id db ≡ some b
  own_key k b db found =
      subst (λ i. get_baseline i db ≡ some b)
        (sym (eq_of_== b.id k (find_sound (λ x. x.id == k) db.baselines found))) found

  -- An activation leaves each project with at most one active baseline, if that was so before,
  -- whatever it answers.
  pub activate_baseline-OneActive :
      (k : Uuid) (db : Db) → OneActive db → OneActive (run (activate_baseline now user k) db).1
  unfolding activate_baseline
  activate_baseline-OneActive k db h =
      Ends-invariant OneActive (activate_baseline now user k) db
        (Ends-raise_if _ _ _ _ λ role.
          Ends-baseline_for_user _ user _ _ λ b project found owner mine.
            activate_from-OneActive b.status b db (own_key k b db found) h)
        h

  decided-OneActive :
      (approve : Bool) (b : Baseline) (db : Db)
      → get_baseline b.id db ≡ some b
      → OneActive db
      → OneActive (decide_baseline now user.id approve b db)
  decided-OneActive true b db found h = after_promotion now user.id b db found h
  decided-OneActive false b db found h = after_refusal b db h

  -- A decision of the PMO on a later baseline leaves each project with at most one active baseline,
  -- if that was so before, whatever it answers and whatever becomes of the notifications.
  pub decide_baseline_transition-OneActive :
      (k : Uuid) (p : TransitionDecisionPayload) (db : Db)
      → OneActive db
      → OneActive (run (decide_baseline_transition now user k p) db).1
  unfolding decide_baseline_transition
  decide_baseline_transition-OneActive k p db h =
      Ends-invariant OneActive (decide_baseline_transition now user k p) db
        (Ends-raise_if _ _ _ _ λ role. Ends-raise_if _ _ _ _ λ comment. Ends-gets _ _ _ (
          Ends-or_raise _ _ _ _ λ b found. Ends-gets _ _ _ (
            Ends-or_raise _ _ _ _ λ project owner. Ends-raise_if _ _ _ _ λ draft. Ends-gets _ _ _ (
              Ends-raise_if _ _ _ _ λ rows.
                let changes = decide_changes now user.id p.approve k db in
                let one = decided-OneActive p.approve b changes (own_key k b db found) h in
                Ends-modify _ _ _ (
                  Ends-modify _ _ _ (
                    Ends-commit _ _ λ _. (
                      one,
                      Ends-attempt {P = OneActive} _ _ _
                          (Keeps-notify_transition_decision (λ db k n h. h) now project b _ _ _)
                          (one, one) λ s both. (both.1, Ends-pure _ _ both.1),
                    )))))))
        h
