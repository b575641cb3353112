-- ===== src/Base/Lists.antt =====
-- Tables are lists of rows: a query filters one, a statement maps one.
use Prim.Native.Nat.{ℕ, zero, suc, ◌+◌}
use mathlib.Core.Bool.{Bool, true, false, not, ◌&&◌, ◌||◌}
use mathlib.Core.List.{List, [], ◌∷◌, ◌++◌}
use mathlib.Core.Logic.{◌⊎◌, inl, inr}
use mathlib.Core.Option.{Option, none, some}
use native.Mathlib.Omega.{arith}
use mathlib.Core.Path.{◌≡◌, refl, sym, subst}
use gp_portal.Base.Tests.{if◌then◌else◌, Bool-cases}

module _ {ℓ} {A : Type ℓ} where
  abbrev pub length : List A → ℕ
  length [] = 0
  length (x ∷ xs) = suc (length xs)

  pub length-append : (xs ys : List A) → length (xs ++ ys) ≡ length xs + length ys
  length-append [] ys = omega arith
  length-append (x ∷ xs) ys = rw (length-append xs ys) (omega arith)

  -- The rows for which the condition holds, in the table's order.
  abbrev pub where_ : (A → Bool) → List A → List A
  where_ p [] = []
  where_ p (x ∷ xs) = let rest = where_ p xs in if p x then x ∷ rest else rest

  -- The first row for which the condition holds.
  abbrev pub find : (A → Bool) → List A → Option A
  find p [] = none
  find p (x ∷ xs) = if p x then some x else find p xs

  abbrev pub count_where : (A → Bool) → List A → ℕ
  count_where p [] = 0
  count_where p (x ∷ xs) = if p x then suc (count_where p xs) else count_where p xs

  abbrev pub any : (A → Bool) → List A → Bool
  any p [] = false
  any p (x ∷ xs) = p x || any p xs

  abbrev pub all : (A → Bool) → List A → Bool
  all p [] = true
  all p (x ∷ xs) = p x && all p xs

  -- Every row that meets the condition is replaced.
  abbrev pub update_where : (A → Bool) → (A → A) → List A → List A
  update_where p f [] = []
  update_where p f (x ∷ xs) = (if p x then f x else x) ∷ update_where p f xs

  -- Every row satisfies the predicate.
  abbrev pub All {κ} : (A → Type κ) → List A → Type κ
  All Holds [] = Unit
  All Holds (row ∷ rows) = Holds row × All Holds rows

  pub All-append {κ} :
      (P : A → Type κ) (front back : List A) → All P front → All P back → All P (front ++ back)
  All-append P [] back old new = new
  All-append P (row ∷ rows) back (here, rest) new = (here, All-append P rows back rest new)

  pub All-map {κ μ} :
      (P : A → Type κ) (Q : A → Type μ) (xs : List A) → ((x : A) → P x → Q x) → All P xs → All Q xs
  All-map P Q [] step h = tt
  All-map P Q (x ∷ xs) step h = (step x h.0, All-map P Q xs step h.1)

  pub All-update_where {κ} :
      (P : A → Type κ) (p : A → Bool) (f : A → A) (xs : List A)
      → ((x : A) → p x ≡ true → P x → P (f x))
      → All P xs
      → All P (update_where p f xs)
  All-update_where P p f [] step h = tt
  All-update_where P p f (x ∷ xs) step h = elim (Bool-cases (p x)) [
    | inl e ↦ rw e (step x e h.0, All-update_where P p f xs step h.1)
    | inr e ↦ rw e (h.0, All-update_where P p f xs step h.1)
  ]

  -- The first row that meets the condition is replaced.
  abbrev pub update_first : (A → Bool) → (A → A) → List A → List A
  update_first p f [] = []
  update_first p f (x ∷ xs) = if p x then f x ∷ xs else x ∷ update_first p f xs

  find-head :
      (p : A → Bool) (y : A) (xs : List A) {x : A} → p y ≡ true → find p (y ∷ xs) ≡ some x → y ≡ x
  find-head p y xs t e = ground arith

  pub All-find {κ} :
      (P : A → Type κ) (p : A → Bool) (xs : List A) {x : A} → find p xs ≡ some x → All P xs → P x
  All-find P p [] e h = cc
  All-find P p (y ∷ xs) {x} e h = elim (Bool-cases (p y)) [
    | inl t ↦ subst P (find-head p y xs t e) h.0
    | inr t ↦ All-find P p xs (rw t at e) h.1
  ]

  pub All-update_first {κ} :
      (P : A → Type κ) (p : A → Bool) (f : A → A) (xs : List A) {x : A}
      → find p xs ≡ some x
      → P (f x)
      → All P xs
      → All P (update_first p f xs)
  All-update_first P p f [] e new h = tt
  All-update_first P p f (y ∷ xs) {x} e new h = elim (Bool-cases (p y)) [
    | inl t ↦ rw t (subst (λ z. P (f z)) (sym (find-head p y xs t e)) new, h.1)
    | inr t ↦ rw t (h.0, All-update_first P p f xs (rw t at e) new h.1)
  ]

  -- The same for a change under which the property is kept.
  pub All-update_first_keep {κ} :
      (P : A → Type κ) (p : A → Bool) (f : A → A) (xs : List A)
      → ((x : A) → P x → P (f x))
      → All P xs
      → All P (update_first p f xs)
  All-update_first_keep P p f [] step h = tt
  All-update_first_keep P p f (y ∷ xs) step h = elim (Bool-cases (p y)) [
    | inl t ↦ rw t (step y h.0, h.1)
    | inr t ↦ rw t (h.0, All-update_first_keep P p f xs step h.1)
  ]

  -- What holds of each row for which a test fails, where it fails for all.
  pub All-not_any {κ} :
      (P : A → Type κ) (p : A → Bool) (xs : List A)
      → ((x : A) → p x ≡ false → P x)
      → any p xs ≡ false
      → All P xs
  All-not_any P p [] step h = tt
  All-not_any P p (x ∷ xs) step h = (step x (ground arith), All-not_any P p xs step (ground arith))

  abbrev pub OneOf : (A → Type 0) → List A → Type 0
  OneOf P [] = ⊥
  OneOf P (x ∷ xs) = P x ⊎ OneOf P xs

  pub OneOf-any :
      (P : A → Type 0) (p : A → Bool) (xs : List A)
      → ((x : A) → p x ≡ true → P x)
      → any p xs ≡ true
      → OneOf P xs
  OneOf-any P p [] step h = cc
  OneOf-any P p (x ∷ xs) step h = elim (Bool-cases (p x)) [
    | inl e ↦ inl (step x e)
    | inr e ↦ inr (OneOf-any P p xs step (rw e at h))
  ]

  -- The rows of two lists stand in the relation, one by one.
  abbrev pub Pairwise : (A → A → Type 0) → List A → List A → Type 0
  Pairwise R [] [] = Unit
  Pairwise R (x ∷ xs) (y ∷ ys) = R x y × Pairwise R xs ys
  Pairwise R _ _ = ⊥

  pub Pairwise-update_where :
      (R : A → A → Type 0) (p : A → Bool) (f : A → A) (xs : List A)
      → ((x : A) → p x ≡ true → R x (f x))
      → ((x : A) → p x ≡ false → R x x)
      → Pairwise R xs (update_where p f xs)
  Pairwise-update_where R p f [] new old = tt
  Pairwise-update_where R p f (x ∷ xs) new old = elim (Bool-cases (p x)) [
    | inl e ↦ rw e (new x e, Pairwise-update_where R p f xs new old)
    | inr e ↦ rw e (old x e, Pairwise-update_where R p f xs new old)
  ]

  pub find_sound : (p : A → Bool) (xs : List A) {x : A} → find p xs ≡ some x → p x ≡ true
  find_sound p [] e = cc
  find_sound p (y ∷ xs) {x} e = ground (arith, find_sound p xs {x = x})

  pub find-update_first :
      (p : A → Bool) (f : A → A) (xs : List A) {x : A}
      → find p xs ≡ some x
      → p (f x) ≡ true
      → find p (update_first p f xs) ≡ some (f x)
  find-update_first p f [] e h = cc
  find-update_first p f (y ∷ xs) {x} e h = ground (arith, find-update_first p f xs {x = x})

  pub find-append :
      (p : A → Bool) (xs ys : List A) {x : A} → find p xs ≡ some x → find p (xs ++ ys) ≡ some x
  find-append p [] ys e = cc
  find-append p (y ∷ xs) ys {x} e = ground (arith, find-append p xs ys {x = x})

  pub find-append_new :
      (p : A → Bool) (xs : List A) (x : A)
      → find p xs ≡ none
      → p x ≡ true
      → find p (xs ++ x ∷ []) ≡ some x
  find-append_new p [] x e h = rw h refl
  find-append_new p (y ∷ xs) x e h = ground (arith, find-append_new p xs x)

  -- A search for other rows does not see the change.
  pub find-update_first_other :
      (p q : A → Bool) (f : A → A) (xs : List A)
      → ((x : A) → p x ≡ true → q x ≡ false)
      → ((x : A) → q (f x) ≡ q x)
      → find q (update_first p f xs) ≡ find q xs
  find-update_first_other p q f [] apart same = refl
  find-update_first_other p q f (x ∷ xs) apart same = elim (Bool-cases (p x)) [
    | inl e ↦ rw (e, same x, apart x e) refl
    | inr e ↦ rw (e, find-update_first_other p q f xs apart same) refl
  ]

  abbrev pub insert_sorted : (A → A → Bool) → A → List A → List A
  insert_sorted before x [] = x ∷ []
  insert_sorted before x (y ∷ ys) = if before y x then y ∷ insert_sorted before x ys else x ∷ y ∷ ys

  -- `order_by`: `before x y` says that `x` must not stand behind `y`; ties keep their order.
  abbrev pub sort : (A → A → Bool) → List A → List A
  sort before [] = []
  sort before (x ∷ xs) = insert_sorted (λ y z. not (before z y)) x (sort before xs)

  abbrev pub take : ℕ → List A → List A
  take zero xs = []
  take (suc n) [] = []
  take (suc n) (x ∷ xs) = x ∷ take n xs

  abbrev pub drop : ℕ → List A → List A
  drop zero xs = xs
  drop (suc n) [] = []
  drop (suc n) (x ∷ xs) = drop n xs

  abbrev pub head_of : List A → Option A
  head_of [] = none
  head_of (x ∷ xs) = some x

  abbrev pub catch_some {κ} : {B : Type κ} → (A → Option B) → List A → List B
  catch_some f [] = []
  catch_some f (x ∷ xs) = elim (f x) [ none ↦ catch_some f xs | some b ↦ b ∷ catch_some f xs ]
