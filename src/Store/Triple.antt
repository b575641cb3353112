-- ===== src/Store/Triple.antt =====
-- What an action ends in, from one session: on an answer `Q`, on an error `E` of the committed
-- rows. There is one rule for each action that may stand first; the branches that raise need no
-- proof, since they commit nothing.
use gp_portal.Base.{
  if◌then◌else◌, ◌≡◌, refl, sym, subst, Bool, true, false, Option, none, some, List, [], ◌∷◌,
}
use gp_portal.Domain.{Uuid}
use gp_portal.Store.Tables.{Db, integrity}
use gp_portal.Store.Request.{
  Error, Result, ok, err, Session, M, pending, pure, raise, raise_if, or_raise, gets, modify,
  new_uuid, bump_id, scalar_one_or_none, flush, commit, attempt, continue, ◌>>=◌,
}
use gp_portal.Store.Rules.{Both, Keeps}

abbrev pub Outcome :
    {A : Type 0} → (Db → Type 0) → (A → Session → Type 0) → Result A → Session → Type 0
Outcome E Q (ok a) s = Q a s
Outcome E Q (err e) s = E s.store

pub record Ends {A : Type 0} (E : Db → Type 0) (Q : A → Session → Type 0) (m : M A) (s : Session)
    : Type 0 where
  pub at : E s.store → Outcome E Q (m s).0 (m s).1

abbrev pub saved : Session → Session
saved s = record s { store = s.work }

abbrev pub start : Db → Session
start db = record { store = db; work = db }

module _ {A : Type 0} {E : Db → Type 0} {Q : A → Session → Type 0} where
  pub Ends-pure : (a : A) (s : Session) → Q a s → Ends E Q (pure a) s
  unfolding pure
  Ends-pure a s q = record { at = λ _. q }

  pub Ends-raise : (e : Error) (s : Session) → Ends E Q (raise e) s
  unfolding raise
  Ends-raise e s = record { at = λ h. h }

  pub Ends-if :
      (b : Bool) (m n : M A) (s : Session)
      → (b ≡ true → Ends E Q m s)
      → (b ≡ false → Ends E Q n s)
      → Ends E Q (if b then m else n) s
  Ends-if true m n s h g = h refl
  Ends-if false m n s h g = g refl

  pub Ends-or_raise_last :
      (o : Option A) (e : Error) (s : Session)
      → ((a : A) → o ≡ some a → Q a s)
      → Ends E Q (or_raise o e) s
  unfolding or_raise
  Ends-or_raise_last none e s k = record { at = λ h. h }
  Ends-or_raise_last (some a) e s k = record { at = λ _. k a refl }

module _ {B : Type 0} {E : Db → Type 0} {Q : B → Session → Type 0} where
  pub Ends-raise_if :
      (b : Bool) (e : Error) (k : Unit {0} → M B) (s : Session)
      → (b ≡ false → Ends E Q (k tt) s)
      → Ends E Q (raise_if b e >>= k) s
  unfolding ◌>>=◌
  Ends-raise_if true e k s h = record { at = λ x. x }
  Ends-raise_if false e k s h = h refl

  pub Ends-modify :
      (f : Db → Db) (k : Unit {0} → M B) (s : Session)
      → Ends E Q (k tt) (pending s (f s.work))
      → Ends E Q (modify f >>= k) s
  unfolding ◌>>=◌
  Ends-modify f k s h = record { at = λ x. h.at x }

  pub Ends-new_uuid :
      (k : Uuid → M B) (s : Session)
      → Ends E Q (k s.work.next_id) (pending s (bump_id s.work))
      → Ends E Q (new_uuid >>= k) s
  unfolding ◌>>=◌
  Ends-new_uuid k s h = record { at = λ x. h.at x }

  Ends-flush_at :
      (b : Bool) (k : Unit {0} → M B) (s : Session)
      → integrity s.work ≡ b
      → (b ≡ true → Ends E Q (k tt) s)
      → Ends E Q (flush >>= k) s
  unfolding ◌>>=◌
  Ends-flush_at true k s e h = record { at = λ x. rw e ((h refl).at x) }
  Ends-flush_at false k s e h = record { at = λ x. rw e x }

  pub Ends-flush :
      (k : Unit {0} → M B) (s : Session)
      → (integrity s.work ≡ true → Ends E Q (k tt) s)
      → Ends E Q (flush >>= k) s
  Ends-flush k s h = Ends-flush_at (integrity s.work) k s refl h

  Ends-commit_at :
      (b : Bool) (k : Unit {0} → M B) (s : Session)
      → integrity s.work ≡ b
      → (b ≡ true → E s.work × Ends E Q (k tt) (saved s))
      → Ends E Q (commit >>= k) s
  unfolding ◌>>=◌
  Ends-commit_at true k s e h = record { at = λ x. rw e ((h refl).1.at (h refl).0) }
  Ends-commit_at false k s e h = record { at = λ x. rw e x }

  pub Ends-commit :
      (k : Unit {0} → M B) (s : Session)
      → (integrity s.work ≡ true → E s.work × Ends E Q (k tt) (saved s))
      → Ends E Q (commit >>= k) s
  Ends-commit k s h = Ends-commit_at (integrity s.work) k s refl h

module _ {E : Db → Type 0} {Q : Unit {0} → Session → Type 0} where
  Ends-commit_last_at :
      (b : Bool) (s : Session)
      → integrity s.work ≡ b
      → (b ≡ true → E s.work × Q tt (saved s))
      → Ends E Q commit s
  unfolding commit
  Ends-commit_last_at true s e h = record { at = λ x. rw e (h refl).1 }
  Ends-commit_last_at false s e h = record { at = λ x. rw e x }

  pub Ends-commit_last :
      (s : Session) → (integrity s.work ≡ true → E s.work × Q tt (saved s)) → Ends E Q commit s
  Ends-commit_last s h = Ends-commit_last_at (integrity s.work) s refl h

module _ {A B : Type 0} {E : Db → Type 0} {Q : B → Session → Type 0} where
  pub Ends-gets :
      (f : Db → A) (k : A → M B) (s : Session)
      → Ends E Q (k (f s.work)) s
      → Ends E Q (gets f >>= k) s
  unfolding ◌>>=◌
  Ends-gets f k s h = record { at = λ x. h.at x }

  pub Ends-or_raise :
      (o : Option A) (e : Error) (k : A → M B) (s : Session)
      → ((a : A) → o ≡ some a → Ends E Q (k a) s)
      → Ends E Q (or_raise o e >>= k) s
  unfolding ◌>>=◌
  Ends-or_raise none e k s h = record { at = λ x. x }
  Ends-or_raise (some a) e k s h = h a refl

  pub Ends-scalar :
      (l : List A) (k : Option A → M B) (s : Session)
      → (l ≡ [] → Ends E Q (k none) s)
      → ((x : A) → l ≡ x ∷ [] → Ends E Q (k (some x)) s)
      → Ends E Q (scalar_one_or_none l >>= k) s
  unfolding ◌>>=◌
  Ends-scalar [] k s h g = h refl
  Ends-scalar (x ∷ []) k s h g = g x refl
  Ends-scalar (x ∷ y ∷ r) k s h g = record { at = λ e. e }

  pub Ends-pure_bind :
      (a : A) (k : A → M B) (s : Session) → Ends E Q (k a) s → Ends E Q (pure a >>= k) s
  unfolding ◌>>=◌
  Ends-pure_bind a k s h = record { at = λ x. h.at x }

  pub Ends-raise_bind : (e : Error) (k : A → M B) (s : Session) → Ends E Q (raise e >>= k) s
  unfolding ◌>>=◌
  Ends-raise_bind e k s = record { at = λ x. x }

  -- What follows an action of which all that is used is what it keeps.
  pub Ends-attempt :
      {P : Db → Type 0} (m : M A) (k : Unit {0} → M B) (s : Session)
      → Keeps P m
      → Both P s
      → ((s' : Session) → Both P s' → E s'.store × Ends E Q (k tt) s')
      → Ends E Q (attempt m >>= k) s
  unfolding ◌>>=◌
  Ends-attempt m k s keep both h = record {
    at = λ x. let after = h (m s).1 (keep.at s both) in after.1.at after.0;
  }

module _ {A B C : Type 0} where
  continue_assoc :
      (r : Result A) (f : A → M B) (g : B → M C) (s : Session)
      → (continue r f >>= g) s ≡ continue r (λ a. f a >>= g) s
  unfolding ◌>>=◌
  continue_assoc (ok a) f g s = refl
  continue_assoc (err e) f g s = refl

  bind_assoc :
      (m : M A) (f : A → M B) (g : B → M C) (s : Session)
      → (m >>= f >>= g) s ≡ (m >>= λ a. f a >>= g) s
  unfolding ◌>>=◌
  bind_assoc m f g s = let (r, s') = m s in continue_assoc r f g s'

  -- The steps of a call that is a block of its own.
  pub Ends-assoc :
      {E : Db → Type 0} {Q : C → Session → Type 0} (m : M A) (f : A → M B) (g : B → M C)
      (s : Session)
      → Ends E Q (m >>= λ a. f a >>= g) s
      → Ends E Q (m >>= f >>= g) s
  Ends-assoc {E} {Q} m f g s h = record {
    at = λ x.
        subst (λ (r : Result C × Session). Outcome E Q r.0 r.1) (sym (bind_assoc m f g s)) (h.at x);
  }

module _ {A : Type 0} {E : Db → Type 0} {Q : Unit {0} → Session → Type 0} where
  pub Ends-attempt_last :
      {P : Db → Type 0} (m : M A) (s : Session)
      → Keeps P m
      → Both P s
      → ((s' : Session) → Both P s' → E s'.store × Q tt s')
      → Ends E Q (attempt m) s
  unfolding attempt
  Ends-attempt_last m s keep both h = record { at = λ x. (h (m s).1 (keep.at s both)).1 }
