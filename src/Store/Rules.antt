-- ===== src/Store/Rules.antt =====
-- What an action keeps of the rows, pending and committed, whatever it answers: one rule for each
-- way to build an action.
use gp_portal.Base.{if◌then◌else◌, Bool, true, false, Option, none, some, List, [], ◌∷◌, arith}
use gp_portal.Store.Tables.{Db}
use gp_portal.Store.Request.{
  Error, Result, ok, err, Session, M, pure, raise, raise_if, or_raise, gets, modify, new_uuid,
  bump_id, scalar_one_or_none, flush, commit, attempt, continue, ◌>>=◌, run,
}

abbrev pub Both : (Db → Type 0) → Session → Type 0
Both P s = P s.work × P s.store

pub record Keeps {A : Type 0} (P : Db → Type 0) (m : M A) : Type 0 where
  pub at : (s : Session) → Both P s → Both P (m s).1

module _ {A : Type 0} {P : Db → Type 0} where
  pub Keeps-or_raise : (o : Option A) (e : Error) → Keeps P (or_raise o e)
  unfolding or_raise
  Keeps-or_raise none e = record { at = λ s h. h }
  Keeps-or_raise (some a) e = record { at = λ s h. h }

  pub Keeps-raise : (e : Error) → Keeps {A = A} P (raise e)
  unfolding raise
  Keeps-raise e = record { at = λ s both. both }

  pub Keeps-pure : (answer : A) → Keeps P (pure answer)
  unfolding pure
  Keeps-pure answer = record { at = λ s both. both }

  pub Keeps-gets : (query : Db → A) → Keeps P (gets query)
  unfolding gets
  Keeps-gets query = record { at = λ s both. both }

  pub Keeps-scalar_one_or_none : (l : List A) → Keeps P (scalar_one_or_none l)
  unfolding scalar_one_or_none
  Keeps-scalar_one_or_none [] = record { at = λ s h. h }
  Keeps-scalar_one_or_none (x ∷ []) = record { at = λ s h. h }
  Keeps-scalar_one_or_none (x ∷ y ∷ r) = record { at = λ s h. h }

  pub Keeps-if : (b : Bool) (m n : M A) → Keeps P m → Keeps P n → Keeps P (if b then m else n)
  Keeps-if true m n k l = k
  Keeps-if false m n k l = l

  pub Keeps-attempt : (m : M A) → Keeps P m → Keeps P (attempt m)
  unfolding attempt
  Keeps-attempt m k = record { at = λ s h. k.at s h }

module _ {P : Db → Type 0} where
  pub Keeps-raise_if : (b : Bool) (e : Error) → Keeps P (raise_if b e)
  unfolding raise_if
  Keeps-raise_if true e = record { at = λ s h. h }
  Keeps-raise_if false e = record { at = λ s h. h }

  pub Keeps-modify : (f : Db → Db) → ((db : Db) → P db → P (f db)) → Keeps P (modify f)
  unfolding modify
  Keeps-modify f k = record { at = λ s h. (k s.work h.0, h.1) }

  pub Keeps-new_uuid : ((db : Db) → P db → P (bump_id db)) → Keeps P new_uuid
  unfolding new_uuid
  Keeps-new_uuid k = record { at = λ s h. (k s.work h.0, h.1) }

  pub Keeps-flush : Keeps P flush
  unfolding flush
  Keeps-flush = record { at = λ s h. ground arith }

  pub Keeps-commit : Keeps P commit
  unfolding commit
  Keeps-commit = record { at = λ s h. ground arith }

module _ {A B : Type 0} {P : Db → Type 0} where
  Keeps-continue :
      (r : Result A) (f : A → M B) (s : Session)
      → ((a : A) → Keeps P (f a))
      → Both P s
      → Both P (continue r f s).1
  Keeps-continue (ok a) f s k h = (k a).at s h
  Keeps-continue (err e) f s k h = h

  pub Keeps-bind :
      (act : M A) (next : A → M B)
      → Keeps P act
      → ((a : A) → Keeps P (next a))
      → Keeps P (act >>= next)
  unfolding ◌>>=◌
  Keeps-bind act next first rest = record {
    at = λ s both.
        let (answer, after) = act s in Keeps-continue answer next after rest (first.at s both);
  }

pub ruleset keeps_rules = (
  Keeps-raise_if, Keeps-or_raise, Keeps-raise, Keeps-gets, Keeps-pure, Keeps-bind, Keeps-attempt,
  Keeps-scalar_one_or_none, Keeps-flush, Keeps-commit, Keeps-if,
)

-- What a request keeps, it keeps of the committed rows.
pub Keeps-run :
    {A : Type 0} {P : Db → Type 0} (m : M A) (db : Db) → Keeps P m → P db → P (run m db).1
Keeps-run m db k h = (k.at (record { store = db; work = db }) (h, h)).1
