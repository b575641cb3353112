-- ===== src/Store/Request.antt =====
-- A request runs in one session. What it writes is pending until `commit`, which refuses a state
-- that breaks a unique constraint; what is pending when the request ends is rolled back.
use gp_portal.Base.{List, [], ◌∷◌, ℕ, ◌+◌, Bool, true, false, Option, none, some, if◌then◌else◌}
use gp_portal.Domain.{Uuid}
use gp_portal.Store.Tables.{Db, integrity}

-- What a handler may answer instead of its result: an `HTTPException`, by its status code and what
-- its text tells; or an exception that nobody handles, which FastAPI answers with 500.
pub data Error : Type 0 where
  http : ℕ → Error
  existing_report : Uuid → Error
  multiple_results : Error
  integrity_error : Error
  date_overflow : Error
  value_error : Error
  storage_error : Error
  type_error : Error

pub data Result {ℓ} (A : Type ℓ) : Type ℓ where
  ok : A → Result A
  err : Error → Result A

-- The committed rows, and the rows as this request sees them.
pub record Session : Type 0 where
  pub store : Db
  pub work : Db

abbrev pub M : Type 0 → Type 0
M A = Session → Result A × Session

abbrev pub pending : Session → Db → Session
pending s db = record s { work = db }

unfoldable pub pure : {A : Type 0} → A → M A
pure a s = (ok a, s)

unfoldable pub raise : {A : Type 0} → Error → M A
raise e s = (err e, s)

unfoldable pub raise_if : Bool → Error → M (Unit {0})
raise_if true e s = (err e, s)
raise_if false e s = (ok tt, s)

-- `if not x: raise`
unfoldable pub or_raise : {A : Type 0} → Option A → Error → M A
or_raise none e s = (err e, s)
or_raise (some a) e s = (ok a, s)

unfoldable pub gets : {A : Type 0} → (Db → A) → M A
gets f s = (ok (f s.work), s)

unfoldable pub modify : (Db → Db) → M (Unit {0})
modify f s = (ok tt, pending s (f s.work))

abbrev pub bump_id : Db → Db
bump_id db = record db { next_id = db.next_id + 1 }

-- The key of a row that is about to be added.
unfoldable pub new_uuid : M Uuid
new_uuid s = (ok s.work.next_id, pending s (bump_id s.work))

-- `scalar_one_or_none()`
unfoldable pub scalar_one_or_none : {A : Type 0} → List A → M (Option A)
scalar_one_or_none [] s = (ok none, s)
scalar_one_or_none (x ∷ []) s = (ok (some x), s)
scalar_one_or_none (x ∷ y ∷ r) s = (err multiple_results, s)

-- A write of the pending rows, which the unique constraints may refuse.
unfoldable pub flush : M (Unit {0})
flush s = if integrity s.work then (ok tt, s) else (err integrity_error, s)

unfoldable pub commit : M (Unit {0})
commit s =
    if integrity s.work then (ok tt, record s { store = s.work }) else (err integrity_error, s)

abbrev forget : {A : Type 0} → Result A × Session → Result (Unit {0}) × Session
forget (r, s) = (ok tt, s)

-- `except Exception: pass`
unfoldable pub attempt : {A : Type 0} → M A → M (Unit {0})
attempt m s = forget (m s)

abbrev pub continue : {A B : Type 0} → Result A → (A → M B) → M B
continue (ok a) f s = f a s
continue (err e) f s = (err e, s)

infixl 5 ◌>>=◌ ◌>>◌
-- Opening this opens the actions above too.
unfoldable pub ◌>>=◌ : {A B : Type 0} → M A → (A → M B) → M B
unfolding pure raise raise_if or_raise gets modify new_uuid scalar_one_or_none flush commit attempt
◌>>=◌ m f s = let (r, s') = m s in continue r f s'

abbrev pub ◌>>◌ : {A B : Type 0} → M A → M B → M B
m >> n = m >>= λ _. n

-- One request: the answer, and what it has committed.
abbrev pub run : {A : Type 0} → M A → Db → Result A × Db
run m db = let (r, s) = m (record { store = db; work = db }) in (r, s.store)
