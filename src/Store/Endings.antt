-- ===== src/Store/Endings.antt =====
-- What follows of a request from what its action ends in.
use gp_portal.Base.{◌≡◌, refl, subst}
use gp_portal.Store.Tables.{Db}
use gp_portal.Store.Request.{Error, Result, ok, err, Session, M, run}
use gp_portal.Store.Triple.{Outcome, Ends, start}

module _ {A : Type 0} (E : Db → Type 0) where
  Outcome-invariant : (r : Result A) (s : Session) → Outcome E (λ _ s'. E s'.store) r s → E s.store
  Outcome-invariant (ok a) s h = h
  Outcome-invariant (err e) s h = h

  -- A property that the request ends in, whatever it answers.
  pub Ends-invariant :
      (m : M A) (db : Db) → Ends E (λ _ s. E s.store) m (start db) → E db → E (run m db).1
  Ends-invariant m db h e = Outcome-invariant (m (start db)).0 (m (start db)).1 (h.at e)

-- The request ends in an error and leaves every row as it is.
abbrev pub Refused : {A : Type 0} → M A → Db → Type 0
Refused m db = ((e : Error) × ((run m db).0 ≡ err e)) × ((run m db).1 ≡ db)

module _ {A : Type 0} where
  Outcome-refused :
      (E : Db → Type 0) (r : Result A) (s : Session)
      → Outcome E (λ _ _. ⊥) r s
      → ((e : Error) × (r ≡ err e)) × E s.store
  Outcome-refused E (ok a) s h = elim h [ ]
  Outcome-refused E (err e) s h = ((e, refl), h)

  -- A request that cannot be answered ends in an error and leaves every row as it is.
  pub Ends-Refused :
      (m : M A) (db : Db) → Ends (λ db'. db' ≡ db) (λ _ _. ⊥) m (start db) → Refused m db
  Ends-Refused m db h =
      Outcome-refused (λ db'. db' ≡ db) (m (start db)).0 (m (start db)).1 (h.at refl)

module _ {A : Type 0} (E : Db → Type 0) (Q : A → Session → Type 0) where
  Outcome-ok : (r : Result A) (s : Session) (a : A) → r ≡ ok a → Outcome E Q r s → Q a s
  Outcome-ok r s a e h = subst (λ x. Outcome E Q x s) e h

  Outcome-err : (r : Result A) (s : Session) (x : Error) → r ≡ err x → Outcome E Q r s → E s.store
  Outcome-err r s x e h = subst (λ y. Outcome E Q y s) e h

  -- What holds when the request is answered, and when it is not.
  pub Ends-ok :
      (m : M A) (db : Db) (a : A)
      → Ends E Q m (start db)
      → E db
      → (run m db).0 ≡ ok a
      → Q a (m (start db)).1
  Ends-ok m db a h e answer = Outcome-ok (m (start db)).0 (m (start db)).1 a answer (h.at e)

  pub Ends-err :
      (m : M A) (db : Db) (x : Error)
      → Ends E Q m (start db)
      → E db
      → (run m db).0 ≡ err x
      → E (run m db).1
  Ends-err m db x h e answer = Outcome-err (m (start db)).0 (m (start db)).1 x answer (h.at e)

module _ {A : Type 0} (E : Db → Type 0) (Q R : A → Session → Type 0) where
  Outcome-map :
      (r : Result A) (s : Session) → ((a : A) → Q a s → R a s) → Outcome E Q r s → Outcome E R r s
  Outcome-map (ok a) s step h = step a h
  Outcome-map (err e) s step h = h

  -- An action ends in whatever follows from what it ends in.
  pub Ends-map :
      (m : M A) (s : Session)
      → ((a : A) (s' : Session) → Q a s' → R a s')
      → Ends E Q m s
      → Ends E R m s
  Ends-map m s step h = record {
    at = λ e. Outcome-map (m s).0 (m s).1 (λ a. step a (m s).1) (h.at e);
  }
