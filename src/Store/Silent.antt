-- ===== src/Store/Silent.antt =====
-- What an action that commits nothing keeps of the pending rows.
use gp_portal.Base.{◌≡◌, refl, sym, ◌∙◌, subst}
use gp_portal.Store.Tables.{Db}
use gp_portal.Store.Request.{
  Result, ok, err, Session, M, pure, gets, modify, new_uuid, bump_id, continue, ◌>>=◌,
}
use gp_portal.Store.Triple.{Outcome, Ends}

pub record Writes {A : Type 0} (P : Db → Type 0) (m : M A) : Type 0 where
  pub work : (s : Session) → P s.work → P (m s).1.work
  pub store : (s : Session) → (m s).1.store ≡ s.store

module _ {A : Type 0} {P : Db → Type 0} where
  pub Writes-pure : (a : A) → Writes P (pure a)
  unfolding pure
  Writes-pure a = record { work = λ s h. h; store = λ s. refl }

  pub Writes-gets : (f : Db → A) → Writes P (gets f)
  unfolding gets
  Writes-gets f = record { work = λ s h. h; store = λ s. refl }

module _ {P : Db → Type 0} where
  pub Writes-modify : (f : Db → Db) → ((db : Db) → P db → P (f db)) → Writes P (modify f)
  unfolding modify
  Writes-modify f k = record { work = λ s h. k s.work h; store = λ s. refl }

  pub Writes-new_uuid : ((db : Db) → P db → P (bump_id db)) → Writes P new_uuid
  unfolding new_uuid
  Writes-new_uuid k = record { work = λ s h. k s.work h; store = λ s. refl }

module _ {A B : Type 0} {P : Db → Type 0} where
  Writes-continue :
      (r : Result A) (f : A → M B) (s : Session)
      → ((a : A) → Writes P (f a))
      → P s.work
      → P (continue r f s).1.work
  Writes-continue (ok a) f s k h = (k a).work s h
  Writes-continue (err e) f s k h = h

  store-continue :
      (r : Result A) (f : A → M B) (s : Session)
      → ((a : A) → Writes P (f a))
      → (continue r f s).1.store ≡ s.store
  store-continue (ok a) f s k = (k a).store s
  store-continue (err e) f s k = refl

  pub Writes-bind :
      (m : M A) (f : A → M B) → Writes P m → ((a : A) → Writes P (f a)) → Writes P (m >>= f)
  unfolding ◌>>=◌
  Writes-bind m f km kf = record {
    work = λ s h. let (r, s') = m s in Writes-continue r f s' kf (km.work s h);
    store = λ s. let (r, s') = m s in store-continue r f s' kf ∙ km.store s;
  }

module _ {A B : Type 0} {E : Db → Type 0} {Q : B → Session → Type 0} where
  Outcome-written :
      (r : Result A) (k : A → M B) (s : Session)
      → ((a : A) → Ends E Q (k a) s)
      → E s.store
      → Outcome E Q (continue r k s).0 (continue r k s).1
  Outcome-written (ok a) k s h e = (h a).at e
  Outcome-written (err x) k s h e = e

  -- What follows an action of which all that is used is what it keeps of the pending rows.
  pub Ends-Writes :
      {P : Db → Type 0} (m : M A) (k : A → M B) (s : Session)
      → Writes P m
      → P s.work
      → ((a : A) (s' : Session) → P s'.work → s'.store ≡ s.store → Ends E Q (k a) s')
      → Ends E Q (m >>= k) s
  unfolding ◌>>=◌
  Ends-Writes m k s keep h next = record {
    at = λ x.
        let (r, s') = m s in
        Outcome-written r k s' (λ a. next a s' (keep.work s h) (keep.store s))
          (subst E (sym (keep.store s)) x);
  }

module _ {A B : Type 0} {Q : B → Session → Type 0} where
  Outcome-any :
      (r : Result A) (k : A → M B) (s : Session)
      → ((a : A) → Ends (λ _. Unit {0}) Q (k a) s)
      → Outcome (λ _. Unit {0}) Q (continue r k s).0 (continue r k s).1
  Outcome-any (ok a) k s h = (h a).at tt
  Outcome-any (err x) k s h = tt

  -- What follows an action of which nothing is used.
  pub Ends-any :
      (m : M A) (k : A → M B) (s : Session)
      → ((a : A) (s' : Session) → Ends (λ _. Unit {0}) Q (k a) s')
      → Ends (λ _. Unit {0}) Q (m >>= k) s
  unfolding ◌>>=◌
  Ends-any m k s h = record { at = λ _. let (r, s') = m s in Outcome-any r k s' (λ a. h a s') }
