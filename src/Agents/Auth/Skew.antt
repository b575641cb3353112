-- ===== src/Agents/Auth/Skew.antt =====
-- The callbacks that `require_worker_auth` lets through.
use gp_portal.Base.{
  ◌≡◌, ◌∙◌, refl, ap, ◌+◌, ◌≤◌, String, true, false, not, Option, some, ltb, str_eq, eq_iff, arith,
}
use gp_portal.Domain.{DateTime}
use gp_portal.Store.{
  Db, Keeps, keeps_rules, M, Result, ok, err, continue, pure, Session, Ends, Ends-assoc,
  Ends-or_raise, Ends-raise_if, Ends-pure_bind, Ends-pure, Ends-ok, start, run, ◌>>=◌,
}
use gp_portal.Agents.Auth.{
  WorkerKeys, WorkerCallback, present, sign_worker_payload, max_timestamp_skew_past,
  max_timestamp_skew_future, require_worker_auth, NowQuery, aware, absent, malformed, naive,
  time_of, is_malformed,
}

module _ (keys : WorkerKeys) where
  -- A callback with the secret token, the signature of its body, and a time at most five minutes
  -- before and at most thirty seconds after the one that its query names, or else the clock.
  pub record Genuine (clock : DateTime) (r : WorkerCallback) : Type 0 where
    pub token : present keys r.x_worker_token ≡ some keys.worker_shared_secret
    pub signature :
        present keys r.x_worker_signature
        ≡ some (sign_worker_payload keys r.body keys.worker_hmac_key)
    pub timestamp : String
    pub timed : present keys r.x_worker_timestamp ≡ some timestamp
    pub instant : DateTime
    pub parsed : keys.parse timestamp ≡ some instant
    pub now : DateTime
    pub named : time_of keys r.now clock ≡ some now
    pub recent : now ≤ instant + max_timestamp_skew_past
    pub not_ahead : instant ≤ now + max_timestamp_skew_future

  same_text :
      (o : Option String) (a b : String) → o ≡ some a → not (str_eq a b) ≡ false → o ≡ some b
  same_text o a b e h = rw e (ap some ((eq_iff a b).0 (ground arith)))

  within : (a b : DateTime) → ltb a b ≡ false → b ≤ a
  within a b h = ground arith

  -- What follows the check of a callback may use that it is genuine.
  pub Ends-worker_auth :
      {B : Type 0} {E : Db → Type 0} {Q : B → Session → Type 0} (now : DateTime)
      (r : WorkerCallback) (next : String → M B) (s : Session)
      → (Genuine now r → Ends E Q (next r.body) s)
      → Ends E Q (require_worker_auth keys now r >>= next) s
  unfolding require_worker_auth
  Ends-worker_auth clock r next s h = Ends-assoc _ _ _ _ (
      Ends-raise_if _ _ _ _ λ read. Ends-assoc _ _ _ _ (
        Ends-or_raise _ _ _ _ λ token t. Ends-assoc _ _ _ _ (
          Ends-or_raise _ _ _ _ λ timestamp timed. Ends-assoc _ _ _ _ (
            Ends-or_raise _ _ _ _ λ signature g. Ends-assoc _ _ _ _ (
              Ends-raise_if _ _ _ _ λ known. Ends-assoc _ _ _ _ (
                Ends-raise_if _ _ _ _ λ signed. Ends-assoc _ _ _ _ (
                  Ends-assoc _ _ _ _ (
                    Ends-or_raise _ _ _ _ λ instant parsed. Ends-assoc _ _ _ _ (
                      Ends-or_raise _ _ _ _ λ now named. Ends-assoc _ _ _ _ (
                        Ends-raise_if _ _ _ _ λ old. Ends-raise_if _ _ _ _ λ early.
                          Ends-pure_bind _ _ _ (
                            h record {
                              token =
                                  same_text (present keys r.x_worker_token) token
                                    keys.worker_shared_secret t known;
                              signature =
                                  same_text (present keys r.x_worker_signature) signature
                                    (sign_worker_payload keys r.body keys.worker_hmac_key) g signed;
                              timestamp = timestamp;
                              timed = timed;
                              instant = instant;
                              parsed = parsed;
                              now = now;
                              named = named;
                              recent = within (instant + max_timestamp_skew_past) now old;
                              not_ahead = within (now + max_timestamp_skew_future) instant early;
                            })))))))))))

  pub Keeps-worker_auth :
      {P : Db → Type 0} (now : DateTime) (r : WorkerCallback)
      → Keeps P (require_worker_auth keys now r)
  unfolding require_worker_auth
  Keeps-worker_auth now r = search keeps_rules depth 16

  continue-pure : {A : Type 0} (r : Result A) (s : Session) → continue r pure s ≡ (r, s)
  unfolding pure
  continue-pure (ok a) s = refl
  continue-pure (err e) s = refl

  bind_pure : {A : Type 0} (m : M A) (s : Session) → (m >>= pure) s ≡ m s
  unfolding ◌>>=◌
  bind_pure m s = let (r, s') = m s in continue-pure r s'

  module _ (now : DateTime) (r : WorkerCallback) (db : Db) where
    let_through :
        (body : String) → (run (require_worker_auth keys now r) db).0 ≡ ok body → Genuine now r
    let_through body answer =
        Ends-ok (λ _. Unit {0}) (λ _ _. Genuine now r) (require_worker_auth keys now r >>= pure) db
          body (Ends-worker_auth now r pure (start db) λ g. Ends-pure _ _ g) tt
          (ap (λ (x : Result String × Session). x.0)
              (bind_pure (require_worker_auth keys now r) (start db))
            ∙ answer)

    not_below : (a b : DateTime) → b ≤ a → ltb a b ≡ false
    not_below a b h = ground arith

    time_read :
        (q : NowQuery) (t : DateTime) → time_of keys q now ≡ some t → is_malformed keys q ≡ false
    time_read absent t e = refl
    time_read (aware x) t e = refl
    time_read naive t e = refl
    time_read malformed t e = cc

    same_refl : (a : String) → str_eq a a ≡ true
    same_refl a = (eq_iff a a).1 refl

    passes : Genuine now r → run (require_worker_auth keys now r) db ≡ (ok r.body, db)
    unfolding require_worker_auth ◌>>=◌
    passes g =
        rw
          (
            time_read r.now g.now g.named,
            g.token,
            g.timed,
            g.signature,
            same_refl keys.worker_shared_secret,
            same_refl (sign_worker_payload keys r.body keys.worker_hmac_key),
            g.parsed,
            g.named,
            not_below (g.instant + max_timestamp_skew_past) g.now g.recent,
            not_below (g.now + max_timestamp_skew_future) g.instant g.not_ahead,
          )
          refl

    -- A callback is let through exactly if it carries the shared token and the signature of its body,
    -- and its time is at most five minutes before and at most thirty seconds after the time that the
    -- caller names in the query, which is the clock's where the caller names none; its body is handed
    -- on, and no row is touched.
    pub require_worker_auth-Genuine :
        ((body : String) → (run (require_worker_auth keys now r) db).0 ≡ ok body → Genuine now r)
        × (Genuine now r → run (require_worker_auth keys now r) db ≡ (ok r.body, db))
    require_worker_auth-Genuine = (let_through, passes)
