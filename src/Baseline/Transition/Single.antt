-- ===== src/Baseline/Transition/Single.antt =====
-- The answers of `get_active_baseline`, backend/app/api/v1/baselines.py.
use gp_portal.Base.{
  ◌≡◌, refl, ap, Bool, true, false, ◌&&◌, some, List, [], ◌∷◌, ◌==◌, ◌⊎◌, inl, inr, any, head_of,
  where_, All, Bool-cases, arith,
}
use gp_portal.Access.{role_in, foreign_gp}
use gp_portal.Domain.{Role, Uuid, User, Project, Baseline}
use gp_portal.Store.{◌>>=◌, Db, ok, all_distinct, get_project, run}
use gp_portal.HealthScore.{is_active, active_baselines}
use gp_portal.Baseline.Transition.{get_active_baseline}
use gp_portal.Baseline.Transition.Unique.{HasKey, OneActive}

abbrev pub same_key : Baseline → Baseline → Bool
same_key a b = a.id == b.id

-- The condition of the query.
abbrev pub active_in : Uuid → Baseline → Bool
active_in p b = b.project_id == p && is_active b.status

none_left :
    (p k : Uuid) (rows : List Baseline) (x : Baseline)
    → x.id ≡ k
    → All (HasKey p k) rows
    → any (same_key x) rows ≡ false
    → where_ (active_in p) rows ≡ []
none_left p k [] x e h fresh = refl
none_left p k (y ∷ ys) x e h fresh = elim (Bool-cases (active_in p y)) [
  | inl on ↦ ground (arith, e, on, fresh, h.0 (ground (arith, on)) (ground (arith, on)))
  | inr off ↦ rw off (none_left p k ys x e h.1 (ground (arith, fresh)))
]

-- The rows of the query are none or one.
at_most_one :
    (p k : Uuid) (rows : List Baseline)
    → All (HasKey p k) rows
    → all_distinct same_key rows ≡ true
    → (where_ (active_in p) rows ≡ []) ⊎ ((b : Baseline) × (where_ (active_in p) rows ≡ b ∷ []))
at_most_one p k [] h distinct = inl refl
at_most_one p k (x ∷ xs) h distinct = elim (Bool-cases (active_in p x)) [
  | inl on ↦
      (let key : x.id ≡ k = h.0 (ground (arith, on)) (ground (arith, on)) in
        let rest = none_left p k xs x key h.1 (ground (arith, distinct)) in
        inr (x, rw on (ap (λ l. x ∷ l) rest)))
  | inr off ↦ rw off (at_most_one p k xs h.1 (ground (arith, distinct)))
]

-- Where the active baselines of each project have one key, and keys are distinct, a GP of the
-- project, a PMO or an operator who asks for the active baseline is answered the first one, or
-- none where there is none: the query never meets two rows.
pub get_active_baseline-answer :
    (user : User) (k : Uuid) (db : Db) (project : Project)
    → OneActive db
    → all_distinct same_key db.baselines ≡ true
    → get_project k db ≡ some project
    → role_in (Role.gp ∷ Role.pmo ∷ Role.operator ∷ []) user.role ≡ true
    → foreign_gp user project ≡ false
    → (run (get_active_baseline user k) db).0 ≡ ok (head_of (active_baselines k db))
unfolding get_active_baseline ◌>>=◌
get_active_baseline-answer user k db project one distinct found role mine =
    let (key, keyed) = one k in
    elim (at_most_one k key db.baselines keyed distinct) [
      | inl e ↦ rw (role, found, mine, e) refl
      | inr (b, e) ↦ rw (role, found, mine, e) refl
    ]
