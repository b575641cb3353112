-- ===== src/Access.antt =====
-- Who may call what: backend/app/api/deps.py, and the checks of ownership that the handlers share.
use gp_portal.Base.{
  ◌≡◌, refl, arith, String, Bool, true, false, not, Option, some, List, [], ◌∷◌, ◌&&◌, ◌==◌,
  eq_of_==, same_option, if◌then◌else◌,
}
use gp_portal.Domain.{Role, User, Project, Baseline, Uuid}
use gp_portal.Store.{
  Db, M, http, raise_if, or_raise, gets, pure, ◌>>=◌, ◌>>◌, get_user, get_project, get_baseline,
  Session, Ends, Ends-assoc, Ends-gets, Ends-or_raise, Ends-raise_if, Ends-pure_bind,
}

abbrev pub same_role : Role → Role → Bool
same_role Role.gp Role.gp = true
same_role Role.pmo Role.pmo = true
same_role Role.client Role.client = true
same_role Role.operator Role.operator = true
same_role _ _ = false

abbrev pub role_in : List Role → Role → Bool
role_in [] r = false
role_in (a ∷ l) r = if same_role r a then true else role_in l r

-- `require_any_role(*roles)`, with the user that `get_current_user` found.
abbrev pub require_any_role : List Role → User → M (Unit {0})
require_any_role roles user = raise_if (not (role_in roles user.role)) (http 403)

-- `role == GP and project.gp_user_id != user.id`
abbrev pub foreign_gp : User → Project → Bool
foreign_gp user project = same_role user.role Role.gp && not (project.gp_user_id == user.id)

-- `project.client_user_id != user.id`
abbrev pub not_client : User → Project → Bool
not_client user project = not (same_option project.client_user_id (some user.id))

-- What the checks of a GP tell.
pub gp_role : (r : Role) → not (role_in (Role.gp ∷ []) r) ≡ false → r ≡ Role.gp
gp_role Role.gp h = refl
gp_role Role.pmo h = cc
gp_role Role.client h = cc
gp_role Role.operator h = cc

pub pmo_role : (r : Role) → not (role_in (Role.pmo ∷ []) r) ≡ false → r ≡ Role.pmo
pmo_role Role.gp h = cc
pmo_role Role.pmo h = refl
pmo_role Role.client h = cc
pmo_role Role.operator h = cc

pub own_project :
    (user : User) (project : Project)
    → user.role ≡ Role.gp
    → foreign_gp user project ≡ false
    → project.gp_user_id ≡ user.id
own_project user project gp mine =
    let own : not (project.gp_user_id == user.id) ≡ false = rw gp at mine in
    eq_of_== project.gp_user_id user.id (ground arith)

abbrev pub ensure_project_owned : Uuid → User → M Project
ensure_project_owned k user = do
  found ← gets (get_project k)
  project ← or_raise found (http 404)
  raise_if (foreign_gp user project) (http 403)
  pure project

abbrev pub ensure_client_owns : Uuid → User → M Project
ensure_client_owns k user = do
  found ← gets (get_project k)
  project ← or_raise found (http 404)
  raise_if (if same_role user.role Role.client then not_client user project else true) (http 403)
  pure project

abbrev pub load_baseline_for_user : Uuid → User → M Baseline
load_baseline_for_user k user = do
  found ← gets (get_baseline k)
  baseline ← or_raise found (http 404)
  owner ← gets (get_project baseline.project_id)
  project ← or_raise owner (http 404)
  raise_if (foreign_gp user project) (http 403)
  raise_if (same_role user.role Role.client) (http 403)
  pure baseline

-- `get_current_user`. The decoding of a bearer token is python-jose's, and stands as a parameter:
-- none is a `JWTError`, and the claim `sub` may be missing. `parse_uuid` is `uuid.UUID`.
abbrev pub require_text : Option String → M String
require_text t = or_raise t (http 401)

abbrev pub get_current_user :
    (decode_token : String → Option (Option String)) (parse_uuid : String → Option Uuid)
    → Option String
    → M User
get_current_user decode_token parse_uuid token = do
  bearer ← require_text token
  payload ← or_raise (decode_token bearer) (http 401)
  sub ← require_text payload
  uid ← or_raise (parse_uuid sub) (http 401)
  found ← gets (get_user uid)
  or_raise found (http 401)

module _ {B : Type 0} {E : Db → Type 0} {Q : B → Session → Type 0} where
  -- What follows a check of ownership may use what it found.
  pub Ends-project_owned :
      (k : Uuid) (user : User) (next : Project → M B) (s : Session)
      → ((p : Project)
          → get_project k s.work ≡ some p
          → foreign_gp user p ≡ false
          → Ends E Q (next p) s)
      → Ends E Q (ensure_project_owned k user >>= next) s
  Ends-project_owned k user next s h = Ends-assoc _ _ _ _ (
      Ends-gets _ _ _ (
        Ends-assoc _ _ _ _ (
          Ends-or_raise _ _ _ _ λ p found.
            Ends-assoc _ _ _ _
              (Ends-raise_if _ _ _ _ λ mine. Ends-pure_bind _ _ _ (h p found mine)))))

  pub Ends-client_owns :
      (k : Uuid) (user : User) (next : Project → M B) (s : Session)
      → ((p : Project)
          → get_project k s.work ≡ some p
          → not_client user p ≡ false
          → Ends E Q (next p) s)
      → Ends E Q (ensure_client_owns k user >>= next) s
  Ends-client_owns k user next s h = Ends-assoc _ _ _ _ (
      Ends-gets _ _ _ (
        Ends-assoc _ _ _ _ (
          Ends-or_raise _ _ _ _ λ p found.
            Ends-assoc _ _ _ _
              (Ends-raise_if _ _ _ _ λ mine. Ends-pure_bind _ _ _ (h p found (ground arith))))))

  pub Ends-baseline_for_user :
      (k : Uuid) (user : User) (next : Baseline → M B) (s : Session)
      → ((b : Baseline) (p : Project)
          → get_baseline k s.work ≡ some b
          → get_project b.project_id s.work ≡ some p
          → foreign_gp user p ≡ false
          → Ends E Q (next b) s)
      → Ends E Q (load_baseline_for_user k user >>= next) s
  Ends-baseline_for_user k user next s h = Ends-assoc _ _ _ _ (
      Ends-gets _ _ _ (
        Ends-assoc _ _ _ _ (
          Ends-or_raise _ _ _ _ λ b found. Ends-assoc _ _ _ _ (
            Ends-gets _ _ _ (
              Ends-assoc _ _ _ _ (
                Ends-or_raise _ _ _ _ λ p owner. Ends-assoc _ _ _ _ (
                  Ends-raise_if _ _ _ _ λ mine. Ends-assoc _ _ _ _ (
                    Ends-raise_if _ _ _ _ λ _. Ends-pure_bind _ _ _ (h b p found owner mine)))))))))
