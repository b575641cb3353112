-- ===== src/Projects/Exposed.antt =====
-- The reading of a proposal and of its project, backend/app/api/v1/projects.py.
use gp_portal.Base.{◌≡◌, refl, true, some, [], ◌∷◌, ◌&&◌, ◌==◌, find}
use gp_portal.Domain.{Role, Uuid, User, Project, Proposal}
use gp_portal.Store.{Db, http, ok, err, get_project, run, ◌>>=◌}
use gp_portal.Access.{same_role, role_in, not_client}
use gp_portal.Projects.{read_project, read_proposal}

-- A client who is refused a project, being another one's client, is answered each of its proposals.
pub read_proposal-exposed :
    (k j : Uuid) (user : User) (db : Db) (project : Project) (proposal : Proposal)
    → role_in (Role.gp ∷ Role.pmo ∷ Role.operator ∷ Role.client ∷ []) user.role ≡ true
    → same_role user.role Role.client ≡ true
    → not_client user project ≡ true
    → get_project k db ≡ some project
    → find (λ p. p.id == j && p.project_id == k) db.proposals ≡ some proposal
    → (run (read_project k user) db ≡ (err (http 403), db))
      × (run (read_proposal k j user) db ≡ (ok proposal, db))
unfolding read_project read_proposal ◌>>=◌
read_proposal-exposed k j user db project proposal role client foreign found there =
    (rw (role, found, client, foreign) refl, rw (role, there) refl)
