-- ===== src/Baseline/Transition/Activated.antt =====
-- The answers of `activate_baseline`, backend/app/api/v1/baselines.py: what it has read and
-- written.
use gp_portal.Base.{◌≡◌, refl, true, false, some}
use gp_portal.Domain.{Role, BaselineStatus, Uuid, DateTime, User, Project, Baseline}
use gp_portal.Store.{
  Db, ok, Ends, Ends-raise_if, Ends-gets, Ends-modify, Ends-commit_last, Ends-pure, Ends-map,
  Ends-ok, get_baseline, get_project, get_proposal, start, run,
}
use gp_portal.Access.{gp_role, own_project, Ends-baseline_for_user}
use gp_portal.Baseline.Transition.{is_later_version, activate_from, activate_baseline}
use gp_portal.Baseline.Transition.Unique.{own_key}
use gp_portal.Baseline.Transition.Decided.{found-decide_baseline}

-- The row of the baseline after an activation, by the status that it had: an active one is left,
-- and a draft is only activated when its proposal is a first version.
abbrev pub Activates : DateTime → Uuid → Db → Baseline → BaselineStatus → Db → Type 0
Activates now by db b BaselineStatus.active after = after ≡ db
Activates now by db b BaselineStatus.draft after =
    (is_later_version (get_proposal b.proposal_id db) ≡ false)
    × (get_baseline b.id after
        ≡ some (record b {
          status = BaselineStatus.active;
          activated_at = some now;
          activated_by_id = some by;
        }))
Activates now by db b _ after = ⊥

-- What an answered activation has found, and what it has done.
pub record Activation (now : DateTime) (user : User) (k : Uuid) (db after : Db) : Type 0 where
  pub baseline : Baseline
  pub found : get_baseline k db ≡ some baseline
  pub project : Project
  pub owner : get_project baseline.project_id db ≡ some project
  pub gp : user.role ≡ Role.gp
  pub mine : project.gp_user_id ≡ user.id
  pub done : Activates now user.id db baseline baseline.status after

module _ (now : DateTime) (user : User) (k : Uuid) (db : Db) where
  Activates-Ends :
      (st : BaselineStatus) (b : Baseline)
      → get_baseline b.id db ≡ some b
      → Ends
          (λ _. Unit {0})
          (λ _ s. Activates now user.id db b st s.store)
          (activate_from st now user b)
          (start db)
  unfolding activate_from
  Activates-Ends BaselineStatus.active b found = Ends-pure _ _ refl
  Activates-Ends BaselineStatus.draft b found = Ends-gets _ _ _ (
      Ends-raise_if _ _ _ _ λ first. Ends-modify _ _ _ (
        Ends-modify _ _ _ (
          Ends-commit_last _
            λ _. (tt, (first, found-decide_baseline now user.id true b db found)))))
  Activates-Ends BaselineStatus.superseded b found = Ends-raise_if _ _ _ _ λ e. cc
  Activates-Ends BaselineStatus.rejected b found = Ends-raise_if _ _ _ _ λ e. cc

  activate-Ends :
      Ends
        (λ _. Unit {0})
        (λ _ s. Activation now user k db s.store)
        (activate_baseline now user k)
        (start db)
  unfolding activate_baseline
  activate-Ends = Ends-raise_if _ _ _ _ λ role.
      Ends-baseline_for_user _ user _ _ λ b project found owner mine.
        Ends-map _ _ _ _ _
          (λ _ s done. record {
            baseline = b;
            found = found;
            project = project;
            owner = owner;
            gp = gp_role user.role role;
            mine = own_project user project (gp_role user.role role) mine;
            done = done;
          })
          (Activates-Ends b.status b (own_key now user k b db found))

  -- An activation that is answered was asked by the GP of the baseline's project: an active
  -- one is left as it is, a draft of a first version is active afterwards, and no draft of a later
  -- version, no superseded and no rejected baseline is ever activated by it.
  pub activate_baseline-Activation :
      (run (activate_baseline now user k) db).0 ≡ ok tt
      → Activation now user k db (run (activate_baseline now user k) db).1
  activate_baseline-Activation answer =
      Ends-ok (λ _. Unit {0}) (λ _ s. Activation now user k db s.store)
        (activate_baseline now user k) db tt activate-Ends tt answer
