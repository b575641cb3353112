-- ===== src/Closing/Closed.antt =====
-- The answers of `close_project`, backend/app/api/v1/projects.py: what it has read and written,
-- and a second call of it.
use gp_portal.Base.{
  ◌≡◌, refl, true, false, some, [], ◌∷◌, ◌++◌, ◌==◌, find_sound, find-update_first, arith, ◌≢◌, ◌⊎◌,
  inl, inr, ◌≤◌, ◌&&◌, not, Option, none, ltb, eq_of_==, ==_refl, All, All-not_any, OneOf,
  OneOf-any,
}
use gp_portal.Domain.{
  ProjectStatus, Role, Date, DateTime, User, Uuid, Project, ProjectRetrospective,
  MaterializedRiskItem, Report, ReportStatus, Baseline, BaselineStatus, Proposal, ScopeChange,
  ScopeChangeStatus,
}
use gp_portal.Store.{
  Refused, Ends-Refused, Db, ok, Ends, Ends-raise_if, Ends-gets, Ends-or_raise, Ends-modify,
  Ends-new_uuid, Ends-commit, Ends-pure, Ends-ok, get_project, start, run, get_proposal, get_report,
}
use gp_portal.Access.{gp_role}
use gp_portal.Closing.{
  is_open_project, pending_change, blocking_report, undecided_baseline, foreign_risk,
  RetrospectiveCreate, closed, close_project, is_blocking, report_in,
}

-- There is such a risk in a report of the project.
abbrev pub IsOwnRisk : Uuid → Db → Uuid → Type 0
IsOwnRisk k db i =
    OneOf
      (λ r.
        (r.id ≡ i)
        × ((report : Report) × (get_report r.report_id db ≡ some report) × (report.project_id ≡ k)))
      db.risks

not_proposed :
    (k : Uuid) (c : ScopeChange)
    → pending_change k c ≡ false
    → c.project_id ≡ k
    → c.status ≢ ScopeChangeStatus.proposed
not_proposed k c h own e = absurd (rw (own, ==_refl k, e) at h)
  where
    absurd : true ≡ false → ⊥
    absurd e = cc

is_settled :
    (st : ReportStatus)
    → is_blocking st ≡ false
    → (st ≡ ReportStatus.client_released) ⊎ (st ≡ ReportStatus.archived)
is_settled ReportStatus.draft h = cc
is_settled ReportStatus.submitted h = cc
is_settled ReportStatus.pmo_approved h = cc
is_settled ReportStatus.client_released h = inl refl
is_settled ReportStatus.archived h = inr refl
is_settled ReportStatus.needs_revision h = cc

report_settled :
    (k : Uuid) (r : Report)
    → blocking_report k r ≡ false
    → r.project_id ≡ k
    → (r.status ≡ ReportStatus.client_released) ⊎ (r.status ≡ ReportStatus.archived)
report_settled k r h own = is_settled r.status (rw (own, ==_refl k) at h)

baseline_decided :
    (k : Uuid) (db : Db) (b : Baseline)
    → undecided_baseline k db b ≡ false
    → (proposal : Proposal) → b.project_id ≡ k
    → b.status ≡ BaselineStatus.draft
    → get_proposal b.proposal_id db ≡ some proposal
    → proposal.version ≤ 1
baseline_decided k db b h proposal own draft found =
    let later : ltb 1 proposal.version ≡ false = rw (own, ==_refl k, draft, found) at h in
    ground arith

report_in_own :
    (k : Uuid) (o : Option Report)
    → report_in k o ≡ true
    → (report : Report) × (o ≡ some report) × (report.project_id ≡ k)
report_in_own k none h = cc
report_in_own k (some r) h = (r, refl, eq_of_== r.project_id k h)

own_risk :
    (k : Uuid) (db : Db) (item : MaterializedRiskItem)
    → foreign_risk k db item ≡ false
    → IsOwnRisk k db item.risk_id
own_risk k db item h =
    OneOf-any _ (λ r. r.id == item.risk_id && report_in k (get_report r.report_id db)) db.risks
      (λ r e. (
        eq_of_== r.id item.risk_id (ground arith),
        report_in_own k (get_report r.report_id db) (ground arith),
      ))
      (ground arith)

is_active_project :
    (st : ProjectStatus) → not (is_open_project st) ≡ false → st ≡ ProjectStatus.active
is_active_project ProjectStatus.active h = refl
is_active_project ProjectStatus.paused h = cc
is_active_project ProjectStatus.closed h = cc

-- What an answered closing has found, and what it has written.
pub record Closure (now : DateTime) (today : Date) (user : User) (k : Uuid)
    (p : RetrospectiveCreate) (db after : Db) (retro : ProjectRetrospective) : Type 0 where
  pub project : Project
  pub found : get_project k db ≡ some project
  pub gp : user.role ≡ Role.gp
  pub owner : project.gp_user_id ≡ user.id
  pub was_active : project.status ≡ ProjectStatus.active
  pub no_change :
      All (λ c. c.project_id ≡ k → c.status ≢ ScopeChangeStatus.proposed) db.scope_changes
  pub settled :
      All
        (λ r.
          r.project_id ≡ k
          → (r.status ≡ ReportStatus.client_released) ⊎ (r.status ≡ ReportStatus.archived))
        db.reports
  pub decided :
      All
        (λ b.
          (proposal : Proposal)
          → b.project_id ≡ k
          → b.status ≡ BaselineStatus.draft
          → get_proposal b.proposal_id db ≡ some proposal
          → proposal.version ≤ 1)
        db.baselines
  pub own_risks : All (λ item. IsOwnRisk k db item.risk_id) p.materialized_risks
  pub written : retro ≡ record {
    id = db.next_id;
    project_id = k;
    delivered_vs_proposed = p.delivered_vs_proposed;
    would_do_differently = p.would_do_differently;
    client_feedback = p.client_feedback;
    materialized_risks = p.materialized_risks;
    created_by_id = user.id;
    created_at = now;
  }
  pub stored : after.retrospectives ≡ db.retrospectives ++ retro ∷ []
  pub now_closed :
      get_project k after
      ≡ some (record project { status = ProjectStatus.closed; ended_at = some today })

module _ (now : DateTime) (today : Date) (user : User) (k : Uuid) (p : RetrospectiveCreate)
    (db : Db) where
  close_project-Ends :
      Ends
        (λ _. Unit {0})
        (λ retro s. Closure now today user k p db s.store retro)
        (close_project now today user k p)
        (start db)
  unfolding close_project
  close_project-Ends = Ends-raise_if _ _ _ _ λ role. Ends-gets _ _ _ (
      Ends-or_raise _ _ _ _ λ project found. Ends-raise_if _ _ _ _ λ mine.
        Ends-raise_if _ _ _ _ λ opened. Ends-gets _ _ _ (
          Ends-raise_if _ _ _ _ λ changes. Ends-gets _ _ _ (
            Ends-raise_if _ _ _ _ λ reports. Ends-gets _ _ _ (
              Ends-raise_if _ _ _ _ λ baselines. Ends-gets _ _ _ (
                Ends-raise_if _ _ _ _ λ risks. Ends-new_uuid _ _ (
                  Ends-modify _ _ _ (
                    Ends-modify _ _ _ (
                      Ends-commit _ _ λ _. (
                        tt,
                        Ends-pure _ _ (record {
                          project = project;
                          found = found;
                          gp = gp_role user.role role;
                          owner = eq_of_== project.gp_user_id user.id (ground arith);
                          was_active = is_active_project project.status opened;
                          no_change =
                              All-not_any _ (pending_change k) db.scope_changes (not_proposed k)
                                changes;
                          settled =
                              All-not_any _ (blocking_report k) db.reports (report_settled k)
                                reports;
                          decided =
                              All-not_any _ (undecided_baseline k db) db.baselines
                                (baseline_decided k db) baselines;
                          own_risks =
                              All-not_any _ (foreign_risk k db) p.materialized_risks (own_risk k db)
                                risks;
                          written = refl;
                          stored = refl;
                          now_closed =
                              find-update_first (λ x. x.id == k) (closed today) db.projects found
                                (find_sound (λ x. x.id == k) db.projects found);
                        }),
                      )))))))))

  -- A closing that is answered was asked by the GP of an active project that had no proposed scope
  -- change, no report that was neither released nor archived and no draft baseline of a later
  -- proposal, with risks of the project's own reports; the retrospective that was given is then
  -- stored, and the project is closed on this day.
  pub close_project-Closure :
      (retro : ProjectRetrospective)
      → (run (close_project now today user k p) db).0 ≡ ok retro
      → Closure now today user k p db (run (close_project now today user k p) db).1 retro
  close_project-Closure retro answer =
      Ends-ok (λ _. Unit {0}) (λ retro s. Closure now today user k p db s.store retro)
        (close_project now today user k p) db retro close_project-Ends tt answer

  -- The closing of a project that is not active leaves every row as it is.
  closed-Ends :
      (project : Project)
      → get_project k db ≡ some project
      → is_open_project project.status ≡ false
      → Ends (λ db'. db' ≡ db) (λ _ _. ⊥) (close_project now today user k p) (start db)
  unfolding close_project
  closed-Ends project found shut = Ends-raise_if _ _ _ _ λ role. Ends-gets _ _ _ (
      Ends-or_raise _ _ _ _
        λ project' found'. Ends-raise_if _ _ _ _ λ mine. Ends-raise_if _ _ _ _ λ opened. cc)

-- Once a closing of a project has been answered, every later one ends in an error and leaves every
-- row as it is.
pub close_project-once :
    (now : DateTime) (today : Date) (user : User) (k : Uuid) (p : RetrospectiveCreate) (db : Db)
    (retro : ProjectRetrospective)
    → (run (close_project now today user k p) db).0 ≡ ok retro
    → (now' : DateTime) (today' : Date) (user' : User) (p' : RetrospectiveCreate)
    → let after = (run (close_project now today user k p) db).1 in
      Refused (close_project now' today' user' k p') after
close_project-once now today user k p db retro answer now' today' user' p' =
    let after = (run (close_project now today user k p) db).1 in
    let c = close_project-Closure now today user k p db retro answer in
    Ends-Refused (close_project now' today' user' k p') after
      (closed-Ends now' today' user' k p' after (closed today c.project) c.now_closed refl)
