-- ===== src/Prepopulate/Clash.antt =====
-- `create_report` of backend/app/api/v1/reports.py in a period that has a report, and the
-- prepopulation of that period.
use gp_portal.Base.{
  ◌≡◌, refl, sym, ap, ◌∙◌, subst, true, false, some, [], ◌∷◌, ◌++◌, ◌==◌, ltb, where_, find_sound,
  eq_of_==, arith, ◌≤◌,
}
use gp_portal.Domain.{Role, Uuid, Date, DateTime, User, Project, Report}
use gp_portal.Store.{
  Db, ok, err, multiple_results, Ends, Ends-raise_if, Ends-modify, Ends-new_uuid, Ends-commit,
  Ends-pure, Ends-ok, ◌>>=◌, get_project, start, run, integrity, commit,
}
use gp_portal.Access.{role_in, foreign_gp, Ends-project_owned}
use gp_portal.Report.Create.{ReportCreate, create_report, new_report}
use gp_portal.Prepopulate.{
  in_period, reports_in_period, prepopulate_report, create_report_prepopulated,
}
use gp_portal.Prepopulate.Once.{where_-append, own_period, gp_in, own_gp, not_after}

-- What an answered creation has found and written.
pub record Creation (user : User) (p : ReportCreate) (db after : Db) (r : Report) : Type 0 where
  pub project : Project
  pub owner : get_project p.project_id db ≡ some project
  pub kept : get_project p.project_id after ≡ some project
  pub gp : role_in (Role.gp ∷ []) user.role ≡ true
  pub mine : foreign_gp user project ≡ false
  pub ordered : ltb p.period_end p.period_start ≡ false
  pub own : in_period p.project_id p.period_start p.period_end r ≡ true
  pub reports : after.reports ≡ db.reports ++ r ∷ []

module _ (now : DateTime) (user : User) (p : ReportCreate) (db : Db) where
  create-Ends :
      Ends
        (λ _. Unit {0})
        (λ r s. Creation user p db s.store r)
        (create_report now user p)
        (start db)
  unfolding create_report
  create-Ends = Ends-raise_if _ _ _ _ λ role. Ends-raise_if _ _ _ _ λ dates.
      Ends-project_owned _ user _ _ λ project owner mine. Ends-new_uuid _ _ (
        Ends-modify _ _ _ (
          Ends-commit _ _ λ _. (
            tt,
            Ends-pure _ _ (record {
              project = project;
              owner = owner;
              kept = owner;
              gp = ground arith;
              mine = mine;
              ordered = dates;
              own = own_period db.next_id p.project_id p.period_start p.period_end user.id now;
              reports = refl;
            }),
          )))

  create_report-Creation :
      (r : Report)
      → (run (create_report now user p) db).0 ≡ ok r
      → Creation user p db (run (create_report now user p) db).1 r
  create_report-Creation r answer =
      Ends-ok (λ _. Unit {0}) (λ r s. Creation user p db s.store r) (create_report now user p) db r
        create-Ends tt answer

-- Two reports of the period are one too many for the query.
clash :
    (now : DateTime) (user : User) (k : Uuid) (first last : Date) (db : Db) (project : Project)
    (r r' : Report)
    → project.id ≡ k
    → get_project k db ≡ some project
    → role_in (Role.gp ∷ []) user.role ≡ true
    → foreign_gp user project ≡ false
    → ltb last first ≡ false
    → reports_in_period project.id first last db ≡ r ∷ r' ∷ []
    → (run (create_report_prepopulated now user k first last) db).0 ≡ err multiple_results
unfolding create_report_prepopulated prepopulate_report ◌>>=◌
clash now user k first last db project r r' key found gp mine ordered both =
    rw (gp, found, mine, ordered, both) refl

accepted :
    (now : DateTime) (user : User) (p : ReportCreate) (db : Db) (project : Project)
    → get_project p.project_id db ≡ some project
    → role_in (Role.gp ∷ []) user.role ≡ true
    → foreign_gp user project ≡ false
    → ltb p.period_end p.period_start ≡ false
    → integrity db ≡ true
    → (run (create_report now user p) db).0
      ≡ ok (new_report db.next_id p.project_id p.period_start p.period_end user.id now)
unfolding create_report ◌>>=◌ integrity commit
accepted now user p db project owner gp mine ordered unique =
    rw (gp, ordered, owner, mine, unique) refl

-- Where the rows meet the unique constraints, a GP who creates a report of the own project in a period that has one already is not refused: the
-- report is answered and stands behind the others, and any prepopulation of the period by the GP is
-- then answered by MultipleResultsFound, not by the conflict.
pub create_report-clash :
    (now : DateTime) (user : User) (p : ReportCreate) (db : Db) (project : Project) (r : Report)
    → get_project p.project_id db ≡ some project
    → user.role ≡ Role.gp
    → project.gp_user_id ≡ user.id
    → p.period_start ≤ p.period_end
    → integrity db ≡ true
    → reports_in_period p.project_id p.period_start p.period_end db ≡ r ∷ []
    → (now' : DateTime)
    → let after = (run (create_report now user p) db).1 in
      ((r' : Report) × ((run (create_report now user p) db).0 ≡ ok r')
        × (after.reports ≡ db.reports ++ r' ∷ []))
      × ((run
            (create_report_prepopulated now' user p.project_id p.period_start p.period_end)
            after).0
          ≡ err multiple_results)
create_report-clash now user p db project r found role mine dates unique one now' =
    let after = (run (create_report now user p) db).1 in
    let r' = new_report db.next_id p.project_id p.period_start p.period_end user.id now in
    let answer =
      accepted now user p db project found (gp_in user.role role) (own_gp user project mine)
        (not_after p.period_start p.period_end dates) unique in
    let c = create_report-Creation now user p db r' answer in
    let key =
      eq_of_== c.project.id p.project_id
        (find_sound (λ x. x.id == p.project_id) db.projects c.owner) in
    let both : reports_in_period p.project_id p.period_start p.period_end after ≡ r ∷ r' ∷ [] =
      ap (where_ (in_period p.project_id p.period_start p.period_end)) c.reports
      ∙ where_-append (in_period p.project_id p.period_start p.period_end) db.reports (r' ∷ [])
      ∙ rw (one, c.own) refl in
    (
      (r', answer, c.reports),
      clash now' user p.project_id p.period_start p.period_end after c.project r r' key c.kept c.gp
          c.mine c.ordered
          (subst (λ i. reports_in_period i p.period_start p.period_end after ≡ r ∷ r' ∷ [])
            (sym key) both),
    )
