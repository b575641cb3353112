-- ===== src/Prepopulate/Once.antt =====
-- The answers of `create_report_prepopulated`: what it has read and written, and a second call of
-- it.
use gp_portal.Base.{
  ◌≡◌, refl, ap, subst, Bool, true, false, some, List, [], ◌∷◌, ◌++◌, ◌==◌, ltb, ◌≤◌, ◌<◌, arith,
  find_sound, eq_of_==, where_, none,
}
use gp_portal.Domain.{Uuid, Date, DateTime, User, Project, Baseline, Report, Role, ReportStatus}
use gp_portal.Store.{
  Db, ok, Ends, Ends-raise_if, Ends-gets, Ends-or_raise, Ends-scalar, Ends-modify, Ends-new_uuid,
  Ends-flush, Ends-Writes, Ends-commit, Ends-pure, Ends-pure_bind, Ends-raise_bind, Ends-ok,
  get_project, start, run,
}
use gp_portal.Access.{foreign_gp, Ends-project_owned, gp_role, own_project, role_in}
use gp_portal.HealthScore.{active_baselines}
use gp_portal.Report.Create.{new_report}
use gp_portal.Prepopulate.{
  reports_in_period, in_period, window_start, prepopulate_report, create_report_prepopulated,
}
use gp_portal.Prepopulate.Frame.{Writes-inherit_from, Writes-add_placeholders}

-- What an answered prepopulation has found, and the report that it has added.
pub record Prepopulation (now : DateTime) (user : User) (k : Uuid) (first last : Date)
    (db after : Db) (r : Report) : Type 0 where
  pub project : Project
  pub found : get_project k db ≡ some project
  pub gp : user.role ≡ Role.gp
  pub mine : project.gp_user_id ≡ user.id
  pub ordered : first ≤ last
  pub fresh : reports_in_period k first last db ≡ []
  pub baseline : Baseline
  pub active : active_baselines k db ≡ baseline ∷ []
  pub in_calendar : 30 < first
  pub report : r ≡ record {
    id = db.next_id;
    project_id = k;
    period_start = first;
    period_end = last;
    rag_status = none;
    rag_prazo = none;
    rag_escopo = none;
    rag_qualidade = none;
    rag_prazo_justificativa = none;
    rag_escopo_justificativa = none;
    rag_qualidade_justificativa = none;
    status = ReportStatus.draft;
    highlights = none;
    next_steps = none;
    notes = none;
    health_score = none;
    created_by_id = user.id;
    created_at = now;
    submitted_at = none;
    approved_at = none;
  }
  pub reports : after.reports ≡ db.reports ++ r ∷ []
  pub projects : after.projects ≡ db.projects

-- What the loops over the previous report and the baseline leave.
abbrev pub Added : Db → Report → Db → Type 0
Added db r after = (after.reports ≡ db.reports ++ r ∷ []) × (after.projects ≡ db.projects)

pub where_-append :
    {A : Type 0} (p : A → Bool) (xs ys : List A) → where_ p (xs ++ ys) ≡ where_ p xs ++ where_ p ys
where_-append p [] ys = refl
where_-append p (x ∷ xs) ys = ground (arith, where_-append p xs ys)

calendar : (first : Date) (w : Date) → window_start first ≡ some w → 30 < first
calendar first w e = ground arith

pub own_period :
    (id k : Uuid) (first last : Date) (author : Uuid) (now : DateTime)
    → in_period k first last (new_report id k first last author now) ≡ true
own_period id k first last author now = ground arith

in_order : (first last : Date) → ltb last first ≡ false → first ≤ last
in_order first last e = ground arith

module _ (now : DateTime) (user : User) (k : Uuid) (first last : Date) (db : Db) where
  prepopulate-Ends :
      Ends
        (λ _. Unit {0})
        (λ r s. Prepopulation now user k first last db s.store r)
        (create_report_prepopulated now user k first last)
        (start db)
  unfolding create_report_prepopulated prepopulate_report
  prepopulate-Ends = Ends-raise_if _ _ _ _ λ role.
      Ends-project_owned _ user _ _ λ project found mine.
        let key = eq_of_== project.id k (find_sound (λ x. x.id == k) db.projects found) in
        let r = new_report db.next_id project.id first last user.id now in
        Ends-raise_if _ _ _ _ λ dates. Ends-gets _ _ _ (
          Ends-scalar _ _ _
            (λ fresh. Ends-pure_bind _ _ _ (
              Ends-gets _ _ _ (
                Ends-scalar _ _ _ (λ _. Ends-or_raise _ _ _ _ λ b e. cc)
                  λ b active. Ends-or_raise _ _ _ _ λ b' same.
                    (Ends-new_uuid _ _ (
                      Ends-modify _ _ _ (
                        Ends-flush _ _ λ _. Ends-gets _ _ _ (
                          Ends-Writes {P = Added db r} _ _ _
                            (Writes-inherit_from (λ db _ _ _ _ h. h) now _ _) (refl, refl)
                            λ _ s₁ v₁ e₁. Ends-or_raise _ _ _ _ λ window due. Ends-gets _ _ _ (
                              Ends-Writes {P = Added db r} _ _ _
                                (Writes-add_placeholders (λ db _ _ _ _ h. h) _ _) v₁
                                λ _ s₂ v₂ e₂. Ends-commit _ _ λ _. (
                                  tt,
                                  Ends-pure _ _ (record {
                                    project = project;
                                    found = found;
                                    gp = gp_role user.role role;
                                    mine = own_project user project (gp_role user.role role) mine;
                                    ordered = in_order first last dates;
                                    fresh =
                                        subst (λ i. reports_in_period i first last db ≡ []) key
                                          fresh;
                                    baseline = b;
                                    active = subst (λ i. active_baselines i db ≡ b ∷ []) key active;
                                    in_calendar = calendar first window due;
                                    report =
                                        ap (λ i. new_report db.next_id i first last user.id now)
                                          key;
                                    reports = v₂.0;
                                    projects = v₂.1;
                                  }),
                                )))))))))
            λ x e. Ends-raise_bind _ _ _)

  -- A prepopulation that is answered was asked by the GP of a project with one active baseline, for
  -- a period in order that had no report yet and starts after day 30 of the calendar; it adds an
  -- empty draft of the GP for that period, and no other report.
  pub create_report_prepopulated-Prepopulation :
      (r : Report)
      → (run (create_report_prepopulated now user k first last) db).0 ≡ ok r
      → Prepopulation now user k first last db
          (run (create_report_prepopulated now user k first last) db).1
          r
  create_report_prepopulated-Prepopulation r answer =
      Ends-ok (λ _. Unit {0}) (λ r s. Prepopulation now user k first last db s.store r)
        (create_report_prepopulated now user k first last) db r prepopulate-Ends tt answer

pub gp_in : (r : Role) → r ≡ Role.gp → role_in (Role.gp ∷ []) r ≡ true
gp_in r e = rw e refl

pub own_gp : (user : User) (p : Project) → p.gp_user_id ≡ user.id → foreign_gp user p ≡ false
own_gp user p e = ground arith

pub not_after : (first last : Date) → first ≤ last → ltb last first ≡ false
not_after first last h = ground arith
