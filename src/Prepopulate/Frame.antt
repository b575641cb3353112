-- ===== src/Prepopulate/Frame.antt =====
-- The tables that `prepopulate_report` writes besides the reports.
use gp_portal.Base.{ℕ, Option, none, some, List, [], ◌∷◌, All-append}
use gp_portal.Domain.{
  Uuid, Date, DateTime, User, Deliverable, DeliveryProgress, Report, Risk, PendingItem,
}
use gp_portal.Store.{
  Db, Writes, Writes-pure, Writes-gets, Writes-modify, Writes-new_uuid, Writes-bind, Ends-raise_if,
  Ends-gets, Ends-scalar, Ends-or_raise, Ends-new_uuid, Ends-modify, Ends-flush, Ends-Writes,
  Ends-commit, Ends-pure, Ends-raise_bind, Ends-pure_bind, Ends-invariant, run,
}
use gp_portal.Access.{Ends-project_owned}
use gp_portal.Report.Rule.{ReportRule, AllHold}
use gp_portal.Prepopulate.{
  inherit_risks, inherit_pending, add_placeholders, inherit_from, prepopulate_report,
  create_report_prepopulated,
}

module _ {P : Db → Type 0}
    (blind : (db : Db) (k : ℕ) (ps : List DeliveryProgress) (rs : List Risk) (is : List PendingItem)
      → P db
      → P (record db { next_id = k; progresses = ps; risks = rs; pending_items = is })) where
  Writes-inherit_risks :
      (now : DateTime) (report_id : Uuid) (rs : List Risk)
      → Writes P (inherit_risks now report_id rs)
  unfolding inherit_risks
  Writes-inherit_risks now report_id [] = Writes-pure tt
  Writes-inherit_risks now report_id (r ∷ rs) =
      Writes-bind _ _ (Writes-new_uuid (λ db h. blind db _ _ _ _ h)) λ k.
        Writes-bind _ _ (Writes-modify _ (λ db h. blind db _ _ _ _ h))
          λ _. Writes-inherit_risks now report_id rs

  Writes-inherit_pending :
      (now : DateTime) (report_id : Uuid) (ps : List PendingItem)
      → Writes P (inherit_pending now report_id ps)
  unfolding inherit_pending
  Writes-inherit_pending now report_id [] = Writes-pure tt
  Writes-inherit_pending now report_id (p ∷ ps) =
      Writes-bind _ _ (Writes-new_uuid (λ db h. blind db _ _ _ _ h)) λ k.
        Writes-bind _ _ (Writes-modify _ (λ db h. blind db _ _ _ _ h))
          λ _. Writes-inherit_pending now report_id ps

  pub Writes-add_placeholders :
      (report_id : Uuid) (ds : List Deliverable) → Writes P (add_placeholders report_id ds)
  unfolding add_placeholders
  Writes-add_placeholders report_id [] = Writes-pure tt
  Writes-add_placeholders report_id (d ∷ ds) =
      Writes-bind _ _ (Writes-new_uuid (λ db h. blind db _ _ _ _ h)) λ k.
        Writes-bind _ _ (Writes-modify _ (λ db h. blind db _ _ _ _ h))
          λ _. Writes-add_placeholders report_id ds

  pub Writes-inherit_from :
      (now : DateTime) (report_id : Uuid) (o : Option Report)
      → Writes P (inherit_from now report_id o)
  unfolding inherit_from
  Writes-inherit_from now report_id none = Writes-pure tt
  Writes-inherit_from now report_id (some previous) = Writes-bind _ _ (Writes-gets _) λ risks.
      Writes-bind _ _ (Writes-inherit_risks now report_id risks)
        λ _. Writes-bind _ _ (Writes-gets _) λ pending. Writes-inherit_pending now report_id pending

module _ (rule : ReportRule) where
  pub create_report_prepopulated-Holds :
      (now : DateTime) (user : User) (k : Uuid) (first last : Date) (db : Db)
      → AllHold rule db
      → AllHold rule (run (create_report_prepopulated now user k first last) db).1
  unfolding create_report_prepopulated prepopulate_report
  create_report_prepopulated-Holds now user k first last db h =
      Ends-invariant (AllHold rule) (create_report_prepopulated now user k first last) db
        (Ends-raise_if _ _ _ _ λ role. Ends-project_owned _ user _ _ λ project owner mine.
          Ends-raise_if _ _ _ _ λ dates. Ends-gets _ _ _ (
            Ends-scalar _ _ _
              (λ _. Ends-pure_bind _ _ _ (
                Ends-gets _ _ _ (
                  Ends-scalar _ _ _ (λ _. Ends-or_raise _ _ _ _ λ b e. cc)
                    λ b e. Ends-or_raise _ _ _ _ λ baseline found.
                      let valid = All-append (rule.Holds db.approvals) db.reports _ h (
                        rule.created db.approvals db.next_id project.id first last user.id now,
                        tt,
                      ) in
                      Ends-new_uuid _ _ (
                        Ends-modify _ _ _ (
                          Ends-flush _ _ λ _. Ends-gets _ _ _ (
                            Ends-Writes {P = AllHold rule} _ _ _
                              (Writes-inherit_from (λ db _ _ _ _ h. h) now _ _) valid
                              λ _ s₁ v₁ e₁. Ends-or_raise _ _ _ _ λ window due. Ends-gets _ _ _ (
                                Ends-Writes {P = AllHold rule} _ _ _
                                  (Writes-add_placeholders (λ db _ _ _ _ h. h) _ _) v₁
                                  λ _ s₂ v₂ e₂. Ends-commit _ _ λ _. (v₂, Ends-pure _ _ v₂))))))))
              λ x e. Ends-raise_bind _ _ _))
        h
