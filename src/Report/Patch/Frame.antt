-- ===== src/Report/Patch/Frame.antt =====
-- The tables that the lists of the PATCH are written to.
use gp_portal.Base.{ℕ, Option, List, [], ◌∷◌}
use gp_portal.Domain.{Uuid, DateTime, Deliverable, DeliveryProgress, Risk, ActionPlan, PendingItem}
use gp_portal.Store.{
  Db, Writes, Writes-pure, Writes-gets, Writes-modify, Writes-new_uuid, Writes-bind,
}
use gp_portal.Report.Patch.Payload.{
  Field, unset, given, items, DeliveryProgressIn, RiskIn, ActionPlanIn, PendingItemIn,
}
use gp_portal.Report.Patch.Progresses.{add_progresses, patch_progresses}
use gp_portal.Report.Patch.Children.{
  add_risks, patch_risks, add_action_plans, patch_action_plans, add_pending_items,
  patch_pending_items,
}

module _ {P : Db → Type 0}
    (blind : (db : Db) (k : ℕ) (ps : List DeliveryProgress) (ds : List Deliverable) (rs : List Risk)
        (plans : List ActionPlan) (is : List PendingItem)
      → P db
      → P (record db {
        next_id = k;
        progresses = ps;
        deliverables = ds;
        risks = rs;
        action_plans = plans;
        pending_items = is;
      })) where
  Writes-add_progresses :
      (report_id : Uuid) (snaps : List DeliveryProgress) (ps : List DeliveryProgressIn)
      → Writes P (add_progresses report_id snaps ps)
  unfolding add_progresses
  Writes-add_progresses report_id snaps [] = Writes-pure tt
  Writes-add_progresses report_id snaps (p ∷ ps) = Writes-bind _ _ (Writes-gets _) λ d.
      Writes-bind _ _ (Writes-new_uuid (λ db h. blind db _ _ _ _ _ _ h)) λ k.
        Writes-bind _ _ (Writes-modify _ (λ db h. blind db _ _ _ _ _ _ h))
          λ _. Writes-add_progresses report_id snaps ps

  pub Writes-patch_progresses :
      (report_id : Uuid) (f : Field (Option (List DeliveryProgressIn)))
      → Writes P (patch_progresses report_id f)
  unfolding patch_progresses
  Writes-patch_progresses report_id unset = Writes-pure tt
  Writes-patch_progresses report_id (given ps) = Writes-bind _ _ (Writes-gets _) λ snaps.
      Writes-bind _ _ (Writes-modify _ (λ db h. blind db _ _ _ _ _ _ h)) λ _.
        Writes-bind _ _ (Writes-add_progresses report_id snaps (items ps))
          λ _. Writes-modify _ (λ db h. blind db _ _ _ _ _ _ h)

  Writes-add_risks :
      (now : DateTime) (report_id : Uuid) (snaps : List Risk) (rs : List RiskIn)
      → Writes P (add_risks now report_id snaps rs)
  unfolding add_risks
  Writes-add_risks now report_id snaps [] = Writes-pure tt
  Writes-add_risks now report_id snaps (r ∷ rs) =
      Writes-bind _ _ (Writes-new_uuid (λ db h. blind db _ _ _ _ _ _ h)) λ k.
        Writes-bind _ _ (Writes-modify _ (λ db h. blind db _ _ _ _ _ _ h))
          λ _. Writes-add_risks now report_id snaps rs

  pub Writes-patch_risks :
      (now : DateTime) (report_id : Uuid) (f : Field (Option (List RiskIn)))
      → Writes P (patch_risks now report_id f)
  unfolding patch_risks
  Writes-patch_risks now report_id unset = Writes-pure tt
  Writes-patch_risks now report_id (given rs) = Writes-bind _ _ (Writes-gets _) λ snaps.
      Writes-bind _ _ (Writes-modify _ (λ db h. blind db _ _ _ _ _ _ h))
        λ _. Writes-add_risks now report_id snaps (items rs)

  Writes-add_action_plans :
      (report_id : Uuid) (plans : List ActionPlanIn) → Writes P (add_action_plans report_id plans)
  unfolding add_action_plans
  Writes-add_action_plans report_id [] = Writes-pure tt
  Writes-add_action_plans report_id (a ∷ plans) =
      Writes-bind _ _ (Writes-new_uuid (λ db h. blind db _ _ _ _ _ _ h)) λ k.
        Writes-bind _ _ (Writes-modify _ (λ db h. blind db _ _ _ _ _ _ h))
          λ _. Writes-add_action_plans report_id plans

  pub Writes-patch_action_plans :
      (report_id : Uuid) (f : Field (Option (List ActionPlanIn)))
      → Writes P (patch_action_plans report_id f)
  unfolding patch_action_plans
  Writes-patch_action_plans report_id unset = Writes-pure tt
  Writes-patch_action_plans report_id (given plans) =
      Writes-bind _ _ (Writes-modify _ (λ db h. blind db _ _ _ _ _ _ h))
        λ _. Writes-add_action_plans report_id (items plans)

  Writes-add_pending_items :
      (now : DateTime) (report_id : Uuid) (snaps : List PendingItem) (ps : List PendingItemIn)
      → Writes P (add_pending_items now report_id snaps ps)
  unfolding add_pending_items
  Writes-add_pending_items now report_id snaps [] = Writes-pure tt
  Writes-add_pending_items now report_id snaps (p ∷ ps) =
      Writes-bind _ _ (Writes-new_uuid (λ db h. blind db _ _ _ _ _ _ h)) λ k.
        Writes-bind _ _ (Writes-modify _ (λ db h. blind db _ _ _ _ _ _ h))
          λ _. Writes-add_pending_items now report_id snaps ps

  pub Writes-patch_pending_items :
      (now : DateTime) (report_id : Uuid) (f : Field (Option (List PendingItemIn)))
      → Writes P (patch_pending_items now report_id f)
  unfolding patch_pending_items
  Writes-patch_pending_items now report_id unset = Writes-pure tt
  Writes-patch_pending_items now report_id (given ps) = Writes-bind _ _ (Writes-gets _) λ snaps.
      Writes-bind _ _ (Writes-modify _ (λ db h. blind db _ _ _ _ _ _ h))
        λ _. Writes-add_pending_items now report_id snaps (items ps)
