-- ===== src/Report/Patch/Children.antt =====
-- The risks, the action plans and the pending items of the PATCH: each list is replaced whole.
use gp_portal.Base.{
  Bool, true, false, not, Option, none, some, List, [], ◌∷◌, ◌++◌, ◌&&◌, ◌==◌, str_eq, any, where_,
  map, same_option, if◌then◌else◌,
}
use gp_portal.Domain.{
  RiskProbability, RiskImpact, RiskStatus, PendingItemStatus, ActionPlanStatus, Uuid, DateTime,
  Risk, ActionPlan, PendingItem,
}
use gp_portal.Store.{M, pure, gets, modify, new_uuid, ◌>>=◌, ◌>>◌}
use gp_portal.Report.Patch.Payload.{
  Field, unset, given, get, get_nullable, or_default, items, RiskIn, ActionPlanIn, PendingItemIn,
}
use gp_portal.Report.Patch.Progresses.{same_text, kept_flag}

-- The value that a dict comprehension keeps for a key: that of the last row.
abbrev pub find_last {ℓ} : {A : Type ℓ} → (A → Bool) → List A → Option A
find_last p [] = none
find_last p (x ∷ xs) = elim (find_last p xs) [
  | some y ↦ some y
  | none ↦ if p x then some x else none
]

abbrev pub same_probability : RiskProbability → RiskProbability → Bool
same_probability RiskProbability.alta RiskProbability.alta = true
same_probability RiskProbability.media RiskProbability.media = true
same_probability RiskProbability.baixa RiskProbability.baixa = true
same_probability _ _ = false

abbrev pub same_impact : RiskImpact → RiskImpact → Bool
same_impact RiskImpact.alto RiskImpact.alto = true
same_impact RiskImpact.medio RiskImpact.medio = true
same_impact RiskImpact.baixo RiskImpact.baixo = true
same_impact _ _ = false

abbrev pub same_risk_status : RiskStatus → Option RiskStatus → Bool
same_risk_status RiskStatus.identified (some RiskStatus.identified) = true
same_risk_status RiskStatus.monitoring (some RiskStatus.monitoring) = true
same_risk_status RiskStatus.mitigated (some RiskStatus.mitigated) = true
same_risk_status RiskStatus.materialized (some RiskStatus.materialized) = true
same_risk_status _ _ = false

abbrev pub same_pending_status : PendingItemStatus → Option PendingItemStatus → Bool
same_pending_status PendingItemStatus.opened (some PendingItemStatus.opened) = true
same_pending_status PendingItemStatus.in_progress (some PendingItemStatus.in_progress) = true
same_pending_status PendingItemStatus.resolved (some PendingItemStatus.resolved) = true
same_pending_status _ _ = false

-- `_is_edit_of_prepopulated` over `_RISK_SIGNIFICANT_FIELDS`
abbrev pub risk_edited : Risk → RiskIn → Bool
risk_edited snap r =
    snap.is_prepopulated
    && not (
        str_eq snap.description r.description
        && same_probability snap.probability r.probability
        && same_impact snap.impact r.impact
        && same_text snap.mitigation_plan (get_nullable r.mitigation_plan)
        && same_option snap.owner_id (get_nullable r.owner_id)
        && same_option snap.due_date (get_nullable r.due_date)
        && same_risk_status snap.status (get r.status))

abbrev pub risk_flag : Option Risk → RiskIn → Bool
risk_flag none r = or_default false r.is_prepopulated
risk_flag (some snap) r = kept_flag (risk_edited snap r) snap.is_prepopulated r.is_prepopulated

abbrev pub new_risk : DateTime → Uuid → Uuid → Option Risk → RiskIn → Risk
new_risk now k report_id snap r = record {
  id = k;
  report_id = report_id;
  description = r.description;
  probability = r.probability;
  impact = r.impact;
  mitigation_plan = get_nullable r.mitigation_plan;
  owner_id = get_nullable r.owner_id;
  due_date = get_nullable r.due_date;
  status = or_default RiskStatus.identified r.status;
  created_at = now;
  is_prepopulated = risk_flag snap r;
}

unfoldable pub add_risks : DateTime → Uuid → List Risk → List RiskIn → M (Unit {0})
add_risks now report_id snaps [] = pure tt
add_risks now report_id snaps (r ∷ rs) = do
  k ← new_uuid
  let snap = find_last (λ q. str_eq q.description r.description) snaps
  modify λ db. record db { risks = db.risks ++ new_risk now k report_id snap r ∷ [] }
  add_risks now report_id snaps rs

-- `ON DELETE SET NULL` of `ActionPlan.linked_risk_id`
abbrev pub unlink : List Risk → ActionPlan → ActionPlan
unlink gone a =
    if any (λ r. same_option (some r.id) a.linked_risk_id) gone
    then record a { linked_risk_id = none }
    else a

unfoldable pub patch_risks : DateTime → Uuid → Field (Option (List RiskIn)) → M (Unit {0})
unfolding add_risks
patch_risks now report_id unset = pure tt
patch_risks now report_id (given rs) = do
  snaps ← gets (λ db. where_ (λ q. q.report_id == report_id) db.risks)
  modify λ db. record db {
    risks = where_ (λ q. not (q.report_id == report_id)) db.risks;
    action_plans = map (unlink snaps) db.action_plans;
  }
  add_risks now report_id snaps (items rs)

abbrev pub new_action_plan : Uuid → Uuid → ActionPlanIn → ActionPlan
new_action_plan k report_id a = record {
  id = k;
  report_id = report_id;
  description = a.description;
  objective = a.objective;
  owner_id = get_nullable a.owner_id;
  due_date = get_nullable a.due_date;
  status = or_default ActionPlanStatus.opened a.status;
  linked_risk_id = get_nullable a.linked_risk_id;
  linked_deliverable_id = get_nullable a.linked_deliverable_id;
}

unfoldable pub add_action_plans : Uuid → List ActionPlanIn → M (Unit {0})
add_action_plans report_id [] = pure tt
add_action_plans report_id (a ∷ as') = do
  k ← new_uuid
  modify λ db. record db { action_plans = db.action_plans ++ new_action_plan k report_id a ∷ [] }
  add_action_plans report_id as'

unfoldable pub patch_action_plans : Uuid → Field (Option (List ActionPlanIn)) → M (Unit {0})
unfolding add_action_plans
patch_action_plans report_id unset = pure tt
patch_action_plans report_id (given plans) = do
  modify λ db. record db {
    action_plans = where_ (λ q. not (q.report_id == report_id)) db.action_plans;
  }
  add_action_plans report_id (items plans)

-- `_is_edit_of_prepopulated` over `_PENDING_SIGNIFICANT_FIELDS`
abbrev pub pending_edited : PendingItem → PendingItemIn → Bool
pending_edited snap p =
    snap.is_prepopulated
    && not (
        str_eq snap.description p.description
        && same_text snap.owner_party (get_nullable p.owner_party)
        && same_option snap.due_date (get_nullable p.due_date)
        && same_pending_status snap.status (get p.status)
        && same_text snap.impact (get_nullable p.impact))

abbrev pub pending_flag : Option PendingItem → PendingItemIn → Bool
pending_flag none p = or_default false p.is_prepopulated
pending_flag (some snap) p =
    kept_flag (pending_edited snap p) snap.is_prepopulated p.is_prepopulated

abbrev pub new_pending_item :
    DateTime → Uuid → Uuid → Option PendingItem → PendingItemIn → PendingItem
new_pending_item now k report_id snap p = record {
  id = k;
  report_id = report_id;
  description = p.description;
  owner_party = get_nullable p.owner_party;
  due_date = get_nullable p.due_date;
  status = or_default PendingItemStatus.opened p.status;
  impact = get_nullable p.impact;
  created_at = now;
  is_prepopulated = pending_flag snap p;
}

unfoldable pub add_pending_items :
    DateTime → Uuid → List PendingItem → List PendingItemIn → M (Unit {0})
add_pending_items now report_id snaps [] = pure tt
add_pending_items now report_id snaps (p ∷ ps) = do
  k ← new_uuid
  let snap = find_last (λ q. str_eq q.description p.description) snaps
  modify λ db. record db {
    pending_items = db.pending_items ++ new_pending_item now k report_id snap p ∷ [];
  }
  add_pending_items now report_id snaps ps

unfoldable pub patch_pending_items :
    DateTime → Uuid → Field (Option (List PendingItemIn)) → M (Unit {0})
unfolding add_pending_items
patch_pending_items now report_id unset = pure tt
patch_pending_items now report_id (given ps) = do
  snaps ← gets (λ db. where_ (λ q. q.report_id == report_id) db.pending_items)
  modify λ db. record db {
    pending_items = where_ (λ q. not (q.report_id == report_id)) db.pending_items;
  }
  add_pending_items now report_id snaps (items ps)
