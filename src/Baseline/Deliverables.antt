-- ===== src/Baseline/Deliverables.antt =====
-- The deliverables of a draft: `create_deliverable`, `update_deliverable`, `delete_deliverable` of
-- backend/app/api/v1/baselines.py.
use gp_portal.Base.{
  ℕ, String, Bool, true, false, not, Option, none, some, List, [], ◌∷◌, ◌++◌, ◌||◌, ◌==◌, any, map,
  where_, update_first, same_option, if◌then◌else◌,
}
use gp_portal.Domain.{
  Role, BaselineStatus, DeliverableComplexity, DeliverableType, DeliverableCategory,
  DeliverableStatus, Uuid, Date, DateTime, User, Deliverable, ActionPlan,
}
use gp_portal.Store.{
  M, http, integrity_error, raise_if, or_raise, pure, gets, modify, new_uuid, commit, ◌>>=◌, ◌>>◌,
  get_deliverable,
}
use gp_portal.Access.{require_any_role, load_baseline_for_user}
use gp_portal.Report.Patch.{Field, unset, given, get_nullable, or_default, assigned}

abbrev pub is_draft : BaselineStatus → Bool
is_draft BaselineStatus.draft = true
is_draft _ = false

pub record DeliverableCreate : Type 0 where
  pub code : Field (Option String)
  pub title : String
  pub description : Field (Option String)
  pub phase : Field (Option String)
  pub category : Field (Option DeliverableCategory)
  pub complexity : Field (Option DeliverableComplexity)
  pub type : Field (Option DeliverableType)
  pub source_excerpt : Field (Option String)
  pub due_date : Field (Option Date)
  pub acceptance_criteria : Field (Option String)
  pub dependencies : Field (List String)
  pub status : Field DeliverableStatus
  pub order_index : Field ℕ

abbrev pub new_deliverable : DateTime → Uuid → Uuid → DeliverableCreate → Deliverable
new_deliverable now k baseline_id d = record {
  id = k;
  baseline_id = baseline_id;
  code = get_nullable d.code;
  title = d.title;
  description = get_nullable d.description;
  phase = get_nullable d.phase;
  category = get_nullable d.category;
  complexity = get_nullable d.complexity;
  type = get_nullable d.type;
  source_excerpt = get_nullable d.source_excerpt;
  due_date = get_nullable d.due_date;
  acceptance_criteria = get_nullable d.acceptance_criteria;
  dependencies = or_default [] d.dependencies;
  status = or_default DeliverableStatus.not_started d.status;
  order_index = or_default 0 d.order_index;
  created_at = now;
}

unfoldable pub create_deliverable : DateTime → User → Uuid → DeliverableCreate → M Deliverable
create_deliverable now user baseline_id payload = do
  require_any_role (Role.gp ∷ []) user
  baseline ← load_baseline_for_user baseline_id user
  raise_if (not (is_draft baseline.status)) (http 400)
  k ← new_uuid
  let deliv = new_deliverable now k baseline.id payload
  modify λ db. record db { deliverables = db.deliverables ++ deliv ∷ [] }
  commit
  pure deliv

-- A field of the update that its column does not let be `None`.
pub record DeliverableUpdate : Type 0 where
  pub code : Field (Option String)
  pub title : Field (Option String)
  pub description : Field (Option String)
  pub phase : Field (Option String)
  pub category : Field (Option DeliverableCategory)
  pub complexity : Field (Option DeliverableComplexity)
  pub type : Field (Option DeliverableType)
  pub source_excerpt : Field (Option String)
  pub due_date : Field (Option Date)
  pub acceptance_criteria : Field (Option String)
  pub dependencies : Field (Option (List String))
  pub status : Field (Option DeliverableStatus)
  pub order_index : Field (Option ℕ)

abbrev pub is_null {ℓ} : {A : Type ℓ} → Field (Option A) → Bool
is_null (given none) = true
is_null _ = false

abbrev pub assigned_value {ℓ} : {A : Type ℓ} → A → Field (Option A) → A
assigned_value old unset = old
assigned_value old (given none) = old
assigned_value old (given (some a)) = a

-- A `NOT NULL` column is assigned `None`: the commit refuses the row.
abbrev pub null_column : DeliverableUpdate → Bool
null_column d =
    is_null d.title || is_null d.dependencies || is_null d.status || is_null d.order_index

-- The loop of `setattr`.
abbrev pub updated : DeliverableUpdate → Deliverable → Deliverable
updated u d = record d {
  code = assigned d.code u.code;
  title = assigned_value d.title u.title;
  description = assigned d.description u.description;
  phase = assigned d.phase u.phase;
  category = assigned d.category u.category;
  complexity = assigned d.complexity u.complexity;
  type = assigned d.type u.type;
  source_excerpt = assigned d.source_excerpt u.source_excerpt;
  due_date = assigned d.due_date u.due_date;
  acceptance_criteria = assigned d.acceptance_criteria u.acceptance_criteria;
  dependencies = assigned_value d.dependencies u.dependencies;
  status = assigned_value d.status u.status;
  order_index = assigned_value d.order_index u.order_index;
}

unfoldable pub update_deliverable : User → Uuid → DeliverableUpdate → M (Unit {0})
update_deliverable user k payload = do
  require_any_role (Role.gp ∷ []) user
  found ← gets (get_deliverable k)
  deliv ← or_raise found (http 404)
  baseline ← load_baseline_for_user deliv.baseline_id user
  raise_if (not (is_draft baseline.status)) (http 400)
  modify λ db. record db {
    deliverables = update_first (λ d. d.id == k) (updated payload) db.deliverables;
  }
  raise_if (null_column payload) integrity_error
  commit

-- `ON DELETE SET NULL` of `ActionPlan.linked_deliverable_id`
abbrev pub unlink_deliverable : Uuid → ActionPlan → ActionPlan
unlink_deliverable k a =
    if same_option (some k) a.linked_deliverable_id
    then record a { linked_deliverable_id = none }
    else a

-- The foreign key of the progresses refuses to lose its deliverable.
unfoldable pub delete_deliverable : User → Uuid → M (Unit {0})
delete_deliverable user k = do
  require_any_role (Role.gp ∷ []) user
  found ← gets (get_deliverable k)
  deliv ← or_raise found (http 404)
  baseline ← load_baseline_for_user deliv.baseline_id user
  raise_if (not (is_draft baseline.status)) (http 400)
  referenced ← gets (λ db. any (λ p. p.deliverable_id == k) db.progresses)
  raise_if referenced integrity_error
  modify λ db. record db {
    deliverables = where_ (λ d. not (d.id == k)) db.deliverables;
    action_plans = map (unlink_deliverable k) db.action_plans;
  }
  commit
