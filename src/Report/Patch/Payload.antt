-- ===== src/Report/Patch/Payload.antt =====
-- The body of the PATCH: backend/app/schemas/report.py. `model_dump(exclude_unset=True)` leaves out
-- a field that the request does not name, and `.get` reads such a field as `None`.
use gp_portal.Base.{ℕ, String, Bool, Option, none, some, List}
use gp_portal.Domain.{
  Uuid, Date, RagStatus, ProgressStatus, RiskProbability, RiskImpact, RiskStatus, ActionPlanStatus,
  PendingItemStatus,
}

pub data Field {ℓ} (A : Type ℓ) : Type ℓ where
  unset : Field A
  given : A → Field A

-- `d.get(key)`
abbrev pub get {ℓ} : {A : Type ℓ} → Field A → Option A
get unset = none
get (given a) = some a

abbrev pub get_nullable {ℓ} : {A : Type ℓ} → Field (Option A) → Option A
get_nullable unset = none
get_nullable (given a) = a

-- The value of the column, by default if the field is not set.
abbrev pub or_default {ℓ} : {A : Type ℓ} → A → Field A → A
or_default a unset = a
or_default a (given b) = b

-- `if key in data: setattr(report, key, data[key])`
abbrev pub assigned {ℓ} : {A : Type ℓ} → A → Field A → A
assigned old unset = old
assigned old (given new) = new

-- `data[key] or []`
abbrev pub items {ℓ} : {A : Type ℓ} → Option (List A) → List A
items none = List.[]
items (some l) = l

pub record DeliveryProgressIn : Type 0 where
  pub deliverable_id : Uuid
  pub status : Field ProgressStatus
  pub percent_complete : Field ℕ
  pub comment : Field (Option String)
  pub revised_date : Field (Option Date)
  pub acceptance_confirmed : Field (Option Bool)
  pub is_prepopulated : Field Bool

pub record RiskIn : Type 0 where
  pub description : String
  pub probability : RiskProbability
  pub impact : RiskImpact
  pub mitigation_plan : Field (Option String)
  pub owner_id : Field (Option Uuid)
  pub due_date : Field (Option Date)
  pub status : Field RiskStatus
  pub is_prepopulated : Field Bool

pub record ActionPlanIn : Type 0 where
  pub description : String
  pub objective : String
  pub owner_id : Field (Option Uuid)
  pub due_date : Field (Option Date)
  pub status : Field ActionPlanStatus
  pub linked_risk_id : Field (Option Uuid)
  pub linked_deliverable_id : Field (Option Uuid)

pub record PendingItemIn : Type 0 where
  pub description : String
  pub owner_party : Field (Option String)
  pub due_date : Field (Option Date)
  pub status : Field PendingItemStatus
  pub impact : Field (Option String)
  pub is_prepopulated : Field Bool

pub record ReportPatch : Type 0 where
  pub period_start : Field (Option Date)
  pub period_end : Field (Option Date)
  pub rag_status : Field (Option RagStatus)
  pub rag_prazo : Field (Option RagStatus)
  pub rag_escopo : Field (Option RagStatus)
  pub rag_qualidade : Field (Option RagStatus)
  pub rag_prazo_justificativa : Field (Option String)
  pub rag_escopo_justificativa : Field (Option String)
  pub rag_qualidade_justificativa : Field (Option String)
  pub highlights : Field (Option String)
  pub next_steps : Field (Option String)
  pub notes : Field (Option String)
  pub progresses : Field (Option (List DeliveryProgressIn))
  pub risks : Field (Option (List RiskIn))
  pub action_plans : Field (Option (List ActionPlanIn))
  pub pending_items : Field (Option (List PendingItemIn))
