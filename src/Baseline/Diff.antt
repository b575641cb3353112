-- ===== src/Baseline/Diff.antt =====
-- The comparison of two baselines by the codes of their deliverables: `compute_baseline_diff` of
-- backend/app/api/v1/client_portal.py.
-- A changed field is named; the texts that its values are rendered to are left out.
pub mod Added
pub mod Propose
use gp_portal.Base.{
  ℕ, zero, suc, ◌+◌, String, Bool, true, false, not, Option, none, some, List, [], ◌∷◌, ◌++◌, ◌&&◌,
  ◌||◌, ◌==◌, str_eq, length, any, find, where_, catch_some, same_option, if◌then◌else◌,
}
use gp_portal.Domain.{
  DeliverableComplexity, DeliverableType, DeliverableCategory, ScopeChangeStatus, ScopeChangeType,
  TrackedField, ChangeText, Uuid, DateTime, Baseline, Deliverable, ScopeChange,
}
use gp_portal.Store.{Db, M, pure, gets, modify, new_uuid, commit, ◌>>=◌, ◌>>◌}
use gp_portal.Report.Patch.{same_text}

-- `by_code = {d.code: d for d in rows if d.code}`: a later row takes the place of an earlier one
-- with its code, and a missing or empty code is left out.
abbrev pub Codes : Type 0
Codes = List (String × Deliverable)

abbrev pub put_code : String → Deliverable → Codes → Codes
put_code c d [] = (c, d) ∷ []
put_code c d ((e, x) ∷ m) = if str_eq e c then (e, d) ∷ m else (e, x) ∷ put_code c d m

abbrev pub put_coded : Deliverable → Option String → Codes → Codes
put_coded d none m = m
put_coded d (some String.[]) m = m
put_coded d (some c) m = put_code c d m

unfoldable pub by_code : Codes → List Deliverable → Codes
by_code m [] = m
by_code m (d ∷ ds) = by_code (put_coded d d.code m) ds

abbrev pub at_code : String → Codes → Option Deliverable
at_code c [] = none
at_code c ((e, x) ∷ m) = if str_eq e c then some x else at_code c m

abbrev pub type_rank : DeliverableType → ℕ
type_rank DeliverableType.code_migration = 0
type_rank DeliverableType.documentation = 1
type_rank DeliverableType.knowledge_transfer = 2
type_rank DeliverableType.stabilization = 3
type_rank DeliverableType.deliverable_software = 4
type_rank DeliverableType.assessment = 5
type_rank DeliverableType.model = 6
type_rank DeliverableType.infrastructure = 7
type_rank DeliverableType.other = 8

abbrev pub category_rank : DeliverableCategory → ℕ
category_rank DeliverableCategory.technical = 0
category_rank DeliverableCategory.technical_regulatory = 1
category_rank DeliverableCategory.business = 2
category_rank DeliverableCategory.transversal = 3
category_rank DeliverableCategory.governance = 4

abbrev pub complexity_rank : DeliverableComplexity → ℕ
complexity_rank DeliverableComplexity.low = 0
complexity_rank DeliverableComplexity.low_medium = 1
complexity_rank DeliverableComplexity.medium = 2
complexity_rank DeliverableComplexity.medium_high = 3
complexity_rank DeliverableComplexity.high = 4

abbrev pub same_by {ℓ} : {A : Type ℓ} → (A → ℕ) → Option A → Option A → Bool
same_by rank none none = true
same_by rank (some a) (some b) = rank a == rank b
same_by rank _ _ = false

abbrev pub same_texts : List String → List String → Bool
same_texts [] [] = true
same_texts (s ∷ ss) (t ∷ ts) = str_eq s t && same_texts ss ts
same_texts _ _ = false

abbrev pub note : Bool → TrackedField → List TrackedField → List TrackedField
note true f fs = fs
note false f fs = f ∷ fs

-- `_compute_modified_fields`
unfoldable pub compute_modified_fields : Deliverable → Deliverable → List TrackedField
compute_modified_fields old new = note (str_eq old.title new.title) TrackedField.title (
    note (same_text old.phase new.phase) TrackedField.phase (
      note (same_by type_rank old.type new.type) TrackedField.type (
        note (same_by category_rank old.category new.category) TrackedField.category (
          note (same_by complexity_rank old.complexity new.complexity) TrackedField.complexity (
            note (same_option old.due_date new.due_date) TrackedField.due_date (
              note (same_text old.acceptance_criteria new.acceptance_criteria)
                TrackedField.acceptance_criteria
                (note (same_texts old.dependencies new.dependencies) TrackedField.dependencies
                  [])))))))

pub record Change : Type 0 where
  pub code : String
  pub old : Deliverable
  pub new : Deliverable
  pub changed_fields : List TrackedField

pub record Diff : Type 0 where
  pub added : Codes
  pub removed : Codes
  pub changed : List Change

-- The entries of the first whose code the second does not have.
unfoldable pub missing_from : Codes → Codes → Codes
missing_from other [] = []
missing_from other ((c, d) ∷ m) = elim (at_code c other) [
  | none ↦ (c, d) ∷ missing_from other m
  | some _ ↦ missing_from other m
]

abbrev pub change_at : String → Deliverable → Deliverable → List TrackedField → Option Change
change_at c old new [] = none
change_at c old new (f ∷ fs) =
    some (record { code = c; old = old; new = new; changed_fields = f ∷ fs })

unfoldable pub changes_between : Codes → Codes → List Change
changes_between old [] = []
changes_between old ((c, new) ∷ m) = elim (at_code c old) [
  | none ↦ changes_between old m
  | some d ↦ elim (change_at c d new (compute_modified_fields d new)) [
    | none ↦ changes_between old m
    | some change ↦ change ∷ changes_between old m
  ]
]

abbrev pub diff_codes : Codes → Codes → Diff
diff_codes old new = record {
  added = missing_from old new;
  removed = missing_from new old;
  changed = changes_between old new;
}

abbrev pub codes_of : Baseline → Db → Codes
codes_of b db = by_code [] (where_ (λ d. d.baseline_id == b.id) db.deliverables)

unfoldable pub compute_baseline_diff : Baseline → Baseline → Db → Diff
unfolding missing_from changes_between by_code
compute_baseline_diff base new db = diff_codes (codes_of base db) (codes_of new db)
