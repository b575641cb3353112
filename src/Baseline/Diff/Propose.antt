-- ===== src/Baseline/Diff/Propose.antt =====
-- The scope changes that a comparison of two baselines proposes: `diff_baselines` of
-- backend/app/api/v1/client_portal.py.
use gp_portal.Base.{
  ℕ, zero, suc, String, Bool, true, false, Option, none, some, List, [], ◌∷◌, ◌++◌, ◌&&◌, length,
  any, where_, same_option, if◌then◌else◌,
}
use gp_portal.Domain.{
  ScopeChangeStatus, ScopeChangeType, ChangeText, Uuid, DateTime, Baseline, ScopeChange,
}
use gp_portal.Store.{Db, M, pure, gets, modify, new_uuid, commit, ◌>>=◌, ◌>>◌}
use gp_portal.Report.Patch.{same_text}
use gp_portal.Baseline.Diff.{Codes, Change, Diff, compute_baseline_diff}

abbrev pub same_change_type : Option ScopeChangeType → ScopeChangeType → Bool
same_change_type (some ScopeChangeType.added) ScopeChangeType.added = true
same_change_type (some ScopeChangeType.removed) ScopeChangeType.removed = true
same_change_type (some ScopeChangeType.modified) ScopeChangeType.modified = true
same_change_type _ _ = false

-- `_seen`: among the keys that the table held before.
abbrev pub seen : List ScopeChange → ScopeChangeType → String → Bool
seen existing t c =
    any (λ x. same_change_type x.change_type t && same_text x.deliverable_code (some c)) existing

-- One scope change to an affected deliverable.
abbrev pub proposed_change :
    DateTime
    → Uuid
    → Uuid
    → Baseline
    → Baseline
    → ScopeChangeType
    → String
    → ChangeText
    → ScopeChange
proposed_change now k project_id base new t c description = record {
  id = k;
  project_id = project_id;
  description = description;
  baseline_from_id = some base.id;
  baseline_to_id = some new.id;
  change_type = some t;
  requested_at = now;
  decided_at = none;
  approved_by_id = none;
  status = ScopeChangeStatus.proposed;
  deliverable_code = some c;
  impact_baseline_id = none;
}

-- What the three loops of `diff_baselines` go over: the type, the code and the text of each entry.
abbrev pub Entry : Type 0
Entry = ScopeChangeType × String × ChangeText

abbrev pub coded_entries : ScopeChangeType → (String → String → ChangeText) → Codes → List Entry
coded_entries t text [] = []
coded_entries t text ((c, d) ∷ m) = (t, c, text c d.title) ∷ coded_entries t text m

abbrev pub changed_entries : List Change → List Entry
changed_entries [] = []
changed_entries (x ∷ xs) =
    (ScopeChangeType.modified, x.code, ChangeText.modified x.code x.changed_fields)
    ∷ changed_entries xs

abbrev pub entries : Diff → List Entry
entries d =
    coded_entries ScopeChangeType.added ChangeText.added d.added
    ++ (coded_entries ScopeChangeType.removed ChangeText.removed d.removed
        ++ changed_entries d.changed)

-- The entries whose key the table does not hold.
abbrev pub unseen : List ScopeChange → List Entry → List Entry
unseen existing [] = []
unseen existing ((t, c, x) ∷ es) =
    let rest = unseen existing es in if seen existing t c then rest else (t, c, x) ∷ rest

unfoldable pub propose : DateTime → Uuid → Baseline → Baseline → List Entry → M (Unit {0})
propose now project_id base new [] = pure tt
propose now project_id base new ((t, c, text) ∷ es) = do
  k ← new_uuid
  modify λ db. record db {
    scope_changes = db.scope_changes ++ proposed_change now k project_id base new t c text ∷ [];
  }
  propose now project_id base new es

abbrev pub commit_if : ℕ → M (Unit {0})
commit_if zero = pure tt
commit_if (suc n) = commit

abbrev pub changes_to : Uuid → Db → List ScopeChange
changes_to k db = where_ (λ c. same_option c.baseline_to_id (some k)) db.scope_changes

unfoldable pub diff_baselines : DateTime → Uuid → Baseline → Baseline → M ℕ
unfolding compute_baseline_diff propose
diff_baselines now project_id base new = do
  diff ← gets (compute_baseline_diff base new)
  existing ← gets (changes_to new.id)
  let fresh = unseen existing (entries diff)
  propose now project_id base new fresh
  commit_if (length fresh)
  pure (length fresh)
