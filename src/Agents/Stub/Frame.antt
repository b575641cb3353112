-- ===== src/Agents/Stub/Frame.antt =====
-- The tables that an extraction writes on its way.
use gp_portal.Base.{ℕ, zero, suc, ◌+◌, Option, none, some, List, [], ◌∷◌}
use gp_portal.Domain.{Uuid, DateTime, Proposal, Project, Baseline, Deliverable, ScopeChange}
use gp_portal.Store.{
  Db, Keeps, Keeps-bind, Keeps-modify, Keeps-new_uuid, Keeps-pure, keeps_rules, Writes, Writes-pure,
  Writes-new_uuid, Writes-modify, Writes-bind,
}
use gp_portal.Baseline.Diff.Propose.{Entry, propose, commit_if, diff_baselines}
use gp_portal.Agents.Stub.{
  StubItem, add_deliverables, compare_with, compare_with_active, compare_versions,
}

module _ {P : Db → Type 0}
    (blind : (db : Db) (k : Uuid) (cs : List ScopeChange)
      → P db
      → P (record db { next_id = k; scope_changes = cs })) where
  Keeps-propose :
      (now : DateTime) (k : Uuid) (base new : Baseline) (es : List Entry)
      → Keeps P (propose now k base new es)
  unfolding propose
  Keeps-propose now k base new [] = Keeps-pure tt
  Keeps-propose now k base new ((t, c, text) ∷ es) =
      Keeps-bind _ _ (Keeps-new_uuid λ db h. blind db _ _ h) λ i.
        Keeps-bind _ _ (Keeps-modify _ λ db h. blind db _ _ h) λ _. Keeps-propose now k base new es

  Keeps-commit_if : (n : ℕ) → Keeps P (commit_if n)
  Keeps-commit_if zero = Keeps-pure tt
  Keeps-commit_if (suc n) = search keeps_rules

  Keeps-diff_baselines :
      (now : DateTime) (k : Uuid) (base new : Baseline) → Keeps P (diff_baselines now k base new)
  unfolding diff_baselines
  Keeps-diff_baselines now k base new = search (keeps_rules, Keeps-propose, Keeps-commit_if)

  Keeps-compare_with :
      (now : DateTime) (k : Uuid) (new : Baseline) (o : Option Baseline)
      → Keeps P (compare_with now k new o)
  unfolding compare_with
  Keeps-compare_with now k new none = Keeps-pure tt
  Keeps-compare_with now k new (some b) = search (keeps_rules, Keeps-diff_baselines)

  Keeps-compare_with_active :
      (now : DateTime) (project : Project) (new : Baseline)
      → Keeps P (compare_with_active now project new)
  unfolding compare_with_active
  Keeps-compare_with_active now project new = search (keeps_rules, Keeps-compare_with)

  pub Keeps-compare_versions :
      (now : DateTime) (proposal : Proposal) (project : Project) (new : Baseline)
      → Keeps P (compare_versions now proposal project new)
  unfolding compare_versions
  Keeps-compare_versions now proposal project new = search (keeps_rules, Keeps-compare_with_active)

pub Writes-add_deliverables :
    {P : Db → Type 0}
    (blind : (db : Db) (k : Uuid) (ds : List Deliverable)
      → P db
      → P (record db { next_id = k; deliverables = ds }))
    (now : DateTime) (k : Uuid) (i : ℕ) (items : List StubItem)
    → Writes P (add_deliverables now k i items)
unfolding add_deliverables
Writes-add_deliverables blind now k i [] = Writes-pure tt
Writes-add_deliverables blind now k i (x ∷ items) =
    Writes-bind _ _ (Writes-new_uuid λ db h. blind db _ _ h) λ j.
      Writes-bind _ _ (Writes-modify _ λ db h. blind db _ _ h)
        λ _. Writes-add_deliverables blind now k (i + 1) items
