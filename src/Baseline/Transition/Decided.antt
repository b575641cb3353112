-- ===== src/Baseline/Transition/Decided.antt =====
-- The answers of `decide_baseline_transition`, backend/app/api/v1/baselines.py: what it has read
-- and written.
use gp_portal.Base.{
  ◌≡◌, refl, sym, ap, subst, ==_refl, Bool, true, false, some, ◌==◌, find_sound, eq_of_==,
  find-update_first, arith, if◌then◌else◌, where_, length, Bool-cases, ◌≢◌, ◌⊎◌, inl, inr, Option,
  none, same_option, Pairwise, Pairwise-update_where,
}
use gp_portal.Domain.{
  BaselineStatus, Role, ScopeChange, Uuid, DateTime, User, Baseline, ScopeChangeStatus,
}
use gp_portal.Store.{
  Db, ok, Ends, Ends-raise_if, Ends-gets, Ends-or_raise, Ends-modify, Ends-commit, Ends-pure,
  Ends-attempt, Ends-ok, get_baseline, start, run,
}
use gp_portal.Access.{pmo_role}
use gp_portal.Notifications.Frame.{Keeps-notify_transition_decision}
use gp_portal.Baseline.Deliverables.{is_draft}
use gp_portal.Baseline.Transition.{
  is_rival, superseded, activated, refused, awaits, decided_change, decide_changes, decide_baseline,
  TransitionResult, TransitionDecisionPayload, decide_baseline_transition, unexplained, is_proposed,
}
use gp_portal.Baseline.Transition.Unique.{find-update_where, not_own_rival}

-- The baseline after the decision.
abbrev pub outcome : DateTime → Uuid → Bool → Baseline → Baseline
outcome now by approve b = if approve then activated now by b else refused b

-- A proposed scope change to the baseline is implemented or rejected as decided; any other one
-- stays as it is.
abbrev pub Decides : DateTime → Uuid → Uuid → Bool → ScopeChange → ScopeChange → Type 0
Decides now by k approve old new =
    (old.baseline_to_id ≡ some k)
      × (old.status ≡ ScopeChangeStatus.proposed)
      × (new ≡ record old {
        status = if approve then ScopeChangeStatus.implemented else ScopeChangeStatus.rejected;
        approved_by_id = some by;
        decided_at = some now;
      })
    ⊎ ((old.baseline_to_id ≢ some k) ⊎ (old.status ≢ ScopeChangeStatus.proposed)) × (new ≡ old)

is_proposed_sound :
    (st : ScopeChangeStatus) → is_proposed st ≡ true → st ≡ ScopeChangeStatus.proposed
is_proposed_sound ScopeChangeStatus.proposed h = refl
is_proposed_sound ScopeChangeStatus.approved h = cc
is_proposed_sound ScopeChangeStatus.rejected h = cc
is_proposed_sound ScopeChangeStatus.implemented h = cc

same_option_sound : (o : Option Uuid) (k : Uuid) → same_option o (some k) ≡ true → o ≡ some k
same_option_sound none k h = cc
same_option_sound (some i) k h = ap some (eq_of_== i k h)

awaiting-Decides :
    (now : DateTime) (by k : Uuid) (approve : Bool) (c : ScopeChange)
    → awaits k c ≡ true
    → Decides now by k approve c (decided_change now by approve c)
awaiting-Decides now by k approve c h = inl (
  same_option_sound c.baseline_to_id k (ground arith),
  is_proposed_sound c.status (ground arith),
  refl,
)

other-Decides :
    (now : DateTime) (by k : Uuid) (approve : Bool) (c : ScopeChange)
    → awaits k c ≡ false
    → Decides now by k approve c c
other-Decides now by k approve c h = elim (Bool-cases (is_proposed c.status)) [
  | inl open_ ↦ inr (inl (λ e. absurd open_ e), refl)
  | inr shut ↦ inr (inr (λ e. closed shut e), refl)
]
  where
    absurd : is_proposed c.status ≡ true → c.baseline_to_id ≡ some k → ⊥
    absurd o e = let wrong : true ≡ false = rw (e, ==_refl k, o) at h in cc

    closed : is_proposed c.status ≡ false → c.status ≡ ScopeChangeStatus.proposed → ⊥
    closed s e = let wrong : true ≡ false = rw e at s in cc

pub found-decide_baseline :
    (now : DateTime) (by : Uuid) (approve : Bool) (b : Baseline) (db : Db)
    → get_baseline b.id db ≡ some b
    → get_baseline b.id (decide_baseline now by approve b db) ≡ some (outcome now by approve b)
found-decide_baseline now by true b db found =
    find-update_first (λ x. x.id == b.id) (activated now by) _
      (find-update_where (λ x. x.id == b.id) (is_rival b) superseded db.baselines (λ y. refl)
        (not_own_rival b) found)
      (==_refl b.id)
found-decide_baseline now by false b db found =
    find-update_first (λ x. x.id == b.id) refused db.baselines found (==_refl b.id)

-- The baseline and the scope changes are where the decision puts them, from the rows of before.
pub record IsDecided (now : DateTime) (by k : Uuid) (approve : Bool) (b : Baseline) (before db : Db)
    : Type 0 where
  pub baseline : get_baseline k db ≡ some (outcome now by approve b)
  pub changes : Pairwise (Decides now by k approve) before.scope_changes db.scope_changes

decide_baseline-changes :
    (now : DateTime) (by : Uuid) (approve : Bool) (b : Baseline) (db : Db)
    → (decide_baseline now by approve b db).scope_changes ≡ db.scope_changes
decide_baseline-changes now by true b db = refl
decide_baseline-changes now by false b db = refl

decide_baseline-IsDecided :
    (now : DateTime) (by k : Uuid) (approve : Bool) (b : Baseline) (db : Db)
    → get_baseline k db ≡ some b
    → IsDecided now by k approve b db
        (decide_baseline now by approve b (decide_changes now by approve k db))
decide_baseline-IsDecided now by k approve b db found =
    let same = eq_of_== b.id k (find_sound (λ x. x.id == k) db.baselines found) in
    let changes = decide_changes now by approve k db in
    let own : get_baseline b.id changes ≡ some b =
      subst (λ i. get_baseline i db ≡ some b) (sym same) found in
    record {
      baseline =
          subst
            (λ i.
              get_baseline i (decide_baseline now by approve b changes)
              ≡ some (outcome now by approve b))
            same (found-decide_baseline now by approve b changes own);
      changes =
          subst (Pairwise (Decides now by k approve) db.scope_changes)
            (sym (decide_baseline-changes now by approve b changes))
            (Pairwise-update_where (Decides now by k approve) (awaits k)
              (decided_change now by approve) db.scope_changes (awaiting-Decides now by k approve)
              (other-Decides now by k approve));
    }

outcome-status :
    (now : DateTime) (by : Uuid) (approve : Bool) (b : Baseline)
    → (outcome now by approve b).status
      ≡ (if approve then BaselineStatus.active else BaselineStatus.rejected)
outcome-status now by true b = refl
outcome-status now by false b = refl

-- What an answered decision has found and has left.
pub record Decision (now : DateTime) (user : User) (k : Uuid) (p : TransitionDecisionPayload)
    (db after : Db) (t : TransitionResult) : Type 0 where
  pub before : Baseline
  pub found : get_baseline k db ≡ some before
  pub draft : is_draft before.status ≡ true
  pub pmo : user.role ≡ Role.pmo
  pub explained : unexplained p ≡ false
  pub count : t.scope_changes_count ≡ length (where_ (awaits k) db.scope_changes)
  pub row : Baseline
  pub stored : get_baseline k after ≡ some row
  pub status : row.status ≡ (if p.approve then BaselineStatus.active else BaselineStatus.rejected)
  pub settled : Pairwise (Decides now user.id k p.approve) db.scope_changes after.scope_changes

module _ (now : DateTime) (user : User) (k : Uuid) (p : TransitionDecisionPayload) (db : Db) where
  decide_baseline_transition-Ends :
      Ends
        (λ _. Unit {0})
        (λ t s. Decision now user k p db s.store t)
        (decide_baseline_transition now user k p)
        (start db)
  unfolding decide_baseline_transition
  decide_baseline_transition-Ends = Ends-raise_if _ _ _ _ λ role. Ends-raise_if _ _ _ _ λ comment.
      Ends-gets _ _ _ (
        Ends-or_raise _ _ _ _ λ b found. Ends-gets _ _ _ (
          Ends-or_raise _ _ _ _ λ project owner. Ends-raise_if _ _ _ _ λ draft. Ends-gets _ _ _ (
            Ends-raise_if _ _ _ _ λ rows.
              let done = decide_baseline-IsDecided now user.id k p.approve b db found in
              Ends-modify _ _ _ (
                Ends-modify _ _ _ (
                  Ends-commit _ _ λ _. (
                    tt,
                    Ends-attempt {P = IsDecided now user.id k p.approve b db} _ _ _
                        (Keeps-notify_transition_decision
                          (λ db k n h. record { baseline = h.baseline; changes = h.changes }) now
                          project b _ _ _)
                        (done, done)
                        λ s both. (
                          tt,
                          Ends-pure _ _ (record {
                            before = b;
                            found = found;
                            draft = ground arith;
                            pmo = pmo_role user.role role;
                            explained = comment;
                            count = refl;
                            row = outcome now user.id p.approve b;
                            stored = both.1.baseline;
                            status = outcome-status now user.id p.approve b;
                            settled = both.1.changes;
                          }),
                        ),
                  ))))))

  -- A decision that is answered was made by a PMO on a draft baseline, with a comment where it
  -- rejects; the baseline is then active or rejected as decided, every proposed scope change to it
  -- is implemented or rejected as decided, by this PMO and now, every other scope change is left as
  -- it is, and the answer counts the decided ones.
  pub decide_baseline_transition-Decision :
      (t : TransitionResult)
      → (run (decide_baseline_transition now user k p) db).0 ≡ ok t
      → Decision now user k p db (run (decide_baseline_transition now user k p) db).1 t
  decide_baseline_transition-Decision t answer =
      Ends-ok (λ _. Unit {0}) (λ t s. Decision now user k p db s.store t)
        (decide_baseline_transition now user k p) db t decide_baseline_transition-Ends tt answer
