-- ===== src/Examples/Plans.antt =====
-- The theorems on baselines and projects at concrete rows.
use gp_portal.Base.{String, ◌⊎◌, ◌≡◌, refl, true, none, some, [], ◌∷◌}
use gp_portal.Domain.{Uuid, Deliverable, DeliverableStatus, BaselineStatus, ReportStatus}
use gp_portal.Store.{Refused, ok, Db, ◌>>=◌, integrity, run}
use gp_portal.Baseline.Transition.{
  activate_baseline, TransitionDecisionPayload, TransitionResult, decide_baseline_transition,
}
use gp_portal.Baseline.Transition.Unique.{
  OneActive, activate_baseline-OneActive, decide_baseline_transition-OneActive,
}
use gp_portal.Baseline.Transition.Decided.{Decision, decide_baseline_transition-Decision}
use gp_portal.Baseline.Transition.Activated.{Activation, activate_baseline-Activation}
use gp_portal.Report.Patch.{unset, given}
use gp_portal.Baseline.{
  DeliverableCreate, DeliverableUpdate, create_deliverable, update_deliverable, delete_deliverable,
}
use gp_portal.Baseline.Frozen.{IsElsewhere, frozen-Refused}
use gp_portal.HealthScore.{active_baselines}
use gp_portal.Baseline.Transition.{get_active_baseline}
use gp_portal.Baseline.Transition.Single.{get_active_baseline-answer}
use gp_portal.Base.{head_of}
use gp_portal.Examples.Data.{project}
use gp_portal.Closing.{RetrospectiveCreate, new_retrospective, close_project}
use gp_portal.Closing.Closed.{Closure, close_project-Closure, close_project-once}
use gp_portal.Examples.Data.{rows, report, baseline, scope_change, gp_user, pmo_user}

-- The draft of a first baseline.
abbrev first_draft : Db
first_draft = rows (baseline 30 20 BaselineStatus.draft ∷ []) [] []

first_draft-OneActive : OneActive first_draft
first_draft-OneActive p = (30, ((λ _ _. refl), tt))

activate_baseline-OneActive_example : OneActive (run (activate_baseline 5 gp_user 30) first_draft).1
activate_baseline-OneActive_example =
    activate_baseline-OneActive 5 gp_user 30 first_draft first_draft-OneActive

activate_baseline-Activation_example :
    Activation 5 gp_user 30 first_draft (run (activate_baseline 5 gp_user 30) first_draft).1
unfolding activate_baseline ◌>>=◌ integrity
activate_baseline-Activation_example = activate_baseline-Activation 5 gp_user 30 first_draft refl

-- A second baseline that waits for the PMO, next to the active one.
abbrev second_draft : Db
second_draft =
    rows (baseline 30 20 BaselineStatus.active ∷ baseline 31 21 BaselineStatus.draft ∷ []) []
      (scope_change ∷ [])

abbrev approval : TransitionDecisionPayload
approval = record { approve = true; comment = none }

second_draft-OneActive : OneActive second_draft
second_draft-OneActive p = (30, ((λ _ _. refl), ((λ _ a. cc), tt)))

decide_baseline_transition-OneActive_example :
    OneActive (run (decide_baseline_transition 5 pmo_user 31 approval) second_draft).1
decide_baseline_transition-OneActive_example =
    decide_baseline_transition-OneActive 5 pmo_user 31 approval second_draft second_draft-OneActive

get_active_baseline-answer_example :
    (run (get_active_baseline gp_user 10) second_draft).0
    ≡ ok (head_of (active_baselines 10 second_draft))
get_active_baseline-answer_example =
    get_active_baseline-answer gp_user 10 second_draft project second_draft-OneActive refl refl refl
      refl

abbrev transition : TransitionResult
transition = record {
  baseline_id = 31;
  baseline_status = BaselineStatus.active;
  approved = true;
  scope_changes_count = 1;
  decided_at = 5;
  approved_by = 2;
}

decide_baseline_transition-Decision_example :
    Decision 5 pmo_user 31 approval second_draft
      (run (decide_baseline_transition 5 pmo_user 31 approval) second_draft).1
      transition
unfolding decide_baseline_transition ◌>>=◌ integrity
decide_baseline_transition-Decision_example =
    decide_baseline_transition-Decision 5 pmo_user 31 approval second_draft transition refl

abbrev deliverable : Uuid → Uuid → String → Deliverable
deliverable k baseline_id c = record {
  id = k;
  baseline_id = baseline_id;
  code = some c;
  title = "title";
  description = none;
  phase = none;
  category = none;
  complexity = none;
  type = none;
  source_excerpt = none;
  due_date = none;
  acceptance_criteria = none;
  dependencies = [];
  status = DeliverableStatus.not_started;
  order_index = 0;
  created_at = 0;
}

-- One code in both baselines, and one in each alone.
abbrev compared : Db
compared = record second_draft {
  deliverables =
      deliverable 60 30 "E1"
      ∷ deliverable 61 30 "E2"
      ∷ deliverable 62 31 "E1"
      ∷ deliverable 63 31 "E3"
      ∷ [];
}

abbrev new_row : DeliverableCreate
new_row = record {
  code = unset;
  title = "new";
  description = unset;
  phase = unset;
  category = unset;
  complexity = unset;
  type = unset;
  source_excerpt = unset;
  due_date = unset;
  acceptance_criteria = unset;
  dependencies = unset;
  status = unset;
  order_index = unset;
}

abbrev new_title : DeliverableUpdate
new_title = record {
  code = unset;
  title = given (some "other");
  description = unset;
  phase = unset;
  category = unset;
  complexity = unset;
  type = unset;
  source_excerpt = unset;
  due_date = unset;
  acceptance_criteria = unset;
  dependencies = unset;
  status = unset;
  order_index = unset;
}

frozen-Refused_example :
    Refused (create_deliverable 5 gp_user 30 new_row) compared
    × (IsElsewhere 5 gp_user compared (baseline 30 20 BaselineStatus.active) 30 refl refl 60
        ⊎ Refused (update_deliverable gp_user 60 new_title) compared
          × Refused (delete_deliverable gp_user 60) compared)
frozen-Refused_example =
    frozen-Refused 5 gp_user compared (baseline 30 20 BaselineStatus.active) 30 refl refl new_row 60
      new_title

abbrev lessons : RetrospectiveCreate
lessons = record {
  delivered_vs_proposed = "delivered";
  would_do_differently = "differently";
  client_feedback = "feedback";
  materialized_risks = [];
}

-- The only report has been released, so the project may be closed.
abbrev finished : Db
finished =
    rows (baseline 30 20 BaselineStatus.active ∷ []) (report 50 ReportStatus.client_released ∷ [])
      []

close_project-Closure_example :
    Closure 5 1 gp_user 10 lessons finished
      (run (close_project 5 1 gp_user 10 lessons) finished).1
      (new_retrospective 5 1000 10 1 lessons)
unfolding close_project ◌>>=◌ integrity
close_project-Closure_example =
    close_project-Closure 5 1 gp_user 10 lessons finished (new_retrospective 5 1000 10 1 lessons)
      refl

close_project-once_example :
    let after = (run (close_project 5 1 gp_user 10 lessons) finished).1 in
    Refused (close_project 6 2 gp_user 10 lessons) after
unfolding close_project ◌>>=◌ integrity
close_project-once_example =
    close_project-once 5 1 gp_user 10 lessons finished (new_retrospective 5 1000 10 1 lessons) refl
      6 2 gp_user lessons
