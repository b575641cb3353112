-- ===== src/Examples/Reports.antt =====
-- The theorems on reports at concrete rows.
use gp_portal.Base.{◌≡◌, refl, ◌↔◌, none, some, List, [], ◌∷◌, All, arith, is_blank, ◌++◌}
use gp_portal.Domain.{
  RagStatus, ReportStatus, ApprovalDecision, ApprovalStage, Report, BaselineStatus,
}
use gp_portal.Store.{err, multiple_results, Refused, Db, ◌>>=◌, integrity, run, ok}
use gp_portal.HealthScore.{
  Band, HealthScoreBreakdown, compute_for_project, compute_spi, clamp, compute_rag_avg,
  compute_risk_inverse, compute_resolution_rate, compute_stability, normalize_weights,
}
use gp_portal.HealthScore.Bounds.{FloatLaws, InBand, compute_for_project-InBand, Scored}
use gp_portal.Report.Rag.{aggregate_rag}
use gp_portal.Report.Rag.Worst.{IsWorst, aggregate_rag-IsWorst}
use gp_portal.Report.Patch.{patch_report, ReportPatch, unset}
use gp_portal.Report.Submit.{submit_report}
use gp_portal.Report.Submitted.{Submission, submit_report-Submission}
use gp_portal.Report.Approval.{
  ApprovalDecisionPayload, decide_report, record_decision, new_approval,
}
use gp_portal.Report.Judged.{Judgement, decide_report-Judgement}
use gp_portal.Report.Locked.{locked-Refused}
use gp_portal.Report.Validity.{IsValid}
use gp_portal.Report.Approved.{IsApproved}
use gp_portal.Lifecycle.{Call, ReportRequest, after, after-IsValid, after-IsApproved}
use gp_portal.Prepopulate.{create_report_prepopulated}
use gp_portal.Prepopulate.Once.{Prepopulation, create_report_prepopulated-Prepopulation}
use gp_portal.Report.Create.{new_report}
use gp_portal.Report.Create.{ReportCreate, create_report}
use gp_portal.Prepopulate.Clash.{create_report-clash}
use gp_portal.Examples.Data.{
  rows, report, baseline, gp_user, pmo_user, client_user, naturals, project,
}

abbrev drafted : Db
drafted = rows (baseline 30 20 BaselineStatus.active ∷ []) (report 50 ReportStatus.draft ∷ []) []

abbrev approve : ApprovalDecisionPayload
approve = record { decision = ApprovalDecision.approved; comment = none }

-- A report is submitted, approved by the PMO and read by the client.
abbrev calls : List Call
calls =
    record { now = 1; user = gp_user; request = ReportRequest.submit 50 }
    ∷ record { now = 2; user = pmo_user; request = ReportRequest.decide 50 approve }
    ∷ record { now = 3; user = client_user; request = ReportRequest.confirm 50 }
    ∷ []

after-IsValid_example : All IsValid (after naturals calls drafted).reports
after-IsValid_example = after-IsValid naturals calls drafted ((λ e. cc), tt)

after-IsApproved_example :
    All (IsApproved (after naturals calls drafted).approvals) (after naturals calls drafted).reports
after-IsApproved_example = after-IsApproved naturals calls drafted (refl, tt)

aggregate_rag-IsWorst_example :
    aggregate_rag (some RagStatus.green) (some RagStatus.red) (some RagStatus.amber)
      ≡ some RagStatus.red
    ↔ IsWorst (some RagStatus.green) (some RagStatus.red) (some RagStatus.amber) RagStatus.red
aggregate_rag-IsWorst_example =
    aggregate_rag-IsWorst (some RagStatus.green) (some RagStatus.red) (some RagStatus.amber)
      RagStatus.red

submit_report-Submission_example :
    Submission 5 gp_user 50 drafted (run (submit_report naturals 5 gp_user 50) drafted).1
unfolding submit_report ◌>>=◌ integrity is_blank
submit_report-Submission_example = submit_report-Submission naturals 5 gp_user 50 drafted refl

abbrev submitted_rows : Db
submitted_rows = rows [] (report 50 ReportStatus.submitted ∷ []) []

decide_report-Judgement_example :
    Judgement 5 pmo_user 50 approve submitted_rows
      (run (decide_report 5 pmo_user 50 approve) submitted_rows).1
      (new_approval 1000 50 2 ApprovalStage.pmo ApprovalDecision.approved none 5)
unfolding decide_report record_decision ◌>>=◌ integrity
decide_report-Judgement_example =
    decide_report-Judgement 5 pmo_user 50 approve submitted_rows _ refl

abbrev nothing_patched : ReportPatch
nothing_patched = record {
  period_start = unset;
  period_end = unset;
  rag_status = unset;
  rag_prazo = unset;
  rag_escopo = unset;
  rag_qualidade = unset;
  rag_prazo_justificativa = unset;
  rag_escopo_justificativa = unset;
  rag_qualidade_justificativa = unset;
  highlights = unset;
  next_steps = unset;
  notes = unset;
  progresses = unset;
  risks = unset;
  action_plans = unset;
  pending_items = unset;
}

locked-Refused_example :
    Refused (patch_report 5 gp_user 50 nothing_patched) submitted_rows
    × Refused (submit_report naturals 5 gp_user 50) submitted_rows
locked-Refused_example =
    locked-Refused naturals 5 gp_user 50 submitted_rows (report 50 ReportStatus.submitted) refl refl
      nothing_patched

-- The draft that the next period's prepopulation adds.
abbrev next_report : Report
next_report = new_report 1000 10 108 115 1 5

create_report_prepopulated-Prepopulation_example :
    Prepopulation 5 gp_user 10 108 115 drafted
      (run (create_report_prepopulated 5 gp_user 10 108 115) drafted).1
      next_report
unfolding create_report_prepopulated ◌>>=◌ integrity
create_report_prepopulated-Prepopulation_example =
    create_report_prepopulated-Prepopulation 5 gp_user 10 108 115 drafted next_report refl

natural_laws : FloatLaws naturals
natural_laws = record {
  tenths-zero = refl;
  tenths-hundred = refl;
  tenths-below = λ x h. ground arith;
}

abbrev scored : HealthScoreBreakdown
scored = record {
  project_id = 10;
  score = 0;
  band = Band.red;
  rag_avg = 500;
  spi = 1000;
  risk_inverse = 1000;
  resolution_rate = 1000;
  stability = 500;
  last_report_id = none;
  last_report_period_end = none;
}

compute_for_project-InBand_example : Scored naturals natural_laws 0 × InBand Band.red 0
unfolding compute_for_project ◌>>=◌ integrity compute_spi clamp compute_rag_avg compute_risk_inverse
    compute_resolution_rate compute_stability normalize_weights
compute_for_project-InBand_example =
    compute_for_project-InBand naturals natural_laws 5 none 10 drafted scored refl

-- A second draft of the period of the first.
abbrev doubled : ReportCreate
doubled = record { project_id = 10; period_start = 100; period_end = 107 }

create_report-clash_example :
    let after = (run (create_report 5 gp_user doubled) drafted).1 in
    ((r' : Report) × ((run (create_report 5 gp_user doubled) drafted).0 ≡ ok r')
      × (after.reports ≡ drafted.reports ++ r' ∷ []))
    × ((run (create_report_prepopulated 6 gp_user 10 100 107) after).0 ≡ err multiple_results)
unfolding integrity
create_report-clash_example =
    create_report-clash 5 gp_user doubled drafted project (report 50 ReportStatus.draft) refl refl
      refl (omega arith) refl refl 6
