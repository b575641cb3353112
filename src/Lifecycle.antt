-- ===== src/Lifecycle.antt =====
-- The life of the reports: the requests of backend/app/api/v1/reports.py, approvals.py and
-- client_portal.py that write a report, and the rows after any sequence of them.
use gp_portal.Base.{All, List, [], ◌∷◌}
use gp_portal.Domain.{Uuid, Date, DateTime, User}
use gp_portal.Store.{Db, run}
use gp_portal.HealthScore.{Floats}
use gp_portal.Report.Create.{ReportCreate, create_report}
use gp_portal.Report.Patch.{ReportPatch, patch_report}
use gp_portal.Report.Submit.{submit_report}
use gp_portal.Report.Approval.{ApprovalDecisionPayload, decide_report, confirm_read}
use gp_portal.Report.Rule.{ReportRule, AllHold}
use gp_portal.Report.Rule.Edit.{create_report-Holds, patch_report-Holds}
use gp_portal.Report.Rule.Submit.{submit_report-Holds}
use gp_portal.Report.Rule.Decide.{decide_report-Holds, confirm_read-Holds}
use gp_portal.Report.Validity.{IsValid, validity}
use gp_portal.Report.Approved.{IsApproved, approval_rule}
use gp_portal.Prepopulate.{create_report_prepopulated}
use gp_portal.Prepopulate.Frame.{create_report_prepopulated-Holds}

pub data ReportRequest : Type 0 where
  create : ReportCreate → ReportRequest
  create_prepopulated : Uuid → Date → Date → ReportRequest
  patch : Uuid → ReportPatch → ReportRequest
  submit : Uuid → ReportRequest
  decide : Uuid → ApprovalDecisionPayload → ReportRequest
  confirm : Uuid → ReportRequest

-- A request, the user who makes it and the time at which it is served.
pub record Call : Type 0 where
  pub now : DateTime
  pub user : User
  pub request : ReportRequest

module _ (fl : Floats) where
  -- The rows that a request leaves, whatever it answers.
  unfoldable pub serve : DateTime → User → ReportRequest → Db → Db
  serve now user (create p) db = (run (create_report now user p) db).1
  serve now user (create_prepopulated k first last) db =
      (run (create_report_prepopulated now user k first last) db).1
  serve now user (patch k p) db = (run (patch_report now user k p) db).1
  serve now user (submit k) db = (run (submit_report fl now user k) db).1
  serve now user (decide k p) db = (run (decide_report now user k p) db).1
  serve now user (confirm k) db = (run (confirm_read now user k) db).1

  -- The rows after a sequence of requests, the first one first.
  unfoldable pub after : List Call → Db → Db
  unfolding serve
  after [] db = db
  after (c ∷ cs) db = after cs (serve c.now c.user c.request db)

  serve-Holds :
      (rule : ReportRule) (now : DateTime) (user : User) (r : ReportRequest) (db : Db)
      → AllHold rule db
      → AllHold rule (serve now user r db)
  unfolding serve
  serve-Holds rule now user (create p) db h = create_report-Holds rule now user p db h
  serve-Holds rule now user (create_prepopulated k first last) db h =
      create_report_prepopulated-Holds rule now user k first last db h
  serve-Holds rule now user (patch k p) db h = patch_report-Holds rule now user k p db h
  serve-Holds rule now user (submit k) db h = submit_report-Holds rule fl now user k db h
  serve-Holds rule now user (decide k p) db h = decide_report-Holds rule now user k p db h
  serve-Holds rule now user (confirm k) db h = confirm_read-Holds rule now user k db h

  after-Holds :
      (rule : ReportRule) (cs : List Call) (db : Db) → AllHold rule db → AllHold rule (after cs db)
  unfolding after
  after-Holds rule [] db h = h
  after-Holds rule (c ∷ cs) db h =
      after-Holds rule cs _ (serve-Holds rule c.now c.user c.request db h)

  -- After any sequence of the requests that write a report, whatever each of them answers, every
  -- report that is neither a draft nor sent back for revision is complete, if that was so before:
  -- its three dimensions are stated, those that are not green are justified, and its aggregate is
  -- the one of the three.
  pub after-IsValid :
      (cs : List Call) (db : Db) → All IsValid db.reports → All IsValid (after cs db).reports
  after-IsValid cs db h = after-Holds validity cs db h

  -- After any sequence of the requests that write a report, whatever each of them answers, a report
  -- that the PMO has approved has a favourable decision of the PMO among the approvals, and a report
  -- that is released has one of the PMO and one of the client, if that was so before.
  pub after-IsApproved :
      (cs : List Call) (db : Db)
      → All (IsApproved db.approvals) db.reports
      → All (IsApproved (after cs db).approvals) (after cs db).reports
  after-IsApproved cs db h = after-Holds approval_rule cs db h
