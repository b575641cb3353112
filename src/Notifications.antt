-- ===== src/Notifications.antt =====
-- backend/app/services/notifications.py: the rows that it adds. The SSE event and the e-mail that
-- go with a row leave the database as it is, and their failures are caught where they arise.
pub mod Frame
pub mod Reading
use gp_portal.Base.{
  ℕ, String, Bool, true, false, not, Option, none, some, List, [], ◌∷◌, ◌++◌, ◌+◌, is_blank,
  no_text, where_, if◌then◌else◌,
}
use gp_portal.Domain.{
  Role, ReportStatus, ApprovalDecision, Uuid, DateTime, User, Project, Baseline, Report,
  ReportApproval, NotificationKind, Body, Link, InAppNotification,
}
use gp_portal.Store.{Db, M, pure, gets, modify, new_uuid, flush, commit, ◌>>=◌, ◌>>◌, get_user}
use gp_portal.Access.{same_role}

-- `_create_inapp`
unfoldable pub create_inapp :
    DateTime → Uuid → NotificationKind → String → Body → Link → M (Unit {0})
create_inapp now user_id kind title body link = do
  k ← new_uuid
  modify λ db. record db {
    notifications =
        db.notifications
        ++ record {
          id = k;
          user_id = user_id;
          kind = kind;
          title = title;
          body = body;
          link = link;
          read_at = none;
          created_at = now;
        }
          ∷ [];
  }
  flush

-- The user may be gone: then nobody is told.
unfoldable pub tell :
    DateTime → Option User → NotificationKind → String → Body → Link → M (Unit {0})
unfolding create_inapp
tell now none kind title body link = pure tt
tell now (some u) kind title body link = create_inapp now u.id kind title body link

unfoldable pub tell_all :
    DateTime → List User → NotificationKind → String → Body → Link → M (Unit {0})
unfolding create_inapp
tell_all now [] kind title body link = pure tt
tell_all now (u ∷ us) kind title body link = do
  create_inapp now u.id kind title body link
  tell_all now us kind title body link

unfoldable pub notify_report_submitted : DateTime → Report → Project → M (Unit {0})
unfolding tell_all
notify_report_submitted now report project = do
  pmos ← gets (λ db. where_ (λ u. same_role u.role Role.pmo) db.users)
  tell_all now pmos NotificationKind.report_submitted project.name
      (Body.period report.period_start report.period_end) (Link.review report.id)
  commit

abbrev get_client : Option Uuid → Db → Option User
get_client none db = none
get_client (some k) db = get_user k db

-- The kind and the body of what the GP reads when the PMO has approved.
abbrev approved_kind : Option String → NotificationKind
approved_kind c =
    if no_text c
    then NotificationKind.report_pmo_approved
    else NotificationKind.report_pmo_approved_with_comment

abbrev approved_body : Report → Option String → Body
approved_body r none = Body.period r.period_start r.period_end
approved_body r (some c) =
    if is_blank c
    then Body.period r.period_start r.period_end
    else Body.period_with_note r.period_start r.period_end c

-- `approval.comment or f"Decisão: {decided}"`
abbrev revision_body : ReportApproval → Option String → Body
revision_body a none = Body.decision a.decision
revision_body a (some String.[]) = Body.decision a.decision
revision_body a (some c) = Body.comment c

unfoldable pub inform_of :
    DateTime → ReportStatus → Report → ReportApproval → Project → M (Unit {0})
unfolding tell
inform_of now ReportStatus.pmo_approved report approval project = do
  client ← gets (get_client project.client_user_id)
  tell now client NotificationKind.report_pending_release project.name
      (Body.period report.period_start report.period_end) (Link.portal report.id)
  gp ← gets (get_user project.gp_user_id)
  tell now gp (approved_kind approval.comment) project.name (approved_body report approval.comment)
      (Link.edit project.id report.id)
inform_of now ReportStatus.client_released report approval project = do
  gp ← gets (get_user project.gp_user_id)
  tell now gp NotificationKind.report_client_released project.name
      (Body.period report.period_start report.period_end) (Link.edit project.id report.id)
inform_of now ReportStatus.needs_revision report approval project = do
  gp ← gets (get_user project.gp_user_id)
  tell now gp NotificationKind.report_needs_revision project.name
      (revision_body approval approval.comment) (Link.edit project.id report.id)
inform_of now _ report approval project = pure tt

unfoldable pub notify_approval_decision :
    DateTime → Report → ReportApproval → Project → M (Unit {0})
unfolding inform_of
notify_approval_decision now report approval project = do
  inform_of now report.status report approval project
  commit

abbrev rejected_body : ℕ → Option String → Body
rejected_body n none = Body.changes n
rejected_body n (some c) = if is_blank c then Body.changes n else Body.changes_with_reason n c

-- `if not gp: return` and what follows it; `approve` is `decision == "approve"`.
unfoldable pub inform_gp :
    DateTime → Option User → Project → Baseline → Bool → ℕ → Option String → M (Unit {0})
unfolding create_inapp
inform_gp now none project baseline approve count comment = pure tt
inform_gp now (some u) project baseline approve count comment = do
  create_inapp now u.id
      (if approve
        then NotificationKind.scope_transition_approved
        else NotificationKind.scope_transition_rejected)
      project.name (if approve then Body.changes count else rejected_body count comment)
      (Link.diff project.id baseline.id)
  commit

unfoldable pub notify_transition_decision :
    DateTime → Project → Baseline → Bool → ℕ → Option String → M (Unit {0})
unfolding inform_gp
notify_transition_decision now project baseline approve count comment = do
  gp ← gets (get_user project.gp_user_id)
  inform_gp now gp project baseline approve count comment
