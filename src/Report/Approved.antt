-- ===== src/Report/Approved.antt =====
-- The approvals that a status asks for, as a rule on the rows of `ReportApproval` and `Report`.
use gp_portal.Base.{◌≡◌, refl, Bool, true, false, List, [], ◌∷◌, ◌++◌, ◌&&◌, ◌==◌, any, arith}
use gp_portal.Domain.{
  ReportStatus, ApprovalStage, ApprovalDecision, Uuid, DateTime, Report, ReportApproval,
}
use gp_portal.Report.Patch.{is_editable, patch_scalars, ReportPatch}
use gp_portal.Report.Approval.{released, decided, next_status}
use gp_portal.Report.Rule.{ReportRule, awaited}

abbrev pub at_stage : ApprovalStage → ApprovalStage → Bool
at_stage ApprovalStage.pmo ApprovalStage.pmo = true
at_stage ApprovalStage.client ApprovalStage.client = true
at_stage _ _ = false

abbrev pub is_favourable : ApprovalDecision → Bool
is_favourable ApprovalDecision.approved = true
is_favourable ApprovalDecision.approved_with_comment = true
is_favourable ApprovalDecision.requested_changes = false

-- The approval lets the report pass the stage.
abbrev pub passes : Uuid → ApprovalStage → ReportApproval → Bool
passes k stage a = a.report_id == k && at_stage a.stage stage && is_favourable a.decision

abbrev pub has_passed : List ReportApproval → Uuid → ApprovalStage → Bool
has_passed log k stage = any (passes k stage) log

-- What the status asks of the approvals.
abbrev pub approvals_suffice : List ReportApproval → Uuid → ReportStatus → Bool
approvals_suffice log k ReportStatus.pmo_approved = has_passed log k ApprovalStage.pmo
approvals_suffice log k ReportStatus.client_released =
    has_passed log k ApprovalStage.pmo && has_passed log k ApprovalStage.client
approvals_suffice log k _ = true

abbrev pub IsApproved : List ReportApproval → Report → Type 0
IsApproved log r = approvals_suffice log r.id r.status ≡ true

pub any-append_left :
    {A : Type 0} (p : A → Bool) (xs ys : List A) → any p xs ≡ true → any p (xs ++ ys) ≡ true
any-append_left p [] ys h = cc
any-append_left p (x ∷ xs) ys h = ground (arith, any-append_left p xs ys)

pub any-append_last :
    {A : Type 0} (p : A → Bool) (xs : List A) (y : A) → p y ≡ true → any p (xs ++ y ∷ []) ≡ true
any-append_last p [] y h = ground arith
any-append_last p (x ∷ xs) y h = ground (arith, any-append_last p xs y)

pub grown :
    (log : List ReportApproval) (a : ReportApproval) (k : Uuid) (st : ReportStatus)
    → approvals_suffice log k st ≡ true
    → approvals_suffice (log ++ a ∷ []) k st ≡ true
grown log a k ReportStatus.pmo_approved h = any-append_left _ log _ h
grown log a k ReportStatus.client_released h =
    let p = any-append_left (passes k ApprovalStage.pmo) log (a ∷ []) in
    let c = any-append_left (passes k ApprovalStage.client) log (a ∷ []) in ground arith
grown log a k ReportStatus.draft h = refl
grown log a k ReportStatus.submitted h = refl
grown log a k ReportStatus.needs_revision h = refl
grown log a k ReportStatus.archived h = refl

pub edited :
    (log : List ReportApproval) (k : Uuid) (st : ReportStatus)
    → is_editable st ≡ true
    → approvals_suffice log k st ≡ true
edited log k ReportStatus.draft h = refl
edited log k ReportStatus.needs_revision h = refl
edited log k _ h = ground arith

-- The approval of one stage by a favourable decision.
passed_by :
    (log : List ReportApproval) (a : ReportApproval) (k : Uuid) (st : ApprovalStage)
    → k ≡ a.report_id
    → at_stage a.stage st ≡ true
    → is_favourable a.decision ≡ true
    → has_passed (log ++ a ∷ []) k st ≡ true
passed_by log a k st same stage good =
    any-append_last (passes k st) log a (ground (arith, same, stage, good))

pub judged-suffice :
    (log : List ReportApproval) (now : DateTime) (a : ReportApproval) (r : Report)
    (st : ApprovalStage) (d : ApprovalDecision)
    → a.stage ≡ st
    → a.decision ≡ d
    → r.id ≡ a.report_id
    → r.status ≡ awaited st
    → IsApproved log r
    → IsApproved (log ++ a ∷ []) (decided now (next_status st d) r)
judged-suffice log now a r ApprovalStage.pmo ApprovalDecision.approved es ed same status h =
    passed_by log a r.id ApprovalStage.pmo same (rw es refl) (rw ed refl)
judged-suffice log now a r ApprovalStage.pmo ApprovalDecision.approved_with_comment es ed same
      status h =
    passed_by log a r.id ApprovalStage.pmo same (rw es refl) (rw ed refl)
judged-suffice log now a r ApprovalStage.pmo ApprovalDecision.requested_changes es ed same status
      h =
    refl
judged-suffice log now a r ApprovalStage.client ApprovalDecision.approved es ed same status h =
    let p = grown log a r.id ReportStatus.pmo_approved (rw status at h) in
    let c = passed_by log a r.id ApprovalStage.client same (rw es refl) (rw ed refl) in
    ground (arith, p, c)
judged-suffice log now a r ApprovalStage.client ApprovalDecision.approved_with_comment es ed same
      status h =
    let p = grown log a r.id ReportStatus.pmo_approved (rw status at h) in
    let c = passed_by log a r.id ApprovalStage.client same (rw es refl) (rw ed refl) in
    ground (arith, p, c)
judged-suffice log now a r ApprovalStage.client ApprovalDecision.requested_changes es ed same status
      h =
    refl

pub confirmed-suffice :
    (log : List ReportApproval) (now : DateTime) (a : ReportApproval) (r : Report)
    (st : ReportStatus)
    → r.status ≡ st
    → r.id ≡ a.report_id
    → a.stage ≡ ApprovalStage.client
    → a.decision ≡ ApprovalDecision.approved
    → IsApproved log r
    → IsApproved (log ++ a ∷ []) (released now st r)
confirmed-suffice log now a r ReportStatus.pmo_approved status same es ed h =
    let p = grown log a r.id ReportStatus.pmo_approved (rw status at h) in
    let c = passed_by log a r.id ApprovalStage.client same (rw es refl) (rw ed refl) in
    ground (arith, p, c)
confirmed-suffice log now a r _ status same es ed h = grown log a r.id r.status h

pub patched-suffice :
    (log : List ReportApproval) (p : ReportPatch) (r : Report)
    → is_editable r.status ≡ true
    → IsApproved log (patch_scalars p r)
patched-suffice log p r e = edited log _ _ (ground arith)

abbrev pub approval_rule : ReportRule
approval_rule = record {
  Holds = IsApproved;
  grows = λ log a r h. grown log a r.id r.status h;
  created = λ log k p first last author now. refl;
  patched = λ log p r e h. patched-suffice log p r e;
  submitted = λ log now r dims just h. refl;
  scored = λ log t r h. h;
  judged = λ log now a r same status h.
      judged-suffice log now a r a.stage a.decision refl refl same status h;
  confirmed = λ log now a r same stage decision readable h.
      confirmed-suffice log now a r r.status refl same stage decision h;
}
