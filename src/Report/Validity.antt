-- ===== src/Report/Validity.antt =====
-- The dimensions, justifications and aggregate that a submitted report states, as a rule on its
-- row.
use gp_portal.Domain.{Date}
use gp_portal.Report.Create.{new_report}
use gp_portal.Report.Rule.{ReportRule, awaited}
use gp_portal.Report.Patch.{patch_scalars}
use gp_portal.Base.{String, ◌≡◌, refl, true, false, Option, none, some, arith, no_text}
use gp_portal.Domain.{
  Tenths, ApprovalStage, ApprovalDecision, RagStatus, ReportStatus, Uuid, DateTime, Report,
}
use gp_portal.Report.Submit.{missing_dims, missing_just, submitted_at}
use gp_portal.Report.Rag.{aggregate_rag}
use gp_portal.Report.Patch.{is_editable, ReportPatch, patch_scalars}
use gp_portal.Report.Approval.{decided, next_status, released}

-- The dimension is stated, and justified unless it is green.
abbrev pub IsJustified : Option RagStatus → Option String → Type 0
IsJustified none just = ⊥
IsJustified (some RagStatus.green) just = Unit
IsJustified (some RagStatus.amber) just = no_text just ≡ false
IsJustified (some RagStatus.red) just = no_text just ≡ false

pub record IsComplete (r : Report) : Type 0 where
  pub prazo : IsJustified r.rag_prazo r.rag_prazo_justificativa
  pub escopo : IsJustified r.rag_escopo r.rag_escopo_justificativa
  pub qualidade : IsJustified r.rag_qualidade r.rag_qualidade_justificativa
  pub aggregate : r.rag_status ≡ aggregate_rag r.rag_prazo r.rag_escopo r.rag_qualidade

abbrev pub IsValid : Report → Type 0
IsValid r = is_editable r.status ≡ false → IsComplete r

pub decided-IsValid :
    (now : DateTime) (st : ApprovalStage) (d : ApprovalDecision) (r : Report)
    → IsComplete r
    → IsValid (decided now (next_status st d) r)
decided-IsValid now st ApprovalDecision.requested_changes r h = λ e. cc
decided-IsValid now ApprovalStage.pmo _ r h = λ e. record {
  prazo = h.prazo;
  escopo = h.escopo;
  qualidade = h.qualidade;
  aggregate = h.aggregate;
}
decided-IsValid now ApprovalStage.client _ r h = λ e. record {
  prazo = h.prazo;
  escopo = h.escopo;
  qualidade = h.qualidade;
  aggregate = h.aggregate;
}

pub awaited-not_editable : (st : ApprovalStage) → is_editable (awaited st) ≡ false
awaited-not_editable ApprovalStage.pmo = refl
awaited-not_editable ApprovalStage.client = refl

pub released-IsValid :
    (now : DateTime) (st : ReportStatus) (r : Report)
    → r.status ≡ st
    → IsValid r
    → IsValid (released now st r)
released-IsValid now ReportStatus.pmo_approved r e h = λ _.
    let c = h (rw e) in
    record { prazo = c.prazo; escopo = c.escopo; qualidade = c.qualidade; aggregate = c.aggregate }
released-IsValid now _ r e h = h

pub scored-IsValid :
    (t : Tenths) (r : Report) → IsValid r → IsValid (record r { health_score = some t })
scored-IsValid t r h = λ e.
    let c = h e in
    record { prazo = c.prazo; escopo = c.escopo; qualidade = c.qualidade; aggregate = c.aggregate }

pub submitted-IsComplete :
    (now : DateTime) (r : Report)
    → missing_dims r ≡ false
    → missing_just r ≡ false
    → IsComplete (submitted_at now r)
submitted-IsComplete now r dims just = ground arith

pub patched-IsValid :
    (p : ReportPatch) (r : Report) → is_editable r.status ≡ true → IsValid (patch_scalars p r)
patched-IsValid p r e = λ n. ground arith

pub created-IsValid :
    (k p : Uuid) (first last : Date) (author : Uuid) (now : DateTime)
    → IsValid (new_report k p first last author now)
created-IsValid k p first last author now = λ e. cc

abbrev pub validity : ReportRule
validity = record {
  Holds = λ log r. IsValid r;
  grows = λ log a r h. h;
  created = λ log k p first last author now. created-IsValid k p first last author now;
  patched = λ log p r e h. patched-IsValid p r e;
  submitted = λ log now r dims just h e. submitted-IsComplete now r dims just;
  scored = λ log t r h. scored-IsValid t r h;
  judged = λ log now a r same status h.
      decided-IsValid now a.stage a.decision r (h (rw status (awaited-not_editable a.stage)));
  confirmed = λ log now a r same stage decision readable h. released-IsValid now r.status r refl h;
}
