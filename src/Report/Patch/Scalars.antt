-- ===== src/Report/Patch/Scalars.antt =====
-- The scalar fields of the PATCH, and the aggregate that follows the three dimensions.
use gp_portal.Base.{Bool, true, false, Option, none, some, ◌||◌}
use gp_portal.Domain.{Date, RagStatus, Report}
use gp_portal.Report.Rag.{aggregate_rag}
use gp_portal.Report.Patch.Payload.{Field, unset, given, assigned, ReportPatch}

abbrev pub is_given {ℓ} : {A : Type ℓ} → Field A → Bool
is_given unset = false
is_given (given a) = true

-- A period's end that is given as `None` never reaches the table: see `null_period`.
abbrev pub assigned_date : Date → Field (Option Date) → Date
assigned_date old unset = old
assigned_date old (given none) = old
assigned_date old (given (some d)) = d

abbrev pub is_null : Field (Option Date) → Bool
is_null (given none) = true
is_null _ = false

-- `period_start` or `period_end` is assigned `None`, which its column does not take.
abbrev pub null_period : ReportPatch → Bool
null_period p = is_null p.period_start || is_null p.period_end

abbrev pub kept_or : Option RagStatus → Option RagStatus → Option RagStatus
kept_or old none = old
kept_or old (some a) = some a

-- The loop over `scalar_keys`.
abbrev pub set_scalars : ReportPatch → Report → Report
set_scalars p r = record r {
  period_start = assigned_date r.period_start p.period_start;
  period_end = assigned_date r.period_end p.period_end;
  rag_status = assigned r.rag_status p.rag_status;
  rag_prazo = assigned r.rag_prazo p.rag_prazo;
  rag_escopo = assigned r.rag_escopo p.rag_escopo;
  rag_qualidade = assigned r.rag_qualidade p.rag_qualidade;
  rag_prazo_justificativa = assigned r.rag_prazo_justificativa p.rag_prazo_justificativa;
  rag_escopo_justificativa = assigned r.rag_escopo_justificativa p.rag_escopo_justificativa;
  rag_qualidade_justificativa =
      assigned r.rag_qualidade_justificativa p.rag_qualidade_justificativa;
  highlights = assigned r.highlights p.highlights;
  next_steps = assigned r.next_steps p.next_steps;
  notes = assigned r.notes p.notes;
}

abbrev pub sync_rag : Bool → Report → Report
sync_rag true r = record r {
  rag_status = kept_or r.rag_status (aggregate_rag r.rag_prazo r.rag_escopo r.rag_qualidade);
}
sync_rag false r = r

abbrev pub patch_scalars : ReportPatch → Report → Report
patch_scalars p r =
    sync_rag (is_given p.rag_prazo || is_given p.rag_escopo || is_given p.rag_qualidade)
      (set_scalars p r)
