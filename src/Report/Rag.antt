-- ===== src/Report/Rag.antt =====
-- The aggregate of the three RAG dimensions: `_aggregate_rag` of backend/app/api/v1/reports.py.
pub mod Worst
use gp_portal.Base.{ℕ, Option, none, some, ltb, if◌then◌else◌}
use gp_portal.Domain.{RagStatus}

-- `_RAG_RANK`
abbrev pub rag_rank : RagStatus → ℕ
rag_rank RagStatus.green = 0
rag_rank RagStatus.amber = 1
rag_rank RagStatus.red = 2

-- `max(a, b, key=_RAG_RANK)`: the first of the greatest.
abbrev pub worse : RagStatus → RagStatus → RagStatus
worse a b = if ltb (rag_rank a) (rag_rank b) then b else a

unfoldable pub aggregate_rag :
    Option RagStatus → Option RagStatus → Option RagStatus → Option RagStatus
aggregate_rag (some p) (some e) (some q) = some (worse (worse p e) q)
aggregate_rag _ _ _ = none
