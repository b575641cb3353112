-- ===== src/Report/Rag/Worst.antt =====
-- An independent description of the aggregate that `_aggregate_rag` computes.
use gp_portal.Base.{◌≤◌, ◌≡◌, refl, ap, ◌⊎◌, ◌↔◌, Option, none, some, arith}
use gp_portal.Domain.{RagStatus}
use gp_portal.Report.Rag.{rag_rank, worse, aggregate_rag}

-- The dimension is stated, and no worse than the colour.
abbrev pub AtWorst : RagStatus → Option RagStatus → Type 0
AtWorst w none = ⊥
AtWorst w (some a) = rag_rank a ≤ rag_rank w

-- No dimension is worse than the colour, and one has it.
pub record IsWorst (p e q : Option RagStatus) (w : RagStatus) : Type 0 where
  pub prazo : AtWorst w p
  pub escopo : AtWorst w e
  pub qualidade : AtWorst w q
  pub reached : (p ≡ some w) ⊎ (e ≡ some w) ⊎ (q ≡ some w)

worse_left : (a b : RagStatus) → rag_rank a ≤ rag_rank (worse a b)
worse_left a b = ground arith

worse_right : (a b : RagStatus) → rag_rank b ≤ rag_rank (worse a b)
worse_right a b = ground arith

worse_reached : (a b : RagStatus) → (worse a b ≡ a) ⊎ (worse a b ≡ b)
worse_reached a b = ground arith

rank-injective : (a b : RagStatus) → rag_rank a ≡ rag_rank b → a ≡ b
rank-injective a b h = ground arith

one_of :
    (p e q w : RagStatus)
    → worse (worse p e) q ≡ w
    → (some p ≡ some w) ⊎ (some e ≡ some w) ⊎ (some q ≡ some w)
one_of p e q w h =
    let outer = worse_reached (worse p e) q in
    let inner = worse_reached p e in ground (arith, outer, inner, h)

aggregate-IsWorst :
    (p e q : Option RagStatus) (w : RagStatus) → aggregate_rag p e q ≡ some w → IsWorst p e q w
unfolding aggregate_rag
aggregate-IsWorst (some p) (some e) (some q) w h = record {
  prazo = ground (arith, worse_left p e, worse_left (worse p e) q);
  escopo = ground (arith, worse_right p e, worse_left (worse p e) q);
  qualidade = ground (arith, worse_right (worse p e) q);
  reached = one_of p e q w (ground arith);
}
aggregate-IsWorst none e q w h = cc
aggregate-IsWorst (some p) none q w h = cc
aggregate-IsWorst (some p) (some e) none w h = cc

IsWorst-aggregate :
    (p e q : Option RagStatus) (w : RagStatus) → IsWorst p e q w → aggregate_rag p e q ≡ some w
unfolding aggregate_rag
IsWorst-aggregate none e q w h = elim h.prazo [ ]
IsWorst-aggregate (some p) none q w h = elim h.escopo [ ]
IsWorst-aggregate (some p) (some e) none w h = elim h.qualidade [ ]
IsWorst-aggregate (some p) (some e) (some q) w h = ap some (
    rank-injective _ _ (
      ground (
        arith,
        h.prazo,
        h.escopo,
        h.qualidade,
        h.reached,
        worse_left p e,
        worse_right p e,
        worse_left (worse p e) q,
        worse_right (worse p e) q,
        one_of p e q _ refl,
      )))

-- The aggregate of three dimensions is a colour exactly when all three are stated, none is worse
-- than that colour and one has it.
pub aggregate_rag-IsWorst :
    (p e q : Option RagStatus) (w : RagStatus) → aggregate_rag p e q ≡ some w ↔ IsWorst p e q w
aggregate_rag-IsWorst p e q w = (aggregate-IsWorst p e q w, IsWorst-aggregate p e q w)
