-- ===== src/HealthScore/Components.antt =====
-- The weights and the five components of backend/app/services/health_score.py.
use gp_portal.Base.{
  ◌-◌, true, Option, none, some, List, [], ◌∷◌, ◌&&◌, ltb, leb, ◌==◌, map, where_, length,
  catch_some, count_where, if◌then◌else◌,
}
use gp_portal.Domain.{
  RagStatus, Date, Decimal, Weights, Project, Baseline, Deliverable, Report, Risk, PendingItem,
  level, is_open_risk,
}
use gp_portal.Store.{Db, M, gets, scalar_one_or_none, ◌>>=◌}
use gp_portal.HealthScore.Arithmetic.{Floats, decimal, clamp}
use gp_portal.HealthScore.Queries.{
  default_weights, start_of, active_baselines, rag_numeric, risk_level_value, is_resolved,
  greatest_percent, stability_of, recent_rags,
}

module _ (fl : Floats) where
  open fl use {F, of_nat, of_decimal, add, sub, mul, div, abs, sum, lt, le}

  pub record AppliedWeights : Type 0 where
    pub rag_avg : F
    pub spi : F
    pub risk_inverse : F
    pub resolution_rate : F
    pub stability : F

  abbrev pub weight_or : Decimal → Option Decimal → F
  weight_or default none = of_decimal default
  weight_or default (some w) = of_decimal w

  abbrev pub read_weights : Weights → AppliedWeights
  read_weights w = record {
    rag_avg = weight_or (decimal 35 2) w.rag_avg;
    spi = weight_or (decimal 25 2) w.spi;
    risk_inverse = weight_or (decimal 20 2) w.risk_inverse;
    resolution_rate = weight_or (decimal 10 2) w.resolution_rate;
    stability = weight_or (decimal 10 2) w.stability;
  }

  abbrev pub total_weight : AppliedWeights → F
  total_weight w = sum (w.rag_avg ∷ w.spi ∷ w.risk_inverse ∷ w.resolution_rate ∷ w.stability ∷ [])

  unfoldable pub normalize_weights : Weights → AppliedWeights
  normalize_weights raw =
      let w = read_weights raw in
      let total = total_weight w in
      if le total (of_nat 0)
      then read_weights default_weights
      else if le (abs (sub total (of_nat 1))) (of_decimal (decimal 1 2))
      then w
      else record {
        rag_avg = div w.rag_avg total;
        spi = div w.spi total;
        risk_inverse = div w.risk_inverse total;
        resolution_rate = div w.resolution_rate total;
        stability = div w.stability total;
      }

  abbrev pub average : List F → F
  average xs = div (sum xs) (of_nat (length xs))

  abbrev pub rag_or_neutral : Option RagStatus → F
  rag_or_neutral none = of_nat 50
  rag_or_neutral (some r) = of_nat (rag_numeric r)

  -- The average over the dimensions that are set, else the aggregate.
  abbrev pub average_rag : List RagStatus → Option RagStatus → F
  average_rag [] aggregate = rag_or_neutral aggregate
  average_rag (r ∷ rs) aggregate = average (map (λ x. of_nat (rag_numeric x)) (r ∷ rs))

  unfoldable pub compute_rag_avg : Option Report → F
  compute_rag_avg none = of_nat 50
  compute_rag_avg (some r) =
      average_rag (catch_some (λ d. d) (r.rag_prazo ∷ r.rag_escopo ∷ r.rag_qualidade ∷ []))
        r.rag_status

  -- The days from `start` to `today`, which may be negative.
  abbrev pub elapsed_days : Date → Date → F
  elapsed_days start today =
      if ltb today start
      then of_decimal (record { negative = true; digits = start - today; places = 0 })
      else of_nat (today - start)

  -- A deliverable with no due date after the start is left out.
  abbrev pub planned_of : Date → Date → Deliverable → Option F
  planned_of start today d = elim d.due_date [
    | none ↦ none
    | some due ↦
        if leb due start
        then none
        else some
            (clamp fl (mul (div (elapsed_days start today) (of_nat (due - start))) (of_nat 100)))
  ]

  -- The actual percentages of the deliverables that count, and the planned ones.
  abbrev pub real_pcts : Db → Date → Date → List Deliverable → List F
  real_pcts db start today ds =
      catch_some
        (λ d. elim (planned_of start today d) [
          | none ↦ none
          | some _ ↦
              some
                (of_nat (greatest_percent (where_ (λ p. p.deliverable_id == d.id) db.progresses)))
        ])
        ds

  abbrev pub spi_of : List F → List F → F
  spi_of real [] = of_nat 100
  spi_of real (p ∷ ps) =
      let planned = average (p ∷ ps) in
      if le planned (of_nat 0)
      then (if lt (of_nat 0) (average real) then of_nat 100 else of_nat 50)
      else clamp fl (mul (div (average real) planned) (of_nat 100))

  abbrev pub spi_against : Db → Date → Date → Option Baseline → F
  spi_against db start today none = of_nat 100
  spi_against db start today (some b) =
      let ds = where_ (λ d. d.baseline_id == b.id) db.deliverables in
      spi_of (real_pcts db start today ds) (catch_some (planned_of start today) ds)

  unfoldable pub compute_spi : Date → Project → M F
  compute_spi today project = do
    active ← scalar_one_or_none (← gets (active_baselines project.id))
    gets (λ db. spi_against db (start_of project) today active)

  -- The weighted sum of the levels, each with its value as its weight, and the sum of the weights.
  abbrev pub weigh_risks : F → F → List Risk → F × F
  weigh_risks weighted weight [] = (weighted, weight)
  weigh_risks weighted weight (r ∷ rs) =
      let v = of_nat (risk_level_value (level r)) in
      weigh_risks (add weighted (mul v v)) (add weight v) rs

  abbrev pub risk_inverse_of : List Risk → F
  risk_inverse_of [] = of_nat 100
  risk_inverse_of (r ∷ rs) =
      let (weighted, weight) = weigh_risks (of_nat 0) (of_nat 0) (r ∷ rs) in
      if le weight (of_nat 0) then of_nat 100 else clamp fl (sub (of_nat 100) (div weighted weight))

  unfoldable pub compute_risk_inverse : Option Report → Db → F
  compute_risk_inverse none db = of_nat 100
  compute_risk_inverse (some r) db =
      risk_inverse_of (where_ (λ x. x.report_id == r.id && is_open_risk x.status) db.risks)

  abbrev pub resolution_of : List PendingItem → F
  resolution_of [] = of_nat 100
  resolution_of (p ∷ ps) = clamp fl (
      mul
        (div (of_nat (count_where (λ x. is_resolved x.status) (p ∷ ps))) (of_nat (length (p ∷ ps))))
        (of_nat 100))

  unfoldable pub compute_resolution_rate : Option Report → Db → F
  compute_resolution_rate none db = of_nat 100
  compute_resolution_rate (some r) db =
      resolution_of (where_ (λ x. x.report_id == r.id) db.pending_items)

  unfoldable pub compute_stability : Project → Db → F
  unfolding stability_of
  compute_stability project db = of_nat (stability_of (recent_rags project.id db))
