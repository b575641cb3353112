-- ===== src/Agents/Analyzer/Insights.antt =====
-- The insights that the analyzer writes: `_process` of backend/app/services/report_analyzer_stub.py.
use gp_portal.Base.{◌≡◌, ◌+◌, ◌≤◌, some, List, [], ◌∷◌, ◌++◌, length, ◌≢◌, ◌⊎◌, All, count_where}
use gp_portal.Domain.{
  Uuid, DateTime, DeliveryProgress, Risk, PendingItem, Report, Project, Insight, AiInsight,
  InsightScope,
}
use gp_portal.Store.{Db}
use gp_portal.Agents.Analyzer.{
  progresses_of, critical_risks_of, client_items_of, insight_row, risk_texts, item_texts,
}

-- The rows of a list of insights, with keys from the next one on.
abbrev pub rows_from : DateTime → Uuid → Uuid → Uuid → List Insight → List AiInsight
rows_from now project_id report_id k [] = []
rows_from now project_id report_id k (x ∷ l) =
    insight_row now k project_id report_id x ∷ rows_from now project_id report_id (k + 1) l

-- The insights that the progresses, the critical open risks and the open items of the client give.
pub record Findings (progresses : List DeliveryProgress) (risks : List Risk)
    (items : List PendingItem) (l : List Insight) : Type 0 where
  pub drift : List Insight
  pub drifts :
      (count_where (λ p. p.deviation_flag) progresses ≤ 1) × (drift ≡ [])
      ⊎ (2 ≤ count_where (λ p. p.deviation_flag) progresses)
        × (drift
            ≡ Insight.schedule_drift
                (count_where (λ p. p.deviation_flag) progresses)
                (length progresses)
              ∷ [])
  pub alert : List Insight
  pub alerts :
      (risks ≡ []) × (alert ≡ [])
      ⊎ (risks ≢ []) × (alert ≡ Insight.critical_risk_alert (risk_texts risks) ∷ [])
  pub blocking : List Insight
  pub blocks :
      (length items ≤ 2) × (blocking ≡ [])
      ⊎ (3 ≤ length items) × (blocking ≡ Insight.client_blocking_items (item_texts items) ∷ [])
  pub whole :
      (drift ++ (alert ++ blocking) ≡ []) × (l ≡ Insight.all_clear ∷ [])
      ⊎ (l ≢ []) × (l ≡ drift ++ (alert ++ blocking))

-- The row is a new insight on the report and its project.
pub record IsOn (now : DateTime) (project_id report_id : Uuid) (x : AiInsight) : Type 0 where
  pub scope : x.scope ≡ InsightScope.project
  pub project : x.project_id ≡ some project_id
  pub report : x.report_id ≡ some report_id
  pub stamped : x.created_at ≡ now

abbrev pub payloads_of : List AiInsight → List Insight
payloads_of [] = []
payloads_of (x ∷ l) = x.payload ∷ payloads_of l

-- What an analysis has added.
pub record Analysis (now : DateTime) (report : Report) (project : Project) (db after : Db)
    : Type 0 where
  pub added : List AiInsight
  pub stored : after.insights ≡ db.insights ++ added
  pub own : All (IsOn now project.id report.id) added
  pub findings :
      Findings
        (progresses_of report.id db)
        (critical_risks_of report.id db)
        (client_items_of report.id db)
        (payloads_of added)
  pub at_least : 1 ≤ length added
  pub at_most : length added ≤ 3
