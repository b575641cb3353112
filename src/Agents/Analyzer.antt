-- ===== src/Agents/Analyzer.antt =====
-- The stand-in of the analyzer of reports: `_process` of
-- backend/app/services/report_analyzer_stub.py, once its delay is over.
pub mod Insights
use gp_portal.Base.{
  ℕ, String, Bool, true, false, ◌&&◌, Option, none, some, List, [], ◌∷◌, ◌++◌, ◌==◌, leb, length,
  where_, count_where, str_eq, if◌then◌else◌,
}
use gp_portal.Domain.{
  RiskLevel, PendingItemStatus, InsightScope, Uuid, DateTime, DeliveryProgress, Risk, PendingItem,
  Report, Project, Insight, AiInsight, level, is_open_risk,
}
use gp_portal.Store.{
  Db, M, pure, gets, modify, new_uuid, commit, ◌>>=◌, ◌>>◌, get_report, get_project,
}

abbrev pub is_critical : RiskLevel → Bool
is_critical RiskLevel.critical = true
is_critical _ = false

abbrev pub is_open_item : PendingItemStatus → Bool
is_open_item PendingItemStatus.opened = true
is_open_item _ = false

-- `owner_party == "client"`
abbrev pub is_clients : Option String → Bool
is_clients none = false
is_clients (some t) = str_eq t "client"

abbrev pub drift_insights : List DeliveryProgress → List Insight
drift_insights progresses =
    let deviations = count_where (λ p. p.deviation_flag) progresses in
    if leb 2 deviations then Insight.schedule_drift deviations (length progresses) ∷ [] else []

abbrev pub risk_texts : List Risk → List String
risk_texts [] = []
risk_texts (r ∷ l) = r.description ∷ risk_texts l

abbrev pub item_texts : List PendingItem → List String
item_texts [] = []
item_texts (p ∷ l) = p.description ∷ item_texts l

abbrev pub critical_insights : List Risk → List Insight
critical_insights [] = []
critical_insights (r ∷ l) = Insight.critical_risk_alert (risk_texts (r ∷ l)) ∷ []

abbrev pub blocking_insights : List PendingItem → List Insight
blocking_insights items =
    if leb 3 (length items) then Insight.client_blocking_items (item_texts items) ∷ [] else []

abbrev pub or_all_clear : List Insight → List Insight
or_all_clear [] = Insight.all_clear ∷ []
or_all_clear (x ∷ l) = x ∷ l

abbrev pub progresses_of : Uuid → Db → List DeliveryProgress
progresses_of k db = where_ (λ p. p.report_id == k) db.progresses

abbrev pub critical_risks_of : Uuid → Db → List Risk
critical_risks_of k db =
    where_ (λ r. is_critical (level r))
      (where_ (λ r. r.report_id == k && is_open_risk r.status) db.risks)

abbrev pub client_items_of : Uuid → Db → List PendingItem
client_items_of k db =
    where_ (λ p. p.report_id == k && (is_open_item p.status && is_clients p.owner_party))
      db.pending_items

-- The severity, which the kind and its count determine.
pub data Severity : Type 0 where
  info medium high critical : Severity

abbrev pub severity : Insight → Severity
severity (Insight.schedule_drift n total) = if leb 4 n then Severity.high else Severity.medium
severity (Insight.critical_risk_alert risks) = Severity.critical
severity (Insight.client_blocking_items items) = Severity.medium
severity Insight.all_clear = Severity.info

unfoldable pub insights_of : Uuid → Db → List Insight
insights_of k db = or_all_clear (
    drift_insights (progresses_of k db)
    ++ (critical_insights (critical_risks_of k db) ++ blocking_insights (client_items_of k db)))

abbrev pub insight_row : DateTime → Uuid → Uuid → Uuid → Insight → AiInsight
insight_row now k project_id report_id x = record {
  id = k;
  scope = InsightScope.project;
  project_id = some project_id;
  report_id = some report_id;
  agent_run_id = none;
  payload = x;
  created_at = now;
}

unfoldable pub add_insights : DateTime → Uuid → Uuid → List Insight → M (Unit {0})
add_insights now project_id report_id [] = pure tt
add_insights now project_id report_id (x ∷ l) = do
  k ← new_uuid
  modify λ db. record db { insights = db.insights ++ insight_row now k project_id report_id x ∷ [] }
  add_insights now project_id report_id l

abbrev pub analyze_in : DateTime → Report → Option Project → M (Unit {0})
analyze_in now report none = pure tt
analyze_in now report (some project) = do
  found ← gets (insights_of report.id)
  add_insights now project.id report.id found
  commit

abbrev pub analyze_found : DateTime → Option Report → M (Unit {0})
analyze_found now none = pure tt
analyze_found now (some report) = do
  project ← gets (get_project report.project_id)
  analyze_in now report project

unfoldable pub analyze_report : DateTime → Uuid → M (Unit {0})
unfolding insights_of add_insights
analyze_report now report_id = do report ← gets (get_report report_id); analyze_found now report
