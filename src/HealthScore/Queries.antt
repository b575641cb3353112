-- ===== src/HealthScore/Queries.antt =====
-- The constants of backend/app/services/health_score.py and the rows that the components read.
use gp_portal.Base.{
  ℕ, ◌+◌, ◌/◌, Bool, true, false, Option, none, some, List, [], ◌∷◌, ◌&&◌, ◌||◌, ltb, leb, ◌==◌,
  where_, length, all, sort, take, head_of, catch_some, if◌then◌else◌,
}
use gp_portal.Domain.{
  RagStatus, ReportStatus, RiskLevel, PendingItemStatus, BaselineStatus, Uuid, Date, DateTime,
  Weights, Project, Baseline, DeliveryProgress, Report,
}
use gp_portal.Store.{Db}
use gp_portal.HealthScore.Arithmetic.{decimal}

-- `DEFAULT_WEIGHTS`
abbrev pub default_weights : Weights
default_weights = record {
  rag_avg = some (decimal 35 2);
  spi = some (decimal 25 2);
  risk_inverse = some (decimal 20 2);
  resolution_rate = some (decimal 10 2);
  stability = some (decimal 10 2);
}

-- Microseconds from the start of day 1.
abbrev pub date_of : DateTime → Date
date_of t = t / 86400000000 + 1

-- `started_at or created_at.date()`
abbrev pub start_of : Project → Date
start_of p = elim p.started_at [ none ↦ date_of p.created_at | some d ↦ d ]

-- The statuses of a report that has been submitted.
abbrev pub is_submitted : ReportStatus → Bool
is_submitted ReportStatus.submitted = true
is_submitted ReportStatus.pmo_approved = true
is_submitted ReportStatus.client_released = true
is_submitted ReportStatus.archived = true
is_submitted _ = false

-- `order_by(period_end.desc(), created_at.desc())`
abbrev pub more_recent : Report → Report → Bool
more_recent a b =
    ltb b.period_end a.period_end || (a.period_end == b.period_end && leb b.created_at a.created_at)

abbrev pub submitted_reports : Uuid → Db → List Report
submitted_reports k db =
    sort more_recent (where_ (λ r. r.project_id == k && is_submitted r.status) db.reports)

-- `_last_submitted_report`
abbrev pub last_submitted_report : Uuid → Db → Option Report
last_submitted_report k db = head_of (submitted_reports k db)

abbrev pub is_active : BaselineStatus → Bool
is_active BaselineStatus.active = true
is_active _ = false

abbrev pub active_baselines : Uuid → Db → List Baseline
active_baselines k db = where_ (λ b. b.project_id == k && is_active b.status) db.baselines

-- `_RAG_NUMERIC`
abbrev pub rag_numeric : RagStatus → ℕ
rag_numeric RagStatus.green = 100
rag_numeric RagStatus.amber = 50
rag_numeric RagStatus.red = 0

-- `_RISK_LEVEL_VALUE`
abbrev pub risk_level_value : RiskLevel → ℕ
risk_level_value RiskLevel.critical = 100
risk_level_value RiskLevel.high = 75
risk_level_value RiskLevel.medium = 50
risk_level_value RiskLevel.low = 25

abbrev pub is_resolved : PendingItemStatus → Bool
is_resolved PendingItemStatus.resolved = true
is_resolved _ = false

-- `max(percent_complete, default=0)`
abbrev pub greatest_percent : List DeliveryProgress → ℕ
greatest_percent [] = 0
greatest_percent (p ∷ ps) =
    let rest = greatest_percent ps in
    if ltb rest p.percent_complete then p.percent_complete else rest

abbrev pub same_rag : RagStatus → RagStatus → Bool
same_rag RagStatus.green RagStatus.green = true
same_rag RagStatus.amber RagStatus.amber = true
same_rag RagStatus.red RagStatus.red = true
same_rag _ _ = false

-- The table of `compute_stability` over the statuses that are set, the latest first.
unfoldable pub stability_of : List RagStatus → ℕ
stability_of [] = 50
stability_of (r ∷ rs) =
    let steady = all (same_rag r) rs in
    if leb 5 (length (r ∷ rs)) && steady
    then rag_numeric r
    else if leb 3 (length (r ∷ rs)) && steady
    then 60
    else 30

-- The statuses that `compute_stability` reads.
abbrev pub recent_rags : Uuid → Db → List RagStatus
recent_rags k db = catch_some (λ r. r.rag_status) (take 5 (submitted_reports k db))
