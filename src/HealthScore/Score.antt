-- ===== src/HealthScore/Score.antt =====
-- The aggregation, the configuration and the cache of backend/app/services/health_score.py.
use gp_portal.Base.{Option, none, some, leb, if◌then◌else◌}
use gp_portal.Domain.{Uuid, Date, DateTime, Tenths, Weights, PortfolioConfig, Report}
use gp_portal.Store.{
  M, value_error, pure, or_raise, gets, modify, commit, ◌>>=◌, ◌>>◌, get_project, set_report,
  set_project,
}
use gp_portal.HealthScore.Arithmetic.{Floats, clamp}
use gp_portal.HealthScore.Queries.{default_weights, date_of, last_submitted_report}
use gp_portal.HealthScore.Components.{
  AppliedWeights, normalize_weights, compute_rag_avg, compute_spi, compute_risk_inverse,
  compute_resolution_rate, compute_stability,
}

pub data Band : Type 0 where
  green amber red : Band

-- `_band` of a score that is rounded to one decimal.
unfoldable pub band : Tenths → Band
band score = if leb 700 score then Band.green else if leb 400 score then Band.amber else Band.red

abbrev pub default_config : DateTime → PortfolioConfig
default_config now = record {
  health_score_weights = default_weights;
  updated_at = now;
  updated_by_id = none;
}

abbrev pub or_create : DateTime → Option PortfolioConfig → M PortfolioConfig
or_create now (some cfg) = pure cfg
or_create now none = do
  modify λ db. record db { portfolio_config = some (default_config now) }
  commit
  pure (default_config now)

unfoldable pub get_or_create_config : DateTime → M PortfolioConfig
get_or_create_config now = do cfg ← gets (λ db. db.portfolio_config); or_create now cfg

abbrev pub new_config : DateTime → Weights → Option Uuid → PortfolioConfig
new_config now weights by = record {
  health_score_weights = weights;
  updated_at = now;
  updated_by_id = by;
}

unfoldable pub update_weights : DateTime → Weights → Option Uuid → M PortfolioConfig
unfolding get_or_create_config
update_weights now weights by = do
  get_or_create_config now
  modify λ db. record db { portfolio_config = some (new_config now weights by) }
  commit
  pure (new_config now weights by)

-- What a chart shows of a score, each part rounded as the score is; `weights_applied` is left out.
pub record HealthScoreBreakdown : Type 0 where
  pub project_id : Uuid
  pub score : Tenths
  pub band : Band
  pub rag_avg : Tenths
  pub spi : Tenths
  pub risk_inverse : Tenths
  pub resolution_rate : Tenths
  pub stability : Tenths
  pub last_report_id : Option Uuid
  pub last_report_period_end : Option Date

-- `cfg` as it was passed, or the stored one.
abbrev pub config_or : DateTime → Option PortfolioConfig → M PortfolioConfig
config_or now (some c) = pure c
config_or now none = get_or_create_config now

abbrev pub id_of : Option Report → Option Uuid
id_of none = none
id_of (some r) = some r.id

abbrev pub period_end_of : Option Report → Option Date
period_end_of none = none
period_end_of (some r) = some r.period_end

module _ (fl : Floats) where
  open fl use {F, add, mul, tenths}

  unfoldable pub weighted_score : AppliedWeights fl → F → F → F → F → F → Tenths
  weighted_score w rag spi risk rate stab = tenths (
      clamp fl (
        add
          (add (add (add (mul w.rag_avg rag) (mul w.spi spi)) (mul w.risk_inverse risk))
            (mul w.resolution_rate rate))
          (mul w.stability stab)))

  unfoldable pub compute_for_project :
      DateTime → Option PortfolioConfig → Uuid → M HealthScoreBreakdown
  unfolding get_or_create_config band weighted_score
  compute_for_project now cfg k = do
    config ← config_or now cfg
    found ← gets (get_project k)
    project ← or_raise found value_error
    last ← gets (last_submitted_report k)
    spi ← compute_spi fl (date_of now) project
    risk ← gets (compute_risk_inverse fl last)
    rate ← gets (compute_resolution_rate fl last)
    stab ← gets (compute_stability fl project)
    let rag = compute_rag_avg fl last
    let score =
        weighted_score (normalize_weights fl config.health_score_weights) rag spi risk rate stab
    pure (record {
      project_id = k;
      score = score;
      band = band score;
      rag_avg = tenths rag;
      spi = tenths spi;
      risk_inverse = tenths risk;
      resolution_rate = tenths rate;
      stability = tenths stab;
      last_report_id = id_of last;
      last_report_period_end = period_end_of last;
    })

unfoldable pub cache_to_report : Report → Tenths → M (Unit {0})
cache_to_report report score = do
  modify (set_report report.id (λ r. record r { health_score = some score }))
  modify (set_project report.project_id (λ p. record p { health_score_cached = some score }))
  commit
