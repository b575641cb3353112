-- ===== src/HealthScore/Frame.antt =====
-- The tables that the computation of the score writes: that of the configuration.
use gp_portal.Base.{Option, none, some}
use gp_portal.Domain.{Uuid, Date, DateTime, PortfolioConfig, Project}
use gp_portal.Store.{Db, Keeps, Keeps-modify, Keeps-bind, Keeps-pure, keeps_rules}
use gp_portal.HealthScore.{
  Floats, compute_spi, get_or_create_config, or_create, config_or, compute_for_project,
}

module _ {P : Db → Type 0}
    (blind : (db : Db) (cfg : Option PortfolioConfig)
      → P db
      → P (record db { portfolio_config = cfg })) where
  Keeps-or_create : (now : DateTime) (c : Option PortfolioConfig) → Keeps P (or_create now c)
  Keeps-or_create now (some c) = Keeps-pure c
  Keeps-or_create now none =
      Keeps-bind _ _ (Keeps-modify _ (λ db h. blind db _ h)) λ _. search keeps_rules

  pub Keeps-get_or_create_config : (now : DateTime) → Keeps P (get_or_create_config now)
  unfolding get_or_create_config
  Keeps-get_or_create_config now = search (keeps_rules, Keeps-or_create)

  Keeps-config_or : (now : DateTime) (c : Option PortfolioConfig) → Keeps P (config_or now c)
  Keeps-config_or now (some c) = Keeps-pure c
  Keeps-config_or now none = Keeps-get_or_create_config now

  Keeps-compute_spi : (fl : Floats) (d : Date) (p : Project) → Keeps P (compute_spi fl d p)
  unfolding compute_spi
  Keeps-compute_spi fl d p = search keeps_rules

  pub Keeps-compute_for_project :
      (fl : Floats) (now : DateTime) (c : Option PortfolioConfig) (k : Uuid)
      → Keeps P (compute_for_project fl now c k)
  unfolding compute_for_project
  Keeps-compute_for_project fl now c k =
      Keeps-bind _ _ (Keeps-config_or now c)
        λ config. search (keeps_rules, Keeps-compute_spi) depth 24
