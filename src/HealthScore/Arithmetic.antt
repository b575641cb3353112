-- ===== src/HealthScore/Arithmetic.antt =====
-- Python's floats, as an interface: their type and the operations that the score makes. `round(x,
-- 1)` is read as a number of tenths.
use gp_portal.Base.{ℕ, Bool, false, List, if◌then◌else◌}
use gp_portal.Domain.{Decimal}

pub record Floats : Type 1 where
  pub F : Type 0
  -- `float(n)` of an integer, and the float that a decimal literal or JSON number reads as.
  pub of_nat : ℕ → F
  pub of_decimal : Decimal → F
  pub add : F → F → F
  pub sub : F → F → F
  pub mul : F → F → F
  pub div : F → F → F
  pub abs : F → F
  -- The built-in `sum`.
  pub sum : List F → F
  pub lt : F → F → Bool
  pub le : F → F → Bool
  -- `round(x, 1)` of a float from 0 on.
  pub tenths : F → ℕ

abbrev pub decimal : ℕ → ℕ → Decimal
decimal digits places = record { negative = false; digits = digits; places = places }

module _ (fl : Floats) where
  open fl use {F, of_nat, lt}

  -- `max(lo, min(hi, v))` with the bounds 0 and 100: `min` and `max` keep the first of two that
  -- do not compare.
  unfoldable pub clamp : F → F
  clamp v =
      let capped = if lt v (of_nat 100) then v else of_nat 100 in
      if lt (of_nat 0) capped then capped else of_nat 0
