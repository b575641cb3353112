-- ===== src/HealthScore/Bounds.antt =====
-- The range of the score that `compute_for_project` of backend/app/services/health_score.py
-- answers.
use gp_portal.Base.{Option, ◌<◌, ◌≤◌, ◌≡◌, true, arith, ◌⊎◌, inl, inr, refl, Bool-cases}
use gp_portal.Domain.{Tenths, Uuid, DateTime, PortfolioConfig}
use gp_portal.Store.{
  Db, ok, Ends, Ends-any, Ends-gets, Ends-or_raise, Ends-pure, Ends-ok, start, run,
}
use gp_portal.HealthScore.Arithmetic.{Floats, clamp}
use gp_portal.HealthScore.Components.{AppliedWeights}
use gp_portal.HealthScore.Score.{
  Band, band, weighted_score, HealthScoreBreakdown, compute_for_project,
}

-- What is used of `round(x, 1)`: 0 and 100 stay as they are, and what lies below 100 rounds to at
-- most 100.
pub record FloatLaws (fl : Floats) : Type 0 where
  pub tenths-zero : fl.tenths (fl.of_nat 0) ≡ 0
  pub tenths-hundred : fl.tenths (fl.of_nat 100) ≡ 1000
  pub tenths-below : (x : fl.F) → fl.lt x (fl.of_nat 100) ≡ true → fl.tenths x ≤ 1000

-- What a band says of a score.
abbrev pub InBand : Band → Tenths → Type 0
InBand Band.green t = (700 ≤ t) × (t ≤ 1000)
InBand Band.amber t = (400 ≤ t) × (t < 700)
InBand Band.red t = t < 400

band-InBand : (t : Tenths) → t ≤ 1000 → InBand (band t) t
unfolding band
band-InBand t h = ground arith

module _ (fl : Floats) (laws : FloatLaws fl) where
  clamp-bound : (v : fl.F) → fl.tenths (clamp fl v) ≤ 1000
  unfolding clamp
  clamp-bound v =
      let z = laws.tenths-zero in
      let h = laws.tenths-hundred in let b = laws.tenths-below v in ground arith

  -- A number that is not below 0 and not above 100.
  abbrev pub InRange : fl.F → Type 0
  InRange x =
      ((x ≡ fl.of_nat 0) ⊎ (fl.lt (fl.of_nat 0) x ≡ true))
      × ((x ≡ fl.of_nat 0) ⊎ (x ≡ fl.of_nat 100) ⊎ (fl.lt x (fl.of_nat 100) ≡ true))

  clamp-InRange : (v : fl.F) → InRange (clamp fl v)
  unfolding clamp
  clamp-InRange v = elim (Bool-cases (fl.lt v (fl.of_nat 100))) [
    | inl below ↦ elim (Bool-cases (fl.lt (fl.of_nat 0) v)) [
      | inl above ↦ rw (below, above) (inr above, inr (inr below))
      | inr none_ ↦ rw (below, none_) (inl refl, inl refl)
    ]
    | inr high ↦ elim (Bool-cases (fl.lt (fl.of_nat 0) (fl.of_nat 100))) [
      | inl above ↦ rw (high, above) (inr above, inr (inl refl))
      | inr none_ ↦ rw (high, none_) (inl refl, inl refl)
    ]
  ]

  -- A score is the rounding of such a number, and at most 100.
  abbrev pub Scored : Tenths → Type 0
  Scored t = ((x : fl.F) × (t ≡ fl.tenths x) × InRange x) × (t ≤ 1000)

  weighted_score-Scored :
      (w : AppliedWeights fl) (rag spi risk rate stab : fl.F)
      → Scored (weighted_score fl w rag spi risk rate stab)
  unfolding weighted_score
  weighted_score-Scored w rag spi risk rate stab =
      ((clamp fl _, refl, clamp-InRange _), clamp-bound _)

  compute_for_project-Ends :
      (now : DateTime) (cfg : Option PortfolioConfig) (k : Uuid) (db : Db)
      → Ends
          (λ _. Unit {0})
          (λ b _. Scored b.score × InBand b.band b.score)
          (compute_for_project fl now cfg k)
          (start db)
  unfolding compute_for_project
  compute_for_project-Ends now cfg k db = Ends-any _ _ _ λ config s₁. Ends-gets _ _ _ (
      Ends-or_raise _ _ _ _ λ project found. Ends-gets _ _ _ (
        Ends-any _ _ _ λ spi s₂. Ends-gets _ _ _ (
          Ends-gets _ _ _ (
            Ends-gets _ _ _ (
              let scored = weighted_score-Scored _ _ _ _ _ _ in
              Ends-pure _ _ (scored, band-InBand _ scored.1))))))

  -- Where rounding keeps 0 and 100 and takes what lies below 100 to at most 100, a score that is
  -- computed is the rounding of a number that is 0 or above it, and 0, 100 or below 100; it is at
  -- most 100 and in the range of the band that is answered with it, whatever the weights and the
  -- components are, also where these are no numbers.
  pub compute_for_project-InBand :
      (now : DateTime) (cfg : Option PortfolioConfig) (k : Uuid) (db : Db)
      (b : HealthScoreBreakdown)
      → (run (compute_for_project fl now cfg k) db).0 ≡ ok b
      → Scored b.score × InBand b.band b.score
  compute_for_project-InBand now cfg k db b answer =
      Ends-ok (λ _. Unit {0}) (λ b _. Scored b.score × InBand b.band b.score)
        (compute_for_project fl now cfg k) db b (compute_for_project-Ends now cfg k db) tt answer
