-- ===== src/Submit/Drain/Pacing.antt =====
-- The drain rate under any sequence of outcomes.
use tree_miner_amd.Prelude.{
  ◌≡◌,
  refl,
  true,
  false,
  List,
  [],
  ◌∷◌,
  Floats.{F64, Floats, zero_f64, two_f64},
}
use tree_miner_amd.Submit.Drain.{
  DrainScheduler, DrainConfig, new, on_breaker_close, on_healthy_round_trip, on_throttle,
}

-- What the pacing relies on: `f64::min` and `f64::max` of ordered values, and that doubling a
-- value that is not negative does not make it smaller, nor halving larger.
pub record IsOrdered (fl : Floats) : Type 0 where
  pub fle_refl : (a : F64) → fl.fle a a ≡ true
  pub fle_trans : (a b c : F64) → fl.fle a b ≡ true → fl.fle b c ≡ true → fl.fle a c ≡ true
  pub fmin_right : (a b : F64) → fl.fle (fl.fmin a b) b ≡ true
  pub fmin_glb :
      (a b c : F64) → fl.fle c a ≡ true → fl.fle c b ≡ true → fl.fle c (fl.fmin a b) ≡ true
  pub fmax_right : (a b : F64) → fl.fle b (fl.fmax a b) ≡ true
  pub fmax_lub :
      (a b c : F64) → fl.fle a c ≡ true → fl.fle b c ≡ true → fl.fle (fl.fmax a b) c ≡ true
  pub double_ge : (a : F64) → fl.fle zero_f64 a ≡ true → fl.fle a (fl.mul a two_f64) ≡ true
  pub halve_le : (a : F64) → fl.fle zero_f64 a ≡ true → fl.fle (fl.div a two_f64) a ≡ true

-- A configuration with 0 ≤ minimum ≤ start ≤ maximum.
pub record IsSane (fl : Floats) (cfg : DrainConfig) : Type 0 where
  pub nonneg : fl.fle zero_f64 cfg.min_rate_per_s ≡ true
  pub min_start : fl.fle cfg.min_rate_per_s cfg.start_rate_per_s ≡ true
  pub start_max : fl.fle cfg.start_rate_per_s cfg.max_rate_per_s ≡ true

pub data Outcome : Type 0 where
  breaker_closed healthy throttled : Outcome

pub react : Floats → Outcome → DrainScheduler → DrainScheduler
react fl breaker_closed s = on_breaker_close s
react fl healthy s = on_healthy_round_trip fl s
react fl throttled s = on_throttle fl s

pub pace : Floats → List Outcome → DrainScheduler → DrainScheduler
pace fl [] s = s
pace fl (o ∷ os) s = pace fl os (react fl o s)

-- The rate lies between the floor and the ceiling of the configuration `cfg`.
pub record InBounds (fl : Floats) (cfg : DrainConfig) (s : DrainScheduler) : Type 0 where
  pub same : s.cfg ≡ cfg
  pub above : fl.fle cfg.min_rate_per_s s.rate_per_s ≡ true
  pub below : fl.fle s.rate_per_s cfg.max_rate_per_s ≡ true

module _ (fl : Floats) (laws : IsOrdered fl) (cfg : DrainConfig) (sane : IsSane fl cfg) where
  floor_cap : fl.fle cfg.min_rate_per_s cfg.max_rate_per_s ≡ true
  floor_cap = laws.fle_trans _ _ _ sane.min_start sane.start_max

  rate_nonneg : (s : DrainScheduler) → InBounds fl cfg s → fl.fle zero_f64 s.rate_per_s ≡ true
  rate_nonneg s v = laws.fle_trans _ _ _ sane.nonneg v.above

  react-InBounds :
      (o : Outcome) (s : DrainScheduler) → InBounds fl cfg s → InBounds fl cfg (react fl o s)
  unfolding react on_breaker_close on_healthy_round_trip on_throttle
  react-InBounds breaker_closed s v = record {
    same = v.same;
    above = rw v.same sane.min_start;
    below = rw v.same sane.start_max;
  }
  react-InBounds healthy s v = record {
    same = v.same;
    above = rw v.same (
        laws.fmin_glb _ _ _ (laws.fle_trans _ _ _ v.above (laws.double_ge _ (rate_nonneg s v)))
          floor_cap);
    below = rw v.same (laws.fmin_right _ _);
  }
  react-InBounds throttled s v = record {
    same = v.same;
    above = rw v.same (laws.fmax_right _ _);
    below = rw v.same (
        laws.fmax_lub _ _ _ (laws.fle_trans _ _ _ (laws.halve_le _ (rate_nonneg s v)) v.below)
          floor_cap);
  }

  pace-InBounds :
      (os : List Outcome) (s : DrainScheduler) → InBounds fl cfg s → InBounds fl cfg (pace fl os s)
  unfolding pace
  pace-InBounds [] s v = v
  pace-InBounds (o ∷ os) s v = pace-InBounds os (react fl o s) (react-InBounds o s v)

  -- After any outcomes the drain rate is between the configured floor and ceiling.
  pub pace-new-InBounds :
      (os : List Outcome)
      → (fl.fle cfg.start_rate_per_s zero_f64 ≡ false)
      → InBounds fl cfg (pace fl os (new fl cfg))
  unfolding new
  pace-new-InBounds os pos =
      pace-InBounds os _
        (record { same = refl; above = rw pos sane.min_start; below = rw pos sane.start_max })
