-- ===== src/Submit/Manager/Pace.antt =====
-- manager.rs, `backoff_time_iso`: when a find is tried again.
use tree_miner_amd.Prelude.{
  ℕ,
  zero,
  suc,
  ◌*◌,
  ◌^◌,
  ◌≤◌,
  ◌≡◌,
  ◌∙◌,
  Option,
  none,
  some,
  min,
  arith,
  ltb,
  if◌then◌else◌,
  Bool-cases,
  inl,
  inr,
  Text.{Text},
  Int.{ℤ, pos, ◌+ℤ◌},
}
use native.Mathlib.Nat.{pow-succ', one-le-pow}
use tree_miner_amd.Submit.ClockTime.Stamp.{iso_utc}
use tree_miner_amd.Submit.Manager.State.{Config}

-- The doubling loop, with `left` rounds at most.
doubled : ℕ → ℕ → ℕ → ℕ
doubled cap zero delay = delay
doubled cap (suc left) delay =
    let more = doubled cap left (delay * 2) in if ltb delay cap then more else delay

unfoldable pub backoff_delay : Config → ℕ → Option ℕ → ℕ
unfolding doubled
backoff_delay cfg attempt_count (some secs) = min (secs * 1000) cfg.backoff_cap_ms
backoff_delay cfg attempt_count none =
    min (doubled cfg.backoff_cap_ms attempt_count cfg.backoff_base_ms) cfg.backoff_cap_ms

unfoldable pub backoff_time_iso : Config → ℤ → ℕ → Option ℕ → Text
backoff_time_iso cfg wall attempt_count retry_after_s =
    iso_utc (wall +ℤ pos (backoff_delay cfg attempt_count retry_after_s))

doubled-min : (cap left delay : ℕ) → min (doubled cap left delay) cap ≡ min (delay * 2 ^ left) cap
unfolding doubled
doubled-min cap zero delay = omega arith
doubled-min cap (suc left) delay = elim (Bool-cases (ltb delay cap)) [
  | inl lt ↦ rw lt (doubled-min cap left (delay * 2) ∙ rw (pow-succ' 2 left) (omega arith))
  | inr ge ↦
      rw (ge, pow-succ' 2 left) (capped (2 ^ left) (one-le-pow left 2 (omega arith)) (ground arith))
]
  where
    capped : (p : ℕ) → 1 ≤ p → cap ≤ delay → min delay cap ≡ min (delay * (2 * p)) cap
    capped zero h le = absurd (omega arith)
    capped (suc p) h le = omega arith

-- Without a `Retry-After` the delay is the base times `2 ^ attempts`, cut to the cap; it never
-- passes the cap, with one or without.
pub backoff_delay_exact :
    (cfg : Config) (attempts : ℕ) (retry_after_s : Option ℕ)
    → (backoff_delay cfg attempts none
        ≡ min (cfg.backoff_base_ms * 2 ^ attempts) cfg.backoff_cap_ms)
      × (backoff_delay cfg attempts retry_after_s ≤ cfg.backoff_cap_ms)
unfolding backoff_delay
backoff_delay_exact cfg attempts none =
    (doubled-min cfg.backoff_cap_ms attempts cfg.backoff_base_ms, omega arith)
backoff_delay_exact cfg attempts (some secs) =
    (doubled-min cfg.backoff_cap_ms attempts cfg.backoff_base_ms, omega arith)
