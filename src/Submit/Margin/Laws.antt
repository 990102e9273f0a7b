-- ===== src/Submit/Margin/Laws.antt =====
-- What the margin policy promises.
use native.Mathlib.Nat.{mul-div-le, le-div_iff_mul-le, mul-le-mul_left}
use tree_miner_amd.Prelude.{
  ℕ, ◌+◌, ◌*◌, ◌/◌, ◌^◌, ◌≤◌, ◌<◌, ◌≡◌, refl, ◌∙◌, true, false, some, min, arith, ◌==◌,
  if◌then◌else◌, Bool-cases, inl, inr,
}
use tree_miner_amd.Submit.Margin.{
  MarginMode, MarginConfig, MarginInputs, off, auto, mode_as_str, mode_parse, compute_margin,
  margin_steps, margin_of,
}

zero-div : (p : ℕ) → 0 < p → 0 / p ≡ 0
zero-div p h = omega arith

steps_open :
    (cfg : MarginConfig) (input : MarginInputs)
    → 0 < cfg.adjust_period_ms
    → input.breaker_open ≡ true
    → margin_steps cfg input ≡ 1 + input.outage_ms / cfg.adjust_period_ms
unfolding margin_steps
steps_open cfg input p o = ground (arith, zero-div cfg.adjust_period_ms)

steps_shut :
    (cfg : MarginConfig) (input : MarginInputs)
    → input.breaker_open ≡ false
    → margin_steps cfg input ≡ 1
unfolding margin_steps
steps_shut cfg input o = ground arith

div_mono : (m n k : ℕ) → m ≤ n → 0 < k → m / k ≤ n / k
div_mono m n k h p = (le-div_iff_mul-le p).1 (grind (arith, mul-div-le m k))

steps_mono :
    (cfg : MarginConfig) (input input' : MarginInputs)
    → input.breaker_open ≡ true
    → input'.breaker_open ≡ true
    → input.outage_ms ≤ input'.outage_ms
    → margin_steps cfg input ≤ margin_steps cfg input'
unfolding margin_steps
steps_mono cfg input input' o o' le =
    ground (arith, div_mono input.outage_ms input'.outage_ms cfg.adjust_period_ms)

compute_margin_cases :
    (cfg : MarginConfig) (input : MarginInputs)
    → cfg.mode ≡ auto
    → cfg.margin_kib < 2 ^ 32
    → cfg.max_kib < 2 ^ 32
    → 0 < cfg.adjust_period_ms
    → (input.breaker_open ≡ false → input.backlog ≡ 0 → compute_margin cfg input ≡ 0)
      × (input.breaker_open ≡ false
          → 0 < input.backlog
          → compute_margin cfg input ≡ min cfg.margin_kib cfg.max_kib)
      × (input.breaker_open ≡ true
          → compute_margin cfg input
            ≡ min (cfg.margin_kib * (1 + input.outage_ms / cfg.adjust_period_ms)) cfg.max_kib)
unfolding compute_margin margin_of
compute_margin_cases cfg input m k x p = (
  λ b z. ground arith,
  λ b z. rw m (rw (steps_shut cfg input b) (ground arith)),
  λ b. rw m (rw (steps_open cfg input p b) (ground arith)),
)

-- The steps of margin that a situation calls for.
abbrev pub steps_due : MarginConfig → MarginInputs → ℕ
steps_due cfg input =
    if input.breaker_open
    then 1 + input.outage_ms / cfg.adjust_period_ms
    else if input.backlog == 0
    then 0
    else 1

-- In auto mode the margin is one step for each that is due, up to the ceiling: none while the breaker
-- is closed and the journal is drained, one while finds are queued, and in an outage one at once and
-- one more for each elapsed adjustment period.
pub compute_margin_auto :
    (cfg : MarginConfig) (input : MarginInputs)
    → cfg.mode ≡ auto
    → cfg.margin_kib < 2 ^ 32
    → cfg.max_kib < 2 ^ 32
    → 0 < cfg.adjust_period_ms
    → compute_margin cfg input ≡ min (cfg.margin_kib * steps_due cfg input) cfg.max_kib
compute_margin_auto cfg input m k x p =
    let (drained, queued, outage) = compute_margin_cases cfg input m k x p in
    elim (Bool-cases input.breaker_open) [
      | inl o ↦ outage o ∙ rw o refl
      | inr c ↦ elim (Bool-cases (input.backlog == 0)) [
        | inl z ↦ drained c (ground arith) ∙ rw (c, z) (omega arith)
        | inr z ↦ queued c (ground arith) ∙ rw (c, z) (omega arith)
      ]
    ]

-- The margin grows with the length of the outage and never passes the ceiling of auto mode.
pub compute_margin_mono :
    (cfg : MarginConfig) (input input' : MarginInputs)
    → cfg.mode ≡ auto
    → input.breaker_open ≡ true
    → input'.breaker_open ≡ true
    → input.outage_ms ≤ input'.outage_ms
    → (compute_margin cfg input ≤ compute_margin cfg input')
      × (compute_margin cfg input' ≤ cfg.max_kib)
unfolding compute_margin margin_of
compute_margin_mono cfg input input' m o o' le =
    rw m (ground (arith, mul-le-mul_left cfg.margin_kib (steps_mono cfg input input' o o' le)))

-- A mode's name is read as the mode.
pub mode_parse-mode_as_str : (m : MarginMode) → mode_parse (mode_as_str m) ≡ some m
unfolding mode_parse mode_as_str
mode_parse-mode_as_str off = refl
mode_parse-mode_as_str _ = refl
