-- ===== src/Examples/BreakerRuns.antt =====
-- Runs of the circuit breaker and of the margin.
use tree_miner_amd.Prelude.{ℕ, ◌≤◌, ◌≡◌, refl, true, false, List, [], ◌∷◌, arith, Floats.{zero_f64}}
use tree_miner_amd.Examples.{counting}
use tree_miner_amd.Submit.Breaker.{
  BreakerState, closed, open_state, half_open, BreakerConfig, CircuitBreaker, BreakerCall,
  probe_success, verify_success, admission, probe_failure, verify_transport_failure, pressure, new,
  call, run, try_admit, on_verify_transport_failure, active_cap_ms, jitter_extra, open_breaker,
  schedule_probe, set_xuni_pressure,
}
use tree_miner_amd.Submit.Breaker
use tree_miner_amd.Submit.Breaker.Invariant.{Inv, run-Inv}
use tree_miner_amd.Submit.Breaker.Protocol.{closes_by_success, half_open_admits_once}
use tree_miner_amd.Submit.Margin.{MarginConfig, MarginInputs, auto}
use mathlib.Core.List.{Memᴰ}

abbrev down : BreakerCall
down = verify_transport_failure 10 zero_f64

abbrev outage : List BreakerCall
outage = down ∷ down ∷ down ∷ []

abbrev defaults : BreakerConfig
defaults = Breaker.default_config

-- A breaker in the middle of an outage, and one that has just been probed.
abbrev opened : CircuitBreaker
opened = record {
  cfg = defaults;
  state = open_state;
  consecutive_failures = 3;
  probe_interval_ms = 5000;
  next_probe_at_ms = 5010;
  admission_available = false;
  xuni_pressure = false;
}

abbrev probed : CircuitBreaker
probed = record opened { state = half_open; admission_available = true }

-- One failure short of an outage.
abbrev strained : CircuitBreaker
strained = record opened { state = closed; consecutive_failures = 2 }

run-Inv_example : Inv (run counting outage (new defaults))
run-Inv_example =
    run-Inv counting defaults outage (record { threshold = omega arith; base_le_cap = omega arith })

closed_then : (run counting (probe_success ∷ verify_success ∷ []) opened).state ≡ closed
unfolding run call Breaker.on_probe_success Breaker.on_verify_success
closed_then = refl

closes_by_success_example : Memᴰ verify_success (probe_success ∷ verify_success ∷ [])
closes_by_success_example =
    closes_by_success counting (probe_success ∷ verify_success ∷ []) opened (λ e. cc) closed_then

half_open_admits_once_example :
    ((try_admit probed).1 ≡ true)
    × ((try_admit (run counting (admission ∷ pressure 20 true ∷ []) (try_admit probed).0)).1
        ≡ false)
half_open_admits_once_example =
    half_open_admits_once counting (admission ∷ pressure 20 true ∷ []) probed refl refl
      (tt, (tt, tt))

abbrev pressed : List BreakerCall
pressed = pressure 5 true ∷ outage

no_jitter : (base : ℕ) → jitter_extra counting zero_f64 strained base ≤ base
unfolding jitter_extra
no_jitter base = omega arith

now_open : (on_verify_transport_failure counting 10 zero_f64 strained).state ≡ open_state
unfolding on_verify_transport_failure open_breaker schedule_probe
now_open = refl

abbrev adaptive : MarginConfig
adaptive = record { mode = auto; margin_kib = 1000; max_kib = 5000; adjust_period_ms = 300000 }

abbrev outage_of : ℕ → MarginInputs
outage_of ms = record { breaker_open = true; outage_ms = ms; backlog = 4 }
