-- ===== src/Submit/Breaker.antt =====
-- treeminer-rs/crates/tm-submit/src/breaker.rs: the circuit breaker on the `/verify` path.
-- Instants and durations are milliseconds, natural numbers here: the monotonic clock counts from
-- the start of the process. A method that reads the clock takes the instant `now`, and one that
-- draws a jitter takes the draw. Nothing here wraps before 2 ^ 63 milliseconds.
pub mod Invariant
pub mod Protocol
pub mod Timing
use tree_miner_amd.Prelude.{
  ℕ,
  ◌+◌,
  ◌*◌,
  List,
  [],
  ◌∷◌,
  Bool,
  true,
  false,
  not,
  ◌&&◌,
  min,
  max,
  leb,
  if◌then◌else◌,
  Floats.{F64, Floats, fifth_f64},
}

pub data BreakerState : Type 0 where
  closed open_state half_open : BreakerState

-- PartialEq on BreakerState
abbrev pub is_closed : BreakerState → Bool
is_closed closed = true
is_closed _ = false

abbrev pub is_open : BreakerState → Bool
is_open open_state = true
is_open _ = false

abbrev pub is_half_open : BreakerState → Bool
is_half_open half_open = true
is_half_open _ = false

pub record BreakerConfig : Type 0 where
  pub failure_threshold : ℕ
  pub probe_base_ms : ℕ
  pub probe_cap_ms : ℕ
  pub probe_cap_xuni_ms : ℕ
  pub jitter_fraction : F64

abbrev pub default_config : BreakerConfig
default_config = record {
  failure_threshold = 3;
  probe_base_ms = 5000;
  probe_cap_ms = 60000;
  probe_cap_xuni_ms = 5000;
  jitter_fraction = fifth_f64;
}

pub record CircuitBreaker : Type 0 where
  pub cfg : BreakerConfig
  pub state : BreakerState
  pub consecutive_failures : ℕ
  pub probe_interval_ms : ℕ
  pub next_probe_at_ms : ℕ
  pub admission_available : Bool
  pub xuni_pressure : Bool

unfoldable pub new : BreakerConfig → CircuitBreaker
new cfg = record {
  cfg = cfg;
  state = closed;
  consecutive_failures = 0;
  probe_interval_ms = 0;
  next_probe_at_ms = 0;
  admission_available = false;
  xuni_pressure = false;
}

unfoldable pub active_cap_ms : CircuitBreaker → ℕ
active_cap_ms b =
    if b.xuni_pressure then min b.cfg.probe_cap_ms b.cfg.probe_cap_xuni_ms else b.cfg.probe_cap_ms

-- The extra delay that `schedule_probe` adds to `base`, a truncated product of floats.
unfoldable pub jitter_extra : Floats → F64 → CircuitBreaker → ℕ → ℕ
jitter_extra fl draw b base =
    fl.to_int (fl.mul (fl.mul draw b.cfg.jitter_fraction) (fl.of_int base))

unfoldable pub schedule_probe : Floats → ℕ → F64 → CircuitBreaker → CircuitBreaker
unfolding active_cap_ms
schedule_probe fl now draw b =
    let cap = active_cap_ms b in
    let base = min b.probe_interval_ms cap in
    let delay = base + jitter_extra fl draw b base in
    let delay' = if b.xuni_pressure then min delay cap else delay in
    record b { next_probe_at_ms = now + delay' }

-- `open`
unfoldable pub open_breaker : Floats → ℕ → F64 → CircuitBreaker → CircuitBreaker
unfolding schedule_probe
open_breaker fl now draw b =
    schedule_probe fl now draw (record b { state = open_state; admission_available = false })

unfoldable pub probe_due : ℕ → CircuitBreaker → Bool
probe_due now b = is_open b.state && leb b.next_probe_at_ms now

unfoldable pub on_probe_success : CircuitBreaker → CircuitBreaker
on_probe_success b =
    if not (is_open b.state) then b else record b { state = half_open; admission_available = true }

unfoldable pub on_probe_failure : Floats → ℕ → F64 → CircuitBreaker → CircuitBreaker
unfolding schedule_probe
on_probe_failure fl now draw b =
    if not (is_open b.state)
    then b
    else schedule_probe fl now draw
        (record b { probe_interval_ms = min (b.probe_interval_ms * 2) b.cfg.probe_cap_ms })

admit : BreakerState → CircuitBreaker → CircuitBreaker × Bool
admit closed b = (b, true)
admit half_open b =
    if b.admission_available then (record b { admission_available = false }, true) else (b, false)
admit open_state b = (b, false)

unfoldable pub try_admit : CircuitBreaker → CircuitBreaker × Bool
unfolding admit
try_admit b = admit b.state b

unfoldable pub on_verify_success : CircuitBreaker → CircuitBreaker
on_verify_success b = record b {
  state = closed;
  consecutive_failures = 0;
  probe_interval_ms = b.cfg.probe_base_ms;
  admission_available = false;
}

transport_failure : Floats → ℕ → F64 → BreakerState → CircuitBreaker → CircuitBreaker
unfolding open_breaker
transport_failure fl now draw half_open b = open_breaker fl now draw (record b {
  probe_interval_ms = min (max b.probe_interval_ms b.cfg.probe_base_ms * 2) b.cfg.probe_cap_ms;
})
transport_failure fl now draw closed b =
    let b' = record b { consecutive_failures = b.consecutive_failures + 1 } in
    if leb b'.cfg.failure_threshold b'.consecutive_failures
    then open_breaker fl now draw (record b' { probe_interval_ms = b'.cfg.probe_base_ms })
    else b'
transport_failure fl now draw open_state b = b

unfoldable pub on_verify_transport_failure : Floats → ℕ → F64 → CircuitBreaker → CircuitBreaker
unfolding transport_failure
on_verify_transport_failure fl now draw b = transport_failure fl now draw b.state b

unfoldable pub on_verify_inconclusive : CircuitBreaker → CircuitBreaker
on_verify_inconclusive b =
    let b' = record b { consecutive_failures = 0 } in
    if is_half_open b'.state then record b' { admission_available = true } else b'

unfoldable pub set_xuni_pressure : ℕ → Bool → CircuitBreaker → CircuitBreaker
unfolding active_cap_ms
set_xuni_pressure now eligible_xuni_exists b =
    let b' = record b { xuni_pressure = eligible_xuni_exists } in
    if not b.xuni_pressure && b'.xuni_pressure && is_open b'.state
    then record b' { next_probe_at_ms = min b'.next_probe_at_ms (now + active_cap_ms b') }
    else b'

-- One call of a method, with what it reads from the clock and the jitter source.
pub data BreakerCall : Type 0 where
  probe_success verify_success verify_inconclusive admission : BreakerCall
  probe_failure verify_transport_failure : ℕ → F64 → BreakerCall
  pressure : ℕ → Bool → BreakerCall

unfoldable pub call : Floats → BreakerCall → CircuitBreaker → CircuitBreaker
call fl probe_success b = on_probe_success b
call fl verify_success b = on_verify_success b
call fl verify_inconclusive b = on_verify_inconclusive b
call fl admission b = (try_admit b).0
call fl (probe_failure now draw) b = on_probe_failure fl now draw b
call fl (verify_transport_failure now draw) b = on_verify_transport_failure fl now draw b
call fl (pressure now eligible) b = set_xuni_pressure now eligible b

-- A history of calls.
unfoldable pub run : Floats → List BreakerCall → CircuitBreaker → CircuitBreaker
run fl [] b = b
run fl (c ∷ cs) b = run fl cs (call fl c b)
