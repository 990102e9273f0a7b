-- ===== src/Submit/Breaker/Timing.antt =====
-- When the next probe is due.
use native.Mathlib.Decide.{dec_le}
use native.Mathlib.Nat.{pow-succ', one-le-pow}
use tree_miner_amd.Prelude.{
  ℕ,
  zero,
  suc,
  ◌+◌,
  ◌*◌,
  ◌^◌,
  ◌≤◌,
  ◌≡◌,
  ◌≢◌,
  ◌∙◌,
  true,
  min,
  max,
  arith,
  length,
  List,
  [],
  ◌∷◌,
  Floats.{F64, Floats},
}
use tree_miner_amd.Submit.Breaker.{
  CircuitBreaker, BreakerConfig, BreakerCall, open_state, new, probe_success, probe_failure,
  verify_transport_failure, pressure, call, jitter_extra, active_cap_ms, schedule_probe,
  open_breaker, on_probe_success, on_probe_failure, try_admit, on_verify_success,
  on_verify_transport_failure, on_verify_inconclusive, set_xuni_pressure,
}

-- What a call reads from the clock; the others are timed by the last one before.
abbrev pub instant : BreakerCall → ℕ → ℕ
instant (probe_failure now draw) last = now
instant (verify_transport_failure now draw) last = now
instant (pressure now eligible) last = now
instant _ last = last

-- While XUNI are at stake in an outage, the next probe is at most the XUNI ceiling away.
abbrev pub IsPressed : ℕ → CircuitBreaker → Type 0
IsPressed now b =
    b.xuni_pressure ≡ true
    → b.state ≡ open_state
    → b.next_probe_at_ms ≤ now + b.cfg.probe_cap_xuni_ms

call-IsPressed :
    (fl : Floats) (c : BreakerCall) (last : ℕ) (b : CircuitBreaker)
    → last ≤ instant c last
    → IsPressed last b
    → IsPressed (instant c last) (call fl c b)
unfolding call on_probe_success on_probe_failure try_admit on_verify_success
    on_verify_transport_failure on_verify_inconclusive set_xuni_pressure
call-IsPressed fl probe_success last b le v p o = ground arith
call-IsPressed fl _ last b le v p o = ground arith

-- The instants of a history do not go back.
abbrev pub InOrder : ℕ → List BreakerCall → Type 0
InOrder last [] = Unit
InOrder last (c ∷ cs) = (last ≤ instant c last) × InOrder (instant c last) cs

-- The breaker after a history, and the last instant in it.
pub run_timed : Floats → ℕ → List BreakerCall → CircuitBreaker → ℕ × CircuitBreaker
run_timed fl last [] b = (last, b)
run_timed fl last (c ∷ cs) b = run_timed fl (instant c last) cs (call fl c b)

run_timed-IsPressed :
    (fl : Floats) (last : ℕ) (cs : List BreakerCall) (b : CircuitBreaker)
    → InOrder last cs
    → IsPressed last b
    → IsPressed (run_timed fl last cs b).0 (run_timed fl last cs b).1
unfolding run_timed
run_timed-IsPressed fl last [] b i v = v
run_timed-IsPressed fl last (c ∷ cs) b i v =
    run_timed-IsPressed fl (instant c last) cs (call fl c b) i.1 (call-IsPressed fl c last b i.0 v)

-- After any calls in the order of time, an open breaker under XUNI pressure probes within the
-- XUNI ceiling of the last instant: no backoff outlasts a submission window.
pub probe_within_xuni_cap :
    (fl : Floats) (cfg : BreakerConfig) (cs : List BreakerCall)
    → InOrder 0 cs
    → IsPressed (run_timed fl 0 cs (new cfg)).0 (run_timed fl 0 cs (new cfg)).1
probe_within_xuni_cap fl cfg cs i =
    run_timed-IsPressed fl 0 cs (new cfg) i (λ p o. unfold new in cc p)

-- What a call of `schedule_probe` sets the due time to.
schedule_probe_bounds :
    (fl : Floats) (now : ℕ) (draw : F64) (b : CircuitBreaker)
    → jitter_extra fl draw b (min b.probe_interval_ms (active_cap_ms b))
      ≤ min b.probe_interval_ms (active_cap_ms b)
    → let b' = schedule_probe fl now draw b in
      let interval = min b.probe_interval_ms (active_cap_ms b) in
      (now + interval ≤ b'.next_probe_at_ms) × (b'.next_probe_at_ms ≤ now + 2 * interval)
unfolding schedule_probe
schedule_probe_bounds fl now draw b jitter = ground arith

-- When a failure opens the breaker, the next probe comes no sooner than the interval in force
-- (cut to the active ceiling), and no later than twice that, for any jitter up to the interval.
pub opening_schedules :
    (fl : Floats) (now : ℕ) (draw : F64) (b : CircuitBreaker)
    → ((base : ℕ) → jitter_extra fl draw b base ≤ base)
    → b.state ≢ open_state
    → (on_verify_transport_failure fl now draw b).state ≡ open_state
    → let b' = on_verify_transport_failure fl now draw b in
      let interval = min b'.probe_interval_ms (active_cap_ms b') in
      (now + interval ≤ b'.next_probe_at_ms) × (b'.next_probe_at_ms ≤ now + 2 * interval)
unfolding on_verify_transport_failure open_breaker schedule_probe jitter_extra
opening_schedules fl now draw b jitter shut opened = ground (
  arith,
  jitter (min b.cfg.probe_base_ms (active_cap_ms b)),
  jitter (
      min (min (max b.probe_interval_ms b.cfg.probe_base_ms * 2) b.cfg.probe_cap_ms)
        (active_cap_ms b)),
)

-- Failed probes in a row, each with its instant and its draw.
pub probe_failures : Floats → List (ℕ × F64) → CircuitBreaker → CircuitBreaker
probe_failures fl [] b = b
probe_failures fl ((now, draw) ∷ ps) b = probe_failures fl ps (on_probe_failure fl now draw b)

double_capped : (x c p : ℕ) → 1 ≤ p → min (min (x * 2) c * p) c ≡ min (x * (2 * p)) c
double_capped x c zero h = absurd (omega arith)
double_capped x c (suc q) h = elim (dec_le (x * 2) c) [
  | yes le ↦ let e : min (x * 2) c ≡ x * 2 = omega arith in rw e (omega arith)
  | no gt ↦ let e : min (x * 2) c ≡ c = omega arith in rw e (omega arith)
]

step_interval :
    (fl : Floats) (now : ℕ) (draw : F64) (b : CircuitBreaker)
    → b.state ≡ open_state
    → let b' = on_probe_failure fl now draw b in
      (b'.state ≡ open_state)
      × (b'.cfg ≡ b.cfg)
      × (b'.probe_interval_ms ≡ min (b.probe_interval_ms * 2) b.cfg.probe_cap_ms)
unfolding on_probe_failure
step_interval fl now draw b o = ground arith

-- After `n` failed probes of an outage the interval is the first one times `2 ^ n`, cut to the cap.
pub probe_failures_escalate :
    (fl : Floats) (ps : List (ℕ × F64)) (b : CircuitBreaker)
    → b.state ≡ open_state
    → b.probe_interval_ms ≤ b.cfg.probe_cap_ms
    → (probe_failures fl ps b).probe_interval_ms
      ≡ min (b.probe_interval_ms * 2 ^ length ps) b.cfg.probe_cap_ms
unfolding probe_failures
probe_failures_escalate fl [] b o le = omega arith
probe_failures_escalate fl ((now, draw) ∷ ps) b o le =
    let b' = on_probe_failure fl now draw b in
    let stepped = step_interval fl now draw b o in
    let rest =
      probe_failures_escalate fl ps b' stepped.0 (rw (stepped.1, stepped.2) (omega arith)) in
    rest
    ∙ rw (stepped.1, stepped.2, pow-succ' 2 (length ps))
        (double_capped b.probe_interval_ms b.cfg.probe_cap_ms (2 ^ length ps)
          (one-le-pow (length ps) 2 (omega arith)))
