-- ===== src/Submit/Breaker/Invariant.antt =====
-- What is to hold of a breaker between two calls.
use tree_miner_amd.Prelude.{◌≤◌, ◌<◌, ◌≡◌, subst, sym, true, arith, List, [], ◌∷◌, Floats.{Floats}}
use tree_miner_amd.Submit.Breaker.{
  CircuitBreaker, BreakerConfig, BreakerCall, closed, half_open, new, probe_success, call,
  on_probe_success, on_probe_failure, try_admit, on_verify_success, on_verify_transport_failure,
  on_verify_inconclusive, set_xuni_pressure, run,
}

-- A configuration with a threshold to reach, and a first interval under the ceiling.
pub record IsUsable (cfg : BreakerConfig) : Type 0 where
  pub threshold : 1 ≤ cfg.failure_threshold
  pub base_le_cap : cfg.probe_base_ms ≤ cfg.probe_cap_ms

pub record Inv (b : CircuitBreaker) : Type 0 where
  -- While closed, fewer failures than the threshold have been counted.
  pub below : b.state ≡ closed → b.consecutive_failures < b.cfg.failure_threshold
  -- An admission is there to take in the half-open state only.
  pub latch : b.admission_available ≡ true → b.state ≡ half_open
  -- The probe interval never passes its ceiling.
  pub capped : b.probe_interval_ms ≤ b.cfg.probe_cap_ms

pub new-Inv : (cfg : BreakerConfig) → IsUsable cfg → Inv (new cfg)
unfolding new
new-Inv cfg u = ground arith

pub call-cfg : (fl : Floats) (c : BreakerCall) (b : CircuitBreaker) → (call fl c b).cfg ≡ b.cfg
unfolding call on_probe_success on_probe_failure try_admit on_verify_success
    on_verify_transport_failure on_verify_inconclusive set_xuni_pressure
call-cfg fl probe_success b = ground arith
call-cfg fl _ b = ground arith

-- Every call of every method keeps the invariant, whatever the clock and the jitter say.
pub call-Inv :
    (fl : Floats) (c : BreakerCall) (b : CircuitBreaker)
    → IsUsable b.cfg
    → Inv b
    → Inv (call fl c b)
unfolding call on_probe_success on_probe_failure try_admit on_verify_success
    on_verify_transport_failure on_verify_inconclusive set_xuni_pressure
call-Inv fl probe_success b u v = ground arith
call-Inv fl _ b u v = ground arith

run-Inv_from :
    (fl : Floats) (cs : List BreakerCall) (b : CircuitBreaker)
    → IsUsable b.cfg
    → Inv b
    → Inv (run fl cs b)
unfolding run
run-Inv_from fl [] b u v = v
run-Inv_from fl (c ∷ cs) b u v =
    run-Inv_from fl cs (call fl c b) (subst IsUsable (sym (call-cfg fl c b)) u)
      (call-Inv fl c b u v)

-- After any calls of any methods on a new breaker, whose configuration has a threshold of at least
-- one and a first interval under its ceiling: while the breaker is closed it has counted fewer
-- failures than the threshold, an admission is there in the half-open state only, and the probe
-- interval is at most its ceiling.
pub run-Inv :
    (fl : Floats) (cfg : BreakerConfig) (cs : List BreakerCall)
    → IsUsable cfg
    → Inv (run fl cs (new cfg))
run-Inv fl cfg cs u = run-Inv_from fl cs (new cfg) (unfold new in u) (new-Inv cfg u)
