-- ===== src/Submit/Breaker/Protocol.antt =====
-- The breaker as a protocol of three states: which calls lead from one to another.
use mathlib.Core.List.{Memᴰ}
use tree_miner_amd.Prelude.{
  ◌+◌,
  ◌≤◌,
  ◌<◌,
  ◌≡◌,
  ◌≢◌,
  refl,
  sym,
  ◌∙◌,
  ◌⊎◌,
  inl,
  inr,
  true,
  false,
  arith,
  List,
  [],
  ◌∷◌,
  All,
  length,
  Floats.{Floats},
}
use tree_miner_amd.Submit.Breaker.{
  CircuitBreaker, BreakerConfig, BreakerCall, closed, open_state, half_open, new, probe_success,
  verify_success, verify_inconclusive, admission, probe_failure, verify_transport_failure, pressure,
  call, on_probe_success, on_probe_failure, try_admit, on_verify_transport_failure,
  on_verify_inconclusive, set_xuni_pressure, run,
}
use tree_miner_amd.Submit.Breaker.Invariant.{call-cfg}

call_to_closed :
    (fl : Floats) (c : BreakerCall) (b : CircuitBreaker)
    → b.state ≢ closed
    → (c ≡ verify_success) ⊎ ((call fl c b).state ≢ closed)
unfolding call on_probe_success on_probe_failure try_admit on_verify_transport_failure
    on_verify_inconclusive set_xuni_pressure
call_to_closed fl verify_success b h = inl refl
call_to_closed fl probe_success b h = inr (ground arith)
call_to_closed fl verify_inconclusive b h = inr (ground arith)
call_to_closed fl admission b h = inr (ground arith)
call_to_closed fl (probe_failure now draw) b h = inr (ground arith)
call_to_closed fl (verify_transport_failure now draw) b h = inr (ground arith)
call_to_closed fl (pressure now eligible) b h = inr (ground arith)

-- A breaker that is not closed closes again only by a reported success of a real verification.
pub closes_by_success :
    (fl : Floats) (cs : List BreakerCall) (b : CircuitBreaker)
    → b.state ≢ closed
    → (run fl cs b).state ≡ closed
    → Memᴰ verify_success cs
unfolding run
closes_by_success fl [] b h e = absurd (h e)
closes_by_success fl (c ∷ cs) b h e = elim (call_to_closed fl c b h) [
  | inl p ↦ Memᴰ.head (sym p)
  | inr q ↦ Memᴰ.tail (closes_by_success fl cs (call fl c b) q e)
]

-- The calls that report no outcome of a verification and no probe.
abbrev pub IsSilent : BreakerCall → Type 0
IsSilent admission = Unit
IsSilent (pressure now eligible) = Unit
IsSilent _ = ⊥

call_of_IsSilent :
    (fl : Floats) (c : BreakerCall) (b : CircuitBreaker)
    → IsSilent c
    → b.state ≡ half_open
    → b.admission_available ≡ false
    → ((call fl c b).state ≡ half_open) × ((call fl c b).admission_available ≡ false)
unfolding call try_admit set_xuni_pressure
call_of_IsSilent fl admission b s h a = ground arith
call_of_IsSilent fl (pressure now eligible) b s h a = ground arith
call_of_IsSilent fl _ b s h a = elim s [ ]

spent-run :
    (fl : Floats) (cs : List BreakerCall) (b : CircuitBreaker)
    → All IsSilent cs
    → b.state ≡ half_open
    → b.admission_available ≡ false
    → (try_admit (run fl cs b)).1 ≡ false
unfolding run try_admit
spent-run fl [] b s h a = ground arith
spent-run fl (c ∷ cs) b s h a =
    let kept = call_of_IsSilent fl c b s.0 h a in spent-run fl cs (call fl c b) s.1 kept.0 kept.1

take_slot :
    (b : CircuitBreaker)
    → b.state ≡ half_open
    → b.admission_available ≡ true
    → ((try_admit b).1 ≡ true)
      × ((try_admit b).0.state ≡ half_open)
      × ((try_admit b).0.admission_available ≡ false)
unfolding try_admit
take_slot b h a = ground arith

-- A half-open breaker whose slot is free admits one submission, and then none until an outcome
-- is reported, whatever admissions are asked for and whatever happens to the XUNI pressure.
pub half_open_admits_once :
    (fl : Floats) (cs : List BreakerCall) (b : CircuitBreaker)
    → b.state ≡ half_open
    → b.admission_available ≡ true
    → All IsSilent cs
    → ((try_admit b).1 ≡ true) × ((try_admit (run fl cs (try_admit b).0)).1 ≡ false)
half_open_admits_once fl cs b h a s =
    let taken = take_slot b h a in (taken.0, spent-run fl cs (try_admit b).0 s taken.1 taken.2)

-- The calls that report a transport failure.
abbrev pub IsFailure : BreakerCall → Type 0
IsFailure (verify_transport_failure now draw) = Unit
IsFailure _ = ⊥

failure_while_closed :
    (fl : Floats) (c : BreakerCall) (b : CircuitBreaker)
    → IsFailure c
    → b.state ≡ closed
    → (b.consecutive_failures + 1 < b.cfg.failure_threshold
        → ((call fl c b).state ≡ closed)
          × ((call fl c b).consecutive_failures ≡ b.consecutive_failures + 1))
      × (b.cfg.failure_threshold ≤ b.consecutive_failures + 1 → (call fl c b).state ≡ open_state)
unfolding call on_verify_transport_failure
failure_while_closed fl (verify_transport_failure now draw) b s h =
    (λ lt. ground arith, λ le. ground arith)
failure_while_closed fl _ b s h = elim s [ ]

failures-run :
    (fl : Floats) (cs : List BreakerCall) (b : CircuitBreaker)
    → All IsFailure cs
    → b.state ≡ closed
    → b.consecutive_failures + length cs < b.cfg.failure_threshold
    → ((run fl cs b).state ≡ closed)
      × ((run fl cs b).consecutive_failures ≡ b.consecutive_failures + length cs)
      × ((run fl cs b).cfg ≡ b.cfg)
unfolding run
failures-run fl [] b s h lt = (h, omega arith, refl)
failures-run fl (c ∷ cs) b s h lt =
    let stepped = (failure_while_closed fl c b s.0 h).0 (omega arith) in
    let same = call-cfg fl c b in
    let rest =
      failures-run fl cs (call fl c b) s.1 stepped.0 (rw (same, stepped.1) (omega arith)) in
    (rest.0, omega (arith, rest.1, stepped.1), rest.2 ∙ same)

-- A new breaker stays closed through fewer consecutive transport failures than the threshold,
-- and opens with the one that reaches it.
pub opens_at_threshold :
    (fl : Floats) (cfg : BreakerConfig) (cs : List BreakerCall) (c : BreakerCall)
    → All IsFailure cs
    → IsFailure c
    → length cs + 1 ≡ cfg.failure_threshold
    → ((run fl cs (new cfg)).state ≡ closed)
      × ((call fl c (run fl cs (new cfg))).state ≡ open_state)
unfolding new
opens_at_threshold fl cfg cs c s f e =
    let before = failures-run fl cs (new cfg) s refl (omega arith) in
    (
      before.0,
      (failure_while_closed fl c (run fl cs (new cfg)) f before.0).1
          (rw before.2 (omega (arith, before.1))),
    )

-- The calls that cannot end an outage.
abbrev pub IsNoProof : BreakerCall → Type 0
IsNoProof probe_success = ⊥
IsNoProof verify_success = ⊥
IsNoProof _ = Unit

stays_open :
    (fl : Floats) (c : BreakerCall) (b : CircuitBreaker)
    → IsNoProof c
    → b.state ≡ open_state
    → (call fl c b).state ≡ open_state
unfolding call on_probe_failure try_admit on_verify_transport_failure on_verify_inconclusive
    set_xuni_pressure
stays_open fl probe_success b n h = absurd n
stays_open fl verify_success b n h = absurd n
stays_open fl _ b n h = ground arith

-- An open breaker stays open, and refuses every admission, until a probe succeeds or a success
-- is reported.
pub open_refuses :
    (fl : Floats) (cs : List BreakerCall) (b : CircuitBreaker)
    → All IsNoProof cs
    → b.state ≡ open_state
    → ((run fl cs b).state ≡ open_state) × ((try_admit (run fl cs b)).1 ≡ false)
unfolding run try_admit
open_refuses fl [] b n h = (h, ground arith)
open_refuses fl (c ∷ cs) b n h = open_refuses fl cs (call fl c b) n.1 (stays_open fl c b n.0 h)
