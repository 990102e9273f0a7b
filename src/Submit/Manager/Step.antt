-- ===== src/Submit/Manager/Step.antt =====
-- manager.rs: the margin, the health probe and the submission of one find.
use tree_miner_amd.Prelude.{
  ℕ,
  ◌+◌,
  ◌-◌,
  Bool,
  true,
  false,
  not,
  ◌&&◌,
  ◌||◌,
  Option,
  none,
  some,
  ltb,
  ◌==◌,
  if◌then◌else◌,
  Text.{is_trim_empty},
  Floats.{Floats},
  Int.{ℤ, pos},
}
use tree_miner_amd.Core.Types.{
  FindStatus, acked, accepted_unconfirmed, parked_difficulty, parked_xuni_window, quarantined,
  permanently_invalid, FindRecord,
}
use tree_miner_amd.Submit.Breaker.{is_open, probe_due, on_probe_success, on_probe_failure}
use tree_miner_amd.Submit.Margin.{MarginMode, off, auto, compute_margin}
use tree_miner_amd.Submit.Manager.Observe.{handle_difficulty_body, track_server_date}
use tree_miner_amd.Submit.Manager.State.{
  JournalAccess, JournalCounts, Transport, TransportResult, Config, Manager, Metrics, margin_event,
  network_state, StepResult, idle, probed, Step, pure, gets, asks, calls, modify, emit, count,
  ◌>>=◌, ◌>>◌,
}

abbrev pub is_off : MarginMode → Bool
is_off off = true
is_off _ = false

abbrev pub or_zero : Option ℤ → ℤ
or_zero none = pos 0
or_zero (some n) = n

unfoldable pub probe_response_healthy : TransportResult → Bool
probe_response_healthy r = r.transport_ok && r.http_status == 200 && not (is_trim_empty r.body)

unfoldable pub http_of : TransportResult → Option ℕ
http_of r = if r.transport_ok then some r.http_status else none

unfoldable pub is_accepted : FindStatus → Bool
is_accepted acked = true
is_accepted accepted_unconfirmed = true
is_accepted _ = false

-- The counters of one submission.
unfoldable pub count_status : FindStatus → Metrics → Metrics
count_status acked m = record m { acked = m.acked + 1 }
count_status accepted_unconfirmed m = record m { accepted_unconfirmed = m.accepted_unconfirmed + 1 }
count_status parked_difficulty m = record m { parked_difficulty = m.parked_difficulty + 1 }
count_status parked_xuni_window m = record m { parked_xuni = m.parked_xuni + 1 }
count_status quarantined m = record m { quarantined = m.quarantined + 1 }
count_status permanently_invalid m = record m { permanently_invalid = m.permanently_invalid + 1 }
count_status _ m = m

unfoldable pub count_submission : FindRecord → TransportResult → FindStatus → Metrics → Metrics
unfolding count_status
count_submission rec res status m = count_status status (record m {
  submitted = m.submitted + 1;
  resubmitted = if ltb 0 rec.attempt_count then m.resubmitted + 1 else m.resubmitted;
  transport_failures = if res.transport_ok then m.transport_failures else m.transport_failures + 1;
})

module _ {J N : Type 0} where
  -- The outage clock: how long the breaker has been open.
  unfoldable pub outage_clock : ℕ → Manager J N → Manager J N
  outage_clock now s =
      if is_open s.breaker.state
      then record s {
        outage_started_ms = if s.outage_started_ms == 0 then now else s.outage_started_ms;
      }
      else record s {
        last_outage_span_ms =
            if s.outage_started_ms == 0 then s.last_outage_span_ms else now - s.outage_started_ms;
        outage_started_ms = 0;
      }

  unfoldable pub set_margin : ℕ → Step J N (Unit {0})
  set_margin next = do
    current ← gets (λ s. s.margin_kib)
    if next == current then pure tt else (do
      modify (λ s. record s { margin_kib = next })
      count (λ m. record m { margin_changes = m.margin_changes + 1 })
      emit (margin_event next))

module _ {J N : Type 0} (ja : JournalAccess J) (tr : Transport N) (fl : Floats) (cfg : Config) where
  abbrev total_backlog : JournalCounts → ℕ
  total_backlog c = c.pending + c.parked + c.accepted_unconfirmed + c.quarantined

  unfoldable pub backlog : MarginMode → Step J N ℕ
  backlog auto = do c ← asks (λ j. ja.counts j); pure (total_backlog c)
  backlog _ = pure 0

  unfoldable pub evaluate_margin : ℕ → Step J N (Unit {0})
  evaluate_margin now = do
    modify (λ s. record s { last_margin_eval_ms = now; margin_eval_started = true })
    owed ← backlog cfg.margin.mode
    open_now ← gets (λ s. is_open s.breaker.state)
    started ← gets (λ s. s.outage_started_ms)
    set_margin (
        compute_margin cfg.margin (record {
          breaker_open = open_now;
          outage_ms = if open_now then now - started else 0;
          backlog = owed;
        }))

  unfoldable pub update_margin : Step J N (Unit {0})
  update_margin = do
    now ← gets (λ s. tr.mono s.net)
    modify (outage_clock now)
    fresh ← gets (λ s.
        s.margin_eval_started && ltb now (s.last_margin_eval_ms + cfg.margin_eval_interval_ms))
    if is_off cfg.margin.mode || fresh then pure tt else evaluate_margin now

  -- The difficulty that a healthy answer carries is learnt; whether it carried one.
  unfoldable pub harvest : TransportResult → Step J N (Bool × Bool)
  harvest r =
      if probe_response_healthy r
      then handle_difficulty_body ja tr cfg r.body >>= (λ seen. pure (true, seen))
      else pure (false, false)

  unfoldable pub probe_health : Option TransportResult → Step J N (Bool × Bool)
  unfolding harvest
  probe_health none = pure (false, false)
  probe_health (some h) = do track_server_date ja tr cfg h; harvest h

  -- The fallback route, which cannot take back a proof of health.
  unfoldable pub probe_difficulty : Bool × Bool → Step J N Bool
  unfolding harvest
  probe_difficulty (healthy, seen) = if healthy && seen then pure true else (do
    d ← calls (λ n. tr.difficulty n)
    track_server_date ja tr cfg d
    again ← harvest d
    pure (healthy || again.0))

  unfoldable pub settle_probe : Bool → Manager J N → Manager J N
  settle_probe healthy s = record s {
    breaker =
        if healthy
        then on_probe_success s.breaker
        else on_probe_failure fl (tr.mono s.net) (tr.jitter s.net) s.breaker;
  }

  unfoldable pub probe_step : Step J N StepResult
  unfolding probe_health probe_difficulty settle_probe
  probe_step = do
    due ← gets (λ s. probe_due (tr.mono s.net) s.breaker)
    if not due then pure idle else (do
      count (λ m. record m { probes = m.probes + 1 })
      health ← calls (λ n. tr.health_probe n)
      proven ← probe_health health
      healthy ← probe_difficulty proven
      modify (settle_probe healthy)
      state ← gets (λ s. s.breaker.state)
      emit (network_state state)
      pure probed)
