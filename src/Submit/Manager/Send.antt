-- ===== src/Submit/Manager/Send.antt =====
-- manager.rs, `submit_step`: the choice of a find, its submission, and what follows from the answer.
use tree_miner_amd.Prelude.{
  ◌+◌,
  Bool,
  true,
  false,
  not,
  ◌&&◌,
  ◌||◌,
  Option,
  none,
  some,
  List,
  [],
  ◌++◌,
  ltb,
  leb,
  ◌==◌,
  if◌then◌else◌,
  is_empty,
  Text.{Text, is_trim_empty},
  Floats.{Floats},
  Int.{◌+ℤ◌},
  ℕ,
}
use tree_miner_amd.Core.Types.{xen11, xuni, FindStatus, pending, FindRecord, Classification}
use tree_miner_amd.Submit.Breaker.{
  is_closed, try_admit, on_verify_success, on_verify_transport_failure, on_verify_inconclusive,
  set_xuni_pressure,
}
use tree_miner_amd.Submit.Drain.{
  XuniWindowState, select_next, on_breaker_close, on_healthy_round_trip, on_throttle,
  submit_interval_ms,
}
use tree_miner_amd.Submit.ClockTime.{xuni_window_at}
use tree_miner_amd.Submit.ClockTime.Stamp.{iso_utc}
use tree_miner_amd.Submit.Classifier.{classify, transport_error, parse_retry_after_seconds}
use tree_miner_amd.Submit.Manager.Pace.{backoff_time_iso}
use tree_miner_amd.Submit.Manager.Confirm.{judge, resolve, is_retried, count_lookup}
use tree_miner_amd.Submit.Manager.Observe.{or_unknown, learn_difficulty, track_server_date}
use tree_miner_amd.Submit.Manager.Step.{is_accepted, http_of, count_submission, or_zero}
use tree_miner_amd.Submit.Manager.State.{
  JournalAccess, Transport, TransportResult, Config, Manager, Event, network_state, StepResult,
  idle, submitted, breaker_blocked, quiescing, Step, pure, gets, asks, calls, modify, emit, count,
  ◌>>=◌, ◌>>◌,
}

abbrev pub is_pending : FindStatus → Bool
is_pending pending = true
is_pending _ = false

abbrev or_time : Option Text → Text → Option Text
or_time none t = some t
or_time (some t) u = some t

-- `Retry-After` is heeded on 429 only.
unfoldable pub retry_after_of : ℕ → Option Text → Option ℕ
retry_after_of status none = none
retry_after_of status (some header) =
    if status == 429 then parse_retry_after_seconds header else none

-- When the find is due again: as the lookup set it, else after a backoff if it is pending.
unfoldable pub next_attempt_of : FindStatus → Option Text → Text → Option Text
next_attempt_of status next backoff = if is_pending status then or_time next backoff else next

unfoldable pub is_transport_failure : TransportResult → Bool
is_transport_failure res =
    not res.transport_ok
    || leb 500 res.http_status
    || res.http_status == 408
    || res.http_status == 425
    || is_trim_empty res.body

unfoldable pub status_of : TransportResult → ℕ
status_of res = if res.transport_ok then res.http_status else transport_error

module _ {J N : Type 0} (ja : JournalAccess J) (tr : Transport N) (fl : Floats) (cfg : Config) where
  -- Breaker and pacing after an answer.
  unfoldable pub settle : Bool → TransportResult → FindStatus → Manager J N → Manager J N
  settle was_closed res status s =
      if is_accepted status
      then record s {
        breaker = on_verify_success s.breaker;
        scheduler =
            if was_closed
            then on_healthy_round_trip fl s.scheduler
            else on_breaker_close s.scheduler;
      }
      else if is_transport_failure res
      then record s {
        breaker = on_verify_transport_failure fl (tr.mono s.net) (tr.jitter s.net) s.breaker;
        scheduler = on_throttle fl s.scheduler;
      }
      else if res.http_status == 429
      then record s {
        breaker = on_verify_inconclusive s.breaker;
        scheduler = on_throttle fl s.scheduler;
      }
      else record s {
        breaker = on_verify_inconclusive s.breaker;
        scheduler = on_healthy_round_trip fl s.scheduler;
      }

  unfoldable pub learn_hint : Option ℕ → Step J N (Unit {0})
  learn_hint none = pure tt
  learn_hint (some hint) = learn_difficulty ja tr cfg hint

  -- The first confirmation: the verdict as the lookup leaves it, and when it is repeated.
  unfoldable pub look_up : FindRecord → Classification → Step J N (Classification × Option Text)
  look_up rec c =
      if c.needs_lookup_confirmation
      then (do
        conf ← calls (λ n. tr.confirm n rec.payload.key)
        track_server_date ja tr cfg conf
        count (count_lookup (judge rec conf))
        again ← gets (λ s. backoff_time_iso cfg (tr.wall s.net) rec.attempt_count none)
        pure (resolve (judge rec conf) c, if is_retried (judge rec conf) then some again else none))
      else pure (c, none)

  unfoldable pub send : ℕ → FindRecord → Step J N StepResult
  unfolding look_up learn_hint settle
  send now_mono rec = do
    was_closed ← gets (λ s. is_closed s.breaker.state)
    res ← calls (λ n. tr.submit n rec.payload)
    track_server_date ja tr cfg res
    c ← pure (classify (status_of res) res.body rec.payload.kind res.retry_after)
    learn_hint c.server_difficulty_hint
    judged ← look_up rec c
    backoff ← gets (λ s.
        backoff_time_iso cfg (tr.wall s.net) rec.attempt_count
          (retry_after_of (status_of res) res.retry_after))
    at ← gets (λ s. iso_utc (tr.wall s.net))
    asks (λ j.
        ja.record_attempt j rec.id judged.0 (http_of res) res.body
          (next_attempt_of judged.0.next_status judged.1 backoff) at)
    modify (settle was_closed res judged.0.next_status)
    state ← gets (λ s. s.breaker.state)
    emit (network_state state)
    modify (λ s. record s { next_submit_allowed_ms = now_mono + submit_interval_ms fl s.scheduler })
    count (count_submission rec res judged.0.next_status)
    emit (Event.outcome rec judged.0 (http_of res))
    pure submitted

  -- The admission of the find selected.
  unfoldable pub admit_and_send : ℕ → Option FindRecord → Step J N StepResult
  unfolding send
  admit_and_send now_mono none = pure idle
  admit_and_send now_mono (some rec) = do
    admitted ← gets (λ s. (try_admit s.breaker).1)
    modify (λ s. record s { breaker = (try_admit s.breaker).0 })
    if admitted then send now_mono rec else pure breaker_blocked

  unfoldable pub fetch_xuni : Bool → Text → Step J N (List FindRecord)
  fetch_xuni false now_iso = pure []
  fetch_xuni true now_iso = asks (λ j. ja.fetch_eligible_of_kind j xuni now_iso cfg.fetch_limit)

  -- The slice of each kind, and the find selected from both.
  unfoldable pub fetch_and_send : ℕ → XuniWindowState → Step J N StepResult
  unfolding admit_and_send fetch_xuni
  fetch_and_send now_mono window = do
    now_iso ← gets (λ s. iso_utc (tr.wall s.net))
    xen11s ← asks (λ j. ja.fetch_eligible_of_kind j xen11 now_iso cfg.fetch_limit)
    xunis ← fetch_xuni window.is_open now_iso
    modify (λ s. record s {
      breaker = set_xuni_pressure (tr.mono s.net) (not (is_empty xunis)) s.breaker;
    })
    selected ← gets (λ s. select_next s.scheduler (xen11s ++ xunis) (or_unknown s.trend) window)
    if is_empty (xen11s ++ xunis) then pure idle else admit_and_send now_mono selected

  -- A window that has just opened gives the finds parked for one their next chance.
  unfoldable pub note_window : XuniWindowState → Step J N (Unit {0})
  note_window window = do
    was_open ← gets (λ s. s.last_window_open)
    if window.is_open && not was_open
        then (asks (λ j. ja.unpark_xuni_for_window j cfg.xuni_max_windows)
            >>= (λ reopened. pure tt))
        else pure tt
    modify (λ s. record s { last_window_open = window.is_open })

  unfoldable pub submit_step : Step J N StepResult
  unfolding fetch_and_send note_window
  submit_step = do
    now_mono ← gets (λ s. tr.mono s.net)
    early ← gets (λ s. ltb now_mono s.next_submit_allowed_ms)
    window ← gets (λ s. xuni_window_at (tr.wall s.net +ℤ or_zero s.server_offset_ms))
    if early then pure idle else (do
      note_window window
      quiesced ← gets (λ s. ltb now_mono s.quiesce_until_ms)
      if quiesced then pure quiescing else fetch_and_send now_mono window)
