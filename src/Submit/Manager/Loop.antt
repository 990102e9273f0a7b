-- ===== src/Submit/Manager/Loop.antt =====
-- manager.rs: the repeated confirmations, the scheduling step, and the boundary at which a failure
-- of the journal halts the loop.
pub mod Outage
pub mod Durable
use tree_miner_amd.Prelude.{
  ◌+◌,
  Bool,
  true,
  false,
  Option,
  none,
  some,
  List,
  [],
  ◌∷◌,
  if◌then◌else◌,
  Text.{Text},
  Floats.{Floats},
}
use tree_miner_amd.Core.Types.{FindRecord, Classification}
use tree_miner_amd.Submit.Breaker.{is_open}
use tree_miner_amd.Submit.ClockTime.Stamp.{iso_utc}
use tree_miner_amd.Submit.Manager.Pace.{backoff_time_iso}
use tree_miner_amd.Submit.Manager.Confirm.{judge, retried, is_retried, count_retried}
use tree_miner_amd.Submit.Manager.Observe.{track_server_date}
use tree_miner_amd.Submit.Manager.Step.{http_of, update_margin, probe_step}
use tree_miner_amd.Submit.Manager.Send.{submit_step}
use tree_miner_amd.Submit.Manager.State.{
  JournalAccess, Transport, TransportResult, Config, Manager, Event, Event.outcome, StepResult,
  idle, probed, submitted, breaker_blocked, confirm_retried, quiescing, Step, JournalResult, ok,
  err, pure, gets, asks, calls, modify, emit, count, ◌>>=◌, ◌>>◌,
}

-- `matches!(submit_result, Idle | Quiescing)`, and the result of a whole step.
abbrev yields : StepResult → Bool
yields idle = true
yields quiescing = true
yields _ = false

abbrev pub combine : StepResult → StepResult → StepResult
combine sent idle = sent
combine sent confirmed_result = if yields sent then confirmed_result else sent

module _ {J N : Type 0} (ja : JournalAccess J) (tr : Transport N) (fl : Floats) (cfg : Config) where
  -- One repeated confirmation; whether the host answered.
  unfoldable pub confirm_one : FindRecord → Step J N Bool
  confirm_one rec = do
    conf ← calls (λ n. tr.confirm n rec.payload.key)
    track_server_date ja tr cfg conf
    count (count_retried (judge rec conf))
    again ← gets (λ s. backoff_time_iso cfg (tr.wall s.net) rec.attempt_count none)
    at ← gets (λ s. iso_utc (tr.wall s.net))
    asks (λ j.
        ja.record_attempt j rec.id (retried (judge rec conf)) (http_of conf) conf.body
          (if is_retried (judge rec conf) then some again else none) at)
    count (λ m. record m { confirmation_retries = m.confirmation_retries + 1 })
    emit (Event.outcome rec (retried (judge rec conf)) (http_of conf))
    pure conf.transport_ok

  -- A host that looks down is not asked for the rest of the batch.
  unfoldable pub confirm_batch : List FindRecord → Step J N StepResult
  unfolding confirm_one
  confirm_batch [] = pure confirm_retried
  confirm_batch (rec ∷ rest) =
      let later = confirm_batch rest in
      confirm_one rec >>= (λ reached. if reached then later else pure confirm_retried)

  unfoldable pub confirm_all : List FindRecord → Step J N StepResult
  unfolding confirm_batch
  confirm_all [] = pure idle
  confirm_all (rec ∷ rest) = confirm_batch (rec ∷ rest)

  unfoldable pub confirm_step : Step J N StepResult
  unfolding confirm_all
  confirm_step = do
    open_now ← gets (λ s. is_open s.breaker.state)
    if open_now then pure idle else (do
      now ← gets (λ s. iso_utc (tr.wall s.net))
      batch ← asks (λ j. ja.fetch_awaiting_confirmation j now cfg.confirm_fetch_limit)
      confirm_all batch)

  unfoldable pub drain_step : Step J N StepResult
  unfolding confirm_step
  drain_step = do
    sent ← submit_step ja tr fl cfg
    confirmed_result ← confirm_step
    pure (combine sent confirmed_result)

  unfoldable pub run_step : Step J N StepResult
  run_step = do
    update_margin ja tr fl cfg
    open_now ← gets (λ s. is_open s.breaker.state)
    if open_now then probe_step ja tr fl cfg else drain_step

module _ {J N : Type 0} where
  unfoldable pub handle_fatal : Manager J N → Manager J N
  handle_fatal s = if s.fatal then s else record s {
    fatal = true;
    running = false;
    metrics = record s.metrics { thread_loop_exceptions = s.metrics.thread_loop_exceptions + 1 };
  }

  -- The callbacks are fired with the events of a step that did not fail.
  abbrev pub finish :
      Manager J N × JournalResult StepResult → Manager J N × (StepResult × List Event)
  finish (s, ok r) = (record s { events = [] }, (r, s.events))
  finish (s, err e) = (handle_fatal (record s { events = [] }), (idle, []))

module _ {J N : Type 0} (ja : JournalAccess J) (tr : Transport N) (fl : Floats) (cfg : Config) where
  unfoldable pub run_once : Manager J N → Manager J N × (StepResult × List Event)
  run_once s = if s.fatal then (s, (idle, [])) else finish (run_step ja tr fl cfg s)
