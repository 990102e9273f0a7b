-- ===== src/Submit/Manager/State.antt =====
-- The data of `SubmissionManager`, its two interfaces, and steps that may fail in the journal.
-- The threads' locks and atomics are fields of one record: a step runs under the step lock. The
-- clocks and the jitter are read off the state `N` of the network and its host, which every
-- round-trip replaces; the readings between two round-trips agree.
use tree_miner_amd.Prelude.{
  ℕ,
  Bool,
  Option,
  List,
  [],
  ◌∷◌,
  ◌++◌,
  Text.{Text},
  Int.{ℤ},
  Floats.{F64},
}
use tree_miner_amd.Core.Types.{FindKind, FoundPayload, FindRecord, Classification}
use tree_miner_amd.Submit.Breaker.{BreakerConfig, BreakerState, CircuitBreaker}
use tree_miner_amd.Submit.Breaker
use tree_miner_amd.Submit.Drain.{DrainConfig, DrainScheduler, DifficultyTrend}
use tree_miner_amd.Submit.Drain
use tree_miner_amd.Submit.Margin.{MarginConfig}
use tree_miner_amd.Submit.Margin

-- `JournalResult`: a value, or the text of a `JournalError`.
pub data JournalResult {ℓ} (A : Type ℓ) : Type ℓ where
  ok : A → JournalResult A
  err : Text → JournalResult A

pub record JournalCounts : Type 0 where
  pub pending : ℕ
  pub parked : ℕ
  pub parked_difficulty : ℕ
  pub parked_xuni : ℕ
  pub quarantined : ℕ
  pub acked_total : ℕ
  pub dead_total : ℕ
  pub accepted_unconfirmed : ℕ
  pub permanently_invalid : ℕ
  pub queued_xen11 : ℕ
  pub queued_xuni : ℕ

-- trait JournalAccess, over the state `J` of a journal; a read may move it too.
pub record JournalAccess (J : Type 0) : Type 0 where
  pub fetch_eligible_of_kind : J → FindKind → Text → ℕ → J × JournalResult (List FindRecord)
  pub fetch_awaiting_confirmation : J → Text → ℕ → J × JournalResult (List FindRecord)
  pub record_attempt :
      J → ℕ → Classification → Option ℕ → Text → Option Text → Text → J × JournalResult (Unit {0})
  pub unpark_for_difficulty : J → ℕ → J × JournalResult ℕ
  pub unpark_xuni_for_window : J → ℕ → J × JournalResult ℕ
  pub record_difficulty : J → ℕ → Text → J × JournalResult (Unit {0})
  pub counts : J → J × JournalResult JournalCounts

pub record TransportResult : Type 0 where
  pub transport_ok : Bool
  pub http_status : ℕ
  pub body : Text
  pub retry_after : Option Text
  pub date_header : Option Text
  pub error : Text

-- trait Transport, with the clocks and the jitter source of the host.
pub record Transport (N : Type 0) : Type 0 where
  pub submit : N → FoundPayload → N × TransportResult
  pub confirm : N → Text → N × TransportResult
  pub difficulty : N → N × TransportResult
  pub health_probe : N → N × Option TransportResult
  pub mono : N → ℕ
  pub wall : N → ℤ
  pub jitter : N → F64

pub record Config : Type 0 where
  pub fetch_limit : ℕ
  pub confirm_fetch_limit : ℕ
  pub backoff_base_ms : ℕ
  pub backoff_cap_ms : ℕ
  pub xuni_max_windows : ℕ
  pub idle_poll_ms : ℕ
  pub breaker : BreakerConfig
  pub drain : DrainConfig
  pub margin : MarginConfig
  pub margin_eval_interval_ms : ℕ
  pub difficulty_quiesce_ms : ℕ

abbrev pub quiesce_max_ms : ℕ
quiesce_max_ms = 60000

abbrev pub default_config : Config
default_config = record {
  fetch_limit = 16;
  confirm_fetch_limit = 4;
  backoff_base_ms = 2000;
  backoff_cap_ms = 300000;
  xuni_max_windows = 3;
  idle_poll_ms = 250;
  breaker = Breaker.default_config;
  drain = Drain.default_config;
  margin = Margin.default_config;
  margin_eval_interval_ms = 5000;
  difficulty_quiesce_ms = 5000;
}

pub data StepResult : Type 0 where
  idle probed submitted breaker_blocked confirm_retried quiescing : StepResult

pub record Metrics : Type 0 where
  pub submitted : ℕ
  pub resubmitted : ℕ
  pub acked : ℕ
  pub accepted_unconfirmed : ℕ
  pub reconciled_via_get_block : ℕ
  pub confirmation_retries : ℕ
  pub lying_200_detected : ℕ
  pub parked_difficulty : ℕ
  pub parked_xuni : ℕ
  pub quarantined : ℕ
  pub permanently_invalid : ℕ
  pub transport_failures : ℕ
  pub probes : ℕ
  pub margin_changes : ℕ
  pub difficulty_quiesces : ℕ
  pub confirm_body_rejected : ℕ
  pub thread_loop_exceptions : ℕ

pub data Event : Type 0 where
  difficulty_hint margin_event : ℕ → Event
  outcome : FindRecord → Classification → Option ℕ → Event
  network_state : BreakerState → Event

-- `StepState`, `Shared` and the atomics, with the journal, the network and the step's events.
pub record Manager (J N : Type 0) : Type 0 where
  pub journal : J
  pub net : N
  pub breaker : CircuitBreaker
  pub scheduler : DrainScheduler
  pub next_submit_allowed_ms : ℕ
  pub last_window_open : Bool
  pub last_margin_eval_ms : ℕ
  pub margin_eval_started : Bool
  pub last_difficulty : Option ℕ
  pub trend : Option DifficultyTrend
  pub server_offset_ms : Option ℤ
  pub metrics : Metrics
  pub margin_kib : ℕ
  pub outage_started_ms : ℕ
  pub last_outage_span_ms : ℕ
  pub quiesce_until_ms : ℕ
  pub fatal : Bool
  pub running : Bool
  pub events : List Event

-- A step that may fail in the journal. What was done before the failure stays done.
abbrev pub Step : Type 0 → Type 0 → Type 0 → Type 0
Step J N A = Manager J N → Manager J N × JournalResult A

module _ {J N A : Type 0} where
  pub pure : A → Step J N A
  pure a s = (s, ok a)

  pub gets : (Manager J N → A) → Step J N A
  gets f s = (s, ok (f s))

  -- A call of the journal; a failed one may have changed it too.
  pub asks : (J → J × JournalResult A) → Step J N A
  asks f s = let (j, r) = f s.journal in (record s { journal = j }, r)

  -- A round-trip.
  pub calls : (N → N × A) → Step J N A
  calls f s = let (n, a) = f s.net in (record s { net = n }, ok a)

module _ {J N : Type 0} where
  pub modify : (Manager J N → Manager J N) → Step J N (Unit {0})
  modify f s = (f s, ok tt)

  pub emit : Event → Step J N (Unit {0})
  emit e s = (record s { events = s.events ++ e ∷ [] }, ok tt)

  pub count : (Metrics → Metrics) → Step J N (Unit {0})
  count f s = (record s { metrics = f s.metrics }, ok tt)

module _ {J N A B : Type 0} where
  abbrev pub continue :
      JournalResult A → (A → Step J N B) → Manager J N → Manager J N × JournalResult B
  continue (ok a) f s = f a s
  continue (err e) f s = (s, err e)

  infixl 5 ◌>>=◌
  -- opening this opens the basic steps too
  unfoldable pub ◌>>=◌ : Step J N A → (A → Step J N B) → Step J N B
  unfolding pure gets asks calls modify emit count
  ◌>>=◌ m f s = let (s', r) = m s in continue r f s'

module _ {J N B : Type 0} where
  infixl 5 ◌>>◌
  abbrev pub ◌>>◌ : Step J N (Unit {0}) → Step J N B → Step J N B
  m >> k = m >>= λ _. k
