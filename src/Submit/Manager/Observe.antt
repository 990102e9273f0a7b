-- ===== src/Submit/Manager/Observe.antt =====
-- manager.rs: the difficulty and the server's clock, as the manager observes them.
pub mod Quiesce
use tree_miner_amd.Prelude.{
  ℕ,
  ◌+◌,
  Bool,
  true,
  false,
  not,
  Option,
  none,
  some,
  min,
  max,
  ltb,
  leb,
  ◌==◌,
  if◌then◌else◌,
  ◌++◌,
  Text.{Text, codes},
  Int.{ℤ, ◌+ℤ◌, ◌-ℤ◌},
}
use tree_miner_amd.Submit.Drain.{DifficultyTrend, unknown, flat, rising, falling}
use tree_miner_amd.Submit.Json.{extract_json_field}
use tree_miner_amd.Submit.Classifier.{parse_difficulty_hint}
use tree_miner_amd.Submit.ClockTime.Stamp.{iso_utc, parse_http_date_ms}
use tree_miner_amd.Submit.Manager.State.{
  JournalAccess, Transport, TransportResult, Config, quiesce_max_ms, Manager, Metrics, Event,
  difficulty_hint, Step, JournalResult, pure, gets, asks, calls, modify, emit, count, ◌>>=◌, ◌>>◌,
}

abbrev pub or_unknown : Option DifficultyTrend → DifficultyTrend
or_unknown none = unknown
or_unknown (some t) = t

unfoldable pub trend_of : Option ℕ → ℕ → Option DifficultyTrend → Option DifficultyTrend
trend_of none difficulty old = old
trend_of (some prev) difficulty old =
    if ltb prev difficulty
    then some rising
    else if ltb difficulty prev
    then some falling
    else some flat

-- `changed`, and `decreased || first_observation`.
unfoldable pub is_transition : Option ℕ → ℕ → Bool
is_transition none difficulty = false
is_transition (some prev) difficulty = not (prev == difficulty)

unfoldable pub may_requalify : Option ℕ → ℕ → Bool
may_requalify none difficulty = true
may_requalify (some prev) difficulty = ltb difficulty prev

module _ {J N : Type 0} (ja : JournalAccess J) (tr : Transport N) (cfg : Config) where
  unfoldable pub arm_quiesce : Manager J N → Manager J N
  arm_quiesce s =
      let hold = min cfg.difficulty_quiesce_ms quiesce_max_ms in
      let until = tr.mono s.net + hold in
      if hold == 0 then s else if leb until s.quiesce_until_ms then s else record s {
        quiesce_until_ms = until;
        metrics = record s.metrics { difficulty_quiesces = s.metrics.difficulty_quiesces + 1 };
      }

  unfoldable pub note_difficulty : ℕ → Manager J N → Manager J N
  unfolding arm_quiesce
  note_difficulty difficulty s =
      let s' = record s {
        trend = trend_of s.last_difficulty difficulty s.trend;
        last_difficulty = some difficulty;
      } in
      if is_transition s.last_difficulty difficulty then arm_quiesce s' else s'

  unfoldable pub observe_difficulty : ℕ → Step J N ℕ
  observe_difficulty difficulty = do
    previous ← gets (λ s. s.last_difficulty)
    modify (note_difficulty difficulty)
    if may_requalify previous difficulty
        then asks (λ j. ja.unpark_for_difficulty j difficulty)
        else pure 0

  unfoldable pub dated : Option Text → Manager J N → Manager J N
  dated none s = s
  dated (some header) s = elim (parse_http_date_ms header) [
    | none ↦ s
    | some server_ms ↦ record s { server_offset_ms = some (server_ms -ℤ tr.wall s.net) }
  ]

  unfoldable pub track_server_date : TransportResult → Step J N (Unit {0})
  track_server_date r = modify (λ s. if r.transport_ok then dated r.date_header s else s)

  -- A difficulty that the server named: observed, journaled and announced.
  unfoldable pub learn_difficulty : ℕ → Step J N (Unit {0})
  learn_difficulty d = do
    unparked ← observe_difficulty d
    at ← gets (λ s. iso_utc (tr.wall s.net))
    asks (λ j. ja.record_difficulty j d at)
    emit (difficulty_hint d)

  unfoldable pub learn_read : Option ℕ → Step J N Bool
  learn_read none = pure false
  learn_read (some d) = do learn_difficulty d; pure true

  unfoldable pub learn_field : Option Text → Step J N Bool
  learn_field none = pure false
  learn_field (some field) = learn_read (parse_difficulty_hint (codes "m=" ++ field))

  unfoldable pub handle_difficulty_body : Text → Step J N Bool
  handle_difficulty_body body = learn_field (extract_json_field body (codes "difficulty"))
