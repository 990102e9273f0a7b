-- ===== src/Platform/Manager/Intake.antt =====
-- manager.rs: from the bytes of a message to the handlers, and the calls from outside.
pub mod Keep
use tree_miner_amd.Prelude.{
  ℕ,
  zero,
  suc,
  ◌+◌,
  Bool,
  true,
  false,
  ◌||◌,
  Option,
  none,
  some,
  List,
  [],
  ◌∷◌,
  ◌++◌,
  length,
  leb,
  ltb,
  if◌then◌else◌,
  Text.{Text, codes},
  Floats.{F64},
}
use tree_miner_amd.Core.Address.{Keccak}
use tree_miner_amd.Platform.Lease.{LeaseInfo, record_block}
use tree_miner_amd.Platform.Envelope.{
  Json, Crypto, VerifyStatus, ok, max_payload_bytes, verify_envelope, is_mutating_command,
}
use tree_miner_amd.Platform.Nonces.{NonceCache}
use tree_miner_amd.Platform.Proto.{
  Decode, Command, Parsed, parsed, failed, command_from_value, value_from_payload,
}
use tree_miner_amd.Platform.Manager.{
  Platform, PlatformConfig, QueuedCommand, PlatformState, available, mining, RejectReason, parse,
  unauthenticated, unsigned_mutating, Host, subscription, publish, transition_to, send_registration,
  send_block_found, publish_heartbeat,
}
use tree_miner_amd.Platform.Manager.Handlers.{Outcome, handle_command, stop, watchdog_tick}

-- build_topic
unfoldable pub build_topic : Text → Text → Text
build_topic worker_id suffix = codes "xenminer/" ++ worker_id ++ codes "/" ++ suffix

-- The calls that the broker's pump, the threads and the submitter make.
pub data Input : Type 0 where
  enqueue : Text → Text → Input
  dispatch_one dispatch watchdog beat starting stopping : Input
  block : Text → Text → Text → ℕ → F64 → Input

module _ (cfg : PlatformConfig) where
  -- Oversized payloads and those that find the queue full are dropped and counted.
  unfoldable pub enqueue_command : Text → Text → Platform → Platform
  enqueue_command topic payload s =
      if s.stopping
      then s
      else if ltb max_payload_bytes (length payload) || leb cfg.queue_capacity (length s.items)
      then record s { dropped = s.dropped + 1; dropped_total = s.dropped_total + 1 }
      else record s { items = s.items ++ record { topic = topic; payload = payload } ∷ [] }

  module _ (h : Host) where
    unfoldable pub announce : Platform → Platform
    announce s =
        let s1 = publish (subscription (build_topic cfg.worker_id (codes "task"))) s in
        let s2 = publish (subscription (build_topic cfg.worker_id (codes "control"))) s1 in
        transition_to cfg h available (send_registration cfg h s2)

    unfoldable pub start : Platform → Platform
    start s = if s.running then s else announce (record s { running = true; stopping = false })

    module _ (hash key account : Text) (attempts : ℕ) (hashrate : F64) where
      abbrev pub report_block : PlatformState → Option LeaseInfo → Platform → Platform
      report_block mining none s = s
      report_block mining (some lease) s =
          send_block_found cfg h lease.lease_id hash key account attempts hashrate
            (record s { lease = record_block (some lease) })
      report_block available lease s =
          send_block_found cfg h [] hash key account attempts hashrate s
      report_block _ lease s = s

      unfoldable pub on_block_found : Platform → Platform
      on_block_found s = report_block s.state s.lease s

module _ {V : Type 0} (js : Json V) (cr : Crypto) (de : Decode V) (kk : Keccak)
    (cfg : PlatformConfig) where
  module _ (h : Host) where
    abbrev pub verdict : VerifyStatus → Option RejectReason
    verdict ok = none
    verdict status = some (unauthenticated status)

    abbrev pub verified : Platform → NonceCache × VerifyStatus → Outcome
    verified s r = (record s { nonces = r.0 }, verdict r.1)

    abbrev pub authorize_with : Option Text → V → Platform → Outcome
    authorize_with (some secret) msg s =
        verified s (verify_envelope js cr secret msg cfg.worker_id h.now_epoch_s s.nonces)
    authorize_with none msg s =
        (s, if is_mutating_command js msg then some unsigned_mutating else none)

    unfoldable pub authorize_command : V → Platform → Outcome
    authorize_command msg s = authorize_with cfg.command_secret msg s

    abbrev pub handle_parsed : Platform → Parsed Command → Outcome
    handle_parsed s (failed e) = (s, some (parse e))
    handle_parsed s (parsed command) = handle_command kk cfg h command s

    abbrev pub handle_authorized : V → Outcome → Outcome
    handle_authorized msg (s, some reason) = (s, some reason)
    handle_authorized msg (s, none) = handle_parsed s (command_from_value js de msg)

    abbrev pub handle_value : Platform → Parsed V → Outcome
    handle_value s (failed e) = (s, some (parse e))
    handle_value s (parsed msg) = handle_authorized msg (authorize_command msg s)

    unfoldable pub try_handle_payload : Text → Platform → Outcome
    try_handle_payload payload s = handle_value s (value_from_payload js de payload)

    -- The reason of a rejection is only logged.
    unfoldable pub handle_payload : Text → Platform → Platform
    handle_payload payload s = (try_handle_payload payload s).0

    -- The loop that drains the queue: a round, given the rounds after it, and at most `fuel` of them.
    abbrev pub drain_items :
        (Platform → Platform × ℕ) → Platform → List QueuedCommand → Platform × ℕ
    drain_items more s [] = (s, 0)
    drain_items more s (cmd ∷ rest) =
        let (s', handled) = more (handle_payload cmd.payload (record s { items = rest })) in
        (s', handled + 1)

    unfoldable pub drain : ℕ → Platform → Platform × ℕ
    drain zero s = (s, 0)
    drain (suc fuel) s = drain_items (drain fuel) s s.items

    -- One round for each queued command.
    unfoldable pub dispatch_pending : Platform → Platform × ℕ
    dispatch_pending s = drain (length s.items) s

  -- One round of dispatch_loop.
  module _ (h : Host) where
    abbrev pub next_item : Platform → List QueuedCommand → Platform
    next_item s [] = s
    next_item s (cmd ∷ rest) =
        if s.running then handle_payload h cmd.payload (record s { items = rest }) else s

    unfoldable pub dispatch_next : Platform → Platform
    dispatch_next s = next_item s s.items

  unfoldable pub step : Host → Input → Platform → Platform
  step h (enqueue topic payload) s = enqueue_command cfg topic payload s
  step h dispatch_one s = dispatch_next h s
  step h dispatch s = (dispatch_pending h s).0
  step h watchdog s = watchdog_tick kk cfg h s
  step h beat s = publish_heartbeat cfg h s
  step h starting s = start cfg h s
  step h stopping s = stop kk cfg h s
  step h (block hash key account attempts hashrate) s =
      on_block_found cfg h hash key account attempts hashrate s

  unfoldable pub run : List (Host × Input) → Platform → Platform
  run [] s = s
  run ((h, i) ∷ inputs) s = run inputs (step h i s)
