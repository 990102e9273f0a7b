-- ===== src/Platform/Manager/Legacy/Runs.antt =====
-- Runs of messages and calls on a rig without a shared secret.
use tree_miner_amd.Prelude.{
  ℕ,
  ◌≡◌,
  refl,
  subst,
  sym,
  Bool,
  true,
  false,
  Option,
  none,
  some,
  List,
  length,
  arith,
  if◌then◌else◌,
  Text.{Text},
  Int.{ℤ},
  Floats.{F64},
}
use tree_miner_amd.Core.Address.{Keccak}
use tree_miner_amd.Platform.Coordinator.{MiningIdentity, update_context}
use tree_miner_amd.Platform.Envelope.{Json, Crypto, is_mutating_command}
use tree_miner_amd.Platform.Lease.{LeaseInfo, end_lease, has_active_lease}
use tree_miner_amd.Platform.Proto.{
  Decode, pause, resume, Command, register_ack, assign_task, release, control, Parsed, parsed,
  failed, command_from_value, value_from_payload,
}
use tree_miner_amd.Platform.Manager.{
  Platform, PlatformConfig, PlatformState, available, mining, idle, QueuedCommand,
  unsigned_mutating, Host, transition_to, switch_to_self_mining, send_registration, send_offline,
  send_block_found, publish_heartbeat,
}
use tree_miner_amd.Platform.Manager.Handlers.{
  handle_register_ack, give_back, finish_lease, release_current, handle_release, end_active_lease,
  stop, handle_control, handle_command, expire_lease, recover, watchdog_tick,
}
use tree_miner_amd.Platform.Manager.Intake.{
  enqueue_command, announce, start, report_block, on_block_found, authorize_with, authorize_command,
  handle_parsed, handle_authorized, handle_value, try_handle_payload, handle_payload,
  dispatch_pending, Input, enqueue, dispatch_one, dispatch, watchdog, beat, starting, stopping,
  block, step, run,
}
use tree_miner_amd.Platform.Manager.Legacy.{HasTags, is_harmless, harmless_of_unmutating}
use tree_miner_amd.Platform.Manager.Intake.Keep.{drain-keeps, next-keeps, run-keeps}

-- The rig has no lease, and its identity, its difficulty and its will to run are as given.
abbrev pub IsOwn : MiningIdentity → ℤ → Bool → Platform → Type 0
IsOwn identity difficulty shutdown s =
    (s.lease ≡ none)
    × (s.coordinator.identity ≡ identity)
    × (s.coordinator.difficulty ≡ difficulty)
    × (s.shutdown_requested ≡ shutdown)

module _ (kk : Keccak) (cfg : PlatformConfig) (identity : MiningIdentity) (difficulty : ℤ)
    (asked : Bool) where
  abbrev Own : Platform → Type 0
  Own = IsOwn identity difficulty asked

  module _ (h : Host) where
    give_back-IsOwn : (s : Platform) → Own s → Own (give_back kk cfg h s)
    unfolding give_back switch_to_self_mining update_context end_lease
    give_back-IsOwn s o = (refl, o.1, o.2, o.3)

    finish-IsOwn : (s : Platform) → Own s → Own (finish_lease kk cfg h s)
    unfolding finish_lease transition_to give_back switch_to_self_mining update_context end_lease
    finish-IsOwn s o = (refl, o.1, o.2, o.3)

    ended-IsOwn : (s : Platform) → Own s → Own (end_active_lease kk cfg h s)
    ended-IsOwn s o = by_active (has_active_lease h.monotonic s.lease)
      where
        by_active : (b : Bool) → Own (if b then give_back kk cfg h s else s)
        by_active true = give_back-IsOwn s o
        by_active false = o

    stop-IsOwn : (s : Platform) → Own s → Own (stop kk cfg h s)
    unfolding stop transition_to send_offline
    stop-IsOwn s o = by_running s.running
      where
        s1 : Platform
        s1 = record s { stopping = true; running = false }

        by_running :
            (b : Bool)
            → Own (
                if b
                then transition_to cfg h idle (send_offline cfg h (end_active_lease kk cfg h s1))
                else s1)
        by_running true = ended-IsOwn s1 o
        by_running false = o

    current-IsOwn :
        (lease_id : Text) (s : Platform) (current : Option LeaseInfo)
        → Own s
        → Own (release_current kk cfg h lease_id s current).0
    current-IsOwn lease_id s none o = o
    current-IsOwn lease_id s (some l) o = ground (arith, finish-IsOwn s)

    command-IsOwn :
        (command : Command) (s : Platform)
        → is_harmless command ≡ true
        → Own s
        → Own (handle_command kk cfg h command s).0
    unfolding handle_command handle_register_ack handle_release handle_control transition_to
        send_registration
    command-IsOwn (register_ack ack) s e o = ground (arith, o)
    command-IsOwn (assign_task task) s e o = cc
    command-IsOwn (release r) s e o = ground (arith, current-IsOwn r.lease_id s s.lease)
    command-IsOwn (control pause) s e o = ended-IsOwn s o
    command-IsOwn (control resume) s e o = ground (arith, o)
    command-IsOwn (control _) s e o = cc

    watchdog-IsOwn : (s : Platform) → Own s → Own (watchdog_tick kk cfg h s)
    unfolding watchdog_tick expire_lease recover transition_to send_registration
    watchdog-IsOwn s o = recovered (expire_lease kk cfg h s) expired
      where
        expired : Own (expire_lease kk cfg h s)
        expired = ground (arith, finish-IsOwn s)

        recovered : (s' : Platform) → Own s' → Own (recover kk cfg h s')
        recovered s' o' = ground (arith, o')

    report-IsOwn :
        (hash key account : Text) (attempts : ℕ) (rate : F64) (st : PlatformState)
        (lease : Option LeaseInfo) (s : Platform)
        → lease ≡ none
        → Own s
        → Own (report_block cfg h hash key account attempts rate st lease s)
    unfolding send_block_found
    report-IsOwn hash key account attempts rate mining none s e o = o
    report-IsOwn hash key account attempts rate mining (some l) s e o = cc
    report-IsOwn hash key account attempts rate available lease s e o = o
    report-IsOwn hash key account attempts rate _ lease s e o = o

  module _ {V : Type 0} (js : Json V) (cr : Crypto) (de : Decode V) (tags : HasTags js de)
      (open_rig : cfg.command_secret ≡ none) where
    module _ (h : Host) where
      parsed-IsOwn :
          (msg : V) (s : Platform) (r : Parsed Command)
          → command_from_value js de msg ≡ r
          → is_mutating_command js msg ≡ false
          → Own s
          → Own (handle_parsed js cr de kk cfg h s r).0
      parsed-IsOwn msg s (failed e) f m o = o
      parsed-IsOwn msg s (parsed command) f m o =
          command-IsOwn h command s (harmless_of_unmutating js de tags msg command m f) o

      authorized-IsOwn :
          (msg : V) (s : Platform)
          → Own s
          → Own
              (handle_authorized js cr de kk cfg h msg
                (authorize_with js cr de kk cfg h none msg s)).0
      authorized-IsOwn msg s o = by_class (is_mutating_command js msg) refl
        where
          by_class :
              (b : Bool)
              → is_mutating_command js msg ≡ b
              → Own
                  (handle_authorized js cr de kk cfg h msg
                    (s, if b then some unsigned_mutating else none)).0
          by_class true m = o
          by_class false m = parsed-IsOwn msg s (command_from_value js de msg) refl m o

      value-IsOwn :
          (s : Platform) (r : Parsed V) → Own s → Own (handle_value js cr de kk cfg h s r).0
      unfolding authorize_command
      value-IsOwn s (failed e) o = o
      value-IsOwn s (parsed msg) o =
          subst
            (λ secret.
              Own
                (handle_authorized js cr de kk cfg h msg
                  (authorize_with js cr de kk cfg h secret msg s)).0)
            (sym open_rig) (authorized-IsOwn msg s o)

      payload-IsOwn :
          (payload : Text) (s : Platform) → Own s → Own (handle_payload js cr de kk cfg h payload s)
      unfolding handle_payload try_handle_payload
      payload-IsOwn payload s o = value-IsOwn s (value_from_payload js de payload) o

      dequeued :
          (s : Platform) (rest : List QueuedCommand) → Own s → Own (record s { items = rest })
      dequeued s rest o = o

    step-IsOwn : (h : Host) (i : Input) (s : Platform) → Own s → Own (step js cr de kk cfg h i s)
    unfolding step dispatch_pending enqueue_command start announce transition_to send_registration
        on_block_found publish_heartbeat
    step-IsOwn h (enqueue topic payload) s o = ground (arith, o)
    step-IsOwn h dispatch_one s o =
        next-keeps js cr de kk cfg Own h (dequeued h) (payload-IsOwn h) s o
    step-IsOwn h dispatch s o =
        drain-keeps js cr de kk cfg Own h (dequeued h) (payload-IsOwn h) (length s.items) s o
    step-IsOwn h watchdog s o = watchdog-IsOwn h s o
    step-IsOwn h beat s o = o
    step-IsOwn h starting s o = ground (arith, o)
    step-IsOwn h stopping s o = stop-IsOwn h s o
    step-IsOwn h (block hash key account attempts rate) s o =
        report-IsOwn h hash key account attempts rate s.state s.lease s o.0 o

-- On a rig without a shared secret and without a lease, no sequence of messages and calls gives it a
-- lease, changes its payout address, prefix, pattern or difficulty, or asks it to shut down, where
-- the decoder of an action reads the variant that the field names.
pub unsigned_moves_no_money :
    {V : Type 0} (js : Json V) (cr : Crypto) (de : Decode V) (kk : Keccak) (cfg : PlatformConfig)
    (inputs : List (Host × Input)) (s : Platform)
    → HasTags js de
    → cfg.command_secret ≡ none
    → s.lease ≡ none
    → IsOwn s.coordinator.identity s.coordinator.difficulty s.shutdown_requested
        (run js cr de kk cfg inputs s)
unsigned_moves_no_money js cr de kk cfg inputs s tags open_rig e =
    let identity = s.coordinator.identity in
    let difficulty = s.coordinator.difficulty in
    run-keeps js cr de kk cfg (IsOwn identity difficulty s.shutdown_requested)
      (step-IsOwn kk cfg identity difficulty s.shutdown_requested js cr de tags open_rig) inputs s
      (e, refl, refl, refl)
