-- ===== src/Platform/Manager/Handlers.antt =====
-- manager.rs: what each command does.
use tree_miner_amd.Prelude.{
  ℕ,
  Bool,
  true,
  false,
  not,
  ◌&&◌,
  ◌||◌,
  Option,
  none,
  some,
  is_empty,
  if◌then◌else◌,
  Text.{Text, codes, text_eq},
  Int.{ℤ, pos, leb_ℤ},
}
use tree_miner_amd.Core.Address.{Keccak, is_valid_ethereum_address}
use tree_miner_amd.Platform.Coordinator.{
  MiningCoordinator, set_user_address, set_self_mining_prefix, set_test_block_pattern,
  set_difficulty,
}
use tree_miner_amd.Platform.Envelope.{is_hex_string, is_safe_identifier}
use tree_miner_amd.Platform.Lease.{
  LeaseInfo, LeaseError, start_lease, end_lease, has_active_lease, is_expired, to_mining_context,
}
use tree_miner_amd.Platform.Proto.{
  RegisterAck, AssignTask, Release, SetConfig, ControlAction, pause, resume, shutdown, set_config,
  Command, register_ack, assign_task, release, control, platform_prefix_length,
}
use tree_miner_amd.Platform.Manager.{
  Platform, PlatformConfig, idle, available, leased, mining, completed, error, same_state,
  state_as_str, RejectReason, bad_lease_identifiers, bad_consumer_address, bad_prefix, bad_duration,
  bad_release_lease_id, bad_difficulty, bad_payout_address, bad_block_pattern, wrong_state, Host,
  transition_to, switch_to_self_mining, switch_to_platform_mining, send_registration, send_offline,
  publish_heartbeat,
}

abbrev pub max_lease_id_len : ℕ
max_lease_id_len = 64

abbrev pub min_lease_duration_sec : ℤ
min_lease_duration_sec = pos 60

abbrev pub max_lease_duration_sec : ℤ
max_lease_duration_sec = pos 604800

abbrev pub min_difficulty : ℤ
min_difficulty = pos 1

abbrev pub max_difficulty : ℤ
max_difficulty = pos 10000000

abbrev pub max_self_prefix_len : ℕ
max_self_prefix_len = 32

abbrev pub max_block_pattern_len : ℕ
max_block_pattern_len = 16

-- `Result<(), RejectReason>`, with the state that is left.
abbrev pub Outcome : Type 0
Outcome = Platform × Option RejectReason

abbrev pub is_ok_with {ℓ} : {A : Type ℓ} → (A → Bool) → Option A → Bool
is_ok_with p none = true
is_ok_with p (some a) = p a

abbrev pub apply_option {ℓ} :
    {A : Type ℓ}
    → (A → MiningCoordinator → MiningCoordinator)
    → Option A
    → MiningCoordinator
    → MiningCoordinator
apply_option f none c = c
apply_option f (some a) c = f a c

-- The fields of a set_config that are there, in the order of the code.
unfoldable pub configured : SetConfig → MiningCoordinator → MiningCoordinator
unfolding set_difficulty set_user_address set_self_mining_prefix set_test_block_pattern
configured config c =
    let c1 = apply_option set_difficulty config.difficulty c in
    let c2 = apply_option set_user_address config.address c1 in
    let c3 = apply_option set_self_mining_prefix config.prefix c2 in
    apply_option set_test_block_pattern config.block_pattern c3

module _ (kk : Keccak) (cfg : PlatformConfig) (h : Host) where
  unfoldable pub handle_register_ack : RegisterAck → Platform → Outcome
  handle_register_ack ack s =
      if ack.accepted
      then (if same_state s.state available then s else transition_to cfg h available s, none)
      else (transition_to cfg h error s, none)

  -- The lease is registered, or one is active already.
  abbrev pub lease_started : Option LeaseInfo × Option LeaseError → Platform → Platform
  lease_started (lease, some e) s = transition_to cfg h error (record s { lease = lease })
  lease_started (lease, none) s =
      let s1 = record s { lease = lease } in
      let s2 = switch_to_platform_mining (to_mining_context cfg.eth_address lease) s1 in
      transition_to cfg h mining s2

  unfoldable pub begin_lease : AssignTask → Platform → Platform
  begin_lease task s =
      let s1 = transition_to cfg h leased s in
      lease_started
        (start_lease task.lease_id task.consumer_id task.consumer_address task.prefix
          task.duration_sec h.monotonic s1.lease)
        s1

  unfoldable pub refuse_task : AssignTask → Option RejectReason
  refuse_task task =
      if not (is_safe_identifier task.lease_id 1 max_lease_id_len)
        || not (is_safe_identifier task.consumer_id 1 max_lease_id_len)
      then some bad_lease_identifiers
      else if not (is_valid_ethereum_address kk task.consumer_address)
      then some bad_consumer_address
      else if not (is_empty task.prefix)
          && not (is_hex_string task.prefix platform_prefix_length platform_prefix_length)
      then some bad_prefix
      else if not (
          leb_ℤ min_lease_duration_sec task.duration_sec
          && leb_ℤ task.duration_sec max_lease_duration_sec)
      then some bad_duration
      else none

  abbrev pub assign_unless : AssignTask → Platform → Option RejectReason → Outcome
  assign_unless task s (some reason) = (s, some reason)
  assign_unless task s none = (begin_lease task s, none)

  unfoldable pub handle_assign_task : AssignTask → Platform → Outcome
  handle_assign_task task s =
      if not (same_state s.state available)
      then (s, some (wrong_state (state_as_str s.state)))
      else assign_unless task s (refuse_task task)

  -- end_lease and switch_to_self_mining
  unfoldable pub give_back : Platform → Platform
  give_back s = switch_to_self_mining (record s { lease = (end_lease s.lease).0 })

  unfoldable pub finish_lease : Platform → Platform
  finish_lease s = transition_to cfg h available (give_back (transition_to cfg h completed s))

  abbrev pub release_current : Text → Platform → Option LeaseInfo → Outcome
  release_current lease_id s none = (s, some (wrong_state (codes "no active lease")))
  release_current lease_id s (some current) =
      if not (is_empty lease_id) && not (text_eq current.lease_id lease_id)
      then (s, some (wrong_state (codes "lease_id mismatch")))
      else (finish_lease s, none)

  unfoldable pub handle_release : Release → Platform → Outcome
  handle_release r s =
      if not (is_empty r.lease_id) && not (is_safe_identifier r.lease_id 1 max_lease_id_len)
      then (s, some bad_release_lease_id)
      else release_current r.lease_id s s.lease

  abbrev pub end_active_lease : Platform → Platform
  end_active_lease s = if has_active_lease h.monotonic s.lease then give_back s else s

  -- Threads are not modelled: there is none to join.
  unfoldable pub stop : Platform → Platform
  stop s =
      let s1 = record s { stopping = true; running = false } in
      if s.running then transition_to cfg h idle (send_offline cfg h (end_active_lease s1)) else s1

  unfoldable pub refuse_config : SetConfig → Option RejectReason
  refuse_config c =
      if not (is_ok_with (λ d. leb_ℤ min_difficulty d && leb_ℤ d max_difficulty) c.difficulty)
      then some bad_difficulty
      else if not (is_ok_with (is_valid_ethereum_address kk) c.address)
      then some bad_payout_address
      else if not (is_ok_with (λ p. is_empty p || is_hex_string p 1 max_self_prefix_len) c.prefix)
      then some bad_prefix
      else if not (
          is_ok_with (λ p. is_empty p || is_safe_identifier p 1 max_block_pattern_len)
            c.block_pattern)
      then some bad_block_pattern
      else none

  unfoldable pub apply_config : SetConfig → Platform → Platform
  apply_config c s = publish_heartbeat cfg h (record s { coordinator = configured c s.coordinator })

  abbrev pub configure_unless : SetConfig → Platform → Option RejectReason → Outcome
  configure_unless c s (some reason) = (s, some reason)
  configure_unless c s none = (apply_config c s, none)

  unfoldable pub handle_set_config : SetConfig → Platform → Outcome
  handle_set_config c s = configure_unless c s (refuse_config c)

  unfoldable pub handle_control : ControlAction → Platform → Outcome
  handle_control pause s = (transition_to cfg h idle (end_active_lease s), none)
  handle_control resume s = (
    if same_state s.state idle
        then transition_to cfg h available (send_registration cfg h s)
        else s,
    none,
  )
  handle_control shutdown s = (stop (record s { shutdown_requested = true }), none)
  handle_control (set_config c) s = handle_set_config c s

  unfoldable pub handle_command : Command → Platform → Outcome
  handle_command (register_ack ack) s = handle_register_ack ack s
  handle_command (assign_task task) s = handle_assign_task task s
  handle_command (release r) s = handle_release r s
  handle_command (control action) s = handle_control action s

  -- Half of a watchdog tick each: the end of a lease, and the way out of an error.
  unfoldable pub expire_lease : Platform → Platform
  expire_lease s =
      if same_state s.state mining && is_expired h.monotonic s.lease then finish_lease s else s

  unfoldable pub recover : Platform → Platform
  recover s =
      let s1 = transition_to cfg h idle s in
      if same_state s.state error
      then if h.is_connected then transition_to cfg h available (send_registration cfg h s1) else s1
      else s

  unfoldable pub watchdog_tick : Platform → Platform
  watchdog_tick s = recover (expire_lease s)
