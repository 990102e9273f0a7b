-- ===== src/Platform/Manager/Invariant.antt =====
-- What is to hold of the platform client between two calls, and the commands.
pub mod Calls
pub mod Runs
use tree_miner_amd.Prelude.{
  ℕ,
  ◌≡◌,
  refl,
  sym,
  ap,
  ◌∙◌,
  subst,
  inl,
  inr,
  Bool,
  true,
  false,
  not,
  ◌&&◌,
  ◌||◌,
  Option,
  none,
  some,
  List,
  [],
  ◌∷◌,
  arith,
  Bool-cases,
  ◌⊎◌,
  is_empty,
  if◌then◌else◌,
  Text.{Text, codes},
  Int.{ℤ, ◌≤ℤ◌},
  Floats.{F64},
}
use tree_miner_amd.Core.Address.{Keccak, is_valid_ethereum_address}
use tree_miner_amd.Platform.Coordinator.{
  self_context, MiningContext, MiningMode, self_mining, platform_mining, update_context,
  set_difficulty, set_user_address, set_self_mining_prefix, set_test_block_pattern,
}
use tree_miner_amd.Platform.Envelope.{Json, Crypto, is_safe_identifier, is_hex_string}
use tree_miner_amd.Platform.Lease.{
  LeaseInfo, LeaseError, start_lease, end_lease, lease_context, to_mining_context, record_block,
  has_active_lease, is_expired,
}
use tree_miner_amd.Platform.Proto.{
  platform_prefix_length, Decode, RegisterAck, AssignTask, Release, SetConfig, ControlAction, pause,
  resume, shutdown, set_config, Command, register_ack, assign_task, release, control,
}
use tree_miner_amd.Platform.Manager.{
  Platform, PlatformConfig, PlatformState, idle, available, leased, mining, completed, error,
  same_state, Host, Report, RejectReason, publish, transition_to, switch_to_self_mining,
  switch_to_platform_mining, send_registration, send_offline, publish_heartbeat,
}
use tree_miner_amd.Platform.Manager.Handlers.{
  Outcome, handle_register_ack, begin_lease, lease_started, refuse_task, handle_assign_task,
  assign_unless, give_back, finish_lease, handle_release, release_current, end_active_lease, stop,
  handle_set_config, configure_unless, apply_config, apply_option, refuse_config, handle_control,
  handle_command, expire_lease, recover, watchdog_tick, max_lease_id_len, min_lease_duration_sec,
  max_lease_duration_sec,
}

-- The miner works for the consumer of the lease if there is one, and if not for itself, on an address
-- that is its operator's own.
abbrev pub IsCoupled : (Text → Type 0) → Option LeaseInfo → MiningContext → Type 0
IsCoupled own none ctx = (address : Text) × own address × (ctx ≡ self_context address)
IsCoupled own (some l) ctx = ctx ≡ lease_context l

-- A lease of the form that assign_task asks for.
pub record IsProper (kk : Keccak) (l : LeaseInfo) : Type 0 where
  pub lease_named : is_safe_identifier l.lease_id 1 max_lease_id_len ≡ true
  pub consumer_named : is_safe_identifier l.consumer_id 1 max_lease_id_len ≡ true
  pub prefixed :
      (l.prefix ≡ [])
      ⊎ (is_hex_string l.prefix platform_prefix_length platform_prefix_length ≡ true)
  pub payable : is_valid_ethereum_address kk l.consumer_address ≡ true
  pub at_least_a_minute : min_lease_duration_sec ≤ℤ l.duration_sec
  pub at_most_a_week : l.duration_sec ≤ℤ max_lease_duration_sec

abbrev pub ProperIfAny : Keccak → Option LeaseInfo → Type 0
ProperIfAny kk none = Unit
ProperIfAny kk (some l) = IsProper kk l

-- Mining under a lease needs the lease, and no call ends in a state of passage.
abbrev pub FitsLease : PlatformState → Option LeaseInfo → Type 0
FitsLease mining none = ⊥
FitsLease leased lease = ⊥
FitsLease completed lease = ⊥
FitsLease _ lease = Unit

pub record IsConsistent (kk : Keccak) (own : Text → Type 0) (s : Platform) : Type 0 where
  pub owned : own s.coordinator.identity.user_address
  pub coupled : IsCoupled own s.lease s.coordinator.context
  pub proper : ProperIfAny kk s.lease
  pub fits : FitsLease s.state s.lease

abbrev pub Parked : PlatformState → Type 0
Parked idle = Unit
Parked available = Unit
Parked error = Unit
Parked _ = ⊥

fits-Parked : (st : PlatformState) (lease : Option LeaseInfo) → Parked st → FitsLease st lease
fits-Parked idle lease p = tt
fits-Parked available lease p = tt
fits-Parked error lease p = tt
fits-Parked leased lease p = absurd p
fits-Parked mining lease p = absurd p
fits-Parked completed lease p = absurd p

empty_of : (s : Text) → is_empty s ≡ true → s ≡ []
empty_of [] e = refl
empty_of (c ∷ s) e = absurd cc

module _ (kk : Keccak) (own : Text → Type 0) (cfg : PlatformConfig) (h : Host) where
  pub park :
      (st : PlatformState) (s : Platform)
      → Parked st
      → IsConsistent kk own s
      → IsConsistent kk own (transition_to cfg h st s)
  unfolding transition_to
  park st s p c = record {
    owned = c.owned;
    coupled = c.coupled;
    proper = c.proper;
    fits = fits-Parked st s.lease p;
  }

  pub finish-IsConsistent :
      (s : Platform)
      → own s.coordinator.identity.user_address
      → IsConsistent kk own (finish_lease kk cfg h s)
  unfolding finish_lease give_back transition_to switch_to_self_mining end_lease update_context
  finish-IsConsistent s o = record { owned = o; coupled = (_, o, refl); proper = tt; fits = tt }

  pub register_ack-IsConsistent :
      (ack : RegisterAck) (s : Platform)
      → IsConsistent kk own s
      → IsConsistent kk own (handle_register_ack kk cfg h ack s).0
  unfolding handle_register_ack
  register_ack-IsConsistent ack s c = ground (arith, park available s tt, park error s tt)

  proper_of_accepted :
      (task : AssignTask) (now : ℕ)
      → refuse_task kk cfg h task ≡ none
      → ProperIfAny kk
          (start_lease task.lease_id task.consumer_id task.consumer_address task.prefix
            task.duration_sec now none).0
  unfolding refuse_task start_lease
  proper_of_accepted task now r = record {
    lease_named = ground arith;
    consumer_named = ground arith;
    prefixed = ground (arith, empty_of task.prefix);
    payable = ground arith;
    at_least_a_minute = ground arith;
    at_most_a_week = ground arith;
  }

  started-IsConsistent :
      (task : AssignTask) (current : Option LeaseInfo) (s : Platform)
      → refuse_task kk cfg h task ≡ none
      → own s.coordinator.identity.user_address
      → IsCoupled own current s.coordinator.context
      → ProperIfAny kk current
      → IsConsistent kk own (
          lease_started kk cfg h
            (start_lease task.lease_id task.consumer_id task.consumer_address task.prefix
              task.duration_sec h.monotonic current)
            s)
  unfolding start_lease transition_to switch_to_platform_mining update_context to_mining_context
      lease_context
  started-IsConsistent task none s r o c p = record {
    owned = o;
    coupled = refl;
    proper = proper_of_accepted task h.monotonic r;
    fits = tt;
  }
  started-IsConsistent task (some l) s r o c p = record {
    owned = o;
    coupled = c;
    proper = p;
    fits = tt;
  }

  begin-IsConsistent :
      (task : AssignTask) (s : Platform)
      → refuse_task kk cfg h task ≡ none
      → IsConsistent kk own s
      → IsConsistent kk own (begin_lease kk cfg h task s)
  unfolding begin_lease transition_to
  begin-IsConsistent task s r c =
      started-IsConsistent task s.lease (transition_to cfg h leased s) r c.owned c.coupled c.proper

  assigned-IsConsistent :
      (task : AssignTask) (s : Platform) (verdict : Option RejectReason)
      → refuse_task kk cfg h task ≡ verdict
      → IsConsistent kk own s
      → IsConsistent kk own (assign_unless kk cfg h task s verdict).0
  assigned-IsConsistent task s none r c = begin-IsConsistent task s r c
  assigned-IsConsistent task s (some reason) r c = c

  pub assign_task-IsConsistent :
      (task : AssignTask) (s : Platform)
      → IsConsistent kk own s
      → IsConsistent kk own (handle_assign_task kk cfg h task s).0
  unfolding handle_assign_task
  assign_task-IsConsistent task s c = elim (Bool-cases (same_state s.state available)) [
    | inl here ↦ rw here (assigned-IsConsistent task s (refuse_task kk cfg h task) refl c)
    | inr elsewhere ↦ rw elsewhere c
  ]

  current-IsConsistent :
      (lease_id : Text) (s : Platform) (current : Option LeaseInfo)
      → IsConsistent kk own s
      → IsConsistent kk own (release_current kk cfg h lease_id s current).0
  current-IsConsistent lease_id s none c = c
  current-IsConsistent lease_id s (some l) c = ground (arith, finish-IsConsistent s c.owned)

  pub release-IsConsistent :
      (r : Release) (s : Platform)
      → IsConsistent kk own s
      → IsConsistent kk own (handle_release kk cfg h r s).0
  unfolding handle_release
  release-IsConsistent r s c = ground (arith, current-IsConsistent r.lease_id s s.lease)

  give_back-Parked :
      (st : PlatformState) (s : Platform)
      → Parked st
      → own s.coordinator.identity.user_address
      → IsConsistent kk own (transition_to cfg h st (give_back kk cfg h s))
  unfolding give_back transition_to switch_to_self_mining end_lease update_context
  give_back-Parked st s p o = record {
    owned = o;
    coupled = (_, o, refl);
    proper = tt;
    fits = fits-Parked st none p;
  }

  -- A parked state fits the lease that is left, whether the active one was ended or not.
  pub ended-Parked :
      (st : PlatformState) (s : Platform)
      → Parked st
      → IsConsistent kk own s
      → IsConsistent kk own (transition_to cfg h st (end_active_lease kk cfg h s))
  ended-Parked st s p c = elim (Bool-cases (has_active_lease h.monotonic s.lease)) [
    | inl active ↦ rw active (give_back-Parked st s p c.owned)
    | inr over ↦ rw over (park st s p c)
  ]
