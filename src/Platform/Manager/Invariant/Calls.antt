-- ===== src/Platform/Manager/Invariant/Calls.antt =====
-- The handlers of the control topic, the watchdog and the outside calls, and the consistency of the
-- client.
use tree_miner_amd.Prelude.{
  ℕ,
  ◌+◌,
  ◌≡◌,
  refl,
  subst,
  sym,
  inl,
  inr,
  Bool,
  true,
  false,
  Option,
  none,
  some,
  [],
  ◌∷◌,
  ◌++◌,
  arith,
  Bool-cases,
  if◌then◌else◌,
  Text.{Text},
  Floats.{F64},
}
use tree_miner_amd.Core.Address.{Keccak}
use tree_miner_amd.Platform.Coordinator.{
  self_context, set_difficulty, set_user_address, set_self_mining_prefix, set_test_block_pattern,
  MiningCoordinator, set_difficulty, set_user_address, set_self_mining_prefix,
  set_test_block_pattern,
}
use tree_miner_amd.Platform.Lease.{LeaseInfo, record_block, lease_context}
use tree_miner_amd.Platform.Proto.{
  SetConfig, ControlAction, pause, resume, shutdown, set_config, Command, register_ack, assign_task,
  release, control,
}
use tree_miner_amd.Platform.Manager.{
  Platform, PlatformConfig, PlatformState, idle, available, mining, error, leased, completed,
  same_state, Host, RejectReason, transition_to, send_registration, send_offline, send_block_found,
  publish_heartbeat,
}
use tree_miner_amd.Platform.Manager
use tree_miner_amd.Platform.Manager.Handlers.{
  stop, end_active_lease, handle_set_config, configure_unless, apply_config, configured,
  apply_option, refuse_config, handle_control, handle_command, expire_lease, recover, watchdog_tick,
}
use tree_miner_amd.Platform.Manager.Intake.{
  enqueue_command, report_block, announce, start, on_block_found,
}
use tree_miner_amd.Platform.Manager.Invariant.{
  IsConsistent, IsProper, IsCoupled, ProperIfAny, FitsLease, Parked, park, ended-Parked,
  finish-IsConsistent, register_ack-IsConsistent, assign_task-IsConsistent, release-IsConsistent,
}

-- A new client is consistent.
pub new-IsConsistent :
    (kk : Keccak) (own : Text → Type 0) (cfg : PlatformConfig) (c : MiningCoordinator)
    → own c.identity.user_address
    → c.context ≡ self_context c.identity.user_address
    → IsConsistent kk own (Manager.new cfg c)
unfolding Manager.new
new-IsConsistent kk own cfg c o e = record {
  owned = o;
  coupled = (_, o, e);
  proper = tt;
  fits = tt;
}

-- An address that is named is the operator's own.
abbrev pub IfNamed : (Text → Type 0) → Option Text → Type 0
IfNamed own none = Unit
IfNamed own (some address) = own address

abbrev pub OwnAction : (Text → Type 0) → ControlAction → Type 0
OwnAction own (set_config sc) = IfNamed own sc.address
OwnAction own _ = Unit

abbrev pub OwnCommand : (Text → Type 0) → Command → Type 0
OwnCommand own (control action) = OwnAction own action
OwnCommand own _ = Unit

apply_option-address :
    {A : Type 0} (own : Text → Type 0) (f : A → MiningCoordinator → MiningCoordinator)
    → ((a : A) (c : MiningCoordinator) → (f a c).identity.user_address ≡ c.identity.user_address)
    → (o : Option A) (c : MiningCoordinator) → own c.identity.user_address
    → own (apply_option f o c).identity.user_address
apply_option-address own f same none c o = o
apply_option-address own f same (some a) c o = subst own (sym (same a c)) o

address-own :
    (own : Text → Type 0) (named : Option Text) (c : MiningCoordinator)
    → IfNamed own named
    → own c.identity.user_address
    → own (apply_option set_user_address named c).identity.user_address
unfolding set_user_address
address-own own none c n o = o
address-own own (some address) c n o = n

configured-address :
    (own : Text → Type 0) (sc : SetConfig) (c : MiningCoordinator)
    → IfNamed own sc.address
    → own c.identity.user_address
    → own (configured sc c).identity.user_address
unfolding configured set_difficulty set_self_mining_prefix set_test_block_pattern
configured-address own sc c n o =
    let c1 = apply_option set_difficulty sc.difficulty c in
    let c2 = apply_option set_user_address sc.address c1 in
    let c3 = apply_option set_self_mining_prefix sc.prefix c2 in
    let o1 = apply_option-address own set_difficulty (λ d c'. refl) sc.difficulty c o in
    let o2 = address-own own sc.address c1 n o1 in
    let o3 = apply_option-address own set_self_mining_prefix (λ x c'. refl) sc.prefix c2 o2 in
    apply_option-address own set_test_block_pattern (λ x c'. refl) sc.block_pattern c3 o3

-- A configuration changes no context.
configured-context :
    (sc : SetConfig) (c : MiningCoordinator) → (configured sc c).context ≡ c.context
unfolding configured
configured-context sc c = ground arith

module _ (kk : Keccak) (own : Text → Type 0) (cfg : PlatformConfig) where
  -- What the invariant does not speak of may change.
  pub repack :
      (s s' : Platform)
      → s'.state ≡ s.state
      → s'.lease ≡ s.lease
      → s'.coordinator ≡ s.coordinator
      → IsConsistent kk own s
      → IsConsistent kk own s'
  repack s s' e f g c = record {
    owned = subst (λ m. own m.identity.user_address) (sym g) c.owned;
    coupled =
        subst (λ l. IsCoupled own l s'.coordinator.context) (sym f)
          (subst (λ m. IsCoupled own s.lease m.context) (sym g) c.coupled);
    proper = subst (ProperIfAny kk) (sym f) c.proper;
    fits =
        subst (λ l. FitsLease s'.state l) (sym f)
          (subst (λ st. FitsLease st s.lease) (sym e) c.fits);
  }

  module _ (h : Host) where
    pub stop-IsConsistent :
        (s : Platform) → IsConsistent kk own s → IsConsistent kk own (stop kk cfg h s)
    unfolding stop send_offline transition_to
    stop-IsConsistent s c =
        let s1 = record s { stopping = true; running = false } in
        let c1 : IsConsistent kk own s1 = repack s s1 refl refl refl c in
        let s2 = end_active_lease kk cfg h s1 in
        let c2 = ended-Parked kk own cfg h idle s1 tt c1 in
        elim (Bool-cases s.running) [
          | inl live ↦ rw live (
              repack (transition_to cfg h idle s2)
                (transition_to cfg h idle (send_offline cfg h s2)) refl refl refl c2)
          | inr dead ↦ rw dead c1
        ]

    apply_config-IsConsistent :
        (sc : SetConfig) (s : Platform)
        → IfNamed own sc.address
        → IsConsistent kk own s
        → IsConsistent kk own (apply_config kk cfg h sc s)
    unfolding apply_config publish_heartbeat
    apply_config-IsConsistent sc s o c = record {
      owned = configured-address own sc s.coordinator o c.owned;
      coupled = subst (IsCoupled own s.lease) (sym (configured-context sc s.coordinator)) c.coupled;
      proper = c.proper;
      fits = c.fits;
    }

    set_config-IsConsistent :
        (sc : SetConfig) (s : Platform)
        → IfNamed own sc.address
        → IsConsistent kk own s
        → IsConsistent kk own (handle_set_config kk cfg h sc s).0
    unfolding handle_set_config
    set_config-IsConsistent sc s o c = by_verdict (refuse_config kk cfg h sc)
      where
        by_verdict :
            (verdict : Option RejectReason)
            → IsConsistent kk own (configure_unless kk cfg h sc s verdict).0
        by_verdict none = apply_config-IsConsistent sc s o c
        by_verdict (some reason) = c

    -- A parked state is entered with the lease that was there.
    enter :
        (st : PlatformState) (s s' : Platform)
        → Parked st
        → s'.lease ≡ s.lease
        → s'.coordinator ≡ s.coordinator
        → IsConsistent kk own s
        → IsConsistent kk own (transition_to cfg h st s')
    unfolding transition_to
    enter st s s' p f g c =
        repack (transition_to cfg h st s) (transition_to cfg h st s') refl f g
          (park kk own cfg h st s p c)

    pub control-IsConsistent :
        (action : ControlAction) (s : Platform)
        → OwnAction own action
        → IsConsistent kk own s
        → IsConsistent kk own (handle_control kk cfg h action s).0
    unfolding handle_control send_registration
    control-IsConsistent pause s o c = ended-Parked kk own cfg h idle s tt c
    control-IsConsistent resume s o c =
        let entered = enter available s (send_registration cfg h s) tt refl refl c in
        ground (arith, entered)
    control-IsConsistent shutdown s o c =
        let s1 = record s { shutdown_requested = true } in
        stop-IsConsistent s1 (repack s s1 refl refl refl c)
    control-IsConsistent (set_config sc) s o c = set_config-IsConsistent sc s o c

    pub command-IsConsistent :
        (command : Command) (s : Platform)
        → OwnCommand own command
        → IsConsistent kk own s
        → IsConsistent kk own (handle_command kk cfg h command s).0
    unfolding handle_command
    command-IsConsistent (register_ack ack) s o c = register_ack-IsConsistent kk own cfg h ack s c
    command-IsConsistent (assign_task task) s o c = assign_task-IsConsistent kk own cfg h task s c
    command-IsConsistent (release r) s o c = release-IsConsistent kk own cfg h r s c
    command-IsConsistent (control action) s o c = control-IsConsistent action s o c

    pub watchdog-IsConsistent :
        (s : Platform) → IsConsistent kk own s → IsConsistent kk own (watchdog_tick kk cfg h s)
    unfolding watchdog_tick expire_lease recover send_registration
    watchdog-IsConsistent s c = recovered (expire_lease kk cfg h s) expired
      where
        expired : IsConsistent kk own (expire_lease kk cfg h s)
        expired = ground (arith, finish-IsConsistent kk own cfg h s c.owned)

        recovered :
            (s' : Platform) → IsConsistent kk own s' → IsConsistent kk own (recover kk cfg h s')
        recovered s' c' =
            let parked = park kk own cfg h idle s' tt c' in
            let s1 = transition_to cfg h idle s' in
            let entered = enter available s1 (send_registration cfg h s1) tt refl refl parked in
            ground (arith, parked, entered)

    pub start-IsConsistent :
        (s : Platform) → IsConsistent kk own s → IsConsistent kk own (start cfg h s)
    unfolding start announce send_registration transition_to
    start-IsConsistent s c = by_running s.running
      where
        s1 : Platform
        s1 = record s { running = true; stopping = false }

        by_running : (b : Bool) → IsConsistent kk own (if b then s else announce cfg h s1)
        by_running true = c
        by_running false =
            repack (transition_to cfg h available s) (announce cfg h s1) refl refl refl
              (park kk own cfg h available s tt c)

    fits_some :
        (st : PlatformState) (l l' : LeaseInfo) → FitsLease st (some l) → FitsLease st (some l')
    fits_some idle l l' f = tt
    fits_some available l l' f = tt
    fits_some leased l l' f = f
    fits_some mining l l' f = tt
    fits_some completed l l' f = f
    fits_some error l l' f = tt

    pub report-IsConsistent :
        (hash key account : Text) (attempts : ℕ) (rate : F64) (st : PlatformState)
        (lease : Option LeaseInfo) (s : Platform)
        → s.lease ≡ lease
        → IsConsistent kk own s
        → IsConsistent kk own (report_block cfg h hash key account attempts rate st lease s)
    unfolding send_block_found record_block lease_context
    report-IsConsistent hash key account attempts rate mining none s e c = c
    report-IsConsistent hash key account attempts rate mining (some l) s e c = record {
      owned = c.owned;
      coupled = subst (λ m. IsCoupled own m s.coordinator.context) e c.coupled;
      proper = proper_counted (subst (ProperIfAny kk) e c.proper);
      fits =
          fits_some s.state l (record l { blocks_found = l.blocks_found + 1 })
            (subst (FitsLease s.state) e c.fits);
    }
      where
        proper_counted :
            IsProper kk l → IsProper kk (record l { blocks_found = l.blocks_found + 1 })
        proper_counted p = record {
          lease_named = p.lease_named;
          consumer_named = p.consumer_named;
          prefixed = p.prefixed;
          payable = p.payable;
          at_least_a_minute = p.at_least_a_minute;
          at_most_a_week = p.at_most_a_week;
        }
    report-IsConsistent hash key account attempts rate available lease s e c =
        repack s (send_block_found cfg h [] hash key account attempts rate s) refl refl refl c
    report-IsConsistent hash key account attempts rate _ lease s e c = c

    pub block-IsConsistent :
        (hash key account : Text) (attempts : ℕ) (rate : F64) (s : Platform)
        → IsConsistent kk own s
        → IsConsistent kk own (on_block_found cfg h hash key account attempts rate s)
    unfolding on_block_found
    block-IsConsistent hash key account attempts rate s c =
        report-IsConsistent hash key account attempts rate s.state s.lease s refl c

    pub beat-IsConsistent :
        (s : Platform) → IsConsistent kk own s → IsConsistent kk own (publish_heartbeat cfg h s)
    unfolding publish_heartbeat
    beat-IsConsistent s c = repack s (publish_heartbeat cfg h s) refl refl refl c

  pub enqueue-IsConsistent :
      (topic payload : Text) (s : Platform)
      → IsConsistent kk own s
      → IsConsistent kk own (enqueue_command cfg topic payload s)
  unfolding enqueue_command
  enqueue-IsConsistent topic payload s c =
      let full =
        repack s (record s { dropped = s.dropped + 1; dropped_total = s.dropped_total + 1 }) refl
          refl refl c in
      let queued =
        repack s (record s { items = s.items ++ record { topic = topic; payload = payload } ∷ [] })
          refl refl refl c in
      ground (arith, full, queued)
