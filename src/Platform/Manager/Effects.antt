-- ===== src/Platform/Manager/Effects.antt =====
-- What single commands do to the client.
use tree_miner_amd.Prelude.{
  ◌≡◌, ◌≢◌, refl, ap, ◌∙◌, ap, ◌∙◌, ◌⊎◌, inl, inr, true, false, Option, none, some, List, [], ◌∷◌,
  arith,
}
use tree_miner_amd.Core.Address.{Keccak}
use tree_miner_amd.Platform.Coordinator.{MiningCoordinator}
use tree_miner_amd.Platform.Proto.{RegisterAck, SetConfig}
use tree_miner_amd.Platform.Manager.{
  Platform, PlatformConfig, Host, RejectReason, available, mining, same_state, transition_to,
  publish_heartbeat,
}
use tree_miner_amd.Platform.Manager.Handlers.{
  handle_register_ack, refuse_config, configured, apply_config, configure_unless, handle_set_config,
  expire_lease, recover, watchdog_tick,
}

abbrev or_kept {ℓ} : {A : Type ℓ} → Option A → A → A
or_kept none old = old
or_kept (some new) old = new

-- The coordinator with the fields of a set_config in the place of its own.
abbrev with_config : SetConfig → MiningCoordinator → MiningCoordinator
with_config config c = record {
  context = c.context;
  identity = record {
    user_address = or_kept config.address c.identity.user_address;
    self_mining_prefix = or_kept config.prefix c.identity.self_mining_prefix;
    test_block_pattern = or_kept config.block_pattern c.identity.test_block_pattern;
  };
  difficulty = or_kept config.difficulty c.difficulty;
}

configured-eq-with_config :
    (config : SetConfig) (c : MiningCoordinator) → configured config c ≡ with_config config c
unfolding configured
configured-eq-with_config config c = ground arith

module _ (kk : Keccak) (cfg : PlatformConfig) (h : Host) where
  -- A set_config is applied whole or not at all: either it is rejected and the client is as it was,
  -- or every field that it has stands in the coordinator, every other field of the coordinator is
  -- kept, and so are the state and the lease.
  pub set_config_atomic :
      (config : SetConfig) (s : Platform)
      → let (s', reason) = handle_set_config kk cfg h config s in
        ((reason ≢ none) × (s' ≡ s))
        ⊎ ((reason ≡ none)
            × (refuse_config kk cfg h config ≡ none)
            × (s'.coordinator ≡ with_config config s.coordinator)
            × (s'.state ≡ s.state)
            × (s'.lease ≡ s.lease))
  unfolding handle_set_config apply_config publish_heartbeat
  set_config_atomic config s = by_verdict (refuse_config kk cfg h config) refl
    where
      by_verdict :
          (verdict : Option RejectReason)
          → refuse_config kk cfg h config ≡ verdict
          → let (s', reason) = configure_unless kk cfg h config s verdict in
            ((reason ≢ none) × (s' ≡ s))
            ⊎ ((reason ≡ none)
                × (refuse_config kk cfg h config ≡ none)
                × (s'.coordinator ≡ with_config config s.coordinator)
                × (s'.state ≡ s.state)
                × (s'.lease ≡ s.lease))
      by_verdict (some reason) r = inl (λ e. cc e, refl)
      by_verdict none r = inr (refl, r, configured-eq-with_config config s.coordinator, refl, refl)

  -- A watchdog tick for each reading of the host.
  unfoldable pub ticks : List Host → Platform → Platform
  ticks [] s = s
  ticks (h' ∷ hs) s = ticks hs (watchdog_tick kk cfg h' s)

  idle_ticks : (hs : List Host) (s : Platform) → s.state ≡ available → ticks hs s ≡ s
  unfolding ticks watchdog_tick expire_lease recover
  idle_ticks [] s e = refl
  idle_ticks (h' ∷ hs) s e =
      let quiet : watchdog_tick kk cfg h' s ≡ s = ground arith in
      ap (ticks hs) quiet ∙ idle_ticks hs s e

  ack_moves :
      (ack : RegisterAck) (s : Platform)
      → ack.accepted ≡ true
      → s.state ≡ mining
      → (handle_register_ack kk cfg h ack s).0 ≡ transition_to cfg h available s
  unfolding handle_register_ack
  ack_moves ack s accepted e =
      let elsewhere : same_state s.state available ≡ false = ap (λ st. same_state st available) e in
      ground arith

  -- An accepted registration that arrives while a lease is mined takes the client out of MINING and
  -- leaves the lease: then no number of watchdog ticks ends it, however late they are, and the
  -- miner goes on for the consumer.
  pub ack_strands_lease :
      (ack : RegisterAck) (hs : List Host) (s : Platform)
      → ack.accepted ≡ true
      → s.state ≡ mining
      → let later = ticks hs (handle_register_ack kk cfg h ack s).0 in
        (later.state ≡ available) × (later.lease ≡ s.lease) × (later.coordinator ≡ s.coordinator)
  unfolding handle_register_ack transition_to
  ack_strands_lease ack hs s accepted e =
      let s1 = transition_to cfg h available s in
      let moved : (handle_register_ack kk cfg h ack s).0 ≡ s1 = ack_moves ack s accepted e in
      let still = ap (ticks hs) moved ∙ idle_ticks hs s1 refl in
      (ap (λ r. r.state) still, ap (λ r. r.lease) still, ap (λ r. r.coordinator) still)
