-- ===== src/Examples/PlatformRuns.antt =====
-- Runs of the platform client, with a small JSON library and a digest of one bit.
use tree_miner_amd.Prelude.{
  ℕ,
  ◌+◌,
  ◌*◌,
  ◌≤◌,
  ◌≡◌,
  ◌≢◌,
  ◌↔◌,
  ◌⊎◌,
  refl,
  true,
  false,
  none,
  some,
  [],
  ◌∷◌,
  ◌++◌,
  length,
  arith,
  Text.{Text, codes},
  All,
  List,
  Int.{pos, ◌+ℤ◌, ◌-ℤ◌},
}
use tree_miner_amd.Core.Address.{to_checksum_address, is_valid_ethereum_address}
use tree_miner_amd.Core.Address
use tree_miner_amd.Core.Address.Checksum.{checksum_is_valid}
use tree_miner_amd.Examples.Documents.{
  decoder_owns, Doc, object, closed, field, text, doc_json, doc_laws, parity, parity_laws, low_hash,
  consumer, decoder, decoder_tags, no_change, hex_of, zero_bytes,
}
use tree_miner_amd.Platform.Nonces.{NonceCache, check_and_insert}
use tree_miner_amd.Platform.Nonces
use tree_miner_amd.Platform.Nonces.Fifo.{IsValid, offer, new-IsValid, check_and_insert_refines}
use tree_miner_amd.Platform.Nonces.Replay.{Check, run, replay_refused}
use tree_miner_amd.Platform.Coordinator.{MiningCoordinator, self_context}
use tree_miner_amd.Platform.Envelope.{
  Auth, VerifyStatus, is_safe_identifier, is_hex_string, max_payload_bytes, sign_command,
  verify_envelope,
}
use tree_miner_amd.Platform.Envelope.Checks.{IsAuthentic, Carries, accepts_iff}
use tree_miner_amd.Platform.Envelope.Signing.{OnOneLine, signing_string_injective}
use tree_miner_amd.Platform.Envelope.RoundTrip.{verify_envelope-sign_command}
use tree_miner_amd.Platform.Lease.{LeaseInfo, nanos_per_sec, lease_context}
use tree_miner_amd.Platform.Lease.Expiry.{IsExact, expiry_exact}
use tree_miner_amd.Platform.Manager.{Platform, PlatformConfig, Host, idle, available, mining}
use tree_miner_amd.Platform.Manager
use tree_miner_amd.Platform.Manager.Authority.{IsCommanded, IsUntouched, forged_changes_nothing}
use tree_miner_amd.Platform.Manager.Effects.{ticks, set_config_atomic, ack_strands_lease}
use tree_miner_amd.Platform.Manager.Handlers.{handle_register_ack, handle_set_config, refuse_config}
use tree_miner_amd.Platform.Manager.Intake.{
  Input, enqueue, dispatch, watchdog, starting, handle_payload, dispatch_pending, enqueue_command,
}
use tree_miner_amd.Platform.Manager.Intake
use tree_miner_amd.Platform.Manager.Invariant.{IsConsistent}
use tree_miner_amd.Platform.Manager.Invariant.Calls.{new-IsConsistent}
use tree_miner_amd.Platform.Manager.Invariant.Runs.{run-IsConsistent}
use tree_miner_amd.Platform.Manager.Legacy.Runs.{IsOwn, unsigned_moves_no_money}
use tree_miner_amd.Platform.Manager.Queue.{dispatch_drains, enqueue_bounded}

abbrev nonce_a : Text
nonce_a = codes "00112233445566778899aabbccddeeff"

abbrev nonce_b : Text
nonce_b = codes "ffeeddccbbaa99887766554433221100"

abbrev other_check : Check
other_check = record { nonce = nonce_b; expires_at = pos 120; now = pos 70 }

abbrev two_slots : NonceCache
two_slots = record { capacity = 2; by_nonce = []; insertion_order = [] }

two_slots-IsValid : IsValid two_slots
unfolding Nonces.new
two_slots-IsValid = new-IsValid 2

check_and_insert_refines_example :
    let (c', fresh) = check_and_insert nonce_a (pos 100) (pos 60) two_slots in
    ((c'.by_nonce, fresh) ≡ offer 2 nonce_a (pos 100) (pos 60) []) × IsValid c' × (c'.capacity ≡ 2)
check_and_insert_refines_example =
    check_and_insert_refines nonce_a (pos 100) (pos 60) two_slots two_slots-IsValid

replay_refused_example :
    (check_and_insert nonce_a
      (pos 100)
      (pos 80)
      (run (other_check ∷ []) (check_and_insert nonce_a (pos 100) (pos 60) two_slots).0)).1
    ≡ false
unfolding check_and_insert
replay_refused_example =
    replay_refused nonce_a (pos 100) (pos 100) (pos 60) (pos 80) (other_check ∷ []) two_slots
      two_slots-IsValid refl (omega arith) (refl, tt) refl

checksum_is_valid_example :
    (to_checksum_address low_hash consumer ≡ some consumer)
    × (is_valid_ethereum_address low_hash consumer ≡ true)
unfolding to_checksum_address Address.strip_0x Address.is_address_body Address.checksum_body
    Address.keccak256_hex hex_of zero_bytes
checksum_is_valid_example = checksum_is_valid low_hash consumer consumer refl

abbrev hour_lease : LeaseInfo
hour_lease = record {
  lease_id = codes "lease-1";
  consumer_id = codes "consumer-1";
  consumer_address = consumer;
  prefix = [];
  duration_sec = pos 3600;
  started_at = 5;
  blocks_found = 0;
}

expiry_exact_example : IsExact hour_lease 3600000000005 (5 + 3600 * nanos_per_sec ≤ 3600000000005)
expiry_exact_example = expiry_exact hour_lease 3600 3600000000005 refl (omega arith) (omega arith)

signing_string_injective_example :
    (codes "rig" ≡ codes "rig")
    × (codes "c1" ≡ codes "c1")
    × (pos 60 ≡ pos 60)
    × (pos 100 ≡ pos 100)
    × (nonce_a ≡ nonce_a)
    × (codes "body" ≡ codes "body")
signing_string_injective_example =
    signing_string_injective (codes "rig") (codes "rig") (codes "c1") (codes "c1") nonce_a nonce_a
      (codes "body") (codes "body") (pos 60) (pos 60) (pos 100) (pos 100) one_line refl
  where
    one_line :
        All OnOneLine (codes "rig" ∷ codes "rig" ∷ codes "c1" ∷ codes "c1" ∷ nonce_a ∷ nonce_a ∷ [])
    one_line = ground arith

-- The command `action` on the wire, before its envelope.
abbrev command : Text → Doc
command action = object (field (codes "action") (text action) closed)

abbrev secret : Text
secret = codes "secret"

abbrev signed : Doc
signed =
    sign_command doc_json parity secret (command (codes "pause")) (codes "rig") (codes "c1") nonce_a
      (pos 60) (pos 100)

verify_envelope-sign_command_example :
    (verify_envelope doc_json parity secret signed (codes "rig") (pos 70) two_slots).1
    ≡ VerifyStatus.ok
unfolding check_and_insert is_safe_identifier is_hex_string ◌+ℤ◌ ◌-ℤ◌
verify_envelope-sign_command_example =
    verify_envelope-sign_command doc_json parity doc_laws parity_laws secret
      (command (codes "pause")) (codes "rig") (codes "c1") nonce_a (pos 60) (pos 100) (pos 70)
      two_slots refl refl refl refl (omega arith) refl (omega arith) (omega arith) refl

accepts_iff_example :
    ((verify_envelope doc_json parity secret signed (codes "rig") (pos 70) two_slots).1
      ≡ VerifyStatus.ok)
    ↔ ((a : Auth) × Carries doc_json parity secret signed a
        × IsAuthentic doc_json parity secret signed a (codes "rig") (pos 70)
        × ((check_and_insert a.nonce a.expires_at (pos 70) two_slots).1 ≡ true))
accepts_iff_example = accepts_iff doc_json parity secret signed (codes "rig") (pos 70) two_slots

abbrev open_rig : PlatformConfig
open_rig = record {
  worker_id = codes "rig";
  eth_address = codes "0xoperator";
  gpus = [];
  command_secret = none;
  queue_capacity = 4;
  nonce_cache_capacity = 2;
}

abbrev locked_rig : PlatformConfig
locked_rig = record open_rig { command_secret = some secret }

abbrev at_second : ℕ → Host
at_second n = record {
  now_epoch_s = pos n;
  monotonic = n * nanos_per_sec;
  is_connected = true;
  stats = none;
  two_decimals = λ rate. [];
}

abbrev operator : MiningCoordinator
operator = record {
  context = self_context (codes "0xoperator");
  identity = record {
    user_address = codes "0xoperator";
    self_mining_prefix = [];
    test_block_pattern = codes "XEN11";
  };
  difficulty = pos 8;
}

abbrev fresh_client : Platform
unfolding Nonces.new Manager.new
fresh_client = Manager.new open_rig operator

-- A start, a message that asks for a shutdown, its handling, and a watchdog tick.
abbrev inputs : List (Host × Input)
inputs =
    (at_second 1, starting)
    ∷ (at_second 2, enqueue (codes "control") (codes "shutdown"))
    ∷ (at_second 3, dispatch)
    ∷ (at_second 8, watchdog)
    ∷ []

unsigned_moves_no_money_example :
    IsOwn operator.identity
      (pos 8)
      false
      (Intake.run doc_json parity decoder low_hash open_rig inputs fresh_client)
unfolding fresh_client
unsigned_moves_no_money_example =
    unsigned_moves_no_money doc_json parity decoder low_hash open_rig inputs fresh_client
      decoder_tags refl refl

-- Whatever is not the consumer's.
abbrev NotConsumer : Text → Type 0
NotConsumer address = address ≢ consumer

run-IsConsistent_example :
    IsConsistent low_hash NotConsumer
      (Intake.run doc_json parity decoder low_hash locked_rig inputs fresh_client)
unfolding fresh_client
run-IsConsistent_example =
    run-IsConsistent doc_json parity decoder low_hash NotConsumer (decoder_owns NotConsumer)
      locked_rig inputs fresh_client
      (new-IsConsistent low_hash NotConsumer open_rig operator (λ e. ground arith) refl)

forged_changes_nothing_example :
    IsUntouched doc_json parity decoder low_hash locked_rig (at_second 3) fresh_client (
      handle_payload doc_json parity decoder low_hash locked_rig
        (at_second 3)
        (codes "shutdown")
        fresh_client)
    ⊎ IsCommanded doc_json parity decoder low_hash locked_rig
        (at_second 3)
        secret
        (codes "shutdown")
        fresh_client.nonces
forged_changes_nothing_example =
    forged_changes_nothing doc_json parity decoder low_hash locked_rig (at_second 3) secret
      (codes "shutdown") fresh_client refl

-- A client at work for a consumer.
abbrev at_work : Platform
at_work = record fresh_client {
  state = mining;
  lease = some hour_lease;
  coordinator = record operator { context = lease_context hour_lease };
}

ack_strands_lease_example :
    let later =
      ticks low_hash open_rig
        (at_second 9)
        (at_second 5000 ∷ [])
        (handle_register_ack low_hash open_rig
          (at_second 9)
          (record { accepted = true; reason = [] })
          at_work).0 in
    (later.state ≡ available)
    × (later.lease ≡ some hour_lease)
    × (later.coordinator ≡ at_work.coordinator)
ack_strands_lease_example =
    ack_strands_lease low_hash open_rig (at_second 9) (record { accepted = true; reason = [] })
      (at_second 5000 ∷ []) at_work refl refl

set_config_atomic_example :
    let (s', reason) =
      handle_set_config low_hash open_rig
        (at_second 1)
        (record no_change { difficulty = some (pos 9) })
        fresh_client in
    ((reason ≢ none) × (s' ≡ fresh_client))
    ⊎ ((reason ≡ none)
        × (refuse_config low_hash open_rig
              (at_second 1)
              (record no_change { difficulty = some (pos 9) })
            ≡ none)
        × (s'.coordinator ≡ record operator { difficulty = pos 9 })
        × (s'.state ≡ idle)
        × (s'.lease ≡ none))
unfolding fresh_client
set_config_atomic_example =
    set_config_atomic low_hash open_rig (at_second 1)
      (record no_change { difficulty = some (pos 9) }) fresh_client

abbrev waiting : Platform
waiting = record fresh_client {
  items = record { topic = codes "task"; payload = codes "pause" } ∷ [];
}

dispatch_drains_example :
    ((dispatch_pending doc_json parity decoder low_hash open_rig (at_second 1) waiting).0.items
      ≡ [])
    × ((dispatch_pending doc_json parity decoder low_hash open_rig (at_second 1) waiting).1 ≡ 1)
dispatch_drains_example =
    dispatch_drains doc_json parity decoder low_hash open_rig (at_second 1) waiting

enqueue_bounded_example :
    let s' = enqueue_command open_rig (codes "task") (codes "resume") waiting in
    (length s'.items ≤ 4)
    × (((s'.items ≡ waiting.items ++ record { topic = codes "task"; payload = codes "resume" } ∷ [])
          × (length (codes "resume") ≤ max_payload_bytes))
        ⊎ ((s'.items ≡ waiting.items) × ((waiting.stopping ≡ true) ⊎ (s'.dropped_total ≡ 1))))
unfolding fresh_client
enqueue_bounded_example =
    enqueue_bounded open_rig (codes "task") (codes "resume") waiting (omega arith)
