-- ===== src/Platform/Coordinator.antt =====
-- treeminer-rs/crates/tm-platform/src/coordinator.rs: what the miner works for. The shared value
-- behind locks is a record; the fields that have no other reader stay fields of it.
use tree_miner_amd.Prelude.{[], Text.{Text, codes}, Int.{ℤ}}

pub data MiningMode : Type 0 where
  self_mining platform_mining : MiningMode

unfoldable pub mode_as_str : MiningMode → Text
mode_as_str self_mining = codes "self"
mode_as_str platform_mining = codes "platform"

pub record MiningContext : Type 0 where
  pub mode : MiningMode
  pub address : Text
  pub prefix : Text
  pub consumer_id : Text
  pub lease_id : Text

pub record MiningIdentity : Type 0 where
  pub user_address : Text
  pub self_mining_prefix : Text
  pub test_block_pattern : Text

pub record MiningCoordinator : Type 0 where
  pub context : MiningContext
  pub identity : MiningIdentity
  pub difficulty : ℤ

abbrev pub self_context : Text → MiningContext
self_context address = record {
  mode = self_mining;
  address = address;
  prefix = [];
  consumer_id = [];
  lease_id = [];
}

unfoldable pub new : MiningIdentity → ℤ → MiningCoordinator
new identity difficulty = record {
  context = self_context identity.user_address;
  identity = identity;
  difficulty = difficulty;
}

unfoldable pub update_context : MiningContext → MiningCoordinator → MiningCoordinator
update_context ctx c = record c { context = ctx }

unfoldable pub switch_to_self_mining : MiningCoordinator → MiningCoordinator
switch_to_self_mining c = record c { context = self_context c.identity.user_address }

unfoldable pub set_user_address : Text → MiningCoordinator → MiningCoordinator
set_user_address address c = record c { identity = record c.identity { user_address = address } }

unfoldable pub set_self_mining_prefix : Text → MiningCoordinator → MiningCoordinator
set_self_mining_prefix prefix c = record c {
  identity = record c.identity { self_mining_prefix = prefix };
}

unfoldable pub set_test_block_pattern : Text → MiningCoordinator → MiningCoordinator
set_test_block_pattern pattern_text c = record c {
  identity = record c.identity { test_block_pattern = pattern_text };
}

unfoldable pub set_difficulty : ℤ → MiningCoordinator → MiningCoordinator
set_difficulty difficulty c = record c { difficulty = difficulty }
