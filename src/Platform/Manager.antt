-- ===== src/Platform/Manager.antt =====
-- treeminer-rs/crates/tm-platform/src/manager.rs: the state of PlatformManager, its transitions and,
-- with reporter.rs, its reports. The fields behind locks and atomics are fields of one record. What
-- is published, and the calls of the state-change callback, are a list of reports: the results of
-- the publications are dropped by the code. The clocks and the connection are read off `Host`, and
-- the readings during one call agree.
pub mod Authority
pub mod Effects
pub mod Handlers
pub mod Intake
pub mod Legacy
pub mod Queue
pub mod Invariant
use tree_miner_amd.Prelude.{
  ℕ,
  Bool,
  true,
  false,
  Option,
  none,
  some,
  List,
  [],
  ◌∷◌,
  ◌++◌,
  length,
  if◌then◌else◌,
  Text.{Text, codes},
  Int.{ℤ, pos, ◌+ℤ◌},
  Floats.{F64, zero_f64},
}
use tree_miner_amd.Platform.Nonces.{NonceCache}
use tree_miner_amd.Platform.Nonces
use tree_miner_amd.Platform.Lease.{LeaseInfo}
use tree_miner_amd.Platform.Coordinator.{
  MiningCoordinator, MiningContext, self_context, update_context,
}
use tree_miner_amd.Platform.Proto.{
  GpuInfo, Register, Heartbeat, StatusUpdate, BlockFound, OfflineNotice, ParseError, worker_version,
}
use tree_miner_amd.Platform.Envelope.{VerifyStatus}

pub data PlatformState : Type 0 where
  idle available leased mining completed error : PlatformState

unfoldable pub state_as_str : PlatformState → Text
state_as_str idle = codes "IDLE"
state_as_str available = codes "AVAILABLE"
state_as_str leased = codes "LEASED"
state_as_str mining = codes "MINING"
state_as_str completed = codes "COMPLETED"
state_as_str error = codes "ERROR"

-- `==` of two states.
abbrev pub same_state : PlatformState → PlatformState → Bool
same_state idle idle = true
same_state available available = true
same_state leased leased = true
same_state mining mining = true
same_state completed completed = true
same_state error error = true
same_state _ _ = false

pub data RejectReason : Type 0 where
  parse : ParseError → RejectReason
  unauthenticated : VerifyStatus → RejectReason
  unsigned_mutating bad_lease_identifiers bad_consumer_address bad_prefix : RejectReason
  bad_duration bad_release_lease_id bad_difficulty bad_payout_address : RejectReason
  bad_block_pattern : RejectReason
  wrong_state : Text → RejectReason

pub record QueuedCommand : Type 0 where
  pub topic : Text
  pub payload : Text

pub record PlatformConfig : Type 0 where
  pub worker_id : Text
  pub eth_address : Text
  pub gpus : List GpuInfo
  pub command_secret : Option Text
  pub queue_capacity : ℕ
  pub nonce_cache_capacity : ℕ

abbrev pub command_queue_capacity : ℕ
command_queue_capacity = 256

abbrev pub nonce_cache_capacity : ℕ
nonce_cache_capacity = 4096

-- PlatformConfig::new
abbrev pub default_config : Text → Text → PlatformConfig
default_config worker_id eth_address = record {
  worker_id = worker_id;
  eth_address = eth_address;
  gpus = [];
  command_secret = none;
  queue_capacity = command_queue_capacity;
  nonce_cache_capacity = nonce_cache_capacity;
}

-- reporter.rs
pub record WorkerStats : Type 0 where
  pub total_hashrate : F64
  pub active_gpus : ℤ
  pub accepted_blocks : ℤ
  pub difficulty : ℤ
  pub uptime_sec : ℤ
  pub address : Text
  pub prefix : Text
  pub block_pattern : Text

abbrev pub default_stats : WorkerStats
default_stats = record {
  total_hashrate = zero_f64;
  active_gpus = pos 0;
  accepted_blocks = pos 0;
  difficulty = pos 0;
  uptime_sec = pos 0;
  address = [];
  prefix = [];
  block_pattern = [];
}

pub data Report : Type 0 where
  subscription : Text → Report
  registration : Register → Report
  heartbeat : Heartbeat → Report
  status_update : StatusUpdate → Report
  block_found : BlockFound → Report
  offline : OfflineNotice → Report
  state_changed : PlatformState → PlatformState → Report

-- The monotonic clock is in nanoseconds; `two_decimals` is `{:.2}` of a float.
pub record Host : Type 0 where
  pub now_epoch_s : ℤ
  pub monotonic : ℕ
  pub is_connected : Bool
  pub stats : Option WorkerStats
  pub two_decimals : F64 → Text

pub record Platform : Type 0 where
  pub state : PlatformState
  pub lease : Option LeaseInfo
  pub coordinator : MiningCoordinator
  pub items : List QueuedCommand
  pub dropped : ℕ
  pub dropped_total : ℕ
  pub nonces : NonceCache
  pub running : Bool
  pub shutdown_requested : Bool
  pub stopping : Bool
  pub reports : List Report

unfoldable pub new : PlatformConfig → MiningCoordinator → Platform
new cfg coordinator = record {
  state = idle;
  lease = none;
  coordinator = coordinator;
  items = [];
  dropped = 0;
  dropped_total = 0;
  nonces = Nonces.new cfg.nonce_cache_capacity;
  running = false;
  shutdown_requested = false;
  stopping = false;
  reports = [];
}

abbrev pub publish : Report → Platform → Platform
publish r s = record s { reports = s.reports ++ r ∷ [] }

abbrev pub total_memory : List GpuInfo → ℤ
total_memory [] = pos 0
total_memory (g ∷ gpus) = g.memory_gb +ℤ total_memory gpus

abbrev pub lease_id_of : Option LeaseInfo → Text
lease_id_of none = []
lease_id_of (some l) = l.lease_id

abbrev pub or_default : Option WorkerStats → WorkerStats
or_default none = default_stats
or_default (some stats) = stats

unfoldable pub switch_to_self_mining : Platform → Platform
switch_to_self_mining s = record s {
  coordinator = update_context (self_context s.coordinator.identity.user_address) s.coordinator;
}

unfoldable pub switch_to_platform_mining : MiningContext → Platform → Platform
switch_to_platform_mining ctx s = record s { coordinator = update_context ctx s.coordinator }

module _ (cfg : PlatformConfig) (h : Host) where
  unfoldable pub send_registration : Platform → Platform
  send_registration s =
      publish
        (registration record {
          worker_id = cfg.worker_id;
          eth_address = cfg.eth_address;
          gpu_count = length cfg.gpus;
          total_memory_gb = total_memory cfg.gpus;
          gpus = cfg.gpus;
          version = worker_version;
          timestamp = h.now_epoch_s;
        })
        s

  unfoldable pub send_offline : Platform → Platform
  send_offline s =
      publish
        (offline
          record { worker_id = cfg.worker_id; status = codes "offline"; timestamp = h.now_epoch_s })
        s

  unfoldable pub publish_heartbeat : Platform → Platform
  publish_heartbeat s =
      let stats = or_default h.stats in
      publish
        (heartbeat record {
          worker_id = cfg.worker_id;
          hashrate = stats.total_hashrate;
          active_gpus = stats.active_gpus;
          accepted_blocks = stats.accepted_blocks;
          difficulty = s.coordinator.difficulty;
          address = s.coordinator.identity.user_address;
          prefix = s.coordinator.identity.self_mining_prefix;
          block_pattern = s.coordinator.identity.test_block_pattern;
          uptime_sec = stats.uptime_sec;
          timestamp = h.now_epoch_s;
        })
        s

  unfoldable pub send_block_found : Text → Text → Text → Text → ℕ → F64 → Platform → Platform
  send_block_found lease_id hash key account attempts hashrate s =
      publish
        (block_found record {
          worker_id = cfg.worker_id;
          lease_id = lease_id;
          hash = hash;
          key = key;
          account = account;
          attempts = attempts;
          hashrate = h.two_decimals hashrate;
          timestamp = h.now_epoch_s;
        })
        s

  abbrev pub status_reports : PlatformState → Platform → List Report
  status_reports new_state s =
      if h.is_connected
      then status_update record {
        worker_id = cfg.worker_id;
        state = state_as_str new_state;
        lease_id = lease_id_of s.lease;
        detail = [];
        timestamp = h.now_epoch_s;
      }
        ∷ []
      else []

  -- Entering the state that holds already reports nothing.
  unfoldable pub transition_to : PlatformState → Platform → Platform
  transition_to new_state s =
      let news = status_reports new_state s ++ state_changed s.state new_state ∷ [] in
      record s {
        state = new_state;
        reports = if same_state s.state new_state then s.reports else s.reports ++ news;
      }
