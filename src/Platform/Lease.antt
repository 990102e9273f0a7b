-- ===== src/Platform/Lease.antt =====
-- treeminer-rs/crates/tm-platform/src/lease.rs: the lease of the rig. The monotonic clock reads
-- nanoseconds, of which a Duration holds fewer than 2 ^ 63 seconds.
pub mod Expiry
use tree_miner_amd.Prelude.{
  ℕ,
  ◌+◌,
  ◌-◌,
  ◌/◌,
  Bool,
  true,
  false,
  not,
  Option,
  none,
  some,
  if◌then◌else◌,
  Text.{Text},
  Int.{ℤ, pos, negsuc, ◌-ℤ◌, leb_ℤ},
}
use tree_miner_amd.Platform.Coordinator.{MiningContext, platform_mining, self_context}

pub record LeaseInfo : Type 0 where
  pub lease_id : Text
  pub consumer_id : Text
  pub consumer_address : Text
  pub prefix : Text
  pub duration_sec : ℤ
  pub started_at : ℕ
  pub blocks_found : ℕ

-- LeaseError
pub data LeaseError : Type 0 where
  already_leased : Text → LeaseError

unfoldable pub start_lease :
    Text → Text → Text → Text → ℤ → ℕ → Option LeaseInfo → Option LeaseInfo × Option LeaseError
start_lease lease_id consumer_id consumer_address prefix duration_sec now (some existing) =
    (some existing, some (already_leased existing.lease_id))
start_lease lease_id consumer_id consumer_address prefix duration_sec now none = (
  some (record {
    lease_id = lease_id;
    consumer_id = consumer_id;
    consumer_address = consumer_address;
    prefix = prefix;
    duration_sec = duration_sec;
    started_at = now;
    blocks_found = 0;
  }),
  none,
)

-- The lease that is left, and the one that ended.
unfoldable pub end_lease : Option LeaseInfo → Option LeaseInfo × Option LeaseInfo
end_lease current = (none, current)

abbrev pub nanos_per_sec : ℕ
nanos_per_sec = 1000000000

unfoldable pub elapsed_secs : ℕ → LeaseInfo → ℤ
elapsed_secs now lease = pos ((now - lease.started_at) / nanos_per_sec)

-- is_expired_locked
unfoldable pub is_expired : ℕ → Option LeaseInfo → Bool
unfolding elapsed_secs
is_expired now none = true
is_expired now (some lease) =
    if leb_ℤ lease.duration_sec (pos 0)
    then false
    else leb_ℤ lease.duration_sec (elapsed_secs now lease)

unfoldable pub has_active_lease : ℕ → Option LeaseInfo → Bool
unfolding is_expired
has_active_lease now none = false
has_active_lease now (some lease) = not (is_expired now (some lease))

unfoldable pub record_block : Option LeaseInfo → Option LeaseInfo
record_block none = none
record_block (some lease) = some (record lease { blocks_found = lease.blocks_found + 1 })

abbrev pub at_least_zero : ℤ → ℤ
at_least_zero (pos n) = pos n
at_least_zero (negsuc n) = pos 0

unfoldable pub remaining_seconds : ℕ → Option LeaseInfo → ℤ
unfolding elapsed_secs
remaining_seconds now none = pos 0
remaining_seconds now (some lease) = at_least_zero (lease.duration_sec -ℤ elapsed_secs now lease)

unfoldable pub lease_context : LeaseInfo → MiningContext
lease_context lease = record {
  mode = platform_mining;
  address = lease.consumer_address;
  prefix = lease.prefix;
  consumer_id = lease.consumer_id;
  lease_id = lease.lease_id;
}

unfoldable pub to_mining_context : Text → Option LeaseInfo → MiningContext
unfolding lease_context
to_mining_context self_address none = self_context self_address
to_mining_context self_address (some lease) = lease_context lease
