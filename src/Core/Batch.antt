-- ===== src/Core/Batch.antt =====
-- treeminer-rs/crates/tm-core/src/batch.rs: how many hashes a device computes at once. The float
-- unit is a parameter.
pub mod Fits
use tree_miner_amd.Prelude.{
  ℕ,
  ◌+◌,
  ◌-◌,
  ◌*◌,
  ◌/◌,
  Bool,
  true,
  false,
  ◌||◌,
  min,
  max,
  leb,
  ltb,
  ◌==◌,
  if◌then◌else◌,
  Floats.{F64, Floats},
}

abbrev pub default_memory_reserve_bytes : ℕ
default_memory_reserve_bytes = 100 * 1024 * 1024

abbrev pub hip_reserve_floor_bytes : ℕ
hip_reserve_floor_bytes = 1024 * 1024 * 1024

pub record BatchSizeDecision : Type 0 where
  pub memory_limited_batch_size : ℕ
  pub tuned_batch_size : ℕ
  pub selected_batch_size : ℕ
  pub explicit_limit_applied : Bool
  pub tuned_default_applied : Bool

pub data GpuRuntimeKind : Type 0 where
  cuda hip : GpuRuntimeKind

unfoldable pub effective_reserve_bytes : GpuRuntimeKind → ℕ → ℕ → ℕ
effective_reserve_bytes cuda free_memory_bytes reserve_bytes = reserve_bytes
effective_reserve_bytes hip free_memory_bytes reserve_bytes =
    max (max reserve_bytes hip_reserve_floor_bytes) (free_memory_bytes / 16)

-- 1.001
abbrev pub overhead : F64
overhead = 4607186922399644778

module _ (fl : Floats) where
  -- The quotient of the memory that is left by what an attempt takes, rounded down.
  abbrev pub attempts_in : ℕ → ℕ → ℕ
  attempts_in available difficulty = fl.to_int (
      fl.div (fl.of_int available)
        (fl.mul (fl.mul (fl.of_int difficulty) (fl.of_int 1024)) overhead))

  unfoldable pub estimate_memory_batch_limit : GpuRuntimeKind → ℕ → ℕ → ℕ → ℕ
  estimate_memory_batch_limit runtime free_memory_bytes difficulty reserve_bytes =
      let reserve = effective_reserve_bytes runtime free_memory_bytes reserve_bytes in
      if difficulty == 0 || leb free_memory_bytes reserve
      then 0
      else attempts_in (free_memory_bytes - reserve) difficulty

unfoldable pub recommended_batch_size : ℕ → ℕ
recommended_batch_size difficulty =
    if leb difficulty 1
    then 2048
    else if leb difficulty 8
    then 4096
    else if leb difficulty 64
    then 3072
    else 0

abbrev pub limited : ℕ → BatchSizeDecision
limited limit = record {
  memory_limited_batch_size = limit;
  tuned_batch_size = 0;
  selected_batch_size = 0;
  explicit_limit_applied = false;
  tuned_default_applied = false;
}

abbrev pub tuned_or_limited : ℕ → ℕ → BatchSizeDecision
tuned_or_limited limit tuned =
    if ltb 0 tuned
    then record (limited limit) {
      tuned_batch_size = tuned;
      selected_batch_size = min limit tuned;
      tuned_default_applied = true;
    }
    else record (limited limit) { tuned_batch_size = tuned; selected_batch_size = limit }

-- The decision under a memory limit.
unfoldable pub decide : ℕ → ℕ → ℕ → BatchSizeDecision
decide limit difficulty explicit_max_batch_size =
    if limit == 0
    then limited limit
    else if ltb 0 explicit_max_batch_size
    then record (limited limit) {
      selected_batch_size = min limit explicit_max_batch_size;
      explicit_limit_applied = true;
    }
    else tuned_or_limited limit (recommended_batch_size difficulty)

unfoldable pub select_batch_size : Floats → GpuRuntimeKind → ℕ → ℕ → ℕ → BatchSizeDecision
select_batch_size fl runtime free_memory_bytes difficulty explicit_max_batch_size =
    decide
      (estimate_memory_batch_limit fl runtime free_memory_bytes difficulty
        default_memory_reserve_bytes)
      difficulty explicit_max_batch_size
