-- ===== src/Examples.antt =====
-- Tests, with the data they share: the theorems of the library at concrete inputs.
pub mod BreakerRuns
pub mod Documents
pub mod DrainRuns
pub mod Answers
pub mod BatchRuns
pub mod FallbackRuns
pub mod JournalRuns
pub mod LoopRuns
pub mod PlatformRuns
use tree_miner_amd.Prelude.{
  ℕ,
  ◌+◌,
  ◌*◌,
  ◌/◌,
  min,
  max,
  leb,
  Option,
  none,
  Text.{Text, codes},
  Floats.{F64, Floats, zero_f64, one_f64},
}
use tree_miner_amd.Core.Types.{FindKind, FindStatus, FoundPayload, FindRecord}

-- A float unit whose values are natural numbers.
abbrev pub counting : Floats
counting = record {
  of_int = λ n. n;
  to_int = λ x. x;
  mul = λ a b. a * b;
  div = λ a b. a / b;
  fmin = min;
  fmax = max;
  fle = leb;
}

abbrev pub payload : Text → FindKind → ℕ → FoundPayload
payload key kind m = record {
  key = key;
  hash_to_verify = codes "$argon2id$";
  account = codes "0xabc";
  kind = kind;
  memory_cost = m;
  worker = codes "rig";
  attempts = 7;
  hashes_per_second = one_f64;
  found_at_utc = codes "2026-01-01T00:00:00Z";
}

abbrev pub found : ℕ → FindKind → ℕ → FindRecord
found id kind m = record {
  id = id;
  payload = payload (codes "k") kind m;
  status = FindStatus.pending;
  status_reason = codes "";
  attempt_count = 0;
  next_attempt_at = none;
  last_attempt_at = none;
  last_http_status = none;
  last_response = codes "";
  confirmed_at = none;
  xuni_windows_tried = 0;
}
