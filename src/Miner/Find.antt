-- ===== src/Miner/Find.antt =====
-- treeminer-rs/crates/treeminer/src/find.rs: a find on its way from a device to the disk. The state
-- is what `FindSink` reaches: the journal, the fallback file, and the shared `MiningState`. The
-- observer and the notifier are the lists of their calls; console and log are left out.
pub mod Outcome
pub mod Recovery
use tree_miner_amd.Prelude.{
  ℕ,
  suc,
  ◌+◌,
  Bool,
  true,
  false,
  Option,
  none,
  some,
  List,
  [],
  ◌∷◌,
  ◌++◌,
  is_empty,
  if◌then◌else◌,
  Text.{Text, codes, text_eq},
  Floats.{F64},
}
use tree_miner_amd.Core.Types.{FindKind, xen11, xuni, FoundPayload}
use tree_miner_amd.Core.Encoding.{HexResult, bytes, bad_hex, assemble_phc, phc_digest}
use tree_miner_amd.Core.Matching.{
  FindClass, normal, superblock, xuni_class, classify_find, has_xuni_match,
}
use tree_miner_amd.Journal.Table.{Result, ok, err}
use tree_miner_amd.Journal.Finds.{Db, append}
use tree_miner_amd.Journal.Counts.{Counts, counts}
use tree_miner_amd.Journal.Bridge.{text_of}
use tree_miner_amd.Journal.Fallback.{Rates, SinkIo, sink}

pub record Find : Type 0 where
  pub hexsalt : Text
  pub key : Text
  pub digest : Text
  pub memory_cost : ℕ
  pub attempts : ℕ
  pub hashes_per_second : F64
  pub source : Text

pub data Capture : Type 0 where
  journaled : ℕ → Capture
  fallback rejected lost : Capture

abbrev pub is_durable : Capture → Bool
is_durable (journaled id) = true
is_durable fallback = true
is_durable rejected = false
is_durable lost = false

pub data Verification : Type 0 where
  matches : Verification
  mismatch : Text → Verification
  unavailable : Text → Verification

abbrev pub digest_verdict : Text → Option Text → Verification
digest_verdict digest none = unavailable (codes "CPU produced an unparseable PHC string")
digest_verdict digest (some cpu_digest) =
    if text_eq cpu_digest digest then matches else mismatch cpu_digest

-- `argon2id_phc`, of the salt, the key and the memory cost, or the text of its error.
pub data Hashed : Type 0 where
  hashed : Text → Hashed
  not_hashed : Text → Hashed

abbrev pub hash_verdict : Text → Hashed → Verification
hash_verdict digest (not_hashed error) = unavailable error
hash_verdict digest (hashed phc) = digest_verdict digest (phc_digest phc)

unfoldable pub cpu_verify : (Text → Text → ℕ → Hashed) → Find → Verification
cpu_verify argon2id_phc find =
    hash_verdict find.digest (argon2id_phc find.hexsalt find.key find.memory_cost)

-- The fields of MiningState that a find moves, and what lies on the disk.
pub record Mine : Type 0 where
  pub db : Db
  pub file : Option Text
  pub normal_blocks : ℕ
  pub super_blocks : ℕ
  pub xuni_blocks : ℕ
  pub queued_xnm : ℕ
  pub queued_xuni : ℕ
  pub fatal_reason : Text
  pub fatal_durability : Bool
  pub stop_requested : Bool
  pub notified : ℕ
  pub observed : List FoundPayload

-- MiningState::record_find_class
abbrev pub record_find_class : FindClass → Mine → Mine
record_find_class superblock s = record s { super_blocks = s.super_blocks + 1 }
record_find_class normal s = record s { normal_blocks = s.normal_blocks + 1 }
record_find_class xuni_class s = record s { xuni_blocks = s.xuni_blocks + 1 }

-- MiningState::declare_fatal_durability_failure
abbrev pub declare_fatal_durability_failure : Text → Mine → Mine
declare_fatal_durability_failure reason s = record s {
  fatal_reason =
      if is_empty s.fatal_reason
      then (if is_empty reason then codes "unspecified durability failure" else reason)
      else s.fatal_reason;
  fatal_durability = true;
  stop_requested = true;
}

abbrev pub set_queued : Result Counts → Mine → Mine
set_queued (ok c) s = record s { queued_xnm = c.queued_xen11; queued_xuni = c.queued_xuni }
set_queued (err e) s = s

-- What SQLite answers to the append and to the counts after it, and the file system to the sink.
pub record FindIo : Type 0 where
  pub inserts : Bool
  pub counts : Bool
  pub file : SinkIo
  pub now_utc : Text

-- The part of FindSink that stays as it is, with the number formats and the hex decoder.
pub record FindSink : Type 0 where
  pub rates : Rates
  pub hex_decode : Text → Option Text
  pub verifier : Find → Verification
  pub machine_id : Text

module _ (k : FindSink) where
  abbrev pub kind_for : Text → FindKind
  kind_for digest = if has_xuni_match digest then xuni else xen11

  -- The error, which is only logged, is none here.
  abbrev pub encoded : Text → Find → HexResult → Option FoundPayload
  encoded now_utc find (bad_hex e) = none
  encoded now_utc find (bytes phc) = some (record {
    key = find.key;
    hash_to_verify = phc;
    account = codes "0x" ++ find.hexsalt;
    kind = kind_for find.digest;
    memory_cost = find.memory_cost;
    worker = k.machine_id;
    attempts = find.attempts;
    hashes_per_second = find.hashes_per_second;
    found_at_utc = now_utc;
  })

  unfoldable pub payload_for : Text → Find → Option FoundPayload
  payload_for now_utc find =
      encoded now_utc find (assemble_phc k.hex_decode find.memory_cost find.hexsalt find.digest)

  abbrev pub refresh_queue_counts : Bool → Mine → Mine
  refresh_queue_counts io s = set_queued (counts io s.db) s

  abbrev pub sunk : Text → Mine → Option Text × Bool → Mine × Capture
  sunk error s (file, true) = (record s { file = file }, fallback)
  sunk error s (file, false) = (
    declare_fatal_durability_failure
        (codes "journal append and fallback sink both failed: " ++ error)
        (record s { file = file }),
    lost,
  )

  abbrev pub appended : FindIo → FoundPayload → Mine → Db × Result ℕ → Mine × Capture
  appended io p s (db, ok id) =
      (refresh_queue_counts io.counts (record s { db = db }), journaled id)
  appended io p s (db, err e) =
      sunk (text_of e) (record s { db = db }) (sink k.rates io.file p s.file)

  unfoldable pub persist : FindIo → FoundPayload → Mine → Mine × Capture
  persist io p s = appended io p s (append io.inserts s.db p)

  -- The counters, the notifier and the observer after `persist`.
  abbrev pub account : Find → FoundPayload → Mine × Capture → Mine × Capture
  account find p (s, journaled id) =
      let s' = record_find_class (classify_find find.digest) s in
      (record s' { notified = s'.notified + 1; observed = s'.observed ++ p ∷ [] }, journaled id)
  account find p (s, fallback) =
      let s' = record_find_class (classify_find find.digest) s in
      (record s' { observed = s'.observed ++ p ∷ [] }, fallback)
  account find p (s, rejected) = (s, rejected)
  account find p (s, lost) = (s, lost)

  abbrev pub record_verified : FindIo → Find → FoundPayload → Mine → Verification → Mine × Capture
  record_verified io find p s (mismatch cpu_digest) = (s, rejected)
  record_verified io find p s matches = account find p (persist io p s)
  record_verified io find p s (unavailable reason) = account find p (persist io p s)

  abbrev pub record_encoded : FindIo → Find → Mine → Option FoundPayload → Mine × Capture
  record_encoded io find s none = (s, lost)
  record_encoded io find s (some p) = record_verified io find p s (k.verifier find)

  -- FindSink::record
  unfoldable pub record_find : FindIo → Find → Mine → Mine × Capture
  record_find io find s = record_encoded io find s (payload_for io.now_utc find)
