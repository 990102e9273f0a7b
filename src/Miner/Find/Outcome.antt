-- ===== src/Miner/Find/Outcome.antt =====
-- What the capture that `record` returns says of the disk.
use tree_miner_amd.Prelude.{
  ℕ,
  ◌≡◌,
  refl,
  ◌+◌,
  ap,
  ◌⊎◌,
  inl,
  inr,
  Bool,
  true,
  false,
  Option,
  none,
  some,
  [],
  ◌∷◌,
  ◌++◌,
  if◌then◌else◌,
  Text.{Text},
}
use tree_miner_amd.Core.Types.{FoundPayload}
use tree_miner_amd.Core.Matching.{FindClass, normal, superblock, xuni_class, classify_find}
use tree_miner_amd.Journal.Table.{Result, ok, err}
use tree_miner_amd.Journal.Finds.{Db, append}
use tree_miner_amd.Journal.Counts.{Counts, counts}
use tree_miner_amd.Journal.Bridge.{text_of}
use tree_miner_amd.Journal.Finds.Keys.{HasKey, Appended, append_takes}
use tree_miner_amd.Journal.Fallback.{serialize, sink, contents, written}
use tree_miner_amd.Miner.Find.{
  Find, Capture, journaled, fallback, rejected, lost, Verification, matches, mismatch, unavailable,
  record_find_class, set_queued, Mine, FindIo, FindSink, payload_for, sunk, appended, persist,
  account, record_verified, record_encoded, record_find,
}

module _ (k : FindSink) (io : FindIo) (find : Find) where
  -- What a capture promises of the states before and after.
  abbrev pub Delivers : Mine → Mine × Capture → Type 0
  Delivers s (s', journaled id) =
      (p : FoundPayload) × (payload_for k io.now_utc find ≡ some p)
      × HasKey p.key s'.db
      × (s'.observed ≡ s.observed ++ p ∷ [])
  Delivers s (s', fallback) =
      (p : FoundPayload) × (payload_for k io.now_utc find ≡ some p)
      × (s'.file ≡ some (contents s.file ++ serialize k.rates p))
      × (s'.observed ≡ s.observed ++ p ∷ [])
  Delivers s (s', rejected) =
      (cpu_digest : Text) × (k.verifier find ≡ mismatch cpu_digest) × (s' ≡ s)
  Delivers s (s', lost) =
      ((payload_for k io.now_utc find ≡ none) × (s' ≡ s))
      ⊎ ((s'.fatal_durability ≡ true) × (s'.stop_requested ≡ true) × (s'.observed ≡ s.observed))

  -- The same of a capture before it is accounted.
  abbrev Stored : FoundPayload → Mine → Mine × Capture → Type 0
  Stored p s (s', journaled id) = HasKey p.key s'.db × (s'.observed ≡ s.observed)
  Stored p s (s', fallback) =
      (s'.file ≡ some (contents s.file ++ serialize k.rates p)) × (s'.observed ≡ s.observed)
  Stored p s (s', rejected) = ⊥
  Stored p s (s', lost) =
      (s'.fatal_durability ≡ true) × (s'.stop_requested ≡ true) × (s'.observed ≡ s.observed)

  sunk-Stored :
      (p : FoundPayload) (s s1 : Mine) (e : Text)
      → s1.observed ≡ s.observed
      → Stored p s (sunk k e s1 (sink k.rates io.file p s.file))
  unfolding sink
  sunk-Stored p s s1 e same = by_opens io.file.opens
    where
      by_sync :
          (file : Text) (synced : Bool)
          → file ≡ contents s.file ++ serialize k.rates p
          → Stored p s (sunk k e s1 (some file, synced))
      by_sync file true w = (ap some w, same)
      by_sync file false w = (refl, refl, same)

      by_write :
          (torn_at : Option ℕ)
          → Stored p s (sunk k e s1 (written k.rates io.file (serialize k.rates p) s.file torn_at))
      by_write none = by_sync (contents s.file ++ serialize k.rates p) io.file.syncs refl
      by_write (some n) = (refl, refl, same)

      by_opens :
          (opens : Bool)
          → Stored p s (
              sunk k e s1 (
                if opens
                then written k.rates io.file (serialize k.rates p) s.file io.file.torn_at
                else (s.file, false)))
      by_opens true = by_write io.file.torn_at
      by_opens false = (refl, refl, same)

  persist-Stored : (p : FoundPayload) (s : Mine) → Stored p s (persist k io p s)
  unfolding persist
  persist-Stored p s = by_answer (append io.inserts s.db p) (append_takes io.inserts s.db p)
    where
      by_answer : (r : Db × Result ℕ) → Appended s.db p r → Stored p s (appended k io p s r)
      by_answer (db, ok id) there = by_counts (counts io.counts db)
        where
          by_counts :
              (r : Result Counts) → Stored p s (set_queued r (record s { db = db }), journaled id)
          by_counts (ok c) = (there, refl)
          by_counts (err e) = (there, refl)
      by_answer (db, err e) there = sunk-Stored p s (record s { db = db }) (text_of e) refl

  account-Delivers :
      (p : FoundPayload) (s : Mine) (r : Mine × Capture)
      → payload_for k io.now_utc find ≡ some p
      → Stored p s r
      → Delivers s (account k find p r)
  account-Delivers p s (s', journaled id) e (there, same) = by_class (classify_find find.digest)
    where
      by_class :
          (c : FindClass)
          → let s1 = record_find_class c s' in
            Delivers s (
              record s1 { notified = s1.notified + 1; observed = s1.observed ++ p ∷ [] },
              journaled id,
            )
      by_class normal = (p, e, there, ap (λ o. o ++ p ∷ []) same)
      by_class superblock = (p, e, there, ap (λ o. o ++ p ∷ []) same)
      by_class xuni_class = (p, e, there, ap (λ o. o ++ p ∷ []) same)
  account-Delivers p s (s', fallback) e (there, same) = by_class (classify_find find.digest)
    where
      by_class :
          (c : FindClass)
          → let s1 = record_find_class c s' in
            Delivers s (record s1 { observed = s1.observed ++ p ∷ [] }, fallback)
      by_class normal = (p, e, there, ap (λ o. o ++ p ∷ []) same)
      by_class superblock = (p, e, there, ap (λ o. o ++ p ∷ []) same)
      by_class xuni_class = (p, e, there, ap (λ o. o ++ p ∷ []) same)
  account-Delivers p s (s', rejected) e stored = absurd stored
  account-Delivers p s (s', lost) e stored = inr stored

  -- The capture that `record` returns is true of the disk, whatever fails: a journaled find has its
  -- key in the journal; for one put in the fallback file, the file is what it held with the record of
  -- the find and a line feed behind it; the observer has heard of the find in these cases and in no
  -- other; a rejected find is one that the verifier contradicts, and it changes nothing; a lost one
  -- either cannot be encoded and changes nothing, or the failure is declared fatal and the miner is
  -- asked to stop.
  pub record_find-Delivers : (s : Mine) → Delivers s (record_find k io find s)
  unfolding record_find
  record_find-Delivers s = by_payload (payload_for k io.now_utc find) refl
    where
      by_verdict :
          (p : FoundPayload) (v : Verification)
          → payload_for k io.now_utc find ≡ some p
          → k.verifier find ≡ v
          → Delivers s (record_verified k io find p s v)
      by_verdict p (mismatch cpu_digest) e w = (cpu_digest, w, refl)
      by_verdict p matches e w = account-Delivers p s (persist k io p s) e (persist-Stored p s)
      by_verdict p (unavailable reason) e w =
          account-Delivers p s (persist k io p s) e (persist-Stored p s)

      by_payload :
          (o : Option FoundPayload)
          → payload_for k io.now_utc find ≡ o
          → Delivers s (record_encoded k io find s o)
      by_payload none e = inl (e, refl)
      by_payload (some p) e = by_verdict p (k.verifier find) e refl
