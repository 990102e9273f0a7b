-- ===== src/Journal/Bridge.antt =====
-- treeminer-rs/crates/treeminer/src/bridge.rs: the journal as the submitter sees it. The state has
-- SQLite's answers to the next calls, reads and writes alike, beside the database; when they run
-- out, it carries all out.
pub mod Loop
use tree_miner_amd.Prelude.{Bool, true, List, [], ◌∷◌, ◌++◌, Text.{Text, codes}}
use tree_miner_amd.Journal.Table.{JournalError, Result}
use tree_miner_amd.Journal.Table
use tree_miner_amd.Journal.Counts.{Counts}
use tree_miner_amd.Journal.Counts
use tree_miner_amd.Journal.Finds.{Db}
use tree_miner_amd.Journal.Finds
use tree_miner_amd.Submit.Manager.State.{JournalAccess, JournalCounts, JournalResult, ok, err}

pub record Store : Type 0 where
  pub db : Db
  pub answers : List Bool

-- `e.to_string()`, less the driver's own text behind that of a failed statement.
abbrev pub text_of : JournalError → Text
text_of (JournalError.sqlite what) = codes "journal: " ++ what
text_of (JournalError.schema what) = codes "journal: " ++ what
text_of (JournalError.contract what) = codes "journal: " ++ what

abbrev pub cross : {A : Type 0} → Result A → JournalResult A
cross (Table.ok a) = ok a
cross (Table.err e) = err (text_of e)

abbrev pub cross_counts : Result Counts → JournalResult JournalCounts
cross_counts (Table.ok c) = ok (record {
  pending = c.pending;
  parked = c.parked;
  parked_difficulty = c.parked_difficulty;
  parked_xuni = c.parked_xuni;
  quarantined = c.quarantined;
  acked_total = c.acked_total;
  dead_total = c.dead_total;
  accepted_unconfirmed = c.accepted_unconfirmed;
  permanently_invalid = c.permanently_invalid;
  queued_xen11 = c.queued_xen11;
  queued_xuni = c.queued_xuni;
})
cross_counts (Table.err e) = err (text_of e)

abbrev pub answer : List Bool → Bool
answer [] = true
answer (b ∷ bs) = b

abbrev pub later : List Bool → List Bool
later [] = []
later (b ∷ bs) = bs

-- Every call, a read or a write, takes the next answer.
abbrev pub through :
    {A : Type 0} → (Bool → Db → Db × JournalResult A) → Store → Store × JournalResult A
through f s =
    let (db, r) = f (answer s.answers) s.db in (record { db = db; answers = later s.answers }, r)

abbrev pub crossed : {A : Type 0} → (Bool → Db → Db × Result A) → Store → Store × JournalResult A
crossed f = through (λ io db. let (db', r) = f io db in (db', cross r))

abbrev pub bridge : JournalAccess Store
bridge = record {
  fetch_eligible_of_kind = λ s kind now limit.
      crossed (λ io db. (db, Finds.fetch_eligible_of_kind io db kind now limit)) s;
  fetch_awaiting_confirmation =
      λ s now limit. crossed (λ io db. (db, Finds.fetch_awaiting_confirmation io db now limit)) s;
  record_attempt = λ s id c http body next now.
      crossed (λ io db. Finds.record_attempt io db id c http body next now) s;
  unpark_for_difficulty = λ s d. crossed (λ io db. Finds.unpark_for_difficulty io db d) s;
  unpark_xuni_for_window = λ s m. crossed (λ io db. Finds.unpark_xuni_for_window io db m) s;
  record_difficulty = λ s d at. crossed (λ io db. Finds.record_difficulty io db d at) s;
  counts = λ s. through (λ io db. (db, cross_counts (Counts.counts io db))) s;
}
