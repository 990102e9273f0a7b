-- ===== src/Journal/Bridge/Loop.antt =====
-- The drain loop over the journal of this library: what it may do to the finds.
use tree_miner_amd.Prelude.{
  ℕ,
  zero,
  suc,
  ◌≡◌,
  refl,
  ◌∙◌,
  Bool,
  true,
  false,
  List,
  Text.{Text},
  Floats.{Floats},
}
use tree_miner_amd.Journal.Finds.{
  Db, write, records, unparks_difficulty, unparks_xuni, observes, unpark_for_difficulty,
  unpark_xuni_for_window, record_difficulty, repend, bury, reopen,
}
use tree_miner_amd.Journal.Finds.Capture.{
  Captured, captures, capture-update_where, record_attempt-captures,
}
use tree_miner_amd.Journal.Finds.Shape.{WellFormed, write-WellFormed}
use tree_miner_amd.Journal.Bridge.{Store, answer, bridge}
use tree_miner_amd.Submit.Manager.State.{Transport, Config, Manager}
use tree_miner_amd.Submit.Manager.Keep.{Guards}
use tree_miner_amd.Submit.Manager.Loop.{run_once}
use tree_miner_amd.Submit.Manager.Loop.Durable.{run_once-keeps}

unpark_for_difficulty-captures :
    (io : Bool) (db : Db) (d : ℕ) → captures (unpark_for_difficulty io db d).0 ≡ captures db
unfolding unpark_for_difficulty repend
unpark_for_difficulty-captures true db d = capture-update_where _ _ db.finds (λ r. refl)
unpark_for_difficulty-captures false db d = refl

unpark_xuni_for_window-captures :
    (io : Bool) (db : Db) (m : ℕ) → captures (unpark_xuni_for_window io db m).0 ≡ captures db
unfolding unpark_xuni_for_window bury reopen
unpark_xuni_for_window-captures true db m =
    capture-update_where _ _ _ (λ r. refl) ∙ capture-update_where _ _ db.finds (λ r. refl)
unpark_xuni_for_window-captures false db m = refl

record_difficulty-captures :
    (io : Bool) (db : Db) (d : ℕ) (at : Text)
    → captures (record_difficulty io db d at).0 ≡ captures db
unfolding record_difficulty
record_difficulty-captures true db d at = refl
record_difficulty-captures false db d at = refl

-- The journal is well-formed and has these captures.
abbrev Holds : List Captured → Store → Type 0
Holds cs store = WellFormed store.db × (captures store.db ≡ cs)

bridge-Guards : (cs : List Captured) → Guards (Holds cs) bridge
unfolding write
bridge-Guards cs = record {
  by_fetch = λ j kind now limit h. h;
  by_awaiting = λ j now limit h. h;
  by_counts = λ j h. h;
  by_attempt = λ j id c http body next now (v, e). (
    write-WellFormed j.db (records (answer j.answers) id c http body next now) v,
    record_attempt-captures (answer j.answers) j.db id c http body next now ∙ e,
  );
  by_unpark = λ j d (v, e). (
    write-WellFormed j.db (unparks_difficulty (answer j.answers) d) v,
    unpark_for_difficulty-captures (answer j.answers) j.db d ∙ e,
  );
  by_window = λ j m (v, e). (
    write-WellFormed j.db (unparks_xuni (answer j.answers) m) v,
    unpark_xuni_for_window-captures (answer j.answers) j.db m ∙ e,
  );
  by_difficulty = λ j d at (v, e). (
    write-WellFormed j.db (observes (answer j.answers) d at) v,
    record_difficulty-captures (answer j.answers) j.db d at ∙ e,
  );
}

module _ {N : Type 0} (tr : Transport N) (fl : Floats) (cfg : Config) where
  -- The state after a number of steps of the loop.
  pub steps : ℕ → Manager Store N → Manager Store N
  steps zero s = s
  steps (suc n) s = steps n (run_once bridge tr fl cfg s).0

  -- However long the loop runs, whatever the network answers and whichever statements SQLite
  -- fails, no find is lost, added or altered in what was captured of it, and the journal stays
  -- well-formed.
  pub steps_keep_finds :
      (n : ℕ) (s : Manager Store N)
      → WellFormed s.journal.db
      → WellFormed (steps n s).journal.db
        × (captures (steps n s).journal.db ≡ captures s.journal.db)
  unfolding steps
  steps_keep_finds n s v = go n s (v, refl)
    where
      cs : List Captured
      cs = captures s.journal.db

      go : (n : ℕ) (s : Manager Store N) → Holds cs s.journal → Holds cs (steps n s).journal
      go zero s h = h
      go (suc n) s h =
          go n (run_once bridge tr fl cfg s).0
            (run_once-keeps (Holds cs) bridge tr fl cfg (bridge-Guards cs) s h)
