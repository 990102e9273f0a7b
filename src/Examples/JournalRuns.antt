-- ===== src/Examples/JournalRuns.antt =====
-- Runs of the journal.
use tree_miner_amd.Prelude.{
  ℕ,
  ◌≤◌,
  ◌≡◌,
  refl,
  true,
  false,
  ◌&&◌,
  none,
  some,
  min,
  List,
  [],
  ◌∷◌,
  ◌++◌,
  All,
  length,
  Text.{codes, text_eq},
}
use tree_miner_amd.Examples.{payload}
use tree_miner_amd.Core.Types.{
  xen11, xuni, kind_as_str, status_as_str, FoundPayload, FindRecord, Classification, pending,
  parked_xuni_window,
}
use tree_miner_amd.Journal.Table.{
  next_id, update_where, ok, find_where, count_where, has_status, has_kind, is_due,
}
use tree_miner_amd.Journal.Finds.{
  empty, append, get_by_id, fetch_eligible_of_kind, Write, appends, records, unparks_xuni, observes,
  run, write, record_attempt, new_row, attempted, unpark_xuni_for_window, exhausted, reopen, bury,
}
use tree_miner_amd.Journal.Finds.Capture.{Captured, captures, run_keeps_captures}
use tree_miner_amd.Journal.Finds.Shape.{WellFormed, run-WellFormed}
use tree_miner_amd.Journal.Finds.Append.{fresh_record, append_durable}
use tree_miner_amd.Journal.Finds.Reopenings.{reopenings, reopenings-le}
use tree_miner_amd.Journal.Finds.Fetch.{IsWanted, fetch_eligible_of_kind_complete}

abbrev pub parked : Classification
parked = record {
  next_status = parked_xuni_window;
  server_difficulty_hint = none;
  needs_lookup_confirmation = false;
  reason = codes "window closed";
}

-- Two finds, the second of which has been sent too late and waits for its window.
abbrev pub story : List Write
story =
    appends true (payload (codes "a") xen11 900)
    ∷ appends true (payload (codes "b") xuni 700)
    ∷ records true 2 parked (some 401) (codes "late") none (codes "2026-01-01T00:06:00Z")
    ∷ observes true 800 (codes "2026-01-01T00:06:00Z")
    ∷ []

run_keeps_captures_example :
    (extra : List Captured) × (captures (run empty story) ≡ captures empty ++ extra)
run_keeps_captures_example = run_keeps_captures story empty

run-WellFormed_example : WellFormed (run empty story)
run-WellFormed_example = run-WellFormed story

abbrev fresh : FoundPayload
fresh = payload (codes "c") xen11 500

new_key : find_where (λ r. text_eq r.key fresh.key) (run empty []).finds ≡ none
unfolding run find_where
new_key = refl

append_durable_example :
    (id : ℕ) × ((append true (run empty []) fresh).1 ≡ ok id)
    × (get_by_id true (append true (run empty []) fresh).0 id ≡ ok (some (fresh_record id fresh)))
append_durable_example = append_durable (run empty []) fresh (run-WellFormed []) new_key

abbrev windows : List Write
windows =
    appends true (payload (codes "b") xuni 700)
    ∷ records true 1 parked (some 401) (codes "late") none (codes "2026-01-01T00:06:00Z")
    ∷ unparks_xuni true 2
    ∷ records true 1 parked (some 401) (codes "late") none (codes "2026-01-01T01:06:00Z")
    ∷ unparks_xuni true 2
    ∷ records true 1 parked (some 401) (codes "late") none (codes "2026-01-01T02:06:00Z")
    ∷ unparks_xuni true 2
    ∷ []

reopenings-le_example : reopenings 1 empty windows ≤ 2
reopenings-le_example = reopenings-le 2 1 windows (tt, (tt, (refl, (tt, (refl, (tt, (refl, tt)))))))

-- The find of that history uses its budget up.
both_windows : reopenings 1 empty windows ≡ 2
unfolding reopenings run find_where write record_attempt count_where append new_row next_id
    update_where attempted text_eq status_as_str unpark_xuni_for_window exhausted reopen bury
both_windows = refl

fetch_eligible_of_kind_complete_example :
    (xs : List FindRecord) × (fetch_eligible_of_kind true (run empty story) xen11 (codes "2026") 16
      ≡ ok xs)
    × All (IsWanted pending (some xen11) (codes "2026")) xs
    × (length xs
        ≡ min 16 (
            count_where
              (λ r.
                has_status (codes "Pending") r
                && has_kind (some (kind_as_str xen11)) r
                && is_due (codes "2026") r.next_attempt_at)
              (run empty story).finds))
fetch_eligible_of_kind_complete_example =
    fetch_eligible_of_kind_complete (run empty story) xen11 (codes "2026") 16 (run-WellFormed story)
