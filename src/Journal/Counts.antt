-- ===== src/Journal/Counts.antt =====
-- tm-journal/src/journal.rs, `counts`. A group of equal rows is counted row
-- by row, which gives the same sums, and the same failure on a text that is no status or kind.
pub mod Total
use tree_miner_amd.Prelude.{ℕ, ◌+◌, Bool, true, false, List, [], ◌∷◌, Text.{codes}}
use tree_miner_amd.Core.Types.{
  FindKind, xen11, xuni, FindStatus, pending, submitting, accepted_unconfirmed, acked,
  parked_difficulty, parked_xuni_window, quarantined, dead, permanently_invalid,
}
use tree_miner_amd.Journal.Table.{
  Row, Result, ok, err, ◌>>=◌, has_status, update_where, status_from_str, kind_from_str,
}
use tree_miner_amd.Journal.Finds.{Db, attempt, read}

pub record Counts : Type 0 where
  pub pending : ℕ
  pub parked : ℕ
  pub parked_difficulty : ℕ
  pub parked_xuni : ℕ
  pub quarantined : ℕ
  pub acked_total : ℕ
  pub dead_total : ℕ
  pub accepted_unconfirmed : ℕ
  pub permanently_invalid : ℕ
  pub queued_xen11 : ℕ
  pub queued_xuni : ℕ

abbrev pub no_counts : Counts
no_counts = record {
  pending = 0;
  parked = 0;
  parked_difficulty = 0;
  parked_xuni = 0;
  quarantined = 0;
  acked_total = 0;
  dead_total = 0;
  accepted_unconfirmed = 0;
  permanently_invalid = 0;
  queued_xen11 = 0;
  queued_xuni = 0;
}

-- Work that is still owed to the server, by kind.
unfoldable pub owe : FindKind → Counts → Counts
owe xen11 c = record c { queued_xen11 = c.queued_xen11 + 1 }
owe xuni c = record c { queued_xuni = c.queued_xuni + 1 }

unfoldable pub tally : FindStatus → FindKind → Counts → Counts
unfolding owe
tally pending kind c = owe kind (record c { pending = c.pending + 1 })
tally accepted_unconfirmed kind c =
    owe kind (record c { accepted_unconfirmed = c.accepted_unconfirmed + 1 })
tally parked_difficulty kind c = record c {
  parked_difficulty = c.parked_difficulty + 1;
  parked = c.parked + 1;
}
tally parked_xuni_window kind c = record c {
  parked_xuni = c.parked_xuni + 1;
  parked = c.parked + 1;
}
tally quarantined kind c = record c { quarantined = c.quarantined + 1 }
tally acked kind c = record c { acked_total = c.acked_total + 1 }
tally dead kind c = record c { dead_total = c.dead_total + 1 }
tally permanently_invalid kind c = record c { permanently_invalid = c.permanently_invalid + 1 }
tally submitting kind c = c

unfoldable pub count_rows : List Row → Counts → Result Counts
unfolding tally
count_rows [] c = ok c
count_rows (r ∷ rs) c = do
  status ← status_from_str r.status
  kind ← kind_from_str r.kind
  count_rows rs (tally status kind c)

unfoldable pub counts : Bool → Db → Result Counts
unfolding count_rows
counts io db = read io (codes "query counts") (count_rows db.finds no_counts)
