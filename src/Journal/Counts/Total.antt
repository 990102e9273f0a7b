-- ===== src/Journal/Counts/Total.antt =====
-- The counters and the finds that they count.
use tree_miner_amd.Prelude.{
  ℕ,
  ◌+◌,
  ◌≡◌,
  refl,
  ◌∙◌,
  ap,
  Bool,
  true,
  false,
  List,
  [],
  ◌∷◌,
  All,
  length,
  arith,
  ◌&&◌,
  ◌||◌,
  if◌then◌else◌,
  Text.{text_eq},
}
use tree_miner_amd.Core.Types.{
  FindKind, xen11, xuni, kind_as_str, status_as_str, FindStatus, pending, submitting,
  accepted_unconfirmed, acked, parked_difficulty, parked_xuni_window, quarantined, dead,
  permanently_invalid,
}
use tree_miner_amd.Journal.Table.{Row, count_where, ok, ◌>>=◌}
use tree_miner_amd.Journal.Finds.{Db, is_submitting}
use tree_miner_amd.Journal.Finds.Shape.{IsStored, WellFormed}
use tree_miner_amd.Journal.Finds.Append.{kind_read, status_read}
use tree_miner_amd.Journal.Counts.{Counts, no_counts, owe, tally, count_rows, counts}

-- The counter of a status; none is kept of Submitting.
abbrev pub counter : FindStatus → Counts → ℕ
counter pending c = c.pending
counter submitting c = 0
counter accepted_unconfirmed c = c.accepted_unconfirmed
counter acked c = c.acked_total
counter parked_difficulty c = c.parked_difficulty
counter parked_xuni_window c = c.parked_xuni
counter quarantined c = c.quarantined
counter dead c = c.dead_total
counter permanently_invalid c = c.permanently_invalid

abbrev pub queued : FindKind → Counts → ℕ
queued xen11 c = c.queued_xen11
queued xuni c = c.queued_xuni

-- The finds of a status, and those of a kind that are owed to the server.
abbrev pub is_of : FindStatus → Row → Bool
is_of st r = text_eq r.status (status_as_str st)

abbrev pub is_owed : FindKind → Row → Bool
is_owed k r = text_eq r.kind (kind_as_str k) && (is_of pending r || is_of accepted_unconfirmed r)

abbrev hit : Bool → ℕ
hit b = if b then 1 else 0

tally-counter :
    (st s : FindStatus) (k : FindKind) (c : Counts)
    → is_submitting s ≡ false
    → counter st (tally s k c) ≡ counter st c + hit (text_eq (status_as_str s) (status_as_str st))
unfolding tally owe text_eq status_as_str
tally-counter st s k c h = grind arith

-- All counters of a status together.
abbrev pub sum_of : Counts → ℕ
sum_of c =
    c.pending + c.parked + c.quarantined + c.acked_total + c.dead_total + c.accepted_unconfirmed
    + c.permanently_invalid

tally-sum :
    (s : FindStatus) (k : FindKind) (c : Counts)
    → is_submitting s ≡ false
    → sum_of (tally s k c) ≡ sum_of c + 1
unfolding tally owe
tally-sum pending xen11 c h = omega arith
tally-sum pending xuni c h = omega arith
tally-sum accepted_unconfirmed xen11 c h = omega arith
tally-sum accepted_unconfirmed xuni c h = omega arith
tally-sum submitting k c h = absurd cc
tally-sum _ k c h = omega arith

tally-parked :
    (s : FindStatus) (k : FindKind) (c : Counts)
    → c.parked ≡ c.parked_difficulty + c.parked_xuni
    → (tally s k c).parked ≡ (tally s k c).parked_difficulty + (tally s k c).parked_xuni
unfolding tally owe
tally-parked pending xen11 c h = h
tally-parked pending xuni c h = h
tally-parked accepted_unconfirmed xen11 c h = h
tally-parked accepted_unconfirmed xuni c h = h
tally-parked _ k c h = omega (arith, h)

tally-queued :
    (q : FindKind) (s : FindStatus) (k : FindKind) (c : Counts)
    → queued q (tally s k c)
      ≡ queued q c
        + hit (
            text_eq (kind_as_str k) (kind_as_str q)
            && (text_eq (status_as_str s) (status_as_str pending)
                || text_eq (status_as_str s) (status_as_str accepted_unconfirmed)))
unfolding tally owe text_eq status_as_str kind_as_str
tally-queued q s k c = grind arith

count_rows-stored :
    (r : Row) (rs : List Row) (c : Counts) (k : FindKind) (s : FindStatus)
    → r.kind ≡ kind_as_str k
    → r.status ≡ status_as_str s
    → count_rows (r ∷ rs) c ≡ count_rows rs (tally s k c)
unfolding count_rows
count_rows-stored r rs c k s kd st =
    rw (st) (rw (status_read s, ◌>>=◌) (rw kd (rw (kind_read k, ◌>>=◌) refl)))

count_rows-nil : (c : Counts) → count_rows [] c ≡ ok c
unfolding count_rows
count_rows-nil c = refl

count_where-cons :
    (p : Row → Bool) (r : Row) (rs : List Row)
    → count_where p (r ∷ rs) ≡ hit (p r) + count_where p rs
unfolding count_where
count_where-cons p r rs = ground arith

-- What counting some finds adds to the counters.
record Adds (rs : List Row) (c c' : Counts) : Type 0 where
  by_status : (st : FindStatus) → counter st c' ≡ counter st c + count_where (is_of st) rs
  by_kind : (q : FindKind) → queued q c' ≡ queued q c + count_where (is_owed q) rs
  in_all : sum_of c' ≡ sum_of c + length rs
  parked :
      c.parked ≡ c.parked_difficulty + c.parked_xuni
      → c'.parked ≡ c'.parked_difficulty + c'.parked_xuni

count_rows-Adds :
    (rs : List Row) (c : Counts)
    → All IsStored rs
    → (c' : Counts) × (count_rows rs c ≡ ok c') × Adds rs c c'
unfolding count_where
count_rows-Adds [] c h = (
  c,
  count_rows-nil c,
  record {
    by_status = λ st. omega arith;
    by_kind = λ q. omega arith;
    in_all = omega arith;
    parked = λ e. e;
  },
)
count_rows-Adds (r ∷ rs) c (((s, st, ns), (k, kd)), hs) =
    let (c', e, a) = count_rows-Adds rs (tally s k c) hs in
    (
      c',
      count_rows-stored r rs c k s kd st ∙ e,
      record {
        by_status = λ x.
            let one = tally-counter x s k c ns in
            let here = ap (λ t. hit (text_eq t (status_as_str x))) st in
            omega (arith, a.by_status x, one, here, count_where-cons (is_of x) r rs);
        by_kind = λ q.
            let here =
              ap
                (λ t.
                  hit (
                    text_eq t (kind_as_str q) && (is_of pending r || is_of accepted_unconfirmed r)))
                kd in
            let there =
              ap
                (λ t. hit (
                  text_eq (kind_as_str k) (kind_as_str q)
                  && (text_eq t (status_as_str pending)
                      || text_eq t (status_as_str accepted_unconfirmed))))
                st in
            omega (
              arith,
              a.by_kind q,
              tally-queued q s k c,
              here,
              there,
              count_where-cons (is_owed q) r rs,
            );
        in_all = omega (arith, a.in_all, tally-sum s k c ns);
        parked = λ e'. a.parked (tally-parked s k c e');
      },
    )

-- On a well-formed journal the counters can be read. The counter of each status is the number of
-- finds of that status, of which Submitting has none; the two of parked finds add up to the one of
-- all that are parked, those of the statuses add up to the number of finds, and what is queued of a
-- kind is the number of finds of that kind that are pending or unconfirmed.
pub counts_complete :
    (db : Db)
    → WellFormed db
    → (c : Counts) × (counts true db ≡ ok c)
      × ((st : FindStatus) → counter st c ≡ count_where (is_of st) db.finds)
      × ((q : FindKind) → queued q c ≡ count_where (is_owed q) db.finds)
      × (c.parked ≡ c.parked_difficulty + c.parked_xuni)
      × (sum_of c ≡ length db.finds)
unfolding counts
counts_complete db v =
    let (c, e, a) = count_rows-Adds db.finds no_counts v.stored in
    (
      c,
      e,
      (λ st. a.by_status st ∙ no_status st _),
      (λ q. a.by_kind q ∙ no_kind q _),
      a.parked refl,
      omega (arith, a.in_all),
    )
  where
    no_status : (st : FindStatus) (n : ℕ) → counter st no_counts + n ≡ n
    no_status st n = grind arith

    no_kind : (q : FindKind) (n : ℕ) → queued q no_counts + n ≡ n
    no_kind q n = grind arith
