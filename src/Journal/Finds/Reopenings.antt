-- ===== src/Journal/Finds/Reopenings.antt =====
-- How often a parked XUNI find gets another window.
use tree_miner_amd.Prelude.{
  ℕ,
  zero,
  suc,
  ◌+◌,
  ◌≤◌,
  ◌≡◌,
  refl,
  sym,
  ◌∙◌,
  ap,
  subst,
  inl,
  inr,
  Bool,
  true,
  false,
  ◌&&◌,
  Option,
  none,
  some,
  List,
  [],
  ◌∷◌,
  ◌++◌,
  arith,
  if◌then◌else◌,
  ◌==◌,
  Bool-cases,
  All,
  Text.{Text, text_eq, text_eq_iff, codes},
}
use tree_miner_amd.Core.Types.{Classification}
use tree_miner_amd.Journal.Table.{
  Row, update_where, count_where, has_status, Result, JournalError, err, find_where, next_id,
}
use tree_miner_amd.Journal.Finds.{
  Db, Write, appends, records, unparks_difficulty, unparks_xuni, observes, empty, new_row, append,
  insert_new, attempt, is_submitting, update_attempt, attempted, record_attempt, requalifies,
  repend, unpark_for_difficulty, exhausted, bury, reopen, unpark_xuni_for_window, record_difficulty,
  write, run, submitting_refused,
}
use tree_miner_amd.Journal.Finds.Budget.{UsesBudget, run-WithinBudget}

-- The row of a find.
abbrev pub row_of : ℕ → List Row → Option Row
row_of id rs = find_where (λ r. r.id == id) rs

abbrev pub is_waiting : Option Row → Bool
is_waiting none = false
is_waiting (some r) = text_eq r.status (codes "ParkedXuniWindow")

abbrev pub is_pending : Option Row → Bool
is_pending none = false
is_pending (some r) = text_eq r.status (codes "Pending")

-- A window that opens takes the find back from its parking.
abbrev pub gets_window : ℕ → Db → Write → Bool
gets_window id db (unparks_xuni io n) =
    is_waiting (row_of id db.finds) && is_pending (row_of id (write db (unparks_xuni io n)).finds)
gets_window id db _ = false

abbrev pub one_if : Bool → ℕ
one_if b = if b then 1 else 0

-- How many windows the find gets in a history.
unfoldable pub reopenings : ℕ → Db → List Write → ℕ
reopenings id db [] = 0
reopenings id db (w ∷ ws) = one_if (gets_window id db w) + reopenings id (write db w) ws

abbrev tried : Option Row → ℕ
tried none = 0
tried (some r) = r.xuni_windows_tried

abbrev updated : (Row → Bool) → (Row → Row) → Option Row → Option Row
updated p f none = none
updated p f (some r) = some (if p r then f r else r)

row_of-cons :
    (id : ℕ) (p : Row → Bool) (f : Row → Row) (r : Row) (rs : List Row)
    → ((r : Row) → (f r).id ≡ r.id)
    → row_of id (update_where p f rs) ≡ updated p f (row_of id rs)
    → row_of id (update_where p f (r ∷ rs)) ≡ updated p f (row_of id (r ∷ rs))
unfolding update_where find_where
row_of-cons id p f r rs same later = by_hit (p r) refl
  where
    at_head :
        (x : Row)
        → (x.id == id) ≡ (r.id == id)
        → (if p r then f r else r) ≡ x
        → (if x.id == id then some x else row_of id (update_where p f rs))
          ≡ updated p f (if r.id == id then some r else row_of id rs)
    at_head x e h = elim (Bool-cases (r.id == id)) [
      | inl here ↦ rw (e, here) (ap some (sym h))
      | inr there ↦ rw (e, there) later
    ]

    by_hit :
        (b : Bool)
        → p r ≡ b
        → (if (if b then f r else r).id == id
            then some (if b then f r else r)
            else row_of id (update_where p f rs))
          ≡ updated p f (if r.id == id then some r else row_of id rs)
    by_hit true e = at_head (f r) (ap (λ n. n == id) (same r)) (ap (λ b. if b then f r else r) e)
    by_hit false e = at_head r refl (ap (λ b. if b then f r else r) e)

row_of-update_where :
    (id : ℕ) (p : Row → Bool) (f : Row → Row) (rs : List Row)
    → ((r : Row) → (f r).id ≡ r.id)
    → row_of id (update_where p f rs) ≡ updated p f (row_of id rs)
unfolding update_where find_where
row_of-update_where id p f [] same = refl
row_of-update_where id p f (r ∷ rs) same =
    row_of-cons id p f r rs same (row_of-update_where id p f rs same)

-- An update that lowers no counter lowers that of no find.
tried-update_where :
    (id : ℕ) (p : Row → Bool) (f : Row → Row) (rs : List Row)
    → ((r : Row) → (f r).id ≡ r.id)
    → ((r : Row) → r.xuni_windows_tried ≤ (f r).xuni_windows_tried)
    → tried (row_of id rs) ≤ tried (row_of id (update_where p f rs))
tried-update_where id p f rs same up =
    rw (row_of-update_where id p f rs same) (by_row (row_of id rs))
  where
    by_row : (o : Option Row) → tried o ≤ tried (updated p f o)
    by_row none = omega arith
    by_row (some r) = elim (Bool-cases (p r)) [ inl e ↦ rw e (up r) | inr e ↦ rw e (omega arith) ]

tried-snoc :
    (id : ℕ) (rs : List Row) (new : Row) → tried (row_of id rs) ≤ tried (row_of id (rs ++ new ∷ []))
unfolding find_where
tried-snoc id [] new = omega arith
tried-snoc id (r ∷ rs) new = elim (Bool-cases (r.id == id)) [
  | inl here ↦ rw here (omega arith)
  | inr there ↦ rw there (tried-snoc id rs new)
]

-- One find at the opening of a window.
window_counts :
    (m : ℕ) (o : Option Row)
    → let after =
        updated (has_status (codes "ParkedXuniWindow")) reopen (updated (exhausted m) bury o) in
      tried o + one_if (is_waiting o && is_pending after) ≤ tried after
unfolding bury reopen text_eq exhausted
window_counts m none = omega arith
window_counts m (some r) = elim (Bool-cases (exhausted m r)) [
  | inl over ↦ ground arith
  | inr room ↦ ground arith
]

never_both : (o : Option Row) → (is_waiting o && is_pending o) ≡ false
unfolding text_eq
never_both none = refl
never_both (some r) =
    let waiting = codes "ParkedXuniWindow" in
    elim (Bool-cases (text_eq r.status waiting)) [
      | inl e ↦
          subst (λ t. (text_eq t waiting && text_eq t (codes "Pending")) ≡ false)
            (sym ((text_eq_iff r.status waiting).0 e)) refl
      | inr e ↦ rw e refl
    ]

tried-write_window :
    (id m : ℕ) (io : Bool) (db : Db)
    → tried (row_of id db.finds) + one_if (gets_window id db (unparks_xuni io m))
      ≤ tried (row_of id (write db (unparks_xuni io m)).finds)
unfolding write unpark_xuni_for_window bury reopen
tried-write_window id m true db =
    let buried = row_of-update_where id (exhausted m) bury db.finds (λ r. refl) in
    let reopened =
      row_of-update_where id (has_status (codes "ParkedXuniWindow")) reopen
        (update_where (exhausted m) bury db.finds) (λ r. refl) in
    let whole = reopened ∙ ap (updated (has_status (codes "ParkedXuniWindow")) reopen) buried in
    subst
      (λ o.
        tried (row_of id db.finds) + one_if (is_waiting (row_of id db.finds) && is_pending o)
        ≤ tried o)
      (sym whole) (window_counts m (row_of id db.finds))
tried-write_window id m false db = rw (never_both (row_of id db.finds)) (omega arith)

tried-write_attempt :
    (id : ℕ) (db : Db) (n : ℕ) (set : Row → Row) (k : ℕ)
    → ((r : Row) → (set r).id ≡ r.id)
    → ((r : Row) → (set r).xuni_windows_tried ≡ r.xuni_windows_tried)
    → tried (row_of id db.finds) ≤ tried (row_of id (update_attempt db n set k).0.finds)
unfolding update_attempt
tried-write_attempt id db n set zero same keep = omega arith
tried-write_attempt id db n set (suc k) same keep =
    tried-update_where id (λ r. r.id == n) set db.finds same (λ r. omega (arith, keep r))

tried-record_attempt :
    (id : ℕ) (io : Bool) (db : Db) (n : ℕ) (c : Classification) (http : Option ℕ) (body : Text)
    (next : Option Text) (now : Text)
    → tried (row_of id db.finds)
      ≤ tried (row_of id (record_attempt io db n c http body next now).0.finds)
unfolding record_attempt attempted
tried-record_attempt id io db n c http body next now = by_verdict (is_submitting c.next_status)
  where
    done : Db × Result (Unit {0})
    done =
        update_attempt db n (attempted c http body next now) (count_where (λ r. r.id == n) db.finds)

    by_answer :
        (b : Bool)
        → tried (row_of id db.finds)
          ≤ tried (row_of id (attempt b (codes "record attempt") db done).0.finds)
    by_answer true =
        tried-write_attempt id db n (attempted c http body next now)
          (count_where (λ r. r.id == n) db.finds) (λ r. refl) (λ r. refl)
    by_answer false = omega arith

    by_verdict :
        (b : Bool)
        → tried (row_of id db.finds)
          ≤ tried (
              row_of id
                (if b
                  then (db, err (JournalError.contract submitting_refused))
                  else attempt io (codes "record attempt") db done).0.finds)
    by_verdict true = omega arith
    by_verdict false = by_answer io

-- What a write adds to the counter of a find is at least the window that it gives it.
tried-write :
    (id : ℕ) (db : Db) (w : Write)
    → tried (row_of id db.finds) + one_if (gets_window id db w)
      ≤ tried (row_of id (write db w).finds)
unfolding write append insert_new record_attempt attempted unpark_for_difficulty repend
    record_difficulty
tried-write id db (appends false p) = omega arith
tried-write id db (appends true p) = added (find_where (λ r. text_eq r.key p.key) db.finds)
  where
    added :
        (o : Option Row)
        → tried (row_of id db.finds) + 0 ≤ tried (row_of id (insert_new db p o).0.finds)
    added (some r) = omega arith
    added none = omega (arith, tried-snoc id db.finds (new_row (next_id 0 db.finds) p))
tried-write id db (records io n c http body next now) =
    omega (arith, tried-record_attempt id io db n c http body next now)
tried-write id db (unparks_difficulty false d) = omega arith
tried-write id db (unparks_difficulty true d) =
    omega
      (arith, tried-update_where id (requalifies d) repend db.finds (λ r. refl) (λ r. omega arith))
tried-write id db (unparks_xuni io m) = tried-write_window id m io db
tried-write id db (observes false d at) = omega arith
tried-write id db (observes true d at) = omega arith

tried-run :
    (id : ℕ) (db : Db) (ws : List Write)
    → tried (row_of id db.finds) + reopenings id db ws ≤ tried (row_of id (run db ws).finds)
unfolding run reopenings
tried-run id db [] = omega arith
tried-run id db (w ∷ ws) = omega (arith, tried-write id db w, tried-run id (write db w) ws)

tried_within :
    (m id : ℕ) (rs : List Row) → All (λ r. r.xuni_windows_tried ≤ m) rs → tried (row_of id rs) ≤ m
unfolding find_where
tried_within m id [] h = omega arith
tried_within m id (r ∷ rs) h = elim (Bool-cases (r.id == id)) [
  | inl here ↦ rw here h.0
  | inr there ↦ rw there (tried_within m id rs h.1)
]

-- Whatever is written to a new journal, failing or not, under one window budget: no find is taken
-- back from its parking by the opening of a window more often than the budget says.
pub reopenings-le :
    (m id : ℕ) (ws : List Write) → All (UsesBudget m) ws → reopenings id empty ws ≤ m
unfolding find_where
reopenings-le m id ws u =
    omega (
      arith,
      tried-run id empty ws,
      tried_within m id (run empty ws).finds (run-WithinBudget m ws u),
    )
