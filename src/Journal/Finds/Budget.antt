-- ===== src/Journal/Finds/Budget.antt =====
-- The budget of windows of a XUNI find.
use tree_miner_amd.Prelude.{
  ℕ,
  zero,
  suc,
  ◌≤◌,
  ◌<◌,
  ◌≡◌,
  refl,
  inl,
  inr,
  Bool,
  true,
  false,
  Option,
  none,
  some,
  List,
  [],
  ◌∷◌,
  arith,
  if◌then◌else◌,
  ◌==◌,
  Bool-cases,
  All,
  All-snoc,
  Text.{Text, text_eq, codes},
}
use tree_miner_amd.Core.Types.{Classification}
use tree_miner_amd.Journal.Table.{
  Row, update_where, count_where, has_status, Result, find_where, next_id,
}
use tree_miner_amd.Journal.Finds.{
  Db, Write, appends, records, unparks_difficulty, unparks_xuni, observes, empty, new_row, append,
  insert_new, attempt, is_submitting, update_attempt, attempted, record_attempt, requalifies,
  repend, unpark_for_difficulty, exhausted, bury, reopen, unpark_xuni_for_window, record_difficulty,
  write, run,
}

-- No row has been reopened for more windows than the budget.
abbrev pub WithinBudget : ℕ → Db → Type 0
WithinBudget max_windows db = All (λ r. r.xuni_windows_tried ≤ max_windows) db.finds

budget-update_where :
    (m : ℕ) (p : Row → Bool) (f : Row → Row) (rs : List Row)
    → ((r : Row) → p r ≡ true → r.xuni_windows_tried ≤ m → (f r).xuni_windows_tried ≤ m)
    → All (λ r. r.xuni_windows_tried ≤ m) rs
    → All (λ r. r.xuni_windows_tried ≤ m) (update_where p f rs)
unfolding update_where
budget-update_where m p f [] keep h = tt
budget-update_where m p f (r ∷ rs) keep h = (head (p r) refl, budget-update_where m p f rs keep h.1)
  where
    head : (b : Bool) → p r ≡ b → (if b then f r else r).xuni_windows_tried ≤ m
    head true e = keep r e h.0
    head false e = h.0

-- The windows that an update of parked rows may still count on.
room-update_where :
    (m : ℕ) (rs : List Row)
    → All
        (λ r. has_status (codes "ParkedXuniWindow") r ≡ true → r.xuni_windows_tried < m)
        (update_where (exhausted m) bury rs)
unfolding update_where
room-update_where m [] = tt
room-update_where m (r ∷ rs) = (head (exhausted m r) refl, room-update_where m rs)
  where
    head :
        (b : Bool)
        → exhausted m r ≡ b
        → has_status (codes "ParkedXuniWindow") (if b then bury r else r) ≡ true
        → (if b then bury r else r).xuni_windows_tried < m
    head true e h = absurd (unfold bury text_eq in (cc h))
    head false e h = unfold exhausted in ground arith

reopen-budget :
    (m : ℕ) (rs : List Row)
    → All (λ r. r.xuni_windows_tried ≤ m) rs
    → All (λ r. has_status (codes "ParkedXuniWindow") r ≡ true → r.xuni_windows_tried < m) rs
    → All
        (λ r. r.xuni_windows_tried ≤ m)
        (update_where (has_status (codes "ParkedXuniWindow")) reopen rs)
unfolding update_where reopen
reopen-budget m [] h room = tt
reopen-budget m (r ∷ rs) h room =
    (head (has_status (codes "ParkedXuniWindow") r) refl, reopen-budget m rs h.1 room.1)
  where
    head :
        (b : Bool)
        → has_status (codes "ParkedXuniWindow") r ≡ b
        → (if b then reopen r else r).xuni_windows_tried ≤ m
    head true e = omega (arith, room.0 e)
    head false e = h.0

-- The writes of a program whose window budget is `max_windows`.
abbrev pub UsesBudget : ℕ → Write → Type 0
UsesBudget max_windows (unparks_xuni io n) = n ≡ max_windows
UsesBudget max_windows _ = Unit

update_attempt-budget :
    (m : ℕ) (db : Db) (id n : ℕ) (set : Row → Row)
    → ((r : Row) → (set r).xuni_windows_tried ≡ r.xuni_windows_tried)
    → WithinBudget m db
    → WithinBudget m (update_attempt db id set n).0
unfolding update_attempt
update_attempt-budget m db id zero set same h = h
update_attempt-budget m db id (suc n) set same h =
    budget-update_where m (λ r. r.id == id) set db.finds (λ r e le. omega (arith, same r)) h

record_attempt-budget :
    (m : ℕ) (io : Bool) (db : Db) (id : ℕ) (c : Classification) (http : Option ℕ) (body : Text)
    (next : Option Text) (now : Text)
    → WithinBudget m db
    → WithinBudget m (record_attempt io db id c http body next now).0
unfolding record_attempt attempted
record_attempt-budget m io db id c http body next now h =
    elim (Bool-cases (is_submitting c.next_status)) [ inl e ↦ rw e h | inr e ↦ rw e (by_answer io) ]
  where
    done : Db × Result (Unit {0})
    done =
        update_attempt db id (attempted c http body next now)
          (count_where (λ r. r.id == id) db.finds)

    by_answer : (b : Bool) → WithinBudget m (attempt b (codes "record attempt") db done).0
    by_answer true =
        update_attempt-budget m db id (count_where (λ r. r.id == id) db.finds)
          (attempted c http body next now) (λ r. refl) h
    by_answer false = h

write-WithinBudget :
    (m : ℕ) (db : Db) (w : Write) → UsesBudget m w → WithinBudget m db → WithinBudget m (write db w)
unfolding write append unpark_for_difficulty unpark_xuni_for_window record_difficulty
write-WithinBudget m db (appends false p) u h = h
write-WithinBudget m db (appends true p) u h =
    added (find_where (λ r. text_eq r.key p.key) db.finds)
  where
    added : (o : Option Row) → WithinBudget m (insert_new db p o).0
    added none =
        unfold insert_new new_row in
        All-snoc (λ r. r.xuni_windows_tried ≤ m) db.finds (new_row (next_id 0 db.finds) p) h
          (omega arith)
    added (some r) = unfold insert_new in h
write-WithinBudget m db (records io id c http body next now) u h =
    record_attempt-budget m io db id c http body next now h
write-WithinBudget m db (unparks_difficulty false d) u h = h
write-WithinBudget m db (unparks_difficulty true d) u h =
    budget-update_where m (requalifies d) repend db.finds (λ r e le. unfold repend in le) h
write-WithinBudget m db (unparks_xuni false n) u h = h
write-WithinBudget m db (unparks_xuni true n) u h = rw u (
    reopen-budget m (update_where (exhausted m) bury db.finds)
      (budget-update_where m (exhausted m) bury db.finds (λ r e le. unfold bury in le) h)
      (room-update_where m db.finds))
write-WithinBudget m db (observes false d at) u h = h
write-WithinBudget m db (observes true d at) u h = h

run-WithinBudget_from :
    (m : ℕ) (ws : List Write) (db : Db)
    → All (UsesBudget m) ws
    → WithinBudget m db
    → WithinBudget m (run db ws)
unfolding run
run-WithinBudget_from m [] db u h = h
run-WithinBudget_from m (w ∷ ws) db u h =
    run-WithinBudget_from m ws (write db w) u.1 (write-WithinBudget m db w u.0 h)

-- Whatever is written to a new journal under one window budget, no find is reopened for more
-- windows than the budget.
pub run-WithinBudget :
    (m : ℕ) (ws : List Write) → All (UsesBudget m) ws → WithinBudget m (run empty ws)
run-WithinBudget m ws u = run-WithinBudget_from m ws empty u tt
