-- ===== src/Journal/Finds/Shape.antt =====
-- The table's invariant: rising ids, distinct keys, and only texts that the code reads back.
use tree_miner_amd.Prelude.{
  ℕ,
  zero,
  suc,
  ◌<◌,
  ◌≡◌,
  refl,
  sym,
  subst,
  inl,
  inr,
  Bool,
  true,
  false,
  Option,
  none,
  some,
  List,
  [],
  ◌∷◌,
  ◌++◌,
  map,
  arith,
  if◌then◌else◌,
  ◌==◌,
  Bool-cases,
  All,
  All-snoc,
  Text.{Text, text_eq, codes},
}
use mathlib.Core.List.{map-append}
use tree_miner_amd.Core.Types.{
  FindStatus, FindKind, pending, dead, FoundPayload, Classification, status_as_str, kind_as_str,
}
use tree_miner_amd.Journal.Table.{Row, update_where, count_where, find_where, Result, next_id}
use tree_miner_amd.Journal.Finds.{
  Db, Write, appends, records, unparks_difficulty, unparks_xuni, observes, empty, new_row, append,
  entry_status, insert_new, attempt, is_submitting, update_attempt, attempted, record_attempt,
  requalifies, repend, unpark_for_difficulty, exhausted, bury, reopen, unpark_xuni_for_window,
  record_difficulty, write, run,
}
use tree_miner_amd.Journal.Finds.Capture.{Captured, capture, captures, capture-update_where}

-- The texts of a row are those of a kind and of a status other than `Submitting`.
abbrev pub IsStored : Row → Type 0
IsStored r =
    ((s : FindStatus) × (r.status ≡ status_as_str s) × (is_submitting s ≡ false))
    × ((k : FindKind) × (r.kind ≡ kind_as_str k))

abbrev pub Ascending : ℕ → List Captured → Type 0
Ascending last [] = Unit
Ascending last (c ∷ cs) = (last < c.id) × Ascending c.id cs

abbrev pub DistinctKeys : List Captured → Type 0
DistinctKeys [] = Unit
DistinctKeys (c ∷ cs) = All (λ d. text_eq c.key d.key ≡ false) cs × DistinctKeys cs

pub record WellFormed (db : Db) : Type 0 where
  pub stored : All IsStored db.finds
  pub ascending : Ascending 0 (captures db)
  pub distinct : DistinctKeys (captures db)

IsStored-update_where :
    (p : Row → Bool) (f : Row → Row) (rs : List Row)
    → ((r : Row) → IsStored r → IsStored (f r))
    → All IsStored rs
    → All IsStored (update_where p f rs)
unfolding update_where
IsStored-update_where p f [] keep h = tt
IsStored-update_where p f (r ∷ rs) keep h = (head (p r), IsStored-update_where p f rs keep h.1)
  where
    head : (b : Bool) → IsStored (if b then f r else r)
    head true = keep r h.0
    head false = h.0

update-WellFormed :
    (db : Db) (p : Row → Bool) (f : Row → Row)
    → ((r : Row) → capture (f r) ≡ capture r)
    → ((r : Row) → IsStored r → IsStored (f r))
    → WellFormed db
    → WellFormed (record db { finds = update_where p f db.finds })
update-WellFormed db p f same keep v =
    let e = capture-update_where p f db.finds same in
    record {
      stored = IsStored-update_where p f db.finds keep v.stored;
      ascending = subst (Ascending 0) (sym e) v.ascending;
      distinct = subst DistinctKeys (sym e) v.distinct;
    }

next_id-Ascending :
    (last : ℕ) (rs : List Row) (r : Row)
    → r.id ≡ next_id last rs
    → Ascending last (map capture rs)
    → Ascending last (map capture (rs ++ r ∷ []))
unfolding next_id
next_id-Ascending last [] r e h = (omega arith, tt)
next_id-Ascending last (x ∷ xs) r e h = (h.0, next_id-Ascending x.id xs r e h.1)

distinct-snoc :
    (rs : List Row) (r : Row)
    → find_where (λ x. text_eq x.key r.key) rs ≡ none
    → DistinctKeys (map capture rs)
    → DistinctKeys (map capture (rs ++ r ∷ []))
unfolding find_where
distinct-snoc [] r e h = (tt, tt)
distinct-snoc (x ∷ xs) r e h = elim (Bool-cases (text_eq x.key r.key)) [
  | inl hit ↦ ground arith
  | inr miss ↦ (
    rw (map-append capture xs (r ∷ [])) (All-snoc _ (map capture xs) (capture r) h.0 miss),
    distinct-snoc xs r (ground arith) h.1,
  )
]

entry_not_submitting : (p : FoundPayload) → is_submitting (entry_status p).0 ≡ false
unfolding entry_status
entry_not_submitting p = ground arith

new_row-IsStored : (id : ℕ) (p : FoundPayload) → IsStored (new_row id p)
unfolding new_row
new_row-IsStored id p = (((entry_status p).0, refl, entry_not_submitting p), (p.kind, refl))

insert_new-WellFormed :
    (db : Db) (p : FoundPayload) (o : Option Row)
    → find_where (λ r. text_eq r.key p.key) db.finds ≡ o
    → WellFormed db
    → WellFormed (insert_new db p o).0
unfolding insert_new
insert_new-WellFormed db p (some r) e v = v
insert_new-WellFormed db p none e v =
    let r = new_row (next_id 0 db.finds) p in
    record {
      stored = All-snoc IsStored db.finds r v.stored (new_row-IsStored _ p);
      ascending = next_id-Ascending 0 db.finds r (unfold new_row in refl) v.ascending;
      distinct = distinct-snoc db.finds r (unfold new_row in e) v.distinct;
    }

attempted-IsStored :
    (c : Classification) (http : Option ℕ) (body : Text) (next : Option Text) (now : Text) (r : Row)
    → is_submitting c.next_status ≡ false
    → IsStored r
    → IsStored (attempted c http body next now r)
unfolding attempted
attempted-IsStored c http body next now r e h = ((c.next_status, refl, e), h.1)

update_attempt-WellFormed :
    (db : Db) (id n : ℕ) (set : Row → Row)
    → ((r : Row) → capture (set r) ≡ capture r)
    → ((r : Row) → IsStored r → IsStored (set r))
    → WellFormed db
    → WellFormed (update_attempt db id set n).0
unfolding update_attempt
update_attempt-WellFormed db id zero set same keep v = v
update_attempt-WellFormed db id (suc n) set same keep v =
    update-WellFormed db (λ r. r.id == id) set same keep v

record_attempt-WellFormed :
    (io : Bool) (db : Db) (id : ℕ) (c : Classification) (http : Option ℕ) (body : Text)
    (next : Option Text) (now : Text)
    → WellFormed db
    → WellFormed (record_attempt io db id c http body next now).0
unfolding record_attempt attempted
record_attempt-WellFormed io db id c http body next now v =
    elim (Bool-cases (is_submitting c.next_status)) [
      | inl e ↦ rw e v
      | inr e ↦ rw e (by_answer e io)
    ]
  where
    done : Db × Result (Unit {0})
    done =
        update_attempt db id (attempted c http body next now)
          (count_where (λ r. r.id == id) db.finds)

    by_answer :
        is_submitting c.next_status ≡ false
        → (b : Bool) → WellFormed (attempt b (codes "record attempt") db done).0
    by_answer e true =
        update_attempt-WellFormed db id (count_where (λ r. r.id == id) db.finds)
          (attempted c http body next now) (λ r. refl)
          (λ r. attempted-IsStored c http body next now r e) v
    by_answer e false = v

pending-IsStored : (r : Row) → IsStored r → IsStored (repend r)
unfolding repend status_as_str
pending-IsStored r h = ((pending, refl, refl), h.1)

reopen-IsStored : (r : Row) → IsStored r → IsStored (reopen r)
unfolding reopen status_as_str
reopen-IsStored r h = ((pending, refl, refl), h.1)

bury-IsStored : (r : Row) → IsStored r → IsStored (bury r)
unfolding bury status_as_str
bury-IsStored r h = ((dead, refl, refl), h.1)

-- Every write, carried out or failed, keeps the invariant.
pub write-WellFormed : (db : Db) (w : Write) → WellFormed db → WellFormed (write db w)
unfolding write append unpark_for_difficulty unpark_xuni_for_window record_difficulty
write-WellFormed db (appends false p) v = v
write-WellFormed db (appends true p) v = insert_new-WellFormed db p _ refl v
write-WellFormed db (records io id c http body next now) v =
    record_attempt-WellFormed io db id c http body next now v
write-WellFormed db (unparks_difficulty false d) v = v
write-WellFormed db (unparks_difficulty true d) v =
    update-WellFormed db (requalifies d) repend (λ r. unfold repend in refl) pending-IsStored v
write-WellFormed db (unparks_xuni false n) v = v
write-WellFormed db (unparks_xuni true n) v =
    update-WellFormed _ _ reopen (λ r. unfold reopen in refl) reopen-IsStored
      (update-WellFormed db (exhausted n) bury (λ r. unfold bury in refl) bury-IsStored v)
write-WellFormed db (observes false d at) v = v
write-WellFormed db (observes true d at) v = record {
  stored = v.stored;
  ascending = v.ascending;
  distinct = v.distinct;
}

run-WellFormed_from : (ws : List Write) (db : Db) → WellFormed db → WellFormed (run db ws)
unfolding run
run-WellFormed_from [] db v = v
run-WellFormed_from (w ∷ ws) db v = run-WellFormed_from ws (write db w) (write-WellFormed db w v)

-- After any writes to a new journal its ids rise, no key stands twice, and each row's texts are
-- those of a kind and of a status, never `Submitting`.
pub run-WellFormed : (ws : List Write) → WellFormed (run empty ws)
run-WellFormed ws =
    run-WellFormed_from ws empty (record { stored = tt; ascending = tt; distinct = tt })
