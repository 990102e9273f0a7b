-- ===== src/Journal/Finds/Capture.antt =====
-- What a find was when it was found, in the journal.
use mathlib.Core.List.{append-nil, append_assoc, map-append}
use tree_miner_amd.Prelude.{
  ℕ,
  ◌≡◌,
  refl,
  sym,
  ap,
  ◌∙◌,
  inl,
  inr,
  Bool,
  true,
  false,
  Option,
  none,
  some,
  List,
  [],
  ◌∷◌,
  ◌++◌,
  map,
  if◌then◌else◌,
  Bool-cases,
  ◌==◌,
  zero,
  suc,
  Text.{Text, codes},
  Floats.{F64},
}
use tree_miner_amd.Core.Types.{FoundPayload, Classification}
use tree_miner_amd.Journal.Table.{Row, update_where, count_where, Result, next_id}
use tree_miner_amd.Journal.Finds.{
  Db, Write, appends, records, unparks_difficulty, unparks_xuni, observes, new_row, append,
  insert_new, attempt, is_submitting, update_attempt, attempted, record_attempt, repend,
  unpark_for_difficulty, bury, reopen, unpark_xuni_for_window, record_difficulty, write, run,
}

-- The columns that are written once.
pub record Captured : Type 0 where
  pub id : ℕ
  pub key : Text
  pub hash_to_verify : Text
  pub account : Text
  pub kind : Text
  pub m : ℕ
  pub worker : Option Text
  pub attempts : ℕ
  pub hashes_per_second : Option F64
  pub found_at : Text

abbrev pub capture : Row → Captured
capture r = record {
  id = r.id;
  key = r.key;
  hash_to_verify = r.hash_to_verify;
  account = r.account;
  kind = r.kind;
  m = r.m;
  worker = r.worker;
  attempts = r.attempts;
  hashes_per_second = r.hashes_per_second;
  found_at = r.found_at;
}

abbrev pub captures : Db → List Captured
captures db = map capture db.finds

pub capture-update_where :
    (p : Row → Bool) (f : Row → Row) (rs : List Row)
    → ((r : Row) → capture (f r) ≡ capture r)
    → map capture (update_where p f rs) ≡ map capture rs
unfolding update_where
capture-update_where p f [] same = refl
capture-update_where p f (r ∷ rs) same = λ i. head i ∷ capture-update_where p f rs same i
  where
    head : capture (if p r then f r else r) ≡ capture r
    head = elim (Bool-cases (p r)) [ inl e ↦ rw e (same r) | inr e ↦ rw e ]

-- What one write adds to the captures: nothing, or the new find at the end.
abbrev Extends : List Captured → List Captured → Type 0
Extends cs ds = (extra : List Captured) × (ds ≡ cs ++ extra)

same-Extends : (cs ds : List Captured) → ds ≡ cs → Extends cs ds
same-Extends cs ds e = ([], e ∙ sym (append-nil cs))

insert_new-Extends :
    (db : Db) (p : FoundPayload) (o : Option Row)
    → Extends (captures db) (captures (insert_new db p o).0)
unfolding insert_new
insert_new-Extends db p (some r) = same-Extends _ _ refl
insert_new-Extends db p none =
    (capture (new_row (next_id 0 db.finds) p) ∷ [], map-append capture db.finds _)

update_attempt-captures :
    (db : Db) (id n : ℕ) (set : Row → Row)
    → ((r : Row) → capture (set r) ≡ capture r)
    → captures (update_attempt db id set n).0 ≡ captures db
unfolding update_attempt
update_attempt-captures db id zero set same = refl
update_attempt-captures db id (suc n) set same = capture-update_where _ set db.finds same

pub record_attempt-captures :
    (io : Bool) (db : Db) (id : ℕ) (c : Classification) (http : Option ℕ) (body : Text)
    (next : Option Text) (now : Text)
    → captures (record_attempt io db id c http body next now).0 ≡ captures db
unfolding record_attempt attempted
record_attempt-captures io db id c http body next now =
    elim (Bool-cases (is_submitting c.next_status)) [ inl e ↦ rw e | inr e ↦ rw e (by_answer io) ]
  where
    done : Db × Result (Unit {0})
    done =
        update_attempt db id (attempted c http body next now)
          (count_where (λ r. r.id == id) db.finds)

    by_answer : (b : Bool) → captures (attempt b (codes "record attempt") db done).0 ≡ captures db
    by_answer true = update_attempt-captures db id _ _ (λ r. refl)
    by_answer false = refl

write-Extends : (db : Db) (w : Write) → Extends (captures db) (captures (write db w))
unfolding write append record_attempt unpark_for_difficulty unpark_xuni_for_window record_difficulty
    attempted repend bury reopen
write-Extends db (appends false p) = same-Extends _ _ refl
write-Extends db (appends true p) = insert_new-Extends db p _
write-Extends db (records io id c http body next now) =
    same-Extends _ _ (record_attempt-captures io db id c http body next now)
write-Extends db (unparks_difficulty false d) = same-Extends _ _ refl
write-Extends db (unparks_difficulty true d) =
    same-Extends _ _ (capture-update_where _ _ db.finds (λ r. refl))
write-Extends db (unparks_xuni false max_windows) = same-Extends _ _ refl
write-Extends db (unparks_xuni true max_windows) =
    same-Extends _ _
      (capture-update_where _ _ _ (λ r. refl) ∙ capture-update_where _ _ db.finds (λ r. refl))
write-Extends db (observes false d at) = same-Extends _ _ refl
write-Extends db (observes true d at) = same-Extends _ _ refl

-- After any writes, failing or not, every find captured before is still there with the same
-- columns, in the same order, and new ones follow.
pub run_keeps_captures :
    (ws : List Write) (db : Db)
    → (extra : List Captured) × (captures (run db ws) ≡ captures db ++ extra)
unfolding run
run_keeps_captures [] db = same-Extends _ _ refl
run_keeps_captures (w ∷ ws) db =
    let (now, e) = write-Extends db w in
    let (later, f) = run_keeps_captures ws (write db w) in
    (now ++ later, f ∙ ap (λ cs. cs ++ later) e ∙ append_assoc (captures db) now later)
