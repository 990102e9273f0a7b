-- ===== src/Journal/Finds.antt =====
-- treeminer-rs/crates/tm-journal/src/journal.rs: the operations of `FindJournal`.
-- Each takes what SQLite answers: `true` if it carries the statements out, `false` if one of them
-- fails, upon which the transaction is rolled back. The lock makes the operations atomic.
pub mod Capture
pub mod Shape
pub mod Unpark
pub mod Budget
pub mod Reopenings
pub mod Fetch
pub mod Append
pub mod Keys
use tree_miner_amd.Prelude.{
  ℕ,
  zero,
  suc,
  ◌+◌,
  Bool,
  true,
  false,
  not,
  ◌&&◌,
  ◌||◌,
  Option,
  none,
  some,
  List,
  [],
  ◌∷◌,
  ◌++◌,
  ltb,
  leb,
  ◌==◌,
  if◌then◌else◌,
  is_empty,
  length,
  take,
  filter_by,
  Text.{Text, codes, text_eq, decimal},
}
use tree_miner_amd.Core.Types.{
  FindKind, FindStatus, xen11, xuni, kind_as_str, status_as_str, FoundPayload, FindRecord,
  Classification,
}
use tree_miner_amd.Journal.Table.{
  rate_or_null, Row, JournalError, Result, ok, err, ◌>>=◌, update_where, count_where, find_where,
  next_id, has_status, has_kind, is_due, text_or_null, status_from_str, kind_from_str,
  row_to_record,
}

pub record Db : Type 0 where
  pub finds : List Row
  -- Newest first: (at, value).
  pub difficulty_seen : List (Text × ℕ)

abbrev pub empty : Db
empty = record { finds = []; difficulty_seen = [] }

abbrev pub max_hash_to_verify_length : ℕ
max_hash_to_verify_length = 150

-- A call that SQLite fails changes nothing.
abbrev pub attempt {ℓ} : {A : Type ℓ} → Bool → Text → Db → Db × Result A → Db × Result A
attempt true what db done = done
attempt false what db done = (db, err (JournalError.sqlite what))

-- The status and reason that a payload is journaled under.
unfoldable pub entry_status : FoundPayload → FindStatus × Text
entry_status p =
    if ltb max_hash_to_verify_length (length p.hash_to_verify)
    then (
      FindStatus.permanently_invalid,
      codes "hash_to_verify length "
          ++ (decimal (length p.hash_to_verify)
              ++ (codes " exceeds server limit of " ++ decimal max_hash_to_verify_length)),
    )
    else if is_empty p.account
    then (FindStatus.permanently_invalid, codes "account is empty")
    else (FindStatus.pending, [])

unfoldable pub new_row : ℕ → FoundPayload → Row
new_row id p = record {
  id = id;
  key = p.key;
  hash_to_verify = p.hash_to_verify;
  account = p.account;
  kind = kind_as_str p.kind;
  m = p.memory_cost;
  worker = text_or_null p.worker;
  attempts = p.attempts;
  hashes_per_second = rate_or_null p.hashes_per_second;
  found_at = p.found_at_utc;
  status = status_as_str (entry_status p).0;
  status_reason = text_or_null (entry_status p).1;
  attempt_count = 0;
  next_attempt_at = none;
  last_attempt_at = none;
  last_http_status = none;
  last_response = none;
  confirmed_at = none;
  xuni_windows_tried = 0;
}

-- INSERT ... ON CONFLICT(key) DO NOTHING, then the id of the row with the key.
unfoldable pub insert_new : Db → FoundPayload → Option Row → Db × Result ℕ
insert_new db p (some r) = (db, ok r.id)
insert_new db p none =
    let id = next_id 0 db.finds in (record db { finds = db.finds ++ new_row id p ∷ [] }, ok id)

unfoldable pub append : Bool → Db → FoundPayload → Db × Result ℕ
unfolding insert_new
append io db p =
    attempt io (codes "insert find") db
      (insert_new db p (find_where (λ r. text_eq r.key p.key) db.finds))

unfoldable pub collect : List Row → Result (List FindRecord)
collect [] = ok []
collect (r ∷ rs) = do x ← row_to_record r; xs ← collect rs; ok (x ∷ xs)

unfoldable pub fetch_by_status : Text → Option Text → Db → Text → ℕ → Result (List FindRecord)
fetch_by_status status kind db now_utc limit = collect (
    take limit (
      filter_by (λ r. has_status status r && has_kind kind r && is_due now_utc r.next_attempt_at)
        db.finds))

abbrev pub read {ℓ} : {A : Type ℓ} → Bool → Text → Result A → Result A
read true what r = r
read false what r = err (JournalError.sqlite what)

unfoldable pub fetch_eligible : Bool → Db → Text → ℕ → Result (List FindRecord)
fetch_eligible io db now_utc limit =
    read io (codes "query fetch") (fetch_by_status (codes "Pending") none db now_utc limit)

unfoldable pub fetch_eligible_of_kind : Bool → Db → FindKind → Text → ℕ → Result (List FindRecord)
fetch_eligible_of_kind io db kind now_utc limit =
    read io (codes "query fetch")
      (fetch_by_status (codes "Pending") (some (kind_as_str kind)) db now_utc limit)

unfoldable pub fetch_awaiting_confirmation : Bool → Db → Text → ℕ → Result (List FindRecord)
fetch_awaiting_confirmation io db now_utc limit =
    read io (codes "query fetch")
      (fetch_by_status (codes "AcceptedUnconfirmed") none db now_utc limit)

found_record : Option Row → Result (Option FindRecord)
found_record none = ok none
found_record (some r) = do x ← row_to_record r; ok (some x)

unfoldable pub get_by_id : Bool → Db → ℕ → Result (Option FindRecord)
unfolding found_record
get_by_id io db id =
    read io (codes "query getById") (found_record (find_where (λ r. r.id == id) db.finds))

abbrev pub is_submitting : FindStatus → Bool
is_submitting FindStatus.submitting = true
is_submitting _ = false

-- COALESCE(a, b)
abbrev pub coalesce : Option Text → Text → Option Text
coalesce (some a) b = some a
coalesce none b = some b

submitting_refused : Text
submitting_refused =
    codes "record_attempt with status Submitting "
    ++ (0xe2 ∷ 0x80 ∷ 0x94 ∷ codes " that state is in-process only and must never be persisted")

-- The SET clause of `record_attempt`.
unfoldable pub attempted : Classification → Option ℕ → Text → Option Text → Text → Row → Row
attempted c http_status response_body next_attempt_at now_utc r = record r {
  status = status_as_str c.next_status;
  status_reason = text_or_null c.reason;
  attempt_count = r.attempt_count + 1;
  last_attempt_at = some now_utc;
  last_http_status = http_status;
  last_response = some response_body;
  next_attempt_at = next_attempt_at;
  confirmed_at =
      if text_eq (status_as_str c.next_status) (codes "Acked")
      then coalesce r.confirmed_at now_utc
      else r.confirmed_at;
}

-- UPDATE finds SET ... WHERE id = ?7, by the number of rows changed.
update_attempt : Db → ℕ → (Row → Row) → ℕ → Db × Result (Unit {0})
update_attempt db id set zero =
    (db, err (JournalError.contract (codes "record_attempt for unknown find id " ++ decimal id)))
update_attempt db id set (suc changed) =
    (record db { finds = update_where (λ r. r.id == id) set db.finds }, ok tt)

unfoldable pub record_attempt :
    Bool → Db → ℕ → Classification → Option ℕ → Text → Option Text → Text → Db × Result (Unit {0})
unfolding submitting_refused update_attempt
record_attempt io db id c http_status response_body next_attempt_at now_utc =
    if is_submitting c.next_status
    then (db, err (JournalError.contract submitting_refused))
    else attempt io (codes "record attempt") db (
        update_attempt db id (attempted c http_status response_body next_attempt_at now_utc)
          (count_where (λ r. r.id == id) db.finds))

-- Parked for a difficulty that is no higher than the row's memory cost.
unfoldable pub requalifies : ℕ → Row → Bool
requalifies difficulty r = has_status (codes "ParkedDifficulty") r && leb difficulty r.m

unfoldable pub repend : Row → Row
repend r = record r { status = codes "Pending"; next_attempt_at = none }

unfoldable pub unpark_for_difficulty : Bool → Db → ℕ → Db × Result ℕ
unpark_for_difficulty io db current_difficulty = attempt io (codes "unpark for difficulty") db (
  record db { finds = update_where (requalifies current_difficulty) repend db.finds },
  ok (count_where (requalifies current_difficulty) db.finds),
)

unfoldable pub exhausted : ℕ → Row → Bool
exhausted max_windows r =
    has_status (codes "ParkedXuniWindow") r && leb max_windows r.xuni_windows_tried

unfoldable pub bury : Row → Row
bury r = record r {
  status = codes "Dead";
  status_reason = some (codes "xuni window budget exhausted");
  next_attempt_at = none;
}

unfoldable pub reopen : Row → Row
reopen r = record r {
  status = codes "Pending";
  xuni_windows_tried = r.xuni_windows_tried + 1;
  next_attempt_at = none;
}

unfoldable pub unpark_xuni_for_window : Bool → Db → ℕ → Db × Result ℕ
unpark_xuni_for_window io db max_windows =
    let rows = update_where (exhausted max_windows) bury db.finds in
    attempt io (codes "unpark xuni") db (
      record db { finds = update_where (has_status (codes "ParkedXuniWindow")) reopen rows },
      ok (count_where (has_status (codes "ParkedXuniWindow")) rows),
    )

unfoldable pub record_difficulty : Bool → Db → ℕ → Text → Db × Result (Unit {0})
record_difficulty io db difficulty at_utc =
    attempt io (codes "record difficulty") db
      (record db { difficulty_seen = (at_utc, difficulty) ∷ db.difficulty_seen }, ok tt)

abbrev latest : List (Text × ℕ) → Option ℕ
latest [] = none
latest ((at, value) ∷ rest) = some value

unfoldable pub last_known_difficulty : Bool → Db → Result (Option ℕ)
last_known_difficulty io db =
    read io (codes "last known difficulty") (ok (latest db.difficulty_seen))

-- A call of an operation that writes, with SQLite's answer first.
pub data Write : Type 0 where
  appends : Bool → FoundPayload → Write
  records : Bool → ℕ → Classification → Option ℕ → Text → Option Text → Text → Write
  unparks_difficulty unparks_xuni : Bool → ℕ → Write
  observes : Bool → ℕ → Text → Write

unfoldable pub write : Db → Write → Db
write db (appends io p) = (append io db p).0
write db (records io id c http body next now) = (record_attempt io db id c http body next now).0
write db (unparks_difficulty io d) = (unpark_for_difficulty io db d).0
write db (unparks_xuni io max_windows) = (unpark_xuni_for_window io db max_windows).0
write db (observes io d at) = (record_difficulty io db d at).0

unfoldable pub run : Db → List Write → Db
run db [] = db
run db (w ∷ ws) = run (write db w) ws
