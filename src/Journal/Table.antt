-- ===== src/Journal/Table.antt =====
-- The `finds` table of treeminer-rs/crates/tm-journal/src/journal.rs: its rows, the statements that
-- change them and the reading of a row. A table is the list of its rows in the order of `id`, in
-- which every statement visits them; a row is never deleted, so a new one comes last.
use tree_miner_amd.Prelude.{
  ℕ,
  suc,
  Bool,
  true,
  Option,
  none,
  some,
  List,
  [],
  ◌∷◌,
  ◌++◌,
  if◌then◌else◌,
  is_empty,
  Text.{Text, codes, text_eq, text_le},
  ltb,
  ◌%◌,
  ◌^◌,
  Floats.{F64, infinity, zero_f64},
}
use tree_miner_amd.Core.Types.{FindKind, FindStatus, kind_parse, status_parse, FindRecord}

pub data JournalError : Type 0 where
  sqlite schema contract : Text → JournalError

pub data Result {ℓ} (A : Type ℓ) : Type ℓ where
  ok : A → Result A
  err : JournalError → Result A

infixl 5 ◌>>=◌
abbrev pub ◌>>=◌ {ℓ κ} : {A : Type ℓ} {B : Type κ} → Result A → (A → Result B) → Result B
ok a >>= f = f a
err e >>= f = err e

-- One column each; a nullable column that the code binds as NULL is an `Option`.
pub record Row : Type 0 where
  pub id : ℕ
  pub key : Text
  pub hash_to_verify : Text
  pub account : Text
  pub kind : Text
  pub m : ℕ
  pub worker : Option Text
  pub attempts : ℕ
  pub hashes_per_second : Option F64
  pub found_at : Text
  pub status : Text
  pub status_reason : Option Text
  pub attempt_count : ℕ
  pub next_attempt_at : Option Text
  pub last_attempt_at : Option Text
  pub last_http_status : Option ℕ
  pub last_response : Option Text
  pub confirmed_at : Option Text
  pub xuni_windows_tried : ℕ

-- UPDATE finds SET f WHERE p, and the number of rows changed.
unfoldable pub update_where : (Row → Bool) → (Row → Row) → List Row → List Row
update_where p f [] = []
update_where p f (r ∷ rs) = (if p r then f r else r) ∷ update_where p f rs

unfoldable pub count_where : (Row → Bool) → List Row → ℕ
count_where p [] = 0
count_where p (r ∷ rs) = if p r then suc (count_where p rs) else count_where p rs

-- SELECT ... WHERE p, the first row only.
unfoldable pub find_where : (Row → Bool) → List Row → Option Row
find_where p [] = none
find_where p (r ∷ rs) = if p r then some r else find_where p rs

-- The id of a new row: one more than the largest, which is the last row's.
unfoldable pub next_id : ℕ → List Row → ℕ
next_id last [] = suc last
next_id last (r ∷ rs) = next_id r.id rs

-- `status = '...'`, `next_attempt_at IS NULL OR next_attempt_at <= ?1`, `kind = '...'` or no clause.
abbrev pub has_status : Text → Row → Bool
has_status s r = text_eq r.status s

unfoldable pub is_due : Text → Option Text → Bool
is_due now none = true
is_due now (some t) = text_le t now

unfoldable pub has_kind : Option Text → Row → Bool
has_kind none r = true
has_kind (some k) r = text_eq r.kind k

-- text_or_null, and the `unwrap_or_default` of a text column.
unfoldable pub text_or_null : Text → Option Text
text_or_null s = if is_empty s then none else some s

unfoldable pub or_default : Option Text → Text
or_default none = []
or_default (some s) = s

unfoldable pub status_from_str : Text → Result FindStatus
status_from_str text = elim (status_parse text) [
  | some s ↦ ok s
  | none ↦
      err
        (JournalError.schema (codes "unknown status string in database: '" ++ (text ++ codes "'")))
]

unfoldable pub kind_from_str : Text → Result FindKind
kind_from_str text = elim (kind_parse text) [
  | some k ↦ ok k
  | none ↦
      err (JournalError.schema (codes "unknown kind string in database: '" ++ (text ++ codes "'")))
]

-- SQLite stores a NaN as NULL: a pattern above that of an infinity, its sign left out.
abbrev pub is_nan : F64 → Bool
is_nan x = ltb infinity (x % 2 ^ 63)

unfoldable pub rate_or_null : F64 → Option F64
rate_or_null x = if is_nan x then none else some x

abbrev pub rate_or_zero : Option F64 → F64
rate_or_zero none = zero_f64
rate_or_zero (some x) = x

-- The record of a row whose kind and status have been read.
abbrev pub record_of : Row → FindKind → FindStatus → FindRecord
record_of r kind status = record {
  id = r.id;
  payload = record {
    key = r.key;
    hash_to_verify = r.hash_to_verify;
    account = r.account;
    kind = kind;
    memory_cost = r.m;
    worker = or_default r.worker;
    attempts = r.attempts;
    hashes_per_second = rate_or_zero r.hashes_per_second;
    found_at_utc = r.found_at;
  };
  status = status;
  status_reason = or_default r.status_reason;
  attempt_count = r.attempt_count;
  next_attempt_at = r.next_attempt_at;
  last_attempt_at = r.last_attempt_at;
  last_http_status = r.last_http_status;
  last_response = or_default r.last_response;
  confirmed_at = r.confirmed_at;
  xuni_windows_tried = r.xuni_windows_tried;
}

unfoldable pub row_to_record : Row → Result FindRecord
row_to_record r = do
  kind ← kind_from_str r.kind
  status ← status_from_str r.status
  ok (record_of r kind status)
