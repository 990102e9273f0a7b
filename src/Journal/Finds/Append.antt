-- ===== src/Journal/Finds/Append.antt =====
-- `append`, and what is read back after it.
use tree_miner_amd.Prelude.{
  ℕ,
  ◌<◌,
  ◌≡◌,
  refl,
  inl,
  inr,
  Bool,
  true,
  false,
  none,
  some,
  List,
  [],
  ◌∷◌,
  ◌++◌,
  map,
  arith,
  ◌==◌,
  Bool-cases,
  Option-cases,
  if◌then◌else◌,
  Text.{Text, text_eq, text_eq_refl},
  Floats.{F64, zero_f64},
}
use tree_miner_amd.Core.Types.{
  FindStatus, FindKind, FoundPayload, FindRecord, status_as_str, kind_as_str,
}
use tree_miner_amd.Core.Types.Codec.{kind_parse-kind_as_str, status_parse-status_as_str}
use tree_miner_amd.Journal.Table.{
  is_nan, rate_or_null, rate_or_zero, Row, find_where, ok, ◌>>=◌, next_id, text_or_null, or_default,
  row_to_record, kind_from_str, status_from_str,
}
use tree_miner_amd.Journal.Finds.{
  Db, new_row, append, entry_status, insert_new, get_by_id, found_record,
}
use tree_miner_amd.Journal.Finds.Capture.{capture}
use tree_miner_amd.Journal.Finds.Shape.{WellFormed, Ascending}

find_where-append_none :
    (p : Row → Bool) (rs : List Row) (r : Row)
    → find_where p rs ≡ none
    → p r ≡ true
    → find_where p (rs ++ r ∷ []) ≡ some r
unfolding find_where
find_where-append_none p [] r e h = rw h
find_where-append_none p (x ∷ xs) r e h = elim (Bool-cases (p x)) [
  | inl hit ↦ ground arith
  | inr miss ↦ rw miss (find_where-append_none p xs r (ground arith) h)
]

next_id-gt : (last : ℕ) (rs : List Row) → Ascending last (map capture rs) → last < next_id last rs
unfolding next_id
next_id-gt last [] h = omega arith
next_id-gt last (x ∷ xs) h = omega (arith, next_id-gt x.id xs h.1, h.0)

new_id_unused :
    (last n : ℕ) (rs : List Row)
    → Ascending last (map capture rs)
    → next_id last rs ≡ n
    → find_where (λ x. x.id == n) rs ≡ none
unfolding find_where next_id
new_id_unused last n [] h e = refl
new_id_unused last n (x ∷ xs) h e =
    let differs : (x.id == n) ≡ false = ground (arith, next_id-gt x.id xs h.1) in
    rw differs (new_id_unused x.id n xs h.1 e)

or_default-text_or_null : (s : Text) → or_default (text_or_null s) ≡ s
unfolding or_default text_or_null
or_default-text_or_null [] = refl
or_default-text_or_null (c ∷ s) = refl

-- A payload as the columns of a row hold it.
abbrev pub as_stored : FoundPayload → FoundPayload
as_stored p = record p {
  hashes_per_second = if is_nan p.hashes_per_second then zero_f64 else p.hashes_per_second;
}

-- The record that a newly journaled payload reads back as.
abbrev pub fresh_record : ℕ → FoundPayload → FindRecord
fresh_record id p = record {
  id = id;
  payload = as_stored p;
  status = (entry_status p).0;
  status_reason = (entry_status p).1;
  attempt_count = 0;
  next_attempt_at = none;
  last_attempt_at = none;
  last_http_status = none;
  last_response = [];
  confirmed_at = none;
  xuni_windows_tried = 0;
}

pub kind_read : (k : FindKind) → kind_from_str (kind_as_str k) ≡ ok k
unfolding kind_from_str
kind_read k = rw (kind_parse-kind_as_str k, kind_from_str)

pub status_read : (s : FindStatus) → status_from_str (status_as_str s) ≡ ok s
unfolding status_from_str
status_read s = rw (status_parse-status_as_str s, status_from_str)

rate_or_zero-rate_or_null :
    (x : F64) → rate_or_zero (rate_or_null x) ≡ (if is_nan x then zero_f64 else x)
unfolding rate_or_null
rate_or_zero-rate_or_null x = elim (Bool-cases (is_nan x)) [ inl e ↦ rw e refl | inr e ↦ rw e refl ]

row_to_record-new_row :
    (id : ℕ) (p : FoundPayload) → row_to_record (new_row id p) ≡ ok (fresh_record id p)
unfolding row_to_record new_row
row_to_record-new_row id p =
    rw (kind_read p.kind, ◌>>=◌)
      (rw (status_read (entry_status p).0, ◌>>=◌)
        (rw
          (
            rate_or_zero-rate_or_null p.hashes_per_second,
            or_default-text_or_null p.worker,
            or_default-text_or_null (entry_status p).1,
          )
          (unfold or_default in refl)))

-- When `append` returns, a find with a new key can be read back under the id returned, with the
-- payload as captured, pending or written off on entry, and due at once. Only a rate that is not a
-- number reads back otherwise, as zero.
pub append_durable :
    (db : Db) (p : FoundPayload)
    → WellFormed db
    → find_where (λ r. text_eq r.key p.key) db.finds ≡ none
    → (id : ℕ) × ((append true db p).1 ≡ ok id)
      × (get_by_id true (append true db p).0 id ≡ ok (some (fresh_record id p)))
unfolding append get_by_id
append_durable db p v e =
    let id = next_id 0 db.finds in
    let same : ((new_row id p).id == id) ≡ true = unfold new_row in ground arith in
    let found =
      find_where-append_none (λ r. r.id == id) db.finds (new_row id p)
        (new_id_unused 0 id db.finds v.ascending refl) same in
    rw e (
      id,
      refl,
      unfold insert_new in rw found (unfold found_record in rw (row_to_record-new_row id p, ◌>>=◌)),
    )

-- A second capture with the key of the first, whatever else it holds, returns the id of the first
-- and leaves the journal as the first left it.
pub append_twice :
    (db : Db) (p p' : FoundPayload)
    → p'.key ≡ p.key
    → append true (append true db p).0 p' ≡ append true db p
unfolding append insert_new
append_twice db p p' k = elim (Option-cases (find_where (λ r. text_eq r.key p.key) db.finds)) [
  | inl e ↦
      let r = new_row (next_id 0 db.finds) p in
      let there =
        find_where-append_none (λ x. text_eq x.key p.key) db.finds r e
          (unfold new_row in text_eq_refl p.key) in
      rw (e, k) (rw (there) (unfold new_row in refl))
  | inr (r, e) ↦ rw (e, k) (rw e)
]
