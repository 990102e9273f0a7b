-- ===== src/Journal/Finds/Fetch.antt =====
-- What the fetches of the drain loop return.
use tree_miner_amd.Prelude.{
  ℕ,
  zero,
  suc,
  ◌≡◌,
  refl,
  sym,
  ap,
  ◌∙◌,
  Bool,
  true,
  Option,
  none,
  some,
  List,
  [],
  ◌∷◌,
  arith,
  ◌&&◌,
  All,
  All-take,
  All-filter_by,
  filter_by-All,
  filter_by,
  take,
  length,
  min,
  Text.{Text, text_eq_iff, codes},
}
use tree_miner_amd.Core.Types.{
  FindStatus, FindKind, FindRecord, pending, accepted_unconfirmed, status_as_str, kind_as_str,
  status_parse, kind_parse,
}
use tree_miner_amd.Core.Types.Codec.{kind_parse-kind_as_str, status_parse-status_as_str}
use tree_miner_amd.Journal.Table.{
  Row, count_where, ok, ◌>>=◌, has_status, has_kind, is_due, row_to_record, record_of,
}
use tree_miner_amd.Journal.Finds.{
  Db, collect, fetch_by_status, fetch_eligible_of_kind, fetch_awaiting_confirmation,
}
use tree_miner_amd.Journal.Finds.Shape.{WellFormed, IsStored}
use tree_miner_amd.Journal.Finds.Append.{kind_read, status_read}

-- Why a record was fetched: its status, its kind and its due time.
abbrev pub IsWanted : FindStatus → Option FindKind → Text → FindRecord → Type 0
IsWanted s none now x = (x.status ≡ s) × (is_due now x.next_attempt_at ≡ true)
IsWanted s (some k) now x =
    (x.status ≡ s) × (is_due now x.next_attempt_at ≡ true) × (x.payload.kind ≡ k)

kind_text : Option FindKind → Option Text
kind_text none = none
kind_text (some k) = some (kind_as_str k)

-- The test of the WHERE clause.
abbrev wanted : FindStatus → Option FindKind → Text → Row → Bool
wanted s k now r =
    has_status (status_as_str s) r && has_kind (kind_text k) r && is_due now r.next_attempt_at

status_as_str-injective : (s t : FindStatus) → status_as_str s ≡ status_as_str t → s ≡ t
status_as_str-injective s t e =
    cc (status_parse-status_as_str s, status_parse-status_as_str t, ap status_parse e)

kind_as_str-injective : (k l : FindKind) → kind_as_str k ≡ kind_as_str l → k ≡ l
kind_as_str-injective k l e =
    cc (kind_parse-kind_as_str k, kind_parse-kind_as_str l, ap kind_parse e)

row_to_record-stored :
    (r : Row) (l : FindKind) (t : FindStatus)
    → r.kind ≡ kind_as_str l
    → r.status ≡ status_as_str t
    → row_to_record r ≡ ok (record_of r l t)
unfolding row_to_record
row_to_record-stored r l t kd st =
    rw (kd) (rw (kind_read l, ◌>>=◌) (rw st (rw (status_read t, ◌>>=◌))))

has_status-eq :
    (r : Row) (s t : FindStatus)
    → r.status ≡ status_as_str t
    → has_status (status_as_str s) r ≡ true
    → t ≡ s
has_status-eq r s t e h =
    status_as_str-injective t s (sym e ∙ (text_eq_iff r.status (status_as_str s)).0 h)

has_kind-eq :
    (r : Row) (k l : FindKind)
    → r.kind ≡ kind_as_str l
    → has_kind (some (kind_as_str k)) r ≡ true
    → l ≡ k
unfolding has_kind
has_kind-eq r k l e h = kind_as_str-injective l k (sym e ∙ (text_eq_iff r.kind (kind_as_str k)).0 h)

-- A stored row is read, and what is wanted of the row holds of the record.
read_row :
    (s : FindStatus) (k : Option FindKind) (now : Text) (r : Row)
    → IsStored r
    → wanted s k now r ≡ true
    → (x : FindRecord) × (row_to_record r ≡ ok x) × IsWanted s k now x × (x.id ≡ r.id)
unfolding kind_text
read_row s none now r ((t, st, _), (l, kd)) w = (
  record_of r l t,
  row_to_record-stored r l t kd st,
  (has_status-eq r s t st (ground arith), ground arith),
  refl,
)
read_row s (some k) now r ((t, st, _), (l, kd)) w = (
  record_of r l t,
  row_to_record-stored r l t kd st,
  (has_status-eq r s t st (ground arith), ground arith, has_kind-eq r k l kd (ground arith)),
  refl,
)

-- The result of a fetch that cannot fail: as many records as rows, each as wanted.
abbrev Collected : FindStatus → Option FindKind → Text → List Row → Type 0
Collected s k now rs =
    (xs : List FindRecord) × (collect rs ≡ ok xs)
    × All (IsWanted s k now) xs
    × (length xs ≡ length rs)

collect-Collected :
    (s : FindStatus) (k : Option FindKind) (now : Text) (rs : List Row)
    → All IsStored rs
    → All (λ r. wanted s k now r ≡ true) rs
    → Collected s k now rs
unfolding collect
collect-Collected s k now [] h w = ([], refl, tt, refl)
collect-Collected s k now (r ∷ rs) h w =
    let (x, read, fits, _) = read_row s k now r h.0 w.0 in
    let (xs, rest, all, len) = collect-Collected s k now rs h.1 w.1 in
    (x ∷ xs, rw (read, ◌>>=◌) (rw (rest, ◌>>=◌)), (fits, all), omega (arith, len))

length-filter_by : (p : Row → Bool) (rs : List Row) → length (filter_by p rs) ≡ count_where p rs
unfolding count_where
length-filter_by p [] = refl
length-filter_by p (r ∷ rs) = ground (arith, length-filter_by p rs)

length-take-min : (n : ℕ) (rs : List Row) → length (take n rs) ≡ min n (length rs)
length-take-min zero rs = omega arith
length-take-min (suc n) [] = omega arith
length-take-min (suc n) (r ∷ rs) = omega (arith, length-take-min n rs)

fetch-Collected :
    (s : FindStatus) (k : Option FindKind) (db : Db) (now : Text) (limit : ℕ)
    → WellFormed db
    → (xs : List FindRecord) × (fetch_by_status (status_as_str s) (kind_text k) db now limit
        ≡ ok xs)
      × All (IsWanted s k now) xs
      × (length xs ≡ min limit (count_where (wanted s k now) db.finds))
unfolding fetch_by_status
fetch-Collected s k db now limit v =
    let (xs, e, all, len) =
      collect-Collected s k now (take limit (filter_by (wanted s k now) db.finds))
        (All-take IsStored limit _ (All-filter_by IsStored (wanted s k now) db.finds v.stored))
        (All-take _ limit _ (filter_by-All (wanted s k now) db.finds)) in
    (
      xs,
      e,
      all,
      omega (
        arith,
        len,
        length-take-min limit (filter_by (wanted s k now) db.finds),
        length-filter_by (wanted s k now) db.finds,
      ),
    )

-- On a well-formed journal a fetch of one kind succeeds; every record returned is pending, due and
-- of the kind, and there are as many as there are such rows, up to the limit: neither kind can
-- crowd the other out.
pub fetch_eligible_of_kind_complete :
    (db : Db) (kind : FindKind) (now : Text) (limit : ℕ)
    → WellFormed db
    → (xs : List FindRecord) × (fetch_eligible_of_kind true db kind now limit ≡ ok xs)
      × All (IsWanted pending (some kind) now) xs
      × (length xs
          ≡ min limit (
              count_where
                (λ r.
                  has_status (codes "Pending") r
                  && has_kind (some (kind_as_str kind)) r
                  && is_due now r.next_attempt_at)
                db.finds))
unfolding fetch_eligible_of_kind kind_text status_as_str
fetch_eligible_of_kind_complete db kind now limit v =
    fetch-Collected pending (some kind) db now limit v

-- The same of the finds that await their confirmation, of either kind.
pub fetch_awaiting_confirmation_complete :
    (db : Db) (now : Text) (limit : ℕ)
    → WellFormed db
    → (xs : List FindRecord) × (fetch_awaiting_confirmation true db now limit ≡ ok xs)
      × All (IsWanted accepted_unconfirmed none now) xs
      × (length xs
          ≡ min limit (
              count_where
                (λ r.
                  has_status (codes "AcceptedUnconfirmed") r
                  && has_kind none r
                  && is_due now r.next_attempt_at)
                db.finds))
unfolding fetch_awaiting_confirmation kind_text status_as_str
fetch_awaiting_confirmation_complete db now limit v =
    fetch-Collected accepted_unconfirmed none db now limit v
