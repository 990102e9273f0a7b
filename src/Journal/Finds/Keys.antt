-- ===== src/Journal/Finds/Keys.antt =====
-- Keys in the journal: none is lost by an append, and the appended one is there.
use tree_miner_amd.Prelude.{
  ℕ,
  ◌≡◌,
  refl,
  inl,
  inr,
  Bool,
  true,
  false,
  Option,
  none,
  some,
  List,
  [],
  ◌∷◌,
  ◌++◌,
  arith,
  Bool-cases,
  Text.{Text, text_eq, text_eq_refl},
}
use tree_miner_amd.Core.Types.{FoundPayload}
use tree_miner_amd.Journal.Table.{Row, find_where, Result, ok, err}
use tree_miner_amd.Journal.Finds.{Db, append, insert_new, new_row}

-- The journal has a find with this key.
abbrev pub HasKey : Text → Db → Type 0
HasKey key db = (r : Row) × (find_where (λ x. text_eq x.key key) db.finds ≡ some r)

found_stays :
    (p : Row → Bool) (rs : List Row) (new r : Row)
    → find_where p rs ≡ some r
    → find_where p (rs ++ new ∷ []) ≡ some r
unfolding find_where
found_stays p [] new r e = cc
found_stays p (x ∷ xs) new r e = elim (Bool-cases (p x)) [
  | inl hit ↦ ground arith
  | inr miss ↦ rw miss (found_stays p xs new r (ground arith))
]

last_found :
    (p : Row → Bool) (rs : List Row) (new : Row)
    → p new ≡ true
    → (r : Row) × (find_where p (rs ++ new ∷ []) ≡ some r)
unfolding find_where
last_found p [] new h = (new, rw h)
last_found p (x ∷ xs) new h = elim (Bool-cases (p x)) [
  | inl hit ↦ (x, rw hit)
  | inr miss ↦ let (r, e) = last_found p xs new h in (r, rw miss e)
]

-- The outcome of an append: a journal that keeps its keys, and has that of the payload on success.
abbrev pub Appended : Db → FoundPayload → Db × Result ℕ → Type 0
Appended db p (db', ok id) = HasKey p.key db'
Appended db p (db', err e) = Unit

insert_keeps :
    (key : Text) (db : Db) (p : FoundPayload) (o : Option Row)
    → HasKey key db
    → HasKey key (insert_new db p o).0
unfolding insert_new
insert_keeps key db p (some r) k = k
insert_keeps key db p none (r, e) = (r, found_stays (λ x. text_eq x.key key) db.finds _ r e)

pub append_keeps :
    (io : Bool) (key : Text) (db : Db) (p : FoundPayload)
    → HasKey key db
    → HasKey key (append io db p).0
unfolding append
append_keeps true key db p k =
    insert_keeps key db p (find_where (λ r. text_eq r.key p.key) db.finds) k
append_keeps false key db p k = k

pub append_takes : (io : Bool) (db : Db) (p : FoundPayload) → Appended db p (append io db p)
unfolding append new_row
append_takes false db p = tt
append_takes true db p = by_found (find_where (λ r. text_eq r.key p.key) db.finds) refl
  where
    by_found :
        (o : Option Row)
        → find_where (λ r. text_eq r.key p.key) db.finds ≡ o
        → Appended db p (insert_new db p o)
    by_found (some r) e = (r, e)
    by_found none e = last_found (λ r. text_eq r.key p.key) db.finds _ (text_eq_refl p.key)
