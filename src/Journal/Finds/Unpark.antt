-- ===== src/Journal/Finds/Unpark.antt =====
-- How parked finds come back.
use tree_miner_amd.Prelude.{
  ℕ,
  ◌+◌,
  ◌≡◌,
  refl,
  Bool,
  true,
  false,
  List,
  [],
  ◌∷◌,
  arith,
  if◌then◌else◌,
  All,
  Text.{Text, text_eq, text_eq_iff, text_eq_refl, codes},
}
use tree_miner_amd.Journal.Table.{Row, update_where, count_where, has_status, ok}
use tree_miner_amd.Journal.Finds.{
  Db, requalifies, repend, unpark_for_difficulty, reopen, unpark_xuni_for_window,
}

-- A row matches one status text only.
two_statuses :
    (r : Row) (s t : Text) → text_eq s t ≡ false → has_status s r ≡ true → has_status t r ≡ false
two_statuses r s t ne h =
    ground (arith, text_eq_iff r.status s, text_eq_iff r.status t, text_eq_iff s t)

-- After an update that takes every matching row out of the match, none is left.
none_left :
    (p : Row → Bool) (f : Row → Row) (rs : List Row)
    → ((r : Row) → p (f r) ≡ false)
    → All (λ r. p r ≡ false) (update_where p f rs)
unfolding update_where
none_left p f [] out = tt
none_left p f (r ∷ rs) out = (head (p r) refl, none_left p f rs out)
  where
    head : (b : Bool) → p r ≡ b → p (if b then f r else r) ≡ false
    head true e = out r
    head false e = e

-- An update that brings each matching row, and no other, into the match `q`.
count_gain :
    (p q : Row → Bool) (f : Row → Row) (rs : List Row)
    → ((r : Row) → p r ≡ true → (q r ≡ false) × (q (f r) ≡ true))
    → count_where q (update_where p f rs) ≡ count_where q rs + count_where p rs
unfolding update_where count_where
count_gain p q f [] gain = refl
count_gain p q f (r ∷ rs) gain = ground (arith, gain r, count_gain p q f rs gain)

repend_out : (d : ℕ) (r : Row) → requalifies d (repend r) ≡ false
unfolding requalifies repend text_eq
repend_out d r = refl

requalifies_gain :
    (d : ℕ) (r : Row)
    → requalifies d r ≡ true
    → (has_status (codes "Pending") r ≡ false) × (has_status (codes "Pending") (repend r) ≡ true)
unfolding requalifies repend
requalifies_gain d r h = (
  two_statuses r (codes "ParkedDifficulty") (codes "Pending") (unfold text_eq in refl)
      (ground arith),
  text_eq_refl (codes "Pending"),
)

-- A carried-out `unpark_for_difficulty` leaves no parked find that the difficulty admits, and the
-- number it returns is the number of finds that became pending.
pub unpark_for_difficulty_complete :
    (db : Db) (d : ℕ)
    → let (db', n) = unpark_for_difficulty true db d in
      All (λ r. requalifies d r ≡ false) db'.finds
      × (n ≡ ok (count_where (requalifies d) db.finds))
      × (count_where (has_status (codes "Pending")) db'.finds
          ≡ count_where (has_status (codes "Pending")) db.finds
            + count_where (requalifies d) db.finds)
unfolding unpark_for_difficulty
unpark_for_difficulty_complete db d = (
  none_left (requalifies d) repend db.finds (repend_out d),
  refl,
  count_gain (requalifies d) (has_status (codes "Pending")) repend db.finds (requalifies_gain d),
)

-- A carried-out `unpark_xuni_for_window` leaves no find parked for its window.
pub unpark_xuni_for_window_complete :
    (db : Db) (m : ℕ)
    → All
        (λ r. has_status (codes "ParkedXuniWindow") r ≡ false)
        (unpark_xuni_for_window true db m).0.finds
unfolding unpark_xuni_for_window
unpark_xuni_for_window_complete db m =
    none_left (has_status (codes "ParkedXuniWindow")) reopen _ (λ r. unfold reopen text_eq in refl)
