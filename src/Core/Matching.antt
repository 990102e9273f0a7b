-- ===== src/Core/Matching.antt =====
-- treeminer-rs/crates/tm-core/src/matching.rs and, in treeminer/src/state.rs, `classify_find`: what
-- counts as a find, and as which.
use tree_miner_amd.Prelude.{
  ℕ,
  Bool,
  false,
  ◌&&◌,
  ◌||◌,
  [],
  ◌∷◌,
  leb,
  not,
  length,
  filter_by,
  ◌==◌,
  if◌then◌else◌,
  Text.{Text, is_digit},
}

unfoldable pub is_superblock_hash : Text → Bool
is_superblock_hash hash = leb 50 (length (filter_by (λ c. leb b'A' c && leb c b'Z') hash))

-- The window of five bytes at the front.
abbrev pub is_xuni_window : Text → Bool
is_xuni_window (a ∷ b ∷ c ∷ d ∷ e ∷ s) =
    a == b'X' && b == b'U' && c == b'N' && d == b'I' && is_digit e
is_xuni_window _ = false

unfoldable pub has_xuni_match : Text → Bool
has_xuni_match [] = false
has_xuni_match (c ∷ s) = is_xuni_window (c ∷ s) || has_xuni_match s

unfoldable pub is_within_xuni_window_at : ℕ → Bool
is_within_xuni_window_at minute = not (leb 5 minute && not (leb 55 minute))

pub data FindClass : Type 0 where
  normal superblock xuni_class : FindClass

unfoldable pub classify_find : Text → FindClass
classify_find digest =
    if has_xuni_match digest
    then xuni_class
    else if is_superblock_hash digest
    then superblock
    else normal
