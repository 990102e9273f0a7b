-- ===== src/Platform/Nonces.antt =====
-- treeminer-rs/crates/tm-platform/src/envelope.rs: NonceCache, the bounded memory of accepted
-- nonces. The hash map is an association list, and an insertion appends to it.
pub mod Fifo
pub mod Replay
use tree_miner_amd.Prelude.{
  ℕ,
  Bool,
  true,
  false,
  Option,
  none,
  some,
  List,
  [],
  ◌∷◌,
  ◌++◌,
  length,
  max,
  leb,
  if◌then◌else◌,
  Text.{Text, text_eq},
  Int.{ℤ, ltb_ℤ},
}

-- HashMap<String, i64>.
abbrev pub Expiries : Type 0
Expiries = List (Text × ℤ)

unfoldable pub expiry : Text → Expiries → Option ℤ
unfolding text_eq
expiry nonce [] = none
expiry nonce ((k, e) ∷ m) = let rest = expiry nonce m in if text_eq k nonce then some e else rest

unfoldable pub remove : Text → Expiries → Expiries
unfolding text_eq
remove nonce [] = []
remove nonce ((k, e) ∷ m) =
    let rest = remove nonce m in if text_eq k nonce then rest else (k, e) ∷ rest

unfoldable pub insert : Text → ℤ → Expiries → Expiries
unfolding remove
insert nonce e m = remove nonce m ++ (nonce, e) ∷ []

unfoldable pub contains_key : Text → Expiries → Bool
unfolding expiry
contains_key nonce m = elim (expiry nonce m) [ none ↦ false | some e ↦ true ]

pub record NonceCache : Type 0 where
  pub capacity : ℕ
  pub by_nonce : Expiries
  pub insertion_order : List Text

unfoldable pub new : ℕ → NonceCache
new capacity = record { capacity = max capacity 1; by_nonce = []; insertion_order = [] }

-- The sweep from the front of the insertion order.
unfoldable pub purge : ℤ → Expiries → List Text → Expiries × List Text
unfolding expiry remove
purge now m [] = (m, [])
purge now m (front ∷ order) = elim (expiry front m) [
  | none ↦ purge now m order
  | some e ↦ elim (ltb_ℤ now e) [
    | true ↦ (m, front ∷ order)
    | false ↦ purge now (remove front m) order
  ]
]

-- purge_expired
unfoldable pub purge_expired : ℤ → NonceCache → NonceCache
unfolding purge
purge_expired now c =
    let (m, order) = purge now c.by_nonce c.insertion_order in
    record c { by_nonce = m; insertion_order = order }

-- The eviction of the oldest entries while the map is full.
unfoldable pub evict : ℕ → Expiries → List Text → Expiries × List Text
unfolding remove
evict capacity m [] = (m, [])
evict capacity m (oldest ∷ order) = elim (leb capacity (length m)) [
  | true ↦ evict capacity (remove oldest m) order
  | false ↦ (m, oldest ∷ order)
]

unfoldable pub record_nonce : Text → ℤ → NonceCache → NonceCache
unfolding evict insert
record_nonce nonce e c =
    let (m, order) = evict c.capacity c.by_nonce c.insertion_order in
    record c { by_nonce = insert nonce e m; insertion_order = order ++ nonce ∷ [] }

-- check_and_insert
unfoldable pub check_and_insert : Text → ℤ → ℤ → NonceCache → NonceCache × Bool
unfolding purge_expired contains_key record_nonce
check_and_insert nonce e now c =
    let c' = purge_expired now c in
    if contains_key nonce c'.by_nonce then (c', false) else (record_nonce nonce e c', true)
