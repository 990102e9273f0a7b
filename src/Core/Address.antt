-- ===== src/Core/Address.antt =====
-- treeminer-rs/crates/tm-core/src/address.rs: EIP-55 addresses. Keccak-256 and the hex encoder are
-- parameters.
pub mod Checksum
use tree_miner_amd.Prelude.{
  ℕ,
  ◌+◌,
  ◌-◌,
  Bool,
  true,
  false,
  ◌&&◌,
  ◌||◌,
  ◌==◌,
  Option,
  none,
  some,
  List,
  [],
  ◌∷◌,
  ◌++◌,
  map,
  length,
  all_by,
  leb,
  if◌then◌else◌,
  Text.{Text, codes, text_eq, is_digit},
}

-- sha3 and hex: `encode_upper` prints two digits for each of the 32 bytes.
pub record Keccak : Type 0 where
  pub digest : Text → List ℕ
  pub encode_upper : List ℕ → Text

-- char::is_ascii_hexdigit
abbrev pub is_hexdigit : ℕ → Bool
is_hexdigit c = is_digit c || (leb b'a' c && leb c b'f') || (leb b'A' c && leb c b'F')

abbrev pub to_lower : ℕ → ℕ
to_lower c = if leb b'A' c && leb c b'Z' then c + 32 else c

abbrev pub to_upper : ℕ → ℕ
to_upper c = if leb b'a' c && leb c b'z' then c - 32 else c

-- str::strip_prefix("0x")
unfoldable pub strip_0x : Text → Option Text
strip_0x [] = none
strip_0x (a ∷ []) = none
strip_0x (a ∷ b ∷ body) = if a == b'0' && b == b'x' then some body else none

unfoldable pub is_address_body : Text → Bool
is_address_body body = length body == 40 && all_by is_hexdigit body

-- The letters whose digit of the hash is at least 8 are raised. The code indexes the hash, which
-- has 64 digits, at less than 40.
unfoldable pub raise : Text → Text → Text
raise [] hash = []
raise (c ∷ body) [] = c ∷ body
raise (c ∷ body) (d ∷ hash) =
    let rest = raise body hash in if leb b'8' d then to_upper c ∷ rest else c ∷ rest

module _ (kk : Keccak) where
  unfoldable pub keccak256_hex : Text → Text
  keccak256_hex input = kk.encode_upper (kk.digest input)

  unfoldable pub checksum_body : Text → Text
  unfolding raise keccak256_hex
  checksum_body body = let lower = map to_lower body in raise lower (keccak256_hex lower)

  abbrev pub checked_body : Option Text → Option Text
  checked_body none = none
  checked_body (some body) =
      if is_address_body body then some (codes "0x" ++ checksum_body body) else none

  unfoldable pub to_checksum_address : Text → Option Text
  to_checksum_address address = checked_body (strip_0x address)

  abbrev pub is_same : Option Text → Text → Bool
  is_same none address = false
  is_same (some checksummed) address = text_eq checksummed address

  unfoldable pub is_valid_ethereum_address : Text → Bool
  is_valid_ethereum_address address = is_same (to_checksum_address address) address

abbrev pub salt_of : Option Text → Option Text
salt_of none = none
salt_of (some body) = if is_address_body body then some body else none

unfoldable pub salt_hex_for_address : Text → Option Text
salt_hex_for_address address = salt_of (strip_0x address)
