-- ===== src/Core/Encoding.antt =====
-- treeminer-rs/crates/tm-core/src/encoding.rs: base64 without padding and PHC strings. The hex
-- decoder is a parameter.
pub mod Phc
use tree_miner_amd.Prelude.{
  ℕ,
  zero,
  suc,
  ◌+◌,
  ◌*◌,
  ◌/◌,
  ◌%◌,
  Option,
  none,
  some,
  [],
  ◌∷◌,
  ◌++◌,
  length,
  ◌==◌,
  if◌then◌else◌,
  Text.{Text, codes, decimal},
}

abbrev pub base64_chars : Text
base64_chars = codes "ABCDEFGHIJKLMNOPQRSTUVWXYZabcdefghijklmnopqrstuvwxyz0123456789+/"

-- The index is less than the length of the table.
unfoldable pub char_at : Text → ℕ → ℕ
char_at [] n = 0
char_at (c ∷ s) zero = c
char_at (c ∷ s) (suc n) = char_at s n

-- The six bits of a value above its lowest `shift`.
abbrev pub sextet : ℕ → ℕ → ℕ
sextet value divisor = char_at base64_chars (value / divisor % 64)

unfoldable pub base64_encode : Text → Text
base64_encode (a ∷ b ∷ c ∷ bytes) =
    let value = a * 65536 + b * 256 + c in
    sextet value 262144 ∷ sextet value 4096 ∷ sextet value 64 ∷ sextet value 1 ∷ base64_encode bytes
base64_encode (a ∷ b ∷ []) =
    let value = a * 65536 + b * 256 in
    sextet value 262144 ∷ sextet value 4096 ∷ sextet value 64 ∷ []
base64_encode (a ∷ []) = let value = a * 65536 in sextet value 262144 ∷ sextet value 4096 ∷ []
base64_encode [] = []

unfoldable pub base64_encoded_len : ℕ → ℕ
base64_encoded_len input_len =
    let remaining = input_len % 3 in
    input_len / 3 * 4 + (if remaining == 0 then 0 else remaining + 1)

pub data HexError : Type 0 where
  odd_length non_hex_character : HexError

-- `Result<_, HexError>`
pub data HexResult : Type 0 where
  bytes : Text → HexResult
  bad_hex : HexError → HexResult

abbrev pub hex_bytes : Option Text → HexResult
hex_bytes none = bad_hex non_hex_character
hex_bytes (some s) = bytes s

module _ (hex_decode : Text → Option Text) where
  unfoldable pub hex_to_bytes : Text → HexResult
  hex_to_bytes text =
      if length text % 2 == 0 then hex_bytes (hex_decode text) else bad_hex odd_length

  abbrev pub phc_of : ℕ → Text → HexResult → HexResult
  phc_of memory_cost digest_b64 (bad_hex e) = bad_hex e
  phc_of memory_cost digest_b64 (bytes salt) = bytes (
      codes "$argon2id$v=19$m="
      ++ (decimal memory_cost
          ++ (codes ",t=1,p=1$" ++ (base64_encode salt ++ (b'$' ∷ digest_b64)))))

  unfoldable pub assemble_phc : ℕ → Text → Text → HexResult
  assemble_phc memory_cost hexsalt digest_b64 = phc_of memory_cost digest_b64 (hex_to_bytes hexsalt)

-- str::rsplit_once('$'), its second half.
unfoldable pub after_last_dollar : Text → Option Text
after_last_dollar [] = none
after_last_dollar (c ∷ s) = elim (after_last_dollar s) [
  | none ↦ if c == b'$' then some s else none
  | some digest ↦ some digest
]

abbrev pub non_empty : Option Text → Option Text
non_empty none = none
non_empty (some []) = none
non_empty (some (c ∷ s)) = some (c ∷ s)

unfoldable pub phc_digest : Text → Option Text
phc_digest phc = non_empty (after_last_dollar phc)
