-- ===== src/Core/Address/Checksum.antt =====
-- The checksum form of an address.
use tree_miner_amd.Prelude.{
  ℕ,
  ◌≡◌,
  refl,
  subst,
  inl,
  inr,
  Bool-cases,
  sym,
  ap,
  true,
  Option,
  none,
  some,
  [],
  ◌∷◌,
  ◌++◌,
  map,
  length,
  all_by,
  leb,
  arith,
  Text.{Text, codes, text_eq_refl},
}
use tree_miner_amd.Core.Address.{
  Keccak, is_hexdigit, to_lower, to_upper, strip_0x, is_address_body, raise, keccak256_hex,
  checksum_body, checked_body, to_checksum_address, is_valid_ethereum_address,
}

length-map_lower : (s : Text) → length (map to_lower s) ≡ length s
length-map_lower [] = refl
length-map_lower (c ∷ s) = omega (arith, length-map_lower s)

length-raise : (s hash : Text) → length (raise s hash) ≡ length s
unfolding raise
length-raise [] hash = refl
length-raise (c ∷ s) [] = refl
length-raise (c ∷ s) (d ∷ hash) = ground (arith, length-raise s hash)

hex_lower : (s : Text) → all_by is_hexdigit s ≡ true → all_by is_hexdigit (map to_lower s) ≡ true
hex_lower [] h = refl
hex_lower (c ∷ s) h = ground (arith, hex_lower s)

hex_raise : (s hash : Text) → all_by is_hexdigit s ≡ true → all_by is_hexdigit (raise s hash) ≡ true
unfolding raise
hex_raise [] hash h = refl
hex_raise (c ∷ s) [] h = h
hex_raise (c ∷ s) (d ∷ hash) h = ground (arith, hex_raise s hash)

lower_idem : (s : Text) → map to_lower (map to_lower s) ≡ map to_lower s
lower_idem [] = refl
lower_idem (c ∷ s) = ground (arith, lower_idem s)

lower_upper : (c : ℕ) → to_lower (to_upper (to_lower c)) ≡ to_lower c
lower_upper c = ground arith

lower_raise : (s hash : Text) → map to_lower (raise (map to_lower s) hash) ≡ map to_lower s
unfolding raise
lower_raise [] hash = refl
lower_raise (c ∷ s) [] = lower_idem (c ∷ s)
lower_raise (c ∷ s) (d ∷ hash) = elim (Bool-cases (leb b'8' d)) [
  | inl big ↦ rw (big, lower_upper c, lower_raise s hash)
  | inr small ↦ rw (small, lower_once c, lower_raise s hash)
]
  where
    lower_once : (x : ℕ) → to_lower (to_lower x) ≡ to_lower x
    lower_once x = ground arith

body-checksum :
    (kk : Keccak) (body : Text)
    → is_address_body body ≡ true
    → is_address_body (checksum_body kk body) ≡ true
unfolding is_address_body checksum_body
body-checksum kk body h =
    let lower = map to_lower body in
    let hash = keccak256_hex kk lower in
    ground
      (arith, length-raise lower hash, length-map_lower body, hex_raise lower hash, hex_lower body)

checksum_body_idem :
    (kk : Keccak) (body : Text) → checksum_body kk (checksum_body kk body) ≡ checksum_body kk body
unfolding checksum_body
checksum_body_idem kk body =
    ap (λ lower. raise lower (keccak256_hex kk lower))
      (lower_raise body (keccak256_hex kk (map to_lower body)))

checksum_of_body :
    (kk : Keccak) (body : Text)
    → is_address_body body ≡ true
    → to_checksum_address kk (codes "0x" ++ checksum_body kk body)
      ≡ some (codes "0x" ++ checksum_body kk body)
unfolding to_checksum_address strip_0x
checksum_of_body kk body h =
    rw (body-checksum kk body h) (ap (λ b. some (codes "0x" ++ b)) (checksum_body_idem kk body))

checked_body_inv :
    (kk : Keccak) (o : Option Text) (checksummed : Text)
    → checked_body kk o ≡ some checksummed
    → (body : Text) × (is_address_body body ≡ true)
      × (checksummed ≡ codes "0x" ++ checksum_body kk body)
checked_body_inv kk none checksummed h = cc
checked_body_inv kk (some body) checksummed h = elim (Bool-cases (is_address_body body)) [
  | inl shaped ↦ (body, shaped, cc (shaped, h))
  | inr other ↦ cc (other, h)
]

checksum_inv :
    (kk : Keccak) (address checksummed : Text)
    → to_checksum_address kk address ≡ some checksummed
    → (body : Text) × (is_address_body body ≡ true)
      × (checksummed ≡ codes "0x" ++ checksum_body kk body)
unfolding to_checksum_address
checksum_inv kk address checksummed h = checked_body_inv kk (strip_0x address) checksummed h

-- The checksum form of a text, where it has one, is its own checksum form and a valid address.
pub checksum_is_valid :
    (kk : Keccak) (address checksummed : Text)
    → to_checksum_address kk address ≡ some checksummed
    → (to_checksum_address kk checksummed ≡ some checksummed)
      × (is_valid_ethereum_address kk checksummed ≡ true)
unfolding is_valid_ethereum_address
checksum_is_valid kk address checksummed h =
    let (body, shaped, e) = checksum_inv kk address checksummed h in
    let again =
      subst (λ t. to_checksum_address kk t ≡ some t) (sym e) (checksum_of_body kk body shaped) in
    (again, rw again (text_eq_refl checksummed))
