-- ===== src/Core/Encoding/Phc.antt =====
-- The PHC string of a find (tm-core/src/encoding.rs): its digest and its length.
use tree_miner_amd.Prelude.{
  ℕ,
  zero,
  suc,
  ◌+◌,
  ◌*◌,
  ◌/◌,
  ◌%◌,
  ◌^◌,
  ◌≤◌,
  ◌<◌,
  ◌≡◌,
  refl,
  sym,
  ap,
  ◌∙◌,
  subst,
  inl,
  inr,
  true,
  false,
  Option,
  none,
  some,
  [],
  ◌∷◌,
  ◌++◌,
  arith,
  All,
  ltb,
  ◌==◌,
  length,
  length-append,
  Bool-cases,
  Text.{Text, codes, decimal, decimal_acc},
}
use native.Mathlib.Nat.{pow-succ'}
use tree_miner_amd.Core.Encoding.{
  base64_encode, base64_encoded_len, bytes, hex_to_bytes, phc_of, assemble_phc, after_last_dollar,
  phc_digest, non_empty, HexResult, bad_hex,
}

-- The text that base64 makes has the length that `base64_encoded_len` names.
pub length-base64_encode : (s : Text) → length (base64_encode s) ≡ base64_encoded_len (length s)
unfolding base64_encode base64_encoded_len
length-base64_encode [] = refl
length-base64_encode (a ∷ []) = refl
length-base64_encode (a ∷ b ∷ []) = refl
length-base64_encode (a ∷ b ∷ c ∷ s) = ground (arith, length-base64_encode s)

abbrev pub NoDollar : Text → Type 0
NoDollar = All (λ c. (c == b'$') ≡ false)

last_of_plain : (digest : Text) → NoDollar digest → after_last_dollar digest ≡ none
unfolding after_last_dollar
last_of_plain [] h = refl
last_of_plain (c ∷ s) h = rw (last_of_plain s h.1, h.0)

last_of_dollar : (digest : Text) → NoDollar digest → after_last_dollar (b'$' ∷ digest) ≡ some digest
unfolding after_last_dollar
last_of_dollar digest h = rw (last_of_plain digest h)

last-append : (s t d : Text) → after_last_dollar t ≡ some d → after_last_dollar (s ++ t) ≡ some d
unfolding after_last_dollar
last-append [] t d h = h
last-append (c ∷ s) t d h = rw (last-append s t d h)

-- A number of at most `k` digits.
digits_few :
    (k fuel n : ℕ) (acc : Text)
    → n < 10 ^ suc k
    → length (decimal_acc fuel n acc) ≤ suc k + length acc
unfolding decimal_acc
digits_few k zero n acc h = omega arith
digits_few zero (suc fuel) n acc h =
    let one : ltb n 10 ≡ true = ground arith in rw one (omega arith)
digits_few (suc k) (suc fuel) n acc h = elim (Bool-cases (ltb n 10)) [
  | inl one ↦ rw one (omega arith)
  | inr more ↦
      let scaled : n < 10 * 10 ^ suc k = rw⁻¹ (pow-succ' 10 (suc k)) h in
      let rest = digits_few k fuel (n / 10) ((b'0' + n % 10) ∷ acc) (below (10 ^ suc k) n scaled) in
      rw more (omega (arith, rest))
]
  where
    below : (p x : ℕ) → x < 10 * p → x / 10 < p
    below p x l = omega arith

pub length-decimal-le : (n : ℕ) → n < 2 ^ 32 → length (decimal n) ≤ 10
unfolding decimal
length-decimal-le n h = digits_few 9 n n [] (omega arith)

abbrev phc_text : ℕ → Text → Text → Text
phc_text m salt digest =
    codes "$argon2id$v=19$m="
    ++ (decimal m ++ (codes ",t=1,p=1$" ++ (base64_encode salt ++ (b'$' ∷ digest))))

phc_digest-text :
    (m : ℕ) (salt : Text) (c : ℕ) (digest : Text)
    → NoDollar (c ∷ digest)
    → phc_digest (phc_text m salt (c ∷ digest)) ≡ some (c ∷ digest)
unfolding phc_digest
phc_digest-text m salt c digest plain =
    let d = c ∷ digest in
    let t1 = b'$' ∷ d in
    let t2 = base64_encode salt ++ t1 in
    let t3 = codes ",t=1,p=1$" ++ t2 in
    let t4 = decimal m ++ t3 in
    let found = last-append (codes "$argon2id$v=19$m=") t4 d (
      last-append (decimal m) t3 d (
        last-append (codes ",t=1,p=1$") t2 d
          (last-append (base64_encode salt) t1 d (last_of_dollar d plain)))) in
    ap non_empty found

-- The PHC string that is assembled for a digest that is not empty and has no dollar sign gives that
-- digest back.
pub phc_digest-assemble_phc :
    (hex_decode : Text → Option Text) (m : ℕ) (hexsalt : Text) (c : ℕ) (digest phc : Text)
    → NoDollar (c ∷ digest)
    → assemble_phc hex_decode m hexsalt (c ∷ digest) ≡ bytes phc
    → phc_digest phc ≡ some (c ∷ digest)
unfolding assemble_phc
phc_digest-assemble_phc hex_decode m hexsalt c digest phc plain e =
    by_salt (hex_to_bytes hex_decode hexsalt) e
  where
    by_salt :
        (salt : HexResult)
        → phc_of hex_decode m (c ∷ digest) salt ≡ bytes phc
        → phc_digest phc ≡ some (c ∷ digest)
    by_salt (bad_hex x) e' = cc
    by_salt (bytes salt) e' =
        let same : phc_text m salt (c ∷ digest) ≡ phc = cc e' in
        ap phc_digest (sym same) ∙ phc_digest-text m salt c digest plain

-- For an address of 20 bytes, a digest of at most 86 characters and a u32 memory cost, the PHC
-- string has at most 150 characters.
pub length-assemble_phc-le :
    (hex_decode : Text → Option Text) (m : ℕ) (hexsalt digest phc salt : Text)
    → hex_to_bytes hex_decode hexsalt ≡ bytes salt
    → length salt ≤ 20
    → length digest ≤ 86
    → m < 2 ^ 32
    → assemble_phc hex_decode m hexsalt digest ≡ bytes phc
    → length phc ≤ 150
unfolding assemble_phc base64_encoded_len
length-assemble_phc-le hex_decode m hexsalt digest phc salt s b d h e =
    let e' : phc_of hex_decode m digest (bytes salt) ≡ bytes phc =
      ap (phc_of hex_decode m digest) (sym s) ∙ e in
    let same : phc_text m salt digest ≡ phc = cc e' in
    let t1 = b'$' ∷ digest in
    let t2 = base64_encode salt ++ t1 in
    let t3 = codes ",t=1,p=1$" ++ t2 in
    let short : length (base64_encode salt) ≤ 27 = ground (arith, length-base64_encode salt) in
    let total : length (phc_text m salt digest) ≤ 150 = omega (
      arith,
      short,
      length-decimal-le m h,
      length-append (decimal m) t3,
      length-append (base64_encode salt) t1,
    ) in
    subst (λ t. length t ≤ 150) same total
