-- ===== src/Platform/Envelope/Signing.antt =====
-- The signed text, as a function of the envelope and the message.
use tree_miner_amd.Prelude.{
  ℕ,
  suc,
  ◌≡◌,
  refl,
  subst,
  sym,
  ap,
  true,
  false,
  [],
  ◌∷◌,
  ◌==◌,
  All,
  arith,
  Text.{Text, codes, is_digit, decimal},
  Digits.{decimal_injective, decimal_digits},
  Int.{ℤ, pos, negsuc},
}
use tree_miner_amd.Platform.Envelope.{decimal_ℤ, line, signing_string}

-- A text on one line.
abbrev pub OnOneLine : Text → Type 0
OnOneLine = All (λ c. (c == b'\n') ≡ false)

line_injective :
    (a b r q : Text) → OnOneLine a → OnOneLine b → line a r ≡ line b q → (a ≡ b) × (r ≡ q)
unfolding line
line_injective [] [] r q h k e = (refl, cc)
line_injective [] (d ∷ b) r q h k e = ground arith
line_injective (c ∷ a) [] r q h k e = ground arith
line_injective (c ∷ a) (d ∷ b) r q h k e = ground (arith, line_injective a b r q h.1 k.1)

digits-OnOneLine : (s : Text) → All (λ c. is_digit c ≡ true) s → OnOneLine s
digits-OnOneLine [] h = tt
digits-OnOneLine (c ∷ s) h = (ground arith, digits-OnOneLine s h.1)

decimal_ℤ-OnOneLine : (z : ℤ) → OnOneLine (decimal_ℤ z)
unfolding decimal_ℤ
decimal_ℤ-OnOneLine (pos n) = digits-OnOneLine (decimal n) (decimal_digits n)
decimal_ℤ-OnOneLine (negsuc n) = (refl, digits-OnOneLine (decimal (suc n)) (decimal_digits (suc n)))

minus_no_digit : (n : ℕ) (s : Text) → decimal n ≡ b'-' ∷ s → ⊥
minus_no_digit n s e =
    let digits = subst (All (λ c. is_digit c ≡ true)) e (decimal_digits n) in cc digits.0

decimal_ℤ_injective : (a b : ℤ) → decimal_ℤ a ≡ decimal_ℤ b → a ≡ b
unfolding decimal_ℤ
decimal_ℤ_injective (pos n) (pos k) e = ap pos (decimal_injective n k e)
decimal_ℤ_injective (pos n) (negsuc k) e = absurd (minus_no_digit n (decimal (suc k)) e)
decimal_ℤ_injective (negsuc n) (pos k) e = absurd (minus_no_digit k (decimal (suc n)) (sym e))
decimal_ℤ_injective (negsuc n) (negsuc k) e =
    let same : decimal (suc n) ≡ decimal (suc k) = cc e in
    ap negsuc (omega (arith, decimal_injective (suc n) (suc k) same))

-- The text that is signed determines every field of the envelope and the body, for texts without
-- line breaks in the three text fields before the body.
pub signing_string_injective :
    (w w' c c' n n' b b' : Text) (i i' x x' : ℤ)
    → All OnOneLine (w ∷ w' ∷ c ∷ c' ∷ n ∷ n' ∷ [])
    → signing_string w c i x n b ≡ signing_string w' c' i' x' n' b'
    → (w ≡ w') × (c ≡ c') × (i ≡ i') × (x ≡ x') × (n ≡ n') × (b ≡ b')
unfolding signing_string
signing_string_injective w w' c c' n n' b b' i i' x x' (hw, (hw', (hc, (hc', (hn, (hn', _)))))) e =
    let tag : OnOneLine (codes "TMv1") = (refl, (refl, (refl, (refl, tt)))) in
    let (_, e1) = line_injective (codes "TMv1") (codes "TMv1") _ _ tag tag e in
    let (ew, e2) = line_injective w w' _ _ hw hw' e1 in
    let (ec, e3) = line_injective c c' _ _ hc hc' e2 in
    let (ei, e4) =
      line_injective (decimal_ℤ i) (decimal_ℤ i') _ _ (decimal_ℤ-OnOneLine i)
        (decimal_ℤ-OnOneLine i') e3 in
    let (ex, e5) =
      line_injective (decimal_ℤ x) (decimal_ℤ x') _ _ (decimal_ℤ-OnOneLine x)
        (decimal_ℤ-OnOneLine x') e4 in
    let (en, eb) = line_injective n n' b b' hn hn' e5 in
    (ew, ec, decimal_ℤ_injective i i' ei, decimal_ℤ_injective x x' ex, en, eb)
