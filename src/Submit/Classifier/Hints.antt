-- ===== src/Submit/Classifier/Hints.antt =====
-- The difficulty that a message carries is read back from the decimal digits that were printed.
use tree_miner_amd.Prelude.{
  ℕ,
  zero,
  suc,
  ◌+◌,
  ◌-◌,
  ◌*◌,
  ◌/◌,
  ◌%◌,
  ◌^◌,
  ◌≤◌,
  ◌<◌,
  ◌≡◌,
  refl,
  ap,
  ◌∙◌,
  inl,
  inr,
  true,
  false,
  some,
  [],
  ◌∷◌,
  ◌++◌,
  arith,
  ltb,
  Bool-cases,
  Text.{Text, codes, is_digit, decimal, decimal_acc},
}
use tree_miner_amd.Submit.Classifier.{hint_digits, starts_hint, parse_difficulty_hint, after_two}

-- A text that goes on with something other than a digit, or ends.
abbrev pub EndsDigits : Text → Type 0
EndsDigits [] = Unit
EndsDigits (c ∷ s) = is_digit c ≡ false

hint_digits_end : (n : ℕ) (rest : Text) → EndsDigits rest → hint_digits n rest ≡ some n
unfolding hint_digits
hint_digits_end n [] h = refl
hint_digits_end n (c ∷ s) h = rw h

digit_step :
    (v d : ℕ) (s : Text)
    → d < 10
    → v * 10 + d < 2 ^ 32
    → hint_digits v ((b'0' + d) ∷ s) ≡ hint_digits (v * 10 + d) s
unfolding hint_digits
digit_step v d s h b =
    let digit : is_digit (b'0' + d) ≡ true = ground arith in
    let same : b'0' + d - b'0' ≡ d = omega arith in
    let small : ltb (2 ^ 32 - 1) (v * 10 + d) ≡ false = ground arith in rw (digit, same, small)

hint_digits-decimal_acc :
    (fuel n : ℕ) (acc : Text)
    → n ≤ fuel
    → n < 2 ^ 32
    → hint_digits 0 (decimal_acc fuel n acc) ≡ hint_digits n acc
unfolding decimal_acc
hint_digits-decimal_acc zero n acc h b =
    let e : n ≡ 0 = omega arith in rw e (digit_step 0 0 acc (omega arith) (omega arith))
hint_digits-decimal_acc (suc fuel) n acc h b = elim (Bool-cases (ltb n 10)) [
  | inl lt ↦
      rw lt (
        digit_step 0 n acc (ground arith) (omega arith) ∙ ap (λ v. hint_digits v acc) (omega arith))
  | inr ge ↦ rw ge (
      hint_digits-decimal_acc fuel (n / 10) ((b'0' + n % 10) ∷ acc) (ground arith) (omega arith)
      ∙ digit_step (n / 10) (n % 10) acc (omega arith) (omega arith)
      ∙ ap (λ v. hint_digits v acc) (omega arith))
]

-- The first of the digits.
abbrev FirstIsDigit : Text → Type 0
FirstIsDigit [] = ⊥
FirstIsDigit (c ∷ s) = is_digit c ≡ true

decimal_acc-first : (fuel n : ℕ) (acc : Text) → FirstIsDigit (decimal_acc fuel n acc)
unfolding decimal_acc
decimal_acc-first zero n acc = ground arith
decimal_acc-first (suc fuel) n acc = elim (Bool-cases (ltb n 10)) [
  | inl lt ↦ rw lt (ground arith)
  | inr ge ↦ rw ge (decimal_acc-first fuel (n / 10) ((b'0' + n % 10) ∷ acc))
]

decimal_acc-append :
    (fuel n : ℕ) (acc rest : Text)
    → decimal_acc fuel n acc ++ rest ≡ decimal_acc fuel n (acc ++ rest)
unfolding decimal_acc
decimal_acc-append zero n acc rest = refl
decimal_acc-append (suc fuel) n acc rest = elim (Bool-cases (ltb n 10)) [
  | inl lt ↦ rw lt
  | inr ge ↦ rw ge (decimal_acc-append fuel (n / 10) ((b'0' + n % 10) ∷ acc) rest)
]

starts_hint_digits : (t : Text) → FirstIsDigit t → starts_hint (b'm' ∷ b'=' ∷ t) ≡ true
unfolding starts_hint
starts_hint_digits [] h = absurd h
starts_hint_digits (c ∷ s) h = h

pub parse_hint_now :
    (n : ℕ) (rest : Text)
    → n < 2 ^ 32
    → EndsDigits rest
    → parse_difficulty_hint (b'm' ∷ b'=' ∷ (decimal n ++ rest)) ≡ some n
unfolding parse_difficulty_hint decimal
parse_hint_now n rest b e =
    let text = decimal_acc-append n n [] rest in
    let hint : starts_hint (b'm' ∷ b'=' ∷ (decimal_acc n n [] ++ rest)) ≡ true =
      rw text (starts_hint_digits (decimal_acc n n rest) (decimal_acc-first n n rest)) in
    rw hint (rw text (hint_digits-decimal_acc n n rest (omega arith) b ∙ hint_digits_end n rest e))

-- The server's 401 names its difficulty in decimal; it is read back, whatever follows the digits.
pub parse_difficulty_hint_401 :
    (n : ℕ) (rest : Text)
    → n < 2 ^ 32
    → EndsDigits rest
    → parse_difficulty_hint (codes "Hash does not contain 'm=" ++ (decimal n ++ rest)) ≡ some n
unfolding starts_hint
parse_difficulty_hint_401 n rest b e = unfold parse_difficulty_hint in parse_hint_now n rest b e

-- A hint is never more than a u32.
pub hint_digits-lt : (v : ℕ) (s : Text) (n : ℕ) → v < 2 ^ 32 → hint_digits v s ≡ some n → n < 2 ^ 32
unfolding hint_digits
hint_digits-lt v [] n b h = ground arith
hint_digits-lt v (c ∷ s) n b h = ground (arith, hint_digits-lt (v * 10 + (c - b'0')) s n)

pub parse_difficulty_hint-lt : (s : Text) (n : ℕ) → parse_difficulty_hint s ≡ some n → n < 2 ^ 32
unfolding parse_difficulty_hint
parse_difficulty_hint-lt [] n h = cc
parse_difficulty_hint-lt (c ∷ s) n h =
    ground (arith, hint_digits-lt 0 (after_two (c ∷ s)) n, parse_difficulty_hint-lt s n)
