-- ===== src/Prelude/Digits.antt =====
-- What the decimal digits of a number are, and that they determine it.
use tree_miner_amd.Prelude.{
  ℕ,
  zero,
  suc,
  ◌+◌,
  ◌*◌,
  ◌/◌,
  ◌%◌,
  ◌≤◌,
  ◌≡◌,
  sym,
  ap,
  ◌∙◌,
  inl,
  inr,
  true,
  [],
  ◌∷◌,
  arith,
  ltb,
  All,
  Bool-cases,
  Text.{Text, is_digit, decimal, decimal_acc, read_digits},
}

read_one : (v d : ℕ) (s : Text) → read_digits v ((b'0' + d) ∷ s) ≡ read_digits (v * 10 + d) s
read_one v d s = ap (λ n. read_digits n s) (omega arith)

read-decimal_acc :
    (fuel n : ℕ) (acc : Text)
    → n ≤ fuel
    → read_digits 0 (decimal_acc fuel n acc) ≡ read_digits n acc
unfolding decimal_acc
read-decimal_acc zero n acc h = let e : n ≡ 0 = omega arith in rw e (read_one 0 0 acc)
read-decimal_acc (suc fuel) n acc h = elim (Bool-cases (ltb n 10)) [
  | inl lt ↦ rw lt (read_one 0 n acc ∙ ap (λ v. read_digits v acc) (omega arith))
  | inr ge ↦ rw ge (
      read-decimal_acc fuel (n / 10) ((b'0' + n % 10) ∷ acc) (ground arith)
      ∙ read_one (n / 10) (n % 10) acc
      ∙ ap (λ v. read_digits v acc) (omega arith))
]

pub read_digits-decimal : (n : ℕ) → read_digits 0 (decimal n) ≡ n
unfolding decimal
read_digits-decimal n = read-decimal_acc n n [] (omega arith)

pub decimal_injective : (n k : ℕ) → decimal n ≡ decimal k → n ≡ k
decimal_injective n k h = sym (read_digits-decimal n) ∙ ap (read_digits 0) h ∙ read_digits-decimal k

decimal_acc_digits :
    (fuel n : ℕ) (acc : Text)
    → All (λ c. is_digit c ≡ true) acc
    → All (λ c. is_digit c ≡ true) (decimal_acc fuel n acc)
unfolding decimal_acc
decimal_acc_digits zero n acc h = (ground arith, h)
decimal_acc_digits (suc fuel) n acc h = elim (Bool-cases (ltb n 10)) [
  | inl lt ↦ rw lt (ground arith, h)
  | inr ge ↦ rw ge (decimal_acc_digits fuel (n / 10) ((b'0' + n % 10) ∷ acc) (ground arith, h))
]

pub decimal_digits : (n : ℕ) → All (λ c. is_digit c ≡ true) (decimal n)
unfolding decimal
decimal_digits n = decimal_acc_digits n n [] tt
