-- ===== src/Prelude/Text.antt =====
-- Texts as lists of bytes, with the tests of `str` that the program calls.
use Prim.Native.Char.{code}
use tree_miner_amd.Prelude.Tests.{leb, ltb, ◌==◌, if◌then◌else◌}
use Prim.Native.Nat.{ℕ, zero, suc, ◌+◌, ◌-◌, ◌*◌, ◌/◌, ◌%◌}
use Prim.Native.String.{String}
use mathlib.Core.Path.{◌≡◌, refl}
use mathlib.Core.Logic.{◌↔◌}
use mathlib.Core.Bool.{Bool, true, false, ◌&&◌, ◌||◌}
use mathlib.Core.List.{List, [], ◌∷◌}
use native.Mathlib.Omega.{arith}

abbrev pub Text : Type 0
Text = List ℕ

-- The bytes of a literal of ASCII characters. `String` has its own `[]` and `∷`.
abbrev pub codes : String → Text
codes String.[] = []
codes (String.◌∷◌ c s) = code c ∷ codes s

-- `==` on `str`: the same bytes.
unfoldable pub text_eq : Text → Text → Bool
text_eq [] [] = true
text_eq [] (d ∷ t) = false
text_eq (c ∷ s) [] = false
text_eq (c ∷ s) (d ∷ t) = c == d && text_eq s t

pub text_eq_iff : (s t : Text) → (text_eq s t ≡ true) ↔ (s ≡ t)
unfolding text_eq
text_eq_iff [] [] = (λ _. refl, λ _. refl)
text_eq_iff [] (d ∷ t) = (λ h. cc, λ h. cc)
text_eq_iff (c ∷ s) [] = (λ h. cc, λ h. cc)
text_eq_iff (c ∷ s) (d ∷ t) =
    (λ h. ground (arith, text_eq_iff s t), λ h. ground (arith, text_eq_iff s t))

pub text_eq_refl : (s : Text) → text_eq s s ≡ true
text_eq_refl s = (text_eq_iff s s).1 refl

pub text_eq_comm : (s t : Text) → text_eq s t ≡ text_eq t s
unfolding text_eq
text_eq_comm [] [] = refl
text_eq_comm [] (d ∷ t) = refl
text_eq_comm (c ∷ s) [] = refl
text_eq_comm (c ∷ s) (d ∷ t) = ground (arith, text_eq_comm s t)

-- `<=` on texts by their bytes, the order in which SQLite compares TEXT values.
unfoldable pub text_le : Text → Text → Bool
text_le [] t = true
text_le (c ∷ s) [] = false
text_le (c ∷ s) (d ∷ t) = ltb c d || (c == d && text_le s t)

-- `str::starts_with` and `str::contains`.
unfoldable pub starts_with : Text → Text → Bool
starts_with s [] = true
starts_with [] (d ∷ t) = false
starts_with (c ∷ s) (d ∷ t) = c == d && starts_with s t

unfoldable pub contains : Text → Text → Bool
unfolding starts_with
contains [] t = starts_with [] t
contains (c ∷ s) t = starts_with (c ∷ s) t || contains s t

-- `u8::is_ascii_digit`, `u8::is_ascii_whitespace`.
abbrev pub is_digit : ℕ → Bool
is_digit c = leb b'0' c && leb c b'9'

-- Space, tab, line feed, form feed and carriage return.
abbrev pub is_whitespace : ℕ → Bool
is_whitespace c = c == 32 || c == 9 || c == 10 || c == 12 || c == 13

-- The decimal digits of a number, as `format!` prints it. One digit falls away at each round, so
-- `n` rounds are enough.
unfoldable pub decimal_acc : ℕ → ℕ → Text → Text
decimal_acc zero n acc = (b'0' + n % 10) ∷ acc
decimal_acc (suc fuel) n acc =
    let rest = decimal_acc fuel (n / 10) ((b'0' + n % 10) ∷ acc) in
    if ltb n 10 then (b'0' + n) ∷ acc else rest

unfoldable pub decimal : ℕ → Text
unfolding decimal_acc
decimal n = decimal_acc n n []

-- What the digits after those of `n` mean to a reader that has read `acc` so far.
abbrev pub read_digits : ℕ → Text → ℕ
read_digits acc [] = acc
read_digits acc (c ∷ s) = read_digits (acc * 10 + (c - b'0')) s

-- `str::trim().is_empty()`: nothing but white space, the code points of Unicode's White_Space in
-- their UTF-8 bytes.
unfoldable pub is_trim_empty : Text → Bool
is_trim_empty [] = true
is_trim_empty (a ∷ []) = is_whitespace a || a == 11
is_trim_empty (a ∷ b ∷ []) =
    ((is_whitespace a || a == 11) && (is_whitespace b || b == 11))
    || (a == 0xc2 && (b == 0x85 || b == 0xa0))
is_trim_empty (a ∷ b ∷ c ∷ s) =
    ((is_whitespace a || a == 11) && is_trim_empty (b ∷ c ∷ s))
    || (a == 0xc2 && (b == 0x85 || b == 0xa0) && is_trim_empty (c ∷ s))
    || (is_wide_space a b c && is_trim_empty s)
  where
    is_wide_space : ℕ → ℕ → ℕ → Bool
    is_wide_space x y z =
        (x == 0xe1 && y == 0x9a && z == 0x80)
        || (x == 0xe2
            && y == 0x80
            && ((leb 0x80 z && leb z 0x8a) || z == 0xa8 || z == 0xa9 || z == 0xaf))
        || (x == 0xe2 && y == 0x81 && z == 0x9f)
        || (x == 0xe3 && y == 0x80 && z == 0x80)
