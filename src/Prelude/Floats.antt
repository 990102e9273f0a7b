-- ===== src/Prelude/Floats.antt =====
-- The `f64` values and operations that the program uses. A value is its 64-bit pattern, so data
-- that only carries one needs no more. Floating point itself is not implemented by the program: its
-- operations are a parameter of what calls them.
use Prim.Native.Nat.{ℕ}
use mathlib.Core.Bool.{Bool}

-- The bits of an `f64`.
abbrev pub F64 : Type 0
F64 = ℕ

pub record Floats : Type 0 where
  -- `n as f64` and `x as i64`; the latter truncates towards zero and saturates.
  pub of_int : ℕ → F64
  pub to_int : F64 → ℕ
  pub mul : F64 → F64 → F64
  pub div : F64 → F64 → F64
  -- `f64::min`, `f64::max` and `<=`.
  pub fmin : F64 → F64 → F64
  pub fmax : F64 → F64 → F64
  pub fle : F64 → F64 → Bool

-- The literals of the sources, as their patterns.
abbrev pub zero_f64 : F64
zero_f64 = 0

abbrev pub fifth_f64 : F64
fifth_f64 = 0x3fc9_9999_9999_999a

abbrev pub quarter_f64 : F64
quarter_f64 = 0x3fd0_0000_0000_0000

abbrev pub one_f64 : F64
one_f64 = 0x3ff0_0000_0000_0000

abbrev pub infinity : F64
infinity = 0x7ff0_0000_0000_0000

abbrev pub two_f64 : F64
two_f64 = 0x4000_0000_0000_0000

abbrev pub four_f64 : F64
four_f64 = 0x4010_0000_0000_0000

abbrev pub thousand_f64 : F64
thousand_f64 = 0x408f_4000_0000_0000
