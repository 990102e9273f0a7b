-- ===== src/Examples/BatchRuns.antt =====
-- The choice of a batch at concrete inputs.
use native.Mathlib.Nat.{div-mul-le_self, mul-le-mul_left}
use tree_miner_amd.Prelude.{
  ℕ,
  zero,
  suc,
  ◌+◌,
  ◌-◌,
  ◌*◌,
  ◌/◌,
  ◌^◌,
  ◌≤◌,
  ◌<◌,
  ◌≡◌,
  ◌⊎◌,
  refl,
  true,
  false,
  leb,
  leb→le,
  arith,
  if◌then◌else◌,
  Floats.{Floats, one_f64},
}
use tree_miner_amd.Core.Batch.{
  hip, effective_reserve_bytes, select_batch_size, default_memory_reserve_bytes,
}
use tree_miner_amd.Core.Batch.Fits.{FloatLaws, select_batch_size-fits}
use tree_miner_amd.Examples.{counting}

-- Whole numbers, with a factor from one to two read from its pattern.
abbrev whole : Floats
whole = record counting {
  mul = λ a b. if leb one_f64 b then a + a * (b - one_f64) / 2 ^ 52 else a * b;
}

le→leb : (a b : ℕ) → a ≤ b → leb a b ≡ true
le→leb a b h = ground arith

whole_product : (m n : ℕ) → m * n < 2 ^ 53 → whole.mul m n ≡ m * n
whole_product zero n h = ground arith
whole_product (suc m) n h = let small : leb one_f64 n ≡ false = ground (arith, h) in rw small refl

whole-FloatLaws : FloatLaws whole
whole-FloatLaws = record {
  exact_product = whole_product;
  pattern_order = λ x y h b. le→leb x y h;
  product_grows = λ n c n1 n2 h. rw h (le→leb n (n + n * (c - one_f64) / 2 ^ 52) (omega arith));
  quotient_down =
      λ a n x b n1 h. omega (arith, div-mul-le_self a x, mul-le-mul_left (a / x) (leb→le n x h));
}

abbrev cap : ℕ
cap = 200

select_batch_size-fits_example :
    let n = (select_batch_size whole hip 17179869184 60000 cap).selected_batch_size in
    let reserve = effective_reserve_bytes hip 17179869184 default_memory_reserve_bytes in
    ((n ≡ 0) ⊎ (n * (60000 * 1024) + reserve ≤ 17179869184)) × ((cap ≡ 0) ⊎ (n ≤ cap))
select_batch_size-fits_example =
    select_batch_size-fits whole hip 17179869184 60000 cap whole-FloatLaws (omega arith)
      (omega arith)
