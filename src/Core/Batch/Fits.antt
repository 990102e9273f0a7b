-- ===== src/Core/Batch/Fits.antt =====
-- The batch that is selected and the memory of the device (tm-core/src/batch.rs).
use native.Mathlib.Nat.{mul-le-mul_right}
use tree_miner_amd.Prelude.{
  ℕ,
  ◌+◌,
  ◌-◌,
  ◌*◌,
  ◌^◌,
  ◌<◌,
  subst,
  sym,
  true,
  ◌≤◌,
  ◌≡◌,
  ◌⊎◌,
  inl,
  inr,
  arith,
  Bool-cases,
  leb,
  ◌==◌,
  ◌||◌,
  Floats.{Floats, F64, one_f64, infinity},
}
use tree_miner_amd.Core.Batch.{
  GpuRuntimeKind, effective_reserve_bytes, attempts_in, overhead, estimate_memory_batch_limit,
  decide, select_batch_size, default_memory_reserve_bytes,
}

-- What IEEE 754 says of the operations that the program uses, on numbers that are exact in an f64.
pub record FloatLaws (fl : Floats) : Type 0 where
  -- A product of whole numbers that an f64 holds is exact.
  pub exact_product :
      (m n : ℕ) → m * n < 2 ^ 53 → fl.mul (fl.of_int m) (fl.of_int n) ≡ fl.of_int (m * n)
  -- Of two values that are not negative, the one with the greater pattern is the greater one.
  pub pattern_order : (x y : F64) → x ≤ y → y ≤ infinity → fl.fle x y ≡ true
  -- A factor that is not below one makes no whole number smaller.
  pub product_grows :
      (n : ℕ) (c : F64)
      → 1 ≤ n
      → n < 2 ^ 53
      → fl.fle one_f64 c ≡ true
      → fl.fle (fl.of_int n) (fl.mul (fl.of_int n) c) ≡ true
  -- A quotient by a divisor that is not below a whole number, rounded down.
  pub quotient_down :
      (a n : ℕ) (x : F64)
      → a < 2 ^ 53
      → 1 ≤ n
      → fl.fle (fl.of_int n) x ≡ true
      → fl.to_int (fl.div (fl.of_int a) x) * n ≤ a

-- The quotient that the program computes is at most the exact one without the overhead.
attempts_in-le :
    (fl : Floats) (available difficulty : ℕ)
    → FloatLaws fl
    → available < 2 ^ 53
    → 1 ≤ difficulty
    → difficulty < 2 ^ 32
    → attempts_in fl available difficulty * (difficulty * 1024) ≤ available
attempts_in-le fl available difficulty laws a d1 d =
    let n = difficulty * 1024 in
    let above = laws.pattern_order one_f64 overhead (omega arith) (omega arith) in
    let grows = laws.product_grows n overhead (omega arith) (omega arith) above in
    let product = laws.exact_product difficulty 1024 (omega arith) in
    laws.quotient_down available n
      (fl.mul (fl.mul (fl.of_int difficulty) (fl.of_int 1024)) overhead) a (omega arith)
      (subst (λ x. fl.fle (fl.of_int n) (fl.mul x overhead) ≡ true) (sym product) grows)

decide-le : (limit difficulty cap : ℕ) → (decide limit difficulty cap).selected_batch_size ≤ limit
unfolding decide
decide-le limit difficulty cap = ground arith

decide-cap :
    (limit difficulty cap : ℕ)
    → (cap ≡ 0) ⊎ ((decide limit difficulty cap).selected_batch_size ≤ cap)
unfolding decide
decide-cap limit difficulty cap = elim (Bool-cases (cap == 0)) [
  | inl none_set ↦ inl (ground arith)
  | inr set ↦ inr (ground arith)
]

decide-none :
    (limit difficulty cap : ℕ) → limit ≡ 0 → (decide limit difficulty cap).selected_batch_size ≡ 0
unfolding decide
decide-none limit difficulty cap h = ground arith

limit_fits :
    (fl : Floats) (runtime : GpuRuntimeKind) (free difficulty reserve : ℕ)
    → FloatLaws fl
    → free < 2 ^ 53
    → difficulty < 2 ^ 32
    → effective_reserve_bytes runtime free reserve ≤ free
    → estimate_memory_batch_limit fl runtime free difficulty reserve * (difficulty * 1024)
        + effective_reserve_bytes runtime free reserve
      ≤ free
unfolding estimate_memory_batch_limit
limit_fits fl runtime free difficulty reserve laws f d h =
    let kept = effective_reserve_bytes runtime free reserve in
    elim (Bool-cases (difficulty == 0 || leb free kept)) [
      | inl nothing ↦ rw nothing (omega (arith, h))
      | inr room ↦
          let mines : 1 ≤ difficulty = ground arith in
          let fits = attempts_in-le fl (free - kept) difficulty laws (omega arith) mines d in
          rw room (omega (arith, h, fits))
    ]

-- Where the float unit keeps the laws of IEEE 754, less than 2 ^ 53 bytes are free and the difficulty
-- is a u32: the batch that is selected needs, at 1024 bytes for each unit of difficulty, no more
-- than the memory that is free above the reserve, or it is no batch at all; a limit that the
-- operator set it keeps.
pub select_batch_size-fits :
    (fl : Floats) (runtime : GpuRuntimeKind) (free difficulty cap : ℕ)
    → FloatLaws fl
    → free < 2 ^ 53
    → difficulty < 2 ^ 32
    → let n = (select_batch_size fl runtime free difficulty cap).selected_batch_size in
      let reserve = effective_reserve_bytes runtime free default_memory_reserve_bytes in
      ((n ≡ 0) ⊎ (n * (difficulty * 1024) + reserve ≤ free)) × ((cap ≡ 0) ⊎ (n ≤ cap))
unfolding select_batch_size
select_batch_size-fits fl runtime free difficulty cap laws f d =
    let reserve = effective_reserve_bytes runtime free default_memory_reserve_bytes in
    let limit =
      estimate_memory_batch_limit fl runtime free difficulty default_memory_reserve_bytes in
    (
      elim (Bool-cases (leb free reserve)) [
        | inl full ↦
            let nothing : limit ≡ 0 = unfold estimate_memory_batch_limit in ground arith in
            inl (decide-none limit difficulty cap nothing)
        | inr room ↦
            let fits =
              limit_fits fl runtime free difficulty default_memory_reserve_bytes laws f d
                (ground arith) in
            inr (
              omega (
                arith,
                fits,
                mul-le-mul_right (difficulty * 1024) (decide-le limit difficulty cap),
              ))
      ],
      decide-cap limit difficulty cap,
    )
