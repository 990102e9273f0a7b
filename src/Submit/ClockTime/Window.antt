-- ===== src/Submit/ClockTime/Window.antt =====
-- The XUNI window: five minutes before the hour to five minutes after it.
use tree_miner_amd.Prelude.{
  ℕ,
  ◌+◌,
  ◌-◌,
  ◌%◌,
  ◌≤◌,
  ◌<◌,
  ◌≡◌,
  ap,
  ◌∙◌,
  ◌⊎◌,
  true,
  false,
  arith,
  Int.{ℤ, pos, negsuc, pos_part, ◌+ℤ◌},
}
use tree_miner_amd.Submit.ClockTime.{into_hour, window_in_hour, xuni_window_at}

-- The residue of an instant within its hour.
abbrev pub hour_residue : ℤ → ℕ
hour_residue (pos n) = n % 3600000
hour_residue (negsuc n) = 3599999 - n % 3600000

into_hour-eq : (t : ℤ) → into_hour t ≡ pos (hour_residue t)
unfolding into_hour
into_hour-eq (pos n) = ground arith
into_hour-eq (negsuc n) = ground arith

residue-lt : (t : ℤ) → hour_residue t < 3600000
residue-lt (pos n) = omega arith
residue-lt (negsuc n) = omega arith

residue_later : (t : ℤ) (k : ℕ) → hour_residue (t +ℤ pos k) ≡ (hour_residue t + k) % 3600000
unfolding ◌+ℤ◌
residue_later (pos n) k = ground arith
residue_later (negsuc n) k = ground arith

window_later :
    (t : ℤ) (k : ℕ) → xuni_window_at (t +ℤ pos k) ≡ window_in_hour ((hour_residue t + k) % 3600000)
unfolding xuni_window_at
window_later t k =
    ap (λ x. window_in_hour (pos_part x)) (into_hour-eq (t +ℤ pos k))
    ∙ ap window_in_hour (residue_later t k)

window_now : (t : ℤ) → xuni_window_at t ≡ window_in_hour (hour_residue t)
unfolding xuni_window_at
window_now t = ap (λ x. window_in_hour (pos_part x)) (into_hour-eq t)

-- At any instant, before the epoch too, the window is open exactly in the last and the first five
-- minutes of an hour.
pub xuni_window_at-open_iff :
    (t : ℤ)
    → ((xuni_window_at t).is_open ≡ true → (3300000 ≤ hour_residue t) ⊎ (hour_residue t < 300000))
      × ((3300000 ≤ hour_residue t) ⊎ (hour_residue t < 300000) → (xuni_window_at t).is_open ≡ true)
unfolding window_in_hour
xuni_window_at-open_iff t = rw (window_now t) (λ h. ground arith, λ h. ground arith)

shape_open :
    (r k : ℕ)
    → r < 3600000
    → (window_in_hour r).is_open ≡ true
    → k < (window_in_hour r).ms_until_close
    → (window_in_hour ((r + k) % 3600000)).is_open ≡ true
unfolding window_in_hour
shape_open r k h o lt = ground arith

shape_shut :
    (r : ℕ)
    → r < 3600000
    → (window_in_hour r).is_open ≡ true
    → (window_in_hour ((r + (window_in_hour r).ms_until_close) % 3600000)).is_open ≡ false
unfolding window_in_hour
shape_shut r h o = ground arith

-- An open window stays open for `ms_until_close` milliseconds and is closed then: the estimate by
-- which XUNI preempt XEN11 is exact.
pub xuni_window_at-until_close :
    (t : ℤ)
    → (xuni_window_at t).is_open ≡ true
    → ((k : ℕ)
        → k < (xuni_window_at t).ms_until_close
        → (xuni_window_at (t +ℤ pos k)).is_open ≡ true)
      × ((xuni_window_at (t +ℤ pos (xuni_window_at t).ms_until_close)).is_open ≡ false)
xuni_window_at-until_close t = rw (window_now t) λ o. (
  λ k lt. rw (window_later t k) (shape_open (hour_residue t) k (residue-lt t) o lt),
  rw (window_later t (window_in_hour (hour_residue t)).ms_until_close)
      (shape_shut (hour_residue t) (residue-lt t) o),
)
