-- ===== src/Submit/ClockTime/Civil.antt =====
-- From a day number to its date and back.
use tree_miner_amd.Prelude.{
  ℕ,
  ◌+◌,
  ◌-◌,
  ◌*◌,
  ◌/◌,
  ◌≤◌,
  ◌<◌,
  ◌≡◌,
  ap,
  ◌∙◌,
  arith,
  ltb,
  leb,
  if◌then◌else◌,
  Int.{ℤ, pos, negsuc, pos_part, neg_part, ◌+ℤ◌, ◌-ℤ◌, ◌*ℤ◌, div_trunc, as_u32, +ℤ_cancel},
}
use tree_miner_amd.Submit.ClockTime.{
  days_from_civil, civil_from_days, year_of_era, day_of_year, month_index, era_of, flag,
}

year_of_era_bounds :
    (doe : ℕ)
    → doe < 146097
    → (year_of_era doe < 400)
      × (365 * year_of_era doe + year_of_era doe / 4 - year_of_era doe / 100 ≤ doe)
      × (day_of_year doe ≤ 365)
unfolding year_of_era day_of_year
year_of_era_bounds doe h = (omega arith, omega arith, omega arith)

-- The month of a month index that counts from March.
abbrev month_of : ℕ → ℕ
month_of mp = if ltb mp 10 then mp + 3 else mp - 9

*ℤ_parts :
    (a : ℤ) (k : ℕ)
    → (pos_part (a *ℤ pos k) ≡ pos_part a * k) × (neg_part (a *ℤ pos k) ≡ neg_part a * k)
unfolding ◌*ℤ◌
*ℤ_parts (pos n) k = ground arith
*ℤ_parts (negsuc n) k = ground arith

-- The era of a year, and of a day number, is the floor of a division.
era_of_year :
    (e : ℤ) (yoe : ℕ) → yoe < 400 → era_of (pos yoe +ℤ e *ℤ pos 400) (pos 400) (pos 399) ≡ e
unfolding era_of ◌+ℤ◌ ◌-ℤ◌ ◌*ℤ◌ div_trunc
era_of_year (pos n) yoe h = ground arith
era_of_year (negsuc n) yoe h = ground arith

era_of_days :
    (w : ℤ)
    → let e = era_of w (pos 146097) (pos 146096) in
      let doe = as_u32 (w -ℤ e *ℤ pos 146097) in (doe < 146097) × (w ≡ e *ℤ pos 146097 +ℤ pos doe)
unfolding era_of ◌+ℤ◌ ◌-ℤ◌ ◌*ℤ◌ div_trunc
era_of_days (pos n) = (ground arith, ground arith)
era_of_days (negsuc n) = (ground arith, ground arith)

month_shift :
    (mp : ℕ)
    → mp < 12
    → pos (month_of mp) +ℤ (if ltb 2 (month_of mp) then negsuc 2 else pos 9) ≡ pos mp
unfolding ◌+ℤ◌
month_shift mp h = ground arith

yoe_days :
    (yoe : ℕ)
    → pos yoe *ℤ pos 365 +ℤ div_trunc (pos yoe) (pos 4) -ℤ div_trunc (pos yoe) (pos 100)
      ≡ pos (365 * yoe + yoe / 4 - yoe / 100)
unfolding ◌+ℤ◌ ◌-ℤ◌ ◌*ℤ◌ div_trunc
yoe_days yoe = ground arith

month_days :
    (mp d : ℕ)
    → 1 ≤ d
    → div_trunc (pos 153 *ℤ pos mp +ℤ pos 2) (pos 5) +ℤ pos d -ℤ pos 1
      ≡ pos ((153 * mp + 2) / 5 + d - 1)
unfolding ◌+ℤ◌ ◌-ℤ◌ ◌*ℤ◌ div_trunc
month_days mp d h = ground arith

pos-+ℤ : (a b c : ℕ) → a + b ≡ c → pos a +ℤ pos b ≡ pos c
unfolding ◌+ℤ◌
pos-+ℤ a b c h = ground arith

days_from_civil-split :
    (e : ℤ) (yoe mp d : ℕ)
    → yoe < 400
    → mp < 12
    → 1 ≤ d
    → days_from_civil (pos yoe +ℤ e *ℤ pos 400 +ℤ flag (leb (month_of mp) 2)) (month_of mp) d
      ≡ e *ℤ pos 146097
        +ℤ pos (365 * yoe + yoe / 4 - yoe / 100 + (153 * mp + 2) / 5 + d - 1)
        -ℤ pos 719468
unfolding days_from_civil
days_from_civil-split e yoe mp d hy hm hd =
    rw
      (
        shift,
        era_of_year e yoe hy,
        +ℤ_cancel (pos yoe) (e *ℤ pos 400),
        month_shift mp hm,
        yoe_days yoe,
        month_days mp d hd,
      )
      (ap (λ x. e *ℤ pos 146097 +ℤ x -ℤ pos 719468) (pos-+ℤ _ _ _ (omega arith)))
  where
    shift :
        pos yoe +ℤ e *ℤ pos 400 +ℤ flag (leb (month_of mp) 2) -ℤ flag (leb (month_of mp) 2)
        ≡ pos yoe +ℤ e *ℤ pos 400
    shift = +ℤ_cancel _ _

-- The day of the month counts from 1, and its month's days come before it in the year.
day_of_month :
    (doe : ℕ)
    → doe < 146097
    → (month_index doe < 12)
      × ((153 * month_index doe + 2) / 5 ≤ day_of_year doe)
      × (day_of_year doe - (153 * month_index doe + 2) / 5 < 31)
unfolding month_index
day_of_month doe h = let b = (year_of_era_bounds doe h).2 in (omega arith, omega arith, omega arith)

sum_back :
    (doe : ℕ)
    → doe < 146097
    → 365 * year_of_era doe
        + year_of_era doe / 4
        - year_of_era doe / 100
        + (153 * month_index doe + 2) / 5
        + (day_of_year doe - (153 * month_index doe + 2) / 5 + 1)
        - 1
      ≡ doe
unfolding day_of_year
sum_back doe h = omega (arith, year_of_era_bounds doe h, day_of_month doe h)

-- Every day number, before the epoch too, comes back from the date that is made of it.
pub days_from_civil-civil_from_days :
    (days : ℤ) → let c = civil_from_days days in days_from_civil c.year c.month c.day ≡ days
unfolding civil_from_days
days_from_civil-civil_from_days days =
    let w = days +ℤ pos 719468 in
    let e = era_of w (pos 146097) (pos 146096) in
    let doe = as_u32 (w -ℤ e *ℤ pos 146097) in
    let (small, split) = era_of_days w in
    let bounds = year_of_era_bounds doe small in
    let month = day_of_month doe small in
    days_from_civil-split e (year_of_era doe) (month_index doe)
      (day_of_year doe - (153 * month_index doe + 2) / 5 + 1) bounds.0 month.0 (omega arith)
    ∙ rw (sum_back doe small, ← split) (+ℤ_cancel days (pos 719468))

-- The date is one of the calendar's: a month from 1 to 12 and a day from 1 to 31.
pub civil_from_days_range :
    (days : ℤ)
    → let c = civil_from_days days in (1 ≤ c.month) × (c.month ≤ 12) × (1 ≤ c.day) × (c.day ≤ 31)
unfolding civil_from_days
civil_from_days_range days =
    let w = days +ℤ pos 719468 in
    let doe = as_u32 (w -ℤ era_of w (pos 146097) (pos 146096) *ℤ pos 146097) in
    let month = day_of_month doe (era_of_days w).0 in
    (ground arith, ground arith, omega arith, omega arith)
