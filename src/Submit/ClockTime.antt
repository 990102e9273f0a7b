-- ===== src/Submit/ClockTime.antt =====
-- treeminer-rs/crates/tm-submit/src/clocktime.rs: dates, timestamps and the XUNI window.
-- Milliseconds since the epoch are i64 values, integers here. The two `now_*` functions of that file
-- read the system's clocks and are parameters of what calls them.
pub mod Civil
pub mod Window
pub mod Stamp
use tree_miner_amd.Prelude.{
  ℕ,
  zero,
  suc,
  ◌+◌,
  ◌-◌,
  ◌*◌,
  ◌/◌,
  ◌%◌,
  Bool,
  true,
  false,
  not,
  ◌&&◌,
  Option,
  none,
  some,
  List,
  [],
  ◌∷◌,
  ◌++◌,
  ltb,
  leb,
  ◌==◌,
  if◌then◌else◌,
  length,
  String,
  Text.{Text, codes, text_eq, is_digit, decimal},
  Int.{ℤ, pos, negsuc, ◌+ℤ◌, ◌-ℤ◌, ◌*ℤ◌, ltb_ℤ, pos_part, div_trunc, rem_trunc, as_u32},
}
use tree_miner_amd.Submit.Drain.{XuniWindowState}

abbrev pub leb_ℤ : ℤ → ℤ → Bool
leb_ℤ a b = not (ltb_ℤ b a)

-- `i64::from(b)`
abbrev flag : Bool → ℤ
flag b = if b then pos 1 else pos 0

-- A proleptic Gregorian date, as the tuple that `civil_from_days` returns.
pub record CivilDate : Type 0 where
  pub year : ℤ
  pub month : ℕ
  pub day : ℕ

-- 400-year eras, with the branch on the sign that makes the truncated division a floor.
unfoldable pub era_of : ℤ → ℤ → ℤ → ℤ
era_of z span last = div_trunc (if leb_ℤ (pos 0) z then z else z -ℤ last) span

unfoldable pub days_from_civil : ℤ → ℕ → ℕ → ℤ
days_from_civil y m d =
    let y' = y -ℤ flag (leb m 2) in
    let era = era_of y' (pos 400) (pos 399) in
    let yoe = y' -ℤ era *ℤ pos 400 in
    let doy =
      div_trunc (pos 153 *ℤ (pos m +ℤ (if ltb 2 m then negsuc 2 else pos 9)) +ℤ pos 2) (pos 5)
      +ℤ pos d
      -ℤ pos 1 in
    let doe = yoe *ℤ pos 365 +ℤ div_trunc yoe (pos 4) -ℤ div_trunc yoe (pos 100) +ℤ doy in
    era *ℤ pos 146097 +ℤ doe -ℤ pos 719468

-- The `u32` part of `civil_from_days`: year of the era, day of the (March-based) year, month index.
unfoldable pub year_of_era : ℕ → ℕ
year_of_era doe = (doe - doe / 1460 + doe / 36524 - doe / 146096) / 365

unfoldable pub day_of_year : ℕ → ℕ
day_of_year doe = let yoe = year_of_era doe in doe - (365 * yoe + yoe / 4 - yoe / 100)

unfoldable pub month_index : ℕ → ℕ
month_index doe = (5 * day_of_year doe + 2) / 153

unfoldable pub civil_from_days : ℤ → CivilDate
civil_from_days days =
    let z = days +ℤ pos 719468 in
    let era = era_of z (pos 146097) (pos 146096) in
    let doe = as_u32 (z -ℤ era *ℤ pos 146097) in
    let yoe = year_of_era doe in
    let y = pos yoe +ℤ era *ℤ pos 400 in
    let doy = day_of_year doe in
    let mp = month_index doe in
    let d = doy - (153 * mp + 2) / 5 + 1 in
    let m = if ltb mp 10 then mp + 3 else mp - 9 in
    record { year = y +ℤ flag (leb m 2); month = m; day = d }

not_zero : ℤ → Bool
not_zero (pos zero) = false
not_zero _ = true

-- `!=` on Booleans
differ : Bool → Bool → Bool
differ true b = not b
differ false b = b

unfoldable pub floor_div : ℤ → ℤ → ℤ
unfolding ◌-ℤ◌ div_trunc rem_trunc not_zero differ
floor_div a b =
    let q = div_trunc a b in
    if not_zero (rem_trunc a b) && differ (ltb_ℤ a (pos 0)) (ltb_ℤ b (pos 0)) then q -ℤ pos 1 else q

abbrev pub ms_per_hour : ℕ
ms_per_hour = 3600000

abbrev pub xuni_open_before_hour_ms : ℕ
xuni_open_before_hour_ms = 300000

abbrev pub xuni_open_after_hour_ms : ℕ
xuni_open_after_hour_ms = 300000

-- `XuniWindowState`'s `ms_until_close` from the milliseconds into the hour.
unfoldable pub window_in_hour : ℕ → XuniWindowState
window_in_hour into_hour =
    if leb (ms_per_hour - xuni_open_before_hour_ms) into_hour
    then record {
      is_open = true;
      ms_until_close = ms_per_hour - into_hour + xuni_open_after_hour_ms;
    }
    else if ltb into_hour xuni_open_after_hour_ms
    then record { is_open = true; ms_until_close = xuni_open_after_hour_ms - into_hour }
    else record { is_open = false; ms_until_close = 0 }

-- Milliseconds into the hour, between 0 and an hour also before the epoch.
unfoldable pub into_hour : ℤ → ℤ
unfolding floor_div ◌-ℤ◌ ◌*ℤ◌
into_hour server_epoch_ms =
    server_epoch_ms -ℤ floor_div server_epoch_ms (pos ms_per_hour) *ℤ pos ms_per_hour

unfoldable pub xuni_window_at : ℤ → XuniWindowState
unfolding into_hour window_in_hour
xuni_window_at server_epoch_ms = window_in_hour (pos_part (into_hour server_epoch_ms))
