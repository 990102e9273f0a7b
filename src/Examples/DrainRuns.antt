-- ===== src/Examples/DrainRuns.antt =====
-- Runs of the drain scheduler, of the clock and of the backoff.
use tree_miner_amd.Prelude.{
  ◌≡◌,
  refl,
  inl,
  true,
  false,
  some,
  List,
  [],
  ◌∷◌,
  arith,
  Int.{ℤ, pos, negsuc, ◌+ℤ◌, ◌-ℤ◌, ◌*ℤ◌},
  Text.{codes, text_eq},
  Floats.{one_f64},
}
use tree_miner_amd.Prelude.Int
use tree_miner_amd.Examples.{counting, found}
use tree_miner_amd.Core.Types.{xen11, xuni, FindRecord}
use tree_miner_amd.Submit.Drain.{
  DifficultyTrend, flat, rising, XuniWindowState, DrainScheduler, select_next, new,
}
use tree_miner_amd.Submit.Drain
use tree_miner_amd.Submit.Drain.Order.{policy, select_next-eq-policy}
use tree_miner_amd.Submit.Drain.Pacing.{IsOrdered, IsSane}
use tree_miner_amd.Submit.ClockTime.{civil_from_days, days_from_civil, xuni_window_at, floor_div}
use tree_miner_amd.Submit.ClockTime
use tree_miner_amd.Submit.ClockTime.Civil.{days_from_civil-civil_from_days}
use tree_miner_amd.Submit.ClockTime.Window.{xuni_window_at-open_iff}
use tree_miner_amd.Submit.ClockTime.Stamp.{
  parse_http_date_ms, parse_u32, parse_i64, parse_hms, month_from_name, iso_utc,
}

abbrev backlog : List FindRecord
backlog = found 1 xen11 900 ∷ found 2 xuni 800 ∷ found 3 xen11 700 ∷ []

abbrev shut : XuniWindowState
shut = record { is_open = false; ms_until_close = 0 }

abbrev ajar : XuniWindowState
ajar = record { is_open = true; ms_until_close = 1000 }

abbrev scheduler : DrainScheduler
scheduler = record { cfg = Drain.default_config; rate_per_s = one_f64 }

select_next-eq-policy_example :
    select_next scheduler backlog rising ajar ≡ policy scheduler rising ajar backlog
select_next-eq-policy_example = select_next-eq-policy scheduler backlog rising ajar

cheapest_first : select_next scheduler backlog rising shut ≡ some (found 3 xen11 700)
unfolding select_next
cheapest_first = refl

counting-IsOrdered : IsOrdered counting
counting-IsOrdered = record {
  fle_refl = λ a. ground arith;
  fle_trans = λ a b c h k. ground arith;
  fmin_right = λ a b. ground arith;
  fmin_glb = λ a b c h k. ground arith;
  fmax_right = λ a b. ground arith;
  fmax_lub = λ a b c h k. ground arith;
  double_ge = λ a h. ground arith;
  halve_le = λ a h. ground arith;
}

default-IsSane : IsSane counting Drain.default_config
default-IsSane = record { nonneg = refl; min_start = refl; start_max = refl }

days_from_civil-civil_from_days_example :
    let c = civil_from_days (negsuc 0) in days_from_civil c.year c.month c.day ≡ negsuc 0
days_from_civil-civil_from_days_example = days_from_civil-civil_from_days (negsuc 0)

open_then : (xuni_window_at (pos 3400000)).is_open ≡ true
open_then = (xuni_window_at-open_iff (pos 3400000)).1 (inl (omega arith))

sunday : parse_http_date_ms (codes "Sun, 06 Nov 1994 08:49:37 GMT") ≡ some (pos 784111777000)
unfolding parse_http_date_ms parse_u32 parse_i64 parse_hms month_from_name days_from_civil text_eq
    ClockTime.era_of ◌+ℤ◌ ◌-ℤ◌ ◌*ℤ◌ Int.div_trunc
sunday = refl

stamped : iso_utc (pos 784111777000) ≡ codes "1994-11-06T08:49:37Z"
unfolding iso_utc civil_from_days floor_div ClockTime.era_of ◌+ℤ◌ ◌-ℤ◌ ◌*ℤ◌ Int.div_trunc
    ClockTime.year_of_era ClockTime.day_of_year ClockTime.month_index Int.rem_trunc
stamped = refl
