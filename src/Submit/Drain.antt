-- ===== src/Submit/Drain.antt =====
-- treeminer-rs/crates/tm-submit/src/drain.rs: which find is submitted next, and how fast.
-- Rates are `f64`; an `f64`'s operations are a parameter. The time until the window closes is a
-- natural number of milliseconds: the window that the caller computes never has less than none.
pub mod Order
pub mod Selection
pub mod Pacing
use tree_miner_amd.Prelude.{
  ℕ,
  Bool,
  true,
  false,
  ◌&&◌,
  ◌||◌,
  not,
  Option,
  none,
  some,
  List,
  [],
  ◌∷◌,
  ltb,
  leb,
  if◌then◌else◌,
  Floats.{F64, Floats, zero_f64, quarter_f64, one_f64, two_f64, four_f64, thousand_f64},
}
use tree_miner_amd.Core.Types.{FindKind, xen11, xuni, FindRecord}

pub data DifficultyTrend : Type 0 where
  unknown flat rising falling : DifficultyTrend

abbrev pub is_rising : DifficultyTrend → Bool
is_rising rising = true
is_rising _ = false

-- `kind == FindKind::Xuni`
abbrev pub is_xuni : FindKind → Bool
is_xuni xuni = true
is_xuni xen11 = false

pub record XuniWindowState : Type 0 where
  pub is_open : Bool
  pub ms_until_close : ℕ

pub record DrainConfig : Type 0 where
  pub start_rate_per_s : F64
  pub max_rate_per_s : F64
  pub min_rate_per_s : F64
  pub xuni_preempt_window_ms : ℕ

abbrev pub default_config : DrainConfig
default_config = record {
  start_rate_per_s = one_f64;
  max_rate_per_s = four_f64;
  min_rate_per_s = quarter_f64;
  xuni_preempt_window_ms = 120000;
}

pub record DrainScheduler : Type 0 where
  pub cfg : DrainConfig
  pub rate_per_s : F64

unfoldable pub new : Floats → DrainConfig → DrainScheduler
new fl cfg = record {
  cfg = cfg;
  rate_per_s = if fl.fle cfg.start_rate_per_s zero_f64 then one_f64 else cfg.start_rate_per_s;
}

-- `Option::is_none`, `Option::or`
abbrev pub is_none {ℓ} : {A : Type ℓ} → Option A → Bool
is_none none = true
is_none (some a) = false

abbrev pub or_else {ℓ} : {A : Type ℓ} → Option A → Option A → Option A
or_else (some a) o = some a
or_else none o = o

-- The update of `best_xen11` by a XEN11 find.
better : DifficultyTrend → Option FindRecord → FindRecord → Option FindRecord
better trend none r = some r
better trend (some best) r =
    if is_rising trend && ltb r.payload.memory_cost best.payload.memory_cost
    then some r
    else some best

-- One round of the loop over `eligible`: the new `oldest_xuni` and `best_xen11`.
pick_xuni : XuniWindowState → Option FindRecord → FindRecord → Option FindRecord
pick_xuni window oldest r =
    if is_xuni r.payload.kind && (window.is_open && is_none oldest) then some r else oldest

pick_xen11 : DifficultyTrend → Option FindRecord → FindRecord → Option FindRecord
unfolding better
pick_xen11 trend best r = if is_xuni r.payload.kind then best else better trend best r

scan :
    DifficultyTrend
    → XuniWindowState
    → List FindRecord
    → Option FindRecord
    → Option FindRecord
    → Option FindRecord × Option FindRecord
unfolding pick_xuni pick_xen11
scan trend window [] oldest best = (oldest, best)
scan trend window (r ∷ rs) oldest best =
    scan trend window rs (pick_xuni window oldest r) (pick_xen11 trend best r)

choose : DrainConfig → XuniWindowState → Option FindRecord → Option FindRecord → Option FindRecord
choose cfg window none best = or_else best none
choose cfg window (some x) best =
    if leb window.ms_until_close cfg.xuni_preempt_window_ms then some x else or_else best (some x)

unfoldable pub select_next :
    DrainScheduler → List FindRecord → DifficultyTrend → XuniWindowState → Option FindRecord
unfolding scan choose
select_next s eligible trend window =
    let (oldest_xuni, best_xen11) = scan trend window eligible none none in
    choose s.cfg window oldest_xuni best_xen11

unfoldable pub on_breaker_close : DrainScheduler → DrainScheduler
on_breaker_close s = record s { rate_per_s = s.cfg.start_rate_per_s }

unfoldable pub on_healthy_round_trip : Floats → DrainScheduler → DrainScheduler
on_healthy_round_trip fl s = record s {
  rate_per_s = fl.fmin (fl.mul s.rate_per_s two_f64) s.cfg.max_rate_per_s;
}

unfoldable pub on_throttle : Floats → DrainScheduler → DrainScheduler
on_throttle fl s = record s {
  rate_per_s = fl.fmax (fl.div s.rate_per_s two_f64) s.cfg.min_rate_per_s;
}

unfoldable pub submit_interval_ms : Floats → DrainScheduler → ℕ
submit_interval_ms fl s = fl.to_int (fl.div thousand_f64 s.rate_per_s)
