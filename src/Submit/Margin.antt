-- ===== src/Submit/Margin.antt =====
-- treeminer-rs/crates/tm-submit/src/margin.rs: the headroom added to the mined memory cost.
pub mod Laws
use tree_miner_amd.Prelude.{
  ℕ,
  ◌+◌,
  ◌-◌,
  ◌*◌,
  ◌/◌,
  ◌^◌,
  Bool,
  true,
  false,
  not,
  ◌&&◌,
  ◌||◌,
  Option,
  none,
  some,
  map,
  min,
  ltb,
  leb,
  ◌==◌,
  if◌then◌else◌,
  Text.{Text, codes, text_eq},
}

pub data MarginMode : Type 0 where
  off fixed auto : MarginMode

-- MarginMode::as_str
unfoldable pub mode_as_str : MarginMode → Text
mode_as_str off = codes "off"
mode_as_str fixed = codes "fixed"
mode_as_str auto = codes "auto"

-- u8::to_ascii_lowercase
unfoldable pub to_ascii_lowercase : ℕ → ℕ
to_ascii_lowercase c = if leb b'A' c && leb c b'Z' then c + 32 else c

-- MarginMode::parse
unfoldable pub mode_parse : Text → Option MarginMode
unfolding text_eq to_ascii_lowercase
mode_parse text =
    let t = map to_ascii_lowercase text in
    if text_eq t (codes "off") || (text_eq t (codes "none") || text_eq t (codes "disabled"))
    then some off
    else if text_eq t (codes "fixed")
        || (text_eq t (codes "static") || text_eq t (codes "constant"))
    then some fixed
    else if text_eq t (codes "auto") || text_eq t (codes "adaptive")
    then some auto
    else none

pub record MarginConfig : Type 0 where
  pub mode : MarginMode
  pub margin_kib : ℕ
  pub max_kib : ℕ
  pub adjust_period_ms : ℕ

abbrev pub default_config : MarginConfig
default_config = record { mode = off; margin_kib = 1000; max_kib = 5000; adjust_period_ms = 300000 }

pub record MarginInputs : Type 0 where
  pub breaker_open : Bool
  pub outage_ms : ℕ
  pub backlog : ℕ

-- u64::saturating_mul
abbrev pub saturating_mul : ℕ → ℕ → ℕ
saturating_mul a b = min (a * b) (2 ^ 64 - 1)

margin_steps : MarginConfig → MarginInputs → ℕ
margin_steps cfg input =
    if input.breaker_open && ltb 0 cfg.adjust_period_ms && ltb 0 input.outage_ms
    then 1 + input.outage_ms / cfg.adjust_period_ms
    else 1

margin_of : MarginMode → MarginConfig → MarginInputs → ℕ
unfolding margin_steps
margin_of off cfg input = 0
margin_of fixed cfg input = cfg.margin_kib
margin_of auto cfg input =
    if not input.breaker_open && input.backlog == 0
    then 0
    else min (saturating_mul cfg.margin_kib (margin_steps cfg input)) cfg.max_kib

unfoldable pub compute_margin : MarginConfig → MarginInputs → ℕ
unfolding margin_of
compute_margin cfg input = margin_of cfg.mode cfg input
