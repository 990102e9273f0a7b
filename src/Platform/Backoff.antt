-- ===== src/Platform/Backoff.antt =====
-- treeminer-rs/crates/tm-platform/src/backoff.rs: the delay before a reconnection. A Duration is a
-- number of milliseconds.
use tree_miner_amd.Prelude.{
  ℕ, zero, suc, ◌*◌, ◌^◌, ◌≤◌, ◌≡◌, refl, ◌∙◌, min, max, leb, inl, inr, arith, Bool-cases,
}
use native.Mathlib.Nat.{pow-succ', one-le-pow}

abbrev pub initial_reconnect_delay_ms : ℕ
initial_reconnect_delay_ms = 1000

abbrev pub max_reconnect_delay_ms : ℕ
max_reconnect_delay_ms = 30000

pub record ReconnectBackoff : Type 0 where
  pub initial : ℕ
  pub ceiling : ℕ
  pub current : ℕ

unfoldable pub new : ℕ → ℕ → ReconnectBackoff
new initial ceiling =
    let initial' = max initial 1 in
    record { initial = initial'; ceiling = max ceiling initial'; current = initial' }

unfoldable pub default_backoff : ReconnectBackoff
unfolding new
default_backoff = new initial_reconnect_delay_ms max_reconnect_delay_ms

unfoldable pub next_delay : ReconnectBackoff → ReconnectBackoff × ℕ
next_delay b = (record b { current = min (b.current * 2) b.ceiling }, b.current)

unfoldable pub reset : ReconnectBackoff → ReconnectBackoff
reset b = record b { current = b.initial }

-- The backoff after a number of failed attempts.
unfoldable pub after : ℕ → ReconnectBackoff → ReconnectBackoff
unfolding next_delay
after zero b = b
after (suc n) b = after n (next_delay b).0

doubled-min :
    (n delay ceiling : ℕ)
    → min (min (delay * 2) ceiling * 2 ^ n) ceiling ≡ min (delay * 2 ^ suc n) ceiling
doubled-min n delay ceiling = rw (pow-succ' 2 n) (capped (2 ^ n) (one-le-pow n 2 (omega arith)))
  where
    capped :
        (p : ℕ) → 1 ≤ p → min (min (delay * 2) ceiling * p) ceiling ≡ min (delay * (2 * p)) ceiling
    capped zero h = absurd (omega arith)
    capped (suc p) h = elim (Bool-cases (leb (delay * 2) ceiling)) [
      | inl low ↦ let e : min (delay * 2) ceiling ≡ delay * 2 = ground arith in rw e (omega arith)
      | inr high ↦ let e : min (delay * 2) ceiling ≡ ceiling = ground arith in rw e (omega arith)
    ]

after-current :
    (n : ℕ) (b : ReconnectBackoff)
    → b.current ≤ b.ceiling
    → ((after n b).current ≡ min (b.current * 2 ^ n) b.ceiling) × ((after n b).initial ≡ b.initial)
unfolding after next_delay
after-current zero b h = (omega arith, refl)
after-current (suc n) b h =
    let below : min (b.current * 2) b.ceiling ≤ b.ceiling = omega arith in
    let (current, same) = after-current n (next_delay b).0 below in
    (current ∙ doubled-min n b.current b.ceiling, same)

-- After `n` failed attempts the wait is the initial delay, at least a millisecond, times `2 ^ n`,
-- cut to the ceiling, which is at least the initial delay; a reset starts over.
pub backoff_exact :
    (initial ceiling n : ℕ)
    → let first = max initial 1 in
      let failed = after n (new initial ceiling) in
      ((next_delay failed).1 ≡ min (first * 2 ^ n) (max ceiling first))
      × ((next_delay (reset failed)).1 ≡ first)
unfolding new next_delay reset
backoff_exact initial ceiling n = after-current n (new initial ceiling) (omega arith)
