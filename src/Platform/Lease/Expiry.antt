-- ===== src/Platform/Lease/Expiry.antt =====
-- When a lease is over.
use tree_miner_amd.Prelude.{
  ℕ,
  ◌+◌,
  ◌*◌,
  ◌≤◌,
  ◌<◌,
  ◌≡◌,
  ◌↔◌,
  true,
  subst,
  sym,
  false,
  some,
  arith,
  Int.{pos, ◌-ℤ◌},
}
use tree_miner_amd.Platform.Lease.{
  LeaseInfo, nanos_per_sec, elapsed_secs, is_expired, has_active_lease, remaining_seconds,
}

-- What the three tests say of a lease, when it is over by the instant `now`.
abbrev pub IsExact : LeaseInfo → ℕ → Type 0 → Type 0
IsExact lease now Over =
    let current = some lease in
    (Over ↔ (is_expired now current ≡ true))
    × (Over ↔ (has_active_lease now current ≡ false))
    × (Over ↔ (remaining_seconds now current ≡ pos 0))

exact_for :
    (lease : LeaseInfo) (d now : ℕ)
    → 0 < d
    → lease.started_at ≤ now
    → IsExact
        (record lease { duration_sec = pos d })
        now
        (lease.started_at + d * nanos_per_sec ≤ now)
unfolding is_expired has_active_lease remaining_seconds elapsed_secs ◌-ℤ◌
exact_for lease d now p h = (
  (λ o. ground arith, λ o. ground arith),
  (λ o. ground arith, λ o. ground arith),
  (λ o. ground arith, λ o. ground arith),
)

-- A lease with a positive duration runs out at the second that its duration names, counted on the
-- monotonic clock from its start: from then on it reads as expired, is not active and has no
-- seconds left, and before then none of these holds.
pub expiry_exact :
    (lease : LeaseInfo) (d now : ℕ)
    → lease.duration_sec ≡ pos d
    → 0 < d
    → lease.started_at ≤ now
    → IsExact lease now (lease.started_at + d * nanos_per_sec ≤ now)
expiry_exact lease d now e p h =
    subst
      (λ z.
        IsExact (record lease { duration_sec = z }) now
          (lease.started_at + d * nanos_per_sec ≤ now))
      (sym e) (exact_for lease d now p h)
