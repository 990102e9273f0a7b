-- ===== src/Submit/Drain/Selection.antt =====
-- What a selection guarantees to the drain loop.
use mathlib.Core.List.{Memᴰ}
use tree_miner_amd.Prelude.{
  ◌≤◌, ◌≡◌, ◌≢◌, refl, ◌⊎◌, inl, inr, Bool, true, false, Option, none, some, List, [], ◌∷◌, All,
  arith, leb, Bool-cases, filter_by, not, subst, if◌then◌else◌,
}
use tree_miner_amd.Core.Types.{xen11, FindRecord}
use tree_miner_amd.Submit.Drain.{
  DrainScheduler, DifficultyTrend, XuniWindowState, rising, is_xuni, select_next, or_else,
}
use tree_miner_amd.Submit.Drain.Order.{
  xen11_of, xuni_of, head?, cheapest, first_xen11, policy, select_next-eq-policy, first_xen11-Memᴰ,
  head?-Memᴰ, cheapest-le,
}

Memᴰ-filter_by :
    (p : FindRecord → Bool) (rs : List FindRecord) (r : FindRecord)
    → Memᴰ r (filter_by p rs)
    → Memᴰ r rs × (p r ≡ true)
Memᴰ-filter_by p [] r m = elim m [ ]
Memᴰ-filter_by p (x ∷ rs) r m = elim (Bool-cases (p x)) [
  | inl e ↦ kept (Memᴰ-filter_by p rs r) e (rw e at m)
  | inr e ↦ let deeper = Memᴰ-filter_by p rs r (rw e at m) in (Memᴰ.tail deeper.0, deeper.1)
]
  where
    kept :
        (Memᴰ r (filter_by p rs) → Memᴰ r rs × (p r ≡ true))
        → p x ≡ true
        → Memᴰ r (x ∷ filter_by p rs)
        → Memᴰ r (x ∷ rs) × (p r ≡ true)
    kept ih e (Memᴰ.head q) = (Memᴰ.head q, rw q e)
    kept ih e (Memᴰ.tail t) = (Memᴰ.tail (ih t).0, (ih t).1)

filter_by-Memᴰ :
    (p : FindRecord → Bool) (rs : List FindRecord) (r : FindRecord)
    → p r ≡ true
    → Memᴰ r rs
    → Memᴰ r (filter_by p rs)
filter_by-Memᴰ p [] r h m = elim m [ ]
filter_by-Memᴰ p (x ∷ rs) r h (Memᴰ.head q) = rw (← q) (rw h (Memᴰ.head refl))
filter_by-Memᴰ p (x ∷ rs) r h (Memᴰ.tail t) = elim (Bool-cases (p x)) [
  | inl e ↦ rw e (Memᴰ.tail (filter_by-Memᴰ p rs r h t))
  | inr e ↦ rw e (filter_by-Memᴰ p rs r h t)
]

policy_cases :
    (s : DrainScheduler) (eligible : List FindRecord) (trend : DifficultyTrend)
    (window : XuniWindowState) (r : FindRecord)
    → policy s trend window eligible ≡ some r
    → (first_xen11 trend (xen11_of eligible) ≡ some r)
      ⊎ ((head? (xuni_of eligible) ≡ some r) × (window.is_open ≡ true))
policy_cases s eligible trend window r h =
    cases (first_xen11 trend (xen11_of eligible)) (head? (xuni_of eligible)) h
  where
    cases :
        (a b : Option FindRecord)
        → (if leb window.ms_until_close s.cfg.xuni_preempt_window_ms
            then or_else (if window.is_open then b else none) a
            else or_else a (if window.is_open then b else none))
          ≡ some r
        → (a ≡ some r) ⊎ ((b ≡ some r) × (window.is_open ≡ true))
    cases none none e = ground arith
    cases none (some y) e = ground arith
    cases (some x) none e = ground arith
    cases (some x) (some y) e = ground arith

-- What is selected comes from the slice, and is no XUNI find while the window is closed.
pub select_next_sound :
    (s : DrainScheduler) (eligible : List FindRecord) (trend : DifficultyTrend)
    (window : XuniWindowState) (r : FindRecord)
    → select_next s eligible trend window ≡ some r
    → Memᴰ r eligible × (window.is_open ≡ false → r.payload.kind ≡ xen11)
select_next_sound s eligible trend window r h =
    elim (policy_cases s eligible trend window r (rw select_next-eq-policy at h)) [
      | inl e ↦
          let m =
            Memᴰ-filter_by (λ x. not (is_xuni x.payload.kind)) eligible r
              (first_xen11-Memᴰ trend (xen11_of eligible) r e) in
          (m.0, λ _. ground (arith, m.1))
      | inr (e, o) ↦
          let m =
            Memᴰ-filter_by (λ x. is_xuni x.payload.kind) eligible r
              (head?-Memᴰ (xuni_of eligible) r e) in
          (m.0, λ c. cc)
    ]

some_first :
    (trend : DifficultyTrend) (rs : List FindRecord) (r : FindRecord)
    → Memᴰ r rs
    → (first_xen11 trend rs ≢ none) × (head? rs ≢ none)
some_first trend [] r m = elim m [ ]
some_first trend (x ∷ rs) r m = (λ e. cc, λ e. cc)

-- Nothing waits unserved: with a XEN11 find in the slice, or an open window and any find in it,
-- something is selected.
pub select_next_progress :
    (s : DrainScheduler) (eligible : List FindRecord) (trend : DifficultyTrend)
    (window : XuniWindowState) (r : FindRecord)
    → Memᴰ r eligible
    → (r.payload.kind ≡ xen11) ⊎ (window.is_open ≡ true)
    → select_next s eligible trend window ≢ none
select_next_progress s eligible trend window r m h =
    rw select_next-eq-policy
      (served (first_xen11 trend (xen11_of eligible)) (head? (xuni_of eligible)) found)
  where
    found :
        (first_xen11 trend (xen11_of eligible) ≢ none)
        ⊎ ((head? (xuni_of eligible) ≢ none) × (window.is_open ≡ true))
    found = elim (Bool-cases (is_xuni r.payload.kind)) [
      | inl e ↦ inr (
        (some_first trend (xuni_of eligible) r
            (filter_by-Memᴰ (λ x. is_xuni x.payload.kind) eligible r e m)).1,
        ground arith,
      )
      | inr e ↦
          inl
            (some_first trend (xen11_of eligible) r
              (filter_by-Memᴰ (λ x. not (is_xuni x.payload.kind)) eligible r (rw e refl) m)).0
    ]

    served :
        (a b : Option FindRecord)
        → (a ≢ none) ⊎ ((b ≢ none) × (window.is_open ≡ true))
        → (if leb window.ms_until_close s.cfg.xuni_preempt_window_ms
            then or_else (if window.is_open then b else none) a
            else or_else a (if window.is_open then b else none))
          ≢ none
    served none none f = ground arith
    served none (some y) f = ground arith
    served (some x) none f = ground arith
    served (some x) (some y) f = ground arith

-- Under rising difficulty and with no XUNI find in reach, the cheapest XEN11 find goes first.
pub select_next_rising :
    (s : DrainScheduler) (eligible : List FindRecord) (window : XuniWindowState) (r : FindRecord)
    → window.is_open ≡ false
    → select_next s eligible rising window ≡ some r
    → All (λ x. r.payload.memory_cost ≤ x.payload.memory_cost) (xen11_of eligible)
select_next_rising s eligible window r c h =
    least (xen11_of eligible)
      (elim (policy_cases s eligible rising window r (rw select_next-eq-policy at h)) [
        | inl e ↦ e
        | inr (e, o) ↦ cc
      ])
  where
    least :
        (rs : List FindRecord)
        → first_xen11 rising rs ≡ some r
        → All (λ x. r.payload.memory_cost ≤ x.payload.memory_cost) rs
    least [] e = tt
    least (x ∷ rs) e =
        let same : cheapest x rs ≡ r = ground arith in
        subst (λ y. All (λ z. y.payload.memory_cost ≤ z.payload.memory_cost) (x ∷ rs)) same
          (cheapest-le x rs)
