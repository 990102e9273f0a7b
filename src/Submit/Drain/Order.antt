-- ===== src/Submit/Drain/Order.antt =====
-- What `select_next` selects.
use mathlib.Core.List.{Memᴰ}
use tree_miner_amd.Prelude.{
  ◌≤◌, ◌≡◌, refl, inl, inr, Option, none, some, List, [], ◌∷◌, All, arith, leb, Bool-cases, subst,
  filter_by, not, ltb, ◌∙◌, if◌then◌else◌,
}
use tree_miner_amd.Core.Types.{FindRecord}
use tree_miner_amd.Submit.Drain.{
  DrainScheduler, DifficultyTrend, XuniWindowState, is_rising, is_xuni, select_next, scan,
  pick_xuni, pick_xen11, choose, or_else,
}

-- The XEN11 finds and the XUNI finds of a slice of the journal, in its order.
abbrev pub xen11_of : List FindRecord → List FindRecord
xen11_of = filter_by λ r. not (is_xuni r.payload.kind)

abbrev pub xuni_of : List FindRecord → List FindRecord
xuni_of = filter_by λ r. is_xuni r.payload.kind

abbrev pub head? : List FindRecord → Option FindRecord
head? [] = none
head? (r ∷ rs) = some r

-- The first of the finds with the least memory cost, `best` standing before them.
abbrev pub cheapest : FindRecord → List FindRecord → FindRecord
cheapest best [] = best
cheapest best (r ∷ rs) =
    cheapest (if ltb r.payload.memory_cost best.payload.memory_cost then r else best) rs

-- What the policy asks for: under rising difficulty the cheapest XEN11 find, else the oldest.
abbrev pub first_xen11 : DifficultyTrend → List FindRecord → Option FindRecord
first_xen11 trend [] = none
first_xen11 trend (r ∷ rs) = some (if is_rising trend then cheapest r rs else r)

abbrev pub first_xuni : XuniWindowState → List FindRecord → Option FindRecord
first_xuni window rs = if window.is_open then head? rs else none

-- The policy as a whole: the three priorities of the module's comment.
abbrev pub policy :
    DrainScheduler → DifficultyTrend → XuniWindowState → List FindRecord → Option FindRecord
policy s trend window eligible =
    if leb window.ms_until_close s.cfg.xuni_preempt_window_ms
    then or_else (first_xuni window (xuni_of eligible)) (first_xen11 trend (xen11_of eligible))
    else or_else (first_xen11 trend (xen11_of eligible)) (first_xuni window (xuni_of eligible))

abbrev from_xuni : XuniWindowState → Option FindRecord → List FindRecord → Option FindRecord
from_xuni window (some x) rs = some x
from_xuni window none rs = first_xuni window rs

abbrev from_xen11 : DifficultyTrend → Option FindRecord → List FindRecord → Option FindRecord
from_xen11 trend none rs = first_xen11 trend rs
from_xen11 trend (some b) rs = some (if is_rising trend then cheapest b rs else b)

xuni_round :
    (window : XuniWindowState) (r : FindRecord) (rs : List FindRecord) (o : Option FindRecord)
    → from_xuni window (pick_xuni window o r) (xuni_of rs) ≡ from_xuni window o (xuni_of (r ∷ rs))
unfolding pick_xuni
xuni_round window r rs none = ground arith
xuni_round window r rs (some x) = ground arith

xen11_round :
    (trend : DifficultyTrend) (r : FindRecord) (rs : List FindRecord) (o : Option FindRecord)
    → from_xen11 trend (pick_xen11 trend o r) (xen11_of rs) ≡ from_xen11 trend o (xen11_of (r ∷ rs))
unfolding pick_xen11
xen11_round trend r rs none = ground arith
xen11_round trend r rs (some x) = ground arith

scan_lem :
    (trend : DifficultyTrend) (window : XuniWindowState) (rs : List FindRecord)
    (oldest best : Option FindRecord)
    → scan trend window rs oldest best
      ≡ (from_xuni window oldest (xuni_of rs), from_xen11 trend best (xen11_of rs))
unfolding scan
scan_lem trend window [] oldest best = ground arith
scan_lem trend window (r ∷ rs) oldest best =
    scan_lem trend window rs (pick_xuni window oldest r) (pick_xen11 trend best r) ∙ λ i.
    (xuni_round window r rs oldest i, xen11_round trend r rs best i)

-- The single pass over the slice selects what the policy asks for.
pub select_next-eq-policy :
    (s : DrainScheduler) (eligible : List FindRecord) (trend : DifficultyTrend)
    (window : XuniWindowState)
    → select_next s eligible trend window ≡ policy s trend window eligible
unfolding select_next choose
select_next-eq-policy s eligible trend window =
    rw (scan_lem trend window eligible none none) (ground arith)

cheapest-Memᴰ : (b : FindRecord) (rs : List FindRecord) → Memᴰ (cheapest b rs) (b ∷ rs)
cheapest-Memᴰ b [] = Memᴰ.head refl
cheapest-Memᴰ b (r ∷ rs) = elim (Bool-cases (ltb r.payload.memory_cost b.payload.memory_cost)) [
  | inl e ↦ rw e (Memᴰ.tail (cheapest-Memᴰ r rs))
  | inr e ↦ rw e (keep_head (cheapest-Memᴰ b rs))
]
  where
    keep_head : Memᴰ (cheapest b rs) (b ∷ rs) → Memᴰ (cheapest b rs) (b ∷ r ∷ rs)
    keep_head (Memᴰ.head p) = Memᴰ.head p
    keep_head (Memᴰ.tail m) = Memᴰ.tail (Memᴰ.tail m)

pick_le :
    (b r : FindRecord)
    → let b' : FindRecord = if ltb r.payload.memory_cost b.payload.memory_cost then r else b in
      (b'.payload.memory_cost ≤ b.payload.memory_cost)
      × (b'.payload.memory_cost ≤ r.payload.memory_cost)
pick_le b r = ground arith

-- The cheapest find costs no more than any other.
pub cheapest-le :
    (b : FindRecord) (rs : List FindRecord)
    → ((cheapest b rs).payload.memory_cost ≤ b.payload.memory_cost)
      × All (λ r. (cheapest b rs).payload.memory_cost ≤ r.payload.memory_cost) rs
cheapest-le b [] = (omega arith, tt)
cheapest-le b (r ∷ rs) =
    let b' : FindRecord = if ltb r.payload.memory_cost b.payload.memory_cost then r else b in
    let ih = cheapest-le b' rs in
    let low = pick_le b r in (omega (arith, ih.0, low), (omega (arith, ih.0, low), ih.1))

pub first_xen11-Memᴰ :
    (trend : DifficultyTrend) (rs : List FindRecord) (r : FindRecord)
    → first_xen11 trend rs ≡ some r
    → Memᴰ r rs
first_xen11-Memᴰ trend [] r h = cc
first_xen11-Memᴰ trend (x ∷ rs) r h = elim (Bool-cases (is_rising trend)) [
  | inl e ↦ subst (λ y. Memᴰ y (x ∷ rs)) (ground arith) (cheapest-Memᴰ x rs)
  | inr e ↦ Memᴰ.head (ground arith)
]

pub head?-Memᴰ : (rs : List FindRecord) (r : FindRecord) → head? rs ≡ some r → Memᴰ r rs
head?-Memᴰ [] r h = cc
head?-Memᴰ (x ∷ rs) r h = Memᴰ.head (ground arith)
