-- ===== src/Platform/Nonces/Fifo.antt =====
-- The nonce cache as a bounded queue.
use tree_miner_amd.Prelude.{
  ℕ,
  ◌≤◌,
  ◌<◌,
  ◌≡◌,
  refl,
  ◌∙◌,
  sym,
  ap,
  subst,
  Bool,
  true,
  false,
  ◌||◌,
  List,
  [],
  ◌∷◌,
  ◌++◌,
  map,
  length,
  length-append,
  leb,
  All,
  if◌then◌else◌,
  arith,
  Text.{Text, text_eq, text_eq_comm, text_eq_refl},
  Int.{ℤ, ltb_ℤ},
}
use tree_miner_amd.Platform.Nonces.{
  Expiries, NonceCache, expiry, remove, insert, contains_key, new, purge, purge_expired, evict,
  record_nonce, check_and_insert,
}

abbrev keys : Expiries → List Text
keys m = map (λ p. p.0) m

abbrev Fresh : Text → Expiries → Type 0
Fresh nonce m = All (λ p. text_eq p.0 nonce ≡ false) m

abbrev Distinct : Expiries → Type 0
Distinct [] = Unit
Distinct ((k, e) ∷ m) = Fresh k m × Distinct m

-- The map and the queue of a cache hold the same nonces in the same order, each once, and no more
-- of them than the capacity, which is positive.
pub record IsValid (c : NonceCache) : Type 0 where
  pub ordered : c.insertion_order ≡ keys c.by_nonce
  pub distinct : Distinct c.by_nonce
  pub bounded : length c.by_nonce ≤ c.capacity
  pub positive : 0 < c.capacity

-- The contract: a queue that forgets the expired entries at its front, refuses a nonce it holds,
-- and otherwise takes it at the back, after the oldest entry has left a full queue.
unfoldable pub live : ℤ → Expiries → Expiries
live now [] = []
live now ((k, e) ∷ m) = let rest = live now m in if ltb_ℤ now e then (k, e) ∷ m else rest

unfoldable pub holds : Text → Expiries → Bool
unfolding text_eq
holds nonce [] = false
holds nonce ((k, e) ∷ m) = text_eq k nonce || holds nonce m

unfoldable pub drop_oldest : Expiries → Expiries
drop_oldest [] = []
drop_oldest (p ∷ m) = m

unfoldable pub room_for_one : ℕ → Expiries → Expiries
unfolding drop_oldest
room_for_one capacity m = if leb capacity (length m) then drop_oldest m else m

abbrev pub taken_in : ℕ → Text → ℤ → Expiries → Bool → Expiries × Bool
taken_in capacity nonce e m true = (m, false)
taken_in capacity nonce e m false = (room_for_one capacity m ++ (nonce, e) ∷ [], true)

unfoldable pub offer : ℕ → Text → ℤ → ℤ → Expiries → Expiries × Bool
unfolding live holds
offer capacity nonce e now m =
    let kept = live now m in taken_in capacity nonce e kept (holds nonce kept)

remove-Fresh : (nonce : Text) (m : Expiries) → Fresh nonce m → remove nonce m ≡ m
unfolding remove
remove-Fresh nonce [] h = refl
remove-Fresh nonce ((k, e) ∷ m) h = ground (arith, h.0, remove-Fresh nonce m h.1)

purge_refines :
    (now : ℤ) (m : Expiries) → Distinct m → purge now m (keys m) ≡ (live now m, keys (live now m))
unfolding purge expiry remove live
purge_refines now [] d = refl
purge_refines now ((k, e) ∷ m) d =
    ground (arith, text_eq_refl k, remove-Fresh k m d.0, purge_refines now m d.1)

evict_in_bounds :
    (capacity : ℕ) (m : Expiries) → length m < capacity → evict capacity m (keys m) ≡ (m, keys m)
unfolding evict
evict_in_bounds capacity [] b = refl
evict_in_bounds capacity ((k, e) ∷ m) b = ground arith

evict_refines :
    (capacity : ℕ) (m : Expiries)
    → Distinct m
    → length m ≤ capacity
    → evict capacity m (keys m) ≡ (room_for_one capacity m, keys (room_for_one capacity m))
unfolding evict remove room_for_one drop_oldest
evict_refines capacity [] d b = ground arith
evict_refines capacity ((k, e) ∷ m) d b =
    ground (arith, text_eq_refl k, remove-Fresh k m d.0, evict_in_bounds capacity m)

contains_key-eq-holds : (nonce : Text) (m : Expiries) → contains_key nonce m ≡ holds nonce m
unfolding contains_key expiry holds
contains_key-eq-holds nonce [] = refl
contains_key-eq-holds nonce ((k, e) ∷ m) = ground (arith, contains_key-eq-holds nonce m)

holds-Fresh : (nonce : Text) (m : Expiries) → holds nonce m ≡ false → Fresh nonce m
unfolding holds
holds-Fresh nonce [] h = tt
holds-Fresh nonce ((k, e) ∷ m) h = (ground arith, holds-Fresh nonce m (ground arith))

live-Fresh : (now : ℤ) (nonce : Text) (m : Expiries) → Fresh nonce m → Fresh nonce (live now m)
unfolding live
live-Fresh now nonce [] h = tt
live-Fresh now nonce ((k, e) ∷ m) h = ground (arith, live-Fresh now nonce m h.1)

live-Distinct : (now : ℤ) (m : Expiries) → Distinct m → Distinct (live now m)
unfolding live
live-Distinct now [] d = tt
live-Distinct now ((k, e) ∷ m) d = ground (arith, live-Distinct now m d.1)

length-live : (now : ℤ) (m : Expiries) → length (live now m) ≤ length m
unfolding live
length-live now [] = omega arith
length-live now ((k, e) ∷ m) = ground (arith, length-live now m)

pub live-below :
    (capacity : ℕ) (now : ℤ) (m : Expiries) → length m ≤ capacity → length (live now m) ≤ capacity
live-below capacity now m b = omega (arith, length-live now m)

room_Distinct : (capacity : ℕ) (m : Expiries) → Distinct m → Distinct (room_for_one capacity m)
unfolding room_for_one drop_oldest
room_Distinct capacity [] d = ground arith
room_Distinct capacity ((k, e) ∷ m) d = ground arith

room_Fresh :
    (capacity : ℕ) (nonce : Text) (m : Expiries)
    → Fresh nonce m
    → Fresh nonce (room_for_one capacity m)
unfolding room_for_one drop_oldest
room_Fresh capacity nonce [] h = ground arith
room_Fresh capacity nonce ((k, e) ∷ m) h = ground arith

length-room_for_one :
    (capacity : ℕ) (m : Expiries)
    → length m ≤ capacity
    → 0 < capacity
    → length (room_for_one capacity m) < capacity
unfolding room_for_one drop_oldest
length-room_for_one capacity [] b p = ground arith
length-room_for_one capacity (q ∷ m) b p = ground arith

Distinct-snoc :
    (nonce : Text) (e : ℤ) (m : Expiries)
    → Distinct m
    → Fresh nonce m
    → Distinct (m ++ (nonce, e) ∷ [])
Distinct-snoc nonce e [] d f = (tt, tt)
Distinct-snoc nonce e ((k, x) ∷ m) d f = (Fresh-snoc m d.0, Distinct-snoc nonce e m d.1 f.1)
  where
    Fresh-snoc : (m' : Expiries) → Fresh k m' → Fresh k (m' ++ (nonce, e) ∷ [])
    Fresh-snoc [] g = (text_eq_comm nonce k ∙ f.0, tt)
    Fresh-snoc (q ∷ m') g = (g.0, Fresh-snoc m' g.1)

keys-snoc :
    (nonce : Text) (e : ℤ) (m : Expiries) → keys (m ++ (nonce, e) ∷ []) ≡ keys m ++ nonce ∷ []
keys-snoc nonce e [] = refl
keys-snoc nonce e (q ∷ m) = ap (λ r. q.0 ∷ r) (keys-snoc nonce e m)

module _ (now : ℤ) (c : NonceCache) (v : IsValid c) where
  purge_expired_refines :
      purge_expired now c
      ≡ record c { by_nonce = live now c.by_nonce; insertion_order = keys (live now c.by_nonce) }
  unfolding purge_expired
  purge_expired_refines =
      ap (λ r. record c { by_nonce = r.0; insertion_order = r.1 })
        (ap (purge now c.by_nonce) v.ordered ∙ purge_refines now c.by_nonce v.distinct)

  purge_expired-IsValid : IsValid (purge_expired now c)
  purge_expired-IsValid = subst IsValid (sym purge_expired_refines) record {
    ordered = refl;
    distinct = live-Distinct now c.by_nonce v.distinct;
    bounded = live-below c.capacity now c.by_nonce v.bounded;
    positive = v.positive;
  }

module _ (nonce : Text) (e : ℤ) (c : NonceCache) (v : IsValid c) (f : Fresh nonce c.by_nonce) where
  abbrev room : Expiries
  room = room_for_one c.capacity c.by_nonce

  record_nonce_refines : record_nonce nonce e c ≡ record c {
    by_nonce = room ++ (nonce, e) ∷ [];
    insertion_order = keys (room ++ (nonce, e) ∷ []);
  }
  unfolding record_nonce insert
  record_nonce_refines =
      ap
        (λ r. record c {
          by_nonce = remove nonce r.0 ++ (nonce, e) ∷ [];
          insertion_order = r.1 ++ nonce ∷ [];
        })
        (ap (evict c.capacity c.by_nonce) v.ordered
          ∙ evict_refines c.capacity c.by_nonce v.distinct v.bounded)
      ∙ ap
          (λ m. record c {
            by_nonce = m ++ (nonce, e) ∷ [];
            insertion_order = keys room ++ nonce ∷ [];
          })
          (remove-Fresh nonce room (room_Fresh c.capacity nonce c.by_nonce f))
      ∙ ap (λ o. record c { by_nonce = room ++ (nonce, e) ∷ []; insertion_order = o })
          (sym (keys-snoc nonce e room))

  record_nonce-IsValid : IsValid (record_nonce nonce e c)
  record_nonce-IsValid = subst IsValid (sym record_nonce_refines) record {
    ordered = refl;
    distinct =
        Distinct-snoc nonce e room (room_Distinct c.capacity c.by_nonce v.distinct)
          (room_Fresh c.capacity nonce c.by_nonce f);
    bounded = omega (
      arith,
      length-append room ((nonce, e) ∷ []),
      length-room_for_one c.capacity c.by_nonce v.bounded v.positive,
    );
    positive = v.positive;
  }

-- The outcome of a check, on a cache that is swept already.
abbrev Settled : Text → ℤ → Expiries → NonceCache → Bool → Bool → Type 0
Settled nonce e kept c seen held =
    let (c', fresh) = (if seen then (c, false) else (record_nonce nonce e c, true)) in
    ((c'.by_nonce, fresh) ≡ taken_in c.capacity nonce e kept held)
    × IsValid c'
    × (c'.capacity ≡ c.capacity)

settle :
    (nonce : Text) (e : ℤ) (c : NonceCache) (held : Bool)
    → IsValid c
    → holds nonce c.by_nonce ≡ held
    → Settled nonce e c.by_nonce c held held
settle nonce e c true v h = (refl, v, refl)
settle nonce e c false v h =
    let fresh = holds-Fresh nonce c.by_nonce h in
    let refined = record_nonce_refines nonce e c v fresh in
    (
      ap (λ d. (d.by_nonce, true)) refined,
      record_nonce-IsValid nonce e c v fresh,
      ap (λ d. d.capacity) refined,
    )

-- For every valid cache, the check of a nonce is an offer to the bounded queue of its entries: it
-- gives the verdict of the queue, leaves the entries of the queue, and leaves a valid cache of the
-- same capacity.
pub check_and_insert_refines :
    (nonce : Text) (e now : ℤ) (c : NonceCache)
    → IsValid c
    → let (c', fresh) = check_and_insert nonce e now c in
      ((c'.by_nonce, fresh) ≡ offer c.capacity nonce e now c.by_nonce)
      × IsValid c'
      × (c'.capacity ≡ c.capacity)
unfolding check_and_insert offer
check_and_insert_refines nonce e now c v =
    let kept = live now c.by_nonce in
    let swept = purge_expired_refines now c v in
    let c' = record c { by_nonce = kept; insertion_order = keys kept } in
    let v' = subst IsValid swept (purge_expired-IsValid now c v) in
    let outcome = settle nonce e c' (holds nonce kept) v' refl in
    subst (λ d. Settled nonce e kept d (contains_key nonce d.by_nonce) (holds nonce kept))
      (sym swept)
      (subst (λ b. Settled nonce e kept c' b (holds nonce kept))
        (sym (contains_key-eq-holds nonce kept)) outcome)

pub new-IsValid : (capacity : ℕ) → IsValid (new capacity)
unfolding new
new-IsValid capacity = record {
  ordered = refl;
  distinct = tt;
  bounded = omega arith;
  positive = ground arith;
}
