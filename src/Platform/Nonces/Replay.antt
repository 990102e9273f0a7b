-- ===== src/Platform/Nonces/Replay.antt =====
-- A nonce that was accepted comes again before its expiry.
use tree_miner_amd.Prelude.{
  ℕ,
  suc,
  ◌+◌,
  ◌≤◌,
  ◌<◌,
  ◌≡◌,
  refl,
  sym,
  ap,
  ◌∙◌,
  subst,
  ◌⊎◌,
  inl,
  inr,
  Bool,
  true,
  false,
  List,
  [],
  ◌∷◌,
  ◌++◌,
  All,
  length,
  length-append,
  arith,
  Text.{Text, text_eq_refl},
  Int.{ℤ, ltb_ℤ},
}
use tree_miner_amd.Platform.Nonces.{Expiries, NonceCache, check_and_insert}
use tree_miner_amd.Platform.Nonces.Fifo.{
  IsValid, live, holds, drop_oldest, room_for_one, taken_in, offer, check_and_insert_refines,
}

-- A call of check_and_insert.
pub record Check : Type 0 where
  pub nonce : Text
  pub expires_at : ℤ
  pub now : ℤ

unfoldable pub run : List Check → NonceCache → NonceCache
run [] c = c
run (k ∷ ks) c = run ks (check_and_insert k.nonce k.expires_at k.now c).0

-- The entry stands in the queue with at most `j` entries behind it.
abbrev Sits : Text → ℤ → ℕ → Expiries → Type 0
Sits nonce e j [] = ⊥
Sits nonce e j ((k, x) ∷ m) = ((k ≡ nonce) × (x ≡ e) × (length m ≤ j)) ⊎ Sits nonce e j m

weaken-Sits :
    (nonce : Text) (e : ℤ) (j : ℕ) (m : Expiries) → Sits nonce e j m → Sits nonce e (suc j) m
weaken-Sits nonce e j [] s = absurd s
weaken-Sits nonce e j ((k, x) ∷ m) s = ground (arith, weaken-Sits nonce e j m)

Sits-live :
    (now : ℤ) (nonce : Text) (e : ℤ) (j : ℕ) (m : Expiries)
    → ltb_ℤ now e ≡ true
    → Sits nonce e j m
    → Sits nonce e j (live now m)
unfolding live
Sits-live now nonce e j [] b s = s
Sits-live now nonce e j ((k, x) ∷ m) b s = ground (arith, Sits-live now nonce e j m b)

Sits-room :
    (capacity : ℕ) (nonce : Text) (e : ℤ) (j : ℕ) (m : Expiries)
    → suc j < capacity
    → Sits nonce e j m
    → Sits nonce e j (room_for_one capacity m)
unfolding room_for_one drop_oldest
Sits-room capacity nonce e j [] b s = absurd s
Sits-room capacity nonce e j ((k, x) ∷ m) b s = ground (arith, Sits-room capacity nonce e j m b)

Sits-snoc :
    (nonce : Text) (e : ℤ) (j : ℕ) (m : Expiries) (p : Text × ℤ)
    → Sits nonce e j m
    → Sits nonce e (suc j) (m ++ p ∷ [])
Sits-snoc nonce e j [] p s = absurd s
Sits-snoc nonce e j ((k, x) ∷ m) p s =
    ground (arith, Sits-snoc nonce e j m p, length-append m (p ∷ []))

Sits-holds : (nonce : Text) (e : ℤ) (j : ℕ) (m : Expiries) → Sits nonce e j m → holds nonce m ≡ true
unfolding holds
Sits-holds nonce e j [] s = absurd s
Sits-holds nonce e j ((k, x) ∷ m) s = ground (arith, text_eq_refl k, Sits-holds nonce e j m)

last-Sits : (nonce : Text) (e : ℤ) (m : Expiries) → Sits nonce e 0 (m ++ (nonce, e) ∷ [])
last-Sits nonce e [] = inl (refl, refl, omega arith)
last-Sits nonce e (p ∷ m) = inr (last-Sits nonce e m)

offer-Sits :
    (capacity : ℕ) (k : Check) (nonce : Text) (e : ℤ) (j : ℕ) (m : Expiries)
    → suc j < capacity
    → ltb_ℤ k.now e ≡ true
    → Sits nonce e j m
    → Sits nonce e (suc j) (offer capacity k.nonce k.expires_at k.now m).0
unfolding offer
offer-Sits capacity k nonce e j m b l s = by_verdict (holds k.nonce kept)
  where
    kept : Expiries
    kept = live k.now m

    sits : Sits nonce e j kept
    sits = Sits-live k.now nonce e j m l s

    by_verdict :
        (held : Bool) → Sits nonce e (suc j) (taken_in capacity k.nonce k.expires_at kept held).0
    by_verdict true = weaken-Sits nonce e j kept sits
    by_verdict false =
        Sits-snoc nonce e j (room_for_one capacity kept) (k.nonce, k.expires_at)
          (Sits-room capacity nonce e j kept b sits)

offer_takes_last :
    (capacity : ℕ) (nonce : Text) (e now : ℤ) (m : Expiries)
    → (offer capacity nonce e now m).1 ≡ true
    → Sits nonce e 0 (offer capacity nonce e now m).0
unfolding offer
offer_takes_last capacity nonce e now m = by_verdict (holds nonce kept)
  where
    kept : Expiries
    kept = live now m

    by_verdict :
        (held : Bool)
        → (taken_in capacity nonce e kept held).1 ≡ true
        → Sits nonce e 0 (taken_in capacity nonce e kept held).0
    by_verdict true h = ground arith
    by_verdict false h = last-Sits nonce e (room_for_one capacity kept)

offer_refuses :
    (capacity : ℕ) (nonce : Text) (e e' now : ℤ) (j : ℕ) (m : Expiries)
    → ltb_ℤ now e ≡ true
    → Sits nonce e j m
    → (offer capacity nonce e' now m).1 ≡ false
unfolding offer
offer_refuses capacity nonce e e' now j m l s =
    ap (λ b. (taken_in capacity nonce e' (live now m) b).1)
      (Sits-holds nonce e j (live now m) (Sits-live now nonce e j m l s))

run-Sits :
    (ks : List Check) (nonce : Text) (e : ℤ) (j : ℕ) (c : NonceCache)
    → IsValid c
    → length ks + j < c.capacity
    → All (λ k. ltb_ℤ k.now e ≡ true) ks
    → Sits nonce e j c.by_nonce
    → IsValid (run ks c) × Sits nonce e (length ks + j) (run ks c).by_nonce
unfolding run
run-Sits [] nonce e j c v b a s = (v, subst (λ n. Sits nonce e n c.by_nonce) (omega arith) s)
run-Sits (k ∷ ks) nonce e j c v b a s =
    let (refined, v', same) = check_and_insert_refines k.nonce k.expires_at k.now c v in
    let c' = (check_and_insert k.nonce k.expires_at k.now c).0 in
    let moved = offer-Sits c.capacity k nonce e j c.by_nonce (omega arith) a.0 s in
    let s' = subst (Sits nonce e (suc j)) (sym (ap (λ r. r.0) refined)) moved in
    let (v'', s'') = run-Sits ks nonce e (suc j) c' v' (omega (arith, same)) a.1 s' in
    (v'', subst (λ n. Sits nonce e n (run ks c').by_nonce) (omega arith) s'')

-- A nonce that a valid cache accepts is refused when it comes again, whatever expiry it comes
-- with, after any further checks that are fewer than the capacity, as long as the clock of each of
-- them and of the last reads less than the accepted expiry.
pub replay_refused :
    (nonce : Text) (e e' now now' : ℤ) (ks : List Check) (c : NonceCache)
    → IsValid c
    → (check_and_insert nonce e now c).1 ≡ true
    → length ks < c.capacity
    → All (λ k. ltb_ℤ k.now e ≡ true) ks
    → ltb_ℤ now' e ≡ true
    → (check_and_insert nonce e' now' (run ks (check_and_insert nonce e now c).0)).1 ≡ false
replay_refused nonce e e' now now' ks c v accepted b a l =
    let (refined, v', same) = check_and_insert_refines nonce e now c v in
    let taken =
      offer_takes_last c.capacity nonce e now c.by_nonce (sym (ap (λ r. r.1) refined) ∙ accepted) in
    let s = subst (Sits nonce e 0) (sym (ap (λ r. r.0) refined)) taken in
    let (v'', s') =
      run-Sits ks nonce e 0 (check_and_insert nonce e now c).0 v' (omega (arith, same)) a s in
    let last = run ks (check_and_insert nonce e now c).0 in
    let (again, _, _) = check_and_insert_refines nonce e' now' last v'' in
    ap (λ r. r.1) again
    ∙ offer_refuses last.capacity nonce e e' now' (length ks + 0) last.by_nonce l s'
