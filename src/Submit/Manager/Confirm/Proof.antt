-- ===== src/Submit/Manager/Confirm/Proof.antt =====
-- What it takes for a find to be acknowledged.
use tree_miner_amd.Prelude.{
  ◌≡◌,
  ◌≢◌,
  refl,
  ap,
  ◌⊎◌,
  inl,
  inr,
  Bool,
  true,
  false,
  ◌&&◌,
  Option,
  none,
  some,
  ◌==◌,
  Bool-cases,
  if◌then◌else◌,
  Text.{Text, codes, text_eq, text_eq_iff, text_eq_refl},
  arith,
}
use tree_miner_amd.Core.Types.{acked, FindRecord, Classification}
use tree_miner_amd.Submit.Json.{extract_json_field}
use tree_miner_amd.Submit.Manager.State.{TransportResult}
use tree_miner_amd.Submit.Manager.Confirm.{
  ConfirmBodyCheck, confirmed, key_mismatch, hash_mismatch, malformed, check_hash, check_key,
  confirmation_matches, Lookup, proven, absent, unavailable, unproven, of_check, judge, resolve,
  retried,
}

-- The answer is a 200 with a JSON object that has the find's own key, and no hash but the find's.
pub record IsProof (rec : FindRecord) (conf : TransportResult) : Type 0 where
  pub reached : conf.transport_ok ≡ true
  pub found : conf.http_status ≡ 200
  pub same_key : extract_json_field conf.body (codes "key") ≡ some rec.payload.key
  pub same_hash :
      (extract_json_field conf.body (codes "hash_to_verify") ≡ none)
      ⊎ (extract_json_field conf.body (codes "hash_to_verify") ≡ some rec.payload.hash_to_verify)

check_hash-confirmed :
    (rec : FindRecord) (o : Option Text)
    → check_hash rec o ≡ confirmed
    → (o ≡ none) ⊎ (o ≡ some rec.payload.hash_to_verify)
unfolding check_hash
check_hash-confirmed rec none h = inl refl
check_hash-confirmed rec (some hash) h =
    elim (Bool-cases (text_eq hash rec.payload.hash_to_verify)) [
      | inl e ↦ inr (ap some ((text_eq_iff hash rec.payload.hash_to_verify).0 e))
      | inr e ↦ absurd (let h' = rw e at h in cc)
    ]

check_key-confirmed :
    (rec : FindRecord) (body : Text) (o : Option Text)
    → check_key rec body o ≡ confirmed
    → (o ≡ some rec.payload.key)
      × (check_hash rec (extract_json_field body (codes "hash_to_verify")) ≡ confirmed)
unfolding check_key
check_key-confirmed rec body none h = absurd cc
check_key-confirmed rec body (some key) h = elim (Bool-cases (text_eq key rec.payload.key)) [
  | inl e ↦ (ap some ((text_eq_iff key rec.payload.key).0 e), rw e at h)
  | inr e ↦ absurd (let h' = rw e at h in cc)
]

of_check-proven : (check : ConfirmBodyCheck) → of_check check ≡ proven → check ≡ confirmed
unfolding of_check
of_check-proven confirmed h = refl
of_check-proven key_mismatch h = absurd cc
of_check-proven hash_mismatch h = absurd cc
of_check-proven malformed h = absurd cc

pub judge-proven :
    (rec : FindRecord) (conf : TransportResult) → judge rec conf ≡ proven → IsProof rec conf
unfolding judge confirmation_matches
judge-proven rec conf h = elim (Bool-cases (conf.transport_ok && conf.http_status == 200)) [
  | inl e ↦
      let (k, c) =
        check_key-confirmed rec conf.body (extract_json_field conf.body (codes "key"))
          (of_check-proven _ (rw e at h)) in
      record {
        reached = ground arith;
        found = ground arith;
        same_key = k;
        same_hash = check_hash-confirmed rec _ c;
      }
  | inr e ↦ absurd (not_proven (conf.transport_ok && conf.http_status == 404) (rw e at h))
]
  where
    not_proven : (b : Bool) → (if b then absent else unavailable) ≢ proven
    not_proven true e = cc
    not_proven false e = cc

proof-judge :
    (rec : FindRecord) (conf : TransportResult) → IsProof rec conf → judge rec conf ≡ proven
unfolding judge confirmation_matches check_key of_check check_hash
proof-judge rec conf p =
    rw (p.reached, p.found, p.same_key, text_eq_refl rec.payload.key)
      (ap of_check
        (hash_matches (extract_json_field conf.body (codes "hash_to_verify")) p.same_hash))
  where
    hash_matches :
        (o : Option Text)
        → (o ≡ none) ⊎ (o ≡ some rec.payload.hash_to_verify)
        → check_hash rec o ≡ confirmed
    hash_matches o (inl e) = rw e refl
    hash_matches o (inr e) = rw (e, text_eq_refl rec.payload.hash_to_verify) refl

-- A find whose verdict was another is acknowledged exactly by a `/get_block` answer that proves it,
-- by the first lookup and by a repeated one alike.
pub acked_iff_IsProof :
    (rec : FindRecord) (conf : TransportResult) (c : Classification)
    → c.next_status ≢ acked
    → ((resolve (judge rec conf) c).next_status ≡ acked → IsProof rec conf)
      × ((retried (judge rec conf)).next_status ≡ acked → IsProof rec conf)
      × (IsProof rec conf
          → ((resolve (judge rec conf) c).next_status ≡ acked)
            × ((retried (judge rec conf)).next_status ≡ acked))
unfolding resolve retried
acked_iff_IsProof rec conf c h = (
  λ e. judge-proven rec conf (first (judge rec conf) e),
  λ e. judge-proven rec conf (again (judge rec conf) e),
  λ p. rw (proof-judge rec conf p) (refl, refl),
)
  where
    first : (l : Lookup) → (resolve l c).next_status ≡ acked → l ≡ proven
    first proven e = refl
    first absent e = absurd cc
    first unavailable e = absurd (h e)
    first (unproven check) e = absurd (h e)

    again : (l : Lookup) → (retried l).next_status ≡ acked → l ≡ proven
    again proven e = refl
    again absent e = absurd cc
    again unavailable e = absurd cc
    again (unproven check) e = absurd cc
