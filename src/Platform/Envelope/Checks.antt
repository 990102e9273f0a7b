-- ===== src/Platform/Envelope/Checks.antt =====
-- What an envelope must be to be accepted.
use tree_miner_amd.Prelude.{
  ◌≡◌,
  refl,
  ap,
  ◌∙◌,
  ◌↔◌,
  true,
  Option,
  none,
  some,
  arith,
  Bool-cases,
  inl,
  inr,
  Text.{Text, codes, text_eq_iff},
  Int.{ℤ, ◌+ℤ◌, ◌-ℤ◌, ◌≤ℤ◌, ltb_ℤ, saturate},
}
use tree_miner_amd.Platform.Nonces.{NonceCache, check_and_insert}
use tree_miner_amd.Platform.Envelope.{
  Json, Crypto, Auth, VerifyStatus, clock_skew_sec, max_lifetime_sec, read_auth, is_well_formed,
  expected_sig, constant_time_hex_equals, verify_replay, verify_auth, verify_read, verify_found,
  verify_envelope,
}

module _ {V : Type 0} (js : Json V) (cr : Crypto) (secret : Text) where
  -- The envelope is shaped, addressed, timed and signed as it must be.
  pub record IsAuthentic (msg : V) (a : Auth) (expected_worker_id : Text) (now : ℤ) : Type 0 where
    pub shaped : is_well_formed js a ≡ true
    pub addressed : a.worker_id ≡ expected_worker_id
    pub issued : a.issued_at ≤ℤ saturate (now +ℤ clock_skew_sec)
    pub ordered : ltb_ℤ a.issued_at a.expires_at ≡ true
    pub short : saturate (a.expires_at -ℤ a.issued_at) ≤ℤ max_lifetime_sec
    pub unexpired : now ≤ℤ a.expires_at
    pub signed : constant_time_hex_equals cr a.sig (expected_sig js cr secret msg a) ≡ true

  -- The message is an object that carries this envelope.
  pub record Carries (msg : V) (a : Auth) : Type 0 where
    pub is_message : js.is_object msg ≡ true
    pub auth : V
    pub found : js.get msg (codes "auth") ≡ some auth
    pub is_envelope : js.is_object auth ≡ true
    pub read : read_auth js auth ≡ some a

  module _ (msg : V) (expected_worker_id : Text) (now : ℤ) (nonces : NonceCache) where
    verify_auth_authentic :
        (a : Auth)
        → IsAuthentic msg a expected_worker_id now
        → verify_auth js cr secret msg a expected_worker_id now nonces
          ≡ verify_replay js cr secret a now nonces
    unfolding verify_auth
    verify_auth_authentic a h = ground (arith, text_eq_iff a.worker_id expected_worker_id)

    ok-IsAuthentic :
        (a : Auth)
        → (verify_auth js cr secret msg a expected_worker_id now nonces).1 ≡ VerifyStatus.ok
        → IsAuthentic msg a expected_worker_id now
          × ((check_and_insert a.nonce a.expires_at now nonces).1 ≡ true)
    unfolding verify_auth verify_replay
    ok-IsAuthentic a h = ground (arith, text_eq_iff a.worker_id expected_worker_id)

  module _ (msg : V) (expected_worker_id : Text) (now : ℤ) (nonces : NonceCache) where
    abbrev Passes : Auth → Type 0
    Passes a = (verify_auth js cr secret msg a expected_worker_id now nonces).1 ≡ VerifyStatus.ok

    read_of_ok :
        (r : Option Auth)
        → (verify_read js cr secret msg r expected_worker_id now nonces).1 ≡ VerifyStatus.ok
        → (a : Auth) × (r ≡ some a) × Passes a
    unfolding verify_read
    read_of_ok none h = cc
    read_of_ok (some a) h = (a, refl, h)

    ok-Carries :
        (f : Option V)
        → js.is_object msg ≡ true
        → js.get msg (codes "auth") ≡ f
        → (verify_found js cr secret msg f expected_worker_id now nonces).1 ≡ VerifyStatus.ok
        → (a : Auth) × Carries msg a × Passes a
    unfolding verify_found
    ok-Carries none o e h = cc
    ok-Carries (some v) o e h = elim (Bool-cases (js.is_object v)) [
      | inl obj ↦
          let (a, read, passes) = read_of_ok (read_auth js v) (rw obj at h) in
          (
            a,
            record { is_message = o; auth = v; found = e; is_envelope = obj; read = read },
            passes,
          )
      | inr other ↦ cc (other, h)
    ]

    accepted_of_ok :
        (verify_envelope js cr secret msg expected_worker_id now nonces).1 ≡ VerifyStatus.ok
        → (a : Auth) × Carries msg a × Passes a
    unfolding verify_envelope
    accepted_of_ok h = elim (Bool-cases (js.is_object msg)) [
      | inl obj ↦ ok-Carries (js.get msg (codes "auth")) obj refl (rw obj at h)
      | inr other ↦ cc (other, h)
    ]

    pub verify_carried :
        (a : Auth)
        → Carries msg a
        → verify_envelope js cr secret msg expected_worker_id now nonces
          ≡ verify_auth js cr secret msg a expected_worker_id now nonces
    unfolding verify_envelope verify_found verify_read
    verify_carried a c = rw (c.is_message, c.found, c.is_envelope, c.read)

    fresh_is_ok :
        (a : Auth)
        → (check_and_insert a.nonce a.expires_at now nonces).1 ≡ true
        → (verify_replay js cr secret a now nonces).1 ≡ VerifyStatus.ok
    unfolding verify_replay
    fresh_is_ok a h = rw h

    -- An envelope check answers ok exactly if the message carries an envelope that is shaped,
    -- addressed to this worker, issued, short-lived, unexpired and signed under the secret, and
    -- whose nonce the cache takes as fresh.
    pub accepts_iff :
        ((verify_envelope js cr secret msg expected_worker_id now nonces).1 ≡ VerifyStatus.ok) ↔ (
          (a : Auth) × Carries msg a
          × IsAuthentic msg a expected_worker_id now
          × ((check_and_insert a.nonce a.expires_at now nonces).1 ≡ true))
    accepts_iff = (
      λ h.
          let (a, carries, passes) = accepted_of_ok h in
          let (authentic, fresh) = ok-IsAuthentic msg expected_worker_id now nonces a passes in
          (a, carries, authentic, fresh),
      λ (a, carries, authentic, fresh).
          ap (λ r. r.1)
            (verify_carried a carries
              ∙ verify_auth_authentic msg expected_worker_id now nonces a authentic)
          ∙ fresh_is_ok a fresh,
    )
