-- ===== src/Platform/Envelope/RoundTrip.antt =====
-- The check of an envelope on what the signer made.
use tree_miner_amd.Prelude.{
  ◌≡◌,
  refl,
  ap,
  ◌∙◌,
  true,
  some,
  arith,
  List,
  ℕ,
  Text.{Text, codes},
  Int.{ℤ, ◌+ℤ◌, ◌-ℤ◌, ◌≤ℤ◌, ltb_ℤ, saturate},
}
use tree_miner_amd.Platform.Nonces.{NonceCache, check_and_insert}
use tree_miner_amd.Platform.Envelope.{
  Json, Crypto, Auth, VerifyStatus, clock_skew_sec, max_lifetime_sec, max_id_len, min_nonce_hex_len,
  max_nonce_hex_len, signing_string, is_safe_identifier, is_hex_string, is_well_formed, read_auth,
  hmac_sha256_hex, canonical_body, expected_sig, constant_time_hex_equals, sign_command,
  verify_envelope,
}
use tree_miner_amd.Platform.Envelope.Checks.{Carries, accepts_iff}

-- What serde_json documents of an object: a field that is set is there, setting it hides nothing
-- but what it replaces, and `json!` of an envelope is an object with the envelope's fields.
pub record JsonLaws {V : Type 0} (js : Json V) : Type 0 where
  pub get_insert :
      (v w : V) (k : Text) → js.is_object v ≡ true → js.get (js.insert v k w) k ≡ some w
  pub object_insert :
      (v w : V) (k : Text) → js.is_object v ≡ true → js.is_object (js.insert v k w) ≡ true
  pub remove_insert :
      (v w : V) (k : Text) → js.is_object v ≡ true → js.remove (js.insert v k w) k ≡ js.remove v k
  pub object_auth : (a : Auth) → js.is_object (js.auth a) ≡ true
  pub read_back : (a : Auth) → read_auth js (js.auth a) ≡ some a

-- A digest of HMAC-SHA256 has 64 hex digits, which decode to it, and the comparison is of bytes.
pub record CryptoLaws (cr : Crypto) : Type 0 where
  pub digest_shape :
      (key bytes : Text) → is_hex_string (cr.hex_encode (cr.hmac key bytes)) 64 64 ≡ true
  pub decode_encode :
      (key bytes : Text)
      → cr.hex_decode (cr.hex_encode (cr.hmac key bytes)) ≡ some (cr.hmac key bytes)
  pub ct_eq_refl : (digest : List ℕ) → cr.ct_eq digest digest ≡ true

module _ {V : Type 0} (js : Json V) (cr : Crypto) (jl : JsonLaws js) (cl : CryptoLaws cr)
    (secret : Text) where
  digest_equals_itself :
      (key bytes : Text)
      → constant_time_hex_equals cr (hmac_sha256_hex cr key bytes) (hmac_sha256_hex cr key bytes)
        ≡ true
  unfolding constant_time_hex_equals hmac_sha256_hex
  digest_equals_itself key bytes =
      rw (cl.decode_encode key bytes) (ground (arith, cl.ct_eq_refl (cr.hmac key bytes)))

  abbrev sealed : V → Text → Text → Text → ℤ → ℤ → Auth
  sealed msg w c n i x = record {
    worker_id = w;
    command_id = c;
    issued_at = i;
    expires_at = x;
    nonce = n;
    sig = hmac_sha256_hex cr secret (signing_string w c i x n (canonical_body js msg));
  }

  module _ (msg : V) (w c n : Text) (i x : ℤ) (o : js.is_object msg ≡ true) where
    abbrev signed_msg : V
    signed_msg = js.insert msg (codes "auth") (js.auth (sealed msg w c n i x))

    sign_command_inserts : sign_command js cr secret msg w c n i x ≡ signed_msg
    unfolding sign_command
    sign_command_inserts = rw o

    sealed-Carries : Carries js cr secret signed_msg (sealed msg w c n i x)
    sealed-Carries = record {
      is_message = jl.object_insert msg (js.auth (sealed msg w c n i x)) (codes "auth") o;
      auth = js.auth (sealed msg w c n i x);
      found = jl.get_insert msg (js.auth (sealed msg w c n i x)) (codes "auth") o;
      is_envelope = jl.object_auth (sealed msg w c n i x);
      read = jl.read_back (sealed msg w c n i x);
    }

    signs_sealed :
        constant_time_hex_equals cr
          (sealed msg w c n i x).sig
          (expected_sig js cr secret signed_msg (sealed msg w c n i x))
        ≡ true
    unfolding expected_sig canonical_body
    signs_sealed =
        ap
          (λ rest.
            constant_time_hex_equals cr (sealed msg w c n i x).sig
              (hmac_sha256_hex cr secret (signing_string w c i x n (js.to_string rest))))
          (jl.remove_insert msg (js.auth (sealed msg w c n i x)) (codes "auth") o)
        ∙ digest_equals_itself secret (signing_string w c i x n (canonical_body js msg))

    shaped_sealed :
        is_safe_identifier w 1 max_id_len ≡ true
        → is_safe_identifier c 1 max_id_len ≡ true
        → is_hex_string n min_nonce_hex_len max_nonce_hex_len ≡ true
        → is_well_formed js (sealed msg w c n i x) ≡ true
    unfolding is_well_formed hmac_sha256_hex
    shaped_sealed hw hc hn =
        ground (arith, cl.digest_shape secret (signing_string w c i x n (canonical_body js msg)))

  -- A command that is signed under the shared secret, for this worker, with identifiers and a nonce
  -- of the wire format and a lifetime that the clock reading lies in, is accepted if its nonce is
  -- fresh.
  pub verify_envelope-sign_command :
      (msg : V) (worker_id command_id nonce : Text) (issued_at expires_at now : ℤ)
      (nonces : NonceCache)
      → js.is_object msg ≡ true
      → is_safe_identifier worker_id 1 max_id_len ≡ true
      → is_safe_identifier command_id 1 max_id_len ≡ true
      → is_hex_string nonce min_nonce_hex_len max_nonce_hex_len ≡ true
      → issued_at ≤ℤ saturate (now +ℤ clock_skew_sec)
      → ltb_ℤ issued_at expires_at ≡ true
      → saturate (expires_at -ℤ issued_at) ≤ℤ max_lifetime_sec
      → now ≤ℤ expires_at
      → (check_and_insert nonce expires_at now nonces).1 ≡ true
      → (verify_envelope js cr secret
          (sign_command js cr secret msg worker_id command_id nonce issued_at expires_at)
          worker_id
          now
          nonces).1
        ≡ VerifyStatus.ok
  verify_envelope-sign_command msg w c n i x now nonces o hw hc hn hi hx hl hu fresh =
      ap (λ m. (verify_envelope js cr secret m w now nonces).1)
        (sign_command_inserts msg w c n i x o)
      ∙ (accepts_iff js cr secret (signed_msg msg w c n i x o) w now nonces).1 (
        sealed msg w c n i x,
        sealed-Carries msg w c n i x o,
        record {
          shaped = shaped_sealed msg w c n i x o hw hc hn;
          addressed = refl;
          issued = hi;
          ordered = hx;
          short = hl;
          unexpired = hu;
          signed = signs_sealed msg w c n i x o;
        },
        fresh,
      )
