-- ===== src/Platform/Envelope.antt =====
-- treeminer-rs/crates/tm-platform/src/envelope.rs: the signed envelope of a platform command. The
-- JSON library, HMAC-SHA256, the hex codec and the constant-time comparison are parameters.
pub mod Checks
pub mod Signing
pub mod RoundTrip
use tree_miner_amd.Prelude.{
  ℕ,
  Bool,
  true,
  false,
  not,
  ◌&&◌,
  ◌||◌,
  ◌==◌,
  suc,
  Option,
  none,
  some,
  [],
  ◌∷◌,
  ◌++◌,
  List,
  length,
  all_by,
  leb,
  if◌then◌else◌,
  Text.{Text, codes, text_eq, decimal, is_digit},
  Int.{ℤ, pos, negsuc, ◌+ℤ◌, ◌-ℤ◌, ltb_ℤ, leb_ℤ, saturate},
}
use tree_miner_amd.Platform.Nonces.{NonceCache, check_and_insert}

abbrev pub max_payload_bytes : ℕ
max_payload_bytes = 65536

abbrev pub max_lifetime_sec : ℤ
max_lifetime_sec = pos 900

abbrev pub clock_skew_sec : ℤ
clock_skew_sec = pos 30

abbrev pub min_nonce_hex_len : ℕ
min_nonce_hex_len = 16

abbrev pub max_nonce_hex_len : ℕ
max_nonce_hex_len = 128

abbrev pub max_id_len : ℕ
max_id_len = 128

-- u8::is_ascii_hexdigit, u8::is_ascii_alphanumeric
abbrev pub is_between : ℕ → ℕ → ℕ → Bool
is_between low high c = leb low c && leb c high

abbrev pub is_hexdigit : ℕ → Bool
is_hexdigit c = is_digit c || is_between b'a' b'f' c || is_between b'A' b'F' c

abbrev pub is_identifier_char : ℕ → Bool
is_identifier_char c =
    is_digit c
    || is_between b'a' b'z' c
    || is_between b'A' b'Z' c
    || c == b'.'
    || c == b'_'
    || c == b'-'

unfoldable pub is_hex_string : Text → ℕ → ℕ → Bool
is_hex_string s low high = is_between low high (length s) && all_by is_hexdigit s

unfoldable pub is_safe_identifier : Text → ℕ → ℕ → Bool
is_safe_identifier s low high = is_between low high (length s) && all_by is_identifier_char s

unfoldable pub is_printable_ascii : Text → ℕ → ℕ → Bool
is_printable_ascii s low high = is_between low high (length s) && all_by (is_between 0x20 0x7e) s

-- hmac, sha2, hex and subtle: digests are lists of bytes.
pub record Crypto : Type 0 where
  pub hmac : Text → Text → List ℕ
  pub hex_encode : List ℕ → Text
  pub hex_decode : Text → Option (List ℕ)
  pub ct_eq : List ℕ → List ℕ → Bool

-- proto.rs: the envelope of a command.
pub record Auth : Type 0 where
  pub worker_id : Text
  pub command_id : Text
  pub issued_at : ℤ
  pub expires_at : ℤ
  pub nonce : Text
  pub sig : Text

-- serde_json::Value: `as_i64` answers for an integral number only, `remove` and `insert` change an
-- object and nothing else, and `auth` is the object that `json!` builds of an envelope.
pub record Json (V : Type 0) : Type 0 where
  pub is_object : V → Bool
  pub get : V → Text → Option V
  pub as_str : V → Option Text
  pub as_i64 : V → Option ℤ
  pub remove : V → Text → V
  pub insert : V → Text → V → V
  pub auth : Auth → V
  pub to_string : V → Text
  pub from_slice : Text → Option V

pub data VerifyStatus : Type 0 where
  ok missing_auth malformed_auth wrong_worker issued_in_future : VerifyStatus
  lifetime_invalid expired bad_signature replayed_nonce : VerifyStatus

-- `{}` of an i64.
unfoldable pub decimal_ℤ : ℤ → Text
unfolding decimal
decimal_ℤ (pos n) = decimal n
decimal_ℤ (negsuc n) = b'-' ∷ decimal (suc n)

unfoldable pub line : Text → Text → Text
line field rest = field ++ b'\n' ∷ rest

unfoldable pub signing_string : Text → Text → ℤ → ℤ → Text → Text → Text
unfolding line decimal_ℤ
signing_string worker_id command_id issued_at expires_at nonce body = line (codes "TMv1") (
    line worker_id (
      line command_id (line (decimal_ℤ issued_at) (line (decimal_ℤ expires_at) (line nonce body)))))

module _ (cr : Crypto) where
  unfoldable pub hmac_sha256_hex : Text → Text → Text
  hmac_sha256_hex key data_bytes = cr.hex_encode (cr.hmac key data_bytes)

  abbrev pub digests_equal : Option (List ℕ) → Option (List ℕ) → Bool
  digests_equal (some a) (some b) = cr.ct_eq a b
  digests_equal _ _ = false

  unfoldable pub constant_time_hex_equals : Text → Text → Bool
  constant_time_hex_equals a b =
      if length a == length b then digests_equal (cr.hex_decode a) (cr.hex_decode b) else false

infixl 5 ◌>>=◌
abbrev pub ◌>>=◌ {ℓ κ} : {A : Type ℓ} {B : Type κ} → Option A → (A → Option B) → Option B
none >>= f = none
some a >>= f = f a

module _ {V : Type 0} (js : Json V) where
  unfoldable pub canonical_body : V → Text
  canonical_body msg = js.to_string (js.remove msg (codes "auth"))

  unfoldable pub string_field : V → Text → Option Text
  string_field obj key = js.get obj key >>= js.as_str

  unfoldable pub int64_field : V → Text → Option ℤ
  int64_field obj key = js.get obj key >>= js.as_i64

  -- The six typed fields of the envelope.
  unfoldable pub read_auth : V → Option Auth
  unfolding string_field int64_field
  read_auth auth = do
    worker_id ← string_field auth (codes "worker_id")
    command_id ← string_field auth (codes "command_id")
    nonce ← string_field auth (codes "nonce")
    sig ← string_field auth (codes "sig")
    issued_at ← int64_field auth (codes "issued_at")
    expires_at ← int64_field auth (codes "expires_at")
    some (record {
      worker_id = worker_id;
      command_id = command_id;
      issued_at = issued_at;
      expires_at = expires_at;
      nonce = nonce;
      sig = sig;
    })

  -- The bounds and alphabets of the texts in an envelope.
  unfoldable pub is_well_formed : Auth → Bool
  is_well_formed a =
      is_safe_identifier a.worker_id 1 max_id_len
      && is_safe_identifier a.command_id 1 max_id_len
      && is_hex_string a.nonce min_nonce_hex_len max_nonce_hex_len
      && is_hex_string a.sig 64 64

  module _ (cr : Crypto) (secret : Text) where
    unfoldable pub expected_sig : V → Auth → Text
    expected_sig msg a = hmac_sha256_hex cr secret (
        signing_string a.worker_id a.command_id a.issued_at a.expires_at a.nonce
          (canonical_body msg))

    unfoldable pub verify_replay : Auth → ℤ → NonceCache → NonceCache × VerifyStatus
    verify_replay a now nonces =
        let (nonces', fresh) = check_and_insert a.nonce a.expires_at now nonces in
        (nonces', if fresh then VerifyStatus.ok else replayed_nonce)

    unfoldable pub verify_auth : V → Auth → Text → ℤ → NonceCache → NonceCache × VerifyStatus
    verify_auth msg a expected_worker_id now nonces =
        if not (is_well_formed a)
        then (nonces, malformed_auth)
        else if not (text_eq a.worker_id expected_worker_id)
        then (nonces, wrong_worker)
        else if ltb_ℤ (saturate (now +ℤ clock_skew_sec)) a.issued_at
        then (nonces, issued_in_future)
        else if leb_ℤ a.expires_at a.issued_at
            || ltb_ℤ max_lifetime_sec (saturate (a.expires_at -ℤ a.issued_at))
        then (nonces, lifetime_invalid)
        else if ltb_ℤ a.expires_at now
        then (nonces, expired)
        else if not (constant_time_hex_equals cr a.sig (expected_sig msg a))
        then (nonces, bad_signature)
        else verify_replay a now nonces

    unfoldable pub verify_read : V → Option Auth → Text → ℤ → NonceCache → NonceCache × VerifyStatus
    verify_read msg none expected_worker_id now nonces = (nonces, malformed_auth)
    verify_read msg (some a) expected_worker_id now nonces =
        verify_auth msg a expected_worker_id now nonces

    unfoldable pub verify_found : V → Option V → Text → ℤ → NonceCache → NonceCache × VerifyStatus
    verify_found msg none expected_worker_id now nonces = (nonces, missing_auth)
    verify_found msg (some auth) expected_worker_id now nonces =
        if js.is_object auth
        then verify_read msg (read_auth auth) expected_worker_id now nonces
        else (nonces, malformed_auth)

    unfoldable pub verify_envelope : V → Text → ℤ → NonceCache → NonceCache × VerifyStatus
    verify_envelope msg expected_worker_id now nonces =
        if js.is_object msg
        then verify_found msg (js.get msg (codes "auth")) expected_worker_id now nonces
        else (nonces, missing_auth)

    -- The signer attaches an envelope.
    unfoldable pub sign_command : V → Text → Text → Text → ℤ → ℤ → V
    sign_command msg worker_id command_id nonce issued_at expires_at =
        let body = canonical_body msg in
        let sig =
          hmac_sha256_hex cr secret
            (signing_string worker_id command_id issued_at expires_at nonce body) in
        if js.is_object msg
        then js.insert msg (codes "auth") (
            js.auth record {
              worker_id = worker_id;
              command_id = command_id;
              issued_at = issued_at;
              expires_at = expires_at;
              nonce = nonce;
              sig = sig;
            })
        else msg

  abbrev pub or_blank : Option Text → Text
  or_blank none = []
  or_blank (some s) = s

  -- By the command and, where there is none, the action: unknown ones count as mutating.
  abbrev pub mutates : Text → Text → Bool
  mutates command action =
      if text_eq command (codes "register_ack") || text_eq command (codes "release")
      then false
      else if text_eq command []
      then not (text_eq action (codes "pause") || text_eq action (codes "resume"))
      else true

  unfoldable pub is_mutating_command : V → Bool
  is_mutating_command msg =
      if js.is_object msg
      then mutates (or_blank (string_field msg (codes "command")))
          (or_blank (string_field msg (codes "action")))
      else true
