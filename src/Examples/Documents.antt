-- ===== src/Examples/Documents.antt =====
-- A small JSON library, a digest, and a decoder of commands, for the tests.
use tree_miner_amd.Prelude.{
  ℕ,
  suc,
  zero,
  ◌&&◌,
  ◌/◌,
  ◌%◌,
  ◌≡◌,
  refl,
  ap,
  Bool,
  true,
  false,
  not,
  Option,
  none,
  some,
  List,
  [],
  ◌∷◌,
  ◌++◌,
  ◌==◌,
  ◌+◌,
  ◌-◌,
  ◌*◌,
  arith,
  if◌then◌else◌,
  Text.{Text, codes, text_eq, text_eq_iff, text_eq_refl},
  Int.{ℤ, pos},
}
use tree_miner_amd.Core.Address.{Keccak}
use tree_miner_amd.Platform.Envelope.{
  Json, Crypto, Auth, is_hex_string, read_auth, string_field, int64_field, ◌>>=◌,
}
use tree_miner_amd.Platform.Envelope.RoundTrip.{JsonLaws, CryptoLaws}
use tree_miner_amd.Platform.Proto.{
  Decode, AssignTask, ControlAction, pause, resume, shutdown, set_config, SetConfig,
}
use tree_miner_amd.Platform.Manager.Invariant.Runs.{OwnAnswer}
use tree_miner_amd.Platform.Manager.Legacy.{HasTags, action_tag}

mutual
  pub data Doc : Type 0 where
    object : Fields → Doc
    text : Text → Doc
    number : ℤ → Doc

  pub data Fields : Type 0 where
    closed : Fields
    field : Text → Doc → Fields → Fields

unfoldable pub look : Text → Fields → Option Doc
unfolding text_eq
look k closed = none
look k (field k' v rest) = let more = look k rest in if text_eq k' k then some v else more

unfoldable pub drop : Text → Fields → Fields
unfolding text_eq
drop k closed = closed
drop k (field k' v rest) = let more = drop k rest in if text_eq k' k then more else field k' v more

unfoldable pub print : Fields → Text
print closed = []
print (field k v rest) = k ++ print rest

abbrev envelope : Auth → Fields
envelope a = field (codes "worker_id") (text a.worker_id) (
    field (codes "command_id") (text a.command_id) (
      field (codes "nonce") (text a.nonce) (
        field (codes "sig") (text a.sig) (
          field (codes "issued_at") (number a.issued_at)
            (field (codes "expires_at") (number a.expires_at) closed)))))

abbrev object_get : Doc → Text → Option Doc
object_get (object fs) k = look k fs
object_get _ k = none

abbrev object_drop : Doc → Text → Doc
object_drop (object fs) k = object (drop k fs)
object_drop d k = d

abbrev object_put : Doc → Text → Doc → Doc
object_put (object fs) k v = object (field k v (drop k fs))
object_put d k v = d

abbrev is_object_doc : Doc → Bool
is_object_doc (object fs) = true
is_object_doc _ = false

abbrev text_of : Doc → Option Text
text_of (text t) = some t
text_of _ = none

abbrev number_of : Doc → Option ℤ
number_of (number z) = some z
number_of _ = none

abbrev doc_text : Doc → Text
doc_text (object fs) = print fs
doc_text (text t) = t
doc_text (number z) = []

-- A payload is the name of an action.
abbrev pub doc_json : Json Doc
doc_json = record {
  is_object = is_object_doc;
  get = object_get;
  as_str = text_of;
  as_i64 = number_of;
  remove = object_drop;
  insert = object_put;
  auth = λ a. object (envelope a);
  to_string = doc_text;
  from_slice = λ payload. some (object (field (codes "action") (text payload) closed));
}

drop_idem : (k : Text) (fs : Fields) → drop k (drop k fs) ≡ drop k fs
unfolding drop
drop_idem k closed = refl
drop_idem k (field k' v rest) = ground (arith, drop_idem k rest)

drop_field : (k : Text) (v : Doc) (fs : Fields) → drop k (field k v (drop k fs)) ≡ drop k fs
unfolding drop
drop_field k v fs = rw (text_eq_refl k) (drop_idem k fs)

look_field : (k : Text) (v : Doc) (fs : Fields) → look k (field k v fs) ≡ some v
unfolding look
look_field k v fs = rw (text_eq_refl k)

pub doc_laws : JsonLaws doc_json
unfolding look read_auth string_field int64_field
doc_laws = record {
  get_insert = get_put;
  object_insert = object_stays;
  remove_insert = drop_put;
  object_auth = λ a. refl;
  read_back = λ a. refl;
}
  where
    get_put :
        (v w : Doc) (k : Text) → is_object_doc v ≡ true → object_get (object_put v k w) k ≡ some w
    get_put (object fs) w k o = look_field k w (drop k fs)
    get_put (text t) w k o = cc
    get_put (number z) w k o = cc

    object_stays :
        (v w : Doc) (k : Text) → is_object_doc v ≡ true → is_object_doc (object_put v k w) ≡ true
    object_stays (object fs) w k o = refl
    object_stays (text t) w k o = cc
    object_stays (number z) w k o = cc

    drop_put :
        (v w : Doc) (k : Text)
        → is_object_doc v ≡ true
        → object_drop (object_put v k w) k ≡ object_drop v k
    drop_put (object fs) w k o = ap object (drop_field k w fs)
    drop_put (text t) w k o = refl
    drop_put (number z) w k o = refl

-- A digest of 32 bytes, the first of which tells an even from an odd number of input bytes.
unfoldable pub is_odd : Text → Bool
is_odd [] = false
is_odd (c ∷ s) = not (is_odd s)

unfoldable pub zero_bytes : ℕ → List ℕ
zero_bytes zero = []
zero_bytes (suc n) = 0 ∷ zero_bytes n

unfoldable pub digest_of : Bool → List ℕ
unfolding zero_bytes
digest_of b = (if b then 1 else 0) ∷ zero_bytes 31

unfoldable pub hex_of : List ℕ → Text
hex_of [] = []
hex_of (b ∷ bytes) = (b'0' + b / 16) ∷ (b'0' + b % 16) ∷ hex_of bytes

unfoldable pub bytes_of : Text → Option (List ℕ)
bytes_of [] = some []
bytes_of (a ∷ []) = none
bytes_of (a ∷ b ∷ s) = elim (bytes_of s) [
  | none ↦ none
  | some bytes ↦ some (((a - b'0') * 16 + (b - b'0')) ∷ bytes)
]

unfoldable pub same_bytes : List ℕ → List ℕ → Bool
same_bytes [] [] = true
same_bytes (a ∷ s) (b ∷ t) = a == b && same_bytes s t
same_bytes _ _ = false

same_bytes_refl : (s : List ℕ) → same_bytes s s ≡ true
unfolding same_bytes
same_bytes_refl [] = refl
same_bytes_refl (a ∷ s) = ground (arith, same_bytes_refl s)

abbrev pub parity : Crypto
parity = record {
  hmac = λ key bytes. digest_of (is_odd (key ++ bytes));
  hex_encode = hex_of;
  hex_decode = bytes_of;
  ct_eq = same_bytes;
}

shape_of : (b : Bool) → is_hex_string (hex_of (digest_of b)) 64 64 ≡ true
unfolding is_hex_string hex_of digest_of
shape_of true = refl
shape_of false = refl

decode_of : (b : Bool) → bytes_of (hex_of (digest_of b)) ≡ some (digest_of b)
unfolding bytes_of hex_of digest_of
decode_of true = refl
decode_of false = refl

pub parity_laws : CryptoLaws parity
parity_laws = record {
  digest_shape = λ key bytes. shape_of (is_odd (key ++ bytes));
  decode_encode = λ key bytes. decode_of (is_odd (key ++ bytes));
  ct_eq_refl = same_bytes_refl;
}

-- A hash without large digits: the lower-case addresses are valid.
abbrev pub low_hash : Keccak
unfolding zero_bytes
low_hash = record { digest = λ t. zero_bytes 32; encode_upper = hex_of }

abbrev pub consumer : Text
consumer = codes "0x00000000000000000000000000000000000000aa"

abbrev pub task : AssignTask
task = record {
  lease_id = codes "lease-1";
  consumer_id = codes "consumer-1";
  consumer_address = consumer;
  prefix = [];
  duration_sec = pos 3600;
}

abbrev pub no_change : SetConfig
no_change = record { difficulty = none; address = none; prefix = none; block_pattern = none }

unfoldable pub action_of : Text → Option ControlAction
unfolding text_eq
action_of t =
    if text_eq t (codes "pause")
    then some pause
    else if text_eq t (codes "resume")
    then some resume
    else if text_eq t (codes "shutdown")
    then some shutdown
    else if text_eq t (codes "set_config")
    then some (set_config no_change)
    else none

abbrev pub decoder : Decode Doc
decoder = record {
  to_register_ack = λ d. some (record { accepted = true; reason = [] });
  to_assign_task = λ d. some task;
  to_release = λ d. some (record { lease_id = [] });
  to_control = λ d. string_field doc_json d (codes "action") >>= action_of;
}

action_of-tag :
    (t : Text) (action : ControlAction) → action_of t ≡ some action → t ≡ action_tag action
unfolding action_of action_tag
action_of-tag t action e = ground (
  arith,
  text_eq_iff t (codes "pause"),
  text_eq_iff t (codes "resume"),
  text_eq_iff t (codes "shutdown"),
  text_eq_iff t (codes "set_config"),
)

pub decoder_tags : HasTags doc_json decoder
decoder_tags msg action e = by_text (string_field doc_json msg (codes "action")) e
  where
    by_text : (r : Option Text) → (r >>= action_of) ≡ some action → r ≡ some (action_tag action)
    by_text none e' = cc
    by_text (some t) e' = ap some (action_of-tag t action e')

action_owns : (own : Text → Type 0) (t : Text) → OwnAnswer own (action_of t)
unfolding action_of
action_owns own t = ground arith

-- No action of the decoder names an address.
pub decoder_owns : (own : Text → Type 0) (d : Doc) → OwnAnswer own (decoder.to_control d)
decoder_owns own d = by_text (string_field doc_json d (codes "action"))
  where
    by_text : (r : Option Text) → OwnAnswer own (r >>= action_of)
    by_text none = tt
    by_text (some t) = action_owns own t
