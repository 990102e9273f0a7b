-- ===== src/Platform/Manager/Legacy.antt =====
-- What a message that is not classified as mutating can be read as.
pub mod Runs
use tree_miner_amd.Prelude.{
  ℕ,
  zero,
  suc,
  ◌≡◌,
  refl,
  sym,
  ap,
  ◌∙◌,
  subst,
  ◌⊎◌,
  inl,
  ◌⊎◌,
  inr,
  Bool,
  true,
  false,
  not,
  ◌||◌,
  Option,
  none,
  some,
  List,
  [],
  ◌∷◌,
  length,
  arith,
  Bool-cases,
  if◌then◌else◌,
  Text.{Text, codes, text_eq, text_eq_iff},
  Int.{ℤ},
  Floats.{F64},
}
use tree_miner_amd.Core.Address.{Keccak}
use tree_miner_amd.Platform.Coordinator.{MiningIdentity, update_context}
use tree_miner_amd.Platform.Envelope.{
  Json, Crypto, string_field, is_mutating_command, or_blank, mutates, ◌>>=◌,
}
use tree_miner_amd.Platform.Lease.{LeaseInfo, end_lease, has_active_lease}
use tree_miner_amd.Platform.Proto.{
  Decode, RegisterAck, Release, ControlAction, pause, resume, shutdown, set_config, Command,
  register_ack, assign_task, release, control, Parsed, parsed, failed, decoded, control_of,
  with_text, by_action, by_command, by_field, command_from_value, value_from_payload,
}

-- The tag of an action on the wire.
unfoldable pub action_tag : ControlAction → Text
action_tag pause = codes "pause"
action_tag resume = codes "resume"
action_tag shutdown = codes "shutdown"
action_tag (set_config c) = codes "set_config"

-- serde's `tag = "action"`: what is decoded is the variant that the field names.
abbrev pub HasTags : {V : Type 0} → Json V → Decode V → Type 0
HasTags {V} js de =
    (msg : V) (action : ControlAction)
    → de.to_control msg ≡ some action
    → string_field js msg (codes "action") ≡ some (action_tag action)

-- The commands that cannot move money.
abbrev pub is_harmless : Command → Bool
is_harmless (register_ack ack) = true
is_harmless (release r) = true
is_harmless (control pause) = true
is_harmless (control resume) = true
is_harmless _ = false

abbrev PausesOrResumes : Text → Type 0
PausesOrResumes action = (text_eq action (codes "pause") || text_eq action (codes "resume")) ≡ true

tag_harmless :
    (action : ControlAction)
    → PausesOrResumes (action_tag action)
    → is_harmless (control action) ≡ true
unfolding text_eq action_tag
tag_harmless pause p = refl
tag_harmless resume p = refl
tag_harmless shutdown p = cc
tag_harmless (set_config c) p = cc

module _ {V : Type 0} (js : Json V) (de : Decode V) (tags : HasTags js de) where
  abbrev action_of : V → Text
  action_of msg = or_blank js (string_field js msg (codes "action"))

  control_harmless :
      (msg : V) (r : Option ControlAction) (command : Command)
      → PausesOrResumes (action_of msg)
      → de.to_control msg ≡ r
      → decoded control (codes "control") r ≡ parsed command
      → is_harmless command ≡ true
  control_harmless msg none command p e d = cc
  control_harmless msg (some action) command p e d =
      let named : action_of msg ≡ action_tag action = ap (or_blank js) (tags msg action e) in
      let harmless = tag_harmless action (subst PausesOrResumes named p) in cc (harmless, d)

  decoded_ack :
      (r : Option RegisterAck) (command : Command)
      → decoded register_ack (codes "register_ack") r ≡ parsed command
      → is_harmless command ≡ true
  decoded_ack none command d = cc
  decoded_ack (some ack) command d = cc

  decoded_release :
      (r : Option Release) (command : Command)
      → decoded release (codes "release") r ≡ parsed command
      → is_harmless command ≡ true
  decoded_release none command d = cc
  decoded_release (some r) command d = cc

  action_harmless :
      (msg : V) (field : Option V) (command : Command)
      → PausesOrResumes (action_of msg)
      → by_action js de msg field ≡ parsed command
      → is_harmless command ≡ true
  unfolding by_action control_of
  action_harmless msg none command p d = cc
  action_harmless msg (some v) command p d = by_text (js.as_str v) d
    where
      by_text :
          (r : Option Text)
          → with_text js de (codes "action") (control_of js de msg) r ≡ parsed command
          → is_harmless command ≡ true
      by_text none d' = cc
      by_text (some action) d' =
          ground (arith, control_harmless msg (de.to_control msg) command p refl)

  named_harmless :
      (msg : V) (name : Text) (command : Command)
      → (text_eq name (codes "register_ack") || text_eq name (codes "release")) ≡ true
      → by_command js de msg name ≡ parsed command
      → is_harmless command ≡ true
  unfolding by_command text_eq
  named_harmless msg name command n d =
      let Reads = λ (t : Text). by_command js de msg t ≡ parsed command in
      elim (Bool-cases (text_eq name (codes "register_ack"))) [
        | inl ack ↦
            decoded_ack (de.to_register_ack msg) command
              (subst Reads ((text_eq_iff name (codes "register_ack")).0 ack) d)
        | inr other ↦
            decoded_release (de.to_release msg) command
              (subst Reads ((text_eq_iff name (codes "release")).0 (rw other at n)) d)
      ]

  unnamed_harmless :
      (msg : V) (command : Command)
      → PausesOrResumes (action_of msg)
      → by_command js de msg [] ≡ parsed command
      → is_harmless command ≡ true
  unfolding by_command text_eq
  unnamed_harmless msg command p d = action_harmless msg (js.get msg (codes "action")) command p d

  unmutating :
      (name action : Text)
      → mutates js name action ≡ false
      → ((text_eq name (codes "register_ack") || text_eq name (codes "release")) ≡ true)
        ⊎ ((text_eq name [] ≡ true) × PausesOrResumes action)
  unmutating name action m = ground arith

  mutates_of :
      (msg : V) (name : Option Text)
      → string_field js msg (codes "command") ≡ name
      → js.is_object msg ≡ true
      → is_mutating_command js msg ≡ false
      → mutates js (or_blank js name) (action_of msg) ≡ false
  unfolding is_mutating_command
  mutates_of msg name f o m =
      subst (λ r. mutates js (or_blank js r) (action_of msg) ≡ false) f (rw o at m)

  text_harmless :
      (msg : V) (name : Option Text) (command : Command)
      → string_field js msg (codes "command") ≡ name
      → js.is_object msg ≡ true
      → is_mutating_command js msg ≡ false
      → with_text js de (codes "command") (by_command js de msg) name ≡ parsed command
      → is_harmless command ≡ true
  text_harmless msg none command f o m d = cc
  text_harmless msg (some name) command f o m d =
      elim (unmutating name (action_of msg) (mutates_of msg (some name) f o m)) [
        | inl named ↦ named_harmless msg name command named d
        | inr (empty, p) ↦
            unnamed_harmless msg command p (
              subst (λ t. by_command js de msg t ≡ parsed command) ((text_eq_iff name []).0 empty)
                d)
      ]

  field_harmless :
      (msg : V) (field : Option V) (command : Command)
      → js.get msg (codes "command") ≡ field
      → js.is_object msg ≡ true
      → is_mutating_command js msg ≡ false
      → by_field js de msg field ≡ parsed command
      → is_harmless command ≡ true
  unfolding by_field string_field text_eq
  field_harmless msg none command f o m d =
      let m' = mutates_of msg none (ap (λ g. g >>= js.as_str) f) o m in
      unnamed_harmless msg command (ground arith) d
  field_harmless msg (some v) command f o m d =
      text_harmless msg (js.as_str v) command (ap (λ g. g >>= js.as_str) f) o m d

  -- A message that is not classified as mutating is read, if at all, as one of the four.
  pub harmless_of_unmutating :
      (msg : V) (command : Command)
      → is_mutating_command js msg ≡ false
      → command_from_value js de msg ≡ parsed command
      → is_harmless command ≡ true
  unfolding command_from_value
  harmless_of_unmutating msg command m d = elim (Bool-cases (js.is_object msg)) [
    | inl object ↦
        field_harmless msg (js.get msg (codes "command")) command refl object m (rw object at d)
    | inr other ↦ cc (other, d)
  ]
