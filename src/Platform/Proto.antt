-- ===== src/Platform/Proto.antt =====
-- treeminer-rs/crates/tm-platform/src/proto.rs: the commands of the platform and the payloads of
-- the worker. The typed decoding of a command is serde's, a parameter.
use tree_miner_amd.Prelude.{
  ℕ,
  Bool,
  not,
  ◌||◌,
  Option,
  none,
  some,
  List,
  [],
  length,
  ltb,
  if◌then◌else◌,
  Text.{Text, codes, text_eq},
  Int.{ℤ},
  Floats.{F64},
}
use tree_miner_amd.Platform.Envelope.{Json, max_payload_bytes}

abbrev pub platform_prefix_length : ℕ
platform_prefix_length = 16

abbrev pub worker_version : Text
worker_version = codes "2.0.0"

pub record GpuInfo : Type 0 where
  pub index : ℤ
  pub name : Text
  pub memory_gb : ℤ
  pub bus_id : ℤ

pub record Register : Type 0 where
  pub worker_id : Text
  pub eth_address : Text
  pub gpu_count : ℕ
  pub total_memory_gb : ℤ
  pub gpus : List GpuInfo
  pub version : Text
  pub timestamp : ℤ

pub record Heartbeat : Type 0 where
  pub worker_id : Text
  pub hashrate : F64
  pub active_gpus : ℤ
  pub accepted_blocks : ℤ
  pub difficulty : ℤ
  pub address : Text
  pub prefix : Text
  pub block_pattern : Text
  pub uptime_sec : ℤ
  pub timestamp : ℤ

pub record StatusUpdate : Type 0 where
  pub worker_id : Text
  pub state : Text
  pub lease_id : Text
  pub detail : Text
  pub timestamp : ℤ

pub record BlockFound : Type 0 where
  pub worker_id : Text
  pub lease_id : Text
  pub hash : Text
  pub key : Text
  pub account : Text
  pub attempts : ℕ
  pub hashrate : Text
  pub timestamp : ℤ

pub record OfflineNotice : Type 0 where
  pub worker_id : Text
  pub status : Text
  pub timestamp : ℤ

pub record RegisterAck : Type 0 where
  pub accepted : Bool
  pub reason : Text

pub record AssignTask : Type 0 where
  pub lease_id : Text
  pub consumer_id : Text
  pub consumer_address : Text
  pub prefix : Text
  pub duration_sec : ℤ

pub record Release : Type 0 where
  pub lease_id : Text

pub record SetConfig : Type 0 where
  pub difficulty : Option ℤ
  pub address : Option Text
  pub prefix : Option Text
  pub block_pattern : Option Text

pub data ControlAction : Type 0 where
  pause resume shutdown : ControlAction
  set_config : SetConfig → ControlAction

pub data Command : Type 0 where
  register_ack : RegisterAck → Command
  assign_task : AssignTask → Command
  release : Release → Command
  control : ControlAction → Command

pub data ParseError : Type 0 where
  too_large : ℕ → ℕ → ParseError
  not_json not_object oversized_command oversized_action unknown_action : ParseError
  malformed : Text → ParseError

-- `Result<_, ParseError>`.
pub data Parsed {ℓ} (A : Type ℓ) : Type ℓ where
  parsed : A → Parsed A
  failed : ParseError → Parsed A

abbrev pub max_command_field : ℕ
max_command_field = 64

abbrev pub max_action_field : ℕ
max_action_field = 32

-- serde_json::from_value for the types of the commands.
pub record Decode (V : Type 0) : Type 0 where
  pub to_register_ack : V → Option RegisterAck
  pub to_assign_task : V → Option AssignTask
  pub to_release : V → Option Release
  pub to_control : V → Option ControlAction

-- `.map(f).map_err(|_| Malformed(name))`
abbrev pub decoded {ℓ} : {A : Type ℓ} → (A → Command) → Text → Option A → Parsed Command
decoded f name none = failed (malformed name)
decoded f name (some a) = parsed (f a)

module _ {V : Type 0} (js : Json V) (de : Decode V) where
  unfoldable pub control_of : V → Text → Parsed Command
  control_of msg action =
      if ltb max_action_field (length action)
      then failed oversized_action
      else if not (
          text_eq action (codes "pause")
          || text_eq action (codes "resume")
          || text_eq action (codes "shutdown")
          || text_eq action (codes "set_config"))
      then failed unknown_action
      else decoded control (codes "control") (de.to_control msg)

  -- A field that is there must be a text.
  abbrev pub with_text : Text → (Text → Parsed Command) → Option Text → Parsed Command
  with_text name f none = failed (malformed name)
  with_text name f (some s) = f s

  unfoldable pub by_action : V → Option V → Parsed Command
  by_action msg none = failed unknown_action
  by_action msg (some v) = with_text (codes "action") (control_of msg) (js.as_str v)

  unfoldable pub by_command : V → Text → Parsed Command
  by_command msg command =
      if ltb max_command_field (length command)
      then failed oversized_command
      else if text_eq command (codes "register_ack")
      then decoded register_ack (codes "register_ack") (de.to_register_ack msg)
      else if text_eq command (codes "assign_task")
      then decoded assign_task (codes "assign_task") (de.to_assign_task msg)
      else if text_eq command (codes "release")
      then decoded release (codes "release") (de.to_release msg)
      else by_action msg (js.get msg (codes "action"))

  unfoldable pub by_field : V → Option V → Parsed Command
  by_field msg none = by_command msg []
  by_field msg (some v) = with_text (codes "command") (by_command msg) (js.as_str v)

  unfoldable pub command_from_value : V → Parsed Command
  command_from_value msg =
      if js.is_object msg then by_field msg (js.get msg (codes "command")) else failed not_object

  abbrev pub object_only : Option V → Parsed V
  object_only none = failed not_json
  object_only (some v) = if js.is_object v then parsed v else failed not_object

  unfoldable pub value_from_payload : Text → Parsed V
  value_from_payload payload =
      if ltb max_payload_bytes (length payload)
      then failed (too_large (length payload) max_payload_bytes)
      else object_only (js.from_slice payload)
