-- ===== src/Core/Types.antt =====
-- treeminer-rs/crates/tm-core/src/types.rs: finds, their lifecycle and the classifier's verdict.
-- Texts are lists of bytes; `i32`, `i64`, `u32`, `u64` and `usize` values are natural numbers, since
-- none of the fields is ever negative but the placeholder id of a record not yet journaled.
pub mod Codec
use tree_miner_amd.Prelude.{ℕ, Bool, true, false, Option, none, some, [], if◌then◌else◌}
use tree_miner_amd.Prelude.Text.{Text, codes, text_eq}
use tree_miner_amd.Prelude.Floats.{F64}

pub data FindKind : Type 0 where
  xen11 xuni : FindKind

-- FindKind::as_str
unfoldable pub kind_as_str : FindKind → Text
kind_as_str xen11 = codes "XEN11"
kind_as_str xuni = codes "XUNI"

-- FindKind::parse
unfoldable pub kind_parse : Text → Option FindKind
unfolding text_eq
kind_parse text =
    if text_eq text (codes "XEN11")
    then some xen11
    else if text_eq text (codes "XUNI")
    then some xuni
    else none

pub data FindStatus : Type 0 where
  pending submitting accepted_unconfirmed acked parked_difficulty : FindStatus
  parked_xuni_window quarantined dead permanently_invalid : FindStatus

-- FindStatus::as_str
unfoldable pub status_as_str : FindStatus → Text
status_as_str pending = codes "Pending"
status_as_str submitting = codes "Submitting"
status_as_str accepted_unconfirmed = codes "AcceptedUnconfirmed"
status_as_str acked = codes "Acked"
status_as_str parked_difficulty = codes "ParkedDifficulty"
status_as_str parked_xuni_window = codes "ParkedXuniWindow"
status_as_str quarantined = codes "Quarantined"
status_as_str dead = codes "Dead"
status_as_str permanently_invalid = codes "PermanentlyInvalid"

-- FindStatus::parse
unfoldable pub status_parse : Text → Option FindStatus
unfolding text_eq
status_parse text =
    if text_eq text (codes "Pending")
    then some pending
    else if text_eq text (codes "Submitting")
    then some submitting
    else if text_eq text (codes "AcceptedUnconfirmed")
    then some accepted_unconfirmed
    else if text_eq text (codes "Acked")
    then some acked
    else if text_eq text (codes "ParkedDifficulty")
    then some parked_difficulty
    else if text_eq text (codes "ParkedXuniWindow")
    then some parked_xuni_window
    else if text_eq text (codes "Quarantined")
    then some quarantined
    else if text_eq text (codes "Dead")
    then some dead
    else if text_eq text (codes "PermanentlyInvalid")
    then some permanently_invalid
    else none

-- FindStatus::is_terminal
unfoldable pub is_terminal : FindStatus → Bool
is_terminal acked = true
is_terminal dead = true
is_terminal permanently_invalid = true
is_terminal _ = false

pub record FoundPayload : Type 0 where
  pub key : Text
  pub hash_to_verify : Text
  pub account : Text
  pub kind : FindKind
  pub memory_cost : ℕ
  pub worker : Text
  pub attempts : ℕ
  pub hashes_per_second : F64
  pub found_at_utc : Text

pub record FindRecord : Type 0 where
  pub id : ℕ
  pub payload : FoundPayload
  pub status : FindStatus
  pub status_reason : Text
  pub attempt_count : ℕ
  pub next_attempt_at : Option Text
  pub last_attempt_at : Option Text
  pub last_http_status : Option ℕ
  pub last_response : Text
  pub confirmed_at : Option Text
  pub xuni_windows_tried : ℕ

pub record Classification : Type 0 where
  pub next_status : FindStatus
  pub server_difficulty_hint : Option ℕ
  pub needs_lookup_confirmation : Bool
  pub reason : Text
