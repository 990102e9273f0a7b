-- ===== src/Submit/Manager/Confirm.antt =====
-- manager.rs: what a `/get_block` answer proves about a find, and the verdict that follows from it.
pub mod Proof
use tree_miner_amd.Prelude.{
  ◌+◌,
  Bool,
  true,
  false,
  ◌&&◌,
  Option,
  none,
  some,
  ◌∷◌,
  ◌++◌,
  ◌==◌,
  if◌then◌else◌,
  Text.{Text, codes, text_eq},
}
use tree_miner_amd.Core.Types.{
  FindStatus, acked, pending, accepted_unconfirmed, FindRecord, Classification,
}
use tree_miner_amd.Submit.Json.{extract_json_field}
use tree_miner_amd.Submit.Manager.State.{TransportResult, Metrics}

pub data ConfirmBodyCheck : Type 0 where
  confirmed key_mismatch hash_mismatch malformed : ConfirmBodyCheck

unfoldable pub check_hash : FindRecord → Option Text → ConfirmBodyCheck
check_hash rec none = confirmed
check_hash rec (some hash) =
    if text_eq hash rec.payload.hash_to_verify then confirmed else hash_mismatch

unfoldable pub check_key : FindRecord → Text → Option Text → ConfirmBodyCheck
check_key rec body none = malformed
check_key rec body (some key) =
    if text_eq key rec.payload.key
    then check_hash rec (extract_json_field body (codes "hash_to_verify"))
    else key_mismatch

unfoldable pub confirmation_matches : FindRecord → Text → ConfirmBodyCheck
confirmation_matches rec body = check_key rec body (extract_json_field body (codes "key"))

abbrev dash : Text → Text
dash s = 0xe2 ∷ 0x80 ∷ 0x94 ∷ s

unfoldable pub confirm_reject_reason : ConfirmBodyCheck → Text
confirm_reject_reason key_mismatch =
    codes "/get_block 200 body describes a different key "
    ++ dash (codes " not a confirmation of this record, remaining unconfirmed")
confirm_reject_reason hash_mismatch =
    codes "/get_block 200 has our key but a DIFFERENT hash_to_verify "
    ++ dash (codes " refusing to ack, remaining unconfirmed")
confirm_reject_reason _ =
    codes "/get_block 200 body malformed or missing key "
    ++ dash (codes " untrusted, remaining unconfirmed")

-- The four cases of a lookup, which both the first and the repeated confirmation tell apart.
pub data Lookup : Type 0 where
  proven absent unavailable : Lookup
  unproven : ConfirmBodyCheck → Lookup

unfoldable pub of_check : ConfirmBodyCheck → Lookup
of_check confirmed = proven
of_check check = unproven check

unfoldable pub judge : FindRecord → TransportResult → Lookup
judge rec conf =
    if conf.transport_ok && conf.http_status == 200
    then of_check (confirmation_matches rec conf.body)
    else if conf.transport_ok && conf.http_status == 404
    then absent
    else unavailable

-- The first confirmation, right after the submission: the verdict is changed in place.
unfoldable pub resolve : Lookup → Classification → Classification
resolve proven c = record c {
  next_status = acked;
  needs_lookup_confirmation = false;
  reason = c.reason ++ codes "; confirmed via /get_block (body matches key)";
}
resolve (unproven check) c = record c {
  reason = c.reason ++ codes "; " ++ confirm_reject_reason check;
}
resolve absent c = record c {
  next_status = pending;
  needs_lookup_confirmation = false;
  reason =
      c.reason
      ++ codes "; /get_block says ABSENT "
      ++ dash (codes " server 200 was not durable, resubmitting");
}
resolve unavailable c = record c {
  reason = c.reason ++ codes "; /get_block unavailable, remaining unconfirmed";
}

-- A repeated confirmation: a verdict of its own.
unfoldable pub retried : Lookup → Classification
retried proven = record {
  next_status = acked;
  server_difficulty_hint = none;
  needs_lookup_confirmation = false;
  reason = codes "confirmed via /get_block (retry, body matches key)";
}
retried (unproven check) = record {
  next_status = accepted_unconfirmed;
  server_difficulty_hint = none;
  needs_lookup_confirmation = false;
  reason = confirm_reject_reason check;
}
retried absent = record {
  next_status = pending;
  server_difficulty_hint = none;
  needs_lookup_confirmation = false;
  reason =
      codes "/get_block says ABSENT " ++ dash (codes " server 200 was not durable, resubmitting");
}
retried unavailable = record {
  next_status = accepted_unconfirmed;
  server_difficulty_hint = none;
  needs_lookup_confirmation = false;
  reason = codes "/get_block unavailable, remaining unconfirmed (retry backoff)";
}

-- All lookups but a proof are repeated after a backoff.
unfoldable pub is_retried : Lookup → Bool
is_retried proven = false
is_retried _ = true

-- What a lookup counts; a repeated one counts its acknowledgement here too.
unfoldable pub count_lookup : Lookup → Metrics → Metrics
count_lookup proven m = record m { reconciled_via_get_block = m.reconciled_via_get_block + 1 }
count_lookup (unproven check) m = record m { confirm_body_rejected = m.confirm_body_rejected + 1 }
count_lookup absent m = record m { lying_200_detected = m.lying_200_detected + 1 }
count_lookup unavailable m = m

unfoldable pub count_retried : Lookup → Metrics → Metrics
unfolding count_lookup
count_retried proven m = let m' = record m { acked = m.acked + 1 } in count_lookup proven m'
count_retried l m = count_lookup l m
