-- ===== src/Submit/Classifier.antt =====
-- treeminer-rs/crates/tm-submit/src/classifier.rs: the verdict on one answer of `/verify`.
-- An HTTP status is a natural number; 0 is the sentinel of a transport failure, and the code treats
-- a negative one, which no client produces, alike.
pub mod Hints
pub mod Verdicts
use tree_miner_amd.Prelude.{
  ℕ,
  zero,
  suc,
  ◌+◌,
  ◌-◌,
  ◌*◌,
  ◌^◌,
  Bool,
  true,
  false,
  not,
  ◌&&◌,
  ◌||◌,
  Option,
  none,
  some,
  List,
  [],
  ◌∷◌,
  ◌++◌,
  ltb,
  leb,
  ◌==◌,
  if◌then◌else◌,
  is_empty,
  Text.{Text, codes, contains, is_digit, is_whitespace, decimal},
}
use tree_miner_amd.Core.Types.{
  FindKind, xen11, xuni, FindStatus, pending, accepted_unconfirmed, parked_difficulty,
  parked_xuni_window, quarantined, permanently_invalid, Classification,
}
use tree_miner_amd.Submit.Drain.{is_xuni}
use tree_miner_amd.Submit.Json.{skip_ws, extract_json_message}

abbrev pub transport_error : ℕ
transport_error = 0

unfoldable pub is_blank : Text → Bool
is_blank [] = true
is_blank (c ∷ s) = is_whitespace c && is_blank s

-- The digit loop of `parse_difficulty_hint`, from the value so far; `none` past `u32::MAX`.
unfoldable pub hint_digits : ℕ → Text → Option ℕ
hint_digits value [] = some value
hint_digits value (c ∷ s) =
    let value' = value * 10 + (c - b'0') in
    let more = hint_digits value' s in
    if is_digit c then (if ltb (2 ^ 32 - 1) value' then none else more) else some value

-- Whether a text starts with `m=` and a digit.
unfoldable pub starts_hint : Text → Bool
starts_hint (a ∷ b ∷ c ∷ s) = a == b'm' && b == b'=' && is_digit c
starts_hint _ = false

after_two : Text → Text
after_two (a ∷ b ∷ s) = s
after_two _ = []

unfoldable pub parse_difficulty_hint : Text → Option ℕ
unfolding after_two
parse_difficulty_hint [] = none
parse_difficulty_hint (c ∷ s) =
    let later = parse_difficulty_hint s in
    if starts_hint (c ∷ s) then hint_digits 0 (after_two (c ∷ s)) else later

-- The digit loop of `parse_retry_after_seconds`: the value and what follows the digits.
retry_digits : ℕ → Text → Option (ℕ × Text)
retry_digits value [] = some (value, [])
retry_digits value (c ∷ s) =
    let more = retry_digits (value * 10 + (c - b'0')) s in
    if is_digit c then (if ltb 100000000 value then none else more) else some (value, c ∷ s)

only_value : Option (ℕ × Text) → Option ℕ
unfolding skip_ws
only_value none = none
only_value (some (value, rest)) = if is_empty (skip_ws rest) then some value else none

retry_from : Text → Option ℕ
unfolding retry_digits only_value
retry_from [] = none
retry_from (c ∷ s) = if not (is_digit c) then none else only_value (retry_digits 0 (c ∷ s))

unfoldable pub parse_retry_after_seconds : Text → Option ℕ
unfolding retry_from
parse_retry_after_seconds header_value = retry_from (skip_ws header_value)

abbrev pub terminal_markers : List Text
terminal_markers =
    codes "Invalid key format"
    ∷ codes "Invalid salt format"
    ∷ codes "Missing hash_to_verify, key, or account"
    ∷ codes "Hash does not contain any of the valid targets"
    ∷ codes "should not be greater than 150 characters"
    ∷ codes "Hash verification failed"
    ∷ []

unfoldable pub first_contained : Text → List Text → Option Text
first_contained message [] = none
first_contained message (m ∷ ms) =
    let later = first_contained message ms in if contains message m then some m else later

unfoldable pub terminal_marker : Text → Option Text
terminal_marker message = first_contained message terminal_markers

unfoldable pub is_xuni_window_rejection : Text → Bool
is_xuni_window_rejection message =
    contains message (codes "outside of proper time frame")
    || contains message (codes "outside of time window")
    || contains message (codes "time frame")
    || contains message (codes "time window")

unfoldable pub is_difficulty_mismatch : Text → Bool
is_difficulty_mismatch message =
    contains message (codes "Hash does not contain 'm=")
    || (contains message (codes "does not contain") && contains message (codes "m="))

-- A verdict without a hint and without a lookup: the source's `pending`, `quarantined` and literals.
abbrev plain_verdict : FindStatus → Text → Classification
plain_verdict status reason = record {
  next_status = status;
  server_difficulty_hint = none;
  needs_lookup_confirmation = false;
  reason = reason;
}

abbrev awaiting : Text → Classification
awaiting reason = record {
  next_status = accepted_unconfirmed;
  server_difficulty_hint = none;
  needs_lookup_confirmation = true;
  reason = reason;
}

retry_note : Option Text → Text
retry_note none = []
retry_note (some header) = elim (parse_retry_after_seconds header) [
  | none ↦ []
  | some secs ↦ codes "; retry_after_s=" ++ decimal secs
]

terminal_verdict : ℕ → Text → Text → Classification
terminal_verdict status marker message = plain_verdict permanently_invalid (
    codes "server rejected permanently (http "
    ++ (decimal status
        ++ (codes ", matched \""
            ++ (marker ++ (codes "\"); retrying cannot change this answer: " ++ message)))))

window_verdict : FindKind → Text → Classification
window_verdict xuni message =
    plain_verdict parked_xuni_window
      (codes "XUNI outside server time window; parked for a later window")
window_verdict xen11 message = plain_verdict quarantined (
    codes "IMPOSSIBLE: XUNI-window rejection for a XEN11 record "
    ++ (0xe2 ∷ 0x80 ∷ 0x94 ∷ codes " server semantics changed, investigate: " ++ message))

unrecognized : ℕ → Text → Classification
unrecognized status message =
    plain_verdict quarantined
      (codes "unrecognized response (http " ++ (decimal status ++ (codes "): " ++ message)))

difficulty_verdict : ℕ → Text → Option ℕ → Classification
difficulty_verdict status message none = unrecognized status message
difficulty_verdict status message (some hint) = record {
  next_status = parked_difficulty;
  server_difficulty_hint = some hint;
  needs_lookup_confirmation = false;
  reason =
      codes "difficulty too low (server currently at m="
      ++ (decimal hint ++ codes "); parked until difficulty falls");
}

-- The rejections that are not terminal.
retryable_verdict : ℕ → FindKind → Text → Classification
unfolding window_verdict unrecognized difficulty_verdict
retryable_verdict status kind message =
    if is_xuni_window_rejection message
    then window_verdict kind message
    else if is_difficulty_mismatch message || status == 401
    then difficulty_verdict status message (parse_difficulty_hint message)
    else unrecognized status message

rejection_verdict : ℕ → FindKind → Text → Option Text → Classification
unfolding retryable_verdict terminal_verdict
rejection_verdict status kind message none = retryable_verdict status kind message
rejection_verdict status kind message (some marker) = terminal_verdict status marker message

unfoldable pub message_of : Text → Text
message_of body = elim (extract_json_message body) [ some message ↦ message | none ↦ body ]

unfoldable pub classify : ℕ → Text → FindKind → Option Text → Classification
unfolding rejection_verdict retry_note
classify status body kind retry_after =
    if leb status 0
    then plain_verdict pending (codes "transport failure; will retry with backoff")
    else if is_empty body || is_blank body
    then plain_verdict pending (
        codes "empty response body (http "
        ++ (decimal status ++ codes "); will retry with backoff"))
    else if status == 200
    then awaiting (codes "http 200; awaiting /get_block confirmation")
    else if status == 429
    then plain_verdict pending (codes "rate limited (429)" ++ retry_note retry_after)
    else if status == 408 || status == 425 || leb 500 status
    then plain_verdict pending
        (codes "server unhealthy (http " ++ (decimal status ++ codes "); will retry with backoff"))
    else if (status == 400 || status == 409) && contains (message_of body) (codes "already exists")
    then awaiting (codes "duplicate key (already exists); confirming via /get_block")
    else rejection_verdict status kind (message_of body) (terminal_marker (message_of body))
