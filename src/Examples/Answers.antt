-- ===== src/Examples/Answers.antt =====
-- Answers of the server, read and judged.
use tree_miner_amd.Prelude.{
  ℕ,
  ◌≡◌,
  ◌≢◌,
  refl,
  inl,
  inr,
  true,
  false,
  none,
  some,
  [],
  ◌∷◌,
  Text.{Text, codes, contains, starts_with},
}
use tree_miner_amd.Core.Types.{xen11, pending, permanently_invalid}
use tree_miner_amd.Submit.Json.{extract_json_field, extract_json_message, in_object, skip_ws}
use tree_miner_amd.Submit.Json.RoundTrip.{quoted, extract_json_field-first}
use tree_miner_amd.Submit.Classifier.{
  classify, is_blank, message_of, terminal_marker, first_contained,
}
use tree_miner_amd.Submit.Classifier.Verdicts.{
  IsAnswer, is_unhealthy, is_duplicate, classify_down, classify_terminal,
}

abbrev object : Text
object = codes "\"key\":\"ab\"}"

extract_json_field-first_example :
    extract_json_field
      (b'{' ∷ quoted (codes "ok") (b':' ∷ quoted (codes "say \"a\\b\"") (codes "}")))
      (codes "ok")
    ≡ some (codes "say \"a\\b\"")
extract_json_field-first_example =
    extract_json_field-first (codes "ok") (codes "say \"a\\b\"") (codes "}")

abbrev saved_status : ℕ
saved_status = 200

abbrev bad_request : ℕ
bad_request = 400

blank : is_blank [] ≡ true
unfolding is_blank
blank = refl

classify_down_example :
    let c = classify 200 [] xen11 none in
    (c.next_status ≡ pending)
    × (c.server_difficulty_hint ≡ none)
    × (c.needs_lookup_confirmation ≡ false)
classify_down_example = classify_down 200 [] xen11 none (inr (inl blank))

abbrev bad_hash : Text
bad_hash = codes "Hash verification failed"

terminal_then : (classify bad_request bad_hash xen11 none).next_status ≡ permanently_invalid
unfolding classify message_of terminal_marker first_contained is_blank contains starts_with
    extract_json_message in_object skip_ws
terminal_then = refl

classify_terminal_example :
    IsAnswer bad_request bad_hash
    × (is_unhealthy bad_request ≡ false)
    × (bad_request ≢ 200)
    × (is_duplicate bad_request bad_hash ≡ false)
    × (terminal_marker (message_of bad_hash) ≢ none)
classify_terminal_example = classify_terminal bad_request bad_hash xen11 none terminal_then
