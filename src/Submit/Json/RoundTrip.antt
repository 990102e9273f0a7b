-- ===== src/Submit/Json/RoundTrip.antt =====
-- What the field reader answers on an object that begins with the field.
use tree_miner_amd.Prelude.{
  ◌≡◌,
  ◌≢◌,
  refl,
  false,
  some,
  [],
  ◌∷◌,
  ◌++◌,
  ◌==◌,
  ◌||◌,
  if◌then◌else◌,
  arith,
  length,
  length-append,
  ◌∙◌,
  ap,
  Text.{Text, text_eq, text_eq_iff, text_eq_refl},
}
use tree_miner_amd.Submit.Json.Fuel.{fields_enough}
use tree_miner_amd.Submit.Json.{
  plain, escape_step, string_step, string_body, parse_json_string, skip_ws, answer, next_field,
  at_value, after_value, at_key, field_step, fields, follow, capture_scalar, skip_json_value,
  extract_json_field,
}

-- A text as it stands in a literal: a backslash before each quote and backslash.
abbrev pub escaped : Text → Text
escaped [] = []
escaped (c ∷ s) = if c == b'"' || c == 92 then 92 ∷ c ∷ escaped s else c ∷ escaped s

abbrev pub quoted : Text → Text → Text
quoted k rest = b'"' ∷ (escaped k ++ b'"' ∷ rest)

string_body-escaped :
    (k rest : Text) → string_body plain (escaped k ++ b'"' ∷ rest) ≡ some (k, rest)
unfolding string_body string_step escape_step
string_body-escaped [] rest = refl
string_body-escaped (c ∷ k) rest = ground (arith, string_body-escaped k rest)

parse-quoted : (k rest : Text) → parse_json_string (quoted k rest) ≡ some (k, rest)
unfolding parse_json_string
parse-quoted k rest = string_body-escaped k rest

skip_ws-quoted : (k rest : Text) → skip_ws (quoted k rest) ≡ quoted k rest
unfolding skip_ws
skip_ws-quoted k rest = refl

field_step-first :
    (key value rest : Text)
    → field_step key (quoted key (b':' ∷ quoted value rest)) ≡ answer (some value)
unfolding field_step at_key at_value capture_scalar
field_step-first key value rest =
    rw (skip_ws-quoted key (b':' ∷ quoted value rest), parse-quoted key (b':' ∷ quoted value rest))
      (unfold skip_ws in rw (text_eq_refl key, parse-quoted value rest))

-- A JSON object that begins with the member `key: value` is read as `value` at `key`, whatever
-- follows. Key and value may hold any bytes: each quote and backslash in them is escaped.
pub extract_json_field-first :
    (key value rest : Text)
    → extract_json_field (b'{' ∷ quoted key (b':' ∷ quoted value rest)) key ≡ some value
unfolding extract_json_field fields skip_ws
extract_json_field-first key value rest =
    ap (follow (fields _ key)) (field_step-first key value rest)

field_step-other :
    (key k value rest : Text)
    → k ≢ key
    → field_step key (quoted k (b':' ∷ quoted value (b',' ∷ rest))) ≡ next_field rest
unfolding field_step at_key at_value skip_json_value after_value
field_step-other key k value rest ne =
    let other : text_eq k key ≡ false = ground (arith, text_eq_iff k key) in
    rw
      (
        skip_ws-quoted k (b':' ∷ quoted value (b',' ∷ rest)),
        parse-quoted k (b':' ∷ quoted value (b',' ∷ rest)),
      )
      (unfold skip_ws in rw (other, parse-quoted value (b',' ∷ rest)))

-- A string field under another key is passed over: the answer is that of the object without it.
pub extract_json_field-other :
    (key k value key' rest : Text)
    → k ≢ key
    → extract_json_field (b'{' ∷ quoted k (b':' ∷ quoted value (b',' ∷ quoted key' rest))) key
      ≡ extract_json_field (b'{' ∷ quoted key' rest) key
unfolding extract_json_field fields skip_ws
extract_json_field-other key k value key' rest ne =
    ap (follow (fields _ key)) (field_step-other key k value (quoted key' rest) ne)
    ∙ fields_enough _ (length (quoted key' rest)) key (quoted key' rest)
        (omega (
          arith,
          length-append (escaped k) (b'"' ∷ (b':' ∷ quoted value (b',' ∷ quoted key' rest))),
          length-append (escaped value) (b'"' ∷ (b',' ∷ quoted key' rest)),
        ))
        (omega arith)
