-- ===== src/Submit/Json.antt =====
-- treeminer-rs/crates/tm-submit/src/classifier.rs, the reading of JSON bodies. A byte slice with an
-- index into it is the list of the bytes from the index on; where a function fails its caller fails,
-- so the index that it leaves behind is not kept. `from_utf8_lossy` changes nothing here: a body is
-- valid UTF-8, and the escapes add ASCII only.
pub mod Fuel
pub mod RoundTrip
use tree_miner_amd.Prelude.{
  ℕ,
  zero,
  suc,
  ◌+◌,
  ◌-◌,
  ◌*◌,
  Bool,
  true,
  false,
  not,
  ◌&&◌,
  ◌||◌,
  Option,
  none,
  some,
  List,
  [],
  ◌∷◌,
  ◌++◌,
  ltb,
  leb,
  ◌==◌,
  if◌then◌else◌,
  length,
  Text.{Text, codes, text_eq, is_digit, is_whitespace},
}

unfoldable pub skip_ws : Text → Text
skip_ws [] = []
skip_ws (c ∷ s) = let rest = skip_ws s in if is_whitespace c then rest else c ∷ s

-- `char::to_digit(16)` of a byte.
unfoldable pub hex_digit : ℕ → Option ℕ
hex_digit c =
    if is_digit c
    then some (c - b'0')
    else if leb b'a' c && leb c b'f'
    then some (c - b'a' + 10)
    else if leb b'A' c && leb c b'F'
    then some (c - b'A' + 10)
    else none

-- Where a string literal is read: in its text, after a backslash, or in a `\u` escape with the
-- digits still to come after the next and the value of those before.
pub data Mode : Type 0 where
  plain escape : Mode
  unicode : ℕ → ℕ → Mode

-- What one byte does: it ends the literal, makes it malformed, or adds at most one byte to it.
pub data StringStep : Type 0 where
  finished failed : StringStep
  going : Mode → Option ℕ → StringStep

unfoldable pub escape_step : ℕ → StringStep
escape_step c =
    if c == b'"'
    then going plain (some b'"')
    else if c == 92
    then going plain (some 92)
    else if c == b'/'
    then going plain (some b'/')
    else if c == b'b'
    then going plain (some 0x08)
    else if c == b'f'
    then going plain (some 0x0c)
    else if c == b'n'
    then going plain (some 10)
    else if c == b'r'
    then going plain (some 13)
    else if c == b't'
    then going plain (some 9)
    else if c == b'u'
    then going (unicode 3 0) none
    else failed

unfoldable pub unicode_step : ℕ → ℕ → Option ℕ → StringStep
unicode_step left code none = failed
unicode_step zero code (some d) =
    let value = code * 16 + d in going plain (some (if ltb value 0x80 then value else b'?'))
unicode_step (suc left) code (some d) = going (unicode left (code * 16 + d)) none

unfoldable pub string_step : Mode → ℕ → StringStep
unfolding escape_step unicode_step hex_digit
string_step plain c =
    if c == b'"' then finished else if c == 92 then going escape none else going plain (some c)
string_step escape c = escape_step c
string_step (unicode left code) c = unicode_step left code (hex_digit c)

abbrev pub push : Option ℕ → Option (Text × Text) → Option (Text × Text)
push none r = r
push (some b) none = none
push (some b) (some (out, rest)) = some (b ∷ out, rest)

-- The loop of `parse_json_string`: the text of the literal and what follows its closing quote.
unfoldable pub string_body : Mode → Text → Option (Text × Text)
string_body m [] = none
string_body m (c ∷ s) = elim (string_step m c) [
  | finished ↦ some ([], s)
  | failed ↦ none
  | going m' out ↦ push out (string_body m' s)
]

unfoldable pub parse_json_string : Text → Option (Text × Text)
parse_json_string [] = none
parse_json_string (c ∷ s) = if c == b'"' then string_body plain s else none

-- Where the skipping of an object or array is: outside of any string, or in one.
pub data SkipMode : Type 0 where
  outside : SkipMode
  inside : Mode → SkipMode

unfoldable pub after_string_step : StringStep → Option SkipMode
after_string_step finished = some outside
after_string_step failed = none
after_string_step (going m out) = some (inside m)

-- What a byte outside of a string does to the depth.
unfoldable pub depth_after : ℕ → ℕ → ℕ → ℕ → ℕ
depth_after opening closing depth d =
    let opened = if d == opening then depth + 1 else depth in
    if d == closing then opened - 1 else opened

-- The loop over an object or array of `skip_json_value`; it starts before the opening bracket.
unfoldable pub skip_nested : ℕ → ℕ → ℕ → SkipMode → Text → Option Text
unfolding after_string_step depth_after
skip_nested opening closing depth mode [] = none
skip_nested opening closing depth outside (d ∷ s) =
    let in_string = skip_nested opening closing depth (inside plain) s in
    let deeper = skip_nested opening closing (depth_after opening closing depth d) outside s in
    if d == b'"'
    then in_string
    else if d == closing && depth_after opening closing depth d == 0
    then some s
    else deeper
skip_nested opening closing depth (inside m) (d ∷ s) = elim (after_string_step (string_step m d)) [
  | none ↦ none
  | some mode ↦ skip_nested opening closing depth mode s
]

-- The end of a number or literal.
abbrev pub ends_scalar : ℕ → Bool
ends_scalar c = c == b',' || c == b'}' || c == b']' || is_whitespace c

unfoldable pub skip_scalar : Text → Text
skip_scalar [] = []
skip_scalar (c ∷ s) = let rest = skip_scalar s in if ends_scalar c then c ∷ s else rest

unfoldable pub take_scalar : Text → Text
take_scalar [] = []
take_scalar (c ∷ s) = let rest = take_scalar s in if ends_scalar c then [] else c ∷ rest

abbrev pub rest_of : Option (Text × Text) → Option Text
rest_of none = none
rest_of (some (out, rest)) = some rest

abbrev pub text_of : Option (Text × Text) → Option Text
text_of none = none
text_of (some (out, rest)) = some out

unfoldable pub skip_from : Text → Option Text
skip_from [] = none
skip_from (c ∷ s) =
    if c == b'"'
    then rest_of (parse_json_string (c ∷ s))
    else if c == b'{'
    then skip_nested b'{' b'}' 0 outside (c ∷ s)
    else if c == b'['
    then skip_nested b'[' b']' 0 outside (c ∷ s)
    else some (skip_scalar (c ∷ s))

-- What follows one JSON value; `none` where the source answers `false`.
unfoldable pub skip_json_value : Text → Option Text
unfolding skip_from
skip_json_value s = skip_from (skip_ws s)

unfoldable pub scalar_from : Text → Option Text
scalar_from [] = none
scalar_from (c ∷ s) =
    if c == b'"'
    then text_of (parse_json_string (c ∷ s))
    else if c == b'{' || c == b'['
    then none
    else some (take_scalar (c ∷ s))

unfoldable pub capture_scalar : Text → Option Text
unfolding scalar_from
capture_scalar s = scalar_from (skip_ws s)

-- What follows a separator byte, if the text starts with it.
abbrev pub strip : ℕ → Text → Option Text
strip b [] = none
strip b (c ∷ s) = if c == b then some s else none

-- One round of the field loop: the value at `key`, or the text from the next field on.
pub data FieldStep : Type 0 where
  answer : Option Text → FieldStep
  next_field : Text → FieldStep

unfoldable pub after_value : Option Text → FieldStep
after_value none = answer none
after_value (some s) = elim (strip b',' (skip_ws s)) [ none ↦ answer none | some t ↦ next_field t ]

unfoldable pub at_value : Text → Text → Option Text → FieldStep
at_value key k none = answer none
at_value key k (some s) =
    if text_eq k key then answer (capture_scalar s) else after_value (skip_json_value s)

unfoldable pub at_key : Text → Option (Text × Text) → FieldStep
unfolding at_value
at_key key none = answer none
at_key key (some (k, s)) = at_value key k (strip b':' (skip_ws s))

unfoldable pub field_step : Text → Text → FieldStep
unfolding at_key
field_step key s = at_key key (parse_json_string (skip_ws s))

-- The field loop. A field has a byte at least, so as many rounds as bytes are enough (Fuel).
abbrev pub follow : (Text → Option Text) → FieldStep → Option Text
follow loop (answer a) = a
follow loop (next_field t) = loop t

unfoldable pub fields : ℕ → Text → Text → Option Text
fields zero key s = none
fields (suc fuel) key [] = none
fields (suc fuel) key (c ∷ s) = follow (fields fuel key) (field_step key (c ∷ s))

unfoldable pub in_object : Text → Option Text → Option Text
in_object key none = none
in_object key (some s) =
    let t = skip_ws s in elim (strip b'}' t) [ some u ↦ none | none ↦ fields (length t) key t ]

unfoldable pub extract_json_field : Text → Text → Option Text
unfolding in_object
extract_json_field body key = in_object key (strip b'{' (skip_ws body))

abbrev or_try : Option Text → Option Text → Option Text
or_try (some t) o = some t
or_try none o = o

unfoldable pub extract_json_message : Text → Option Text
unfolding extract_json_field
extract_json_message body =
    or_try (extract_json_field body (codes "message")) (extract_json_field body (codes "error"))
