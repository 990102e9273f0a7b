-- ===== src/Journal/Fallback/Reading.antt =====
-- What a line of the fallback file is as a JSON object of texts and numbers, whoever reads it.
use mathlib.Core.List.{append_assoc}
use tree_miner_amd.Prelude.{
  ℕ,
  zero,
  suc,
  ◌+◌,
  ◌-◌,
  ◌*◌,
  ◌/◌,
  ◌%◌,
  ◌<◌,
  ◌≡◌,
  refl,
  ap,
  ◌∙◌,
  Bool,
  true,
  false,
  ◌||◌,
  ◌&&◌,
  Option,
  none,
  some,
  List,
  [],
  ◌∷◌,
  ◌++◌,
  map,
  arith,
  All,
  is_empty,
  ltb,
  leb,
  ◌==◌,
  if◌then◌else◌,
  Text.{Text, codes, is_digit},
}
use tree_miner_amd.Journal.Fallback.{hex_digit, escaped, escape, json_string, member, members}

-- Where a reader of a string literal is, and what the next byte does.
pub data Spot : Type 0 where
  inside behind_slash : Spot
  in_code : ℕ → ℕ → Spot

pub data Turn : Type 0 where
  closes wrong : Turn
  emits : ℕ → Turn
  moves : Spot → Turn

-- The escapes of RFC 8259 in their short form.
abbrev pub short_escape : ℕ → Turn
short_escape c =
    if c == b'"' || c == 92 || c == b'/'
    then emits c
    else if c == b'b'
    then emits 8
    else if c == b'f'
    then emits 12
    else if c == b'n'
    then emits 10
    else if c == b'r'
    then emits 13
    else if c == b't'
    then emits 9
    else if c == b'u'
    then moves (in_code 3 0)
    else wrong

abbrev pub nibble : ℕ → Option ℕ
nibble c =
    if leb b'0' c && leb c b'9'
    then some (c - b'0')
    else if leb b'a' c && leb c b'f'
    then some (c - b'a' + 10)
    else none

-- Codes of one byte only: no other stands in a file that this program wrote.
abbrev pub code_turn : ℕ → ℕ → Option ℕ → Turn
code_turn left code none = wrong
code_turn zero code (some d) = if ltb (code * 16 + d) 128 then emits (code * 16 + d) else wrong
code_turn (suc left) code (some d) = moves (in_code left (code * 16 + d))

unfoldable pub turn : Spot → ℕ → Turn
turn inside c =
    if c == b'"'
    then closes
    else if c == 92
    then moves behind_slash
    else if ltb c 32
    then wrong
    else emits c
turn behind_slash c = short_escape c
turn (in_code left code) c = code_turn left code (nibble c)

abbrev pub before : ℕ → Option (Text × Text) → Option (Text × Text)
before c none = none
before c (some (s, rest)) = some (c ∷ s, rest)

-- The text of a literal from a spot in it, and what follows its closing quote.
unfoldable pub read_from : Spot → Text → Option (Text × Text)
read_from spot [] = none
read_from spot (c ∷ s) = elim (turn spot c) [
  | closes ↦ some ([], s)
  | wrong ↦ none
  | emits b ↦ before b (read_from inside s)
  | moves spot' ↦ read_from spot' s
]

unfoldable pub read_literal : Text → Option (Text × Text)
read_literal [] = none
read_literal (c ∷ s) = if c == b'"' then read_from inside s else none

nibble-low : (n : ℕ) → n < 16 → nibble (if ltb n 10 then b'0' + n else b'a' + (n - 10)) ≡ some n
nibble-low n h = ground arith

read-moves :
    (spot spot' : Spot) (c : ℕ) (t : Text)
    → turn spot c ≡ moves spot'
    → read_from spot (c ∷ t) ≡ read_from spot' t
unfolding read_from
read-moves spot spot' c t e = rw (e, read_from) refl

read-emits :
    (spot : Spot) (c b : ℕ) (t : Text)
    → turn spot c ≡ emits b
    → read_from spot (c ∷ t) ≡ before b (read_from inside t)
unfolding read_from
read-emits spot c b t e = rw (e, read_from) refl

read-control :
    (c : ℕ) (t : Text)
    → c < 32
    → read_from inside (codes "\\u00" ++ (hex_digit (c / 16) ∷ hex_digit (c % 16) ∷ t))
      ≡ before c (read_from inside t)
unfolding read_from turn
read-control c t h =
    let d = c / 16 in
    let e = c % 16 in
    let value : (0 * 16 + d) * 16 + e ≡ c = omega arith in
    let small : ltb ((0 * 16 + d) * 16 + e) 128 ≡ true = ground arith in
    let high = ap (code_turn 1 0) (nibble-low d (omega arith)) in
    let low =
      ap (code_turn 0 (0 * 16 + d)) (nibble-low e (omega arith))
      ∙ ap (λ b. if b then emits ((0 * 16 + d) * 16 + e) else wrong) small
      ∙ ap emits value in
    read-moves (in_code 1 0) (in_code 0 (0 * 16 + d)) (hex_digit d) (hex_digit e ∷ t) high
    ∙ read-emits (in_code 0 (0 * 16 + d)) (hex_digit e) c t low

read-escaped :
    (c : ℕ) (t : Text) → read_from inside (escaped c ++ t) ≡ before c (read_from inside t)
unfolding escaped read_from turn
read-escaped c t = ground (arith, read-control c t)

-- What the program escapes reads as the text that it was.
read-escape : (s t : Text) → read_from inside (escape s ++ (b'"' ∷ t)) ≡ some (s, t)
unfolding escape read_from turn
read-escape [] t = refl
read-escape (c ∷ s) t =
    ap (read_from inside) (append_assoc (escaped c) (escape s) (b'"' ∷ t))
    ∙ read-escaped c (escape s ++ (b'"' ∷ t))
    ∙ ap (before c) (read-escape s t)

read_literal-json_string : (s t : Text) → read_literal (json_string s ++ t) ≡ some (s, t)
unfolding read_literal
read_literal-json_string s t =
    ap (read_from inside) (append_assoc (escape s) (b'"' ∷ []) t) ∙ read-escape s t

pub data Scalar : Type 0 where
  text number : Text → Scalar

abbrev pub is_number_char : ℕ → Bool
is_number_char c = is_digit c || c == b'.' || c == b'-' || c == b'+' || c == b'e' || c == b'E'

abbrev pub IsNumber : Text → Type 0
IsNumber n = (is_empty n ≡ false) × All (λ c. is_number_char c ≡ true) n

-- The text begins with this value, and this is the rest.
abbrev pub IsValue : Text → Scalar → Text → Type 0
IsValue t (text s) rest = read_literal t ≡ some (s, rest)
IsValue t (number n) rest = IsNumber n × (t ≡ n ++ rest)

-- The text begins with this member, and this is the rest.
abbrev pub IsMember : Text → Text × Scalar → Text → Type 0
IsMember t (key, v) rest =
    (after : Text) × (read_literal t ≡ some (key, b':' ∷ after)) × IsValue after v rest

-- The text has these members up to the end of the object.
abbrev pub EndsWith : Text → List (Text × Scalar) → Type 0
EndsWith t [] = t ≡ b'}' ∷ []
EndsWith t (m ∷ ms) =
    (t' : Text) × (rest : Text) × (t ≡ b',' ∷ t') × IsMember t' m rest × EndsWith rest ms

-- The text is the JSON object of these members.
abbrev pub IsObject : Text → List (Text × Scalar) → Type 0
IsObject t [] = t ≡ b'{' ∷ b'}' ∷ []
IsObject t (m ∷ ms) =
    (t' : Text) × (rest : Text) × (t ≡ b'{' ∷ t') × IsMember t' m rest × EndsWith rest ms

abbrev printed : Scalar → Text
printed (text s) = json_string s
printed (number n) = n

abbrev pub IfNumber : Scalar → Type 0
IfNumber (text s) = Unit
IfNumber (number n) = IsNumber n

printed-IsValue : (v : Scalar) (rest : Text) → IfNumber v → IsValue (printed v ++ rest) v rest
printed-IsValue (text s) rest g = read_literal-json_string s rest
printed-IsValue (number n) rest g = (g, refl)

pub member-IsMember :
    (key : Text) (v : Scalar) (rest : Text)
    → IfNumber v
    → IsMember (member key (printed v) ++ rest) (key, v) rest
member-IsMember key v rest g = (
  printed v ++ rest,
  ap read_literal (append_assoc (json_string key) (b':' ∷ printed v) rest)
      ∙ read_literal-json_string key (b':' ∷ (printed v ++ rest)),
  printed-IsValue v rest g,
)

pub members-EndsWith :
    (ms : List (Text × Scalar))
    → All (λ m. IfNumber m.1) ms
    → EndsWith (members (map (λ m. (m.0, printed m.1)) ms)) ms
unfolding members
members-EndsWith [] g = refl
members-EndsWith ((key, v) ∷ ms) g =
    let rest = members (map (λ m. (m.0, printed m.1)) ms) in
    (
      member key (printed v) ++ rest,
      rest,
      refl,
      member-IsMember key v rest g.0,
      members-EndsWith ms g.1,
    )
