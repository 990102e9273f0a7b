-- ===== src/Journal/Fallback/Lines.antt =====
-- The lines of the fallback file, of whole records and of a write that broke off behind them.
use tree_miner_amd.Prelude.{
  ℕ,
  ◌≡◌,
  refl,
  ap,
  ◌∙◌,
  inl,
  inr,
  true,
  false,
  List,
  [],
  ◌∷◌,
  ◌++◌,
  map,
  arith,
  All,
  ◌==◌,
  Bool-cases,
  Text.{Text, codes, is_digit, decimal},
  Digits.{decimal_digits},
  Floats.{F64},
}
use tree_miner_amd.Core.Types.{FoundPayload, kind_as_str}
use tree_miner_amd.Journal.Fallback.{
  escaped, escape, json_string, Rates, member, members, later_fields, rate_text, record_text,
  serialize, split_lines,
}

-- A text without a line feed.
abbrev pub IsLine : Text → Type 0
IsLine = All (λ c. (c == b'\n') ≡ false)

append-IsLine : (s t : Text) → IsLine s → IsLine t → IsLine (s ++ t)
append-IsLine [] t h k = k
append-IsLine (c ∷ s) t h k = (h.0, append-IsLine s t h.1 k)

escaped-IsLine : (c : ℕ) → IsLine (escaped c)
unfolding escaped
escaped-IsLine c = ground arith

escape-IsLine : (s : Text) → IsLine (escape s)
unfolding escape
escape-IsLine [] = tt
escape-IsLine (c ∷ s) = append-IsLine (escaped c) (escape s) (escaped-IsLine c) (escape-IsLine s)

decimal-IsLine : (n : ℕ) → IsLine (decimal n)
decimal-IsLine n = of_digits (decimal n) (decimal_digits n)
  where
    of_digits : (s : Text) → All (λ c. is_digit c ≡ true) s → IsLine s
    of_digits [] h = tt
    of_digits (c ∷ s) h = (ground arith, of_digits s h.1)

string-IsLine : (s : Text) → IsLine (json_string s)
string-IsLine s = (refl, append-IsLine (escape s) (b'"' ∷ []) (escape-IsLine s) (refl, tt))

member-IsLine : (key value : Text) → IsLine value → IsLine (member key value)
member-IsLine key value h =
    append-IsLine (json_string key) (b':' ∷ value) (string-IsLine key) (refl, h)

members-IsLine : (fs : List (Text × Text)) → All (λ f. IsLine f.1) fs → IsLine (members fs)
unfolding members
members-IsLine [] h = (refl, tt)
members-IsLine ((k, v) ∷ fs) h =
    (refl, append-IsLine (member k v) (members fs) (member-IsLine k v h.0) (members-IsLine fs h.1))

-- The number format of a rate breaks no line.
abbrev pub PrintsLines : Rates → Type 0
PrintsLines fmt = (r : F64) → IsLine (fmt.debug r)

module _ (fmt : Rates) (lines : PrintsLines fmt) where
  rate-IsLine : (r : F64) → IsLine (rate_text fmt r)
  unfolding rate_text
  rate-IsLine r = elim (Bool-cases (fmt.is_finite r)) [
    | inl finite ↦ rw finite (lines r)
    | inr other ↦ rw other (refl, tt)
  ]

  pub record-IsLine : (p : FoundPayload) → IsLine (record_text fmt p)
  unfolding record_text
  record-IsLine p = (
    refl,
    append-IsLine (member (codes "key") (json_string p.key)) (members (later_fields fmt p))
        (member-IsLine (codes "key") (json_string p.key) (string-IsLine p.key))
        (members-IsLine (later_fields fmt p) (
          string-IsLine p.hash_to_verify,
          (
            string-IsLine p.account,
            (
              string-IsLine (kind_as_str p.kind),
              (
                decimal-IsLine p.memory_cost,
                (
                  string-IsLine p.worker,
                  (
                    decimal-IsLine p.attempts,
                    (rate-IsLine p.hashes_per_second, (string-IsLine p.found_at_utc, tt)),
                  ),
                ),
              ),
            ),
          ),
        )),
  )

split-line :
    (l : Text) (rest : Text) → IsLine l → split_lines (l ++ b'\n' ∷ rest) ≡ l ∷ split_lines rest
unfolding split_lines
split-line [] rest h = refl
split-line (c ∷ l) rest h = rw (h.0, split-line l rest h.1)

split-last : (l : Text) → IsLine l → split_lines l ≡ l ∷ []
unfolding split_lines
split-last [] h = refl
split-last (c ∷ l) h = rw (h.0, split-last l h.1)

-- The bytes of the file after a number of appends.
unfoldable pub file_of : Rates → List FoundPayload → Text → Text
file_of fmt [] torn = torn
file_of fmt (p ∷ ps) torn = serialize fmt p ++ file_of fmt ps torn

-- A file of whole records, and at its end what is left of one whose write broke off, splits into
-- exactly those records and that rest: whatever texts the finds hold, none of them breaks a line,
-- and the damage stays in the last piece.
pub torn_tail_costs_one :
    (fmt : Rates) (ps : List FoundPayload) (torn : Text)
    → PrintsLines fmt
    → IsLine torn
    → split_lines (file_of fmt ps torn) ≡ map (record_text fmt) ps ++ torn ∷ []
unfolding file_of serialize
torn_tail_costs_one fmt [] torn lines t = split-last torn t
torn_tail_costs_one fmt (p ∷ ps) torn lines t =
    let rest = file_of fmt ps torn in
    ap split_lines (ended (record_text fmt p) rest)
    ∙ split-line (record_text fmt p) rest (record-IsLine fmt lines p)
    ∙ ap (λ ls. record_text fmt p ∷ ls) (torn_tail_costs_one fmt ps torn lines t)
  where
    ended : (l rest : Text) → (l ++ b'\n' ∷ []) ++ rest ≡ l ++ b'\n' ∷ rest
    ended [] rest = refl
    ended (c ∷ l) rest = ap (λ t'. c ∷ t') (ended l rest)
