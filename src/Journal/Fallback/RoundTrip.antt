-- ===== src/Journal/Fallback/RoundTrip.antt =====
-- The record of the fallback file (tm-journal/src/fallback.rs) and the grammar of a flat object.
use tree_miner_amd.Prelude.{
  ℕ,
  zero,
  suc,
  ◌+◌,
  ◌/◌,
  ◌%◌,
  inl,
  inr,
  ltb,
  Bool-cases,
  ◌≡◌,
  refl,
  true,
  false,
  some,
  List,
  [],
  ◌∷◌,
  All,
  is_empty,
  Text.{Text, codes, decimal, decimal_acc, is_digit},
  Digits.{decimal_digits},
  Floats.{},
}
use tree_miner_amd.Core.Types.{FoundPayload, kind_as_str}
use tree_miner_amd.Core.Types.Codec.{kind_parse-kind_as_str}
use tree_miner_amd.Journal.Fallback.{
  Rates, rate_text, record_text, Reader, read_fields, parse_payload,
}
use tree_miner_amd.Journal.Fallback.Reading.{
  Scalar, text, number, IsNumber, IsObject, is_number_char, member-IsMember, members-EndsWith,
}

-- A value of the JSON library is this text, or a number whose text parses as this one.
abbrev pub Denotes : {V : Type 0} → Reader V → V → Scalar → Type 0
Denotes rd u (text s) = rd.scalar u ≡ some s
Denotes rd u (number n) =
    (t : Text) × (rd.scalar u ≡ some t)
    × (rd.parse_u32 t ≡ rd.parse_u32 n)
    × (rd.parse_u64 t ≡ rd.parse_u64 n)
    × (rd.parse_f64 t ≡ rd.parse_f64 n)

abbrev pub GetsAll : {V : Type 0} → Reader V → V → List (Text × Scalar) → Type 0
GetsAll rd v [] = Unit
GetsAll {V} rd v ((key, s) ∷ ms) =
    ((u : V) × (rd.get v key ≡ some u) × Denotes rd u s) × GetsAll rd v ms

-- The JSON library reads the text as an object of these members.
abbrev pub ReadsAs : {V : Type 0} → Reader V → Text → List (Text × Scalar) → Type 0
ReadsAs {V} rd t ms =
    (v : V) × (rd.from_str t ≡ some v)
    × (rd.is_object v ≡ true)
    × (rd.has_nested v ≡ false)
    × GetsAll rd v ms

-- What the line of a payload says, by the names of the fields of `FoundPayload`.
abbrev pub named : Rates → FoundPayload → List (Text × Scalar)
named fmt p =
    (codes "key", text p.key)
    ∷ (codes "hash_to_verify", text p.hash_to_verify)
    ∷ (codes "account", text p.account)
    ∷ (codes "kind", text (kind_as_str p.kind))
    ∷ (codes "memory_cost", number (decimal p.memory_cost))
    ∷ (codes "worker", text p.worker)
    ∷ (codes "attempts", number (decimal p.attempts))
    ∷ (codes "hashes_per_second", number (fmt.debug p.hashes_per_second))
    ∷ (codes "found_at_utc", text p.found_at_utc)
    ∷ []

-- The number formats of the standard library parse back as what they printed, at this payload.
pub record ParsesBack {V : Type 0} (rd : Reader V) (fmt : Rates) (p : FoundPayload) : Type 0 where
  pub finite : fmt.is_finite p.hashes_per_second ≡ true
  pub literal : IsNumber (fmt.debug p.hashes_per_second)
  pub of_u32 : rd.parse_u32 (decimal p.memory_cost) ≡ some p.memory_cost
  pub of_u64 : rd.parse_u64 (decimal p.attempts) ≡ some p.attempts
  pub of_f64 : rd.parse_f64 (fmt.debug p.hashes_per_second) ≡ some p.hashes_per_second

decimal_acc_some : (fuel n : ℕ) (acc : Text) → is_empty (decimal_acc fuel n acc) ≡ false
unfolding decimal_acc
decimal_acc_some zero n acc = refl
decimal_acc_some (suc fuel) n acc = elim (Bool-cases (ltb n 10)) [
  | inl lt ↦ rw lt refl
  | inr ge ↦ rw ge (decimal_acc_some fuel (n / 10) ((b'0' + n % 10) ∷ acc))
]

decimal_some : (n : ℕ) → is_empty (decimal n) ≡ false
unfolding decimal
decimal_some n = decimal_acc_some n n []

decimal-IsNumber : (n : ℕ) → IsNumber (decimal n)
decimal-IsNumber n = (decimal_some n, of_digits (decimal n) (decimal_digits n))
  where
    of_digits : (s : Text) → All (λ c. is_digit c ≡ true) s → All (λ c. is_number_char c ≡ true) s
    of_digits [] h = tt
    of_digits (c ∷ s) h = (rw (h.0) refl, of_digits s h.1)

-- The line is the JSON object of those members.
record_text-IsObject :
    (fmt : Rates) (p : FoundPayload)
    → fmt.is_finite p.hashes_per_second ≡ true
    → IsNumber (fmt.debug p.hashes_per_second)
    → IsObject (record_text fmt p) (named fmt p)
unfolding record_text rate_text
record_text-IsObject fmt p finite literal = rw finite (
  _,
  _,
  refl,
  member-IsMember (codes "key") (text p.key) _ tt,
  members-EndsWith
      ((codes "hash_to_verify", text p.hash_to_verify)
        ∷ (codes "account", text p.account)
        ∷ (codes "kind", text (kind_as_str p.kind))
        ∷ (codes "memory_cost", number (decimal p.memory_cost))
        ∷ (codes "worker", text p.worker)
        ∷ (codes "attempts", number (decimal p.attempts))
        ∷ (codes "hashes_per_second", number (fmt.debug p.hashes_per_second))
        ∷ (codes "found_at_utc", text p.found_at_utc)
        ∷ [])
      (
        tt,
        (
          tt,
          (
            tt,
            (
              decimal-IsNumber p.memory_cost,
              (tt, (decimal-IsNumber p.attempts, (literal, (tt, tt)))),
            ),
          ),
        ),
      ),
)

module _ {V : Type 0} (rd : Reader V) (fmt : Rates) (p : FoundPayload) where
  read_fields-named :
      (v : V) → ParsesBack rd fmt p → GetsAll rd v (named fmt p) → read_fields rd v ≡ some p
  unfolding read_fields
  read_fields-named v parses
        (
          (u1, g1, s1),
          (
            (u2, g2, s2),
            (
              (u3, g3, s3),
              (
                (u4, g4, s4),
                (
                  (u5, g5, (t5, s5, m5, x5, y5)),
                  (
                    (u6, g6, s6),
                    (
                      (u7, g7, (t7, s7, x7, a7, y7)),
                      ((u8, g8, (t8, s8, x8, y8, r8)), ((u9, g9, s9), _)),
                    ),
                  ),
                ),
              ),
            ),
          ),
        ) =
      rw (g5, s5, m5, parses.of_u32, g7, s7, a7, parses.of_u64, g8, s8, r8, parses.of_f64)
        (rw (g1, s1, g2, s2, g3, s3, g4, s4, kind_parse-kind_as_str p.kind, g6, s6, g9, s9) refl)

  -- A JSON library that reads objects as what they are reads the line of a payload, of a rate that is
  -- finite, and the payload is read from it as it was.
  pub parse_payload-record_text :
      (IsObject (record_text fmt p) (named fmt p) → ReadsAs rd (record_text fmt p) (named fmt p))
      → ParsesBack rd fmt p
      → parse_payload rd (record_text fmt p) ≡ some p
  unfolding parse_payload
  parse_payload-record_text law parses =
      let (v, read, object, flat, gets) =
        law (record_text-IsObject fmt p parses.finite parses.literal) in
      rw (read, object, flat) (read_fields-named v parses gets)
