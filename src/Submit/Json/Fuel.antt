-- ===== src/Submit/Json/Fuel.antt =====
-- The field loop needs no more rounds than the body has bytes.
use tree_miner_amd.Prelude.{
  ℕ,
  zero,
  suc,
  ◌≤◌,
  ◌<◌,
  ◌≡◌,
  refl,
  Option,
  none,
  some,
  [],
  ◌∷◌,
  arith,
  ◌==◌,
  length,
  Bool-cases,
  inl,
  inr,
  ◌&&◌,
  Text.{Text, text_eq},
}
use tree_miner_amd.Submit.Json.{
  Mode, plain, StringStep, SkipMode, outside, inside, finished, failed, going, string_step,
  string_body, push, parse_json_string, skip_ws, skip_nested, skip_scalar, skip_from,
  skip_json_value, rest_of, strip, FieldStep, answer, next_field, after_value, at_value, at_key,
  field_step, fields, follow, after_string_step, depth_after,
}

-- What a text is shortened to, if anything.
abbrev Shorter : ℕ → Option Text → Type 0
Shorter n none = Unit
Shorter n (some r) = length r < n

abbrev ShorterPair : ℕ → Option (Text × Text) → Type 0
ShorterPair n none = Unit
ShorterPair n (some (k, r)) = length r < n

abbrev ShorterStep : ℕ → FieldStep → Type 0
ShorterStep n (answer a) = Unit
ShorterStep n (next_field r) = length r < n

skip_ws-le : (s : Text) → length (skip_ws s) ≤ length s
unfolding skip_ws
skip_ws-le [] = omega arith
skip_ws-le (c ∷ s) = ground (arith, skip_ws-le s)

skip_scalar-le : (s : Text) → length (skip_scalar s) ≤ length s
unfolding skip_scalar
skip_scalar-le [] = omega arith
skip_scalar-le (c ∷ s) = ground (arith, skip_scalar-le s)

push-Shorter :
    (n : ℕ) (out : Option ℕ) (r : Option (Text × Text))
    → ShorterPair n r
    → ShorterPair (suc n) (push out r)
push-Shorter n none none h = tt
push-Shorter n none (some (k, r)) h = omega arith
push-Shorter n (some b) none h = tt
push-Shorter n (some b) (some (k, r)) h = omega arith

string_body-Shorter : (m : Mode) (s : Text) → ShorterPair (length s) (string_body m s)
unfolding string_body
string_body-Shorter m [] = tt
string_body-Shorter m (c ∷ s) = by_step (string_step m c) (λ m'. string_body-Shorter m' s)
  where
    by_step :
        (st : StringStep)
        → ((m' : Mode) → ShorterPair (length s) (string_body m' s))
        → ShorterPair (suc (length s)) (elim st [
          | finished ↦ some ([], s)
          | failed ↦ none
          | going m' out ↦ push out (string_body m' s)
        ])
    by_step finished ih = omega arith
    by_step failed ih = tt
    by_step (going m' out) ih = push-Shorter (length s) out (string_body m' s) (ih m')

parse_json_string-Shorter : (s : Text) → ShorterPair (length s) (parse_json_string s)
unfolding parse_json_string
parse_json_string-Shorter [] = tt
parse_json_string-Shorter (c ∷ s) = elim (Bool-cases (c == b'"')) [
  | inl e ↦ rw e (weaken (string_body plain s) (string_body-Shorter plain s))
  | inr e ↦ rw e tt
]
  where
    weaken : (r : Option (Text × Text)) → ShorterPair (length s) r → ShorterPair (suc (length s)) r
    weaken none h = tt
    weaken (some (k, r)) h = omega arith

Shorter-weaken : (m n : ℕ) (r : Option Text) → m ≤ n → Shorter m r → Shorter n r
Shorter-weaken m n none le h = tt
Shorter-weaken m n (some r) le h = omega arith

skip_nested-Shorter :
    (o c depth : ℕ) (m : SkipMode) (s : Text) → Shorter (length s) (skip_nested o c depth m s)
unfolding skip_nested
skip_nested-Shorter o c depth m [] = tt
skip_nested-Shorter o c depth outside (d ∷ s) = elim (Bool-cases (d == b'"')) [
  | inl e ↦
      rw e (Shorter-weaken _ _ _ (omega arith) (skip_nested-Shorter o c depth (inside plain) s))
  | inr e ↦ rw e (elim (Bool-cases (d == c && depth_after o c depth d == 0)) [
    | inl z ↦ rw z (omega arith)
    | inr z ↦ rw z (
        Shorter-weaken _ _ _ (omega arith)
          (skip_nested-Shorter o c (depth_after o c depth d) outside s))
  ])
]
skip_nested-Shorter o c depth (inside m) (d ∷ s) =
    by_mode (after_string_step (string_step m d)) (λ m'. skip_nested-Shorter o c depth m' s)
  where
    by_mode :
        (mode : Option SkipMode)
        → ((m' : SkipMode) → Shorter (length s) (skip_nested o c depth m' s))
        → Shorter
            (suc (length s))
            (elim mode [ none ↦ none | some m' ↦ skip_nested o c depth m' s ])
    by_mode none ih = tt
    by_mode (some m') ih = Shorter-weaken _ _ _ (omega arith) (ih m')

rest_of-Shorter : (n : ℕ) (r : Option (Text × Text)) → ShorterPair n r → Shorter n (rest_of r)
rest_of-Shorter n none h = tt
rest_of-Shorter n (some (k, r)) h = h

skip_from-Shorter : (s : Text) → Shorter (suc (length s)) (skip_from s)
unfolding skip_from
skip_from-Shorter [] = tt
skip_from-Shorter (c ∷ s) = elim (Bool-cases (c == b'"')) [
  | inl e ↦
      rw e (
        Shorter-weaken _ _ _ (omega arith)
          (rest_of-Shorter _ _ (parse_json_string-Shorter (c ∷ s))))
  | inr e ↦ rw e (elim (Bool-cases (c == b'{')) [
    | inl f ↦
        rw f (Shorter-weaken _ _ _ (omega arith) (skip_nested-Shorter b'{' b'}' 0 outside (c ∷ s)))
    | inr f ↦ rw f (elim (Bool-cases (c == b'[')) [
      | inl g ↦
          rw g
            (Shorter-weaken _ _ _ (omega arith) (skip_nested-Shorter b'[' b']' 0 outside (c ∷ s)))
      | inr g ↦ rw g (omega (arith, skip_scalar-le (c ∷ s)))
    ])
  ])
]

strip-Shorter : (b : ℕ) (s : Text) → Shorter (length s) (strip b s)
strip-Shorter b [] = tt
strip-Shorter b (c ∷ s) = elim (Bool-cases (c == b)) [
  | inl e ↦ rw e (omega arith)
  | inr e ↦ rw e tt
]

after_value-Shorter : (n : ℕ) (r : Option Text) → Shorter n r → ShorterStep n (after_value r)
unfolding after_value
after_value-Shorter n none h = tt
after_value-Shorter n (some s) h =
    by_comma (strip b',' (skip_ws s)) (strip-Shorter b',' (skip_ws s))
  where
    by_comma :
        (r : Option Text)
        → Shorter (length (skip_ws s)) r
        → ShorterStep n (elim r [ none ↦ answer none | some t ↦ next_field t ])
    by_comma none k = tt
    by_comma (some t) k = omega (arith, skip_ws-le s)

at_value-Shorter :
    (n : ℕ) (key k : Text) (r : Option Text) → Shorter n r → ShorterStep n (at_value key k r)
unfolding at_value skip_json_value
at_value-Shorter n key k none h = tt
at_value-Shorter n key k (some s) h = elim (Bool-cases (text_eq k key)) [
  | inl e ↦ rw e tt
  | inr e ↦ rw e (
      after_value-Shorter n (skip_from (skip_ws s))
        (Shorter-weaken _ _ _ (omega (arith, skip_ws-le s)) (skip_from-Shorter (skip_ws s))))
]

at_key-Shorter :
    (n : ℕ) (key : Text) (r : Option (Text × Text)) → ShorterPair n r → ShorterStep n (at_key key r)
unfolding at_key
at_key-Shorter n key none h = tt
at_key-Shorter n key (some (k, s)) h =
    at_value-Shorter n key k (strip b':' (skip_ws s))
      (Shorter-weaken _ _ _ (omega (arith, skip_ws-le s)) (strip-Shorter b':' (skip_ws s)))

field_step-Shorter : (key s : Text) → ShorterStep (length (skip_ws s)) (field_step key s)
unfolding field_step
field_step-Shorter key s =
    at_key-Shorter _ key (parse_json_string (skip_ws s)) (parse_json_string-Shorter (skip_ws s))

-- With as many rounds as bytes, or more, the field loop has one answer.
pub fields_enough :
    (fuel fuel' : ℕ) (key s : Text)
    → length s ≤ fuel
    → length s ≤ fuel'
    → fields fuel key s ≡ fields fuel' key s
unfolding fields
fields_enough zero zero key s h h' = refl
fields_enough zero (suc fuel') key [] h h' = refl
fields_enough zero (suc fuel') key (c ∷ s) h h' = absurd (omega arith)
fields_enough (suc fuel) zero key [] h h' = refl
fields_enough (suc fuel) zero key (c ∷ s) h h' = absurd (omega arith)
fields_enough (suc fuel) (suc fuel') key [] h h' = refl
fields_enough (suc fuel) (suc fuel') key (c ∷ s) h h' =
    by_step (field_step key (c ∷ s)) (field_step-Shorter key (c ∷ s))
      (λ t le le'. fields_enough fuel fuel' key t le le')
  where
    by_step :
        (st : FieldStep)
        → ShorterStep (length (skip_ws (c ∷ s))) st
        → ((t : Text) → length t ≤ fuel → length t ≤ fuel' → fields fuel key t ≡ fields fuel' key t)
        → follow (fields fuel key) st ≡ follow (fields fuel' key) st
    by_step (answer a) k ih = refl
    by_step (next_field t) k ih =
        ih t (omega (arith, skip_ws-le (c ∷ s))) (omega (arith, skip_ws-le (c ∷ s)))
