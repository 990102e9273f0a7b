-- ===== src/Submit/Classifier/Verdicts.antt =====
-- What each verdict says about the answer that led to it.
use tree_miner_amd.Prelude.{
  ℕ,
  ◌<◌,
  ◌≡◌,
  ◌≢◌,
  ◌⊎◌,
  Bool,
  true,
  false,
  ◌&&◌,
  ◌||◌,
  Option,
  none,
  arith,
  leb,
  ◌==◌,
  is_empty,
  Text.{Text, codes, contains},
}
use tree_miner_amd.Core.Types.{
  FindKind, xuni, pending, submitting, accepted_unconfirmed, acked, parked_difficulty,
  parked_xuni_window, dead, permanently_invalid,
}
use tree_miner_amd.Submit.Classifier.{
  classify, is_blank, message_of, terminal_marker, parse_difficulty_hint, rejection_verdict,
}

-- The server answered, with a body that says something.
abbrev pub IsAnswer : ℕ → Text → Type 0
IsAnswer status body = (0 < status) × (is_blank body ≡ false) × (is_empty body ≡ false)

-- The statuses that speak of the server and not of the find.
abbrev pub is_unhealthy : ℕ → Bool
is_unhealthy status = status == 429 || status == 408 || status == 425 || leb 500 status

-- A duplicate: 400 or 409 with the server's message for one.
abbrev pub is_duplicate : ℕ → Text → Bool
is_duplicate status body =
    (status == 400 || status == 409) && contains (message_of body) (codes "already exists")

rejection_shape :
    (status : ℕ) (kind : FindKind) (message : Text)
    → let c = rejection_verdict status kind message (terminal_marker message) in
      (c.needs_lookup_confirmation ≡ false)
      × (c.next_status ≢ accepted_unconfirmed)
      × (c.next_status ≢ pending)
      × (c.next_status ≢ acked)
      × (c.next_status ≢ dead)
      × (c.next_status ≢ submitting)
unfolding rejection_verdict
rejection_shape status kind message = ground arith

-- No answer, an answer with a blank body, and an answer of an unhealthy or throttling server leave
-- the find pending: the network being down never decides a find's fate.
pub classify_down :
    (status : ℕ) (body : Text) (kind : FindKind) (retry_after : Option Text)
    → (status ≡ 0) ⊎ (is_blank body ≡ true) ⊎ (is_unhealthy status ≡ true)
    → let c = classify status body kind retry_after in
      (c.next_status ≡ pending)
      × (c.server_difficulty_hint ≡ none)
      × (c.needs_lookup_confirmation ≡ false)
unfolding classify
classify_down status body kind retry_after h = ground arith

-- A lookup is asked for exactly when the verdict is `AcceptedUnconfirmed`, and that is exactly when
-- an answer with a body is a 200 or a duplicate.
pub classify_accepted :
    (status : ℕ) (body : Text) (kind : FindKind) (retry_after : Option Text)
    → let c = classify status body kind retry_after in
      (c.needs_lookup_confirmation ≡ true → c.next_status ≡ accepted_unconfirmed)
      × (c.next_status ≡ accepted_unconfirmed
          → IsAnswer status body × ((status ≡ 200) ⊎ (is_duplicate status body ≡ true)))
      × (IsAnswer status body
          → (status ≡ 200) ⊎ (is_duplicate status body ≡ true)
          → (c.next_status ≡ accepted_unconfirmed) × (c.needs_lookup_confirmation ≡ true))
unfolding classify
classify_accepted status body kind retry_after = (
  λ h. ground (arith, rejection_shape status kind (message_of body)),
  λ h. ground (arith, rejection_shape status kind (message_of body)),
  λ a d. ground arith,
)

-- `classify` calls a find permanently invalid only on an answer with a body, of a healthy server and
-- a status other than 200, that carries one of the terminal markers and is no duplicate.
pub classify_terminal :
    (status : ℕ) (body : Text) (kind : FindKind) (retry_after : Option Text)
    → (classify status body kind retry_after).next_status ≡ permanently_invalid
    → IsAnswer status body
      × (is_unhealthy status ≡ false)
      × (status ≢ 200)
      × (is_duplicate status body ≡ false)
      × (terminal_marker (message_of body) ≢ none)
unfolding classify
classify_terminal status body kind retry_after h = ground arith

-- The classifier never acknowledges a find, never declares one dead and never leases one.
pub classify_range :
    (status : ℕ) (body : Text) (kind : FindKind) (retry_after : Option Text)
    → let s = (classify status body kind retry_after).next_status in
      (s ≢ acked) × (s ≢ dead) × (s ≢ submitting)
unfolding classify
classify_range status body kind retry_after =
    ground (arith, rejection_shape status kind (message_of body))

-- A find is parked for its difficulty exactly with a hint, which is the one that the message
-- carries; a find is parked for its window only if it is a XUNI.
pub classify_parked :
    (status : ℕ) (body : Text) (kind : FindKind) (retry_after : Option Text)
    → let c = classify status body kind retry_after in
      (c.next_status ≡ parked_difficulty
        → (c.server_difficulty_hint ≢ none)
          × (c.server_difficulty_hint ≡ parse_difficulty_hint (message_of body)))
      × (c.server_difficulty_hint ≢ none → c.next_status ≡ parked_difficulty)
      × (c.next_status ≡ parked_xuni_window → kind ≡ xuni)
unfolding classify
classify_parked status body kind retry_after = ground arith
