-- ===== src/Submit/ClockTime/Stamp.antt =====
-- clocktime.rs, continued: `iso_utc`, the timestamps of the journal, and `parse_http_date_ms`, the
-- server's `Date` header.
use tree_miner_amd.Prelude.{
  ℕ,
  zero,
  suc,
  ◌+◌,
  ◌-◌,
  ◌*◌,
  ◌/◌,
  ◌%◌,
  ◌^◌,
  Bool,
  true,
  not,
  ◌&&◌,
  ◌||◌,
  Option,
  none,
  some,
  List,
  [],
  ◌∷◌,
  ◌++◌,
  ltb,
  leb,
  ◌==◌,
  if◌then◌else◌,
  length,
  is_empty,
  Text.{Text, codes, text_eq, is_digit, is_whitespace, decimal, read_digits},
  Int.{ℤ, pos, negsuc, pos_part, ◌+ℤ◌, ◌-ℤ◌, ◌*ℤ◌, ltb_ℤ, neg_ℕ},
}
use tree_miner_amd.Submit.ClockTime.{civil_from_days, days_from_civil, floor_div}

zeros : ℕ → Text
zeros zero = []
zeros (suc n) = b'0' ∷ zeros n

-- `{n:0w}` of a number that is not negative, and of any.
unfoldable pub pad : ℕ → ℕ → Text
unfolding decimal zeros
pad w n = let s = decimal n in zeros (w - length s) ++ s

unfoldable pub pad_ℤ : ℕ → ℤ → Text
unfolding pad
pad_ℤ w (pos n) = pad w n
pad_ℤ w (negsuc n) = b'-' ∷ pad (w - 1) (suc n)

unfoldable pub iso_utc : ℤ → Text
unfolding pad pad_ℤ
iso_utc epoch_ms =
    let days = floor_div epoch_ms (pos 86400000) in
    let in_day = pos_part (epoch_ms -ℤ days *ℤ pos 86400000) in
    let c = civil_from_days days in
    let h = in_day / 3600000 in
    let rem = in_day % 3600000 in
    let mi = rem / 60000 in
    let s = rem % 60000 / 1000 in
    pad_ℤ 4 c.year
    ++ b'-'
      ∷ (pad 2 c.month
          ++ b'-'
            ∷ (pad 2 c.day
                ++ b'T' ∷ (pad 2 h ++ b':' ∷ (pad 2 mi ++ b':' ∷ (pad 2 s ++ b'Z' ∷ [])))))

abbrev month_names : List Text
month_names =
    codes "Jan"
    ∷ codes "Feb"
    ∷ codes "Mar"
    ∷ codes "Apr"
    ∷ codes "May"
    ∷ codes "Jun"
    ∷ codes "Jul"
    ∷ codes "Aug"
    ∷ codes "Sep"
    ∷ codes "Oct"
    ∷ codes "Nov"
    ∷ codes "Dec"
    ∷ []

-- `position` in the names that are left, from the month number `i` on; 0 if there is none.
month_from : Text → ℕ → List Text → ℕ
month_from mon i [] = 0
month_from mon i (n ∷ ns) =
    let rest = month_from mon (suc i) ns in if text_eq n mon then i else rest

unfoldable pub month_from_name : Text → ℕ
unfolding month_from text_eq
month_from_name mon = month_from mon 1 month_names

-- What follows the first comma, or the whole text.
after_comma : Text → Option Text
after_comma [] = none
after_comma (c ∷ s) = let rest = after_comma s in if c == b',' then some s else rest

or_whole : Option Text → Text → Text
or_whole (some s) t = s
or_whole none t = t

-- `split_ascii_whitespace`: the words, `word` being what has been read of the current one.
flush : Text → List Text → List Text
flush [] ws = ws
flush (c ∷ word) ws = (c ∷ word) ∷ ws

words : Text → Text → List Text
unfolding flush
words word [] = flush word []
words word (c ∷ s) =
    let cut = flush word (words [] s) in
    let longer = words (word ++ c ∷ []) s in if is_whitespace c then cut else longer

all_digits : Text → Bool
all_digits [] = true
all_digits (c ∷ s) = is_digit c && all_digits s

-- The digits of an unsigned number up to `limit`: at least one, and nothing else.
unsigned : ℕ → Text → Option ℕ
unfolding all_digits
unsigned limit s =
    if not (is_empty s) && all_digits s && leb (read_digits 0 s) limit
    then some (read_digits 0 s)
    else none

-- `str::parse::<u32>`: a `+` may stand in front.
unfoldable pub parse_u32 : Text → Option ℕ
unfolding unsigned
parse_u32 [] = none
parse_u32 (c ∷ s) = if c == b'+' then unsigned (2 ^ 32 - 1) s else unsigned (2 ^ 32 - 1) (c ∷ s)

as_pos : Option ℕ → Option ℤ
as_pos none = none
as_pos (some n) = some (pos n)

as_neg : Option ℕ → Option ℤ
as_neg none = none
as_neg (some n) = some (neg_ℕ n)

-- `str::parse::<i64>`
unfoldable pub parse_i64 : Text → Option ℤ
unfolding unsigned as_pos as_neg
parse_i64 [] = none
parse_i64 (c ∷ s) =
    if c == b'-'
    then as_neg (unsigned (2 ^ 63) s)
    else if c == b'+'
    then as_pos (unsigned (2 ^ 63 - 1) s)
    else as_pos (unsigned (2 ^ 63 - 1) (c ∷ s))

-- `HH:MM:SS` in seconds of the day.
unfoldable pub parse_hms : Text → Option ℕ
parse_hms (h1 ∷ h0 ∷ c1 ∷ m1 ∷ m0 ∷ c2 ∷ s1 ∷ s0 ∷ []) =
    let h = (h1 - b'0') * 10 + (h0 - b'0') in
    let mi = (m1 - b'0') * 10 + (m0 - b'0') in
    let s = (s1 - b'0') * 10 + (s0 - b'0') in
    if not (c1 == b':') || not (c2 == b':')
    then none
    else if not
        (is_digit h1 && is_digit h0 && is_digit m1 && is_digit m0 && is_digit s1 && is_digit s0)
    then none
    else if ltb 23 h || ltb 59 mi || ltb 60 s
    then none
    else some (h * 3600 + mi * 60 + s)
parse_hms _ = none

date_of : Text → Option ℕ → Text → Option ℤ → Text → Text → Option ℤ
date_of day_text (some day) mon (some year) hms tz =
    let month = month_from_name mon in
    if not (text_eq tz (codes "GMT")) && not (text_eq tz (codes "UTC"))
    then none
    else if month == 0 || not (leb 1 day && leb day 31) || ltb_ℤ year (pos 1970)
    then none
    else elim (parse_hms hms) [
      | none ↦ none
      | some secs ↦ some (days_from_civil year month day *ℤ pos 86400000 +ℤ pos (secs * 1000))
    ]
date_of day_text _ mon _ hms tz = none

-- The first five words; what follows them is not looked at.
five_fields : List Text → Option ℤ
unfolding date_of
five_fields (d ∷ mon ∷ y ∷ hms ∷ tz ∷ rest) = date_of d (parse_u32 d) mon (parse_i64 y) hms tz
five_fields _ = none

unfoldable pub parse_http_date_ms : Text → Option ℤ
unfolding five_fields words after_comma or_whole
parse_http_date_ms date_header =
    five_fields (words [] (or_whole (after_comma date_header) date_header))
