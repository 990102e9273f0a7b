-- ===== src/Journal/Fallback.antt =====
-- treeminer-rs/crates/tm-journal/src/fallback.rs: the file that takes a find when the database
-- refuses it. The file is its bytes, or none; what the file system answers to a call is an
-- argument. serde_json and the number formats of the standard library are parameters.
pub mod Lines
pub mod Reading
pub mod RoundTrip
pub mod Import
use tree_miner_amd.Prelude.{
  ℕ,
  suc,
  ◌+◌,
  ◌-◌,
  ◌/◌,
  ◌%◌,
  Bool,
  true,
  false,
  ◌&&◌,
  ◌||◌,
  Option,
  none,
  some,
  List,
  [],
  ◌∷◌,
  ◌++◌,
  take,
  is_empty,
  ltb,
  ◌==◌,
  if◌then◌else◌,
  Text.{Text, codes, decimal},
  Floats.{F64},
}
use tree_miner_amd.Core.Types.{FindKind, kind_as_str, kind_parse, FoundPayload}
use tree_miner_amd.Journal.Table.{Result, ok, err}
use tree_miner_amd.Journal.Finds.{Db, append}

abbrev pub hex_digit : ℕ → ℕ
hex_digit n = if ltb n 10 then b'0' + n else b'a' + (n - 10)

-- One byte of a text: quotes, backslashes and control characters are escaped.
unfoldable pub escaped : ℕ → Text
escaped c =
    if c == b'"'
    then codes "\\\""
    else if c == b'\\'
    then codes "\\\\"
    else if c == 8
    then codes "\\b"
    else if c == 12
    then codes "\\f"
    else if c == 10
    then codes "\\n"
    else if c == 13
    then codes "\\r"
    else if c == 9
    then codes "\\t"
    else if ltb c 32
    then codes "\\u00" ++ hex_digit (c / 16) ∷ hex_digit (c % 16) ∷ []
    else c ∷ []

unfoldable pub escape : Text → Text
escape [] = []
escape (c ∷ s) = escaped c ++ escape s

abbrev pub json_string : Text → Text
json_string s = b'"' ∷ (escape s ++ b'"' ∷ [])

-- The formats of an f64: `{:?}`, and is_finite.
pub record Rates : Type 0 where
  pub is_finite : F64 → Bool
  pub debug : F64 → Text

-- push_field and push_raw_field, of the value as it is printed, and those after the first one up to
-- the closing brace.
abbrev pub member : Text → Text → Text
member key value = json_string key ++ b':' ∷ value

unfoldable pub members : List (Text × Text) → Text
members [] = b'}' ∷ []
members ((key, value) ∷ rest) = b',' ∷ (member key value ++ members rest)

module _ (fmt : Rates) where
  unfoldable pub rate_text : F64 → Text
  rate_text r = if fmt.is_finite r then fmt.debug r else codes "0"

  abbrev pub later_fields : FoundPayload → List (Text × Text)
  later_fields p =
      (codes "hash_to_verify", json_string p.hash_to_verify)
      ∷ (codes "account", json_string p.account)
      ∷ (codes "kind", json_string (kind_as_str p.kind))
      ∷ (codes "memory_cost", decimal p.memory_cost)
      ∷ (codes "worker", json_string p.worker)
      ∷ (codes "attempts", decimal p.attempts)
      ∷ (codes "hashes_per_second", rate_text p.hashes_per_second)
      ∷ (codes "found_at_utc", json_string p.found_at_utc)
      ∷ []

  -- A line without its line feed.
  unfoldable pub record_text : FoundPayload → Text
  record_text p = b'{' ∷ (member (codes "key") (json_string p.key) ++ members (later_fields p))

  unfoldable pub serialize : FoundPayload → Text
  serialize p = record_text p ++ b'\n' ∷ []

-- What the file system answers to an append: the opening, the bytes of a write that breaks off, and
-- the sync.
pub record SinkIo : Type 0 where
  pub opens : Bool
  pub torn_at : Option ℕ
  pub syncs : Bool

abbrev pub contents : Option Text → Text
contents none = []
contents (some file) = file

module _ (fmt : Rates) where
  abbrev pub written : SinkIo → Text → Option Text → Option ℕ → Option Text × Bool
  written io line file none = (some (contents file ++ line), io.syncs)
  written io line file (some n) = (some (contents file ++ take n line), false)

  -- FallbackSink::append
  unfoldable pub sink : SinkIo → FoundPayload → Option Text → Option Text × Bool
  sink io p file = if io.opens then written io (serialize fmt p) file io.torn_at else (file, false)

-- serde_json over the bytes of a line, none if they are not UTF-8, and `str::parse` of the numbers.
pub record Reader (V : Type 0) : Type 0 where
  pub from_str : Text → Option V
  pub is_object : V → Bool
  pub has_nested : V → Bool
  pub get : V → Text → Option V
  -- A string, or a number as `to_string` prints it.
  pub scalar : V → Option Text
  pub parse_u32 : Text → Option ℕ
  pub parse_u64 : Text → Option ℕ
  pub parse_f64 : Text → Option F64

infixl 5 ◌>>=◌
abbrev pub ◌>>=◌ {ℓ κ} : {A : Type ℓ} {B : Type κ} → Option A → (A → Option B) → Option B
none >>= f = none
some a >>= f = f a

module _ {V : Type 0} (rd : Reader V) where
  abbrev pub text_field : V → Text → Option Text
  text_field v key = rd.get v key >>= rd.scalar

  unfoldable pub read_fields : V → Option FoundPayload
  read_fields v = do
    memory_cost ← text_field v (codes "memory_cost") >>= rd.parse_u32
    attempts ← text_field v (codes "attempts") >>= rd.parse_u64
    rate ← text_field v (codes "hashes_per_second") >>= rd.parse_f64
    key ← text_field v (codes "key")
    hash_to_verify ← text_field v (codes "hash_to_verify")
    account ← text_field v (codes "account")
    kind ← text_field v (codes "kind") >>= kind_parse
    worker ← text_field v (codes "worker")
    found_at_utc ← text_field v (codes "found_at_utc")
    some (record {
      key = key;
      hash_to_verify = hash_to_verify;
      account = account;
      kind = kind;
      memory_cost = memory_cost;
      worker = worker;
      attempts = attempts;
      hashes_per_second = rate;
      found_at_utc = found_at_utc;
    })

  unfoldable pub parse_payload : Text → Option FoundPayload
  parse_payload line = rd.from_str line >>= λ v.
      if rd.is_object v && (if rd.has_nested v then false else true) then read_fields v else none

-- `split(|b| *b == b'\n')`: the pieces between line feeds, the last one included.
abbrev pub on_first : ℕ → List Text → List Text
on_first c [] = (c ∷ []) ∷ []
on_first c (l ∷ ls) = (c ∷ l) ∷ ls

unfoldable pub split_lines : Text → List Text
split_lines [] = [] ∷ []
split_lines (c ∷ s) = let rest = split_lines s in if c == b'\n' then [] ∷ rest else on_first c rest

abbrev pub is_end_blank : ℕ → Bool
is_end_blank c = c == 13 || c == 10 || c == 32 || c == 9

unfoldable pub trim_end : Text → Text
trim_end [] = []
trim_end (c ∷ s) = let rest = trim_end s in if is_empty rest && is_end_blank c then [] else c ∷ rest

unfoldable pub trim_start : Text → Text
trim_start [] = []
trim_start (c ∷ s) = let rest = trim_start s in if c == 32 || c == 9 then rest else c ∷ s

unfoldable pub trim_line : Text → Text
trim_line raw = trim_start (trim_end raw)

pub record ImportStats : Type 0 where
  pub imported : ℕ
  pub malformed : ℕ
  pub file_present : Bool

abbrev pub no_stats : ImportStats
no_stats = record { imported = 0; malformed = 0; file_present = false }

-- The stats, the journal, and whether the pass was clean.
abbrev pub Pass : Type 0
Pass = ImportStats × Db × Bool

-- What SQLite answers to the append of a payload.
abbrev pub Answers : Type 0
Answers = Db → FoundPayload → Bool

module _ {V : Type 0} (rd : Reader V) (io : Answers) where
  abbrev pub after_append : (ImportStats → Db → Pass) → ImportStats → Db × Result ℕ → Pass
  after_append more stats (db, err e) = (stats, db, false)
  after_append more stats (db, ok id) = more (record stats { imported = stats.imported + 1 }) db

  abbrev pub import_read : (ImportStats → Db → Pass) → ImportStats → Db → Option FoundPayload → Pass
  import_read more stats db none = more (record stats { malformed = stats.malformed + 1 }) db
  import_read more stats db (some p) = after_append more stats (append (io db p) db p)

  abbrev pub import_line : (ImportStats → Db → Pass) → ImportStats → Db → Text → Pass
  import_line more stats db [] = more stats db
  import_line more stats db (c ∷ s) = import_read more stats db (parse_payload rd (c ∷ s))

  unfoldable pub import_lines : List Text → ImportStats → Db → Pass
  import_lines [] stats db = (stats, db, true)
  import_lines (raw ∷ lines) stats db = import_line (import_lines lines) stats db (trim_line raw)

  -- A readable file is renamed away, if it can be, exactly after a clean pass.
  abbrev pub archived : Bool → Bool → Text → Option Text
  archived renames true file = if renames then none else some file
  archived renames false file = some file

  -- FallbackSink::import_into: whether the file can be read and renamed, and the file.
  unfoldable pub import_into : Bool → Bool → Option Text → Db → ImportStats × Db × Option Text
  import_into readable renames none db = (no_stats, db, none)
  import_into readable renames (some file) db =
      let present = record no_stats { file_present = true } in
      let (stats, db', clean) = import_lines (split_lines file) present db in
      if readable then (stats, db', archived renames clean file) else (present, db, some file)
