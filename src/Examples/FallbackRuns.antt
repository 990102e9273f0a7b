-- ===== src/Examples/FallbackRuns.antt =====
-- A find on its way to the disk, the fallback file and the PHC strings at concrete inputs.
use tree_miner_amd.Prelude.{
  ◌≡◌,
  ◌≤◌,
  ◌⊎◌,
  refl,
  Option,
  none,
  some,
  true,
  false,
  [],
  ◌∷◌,
  ◌++◌,
  map,
  length,
  arith,
  All,
  if◌then◌else◌,
  Text.{Text, codes, text_eq, decimal, read_digits},
  Floats.{one_f64},
}
use tree_miner_amd.Submit.Json.{
  extract_json_field, skip_ws, fields, field_step, parse_json_string, string_body, string_step,
  capture_scalar, after_value, skip_json_value, take_scalar, skip_scalar,
}
use tree_miner_amd.Journal.Fallback.RoundTrip.{named, ReadsAs, ParsesBack}
use tree_miner_amd.Core.Types.{kind_as_str, xuni, FoundPayload}
use tree_miner_amd.Core.Encoding.{base64_encode, char_at, assemble_phc, phc_digest, hex_to_bytes}
use tree_miner_amd.Core.Encoding.Phc.{phc_digest-assemble_phc, length-assemble_phc-le}
use tree_miner_amd.Core.Matching.{has_xuni_match}
use tree_miner_amd.Journal.Table.{find_where}
use tree_miner_amd.Journal.Finds.{Db, append, insert_new, new_row}
use tree_miner_amd.Journal.Finds.Keys.{HasKey, append_takes}
use tree_miner_amd.Journal.Fallback.{
  escape, escaped, members, rate_text, sink, Rates, record_text, Reader, split_lines, import_into,
}
use tree_miner_amd.Journal.Fallback.Lines.{file_of, torn_tail_costs_one}
use tree_miner_amd.Journal.Fallback.Import.{Reached, import_loses_nothing}
use tree_miner_amd.Miner.Find.{
  Find, fallback, matches, Mine, FindIo, FindSink, payload_for, persist, record_find,
}
use tree_miner_amd.Miner.Find.Outcome.{Delivers, record_find-Delivers}
use tree_miner_amd.Miner.Find.Recovery.{fallback_find_returns}
use tree_miner_amd.Examples.{payload}

abbrev whole_rates : Rates
whole_rates = record { is_finite = λ r. true; debug = λ r. codes "1.0" }

-- A value is its own text; a text that begins with a `!` is no value.
abbrev read_value : Text → Option Text
read_value [] = none
read_value (c ∷ s) = if text_eq (c ∷ []) (codes "!") then none else some (c ∷ s)

abbrev plain_reader : Reader Text
plain_reader = record {
  from_str = read_value;
  is_object = λ v. true;
  has_nested = λ v. false;
  get = λ v key. some (if text_eq key (codes "kind") then codes "XUNI" else codes "k");
  scalar = λ v. some v;
  parse_u32 = λ s. some 8;
  parse_u64 = λ s. some 7;
  parse_f64 = λ s. some one_f64;
}

abbrev empty : Db
empty = record { finds = []; difficulty_seen = [] }

abbrev two_lines : Text
two_lines = codes "found\n!torn\n"

abbrev one_find : Db
one_find = (append true empty (payload (codes "k") xuni 8)).0

has_k : HasKey (codes "k") one_find
unfolding append insert_new new_row find_where
has_k = append_takes true empty (payload (codes "k") xuni 8)

torn_tail_costs_one_example :
    split_lines (file_of whole_rates (payload (codes "a\nb") xuni 8 ∷ []) (codes "{\"key"))
    ≡ map (record_text whole_rates) (payload (codes "a\nb") xuni 8 ∷ []) ++ codes "{\"key" ∷ []
torn_tail_costs_one_example =
    torn_tail_costs_one whole_rates (payload (codes "a\nb") xuni 8 ∷ []) (codes "{\"key")
      (λ r. (refl, (refl, (refl, tt)))) (refl, (refl, (refl, (refl, (refl, tt)))))

import_loses_nothing_example :
    let (stats, db', file') =
      import_into plain_reader (λ db p. true) true true (some two_lines) one_find in
    ((file' ≡ some two_lines) ⊎ All (Reached plain_reader db') (split_lines two_lines))
    × All (λ key. HasKey key db') (codes "k" ∷ [])
import_loses_nothing_example =
    import_loses_nothing plain_reader (λ db p. true) true true two_lines one_find (codes "k" ∷ [])
      (has_k, tt)

abbrev as_read : Text → Option Text
as_read s = some s

abbrev short_phc : Text
short_phc = codes "$argon2id$v=19$m=8,t=1,p=1$YWI$XUNI7"

phc_digest-assemble_phc_example : phc_digest short_phc ≡ some (codes "XUNI7")
unfolding assemble_phc hex_to_bytes decimal base64_encode char_at
phc_digest-assemble_phc_example =
    phc_digest-assemble_phc as_read 8 (codes "ab") b'X' (codes "UNI7") short_phc
      (refl, (refl, (refl, (refl, (refl, tt))))) refl

length-assemble_phc-le_example : length short_phc ≤ 150
unfolding assemble_phc hex_to_bytes decimal base64_encode char_at
length-assemble_phc-le_example =
    length-assemble_phc-le as_read 8 (codes "ab") (codes "XUNI7") short_phc (codes "ab") refl
      (omega arith) (omega arith) (omega arith) refl

abbrev trusting : FindSink
trusting = record {
  rates = whole_rates;
  hex_decode = as_read;
  verifier = λ find. matches;
  machine_id = codes "rig";
}

abbrev xuni_find : Find
xuni_find = record {
  hexsalt = codes "ab";
  key = codes "k";
  digest = codes "XUNI7";
  memory_cost = 8;
  attempts = 7;
  hashes_per_second = one_f64;
  source = codes "GPU";
}

-- The database refuses the find and the file takes it.
abbrev refused : FindIo
refused = record {
  inserts = false;
  counts = true;
  file = record { opens = true; torn_at = none; syncs = true };
  now_utc = codes "now";
}

abbrev fresh : Mine
fresh = record {
  db = empty;
  file = none;
  normal_blocks = 0;
  super_blocks = 0;
  xuni_blocks = 0;
  queued_xnm = 0;
  queued_xuni = 0;
  fatal_reason = [];
  fatal_durability = false;
  stop_requested = false;
  notified = 0;
  observed = [];
}

abbrev xuni_payload : FoundPayload
xuni_payload = record {
  key = codes "k";
  hash_to_verify = short_phc;
  account = codes "0xab";
  kind = xuni;
  memory_cost = 8;
  worker = codes "rig";
  attempts = 7;
  hashes_per_second = one_f64;
  found_at_utc = codes "now";
}

-- A reader that looks a member up in the text itself.
abbrev scanning : Reader Text
scanning = record plain_reader {
  get = λ v key. extract_json_field v key;
  parse_u32 = λ s. some (read_digits 0 s);
  parse_u64 = λ s. some (read_digits 0 s);
}

record_find-Delivers_example :
    Delivers trusting refused xuni_find fresh (record_find trusting refused xuni_find fresh)
record_find-Delivers_example = record_find-Delivers trusting refused xuni_find fresh

encodes : payload_for trusting (codes "now") xuni_find ≡ some xuni_payload
unfolding payload_for assemble_phc hex_to_bytes decimal base64_encode char_at has_xuni_match
encodes = refl

reads_back :
    ReadsAs scanning (record_text whole_rates xuni_payload) (named whole_rates xuni_payload)
unfolding record_text escape escaped members rate_text kind_as_str decimal text_eq
    extract_json_field skip_ws fields field_step parse_json_string string_body string_step
    capture_scalar after_value skip_json_value take_scalar skip_scalar
reads_back = (
  record_text whole_rates xuni_payload,
  refl,
  refl,
  refl,
  (
    (codes "k", refl, refl),
    (
      (short_phc, refl, refl),
      (
        (codes "0xab", refl, refl),
        (
          (codes "XUNI", refl, refl),
          (
            (codes "8", refl, (codes "8", refl, refl, refl, refl)),
            (
              (codes "rig", refl, refl),
              (
                (codes "7", refl, (codes "7", refl, refl, refl, refl)),
                (
                  (codes "1.0", refl, (codes "1.0", refl, refl, refl, refl)),
                  ((codes "now", refl, refl), tt),
                ),
              ),
            ),
          ),
        ),
      ),
    ),
  ),
)

parses_back : ParsesBack scanning whole_rates xuni_payload
unfolding decimal
parses_back = record {
  finite = refl;
  literal = (refl, (refl, (refl, (refl, tt))));
  of_u32 = refl;
  of_u64 = refl;
  of_f64 = refl;
}

falls_back : (record_find trusting refused xuni_find fresh).1 ≡ fallback
unfolding record_find payload_for assemble_phc hex_to_bytes persist append sink
falls_back = refl

fallback_find_returns_example :
    let before = (record_find trusting refused xuni_find fresh).0.file in
    let (stats, db', file') = import_into scanning (λ db p. true) true true before empty in
    (file' ≡ before) ⊎ HasKey (codes "k") db'
fallback_find_returns_example =
    fallback_find_returns trusting refused xuni_find scanning (λ db p. true) true true fresh []
      xuni_payload empty (λ r. (refl, (refl, (refl, tt)))) (unfold file_of in refl) encodes
      ((λ o. reads_back), parses_back) falls_back
