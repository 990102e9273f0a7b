-- ===== src/Miner/Find/Recovery.antt =====
-- A find that only the fallback file took, and the import of the next start.
use mathlib.Core.List.{append-nil, append_assoc}
use tree_miner_amd.Prelude.{
  ℕ,
  ◌≡◌,
  refl,
  sym,
  ap,
  ◌∙◌,
  subst,
  ◌⊎◌,
  inl,
  inr,
  Bool,
  false,
  some,
  List,
  [],
  ◌∷◌,
  ◌++◌,
  map,
  is_empty,
  All,
  Text.{Text, codes},
}
use tree_miner_amd.Core.Types.{FoundPayload}
use tree_miner_amd.Journal.Finds.{Db}
use tree_miner_amd.Journal.Finds.Keys.{HasKey}
use tree_miner_amd.Journal.Fallback.{
  Rates, Reader, parse_payload, record_text, serialize, members, member, later_fields, json_string,
  split_lines, trim_end, trim_start, trim_line, contents, Answers, import_into,
}
use tree_miner_amd.Journal.Fallback.Lines.{PrintsLines, file_of, torn_tail_costs_one}
use tree_miner_amd.Core.Encoding.{HexResult, bytes, bad_hex, assemble_phc}
use tree_miner_amd.Journal.Fallback.Reading.{IsObject}
use tree_miner_amd.Journal.Fallback.RoundTrip.{
  named, ReadsAs, ParsesBack, parse_payload-record_text,
}
use tree_miner_amd.Journal.Fallback.Import.{Reached, MeansIn, meaning, import_loses_nothing}
use tree_miner_amd.Miner.Find.{
  encoded, Find, Capture, journaled, rejected, lost, fallback, Mine, FindIo, FindSink, payload_for,
  record_find,
}
use tree_miner_amd.Miner.Find.Outcome.{Delivers, record_find-Delivers}

-- A text that does not end in a blank.
abbrev Solid : Text → Type 0
Solid s = (trim_end s ≡ s) × (is_empty s ≡ false)

cons-Solid : (c : ℕ) (s : Text) → Solid s → Solid (c ∷ s)
unfolding trim_end
cons-Solid c s (e, h) = (rw (e, h) refl, refl)

append-Solid : (s t : Text) → Solid t → Solid (s ++ t)
append-Solid [] t h = h
append-Solid (c ∷ s) t h = cons-Solid c (s ++ t) (append-Solid s t h)

members-Solid : (fs : List (Text × Text)) → Solid (members fs)
unfolding members trim_end
members-Solid [] = (refl, refl)
members-Solid ((key, value) ∷ rest) =
    cons-Solid _ _ (append-Solid (member key value) (members rest) (members-Solid rest))

trim_line-record_text :
    (fmt : Rates) (p : FoundPayload) → trim_line (record_text fmt p) ≡ record_text fmt p
unfolding trim_line record_text trim_start
trim_line-record_text fmt p =
    let key = member (codes "key") (json_string p.key) in
    let rest = members (later_fields fmt p) in
    let solid =
      cons-Solid b'{' (key ++ rest) (append-Solid key rest (members-Solid (later_fields fmt p))) in
    ap trim_start solid.0

-- The last of the records of a file.
All-last :
    (P : Text → Type 0) (f : FoundPayload → Text) (ps : List FoundPayload) (p : FoundPayload)
    (rest : List Text)
    → All P (map f (ps ++ p ∷ []) ++ rest)
    → P (f p)
All-last P f [] p rest h = h.0
All-last P f (q ∷ ps) p rest h = All-last P f ps p rest h.1

file_of-append :
    (fmt : Rates) (ps : List FoundPayload) (p : FoundPayload)
    → file_of fmt ps [] ++ serialize fmt p ≡ file_of fmt (ps ++ p ∷ []) []
unfolding file_of
file_of-append fmt [] p = sym (append-nil (serialize fmt p))
file_of-append fmt (q ∷ ps) p =
    append_assoc (serialize fmt q) (file_of fmt ps []) (serialize fmt p)
    ∙ ap (λ t. serialize fmt q ++ t) (file_of-append fmt ps p)

-- What an import that reached the records of a file did with the last of them.
last-Reached :
    {V : Type 0} (rd : Reader V) (fmt : Rates) (ps : List FoundPayload) (p : FoundPayload) (db : Db)
    → PrintsLines fmt
    → parse_payload rd (record_text fmt p) ≡ some p
    → All (Reached rd db) (split_lines (file_of fmt (ps ++ p ∷ []) []))
    → HasKey p.key db
unfolding record_text
last-Reached rd fmt ps p db lines reads all =
    let split = torn_tail_costs_one fmt (ps ++ p ∷ []) [] lines tt in
    let last =
      All-last (Reached rd db) (record_text fmt) ps p ([] ∷ [])
        (subst (All (Reached rd db)) split all) in
    let plain = subst (λ l. MeansIn rd db (meaning rd l)) (trim_line-record_text fmt p) last in
    subst (MeansIn rd db) reads plain

module _ (k : FindSink) (io : FindIo) (find : Find) where
  payload_for-key : (p : FoundPayload) → payload_for k io.now_utc find ≡ some p → find.key ≡ p.key
  unfolding payload_for
  payload_for-key p = by_phc (assemble_phc k.hex_decode find.memory_cost find.hexsalt find.digest)
    where
      by_phc : (phc : HexResult) → encoded k io.now_utc find phc ≡ some p → find.key ≡ p.key
      by_phc (bytes t) e = cc
      by_phc (bad_hex x) e = cc

  -- The file after a capture in it.
  file_after :
      (s : Mine) (p : FoundPayload)
      → payload_for k io.now_utc find ≡ some p
      → (record_find k io find s).1 ≡ fallback
      → (record_find k io find s).0.file ≡ some (contents s.file ++ serialize k.rates p)
  file_after s p e = by_capture (record_find k io find s) (record_find-Delivers k io find s)
    where
      by_capture :
          (r : Mine × Capture)
          → Delivers k io find s r
          → r.1 ≡ fallback
          → r.0.file ≡ some (contents s.file ++ serialize k.rates p)
      by_capture (s', journaled id) d c = cc
      by_capture (s', fallback) (p', e', w, o) c =
          let same : p' ≡ p = cc (e', e) in
          w ∙ ap (λ x. some (contents s.file ++ serialize k.rates x)) same
      by_capture (s', rejected) d c = cc
      by_capture (s', lost) d c = cc

  -- The JSON library reads a line as the object that it is, and the payload's numbers as printed.
  abbrev pub Understands : {V : Type 0} → Reader V → FoundPayload → Type 0
  Understands rd p =
      (IsObject (record_text k.rates p) (named k.rates p)
        → ReadsAs rd (record_text k.rates p) (named k.rates p))
      × ParsesBack rd k.rates p

  -- A find that `record` puts in the fallback file, behind the whole records there, has its key in
  -- the journal once an import has taken the file; an import that cannot finish leaves the file as
  -- it is. The rate of the find is finite, and the JSON library reads the line of the find as the
  -- object that it is and its numbers as they were printed.
  pub fallback_find_returns :
      {V : Type 0} (rd : Reader V) (sql : Answers) (readable renames : Bool) (s : Mine)
      (ps : List FoundPayload) (p : FoundPayload) (boot : Db)
      → PrintsLines k.rates
      → contents s.file ≡ file_of k.rates ps []
      → payload_for k io.now_utc find ≡ some p
      → Understands rd p
      → (record_find k io find s).1 ≡ fallback
      → let before = (record_find k io find s).0.file in
        let (stats, db', file') = import_into rd sql readable renames before boot in
        (file' ≡ before) ⊎ HasKey find.key db'
  fallback_find_returns rd sql readable renames s ps p boot lines whole e (law, parses) c =
      let text = contents s.file ++ serialize k.rates p in
      let (kept, held) = import_loses_nothing rd sql readable renames text boot [] tt in
      subst
        (λ before.
          ((import_into rd sql readable renames before boot).2 ≡ before)
          ⊎ HasKey find.key (import_into rd sql readable renames before boot).1)
        (sym (file_after s p e c))
        (elim kept [
          | inl same ↦ inl same
          | inr all ↦
              let split = ap (λ t. t ++ serialize k.rates p) whole ∙ file_of-append k.rates ps p in
              let db' = (import_into rd sql readable renames (some text) boot).1 in
              let reads = parse_payload-record_text rd k.rates p law parses in
              inr (
                subst (λ key. HasKey key db') (sym (payload_for-key p e))
                  (last-Reached rd k.rates ps p db' lines reads
                    (subst (λ t. All (Reached rd db') (split_lines t)) split all)))
        ])
