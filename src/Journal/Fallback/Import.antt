-- ===== src/Journal/Fallback/Import.antt =====
-- What an import does with the records of the fallback file (tm-journal/src/fallback.rs).
use tree_miner_amd.Prelude.{
  ◌+◌,
  ℕ,
  ◌≡◌,
  refl,
  ◌⊎◌,
  inl,
  inr,
  Bool,
  true,
  false,
  Option,
  none,
  some,
  List,
  [],
  ◌∷◌,
  All,
  Text.{Text},
}
use tree_miner_amd.Core.Types.{FoundPayload}
use tree_miner_amd.Journal.Table.{Result, ok, err}
use tree_miner_amd.Journal.Finds.{Db, append}
use tree_miner_amd.Journal.Finds.Keys.{HasKey, Appended, append_keeps, append_takes}
use tree_miner_amd.Journal.Fallback.{
  Reader, parse_payload, split_lines, trim_line, ImportStats, Pass, Answers, after_append,
  import_read, import_line, import_lines, archived, import_into,
}

module _ {V : Type 0} (rd : Reader V) where
  -- What a line stands for: nothing if it is blank or damaged.
  abbrev pub meaning : Text → Option FoundPayload
  meaning [] = none
  meaning (c ∷ s) = parse_payload rd (c ∷ s)

  abbrev pub MeansIn : Db → Option FoundPayload → Type 0
  MeansIn db none = Unit
  MeansIn db (some p) = HasKey p.key db

  -- The find that a line of the file stands for, if any, is in the journal.
  abbrev pub Reached : Db → Text → Type 0
  Reached db raw = MeansIn db (meaning (trim_line raw))

  module _ (io : Answers) where
    -- A pass over lines keeps a key that the journal has.
    abbrev Keeps : List Text → Type 0
    Keeps lines =
        (stats : ImportStats) (db : Db) (key : Text)
        → HasKey key db
        → HasKey key (import_lines rd io lines stats db).1

    line-Keeps :
        (line : Text) (lines : List Text) (stats : ImportStats) (db : Db) (key : Text)
        → Keeps lines
        → HasKey key db
        → HasKey key (import_line rd io (import_lines rd io lines) stats db line).1
    line-Keeps [] lines stats db key ih k = ih stats db key k
    line-Keeps (c ∷ s) lines stats db key ih k = by_reading (parse_payload rd (c ∷ s))
      where
        more : ImportStats → Db → Pass
        more = import_lines rd io lines

        by_answer :
            (r : Db × Result ℕ) → HasKey key r.0 → HasKey key (after_append rd io more stats r).1
        by_answer (db', ok id) k' = ih (record stats { imported = stats.imported + 1 }) db' key k'
        by_answer (db', err e) k' = k'

        by_reading : (o : Option FoundPayload) → HasKey key (import_read rd io more stats db o).1
        by_reading none = ih (record stats { malformed = stats.malformed + 1 }) db key k
        by_reading (some p) = by_answer (append (io db p) db p) (append_keeps (io db p) key db p k)

    import-Keeps : (lines : List Text) → Keeps lines
    unfolding import_lines
    import-Keeps [] stats db key k = k
    import-Keeps (raw ∷ lines) stats db key k =
        line-Keeps (trim_line raw) lines stats db key (import-Keeps lines) k

    -- After a clean pass each line has reached the journal.
    line_reaches :
        (line : Text) (lines : List Text) (stats : ImportStats) (db : Db)
        → ((stats' : ImportStats) (db' : Db)
            → (import_lines rd io lines stats' db').2 ≡ true
            → All (Reached (import_lines rd io lines stats' db').1) lines)
        → (import_line rd io (import_lines rd io lines) stats db line).2 ≡ true
        → let final = (import_line rd io (import_lines rd io lines) stats db line).1 in
          MeansIn final (meaning line) × All (Reached final) lines
    line_reaches [] lines stats db ih clean = (tt, ih stats db clean)
    line_reaches (c ∷ s) lines stats db ih clean = by_reading (parse_payload rd (c ∷ s)) clean
      where
        more : ImportStats → Db → Pass
        more = import_lines rd io lines

        by_answer :
            (p : FoundPayload) (r : Db × Result ℕ)
            → Appended db p r
            → (after_append rd io more stats r).2 ≡ true
            → HasKey p.key (after_append rd io more stats r).1
              × All (Reached (after_append rd io more stats r).1) lines
        by_answer p (db', ok id) taken clean' =
            let stats' = record stats { imported = stats.imported + 1 } in
            (import-Keeps lines stats' db' p.key taken, ih stats' db' clean')
        by_answer p (db', err e) taken clean' = cc

        by_reading :
            (o : Option FoundPayload)
            → (import_read rd io more stats db o).2 ≡ true
            → MeansIn (import_read rd io more stats db o).1 o
              × All (Reached (import_read rd io more stats db o).1) lines
        by_reading none clean' =
            (tt, ih (record stats { malformed = stats.malformed + 1 }) db clean')
        by_reading (some p) clean' =
            by_answer p (append (io db p) db p) (append_takes (io db p) db p) clean'

    import_reaches :
        (lines : List Text) (stats : ImportStats) (db : Db)
        → (import_lines rd io lines stats db).2 ≡ true
        → All (Reached (import_lines rd io lines stats db).1) lines
    unfolding import_lines
    import_reaches [] stats db clean = tt
    import_reaches (raw ∷ lines) stats db clean =
        line_reaches (trim_line raw) lines stats db (import_reaches lines) clean

    -- An import loses nothing: either the file is left as it was, or every line of it that stands
    -- for a find has its find in the journal. What the journal held it keeps in both cases.
    pub import_loses_nothing :
        (readable renames : Bool) (file : Text) (db : Db) (held : List Text)
        → All (λ key. HasKey key db) held
        → let (stats, db', file') = import_into rd io readable renames (some file) db in
          ((file' ≡ some file) ⊎ All (Reached db') (split_lines file))
          × All (λ key. HasKey key db') held
    unfolding import_into
    import_loses_nothing readable renames file db held h = by_readable readable
      where
        present : ImportStats
        present = record { imported = 0; malformed = 0; file_present = true }

        pass : Pass
        pass = import_lines rd io (split_lines file) present db

        kept :
            (keys : List Text)
            → All (λ key. HasKey key db) keys
            → All (λ key. HasKey key pass.1) keys
        kept [] k = tt
        kept (key ∷ keys) k = (import-Keeps (split_lines file) present db key k.0, kept keys k.1)

        by_clean :
            (clean : Bool)
            → pass.2 ≡ clean
            → (archived rd io renames clean file ≡ some file)
              ⊎ All (Reached pass.1) (split_lines file)
        by_clean true e = inr (import_reaches (split_lines file) present db e)
        by_clean false e = inl refl

        by_readable :
            (readable : Bool)
            → let (stats, db', file') = import_into rd io readable renames (some file) db in
              ((file' ≡ some file) ⊎ All (Reached db') (split_lines file))
              × All (λ key. HasKey key db') held
        by_readable true = (by_clean pass.2 refl, kept held h)
        by_readable false = (inl refl, h)
