-- ===== src/Submit/Manager/Observe/Quiesce.antt =====
-- How long a change of difficulty holds submissions back.
use tree_miner_amd.Prelude.{ℕ, ◌+◌, ◌≤◌, List, [], ◌∷◌, All, max, Bool-cases, inl, inr, arith}
use tree_miner_amd.Submit.Manager.State.{JournalAccess, Transport, Config, quiesce_max_ms, Manager}
use tree_miner_amd.Submit.Manager.Observe.{arm_quiesce, note_difficulty, is_transition}

module _ {J N : Type 0} (tr : Transport N) (cfg : Config) where
  arm_quiesce-until :
      (ja : JournalAccess J) (s : Manager J N)
      → (s.quiesce_until_ms ≤ (arm_quiesce ja tr cfg s).quiesce_until_ms)
        × ((arm_quiesce ja tr cfg s).quiesce_until_ms
            ≤ max s.quiesce_until_ms (tr.mono s.net + quiesce_max_ms))
  unfolding arm_quiesce
  arm_quiesce-until ja s = ground arith

  note_difficulty-until :
      (ja : JournalAccess J) (d : ℕ) (s : Manager J N)
      → (s.quiesce_until_ms ≤ (note_difficulty ja tr cfg d s).quiesce_until_ms)
        × ((note_difficulty ja tr cfg d s).quiesce_until_ms
            ≤ max s.quiesce_until_ms (tr.mono s.net + quiesce_max_ms))
  unfolding note_difficulty
  note_difficulty-until ja d s = elim (Bool-cases (is_transition s.last_difficulty d)) [
    | inl e ↦ rw e (arm_quiesce-until ja _)
    | inr e ↦ rw e (omega arith, omega arith)
  ]

  -- The difficulties observed, each at the instant of a state of the host.
  pub observed : JournalAccess J → List (N × ℕ) → Manager J N → Manager J N
  observed ja [] s = s
  observed ja ((n, d) ∷ rest) s =
      observed ja rest (note_difficulty ja tr cfg d (record s { net = n }))

  -- Whatever difficulties are observed until `last`, in any order, submissions are not held back
  -- beyond a minute after it, and a deadline that was set is not moved forward.
  pub observed-until :
      (ja : JournalAccess J) (seen : List (N × ℕ)) (s : Manager J N) (last : ℕ)
      → All (λ o. tr.mono o.0 ≤ last) seen
      → (s.quiesce_until_ms ≤ (observed ja seen s).quiesce_until_ms)
        × ((observed ja seen s).quiesce_until_ms ≤ max s.quiesce_until_ms (last + quiesce_max_ms))
  unfolding observed
  observed-until ja [] s last h = (omega arith, omega arith)
  observed-until ja ((n, d) ∷ rest) s last (h, hs) =
      let (above, below) = note_difficulty-until ja d (record s { net = n }) in
      let (above', below') =
        observed-until ja rest (note_difficulty ja tr cfg d (record s { net = n })) last hs in
      (omega arith, omega arith)
