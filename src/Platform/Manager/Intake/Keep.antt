-- ===== src/Platform/Manager/Intake/Keep.antt =====
-- What every handled payload keeps, the dispatching of the queue keeps.
use tree_miner_amd.Prelude.{ℕ, zero, suc, List, [], ◌∷◌, Text.{Text}, arith}
use tree_miner_amd.Core.Address.{Keccak}
use tree_miner_amd.Platform.Envelope.{Json, Crypto}
use tree_miner_amd.Platform.Proto.{Decode}
use tree_miner_amd.Platform.Manager.{Platform, PlatformConfig, QueuedCommand, Host}
use tree_miner_amd.Platform.Manager.Intake.{
  handle_payload, drain_items, drain, next_item, dispatch_next, Input, step, run,
}

module _ {V : Type 0} (js : Json V) (cr : Crypto) (de : Decode V) (kk : Keccak)
    (cfg : PlatformConfig) (P : Platform → Type 0) where
  module _ (h : Host)
      (dequeued : (s : Platform) (rest : List QueuedCommand) → P s → P (record s { items = rest }))
      (handled : (payload : Text) (s : Platform)
        → P s
        → P (handle_payload js cr de kk cfg h payload s)) where
    pub drain-keeps : (fuel : ℕ) (s : Platform) → P s → P (drain js cr de kk cfg h fuel s).0
    unfolding drain
    drain-keeps zero s p = p
    drain-keeps (suc fuel) s p = by_items s.items (drain-keeps fuel)
      where
        by_items :
            (items : List QueuedCommand)
            → ((s' : Platform) → P s' → P (drain js cr de kk cfg h fuel s').0)
            → P (drain_items js cr de kk cfg h (drain js cr de kk cfg h fuel) s items).0
        by_items [] more = p
        by_items (cmd ∷ rest) more =
            let s1 = record s { items = rest } in
            more (handle_payload js cr de kk cfg h cmd.payload s1)
              (handled cmd.payload s1 (dequeued s rest p))

    pub next-keeps : (s : Platform) → P s → P (dispatch_next js cr de kk cfg h s)
    unfolding dispatch_next
    next-keeps s p = by_items s.items
      where
        by_items : (items : List QueuedCommand) → P (next_item js cr de kk cfg h s items)
        by_items [] = p
        by_items (cmd ∷ rest) =
            let s1 = record s { items = rest } in
            let kept = handled cmd.payload s1 (dequeued s rest p) in ground (arith, kept)

  pub run-keeps :
      ((h : Host) (i : Input) (s : Platform) → P s → P (step js cr de kk cfg h i s))
      → (inputs : List (Host × Input)) (s : Platform) → P s
      → P (run js cr de kk cfg inputs s)
  unfolding run
  run-keeps kept [] s p = p
  run-keeps kept ((h, i) ∷ inputs) s p =
      run-keeps kept inputs (step js cr de kk cfg h i s) (kept h i s p)
