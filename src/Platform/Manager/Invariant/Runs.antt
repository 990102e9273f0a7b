-- ===== src/Platform/Manager/Invariant/Runs.antt =====
-- Messages, and sequences of calls, between which the client is to be consistent.
use tree_miner_amd.Prelude.{refl, Option, none, some, List, [], length, arith, Text.{Text, codes}}
use tree_miner_amd.Core.Address.{Keccak}
use tree_miner_amd.Platform.Envelope.{Json, Crypto}
use tree_miner_amd.Platform.Proto.{
  register_ack, assign_task, release, ControlAction, control, decoded, control_of, by_action,
  by_command, by_field, with_text, Decode, Command, Parsed, parsed, failed, command_from_value,
  value_from_payload,
}
use tree_miner_amd.Platform.Manager.{Platform, PlatformConfig, QueuedCommand, Host}
use tree_miner_amd.Platform.Manager.Handlers.{Outcome}
use tree_miner_amd.Platform.Manager.Intake.{
  authorize_with, authorize_command, handle_parsed, handle_authorized, handle_value,
  try_handle_payload, handle_payload, dispatch_pending, Input, enqueue, dispatch_one, dispatch,
  watchdog, beat, starting, stopping, block, step, run,
}
use tree_miner_amd.Platform.Manager.Invariant.{IsConsistent}
use tree_miner_amd.Platform.Manager.Invariant.Calls.{
  OwnAction, OwnCommand, repack, command-IsConsistent, stop-IsConsistent, watchdog-IsConsistent,
  start-IsConsistent, block-IsConsistent, beat-IsConsistent, enqueue-IsConsistent,
}
use tree_miner_amd.Platform.Manager.Intake.Keep.{drain-keeps, next-keeps, run-keeps}

-- An answer of the decoder of actions names no address but the operator's own.
abbrev pub OwnAnswer : (Text → Type 0) → Option ControlAction → Type 0
OwnAnswer own none = Unit
OwnAnswer own (some action) = OwnAction own action

abbrev OwnParsed : (Text → Type 0) → Parsed Command → Type 0
OwnParsed own (parsed command) = OwnCommand own command
OwnParsed own (failed e) = Unit

module _ {V : Type 0} (js : Json V) (de : Decode V) (own : Text → Type 0)
    (named : (v : V) → OwnAnswer own (de.to_control v)) where
  decoded-own :
      (r : Option ControlAction)
      → OwnAnswer own r
      → OwnParsed own (decoded control (codes "control") r)
  decoded-own none o = tt
  decoded-own (some action) o = o

  control-own : (msg : V) (action : Text) → OwnParsed own (control_of js de msg action)
  unfolding control_of
  control-own msg action = ground (arith, decoded-own (de.to_control msg) (named msg))

  harmless-own :
      {A : Type 0} (f : A → Command) (name : Text)
      → ((a : A) → OwnCommand own (f a))
      → (r : Option A) → OwnParsed own (decoded f name r)
  harmless-own f name h none = tt
  harmless-own f name h (some a) = h a

  with_text-own :
      (name : Text) (f : Text → Parsed Command)
      → ((t : Text) → OwnParsed own (f t))
      → (r : Option Text) → OwnParsed own (with_text js de name f r)
  with_text-own name f h none = tt
  with_text-own name f h (some t) = h t

  action-own : (msg : V) (r : Option V) → OwnParsed own (by_action js de msg r)
  unfolding by_action
  action-own msg none = tt
  action-own msg (some v) =
      with_text-own (codes "action") (control_of js de msg) (control-own msg) (js.as_str v)

  by_command-own : (msg : V) (command : Text) → OwnParsed own (by_command js de msg command)
  unfolding by_command
  by_command-own msg command = ground (
    arith,
    harmless-own register_ack (codes "register_ack") (λ a. tt) (de.to_register_ack msg),
    harmless-own assign_task (codes "assign_task") (λ a. tt) (de.to_assign_task msg),
    harmless-own release (codes "release") (λ a. tt) (de.to_release msg),
    action-own msg (js.get msg (codes "action")),
  )

  field-own : (msg : V) (r : Option V) → OwnParsed own (by_field js de msg r)
  unfolding by_field
  field-own msg none = by_command-own msg []
  field-own msg (some v) =
      with_text-own (codes "command") (by_command js de msg) (by_command-own msg) (js.as_str v)

  command_own : (msg : V) → OwnParsed own (command_from_value js de msg)
  unfolding command_from_value
  command_own msg = ground (arith, field-own msg (js.get msg (codes "command")))

module _ {V : Type 0} (js : Json V) (cr : Crypto) (de : Decode V) (kk : Keccak)
    (own : Text → Type 0) (named : (v : V) → OwnAnswer own (de.to_control v))
    (cfg : PlatformConfig) where
  module _ (h : Host) where
    parsed-IsConsistent :
        (r : Parsed Command) (s : Platform)
        → OwnParsed own r
        → IsConsistent kk own s
        → IsConsistent kk own (handle_parsed js cr de kk cfg h s r).0
    parsed-IsConsistent (failed e) s o c = c
    parsed-IsConsistent (parsed command) s o c = command-IsConsistent kk own cfg h command s o c

    authorized-IsConsistent :
        (msg : V) (o : Outcome)
        → IsConsistent kk own o.0
        → IsConsistent kk own (handle_authorized js cr de kk cfg h msg o).0
    authorized-IsConsistent msg (s, some reason) c = c
    authorized-IsConsistent msg (s, none) c =
        parsed-IsConsistent (command_from_value js de msg) s (command_own js de own named msg) c

    authorize-IsConsistent :
        (secret : Option Text) (msg : V) (s : Platform)
        → IsConsistent kk own s
        → IsConsistent kk own (authorize_with js cr de kk cfg h secret msg s).0
    authorize-IsConsistent none msg s c = c
    authorize-IsConsistent (some secret) msg s c =
        repack kk own cfg s (authorize_with js cr de kk cfg h (some secret) msg s).0 refl refl refl
          c

    value-IsConsistent :
        (r : Parsed V) (s : Platform)
        → IsConsistent kk own s
        → IsConsistent kk own (handle_value js cr de kk cfg h s r).0
    unfolding authorize_command
    value-IsConsistent (failed e) s c = c
    value-IsConsistent (parsed msg) s c =
        authorized-IsConsistent msg (authorize_command js cr de kk cfg h msg s)
          (authorize-IsConsistent cfg.command_secret msg s c)

    payload-IsConsistent :
        (payload : Text) (s : Platform)
        → IsConsistent kk own s
        → IsConsistent kk own (handle_payload js cr de kk cfg h payload s)
    unfolding handle_payload try_handle_payload
    payload-IsConsistent payload s c = value-IsConsistent (value_from_payload js de payload) s c

    requeued :
        (s : Platform) (rest : List QueuedCommand)
        → IsConsistent kk own s
        → IsConsistent kk own (record s { items = rest })
    requeued s rest c = repack kk own cfg s (record s { items = rest }) refl refl refl c

  step-IsConsistent :
      (h : Host) (i : Input) (s : Platform)
      → IsConsistent kk own s
      → IsConsistent kk own (step js cr de kk cfg h i s)
  unfolding step dispatch_pending
  step-IsConsistent h (enqueue topic payload) s c =
      enqueue-IsConsistent kk own cfg topic payload s c
  step-IsConsistent h dispatch_one s c =
      next-keeps js cr de kk cfg (IsConsistent kk own) h (requeued h) (payload-IsConsistent h) s c
  step-IsConsistent h dispatch s c =
      drain-keeps js cr de kk cfg (IsConsistent kk own) h (requeued h) (payload-IsConsistent h)
        (length s.items) s c
  step-IsConsistent h watchdog s c = watchdog-IsConsistent kk own cfg h s c
  step-IsConsistent h beat s c = beat-IsConsistent kk own cfg h s c
  step-IsConsistent h starting s c = start-IsConsistent kk own cfg h s c
  step-IsConsistent h stopping s c = stop-IsConsistent kk own cfg h s c
  step-IsConsistent h (block hash key account attempts rate) s c =
      block-IsConsistent kk own cfg h hash key account attempts rate s c

  -- Through every sequence of calls a consistent client stays consistent: with a lease it works for
  -- the consumer of the lease, and the lease is of the form that assign_task asks for (its names, its
  -- prefix, its address and its duration); without one it works for itself, on an address that is the
  -- operator's own, where the configured address and those that a set_config may name are; a client
  -- that mines for a platform has a lease, and none rests in a state of passage.
  pub run-IsConsistent :
      (inputs : List (Host × Input)) (s : Platform)
      → IsConsistent kk own s
      → IsConsistent kk own (run js cr de kk cfg inputs s)
  run-IsConsistent inputs s c =
      run-keeps js cr de kk cfg (IsConsistent kk own) step-IsConsistent inputs s c
