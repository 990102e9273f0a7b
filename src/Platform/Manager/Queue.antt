-- ===== src/Platform/Manager/Queue.antt =====
-- The queue of commands and its dispatching.
use tree_miner_amd.Prelude.{
  ℕ,
  zero,
  suc,
  ◌+◌,
  ◌≤◌,
  ◌≡◌,
  refl,
  ◌⊎◌,
  inl,
  inr,
  ap,
  ◌∙◌,
  ◌⊎◌,
  inl,
  inr,
  Bool,
  true,
  false,
  Option,
  none,
  some,
  List,
  [],
  ◌∷◌,
  ◌++◌,
  length,
  ltb,
  leb,
  ◌||◌,
  length-append,
  arith,
  if◌then◌else◌,
  Text.{Text},
}
use tree_miner_amd.Core.Address.{Keccak}
use tree_miner_amd.Platform.Envelope.{Json, Crypto, max_payload_bytes}
use tree_miner_amd.Platform.Lease.{LeaseInfo, LeaseError, has_active_lease}
use tree_miner_amd.Platform.Proto.{
  Decode, AssignTask, Command, register_ack, assign_task, release, control, pause, resume, shutdown,
  set_config, Parsed, parsed, failed, command_from_value, value_from_payload,
}
use tree_miner_amd.Platform.Manager.{
  Platform, PlatformConfig, QueuedCommand, idle, Host, RejectReason, transition_to,
  switch_to_self_mining, switch_to_platform_mining, send_registration, send_offline,
  publish_heartbeat,
}
use tree_miner_amd.Platform.Manager.Handlers.{
  Outcome, handle_register_ack, lease_started, begin_lease, refuse_task, assign_unless,
  handle_assign_task, give_back, finish_lease, release_current, handle_release, end_active_lease,
  stop, apply_config, configure_unless, refuse_config, handle_set_config, handle_control,
  handle_command,
}
use tree_miner_amd.Platform.Manager.Intake.{
  authorize_with, authorize_command, handle_parsed, handle_authorized, handle_value,
  try_handle_payload, handle_payload, drain_items, drain, dispatch_pending, enqueue_command,
}

module _ (kk : Keccak) (cfg : PlatformConfig) (h : Host) (q : List QueuedCommand) where
  abbrev Holds : Platform → Type 0
  Holds s = s.items ≡ q

  started-items :
      (r : Option LeaseInfo × Option LeaseError) (s : Platform)
      → Holds s
      → Holds (lease_started kk cfg h r s)
  unfolding transition_to switch_to_platform_mining
  started-items (lease, some e) s i = i
  started-items (lease, none) s i = i

  assigned-items :
      (task : AssignTask) (s : Platform) (r : Option RejectReason)
      → Holds s
      → Holds (assign_unless kk cfg h task s r).0
  unfolding begin_lease transition_to
  assigned-items task s none i = started-items _ (transition_to cfg h _ s) i
  assigned-items task s (some reason) i = i

  current-items :
      (id : Text) (s : Platform) (current : Option LeaseInfo)
      → Holds s
      → Holds (release_current kk cfg h id s current).0
  unfolding finish_lease transition_to give_back switch_to_self_mining
  current-items id s none i = i
  current-items id s (some l) i = ground (arith, i)

  ended-items : (s : Platform) → Holds s → Holds (end_active_lease kk cfg h s)
  unfolding give_back switch_to_self_mining
  ended-items s i = by_active (has_active_lease h.monotonic s.lease)
    where
      by_active : (b : Bool) → Holds (if b then give_back kk cfg h s else s)
      by_active true = i
      by_active false = i

  stop-items : (s : Platform) → Holds s → Holds (stop kk cfg h s)
  unfolding stop transition_to send_offline
  stop-items s i = by_running s.running
    where
      s1 : Platform
      s1 = record s { stopping = true; running = false }

      by_running :
          (b : Bool)
          → Holds (
              if b
              then transition_to cfg h idle (send_offline cfg h (end_active_lease kk cfg h s1))
              else s1)
      by_running true = ended-items s1 i
      by_running false = i

  config-items :
      (s : Platform) (c : _) (r : Option RejectReason)
      → Holds s
      → Holds (configure_unless kk cfg h c s r).0
  unfolding apply_config publish_heartbeat
  config-items s c none i = i
  config-items s c (some reason) i = i

  command-items :
      (command : Command) (s : Platform) → Holds s → Holds (handle_command kk cfg h command s).0
  unfolding handle_command handle_register_ack handle_assign_task handle_release handle_control
      handle_set_config transition_to send_registration
  command-items (register_ack ack) s i = ground (arith, i)
  command-items (assign_task task) s i =
      ground (arith, i, assigned-items task s (refuse_task kk cfg h task))
  command-items (release r) s i = ground (arith, i, current-items r.lease_id s s.lease)
  command-items (control pause) s i = ended-items s i
  command-items (control resume) s i = ground (arith, i)
  command-items (control shutdown) s i = stop-items (record s { shutdown_requested = true }) i
  command-items (control (set_config c)) s i = config-items s c (refuse_config kk cfg h c) i

module _ {V : Type 0} (js : Json V) (cr : Crypto) (de : Decode V) (kk : Keccak)
    (cfg : PlatformConfig) (h : Host) where
  parsed-items :
      (s : Platform) (r : Parsed Command) → (handle_parsed js cr de kk cfg h s r).0.items ≡ s.items
  parsed-items s (failed e) = refl
  parsed-items s (parsed command) = command-items kk cfg h s.items command s refl

  authorized-items :
      (msg : V) (o : Outcome) → (handle_authorized js cr de kk cfg h msg o).0.items ≡ o.0.items
  authorized-items msg (s, some reason) = refl
  authorized-items msg (s, none) = parsed-items s (command_from_value js de msg)

  authorize-items :
      (secret : Option Text) (msg : V) (s : Platform)
      → (authorize_with js cr de kk cfg h secret msg s).0.items ≡ s.items
  authorize-items none msg s = refl
  authorize-items (some secret) msg s = refl

  value-items :
      (s : Platform) (r : Parsed V) → (handle_value js cr de kk cfg h s r).0.items ≡ s.items
  unfolding authorize_command
  value-items s (failed e) = refl
  value-items s (parsed msg) =
      authorized-items msg (authorize_with js cr de kk cfg h cfg.command_secret msg s)
      ∙ authorize-items cfg.command_secret msg s

  -- No command touches the queue.
  pub handle_payload-items :
      (payload : Text) (s : Platform) → (handle_payload js cr de kk cfg h payload s).items ≡ s.items
  unfolding handle_payload try_handle_payload
  handle_payload-items payload s = value-items s (value_from_payload js de payload)

  drain_all :
      (fuel : ℕ) (s : Platform)
      → length s.items ≤ fuel
      → ((drain js cr de kk cfg h fuel s).0.items ≡ [])
        × ((drain js cr de kk cfg h fuel s).1 ≡ length s.items)
  unfolding drain
  drain_all zero s b = (empty s.items b, omega arith)
    where
      empty : (items : List QueuedCommand) → length items ≤ 0 → items ≡ []
      empty [] b' = refl
      empty (cmd ∷ rest) b' = absurd (omega arith)
  drain_all (suc fuel) s b = by_items s.items refl b (drain_all fuel)
    where
      by_items :
          (items : List QueuedCommand)
          → s.items ≡ items
          → length items ≤ suc fuel
          → ((s' : Platform)
              → length s'.items ≤ fuel
              → ((drain js cr de kk cfg h fuel s').0.items ≡ [])
                × ((drain js cr de kk cfg h fuel s').1 ≡ length s'.items))
          → ((drain_items js cr de kk cfg h (drain js cr de kk cfg h fuel) s items).0.items ≡ [])
            × ((drain_items js cr de kk cfg h (drain js cr de kk cfg h fuel) s items).1
                ≡ length items)
      by_items [] e l ih = (e, refl)
      by_items (cmd ∷ rest) e l ih =
          let s1 = handle_payload js cr de kk cfg h cmd.payload (record s { items = rest }) in
          let left : s1.items ≡ rest =
            handle_payload-items cmd.payload (record s { items = rest }) in
          let below : length s1.items ≤ fuel = rw left (omega arith) in
          let (emptied, handled) = ih s1 below in
          (emptied, omega (arith, handled, ap (λ r. length r) left))

  -- The dispatching of the queue ends with the queue empty, having handled as many commands as stood
  -- in it: the bound on its rounds is enough.
  pub dispatch_drains :
      (s : Platform)
      → ((dispatch_pending js cr de kk cfg h s).0.items ≡ [])
        × ((dispatch_pending js cr de kk cfg h s).1 ≡ length s.items)
  unfolding dispatch_pending
  dispatch_drains s = drain_all (length s.items) s (omega arith)

-- A message that is taken stands last in the queue, behind those that were there, and the queue
-- never grows past its capacity; one that is not taken leaves the queue alone, and is counted as
-- dropped unless the client is stopping.
pub enqueue_bounded :
    (cfg : PlatformConfig) (topic payload : Text) (s : Platform)
    → length s.items ≤ cfg.queue_capacity
    → let s' = enqueue_command cfg topic payload s in
      (length s'.items ≤ cfg.queue_capacity)
      × (((s'.items ≡ s.items ++ record { topic = topic; payload = payload } ∷ [])
            × (length payload ≤ max_payload_bytes))
          ⊎ ((s'.items ≡ s.items)
              × ((s.stopping ≡ true) ⊎ (s'.dropped_total ≡ s.dropped_total + 1))))
unfolding enqueue_command
enqueue_bounded cfg topic payload s b = by_stop s.stopping refl
  where
    cmd : QueuedCommand
    cmd = record { topic = topic; payload = payload }

    full : Bool
    full = ltb max_payload_bytes (length payload) || leb cfg.queue_capacity (length s.items)

    refused : Platform
    refused = record s { dropped = s.dropped + 1; dropped_total = s.dropped_total + 1 }

    Bounded : Platform → Type 0
    Bounded s' =
        (length s'.items ≤ cfg.queue_capacity)
        × (((s'.items ≡ s.items ++ cmd ∷ []) × (length payload ≤ max_payload_bytes))
            ⊎ ((s'.items ≡ s.items)
                × ((s.stopping ≡ true) ⊎ (s'.dropped_total ≡ s.dropped_total + 1))))

    by_full :
        (f : Bool)
        → full ≡ f
        → Bounded (if f then refused else record s { items = s.items ++ cmd ∷ [] })
    by_full true e = (b, inr (refl, inr refl))
    by_full false e = (ground (arith, length-append s.items (cmd ∷ [])), inl (refl, ground arith))

    by_stop :
        (stopping : Bool)
        → s.stopping ≡ stopping
        → Bounded (
            if stopping
            then s
            else if full
            then refused
            else record s { items = s.items ++ cmd ∷ [] })
    by_stop true e = (b, inr (refl, inl e))
    by_stop false e = by_full full refl
