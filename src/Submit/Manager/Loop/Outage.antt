-- ===== src/Submit/Manager/Loop/Outage.antt =====
-- The loop during an outage, and after a failure of the journal.
use tree_miner_amd.Prelude.{
  ℕ,
  ◌≡◌,
  refl,
  sym,
  ◌∙◌,
  ap,
  subst,
  Bool,
  true,
  false,
  ◌||◌,
  [],
  ◌==◌,
  Bool-cases,
  inl,
  inr,
  if◌then◌else◌,
  Text.{Text},
  Floats.{Floats},
}
use tree_miner_amd.Core.Types.{FoundPayload}
use tree_miner_amd.Submit.Breaker.{open_state, is_open}
use tree_miner_amd.Submit.Margin.{MarginMode, off, fixed, auto}
use tree_miner_amd.Submit.Manager.State.{
  JournalAccess, Transport, TransportResult, Config, Manager, StepResult, idle, Step, JournalResult,
  ok, err, continue, ◌>>=◌, pure, gets, asks, modify,
}
use tree_miner_amd.Submit.Manager.Step.{
  outage_clock, set_margin, backlog, evaluate_margin, update_margin, probe_step, is_off,
  probe_health, probe_difficulty, harvest, settle_probe,
}
use tree_miner_amd.Submit.Manager.Observe.{
  handle_difficulty_body, learn_field, learn_read, learn_difficulty, observe_difficulty,
  note_difficulty, arm_quiesce, track_server_date, dated,
}
use tree_miner_amd.Submit.Manager.Loop.{run_step, drain_step, handle_fatal, finish, run_once}

-- A step that does not touch the breaker, from any state.
record KeepsBreaker {J N A : Type 0} (m : Step J N A) : Type 0 where
  keeps : (s : Manager J N) → (m s).0.breaker ≡ s.breaker

module _ {J N A B : Type 0} where
  bind-KeepsBreaker :
      {m : Step J N A} {f : A → Step J N B}
      → KeepsBreaker m
      → ((a : A) → KeepsBreaker (f a))
      → KeepsBreaker (m >>= f)
  unfolding ◌>>=◌
  bind-KeepsBreaker {m} {f} h k = record { keeps = λ s. after s (m s) (h.keeps s) }
    where
      after :
          (s : Manager J N) (p : Manager J N × JournalResult A)
          → p.0.breaker ≡ s.breaker
          → (continue p.1 f p.0).0.breaker ≡ s.breaker
      after s (s', ok a) e = (k a).keeps s' ∙ e
      after s (s', err x) e = e

module _ {J N A : Type 0} where
  pure-KeepsBreaker : (a : A) → KeepsBreaker (pure {J = J} {N = N} a)
  unfolding ◌>>=◌
  pure-KeepsBreaker a = record { keeps = λ s. refl }

  gets-KeepsBreaker : (f : Manager J N → A) → KeepsBreaker (gets f)
  unfolding ◌>>=◌
  gets-KeepsBreaker f = record { keeps = λ s. refl }

  asks-KeepsBreaker : (f : J → J × JournalResult A) → KeepsBreaker (asks {N = N} f)
  unfolding ◌>>=◌
  asks-KeepsBreaker f = record { keeps = λ s. refl }

module _ {J N : Type 0} where
  modify-KeepsBreaker :
      (f : Manager J N → Manager J N)
      → ((s : Manager J N) → (f s).breaker ≡ s.breaker)
      → KeepsBreaker (modify f)
  unfolding ◌>>=◌
  modify-KeepsBreaker f h = record { keeps = h }

  outage_clock-breaker : (now : ℕ) (s : Manager J N) → (outage_clock now s).breaker ≡ s.breaker
  unfolding outage_clock
  outage_clock-breaker now s = elim (Bool-cases (is_open s.breaker.state)) [
    | inl e ↦ rw e refl
    | inr e ↦ rw e refl
  ]

  set_margin-KeepsBreaker : (next : ℕ) → KeepsBreaker (set_margin {J = J} {N = N} next)
  unfolding set_margin ◌>>=◌
  set_margin-KeepsBreaker next = record {
    keeps = λ s. elim (Bool-cases (next == s.margin_kib)) [ inl e ↦ rw e refl | inr e ↦ rw e refl ];
  }

module _ {J N : Type 0} (ja : JournalAccess J) (tr : Transport N) (fl : Floats) (cfg : Config) where
  backlog-KeepsBreaker : (mode : MarginMode) → KeepsBreaker (backlog ja tr fl cfg mode)
  unfolding backlog
  backlog-KeepsBreaker off = pure-KeepsBreaker 0
  backlog-KeepsBreaker fixed = pure-KeepsBreaker 0
  backlog-KeepsBreaker auto = bind-KeepsBreaker (asks-KeepsBreaker _) (λ c. pure-KeepsBreaker _)

  evaluate_margin-KeepsBreaker : (now : ℕ) → KeepsBreaker (evaluate_margin ja tr fl cfg now)
  unfolding evaluate_margin
  evaluate_margin-KeepsBreaker now = bind-KeepsBreaker (modify-KeepsBreaker _ (λ s. refl)) (λ u.
      bind-KeepsBreaker (backlog-KeepsBreaker cfg.margin.mode) (λ owed.
        bind-KeepsBreaker (gets-KeepsBreaker _) (λ open_now.
          bind-KeepsBreaker (gets-KeepsBreaker _) (λ started. set_margin-KeepsBreaker _))))

  update_margin-KeepsBreaker : KeepsBreaker (update_margin ja tr fl cfg)
  unfolding update_margin
  update_margin-KeepsBreaker = bind-KeepsBreaker (gets-KeepsBreaker _) (λ now.
      bind-KeepsBreaker (modify-KeepsBreaker _ (outage_clock-breaker now)) (λ u.
        bind-KeepsBreaker (gets-KeepsBreaker _)
          (λ fresh. either now (is_off cfg.margin.mode || fresh))))
    where
      either :
          (now : ℕ) (b : Bool)
          → KeepsBreaker (if b then pure tt else evaluate_margin ja tr fl cfg now)
      either now true = pure-KeepsBreaker tt
      either now false = evaluate_margin-KeepsBreaker now

  module _ (submit : N → FoundPayload → N × TransportResult)
      (confirm : N → Text → N × TransportResult) where
    -- The same transport with other routes for submissions and lookups.
    abbrev rerouted : Transport N
    rerouted = record tr { submit = submit; confirm = confirm }

    update_margin-rerouted : update_margin ja rerouted fl cfg ≡ update_margin ja tr fl cfg
    unfolding update_margin evaluate_margin backlog
    update_margin-rerouted = refl

    probe_step-rerouted : probe_step ja rerouted fl cfg ≡ probe_step ja tr fl cfg
    unfolding probe_step probe_health probe_difficulty harvest settle_probe handle_difficulty_body
        learn_field learn_read learn_difficulty observe_difficulty note_difficulty arm_quiesce
        track_server_date dated
    probe_step-rerouted = refl

    -- What a step does after its margin.
    abbrev routed : Transport N → Manager J N → Manager J N × JournalResult StepResult
    routed t s =
        (if is_open s.breaker.state then probe_step ja t fl cfg else drain_step ja t fl cfg) s

    routed-open :
        (p : Manager J N × JournalResult (Unit {0}))
        → is_open p.0.breaker.state ≡ true
        → continue p.1 (λ u. routed rerouted) p.0 ≡ continue p.1 (λ u. routed tr) p.0
    routed-open (s, ok a) h = rw h (ap (λ step. step s) probe_step-rerouted)
    routed-open (s, err x) h = refl

    -- While the breaker is open a step makes no submission and no confirmation lookup: whatever
    -- those two routes would do, the step is the same.
    pub run_step-open :
        (s : Manager J N)
        → s.breaker.state ≡ open_state
        → run_step ja rerouted fl cfg s ≡ run_step ja tr fl cfg s
    unfolding run_step ◌>>=◌
    run_step-open s e = rw update_margin-rerouted (
        routed-open (update_margin ja tr fl cfg s)
          (ap (λ b. is_open b.state) (update_margin-KeepsBreaker.keeps s) ∙ ap is_open e))

module _ {J N : Type 0} where
  handle_fatal-fatal : (s : Manager J N) → (handle_fatal s).fatal ≡ true
  unfolding handle_fatal
  handle_fatal-fatal s = elim (Bool-cases s.fatal) [ inl e ↦ rw e refl | inr e ↦ rw e refl ]

  finish-err :
      (p : Manager J N × JournalResult StepResult) (e : Text)
      → p.1 ≡ err e
      → ((finish p).0.fatal ≡ true) × ((finish p).1 ≡ (idle, []))
  finish-err (s, ok r) e h = absurd cc
  finish-err (s, err x) e h = (handle_fatal-fatal _, refl)

module _ {J N : Type 0} (ja : JournalAccess J) (tr : Transport N) (fl : Floats) (cfg : Config) where
  -- A latched failure leaves nothing to do.
  run_once-inert : (s : Manager J N) → s.fatal ≡ true → run_once ja tr fl cfg s ≡ (s, (idle, []))
  unfolding run_once
  run_once-inert s h = ap (λ b. if b then (s, (idle, [])) else finish (run_step ja tr fl cfg s)) h

  run_once-live :
      (s : Manager J N)
      → s.fatal ≡ false
      → run_once ja tr fl cfg s ≡ finish (run_step ja tr fl cfg s)
  unfolding run_once
  run_once-live s h = ap (λ b. if b then (s, (idle, [])) else finish (run_step ja tr fl cfg s)) h

  -- A failure of the journal in a step halts the loop for good: the failure is latched, no event of
  -- the step is passed on, and a later step does nothing, whatever has become of the network.
  pub run_once-fatal :
      (s : Manager J N) (e : Text) (n : N)
      → s.fatal ≡ false
      → (run_step ja tr fl cfg s).1 ≡ err e
      → let (halted, r) = run_once ja tr fl cfg s in
        (halted.fatal ≡ true)
        × (r ≡ (idle, []))
        × (run_once ja tr fl cfg (record halted { net = n })
            ≡ (record halted { net = n }, (idle, [])))
  run_once-fatal s e n h k =
      let (latched, r) = finish-err (run_step ja tr fl cfg s) e k in
      subst
        (λ p.
          (p.0.fatal ≡ true)
          × (p.1 ≡ (idle, []))
          × (run_once ja tr fl cfg (record p.0 { net = n }) ≡ (record p.0 { net = n }, (idle, []))))
        (sym (run_once-live s h)) (latched, r, run_once-inert _ latched)
