-- ===== src/Submit/Manager/Loop/Durable.antt =====
-- The steps of the loop and what the calls of the journal keep.
use tree_miner_amd.Prelude.{
  arith,
  Option-cases,
  ℕ,
  ◌≡◌,
  refl,
  Bool,
  true,
  false,
  Option,
  none,
  some,
  List,
  [],
  ◌∷◌,
  Bool-cases,
  inl,
  inr,
  if◌then◌else◌,
  Text.{Text},
  Floats.{Floats},
}
use tree_miner_amd.Core.Types.{xen11, xuni, FindRecord, FindStatus, Classification}
use tree_miner_amd.Submit.ClockTime.Stamp.{parse_http_date_ms}
use tree_miner_amd.Submit.Margin.{MarginMode, off, fixed, auto}
use tree_miner_amd.Submit.Manager.State.{
  JournalAccess, Transport, TransportResult, Config, Manager, JournalResult, ok, err, StepResult,
  idle,
}
use tree_miner_amd.Submit.Manager.Keep.{
  Guards, Keeps, bind-Keeps, pure-Keeps, gets-Keeps, calls-Keeps, asks-Keeps, if-Keeps,
  modify-Keeps, count-Keeps, emit-Keeps,
}
use tree_miner_amd.Submit.Manager.Observe.{
  arm_quiesce, note_difficulty, observe_difficulty, dated, track_server_date, learn_difficulty,
  learn_read, learn_field, handle_difficulty_body,
}
use tree_miner_amd.Submit.Manager.Step.{
  outage_clock, set_margin, backlog, evaluate_margin, update_margin, harvest, probe_health,
  probe_difficulty, settle_probe, probe_step,
}
use tree_miner_amd.Submit.Manager.Send.{
  settle, learn_hint, look_up, send, admit_and_send, fetch_xuni, fetch_and_send, note_window,
  submit_step,
}
use tree_miner_amd.Submit.Manager.Loop.{
  confirm_one, confirm_batch, confirm_all, confirm_step, drain_step, run_step, handle_fatal, finish,
  run_once,
}

module _ {J N : Type 0} (P : J → Type 0) (ja : JournalAccess J) (tr : Transport N) (fl : Floats)
    (cfg : Config) (g : Guards P ja) where
  note_difficulty-journal :
      (d : ℕ) (s : Manager J N) → (note_difficulty ja tr cfg d s).journal ≡ s.journal
  unfolding note_difficulty arm_quiesce
  note_difficulty-journal d s = ground arith

  observe_difficulty-Keeps : (d : ℕ) → Keeps P (observe_difficulty ja tr cfg d)
  unfolding observe_difficulty
  observe_difficulty-Keeps d = bind-Keeps (gets-Keeps _) (λ previous.
      bind-Keeps (modify-Keeps _ (note_difficulty-journal d))
        (λ u. if-Keeps _ (asks-Keeps _ (λ j p. g.by_unpark j d p)) (pure-Keeps 0)))

  dated-journal : (o : Option Text) (s : Manager J N) → (dated ja tr cfg o s).journal ≡ s.journal
  unfolding dated
  dated-journal none s = refl
  dated-journal (some header) s = elim (Option-cases (parse_http_date_ms header)) [
    | inl e ↦ rw (e, dated) refl
    | inr (ms, e) ↦ rw (e, dated) refl
  ]

  track_server_date-Keeps : (r : TransportResult) → Keeps P (track_server_date ja tr cfg r)
  unfolding track_server_date
  track_server_date-Keeps r =
      modify-Keeps _ (λ s. either r.transport_ok s _ (dated-journal r.date_header s))
    where
      either :
          (b : Bool) (s s' : Manager J N)
          → s'.journal ≡ s.journal
          → (if b then s' else s).journal ≡ s.journal
      either true s s' h = h
      either false s s' h = refl

  learn_difficulty-Keeps : (d : ℕ) → Keeps P (learn_difficulty ja tr cfg d)
  unfolding learn_difficulty
  learn_difficulty-Keeps d = bind-Keeps (observe_difficulty-Keeps d) (λ unparked.
      bind-Keeps (gets-Keeps _)
        (λ at. bind-Keeps (asks-Keeps _ (λ j p. g.by_difficulty j d at p)) (λ u. emit-Keeps _)))

  learn_read-Keeps : (o : Option ℕ) → Keeps P (learn_read ja tr cfg o)
  unfolding learn_read
  learn_read-Keeps none = pure-Keeps false
  learn_read-Keeps (some d) = bind-Keeps (learn_difficulty-Keeps d) (λ u. pure-Keeps true)

  learn_field-Keeps : (o : Option Text) → Keeps P (learn_field ja tr cfg o)
  unfolding learn_field
  learn_field-Keeps none = pure-Keeps false
  learn_field-Keeps (some field) = learn_read-Keeps _

  handle_difficulty_body-Keeps : (body : Text) → Keeps P (handle_difficulty_body ja tr cfg body)
  unfolding handle_difficulty_body
  handle_difficulty_body-Keeps body = learn_field-Keeps _

  -- The margin.
  outage_clock-journal : (now : ℕ) (s : Manager J N) → (outage_clock now s).journal ≡ s.journal
  unfolding outage_clock
  outage_clock-journal now s = ground arith

  set_margin-Keeps : (next : ℕ) → Keeps P (set_margin {J = J} {N = N} next)
  unfolding set_margin
  set_margin-Keeps next = bind-Keeps (gets-Keeps _) (λ current. if-Keeps _ (pure-Keeps tt) (
      bind-Keeps (modify-Keeps _ (λ s. refl))
        (λ u. bind-Keeps (count-Keeps _) (λ v. emit-Keeps _))))

  backlog-Keeps : (mode : MarginMode) → Keeps P (backlog ja tr fl cfg mode)
  unfolding backlog
  backlog-Keeps off = pure-Keeps 0
  backlog-Keeps fixed = pure-Keeps 0
  backlog-Keeps auto = bind-Keeps (asks-Keeps _ (λ j p. g.by_counts j p)) (λ c. pure-Keeps _)

  update_margin-Keeps : Keeps P (update_margin ja tr fl cfg)
  unfolding update_margin evaluate_margin
  update_margin-Keeps = bind-Keeps (gets-Keeps _) (λ now.
      bind-Keeps (modify-Keeps _ (outage_clock-journal now)) (λ u.
        bind-Keeps (gets-Keeps _) (λ fresh. if-Keeps _ (pure-Keeps tt) (
          bind-Keeps (modify-Keeps _ (λ s. refl)) (λ v.
            bind-Keeps (backlog-Keeps cfg.margin.mode) (λ owed.
              bind-Keeps (gets-Keeps _)
                (λ open_now. bind-Keeps (gets-Keeps _) (λ started. set_margin-Keeps _))))))))

  -- The probe.
  harvest-Keeps : (r : TransportResult) → Keeps P (harvest ja tr fl cfg r)
  unfolding harvest
  harvest-Keeps r =
      if-Keeps _ (bind-Keeps (handle_difficulty_body-Keeps _) (λ seen. pure-Keeps _)) (pure-Keeps _)

  probe_health-Keeps : (o : Option TransportResult) → Keeps P (probe_health ja tr fl cfg o)
  unfolding probe_health
  probe_health-Keeps none = pure-Keeps _
  probe_health-Keeps (some h) = bind-Keeps (track_server_date-Keeps h) (λ u. harvest-Keeps h)

  probe_difficulty-Keeps : (p : Bool × Bool) → Keeps P (probe_difficulty ja tr fl cfg p)
  unfolding probe_difficulty
  probe_difficulty-Keeps (healthy, seen) = if-Keeps _ (pure-Keeps true) (
      bind-Keeps (calls-Keeps _) (λ d.
        bind-Keeps (track_server_date-Keeps d)
          (λ u. bind-Keeps (harvest-Keeps d) (λ again. pure-Keeps _))))

  probe_step-Keeps : Keeps P (probe_step ja tr fl cfg)
  unfolding probe_step settle_probe
  probe_step-Keeps = bind-Keeps (gets-Keeps _) (λ due. if-Keeps _ (pure-Keeps _) (
      bind-Keeps (count-Keeps _) (λ u. bind-Keeps (calls-Keeps _) (λ health.
        bind-Keeps (probe_health-Keeps health) (λ proven.
          bind-Keeps (probe_difficulty-Keeps proven) (λ healthy.
            bind-Keeps (modify-Keeps _ (λ s. refl)) (λ v.
              bind-Keeps (gets-Keeps _)
                (λ state. bind-Keeps (emit-Keeps _) (λ w. pure-Keeps _)))))))))

  -- The submission of a find.
  settle-journal :
      (was_closed : Bool) (res : TransportResult) (status : FindStatus) (s : Manager J N)
      → (settle ja tr fl cfg was_closed res status s).journal ≡ s.journal
  unfolding settle
  settle-journal was_closed res status s = ground arith

  learn_hint-Keeps : (o : Option ℕ) → Keeps P (learn_hint ja tr fl cfg o)
  unfolding learn_hint
  learn_hint-Keeps none = pure-Keeps tt
  learn_hint-Keeps (some hint) = learn_difficulty-Keeps hint

  look_up-Keeps : (rec : FindRecord) (c : Classification) → Keeps P (look_up ja tr fl cfg rec c)
  unfolding look_up
  look_up-Keeps rec c =
      if-Keeps _
        (bind-Keeps (calls-Keeps _) (λ conf. bind-Keeps (track_server_date-Keeps conf) (λ u.
          bind-Keeps (count-Keeps _) (λ v. bind-Keeps (gets-Keeps _) (λ again. pure-Keeps _)))))
        (pure-Keeps _)

  send-Keeps : (now_mono : ℕ) (rec : FindRecord) → Keeps P (send ja tr fl cfg now_mono rec)
  unfolding send
  send-Keeps now_mono rec = bind-Keeps (gets-Keeps _) (λ was_closed.
      bind-Keeps (calls-Keeps _) (λ res. bind-Keeps (track_server_date-Keeps res) (λ u.
        bind-Keeps (pure-Keeps _) (λ c. bind-Keeps (learn_hint-Keeps _) (λ v.
          bind-Keeps (look_up-Keeps rec c) (λ judged. bind-Keeps (gets-Keeps _) (λ backoff.
            bind-Keeps (gets-Keeps _) (λ at.
              bind-Keeps (asks-Keeps _ (λ j p. g.by_attempt j _ _ _ _ _ _ p)) (λ w.
                bind-Keeps (modify-Keeps _ (settle-journal was_closed res _)) (λ x.
                  bind-Keeps (gets-Keeps _) (λ state. bind-Keeps (emit-Keeps _) (λ y.
                    bind-Keeps (modify-Keeps _ (λ s. refl)) (λ z.
                      bind-Keeps (count-Keeps _)
                        (λ a. bind-Keeps (emit-Keeps _) (λ b. pure-Keeps _)))))))))))))))

  admit_and_send-Keeps :
      (now_mono : ℕ) (o : Option FindRecord) → Keeps P (admit_and_send ja tr fl cfg now_mono o)
  unfolding admit_and_send
  admit_and_send-Keeps now_mono none = pure-Keeps _
  admit_and_send-Keeps now_mono (some rec) = bind-Keeps (gets-Keeps _) (λ admitted.
      bind-Keeps (modify-Keeps _ (λ s. refl))
        (λ u. if-Keeps _ (send-Keeps now_mono rec) (pure-Keeps _)))

  fetch_xuni-Keeps : (b : Bool) (now : Text) → Keeps P (fetch_xuni ja tr fl cfg b now)
  unfolding fetch_xuni
  fetch_xuni-Keeps false now = pure-Keeps _
  fetch_xuni-Keeps true now = asks-Keeps _ (λ j p. g.by_fetch j xuni now cfg.fetch_limit p)

  submit_step-Keeps : Keeps P (submit_step ja tr fl cfg)
  unfolding submit_step note_window fetch_and_send
  submit_step-Keeps = bind-Keeps (gets-Keeps _) (λ now_mono. bind-Keeps (gets-Keeps _) (λ early.
      bind-Keeps (gets-Keeps _) (λ window. if-Keeps _ (pure-Keeps _) (
        bind-Keeps
          (bind-Keeps (gets-Keeps _) (λ was_open.
            bind-Keeps
              (if-Keeps _
                (bind-Keeps (asks-Keeps _ (λ j p. g.by_window j _ p)) (λ n. pure-Keeps tt))
                (pure-Keeps tt))
              (λ u. modify-Keeps _ (λ s. refl))))
          (λ v. bind-Keeps (gets-Keeps _) (λ quiesced. if-Keeps _ (pure-Keeps _) (
            bind-Keeps (gets-Keeps _) (λ now_iso.
              bind-Keeps (asks-Keeps _ (λ j p. g.by_fetch j xen11 now_iso cfg.fetch_limit p))
                (λ xen11s. bind-Keeps (fetch_xuni-Keeps _ now_iso) (λ xunis.
                  bind-Keeps (modify-Keeps _ (λ s. refl)) (λ w.
                    bind-Keeps (gets-Keeps _) (λ selected.
                      if-Keeps _ (pure-Keeps _) (admit_and_send-Keeps now_mono selected)))))))))))))

  -- The repeated confirmations and the step as a whole.
  confirm_one-Keeps : (rec : FindRecord) → Keeps P (confirm_one ja tr fl cfg rec)
  unfolding confirm_one
  confirm_one-Keeps rec = bind-Keeps (calls-Keeps _) (λ conf.
      bind-Keeps (track_server_date-Keeps conf) (λ u. bind-Keeps (count-Keeps _) (λ v.
        bind-Keeps (gets-Keeps _) (λ again. bind-Keeps (gets-Keeps _) (λ at.
          bind-Keeps (asks-Keeps _ (λ j p. g.by_attempt j _ _ _ _ _ _ p)) (λ w.
            bind-Keeps (count-Keeps _) (λ x. bind-Keeps (emit-Keeps _) (λ y. pure-Keeps _))))))))

  confirm_batch-Keeps : (recs : List FindRecord) → Keeps P (confirm_batch ja tr fl cfg recs)
  unfolding confirm_batch
  confirm_batch-Keeps [] = pure-Keeps _
  confirm_batch-Keeps (rec ∷ rest) =
      bind-Keeps (confirm_one-Keeps rec)
        (λ reached. if-Keeps reached (confirm_batch-Keeps rest) (pure-Keeps _))

  confirm_all-Keeps : (recs : List FindRecord) → Keeps P (confirm_all ja tr fl cfg recs)
  unfolding confirm_all
  confirm_all-Keeps [] = pure-Keeps _
  confirm_all-Keeps (rec ∷ rest) = confirm_batch-Keeps (rec ∷ rest)

  run_step-Keeps : Keeps P (run_step ja tr fl cfg)
  unfolding run_step drain_step confirm_step
  run_step-Keeps = bind-Keeps update_margin-Keeps (λ u. bind-Keeps (gets-Keeps _) (λ open_now.
      if-Keeps _ probe_step-Keeps (
        bind-Keeps submit_step-Keeps (λ sent.
          bind-Keeps
            (bind-Keeps (gets-Keeps _) (λ open_then. if-Keeps _ (pure-Keeps _) (
              bind-Keeps (gets-Keeps _) (λ now.
                bind-Keeps (asks-Keeps _ (λ j p. g.by_awaiting j now cfg.confirm_fetch_limit p))
                  (λ batch. confirm_all-Keeps batch)))))
            (λ confirmed_result. pure-Keeps _)))))

  finish-keeps :
      (q : Manager J N × JournalResult StepResult) → P q.0.journal → P (finish q).0.journal
  unfolding handle_fatal
  finish-keeps (s, ok r) p = p
  finish-keeps (s, err e) p = elim (Bool-cases s.fatal) [ inl h ↦ rw h p | inr h ↦ rw h p ]

  -- Whatever the network answers, a step of the loop keeps every property of the journal that the
  -- four asks of its interface keep, the steps that fail included.
  pub run_once-keeps : (s : Manager J N) → P s.journal → P (run_once ja tr fl cfg s).0.journal
  unfolding run_once
  run_once-keeps s p = either s.fatal
    where
      either :
          (b : Bool) → P (if b then (s, (idle, [])) else finish (run_step ja tr fl cfg s)).0.journal
      either true = p
      either false = finish-keeps (run_step ja tr fl cfg s) (run_step-Keeps.keeps s p)
