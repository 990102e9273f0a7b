-- ===== src/Examples/LoopRuns.antt =====
-- Steps of the drain loop over the journal of this library.
use tree_miner_amd.Prelude.{
  ℕ,
  ◌+◌,
  ◌≤◌,
  ◌≡◌,
  refl,
  true,
  false,
  none,
  max,
  [],
  ◌∷◌,
  length,
  arith,
  Text.{Text, codes},
  Int.{pos},
  Floats.{zero_f64, one_f64},
}
use tree_miner_amd.Examples.{counting, found}
use tree_miner_amd.Journal.Table.{count_where}
use tree_miner_amd.Core.Types.{xen11, FindKind, FindStatus, acked, Classification}
use tree_miner_amd.Journal.Finds.{empty, run}
use tree_miner_amd.Journal.Finds.Shape.{run-WellFormed}
use tree_miner_amd.Journal.Table.{ok}
use tree_miner_amd.Journal.Counts.{Counts, counts}
use tree_miner_amd.Journal.Counts.Total.{counter, queued, is_of, is_owed, sum_of, counts_complete}
use tree_miner_amd.Journal.Bridge.{Store, bridge}
use tree_miner_amd.Journal.Bridge.Loop.{steps, steps_keep_finds}
use tree_miner_amd.Journal.Finds.Shape.{WellFormed}
use tree_miner_amd.Journal.Finds.Capture.{captures}
use tree_miner_amd.Examples.JournalRuns.{story}
use tree_miner_amd.Submit.Breaker.{CircuitBreaker, open_state}
use tree_miner_amd.Submit.Breaker
use tree_miner_amd.Submit.Drain.{DrainScheduler}
use tree_miner_amd.Submit.Drain
use tree_miner_amd.Submit.Margin.{auto}
use tree_miner_amd.Submit.Manager.State.{
  TransportResult, Transport, Config, default_config, Metrics, Manager, idle, quiesce_max_ms, err,
  ◌>>=◌,
}
use tree_miner_amd.Submit.Manager.Confirm.{judge, resolve, retried}
use tree_miner_amd.Submit.Manager.Confirm.Proof.{IsProof, acked_iff_IsProof}
use tree_miner_amd.Submit.Manager.Observe.Quiesce.{observed, observed-until}
use tree_miner_amd.Submit.Manager.Step.{update_margin, evaluate_margin, backlog, outage_clock}
use tree_miner_amd.Submit.Manager.Loop.{run_step, run_once}
use tree_miner_amd.Submit.Manager.Loop.Outage.{run_step-open, run_once-fatal}

abbrev answer : Text → TransportResult
answer body = record {
  transport_ok = true;
  http_status = 200;
  body = body;
  retry_after = none;
  date_header = none;
  error = codes "";
}

-- A network whose state is the time.
abbrev host : Transport ℕ
host = record {
  submit = λ n p. (n + 10, answer (codes "saved"));
  confirm = λ n key. (n + 10, answer (codes "{}"));
  difficulty = λ n. (n + 10, answer (codes "{}"));
  health_probe = λ n. (n + 10, none);
  mono = λ n. n;
  wall = λ n. pos n;
  jitter = λ n. zero_f64;
}

abbrev no_metrics : Metrics
no_metrics = record {
  submitted = 0;
  resubmitted = 0;
  acked = 0;
  accepted_unconfirmed = 0;
  reconciled_via_get_block = 0;
  confirmation_retries = 0;
  lying_200_detected = 0;
  parked_difficulty = 0;
  parked_xuni = 0;
  quarantined = 0;
  permanently_invalid = 0;
  transport_failures = 0;
  probes = 0;
  margin_changes = 0;
  difficulty_quiesces = 0;
  confirm_body_rejected = 0;
  thread_loop_exceptions = 0;
}

abbrev down_breaker : CircuitBreaker
down_breaker = record {
  cfg = Breaker.default_config;
  state = open_state;
  consecutive_failures = 3;
  probe_interval_ms = 5000;
  next_probe_at_ms = 5010;
  admission_available = false;
  xuni_pressure = false;
}

abbrev start : Manager Store ℕ
start = record {
  journal = record { db = empty; answers = [] };
  net = 100;
  breaker = down_breaker;
  scheduler = record { cfg = Drain.default_config; rate_per_s = one_f64 };
  next_submit_allowed_ms = 0;
  last_window_open = false;
  last_margin_eval_ms = 0;
  margin_eval_started = false;
  last_difficulty = none;
  trend = none;
  server_offset_ms = none;
  metrics = no_metrics;
  margin_kib = 0;
  outage_started_ms = 0;
  last_outage_span_ms = 0;
  quiesce_until_ms = 0;
  fatal = false;
  running = true;
  events = [];
}

abbrev unsure : Classification
unsure = record {
  next_status = FindStatus.accepted_unconfirmed;
  server_difficulty_hint = none;
  needs_lookup_confirmation = true;
  reason = codes "http 200";
}

acked_iff_IsProof_example :
    ((resolve (judge (found 1 xen11 9) (answer (codes "{}"))) unsure).next_status ≡ acked
      → IsProof (found 1 xen11 9) (answer (codes "{}")))
    × ((retried (judge (found 1 xen11 9) (answer (codes "{}")))).next_status ≡ acked
        → IsProof (found 1 xen11 9) (answer (codes "{}")))
    × (IsProof (found 1 xen11 9) (answer (codes "{}"))
        → ((resolve (judge (found 1 xen11 9) (answer (codes "{}"))) unsure).next_status ≡ acked)
          × ((retried (judge (found 1 xen11 9) (answer (codes "{}")))).next_status ≡ acked))
acked_iff_IsProof_example =
    acked_iff_IsProof (found 1 xen11 9) (answer (codes "{}")) unsure (λ e. cc)

observed-until_example :
    (0 ≤ (observed host default_config bridge ((100, 70) ∷ (200, 90) ∷ []) start).quiesce_until_ms)
    × ((observed host default_config bridge ((100, 70) ∷ (200, 90) ∷ []) start).quiesce_until_ms
        ≤ max 0 (200 + quiesce_max_ms))
observed-until_example =
    observed-until host default_config bridge ((100, 70) ∷ (200, 90) ∷ []) start 200
      (omega arith, (omega arith, tt))

run_step-open_example :
    run_step bridge
      (record host { submit = λ n p. (0, answer []); confirm = λ n key. (0, answer []) })
      counting
      default_config
      start
    ≡ run_step bridge host counting default_config start
run_step-open_example =
    run_step-open bridge host counting default_config (λ n p. (0, answer []))
      (λ n key. (0, answer [])) start refl

counts_complete_example :
    (c : Counts) × (counts true (run empty story) ≡ ok c)
    × ((st : FindStatus) → counter st c ≡ count_where (is_of st) (run empty story).finds)
    × ((q : FindKind) → queued q c ≡ count_where (is_owed q) (run empty story).finds)
    × (c.parked ≡ c.parked_difficulty + c.parked_xuni)
    × (sum_of c ≡ length (run empty story).finds)
counts_complete_example = counts_complete (run empty story) (run-WellFormed story)

-- A journal that cannot be read, with a configuration that reads it for the margin.
abbrev broken : Manager Store ℕ
broken = record start { journal = record { db = empty; answers = false ∷ [] } }

abbrev careful : Config
careful = record default_config {
  margin = record { mode = auto; margin_kib = 1000; max_kib = 5000; adjust_period_ms = 300000 };
}

fails : (run_step bridge host counting careful broken).1 ≡ err (codes "journal: query counts")
unfolding run_step update_margin evaluate_margin backlog outage_clock ◌>>=◌ counts
fails = refl

run_once-fatal_example :
    let (halted, r) = run_once bridge host counting careful broken in
    (halted.fatal ≡ true)
    × (r ≡ (idle, []))
    × (run_once bridge host counting careful (record halted { net = 9999 })
        ≡ (record halted { net = 9999 }, (idle, [])))
run_once-fatal_example =
    run_once-fatal bridge host counting careful broken (codes "journal: query counts") 9999 refl
      fails

-- A journal with finds, and a breaker that lets them through.
abbrev stocked : Manager Store ℕ
stocked = record start {
  journal = record { db = run empty story; answers = true ∷ false ∷ [] };
  breaker = Breaker.new Breaker.default_config;
}

steps_keep_finds_example :
    WellFormed (steps host counting default_config 4 stocked).journal.db
    × (captures (steps host counting default_config 4 stocked).journal.db
        ≡ captures (run empty story))
steps_keep_finds_example =
    steps_keep_finds host counting default_config 4 stocked (run-WellFormed story)
