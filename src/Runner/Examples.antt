-- ===== src/Runner/Examples.antt =====
-- A clock that is read twice, a cell without a window, cells of which some fail on the way, a ramp, and
-- an environment.
use octo_performance.Prelude.{
  ◌≡◌, refl, String, true, false, List, [], ◌∷◌, none, some, Option, arith, All, ◌⊎◌, inr, ◌||◌,
  if◌then◌else◌,
}
use octo_performance.Prelude.Int.{ℤ, pos, negsuc, ltb_ℤ, ◌≤ℤ◌, ◌*ℤ◌, ◌+ℤ◌, wrap64}
use octo_performance.Prelude.Text.{str_eq, cut_at, is_space}
use octo_performance.Prelude.Float.{Milli, milli_float, milli, zero_float}
use octo_performance.Stats.Steady.{default_steady_config}
use octo_performance.Series.Frames.{new_frame}
use octo_performance.Agent.{Collected, Static, full, present}
use octo_performance.Collect.{Scrapes}
use octo_performance.Loadgen.Summary.{Counted, Rated, Gauged, Trend, Summary}
use octo_performance.Loadgen.Pool.{Pool}
use octo_performance.Prelude.Trim.{trim_space, trim_left, trim_right}
use octo_performance.Loadgen.K6.{Run, measured, open_model, environment}
use octo_performance.Gate.Cell.{Clock}
use octo_performance.Runner.Clock.{RoundTrip, answered, failed, parse_epoch, probe}
use octo_performance.Runner.Offsets.{IsWithin, stamps, longest, round_trip, probe-IsWithin}
use octo_performance.Runner.Windowing.{Draft}
use octo_performance.Runner.Numbers.{new_draft, windowed}
use octo_performance.Runner.Admitted.{is_refused, environment-validate_load}
use octo_performance.Spec.Validation.{validate_load}
use octo_performance.Gate.Settings.{Config}
use octo_performance.Gate.Generator.{runner_busy}
use octo_performance.Runner.Gathered.{CellFacts, evidence}
use octo_performance.Runner.Filled.{runner-unmeasured}
use octo_performance.Spec
use octo_performance.Spec.{Scenario, ramp_with_defaults}
use octo_performance.Prelude.Maps.{lookup}
use octo_performance.Runner.Requests.{Endpoints, load_request, merge_env, process_env}
use octo_performance.Runner.Calibration.{capacity_request}
use octo_performance.Runner.RampTime.{total, capacity_request-lasts}
use octo_performance.Runner.Environment.{or_else, last_entry, last_entry-process_env}
use octo_performance.Runner.Procedure.{World, no_cell, run_cell, run_steps, preparing, offering}
use octo_performance.Runner.Orderly.{
  Ends, idle, running, written, follow, returned, run_cell-Ends, run_cell-leaks, run_cell-written,
}

abbrev read : String → Option ℤ
read s = some (pos 1)

abbrev trips : List RoundTrip
trips = answered (pos 999_999_950) (pos 1_000_000_050) (pos 0) "1" ∷ failed ∷ []

probe-IsWithin_example :
    ((probe read 7 none trips ≡ none) → All (λ t. longest ≤ℤ round_trip t) (stamps read 7 trips))
    × ((best offset : ℤ)
        → probe read 7 none trips ≡ some (best, offset)
        → IsWithin (pos 0) best offset × All (λ t. best ≤ℤ round_trip t) (stamps read 7 trips))
unfolding parse_epoch trim_space trim_left trim_right cut_at is_space ◌*ℤ◌ ◌+ℤ◌
probe-IsWithin_example = probe-IsWithin read (pos 0) trips ((omega arith, omega arith), tt)

abbrev facts : Static
facts = record {
  hostname = "";
  cores = pos 4;
  page_size = pos 0;
  clock_tick = pos 0;
  boot_time = pos 0;
  cpu_model = "";
  kernel = "";
}

abbrev unsampled : Collected Milli
unsampled = record {
  source = "";
  fidelity = full;
  static = facts;
  interval = "";
  pid = pos 0;
  samples = [];
  errors = [];
  missed = pos 0;
}

abbrev sampled : Collected Milli
sampled = record {
  source = "";
  fidelity = full;
  static = facts;
  interval = "";
  pid = pos 0;
  samples =
      (record {
        t = pos 0;
        user_seconds = pos 0;
        sys_seconds = pos 0;
        rss_bytes = pos 0;
        threads = pos 0;
        open_fds = pos 0;
        voluntary_ctx_switches = pos 0;
        involuntary_ctx_switches = pos 0;
        host_busy_seconds = pos 9000;
        host_idle_seconds = pos 0;
        load1 = pos 0;
      })
      ∷ [];
  errors = [];
  missed = pos 0;
}

abbrev counted : Counted Milli
counted = record { present = false; count = pos 0; rate = pos 0 }

abbrev rated : Rated Milli
rated = record { present = false; rate = pos 0; passes = pos 0; fails = pos 0 }

abbrev gauged : Gauged Milli
gauged = record { present = false; value = pos 0; min = pos 0; max = pos 0 }

abbrev timed : Trend Milli
timed = record {
  present = false;
  avg = pos 0;
  min = pos 0;
  med = pos 0;
  p90 = pos 0;
  p95 = pos 0;
  p99 = pos 0;
  max = pos 0;
}

abbrev summary : Summary Milli
summary = record {
  test_run_duration = pos 0;
  requests = counted;
  iterations = counted;
  dropped = counted;
  failed = rated;
  vus_max = gauged;
  vus = gauged;
  duration = timed;
  waiting = timed;
  blocked = timed;
  metrics = [];
}

abbrev pool : Pool
pool = record { pre_allocated_vus = pos 0; max_vus = pos 0; observed_max_vus = pos 0; cap = pos 0 }

abbrev run : Run Milli
run = record {
  phase = measured;
  model = open_model;
  offered_rate = pos 0;
  pool = pool;
  started = pos 0;
  ended = pos 0;
  elapsed = pos 0;
  exit_code = pos 0;
  summary = summary;
  series = new_frame [];
  raw_rows = 0;
  unparsed_rows = 0;
}

abbrev clock : Clock Milli
clock = record { measured = false; offset_ms = pos 0; uncertainty_ms = pos 0; drift_ms = pos 0 }

abbrev cell : CellFacts Milli
cell = record {
  cell_id = "";
  scenario = "";
  arm = "";
  rep = pos 0;
  ordinal = pos 0;
  vu_cap = pos 0;
  identity_version = "";
  identity_intended = "";
  ready_method = "";
  ready_confirmed = false;
  observability = false;
  metrics = false;
  clock = clock;
}

abbrev no_scrapes : Scrapes
no_scrapes = record { interval = pos 0; samples = []; errors = [] }

abbrev no_float : String → Option Milli
no_float s = none

abbrev no_duration : String → Option ℤ
no_duration s = none

abbrev one_line : String → List String × Option String
one_line s = (s ∷ [], none)

-- The runner was sampled, the subject was not, and the pass has no throughput.
abbrev finished : Draft Milli
finished =
    windowed no_float one_line no_duration default_steady_config
      (new_draft (pos 0) unsampled sampled (pos 0) none) run no_scrapes []

abbrev lenient : Config Milli
lenient = record {
  runner_cpu_ceiling_pct = pos 80_000;
  pool_growth_suspect = pos 0;
  pool_growth_invalid = pos 0;
  peer_pool_ratio_invalid = pos 0;
  max_failed_rate = pos 0;
  max_dropped_iterations = pos 0;
  achieved_vs_offered_min = pos 0;
  max_clock_drift_ms = pos 0;
  observe_only = false;
}

runner-unmeasured_example :
    ((evidence cell finished run []).runner.present ≡ true)
    × ((evidence cell finished run []).runner.cpu_pct_mean ≡ zero_float)
    × (runner_busy lenient (evidence cell finished run []) ≡ [])
unfolding present milli
runner-unmeasured_example =
    runner-unmeasured no_float one_line no_duration (pos 0) unsampled sampled (pos 0) none
      default_steady_config run no_scrapes [] cell [] lenient refl refl refl

-- The subject stops answering in the measured pass.
abbrev broken : World
broken = record {
  dir_made = true;
  payload_built = true;
  config_rendered = true;
  binary_resolved = true;
  artifact_probed = true;
  help_written = true;
  ports_free = true;
  log_opened = true;
  subject_started = true;
  argv_written = true;
  subject_ready = true;
  identified = false;
  samples_subject = true;
  samples_runner = true;
  scrapes = true;
  warms = true;
  warmed = true;
  measured = false;
  subject_stopped = true;
  artifacts_written = true;
  cools = true;
  cooled = true;
}

run_cell-Ends_example : Ends broken idle (run_cell broken)
run_cell-Ends_example = run_cell-Ends broken

-- Everything succeeds.
abbrev smooth : World
smooth = record broken { artifact_probed = true; identified = true; measured = true }

-- The file for the subject's arguments cannot be written.
abbrev unrecorded : World
unrecorded = record smooth { argv_written = false }

run_cell-leaks_example :
    (follow idle (run_cell unrecorded).0 ≡ some running) × ((run_cell unrecorded).1 ≡ no_cell)
unfolding run_steps preparing
run_cell-leaks_example = run_cell-leaks unrecorded refl refl

run_cell-written_example :
    (follow idle (run_cell smooth).0 ≡ some written) × ((run_cell smooth).1 ≡ returned smooth)
unfolding run_steps preparing offering
run_cell-written_example = run_cell-written smooth refl refl refl refl refl

abbrev itoa : ℤ → String
itoa n = "1"

abbrev upper : String → String
upper s = s

abbrev endpoints : Endpoints
endpoints = record { host = ""; workload_port = pos 8080; admin_port = pos 9090; deps_host = "" }

abbrev load : Spec.Load Milli
load = record {
  test = "load";
  model = "open";
  rate = pos 0;
  calibrate = true;
  calibrate_fraction = pos 500;
  vus = pos 0;
  duration = pos 0;
  warmup = pos 0;
  expected_latency = pos 5_000_000;
  vu_cap = pos 0;
}

-- A ramp of which only the peak is declared.
abbrev scenario : Scenario Milli
scenario = record {
  id = "001";
  dir = "";
  route = "/ping";
  ready_route = "";
  request = record {
    method = "";
    content_type = "";
    body = "";
    payload = record { kind = ""; lines = pos 0; bytes = pos 0; records = pos 0 };
  };
  deps = record { setup = ""; teardown = ""; env = []; note = "" };
  integration = "";
  tunables = [];
  load = load;
  capacity = record {
    start_rate = pos 0;
    peak_rate = pos 2000;
    steps = pos 0;
    dwell = pos 0;
    transition = pos 0;
    warmup = pos 0;
  };
  thresholds = record { p95 = pos 0; p99 = pos 0 };
  requires_cel = "";
  calibration = "";
}

capacity_request-lasts_example :
    total (capacity_request itoa upper endpoints scenario load false).stages
    ≡ (capacity_request itoa upper endpoints scenario load false).duration
unfolding capacity_request ramp_with_defaults milli wrap64
capacity_request-lasts_example =
    capacity_request-lasts itoa upper endpoints scenario load false (omega arith)

abbrev declared : List (String × String)
declared = ("DB", "db:5432") ∷ ("LEVEL", "info") ∷ []

abbrev named : List (String × String)
named = ("LEVEL", "debug") ∷ []

abbrev harness_env : List (String × String)
harness_env = ("PATH", "/bin") ∷ ("LEVEL", "warn") ∷ []

last_entry-process_env_example :
    last_entry "LEVEL" (process_env harness_env (merge_env declared named))
    ≡ or_else
        (lookup "LEVEL" named)
        (or_else (lookup "LEVEL" declared) (last_entry "LEVEL" harness_env))
last_entry-process_env_example =
    last_entry-process_env "LEVEL" harness_env declared named (refl, (refl, tt)) (refl, tt)

abbrev encode : List (ℤ × String) → String ⊎ String
encode stages = inr "[]"

-- Accepted with fewer than no virtual users.
abbrev negative : Spec.Load Milli
negative = record load { model = "closed"; calibrate = false; vus = negsuc 0; duration = pos 1 }

environment-validate_load_example :
    is_refused (
      environment itoa encode {F = Milli}
        (load_request itoa upper endpoints scenario negative false measured (pos 1))
        "s.json"
        "")
    ≡ (if str_eq negative.model "closed"
        then ltb_ℤ negative.vus (pos 0)
        else negative.calibrate || ltb_ℤ negative.rate (pos 0))
unfolding validate_load
environment-validate_load_example =
    environment-validate_load itoa encode upper endpoints scenario negative false measured (pos 1)
      "s.json" "" refl
