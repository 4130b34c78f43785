-- ===== src/Runner/Gathered.antt =====
-- campaign/campaign.go: `evidence`, which hands a measured cell to the gates, and `Peer`, what the next
-- cells see of it.
use octo_performance.Prelude.{
  String, Bool, true, false, Option, none, some, List, [], if◌then◌else◌,
}
use octo_performance.Prelude.Int.{ℤ, pos}
use octo_performance.Prelude.Float.{Float, ◌*F◌, ◌<F◌, zero_float, of_nat}
use octo_performance.Series
use octo_performance.Series.{Series}
use octo_performance.Series.Frames.{get}
use octo_performance.Series.Moments.{max}
use octo_performance.Agent.{present, cpu, host_busy}
use octo_performance.Loadgen.Summary.{achieved_rps}
use octo_performance.Loadgen.K6.{Run, model_text, run_observed_max_vus}
use octo_performance.Gate.Cell.{Load, Runner, Subject, Server, Clock, Peer, Evidence}
use octo_performance.Rollup.{Headline}
use octo_performance.Runner.Windowing.{Draft, ServerNumbers}

-- What is known of a cell besides its numbers: its place in the plan, the artifact and the process.
pub record CellFacts (F : Type 0) : Type 0 where
  pub cell_id : String
  pub scenario : String
  pub arm : String
  pub rep : ℤ
  pub ordinal : ℤ
  pub vu_cap : ℤ
  pub identity_version : String
  pub identity_intended : String
  pub ready_method : String
  pub ready_confirmed : Bool
  pub observability : Bool
  pub metrics : Bool
  pub clock : Clock F

module _ {F : Type 0} ⦃fl : Float F⦄ where
  abbrev empty_series : Series F
  empty_series = record { name = ""; unit = ""; points = [] }

  -- int64(x), which truncates towards zero
  abbrev whole : F → ℤ
  whole x = if x <F zero_float then fl.ceil x else fl.floor x

  unfoldable pub load_evidence : ℤ → Run F → Load F
  load_evidence vu_cap run =
      let s = run.summary in
      record {
        model = model_text run.model;
        offered_rate = run.offered_rate;
        achieved_rps = achieved_rps s;
        requests = whole s.requests.count;
        dropped_iterations = s.dropped.count;
        failed_rate = s.failed.rate;
        exit_code = run.exit_code;
        pre_allocated_vus = run.pool.pre_allocated_vus;
        max_vus = run.pool.max_vus;
        observed_max_vus = run_observed_max_vus run;
        vu_cap = vu_cap;
        rps = elim (get run.series "k6.rps") [ none ↦ empty_series | some rps ↦ rps ];
      }

  abbrev peak_of : Option F → F
  peak_of none = zero_float
  peak_of (some peak) = peak *F of_nat 100

  unfoldable pub runner_evidence : Draft F → Runner F
  runner_evidence out =
      let busy = (Series.rate (host_busy out.runner)).0 in
      if present out.runner
      then record {
        present = true;
        cores = out.runner.static.cores;
        cpu_pct_mean = out.headline.runner_cpu_pct;
        cpu_pct_peak = if Series.empty busy then zero_float else peak_of (max busy);
        cpu = if Series.empty busy then empty_series else busy;
      }
      else record {
        present = false;
        cores = pos 0;
        cpu_pct_mean = zero_float;
        cpu_pct_peak = zero_float;
        cpu = empty_series;
      }

  unfoldable pub subject_evidence : Draft F → Subject F
  subject_evidence out =
      let rate = (Series.rate (cpu out.subject)).0 in
      if present out.subject
      then record {
        present = true;
        cores = out.subject.static.cores;
        cpu_pct_mean = out.headline.subject_cpu_pct;
        cpu_pct_peak = zero_float;
        cpu = if Series.empty rate then empty_series else rate;
        rss_peak = out.headline.subject_rss_peak_mb;
        rss_drift = out.headline.subject_rss_drift_mb;
      }
      else record {
        present = false;
        cores = pos 0;
        cpu_pct_mean = zero_float;
        cpu_pct_peak = zero_float;
        cpu = empty_series;
        rss_peak = zero_float;
        rss_drift = zero_float;
      }

  unfoldable pub server_evidence : CellFacts F → ServerNumbers F → Server F
  server_evidence c s =
      if s.present
      then record {
        present = true;
        messages_completed = s.messages_completed;
        messages_failed = s.messages_failed;
        messages_dropped = s.messages_dropped;
        flow_mean_seconds = s.flow_mean_seconds;
        has_flow_mean = s.has_flow_mean;
        identity_version = c.identity_version;
        intended_version = c.identity_intended;
        ready_throughout = true;
      }
      else record {
        present = false;
        messages_completed = zero_float;
        messages_failed = zero_float;
        messages_dropped = zero_float;
        flow_mean_seconds = zero_float;
        has_flow_mean = false;
        identity_version = c.identity_version;
        intended_version = c.identity_intended;
        ready_throughout = false;
      }

  unfoldable pub evidence : CellFacts F → Draft F → Run F → List Peer → Evidence F
  unfolding load_evidence runner_evidence subject_evidence server_evidence
  evidence c out measured peers = record {
    cell_id = c.cell_id;
    scenario = c.scenario;
    arm = c.arm;
    rep = c.rep;
    ordinal = c.ordinal;
    load = load_evidence c.vu_cap measured;
    runner = runner_evidence out;
    subject = subject_evidence out;
    server = server_evidence c out.server;
    ready = record { method = c.ready_method; cold_start = out.headline.cold_start_ms };
    caps = record {
      admin_port_detected = c.observability;
      admin_port_answered = c.ready_confirmed;
      metrics_requested = c.metrics;
    };
    clock = c.clock;
    window = out.window;
    window_ok = out.window_ok;
    fingerprint_hash = "";
    peers = peers;
  }

module _ {F : Type 0} where
  -- `Peer`; the hash of the fingerprint is never set.
  unfoldable pub peer_of : CellFacts F → Headline F → Peer
  peer_of c h = record {
    cell_id = c.cell_id;
    scenario = c.scenario;
    arm = c.arm;
    observed_max_vus = h.observed_max_vus;
    pre_allocated_vus = h.pre_allocated_vus;
    fingerprint_hash = "";
    ready_method = c.ready_method;
  }
