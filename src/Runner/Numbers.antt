-- ===== src/Runner/Numbers.antt =====
-- campaign/campaign.go: what the server's own metrics say over the window, and the headline of a cell.
use octo_performance.Prelude.{
  String, Bool, true, false, not, ◌&&◌, ◌||◌, Option, none, some, List, [], ◌∷◌, inl, inr,
  if◌then◌else◌,
}
use octo_performance.Prelude.Int.{ℤ, pos}
use octo_performance.Prelude.Text.{str_eq, plain}
use octo_performance.Prelude.Float.{Float, ◌-F◌, ◌*F◌, ◌/F◌, ◌<F◌, zero_float, of_nat, seconds}
use octo_performance.Prelude.Maps.{lookup_or}
use octo_performance.Stats.Steady.{Window, SteadyConfig, window_duration}
use octo_performance.Agent.{Collected}
use octo_performance.Loadgen.Pool.{growth}
use octo_performance.Loadgen.Summary.{achieved_rps}
use octo_performance.Loadgen.K6.{Run, run_observed_max_vus}
use octo_performance.Promx.{Exposition}
use octo_performance.Promx.Window.{
  Quantile, Histogram, counter_delta_by_label, histogram_window, mean, quantile, unknown,
}
use octo_performance.Collect.{Scrapes, Bracket, span, window, present}
use octo_performance.Rollup.{Headline}
use octo_performance.Runner.Windowing.{ServerNumbers, Draft, select_window, window_subject}

-- `flowNames`, on the names of the flows that the decoder found, if it could read the config.
unfoldable pub flow_names : Option (List String) → List String
flow_names none = []
flow_names (some []) = []
flow_names (some (n ∷ ns)) =
    let rest = flow_names (some ns) in if str_eq n "" then rest else n ∷ rest

module _ {F : Type 0} ⦃fl : Float F⦄ (parse_float : String → Option F) where
  abbrev with_mean : Option F → ServerNumbers F → ServerNumbers F
  with_mean none s = s
  with_mean (some m) s = record s { flow_mean_seconds = m; has_flow_mean = true }

  -- The first flow's histogram, where the scrapes have one.
  unfoldable pub with_flow : Option (Histogram F) → ServerNumbers F → ServerNumbers F
  with_flow none s = s
  with_flow (some h) s = record (with_mean (mean h) s) {
    flow_p95 = quantile parse_float h (fl.decimal 95 2);
    flow_p99 = quantile parse_float h (fl.decimal 99 2);
  }

  abbrev no_quantile : Quantile F
  no_quantile = record { seconds = none; bound = unknown; edge = none }

  -- The numbers between two scrapes.
  unfoldable pub server_between :
      List String → Exposition F × Exposition F × Bracket → ServerNumbers F
  unfolding with_flow
  server_between flows (start, end, bracket) =
      let by_outcome = counter_delta_by_label start end "octo_flow_messages_total" "outcome" in
      let completed = lookup_or zero_float "completed" by_outcome in
      let span_seconds = seconds (span bracket) in
      let bare : ServerNumbers F = record {
        present = true;
        bracket = some bracket;
        flows = flows;
        messages_completed = completed;
        messages_failed = lookup_or zero_float "failed" by_outcome;
        messages_dropped = lookup_or zero_float "dropped" by_outcome;
        flow_mean_seconds = zero_float;
        has_flow_mean = false;
        flow_p95 = no_quantile;
        flow_p99 = no_quantile;
        throughput_rps =
            if zero_float <F span_seconds then completed /F span_seconds else zero_float;
      } in
      elim flows [
        | [] ↦ bare
        | flow ∷ rest ↦
            with_flow
              (histogram_window start end "octo_flow_duration_seconds"
                (("flow", flow) ∷ ("outcome", "completed") ∷ []))
              bare
      ]

  unfoldable pub window_server :
      (String → List String × Option String) → Draft F → Scrapes → List String → Draft F
  unfolding server_between
  window_server lines_of out scrapes flows =
      if not (present scrapes) || not out.window_ok
      then out
      else elim (window parse_float lines_of scrapes.samples out.window.from out.window.to) [
        | inl e ↦ out
        | inr pair ↦ record out { server = server_between flows pair }
      ]

module _ {F : Type 0} ⦃fl : Float F⦄ where
  abbrev pool_growth_of : ℤ → ℤ → F
  pool_growth_of pre observed = growth (record {
    pre_allocated_vus = pre;
    max_vus = pos 0;
    observed_max_vus = observed;
    cap = pos 0;
  })

  -- The client's part of the headline, as the load generator reported it.
  unfoldable pub client_numbers : Run F → Headline F → Headline F
  client_numbers run h =
      let s = run.summary in
      record h {
        offered_rate = run.offered_rate;
        achieved_rps = achieved_rps s;
        achieved_ratio =
            if zero_float <F run.offered_rate
            then achieved_rps s /F run.offered_rate
            else h.achieved_ratio;
        client_mean_ms = s.duration.avg;
        client_p50_ms = s.duration.med;
        client_p95_ms = s.duration.p95;
        client_p99_ms = s.duration.p99;
        client_waiting_p95_ms = s.waiting.p95;
        requests = s.requests.count;
        failed = if s.failed.present then s.failed.rate *F s.requests.count else s.failed.fails;
        dropped = s.dropped.count;
        pre_allocated_vus = run.pool.pre_allocated_vus;
        observed_max_vus = run_observed_max_vus run;
        pool_growth = pool_growth_of run.pool.pre_allocated_vus (run_observed_max_vus run);
      }

  unfoldable pub server_mean_numbers : ServerNumbers F → Headline F → Headline F
  server_mean_numbers s h =
      let ms = s.flow_mean_seconds *F of_nat 1000 in
      if s.has_flow_mean
      then record h {
        server_mean_ms = ms;
        has_server_mean = true;
        client_server_gap = h.client_p95_ms -F ms;
      }
      else h

  -- The cost of a request: the subject's CPU over the window by the requests of the window.
  unfoldable pub cost_numbers : Bool → ℤ → Headline F → Headline F
  cost_numbers window_ok w h =
      if zero_float <F h.requests && (zero_float <F h.subject_cpu_pct && window_ok)
      then (let windowed = h.achieved_rps *F seconds w in
          if zero_float <F windowed
          then record h {
            subject_cpu_ms_per_req =
                h.subject_cpu_pct /F of_nat 100 *F seconds w *F of_nat 1000 /F windowed;
          }
          else h)
      else h

  abbrev pub lifetime_numbers : ℤ → Option F → Headline F → Headline F
  lifetime_numbers cold none h = record h { cold_start_ms = fl.of_int cold /F of_nat 1_000_000 }
  lifetime_numbers cold (some cpu) h = record h {
    cold_start_ms = fl.of_int cold /F of_nat 1_000_000;
    lifetime_cpu_secs = cpu;
  }

  unfoldable pub fill_headline : Draft F → Run F → Draft F
  unfolding client_numbers server_mean_numbers cost_numbers
  fill_headline out run = record out {
    headline = lifetime_numbers out.cold_start out.rusage (
        cost_numbers out.window_ok (window_duration out.window)
          (server_mean_numbers out.server (client_numbers run out.headline)));
  }

module _ {F : Type 0} ⦃fl : Float F⦄ where
  abbrev no_quantile_at_all : Quantile F
  no_quantile_at_all = record { seconds = none; bound = unknown; edge = none }

  abbrev no_headline : Headline F
  no_headline = record {
    offered_rate = zero_float;
    achieved_rps = zero_float;
    achieved_ratio = zero_float;
    client_mean_ms = zero_float;
    client_p50_ms = zero_float;
    client_p95_ms = zero_float;
    client_p99_ms = zero_float;
    client_waiting_p95_ms = zero_float;
    server_mean_ms = zero_float;
    has_server_mean = false;
    client_server_gap = zero_float;
    requests = zero_float;
    failed = zero_float;
    dropped = zero_float;
    pre_allocated_vus = pos 0;
    observed_max_vus = pos 0;
    pool_growth = zero_float;
    subject_cpu_pct = zero_float;
    subject_cpu_ms_per_req = zero_float;
    subject_rss_peak_mb = zero_float;
    subject_rss_drift_mb = zero_float;
    runner_cpu_pct = zero_float;
    has_runner_cpu = false;
    cold_start_ms = zero_float;
    lifetime_cpu_secs = zero_float;
  }

  abbrev no_bounds : Window F
  no_bounds = record {
    from = pos 0;
    to = pos 0;
    discarded = pos 0;
    cv = zero_float;
    slope_pct_per_min = zero_float;
    corroborated = false;
    corroboration_note = plain "";
  }

  abbrev no_server : ServerNumbers F
  no_server = record {
    present = false;
    bracket = none;
    flows = [];
    messages_completed = zero_float;
    messages_failed = zero_float;
    messages_dropped = zero_float;
    flow_mean_seconds = zero_float;
    has_flow_mean = false;
    flow_p95 = no_quantile_at_all;
    flow_p99 = no_quantile_at_all;
    throughput_rps = zero_float;
  }

  -- The cell when its measured pass is over and its samplers are stopped.
  abbrev pub new_draft : ℤ → Collected F → Collected F → ℤ → Option F → Draft F
  new_draft load_duration subject runner cold_start rusage = record {
    load_duration = load_duration;
    subject = subject;
    runner = runner;
    cold_start = cold_start;
    rusage = rusage;
    window = no_bounds;
    window_ok = false;
    window_note = plain "";
    naive_window = no_bounds;
    server = no_server;
    headline = no_headline;
  }

module _ {F : Type 0} ⦃fl : Float F⦄ (parse_float : String → Option F)
    (lines_of : String → List String × Option String) (parse_duration : String → Option ℤ) where
  -- Steps 12 and 13 of `RunCell`.
  unfoldable pub windowed : SteadyConfig F → Draft F → Run F → Scrapes → List String → Draft F
  unfolding window_server fill_headline
  windowed steady out run scrapes flows =
      fill_headline
        (window_server parse_float lines_of
          (window_subject (select_window parse_duration steady out run)) scrapes flows)
        run
