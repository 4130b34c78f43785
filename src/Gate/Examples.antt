-- ===== src/Gate/Examples.antt =====
-- Runs of the gates on one cell, and the theorems at it.
use octo_performance.Prelude.{◌≡◌, refl, true, false, not, ◌||◌, [], ◌∷◌, map, Perm, leb}
use octo_performance.Prelude.Int.{pos}
use octo_performance.Prelude.Text.{plain}
use octo_performance.Prelude.Sort.{IsDescending}
use octo_performance.Prelude.Float.{Milli, milli_float, milli}
use octo_performance.Series.{Series}
use octo_performance.Gate.Cell.{Evidence, Peer}
use octo_performance.Gate.Settings.{Config, with_defaults}
use octo_performance.Gate.Suite.{default_suite}
use octo_performance.Gate.{suspect, invalid, rank, Check, excluded, cap, evaluate}
use octo_performance.Gate.Verdict.{raw_findings, evaluate-observe_lem, evaluate-findings_lem}
use octo_performance.Gate.Checks.{
  measured_itself, lost_work, fell_short, wrong_subject, other_machine, clock_moved,
  excluded-default_lem,
}

abbrev nothing : Series Milli
nothing = record { name = ""; unit = ""; points = [] }

-- A sibling that needed three times the virtual users.
abbrev sibling : Peer
sibling = record {
  cell_id = "001/B/rep1";
  scenario = "001";
  arm = "B";
  observed_max_vus = pos 300;
  pre_allocated_vus = pos 100;
  fingerprint_hash = "";
  ready_method = "readyz";
}

abbrev cell : Evidence Milli
cell = record {
  cell_id = "001/A/rep1";
  scenario = "001";
  arm = "A";
  rep = pos 1;
  ordinal = pos 0;
  load = record {
    model = "open";
    offered_rate = pos 100_000;
    achieved_rps = pos 100_000;
    requests = pos 6000;
    dropped_iterations = pos 0;
    failed_rate = pos 0;
    exit_code = pos 0;
    pre_allocated_vus = pos 100;
    max_vus = pos 400;
    observed_max_vus = pos 100;
    vu_cap = pos 0;
    rps = nothing;
  };
  runner = record {
    present = true;
    cores = pos 4;
    cpu_pct_mean = pos 100_000;
    cpu_pct_peak = pos 200_000;
    cpu = nothing;
  };
  subject = record {
    present = false;
    cores = pos 0;
    cpu_pct_mean = pos 0;
    cpu_pct_peak = pos 0;
    cpu = nothing;
    rss_peak = pos 0;
    rss_drift = pos 0;
  };
  server = record {
    present = true;
    messages_completed = pos 6_000_000;
    messages_failed = pos 0;
    messages_dropped = pos 0;
    flow_mean_seconds = pos 1;
    has_flow_mean = true;
    identity_version = "v2";
    intended_version = "v2";
    ready_throughout = true;
  };
  ready = record { method = "readyz"; cold_start = pos 0 };
  caps = record {
    admin_port_detected = true;
    admin_port_answered = true;
    metrics_requested = true;
  };
  clock = record {
    measured = true;
    offset_ms = pos 0;
    uncertainty_ms = pos 1000;
    drift_ms = pos 3000;
  };
  window = record {
    from = pos 0;
    to = pos 30_000_000_000;
    discarded = pos 0;
    cv = pos 10;
    slope_pct_per_min = pos 0;
    corroborated = true;
    corroboration_note = plain "";
  };
  window_ok = true;
  fingerprint_hash = "";
  peers = sibling ∷ [];
}

abbrev zero_config : Config Milli
zero_config = record {
  runner_cpu_ceiling_pct = pos 0;
  pool_growth_suspect = pos 0;
  pool_growth_invalid = pos 0;
  peer_pool_ratio_invalid = pos 0;
  max_failed_rate = pos 0;
  max_dropped_iterations = pos 0;
  achieved_vs_offered_min = pos 0;
  max_clock_drift_ms = pos 0;
  observe_only = false;
}

excluded_run : excluded (evaluate (default_suite zero_config) cell false) ≡ true
unfolding excluded evaluate default_suite milli octo_performance.Gate.Generator.check_generator
    octo_performance.Gate.Generator.pool_growth with_defaults
    octo_performance.Gate.Generator.vu_ceiling octo_performance.Gate.Generator.runner_busy
    octo_performance.Gate.Generator.feedback_loop
    octo_performance.Gate.Generator.negative_correlation octo_performance.Gate.Generator.peer_pools
    octo_performance.Gate.Suite.check_errors octo_performance.Gate.Suite.check_rate_gap
    octo_performance.Gate.Suite.check_window octo_performance.Gate.Suite.check_identity
    octo_performance.Gate.Suite.check_fingerprint octo_performance.Gate.Suite.host_differs
    octo_performance.Gate.Suite.readiness_differs octo_performance.Gate.Suite.check_clock
excluded_run = refl

evaluate-observe_lem_example :
    (excluded (evaluate (default_suite zero_config) cell true) ≡ false)
    × (leb (rank suspect) (rank (evaluate (default_suite zero_config) cell true).level)
        ≡ leb (rank suspect) (rank (evaluate (default_suite zero_config) cell false).level))
evaluate-observe_lem_example = evaluate-observe_lem (default_suite zero_config) cell

evaluate-findings_lem_example :
    Perm
      (evaluate (default_suite zero_config) cell true).findings
      (map (cap true) (raw_findings (default_suite zero_config) cell))
    × IsDescending (λ f. rank f.level) (evaluate (default_suite zero_config) cell true).findings
evaluate-findings_lem_example = evaluate-findings_lem (default_suite zero_config) cell true

abbrev silent : Check Milli
silent = record { id = "silent"; check = λ e. [] }

excluded-default_lem_example :
    let cfg = with_defaults zero_config in
    excluded (evaluate (default_suite zero_config) cell false) ≡ (
      measured_itself cfg cell
      || (lost_work cfg cell
          || (fell_short cfg cell
              || (not cell.window_ok
                  || (wrong_subject cell || (other_machine cell || clock_moved cfg cell))))))
excluded-default_lem_example = excluded-default_lem zero_config cell
