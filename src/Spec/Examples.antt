-- ===== src/Spec/Examples.antt =====
-- The specification of a small campaign, and the theorems at it.
use octo_performance.Prelude.{
  ◌≡◌, String, true, false, not, ◌&&◌, [], ◌∷◌, is_empty, all, map, length, ltb, inr,
}
use octo_performance.Prelude.Int.{pos, ltb_ℤ, leb_ℤ}
use octo_performance.Prelude.Text.{str_eq, blank}
use octo_performance.Prelude.Float.{Milli, milli_float}
use octo_performance.Payload
use octo_performance.Payload.{Codec}
use octo_performance.Spec.{
  Arm, Load, Scenario, Campaign, Host, has_body, declared, ramp_with_defaults,
}
use octo_performance.Spec.Validation.{validate_campaign, scenario_errors}
use octo_performance.Spec.Merging.{zero_load}
use octo_performance.Spec.Coherence.{
  distinct, is_runnable, is_ordered, built, validate_campaign_lem, scenario_errors_lem,
}

-- A scenario's load, which asks for its rate to be measured.
abbrev pub measured : Load Milli
measured = record {
  test = "steady";
  model = "open";
  rate = pos 0;
  calibrate = true;
  calibrate_fraction = pos 500;
  vus = pos 0;
  duration = pos 60_000_000_000;
  warmup = pos 0;
  expected_latency = pos 0;
  vu_cap = pos 0;
}

-- A campaign's load, which names a rate.
abbrev pub named : Load Milli
named = record zero_load { rate = pos 800; vu_cap = pos 64 }

abbrev pub arm : String → Arm
arm name = record {
  name = name;
  binary = record { version = "1.2.0"; path = ""; local = "" };
  config = record { mode = "baseline"; knobs = [] };
  env = [];
  flags = [];
}

abbrev host : Host
host = record { kind = "local"; addr = ""; user = ""; key_file = ""; work_dir = "" }

abbrev pub campaign : Campaign Milli
campaign = record {
  name = "release";
  question = "is it slower?";
  scenarios = "001" ∷ [];
  arms = arm "old" ∷ arm "new" ∷ [];
  reps = pos 3;
  order = "interleaved";
  order_reason = "";
  cooldown = pos 0;
  seed = pos 7;
  load = named;
  topology = record { runner = host; subject = host; deps = host };
  gates = record {
    runner_cpu_ceiling_pct = pos 0;
    pool_growth_suspect = pos 0;
    pool_growth_invalid = pos 0;
    peer_pool_ratio_invalid = pos 0;
    max_failed_rate = pos 0;
    max_dropped_iterations = pos 0;
    achieved_vs_offered_min = pos 0;
    max_clock_drift_ms = pos 0;
    observe_only = false;
  };
  notes = "";
}

abbrev pub scenario : Scenario Milli
scenario = record {
  id = "001";
  dir = "/scenarios/001";
  route = "/ping";
  ready_route = "";
  request = record {
    method = "";
    content_type = "";
    body = "";
    payload = record { kind = ""; lines = pos 0; bytes = pos 0; records = pos 0 };
  };
  deps = record { setup = ""; teardown = ""; env = []; note = "" };
  integration = "";
  tunables = record { name = "workers"; path = "" } ∷ [];
  load = measured;
  capacity = record {
    start_rate = pos 0;
    peak_rate = pos 2000;
    steps = pos 0;
    dwell = pos 0;
    transition = pos 0;
    warmup = pos 0;
  };
  thresholds = record { p95 = pos 0; p99 = pos 0 };
  requires_cel = "";
  calibration = "";
}

abbrev codec : Codec Milli
codec = record {
  marshal_order = λ o. inr "{}";
  marshal_record = λ r. inr "{}";
  print = λ m. m.format;
  format_float = λ x. "0";
  digest = λ s. "";
}

validate_campaign_lem_example : is_empty (validate_campaign campaign) ≡ (
    not (blank campaign.name)
    && (not (is_empty campaign.scenarios)
        && (not (ltb (length campaign.arms) 2)
            && (not (ltb_ℤ campaign.reps (pos 1))
                && ((all (λ a. not (blank a.name) && is_runnable a) campaign.arms
                      && distinct (map (λ a. a.name) campaign.arms))
                    && is_ordered campaign.order campaign.order_reason)))))
validate_campaign_lem_example = validate_campaign_lem campaign

scenario_errors_lem_example : is_empty (scenario_errors codec scenario) ≡ (
    not (blank scenario.route)
    && (not (has_body scenario.request && str_eq scenario.request.method "")
        && (not (
              not (str_eq scenario.request.body "") && not (Payload.empty scenario.request.payload))
            && (not (has_body scenario.request && str_eq scenario.request.content_type "")
                && (built (Payload.build codec scenario.request.payload)
                    && (not (scenario.load.calibrate && not (declared scenario.capacity))
                        && (not (
                              declared scenario.capacity
                              && leb_ℤ scenario.capacity.peak_rate
                                  (ramp_with_defaults scenario.capacity).start_rate)
                            && (all (λ t. not (blank t.name)) scenario.tunables
                                && distinct (map (λ t. t.name) scenario.tunables)))))))))
scenario_errors_lem_example = scenario_errors_lem codec scenario
