-- ===== src/Runner/Calibration.antt =====
-- campaign/calibrate.go: the ramp that k6 is asked to climb, and the rate that is chosen from what it
-- recorded. The subject's start and stop and the file of the result are left out.
use octo_performance.Prelude.{
  String, Bool, Option, none, some, List, [], ◌∷◌, ◌++◌, map, if◌then◌else◌,
}
use octo_performance.Prelude.Int.{ℤ, pos, ◌+ℤ◌, ltb_ℤ}
use octo_performance.Prelude.Float.{Float, ◌*F◌, of_nat}
use octo_performance.Prelude.Text.{Message, int, float, sprintf, plain}
use octo_performance.Series.{Series}
use octo_performance.Series.Frames.{get}
use octo_performance.Spec
use octo_performance.Spec.{Scenario, Capacity, ramp_with_defaults, ramp_duration, verb}
use octo_performance.Stats.Ramp.{RampStage, ramp_stages, step_windows}
use octo_performance.Stats.Knee.{Knee, find_knee, chosen, default_knee}
use octo_performance.Loadgen.Pool.{size_pool}
use octo_performance.Loadgen.K6.{Request, Run, LoadStage, capacity, open_model}
use octo_performance.Runner.Requests.{Endpoints, url}

-- `Calibration`, without the identity of the artifact and the instant.
pub record Calibration (F : Type 0) : Type 0 where
  pub scenario : String
  pub arm : String
  pub declared : Capacity
  pub knee : Knee F
  pub fraction : F
  pub rate : ℤ
  pub note : List (Message F)

-- The rung that is discarded: a transition to the start rate and the warm-up at it.
abbrev pub warmup_stages : Capacity → List LoadStage
warmup_stages c =
    record { target = c.start_rate; duration = c.transition }
    ∷ record { target = c.start_rate; duration = c.warmup }
    ∷ []

abbrev pub stage_of : RampStage → LoadStage
stage_of s = record { target = s.target; duration = s.duration }

unfoldable pub ramp_of : Capacity → List ℤ × List RampStage
unfolding ramp_stages
ramp_of c = ramp_stages c.start_rate c.peak_rate c.steps c.dwell c.transition

module _ {F : Type 0} ⦃fl : Float F⦄ (itoa : ℤ → String) (to_upper : String → String) where
  unfoldable pub capacity_request : Endpoints → Scenario F → Spec.Load F → Bool → Request
  unfolding ramp_of
  capacity_request e sc l has_bytes =
      let c = ramp_with_defaults sc.capacity in
      record {
        phase = capacity;
        url = url itoa e sc;
        method = verb to_upper sc.request;
        body = sc.request.body;
        has_body_bytes = has_bytes;
        content_type = sc.request.content_type;
        model = open_model;
        rate = pos 0;
        vus = pos 0;
        duration = ramp_duration c;
        pool = size_pool F c.peak_rate l.expected_latency l.vu_cap;
        stages = warmup_stages c ++ map stage_of (ramp_of c).1;
        start_rate = c.start_rate;
      }

module _ {F : Type 0} ⦃fl : Float F⦄ where
  -- The zero value where the run has no series of the name.
  abbrev series_or_empty : Option (Series F) → Series F
  series_or_empty none = record { name = ""; unit = ""; points = [] }
  series_or_empty (some s) = s

  unfoldable pub knee_of : Capacity → Run F → Knee F
  unfolding ramp_of
  knee_of c run =
      find_knee
        (step_windows F (run.started +ℤ (c.transition +ℤ c.warmup)) (ramp_of c).0 c.dwell
          c.transition)
        (record {
          rps = series_or_empty (get run.series "k6.rps");
          dropped = series_or_empty (get run.series "k6.dropped");
          failed = series_or_empty (get run.series "k6.failed");
          latency = series_or_empty (get run.series "k6.latency.mean");
        })
        default_knee

  unfoldable pub rate_note : ℤ → F → Knee F → List (Message F)
  rate_note rate fraction knee =
      if ltb_ℤ (pos 0) rate
      then if knee.found
        then sprintf "%d req/s, %.0f%% of a measured knee at %.0f. "
            (int rate ∷ float (fraction *F of_nat 100) ∷ float knee.rate ∷ [])
          ∷ knee.note
          ∷ []
        else sprintf "%d req/s, %.0f%% of the highest rate the ramp held. "
            (int rate ∷ float (fraction *F of_nat 100) ∷ [])
          ∷ knee.note
          ∷ []
      else plain "the ramp established no rate. " ∷ knee.note ∷ []

  -- What is made of the ramp's run.
  unfoldable pub calibration_of : Scenario F → String → Spec.Load F → Run F → Calibration F
  unfolding knee_of rate_note
  calibration_of sc arm l run =
      let c = ramp_with_defaults sc.capacity in
      let knee = knee_of c run in
      let rate = chosen knee l.calibrate_fraction in
      record {
        scenario = sc.id;
        arm = arm;
        declared = c;
        knee = knee;
        fraction = l.calibrate_fraction;
        rate = rate;
        note = rate_note rate l.calibrate_fraction knee;
      }
