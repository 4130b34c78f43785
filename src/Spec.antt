-- ===== src/Spec.antt =====
-- spec/spec.go: what a campaign and a scenario declare. Durations are nanoseconds, Go maps lists of
-- pairs; `Model`, `Mode` and `Order` are strings, as in the source.
pub mod Validation
pub mod Merging
pub mod Coherence
pub mod Examples
use octo_performance.Prelude.{
  ℕ, String, Bool, true, false, not, ◌&&◌, ◌||◌, List, [], ◌∷◌, map, if◌then◌else◌,
}
use octo_performance.Prelude.Int.{ℤ, pos, ◌+ℤ◌, ◌*ℤ◌, quot, leb_ℤ, ltb_ℤ, eqb_ℤ, wrap64}
use octo_performance.Prelude.Text.{str_eq, append}
use octo_performance.Prelude.Float.{Float, ◌=F◌, zero_float, of_nat}
use octo_performance.Payload
use octo_performance.Payload.{Payload}

pub record BinaryRef : Type 0 where
  pub version : String
  pub path : String
  pub local : String

pub record ConfigArm : Type 0 where
  pub mode : String
  pub knobs : List (String × String)

pub record Arm : Type 0 where
  pub name : String
  pub binary : BinaryRef
  pub config : ConfigArm
  pub env : List (String × String)
  pub flags : List String

pub record Load (F : Type 0) : Type 0 where
  pub test : String
  pub model : String
  pub rate : ℤ
  pub calibrate : Bool
  pub calibrate_fraction : F
  pub vus : ℤ
  pub duration : ℤ
  pub warmup : ℤ
  pub expected_latency : ℤ
  pub vu_cap : ℤ

pub record Host : Type 0 where
  pub kind : String
  pub addr : String
  pub user : String
  pub key_file : String
  pub work_dir : String

pub record Topology : Type 0 where
  pub runner : Host
  pub subject : Host
  pub deps : Host

pub record Gates (F : Type 0) : Type 0 where
  pub runner_cpu_ceiling_pct : F
  pub pool_growth_suspect : F
  pub pool_growth_invalid : F
  pub peer_pool_ratio_invalid : F
  pub max_failed_rate : F
  pub max_dropped_iterations : F
  pub achieved_vs_offered_min : F
  pub max_clock_drift_ms : F
  pub observe_only : Bool

pub record Campaign (F : Type 0) : Type 0 where
  pub name : String
  pub question : String
  pub scenarios : List String
  pub arms : List Arm
  pub reps : ℤ
  pub order : String
  pub order_reason : String
  pub cooldown : ℤ
  pub seed : ℤ
  pub load : Load F
  pub topology : Topology
  pub gates : Gates F
  pub notes : String

pub record Capacity : Type 0 where
  pub start_rate : ℤ
  pub peak_rate : ℤ
  pub steps : ℤ
  pub dwell : ℤ
  pub transition : ℤ
  pub warmup : ℤ

pub record Request : Type 0 where
  pub method : String
  pub content_type : String
  pub body : String
  pub payload : Payload

pub record Deps : Type 0 where
  pub setup : String
  pub teardown : String
  pub env : List (String × String)
  pub note : String

pub record Selector : Type 0 where
  pub name : String
  pub path : String

pub record Thresholds : Type 0 where
  pub p95 : ℤ
  pub p99 : ℤ

pub record Scenario (F : Type 0) : Type 0 where
  pub id : String
  pub dir : String
  pub route : String
  pub ready_route : String
  pub request : Request
  pub deps : Deps
  pub integration : String
  pub tunables : List Selector
  pub load : Load F
  pub capacity : Capacity
  pub thresholds : Thresholds
  pub requires_cel : String
  pub calibration : String

unfoldable pub resolved : BinaryRef → Bool
resolved b = not (str_eq b.version "") || not (str_eq b.path "") || not (str_eq b.local "")

-- `BinaryRef.String`.
unfoldable pub binary_text : BinaryRef → String
binary_text b =
    if not (str_eq b.version "")
    then append "release " b.version
    else if not (str_eq b.path "")
    then b.path
    else if not (str_eq b.local "")
    then append "local " b.local
    else "unresolved"

unfoldable pub is_local : Host → Bool
is_local h = str_eq h.kind "" || str_eq h.kind "local"

unfoldable pub has_body : Request → Bool
unfolding Payload.empty
has_body r = not (str_eq r.body "") || not (Payload.empty r.payload)

-- strings.ToUpper is a parameter.
unfoldable pub verb : (String → String) → Request → String
unfolding has_body
verb to_upper r =
    if str_eq r.method "" then (if has_body r then "POST" else "GET") else to_upper r.method

unfoldable pub resolved_path : Selector → String
resolved_path s = if not (str_eq s.path "") then s.path else append "flows[*]." s.name

unfoldable pub tunable_names : {F : Type 0} → Scenario F → List String
tunable_names s = map (λ t. t.name) s.tunables

-- The methods of `Capacity`: `Declared`, `WithDefaults` and `Duration`.
unfoldable pub declared : Capacity → Bool
declared c = ltb_ℤ (pos 0) c.peak_rate

abbrev pub positive_or : ℤ → ℤ → ℤ
positive_or x d = if leb_ℤ x (pos 0) then d else x

unfoldable pub ramp_with_defaults : Capacity → Capacity
ramp_with_defaults c =
    let dwell = positive_or c.dwell (pos 15_000_000_000) in
    record c {
      start_rate = positive_or c.start_rate (quot c.peak_rate (pos 20));
      steps = positive_or c.steps (pos 10);
      dwell = dwell;
      transition = positive_or c.transition (pos 1_000_000_000);
      warmup = positive_or c.warmup dwell;
    }

unfoldable pub ramp_duration : Capacity → ℤ
unfolding ramp_with_defaults
ramp_duration capacity =
    let c = ramp_with_defaults capacity in
    wrap64
      (wrap64 (c.transition +ℤ c.warmup) +ℤ wrap64 (c.steps *ℤ wrap64 (c.dwell +ℤ c.transition)))

abbrev or_text : String → String → String
or_text over text = if str_eq over "" then text else over

abbrev or_int : ℤ → ℤ → ℤ
or_int over n = if eqb_ℤ over (pos 0) then n else over

-- The rate with the flag that asks for it to be measured, after both of its tests.
abbrev merge_rate : ℤ × Bool → ℤ × Bool → ℤ × Bool
merge_rate (rate, calibrate) (over, over_calibrate) =
    let (named, measured) : ℤ × Bool =
      if eqb_ℤ over (pos 0) then (rate, calibrate) else (over, false) in
    if over_calibrate then (pos 0, true) else (named, measured)

abbrev local_by_default : Host → Host
local_by_default h = record h { kind = or_text h.kind "local" }

abbrev baseline_by_default : Arm → Arm
baseline_by_default a = record a {
  config = record a.config { mode = or_text a.config.mode "baseline" };
}

module _ {F : Type 0} ⦃fl : Float F⦄ where
  abbrev or_float : F → F → F
  or_float over x = if over =F zero_float then x else over

  unfoldable pub merge : Load F → Load F → Load F
  merge l over =
      let merged = merge_rate (l.rate, l.calibrate) (over.rate, over.calibrate) in
      record {
        test = or_text over.test l.test;
        model = or_text over.model l.model;
        rate = merged.0;
        calibrate = merged.1;
        calibrate_fraction = or_float over.calibrate_fraction l.calibrate_fraction;
        vus = or_int over.vus l.vus;
        duration = or_int over.duration l.duration;
        warmup = or_int over.warmup l.warmup;
        expected_latency = or_int over.expected_latency l.expected_latency;
        vu_cap = or_int over.vu_cap l.vu_cap;
      }

  unfoldable pub gates_with_defaults : Gates F → Gates F
  gates_with_defaults g = record g {
    runner_cpu_ceiling_pct = or_float g.runner_cpu_ceiling_pct (of_nat 80);
    pool_growth_suspect = or_float g.pool_growth_suspect (fl.decimal 10 1);
    pool_growth_invalid = or_float g.pool_growth_invalid (fl.decimal 20 1);
    peer_pool_ratio_invalid = or_float g.peer_pool_ratio_invalid (fl.decimal 20 1);
    achieved_vs_offered_min = or_float g.achieved_vs_offered_min (fl.decimal 99 2);
    max_clock_drift_ms = or_float g.max_clock_drift_ms (of_nat 50);
  }

  unfoldable pub apply_defaults : Campaign F → Campaign F
  unfolding gates_with_defaults
  apply_defaults c = record c {
    reps = or_int c.reps (pos 5);
    order = or_text c.order "interleaved";
    cooldown = or_int c.cooldown (pos 30_000_000_000);
    topology = record c.topology {
      runner = local_by_default c.topology.runner;
      subject = local_by_default c.topology.subject;
    };
    arms = map baseline_by_default c.arms;
    gates = gates_with_defaults c.gates;
  }
