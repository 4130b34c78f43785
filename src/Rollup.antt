-- ===== src/Rollup.antt =====
-- result/campaign.go: the repetitions of one arm on one scenario, described, the comparison of an arm
-- with the baseline, and the counts and findings that the comparisons give. Of a cell, the part of
-- result/cell.go that these read.
pub mod Usable
pub mod Labels
pub mod Names
pub mod Sentence
pub mod Notes
pub mod Campaign
pub mod Honest
pub mod Ledger
mod Examples
use octo_performance.Prelude.{
  ℕ, suc, ◌+◌, String, Bool, true, false, not, ◌&&◌, Option, none, some, List, [], ◌∷◌, ◌++◌, map,
  if◌then◌else◌, length, filter,
}
use octo_performance.Prelude.Int.{ℤ, pos}
use octo_performance.Prelude.Text.{Message, float, str, sprintf, str_eq}
use octo_performance.Prelude.Float.{Float, ◌<F◌, zero_float}
use octo_performance.Series.Moments.{Trend}
use octo_performance.Stats.Describe.{Summary, describe, order_effect}
use octo_performance.Stats.Compare.{
  Decision, noise, higher, lower, insufficient, CompareConfig, compare,
}
use octo_performance.Stats.Compare as Stats
use octo_performance.Gate.{CellVerdict, excluded}

pub record Headline (F : Type 0) : Type 0 where
  pub offered_rate : F
  pub achieved_rps : F
  pub achieved_ratio : F
  pub client_mean_ms : F
  pub client_p50_ms : F
  pub client_p95_ms : F
  pub client_p99_ms : F
  pub client_waiting_p95_ms : F
  pub server_mean_ms : F
  pub has_server_mean : Bool
  pub client_server_gap : F
  pub requests : F
  pub failed : F
  pub dropped : F
  pub pre_allocated_vus : ℤ
  pub observed_max_vus : ℤ
  pub pool_growth : F
  pub subject_cpu_pct : F
  pub subject_cpu_ms_per_req : F
  pub subject_rss_peak_mb : F
  pub subject_rss_drift_mb : F
  pub runner_cpu_pct : F
  pub has_runner_cpu : Bool
  pub cold_start_ms : F
  pub lifetime_cpu_secs : F

-- The struct `Harness`.
pub record HarnessBuild : Type 0 where
  pub version : String
  pub commit : String
  pub dev : Bool

-- What the roll-up reads of `subject.Caps`.
pub record BinaryCaps : Type 0 where
  pub version : String
  pub sha256 : String
  pub observability : Bool
  pub metrics : Bool

-- What the roll-up reads of `LoadSpec`.
pub record LoadSpec : Type 0 where
  pub model : String
  pub rate : ℤ
  pub rate_source : String

-- What the roll-up reads of `Cell`; `config_mode` is the mode of its `Config`.
pub record ResultCell (F : Type 0) : Type 0 where
  pub scenario : String
  pub arm : String
  pub rep : ℤ
  pub ordinal : ℤ
  pub started_at : ℤ
  pub ended_at : ℤ
  pub harness : HarnessBuild
  pub binary : BinaryCaps
  pub config_mode : String
  pub load : LoadSpec
  pub window_ok : Bool
  pub verdict : CellVerdict F
  pub headline : Headline F

pub record Metric (F : Type 0) : Type 0 where
  pub label : String
  pub unit : String
  pub absent : String
  pub summary : Option (Summary F)
  pub lower_is_better : Bool

pub record ArmRollup (F : Type 0) : Type 0 where
  pub arm : String
  pub cells : ℕ
  pub used : ℕ
  pub excluded_cells : ℕ
  pub throughput : Metric F
  pub client_p50 : Metric F
  pub client_p95 : Metric F
  pub client_p99 : Metric F
  pub server_mean : Metric F
  pub cpu_per_req : Metric F
  pub rss_peak : Metric F
  pub cold_start : Metric F
  pub order : Option (Trend F)

-- The type `Comparison` of package result.
pub record ArmComparison (F : Type 0) : Type 0 where
  pub metric : String
  pub unit : String
  pub baseline : String
  pub arm : String
  pub baseline_median : F
  pub arm_median : F
  pub delta_pct : F
  pub noise_band_pct : F
  pub decision : Decision
  pub label : String
  pub reason : Message F
  pub baseline_n : ℕ
  pub arm_n : ℕ

pub record ConclusionCounts : Type 0 where
  pub comparisons : ℕ
  pub conclusive : ℕ
  pub insufficient_count : ℕ

unfoldable pub label_for : Decision → Bool → String
label_for noise lower_is_better = "noise"
label_for insufficient lower_is_better = "insufficient"
label_for higher lower_is_better = if lower_is_better then "regression" else "improvement"
label_for lower lower_is_better = if lower_is_better then "improvement" else "regression"

abbrev pub is_insufficient : Decision → Bool
is_insufficient insufficient = true
is_insufficient _ = false

module _ {F : Type 0} where
  -- The metrics of two arms that are compared, the baseline's first.
  abbrev pub metric_pairs : ArmRollup F → ArmRollup F → List (Metric F × Metric F)
  metric_pairs b a =
      (b.throughput, a.throughput)
      ∷ (b.client_p95, a.client_p95)
      ∷ (b.client_p50, a.client_p50)
      ∷ (b.server_mean, a.server_mean)
      ∷ (b.cpu_per_req, a.cpu_per_req)
      ∷ (b.rss_peak, a.rss_peak)
      ∷ []

  unfoldable pub usable : ResultCell F → Bool
  usable cell = not (excluded cell.verdict)

  abbrev picked : (ResultCell F → Option F) → List (ResultCell F) → List F
  picked pick [] = []
  picked pick (c ∷ cs) =
      let rest = picked pick cs in elim (pick c) [ none ↦ rest | some v ↦ v ∷ rest ]

  -- The comparisons of a scenario counted, after the counts so far.
  unfoldable pub count_conclusions : ConclusionCounts → List (ArmComparison F) → ConclusionCounts
  count_conclusions e [] = e
  count_conclusions e (c ∷ cs) =
      count_conclusions
        (if is_insufficient c.decision
          then record e {
            comparisons = suc e.comparisons;
            insufficient_count = suc e.insufficient_count;
          }
          else record e { comparisons = suc e.comparisons; conclusive = suc e.conclusive })
        cs

module _ {F : Type 0} ⦃fl : Float F⦄ where
  unfoldable pub metric_values : String → String → Bool → List F → Metric F
  metric_values label unit lower_is_better vals = record {
    label = label;
    unit = unit;
    absent = elim vals [ [] ↦ "not measured" | v ∷ vs ↦ "" ];
    summary = describe vals;
    lower_is_better = lower_is_better;
  }

  unfoldable pub metric_of :
      String → String → Bool → List (ResultCell F) → (ResultCell F → Option F) → Metric F
  unfolding metric_values
  metric_of label unit lower_is_better cells pick =
      metric_values label unit lower_is_better (picked pick cells)

  abbrev when_positive : F → Option F
  when_positive x = if zero_float <F x then some x else none

  -- `if a.ServerMean.Absent == "" && !a.ServerMean.Present { … }`
  unfoldable pub explain_absence : Metric F → Metric F
  explain_absence m = elim m.summary [
    | some s ↦ m
    | none ↦ if str_eq m.absent "" then record m { absent = "this build serves no metrics" } else m
  ]

  unfoldable pub describe_used : String → ℕ → ℕ → List (ResultCell F) → ArmRollup F
  unfolding metric_of explain_absence
  describe_used arm cells excluded_cells used = record {
    arm = arm;
    cells = cells;
    used = length used;
    excluded_cells = excluded_cells;
    throughput = metric_of "throughput" "req/s" false used (λ c. some c.headline.achieved_rps);
    client_p50 = metric_of "client p50" "ms" true used (λ c. some c.headline.client_p50_ms);
    client_p95 = metric_of "client p95" "ms" true used (λ c. some c.headline.client_p95_ms);
    client_p99 = metric_of "client p99" "ms" true used (λ c. some c.headline.client_p99_ms);
    server_mean = explain_absence (
        metric_of "runtime mean flow" "ms" true used
          (λ c. if c.headline.has_server_mean then some c.headline.server_mean_ms else none));
    cpu_per_req =
        metric_of "cost" "cpu-ms/req" true used
          (λ c. when_positive c.headline.subject_cpu_ms_per_req);
    rss_peak =
        metric_of "peak RSS" "MB" true used (λ c. when_positive c.headline.subject_rss_peak_mb);
    cold_start =
        metric_of "cold start" "ms" true used (λ c. when_positive c.headline.cold_start_ms);
    order = order_effect (map (λ c. c.ordinal) used) (map (λ c. c.headline.achieved_rps) used);
  }

  unfoldable pub arm_rollup : String → List (ResultCell F) → ArmRollup F
  unfolding describe_used
  arm_rollup arm cells =
      describe_used arm (length cells) (length (filter (λ c. not (usable c)) cells))
        (filter usable cells)

  module _ {G : Type 0} (int_n : ℕ → G → ℕ × G) where
    -- One metric of both arms, where both have it. The generator moves on from one comparison to the
    -- next.
    unfoldable pub compare_metric :
        String
        → String
        → Metric F
        → Metric F
        → CompareConfig F G
        → List (ArmComparison F) × CompareConfig F G
    compare_metric base arm b a cfg = elim b.summary [
      | none ↦ ([], cfg)
      | some sb ↦ elim a.summary [
        | none ↦ ([], cfg)
        | some sa ↦
            let (cmp, rnd) = compare int_n sb.values sa.values cfg in
            (
              record {
                metric = a.label;
                unit = a.unit;
                baseline = base;
                arm = arm;
                baseline_median = sb.median;
                arm_median = sa.median;
                delta_pct = cmp.delta_pct;
                noise_band_pct = cmp.noise_band_pct;
                decision = cmp.decision;
                label = label_for cmp.decision a.lower_is_better;
                reason = cmp.reason;
                baseline_n = sb.n;
                arm_n = sa.n;
              }
                  ∷ [],
              record cfg { rand = rnd },
            )
      ]
    ]

    -- The loop over the pairs of metrics.
    unfoldable pub compare_pairs :
        String
        → String
        → List (Metric F × Metric F)
        → CompareConfig F G
        → List (ArmComparison F) × CompareConfig F G
    unfolding compare_metric
    compare_pairs base arm [] cfg = ([], cfg)
    compare_pairs base arm ((b, a) ∷ pairs) cfg =
        let (here, next) = compare_metric base arm b a cfg in
        let (rest, last) = compare_pairs base arm pairs next in (here ++ rest, last)

    unfoldable pub compare_arms :
        String
        → List (ResultCell F)
        → ArmRollup F
        → CompareConfig F G
        → List (ArmComparison F) × CompareConfig F G
    unfolding compare_pairs arm_rollup
    compare_arms base cells arm cfg =
        compare_pairs base arm.arm (metric_pairs (arm_rollup base cells) arm) cfg
