-- ===== src/Rollup/Examples.antt =====
-- Three repetitions of each of two arms, one of them excluded, and the theorems at them.
use octo_performance.Prelude.{
  ℕ, ◌≡◌, ◌↔◌, ◌<◌, ◌-◌, ◌++◌, Perm, map, refl, String, true, false, List, [], ◌∷◌, ◌+◌, length,
  filter, All, none,
}
use octo_performance.Prelude.Int.{ℤ, pos}
use octo_performance.Prelude.Text.{plain}
use octo_performance.Prelude.Float.{Milli, milli_float}
use octo_performance.Stats.Compare.{insufficient, higher, CompareConfig}
use octo_performance.Gate.{Level, valid, invalid}
use octo_performance.Rollup.{
  ResultCell, ArmComparison, ConclusionCounts, usable, arm_rollup, compare_arms,
}
use octo_performance.Rollup.Usable.{IsAccounted, arm_rollup-IsAccounted, arm_rollup_lem}
use octo_performance.Rollup.Notes.{ledger_row}
use octo_performance.Rollup.Campaign.{RollupInput, CampaignResult, rollup}
use octo_performance.Rollup.Ledger.{by_ordinal, rollup-ledger}
use octo_performance.Rollup.Honest.{says_clean, decided, regressed, compared, rollup-clean}
use octo_performance.Prelude.Sort.{IsSorted}
use octo_performance.Rollup.Labels.{IsFair, compare_arms-IsFair}

abbrev cell : String → ℤ → Level → ℤ → ResultCell Milli
cell arm ordinal level rps = record {
  scenario = "001";
  arm = arm;
  rep = pos 1;
  ordinal = ordinal;
  started_at = pos 0;
  ended_at = pos 60;
  harness = record { version = "1"; commit = ""; dev = false };
  binary = record { version = "1"; sha256 = ""; observability = false; metrics = false };
  config_mode = "baseline";
  load = record { model = "open"; rate = pos 100; rate_source = "declared" };
  window_ok = false;
  verdict = record { level = level; findings = [] };
  headline = record {
    offered_rate = pos 100_000;
    achieved_rps = rps;
    achieved_ratio = pos 1000;
    client_mean_ms = pos 1000;
    client_p50_ms = pos 1000;
    client_p95_ms = pos 2000;
    client_p99_ms = pos 3000;
    server_mean_ms = pos 0;
    has_server_mean = false;
    client_waiting_p95_ms = pos 0;
    client_server_gap = pos 0;
    requests = pos 0;
    failed = pos 0;
    pool_growth = pos 0;
    subject_cpu_pct = pos 0;
    subject_rss_drift_mb = pos 0;
    runner_cpu_pct = pos 0;
    has_runner_cpu = false;
    lifetime_cpu_secs = pos 0;
    dropped = pos 0;
    pre_allocated_vus = pos 20;
    observed_max_vus = pos 20;
    subject_cpu_ms_per_req = pos 0;
    subject_rss_peak_mb = pos 64_000;
    cold_start_ms = pos 0;
  };
}

abbrev old_cells : List (ResultCell Milli)
old_cells =
    cell "old" (pos 0) valid (pos 100_000)
    ∷ cell "old" (pos 3) invalid (pos 900_000)
    ∷ cell "old" (pos 4) valid (pos 101_000)
    ∷ []

abbrev new_cells : List (ResultCell Milli)
new_cells =
    cell "new" (pos 1) valid (pos 80_000)
    ∷ cell "new" (pos 2) valid (pos 81_000)
    ∷ cell "new" (pos 5) valid (pos 79_000)
    ∷ []

used_run : (arm_rollup "old" old_cells).used ≡ 2
unfolding arm_rollup usable octo_performance.Gate.excluded
used_run = refl

arm_rollup_lem_example :
    let r = arm_rollup "old" old_cells in
    (r ≡ record (arm_rollup "old" (filter usable old_cells)) {
      cells = r.cells;
      excluded_cells = r.excluded_cells;
    })
    × (r.used + r.excluded_cells ≡ r.cells)
    × (r.cells ≡ length old_cells)
arm_rollup_lem_example = arm_rollup_lem "old" old_cells

arm_rollup-IsAccounted_example : IsAccounted (arm_rollup "old" old_cells).server_mean
arm_rollup-IsAccounted_example = arm_rollup-IsAccounted "old" old_cells

abbrev zeros : ℕ → ℕ → ℕ × ℕ
zeros n g = (0, g)

abbrev plain_config : CompareConfig Milli ℕ
plain_config = record {
  noise_floor_pct = pos 2000;
  min_n = pos 2;
  level = pos 950;
  bootstrap_iters = pos 0;
  rand = none;
}

compare_arms-IsFair_example :
    All IsFair (compare_arms zeros "old" old_cells (arm_rollup "new" new_cells) plain_config).0
compare_arms-IsFair_example = compare_arms-IsFair zeros "old" "new" old_cells new_cells plain_config

abbrev comparison : ArmComparison Milli
comparison = record {
  metric = "throughput";
  unit = "req/s";
  baseline = "old";
  arm = "new";
  baseline_median = pos 0;
  arm_median = pos 0;
  delta_pct = pos 0;
  noise_band_pct = pos 0;
  decision = insufficient;
  label = "insufficient";
  reason = plain "";
  baseline_n = 1;
  arm_n = 1;
}

abbrev two_comparisons : List (ArmComparison Milli)
two_comparisons = comparison ∷ record comparison { decision = higher } ∷ []

abbrev no_counts : ConclusionCounts
no_counts = record { comparisons = 0; conclusive = 0; insufficient_count = 0 }

abbrev both_arms : List (ResultCell Milli)
both_arms = old_cells ++ new_cells

abbrev input : RollupInput
input = record {
  name = "c";
  baseline = "old";
  arms = "old" ∷ "new" ∷ [];
  reps = pos 3;
  order = "interleaved";
  order_reason = "";
  observe_only = false;
  colocated = false;
  planned = pos 6;
  routes = [];
  seed = 0;
}

abbrev seed_itself : ℕ → ℕ
seed_itself n = n

abbrev as_inserted : List String → List String
as_inserted names = names

abbrev report : CampaignResult Milli
report = rollup zeros seed_itself as_inserted input both_arms

rollup-ledger_example :
    Perm report.ledger_rows (map ledger_row both_arms)
    × IsSorted by_ordinal report.ledger_rows
    × (report.counts.valid_count + report.counts.suspect_count + report.counts.invalid_count
        ≡ report.counts.ran)
    × (report.counts.excluded_count ≡ report.counts.invalid_count)
    × (report.counts.ran ≡ length both_arms)
rollup-ledger_example = rollup-ledger zeros seed_itself as_inserted input both_arms

rollup-clean_example : (says_clean report.verdict ≡ true) ↔ (
    (0 < report.counts.ran - report.counts.excluded_count)
    × (0 < length (filter decided (compared report.scenarios)))
    × (length (filter regressed (compared report.scenarios)) ≡ 0))
rollup-clean_example = rollup-clean zeros seed_itself as_inserted input both_arms

ordinals_run :
    map (λ r. r.ordinal) report.ledger_rows ≡ pos 0 ∷ pos 1 ∷ pos 2 ∷ pos 3 ∷ pos 4 ∷ pos 5 ∷ []
unfolding rollup octo_performance.Prelude.Sort.sort_by
ordinals_run = refl
