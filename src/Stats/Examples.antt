-- ===== src/Stats/Examples.antt =====
-- Runs of the statistics on small inputs, and the theorems at them.
use octo_performance.Prelude.{
  ℕ, String, ◌*◌, last_or, ◌≤◌, ◌≡◌, ◌↔◌, ◌⊎◌, refl, true, false, some, none, List, [], ◌∷◌, ◌++◌,
  map, arith, length, All,
}
use octo_performance.Prelude.Int.{ℤ, pos, negsuc, ◌-ℤ◌, ◌≤ℤ◌}
use octo_performance.Prelude.Text.{plain}
use octo_performance.Prelude.Sort.{IsSorted}
use octo_performance.Prelude.Float.{Milli, milli_float, milli, seconds}
use octo_performance.Series
use octo_performance.Series.{Point, Series, earlier}
use octo_performance.Stats.Describe.{describe}
use octo_performance.Stats.Compare.{
  higher, significant, CompareConfig, compare, default_compare_config,
}
use octo_performance.Stats.Compare.Evident.{HasEvidence, compare-significant_iff}
use octo_performance.Stats.Steady.{
  Window, SteadyConfig, window_duration, binned_for, accept, detect_steady, default_steady_config,
}
use octo_performance.Stats.Steady.Accepted.{
  IsEarliest, IsSteady, detect_steady-IsSteady, detect_steady_complete,
}
use octo_performance.Stats.Knee.{Step, Ramp, find_knee, default_knee}
use octo_performance.Stats.Knee.Rungs.{IsBroken, IsUnbroken, offers, find_knee_lem}
use octo_performance.Stats.Ramp.{ramp_stages, step_windows}
use octo_performance.Stats.Ramp.Staircase.{InOrder, IsRising, step_windows_lem, ramp_stages_lem}

-- A generator that always answers zero.
abbrev zeros : ℕ → ℕ → ℕ × ℕ
zeros n g = (0, g)

abbrev slow_arm : List Milli
slow_arm = pos 100_000 ∷ pos 101_000 ∷ pos 99_000 ∷ []

abbrev fast_arm : List Milli
fast_arm = pos 150_000 ∷ pos 151_000 ∷ pos 149_000 ∷ []

abbrev plain_config : CompareConfig Milli ℕ
plain_config = record {
  noise_floor_pct = pos 2000;
  min_n = pos 3;
  level = pos 950;
  bootstrap_iters = pos 0;
  rand = none;
}

compare_run : (compare zeros slow_arm fast_arm plain_config).0.decision ≡ higher
unfolding compare milli describe octo_performance.Stats.Compare.judge
    octo_performance.Prelude.Sort.sort_by octo_performance.Stats.Compare.delta_of
    octo_performance.Stats.Compare.noise_band octo_performance.Stats.Compare.intervals_overlap
compare_run = refl

compare-significant_iff_example :
    (significant (compare zeros slow_arm fast_arm plain_config).0.decision ≡ true)
    ↔ HasEvidence zeros plain_config (compare zeros slow_arm fast_arm plain_config).0
compare-significant_iff_example = compare-significant_iff zeros slow_arm fast_arm plain_config

abbrev point : ℤ → ℤ → Point Milli
point at v = record { at = at; v = v }

-- A pass whose first second is a warm-up.
abbrev pass : Series Milli
pass = record {
  name = "rps";
  unit = "req/s";
  points =
      point (pos 0) (pos 10_000)
      ∷ point (pos 1_000_000_000) (pos 100_000)
      ∷ point (pos 2_000_000_000) (pos 100_000)
      ∷ point (pos 3_000_000_000) (pos 100_000)
      ∷ point (pos 4_000_000_000) (pos 100_000)
      ∷ [];
}

abbrev short_config : SteadyConfig Milli
short_config = record {
  bucket = pos 1_000_000_000;
  min_duration = pos 2_000_000_000;
  max_cv = pos 50;
  max_slope_pct_per_min = pos 2000;
  corroborate = record { name = ""; unit = ""; points = [] };
  corroborate_max_slope_pct_per_min = pos 5000;
  corroborate_resolution = pos 0;
  corroborate_max_quantum_frac = pos 100;
}

abbrev settled : Window Milli
settled = record {
  from = pos 1_000_000_000;
  to = pos 4_000_000_000;
  discarded = pos 1_000_000_000;
  cv = pos 0;
  slope_pct_per_min = pos 0;
  corroborated = false;
  corroboration_note = plain "";
}

detect_run : detect_steady pass short_config ≡ some settled
unfolding detect_steady milli seconds octo_performance.Stats.Steady.accept
    octo_performance.Stats.Steady.detect_binned binned_for octo_performance.Stats.Steady.corroborate
    octo_performance.Stats.Steady.slope_pct_per_min octo_performance.Series.bucket
    octo_performance.Series.window octo_performance.Series.Moments.cv
    octo_performance.Series.Moments.slope octo_performance.Series.Moments.mean Series.span
    Series.empty
detect_run = refl

detect_steady-IsSteady_example :
    let binned = binned_for short_config pass in
    (first last : ℤ) × (Series.span binned ≡ some (first, last))
    × IsEarliest short_config binned first last binned.points settled
    × (settled.to ≡ last)
    × (settled.discarded ≡ settled.from -ℤ first)
    × (short_config.min_duration ≤ℤ window_duration settled)
    × IsSteady short_config binned settled
detect_steady-IsSteady_example = detect_steady-IsSteady pass short_config settled detect_run

-- No variation is small enough.
abbrev strict_config : SteadyConfig Milli
strict_config = record short_config { bucket = pos 0; max_cv = negsuc 0 }

nothing_detected : detect_steady pass strict_config ≡ none
unfolding detect_steady milli seconds octo_performance.Stats.Steady.accept
    octo_performance.Stats.Steady.detect_binned binned_for octo_performance.Series.window
    octo_performance.Series.Moments.cv octo_performance.Series.Moments.mean Series.span
nothing_detected = refl

pass-IsSorted : IsSorted earlier (binned_for strict_config pass).points
unfolding binned_for
pass-IsSorted = ground arith

detect_steady_complete_example :
    accept strict_config
      (binned_for strict_config pass)
      (pos 0)
      (pos 4_000_000_000)
      (pos 1_000_000_000)
    ≡ none
unfolding binned_for Series.span ◌-ℤ◌
detect_steady_complete_example =
    detect_steady_complete pass strict_config (point (pos 0) (pos 10_000) ∷ [])
      (point (pos 1_000_000_000) (pos 100_000)) _ pass-IsSorted refl refl (omega arith)
      (omega arith) nothing_detected

-- Two rungs of a second each, the second of which stays behind its rate.
abbrev rungs : List (Step Milli)
rungs =
    record { offered = pos 100_000; from = pos 0; to = pos 1_000_000_000 }
    ∷ record { offered = pos 200_000; from = pos 2_000_000_000; to = pos 3_000_000_000 }
    ∷ []

abbrev flat : String → List (Point Milli) → Series Milli
flat name points = record { name = name; unit = ""; points = points }

abbrev climbed : Ramp Milli
climbed = record {
  rps = flat "rps" (
      point (pos 0) (pos 100_000)
      ∷ point (pos 1_000_000_000) (pos 100_000)
      ∷ point (pos 2_000_000_000) (pos 120_000)
      ∷ point (pos 3_000_000_000) (pos 120_000)
      ∷ []);
  dropped = flat "dropped" [];
  failed = flat "failed" [];
  latency = flat "latency" [];
}

knee_run : (find_knee rungs climbed default_knee).rate ≡ pos 100_000
unfolding find_knee milli default_knee octo_performance.Stats.Knee.judge_rung
    octo_performance.Stats.Knee.measure Series.len Series.window
    octo_performance.Stats.Knee.knee_with_defaults octo_performance.Series.Moments.sum
    octo_performance.Series.Moments.mean octo_performance.Stats.Knee.next_reference
knee_run = refl

find_knee_lem_example :
    let k = find_knee rungs climbed default_knee in
    ((k.found ≡ true) × IsBroken (offers rungs) k)
    ⊎ ((k.found ≡ false) × IsUnbroken (offers rungs) k)
find_knee_lem_example = find_knee_lem rungs climbed default_knee

step_windows_lem_example :
    let windows = step_windows Milli (pos 0) (pos 10 ∷ pos 20 ∷ []) (pos 5) (pos 1) in
    (map (λ s. s.offered) windows ≡ pos 10_000 ∷ pos 20_000 ∷ [])
    × All (λ s. pos 0 ≤ℤ s.from) windows
    × InOrder windows
unfolding milli
step_windows_lem_example =
    step_windows_lem Milli (pos 0) (pos 10 ∷ pos 20 ∷ []) (pos 5) (pos 1) (omega arith)
      (omega arith)

ramp_run :
    (ramp_stages (pos 100) (pos 400) (pos 4) (pos 5) (pos 1)).0
    ≡ pos 100 ∷ pos 200 ∷ pos 300 ∷ pos 400 ∷ []
unfolding ramp_stages milli octo_performance.Prelude.Int.wrap64
ramp_run = refl

ramp_stages_lem_example :
    let (targets, stages) = ramp_stages (pos 100) (pos 400) (pos 4) (pos 5) (pos 1) in
    (length targets ≡ 4)
    × (length stages ≡ 2 * length targets)
    × All (λ t. (pos 100 ≤ℤ t) × (t ≤ℤ pos 400)) targets
    × IsRising (pos 100) targets
    × (last_or (pos 100) targets ≡ pos 400)
unfolding milli
ramp_stages_lem_example =
    ramp_stages_lem (pos 100) (pos 400) 2 (pos 5) (pos 1) (omega arith)
      (omega arith, omega arith, omega arith)
