-- ===== src/Series/Examples.antt =====
-- Runs of the series operations on a small series, and the theorems at it.
use octo_performance.Prelude.{◌+◌, ◌-◌, ◌≡◌, refl, some, [], ◌∷◌, map, arith, length, filter}
use octo_performance.Prelude.Int.{ℤ, pos}
use octo_performance.Prelude.Sort.{IsSorted}
use octo_performance.Prelude.Float.{Milli, milli_float, milli, seconds}
use octo_performance.Series.{
  Point, Series, earlier, window, rate, bucket, rate_points, bucket_points,
}
use octo_performance.Series.Moments.{mean}
use octo_performance.Series.Windows.{inside, window-eq-filter}
use octo_performance.Series.Rates.{count_adjacent, is_reset, is_stall, rate_lem}
use octo_performance.Series.Buckets.{mean_point, runs, bucket-eq-means}

abbrev second : ℤ
second = pos 1_000_000_000

abbrev point : ℤ → ℤ → Point Milli
point at v = record { at = at; v = v }

-- Three samples a second apart and a fourth that went backwards.
abbrev counter : Series Milli
counter = record {
  name = "cpu";
  unit = "s";
  points =
      point (pos 0) (pos 1000)
      ∷ point (pos 1_000_000_000) (pos 3000)
      ∷ point (pos 2_000_000_000) (pos 3500)
      ∷ point (pos 3_000_000_000) (pos 500)
      ∷ [];
}

counter_rate :
    rate_points counter.points
    ≡ (point (pos 1_000_000_000) (pos 2000) ∷ point (pos 2_000_000_000) (pos 500) ∷ [], 1)
unfolding rate_points seconds milli
counter_rate = refl

counter_bucket :
    bucket_points (pos 2_000_000_000) counter.points
    ≡ point (pos 0) (pos 2000) ∷ point (pos 2_000_000_000) (pos 2000) ∷ []
unfolding bucket_points milli
counter_bucket = refl

counter-mean : mean counter ≡ some (pos 2000)
unfolding mean milli
counter-mean = refl

counter-IsSorted : IsSorted earlier counter.points
counter-IsSorted = ground arith

window-eq-filter_example :
    window counter second (pos 2_000_000_000)
    ≡ record counter { points = filter (inside second (pos 2_000_000_000)) counter.points }
window-eq-filter_example = window-eq-filter counter second (pos 2_000_000_000) counter-IsSorted

rate_lem_example :
    ((rate counter).1 ≡ count_adjacent is_reset counter.points)
    × (length (rate counter).0.points
          + count_adjacent is_reset counter.points
          + count_adjacent is_stall counter.points
        ≡ length counter.points - 1)
rate_lem_example = rate_lem counter

bucket-eq-means_example :
    (bucket counter second).points
    ≡ map (mean_point (pos 0) second) (runs (pos 0) second counter.points)
bucket-eq-means_example = bucket-eq-means counter second _ _ refl (omega arith)
