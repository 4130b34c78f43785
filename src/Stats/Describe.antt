-- ===== src/Stats/Describe.antt =====
-- stats/describe.go: order statistics, the bootstrap interval of the median and the order effect.
-- A random generator is a state with a draw, `int_n`, that stands for rand.Rand.IntN.
use octo_performance.Prelude.{
  ℕ, zero, suc, ◌-◌, Bool, Option, none, some, List, [], ◌∷◌, map, ◌||◌, ◌&&◌, ltb, ◌==◌,
  if◌then◌else◌, length, get_or, not,
}
use octo_performance.Prelude.Int.{ℤ, pos, pos_part, leb_ℤ, eqb_ℤ}
use octo_performance.Prelude.Sort.{sort_by}
use octo_performance.Prelude.Float.{
  Float, ◌+F◌, ◌-F◌, ◌*F◌, ◌/F◌, ◌≤F◌, ◌=F◌, zero_float, of_nat, float_less,
}
use octo_performance.Series.Moments.{Trend, squares_of, is_negligible, sum_from}

pub record Interval (F : Type 0) : Type 0 where
  pub lo : F
  pub hi : F

-- `ci` is CI with HasCI.
pub record Summary (F : Type 0) : Type 0 where
  pub n : ℕ
  pub median : F
  pub q1 : F
  pub q3 : F
  pub iqr : F
  pub min : F
  pub max : F
  pub mad : F
  pub spread_pct : F
  pub ci : Option (Interval F)
  pub values : List F

module _ {F : Type 0} ⦃fl : Float F⦄ where
  unfoldable pub overlaps : Interval F → Interval F → Bool
  overlaps i o = i.lo ≤F o.hi && o.lo ≤F i.hi

  -- An index out of range, at which Go stops, reads zero; `quantile` is called with 0 ≤ q ≤ 1 only.
  abbrev at_index : List F → ℤ → F
  at_index xs i = get_or xs (pos_part i) zero_float

  unfoldable pub quantile : List F → F → F
  quantile sorted q =
      let n = length sorted in
      if n == 0
      then zero_float
      else if n == 1
      then get_or sorted 0 zero_float
      else let position = q *F of_nat (n - 1) in
        let lo = fl.floor position in
        let hi = fl.ceil position in
        if eqb_ℤ lo hi
        then at_index sorted lo
        else let frac = position -F fl.of_int lo in
          at_index sorted lo *F (fl.of_int (pos 1) -F frac) +F at_index sorted hi *F frac

  unfoldable pub sort_floats : List F → List F
  sort_floats = sort_by float_less

  -- The summary of sorted values, with the values as they were supplied.
  unfoldable pub summary_of : List F → List F → Summary F
  unfolding quantile sort_floats
  summary_of sorted supplied =
      let median = quantile sorted (fl.decimal 5 1) in
      let q1 = quantile sorted (fl.decimal 25 2) in
      let q3 = quantile sorted (fl.decimal 75 2) in
      let lowest = get_or sorted 0 zero_float in
      let highest = get_or sorted (length sorted - 1) zero_float in
      record {
        n = length sorted;
        median = median;
        q1 = q1;
        q3 = q3;
        iqr = q3 -F q1;
        min = lowest;
        max = highest;
        mad = quantile (sort_floats (map (λ v. fl.abs (v -F median)) sorted)) (fl.decimal 5 1);
        spread_pct =
            if not (median =F zero_float)
            then (highest -F lowest) /F fl.abs median *F of_nat 100
            else zero_float;
        ci = none;
        values = supplied;
      }

  unfoldable pub describe : List F → Option (Summary F)
  unfolding summary_of
  describe [] = none
  describe (x ∷ xs) = some (summary_of (sort_floats (x ∷ xs)) (x ∷ xs))

  abbrev pairs : List ℤ → List F → List (F × F)
  pairs (o ∷ os) (v ∷ vs) = (fl.of_int o, v) ∷ pairs os vs
  pairs _ _ = []

  unfoldable pub order_effect : List ℤ → List F → Option (Trend F)
  unfolding squares_of sum_from
  order_effect ordinals values =
      let n = length ordinals in
      let my = sum_from zero_float values /F of_nat n in
      let q = squares_of (pairs ordinals values) in
      if not (n == length values) || ltb n 3
      then none
      else if is_negligible my
      then none
      else if q.sxx =F zero_float
      then none
      else if q.syy =F zero_float
      then some (record { per_second = zero_float; r2 = of_nat 1 })
      else let r = q.sxy /F fl.sqrt (q.sxx *F q.syy) in
        some (record { per_second = q.sxy /F q.sxx /F fl.abs my *F of_nat 100; r2 = r *F r })

  module _ {G : Type 0} (int_n : ℕ → G → ℕ × G) where
    -- One resample: `k` values, each drawn from all of `xs`.
    resample : List F → ℕ → G → List F × G
    resample xs zero g = ([], g)
    resample xs (suc k) g =
        let (i, g') = int_n (length xs) g in
        let (rest, g'') = resample xs k g' in (get_or xs i zero_float ∷ rest, g'')

    resampled_medians : List F → ℕ → G → List F × G
    unfolding resample
    resampled_medians xs zero g = ([], g)
    resampled_medians xs (suc k) g =
        let (sample, g') = resample xs (length xs) g in
        let (rest, g'') = resampled_medians xs k g' in
        (quantile (sort_floats sample) (fl.decimal 5 1) ∷ rest, g'')

    unfoldable pub bootstrap_median_ci : List F → F → ℤ → G → Option (Interval F) × G
    unfolding resampled_medians
    bootstrap_median_ci xs level iters g =
        if ltb (length xs) 3 || leb_ℤ iters (pos 0) || level ≤F zero_float || of_nat 1 ≤F level
        then (none, g)
        else let (drawn, g') = resampled_medians xs (pos_part iters) g in
          let medians = sort_floats drawn in
          let tail = (of_nat 1 -F level) /F of_nat 2 in
          (
            some (record { lo = quantile medians tail; hi = quantile medians (of_nat 1 -F tail) }),
            g',
          )
