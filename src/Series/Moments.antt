-- ===== src/Series/Moments.antt =====
-- The statistics of series.go: sums, means, extremes, spread and the least-squares slope.
use octo_performance.Prelude.{
  ◌-◌, Bool, Option, none, some, List, [], ◌∷◌, ltb, if◌then◌else◌, length, last_or, map,
}
use octo_performance.Prelude.Int.{ℤ, pos, ◌-ℤ◌}
use octo_performance.Prelude.Float.{
  Float, ◌+F◌, ◌-F◌, ◌*F◌, ◌/F◌, ◌<F◌, ◌=F◌, zero_float, of_nat, seconds,
}
use octo_performance.Series.{Point, Series, len, values}

pub record Trend (F : Type 0) : Type 0 where
  pub per_second : F
  pub r2 : F

-- The running sums of a least-squares fit.
pub record Squares (F : Type 0) : Type 0 where
  pub sxy : F
  pub sxx : F
  pub syy : F

module _ {F : Type 0} ⦃fl : Float F⦄ where
  -- `for _, p := range …  { sum += p.V }`
  unfoldable pub sum_from : F → List F → F
  sum_from acc [] = acc
  sum_from acc (x ∷ xs) = sum_from (acc +F x) xs

  unfoldable pub sum : Series F → Option F
  unfolding sum_from values len
  sum s = if ltb 0 (len s) then some (sum_from zero_float (values s)) else none

  unfoldable pub mean : Series F → Option F
  unfolding sum_from values len
  mean s = if ltb 0 (len s) then some (sum_from zero_float (values s) /F of_nat (len s)) else none

  unfoldable pub max_from : F → List (Point F) → F
  max_from m [] = m
  max_from m (p ∷ ps) = max_from (if m <F p.v then p.v else m) ps

  unfoldable pub min_from : F → List (Point F) → F
  min_from m [] = m
  min_from m (p ∷ ps) = min_from (if p.v <F m then p.v else m) ps

  unfoldable pub max_points : List (Point F) → Option F
  max_points [] = none
  max_points (p ∷ ps) = some (max_from p.v ps)

  unfoldable pub min_points : List (Point F) → Option F
  min_points [] = none
  min_points (p ∷ ps) = some (min_from p.v ps)

  unfoldable pub max : Series F → Option F
  unfolding max_points max_from
  max s = max_points s.points

  unfoldable pub min : Series F → Option F
  unfolding min_points min_from
  min s = min_points s.points

  delta_points : List (Point F) → Option F
  delta_points [] = none
  delta_points (p ∷ []) = none
  delta_points (p ∷ q ∷ ps) = some ((last_or q ps).v -F p.v)

  unfoldable pub delta : Series F → Option F
  unfolding delta_points
  delta s = delta_points s.points

  deviations : F → F → List F → F
  deviations mean ss [] = ss
  deviations mean ss (x ∷ xs) = let d = x -F mean in deviations mean (ss +F d *F d) xs

  unfoldable pub std_dev : Series F → Option F
  unfolding deviations mean
  std_dev s = elim (mean s) [
    | none ↦ none
    | some m ↦
        if ltb (len s) 2
        then none
        else some (fl.sqrt (deviations m zero_float (values s) /F of_nat (len s - 1)))
  ]

  -- `math.Abs(mean) < 1e-12`
  abbrev pub is_negligible : F → Bool
  is_negligible x = fl.abs x <F fl.decimal 1 12

  unfoldable pub cv : Series F → Option F
  unfolding std_dev mean
  cv s = elim (mean s) [
    | none ↦ none
    | some m ↦
        if is_negligible m
        then none
        else elim (std_dev s) [ none ↦ none | some sd ↦ some (sd /F fl.abs m) ]
  ]

  squares_from : F → F → Squares F → List (F × F) → Squares F
  squares_from mx my acc [] = acc
  squares_from mx my acc ((x, y) ∷ rest) =
      let dx = x -F mx in
      let dy = y -F my in
      squares_from mx my
        (record { sxy = acc.sxy +F dx *F dy; sxx = acc.sxx +F dx *F dx; syy = acc.syy +F dy *F dy })
        rest

  no_squares : Squares F
  no_squares = record { sxy = zero_float; sxx = zero_float; syy = zero_float }

  -- The sums of squares about the two means, shared by `Slope`, `OrderEffect` and `pearson`.
  unfoldable pub squares_of : List (F × F) → Squares F
  unfolding squares_from no_squares sum_from
  squares_of xys =
      let n = of_nat (length xys) in
      let mx = sum_from zero_float (map (λ (x, y). x) xys) /F n in
      let my = sum_from zero_float (map (λ (x, y). y) xys) /F n in squares_from mx my no_squares xys

  -- What `Slope` returns from its sums.
  fit : Squares F → Option (Trend F)
  fit q =
      if q.sxx =F zero_float
      then none
      else let slope = q.sxy /F q.sxx in
        if q.syy =F zero_float
        then some (record { per_second = slope; r2 = fl.of_int (pos 1) })
        else let r = q.sxy /F fl.sqrt (q.sxx *F q.syy) in
          some (record { per_second = slope; r2 = r *F r })

  -- Seconds since the first point, with the value.
  abbrev since : ℤ → Point F → F × F
  since origin p = (seconds (p.at -ℤ origin), p.v)

  slope_points : List (Point F) → Option (Trend F)
  unfolding fit squares_of
  slope_points [] = none
  slope_points (p ∷ ps) =
      if ltb (length (p ∷ ps)) 3 then none else fit (squares_of (map (since p.at) (p ∷ ps)))

  unfoldable pub slope : Series F → Option (Trend F)
  unfolding slope_points
  slope s = slope_points s.points
