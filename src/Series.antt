-- ===== src/Series.antt =====
-- harness/internal/series/series.go: named, time-ordered observations, and the operations that cut
-- them by time, differentiate them and aggregate them. Times and durations are nanoseconds.
-- The (value, ok) results are options. The proofs and the statistics are in the modules below.
pub mod Moments
pub mod Frames
pub mod Windows
pub mod Rates
pub mod Buckets
pub mod Extremes
mod Examples
use octo_performance.Prelude.{
  ℕ, zero, suc, ◌+◌, String, Bool, Option, none, some, List, [], ◌∷◌, ◌++◌, map, ltb, if◌then◌else◌,
  length, is_empty, last_or,
}
use octo_performance.Prelude.Int.{ℤ, pos, negsuc, ◌+ℤ◌, ◌-ℤ◌, ◌*ℤ◌, quot, ltb_ℤ, leb_ℤ, eqb_ℤ}
use octo_performance.Prelude.Sort.{sort_by}
use octo_performance.Prelude.Text.{append}
use octo_performance.Prelude.Float.{
  Float, ◌+F◌, ◌-F◌, ◌/F◌, ◌<F◌, ◌≤F◌, zero_float, of_nat, seconds,
}

pub record Point (F : Type 0) : Type 0 where
  pub at : ℤ
  pub v : F

pub record Series (F : Type 0) : Type 0 where
  pub name : String
  pub unit : String
  pub points : List (Point F)

module _ {F : Type 0} where
  abbrev pub earlier : Point F → Point F → Bool
  earlier a b = ltb_ℤ a.at b.at

  unfoldable pub new : String → String → List (Point F) → Series F
  new name unit pts = record { name = name; unit = unit; points = sort_by earlier pts }

  unfoldable pub len : Series F → ℕ
  len s = length s.points

  unfoldable pub empty : Series F → Bool
  empty s = is_empty s.points

  abbrev span_points : List (Point F) → Option (ℤ × ℤ)
  span_points [] = none
  span_points (p ∷ ps) = some (p.at, (last_or p ps).at)

  unfoldable pub span : Series F → Option (ℤ × ℤ)
  span s = span_points s.points

  unfoldable pub duration : Series F → ℤ
  unfolding span
  duration s = elim (span s) [ none ↦ pos 0 | some (from, to) ↦ to -ℤ from ]

  -- The loop of `Window`: skip what is before `from`, stop at what is after `to`.
  unfoldable pub window_points : ℤ → ℤ → List (Point F) → List (Point F)
  window_points from to [] = []
  window_points from to (p ∷ ps) =
      let rest = window_points from to ps in
      if ltb_ℤ p.at from then rest else if ltb_ℤ to p.at then [] else p ∷ rest

  unfoldable pub window : Series F → ℤ → ℤ → Series F
  unfolding window_points
  window s from to = record s { points = window_points from to s.points }

  unfoldable pub shift_point : ℤ → Point F → Point F
  shift_point offset p = record p { at = p.at +ℤ offset }

  unfoldable pub shift : Series F → ℤ → Series F
  unfolding shift_point
  shift s offset = record s { points = map (shift_point offset) s.points }

  unfoldable pub values : Series F → List F
  values s = map (λ p. p.v) s.points

module _ {F : Type 0} ⦃fl : Float F⦄ where
  -- The body of the loop of `Rate`, before what the later intervals give.
  abbrev rate_step : Point F → Point F → List (Point F) × ℕ → List (Point F) × ℕ
  rate_step prev cur (rate, resets) =
      if cur.v <F prev.v
      then (rate, suc resets)
      else let dt = seconds (cur.at -ℤ prev.at) in
        if dt ≤F zero_float
        then (rate, resets)
        else (record { at = cur.at; v = (cur.v -F prev.v) /F dt } ∷ rate, resets)

  rate_from : Point F → List (Point F) → List (Point F) × ℕ
  rate_from prev [] = ([], 0)
  rate_from prev (cur ∷ rest) = rate_step prev cur (rate_from cur rest)

  unfoldable pub rate_points : List (Point F) → List (Point F) × ℕ
  unfolding rate_from
  rate_points [] = ([], 0)
  rate_points (p ∷ ps) = rate_from p ps

  unfoldable pub rate : Series F → Series F × ℕ
  unfolding rate_points
  rate s =
      let (points, resets) = rate_points s.points in
      (record { name = append s.name ".rate"; unit = append s.unit "/s"; points = points }, resets)

  -- The closure `flush` of `Bucket`.
  flush : ℤ → ℤ → ℤ → F → ℕ → List (Point F)
  flush origin width idx sum n =
      if ltb 0 n then record { at = origin +ℤ idx *ℤ width; v = sum /F of_nat n } ∷ [] else []

  bucket_from : ℤ → ℤ → ℤ → F → ℕ → List (Point F) → List (Point F)
  unfolding flush
  bucket_from origin width cur sum n [] = flush origin width cur sum n
  bucket_from origin width cur sum n (p ∷ ps) =
      let idx = quot (p.at -ℤ origin) width in
      let same = bucket_from origin width cur (sum +F p.v) (suc n) ps in
      let next =
        flush origin width cur sum n ++ bucket_from origin width idx (zero_float +F p.v) 1 ps in
      if eqb_ℤ idx cur then same else next

  bucket_points : ℤ → List (Point F) → List (Point F)
  unfolding bucket_from
  bucket_points width [] = []
  bucket_points width (p ∷ ps) =
      if leb_ℤ width (pos 0) then [] else bucket_from p.at width (negsuc 0) zero_float 0 (p ∷ ps)

  unfoldable pub bucket : Series F → ℤ → Series F
  unfolding bucket_points
  bucket s width = record s { points = bucket_points width s.points }
