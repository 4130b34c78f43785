-- ===== src/Series/Rates.antt =====
-- `Rate` of series.go: what becomes of each interval between two samples.
use octo_performance.Prelude.{
  ℕ, ◌+◌, ◌-◌, ◌≡◌, Bool, not, ◌&&◌, List, [], ◌∷◌, arith, if◌then◌else◌, length,
}
use octo_performance.Prelude.Int.{◌-ℤ◌}
use octo_performance.Prelude.Float.{Float, ◌<F◌, ◌≤F◌, zero_float, seconds}
use octo_performance.Series.{Point, Series, rate_from, rate_points, rate}

module _ {ℓ} {A : Type ℓ} where
  unfoldable pub count_from : (A → A → Bool) → A → List A → ℕ
  count_from r x [] = 0
  count_from r x (y ∷ ys) = (if r x y then 1 else 0) + count_from r y ys

  -- How many neighbours of a list stand in the relation `r`.
  unfoldable pub count_adjacent : (A → A → Bool) → List A → ℕ
  unfolding count_from
  count_adjacent r [] = 0
  count_adjacent r (x ∷ xs) = count_from r x xs

module _ {F : Type 0} ⦃fl : Float F⦄ where
  -- The counter went backwards.
  abbrev pub is_reset : Point F → Point F → Bool
  is_reset prev cur = cur.v <F prev.v

  -- It did not, and no time passed.
  abbrev pub is_stall : Point F → Point F → Bool
  is_stall prev cur =
      let dt : F = seconds (cur.at -ℤ prev.at) in not (is_reset prev cur) && dt ≤F zero_float

  rate_from_lem :
      (p : Point F) (ps : List (Point F))
      → ((rate_from p ps).1 ≡ count_from is_reset p ps)
        × (length (rate_from p ps).0 + count_from is_reset p ps + count_from is_stall p ps
            ≡ length ps)
  unfolding rate_from count_from
  rate_from_lem p [] = omega arith
  rate_from_lem p (q ∷ qs) = ground (arith, rate_from_lem q qs)

  -- `Rate` counts exactly the intervals in which the counter went backwards, and emits one point for
  -- each interval that neither went backwards nor took no time: none for the first sample.
  pub rate_lem :
      (s : Series F)
      → ((rate s).1 ≡ count_adjacent is_reset s.points)
        × (length (rate s).0.points
              + count_adjacent is_reset s.points
              + count_adjacent is_stall s.points
            ≡ length s.points - 1)
  unfolding rate rate_points count_adjacent
  rate_lem s = go s.points
    where
      go :
          (ps : List (Point F))
          → ((rate_points ps).1 ≡ count_adjacent is_reset ps)
            × (length (rate_points ps).0 + count_adjacent is_reset ps + count_adjacent is_stall ps
                ≡ length ps - 1)
      go [] = omega arith
      go (p ∷ ps) = omega (arith, rate_from_lem p ps)
