-- ===== src/Series/Windows.antt =====
-- Cutting and moving a series in time: `New`, `Window` and `Shift` of series.go.
use octo_performance.Prelude.{
  Bool, true, false, not, ◌&&◌, List, [], ◌∷◌, map, Perm, ◌≡◌, refl, ap, arith, Bool-cases, inl,
  inr, All, filter,
}
use octo_performance.Prelude.Int.{
  ℤ, ◌≤ℤ◌, ◌<ℤ◌, ◌+ℤ◌, ltb_ℤ, int_laws, ltb_ℤ→lt, ltb_ℤ→ge, lt→ltb_ℤ, ge→ltb_ℤ,
}
use octo_performance.Prelude.Sort.{IsSorted, IsWeakOrder, sort_by-IsSorted, sort_by-perm}
use octo_performance.Series.{Point, Series, earlier, new, window_points, window, shift_point, shift}

ltb_ℤ-+ : (a b d : ℤ) → ltb_ℤ (a +ℤ d) (b +ℤ d) ≡ ltb_ℤ a b
ltb_ℤ-+ a b d = elim (Bool-cases (ltb_ℤ a b)) [
  | inl e ↦ rw e (lt→ltb_ℤ (a +ℤ d) (b +ℤ d) (omega (int_laws, ltb_ℤ→lt a b e)))
  | inr e ↦ rw e (ge→ltb_ℤ (a +ℤ d) (b +ℤ d) (omega (int_laws, ltb_ℤ→ge a b e)))
]

module _ {F : Type 0} where
  -- Not before `from` and not after `to`.
  abbrev pub inside : ℤ → ℤ → Point F → Bool
  inside from to p = not (ltb_ℤ p.at from) && not (ltb_ℤ to p.at)

  pub earlier-IsWeakOrder : IsWeakOrder (earlier {F = F})
  earlier-IsWeakOrder = record {
    asymm = λ a b h. ge→ltb_ℤ b.at a.at (omega (arith, ltb_ℤ→lt a.at b.at h));
    trans =
        λ a b c h k. ge→ltb_ℤ c.at a.at (omega (arith, ltb_ℤ→ge b.at a.at h, ltb_ℤ→ge c.at b.at k));
  }

  -- `New` returns its points, all of them and no others, in time order.
  new_lem :
      (name unit : _) (pts : List (Point F))
      → IsSorted earlier (new name unit pts).points × Perm (new name unit pts).points pts
  unfolding new
  new_lem name unit pts =
      (sort_by-IsSorted earlier earlier-IsWeakOrder pts, sort_by-perm earlier pts)

  -- Past the first point after `to` a sorted series has none inside.
  filter-inside_late :
      (from to : ℤ) (p : Point F) (ps : List (Point F))
      → ltb_ℤ to p.at ≡ true
      → All (λ q. earlier q p ≡ false) ps
      → filter (inside from to) ps ≡ []
  filter-inside_late from to p [] late _ = refl
  filter-inside_late from to p (q ∷ qs) late (h, hs) =
      let after : ltb_ℤ to q.at ≡ true =
        lt→ltb_ℤ to q.at (omega (arith, ltb_ℤ→lt to p.at late, ltb_ℤ→ge q.at p.at h)) in
      elim (Bool-cases (ltb_ℤ q.at from)) [
        | inl e ↦ rw (e, filter) (filter-inside_late from to p qs late hs)
        | inr e ↦ rw (e, after, filter) (filter-inside_late from to p qs late hs)
      ]

  window_points-eq-filter :
      (from to : ℤ) (ps : List (Point F))
      → IsSorted earlier ps
      → window_points from to ps ≡ filter (inside from to) ps
  unfolding window_points
  window_points-eq-filter from to [] _ = refl
  window_points-eq-filter from to (p ∷ ps) (below, s) = ground (
    arith,
    window_points-eq-filter from to ps s,
    λ (late : ltb_ℤ to p.at ≡ true). filter-inside_late from to p ps late below,
  )

  -- On a series in time order, `Window` keeps exactly the points from `from` to `to`, both included,
  -- in their order, and the name and the unit: stopping at the first later point loses none.
  pub window-eq-filter :
      (s : Series F) (from to : ℤ)
      → IsSorted earlier s.points
      → window s from to ≡ record s { points = filter (inside from to) s.points }
  unfolding window
  window-eq-filter s from to sorted =
      ap (λ ps. record s { points = ps }) (window_points-eq-filter from to s.points sorted)

  window_points-window_points :
      (a b c d : ℤ) (ps : List (Point F))
      → a ≤ℤ c
      → c ≤ℤ d
      → d ≤ℤ b
      → window_points c d (window_points a b ps) ≡ window_points c d ps
  unfolding window_points
  window_points-window_points a b c d [] h k l = refl
  window_points-window_points a b c d (p ∷ ps) h k l = elim (Bool-cases (ltb_ℤ p.at a)) [
    | inl e ↦
        rw (e, lt→ltb_ℤ p.at c (omega (arith, ltb_ℤ→lt p.at a e)))
          (window_points-window_points a b c d ps h k l)
    | inr e ↦ elim (Bool-cases (ltb_ℤ b p.at)) [
      | inl late ↦
          let past : c <ℤ p.at = omega (arith, ltb_ℤ→lt b p.at late) in
          let out : d <ℤ p.at = omega (arith, ltb_ℤ→lt b p.at late) in
          rw (e, late, ge→ltb_ℤ p.at c (omega arith), lt→ltb_ℤ d p.at out)
      | inr kept ↦ ground (arith, e, kept, window_points-window_points a b c d ps h k l)
    ]
  ]

  -- Cutting a window out of a wider window is cutting it out of the series, in whatever order the
  -- points stand.
  window-window :
      (s : Series F) (a b c d : ℤ)
      → a ≤ℤ c
      → c ≤ℤ d
      → d ≤ℤ b
      → window (window s a b) c d ≡ window s c d
  unfolding window
  window-window s a b c d h k l =
      ap (λ ps. record s { points = ps }) (window_points-window_points a b c d s.points h k l)

  window_points-shift :
      (d from to : ℤ) (ps : List (Point F))
      → window_points (from +ℤ d) (to +ℤ d) (map (shift_point d) ps)
        ≡ map (shift_point d) (window_points from to ps)
  unfolding window_points shift_point
  window_points-shift d from to [] = refl
  window_points-shift d from to (p ∷ ps) =
      ground (arith, window_points-shift d from to ps, ltb_ℤ-+ p.at from d, ltb_ℤ-+ to p.at d)

  -- Bringing a series onto another clock commutes with cutting it: a window moved by the offset holds
  -- the moved points of the window.
  window-shift :
      (s : Series F) (d from to : ℤ)
      → window (shift s d) (from +ℤ d) (to +ℤ d) ≡ shift (window s from to) d
  unfolding window shift
  window-shift s d from to =
      ap (λ ps. record s { points = ps }) (window_points-shift d from to s.points)
