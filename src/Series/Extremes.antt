-- ===== src/Series/Extremes.antt =====
-- `Max` and `Min` of series.go over values that are numbers.
use octo_performance.Prelude.{
  true, false, some, List, [], ◌∷◌, ◌≡◌, arith, if◌then◌else◌, All, Bool-cases, inl, inr,
}
use mathlib.Core.Path.{subst}
use mathlib.Core.Option.{some-injective}
use octo_performance.Prelude.Float.{Float, ◌<F◌, ◌=F◌, IsOrdered}
use octo_performance.Series.{Point, Series}
use octo_performance.Series.Moments.{max_from, max_points, max}

module _ {F : Type 0} ⦃fl : Float F⦄ (laws : IsOrdered F) where
  open laws use {lt_asymm, lt_cotrans}

  abbrev IsNumber : Point F → Type 0
  IsNumber p = (p.v =F p.v) ≡ true

  not_lt_self : (x : F) → (x <F x) ≡ false
  not_lt_self x = elim (Bool-cases (x <F x)) [ inl e ↦ lt_asymm x x e | inr e ↦ e ]

  -- x ≤ y and y < z give x ≤ z, for numbers.
  not_lt_trans :
      (x y z : F) → (y =F y) ≡ true → (y <F x) ≡ false → (y <F z) ≡ true → (z <F x) ≡ false
  not_lt_trans x y z num h k = elim (Bool-cases (z <F x)) [
    | inl e ↦ ground (arith, lt_cotrans z y x num e, lt_asymm y z k)
    | inr e ↦ e
  ]

  max_from-ge :
      (x m : F) (ps : List (Point F))
      → (m =F m) ≡ true
      → All IsNumber ps
      → (m <F x) ≡ false
      → (max_from m ps <F x) ≡ false
  unfolding max_from
  max_from-ge x m [] num nums h = h
  max_from-ge x m (p ∷ ps) num (n, ns) h = elim (Bool-cases (m <F p.v)) [
    | inl e ↦ rw e (max_from-ge x p.v ps n ns (not_lt_trans x m p.v num h e))
    | inr e ↦ rw e (max_from-ge x m ps num ns h)
  ]

  max_from-ge-All :
      (m : F) (ps : List (Point F))
      → (m =F m) ≡ true
      → All IsNumber ps
      → All (λ p. (max_from m ps <F p.v) ≡ false) ps
  unfolding max_from
  max_from-ge-All m [] num _ = tt
  max_from-ge-All m (p ∷ ps) num (n, ns) =
      let step : F = if m <F p.v then p.v else m in
      let step_num : (step =F step) ≡ true = ground arith in
      let above : (step <F p.v) ≡ false = ground (arith, not_lt_self p.v) in
      (max_from-ge p.v step ps step_num ns above, max_from-ge-All step ps step_num ns)

  -- `Max` of values that are all numbers, none of them NaN, is below none of them.
  max-ge-All :
      (s : Series F) {m : F}
      → All IsNumber s.points
      → max s ≡ some m
      → All (λ p. (m <F p.v) ≡ false) s.points
  unfolding max max_points
  max-ge-All s nums e = go s.points nums e
    where
      go :
          (ps : List (Point F)) {m : F}
          → All IsNumber ps
          → max_points ps ≡ some m
          → All (λ p. (m <F p.v) ≡ false) ps
      go [] nums e = tt
      go (p ∷ ps) (n, ns) e =
          subst (λ t. All (λ q. (t <F q.v) ≡ false) (p ∷ ps)) (some-injective _ _ e)
            (max_from-ge p.v p.v ps n ns (not_lt_self p.v), max_from-ge-All p.v ps n ns)
