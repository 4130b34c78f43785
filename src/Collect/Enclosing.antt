-- ===== src/Collect/Enclosing.antt =====
-- The pair of scrapes that encloses a window.
use octo_performance.Prelude.{
  ℕ, ◌<◌, ◌≡◌, ◌↔◌, refl, sym, ap, ◌∙◌, false, Option, none, some, List, inl, inr, arith, length,
  get_elem?, Bool-cases, leb, ltb,
}
use mathlib.Core.Path.{ap₂}
use octo_performance.Prelude.Int.{ℤ}
use octo_performance.Collect.{Scrape, Bracket, scan, pair_at, pick, bracketing}
use octo_performance.Collect.Indices.{
  last_index, first_index, IsLast, IsFirst, scan-none, place-IsLast, place-IsFirst, found-IsLast,
  found-IsFirst, enough, last_index-IsLast, first_index-IsFirst,
}

-- Two scrapes that enclose a window: the last one at or before its start and, behind it, the first
-- one at or after its end.
pub record IsEnclosed (samples : List Scrape) (from to : ℤ) (x y : Scrape) : Type 0 where
  pub i : ℕ
  pub j : ℕ
  pub first_of : IsLast from 0 samples i x
  pub last_of : IsFirst to 0 samples j y
  pub ordered : i < j

abbrev pub bracket_of : Scrape → Scrape → ℤ → ℤ → Bracket
bracket_of x y from to = record {
  start = x;
  end = y;
  start_at = x.at;
  end_at = y.at;
  window_from = from;
  window_to = to;
}

lt→leb : (i j : ℕ) → i < j → leb j i ≡ false
lt→leb i j h = ground arith

leb→lt : (i j : ℕ) → leb j i ≡ false → i < j
leb→lt i j h = ground arith

module _ {F : Type 0} where
  pick-pair :
      (samples : List Scrape) (from to : ℤ) (i j : ℕ) (x y : Scrape)
      → get_elem? samples i ≡ some x
      → get_elem? samples j ≡ some y
      → i < j
      → pick {F = F} samples from to (some i, some j) ≡ inr (bracket_of x y from to)
  unfolding pick
  pick-pair samples from to i j x y hx hy lt =
      rw (lt→leb i j lt) (rw (pair_at, hx) (rw (pair_at, hy) refl))

  -- Where two scrapes enclose the window, they are what is found.
  enclosed-bracketing :
      (samples : List Scrape) (from to : ℤ) (x y : Scrape)
      → IsEnclosed samples from to x y
      → bracketing {F = F} samples from to ≡ inr (bracket_of x y from to)
  unfolding bracketing
  enclosed-bracketing samples from to x y e =
      rw
        (enough samples e.j y (omega (arith, e.ordered)) (place-IsFirst to samples e.j y e.last_of))
        (ap (pick samples from to) (
            scan-none from to samples
            ∙ ap₂ (λ a b. (a, b)) (found-IsLast from samples e.i x e.first_of)
                (found-IsFirst to samples e.j y e.last_of))
          ∙ pick-pair samples from to e.i e.j x y (place-IsLast from samples e.i x e.first_of)
              (place-IsFirst to samples e.j y e.last_of) e.ordered)

  pair_at-inr :
      (samples : List Scrape) (from to : ℤ) (i j : ℕ) (x y : Scrape) (b : Bracket)
      → get_elem? samples i ≡ some x
      → get_elem? samples j ≡ some y
      → pair_at {F = F} samples from to i j ≡ inr b
      → b ≡ bracket_of x y from to
  pair_at-inr samples from to i j x y b hx hy h = ground (arith, hx, hy, h)

  pick-inr :
      (samples : List Scrape) (from to : ℤ) (o p : Option ℕ) (b : Bracket)
      → pick {F = F} samples from to (o, p) ≡ inr b
      → (i : ℕ) × (j : ℕ) × (o ≡ some i)
        × (p ≡ some j)
        × (i < j)
        × (pair_at {F = F} samples from to i j ≡ inr b)
  unfolding pick
  pick-inr samples from to none p b h = absurd (cc h)
  pick-inr samples from to (some i) none b h = absurd (cc h)
  pick-inr samples from to (some i) (some j) b h = elim (Bool-cases (leb j i)) [
    | inl g ↦ absurd (cc (rw g at h))
    | inr g ↦ (i, j, refl, refl, leb→lt i j g, rw g at h)
  ]

  found :
      (samples : List Scrape) (from to : ℤ) (i j : ℕ) (b : Bracket)
      → last_index from 0 samples ≡ some i
      → first_index to 0 samples ≡ some j
      → i < j
      → pair_at {F = F} samples from to i j ≡ inr b
      → (x : Scrape) × (y : Scrape) × IsEnclosed samples from to x y × (b ≡ bracket_of x y from to)
  found samples from to i j b ei ej lt h =
      let (x, lx) = last_index-IsLast from 0 samples i ei in
      let (y, fy) = first_index-IsFirst to 0 samples j ej in
      (
        x,
        y,
        record { i = i; j = j; first_of = lx; last_of = fy; ordered = lt },
        pair_at-inr samples from to i j x y b (place-IsLast from samples i x lx)
            (place-IsFirst to samples j y fy) h,
      )

  bracketing-inr :
      (samples : List Scrape) (from to : ℤ) (b : Bracket)
      → bracketing {F = F} samples from to ≡ inr b
      → (x : Scrape) × (y : Scrape) × IsEnclosed samples from to x y × (b ≡ bracket_of x y from to)
  unfolding bracketing
  bracketing-inr samples from to b h = elim (Bool-cases (ltb (length samples) 2)) [
    | inl g ↦ absurd (cc (rw (bracketing, g) at h))
    | inr g ↦
        let picked : pick {F = F} samples from to (scan from to 0 none none samples) ≡ inr b =
          rw (bracketing, g) at h in
        let (i, j, ei, ej, lt, at_both) =
          pick-inr samples from to (last_index from 0 samples) (first_index to 0 samples) b
            (sym (ap (pick samples from to) (scan-none from to samples)) ∙ picked) in
        found samples from to i j b ei ej lt at_both
  ]

  -- A bracket is returned exactly if two scrapes enclose the window, one at or before its start and a
  -- later one at or after its end, and it is the tightest such pair: the last scrape at or before the
  -- start and the first one at or after the end, with the window that was asked for. In every other
  -- case there is an error.
  pub bracketing_iff :
      (samples : List Scrape) (from to : ℤ) (b : Bracket)
      → (bracketing {F = F} samples from to ≡ inr b) ↔ (
          (x : Scrape) × (y : Scrape) × IsEnclosed samples from to x y
          × (b ≡ bracket_of x y from to))
  bracketing_iff samples from to b = (
    bracketing-inr samples from to b,
    λ (x, y, e, q). enclosed-bracketing samples from to x y e ∙ ap inr (sym q),
  )
