-- ===== src/Promx/Quantiles.antt =====
-- What `Quantile` answers, described by where the rank falls among the edges.
use octo_performance.Prelude.{
  String, true, false, Option, none, some, List, [], ◌∷◌, ◌++◌, ◌≡◌, refl, arith, All, Bool-cases,
  inl, inr, Bool, ◌⊎◌, ◌≢◌, Option-cases,
}
use mathlib.Core.List.{Perm}
use text.Mathlib.TextEquality.{eq_iff}
use octo_performance.Prelude.Text.{str_eq}
use octo_performance.Prelude.Sort.{IsSorted, sort_by-perm, sort_by-IsSorted_among}
use octo_performance.Prelude.Float.{
  Float, IsOrdered, ◌<F◌, ◌≤F◌, ◌=F◌, ◌*F◌, ◌+F◌, ◌-F◌, ◌/F◌, zero_float,
}
use octo_performance.Promx.Window.{
  Histogram, Quantile, Edge, interpolated, below, above, unknown, observations, interpolate,
  search_from, search_edges, edges_of, sorted_edges, quantile,
}

module _ {F : Type 0} ⦃fl : Float F⦄ where
  -- Fewer observations than `target` lie up to the edge.
  abbrev IsBefore : F → Edge F → Type 0
  IsBefore target e = e.cumulative <F target ≡ true

  abbrev IsReached : F → Edge F → Type 0
  IsReached target e = e.cumulative <F target ≡ false

  -- What is read off two edges around the rank: the upper one where no observation lies between them,
  -- otherwise as far along from the lower to the upper one as the rank is along their observations.
  abbrev pub IsBetween : F → Edge F → Edge F → Quantile F → Type 0
  IsBetween target prev e r =
      ((e.cumulative -F prev.cumulative ≤F zero_float ≡ true)
        × (r ≡ record { seconds = some e.le; bound = interpolated; edge = some e.le }))
      ⊎ ((e.cumulative -F prev.cumulative ≤F zero_float ≡ false)
          × (r ≡ record {
            seconds = some (
                prev.le
                +F (e.le -F prev.le)
                  *F (target -F prev.cumulative)
                  /F (e.cumulative -F prev.cumulative));
            bound = interpolated;
            edge = some e.le;
          }))

  interpolate-IsBetween :
      (target : F) (prev e : Edge F) → IsBetween target prev e (interpolate target prev e)
  unfolding interpolate
  interpolate-IsBetween target prev e =
      elim (Bool-cases (e.cumulative -F prev.cumulative ≤F zero_float)) [
        | inl b ↦ inl (b, rw b refl)
        | inr b ↦ inr (b, rw b refl)
      ]

  -- The answer for a rank: unknown without edges, below the first edge where that reaches the rank,
  -- interpolated between the edges around it, and above the last edge where none reaches it.
  pub data Answer (target : F) (edges : List (Edge F)) (r : Quantile F) : Type 0 where
    no_edge :
        edges ≡ []
        → r ≡ record { seconds = none; bound = unknown; edge = none }
        → Answer target edges r
    in_first :
        (e : Edge F) (post : List (Edge F))
        → edges ≡ e ∷ post
        → IsReached target e
        → r ≡ record { seconds = none; bound = below; edge = some e.le }
        → Answer target edges r
    between :
        (pre : List (Edge F)) (prev e : Edge F) (post : List (Edge F))
        → edges ≡ pre ++ (prev ∷ e ∷ post)
        → All (IsBefore target) pre
        → IsBefore target prev
        → IsReached target e
        → IsBetween target prev e r
        → Answer target edges r
    past_all :
        (pre : List (Edge F)) (last : Edge F)
        → edges ≡ pre ++ (last ∷ [])
        → All (IsBefore target) pre
        → IsBefore target last
        → r ≡ record { seconds = none; bound = above; edge = some last.le }
        → Answer target edges r

  -- An edge in front of edges that are searched behind `prev`.
  Answer-cons :
      (target : F) (e prev : Edge F) (es : List (Edge F)) (r : Quantile F)
      → IsBefore target e
      → Answer target (prev ∷ es) r
      → IsBefore target prev
      → Answer target (e ∷ prev ∷ es) r
  Answer-cons target e prev es r h (no_edge q _) p = cc q
  Answer-cons target e prev es r h (in_first f post q reached _) p = ground (arith, q, reached, p)
  Answer-cons target e prev es r h (between pre a b post q before pa rb eq) p =
      between (e ∷ pre) a b post (rw q refl) (h, before) pa rb eq
  Answer-cons target e prev es r h (past_all pre last q before pl eq) p =
      past_all (e ∷ pre) last (rw q refl) (h, before) pl eq

  search_from-Answer :
      (target : F) (prev : Edge F) (es : List (Edge F))
      → IsBefore target prev
      → Answer target (prev ∷ es) (search_from target prev es)
  unfolding search_from
  search_from-Answer target prev [] h = past_all [] prev refl tt h refl
  search_from-Answer target prev (e ∷ es) h = elim (Bool-cases (e.cumulative <F target)) [
    | inl q ↦ rw q (Answer-cons target prev e es _ h (search_from-Answer target e es q) q)
    | inr q ↦ rw q (between [] prev e es refl tt h q (interpolate-IsBetween target prev e))
  ]

  search_edges-Answer :
      (target : F) (es : List (Edge F)) → Answer target es (search_edges target es)
  unfolding search_edges
  search_edges-Answer target [] = no_edge refl refl
  search_edges-Answer target (e ∷ es) = elim (Bool-cases (e.cumulative <F target)) [
    | inl q ↦ rw q (search_from-Answer target e es q)
    | inr q ↦ rw q (in_first e es refl q refl)
  ]

  -- The edges that are read off buckets, in their order: a label that is +Inf or no number is none.
  pub data Reads (parse_float : String → Option F)
      : List (String × F) → List (Edge F) → Type 0 where
    done : Reads parse_float [] []
    passed :
        {le : String} {c : F} {bs : List (String × F)} {es : List (Edge F)}
        → (le ≡ "+Inf") ⊎ (parse_float le ≡ none)
        → Reads parse_float bs es
        → Reads parse_float ((le, c) ∷ bs) es
    taken :
        {le : String} {c v : F} {bs : List (String × F)} {es : List (Edge F)}
        → le ≢ "+Inf"
        → parse_float le ≡ some v
        → Reads parse_float bs es
        → Reads parse_float ((le, c) ∷ bs) (record { le = v; cumulative = c } ∷ es)

  -- The label is not NaN.
  abbrev pub IsComparable : (String → Option F) → String × F → Type 0
  IsComparable parse_float (le, c) = (v : F) → parse_float le ≡ some v → v =F v ≡ true

  abbrev pub is_lower : Edge F → Edge F → Bool
  is_lower a b = a.le <F b.le

  edges_of-Reads :
      (parse_float : String → Option F) (bs : List (String × F))
      → Reads parse_float bs (edges_of parse_float bs)
  unfolding edges_of
  edges_of-Reads parse_float [] = done
  edges_of-Reads parse_float ((le, c) ∷ bs) = elim (Bool-cases (str_eq le "+Inf")) [
    | inl b ↦ rw b (passed (inl ((eq_iff le "+Inf").0 b)) (edges_of-Reads parse_float bs))
    | inr b ↦ elim (Option-cases (parse_float le)) [
      | inl e ↦ rw (b, e) (passed (inr e) (edges_of-Reads parse_float bs))
      | inr (v, e) ↦
          rw (b, e)
            (taken (λ p. absurd (cc (b, (eq_iff le "+Inf").1 p))) e (edges_of-Reads parse_float bs))
    ]
  ]

  Reads-IsComparable :
      {parse_float : String → Option F} {bs : List (String × F)} {es : List (Edge F)}
      → Reads parse_float bs es
      → All (IsComparable parse_float) bs
      → All (λ e. e.le =F e.le ≡ true) es
  Reads-IsComparable done _ = tt
  Reads-IsComparable (passed _ r) (_, hs) = Reads-IsComparable r hs
  Reads-IsComparable (taken {v = v} _ e r) (h, hs) = (h v e, Reads-IsComparable r hs)

  not_lower :
      IsOrdered F
      → (a b c : Edge F) → b.le =F b.le ≡ true
      → is_lower b a ≡ false
      → is_lower c b ≡ false
      → is_lower c a ≡ false
  not_lower order a b c n p q = elim (Bool-cases (c.le <F a.le)) [
    | inr h ↦ h
    | inl h ↦ elim (order.lt_cotrans c.le b.le a.le n h) [
      | inl low ↦ absurd (cc (low, q))
      | inr high ↦ absurd (cc (high, p))
    ]
  ]

  sorted_edges_lem :
      (parse_float : String → Option F) (h : Histogram F)
      → IsOrdered F
      → All (IsComparable parse_float) h.buckets
      → IsSorted is_lower (sorted_edges parse_float h)
  sorted_edges_lem parse_float h order numbers =
      sort_by-IsSorted_among is_lower (λ e. e.le =F e.le ≡ true)
        (λ a b p. order.lt_asymm a.le b.le p) (not_lower order) (edges_of parse_float h.buckets)
        (Reads-IsComparable (edges_of-Reads parse_float h.buckets) numbers)

  -- A quantile of a window with observations, no label of which is NaN, is read off the buckets whose
  -- label is a number other than +Inf, ordered by that number, at the rank of the quantile among the
  -- observations: a bound by the first of them where that reaches the rank, a number of seconds between
  -- the first one that reaches it and the one before, a bound by the last where none reaches it, and
  -- nothing where there are none.
  pub quantile-Answer :
      (parse_float : String → Option F) (h : Histogram F) (q : F) {n : F}
      → IsOrdered F
      → All (IsComparable parse_float) h.buckets
      → observations h ≡ some n
      → (edges : List (Edge F)) × (given : List (Edge F)) × Reads parse_float h.buckets given
        × Perm edges given
        × IsSorted is_lower edges
        × Answer (q *F n) edges (quantile parse_float h q)
  unfolding quantile
  quantile-Answer parse_float h q {n} order numbers seen = (
    sorted_edges parse_float h,
    edges_of parse_float h.buckets,
    edges_of-Reads parse_float h.buckets,
    sort_by-perm is_lower (edges_of parse_float h.buckets),
    sorted_edges_lem parse_float h order numbers,
    rw (quantile, seen) (search_edges-Answer (q *F n) (sorted_edges parse_float h)),
  )
