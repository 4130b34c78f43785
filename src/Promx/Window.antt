-- ===== src/Promx/Window.antt =====
-- promx/window.go: counters and histograms differenced between two scrapes, and quantiles read out of
-- the difference.
use octo_performance.Prelude.{String, Option, none, some, List, [], ◌∷◌, map, if◌then◌else◌}
use octo_performance.Prelude.Text.{Message, float, sprintf, plain, str_eq, append}
use octo_performance.Prelude.Sort.{sort_by}
use octo_performance.Prelude.Float.{
  Float, ◌+F◌, ◌-F◌, ◌*F◌, ◌/F◌, ◌<F◌, ◌≤F◌, zero_float, of_nat, max_float,
}
use octo_performance.Prelude.Maps.{lookup, lookup_or, adjust}
use octo_performance.Promx.{Labels, Sample, Exposition, matches, samples_of, total, by_label}

-- `Histogram`, each total with its flag.
pub record Histogram (F : Type 0) : Type 0 where
  pub buckets : List (String × F)
  pub sum : Option F
  pub count : Option F

pub data Bound : Type 0 where
  interpolated below above unknown : Bound

-- `Quantile`, with `Ok` and `HasEdge`.
pub record Quantile (F : Type 0) : Type 0 where
  pub seconds : Option F
  pub bound : Bound
  pub edge : Option F

-- `edge` of `Quantile`.
pub record Edge (F : Type 0) : Type 0 where
  pub le : F
  pub cumulative : F

module _ {F : Type 0} ⦃fl : Float F⦄ where
  unfoldable pub counter_delta : Exposition F → Exposition F → String → Labels → Option F
  unfolding total
  counter_delta start end name want = elim (total start name want) [
    | none ↦ none
    | some a ↦ elim (total end name want) [
      | none ↦ none
      | some b ↦ if b <F a then none else some (b -F a)
    ]
  ]

  -- The loop over the keys of the end scrape; a key that is missing at the start counts from 0.
  unfoldable pub delta_keys : List (String × F) → List (String × F) → List (String × F)
  delta_keys a [] = []
  delta_keys a ((k, end_value) ∷ b) =
      let start_value = lookup_or zero_float k a in
      let rest = delta_keys a b in
      if start_value ≤F end_value then (k, end_value -F start_value) ∷ rest else rest

  unfoldable pub counter_delta_by_label :
      Exposition F → Exposition F → String → String → List (String × F)
  unfolding by_label delta_keys
  counter_delta_by_label start end name label =
      delta_keys (by_label start name label) (by_label end name label)

  -- `bucketsOf`, from the buckets so far.
  unfoldable pub buckets_from : List (String × F) → List (Sample F) → Labels → List (String × F)
  unfolding matches
  buckets_from out [] want = out
  buckets_from out (s ∷ rest) want =
      buckets_from
        (elim (lookup "le" s.labels) [
          | none ↦ out
          | some le ↦
              if matches s.labels want then adjust zero_float (λ v. v +F s.value) le out else out
        ])
        rest want

  unfoldable pub buckets_of : Exposition F → String → Labels → List (String × F)
  unfolding buckets_from
  buckets_of e name want = buckets_from [] (samples_of F e (append name "_bucket")) want

  unfoldable pub window_of :
      List (String × F) → List (String × F) → Option F → Option F → Option (Histogram F)
  window_of b_start [] sum count = none
  window_of b_start (b ∷ bs) sum count = some (record {
    buckets =
        map (λ kv. (kv.0, max_float zero_float (kv.1 -F lookup_or zero_float kv.0 b_start)))
          (b ∷ bs);
    sum = sum;
    count = count;
  })

  unfoldable pub histogram_window :
      Exposition F → Exposition F → String → Labels → Option (Histogram F)
  unfolding window_of buckets_of counter_delta
  histogram_window start end name want =
      window_of (buckets_of start name want) (buckets_of end name want)
        (counter_delta start end (append name "_sum") want)
        (counter_delta start end (append name "_count") want)

  unfoldable pub observations : Histogram F → Option F
  observations h = elim (lookup "+Inf" h.buckets) [
    | none ↦ none
    | some n ↦ if n ≤F zero_float then none else some n
  ]

  unfoldable pub mean : Histogram F → Option F
  mean h = elim h.sum [
    | none ↦ none
    | some s ↦ elim h.count [
      | none ↦ none
      | some c ↦ if c ≤F zero_float then none else some (s /F c)
    ]
  ]

  -- The answer in the bucket that ends at `e`, behind the edge `prev`.
  unfoldable pub interpolate : F → Edge F → Edge F → Quantile F
  interpolate target prev e =
      let span = e.cumulative -F prev.cumulative in
      if span ≤F zero_float
      then record { seconds = some e.le; bound = interpolated; edge = some e.le }
      else record {
        seconds = some (prev.le +F (e.le -F prev.le) *F (target -F prev.cumulative) /F span);
        bound = interpolated;
        edge = some e.le;
      }

  -- The loop behind the first edge. `prev` is the last edge seen.
  unfoldable pub search_from : F → Edge F → List (Edge F) → Quantile F
  unfolding interpolate
  search_from target prev [] = record { seconds = none; bound = above; edge = some prev.le }
  search_from target prev (e ∷ es) =
      let rest = search_from target e es in
      if e.cumulative <F target then rest else interpolate target prev e

  abbrev nothing : Quantile F
  nothing = record { seconds = none; bound = unknown; edge = none }

  -- The loop over the edges.
  unfoldable pub search_edges : F → List (Edge F) → Quantile F
  unfolding search_from
  search_edges target [] = nothing
  search_edges target (e ∷ es) =
      let rest = search_from target e es in
      if e.cumulative <F target
      then rest
      else record { seconds = none; bound = below; edge = some e.le }

  module _ (parse_float : String → Option F) where
    unfoldable pub edges_of : List (String × F) → List (Edge F)
    edges_of [] = []
    edges_of ((le, c) ∷ bs) =
        let rest = edges_of bs in
        if str_eq le "+Inf" then rest else elim (parse_float le) [
          | none ↦ rest
          | some v ↦ record { le = v; cumulative = c } ∷ rest
        ]

    -- sort.Slice, which may leave edges of one number in another order.
    abbrev pub sorted_edges : Histogram F → List (Edge F)
    sorted_edges h = sort_by (λ a b. a.le <F b.le) (edges_of h.buckets)

    unfoldable pub quantile : Histogram F → F → Quantile F
    unfolding observations search_edges edges_of
    quantile h q = elim (observations h) [
      | none ↦ nothing
      | some n ↦ search_edges (q *F n) (sorted_edges h)
    ]

  unfoldable pub format_seconds : F → Message F
  format_seconds s =
      if s <F fl.decimal 1 3
      then sprintf "%.0f µs" (float (s *F of_nat 1_000_000) ∷ [])
      else if s <F of_nat 1
      then sprintf "%.2f ms" (float (s *F of_nat 1_000) ∷ [])
      else sprintf "%.2f s" (float s ∷ [])

  -- The text in front of a message.
  abbrev prefixed : String → Message F → Message F
  prefixed s m = record m { format = append s m.format }

  abbrev value_or_zero : Option F → F
  value_or_zero none = zero_float
  value_or_zero (some x) = x

  -- `Quantile.String`
  unfoldable pub quantile_text : Quantile F → Message F
  unfolding format_seconds
  quantile_text q = elim q.bound [
    | interpolated ↦ format_seconds (value_or_zero q.seconds)
    | below ↦ prefixed "< " (format_seconds (value_or_zero q.edge))
    | above ↦ prefixed "> " (format_seconds (value_or_zero q.edge))
    | unknown ↦ plain "n/a"
  ]
