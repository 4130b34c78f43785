-- ===== src/Rollup/Labels.antt =====
-- What the label of a comparison says, and what is counted.
use octo_performance.Prelude.{
  ℕ, suc, ◌+◌, ◌≡◌, refl, String, Bool, true, false, not, List, [], ◌∷◌, arith, length, filter,
  Bool-cases, Option-cases, inl, inr, All, All-append,
}
use octo_performance.Prelude.Text.{str_eq}
use octo_performance.Prelude.Float.{Float}
use octo_performance.Stats.Compare.{Decision, noise, higher, lower, insufficient, CompareConfig}
use octo_performance.Rollup.{
  ResultCell, Metric, ArmComparison, ConclusionCounts, usable, describe_used, arm_rollup, metric_of,
  metric_values, explain_absence, label_for, is_insufficient, count_conclusions, compare_metric,
  compare_pairs, compare_arms, metric_pairs,
}

-- The arm did worse: its throughput fell, or something that costs rose.
pub worse : String → Decision → Bool
worse metric higher = not (str_eq metric "throughput")
worse metric lower = str_eq metric "throughput"
worse metric _ = false

pub better : String → Decision → Bool
better metric higher = str_eq metric "throughput"
better metric lower = not (str_eq metric "throughput")
better metric _ = false

label_for_lem :
    (metric : String) (d : Decision) (l : Bool)
    → l ≡ not (str_eq metric "throughput")
    → (str_eq (label_for d l) "regression" ≡ worse metric d)
      × (str_eq (label_for d l) "improvement" ≡ better metric d)
unfolding label_for worse better
label_for_lem metric noise l h = (refl, refl)
label_for_lem metric insufficient l h = (refl, refl)
label_for_lem metric higher true h = ground (arith, h)
label_for_lem metric higher false h = ground (arith, h)
label_for_lem metric lower true h = ground (arith, h)
label_for_lem metric lower false h = ground (arith, h)

module _ {F : Type 0} where
  -- A comparison is called a regression where the arm did worse, and an improvement where it did better.
  abbrev pub IsFair : ArmComparison F → Type 0
  IsFair c =
      (str_eq c.label "regression" ≡ worse c.metric c.decision)
      × (str_eq c.label "improvement" ≡ better c.metric c.decision)

  -- Less is better, except in throughput.
  abbrev IsDirected : Metric F → Type 0
  IsDirected m = m.lower_is_better ≡ not (str_eq m.label "throughput")

  -- The comparisons that reached a decision and those that had too few repetitions are all of them.
  count_conclusions_lem :
      (e : ConclusionCounts) (cs : List (ArmComparison F))
      → e.conclusive + e.insufficient_count ≡ e.comparisons
      → let r = count_conclusions e cs in
        (r.comparisons ≡ e.comparisons + length cs)
        × (r.conclusive + r.insufficient_count ≡ r.comparisons)
        × (r.insufficient_count
            ≡ e.insufficient_count + length (filter (λ c. is_insufficient c.decision) cs))
  unfolding count_conclusions
  count_conclusions_lem e [] h = (omega arith, h, omega arith)
  count_conclusions_lem e (c ∷ cs) h = elim (Bool-cases (is_insufficient c.decision)) [
    | inl d ↦
        let rest =
          count_conclusions_lem
            (record e {
              comparisons = suc e.comparisons;
              insufficient_count = suc e.insufficient_count;
            })
            cs (omega (arith, h)) in
        rw (count_conclusions, d) (omega (arith, rest.0), rest.1, omega (arith, rest.2))
    | inr d ↦
        let rest =
          count_conclusions_lem
            (record e { comparisons = suc e.comparisons; conclusive = suc e.conclusive }) cs
            (omega (arith, h)) in
        rw (count_conclusions, d) (omega (arith, rest.0), rest.1, omega (arith, rest.2))
  ]

module _ {F : Type 0} ⦃fl : Float F⦄ where
  explain_absence-IsDirected : (m : Metric F) → IsDirected m → IsDirected (explain_absence m)
  unfolding explain_absence
  explain_absence-IsDirected m h = elim (Option-cases m.summary) [
    | inl e ↦ elim (Bool-cases (str_eq m.absent "")) [ inl a ↦ rw (e, a) h | inr a ↦ rw (e, a) h ]
    | inr (x, e) ↦ rw e h
  ]

  -- The cost of a request and the like are called directed; throughput is the one metric that is better
  -- when it is higher.
  describe_used-IsDirected :
      (arm : String) (n x : ℕ) (used : List (ResultCell F))
      → let r = describe_used arm n x used in
        IsDirected r.throughput
        × IsDirected r.client_p95
        × IsDirected r.client_p50
        × IsDirected r.server_mean
        × IsDirected r.cpu_per_req
        × IsDirected r.rss_peak
  unfolding describe_used metric_of metric_values
  describe_used-IsDirected arm n x used =
      (refl, refl, refl, explain_absence-IsDirected (metric_of _ _ _ used _) refl, refl, refl)

  module _ {G : Type 0} (int_n : ℕ → G → ℕ × G) where
    compare_metric-IsFair :
        (base arm : String) (b a : Metric F) (cfg : CompareConfig F G)
        → IsDirected a
        → All IsFair (compare_metric int_n base arm b a cfg).0
    unfolding compare_metric
    compare_metric-IsFair base arm b a cfg h = elim (Option-cases b.summary) [
      | inl e ↦ rw e tt
      | inr (sb, e) ↦ elim (Option-cases a.summary) [
        | inl f ↦ rw (e, f) tt
        | inr (sa, f) ↦ rw (e, f) (label_for_lem a.label _ a.lower_is_better h, tt)
      ]
    ]

    compare_pairs-IsFair :
        (base arm : String) (pairs : List (Metric F × Metric F)) (cfg : CompareConfig F G)
        → All (λ p. IsDirected p.1) pairs
        → All IsFair (compare_pairs int_n base arm pairs cfg).0
    unfolding compare_pairs
    compare_pairs-IsFair base arm [] cfg h = tt
    compare_pairs-IsFair base arm ((b, a) ∷ pairs) cfg (h, hs) =
        All-append IsFair (compare_metric int_n base arm b a cfg).0 _
          (compare_metric-IsFair base arm b a cfg h)
          (compare_pairs-IsFair base arm pairs (compare_metric int_n base arm b a cfg).1 hs)

    -- A comparison of the rolled-up cells of two arms is labelled a regression exactly if it decided that
    -- the arm's throughput is lower or another metric is higher, and an improvement exactly if it
    -- decided the opposite.
    pub compare_arms-IsFair :
        (base arm : String) (base_cells cells : List (ResultCell F)) (cfg : CompareConfig F G)
        → All IsFair (compare_arms int_n base base_cells (arm_rollup arm cells) cfg).0
    unfolding compare_arms arm_rollup
    compare_arms-IsFair base arm base_cells cells cfg =
        let used = filter usable cells in
        let (a, b, c, d, e, f) =
          describe_used-IsDirected arm (length cells) (length (filter (λ c. not (usable c)) cells))
            used in
        compare_pairs-IsFair base arm
          (metric_pairs (arm_rollup base base_cells) (arm_rollup arm cells)) cfg
          (a, (b, (c, (d, (e, (f, tt))))))
