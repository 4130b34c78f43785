-- ===== src/Rollup/Usable.antt =====
-- Which cells a roll-up rests on.
use octo_performance.Prelude.{
  ◌+◌, ◌≡◌, refl, sym, ap, String, Bool, true, not, List, [], ◌∷◌, arith, length, filter, some,
  none, if◌then◌else◌, inl, inr, ◌⊎◌,
}
use mathlib.Core.Path.{subst}
use octo_performance.Prelude.Float.{Float}
use octo_performance.Rollup.{
  ResultCell, Metric, usable, describe_used, arm_rollup, metric_of, metric_values, picked,
  explain_absence,
}
use octo_performance.Stats.Describe.{Summary, describe}

module _ {F : Type 0} where
  filter-filter :
      (cells : List (ResultCell F)) → filter usable (filter usable cells) ≡ filter usable cells
  filter-filter [] = refl
  filter-filter (c ∷ cells) = ground (arith, filter-filter cells)

  split_lem :
      (cells : List (ResultCell F))
      → length (filter usable cells) + length (filter (λ c. not (usable c)) cells) ≡ length cells
  split_lem [] = omega arith
  split_lem (c ∷ cells) = ground (arith, split_lem cells)

module _ {F : Type 0} ⦃fl : Float F⦄ where
  -- A cell that the gates exclude contributes to nothing but the counts: the roll-up of an arm is that of
  -- its usable cells alone, with the number of all cells and of the excluded ones written in; and the used
  -- and the excluded cells are together as many as there are.
  pub arm_rollup_lem :
      (arm : String) (cells : List (ResultCell F))
      → let r = arm_rollup arm cells in
        (r ≡ record (arm_rollup arm (filter usable cells)) {
          cells = r.cells;
          excluded_cells = r.excluded_cells;
        })
        × (r.used + r.excluded_cells ≡ r.cells)
        × (r.cells ≡ length cells)
  unfolding arm_rollup describe_used
  arm_rollup_lem arm cells = (
    ap (describe_used arm (length cells) (length (filter (λ c. not (usable c)) cells)))
        (sym (filter-filter cells)),
    split_lem cells,
    refl,
  )

  -- A metric is there, or it says that it was not measured.
  abbrev pub IsAccounted : Metric F → Type 0
  IsAccounted m =
      ((m.absent ≡ "not measured") × (m.summary ≡ none))
      ⊎ ((m.absent ≡ "") × (s : Summary F) × (m.summary ≡ some s))

  metric_values-IsAccounted :
      (label unit : String) (l : Bool) (vals : List F)
      → IsAccounted (metric_values label unit l vals)
  unfolding metric_values describe
  metric_values-IsAccounted label unit l [] = inl (refl, refl)
  metric_values-IsAccounted label unit l (v ∷ vs) = inr (refl, _, refl)

  explain_absence-same : (m : Metric F) → IsAccounted m → explain_absence m ≡ m
  unfolding explain_absence
  explain_absence-same m (inl (a, s)) = rw (s, a) refl
  explain_absence-same m (inr (a, x, s)) = rw s refl

  -- The runtime's mean of an arm is summarised and has no reason for being absent, or it is not summarised
  -- and the reason is that it was not measured: the reason "this build serves no metrics" is never given.
  pub arm_rollup-IsAccounted :
      (arm : String) (cells : List (ResultCell F)) → IsAccounted (arm_rollup arm cells).server_mean
  unfolding arm_rollup describe_used metric_of
  arm_rollup-IsAccounted arm cells =
      let vals =
        picked (λ c. if c.headline.has_server_mean then some c.headline.server_mean_ms else none)
          (filter usable cells) in
      let known = metric_values-IsAccounted "runtime mean flow" "ms" true vals in
      subst IsAccounted
        (sym (explain_absence-same (metric_values "runtime mean flow" "ms" true vals) known)) known
