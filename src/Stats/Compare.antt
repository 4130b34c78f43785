-- ===== src/Stats/Compare.antt =====
-- stats/compare.go: whether one arm differs from another, and which rule declined if not.
pub mod Evident
use octo_performance.Prelude.{
  ℕ, String, Bool, true, false, Option, none, some, List, [], ◌∷◌, ◌||◌, ◌&&◌, ltb, if◌then◌else◌,
  not,
}
use octo_performance.Prelude.Int.{ℤ, pos, ltb_ℤ}
use octo_performance.Prelude.Text.{Message, Arg, float, int, sprintf, plain}
use octo_performance.Prelude.Float.{
  Float, ◌-F◌, ◌*F◌, ◌/F◌, ◌<F◌, ◌=F◌, zero_float, of_nat, max_float,
}
use octo_performance.Stats.Describe.{Interval, Summary, overlaps, describe, bootstrap_median_ci}

pub data Decision : Type 0 where
  noise higher lower insufficient : Decision

unfoldable pub significant : Decision → Bool
significant higher = true
significant lower = true
significant _ = false

pub record CompareConfig (F G : Type 0) : Type 0 where
  pub noise_floor_pct : F
  pub min_n : ℤ
  pub level : F
  pub bootstrap_iters : ℤ
  pub rand : Option G

-- `a` and `b` are none where an arm had no repetition.
pub record Comparison (F : Type 0) : Type 0 where
  pub a : Option (Summary F)
  pub b : Option (Summary F)
  pub delta_pct : F
  pub noise_band_pct : F
  pub decision : Decision
  pub reason : Message F

module _ {F : Type 0} ⦃fl : Float F⦄ where
  unfoldable pub default_compare_config : {G : Type 0} → Option G → CompareConfig F G
  default_compare_config rnd = record {
    noise_floor_pct = fl.decimal 20 1;
    min_n = pos 3;
    level = fl.decimal 95 2;
    bootstrap_iters = pos 2000;
    rand = rnd;
  }

  unfoldable pub noise_band : F → Summary F → Summary F → F
  noise_band floor sa sb = max_float floor (max_float sa.spread_pct sb.spread_pct)

  unfoldable pub delta_of : Summary F → Summary F → F
  delta_of sa sb =
      if not (sa.median =F zero_float)
      then (sb.median -F sa.median) /F fl.abs sa.median *F of_nat 100
      else zero_float

  -- Whether both arms have an interval, and the two share a value.
  unfoldable pub intervals_overlap : Option (Interval F) → Option (Interval F) → Bool
  unfolding overlaps
  intervals_overlap (some i) (some o) = overlaps i o
  intervals_overlap _ _ = false

  abbrev interval_args : Option (Interval F) → Option (Interval F) → List (Arg F)
  interval_args (some i) (some o) = float i.lo ∷ float i.hi ∷ float o.lo ∷ float o.hi ∷ []
  interval_args _ _ = []

  -- The three rules and the verdict, from the two summaries with their intervals.
  unfoldable pub judge :
      {G : Type 0} → CompareConfig F G → Summary F → Summary F → Decision × Message F
  judge cfg sa sb =
      let band = noise_band cfg.noise_floor_pct sa sb in
      let delta = delta_of sa sb in
      if ltb_ℤ (pos sa.n) cfg.min_n || ltb_ℤ (pos sb.n) cfg.min_n
      then (
        insufficient,
        sprintf "needs %d valid repetitions per arm, have %d and %d"
            (int cfg.min_n ∷ int (pos sa.n) ∷ int (pos sb.n) ∷ []),
      )
      else if fl.abs delta <F band
      then (
        noise,
        sprintf "%+.1f%% is inside the %.1f%% noise band (rep-to-rep spread was %.1f%% and %.1f%%)"
            (float delta ∷ float band ∷ float sa.spread_pct ∷ float sb.spread_pct ∷ []),
      )
      else if intervals_overlap sa.ci sb.ci
      then (
        noise,
        sprintf "%.0f%% confidence intervals overlap: [%.1f, %.1f] against [%.1f, %.1f]"
            (float (cfg.level *F of_nat 100) ∷ interval_args sa.ci sb.ci),
      )
      else if zero_float <F delta
      then (higher, plain "")
      else (lower, plain "")

  module _ {G : Type 0} (int_n : ℕ → G → ℕ × G) where
    -- The intervals of both arms, drawn from one generator, arm A first.
    with_intervals :
        CompareConfig F G
        → List F
        → List F
        → Summary F
        → Summary F
        → Summary F × Summary F × Option G
    with_intervals cfg a b sa sb = elim cfg.rand [
      | none ↦ (sa, sb, none)
      | some g ↦
          let (ca, g') = bootstrap_median_ci int_n a cfg.level cfg.bootstrap_iters g in
          let (cb, g'') = bootstrap_median_ci int_n b cfg.level cfg.bootstrap_iters g' in
          (record sa { ci = ca }, record sb { ci = cb }, some g'')
    ]

    no_repetitions : Option (Summary F) → Option (Summary F) → Comparison F
    no_repetitions sa sb = record {
      a = sa;
      b = sb;
      delta_pct = zero_float;
      noise_band_pct = zero_float;
      decision = insufficient;
      reason = plain "one or both arms produced no valid repetitions";
    }

    compare_summaries :
        CompareConfig F G → List F → List F → Summary F → Summary F → Comparison F × Option G
    unfolding with_intervals
    compare_summaries cfg a b sa sb =
        let (sa', sb', g) = with_intervals cfg a b sa sb in
        let (decision, reason) = judge cfg sa' sb' in
        (
          record {
            a = some sa';
            b = some sb';
            delta_pct = delta_of sa sb;
            noise_band_pct = noise_band cfg.noise_floor_pct sa sb;
            decision = decision;
            reason = reason;
          },
          g,
        )

    compare_described :
        CompareConfig F G
        → List F
        → List F
        → Option (Summary F)
        → Option (Summary F)
        → Comparison F × Option G
    unfolding no_repetitions compare_summaries
    compare_described cfg a b (some sa) (some sb) = compare_summaries cfg a b sa sb
    compare_described cfg a b sa sb = (no_repetitions sa sb, cfg.rand)

    -- The comparison, and the generator as it is left for the next one.
    unfoldable pub compare : List F → List F → CompareConfig F G → Comparison F × Option G
    unfolding compare_described
    compare a b cfg = compare_described cfg a b (describe a) (describe b)
