-- ===== src/Stats/Steady.antt =====
-- stats/steady.go: the earliest suffix of a load pass that is flat enough to measure.
pub mod Accepted
use octo_performance.Prelude.{
  ℕ, String, Bool, true, false, Option, none, some, List, [], ◌∷◌, ◌||◌, ltb, if◌then◌else◌, not,
  length,
}
use octo_performance.Prelude.Int.{ℤ, pos, ◌+ℤ◌, ◌-ℤ◌, quot, ltb_ℤ, leb_ℤ}
use octo_performance.Prelude.Text.{Message, float, sprintf, plain}
use octo_performance.Prelude.Float.{Float, ◌*F◌, ◌/F◌, ◌<F◌, ◌≤F◌, zero_float, of_nat, seconds}
use octo_performance.Series
use octo_performance.Series.{Point, Series}
use octo_performance.Series.Moments.{Trend, mean, cv, slope, is_negligible}

pub record Window (F : Type 0) : Type 0 where
  pub from : ℤ
  pub to : ℤ
  pub discarded : ℤ
  pub cv : F
  pub slope_pct_per_min : F
  pub corroborated : Bool
  pub corroboration_note : Message F

pub record SteadyConfig (F : Type 0) : Type 0 where
  pub bucket : ℤ
  pub min_duration : ℤ
  pub max_cv : F
  pub max_slope_pct_per_min : F
  pub corroborate : Series F
  pub corroborate_max_slope_pct_per_min : F
  pub corroborate_resolution : F
  pub corroborate_max_quantum_frac : F

unfoldable pub window_duration : {F : Type 0} → Window F → ℤ
window_duration w = w.to -ℤ w.from

-- Half the pass, at most 30 s and then at least 2 s.
unfoldable pub min_duration_for : ℤ → ℤ
min_duration_for pass =
    let half = quot pass (pos 2) in
    let capped = if ltb_ℤ (pos 30_000_000_000) half then pos 30_000_000_000 else half in
    if ltb_ℤ capped (pos 2_000_000_000) then pos 2_000_000_000 else capped

module _ {F : Type 0} ⦃fl : Float F⦄ where
  abbrev no_series : Series F
  no_series = record { name = ""; unit = ""; points = [] }

  unfoldable pub default_steady_config : SteadyConfig F
  default_steady_config = record {
    bucket = pos 1_000_000_000;
    min_duration = pos 30_000_000_000;
    max_cv = fl.decimal 5 2;
    max_slope_pct_per_min = fl.decimal 20 1;
    corroborate = no_series;
    corroborate_max_slope_pct_per_min = fl.decimal 50 1;
    corroborate_resolution = zero_float;
    corroborate_max_quantum_frac = fl.decimal 10 2;
  }

  unfoldable pub steady_config_for : ℤ → SteadyConfig F
  unfolding default_steady_config min_duration_for
  steady_config_for pass =
      if leb_ℤ pass (pos 0)
      then default_steady_config
      else let shortest : ℤ = min_duration_for pass in
        let span : F = seconds shortest in
        let over : F = if span <F of_nat 1 then of_nat 1 else span in
        let bound : F = fl.decimal 20 1 *F of_nat 60 /F over in
        record default_steady_config {
          min_duration = shortest;
          max_slope_pct_per_min = bound;
          corroborate_max_slope_pct_per_min = bound *F fl.decimal 25 1;
        }

  -- The fraction, and whether it is too coarse.
  unfoldable pub too_coarse_to_corroborate : Series F → SteadyConfig F → F × Bool
  too_coarse_to_corroborate s cfg =
      if cfg.corroborate_resolution ≤F zero_float || cfg.corroborate_max_quantum_frac ≤F zero_float
      then (zero_float, false)
      else elim (mean s) [
        | none ↦ (fl.inf, true)
        | some m ↦
            if is_negligible m
            then (fl.inf, true)
            else let frac = cfg.corroborate_resolution /F fl.abs m in
              (frac, cfg.corroborate_max_quantum_frac <F frac)
      ]

  unfoldable pub slope_pct_per_min : Series F → Option F
  slope_pct_per_min s = elim (slope s) [
    | none ↦ none
    | some t ↦ elim (mean s) [
      | none ↦ none
      | some m ↦
          if is_negligible m
          then none
          else some (t.per_second *F of_nat 60 /F fl.abs m *F of_nat 100)
    ]
  ]

  -- What the second series says of a candidate: `none` rejects it.
  unfoldable pub corroborate : SteadyConfig F → Window F → Option (Window F)
  corroborate cfg w =
      let co = Series.window cfg.corroborate w.from w.to in
      let (frac, coarse) = too_coarse_to_corroborate co cfg in
      if Series.empty cfg.corroborate then some w else elim (slope_pct_per_min co) [
        | none ↦
            some (record w {
              corroboration_note = plain "the corroborating series had no trend to fit";
            })
        | some co_slope ↦
            if coarse
            then some (record w {
              corroboration_note =
                  sprintf
                    "the corroborating series resolves to %.3g, %.0f%% of its own mean — too coarse to tell a trend from its own granularity"
                    (float cfg.corroborate_resolution ∷ float (frac *F of_nat 100) ∷ []);
            })
            else if cfg.corroborate_max_slope_pct_per_min <F fl.abs co_slope
            then none
            else some (record w { corroborated = true })
      ]

  abbrev candidate : ℤ → ℤ → ℤ → F → F → Window F
  candidate first start last cv slope_pct = record {
    from = start;
    to = last;
    discarded = start -ℤ first;
    cv = cv;
    slope_pct_per_min = slope_pct;
    corroborated = false;
    corroboration_note = plain "";
  }

  -- One round of the search, past the test of its length: `none` is `continue`.
  unfoldable pub accept : SteadyConfig F → Series F → ℤ → ℤ → ℤ → Option (Window F)
  accept cfg binned first last start =
      let suffix = Series.window binned start last in
      elim (cv suffix) [
        | none ↦ none
        | some v ↦ if cfg.max_cv <F v then none else elim (slope_pct_per_min suffix) [
          | none ↦ none
          | some pct ↦
              if cfg.max_slope_pct_per_min <F fl.abs pct
              then none
              else corroborate cfg (candidate first start last v pct)
        ]
      ]

  -- The loop over the candidates: the last two points start none.
  detect_from : SteadyConfig F → Series F → ℤ → ℤ → List (Point F) → Option (Window F)
  detect_from cfg binned first last [] = none
  detect_from cfg binned first last (p ∷ ps) =
      let later = detect_from cfg binned first last ps in
      if ltb (length ps) 2
      then none
      else if ltb_ℤ (last -ℤ p.at) cfg.min_duration
      then none
      else elim (accept cfg binned first last p.at) [ none ↦ later | some w ↦ some w ]

  unfoldable pub detect_binned : SteadyConfig F → Series F → Option (Window F)
  unfolding detect_from
  detect_binned cfg binned = elim (Series.span binned) [
    | none ↦ none
    | some (first, last) ↦ detect_from cfg binned first last binned.points
  ]

  -- The series that the search runs over.
  unfoldable pub binned_for : SteadyConfig F → Series F → Series F
  binned_for cfg rps = if ltb_ℤ (pos 0) cfg.bucket then Series.bucket rps cfg.bucket else rps

  unfoldable pub detect_steady : Series F → SteadyConfig F → Option (Window F)
  unfolding detect_binned binned_for
  detect_steady rps cfg =
      if ltb (Series.len (binned_for cfg rps)) 3
      then none
      else detect_binned cfg (binned_for cfg rps)

  abbrev or_zero : Option F → F
  or_zero none = zero_float
  or_zero (some x) = x

  unfoldable pub fixed_window : Series F → ℤ → Option (Window F)
  fixed_window s discard = elim (Series.span s) [
    | none ↦ none
    | some (first, last) ↦
        let from = first +ℤ discard in
        let sub = Series.window s from last in
        if not (ltb_ℤ from last)
        then none
        else some (record {
          from = from;
          to = last;
          discarded = discard;
          cv = or_zero (cv sub);
          slope_pct_per_min = or_zero (slope_pct_per_min sub);
          corroborated = false;
          corroboration_note = plain "";
        })
  ]
