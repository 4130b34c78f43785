-- ===== src/Stats/Steady/Accepted.antt =====
-- What the window of `DetectSteady` satisfies, and that it is the earliest such.
use octo_performance.Prelude.{
  ◌≤◌, ◌≡◌, refl, ap, true, false, none, some, List, [], ◌∷◌, ◌++◌, arith, length, Option-cases,
  inl, inr, All, length-append,
}
use octo_performance.Prelude.Int.{ℤ, ◌≤ℤ◌, ◌-ℤ◌, int_laws, ltb_ℤ→ge}
use octo_performance.Prelude.Sort.{IsSorted}
use octo_performance.Prelude.Float.{Float, ◌<F◌}
use octo_performance.Series
use octo_performance.Series.{Point, Series, earlier}
use octo_performance.Series.Moments.{cv}
use octo_performance.Stats.Steady.{
  Window, SteadyConfig, window_duration, slope_pct_per_min, too_coarse_to_corroborate, corroborate,
  accept, detect_from, detect_binned, binned_for, detect_steady, candidate,
}

module _ {F : Type 0} ⦃fl : Float F⦄ where
  -- The second series agreed: it is there, has a trend within its bound, and is fine enough to tell.
  pub record IsCorroborated (cfg : SteadyConfig F) (from to : ℤ) : Type 0 where
    pub offered : Series.empty cfg.corroborate ≡ false
    pub co_slope : F
    pub co_slope_eq : slope_pct_per_min (Series.window cfg.corroborate from to) ≡ some co_slope
    pub within : (cfg.corroborate_max_slope_pct_per_min <F fl.abs co_slope) ≡ false
    pub fine : (too_coarse_to_corroborate (Series.window cfg.corroborate from to) cfg).1 ≡ false

  -- The criteria that an accepted window meets, over the binned series.
  pub record IsSteady (cfg : SteadyConfig F) (binned : Series F) (w : Window F) : Type 0 where
    pub cv_eq : cv (Series.window binned w.from w.to) ≡ some w.cv
    pub cv_within : (cfg.max_cv <F w.cv) ≡ false
    pub slope_eq : slope_pct_per_min (Series.window binned w.from w.to) ≡ some w.slope_pct_per_min
    pub slope_within : (cfg.max_slope_pct_per_min <F fl.abs w.slope_pct_per_min) ≡ false
    pub corroborated : w.corroborated ≡ true → IsCorroborated cfg w.from w.to

  corroborate-frame :
      (cfg : SteadyConfig F) (v w : Window F)
      → corroborate cfg v ≡ some w
      → (w.from ≡ v.from)
        × (w.to ≡ v.to)
        × (w.discarded ≡ v.discarded)
        × (w.cv ≡ v.cv)
        × (w.slope_pct_per_min ≡ v.slope_pct_per_min)
  unfolding corroborate
  corroborate-frame cfg v w h = ground arith

  corroborate-IsCorroborated :
      (cfg : SteadyConfig F) (v w : Window F)
      → v.corroborated ≡ false
      → corroborate cfg v ≡ some w
      → w.corroborated ≡ true
      → IsCorroborated cfg v.from v.to
  unfolding corroborate
  corroborate-IsCorroborated cfg v w fresh h c =
      elim (Option-cases (slope_pct_per_min (Series.window cfg.corroborate v.from v.to))) [
        | inl e ↦ absurd (ground arith)
        | inr (co_slope, e) ↦ record {
          offered = ground arith;
          co_slope = co_slope;
          co_slope_eq = e;
          within = ground arith;
          fine = ground arith;
        }
      ]

  accept-IsSteady :
      (cfg : SteadyConfig F) (binned : Series F) (first last start : ℤ) (w : Window F)
      → accept cfg binned first last start ≡ some w
      → (w.from ≡ start) × (w.to ≡ last) × (w.discarded ≡ start -ℤ first) × IsSteady cfg binned w
  unfolding accept
  accept-IsSteady cfg binned first last start w h =
      let suffix = Series.window binned start last in
      elim (Option-cases (cv suffix)) [
        | inl e ↦ absurd (ground arith)
        | inr (v, cv_eq) ↦ elim (Option-cases (slope_pct_per_min suffix)) [
          | inl e ↦ absurd (ground arith)
          | inr (pct, slope_eq) ↦
              let c = candidate first start last v pct in
              let taken : corroborate cfg c ≡ some w = ground arith in
              let same = corroborate-frame cfg c w taken in
              (
                same.0,
                same.1,
                same.2,
                record {
                  cv_eq = rw (same.0, same.1, same.3) cv_eq;
                  cv_within = ground arith;
                  slope_eq = rw (same.0, same.1, same.4) slope_eq;
                  slope_within = ground arith;
                  corroborated =
                      λ t. rw (same.0, same.1) (corroborate-IsCorroborated cfg c w refl taken t);
                },
              )
        ]
      ]

  -- Where a search stands when it accepts: all candidates before were rejected.
  pub record IsEarliest (cfg : SteadyConfig F) (binned : Series F) (first last : ℤ)
      (ps : List (Point F)) (w : Window F) : Type 0 where
    pub before : List (Point F)
    pub start : Point F
    pub rest : List (Point F)
    pub split : ps ≡ before ++ (start ∷ rest)
    pub rejected : All (λ q. accept cfg binned first last q.at ≡ none) before
    pub accepted : accept cfg binned first last start.at ≡ some w
    pub enough : 2 ≤ length rest
    pub long : cfg.min_duration ≤ℤ (last -ℤ start.at)

  detect_from-IsEarliest :
      (cfg : SteadyConfig F) (binned : Series F) (first last : ℤ) (ps : List (Point F))
      (w : Window F)
      → detect_from cfg binned first last ps ≡ some w
      → IsEarliest cfg binned first last ps w
  unfolding detect_from
  detect_from-IsEarliest cfg binned first last [] w h = absurd (cc)
  detect_from-IsEarliest cfg binned first last (p ∷ ps) w h =
      elim (Option-cases (accept cfg binned first last p.at)) [
        | inl e ↦
            let later : detect_from cfg binned first last ps ≡ some w = ground arith in
            let r = detect_from-IsEarliest cfg binned first last ps w later in
            record {
              before = p ∷ r.before;
              start = r.start;
              rest = r.rest;
              split = ap (◌∷◌ p) r.split;
              rejected = (e, r.rejected);
              accepted = r.accepted;
              enough = r.enough;
              long = r.long;
            }
        | inr (v, e) ↦ record {
          before = [];
          start = p;
          rest = ps;
          split = refl;
          rejected = tt;
          accepted = ground arith;
          enough = ground arith;
          long = ground arith;
        }
      ]

  head_le :
      (q p : Point F) (rest before : List (Point F))
      → All (λ x. earlier x q ≡ false) (before ++ (p ∷ rest))
      → q.at ≤ℤ p.at
  head_le q p rest [] (h, _) = ltb_ℤ→ge p.at q.at h
  head_le q p rest (x ∷ before) (_, hs) = head_le q p rest before hs

  -- Along a series in time order no search stops before a candidate that is long enough.
  detect_from_complete :
      (cfg : SteadyConfig F) (binned : Series F) (first last : ℤ) (before : List (Point F))
      (p : Point F) (rest : List (Point F))
      → IsSorted earlier (before ++ (p ∷ rest))
      → 2 ≤ length rest
      → cfg.min_duration ≤ℤ (last -ℤ p.at)
      → detect_from cfg binned first last (before ++ (p ∷ rest)) ≡ none
      → accept cfg binned first last p.at ≡ none
  unfolding detect_from
  detect_from_complete cfg binned first last [] p rest s enough long h = ground arith
  detect_from_complete cfg binned first last (q ∷ before) p rest (below, s) enough long h =
      let q_first : q.at ≤ℤ p.at = head_le q p rest before below in
      let q_long : cfg.min_duration ≤ℤ (last -ℤ q.at) = omega int_laws in
      let q_enough : 2 ≤ length (before ++ (p ∷ rest)) =
        omega (arith, length-append {0} before (p ∷ rest)) in
      detect_from_complete cfg binned first last before p rest s enough long (ground arith)

  -- The window that `DetectSteady` returns runs from a bucket's start to the last bucket's, is at least
  -- MinDuration long, and meets the bounds on variation and trend; if it is marked corroborated, the
  -- second series was there, was fine enough to tell, and had a trend within its own bound. It is
  -- the earliest: every candidate before it was rejected.
  pub detect_steady-IsSteady :
      (rps : Series F) (cfg : SteadyConfig F) (w : Window F)
      → detect_steady rps cfg ≡ some w
      → let binned = binned_for cfg rps in
        (first last : ℤ) × (Series.span binned ≡ some (first, last))
        × IsEarliest cfg binned first last binned.points w
        × (w.to ≡ last)
        × (w.discarded ≡ w.from -ℤ first)
        × (cfg.min_duration ≤ℤ window_duration w)
        × IsSteady cfg binned w
  unfolding detect_steady detect_binned window_duration
  detect_steady-IsSteady rps cfg w h =
      let binned = binned_for cfg rps in
      elim (Option-cases (Series.span binned)) [
        | inl e ↦ absurd (ground arith)
        | inr ((first, last), e) ↦
            let found : detect_from cfg binned first last binned.points ≡ some w = ground arith in
            let r = detect_from-IsEarliest cfg binned first last binned.points w found in
            let (from_eq, to_eq, discarded_eq, steady) =
              accept-IsSteady cfg binned first last r.start.at w r.accepted in
            (first, last, e, r, to_eq, rw from_eq discarded_eq, rw (from_eq, to_eq) r.long, steady)
      ]

  -- When the buckets are in time order and `DetectSteady` returns no window, every candidate with at
  -- least MinDuration and two more buckets ahead of it fails the criteria: nothing acceptable is missed.
  pub detect_steady_complete :
      (rps : Series F) (cfg : SteadyConfig F) {first last : ℤ} (before : List (Point F))
      (p : Point F) (rest : List (Point F))
      → let binned = binned_for cfg rps in
        IsSorted earlier binned.points
        → Series.span binned ≡ some (first, last)
        → binned.points ≡ before ++ (p ∷ rest)
        → 2 ≤ length rest
        → cfg.min_duration ≤ℤ (last -ℤ p.at)
        → detect_steady rps cfg ≡ none
        → accept cfg binned first last p.at ≡ none
  unfolding detect_steady detect_binned Series.len
  detect_steady_complete rps cfg {first} {last} before p rest sorted e split enough long h =
      let binned = binned_for cfg rps in
      let three : 3 ≤ length binned.points =
        rw split (omega (arith, length-append {0} before (p ∷ rest))) in
      let none_found : detect_from cfg binned first last binned.points ≡ none = ground arith in
      detect_from_complete cfg binned first last before p rest (rw split at sorted) enough long
        (rw split at none_found)
