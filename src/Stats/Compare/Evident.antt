-- ===== src/Stats/Compare/Evident.antt =====
-- What a decision of `Compare` rests on.
use octo_performance.Prelude.{
  ℕ, ◌≡◌, ◌≢◌, ◌↔◌, refl, ap, ◌∙◌, true, false, Option, none, some, List, arith, Bool-cases,
  Option-cases, inl, inr, if◌then◌else◌, ◌⊎◌,
}
use text.Mathlib.TextEquality.{eq_iff}
use octo_performance.Prelude.Int.{pos, ◌≤ℤ◌, ge→ltb_ℤ}
use octo_performance.Prelude.Text.{Message, plain}
use octo_performance.Prelude.Float.{Float, ◌<F◌, zero_float}
use octo_performance.Stats.Describe.{Summary, describe}
use octo_performance.Stats.Compare.{
  Decision, higher, lower, significant, CompareConfig, Comparison, noise_band, delta_of,
  intervals_overlap, judge, compare, with_intervals, compare_summaries, compare_described,
  no_repetitions,
}

module _ {F : Type 0} ⦃fl : Float F⦄ where
  -- Up if B exceeds A, down otherwise.
  pub direction : Summary F → Summary F → Decision
  direction sa sb = if zero_float <F delta_of sa sb then higher else lower

  direction-significant : (sa sb : Summary F) → significant (direction sa sb) ≡ true
  unfolding direction significant
  direction-significant sa sb = ground arith

module _ {F G : Type 0} ⦃fl : Float F⦄ where
  -- What all three rules ask before a difference is claimed.
  pub record IsEvident (cfg : CompareConfig F G) (sa sb : Summary F) : Type 0 where
    pub enough_a : cfg.min_n ≤ℤ pos sa.n
    pub enough_b : cfg.min_n ≤ℤ pos sb.n
    pub outside_band : (fl.abs (delta_of sa sb) <F noise_band cfg.noise_floor_pct sa sb) ≡ false
    pub apart : intervals_overlap sa.ci sb.ci ≡ false

  judge_evident :
      (cfg : CompareConfig F G) (sa sb : Summary F)
      → IsEvident cfg sa sb
      → judge cfg sa sb ≡ (direction sa sb, plain "")
  unfolding judge direction
  judge_evident cfg sa sb e =
      rw
        (
          ge→ltb_ℤ (pos sa.n) cfg.min_n e.enough_a,
          ge→ltb_ℤ (pos sb.n) cfg.min_n e.enough_b,
          e.outside_band,
          e.apart,
        )
        (ground arith)

  judge-significant :
      (cfg : CompareConfig F G) (sa sb : Summary F)
      → significant (judge cfg sa sb).0 ≡ true
      → IsEvident cfg sa sb
  unfolding judge significant
  judge-significant cfg sa sb h = ground arith

  judge_reason :
      (cfg : CompareConfig F G) (sa sb : Summary F)
      → significant (judge cfg sa sb).0 ≡ false
      → (judge cfg sa sb).1 ≢ plain ""
  unfolding judge significant
  judge_reason cfg sa sb h e = ground (
    arith,
    ap (λ (m : Message F). m.format) e,
    eq_iff "needs %d valid repetitions per arm, have %d and %d" "",
    eq_iff "%+.1f%% is inside the %.1f%% noise band (rep-to-rep spread was %.1f%% and %.1f%%)" "",
    eq_iff "%.0f%% confidence intervals overlap: [%.1f, %.1f] against [%.1f, %.1f]" "",
  )

  reason_iff :
      (cfg : CompareConfig F G) (sa sb : Summary F)
      → ((judge cfg sa sb).1 ≡ plain "") ↔ (significant (judge cfg sa sb).0 ≡ true)
  reason_iff cfg sa sb = elim (Bool-cases (significant (judge cfg sa sb).0)) [
    | inl e ↦ (λ _. e, λ _. ap (λ d. d.1) (judge_evident cfg sa sb (judge-significant cfg sa sb e)))
    | inr e ↦ (λ r. absurd (judge_reason cfg sa sb e r), λ t. cc)
  ]

  -- The decision of a comparison, its reason and its summaries, from `judge` on the summaries.
  pub record IsJudged (cfg : CompareConfig F G) (c : Comparison F) : Type 0 where
    pub sa : Summary F
    pub sb : Summary F
    pub a_eq : c.a ≡ some sa
    pub b_eq : c.b ≡ some sb
    pub decision_eq : c.decision ≡ (judge cfg sa sb).0
    pub reason_eq : c.reason ≡ (judge cfg sa sb).1
    pub delta_eq : c.delta_pct ≡ delta_of sa sb
    pub band_eq : c.noise_band_pct ≡ noise_band cfg.noise_floor_pct sa sb

  module _ (int_n : ℕ → G → ℕ × G) where
    compare_summaries-IsJudged :
        (cfg : CompareConfig F G) (a b : List F) (sa sb : Summary F)
        → IsJudged cfg (compare_summaries int_n cfg a b sa sb).0
    unfolding compare_summaries with_intervals delta_of noise_band
    compare_summaries-IsJudged cfg a b sa sb = elim (Option-cases cfg.rand) [
      | inl e ↦ rw e (record {
        sa = _;
        sb = _;
        a_eq = refl;
        b_eq = refl;
        decision_eq = refl;
        reason_eq = refl;
        delta_eq = refl;
        band_eq = refl;
      })
      | inr (g, e) ↦ rw e (record {
        sa = _;
        sb = _;
        a_eq = refl;
        b_eq = refl;
        decision_eq = refl;
        reason_eq = refl;
        delta_eq = refl;
        band_eq = refl;
      })
    ]

    no_repetitions_lem :
        (sa sb : Option (Summary F))
        → let c = no_repetitions int_n sa sb in
          (c.a ≡ sa) × (c.b ≡ sb) × (significant c.decision ≡ false) × (c.reason ≢ plain "")
    unfolding no_repetitions significant
    no_repetitions_lem sa sb = (
      refl,
      refl,
      refl,
      λ e. ground (
        arith,
        ap (λ (m : Message F). m.format) e,
        eq_iff "one or both arms produced no valid repetitions" "",
      ),
    )

    compare-cases :
        (a b : List F) (cfg : CompareConfig F G)
        → let c = (compare int_n a b cfg).0 in
          ((sa sb : _) × (c ≡ no_repetitions int_n sa sb) × ((sa ≡ none) ⊎ (sb ≡ none)))
          ⊎ IsJudged cfg c
    unfolding compare compare_described
    compare-cases a b cfg = go (describe a) (describe b)
      where
        go :
            (sa sb : Option (Summary F))
            → let c = (compare_described int_n cfg a b sa sb).0 in
              ((ta tb : _) × (c ≡ no_repetitions int_n ta tb) × ((ta ≡ none) ⊎ (tb ≡ none)))
              ⊎ IsJudged cfg c
        go (some sa) (some sb) = inr (compare_summaries-IsJudged cfg a b sa sb)
        go (some sa) none = inl (some sa, none, refl, inr refl)
        go none sb = inl (none, sb, refl, inl refl)

    -- What is known of the arms when a difference is claimed.
    abbrev pub HasEvidence : CompareConfig F G → Comparison F → Type 0
    HasEvidence cfg c =
        (sa sb : Summary F) × (c.a ≡ some sa)
        × (c.b ≡ some sb)
        × IsEvident cfg sa sb
        × (c.decision ≡ direction sa sb)

    -- `Compare` claims a difference exactly if both arms have a summary, each with at least MinN
    -- repetitions, the delta of the medians is not inside the noise band, and not both bootstrap
    -- intervals are there and overlap; the difference is then Higher if the delta is positive, and Lower
    -- otherwise.
    pub compare-significant_iff :
        (a b : List F) (cfg : CompareConfig F G)
        → let c = (compare int_n a b cfg).0 in (significant c.decision ≡ true) ↔ HasEvidence cfg c
    compare-significant_iff a b cfg = elim (compare-cases a b cfg) [
      | inl (sa, sb, e, missing) ↦ rw e (
        λ h. let facts = no_repetitions_lem sa sb in ground arith,
        λ (x, y, ea, eb, v, d). let facts = no_repetitions_lem sa sb in ground arith,
      )
      | inr j ↦ (
        λ h.
            let v = judge-significant cfg j.sa j.sb (rw j.decision_eq at h) in
            (
              j.sa,
              j.sb,
              j.a_eq,
              j.b_eq,
              v,
              j.decision_eq ∙ ap (λ d. d.0) (judge_evident cfg j.sa j.sb v),
            ),
        λ (sa, sb, ea, eb, v, d). rw d (direction-significant sa sb),
      )
    ]

    -- The reason of a comparison is empty exactly if the comparison claims a difference.
    compare-reason_iff :
        (a b : List F) (cfg : CompareConfig F G)
        → let c = (compare int_n a b cfg).0 in
          (c.reason ≡ plain "") ↔ (significant c.decision ≡ true)
    compare-reason_iff a b cfg = elim (compare-cases a b cfg) [
      | inl (sa, sb, e, missing) ↦ rw e (
        λ r. absurd ((no_repetitions_lem sa sb).3 r),
        λ t. let facts = no_repetitions_lem sa sb in ground arith,
      )
      | inr j ↦ rw (j.reason_eq, j.decision_eq) (reason_iff cfg j.sa j.sb)
    ]
