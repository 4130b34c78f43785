-- ===== src/Rollup/Honest.antt =====
-- When the sentence that leads a report says that nothing regressed.
use octo_performance.Prelude.{
  ℕ, suc, ◌+◌, ◌-◌, ◌<◌, ◌≤◌, ◌≡◌, ◌↔◌, refl, sym, Bool, true, false, not, String, List, [], ◌∷◌,
  ◌++◌, arith, length, filter, is_empty, length-append, filter-append, length-filter-le, Bool-cases,
  inl, inr, ap, ◌∙◌,
}
use octo_performance.Prelude.Text.{Message, str_eq}
use octo_performance.Prelude.Float.{Float}
use octo_performance.Rollup.{
  ResultCell, ArmComparison, ConclusionCounts, is_insufficient, count_conclusions,
}
use octo_performance.Rollup.Sentence.{
  ScenarioRollup, CampaignFinding, Counts, Facts, no_conclusions, labelled, findings_with, findings,
  evidence_from, evidence_of, main_text, regression_text, qualifications, verdict_sentence,
}
use octo_performance.Rollup.Campaign.{RollupInput, rollup_some, rollup}

module _ {F : Type 0} where
  abbrev pub says_clean : List (Message F) → Bool
  says_clean [] = false
  says_clean (m ∷ ms) = str_eq m.format "No regression on "

  abbrev pub decided : ArmComparison F → Bool
  decided c = not (is_insufficient c.decision)

  abbrev pub regressed : ArmComparison F → Bool
  regressed c = str_eq c.label "regression"

  -- The comparisons of all scenarios.
  abbrev pub compared : List (ScenarioRollup F) → List (ArmComparison F)
  compared [] = []
  compared (s ∷ ss) = s.comparisons ++ compared ss

  -- `main_text` and its condition.
  abbrev IsClean : Facts F → Type 0
  IsClean c =
      (0 < c.evidence.comparisons) × (0 < c.evidence.conclusive) × (is_empty c.regressions ≡ true)

  main_text-IsClean : (c : Facts F) → (says_clean (main_text c) ≡ true) ↔ IsClean c
  unfolding main_text regression_text
  main_text-IsClean c = ground arith

  main_text-append :
      (c : Facts F) (more : List (Message F))
      → says_clean (main_text c ++ more) ≡ says_clean (main_text c)
  unfolding main_text regression_text
  main_text-append c more = ground arith

  verdict_sentence-IsClean :
      (c : Facts F)
      → (says_clean (verdict_sentence c) ≡ true)
        ↔ ((0 < c.counts.ran - c.counts.excluded_count) × IsClean c)
  unfolding verdict_sentence
  verdict_sentence-IsClean c =
      ground (arith, main_text-IsClean c, main_text-append c (qualifications c))

  count_conclusions-decided :
      (e : ConclusionCounts) (cs : List (ArmComparison F))
      → ((count_conclusions e cs).comparisons ≡ e.comparisons + length cs)
        × ((count_conclusions e cs).conclusive ≡ e.conclusive + length (filter decided cs))
  unfolding count_conclusions
  count_conclusions-decided e [] = (omega arith, omega arith)
  count_conclusions-decided e (c ∷ cs) = elim (Bool-cases (is_insufficient c.decision)) [
    | inl d ↦
        let rest =
          count_conclusions-decided
            (record e {
              comparisons = suc e.comparisons;
              insufficient_count = suc e.insufficient_count;
            })
            cs in
        rw (count_conclusions, d) (omega (arith, rest.0), omega (arith, rest.1))
    | inr d ↦
        let rest =
          count_conclusions-decided
            (record e { comparisons = suc e.comparisons; conclusive = suc e.conclusive }) cs in
        rw (count_conclusions, d) (omega (arith, rest.0), omega (arith, rest.1))
  ]

  length-filter-append :
      (p : ArmComparison F → Bool) (xs ys : List (ArmComparison F))
      → length (filter p (xs ++ ys)) ≡ length (filter p xs) + length (filter p ys)
  length-filter-append p xs ys =
      ap length (filter-append p xs ys) ∙ length-append (filter p xs) (filter p ys)

  evidence_from-decided :
      (e : ConclusionCounts) (ss : List (ScenarioRollup F))
      → ((evidence_from e ss).comparisons ≡ e.comparisons + length (compared ss))
        × ((evidence_from e ss).conclusive ≡ e.conclusive + length (filter decided (compared ss)))
  unfolding evidence_from
  evidence_from-decided e [] = (omega arith, omega arith)
  evidence_from-decided e (s ∷ ss) =
      let (n, k) = count_conclusions-decided e s.comparisons in
      let (ns, ks) = evidence_from-decided (count_conclusions e s.comparisons) ss in
      (
        omega (arith, n, ns, length-append s.comparisons (compared ss)),
        omega (arith, k, ks, length-filter-append decided s.comparisons (compared ss)),
      )

  length-labelled :
      (scenario : String) (cs : List (ArmComparison F))
      → length (labelled "regression" scenario cs) ≡ length (filter regressed cs)
  unfolding labelled
  length-labelled scenario [] = refl
  length-labelled scenario (c ∷ cs) = ground (arith, length-labelled scenario cs)

  length-findings_with :
      (ss : List (ScenarioRollup F))
      → length (findings_with "regression" ss) ≡ length (filter regressed (compared ss))
  unfolding findings_with
  length-findings_with [] = refl
  length-findings_with (s ∷ ss) = omega (
    arith,
    length-append (labelled "regression" s.scenario s.comparisons) (findings_with "regression" ss),
    length-labelled s.scenario s.comparisons,
    length-findings_with ss,
    length-filter-append regressed s.comparisons (compared ss),
  )

  decided-le : (cs : List (ArmComparison F)) → length (filter decided cs) ≤ length cs
  decided-le cs = length-filter-le decided cs

  empty-length : (fs : List (CampaignFinding F)) → (is_empty fs ≡ true) ↔ (length fs ≡ 0)
  empty-length [] = ground arith
  empty-length (f ∷ fs) = ground arith

  -- The sentence, from the comparisons of all scenarios.
  facts_lem :
      (counts : Counts) (ss : List (ScenarioRollup F)) (arms scenarios : ℕ)
      → (says_clean (
            verdict_sentence (record {
              counts = counts;
              evidence = evidence_of ss;
              arms = arms;
              scenarios = scenarios;
              regressions = (findings ss).0;
            }))
          ≡ true)
        ↔ ((0 < counts.ran - counts.excluded_count)
            × (0 < length (filter decided (compared ss)))
            × (length (filter regressed (compared ss)) ≡ 0))
  unfolding evidence_of findings
  facts_lem counts ss arms scenarios =
      let facts : Facts F = record {
        counts = counts;
        evidence = evidence_of ss;
        arms = arms;
        scenarios = scenarios;
        regressions = (findings ss).0;
      } in
      let (to, from) = verdict_sentence-IsClean facts in
      let (n, k) = evidence_from-decided no_conclusions ss in
      let few = decided-le (compared ss) in
      let count = length-findings_with ss in
      let none_iff = empty-length (findings_with "regression" ss) in
      (
        λ h. let (ran, (c, d, e)) = to h in (ran, omega (arith, d, k), sym count ∙ none_iff.0 e),
        λ (ran, d, e).
            from (ran, (omega (arith, d, few, n), omega (arith, d, k), none_iff.1 (count ∙ e))),
      )

module _ {F : Type 0} ⦃fl : Float F⦄ {G : Type 0} (int_n : ℕ → G → ℕ × G) (new_rand : ℕ → G)
    (walk : List String → List String) where
  -- A report leads with "No regression" exactly if some cell that ran was not excluded, at least one of
  -- the comparisons of all scenarios was decided rather than declined for want of evidence, and none of
  -- the comparisons is labelled a regression. A campaign that could not conclude never reads as clean.
  pub rollup-clean :
      (in_ : RollupInput) (cells : List (ResultCell F))
      → let r = rollup int_n new_rand walk in_ cells in
        (says_clean r.verdict ≡ true) ↔ (
          (0 < r.counts.ran - r.counts.excluded_count)
          × (0 < length (filter decided (compared r.scenarios)))
          × (length (filter regressed (compared r.scenarios)) ≡ 0))
  unfolding rollup rollup_some
  rollup-clean in_ [] = ground arith
  rollup-clean in_ (c ∷ cells) =
      let r = rollup int_n new_rand walk in_ (c ∷ cells) in
      facts_lem r.counts r.scenarios (length r.arms) (length r.scenarios)
