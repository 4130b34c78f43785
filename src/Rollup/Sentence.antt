-- ===== src/Rollup/Sentence.antt =====
-- result/campaign.go: the findings and the sentence that leads the report. The sentence is the pieces
-- that are written to the builder, in order, before its ends are trimmed.
use octo_performance.Prelude.{
  ℕ, zero, suc, ◌-◌, String, ◌&&◌, List, [], ◌∷◌, ◌++◌, map, if◌then◌else◌, length, ltb, ◌==◌,
  is_empty,
}
use octo_performance.Prelude.Int.{ℤ, pos}
use octo_performance.Prelude.Text.{Arg, Message, int, float, str, sprintf, plain, str_eq, append}
use octo_performance.Rollup.{ArmRollup, ArmComparison, ConclusionCounts, count_conclusions}
use octo_performance.Rollup.Names.{distinct_from}

pub record ScenarioRollup (F : Type 0) : Type 0 where
  pub scenario : String
  pub route : String
  pub model : String
  pub rate : ℤ
  pub rate_source : String
  pub arms : List (ArmRollup F)
  pub comparisons : List (ArmComparison F)

-- The struct `Finding` of package result.
pub record CampaignFinding (F : Type 0) : Type 0 where
  pub scenario : String
  pub arm : String
  pub metric : String
  pub delta_pct : F
  pub detail : Message F

pub record Counts : Type 0 where
  pub planned : ℤ
  pub ran : ℕ
  pub valid_count : ℕ
  pub suspect_count : ℕ
  pub invalid_count : ℕ
  pub excluded_count : ℕ

-- What `verdictSentence` reads of the campaign.
pub record Facts (F : Type 0) : Type 0 where
  pub counts : Counts
  pub evidence : ConclusionCounts
  pub arms : ℕ
  pub scenarios : ℕ
  pub regressions : List (CampaignFinding F)

abbrev pub no_conclusions : ConclusionCounts
no_conclusions = record { comparisons = 0; conclusive = 0; insufficient_count = 0 }

abbrev nat_arg : {F : Type 0} → ℕ → Arg F
nat_arg n = int (pos n)

module _ {F : Type 0} where
  abbrev finding_of : String → ArmComparison F → CampaignFinding F
  finding_of scenario c = record {
    scenario = scenario;
    arm = c.arm;
    metric = c.metric;
    delta_pct = c.delta_pct;
    detail =
        sprintf "%s %+.1f%% against %s (noise band %.1f%%)"
          (str c.metric ∷ float c.delta_pct ∷ str c.baseline ∷ float c.noise_band_pct ∷ []);
  }

  -- The findings of one scenario with a label.
  unfoldable pub labelled : String → String → List (ArmComparison F) → List (CampaignFinding F)
  labelled label scenario [] = []
  labelled label scenario (c ∷ cs) =
      let rest = labelled label scenario cs in
      if str_eq c.label label then finding_of scenario c ∷ rest else rest

  unfoldable pub findings_with : String → List (ScenarioRollup F) → List (CampaignFinding F)
  unfolding labelled
  findings_with label [] = []
  findings_with label (s ∷ ss) = labelled label s.scenario s.comparisons ++ findings_with label ss

  -- `findings`: the regressions and the improvements.
  unfoldable pub findings :
      List (ScenarioRollup F) → List (CampaignFinding F) × List (CampaignFinding F)
  unfolding findings_with
  findings ss = (findings_with "regression" ss, findings_with "improvement" ss)

  unfoldable pub evidence_from : ConclusionCounts → List (ScenarioRollup F) → ConclusionCounts
  evidence_from e [] = e
  evidence_from e (s ∷ ss) = evidence_from (count_conclusions e s.comparisons) ss

  unfoldable pub evidence_of : List (ScenarioRollup F) → ConclusionCounts
  unfolding evidence_from
  evidence_of ss = evidence_from no_conclusions ss

  unfoldable pub plural : ℕ → String → String → Message F
  plural n one many =
      if n == 1 then plain (append "1 " one) else sprintf "%d %s" (nat_arg n ∷ str many ∷ [])

  unfoldable pub why_no_comparison : ℕ → List (Message F)
  unfolding plural
  why_no_comparison arms =
      if ltb arms 2
      then plain "only " ∷ plural arms "arm" "arms" ∷ plain " produced usable cells" ∷ []
      else plain "no metric was measured by more than one arm" ∷ []

  -- The loop over the regressions; `k` are written still before the rest is only counted.
  unfoldable pub list_regressions : ℕ → List (CampaignFinding F) → List (Message F)
  list_regressions k [] = []
  list_regressions zero (f ∷ fs) = sprintf "…and %d more." (nat_arg (length (f ∷ fs)) ∷ []) ∷ []
  list_regressions (suc k) (f ∷ fs) =
      sprintf "%s: %s %+.1f%% on %s. "
        (str f.scenario ∷ str f.metric ∷ float f.delta_pct ∷ str f.arm ∷ [])
      ∷ list_regressions k fs

  abbrev scenarios_text : Facts F → Message F
  scenarios_text c = plural c.scenarios "scenario" "scenarios"

  unfoldable pub regression_text : Facts F → List (Message F)
  unfolding plural list_regressions distinct_from
  regression_text c =
      let touched = length (distinct_from [] (map (λ f. f.scenario) c.regressions)) in
      sprintf "Regressions on %d of " (nat_arg touched ∷ [])
      ∷ scenarios_text c
      ∷ ((if ltb touched c.scenarios
            then sprintf "; the other %d are inside their noise bands"
                (nat_arg (c.scenarios - touched) ∷ [])
              ∷ []
            else [])
          ++ (plain ". " ∷ list_regressions 3 c.regressions))

  -- The switch, in the order of its cases.
  unfoldable pub main_text : Facts F → List (Message F)
  unfolding plural why_no_comparison regression_text
  main_text c =
      if c.evidence.comparisons == 0
      then plain "No comparison could be made: " ∷ (why_no_comparison c.arms ++ (plain "." ∷ []))
      else if c.evidence.conclusive == 0
      then sprintf "Nothing was established. All %d comparisons across "
          (nat_arg c.evidence.comparisons ∷ [])
        ∷ scenarios_text c
        ∷ plain
            " declined for want of evidence, which is the absence of a finding rather than a finding that the arms agree."
        ∷ []
      else if is_empty c.regressions
      then plain "No regression on "
        ∷ scenarios_text c
        ∷ plain ": every delta that could be decided is inside its noise band."
        ∷ []
      else regression_text c

  unfoldable pub qualifications : Facts F → List (Message F)
  qualifications c =
      (if ltb 0 c.evidence.conclusive && ltb 0 c.evidence.insufficient_count
        then sprintf " %d of %d comparisons had too few valid repetitions to decide."
            (nat_arg c.evidence.insufficient_count ∷ nat_arg c.evidence.comparisons ∷ [])
          ∷ []
        else [])
      ++ (if ltb 0 c.counts.excluded_count
          then sprintf " %d of %d cells were excluded by a gate and contribute to nothing above."
              (nat_arg c.counts.excluded_count ∷ nat_arg c.counts.ran ∷ [])
            ∷ []
          else [])

  -- The number of the cells that no gate excluded is `ran - excluded`, which is not negative.
  unfoldable pub verdict_sentence : Facts F → List (Message F)
  unfolding main_text qualifications
  verdict_sentence c =
      if c.counts.ran == 0
      then plain "No cells completed, so there is nothing to conclude." ∷ []
      else if c.counts.ran - c.counts.excluded_count == 0
      then sprintf
          "Every one of the %d cells that ran was excluded by a gate, so this campaign concludes nothing."
          (nat_arg c.counts.ran ∷ [])
        ∷ []
      else main_text c ++ qualifications c
