-- ===== src/Rollup/Campaign.antt =====
-- result/campaign.go: `scenarioRollup` and `Rollup`. The generator that `rand.New` makes from a seed is
-- an argument, and so is the order in which the map of arms is walked.
use octo_performance.Prelude.{
  ℕ, String, Bool, false, some, List, [], ◌∷◌, ◌++◌, map, if◌then◌else◌, length, filter, ◌==◌,
}
use octo_performance.Prelude.Int.{ℤ, pos, ◌-ℤ◌}
use octo_performance.Prelude.Text.{Message, plain, str_eq}
use octo_performance.Prelude.Float.{Float}
use octo_performance.Prelude.Maps.{lookup_or}
use octo_performance.Stats.Compare.{CompareConfig, default_compare_config}
use octo_performance.Gate.{Level, valid, suspect, invalid, rank, excluded}
use octo_performance.Rollup.{
  ResultCell, HarnessBuild, ArmRollup, ArmComparison, ConclusionCounts, arm_rollup, compare_arms,
}
use octo_performance.Rollup.Names.{CampaignArm, arm_order, scenario_order, span_of, arms_of}
use octo_performance.Rollup.Sentence.{
  ScenarioRollup, CampaignFinding, Counts, no_conclusions, findings, evidence_of, verdict_sentence,
}
use octo_performance.Rollup.Notes.{LedgerRow, GateCalibration, ledger, calibration, warnings_for}

-- What is passed on unread (the question, the plan's hash, the notes, the rates) is left out.
pub record RollupInput : Type 0 where
  pub name : String
  pub baseline : String
  pub arms : List String
  pub reps : ℤ
  pub order : String
  pub order_reason : String
  pub observe_only : Bool
  pub colocated : Bool
  pub planned : ℤ
  pub routes : List (String × String)
  pub seed : ℕ

pub record CampaignResult (F : Type 0) : Type 0 where
  pub schema : ℕ
  pub name : String
  pub baseline : String
  pub reps : ℤ
  pub order : String
  pub order_reason : String
  pub observe_only : Bool
  pub colocated : Bool
  pub started_at : ℤ
  pub ended_at : ℤ
  pub elapsed : ℤ
  pub harness : HarnessBuild
  pub arms : List CampaignArm
  pub counts : Counts
  pub evidence : ConclusionCounts
  pub scenarios : List (ScenarioRollup F)
  pub ledger_rows : List (LedgerRow F)
  pub calib : List (GateCalibration F)
  pub warnings : List (Message F)
  pub regressions : List (CampaignFinding F)
  pub improvements : List (CampaignFinding F)
  pub verdict : List (Message F)

abbrev no_build : HarnessBuild
no_build = record { version = ""; commit = ""; dev = false }

module _ {F : Type 0} where
  abbrev pub of_scenario : String → List (ResultCell F) → List (ResultCell F)
  of_scenario id cells = filter (λ c. str_eq c.scenario id) cells

  -- `byArm[arm]`
  abbrev pub of_arm : String → List (ResultCell F) → List (ResultCell F)
  of_arm arm cells = filter (λ c. str_eq c.arm arm) cells

  abbrev count_level : Level → List (ResultCell F) → ℕ
  count_level l cells = length (filter (λ c. rank c.verdict.level == rank l) cells)

  unfoldable pub counts_of : ℤ → List (ResultCell F) → Counts
  counts_of planned cells = record {
    planned = planned;
    ran = length cells;
    valid_count = count_level valid cells;
    suspect_count = count_level suspect cells;
    invalid_count = count_level invalid cells;
    excluded_count = length (filter (λ c. excluded c.verdict) cells);
  }

  abbrev baseline_of : String → List (ArmRollup F) → String
  baseline_of base [] = base
  baseline_of base (a ∷ arms) = if str_eq base "" then a.arm else base

module _ {F : Type 0} ⦃fl : Float F⦄ {G : Type 0} (int_n : ℕ → G → ℕ × G) where
  -- The loop over the arms of a scenario.
  unfoldable pub compare_all :
      String
      → List (ResultCell F)
      → List (ArmRollup F)
      → CompareConfig F G
      → List (ArmComparison F) × CompareConfig F G
  compare_all base mine [] cfg = ([], cfg)
  compare_all base mine (a ∷ arms) cfg =
      let here =
        if str_eq a.arm base then ([], cfg) else compare_arms int_n base (of_arm base mine) a cfg in
      let rest = compare_all base mine arms here.1 in (here.0 ++ rest.0, rest.1)

  unfoldable pub scenario_rollup :
      String
      → RollupInput
      → List (ResultCell F)
      → CompareConfig F G
      → ScenarioRollup F × CompareConfig F G
  unfolding compare_all arm_order arm_rollup
  scenario_rollup id in_ cells cfg =
      let mine = of_scenario id cells in
      let arms = map (λ arm. arm_rollup arm (of_arm arm mine)) (arm_order in_.arms mine) in
      let compared = compare_all (baseline_of in_.baseline arms) mine arms cfg in
      (
        record {
          scenario = id;
          route = lookup_or "" id in_.routes;
          model = elim mine [ [] ↦ "" | c ∷ cs ↦ c.load.model ];
          rate = elim mine [ [] ↦ pos 0 | c ∷ cs ↦ c.load.rate ];
          rate_source = elim mine [ [] ↦ "" | c ∷ cs ↦ c.load.rate_source ];
          arms = arms;
          comparisons = compared.0;
        },
        compared.1,
      )

  -- The loop over the scenarios; all of them draw from one generator.
  unfoldable pub rollup_scenarios :
      List String → RollupInput → List (ResultCell F) → CompareConfig F G → List (ScenarioRollup F)
  unfolding scenario_rollup
  rollup_scenarios [] in_ cells cfg = []
  rollup_scenarios (id ∷ ids) in_ cells cfg =
      let (s, next) = scenario_rollup id in_ cells cfg in s ∷ rollup_scenarios ids in_ cells next

  module _ (new_rand : ℕ → G) (walk : List String → List String) where
    -- `if seed == 0 { seed = 0x0c70be9c }`
    abbrev seeded : ℕ → CompareConfig F G
    seeded seed = default_compare_config (some (new_rand (if seed == 0 then 208_715_420 else seed)))

    -- `Rollup` on cells of which the first is `c`.
    unfoldable pub rollup_some : RollupInput → ResultCell F → List (ResultCell F) → CampaignResult F
    unfolding counts_of arms_of span_of ledger calibration warnings_for rollup_scenarios findings
        evidence_of verdict_sentence scenario_order
    rollup_some in_ c rest =
        let cells = c ∷ rest in
        let (from, to) = span_of cells in
        let arms = arms_of walk in_.arms cells in
        let scenarios = rollup_scenarios (scenario_order cells) in_ cells (seeded in_.seed) in
        let (regressions, improvements) = findings scenarios in
        let counts = counts_of in_.planned cells in
        record {
          schema = 1;
          name = in_.name;
          baseline = in_.baseline;
          reps = in_.reps;
          order = in_.order;
          order_reason = in_.order_reason;
          observe_only = in_.observe_only;
          colocated = in_.colocated;
          started_at = from;
          ended_at = to;
          elapsed = to -ℤ from;
          harness = c.harness;
          arms = arms;
          counts = counts;
          evidence = evidence_of scenarios;
          scenarios = scenarios;
          ledger_rows = ledger cells;
          calib = calibration cells;
          warnings =
              warnings_for
                (record {
                  colocated = in_.colocated;
                  observe_only = in_.observe_only;
                  order = in_.order;
                  order_reason = in_.order_reason;
                  dev = c.harness.dev;
                  arms = arms;
                })
                cells;
          regressions = regressions;
          improvements = improvements;
          verdict = verdict_sentence (record {
            counts = counts;
            evidence = evidence_of scenarios;
            arms = length arms;
            scenarios = length scenarios;
            regressions = regressions;
          });
        }

    unfoldable pub rollup : RollupInput → List (ResultCell F) → CampaignResult F
    unfolding rollup_some
    rollup in_ [] = record {
      schema = 1;
      name = in_.name;
      baseline = in_.baseline;
      reps = in_.reps;
      order = in_.order;
      order_reason = in_.order_reason;
      observe_only = in_.observe_only;
      colocated = in_.colocated;
      started_at = pos 0;
      ended_at = pos 0;
      elapsed = pos 0;
      harness = no_build;
      arms = [];
      counts = counts_of {F = F} in_.planned [];
      evidence = no_conclusions;
      scenarios = [];
      ledger_rows = [];
      calib = [];
      warnings = [];
      regressions = [];
      improvements = [];
      verdict = plain "No cells completed, so there is nothing to conclude." ∷ [];
    }
    rollup in_ (c ∷ rest) = rollup_some in_ c rest
