-- ===== src/Stats/Ramp.antt =====
-- stats/knee.go, `RampStages` and `StepWindows`: the staircase that k6 climbs, and the dwell of each
-- rung. The arithmetic on rates is that of an int64, which wraps; durations are nanoseconds.
pub mod Staircase
pub mod Lasting
use octo_performance.Prelude.{ℕ, zero, suc, ◌+◌, ◌-◌, Bool, List, [], ◌∷◌, if◌then◌else◌}
use octo_performance.Prelude.Int.{ℤ, pos, pos_part, ◌+ℤ◌, ◌-ℤ◌, ◌*ℤ◌, quot, ltb_ℤ, leb_ℤ, wrap64}
use octo_performance.Prelude.Float.{Float}
use octo_performance.Stats.Knee.{Step}

pub record RampStage : Type 0 where
  pub target : ℤ
  pub duration : ℤ

-- The target of rung `i` of `steps`.
unfoldable pub target_of : ℤ → ℤ → ℤ → ℤ → ℤ
target_of start peak steps i =
    if ltb_ℤ (pos 1) steps
    then wrap64 (start +ℤ quot (wrap64 (wrap64 (peak -ℤ start) *ℤ i)) (steps -ℤ pos 1))
    else peak

-- The targets of the rungs from `i` on, `left` of them.
targets_from : ℤ → ℤ → ℤ → ℕ → ℕ → List ℤ
targets_from start peak steps i zero = []
targets_from start peak steps i (suc left) =
    target_of start peak steps (pos i) ∷ targets_from start peak steps (suc i) left

-- A transition and a dwell for each rung.
stages_of : ℤ → ℤ → List ℤ → List RampStage
stages_of dwell transition [] = []
stages_of dwell transition (t ∷ ts) =
    record { target = t; duration = transition }
    ∷ record { target = t; duration = dwell }
    ∷ stages_of dwell transition ts

unfoldable pub at_least_one : ℤ → ℤ
at_least_one steps = if ltb_ℤ steps (pos 1) then pos 1 else steps

unfoldable pub ramp_stages : ℤ → ℤ → ℤ → ℤ → ℤ → List ℤ × List RampStage
unfolding targets_from stages_of at_least_one target_of
ramp_stages start peak steps dwell transition =
    let rungs = at_least_one steps in
    let ramping = if leb_ℤ transition (pos 0) then pos 1_000_000_000 else transition in
    let targets = targets_from start peak rungs 0 (pos_part rungs) in
    (targets, stages_of dwell ramping targets)

module _ (F : Type 0) ⦃fl : Float F⦄ where
  unfoldable pub step_windows : ℤ → List ℤ → ℤ → ℤ → List (Step F)
  step_windows at [] dwell transition = []
  step_windows at (t ∷ ts) dwell transition =
      let held = at +ℤ transition in
      record { offered = fl.of_int t; from = held; to = held +ℤ (dwell -ℤ pos 1) }
      ∷ step_windows (held +ℤ dwell) ts dwell transition
