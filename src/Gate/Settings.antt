-- ===== src/Gate/Settings.antt =====
-- gate/gates.go, the thresholds `Config` and the helpers the gates share.
use octo_performance.Prelude.{ℕ, Bool, List, [], ◌∷◌, ◌^◌, if◌then◌else◌}
use octo_performance.Prelude.Float.{Float, ◌*F◌, ◌/F◌, ◌=F◌, zero_float, of_nat}
use octo_performance.Gate.{Finding}

pub record Config (F : Type 0) : Type 0 where
  pub runner_cpu_ceiling_pct : F
  pub pool_growth_suspect : F
  pub pool_growth_invalid : F
  pub peer_pool_ratio_invalid : F
  pub max_failed_rate : F
  pub max_dropped_iterations : F
  pub achieved_vs_offered_min : F
  pub max_clock_drift_ms : F
  pub observe_only : Bool

module _ {F : Type 0} ⦃fl : Float F⦄ where
  abbrev pub or_default : F → F → F
  or_default x d = if x =F zero_float then d else x

  unfoldable pub with_defaults : Config F → Config F
  with_defaults c = record c {
    runner_cpu_ceiling_pct = or_default c.runner_cpu_ceiling_pct (of_nat 80);
    pool_growth_suspect = or_default c.pool_growth_suspect (fl.decimal 10 1);
    pool_growth_invalid = or_default c.pool_growth_invalid (fl.decimal 20 1);
    peer_pool_ratio_invalid = or_default c.peer_pool_ratio_invalid (fl.decimal 20 1);
    achieved_vs_offered_min = or_default c.achieved_vs_offered_min (fl.decimal 99 2);
    max_clock_drift_ms = or_default c.max_clock_drift_ms (of_nat 50);
  }

  unfoldable pub round_to : F → ℕ → F
  round_to v places = let p = of_nat (10 ^ places) in fl.of_int (fl.round (v *F p)) /F p

  -- `if test { out = append(out, f) }`
  abbrev pub when : Bool → Finding F → List (Finding F)
  when test f = if test then f ∷ [] else []
