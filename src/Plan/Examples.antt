-- ===== src/Plan/Examples.antt =====
-- The plan of a campaign of two arms and three repetitions, and the theorems at it.
use octo_performance.Prelude.{
  ℕ, ◌≡◌, ◌≢◌, refl, String, ◌||◌, Option, some, none, [], ◌∷◌, map, Perm, get_elem?, arith,
  if◌then◌else◌,
}
use octo_performance.Prelude.Int.{ℤ, pos, negsuc, ◌+ℤ◌}
use octo_performance.Prelude.Text.{str_eq}
use octo_performance.Prelude.Float.{Milli, milli_float}
use octo_performance.Spec.{Scenario, merge}
use octo_performance.Spec.Validation.{validate_load, validate_campaign}
use octo_performance.Spec.Examples.{arm, campaign, scenario, measured, named}
use octo_performance.Plan.{
  CellId, Cell, Plan, Print, from, arm_order, sanitise, Expanded, planned, expand, remaining,
}
use octo_performance.Plan.Balance.{arm_order-balanced}
use octo_performance.Plan.Sequence.{IsFullPlan, expand-total}

order_run : arm_order 3 (pos 2) "interleaved" (negsuc 4) ≡ 2 ∷ 0 ∷ 1 ∷ []
unfolding arm_order octo_performance.Plan.shift_of ◌+ℤ◌ octo_performance.Prelude.Int.rem
    octo_performance.Prelude.Int.wrap64 octo_performance.Prelude.Int.◌-ℤ◌
order_run = refl

sanitise_run : sanitise "v1.2/new arm" ≡ "v1.2-new-arm"
unfolding sanitise
sanitise_run = refl

arm_order-balanced_example :
    get_elem? (arm_order 3 (pos 1) "interleaved" (negsuc 4)) 1
    ≢ get_elem? (arm_order 3 (pos 3) "interleaved" (negsuc 4)) 1
unfolding ◌+ℤ◌
arm_order-balanced_example =
    arm_order-balanced 3 0 2 1 "interleaved" (negsuc 4) refl (omega arith) (omega arith)
      (omega arith) (omega arith) (omega arith)

abbrev print : Print Milli
print = record { text = λ m. m.format; duration = λ d. "1m0s"; digest = λ s. s }

abbrev loaded : String → Option (Scenario Milli)
loaded id = if str_eq id "001" then some scenario else none

campaign_valid : validate_campaign campaign ≡ []
unfolding validate_campaign octo_performance.Prelude.Text.blank octo_performance.Spec.resolved
campaign_valid = refl

load_valid : validate_load (merge measured named) ≡ []
unfolding validate_load merge
load_valid = refl

expand-total_example :
    (p : Plan Milli) × (expand print campaign loaded ≡ planned p)
    × (p.campaign ≡ campaign.name)
    × IsFullPlan campaign campaign.scenarios 0 p.cells
expand-total_example =
    expand-total print campaign loaded campaign_valid ((scenario, refl, load_valid), tt)

abbrev cell : String → ℕ → Cell Milli
cell name ordinal = record {
  id = record { campaign = "release"; scenario = "001"; arm = name; rep = pos 1 };
  ordinal = ordinal;
  position_in_rep = ordinal;
  scenario = scenario;
  arm = arm name;
  load = named;
}

abbrev three_cells : Plan Milli
three_cells = record {
  campaign = "release";
  hash = "";
  order = "interleaved";
  cells = cell "old" 0 ∷ cell "new" 1 ∷ cell "next" 2 ∷ [];
}
