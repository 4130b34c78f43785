-- ===== src/Stats/Knee.antt =====
-- stats/knee.go, `FindKnee`: the rung of a capacity ramp at which the system stopped keeping up.
pub mod Rungs
use octo_performance.Prelude.{
  ℕ, String, Bool, true, false, Option, none, some, List, [], ◌∷◌, ◌++◌, ◌&&◌, ltb, ◌==◌,
  if◌then◌else◌, length,
}
use octo_performance.Prelude.Int.{ℤ, pos}
use octo_performance.Prelude.Text.{Message, float, sprintf, plain}
use octo_performance.Prelude.Float.{Float, ◌*F◌, ◌/F◌, ◌<F◌, ◌≤F◌, ◌=F◌, zero_float, of_nat}
use octo_performance.Series
use octo_performance.Series.{Series}
use octo_performance.Series.Moments.{mean, sum}

pub record Step (F : Type 0) : Type 0 where
  pub offered : F
  pub from : ℤ
  pub to : ℤ

pub record StepResult (F : Type 0) : Type 0 where
  pub offered : F
  pub achieved : F
  pub ratio : F
  pub dropped : F
  pub failed : F
  pub latency_ms : F
  pub seconds : ℕ
  pub held : Bool
  pub why : Message F

pub record KneeConfig (F : Type 0) : Type 0 where
  pub achieved_vs_offered_min : F
  pub latency_factor : F
  pub max_dropped : F
  pub max_failed_rate : F

pub record Knee (F : Type 0) : Type 0 where
  pub found : Bool
  pub rate : F
  pub failed_at : F
  pub steps : List (StepResult F)
  pub note : Message F

-- The four series of a ramp.
pub record Ramp (F : Type 0) : Type 0 where
  pub rps : Series F
  pub dropped : Series F
  pub failed : Series F
  pub latency : Series F

module _ {F : Type 0} ⦃fl : Float F⦄ where
  unfoldable pub default_knee : KneeConfig F
  default_knee = record {
    achieved_vs_offered_min = fl.decimal 99 2;
    latency_factor = fl.decimal 30 1;
    max_dropped = zero_float;
    max_failed_rate = zero_float;
  }

  abbrev or_default : F → F → F
  or_default x d = if x =F zero_float then d else x

  unfoldable pub knee_with_defaults : KneeConfig F → KneeConfig F
  unfolding default_knee
  knee_with_defaults c = record c {
    achieved_vs_offered_min =
        or_default c.achieved_vs_offered_min default_knee.achieved_vs_offered_min;
    latency_factor = or_default c.latency_factor default_knee.latency_factor;
  }

  -- `Knee.Chosen`
  unfoldable pub chosen : Knee F → F → ℤ
  chosen k fraction =
      if k.rate ≤F zero_float
      then pos 0
      else if fraction ≤F zero_float
      then pos 0
      else fl.floor (k.rate *F fraction)

  abbrev or_zero : Option F → F
  or_zero none = zero_float
  or_zero (some x) = x

  -- What a rung measured, before it is judged.
  unfoldable pub measure : Ramp F → Step F → StepResult F
  measure ramp s =
      let win = Series.window ramp.rps s.from s.to in
      let achieved = or_zero (mean win) in
      record {
        offered = s.offered;
        achieved = achieved;
        ratio = if zero_float <F s.offered then achieved /F s.offered else zero_float;
        dropped = or_zero (sum (Series.window ramp.dropped s.from s.to));
        failed = or_zero (sum (Series.window ramp.failed s.from s.to));
        latency_ms = or_zero (mean (Series.window ramp.latency s.from s.to));
        seconds = Series.len win;
        held = false;
        why = plain "";
      }

  -- The first rung with a latency reading is the reference.
  unfoldable pub next_reference : F → StepResult F → F
  next_reference reference r =
      if reference =F zero_float && zero_float <F r.latency_ms then r.latency_ms else reference

  -- The five conditions, in order; `first` is what the first rung offered.
  unfoldable pub judge_rung : KneeConfig F → F → F → StepResult F → StepResult F
  judge_rung cfg first reference r =
      if r.seconds == 0
      then record r { why = plain "produced no observations" }
      else if cfg.max_dropped <F r.dropped
      then record r { why = sprintf "the generator shed %.0f iterations" (float r.dropped ∷ []) }
      else if zero_float <F r.failed
          && zero_float <F r.achieved
          && cfg.max_failed_rate <F r.failed /F (r.achieved *F of_nat r.seconds)
      then record r { why = sprintf "%.0f requests failed" (float r.failed ∷ []) }
      else if r.ratio <F cfg.achieved_vs_offered_min
      then record r {
        why =
            sprintf "achieved %.0f of %.0f offered (%.1f%%)"
              (float r.achieved ∷ float r.offered ∷ float (r.ratio *F of_nat 100) ∷ []);
      }
      else if zero_float <F reference && reference *F cfg.latency_factor <F r.latency_ms
      then record r {
        why = sprintf "mean latency %.2fms against %.2fms at %.0f req/s (%.1fx)" (
            float r.latency_ms
            ∷ float reference
            ∷ float first
            ∷ float (r.latency_ms /F reference)
            ∷ []);
      }
      else record r { held = true }

  -- The note of a ramp that broke; `previous` is what the rung below offered, if there is one.
  abbrev broken_note : Option F → F → Message F → Message F
  broken_note none offered why = record {
    format = "the ramp did not hold its first rung of %.0f req/s: %s";
    args = float offered ∷ why.args;
  }
  broken_note (some rate) offered why = record {
    format = "held %.0f req/s; %.0f req/s %s";
    args = float rate ∷ float offered ∷ why.args;
  }

  -- The loop: `done` are the results so far, `rate` is k.Rate, and `previous` is steps[i-1].
  climb :
      KneeConfig F → Ramp F → F → F → F → Option F → List (StepResult F) → List (Step F) → Knee F
  climb cfg ramp first reference rate previous done [] = record {
    found = false;
    rate = rate;
    failed_at = zero_float;
    steps = done;
    note =
        sprintf
          "no rung folded over: the ramp held every step up to %.0f req/s, which is a lower bound on capacity rather than a measurement of it"
          (float rate ∷ []);
  }
  climb cfg ramp first reference rate previous done (s ∷ rest) =
      let measured = measure ramp s in
      let reference' = next_reference reference measured in
      let r = judge_rung cfg first reference' measured in
      let higher =
        climb cfg ramp first reference' s.offered (some s.offered) (done ++ (r ∷ [])) rest in
      if r.held then higher else record {
        found = true;
        rate = elim previous [ none ↦ rate | some below ↦ below ];
        failed_at = s.offered;
        steps = done ++ (r ∷ []);
        note = broken_note previous s.offered r.why;
      }

  unfoldable pub find_knee : List (Step F) → Ramp F → KneeConfig F → Knee F
  unfolding climb
  find_knee [] ramp cfg = record {
    found = false;
    rate = zero_float;
    failed_at = zero_float;
    steps = [];
    note = plain "the ramp declared no steps";
  }
  find_knee (s ∷ rest) ramp cfg =
      climb (knee_with_defaults cfg) ramp s.offered zero_float zero_float none [] (s ∷ rest)
