-- ===== src/Spec/Validation.antt =====
-- spec/spec.go, the `Validate` methods. Each answers the errors that it joins, in order: a
-- specification is accepted when there are none.
use octo_performance.Prelude.{
  ℕ, suc, String, Bool, not, ◌&&◌, ◌||◌, List, [], ◌∷◌, ◌++◌, any, ltb, is_empty, length,
  if◌then◌else◌,
}
use octo_performance.Prelude.Int.{pos, ltb_ℤ, leb_ℤ, eqb_ℤ}
use octo_performance.Prelude.Text.{Message, float, int, str, sprintf, plain, str_eq, blank}
use octo_performance.Prelude.Float.{Float, ◌≤F◌, zero_float, of_nat}
use octo_performance.Payload
use octo_performance.Payload.{Codec, Built, ok, failed}
use octo_performance.Spec.{
  Arm, Load, Campaign, Scenario, Selector, Capacity, resolved, has_body, declared,
  ramp_with_defaults,
}

-- The name is in the map `seen`.
abbrev pub mem : String → List String → Bool
mem name = any (str_eq name)

module _ {F : Type 0} where
  -- `if test { errs = append(errs, e) }`
  abbrev pub refuse : Bool → Message F → List (Message F)
  refuse test e = if test then e ∷ [] else []

  unfoldable pub check_arm : ℕ → Arm → List (Message F)
  check_arm i a =
      refuse (not (resolved a.binary))
        (sprintf "arm %q does not say which binary to test" (str a.name ∷ []))
      ++ refuse (not (str_eq a.config.mode "baseline") && not (str_eq a.config.mode "tuned")) (
          sprintf "arm %q has config mode %q, want %q or %q"
            (str a.name ∷ str a.config.mode ∷ str "baseline" ∷ str "tuned" ∷ []))
      ++ refuse (str_eq a.config.mode "baseline" && not (is_empty a.config.knobs)) (
          sprintf "arm %q is a baseline but sets knobs; baseline strips, it never hardcodes"
            (str a.name ∷ []))

  -- The loop over the arms, at arm `i`, with the names seen so far.
  unfoldable pub check_arms : ℕ → List String → List Arm → List (Message F)
  unfolding check_arm
  check_arms i seen [] = []
  check_arms i seen (a ∷ arms) =
      if blank a.name
      then sprintf "arm %d has no name" (int (pos i) ∷ [])
        ∷ (check_arm i a ++ check_arms (suc i) seen arms)
      else if mem a.name seen
      then sprintf "arm name %q is used twice" (str a.name ∷ [])
        ∷ (check_arm i a ++ check_arms (suc i) seen arms)
      else check_arm i a ++ check_arms (suc i) (a.name ∷ seen) arms

  unfoldable pub check_order : String → String → List (Message F)
  check_order order reason =
      if str_eq order "interleaved"
      then []
      else if str_eq order "blocked"
      then refuse (blank reason) (
          sprintf "order %q confounds any delta with time-in-session; state an orderReason"
            (str "blocked" ∷ []))
      else sprintf "unknown order %q" (str order ∷ []) ∷ []

  unfoldable pub validate_campaign : Campaign F → List (Message F)
  unfolding check_arms check_order
  validate_campaign c =
      refuse (blank c.name) (plain "campaign needs a name")
      ++ (refuse (is_empty c.scenarios) (plain "campaign names no scenarios")
          ++ (refuse (ltb (length c.arms) 2) (
                sprintf "a campaign compares arms: %d given, need at least 2"
                  (int (pos (length c.arms)) ∷ []))
              ++ (refuse (ltb_ℤ c.reps (pos 1))
                    (sprintf "reps must be positive, got %d" (int c.reps ∷ []))
                  ++ (check_arms 0 [] c.arms ++ check_order c.order c.order_reason))))

  -- The loop over the tunables, with the names seen so far.
  unfoldable pub check_tunables : List String → List Selector → List (Message F)
  check_tunables seen [] = []
  check_tunables seen (t ∷ ts) =
      if blank t.name
      then plain "a tunable has no name" ∷ check_tunables seen ts
      else refuse (mem t.name seen) (sprintf "tunable %q is declared twice" (str t.name ∷ []))
        ++ check_tunables (t.name ∷ seen) ts

  unfoldable pub check_capacity : Capacity → List (Message F)
  check_capacity c = refuse (declared c && leb_ℤ c.peak_rate (ramp_with_defaults c).start_rate) (
      sprintf "capacity ramp starts at %d and peaks at %d, so it has nowhere to climb"
        (int (ramp_with_defaults c).start_rate ∷ int c.peak_rate ∷ []))

  -- The error of payload.Build.
  abbrev pub built_error : {A : Type 0} → Built F A → List (Message F)
  built_error (ok b) = []
  built_error (failed e) = e ∷ []

module _ {F : Type 0} ⦃fl : Float F⦄ where
  unfoldable pub validate_load : Load F → List (Message F)
  validate_load l =
      refuse (leb_ℤ l.duration (pos 0)) (plain "needs a duration")
      ++ (if str_eq l.model "closed"
          then refuse (eqb_ℤ l.vus (pos 0)) (plain "a closed-model load needs vus")
          else if str_eq l.model "open" || str_eq l.model ""
          then refuse (eqb_ℤ l.rate (pos 0) && not l.calibrate)
              (plain "an open-model load needs a rate, or calibrate: true")
            ++ refuse (l.calibrate && not (eqb_ℤ l.rate (pos 0)))
                (plain "a load cannot both calibrate its rate and declare one")
            ++ refuse
                (l.calibrate
                  && (l.calibrate_fraction ≤F zero_float || of_nat 1 ≤F l.calibrate_fraction))
                (sprintf "calibrateFraction must be between 0 and 1, got %v"
                  (float l.calibrate_fraction ∷ []))
          else sprintf "unknown load model %q" (str l.model ∷ []) ∷ [])

  unfoldable pub scenario_errors : Codec F → Scenario F → List (Message F)
  unfolding check_tunables check_capacity
  scenario_errors codec s =
      refuse (blank s.route) (plain "scenario needs a route")
      ++ (refuse (has_body s.request && str_eq s.request.method "")
            (plain "a request with a body must say which method")
          ++ (refuse (not (str_eq s.request.body "") && not (Payload.empty s.request.payload))
                (plain "a request declares either a literal body or a payload generator, not both")
              ++ (refuse (has_body s.request && str_eq s.request.content_type "")
                    (plain "a request with a body must declare a contentType")
                  ++ (built_error (Payload.build codec s.request.payload)
                      ++ (refuse (s.load.calibrate && not (declared s.capacity)) (
                            plain
                              "load.calibrate is set but no capacity ramp is declared; a measured rate needs a peakRate to climb to")
                          ++ (check_capacity s.capacity ++ check_tunables [] s.tunables))))))
