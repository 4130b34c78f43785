-- ===== src/Spec/Coherence.antt =====
-- What the specifications that `Validate` accepts have in common.
use octo_performance.Prelude.{
  ℕ, suc, ◌≡◌, refl, ap, sym, ◌∙◌, String, Bool, true, false, not, ◌&&◌, ◌||◌, List, [], ◌∷◌, ◌++◌,
  map, any, all, ltb, is_empty, length, if◌then◌else◌, arith, Bool-cases, inl, inr,
}
use mathlib.Core.Path.{ap₂}
use octo_performance.Prelude.Int.{pos, ltb_ℤ, leb_ℤ, eqb_ℤ}
use octo_performance.Prelude.Text.{Message, str_eq, blank}
use octo_performance.Prelude.Float.{Float, ◌≤F◌, zero_float, of_nat}
use octo_performance.Payload
use octo_performance.Payload.{Codec, Built, ok, failed}
use octo_performance.Spec.{
  Arm, Load, Campaign, Scenario, Selector, Capacity, resolved, has_body, declared,
  ramp_with_defaults,
}
use octo_performance.Spec.Validation.{
  refuse, mem, check_arm, check_arms, check_order, validate_campaign, check_tunables,
  check_capacity, built_error, validate_load, scenario_errors,
}

is_empty-append {ℓ} :
    {A : Type ℓ} (xs ys : List A) → is_empty (xs ++ ys) ≡ (is_empty xs && is_empty ys)
is_empty-append [] ys = refl
is_empty-append (x ∷ xs) ys = refl

-- No name occurs twice.
pub distinct : List String → Bool
distinct [] = true
distinct (n ∷ ns) = not (any (λ m. str_eq m n) ns) && distinct ns

unseen-cons :
    (n : String) (seen names : List String)
    → all (λ m. not (mem m (n ∷ seen))) names
      ≡ (not (any (λ m. str_eq m n) names) && all (λ m. not (mem m seen)) names)
unseen-cons n seen [] = refl
unseen-cons n seen (m ∷ names) = ground (arith, unseen-cons n seen names)

all-unseen : (names : List String) → all (λ m. not (mem m [])) names ≡ true
all-unseen [] = refl
all-unseen (n ∷ names) = all-unseen names

-- The arm names its artifact and has a mode, a baseline no knobs.
pub is_runnable : Arm → Bool
is_runnable a =
    resolved a.binary
    && ((str_eq a.config.mode "baseline" && is_empty a.config.knobs)
        || (str_eq a.config.mode "tuned" && not (str_eq a.config.mode "baseline")))

plus :
    {A : Type 0} {a b : Bool} (xs ys : List A)
    → is_empty xs ≡ a
    → is_empty ys ≡ b
    → is_empty (xs ++ ys) ≡ (a && b)
plus xs ys p q = is_empty-append xs ys ∙ ap₂ (λ a b. a && b) p q

module _ {F : Type 0} where
  is_empty-refuse : (test : Bool) (e : Message F) → is_empty (refuse test e) ≡ not test
  is_empty-refuse true e = refl
  is_empty-refuse false e = refl

-- The order is interleaved, or blocked for a stated reason.
pub is_ordered : String → String → Bool
is_ordered order reason =
    str_eq order "interleaved" || (str_eq order "blocked" && not (blank reason))

regroup : (r a d x u : Bool) → (r && (a && (d && (x && u)))) ≡ ((r && a) && ((x && d) && u))
regroup r a d x u = ground arith

all_false : (r x u : Bool) → (r && (x && (false && u))) ≡ false
all_false r x u = ground arith

module _ (F : Type 0) where
  check_arm_lem : (i : ℕ) (a : Arm) → is_empty (check_arm {F = F} i a) ≡ is_runnable a
  unfolding check_arm is_runnable
  check_arm_lem i a = ground arith

  check_arms_lem :
      (i : ℕ) (seen : List String) (arms : List Arm)
      → is_empty (check_arms {F = F} i seen arms) ≡ (
          all (λ a. not (blank a.name) && is_runnable a) arms
          && (distinct (map (λ a. a.name) arms)
              && all (λ m. not (mem m seen)) (map (λ a. a.name) arms)))
  unfolding check_arms distinct
  check_arms_lem i seen [] = refl
  check_arms_lem i seen (a ∷ arms) =
      let names = map (λ a. a.name) arms in
      let ready = all (λ a. not (blank a.name) && is_runnable a) arms in
      let unseen = all (λ m. not (mem m seen)) names in
      let apart = unseen-cons a.name seen names in
      let later = check_arms_lem (suc i) (a.name ∷ seen) arms in
      elim (Bool-cases (blank a.name)) [
        | inl e ↦ rw e refl
        | inr e ↦ elim (Bool-cases (mem a.name seen)) [
          | inl m ↦ rw (e, m) (sym (all_false (is_runnable a && ready) _ unseen))
          | inr m ↦
              rw (e, m)
                (plus (check_arm i a) _ (check_arm_lem i a)
                    (later ∙ ap (λ u. ready && (distinct names && u)) apart)
                  ∙ regroup (is_runnable a) ready (distinct names) _ unseen)
        ]
      ]

  check_tunables_lem :
      (seen : List String) (ts : List Selector)
      → is_empty (check_tunables {F = F} seen ts) ≡ (
          all (λ t. not (blank t.name)) ts
          && (distinct (map (λ t. t.name) ts)
              && all (λ m. not (mem m seen)) (map (λ t. t.name) ts)))
  unfolding check_tunables distinct
  check_tunables_lem seen [] = refl
  check_tunables_lem seen (t ∷ ts) =
      let apart = unseen-cons t.name seen (map (λ t. t.name) ts) in
      let later = check_tunables_lem (t.name ∷ seen) ts in ground (arith, apart, later)

  check_order_lem : (o r : String) → is_empty (check_order {F = F} o r) ≡ is_ordered o r
  unfolding check_order is_ordered
  check_order_lem o r = ground arith

module _ {F : Type 0} where
  -- `Campaign.Validate` accepts exactly the campaigns that have a name, a scenario, two arms or more and
  -- a positive number of repetitions, whose arms have names, all different, and are runnable, and whose
  -- order is interleaved, or blocked with a reason.
  pub validate_campaign_lem :
      (c : Campaign F)
      → is_empty (validate_campaign c) ≡ (
          not (blank c.name)
          && (not (is_empty c.scenarios)
              && (not (ltb (length c.arms) 2)
                  && (not (ltb_ℤ c.reps (pos 1))
                      && ((all (λ a. not (blank a.name) && is_runnable a) c.arms
                            && distinct (map (λ a. a.name) c.arms))
                          && is_ordered c.order c.order_reason)))))
  unfolding validate_campaign
  validate_campaign_lem c =
      let arms = check_arms_lem F 0 [] c.arms in
      let unseen = all-unseen (map (λ a. a.name) c.arms) in
      plus _ _ (is_empty-refuse (blank c.name) _) (
        plus _ _ (is_empty-refuse (is_empty c.scenarios) _) (
          plus _ _ (is_empty-refuse (ltb (length c.arms) 2) _) (
            plus _ _ (is_empty-refuse (ltb_ℤ c.reps (pos 1)) _) (
              plus _ _ (ground (arith, arms, unseen)) (check_order_lem F c.order c.order_reason)))))

is_empty-capacity :
    (F : Type 0) (c : Capacity)
    → is_empty (check_capacity {F = F} c)
      ≡ not (declared c && leb_ℤ c.peak_rate (ramp_with_defaults c).start_rate)
unfolding check_capacity
is_empty-capacity F c = is_empty-refuse _ _

module _ {F : Type 0} ⦃fl : Float F⦄ where
  -- An open load that measures its rate names none and says at what fraction to run; a negative rate or
  -- number of virtual users is accepted like a positive one.
  unfoldable pub is_coherent : Load F → Bool
  is_coherent l =
      ltb_ℤ (pos 0) l.duration
      && (if str_eq l.model "closed"
          then not (eqb_ℤ l.vus (pos 0))
          else (str_eq l.model "open" || str_eq l.model "")
            && (if l.calibrate
                then eqb_ℤ l.rate (pos 0)
                  && not (l.calibrate_fraction ≤F zero_float || of_nat 1 ≤F l.calibrate_fraction)
                else not (eqb_ℤ l.rate (pos 0))))

  -- `Load.Validate` accepts exactly the loads with a positive duration that are closed with a
  -- number of virtual users other than 0, or open (also by saying nothing) with either a rate other than
  -- 0, or calibration, a rate of 0 and a fraction that is neither at most zero nor at least one.
  pub validate_load_lem : (l : Load F) → is_empty (validate_load l) ≡ is_coherent l
  unfolding validate_load is_coherent
  validate_load_lem l = ground arith

  pub built : {A : Type 0} → Built F A → Bool
  built (ok b) = true
  built (failed e) = false

  is_empty-built : {A : Type 0} (b : Built F A) → is_empty (built_error b) ≡ built b
  unfolding built
  is_empty-built (ok b) = refl
  is_empty-built (failed e) = refl

  -- `Scenario.Validate` accepts exactly the scenarios that have a route, a method and a content type for
  -- a body, not two bodies, a payload that can be built, a ramp that climbs if there is one and there
  -- is one if the rate is to be measured, and tunables with names, all different.
  pub scenario_errors_lem :
      (codec : Codec F) (s : Scenario F)
      → is_empty (scenario_errors codec s) ≡ (
          not (blank s.route)
          && (not (has_body s.request && str_eq s.request.method "")
              && (not (not (str_eq s.request.body "") && not (Payload.empty s.request.payload))
                  && (not (has_body s.request && str_eq s.request.content_type "")
                      && (built (Payload.build codec s.request.payload)
                          && (not (s.load.calibrate && not (declared s.capacity))
                              && (not (
                                    declared s.capacity
                                    && leb_ℤ s.capacity.peak_rate
                                        (ramp_with_defaults s.capacity).start_rate)
                                  && (all (λ t. not (blank t.name)) s.tunables
                                      && distinct (map (λ t. t.name) s.tunables)))))))))
  unfolding scenario_errors
  scenario_errors_lem codec s =
      let tunables = check_tunables_lem F [] s.tunables in
      let unseen = all-unseen (map (λ t. t.name) s.tunables) in
      plus _ _ (is_empty-refuse (blank s.route) _) (
        plus _ _ (is_empty-refuse (has_body s.request && str_eq s.request.method "") _) (
          plus _ _
            (is_empty-refuse
              (not (str_eq s.request.body "") && not (Payload.empty s.request.payload)) _)
            (plus _ _ (is_empty-refuse (has_body s.request && str_eq s.request.content_type "") _) (
              plus _ _ (is_empty-built (Payload.build codec s.request.payload)) (
                plus _ _ (is_empty-refuse (s.load.calibrate && not (declared s.capacity)) _) (
                  plus _ _ (is_empty-capacity F s.capacity) (ground (arith, tunables, unseen))))))))
