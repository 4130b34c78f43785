-- ===== src/Stats/Knee/Rungs.antt =====
-- What `FindKnee` reports of a ramp: which rungs held, and the rate it gives.
use octo_performance.Prelude.{
  ◌≡◌, refl, sym, ap, ◌∙◌, true, false, Option, none, some, List, [], ◌∷◌, ◌++◌, map, arith,
  Bool-cases, inl, inr, ◌⊎◌, All, All-append,
}
use mathlib.Core.List.{append-nil}
use octo_performance.Prelude.Float.{Float, zero_float}
use octo_performance.Stats.Knee.{
  Step, StepResult, KneeConfig, Knee, Ramp, measure, next_reference, judge_rung, climb, find_knee,
  knee_with_defaults,
}

module _ {F : Type 0} where
  abbrev pub IsHeld : StepResult F → Type 0
  IsHeld r = r.held ≡ true

  -- The offered rate of the last result, or `d`.
  abbrev pub last_offered : F → List (StepResult F) → F
  last_offered d [] = d
  last_offered d (r ∷ rs) = last_offered r.offered rs

  abbrev pub rates : List (StepResult F) → List F
  rates = map (λ r. r.offered)

  abbrev pub offers : List (Step F) → List F
  offers = map (λ s. s.offered)

  last_offered-append :
      (d : F) (rs : List (StepResult F)) (r : StepResult F)
      → last_offered d (rs ++ (r ∷ [])) ≡ r.offered
  last_offered-append d [] r = refl
  last_offered-append d (x ∷ xs) r = last_offered-append x.offered xs r

module _ {F : Type 0} ⦃fl : Float F⦄ where
  -- A ramp that broke: every rung below the last one read held, the last one did not, and the rate is
  -- what the highest rung that held offered, zero if there is none.
  pub record IsBroken (offered : List F) (k : Knee F) : Type 0 where
    pub held : List (StepResult F)
    pub broke : StepResult F
    pub rest : List F
    pub steps_eq : k.steps ≡ held ++ (broke ∷ [])
    pub all_held : All IsHeld held
    pub not_held : broke.held ≡ false
    pub rate_eq : k.rate ≡ last_offered zero_float held
    pub failed_at_eq : k.failed_at ≡ broke.offered
    pub offered_eq : rates k.steps ++ rest ≡ offered

  -- A ramp that held: every rung was read and held.
  pub record IsUnbroken (offered : List F) (k : Knee F) : Type 0 where
    pub all_held : All IsHeld k.steps
    pub rate_eq : k.rate ≡ last_offered zero_float k.steps
    pub failed_at_eq : k.failed_at ≡ zero_float
    pub offered_eq : rates k.steps ≡ offered

  judge_rung-offered :
      (cfg : KneeConfig F) (first reference : F) (r : StepResult F)
      → (judge_rung cfg first reference r).offered ≡ r.offered
  unfolding judge_rung
  judge_rung-offered cfg first reference r = ground arith

  measure-offered : (ramp : Ramp F) (s : Step F) → (measure ramp s).offered ≡ s.offered
  unfolding measure
  measure-offered ramp s = refl

  rates_grow :
      (done : List (StepResult F)) (r : StepResult F) (s : Step F) (rest : List F)
      → r.offered ≡ s.offered
      → rates (done ++ (r ∷ [])) ++ rest ≡ rates done ++ (s.offered ∷ rest)
  rates_grow [] r s rest e = ap (λ o. o ∷ rest) e
  rates_grow (x ∷ xs) r s rest e = ap (◌∷◌ x.offered) (rates_grow xs r s rest e)

  abbrev Outcome : List F → Knee F → Type 0
  Outcome offered k =
      (k.found ≡ true) × IsBroken offered k ⊎ (k.found ≡ false) × IsUnbroken offered k

  climb_lem :
      (cfg : KneeConfig F) (ramp : Ramp F) (first reference rate : F) (previous : Option F)
      (done : List (StepResult F)) (steps : List (Step F))
      → All IsHeld done
      → rate ≡ last_offered zero_float done
      → (elim previous [ none ↦ rate | some below ↦ below ]) ≡ last_offered zero_float done
      → Outcome
          (rates done ++ offers steps)
          (climb cfg ramp first reference rate previous done steps)
  unfolding climb judge_rung
  climb_lem cfg ramp first reference rate previous done [] held e p = inr (
    refl,
    record {
      all_held = held;
      rate_eq = e;
      failed_at_eq = refl;
      offered_eq = sym (append-nil (rates done));
    },
  )
  climb_lem cfg ramp first reference rate previous done (s ∷ rest) held e p =
      let measured = measure ramp s in
      let reference' = next_reference reference measured in
      let r = judge_rung cfg first reference' measured in
      let done' = done ++ (r ∷ []) in
      let r_offered : r.offered ≡ s.offered =
        judge_rung-offered cfg first reference' measured ∙ measure-offered ramp s in
      let last' : s.offered ≡ last_offered zero_float done' =
        sym (last_offered-append zero_float done r ∙ r_offered) in
      let seen : rates done' ++ offers rest ≡ rates done ++ (s.offered ∷ offers rest) =
        rates_grow done r s (offers rest) r_offered in
      elim (Bool-cases r.held) [
        | inl h ↦
            rw (h, ← seen)
              (climb_lem cfg ramp first reference' s.offered (some s.offered) done' rest
                (All-append IsHeld done (r ∷ []) held (h, tt)) last' last')
        | inr h ↦ rw h (
            inl (
              refl,
              record {
                held = done;
                broke = r;
                rest = offers rest;
                steps_eq = refl;
                all_held = held;
                not_held = h;
                rate_eq = p;
                failed_at_eq = sym r_offered;
                offered_eq = seen;
              },
            ))
      ]

  -- The knee is found exactly if a rung did not hold. Then it is the last one that was read, all rungs
  -- below it held, the rate is what the last of those offered (zero if the first rung failed), and the
  -- rungs read are the first ones of the ramp, in order. Otherwise every rung of the ramp was read and
  -- held, and the rate is what the last one offered.
  pub find_knee_lem :
      (steps : List (Step F)) (ramp : Ramp F) (cfg : KneeConfig F)
      → let k = find_knee steps ramp cfg in
        ((k.found ≡ true) × IsBroken (offers steps) k)
        ⊎ ((k.found ≡ false) × IsUnbroken (offers steps) k)
  unfolding find_knee
  find_knee_lem [] ramp cfg =
      inr (refl, record { all_held = tt; rate_eq = refl; failed_at_eq = refl; offered_eq = refl })
  find_knee_lem (s ∷ rest) ramp cfg =
      climb_lem (knee_with_defaults cfg) ramp s.offered zero_float zero_float none [] (s ∷ rest) tt
        refl refl
