-- ===== src/Runner/Admitted.antt =====
-- A load that `Validate` accepts, when its pass is started.
use octo_performance.Prelude.{
  String, Bool, true, false, List, ◌≡◌, sym, ◌∙◌, arith, ◌⊎◌, inl, inr, Bool-cases, if◌then◌else◌,
  ◌||◌, is_empty,
}
use octo_performance.Prelude.Int.{ℤ, pos, ltb_ℤ, leb_ℤ}
use octo_performance.Prelude.Float.{Float}
use octo_performance.Prelude.Text.{str_eq}
use octo_performance.Spec
use octo_performance.Spec.{Scenario}
use octo_performance.Spec.Validation.{validate_load}
use octo_performance.Spec.Coherence.{is_coherent, validate_load_lem}
use octo_performance.Loadgen.K6.{Phase, environment}
use octo_performance.Runner.Requests.{Endpoints, load_request}

abbrev pub is_refused {ℓ κ} : {A : Type ℓ} {B : Type κ} → A ⊎ B → Bool
is_refused (inl e) = true
is_refused (inr x) = false

module _ {F : Type 0} ⦃fl : Float F⦄ where
  -- What an accepted load says of its rate and of its virtual users.
  accepted-closed :
      (l : Spec.Load F)
      → is_coherent l ≡ true
      → str_eq l.model "closed" ≡ true
      → leb_ℤ l.vus (pos 0) ≡ ltb_ℤ l.vus (pos 0)
  unfolding is_coherent
  accepted-closed l h m = ground (arith, h, m)

  accepted-open :
      (l : Spec.Load F)
      → is_coherent l ≡ true
      → str_eq l.model "closed" ≡ false
      → leb_ℤ l.rate (pos 0) ≡ (l.calibrate || ltb_ℤ l.rate (pos 0))
  unfolding is_coherent
  accepted-open l h m = ground (arith, h, m)

module _ {F : Type 0} ⦃fl : Float F⦄ (itoa : ℤ → String)
    (encode_stages : List (ℤ × String) → String ⊎ String) (to_upper : String → String) where
  starts :
      (e : Endpoints) (sc : Scenario F) (l : Spec.Load F) (has_bytes : Bool) (phase : Phase)
      (duration : ℤ) (summary_path body_path : String)
      → is_refused (
          environment itoa encode_stages {F = F}
            (load_request itoa to_upper e sc l has_bytes phase duration)
            summary_path
            body_path)
        ≡ (if str_eq l.model "closed" then leb_ℤ l.vus (pos 0) else leb_ℤ l.rate (pos 0))
  unfolding environment load_request
  starts e sc l has_bytes phase duration summary_path body_path = ground arith

  -- Once `Validate` has accepted a load, the generator refuses to start a pass of it exactly if the load
  -- is closed with a negative number of virtual users, or is open with a negative rate or with a rate
  -- that is still to be calibrated. No other accepted load is refused.
  pub environment-validate_load :
      (e : Endpoints) (sc : Scenario F) (l : Spec.Load F) (has_bytes : Bool) (phase : Phase)
      (duration : ℤ) (summary_path body_path : String)
      → is_empty (validate_load l) ≡ true
      → is_refused (
          environment itoa encode_stages {F = F}
            (load_request itoa to_upper e sc l has_bytes phase duration)
            summary_path
            body_path)
        ≡ (if str_eq l.model "closed"
            then ltb_ℤ l.vus (pos 0)
            else l.calibrate || ltb_ℤ l.rate (pos 0))
  environment-validate_load e sc l has_bytes phase duration summary_path body_path valid =
      let h : is_coherent l ≡ true = sym (validate_load_lem l) ∙ valid in
      starts e sc l has_bytes phase duration summary_path body_path
      ∙ elim (Bool-cases (str_eq l.model "closed")) [
        | inl m ↦ rw m (accepted-closed l h m)
        | inr m ↦ rw m (accepted-open l h m)
      ]
