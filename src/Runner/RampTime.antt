-- ===== src/Runner/RampTime.antt =====
-- The ramp that k6 climbs lasts as long as the pass that is asked for.
use octo_performance.Prelude.{
  ℕ, zero, suc, ◌+◌, ◌*◌, ◌^◌, ◌<◌, ◌≤◌, String, Bool, false, List, [], ◌∷◌, ◌++◌, map, ◌≡◌, refl,
  sym, ap, ◌∙◌, arith, Bool-cases, inl, inr,
}
use octo_performance.Prelude.Int.{
  ℤ, pos, negsuc, ◌+ℤ◌, ◌*ℤ◌, ◌<ℤ◌, pos_part, neg_part, leb_ℤ, wrap64,
}
use native.Mathlib.Nat.{mul-le-mul, le_refl}
use octo_performance.Prelude.Word.{wrap64-pos}
use octo_performance.Prelude.Float.{Float}
use octo_performance.Spec
use octo_performance.Spec.{Scenario, Capacity, ramp_with_defaults, ramp_duration, positive_or}
use octo_performance.Stats.Ramp.{RampStage, ramp_stages}
use octo_performance.Stats.Ramp.Lasting.{lasting, sum_pos, lasting-ramp_stages}
use octo_performance.Loadgen.K6.{LoadStage}
use octo_performance.Runner.Requests.{Endpoints}
use octo_performance.Runner.Calibration.{warmup_stages, stage_of, ramp_of, capacity_request}

abbrev pub total : List LoadStage → ℤ
total [] = pos 0
total (s ∷ ss) = s.duration +ℤ total ss

total-map : (ss : List RampStage) → total (map stage_of ss) ≡ lasting ss
total-map [] = refl
total-map (s ∷ ss) = ap (λ n. s.duration +ℤ n) (total-map ss)

positive : (x : ℤ) (d : ℕ) → (n : ℕ) × (positive_or x (pos (suc d)) ≡ pos (suc n))
positive x d = elim (Bool-cases (leb_ℤ x (pos 0))) [ inl b ↦ (d, rw b refl) | inr b ↦ above x b ]
  where
    above :
        (y : ℤ) → leb_ℤ y (pos 0) ≡ false → (n : ℕ) × (positive_or y (pos (suc d)) ≡ pos (suc n))
    above (pos zero) h = absurd (ground (arith, h))
    above (pos (suc n)) h = (n, rw h refl)
    above (negsuc n) h = absurd (ground (arith, h))

positive_again : (n : ℕ) (d : ℤ) → positive_or (pos (suc n)) d ≡ pos (suc n)
positive_again n d = let e : leb_ℤ (pos (suc n)) (pos 0) ≡ false = ground arith in rw e refl

times_pos : (a b : ℕ) → pos a *ℤ pos b ≡ pos (a * b)
unfolding ◌*ℤ◌
times_pos a b = ground arith

abbrev duration_of : ℤ → ℤ → ℤ → ℤ → ℤ
duration_of transition warmup steps dwell =
    wrap64 (wrap64 (transition +ℤ warmup) +ℤ wrap64 (steps *ℤ wrap64 (dwell +ℤ transition)))

sum_held : (a b : ℕ) → a + b < 2 ^ 63 → wrap64 (pos a +ℤ pos b) ≡ pos (a + b)
sum_held a b h = ap wrap64 (sum_pos a b) ∙ wrap64-pos (a + b) h

-- The same time, counted by the stages and by the formula.
counted :
    (t w s d : ℕ)
    → t + (w + suc s * (t + d)) < 2 ^ 63
    → pos t +ℤ (pos w +ℤ pos (suc s * (t + d))) ≡ duration_of (pos t) (pos w) (pos (suc s)) (pos d)
counted t w s d h =
    let all = suc s * (d + t) in
    let one : 1 * (d + t) ≤ all = mul-le-mul (omega arith) (le_refl (d + t)) in
    let turned : suc s * (t + d) ≡ all = ground arith in
    let product : wrap64 (pos (suc s) *ℤ wrap64 (pos d +ℤ pos t)) ≡ pos all =
      ap (λ z. wrap64 (pos (suc s) *ℤ z)) (sum_held d t (omega (arith, one, turned, h)))
      ∙ ap wrap64 (times_pos (suc s) (d + t))
      ∙ wrap64-pos all (omega (arith, turned, h)) in
    ap (λ z. pos t +ℤ (pos w +ℤ pos z)) turned
    ∙ ap (λ z. pos t +ℤ z) (sum_pos w all)
    ∙ sum_pos t (w + all)
    ∙ ap pos (omega arith)
    ∙ sym (sum_held (t + w) all (omega (arith, turned, h)))
    ∙ ap (λ z. wrap64 (z +ℤ pos all)) (sym (sum_held t w (omega (arith, turned, h))))
    ∙ ap (λ z. wrap64 (wrap64 (pos t +ℤ pos w) +ℤ z)) (sym product)

same_default : (x d : ℤ) (n : ℕ) → x ≡ pos (suc n) → positive_or x d ≡ x
same_default x d n e = ap (λ y. positive_or y d) e ∙ positive_again n d ∙ sym e

duration_lem :
    (c : Capacity) (s d t w : ℕ)
    → c.steps ≡ pos (suc s)
    → c.dwell ≡ pos (suc d)
    → c.transition ≡ pos (suc t)
    → c.warmup ≡ pos (suc w)
    → ramp_duration c ≡ duration_of c.transition c.warmup c.steps c.dwell
unfolding ramp_duration ramp_with_defaults
duration_lem c s d t w es ed et ew =
    ap
      (λ z.
        duration_of z (positive_or c.warmup (positive_or c.dwell (pos 15_000_000_000)))
          (positive_or c.steps (pos 10)) (positive_or c.dwell (pos 15_000_000_000)))
      (same_default c.transition (pos 1_000_000_000) t et)
    ∙ ap
        (λ z.
          duration_of c.transition z (positive_or c.steps (pos 10))
            (positive_or c.dwell (pos 15_000_000_000)))
        (same_default c.warmup (positive_or c.dwell (pos 15_000_000_000)) w ew)
    ∙ ap (λ z. duration_of c.transition c.warmup z (positive_or c.dwell (pos 15_000_000_000)))
        (same_default c.steps (pos 10) s es)
    ∙ ap (duration_of c.transition c.warmup c.steps)
        (same_default c.dwell (pos 15_000_000_000) d ed)

ramp_lem :
    (c : Capacity) (s d t : ℕ)
    → c.steps ≡ pos (suc s)
    → c.dwell ≡ pos (suc d)
    → c.transition ≡ pos (suc t)
    → lasting (ramp_of c).1 ≡ pos (suc s * (suc t + suc d))
unfolding ramp_of
ramp_lem c s d t es ed et =
    ap (λ z. lasting (ramp_stages c.start_rate c.peak_rate z c.dwell c.transition).1) es
    ∙ ap (λ z. lasting (ramp_stages c.start_rate c.peak_rate (pos (suc s)) z c.transition).1) ed
    ∙ ap (λ z. lasting (ramp_stages c.start_rate c.peak_rate (pos (suc s)) (pos (suc d)) z).1) et
    ∙ lasting-ramp_stages c.start_rate c.peak_rate s (suc d) t

counted_stages :
    (c : Capacity) (s d t w : ℕ)
    → c.steps ≡ pos (suc s)
    → c.dwell ≡ pos (suc d)
    → c.transition ≡ pos (suc t)
    → c.warmup ≡ pos (suc w)
    → total (warmup_stages c ++ map stage_of (ramp_of c).1)
      ≡ pos (suc t) +ℤ (pos (suc w) +ℤ pos (suc s * (suc t + suc d)))
counted_stages c s d t w es ed et ew =
    ap (λ z. c.transition +ℤ (c.warmup +ℤ z)) (total-map (ramp_of c).1 ∙ ramp_lem c s d t es ed et)
    ∙ ap (λ z. z +ℤ (c.warmup +ℤ pos (suc s * (suc t + suc d)))) et
    ∙ ap (λ z. pos (suc t) +ℤ (z +ℤ pos (suc s * (suc t + suc d)))) ew

-- The stages' time as a natural number.
stages_held :
    (t w r : ℕ) (z : ℤ) → z ≡ pos t +ℤ (pos w +ℤ pos r) → z <ℤ pos (2 ^ 63) → t + (w + r) < 2 ^ 63
stages_held t w r z e h =
    let whole : z ≡ pos (t + (w + r)) =
      e ∙ ap (λ y. pos t +ℤ y) (sum_pos w r) ∙ sum_pos t (w + r) in
    let up : pos_part z ≡ t + (w + r) = ap pos_part whole in
    let down : neg_part z ≡ 0 = ap neg_part whole in omega (arith, up, down, h)

-- Once the durations and the count are positive, the defaults leave them alone.
lasts :
    (c : Capacity) (s d t w : ℕ)
    → c.steps ≡ pos (suc s)
    → c.dwell ≡ pos (suc d)
    → c.transition ≡ pos (suc t)
    → c.warmup ≡ pos (suc w)
    → total (warmup_stages c ++ map stage_of (ramp_of c).1) <ℤ pos (2 ^ 63)
    → total (warmup_stages c ++ map stage_of (ramp_of c).1) ≡ ramp_duration c
lasts c s d t w es ed et ew h =
    let stages = counted_stages c s d t w es ed et ew in
    stages
    ∙ counted (suc t) (suc w) s (suc d)
        (stages_held (suc t) (suc w) (suc s * (suc t + suc d)) _ stages h)
    ∙ ap (λ z. duration_of z (pos (suc w)) (pos (suc s)) (pos (suc d))) (sym et)
    ∙ ap (λ z. duration_of c.transition z (pos (suc s)) (pos (suc d))) (sym ew)
    ∙ ap (λ z. duration_of c.transition c.warmup z (pos (suc d))) (sym es)
    ∙ ap (duration_of c.transition c.warmup c.steps) (sym ed)
    ∙ sym (duration_lem c s d t w es ed et ew)

module _ {F : Type 0} ⦃fl : Float F⦄ (itoa : ℤ → String) (to_upper : String → String) where
  -- Whatever a scenario declares of its ramp, as long as a time.Duration, an int64 of nanoseconds, can
  -- hold the time of the stages that k6 is handed: they last together exactly as long as the pass that
  -- is asked for.
  pub capacity_request-lasts :
      (e : Endpoints) (sc : Scenario F) (l : Spec.Load F) (has_bytes : Bool)
      → total (capacity_request itoa to_upper e sc l has_bytes).stages <ℤ pos (2 ^ 63)
      → total (capacity_request itoa to_upper e sc l has_bytes).stages
        ≡ (capacity_request itoa to_upper e sc l has_bytes).duration
  unfolding capacity_request ramp_with_defaults
  capacity_request-lasts e sc l has_bytes held =
      let cap = sc.capacity in
      let (s, es) = positive cap.steps 9 in
      let (d, ed) = positive cap.dwell 14_999_999_999 in
      let (t, et) = positive cap.transition 999_999_999 in
      let (w, ew) = positive cap.warmup d in
      lasts (ramp_with_defaults cap) s d t w es ed et (ap (positive_or cap.warmup) ed ∙ ew) held
