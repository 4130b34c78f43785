-- ===== src/Stats/Ramp/Staircase.antt =====
-- The staircase of `RampStages` and the windows of `StepWindows`.
use octo_performance.Prelude.{
  ℕ, zero, suc, ◌+◌, ◌*◌, ◌/◌, ◌^◌, ◌-◌, ◌<◌, ◌≤◌, ◌≡◌, refl, ap, ◌∙◌, List, [], ◌∷◌, map, arith,
  length, last_or, false, All, All-map, if◌then◌else◌,
}
use native.Mathlib.Nat.{mul-le-mul, le_refl, div-le_of_le-mul}
use octo_performance.Prelude.Int.{
  ℤ, pos, negsuc, pos_part, neg_part, ◌+ℤ◌, ◌-ℤ◌, ◌*ℤ◌, ◌≤ℤ◌, ◌<ℤ◌, quot, ltb_ℤ, leb_ℤ, int_laws,
  wrap64, eq_of_parts, lt→ltb_ℤ, ge→ltb_ℤ,
}
use octo_performance.Prelude.Word.{wrap64_id, wrap64-pos}
use octo_performance.Prelude.Float.{Float}
use octo_performance.Stats.Knee.{Step}
use octo_performance.Stats.Ramp.{target_of, targets_from, stages_of, ramp_stages, step_windows}

pos-mul : (a b : ℕ) → pos a *ℤ pos b ≡ pos (a * b)
unfolding ◌*ℤ◌
pos-mul a b = grind arith

pos_of_nonneg : (z : ℤ) → pos 0 ≤ℤ z → z ≡ pos (pos_part z)
pos_of_nonneg (pos n) h = refl
pos_of_nonneg (negsuc n) h = absurd (omega arith)

-- The arithmetic of a ramp over `gaps` gaps stays inside an int64.
abbrev pub IsHeld : ℤ → ℤ → ℕ → Type 0
IsHeld start peak gaps =
    (negsuc (2 ^ 63 - 1) ≤ℤ start)
    × (peak <ℤ pos (2 ^ 63))
    × (pos_part (peak -ℤ start) * gaps < 2 ^ 63)

share-le : (d i m : ℕ) → i ≤ suc m → d * i / suc m ≤ d
share-le d i m h =
    let below : d * i ≤ d * suc m = mul-le-mul (le_refl d) h in
    div-le_of_le-mul (suc m) (omega arith)

-- The product that is divided among the gaps.
product_held :
    (n i m : ℕ) → i ≤ suc m → n * suc m < 2 ^ 63 → wrap64 (wrap64 (pos n) *ℤ pos i) ≡ pos (n * i)
product_held n i m h b =
    let whole : n * i ≤ n * suc m = mul-le-mul (le_refl n) h in
    let one : n * 1 ≤ n * suc m = mul-le-mul (le_refl n) (omega arith) in
    ap (λ d. wrap64 (d *ℤ pos i)) (wrap64-pos n (omega (arith, one, b)))
    ∙ ap wrap64 (pos-mul n i)
    ∙ wrap64-pos (n * i) (omega (arith, whole, b))

-- The rungs strictly between the ends, when the ramp climbs over `gaps` gaps.
target_of-rising :
    (start peak : ℤ) (gaps i : ℕ)
    → start ≤ℤ peak
    → IsHeld start peak (suc gaps)
    → i ≤ suc gaps
    → target_of start peak (pos (suc (suc gaps))) (pos i)
      ≡ start +ℤ pos (pos_part (peak -ℤ start) * i / suc gaps)
unfolding target_of quot
target_of-rising start peak gaps i h (low, high, fits) below =
    let n = pos_part (peak -ℤ start) in
    let climb : peak -ℤ start ≡ pos n = pos_of_nonneg (peak -ℤ start) (omega int_laws) in
    let span : pos (suc (suc gaps)) -ℤ pos 1 ≡ pos (suc gaps) =
      eq_of_parts (pos (suc (suc gaps)) -ℤ pos 1) (pos (suc gaps)) (omega int_laws) in
    let share : n * i / suc gaps ≤ n = share-le n i gaps below in
    rw (lt→ltb_ℤ (pos 1) (pos (suc (suc gaps))) (omega arith), span)
      (ap (λ d. wrap64 (start +ℤ quot (wrap64 (wrap64 d *ℤ pos i)) (pos (suc gaps)))) climb
        ∙ ap (λ d. wrap64 (start +ℤ quot d (pos (suc gaps)))) (product_held n i gaps below fits)
        ∙ wrap64_id (start +ℤ pos (n * i / suc gaps)) (omega (int_laws, low))
            (omega (int_laws, high, share, ap neg_part climb)))

share_mono : (d i m : ℕ) → d * i / suc m ≤ d * suc i / suc m
share_mono d i m = grind arith

share_all : (d m : ℕ) → d * suc m / suc m ≡ d
share_all d m = grind arith

-- No rate of the list falls below the one before it, starting from `low`.
abbrev pub IsRising : ℤ → List ℤ → Type 0
IsRising low [] = Unit
IsRising low (t ∷ ts) = (low ≤ℤ t) × IsRising t ts

lt_one_false : (gaps : ℕ) → ltb_ℤ (pos (suc (suc gaps))) (pos 1) ≡ false
lt_one_false gaps = ge→ltb_ℤ (pos (suc (suc gaps))) (pos 1) (omega arith)

IsRising-le : (low low' : ℤ) (ts : List ℤ) → IsRising low' ts → low ≤ℤ low' → IsRising low ts
IsRising-le low low' [] r h = tt
IsRising-le low low' (t ∷ ts) (l, r) h = (omega arith, r)

targets_from-last :
    (start peak : ℤ) (gaps i left : ℕ) (d : ℤ)
    → start ≤ℤ peak
    → IsHeld start peak (suc gaps)
    → i + suc left ≡ suc (suc gaps)
    → last_or d (targets_from start peak (pos (suc (suc gaps))) i (suc left)) ≡ peak
unfolding targets_from
targets_from-last start peak gaps i zero d h held e =
    let n = pos_part (peak -ℤ start) in
    let climb : peak -ℤ start ≡ pos n = pos_of_nonneg (peak -ℤ start) (omega int_laws) in
    let last : i ≡ suc gaps = omega arith in
    rw
      (
        last,
        target_of-rising start peak gaps (suc gaps) h held (omega arith),
        share_all n gaps,
        ← climb,
      )
      (eq_of_parts (start +ℤ (peak -ℤ start)) peak (omega int_laws))
targets_from-last start peak gaps i (suc left) d h held e =
    targets_from-last start peak gaps (suc i) left
      (target_of start peak (pos (suc (suc gaps))) (pos i)) h held (omega arith)

length-stages_of :
    (dwell transition : ℤ) (ts : List ℤ) → length (stages_of dwell transition ts) ≡ 2 * length ts
unfolding stages_of
length-stages_of dwell transition [] = refl
length-stages_of dwell transition (t ∷ ts) = omega (arith, length-stages_of dwell transition ts)

targets_from_lem :
    (start peak : ℤ) (gaps i left : ℕ)
    → start ≤ℤ peak
    → IsHeld start peak (suc gaps)
    → i + left ≡ suc (suc gaps)
    → let ts = targets_from start peak (pos (suc (suc gaps))) i left in
      (length ts ≡ left)
      × All (λ t. (start ≤ℤ t) × (t ≤ℤ peak)) ts
      × IsRising (start +ℤ pos (pos_part (peak -ℤ start) * i / suc gaps)) ts
unfolding targets_from
targets_from_lem start peak gaps i zero h held e = (refl, tt, tt)
targets_from_lem start peak gaps i (suc left) h held e =
    let d = pos_part (peak -ℤ start) in
    let (count, bounds, rising) =
      targets_from_lem start peak gaps (suc i) left h held (omega arith) in
    let small : d * i / suc gaps ≤ d = share-le d i gaps (omega arith) in
    let step : d * i / suc gaps ≤ d * suc i / suc gaps = share_mono d i gaps in
    let climb : peak -ℤ start ≡ pos d = pos_of_nonneg (peak -ℤ start) (omega int_laws) in
    rw (target_of-rising start peak gaps i h held (omega arith)) (
      ap suc count,
      ((omega int_laws, omega (int_laws, ap neg_part climb)), bounds),
      (omega arith, IsRising-le _ _ _ rising (omega int_laws)),
    )

module _ {F : Type 0} where
  -- Each window ends before any later one begins.
  abbrev pub InOrder : List (Step F) → Type 0
  InOrder [] = Unit
  InOrder (s ∷ ss) = All (λ t. s.to <ℤ t.from) ss × InOrder ss

module _ (F : Type 0) ⦃fl : Float F⦄ where
  step_windows-from :
      (at low : ℤ) (ts : List ℤ) (dwell transition : ℤ)
      → pos 0 ≤ℤ dwell
      → pos 0 ≤ℤ transition
      → low ≤ℤ at
      → All (λ s. low ≤ℤ s.from) (step_windows F at ts dwell transition)
  unfolding step_windows
  step_windows-from at low [] dwell transition d h l = tt
  step_windows-from at low (t ∷ ts) dwell transition d h l = (
    omega int_laws,
    step_windows-from (at +ℤ transition +ℤ dwell) low ts dwell transition d h (omega int_laws),
  )

  step_windows-InOrder :
      (at : ℤ) (ts : List ℤ) (dwell transition : ℤ)
      → pos 0 ≤ℤ dwell
      → pos 0 ≤ℤ transition
      → InOrder (step_windows F at ts dwell transition)
  unfolding step_windows
  step_windows-InOrder at [] dwell transition d h = tt
  step_windows-InOrder at (t ∷ ts) dwell transition d h =
      let held = at +ℤ transition in
      (
        All-map (λ s l. omega int_laws) _
            (step_windows-from (held +ℤ dwell) (held +ℤ dwell) ts dwell transition d h
              (omega arith)),
        step_windows-InOrder (held +ℤ dwell) ts dwell transition d h,
      )

  step_windows-rates :
      (at : ℤ) (ts : List ℤ) (dwell transition : ℤ)
      → map (λ s. s.offered) (step_windows F at ts dwell transition) ≡ map fl.of_int ts
  unfolding step_windows
  step_windows-rates at [] dwell transition = refl
  step_windows-rates at (t ∷ ts) dwell transition =
      ap (◌∷◌ (fl.of_int t)) (step_windows-rates (at +ℤ transition +ℤ dwell) ts dwell transition)

  -- With no negative dwell or transition, `StepWindows` gives one window for each target, in order and
  -- offering it; none begins before the ramp has started, and each ends before the next begins, so no
  -- sample falls into two rungs.
  pub step_windows_lem :
      (start : ℤ) (ts : List ℤ) (dwell transition : ℤ)
      → pos 0 ≤ℤ dwell
      → pos 0 ≤ℤ transition
      → let windows = step_windows F start ts dwell transition in
        (map (λ s. s.offered) windows ≡ map fl.of_int ts)
        × All (λ s. start ≤ℤ s.from) windows
        × InOrder windows
  step_windows_lem start ts dwell transition d h = (
    step_windows-rates start ts dwell transition,
    step_windows-from start start ts dwell transition d h (omega arith),
    step_windows-InOrder start ts dwell transition d h,
  )

-- A ramp of two or more rungs that does not fall, and whose climb times its gaps an int64 holds, as it
-- does its rates, has as many targets as rungs and two stages for each;
-- its targets climb from the start rate to the peak rate, which the last one is, and none lies outside.
pub ramp_stages_lem :
    (start peak : ℤ) (gaps : ℕ) (dwell transition : ℤ)
    → start ≤ℤ peak
    → IsHeld start peak (suc gaps)
    → let (targets, stages) = ramp_stages start peak (pos (suc (suc gaps))) dwell transition in
      (length targets ≡ suc (suc gaps))
      × (length stages ≡ 2 * length targets)
      × All (λ t. (start ≤ℤ t) × (t ≤ℤ peak)) targets
      × IsRising start targets
      × (last_or start targets ≡ peak)
unfolding ramp_stages
ramp_stages_lem start peak gaps dwell transition h held =
    let (count, bounds, rising) =
      targets_from_lem start peak gaps 0 (suc (suc gaps)) h held (omega arith) in
    let targets = targets_from start peak (pos (suc (suc gaps))) 0 (suc (suc gaps)) in
    let ramping = if leb_ℤ transition (pos 0) then pos 1_000_000_000 else transition in
    let low : ℤ = start +ℤ pos (pos_part (peak -ℤ start) * 0 / suc gaps) in
    rw (lt_one_false gaps) (
      count,
      length-stages_of dwell ramping targets,
      bounds,
      IsRising-le start low targets rising (omega int_laws),
      targets_from-last start peak gaps 0 (suc gaps) start h held (omega arith),
    )
