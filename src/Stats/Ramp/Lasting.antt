-- ===== src/Stats/Ramp/Lasting.antt =====
-- How long the staircase of `RampStages` lasts.
use octo_performance.Prelude.{
  ℕ, zero, suc, ◌+◌, ◌*◌, ◌≡◌, refl, ap, ◌∙◌, List, [], ◌∷◌, false, if◌then◌else◌, arith, length,
}
use octo_performance.Prelude.Int.{ℤ, pos, pos_part, ◌+ℤ◌, ltb_ℤ, leb_ℤ}
use octo_performance.Stats.Ramp.{RampStage, ramp_stages, stages_of, targets_from, at_least_one}

abbrev pub lasting : List RampStage → ℤ
lasting [] = pos 0
lasting (s ∷ ss) = s.duration +ℤ lasting ss

pub sum_pos : (a b : ℕ) → pos a +ℤ pos b ≡ pos (a + b)
unfolding ◌+ℤ◌
sum_pos a b = ground arith

lasting-stages_of :
    (d t : ℕ) (ts : List ℤ) → lasting (stages_of (pos d) (pos t) ts) ≡ pos (length ts * (t + d))
unfolding stages_of
lasting-stages_of d t [] = ap pos (ground arith)
lasting-stages_of d t (x ∷ ts) =
    ap (λ z. pos t +ℤ (pos d +ℤ z)) (lasting-stages_of d t ts)
    ∙ ap (λ z. pos t +ℤ z) (sum_pos d (length ts * (t + d)))
    ∙ sum_pos t (d + length ts * (t + d))
    ∙ ap pos (ground arith)

length-targets_from :
    (start peak steps : ℤ) (i left : ℕ) → length (targets_from start peak steps i left) ≡ left
unfolding targets_from
length-targets_from start peak steps i zero = refl
length-targets_from start peak steps i (suc left) =
    ap suc (length-targets_from start peak steps (suc i) left)

at_least_one-pos : (s : ℕ) → at_least_one (pos (suc s)) ≡ pos (suc s)
unfolding at_least_one
at_least_one-pos s = let e : ltb_ℤ (pos (suc s)) (pos 1) ≡ false = ground arith in rw e refl

-- A staircase of so many rungs lasts as long as their transitions and their dwells together.
pub lasting-ramp_stages :
    (start peak : ℤ) (s d t : ℕ)
    → lasting (ramp_stages start peak (pos (suc s)) (pos d) (pos (suc t))).1
      ≡ pos (suc s * (suc t + d))
unfolding ramp_stages
lasting-ramp_stages start peak s d t =
    let e : leb_ℤ (pos (suc t)) (pos 0) ≡ false = ground arith in
    let ramping : (if leb_ℤ (pos (suc t)) (pos 0) then pos 1_000_000_000 else pos (suc t))
        ≡ pos (suc t) =
      rw e refl in
    let rungs = at_least_one (pos (suc s)) in
    ap (λ r. lasting (stages_of (pos d) r (targets_from start peak rungs 0 (pos_part rungs))))
      ramping
    ∙ ap (λ r. lasting (stages_of (pos d) (pos (suc t)) (targets_from start peak r 0 (pos_part r))))
        (at_least_one-pos s)
    ∙ lasting-stages_of d (suc t) (targets_from start peak (pos (suc s)) 0 (suc s))
    ∙ ap (λ n. pos (n * (suc t + d))) (length-targets_from start peak (pos (suc s)) 0 (suc s))
