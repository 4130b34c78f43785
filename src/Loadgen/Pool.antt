-- ===== src/Loadgen/Pool.antt =====
-- loadgen/pool.go: how many virtual users an offered rate is given.
use octo_performance.Prelude.{
  ◌^◌, ◌*◌, ◌≡◌, refl, ap, sym, ◌∙◌, Bool, true, ◌&&◌, [], ◌∷◌, arith, if◌then◌else◌,
}
use octo_performance.Prelude.Word.{wrap64-pos}
use octo_performance.Prelude.Int.{ℤ, pos, negsuc, ◌*ℤ◌, ◌≤ℤ◌, ◌<ℤ◌, ltb_ℤ, leb_ℤ, wrap64}
use octo_performance.Prelude.Text.{Message, float, int, sprintf}
use octo_performance.Prelude.Float.{Float, ◌*F◌, ◌/F◌, zero_float, of_nat, seconds}

pub record Pool : Type 0 where
  pub pre_allocated_vus : ℤ
  pub max_vus : ℤ
  pub observed_max_vus : ℤ
  pub cap : ℤ

-- The Little's-law figure with its floor.
abbrev floored : Bool → ℤ → ℤ
floored sized need = if sized && ltb_ℤ (pos 20) need then need else pos 20

-- `if cap > 0 && n > cap { n = cap }`
abbrev capped : ℤ → ℤ → ℤ
capped hard_cap n = if ltb_ℤ (pos 0) hard_cap && ltb_ℤ hard_cap n then hard_cap else n

abbrev pool_of : ℤ → ℤ → Pool
pool_of pre hard_cap = record {
  pre_allocated_vus = capped hard_cap pre;
  max_vus = capped hard_cap (wrap64 (pre *ℤ pos 10));
  observed_max_vus = pos 0;
  cap = hard_cap;
}

module _ {F : Type 0} ⦃fl : Float F⦄ where
  unfoldable pub growth : Pool → F
  growth p =
      if leb_ℤ p.pre_allocated_vus (pos 0)
      then zero_float
      else fl.of_int p.observed_max_vus /F fl.of_int p.pre_allocated_vus

  unfoldable pub pool_text : Pool → Message F
  unfolding growth
  pool_text p =
      sprintf "pre=%d max=%d observed=%d growth=%.2fx"
        (int p.pre_allocated_vus ∷ int p.max_vus ∷ int p.observed_max_vus ∷ float (growth p) ∷ [])

module _ (F : Type 0) ⦃fl : Float F⦄ where
  -- `int(math.Ceil(float64(rate) * expectedLatency.Seconds() * headroom))`
  abbrev pub needed : ℤ → ℤ → ℤ
  needed rate latency = fl.ceil (fl.of_int rate *F seconds latency *F of_nat 4)

  unfoldable pub size_pool : ℤ → ℤ → ℤ → Pool
  size_pool rate latency hard_cap =
      pool_of (floored (ltb_ℤ (pos 0) rate && ltb_ℤ (pos 0) latency) (needed rate latency)) hard_cap

-- The multiple stays inside an int64.
times_ten : (n : ℤ) → pos 20 ≤ℤ n → n <ℤ pos (2 ^ 59) → wrap64 (n *ℤ pos 10) ≡ n *ℤ pos 10
unfolding ◌*ℤ◌
times_ten (pos n) low high =
    let q : pos n *ℤ pos 10 ≡ pos (n * 10) = ground arith in
    ap wrap64 q ∙ wrap64-pos (n * 10) (omega (arith, high)) ∙ sym q
times_ten (negsuc n) low high = absurd (omega (arith, low))

floored_lem :
    (sized : Bool) (need : ℤ)
    → need <ℤ pos (2 ^ 59)
    → let pre = floored sized need in
      (pos 20 ≤ℤ pre) × (pre <ℤ pos (2 ^ 59)) × (sized ≡ true → need ≤ℤ pre)
floored_lem sized need h = ground arith

capped_lem :
    (hard_cap pre most : ℤ)
    → pos 20 ≤ℤ pre
    → pre ≤ℤ most
    → (capped hard_cap pre ≤ℤ capped hard_cap most)
      × (pos 0 <ℤ hard_cap → capped hard_cap most ≤ℤ hard_cap)
      × (hard_cap ≤ℤ pos 0 → capped hard_cap pre ≡ pre)
      × (pre ≤ℤ hard_cap → capped hard_cap pre ≡ pre)
      × (pos 0 <ℤ hard_cap → hard_cap ≤ℤ pre → capped hard_cap pre ≡ hard_cap)
capped_lem hard_cap pre most low le = ground arith

capped-ge : (hard_cap n low : ℤ) → hard_cap ≤ℤ pos 0 → low ≤ℤ n → low ≤ℤ capped hard_cap n
capped-ge hard_cap n low none le = ground arith

both_positive : (a b : ℤ) → pos 0 <ℤ a → pos 0 <ℤ b → (ltb_ℤ (pos 0) a && ltb_ℤ (pos 0) b) ≡ true
both_positive a b p q = ground arith

≤ℤ-trans : (a b c : ℤ) → a ≤ℤ b → b ≤ℤ c → a ≤ℤ c
≤ℤ-trans a b c p q = omega (arith, p, q)

times_ten-ge : (n : ℤ) → pos 20 ≤ℤ n → n <ℤ pos (2 ^ 59) → n ≤ℤ wrap64 (n *ℤ pos 10)
unfolding ◌*ℤ◌
times_ten-ge (pos n) low high = rw (times_ten (pos n) low high) (ground arith)
times_ten-ge (negsuc n) low high = omega arith

module _ (F : Type 0) ⦃fl : Float F⦄ where
  -- Where the Little's-law figure is below 2^59: the ceiling of the pool is never below its
  -- allocation, and neither exceeds the cap of a campaign that has one. Without a cap the allocation
  -- is at least the floor of 20 and, for a positive rate and latency, at least the figure; with a cap
  -- that is no more than the floor it is the cap. Nothing is observed yet, and the cap is recorded.
  pub size_pool-bounds :
      (rate latency hard_cap : ℤ)
      → needed F rate latency <ℤ pos (2 ^ 59)
      → let p = size_pool F rate latency hard_cap in
        (p.pre_allocated_vus ≤ℤ p.max_vus)
        × (pos 0 <ℤ hard_cap → p.max_vus ≤ℤ hard_cap)
        × (hard_cap ≤ℤ pos 0 → pos 20 ≤ℤ p.pre_allocated_vus)
        × (hard_cap ≤ℤ pos 0
            → pos 0 <ℤ rate
            → pos 0 <ℤ latency
            → needed F rate latency ≤ℤ p.pre_allocated_vus)
        × (pos 0 <ℤ hard_cap → hard_cap ≤ℤ pos 20 → p.pre_allocated_vus ≡ hard_cap)
        × (p.observed_max_vus ≡ pos 0)
        × (p.cap ≡ hard_cap)
  unfolding size_pool
  size_pool-bounds rate latency hard_cap h =
      let sized = ltb_ℤ (pos 0) rate && ltb_ℤ (pos 0) latency in
      let pre = floored sized (needed F rate latency) in
      let (low, high, enough) = floored_lem sized (needed F rate latency) h in
      let (le, most, uncapped, roomy, tight) =
        capped_lem hard_cap pre (wrap64 (pre *ℤ pos 10)) low (times_ten-ge pre low high) in
      (
        le,
        most,
        λ none. capped-ge hard_cap pre (pos 20) none low,
        λ none r l.
            capped-ge hard_cap pre (needed F rate latency) none
              (enough (both_positive rate latency r l)),
        λ some small. tight some (≤ℤ-trans hard_cap (pos 20) pre small low),
        refl,
        refl,
      )
