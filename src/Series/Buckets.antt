-- ===== src/Series/Buckets.antt =====
-- `Bucket` of series.go against grouping the points by their bucket number.
use octo_performance.Prelude.{
  ℕ, suc, ◌+◌, false, List, [], ◌∷◌, ◌++◌, map, ◌≡◌, refl, sym, ap, ◌∙◌, arith, if◌then◌else◌,
  length, Bool-cases, inl, inr,
}
use octo_performance.Prelude.Int.{
  ℤ, pos, negsuc, ◌+ℤ◌, ◌-ℤ◌, ◌*ℤ◌, quot, eqb_ℤ, leb_ℤ, ◌<ℤ◌, eqb_ℤ→eq, eq_of_parts, int_laws,
}
use octo_performance.Prelude.Float.{Float, ◌+F◌, ◌/F◌, zero_float, of_nat}
use octo_performance.Series.{Point, Series, flush, bucket_from, bucket_points, bucket}
use octo_performance.Series.Moments.{sum_from}

-- A maximal run of neighbouring points with one bucket number.
pub record Run (F : Type 0) : Type 0 where
  pub index : ℤ
  pub first : F
  pub others : List F

module _ {F : Type 0} where
  -- The bucket number of a point.
  abbrev pub index_of : ℤ → ℤ → Point F → ℤ
  index_of origin width p = quot (p.at -ℤ origin) width

  abbrev join_run : ℤ → F → List (Run F) → List (Run F)
  join_run idx v [] = record { index = idx; first = v; others = [] } ∷ []
  join_run idx v (r ∷ rs) =
      if eqb_ℤ r.index idx
      then record { index = idx; first = v; others = r.first ∷ r.others } ∷ rs
      else record { index = idx; first = v; others = [] } ∷ r ∷ rs

  unfoldable pub runs : ℤ → ℤ → List (Point F) → List (Run F)
  runs origin width [] = []
  runs origin width (p ∷ ps) = join_run (index_of origin width p) p.v (runs origin width ps)

quot_zero : (w : ℤ) → quot (pos 0) w ≡ pos 0
unfolding quot
quot_zero (pos w) = ground arith
quot_zero (negsuc w) = ground arith

positive_width : (w : ℤ) → pos 0 <ℤ w → leb_ℤ w (pos 0) ≡ false
positive_width w h = ground arith

module _ {F : Type 0} ⦃fl : Float F⦄ where
  -- The point of a run: its mean, at the start of its bucket.
  unfoldable pub mean_point : ℤ → ℤ → Run F → Point F
  mean_point origin width r = record {
    at = origin +ℤ r.index *ℤ width;
    v = sum_from (zero_float +F r.first) r.others /F of_nat (suc (length r.others));
  }

  -- A bucket that is open, with `n` points that add up to `sum`, and the runs that follow.
  abbrev merge : ℤ → ℤ → ℤ → F → ℕ → List (Run F) → List (Point F)
  merge origin width cur sum n [] = flush origin width cur sum n
  merge origin width cur sum n (r ∷ rs) =
      if eqb_ℤ r.index cur
      then record {
        at = origin +ℤ cur *ℤ width;
        v = sum_from (sum +F r.first) r.others /F of_nat (n + suc (length r.others));
      }
        ∷ map (mean_point origin width) rs
      else flush origin width cur sum n ++ map (mean_point origin width) (r ∷ rs)

  merge_same :
      (o w cur : ℤ) (sum v : F) (n : ℕ) (rs : List (Run F))
      → merge o w cur (sum +F v) (suc n) rs ≡ merge o w cur sum n (join_run cur v rs)
  unfolding flush sum_from
  merge_same o w cur sum v n [] = ground arith
  merge_same o w cur sum v n (r ∷ rs) = ground arith

  merge_next :
      (o w cur idx : ℤ) (sum v : F) (n : ℕ) (rs : List (Run F))
      → eqb_ℤ idx cur ≡ false
      → flush o w cur sum n ++ merge o w idx (zero_float +F v) 1 rs
        ≡ merge o w cur sum n (join_run idx v rs)
  unfolding flush sum_from mean_point
  merge_next o w cur idx sum v n [] h = ground arith
  merge_next o w cur idx sum v n (r ∷ rs) h = ground arith

  bucket_from-eq-merge :
      (o w cur : ℤ) (sum : F) (n : ℕ) (ps : List (Point F))
      → bucket_from o w cur sum n ps ≡ merge o w cur sum n (runs o w ps)
  unfolding bucket_from runs
  bucket_from-eq-merge o w cur sum n [] = refl
  bucket_from-eq-merge o w cur sum n (p ∷ ps) =
      let idx = index_of o w p in
      let same = bucket_from-eq-merge o w cur (sum +F p.v) (suc n) ps in
      let next = bucket_from-eq-merge o w idx (zero_float +F p.v) 1 ps in
      elim (Bool-cases (eqb_ℤ idx cur)) [
        | inl e ↦ rw e (
            same
            ∙ merge_same o w cur sum p.v n (runs o w ps)
            ∙ ap (λ k. merge o w cur sum n (join_run k p.v (runs o w ps)))
                (sym (eqb_ℤ→eq idx cur e)))
        | inr e ↦ rw e (
            ap (λ l. flush o w cur sum n ++ l) next
            ∙ merge_next o w cur idx sum p.v n (runs o w ps) e)
      ]

  -- The first point opens bucket 0.
  index_of_first : (w : ℤ) (p : Point F) → index_of p.at w p ≡ pos 0
  unfolding quot
  index_of_first w p = rw (eq_of_parts (p.at -ℤ p.at) (pos 0) (omega int_laws)) (quot_zero w)

  merge_open :
      (o w : ℤ) (v : F) (rs : List (Run F))
      → merge o w (negsuc 0) zero_float 0 (join_run (pos 0) v rs)
        ≡ map (mean_point o w) (join_run (pos 0) v rs)
  unfolding flush
  merge_open o w v [] = refl
  merge_open o w v (r ∷ rs) = ground arith

  -- With a positive width, `Bucket` groups the points, in their order, into maximal runs of one bucket
  -- number counted from the first point, and emits for each run its mean, stamped at the start of
  -- its bucket; no bucket without points is emitted.
  pub bucket-eq-means :
      (s : Series F) (width : ℤ) (p : Point F) (ps : List (Point F))
      → s.points ≡ p ∷ ps
      → pos 0 <ℤ width
      → (bucket s width).points ≡ map (mean_point p.at width) (runs p.at width s.points)
  unfolding bucket bucket_points runs
  bucket-eq-means s width p ps e h = rw e (
      rw (positive_width width h) (
        bucket_from-eq-merge p.at width (negsuc 0) zero_float 0 (p ∷ ps)
        ∙ rw (index_of_first width p) (merge_open p.at width p.v (runs p.at width ps))))
