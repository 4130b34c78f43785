-- ===== src/Spec/Merging.antt =====
-- What layering one load over another does: scenario under campaign.
use octo_performance.Prelude.{◌≡◌, refl, Bool, true, false, String, arith}
use octo_performance.Prelude.Int.{ℤ, pos, eqb_ℤ}
use octo_performance.Prelude.Float.{Float, zero_float}
use octo_performance.Spec.{Load, or_text, or_int, or_float, merge_rate, merge}

or_text_assoc : (a b c : String) → or_text c (or_text b a) ≡ or_text (or_text c b) a
or_text_assoc a b c = ground arith

or_int_assoc : (a b c : ℤ) → or_int c (or_int b a) ≡ or_int (or_int c b) a
or_int_assoc a b c = ground arith

merge_rate_assoc :
    (a b c : ℤ × Bool) → merge_rate (merge_rate a b) c ≡ merge_rate a (merge_rate b c)
merge_rate_assoc (r, x) (s, y) (t, z) = ground arith

module _ {F : Type 0} ⦃fl : Float F⦄ where
  or_float_assoc : (a b c : F) → or_float c (or_float b a) ≡ or_float (or_float c b) a
  or_float_assoc a b c = ground arith

  -- Merging three layers gives the same load whether the inner two or the outer two are merged first.
  merge_assoc : (a b c : Load F) → merge (merge a b) c ≡ merge a (merge b c)
  unfolding merge
  merge_assoc a b c =
      let rates =
        merge_rate_assoc (a.rate, a.calibrate) (b.rate, b.calibrate) (c.rate, c.calibrate) in
      λ i. record {
        test = or_text_assoc a.test b.test c.test i;
        model = or_text_assoc a.model b.model c.model i;
        rate = (rates i).0;
        calibrate = (rates i).1;
        calibrate_fraction =
            or_float_assoc a.calibrate_fraction b.calibrate_fraction c.calibrate_fraction i;
        vus = or_int_assoc a.vus b.vus c.vus i;
        duration = or_int_assoc a.duration b.duration c.duration i;
        warmup = or_int_assoc a.warmup b.warmup c.warmup i;
        expected_latency = or_int_assoc a.expected_latency b.expected_latency c.expected_latency i;
        vu_cap = or_int_assoc a.vu_cap b.vu_cap c.vu_cap i;
      }

  abbrev pub zero_load : Load F
  zero_load = record {
    test = "";
    model = "";
    rate = pos 0;
    calibrate = false;
    calibrate_fraction = zero_float;
    vus = pos 0;
    duration = pos 0;
    warmup = pos 0;
    expected_latency = pos 0;
    vu_cap = pos 0;
  }

  -- Where zero equals itself, a campaign that declares no load leaves the scenario's as it is.
  merge-zero : (l : Load F) → fl.eq zero_float zero_float ≡ true → merge l zero_load ≡ l
  unfolding merge
  merge-zero l z = rw z refl

  -- When the outer layer asks for a measured rate, the merged load does and names no rate; when it only
  -- names a rate other than zero, the merged load has that rate and does not ask for a measured one; when
  -- it says nothing about the rate, both are as in the inner layer.
  merge_rate_lem :
      (l over : Load F)
      → let m = merge l over in
        (over.calibrate ≡ true → (m.calibrate ≡ true) × (m.rate ≡ pos 0))
        × (over.calibrate ≡ false
            → (eqb_ℤ over.rate (pos 0) ≡ false → (m.calibrate ≡ false) × (m.rate ≡ over.rate))
              × (eqb_ℤ over.rate (pos 0) ≡ true → (m.calibrate ≡ l.calibrate) × (m.rate ≡ l.rate)))
  unfolding merge
  merge_rate_lem l over = ground arith
