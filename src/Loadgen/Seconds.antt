-- ===== src/Loadgen/Seconds.antt =====
-- What the aggregator keeps of the rows it read.
use octo_performance.Prelude.{
  suc, ◌+◌, String, Bool, true, false, not, Option, none, some, List, [], ◌∷◌, ◌≡◌, refl, ap, ◌∙◌,
  arith, if◌then◌else◌, Bool-cases, Option-cases, inl, inr, filter, length,
}
use octo_performance.Prelude.Int.{ℤ, eqb_ℤ, eqb_ℤ→eq}
use octo_performance.Prelude.Text.{str_eq}
use octo_performance.Prelude.Float.{Float}
use octo_performance.Loadgen.Stream.{
  Bucket, Aggregator, Row, parse_row, empty_bucket, count_in, add_row, consume_row, consume_line,
  consume, fresh,
}

module _ {F : Type 0} where
  abbrev pub bucket_at : ℤ → List (ℤ × Bucket F) → Option (Bucket F)
  bucket_at s [] = none
  bucket_at s ((t, b) ∷ bs) = if eqb_ℤ t s then some b else bucket_at s bs

abbrev pub lines_of : List String → List String
lines_of ls = filter (λ l. not (str_eq l "")) ls

apart : (t u s : ℤ) → eqb_ℤ t u ≡ false → eqb_ℤ u s ≡ true → eqb_ℤ t s ≡ false
apart t u s h e = rw (← eqb_ℤ→eq u s e) h

module _ {F : Type 0} ⦃fl : Float F⦄ where
  -- Rows of data, one after the other.
  abbrev pub add_rows : List (ℤ × Bucket F) → List (Row F) → List (ℤ × Bucket F)
  add_rows bs [] = bs
  add_rows bs (r ∷ rs) = add_rows (add_row r bs) rs

  -- A bucket after one row of its second, which may be the first.
  abbrev counted : Option (Bucket F) → Row F → Option (Bucket F)
  counted none r = some (count_in r.name r.value empty_bucket)
  counted (some b) r = some (count_in r.name r.value b)

  -- One second alone: the rows of that second counted in the order of their arrival.
  abbrev pub count_all : Option (Bucket F) → List (Row F) → Option (Bucket F)
  count_all b [] = b
  count_all b (r ∷ rs) = count_all (counted b r) rs

  abbrev pub rows_at : ℤ → List (Row F) → List (Row F)
  rows_at s rs = filter (λ r. eqb_ℤ r.ts s) rs

  regroup :
      (here : Bool) (b : Bucket F) (r : Row F) (old : Option (Bucket F))
      → (if here then some (count_in r.name r.value b) else old)
        ≡ (if here then counted (if here then some b else old) r else if here then some b else old)
  regroup true b r old = refl
  regroup false b r old = refl

  regroup_apart :
      (here there : Bool) (b : Bucket F) (r : Row F) (old : Option (Bucket F))
      → (here ≡ true → there ≡ false)
      → (if there then some b else if here then counted old r else old) ≡ (
          if here then counted (if there then some b else old) r else if there then some b else old)
  regroup_apart true there b r old h = rw (h refl) refl
  regroup_apart false there b r old h = refl

  bucket_at-add_row :
      (s : ℤ) (r : Row F) (bs : List (ℤ × Bucket F))
      → bucket_at s (add_row r bs)
        ≡ (if eqb_ℤ r.ts s then counted (bucket_at s bs) r else bucket_at s bs)
  unfolding add_row
  bucket_at-add_row s r [] = ground arith
  bucket_at-add_row s r ((t, b) ∷ bs) = elim (Bool-cases (eqb_ℤ t r.ts)) [
    | inl e ↦ rw (add_row, e) (rw (eqb_ℤ→eq t r.ts e) (regroup (eqb_ℤ r.ts s) b r (bucket_at s bs)))
    | inr e ↦
        rw (add_row, e)
          (ap (λ x. if eqb_ℤ t s then some b else x) (bucket_at-add_row s r bs)
            ∙ regroup_apart (eqb_ℤ r.ts s) (eqb_ℤ t s) b r (bucket_at s bs) (apart t r.ts s e))
  ]

  count_all_if :
      (here : Bool) (b : Option (Bucket F)) (r : Row F) (rs : List (Row F))
      → count_all (if here then counted b r else b) rs ≡ count_all b (if here then r ∷ rs else rs)
  count_all_if true b r rs = refl
  count_all_if false b r rs = refl

  pub bucket_at-add_rows :
      (s : ℤ) (bs : List (ℤ × Bucket F)) (rs : List (Row F))
      → bucket_at s (add_rows bs rs) ≡ count_all (bucket_at s bs) (rows_at s rs)
  bucket_at-add_rows s bs [] = refl
  bucket_at-add_rows s bs (r ∷ rs) =
      bucket_at-add_rows s (add_row r bs) rs
      ∙ ap (λ b. count_all b (rows_at s rs)) (bucket_at-add_row s r bs)
      ∙ count_all_if (eqb_ℤ r.ts s) (bucket_at s bs) r (rows_at s rs)

  -- Every line that is not empty is counted once, as data or as not data.
  abbrev pub data_of : (String → Option (Row F)) → List String → List (Row F)
  data_of parse [] = []
  data_of parse (l ∷ ls) =
      let rest = data_of parse ls in
      if str_eq l "" then rest else elim (parse l) [ none ↦ rest | some r ↦ r ∷ rest ]

  module _ (parse_int : String → Option ℤ) (parse_float : String → Option F) where
    abbrev pub read : String → Option (Row F)
    read = parse_row parse_int parse_float

    abbrev pub run : Aggregator F → List String → Aggregator F
    run a ls = (consume parse_int parse_float {E = String} a ls none).0

    consume_lem :
        (a : Aggregator F) (ls : List String)
        → ((run a ls).buckets ≡ add_rows a.buckets (data_of read ls))
          × ((run a ls).rows ≡ a.rows + length (lines_of ls))
          × ((run a ls).rows + a.unparsed ≡ a.rows + (run a ls).unparsed + length (data_of read ls))
    unfolding consume consume_line consume_row
    consume_lem a [] = (refl, omega arith, omega arith)
    consume_lem a (l ∷ ls) = elim (Bool-cases (str_eq l "")) [
      | inl e ↦ rw (run, consume, consume_line, e) (consume_lem a ls)
      | inr e ↦ elim (Option-cases (read l)) [
        | inl q ↦
            rw (run, consume, consume_line, e, q)
              (let (b, n, u) =
                  consume_lem (record a { rows = suc a.rows; unparsed = suc a.unparsed }) ls in
                (b, omega (arith, n), omega (arith, u)))
        | inr (r, q) ↦
            rw (run, consume, consume_line, e, q)
              (let (b, n, u) =
                  consume_lem (record a { rows = suc a.rows; buckets = add_row r a.buckets }) ls in
                (b, omega (arith, n), omega (arith, u)))
      ]
    ]

    -- The aggregator keeps, of all that k6 wrote, exactly what the rows of each second say: the bucket
    -- of a second is that second's rows of data alone, counted in the order of their arrival, however
    -- the rows of other seconds lie between them, and there is none where a second has no row. Every
    -- line that is not empty is counted once as a row, and is either data or counted as unparsed.
    pub consume-bucket_at :
        (ls : List String) (s : ℤ)
        → let a = run fresh ls in
          (bucket_at s a.buckets ≡ count_all none (rows_at s (data_of read ls)))
          × (a.rows ≡ length (lines_of ls))
          × (a.rows ≡ a.unparsed + length (data_of read ls))
    consume-bucket_at ls s =
        let (b, n, u) = consume_lem fresh ls in
        (
          ap (bucket_at s) b ∙ bucket_at-add_rows s [] (data_of read ls),
          omega (arith, n),
          omega (arith, u),
        )
