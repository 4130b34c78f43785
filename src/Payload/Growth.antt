-- ===== src/Payload/Growth.antt =====
-- How `jsonRecords` reaches its target.
use octo_performance.Prelude.{
  ℕ, zero, suc, ◌+◌, ◌*◌, ◌≤◌, ◌<◌, ◌≡◌, refl, sym, ap, ◌∙◌, String, false, List, [], ◌∷◌, ◌++◌,
  ltb, if◌then◌else◌, Bool-cases, length, is_empty, ◌⊎◌, inl, inr, arith, length-append,
}
use mathlib.Core.Path.{subst}
use Prim.Native.String.{len}
use text.Mathlib.TextPositions.{len-append}
use octo_performance.Prelude.Int.{ℤ, pos, pos_part, leb_ℤ}
use octo_performance.Prelude.Text.{join, append}
use octo_performance.Prelude.Float.{Float}
use octo_performance.Payload.{
  Codec, ok, failed, grow, record_at, document, json_records, json_records_cap, json_prefix,
  json_suffix,
}

len-join :
    (parts : List String) (b : String)
    → len (join "," (parts ++ (b ∷ [])))
      ≡ (if is_empty parts then 0 else 1) + len b + len (join "," parts)
unfolding join
len-join [] b = omega arith
len-join (s ∷ []) b = omega (arith, len-append s (append "," b), len-append "," b)
len-join (s ∷ t ∷ ts) b = omega (
  arith,
  len-append s (append "," (join "," ((t ∷ ts) ++ (b ∷ [])))),
  len-append "," (join "," ((t ∷ ts) ++ (b ∷ []))),
  len-append s (append "," (join "," (t ∷ ts))),
  len-append "," (join "," (t ∷ ts)),
  len-join (t ∷ ts) b,
)

len-document :
    (parts : List String)
    → len (document parts) ≡ len json_prefix + len json_suffix + len (join "," parts)
unfolding document
len-document parts = omega (
  arith,
  len-append json_prefix (append (join "," parts) json_suffix),
  len-append (join "," parts) json_suffix,
)

len-empty_document : len (document []) ≡ 14
unfolding document join
len-empty_document = refl

len-document-snoc :
    (parts : List String) (b : String)
    → len (document (parts ++ (b ∷ [])))
      ≡ (if is_empty parts then len (document parts) else suc (len (document parts))) + len b
len-document-snoc [] b = omega (arith, len-document [], len-document (b ∷ []), len-join [] b)
len-document-snoc (p ∷ ps) b =
    omega (arith, len-document (p ∷ ps), len-document ((p ∷ ps) ++ (b ∷ [])), len-join (p ∷ ps) b)

positive_test : (n : ℕ) → 1 ≤ n → leb_ℤ (pos n) (pos 0) ≡ false
positive_test n h = ground (arith, h)

-- Without its last record the document is short of the target.
abbrev pub FallsShort : ℕ → List String → Type 0
FallsShort target parts =
    (parts ≡ [])
    ⊎ ((init : List String) × (last : String) × (parts ≡ init ++ (last ∷ []))
        × (len (document init) < target))

module _ {F : Type 0} ⦃fl : Float F⦄ (codec : Codec F) where
  -- The records number `i` on, each as json.Marshal writes it.
  abbrev pub Marshalled : ℕ → List String → Type 0
  Marshalled i [] = Unit
  Marshalled i (b ∷ bs) = (codec.marshal_record (record_at codec i) ≡ inr b) × Marshalled (suc i) bs

  Marshalled-snoc :
      (i k : ℕ) (bs : List String) (b : String)
      → Marshalled i bs
      → length bs + i ≡ k
      → codec.marshal_record (record_at codec k) ≡ inr b
      → Marshalled i (bs ++ (b ∷ []))
  Marshalled-snoc i k [] b _ n h =
      let same : k ≡ i = omega (arith, n) in
      (subst (λ j. codec.marshal_record (record_at codec j) ≡ inr b) same h, tt)
  Marshalled-snoc i k (c ∷ cs) b (e, m) n h =
      (e, Marshalled-snoc (suc i) k cs b m (omega (arith, n)) h)

  -- What a result of the loop is, with `bound` records at most.
  abbrev Reached : ℕ → ℕ → List String → Type 0
  Reached target bound out =
      (target ≤ len (document out))
      × FallsShort target out
      × Marshalled 0 out
      × (length out ≤ bound)

  grow_lem :
      (target left i size : ℕ) (parts out : List String)
      → grow codec target left i size parts ≡ ok out
      → len (document parts) ≡ size
      → length parts ≡ i
      → FallsShort target parts
      → Marshalled 0 parts
      → Reached target (i + left) out
  unfolding grow
  grow_lem target zero i size parts out h s n f m = elim (Bool-cases (ltb size target)) [
    | inl e ↦ absurd (ground (arith, rw (grow, e) at h))
    | inr e ↦
        let same : parts ≡ out = ground (arith, rw (grow, e) at h) in
        subst (Reached target (i + 0)) same (ground (arith, e, s), f, m, omega (arith, n))
  ]
  grow_lem target (suc left) i size parts out h s n f m = elim (Bool-cases (ltb size target)) [
    | inl e ↦
        elim (codec.marshal_record (record_at codec i))
            as (λ x.
              codec.marshal_record (record_at codec i) ≡ x → Reached target (i + suc left) out) [
                | inl x ↦ λ q. absurd (ground (arith, rw (grow, e, q) at h))
                | inr b ↦ λ q.
                    let next : grow codec target left (suc i)
                          ((if is_empty parts then size else suc size) + len b) (parts ++ (b ∷ []))
                        ≡ ok out =
                      rw (grow, e, q) at h in
                    let (reached, short, marshalled, bounded) =
                      grow_lem target left (suc i) _ (parts ++ (b ∷ [])) out next
                        (len-document-snoc parts b
                          ∙ ap (λ z. (if is_empty parts then z else suc z) + len b) s)
                        (omega (arith, length-append {0} parts (b ∷ []), n))
                        (inr (parts, b, refl, ground (arith, e, s)))
                        (Marshalled-snoc 0 i parts b m (omega (arith, n)) q) in
                    (reached, short, marshalled, omega (arith, bounded))
              ]
          refl
    | inr e ↦
        let same : parts ≡ out = ground (arith, rw (grow, e) at h) in
        subst (Reached target (i + suc left)) same (ground (arith, e, s), f, m, omega (arith, n))
  ]

  grow-total :
      (target size left i sum : ℕ) (parts : List String)
      → ((j : ℕ)
          → (b : String) × (codec.marshal_record (record_at codec j) ≡ inr b) × (size ≤ len b))
      → target ≤ sum + left * size
      → (out : List String) × (grow codec target left i sum parts ≡ ok out)
  unfolding grow
  grow-total target size zero i sum parts total within = (parts, ground (arith, within))
  grow-total target size (suc left) i sum parts total within = elim (Bool-cases (ltb sum target)) [
    | inl e ↦
        let (b, q, long) = total i in
        let (out, same) =
          grow-total target size left (suc i) ((if is_empty parts then sum else suc sum) + len b)
            (parts ++ (b ∷ [])) total (ground (arith, within, long)) in
        (out, rw (grow, e, q) same)
    | inr e ↦ (parts, rw (grow, e) refl)
  ]

  -- The body is made of records, is long enough, and is not without the last of them.
  abbrev pub IsBarelyEnough : ℤ → String → ℕ → Type 0
  IsBarelyEnough target body count =
      (out : List String) × (body ≡ document out)
      × (count ≡ length out)
      × (pos_part target ≤ len body)
      × FallsShort (pos_part target) out
      × Marshalled 0 out
      × (count ≤ json_records_cap)

  -- A body that `jsonRecords` builds has at least the target's size, and without its last record it
  -- would be shorter than the target; it holds the records number 0 on as json.Marshal writes them, and
  -- no more than the cap.
  pub json_records_lem :
      (target : ℤ) (body : String) (count : ℕ)
      → json_records codec target ≡ ok (body, count)
      → IsBarelyEnough target body count
  unfolding json_records
  json_records_lem target body count h = elim (Bool-cases (leb_ℤ target (pos 0))) [
    | inl e ↦ absurd (ground (arith, rw e at h))
    | inr e ↦
        elim (grow codec (pos_part target) json_records_cap 0 14 [])
            as (λ r.
              grow codec (pos_part target) json_records_cap 0 14 [] ≡ r
              → IsBarelyEnough target body count) [
                | failed x ↦ λ q. absurd (ground (arith, rw (e, q) at h))
                | ok out ↦ λ q.
                    let same_body : document out ≡ body = ground (arith, rw (e, q) at h) in
                    let same_count : length out ≡ count = ground (arith, rw (e, q) at h) in
                    let (reached, short, marshalled, bounded) =
                      grow_lem (pos_part target) json_records_cap 0 14 [] out q len-empty_document
                        refl (inl refl) tt in
                    (
                      out,
                      sym same_body,
                      sym same_count,
                      omega (arith, reached, ap len same_body),
                      short,
                      marshalled,
                      omega (arith, bounded, same_count),
                    )
              ]
          refl
  ]

  -- When every record marshals to at least `size` bytes, and the target is within what the cap's number
  -- of such records fill, a positive target gives a body.
  pub json_records-total :
      (target : ℕ) (size : ℕ)
      → ((i : ℕ)
          → (b : String) × (codec.marshal_record (record_at codec i) ≡ inr b) × (size ≤ len b))
      → 1 ≤ target
      → target ≤ json_records_cap * size
      → (body : String) × (count : ℕ) × (json_records codec (pos target) ≡ ok (body, count))
  unfolding json_records
  json_records-total target size total positive within =
      let (out, same) =
        grow-total target size json_records_cap 0 14 [] total (omega (arith, within)) in
      (document out, length out, rw (positive_test target positive, same) refl)
