-- ===== src/Prelude/Sort.antt =====
-- sort.SliceStable by insertion: what the library function promises is that the result is the
-- rearrangement of its input that is ordered by `less` and keeps equal elements in order.
use Prim.Native.Nat.{ℕ, suc, ◌≤◌}
use mathlib.Core.Path.{◌≡◌, refl, ap, ◌∙◌}
use mathlib.Core.Bool.{Bool, true, false}
use mathlib.Core.Logic.{inl, inr}
use mathlib.Core.List.{List, [], ◌∷◌, Perm}
use mathlib.Core.List.Perm
use native.Mathlib.Omega.{arith}
use octo_performance.Prelude.Tests.{if◌then◌else◌, Bool-cases}
use octo_performance.Prelude.Lists.{length, All, All-map}

module _ {ℓ} {A : Type ℓ} where
  insert_by : (A → A → Bool) → A → List A → List A
  insert_by less x [] = x ∷ []
  insert_by less x (y ∷ ys) = if less y x then y ∷ insert_by less x ys else x ∷ y ∷ ys

  unfoldable pub sort_by : (A → A → Bool) → List A → List A
  unfolding insert_by
  sort_by less [] = []
  sort_by less (x ∷ xs) = insert_by less x (sort_by less xs)

  -- No later element is less than an earlier one.
  abbrev pub IsSorted : (A → A → Bool) → List A → Type 0
  IsSorted less [] = Unit
  IsSorted less (x ∷ xs) = All (λ y. less y x ≡ false) xs × IsSorted less xs

  -- What sort asks of a comparison: a strict weak order.
  pub record IsWeakOrder (less : A → A → Bool) : Type ℓ where
    pub asymm : (a b : A) → less a b ≡ true → less b a ≡ false
    pub trans : (a b c : A) → less b a ≡ false → less c b ≡ false → less c a ≡ false

  insert_by-perm : (less : A → A → Bool) (x : A) (l : List A) → Perm (insert_by less x l) (x ∷ l)
  unfolding insert_by
  insert_by-perm less x [] = Perm.rfl
  insert_by-perm less x (y ∷ ys) = elim (Bool-cases (less y x)) [
    | inl e ↦ rw e (Perm.trans (Perm.cons y (insert_by-perm less x ys)) (Perm.swap x y ys))
    | inr e ↦ rw e Perm.rfl
  ]

  pub sort_by-perm : (less : A → A → Bool) (l : List A) → Perm (sort_by less l) l
  unfolding sort_by
  sort_by-perm less [] = Perm.rfl
  sort_by-perm less (x ∷ xs) =
      Perm.trans (insert_by-perm less x (sort_by less xs)) (Perm.cons x (sort_by-perm less xs))

  insert_by-length :
      (less : A → A → Bool) (x : A) (l : List A) → length (insert_by less x l) ≡ suc (length l)
  unfolding insert_by
  insert_by-length less x [] = refl
  insert_by-length less x (y ∷ ys) = ground (arith, insert_by-length less x ys)

  pub length-sort_by : (less : A → A → Bool) (l : List A) → length (sort_by less l) ≡ length l
  unfolding sort_by
  length-sort_by less [] = refl
  length-sort_by less (x ∷ xs) =
      insert_by-length less x (sort_by less xs) ∙ ap suc (length-sort_by less xs)

  All-insert_by {κ} :
      (P : A → Type κ) (less : A → A → Bool) (x : A) (l : List A)
      → P x
      → All P l
      → All P (insert_by less x l)
  unfolding insert_by
  All-insert_by P less x [] p _ = (p, tt)
  All-insert_by P less x (y ∷ ys) p (q, qs) = elim (Bool-cases (less y x)) [
    | inl e ↦ rw e (q, All-insert_by P less x ys p qs)
    | inr e ↦ rw e (p, (q, qs))
  ]

  pub All-sort_by {κ} :
      (P : A → Type κ) (less : A → A → Bool) (l : List A) → All P l → All P (sort_by less l)
  unfolding sort_by
  All-sort_by P less [] _ = tt
  All-sort_by P less (x ∷ xs) (p, ps) =
      All-insert_by P less x (sort_by less xs) p (All-sort_by P less xs ps)

  module _ (less : A → A → Bool) (order : IsWeakOrder less) where
    insert_by-IsSorted : (x : A) (l : List A) → IsSorted less l → IsSorted less (insert_by less x l)
    unfolding insert_by
    insert_by-IsSorted x [] _ = (tt, tt)
    insert_by-IsSorted x (y ∷ ys) (below, s) = elim (Bool-cases (less y x)) [
      | inl e ↦ rw e (
        All-insert_by (λ z. less z y ≡ false) less x ys (order.asymm y x e) below,
        insert_by-IsSorted x ys s,
      )
      | inr e ↦ rw e ((e, All-map (λ z h. order.trans x y z e h) ys below), (below, s))
    ]

    pub sort_by-IsSorted : (l : List A) → IsSorted less (sort_by less l)
    unfolding sort_by
    sort_by-IsSorted [] = tt
    sort_by-IsSorted (x ∷ xs) = insert_by-IsSorted x (sort_by less xs) (sort_by-IsSorted xs)

  -- The same where the comparison is one only among some elements, as that of floats is without NaN.
  module _ {κ} (less : A → A → Bool) (P : A → Type κ)
      (asymm : (a b : A) → less a b ≡ true → less b a ≡ false)
      (trans : (a b c : A) → P b → less b a ≡ false → less c b ≡ false → less c a ≡ false) where
    insert_by-IsSorted_among :
        (x : A) (l : List A) → All P l → IsSorted less l → IsSorted less (insert_by less x l)
    unfolding insert_by
    insert_by-IsSorted_among x [] _ _ = (tt, tt)
    insert_by-IsSorted_among x (y ∷ ys) (p, ps) (below, s) = elim (Bool-cases (less y x)) [
      | inl e ↦ rw e (
        All-insert_by (λ z. less z y ≡ false) less x ys (asymm y x e) below,
        insert_by-IsSorted_among x ys ps s,
      )
      | inr e ↦ rw e ((e, All-map (λ z h. trans x y z p e h) ys below), (below, s))
    ]

    pub sort_by-IsSorted_among : (l : List A) → All P l → IsSorted less (sort_by less l)
    unfolding sort_by
    sort_by-IsSorted_among [] _ = tt
    sort_by-IsSorted_among (x ∷ xs) (p, ps) =
        insert_by-IsSorted_among x (sort_by less xs) (All-sort_by P less xs ps)
          (sort_by-IsSorted_among xs ps)

  -- Every later key is at most an earlier one.
  abbrev pub IsDescending : (A → ℕ) → List A → Type 0
  IsDescending key [] = Unit
  IsDescending key (x ∷ xs) = All (λ y. key y ≤ key x) xs × IsDescending key xs

  -- A sort that breaks ties of a key by other means still puts the largest key first.
  module _ (less : A → A → Bool) (key : A → ℕ)
      (less_le : (a b : A) → less a b ≡ true → key b ≤ key a)
      (not_less_le : (a b : A) → less a b ≡ false → key a ≤ key b) where
    insert_by-IsDescending :
        (x : A) (l : List A) → IsDescending key l → IsDescending key (insert_by less x l)
    unfolding insert_by
    insert_by-IsDescending x [] _ = (tt, tt)
    insert_by-IsDescending x (y ∷ ys) (below, s) = elim (Bool-cases (less y x)) [
      | inl e ↦ rw e (
        All-insert_by (λ z. key z ≤ key y) less x ys (less_le y x e) below,
        insert_by-IsDescending x ys s,
      )
      | inr e ↦ rw e (
        (not_less_le y x e, All-map (λ z h. omega (arith, h, not_less_le y x e)) ys below),
        (below, s),
      )
    ]

    pub sort_by-IsDescending : (l : List A) → IsDescending key (sort_by less l)
    unfolding sort_by
    sort_by-IsDescending [] = tt
    sort_by-IsDescending (x ∷ xs) =
        insert_by-IsDescending x (sort_by less xs) (sort_by-IsDescending xs)
