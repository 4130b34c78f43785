-- ===== src/Plan/Rotation.antt =====
-- The order of the arms within one repetition.
use octo_performance.Prelude.{
  ℕ, zero, suc, ◌+◌, ◌-◌, ◌%◌, ◌≤◌, ◌<◌, ◌≡◌, refl, sym, ap, ◌∙◌, String, List, [], ◌∷◌, ◌++◌, map,
  Perm, if◌then◌else◌, Bool-cases, inl, inr, arith,
}
use mathlib.Core.Path.{subst, ap₂}
use mathlib.Core.List.Permᴰ
use mathlib.Core.List.Perm
use native.Mathlib.Nat.{mod-lt, mod-eq_of_lt, add-mod_right}
use octo_performance.Prelude.Int.{ℤ, pos, negsuc, pos_part, ◌+ℤ◌, ◌-ℤ◌, rem, ltb_ℤ, wrap64}
use octo_performance.Prelude.Text.{str_eq}
use octo_performance.Plan.{from, shift_of, arm_order}

-- The remainder that is not negative.
unfoldable pub turn : ℕ → ℤ → ℕ
turn n x =
    let shift = rem x (pos n) in pos_part (if ltb_ℤ shift (pos 0) then shift +ℤ pos n else shift)

pub turn-lt : (n : ℕ) (x : ℤ) → 0 < n → turn n x < n
unfolding turn rem ◌+ℤ◌
turn-lt n (pos a) h = ground (arith, mod-lt a h)
turn-lt n (negsuc a) h = ground (arith, mod-lt (suc a) h)

pub shift_of-lt : (n : ℕ) (rep seed : ℤ) → 0 < n → shift_of n rep seed < n
unfolding shift_of turn
shift_of-lt n rep seed h = turn-lt n (wrap64 ((rep -ℤ pos 1) +ℤ seed)) h

pub from-append : (i j m n t : ℕ) → i + m ≡ j → m + n ≡ t → from i t ≡ from i m ++ from j n
from-append i j zero n t e h =
    let same : i ≡ j = omega (arith, e) in
    let count : t ≡ n = omega (arith, h) in ap₂ from same count
from-append i j (suc m) n zero e h = absurd (omega (arith, h))
from-append i j (suc m) n (suc t) e h =
    ap (λ l. i ∷ l) (from-append (suc i) j m n t (omega (arith, e)) (omega (arith, h)))

-- Up to the wrap, and from it on.
map-unwrapped :
    (s n i j k : ℕ) → i + s ≡ j → j + k ≤ n → map (λ i. (i + s) % n) (from i k) ≡ from j k
map-unwrapped s n i j zero e b = refl
map-unwrapped s n i j (suc k) e b =
    let here : (i + s) % n ≡ j = mod-eq_of_lt (omega (arith, e, b)) ∙ e in
    ap₂ (λ x l. x ∷ l) here
      (map-unwrapped s n (suc i) (suc j) k (omega (arith, e)) (omega (arith, b)))

map-wrapped :
    (s n i j k : ℕ) → i + s ≡ j + n → j + k ≤ n → map (λ i. (i + s) % n) (from i k) ≡ from j k
map-wrapped s n i j zero e b = refl
map-wrapped s n i j (suc k) e b =
    let here : (i + s) % n ≡ j =
      ap (λ x. x % n) e ∙ add-mod_right j n ∙ mod-eq_of_lt (omega (arith, b)) in
    ap₂ (λ x l. x ∷ l) here
      (map-wrapped s n (suc i) (suc j) k (omega (arith, e)) (omega (arith, b)))

map_append : (f : ℕ → ℕ) (xs ys : List ℕ) → map f (xs ++ ys) ≡ map f xs ++ map f ys
map_append f [] ys = refl
map_append f (x ∷ xs) ys = ap (λ l. f x ∷ l) (map_append f xs ys)

-- A rotation by `s` is the last indices and then the first.
rotated : (s n : ℕ) → s < n → map (λ i. (i + s) % n) (from 0 n) ≡ from s (n - s) ++ from 0 s
rotated s n h =
    ap (map (λ i. (i + s) % n)) (from-append 0 (n - s) (n - s) s n (omega arith) (omega (arith, h)))
    ∙ map_append (λ i. (i + s) % n) (from 0 (n - s)) (from (n - s) s)
    ∙ ap₂ (λ xs ys. xs ++ ys) (map-unwrapped s n 0 s (n - s) (omega arith) (omega (arith, h)))
        (map-wrapped s n (n - s) 0 s (omega (arith, h)) (omega (arith, h)))

append_comm : (xs ys : List ℕ) → Perm (xs ++ ys) (ys ++ xs)
append_comm xs ys = ∣ Permᴰ.append_comm xs ys ∣₁

-- With one arm or more, the order of a repetition is a rearrangement of the indices of all arms, each of
-- which stands in it once, whatever the order and the seed.
arm_order-perm :
    (n : ℕ) (rep : ℤ) (order : String) (seed : ℤ)
    → 0 < n
    → Perm (arm_order n rep order seed) (from 0 n)
unfolding arm_order
arm_order-perm n rep order seed h = elim (Bool-cases (str_eq order "blocked")) [
  | inl e ↦ rw e Perm.rfl
  | inr e ↦ rw e (
      let s = shift_of n rep seed in
      let small = shift_of-lt n rep seed h in
      let whole : from 0 n ≡ from 0 s ++ from s (n - s) =
        from-append 0 s s (n - s) n (omega arith) (omega (arith, small)) in
      subst (λ l. Perm l (from 0 n)) (sym (rotated s n small))
        (subst (Perm (from s (n - s) ++ from 0 s)) (sym whole)
          (append_comm (from s (n - s)) (from 0 s))))
]
