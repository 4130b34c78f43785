-- ===== src/Plan/Balance.antt =====
-- How the order of the arms moves from one repetition to the next.
use octo_performance.Prelude.{
  ℕ, zero, suc, ◌+◌, ◌-◌, ◌%◌, ◌^◌, ◌<◌, ◌≡◌, sym, ap, ◌∙◌, ◌⊎◌, ◌≢◌, String, false, map,
  if◌then◌else◌, Bool-cases, inl, inr, arith, some, get_elem?, ltb, ◌==◌,
}
use native.Mathlib.Nat.{mod-lt, mod-eq_of_lt, add-mod_right, suc-mod, mod_self}
use octo_performance.Prelude.Int.{ℤ, pos, negsuc, ◌+ℤ◌, ◌-ℤ◌, ◌≤ℤ◌, ◌<ℤ◌, rem, wrap64, int_laws}
use octo_performance.Prelude.Word.{wrap64_id}
use octo_performance.Prelude.Text.{str_eq}
use octo_performance.Plan.{from, shift_of, arm_order}
use octo_performance.Plan.Rotation.{turn, turn-lt}

mod_next : (a n : ℕ) → 0 < n → suc a % n ≡ (if suc (a % n) == n then 0 else suc (a % n))
mod_next a n h = elim (Bool-cases (suc (a % n) == n)) [
  | inl e ↦
      let full : suc (a % n) ≡ n = ground (arith, e) in
      rw e (suc-mod a n ∙ ap (λ k. k % n) full ∙ mod_self n)
  | inr e ↦ rw e (suc-mod a n ∙ mod-eq_of_lt (ground (arith, e, mod-lt a h)))
]

turn-pos : (n a : ℕ) → turn n (pos a) ≡ a % n
unfolding turn rem
turn-pos n a = ground arith

turn-negsuc :
    (n a : ℕ) → 0 < n → turn n (negsuc a) ≡ (if (suc a % n) == 0 then 0 else n - suc a % n)
unfolding turn rem ◌+ℤ◌
turn-negsuc n a h = ground (arith, mod-lt (suc a) h)

suc_pos : (a : ℕ) → pos a +ℤ pos 1 ≡ pos (suc a)
unfolding ◌+ℤ◌
suc_pos a = ground arith

suc_negsuc : (a : ℕ) → negsuc (suc a) +ℤ pos 1 ≡ negsuc a
unfolding ◌+ℤ◌
suc_negsuc a = ground arith

-- One more turns one further.
turn-suc :
    (n : ℕ) (x : ℤ)
    → 0 < n
    → turn n (x +ℤ pos 1) ≡ (if suc (turn n x) == n then 0 else suc (turn n x))
unfolding ◌+ℤ◌
turn-suc n (pos a) h =
    ap (turn n) (suc_pos a)
    ∙ turn-pos n (suc a)
    ∙ mod_next a n h
    ∙ ap (λ k. if suc k == n then 0 else suc k) (sym (turn-pos n a))
turn-suc n (negsuc zero) h =
    let here = turn-negsuc n 0 h in
    let one = mod_next 0 n h in
    let none_left : 0 % n ≡ 0 = mod-eq_of_lt h in
    turn-pos n 0 ∙ ground (arith, here, one, none_left, h)
turn-suc n (negsuc (suc a)) h =
    let here = turn-negsuc n (suc a) h in
    let there = turn-negsuc n a h in
    let next = mod_next (suc a) n h in
    let small = mod-lt (suc a) h in
    ground (arith, here, there, next, small, h, ap (turn n) (suc_negsuc a))

int_suc : (k : ℕ) (x : ℤ) → pos (suc k) +ℤ x ≡ pos k +ℤ x +ℤ pos 1
unfolding ◌+ℤ◌
int_suc k x = ground arith

-- After `d` more turns.
turn-advance :
    (n d k : ℕ) (x : ℤ)
    → 0 < n
    → d < n
    → (turn n (pos (d + k) +ℤ x) ≡ turn n (pos k +ℤ x) + d)
      ⊎ (turn n (pos (d + k) +ℤ x) + n ≡ turn n (pos k +ℤ x) + d)
turn-advance n zero k x h b =
    let same : 0 + k ≡ k = omega arith in
    let moved = ap (λ j. turn n (pos j +ℤ x)) same in inl (omega (arith, moved))
turn-advance n (suc d) k x h b =
    let earlier = turn-advance n d k x h (omega (arith, b)) in
    let count : suc d + k ≡ suc (d + k) = omega arith in
    let step =
      ap (λ j. turn n (pos j +ℤ x)) count
      ∙ ap (turn n) (int_suc (d + k) x)
      ∙ turn-suc n (pos (d + k) +ℤ x) h in
    let start = turn-lt n (pos k +ℤ x) h in
    let below = turn-lt n (pos (d + k) +ℤ x) h in ground (arith, earlier, step, start, below, b)

rep_before : (k : ℕ) → pos (suc k) -ℤ pos 1 ≡ pos k
unfolding ◌-ℤ◌
rep_before k = ground arith

shift_of-eq-turn :
    (n k : ℕ) (seed : ℤ)
    → negsuc (2 ^ 63 - 1) ≤ℤ seed
    → pos k +ℤ seed <ℤ pos (2 ^ 63)
    → shift_of n (pos (suc k)) seed ≡ turn n (pos k +ℤ seed)
unfolding shift_of turn
shift_of-eq-turn n k seed l h =
    ap (turn n)
      (ap (λ z. wrap64 (z +ℤ seed)) (rep_before k) ∙ wrap64_id (pos k +ℤ seed) (omega int_laws) h)

get_elem-from : (f : ℕ → ℕ) (i j n : ℕ) → i < n → get_elem? (map f (from j n)) i ≡ some (f (i + j))
get_elem-from f i j zero h = absurd (omega (arith, h))
get_elem-from f zero j (suc n) h = let same : j ≡ 0 + j = omega arith in ap (λ k. some (f k)) same
get_elem-from f (suc i) j (suc n) h =
    let same : i + suc j ≡ suc i + j = omega arith in
    get_elem-from f i (suc j) n (omega (arith, h)) ∙ ap (λ k. some (f k)) same

-- The slot `i` after a turn by `s`.
slot_cases : (i s n : ℕ) → i < n → s < n → ((i + s) % n ≡ i + s) ⊎ ((i + s) % n + n ≡ i + s)
slot_cases i s n a b = elim (Bool-cases (ltb (i + s) n)) [
  | inl e ↦ inl (mod-eq_of_lt (ground (arith, e)))
  | inr e ↦
      let over : i + s ≡ (i + s - n) + n = ground (arith, e) in
      let small : (i + s - n) % n ≡ i + s - n = mod-eq_of_lt (omega (arith, a, b)) in
      let same = ap (λ k. k % n) over ∙ add-mod_right (i + s - n) n ∙ small in
      inr (omega (arith, same, over))
]

some-inj : {a b : ℕ} → some a ≡ some b → a ≡ b
some-inj p = ground (arith, p)

-- When the arms are interleaved and the int64 sum does not wrap, two different ones of the first `n`
-- repetitions do not run the same one of the `n` arms in the same position.
pub arm_order-balanced :
    (n k d i : ℕ) (order : String) (seed : ℤ)
    → str_eq order "blocked" ≡ false
    → negsuc (2 ^ 63 - 1) ≤ℤ seed
    → pos n +ℤ seed <ℤ pos (2 ^ 63)
    → 0 < d
    → d + k < n
    → i < n
    → get_elem? (arm_order n (pos (suc k)) order seed) i
      ≢ get_elem? (arm_order n (pos (suc (d + k))) order seed) i
unfolding arm_order
arm_order-balanced n k d i order seed e low high positive last inside = rw e (λ same.
    let whole : 0 < n = omega (arith, inside) in
    let first = shift_of n (pos (suc k)) seed in
    let second = shift_of n (pos (suc (d + k))) seed in
    let here = get_elem-from (λ j. (j + first) % n) i 0 n inside in
    let there = get_elem-from (λ j. (j + second) % n) i 0 n inside in
    let agree : (i + 0 + first) % n ≡ (i + 0 + second) % n = some-inj (sym here ∙ same ∙ there) in
    let one = shift_of-eq-turn n k seed low (omega (int_laws, high, last)) in
    let two = shift_of-eq-turn n (d + k) seed low (omega (int_laws, high, last)) in
    let moved = turn-advance n d k seed whole (omega (arith, last)) in
    let small = turn-lt n (pos k +ℤ seed) whole in
    let small_too = turn-lt n (pos (d + k) +ℤ seed) whole in
    let a = slot_cases (i + 0) first n (omega (arith, inside)) (omega (arith, one, small)) in
    let b = slot_cases (i + 0) second n (omega (arith, inside)) (omega (arith, two, small_too)) in
    ground (arith, agree, one, two, moved, small, small_too, a, b, positive, last))
