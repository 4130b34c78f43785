-- ===== src/Prelude/Word.antt =====
-- When an int64 holds an integer.
use Prim.Native.Nat.{ℕ, ◌-◌, ◌%◌, ◌^◌, ◌<◌}
use native.Mathlib.Nat.{mod-eq_of_lt}
use native.Mathlib.Omega.{arith}
use mathlib.Core.Path.{◌≡◌}
use octo_performance.Prelude.Int.{ℤ, pos, negsuc, ◌≤ℤ◌, ◌<ℤ◌, wrap64}

pub wrap64_id : (x : ℤ) → negsuc (2 ^ 63 - 1) ≤ℤ x → x <ℤ pos (2 ^ 63) → wrap64 x ≡ x
unfolding wrap64
wrap64_id (pos n) l h =
    let same : n % 2 ^ 64 ≡ n = mod-eq_of_lt (omega (arith, h)) in ground (arith, same, h)
wrap64_id (negsuc n) l h =
    let same : n % 2 ^ 64 ≡ n = mod-eq_of_lt (omega (arith, l)) in ground (arith, same, l)

pub wrap64-pos : (n : ℕ) → n < 2 ^ 63 → wrap64 (pos n) ≡ pos n
wrap64-pos n h = wrap64_id (pos n) (omega arith) (omega (arith, h))
