-- ===== src/Prelude/Float.antt =====
-- float64, as an interface: the operations that the harness uses, and the IEEE 754 facts about its
-- order. `Milli` is a value of it, for tests and for examples of the theorems.
use Prim.Native.Nat.{ℕ, zero, suc, ◌+◌, ◌*◌, ◌/◌, ◌^◌}
use mathlib.Core.Path.{◌≡◌}
use mathlib.Core.Logic.{◌⊎◌}
use mathlib.Core.Bool.{Bool, true, false, not, ◌&&◌, ◌||◌}
use native.Mathlib.Omega.{arith}
use octo_performance.Prelude.Tests.{leb, if◌then◌else◌}
use octo_performance.Prelude.Int.{
  ℤ, pos, negsuc, pos_part, ◌+ℤ◌, ◌-ℤ◌, ◌*ℤ◌, quot, rem, ltb_ℤ, leb_ℤ, eqb_ℤ, abs_ℤ,
}

pub record Float (F : Type 0) : Type 0 where
  -- `float64(n)`, and the literals without a fraction
  pub of_int : ℤ → F
  -- `decimal m k` is the literal m / 10^k
  pub decimal : ℕ → ℕ → F
  pub inf : F
  pub add : F → F → F
  pub sub : F → F → F
  pub mul : F → F → F
  pub div : F → F → F
  -- math.Abs, math.Sqrt
  pub abs : F → F
  pub sqrt : F → F
  -- int(math.Floor(x)), int(math.Ceil(x)), int(math.Round(x))
  pub floor : F → ℤ
  pub ceil : F → ℤ
  pub round : F → ℤ
  pub lt : F → F → Bool
  pub le : F → F → Bool
  pub eq : F → F → Bool

module _ {F : Type 0} ⦃fl : Float F⦄ where
  infixl 65 ◌+F◌ ◌-F◌
  infixl 70 ◌*F◌ ◌/F◌
  infix 50 ◌<F◌ ◌≤F◌ ◌=F◌
  abbrev pub ◌+F◌ : F → F → F
  ◌+F◌ = fl.add

  abbrev pub ◌-F◌ : F → F → F
  ◌-F◌ = fl.sub

  abbrev pub ◌*F◌ : F → F → F
  ◌*F◌ = fl.mul

  abbrev pub ◌/F◌ : F → F → F
  ◌/F◌ = fl.div

  abbrev pub ◌<F◌ : F → F → Bool
  ◌<F◌ = fl.lt

  abbrev pub ◌≤F◌ : F → F → Bool
  ◌≤F◌ = fl.le

  abbrev pub ◌=F◌ : F → F → Bool
  ◌=F◌ = fl.eq

  abbrev pub zero_float : F
  zero_float = fl.of_int (pos 0)

  abbrev pub of_nat : ℕ → F
  of_nat n = fl.of_int (pos n)

  -- math.Max away from NaN and signed zeros.
  abbrev pub max_float : F → F → F
  max_float a b = if a <F b then b else a

  -- time.Duration.Seconds: whole seconds plus the nanoseconds that are left.
  unfoldable pub seconds : ℤ → F
  seconds d =
      fl.of_int (quot d (pos 1_000_000_000))
      +F fl.of_int (rem d (pos 1_000_000_000)) /F of_nat 1_000_000_000

  -- The order of sort.Float64s, which puts NaN first.
  abbrev pub float_less : F → F → Bool
  float_less a b = a <F b || not (a =F a) && b =F b

pub record IsOrdered (F : Type 0) ⦃fl : Float F⦄ : Type 0 where
  pub lt_asymm : (a b : F) → a <F b ≡ true → b <F a ≡ false
  -- NaN compares with nothing
  pub lt_nan : (a b : F) → a =F a ≡ false → (a <F b ≡ false) × (b <F a ≡ false)
  pub lt_cotrans : (a b c : F) → b =F b ≡ true → a <F c ≡ true → (a <F b ≡ true) ⊎ (b <F c ≡ true)

-- Thousandths, a number type for which every operation computes.
abbrev pub Milli : Type 0
Milli = ℤ

sqrt_bits : ℕ → ℕ → ℕ → ℕ
sqrt_bits zero n r = r
sqrt_bits (suc k) n r = sqrt_bits k n (let s = r + 2 ^ k in if leb (s * s) n then s else r)

unfoldable pub milli_floor : ℤ → ℤ
milli_floor (pos n) = pos (n / 1000)
milli_floor (negsuc n) = negsuc (n / 1000)

unfoldable pub milli_sqrt : ℤ → ℤ
unfolding sqrt_bits
milli_sqrt a = pos (sqrt_bits 40 (pos_part a * 1000) 0)

-- To unfold `milli` is to unfold all of the arithmetic on thousandths.
unfoldable pub milli : ℕ → Milli
unfolding ◌+ℤ◌ ◌-ℤ◌ ◌*ℤ◌ quot rem milli_floor milli_sqrt
milli n = pos n *ℤ pos 1000

instance abbrev pub milli_float : Float Milli
milli_float = record {
  of_int = λ n. n *ℤ pos 1000;
  decimal = λ m k. pos (m * 1000 / 10 ^ k);
  inf = pos (10 ^ 30);
  add = ◌+ℤ◌;
  sub = ◌-ℤ◌;
  mul = λ a b. quot (a *ℤ b) (pos 1000);
  div = λ a b. quot (a *ℤ pos 1000) b;
  abs = abs_ℤ;
  sqrt = milli_sqrt;
  floor = milli_floor;
  ceil = λ a. milli_floor (a +ℤ pos 999);
  round = λ a. milli_floor (a +ℤ pos 500);
  lt = ltb_ℤ;
  le = leb_ℤ;
  eq = eqb_ℤ;
}

pub Milli-IsOrdered : IsOrdered Milli
Milli-IsOrdered = record {
  lt_asymm = λ a b h. ground arith;
  lt_nan = λ a b h. ground arith;
  lt_cotrans = λ a b c n h. ground arith;
}
