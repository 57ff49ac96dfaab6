-- ===== src/Bits/Step.antt =====
-- One equation for the lowest digit of `bit_and` and `bit_or`: the fuel of the native operations'
-- meaning is dropped.
use Prim.Native.Nat.{min, max, digits, bitwise, bit_and, bit_or, bit_and-bitwise, bit_or-bitwise}
use native.Mathlib.Nat.{le_refl}
use eunga_py.Prelude.{ℕ, zero, suc, ◌+◌, ◌*◌, ◌/◌, ◌%◌, ◌≤◌, ◌≡◌, ◌-◌, ◌∙◌, ap, refl, arith}

module _ (last : ℕ → ℕ) (op : ℕ → ℕ → ℕ) where
  -- Beyond the first number, one more unit of fuel makes no difference, nor do any more.
  one_more : (n x y : ℕ) → x ≤ n → digits last op (suc n) x y ≡ digits last op n x y
  one_more zero zero y h = refl
  one_more (suc n) zero y h = refl
  one_more zero (suc x) y h = absurd (omega arith)
  one_more (suc n) (suc x) y h =
      ap (λ (d : ℕ). d * 2 + op (suc x % 2) (y % 2)) (one_more n (suc x / 2) (y / 2) (omega arith))

  any_more : (k x n y : ℕ) → n ≡ k + x → digits last op n x y ≡ digits last op x x y
  any_more zero x n y e = ap (λ (m : ℕ). digits last op m x y) (omega (arith, e))
  any_more (suc k) x n y e =
      let split : n ≡ suc (k + x) = omega (arith, e) in
      ap (λ (m : ℕ). digits last op m x y) split
      ∙ one_more (k + x) x y (omega arith)
      ∙ any_more k x (k + x) y refl

  half_fuel : (x y : ℕ) → digits last op x (suc x / 2) y ≡ bitwise last op (suc x / 2) y
  half_fuel x y = any_more (x - suc x / 2) (suc x / 2) x y (omega arith)

  halved :
      (x y : ℕ)
      → bitwise last op (suc x) y ≡ 2 * bitwise last op (suc x / 2) (y / 2) + op (suc x % 2) (y % 2)
  halved x y = omega (arith, half_fuel x (y / 2))

pub bit_and_step : (x y : ℕ) → bit_and x y ≡ 2 * bit_and (x / 2) (y / 2) + min (x % 2) (y % 2)
bit_and_step zero y = omega (arith, bit_and-bitwise 0 y, bit_and-bitwise 0 (y / 2))
bit_and_step (suc n) y = simp bit_and-bitwise (halved (λ z. zero) min n y)

pub bit_or_step : (x y : ℕ) → bit_or x y ≡ 2 * bit_or (x / 2) (y / 2) + max (x % 2) (y % 2)
bit_or_step zero y = omega (arith, bit_or-bitwise 0 y, bit_or-bitwise 0 (y / 2))
bit_or_step (suc n) y = simp bit_or-bitwise (halved (λ z. z) max n y)

pub zero-bit_and : (b : ℕ) → bit_and 0 b ≡ 0
zero-bit_and b = bit_and-bitwise 0 b

-- `a & b ≤ a`, by halving, with a bound on the first number as fuel
le_fuel : (fuel x y : ℕ) → x ≤ fuel → bit_and x y ≤ x
le_fuel fuel zero y h = omega (arith, zero-bit_and y)
le_fuel zero (suc x) y h = absurd (omega arith)
le_fuel (suc fuel) (suc x) y h =
    omega (arith, bit_and_step (suc x) y, le_fuel fuel (suc x / 2) (y / 2) (omega arith))

pub bit_and-le : (x y : ℕ) → bit_and x y ≤ x
bit_and-le x y = le_fuel x x y (le_refl x)

none_left : (fuel x : ℕ) → x ≤ fuel → bit_and x 0 ≤ 0
none_left fuel zero h = omega (arith, zero-bit_and 0)
none_left zero (suc x) h = absurd (omega arith)
none_left (suc fuel) (suc x) h =
    let halved : bit_and (suc x / 2) 0 ≤ 0 = none_left fuel (suc x / 2) (omega arith) in
    omega (arith, bit_and_step (suc x) 0)

pub bit_and-zero : (x : ℕ) → bit_and x 0 ≡ 0
bit_and-zero x = omega (arith, none_left x x (le_refl x))
