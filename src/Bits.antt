-- ===== src/Bits.antt =====
-- Flags packed into a number: `&`, `|` and `& ~` as the source's `IntFlag` classes use them,
-- read one binary digit at a time.
pub mod Step
pub mod Masks
pub mod Digits
use Prim.Native.Nat.{bit_and, bit_or, max, min}
use Step.{bit_and_step, bit_or_step, bit_and-le, bit_and-zero, zero-bit_and}
use eunga_py.Prelude.{
  ℕ, zero, suc, ◌+◌, ◌-◌, ◌*◌, ◌/◌, ◌%◌, ◌≤◌, ◌≡◌, refl, Bool, true, false, not, ◌&&◌, ◌||◌, ◌==◌,
  if◌then◌else◌, arith,
}

-- `a & ~b`
unfoldable pub clear : ℕ → ℕ → ℕ
clear a b = a - bit_and a b

-- `a & b` as a truth value
unfoldable pub has : ℕ → ℕ → Bool
has a b = not (bit_and a b == 0)

-- the digit of weight 2 ^ i
unfoldable pub bit : ℕ → ℕ → Bool
bit a zero = a % 2 == 1
bit a (suc i) = bit (a / 2) i

-- Every flag of the first is in the second.
pub record IsSubset (a b : ℕ) : Type 0 where
  pub at : (i : ℕ) → bit a i ≡ true → bit b i ≡ true

bit-zero : (i : ℕ) → bit 0 i ≡ false
unfolding bit
bit-zero zero = refl
bit-zero (suc i) = bit-zero i

pub bit-bit_and : (a b i : ℕ) → bit (bit_and a b) i ≡ (bit a i && bit b i)
unfolding bit
bit-bit_and a b zero = ground (arith, bit_and_step a b)
bit-bit_and a b (suc i) =
    let halves : bit_and a b / 2 ≡ bit_and (a / 2) (b / 2) = omega (arith, bit_and_step a b) in
    rw halves (bit-bit_and (a / 2) (b / 2) i)

pub bit-bit_or : (a b i : ℕ) → bit (bit_or a b) i ≡ (bit a i || bit b i)
unfolding bit
bit-bit_or a b zero = ground (arith, bit_or_step a b)
bit-bit_or a b (suc i) =
    let halves : bit_or a b / 2 ≡ bit_or (a / 2) (b / 2) = omega (arith, bit_or_step a b) in
    rw halves (bit-bit_or (a / 2) (b / 2) i)

pub clear_halves : (a b : ℕ) → clear a b / 2 ≡ clear (a / 2) (b / 2)
unfolding clear
clear_halves a b = omega (arith, bit_and_step a b, bit_and-le (a / 2) (b / 2))

pub low-clear : (a b : ℕ) → clear a b % 2 ≡ a % 2 - min (a % 2) (b % 2)
unfolding clear
low-clear a b = omega (arith, bit_and_step a b, bit_and-le (a / 2) (b / 2))

pub bit-clear : (a b i : ℕ) → bit (clear a b) i ≡ (bit a i && not (bit b i))
unfolding bit
bit-clear a b zero = ground (arith, low-clear a b)
bit-clear a b (suc i) = rw clear_halves (bit-clear (a / 2) (b / 2) i)

pub clear-IsSubset : (a b : ℕ) → IsSubset (clear a b) a
clear-IsSubset a b = record { at = λ i h. ground (arith, bit-clear a b i) }

pub IsSubset-refl : (a : ℕ) → IsSubset a a
IsSubset-refl a = record { at = λ i h. h }

pub IsSubset-trans : {a b c : ℕ} → IsSubset a b → IsSubset b c → IsSubset a c
IsSubset-trans s t = record { at = λ i h. t.at i (s.at i h) }

pub IsSubset-if :
    (c : Bool) {a b m : ℕ} → IsSubset a m → IsSubset b m → IsSubset (if c then a else b) m
IsSubset-if true s t = s
IsSubset-if false s t = t

pub IsSubset-halves : {a b : ℕ} → IsSubset a b → IsSubset (a / 2) (b / 2)
unfolding bit
IsSubset-halves s = record { at = λ i h. s.at (suc i) h }

pub IsSubset-low : {a b : ℕ} → IsSubset a b → a % 2 ≤ b % 2
unfolding bit
IsSubset-low s = ground (arith, s.at 0)
