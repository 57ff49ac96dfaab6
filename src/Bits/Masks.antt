-- ===== src/Bits/Masks.antt =====
-- Tests against a mask, one digit at a time: at a mask that is a numeral they compute to the digits
-- of the tested number.
use Prim.Native.Nat.{bit_and}
use native.Mathlib.Nat.{pow-suc}
use eunga_py.Bits.{
  has, bit, clear, IsSubset, low-clear, clear_halves, IsSubset-low, IsSubset-halves,
}
use eunga_py.Bits.Step.{bit_and_step, bit_and-zero}
use eunga_py.Prelude.{
  ℕ, zero, suc, ◌+◌, ◌*◌, ◌/◌, ◌%◌, ◌^◌, ◌≤◌, ◌<◌, ◌≤◌, ◌≡◌, refl, sym, ap, ◌∙◌, Bool, true, false,
  ◌&&◌, ◌||◌, ◌==◌, if◌then◌else◌, arith,
}

abbrev odd : ℕ → Bool
odd n = n % 2 == 1

-- some of the first n digits of the mask is set in the number, whose digits from `i` on are looked at
abbrev pub any_bit : ℕ → ℕ → ℕ → ℕ → Bool
any_bit zero a i b = false
any_bit (suc n) a i b = (if odd b then bit a i else false) || any_bit n a (suc i) (b / 2)

abbrev pub count_bits : ℕ → ℕ → ℕ → ℕ → ℕ
count_bits zero a i b = 0
count_bits (suc n) a i b =
    (if odd b then (if bit a i then 1 else 0) else 0) + count_bits n a (suc i) (b / 2)

-- `bin(a).count("1")` of a number of at most n binary digits
unfoldable pub count_ones : ℕ → ℕ → ℕ
count_ones zero a = 0
count_ones (suc n) a = a % 2 + count_ones n (a / 2)

any_bit-shift : (n a i b : ℕ) → any_bit n a (suc i) b ≡ any_bit n (a / 2) i b
unfolding bit
any_bit-shift zero a i b = refl
any_bit-shift (suc n) a i b = rw (any_bit-shift n a (suc i) (b / 2))

count_bits-shift : (n a i b : ℕ) → count_bits n a (suc i) b ≡ count_bits n (a / 2) i b
unfolding bit
count_bits-shift zero a i b = refl
count_bits-shift (suc n) a i b = rw (count_bits-shift n a (suc i) (b / 2))

has_step : (a b : ℕ) → has a b ≡ ((if odd b then odd a else false) || has (a / 2) (b / 2))
unfolding has
has_step a b = ground (arith, bit_and_step a b)

halved : (n b : ℕ) → b < 2 ^ suc n → b / 2 < 2 ^ n
halved n b h = omega (arith, pow-suc 2 n)

pub has-any_bit : (n a b : ℕ) → b < 2 ^ n → has a b ≡ any_bit n a 0 b
unfolding bit
has-any_bit zero a zero h = unfold has in rw bit_and-zero
has-any_bit zero a (suc b) h = absurd (omega arith)
has-any_bit (suc n) a b h =
    rw (has_step, any_bit-shift) (rw (has-any_bit n (a / 2) (b / 2) (halved n b h)) refl)

pub count_ones-bit_and : (n a b : ℕ) → count_ones n (bit_and a b) ≡ count_bits n a 0 b
unfolding count_ones bit
count_ones-bit_and zero a b = refl
count_ones-bit_and (suc n) a b =
    let halves : bit_and a b / 2 ≡ bit_and (a / 2) (b / 2) = omega (arith, bit_and_step a b) in
    rw (halves, count_bits-shift, count_ones-bit_and n (a / 2) (b / 2))
      (ground (arith, bit_and_step a b))

abbrev pub mask_value : ℕ → ℕ → ℕ → ℕ → ℕ
mask_value zero a i b = 0
mask_value (suc n) a i b =
    (if odd b then (if bit a i then 1 else 0) else 0) + 2 * mask_value n a (suc i) (b / 2)

mask_value-shift : (n a i b : ℕ) → mask_value n a (suc i) b ≡ mask_value n (a / 2) i b
unfolding bit
mask_value-shift zero a i b = refl
mask_value-shift (suc n) a i b = rw (mask_value-shift n a (suc i) (b / 2))

pub bit_and-mask_value : (n a b : ℕ) → b < 2 ^ n → bit_and a b ≡ mask_value n a 0 b
unfolding bit
bit_and-mask_value zero a zero h = bit_and-zero a
bit_and-mask_value zero a (suc b) h = absurd (omega arith)
bit_and-mask_value (suc n) a b h =
    rw (mask_value-shift, ← bit_and-mask_value n (a / 2) (b / 2) (halved n b h))
      (ground (arith, bit_and_step a b))

-- A single flag is a digit.
pub has-flag : (a i : ℕ) → has a (2 ^ i) ≡ bit a i
unfolding bit
has-flag a zero = rw (has-any_bit 1 a 1 (omega arith)) (unfold bit in ground arith)
has-flag a (suc i) =
    rw has_step (rw (pow-suc 2 i) (ground (arith, has-flag (a / 2) i, ap (has (a / 2)) (twice i))))
  where
    twice : (i : ℕ) → 2 ^ i * 2 / 2 ≡ 2 ^ i
    twice i = omega arith

any_bit-IsSubset :
    (n i k : ℕ) {a b : ℕ} → IsSubset a b → any_bit n a i k ≡ true → any_bit n b i k ≡ true
any_bit-IsSubset zero i k s h = h
any_bit-IsSubset (suc n) i k s h = ground (arith, s.at i, any_bit-IsSubset n (suc i) (k / 2) s)

-- Fewer flags meet fewer masks.
pub has-IsSubset : (k : ℕ) {a b : ℕ} → k < 2 ^ 31 → IsSubset a b → has a k ≡ true → has b k ≡ true
has-IsSubset k {a} {b} fits s h =
    has-any_bit 31 b k fits ∙ any_bit-IsSubset 31 0 k s (sym (has-any_bit 31 a k fits) ∙ h)

-- Each of the first n digits that is set in the first number is set in the second.
abbrev pub covered : ℕ → ℕ → ℕ → Bool
covered zero k b = true
covered (suc n) k b = (if odd k then odd b else true) && covered n (k / 2) (b / 2)

-- What was cleared is absent.
pub has-clear : (n a b k : ℕ) → k < 2 ^ n → covered n k b ≡ true → has (clear a b) k ≡ false
has-clear zero a b zero fits h = unfold has in rw bit_and-zero
has-clear zero a b (suc k) fits h = absurd (omega arith)
has-clear (suc n) a b k fits h = rw has_step (
    ground (
      arith,
      low-clear a b,
      clear_halves a b,
      has-clear n (a / 2) (b / 2) (k / 2) (halved n k fits),
    ))

pub count_ones-IsSubset : (n : ℕ) {a b : ℕ} → IsSubset a b → count_ones n a ≤ count_ones n b
unfolding count_ones
count_ones-IsSubset zero s = omega arith
count_ones-IsSubset (suc n) s =
    omega (arith, IsSubset-low s, count_ones-IsSubset n (IsSubset-halves s))
