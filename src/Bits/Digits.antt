-- ===== src/Bits/Digits.antt =====
-- Numbers by their binary digits, for the masks of app/constants/mods.py.
use Prim.Native.Nat.{bit_or}
use native.Mathlib.Nat.{pow-suc}
use eunga_py.Prelude.{ℕ, zero, suc, ◌/◌, ◌%◌, ◌^◌, ◌<◌, ◌≡◌, ◌==◌, arith}
use eunga_py.Bits.{bit}
use eunga_py.Bits.Step.{bit_or_step}

-- numbers of n binary digits that agree from the digit i on
abbrev pub Agree : ℕ → ℕ → ℕ → ℕ → Type 0
Agree zero i a b = Unit
Agree (suc n) i a b = (bit a i ≡ bit b i) × Agree n (suc i) a b

Agree-halves : (n i a b : ℕ) → Agree n (suc i) a b → Agree n i (a / 2) (b / 2)
unfolding bit
Agree-halves zero i a b p = tt
Agree-halves (suc n) i a b p = (p.0, Agree-halves n (suc i) a b p.1)

half_lt : (n a : ℕ) → a < 2 ^ suc n → a / 2 < 2 ^ n
half_lt n a h = omega (arith, pow-suc 2 n)

-- numbers that agree in all their digits are the same
pub Agree-eq : (n a b : ℕ) → a < 2 ^ n → b < 2 ^ n → Agree n 0 a b → a ≡ b
unfolding bit
Agree-eq zero a b small small' p = omega arith
Agree-eq (suc n) a b small small' p =
    let halves : a / 2 ≡ b / 2 =
      Agree-eq n (a / 2) (b / 2) (half_lt n a small) (half_lt n b small')
        (Agree-halves n 0 a b p.1) in
    let low : (a % 2 == 1) ≡ (b % 2 == 1) = p.0 in ground arith

pub bit_or-lt : (n a b : ℕ) → a < 2 ^ n → b < 2 ^ n → bit_or a b < 2 ^ n
bit_or-lt zero zero zero h k = omega arith
bit_or-lt zero (suc a) b h k = absurd (omega arith)
bit_or-lt zero zero (suc b) h k = absurd (omega arith)
bit_or-lt (suc n) a b h k =
    let halves = bit_or-lt n (a / 2) (b / 2) (half_lt n a h) (half_lt n b k) in
    omega (arith, bit_or_step a b, pow-suc 2 n)
