-- ===== src/Packets/Integers/Laws.antt =====
-- Lemmas on integers and their bytes.
use native.Mathlib.Nat.{pow-suc}
use eunga_py.Prelude.{
  ℕ, zero, suc, ◌+◌, ◌-◌, ◌*◌, ◌/◌, ◌^◌, ◌<◌, ◌≤◌, ◌≡◌, refl, ap, some, length, arith,
}
use eunga_py.Prelude.Int.{ℤ, pos, negsuc}
use eunga_py.Packets.Integers.{Bytes, to_le, from_le, from_le_signed, to_bytes, to_bytes_signed}

pub length-to_le : (k n : ℕ) → length (to_le k n) ≡ k
unfolding to_le
length-to_le zero n = refl
length-to_le (suc k) n = ap suc (length-to_le k (n / 256))

pub from_le-to_le : (k n : ℕ) → n < 256 ^ k → from_le (to_le k n) ≡ n
unfolding to_le from_le
from_le-to_le zero zero h = refl
from_le-to_le zero (suc n) h = absurd (omega arith)
from_le-to_le (suc k) n h = omega (arith, pow-suc 256 k, from_le-to_le k (n / 256))

pub to_bytes-eq_some :
    (k n : ℕ) {b : Bytes} → to_bytes k n ≡ some b → (n < 256 ^ k) × (b ≡ to_le k n)
unfolding to_bytes
to_bytes-eq_some k n h = ground arith

-- An integer that was packed signed is the one that is unpacked.
pub from_le_signed-to_bytes_signed :
    (k : ℕ) (z : ℤ) {b : Bytes}
    → to_bytes_signed (suc k) z ≡ some b
    → (length b ≡ suc k) × (from_le_signed b ≡ z)
unfolding to_bytes_signed from_le_signed
from_le_signed-to_bytes_signed k (pos n) h =
    ground (arith, length-to_le (suc k) n, from_le-to_le (suc k) n)
from_le_signed-to_bytes_signed k (negsuc n) {b} h =
    let code : ℕ = 256 ^ suc k - (n + 1) in
    let room : 2 * n + 2 ≤ 256 ^ suc k = ground (arith, pow-suc 256 k) in
    let same : b ≡ to_le (suc k) code = ground arith in
    rw same (
      length-to_le (suc k) code,
      rw (length-to_le (suc k) code, from_le-to_le (suc k) code (omega arith)) (ground arith),
    )
