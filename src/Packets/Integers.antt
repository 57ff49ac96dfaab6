-- ===== src/Packets/Integers.antt =====
-- `int.to_bytes`, `int.from_bytes` and the integral formats of `struct`, little endian: a number as
-- a list of bytes. `none` is the exception for a number that does not fit.
pub mod Laws
use eunga_py.Prelude.{
  ℕ, zero, suc, ◌+◌, ◌-◌, ◌*◌, ◌/◌, ◌%◌, ◌^◌, Bool, Option, none, some, List, [], ◌∷◌, length, ltb,
  leb, if◌then◌else◌,
}
use eunga_py.Prelude.Int.{ℤ, pos, negsuc}

abbrev pub Bytes : Type 0
Bytes = List ℕ

-- the k low bytes of a number
unfoldable pub to_le : ℕ → ℕ → Bytes
to_le zero n = []
to_le (suc k) n = (n % 256) ∷ to_le k (n / 256)

-- `int.from_bytes(b, "little", signed=False)`
unfoldable pub from_le : Bytes → ℕ
from_le [] = 0
from_le (b ∷ r) = b + 256 * from_le r

-- `int.from_bytes(b, "little", signed=True)`: two's complement in as many bytes as there are
unfoldable pub from_le_signed : Bytes → ℤ
from_le_signed b =
    let n = from_le b in
    let span = 256 ^ length b in if ltb (2 * n) span then pos n else negsuc (span - n - 1)

-- `n.to_bytes(k, "little")`, and `struct.pack` of an unsigned format of k bytes
unfoldable pub to_bytes : ℕ → ℕ → Option Bytes
to_bytes k n = if ltb n (256 ^ k) then some (to_le k n) else none

-- `z.to_bytes(k, "little", signed=True)`, and `struct.pack` of a signed format of k bytes
unfoldable pub to_bytes_signed : ℕ → ℤ → Option Bytes
to_bytes_signed k (pos n) = if ltb (2 * n) (256 ^ k) then some (to_le k n) else none
to_bytes_signed k (negsuc n) =
    if ltb (2 * n) (256 ^ k) then some (to_le k (256 ^ k - (n + 1))) else none
