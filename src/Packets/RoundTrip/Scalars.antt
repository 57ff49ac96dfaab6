-- ===== src/Packets/RoundTrip/Scalars.antt =====
-- Writers and readers of numbers.
use eunga_py.Prelude.{
  ℕ, suc, ◌-◌, ◌^◌, ◌<◌, ◌≡◌, some, ◌++◌, length, take-length-append, drop-length-append, arith,
  ltb, if◌then◌else◌,
}
use eunga_py.Prelude.Int.{ℤ, pos, negsuc}
use eunga_py.Packets.Integers.{Bytes, to_le, from_le, from_le_signed, to_bytes, to_bytes_signed}
use eunga_py.Packets.Integers.Laws.{
  length-to_le, from_le-to_le, to_bytes-eq_some, from_le_signed-to_bytes_signed,
}
use eunga_py.Packets.Reader.{slice, read_u8, read_i8, read_i16, read_u16, read_i32}
use eunga_py.Packets.Writer.{write_u8, write_i8, write_u16, write_u32, write_i32, write_u32_of}
use eunga_py.Packets.RoundTrip.Rules.{Encodes}

slice-append :
    {A : Type 0} (n : ℕ) (f : Bytes → A) (b rest : Bytes) {a : A}
    → length b ≡ n
    → f b ≡ a
    → slice n f (b ++ rest) ≡ some (a, rest)
slice-append n f b rest h e = rw (← h, take-length-append, drop-length-append, e)

unsigned-Encodes : (k n : ℕ) → Encodes ℕ (to_bytes k n) (slice k from_le) n
unsigned-Encodes k n = record {
  at = λ b rest h.
      let (fits, same) = to_bytes-eq_some k n h in
      rw same (slice-append k from_le (to_le k n) rest (length-to_le k n) (from_le-to_le k n fits));
}

signed-Encodes :
    (k : ℕ) (z : ℤ) → Encodes ℤ (to_bytes_signed (suc k) z) (slice (suc k) from_le_signed) z
signed-Encodes k z = record {
  at = λ b rest h.
      let (size, same) = from_le_signed-to_bytes_signed k z h in
      slice-append (suc k) from_le_signed b rest size same;
}

pub u16-Encodes : (n : ℕ) → Encodes ℕ (write_u16 n) read_u16 n
unfolding write_u16 read_u16
u16-Encodes n = unsigned-Encodes 2 n

pub i32-Encodes : (z : ℤ) → Encodes ℤ (write_i32 z) read_i32 z
unfolding write_i32 read_i32
i32-Encodes z = signed-Encodes 3 z

pub u8-Encodes : (n : ℕ) → Encodes ℕ (write_u8 n) read_u8 n
unfolding write_u8 read_u8 to_bytes to_le
u8-Encodes n = record { at = λ b rest h. ground arith }

-- A byte that was written unsigned and is read signed.
abbrev pub signed_byte : ℕ → ℤ
signed_byte n = if ltb 127 n then negsuc (256 - n - 1) else pos n

pub u8_i8-Encodes : (n : ℕ) → Encodes ℤ (write_u8 n) read_i8 (signed_byte n)
unfolding write_u8 read_i8 to_bytes to_le
u8_i8-Encodes n = record { at = λ b rest h. ground arith }

pub i8-Encodes : (z : ℤ) → Encodes ℤ (write_i8 z) read_i8 z
unfolding write_i8 read_i8 to_bytes_signed to_le
i8-Encodes (pos n) = record { at = λ b rest h. ground arith }
i8-Encodes (negsuc n) = record { at = λ b rest h. ground arith }

-- A word that was written unsigned and is read signed.
pub u32_i32-Encodes : (n : ℕ) → n < 2 ^ 31 → Encodes ℤ (write_u32 n) read_i32 (pos n)
unfolding write_u32 to_bytes write_i32 to_bytes_signed
u32_i32-Encodes n small = record { at = λ b rest h. (i32-Encodes (pos n)).at b rest (ground arith) }

pub u16_i16-Encodes : (n : ℕ) → n < 2 ^ 15 → Encodes ℤ (write_u16 n) read_i16 (pos n)
unfolding write_u16 read_i16 to_bytes to_bytes_signed
u16_i16-Encodes n small = record {
  at = λ b rest h. (signed-Encodes 1 (pos n)).at b rest (ground arith);
}

pub seed-Encodes : (n : ℕ) → n < 2 ^ 31 → Encodes ℤ (write_u32_of (pos n)) read_i32 (pos n)
unfolding write_u32_of
seed-Encodes n small = u32_i32-Encodes n small
