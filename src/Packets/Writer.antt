-- ===== src/Packets/Writer.antt =====
-- The `write_…` functions: the bytes, or `none` for the exception of a value that does not fit its
-- format or of text with a lone surrogate.
pub mod Structs
use eunga_py.Prelude.{
  ℕ, zero, suc, ◌+◌, ◌-◌, ◌*◌, ◌/◌, ◌%◌, ◌^◌, Bool, true, false, Option, none, some, List, [], ◌∷◌,
  ◌++◌, length, is_empty, ltb, ◌==◌, if◌then◌else◌,
}
use eunga_py.Prelude.Int.{ℤ, pos, negsuc}
use eunga_py.Packets.Integers.{Bytes, to_le, to_bytes, to_bytes_signed}
use eunga_py.Packets.Utf8.{Str, encode}

-- `a + b`, or the first exception
infixr 60 ◌<>◌
unfoldable pub ◌<>◌ : Option Bytes → Option Bytes → Option Bytes
none <> b = none
some x <> none = none
some x <> some y = some (x ++ y)

-- the loop of `write_uleb128`; the last byte written has its high bit clear
unfoldable pub uleb_loop : ℕ → ℕ → Bytes
uleb_loop zero num = []
uleb_loop (suc fuel) num =
    let more = (num % 128 + 128) ∷ uleb_loop fuel (num / 128) in
    if num == 0 then [] else if num / 128 == 0 then (num % 128) ∷ [] else more

-- A round divides the number, so the number is fuel enough.
unfoldable pub write_uleb128 : ℕ → Bytes
write_uleb128 num = if num == 0 then 0 ∷ [] else uleb_loop (num + 1) num

-- b"\x0b" + write_uleb128(len(encoded)) + encoded
unfoldable pub tagged : Option Bytes → Option Bytes
tagged none = none
tagged (some encoded) = some (0x0b ∷ (write_uleb128 (length encoded) ++ encoded))

unfoldable pub write_string : Str → Option Bytes
write_string s = if is_empty s then some (0 ∷ []) else tagged (encode s)

-- one unsigned byte: `bytearray.extend`, and the format "B"
unfoldable pub write_u8 : ℕ → Option Bytes
write_u8 n = to_bytes 1 n

unfoldable pub write_i8 : ℤ → Option Bytes
write_i8 z = to_bytes_signed 1 z

unfoldable pub write_u16 : ℕ → Option Bytes
write_u16 n = to_bytes 2 n

unfoldable pub write_u32 : ℕ → Option Bytes
write_u32 n = to_bytes 4 n

unfoldable pub write_i32 : ℤ → Option Bytes
write_i32 z = to_bytes_signed 4 z

unfoldable pub write_i64 : ℤ → Option Bytes
write_i64 z = to_bytes_signed 8 z

-- `z.to_bytes(4, "little")` of a signed number: a negative one raises OverflowError
unfoldable pub write_u32_of : ℤ → Option Bytes
write_u32_of (pos n) = write_u32 n
write_u32_of (negsuc n) = none
