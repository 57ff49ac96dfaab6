-- ===== src/Packets/Reader.antt =====
-- `BanchoPacketReader`: each method takes what it reads off the front of `body_view`. `none` is an
-- exception: an index past the end, a short buffer for `struct.unpack`, or text that is not UTF-8.
-- Slices past the end are short, as in Python, so the integral readers accept a short buffer.
pub mod Structs
use mathlib.Core.Option
use eunga_py.Prelude.{
  ℕ, zero, suc, ◌+◌, ◌-◌, ◌*◌, ◌/◌, ◌%◌, ◌^◌, Bool, true, false, not, Option, none, some, List, [],
  ◌∷◌, length, take, drop, ltb, leb, ◌==◌, if◌then◌else◌,
}
use eunga_py.Prelude.Int.{ℤ, pos, negsuc, eq_ℤ}
use eunga_py.Packets.Integers.{Bytes, from_le, from_le_signed}
use eunga_py.Packets.Utf8.{Str, decode}

abbrev pub Reader : Type 0 → Type 0
Reader A = Bytes → Option (A × Bytes)

module _ {A : Type 0} where
  abbrev pub pure : A → Reader A
  pure a b = some (a, b)

infixl 5 ◌>>=◌
unfoldable pub ◌>>=◌ : {A B : Type 0} → Reader A → (A → Reader B) → Reader B
◌>>=◌ m f b = elim (m b) [ none ↦ none | some (a, r) ↦ f a r ]

-- `self.body_view[:n]`, read by `f`, which takes a view of any length
abbrev pub slice : {A : Type 0} → ℕ → (Bytes → A) → Reader A
slice n f b = some (f (take n b), drop n b)

-- `struct.unpack` wants all of the n bytes
abbrev unpack : {A : Type 0} → ℕ → (Bytes → A) → Reader A
unpack n f b = if leb n (length b) then some (f (take n b), drop n b) else none

-- reading a list of k values
unfoldable pub times : {A : Type 0} → ℕ → Reader A → Reader (List A)
times zero m = pure []
times (suc k) m = do x ← m; xs ← times k m; pure (x ∷ xs)

unfoldable pub read_raw : ℕ → Reader Bytes
read_raw current_len = slice current_len (λ b. b)

unfoldable pub read_u8 : Reader ℕ
read_u8 [] = none
read_u8 (v ∷ r) = some (v, r)

unfoldable pub read_i8 : Reader ℤ
read_i8 [] = none
read_i8 (v ∷ r) = some (if ltb 127 v then negsuc (256 - v - 1) else pos v, r)

unfoldable pub read_i16 : Reader ℤ
read_i16 = slice 2 from_le_signed

unfoldable pub read_u16 : Reader ℕ
read_u16 = slice 2 from_le

unfoldable pub read_i32 : Reader ℤ
read_i32 = slice 4 from_le_signed

unfoldable pub read_u32 : Reader ℕ
read_u32 = slice 4 from_le

unfoldable pub read_i64 : Reader ℤ
read_i64 = slice 8 from_le_signed

unfoldable pub read_u64 : Reader ℕ
read_u64 = slice 8 from_le

-- The floating-point readers give the IEEE 754 bit pattern, which determines the number.
unfoldable pub read_f16 : Reader ℕ
read_f16 = unpack 2 from_le

unfoldable pub read_f32 : Reader ℕ
read_f32 = unpack 4 from_le

unfoldable pub read_f64 : Reader ℕ
read_f64 = unpack 8 from_le

-- `length` unsigned words, all of which must be there
pub words : ℕ → Reader (List ℕ)
words count b = if leb (count * 4) (length b) then times count (slice 4 from_le) b else none

unfoldable pub read_i32_list_i16l : Reader (List ℕ)
read_i32_list_i16l = do count ← slice 2 from_le; words count

unfoldable pub read_i32_list_i32l : Reader (List ℕ)
read_i32_list_i32l = do count ← slice 4 from_le; words count

-- The loop over the ULEB128 bytes. `length |= (byte & 0x7F) << shift` sets bits that are clear so
-- far, hence the sum.
unfoldable pub read_uleb : ℕ → ℕ → Reader ℕ
read_uleb count shift [] = none
read_uleb count shift (byte ∷ r) =
    let count' = count + (byte % 128) * 2 ^ shift in
    if byte / 128 % 2 == 0 then some (count', r) else read_uleb count' (shift + 7) r

-- `view[:length].tobytes().decode()`
unfoldable pub read_text : ℕ → Reader Str
read_text count b = Option.map (λ s. (s, drop count b)) (decode (take count b))

unfoldable pub read_string : Reader Str
read_string [] = none
read_string (flag ∷ r) = if flag == 0x0b then (read_uleb 0 0 >>= read_text) r else some ([], r)
