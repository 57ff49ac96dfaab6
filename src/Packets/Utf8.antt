-- ===== src/Packets/Utf8.antt =====
-- `str.encode()` and `bytes.decode()`: UTF-8, strict. A `str` is a list of code points.
pub mod Laws
use mathlib.Core.Option
use eunga_py.Prelude.{
  ℕ, zero, suc, ◌+◌, ◌-◌, ◌*◌, ◌/◌, ◌%◌, Bool, not, ◌&&◌, Option, none, some, List, [], ◌∷◌, ◌++◌,
  length, ltb, leb, if◌then◌else◌,
}
use eunga_py.Packets.Integers.{Bytes}

abbrev pub Str : Type 0
Str = List ℕ

abbrev is_surrogate : ℕ → Bool
is_surrogate c = leb 0xd800 c && leb c 0xdfff

abbrev tail_byte : ℕ → ℕ
tail_byte c = 128 + c % 64

-- one character; a surrogate, or what is no code point, raises UnicodeEncodeError
encode_char : ℕ → Option Bytes
encode_char c =
    if ltb c 0x80
    then some (c ∷ [])
    else if ltb c 0x800
    then some ((192 + c / 64) ∷ tail_byte c ∷ [])
    else if is_surrogate c
    then none
    else if ltb c 0x1_0000
    then some ((224 + c / 4096) ∷ tail_byte (c / 64) ∷ tail_byte c ∷ [])
    else if ltb c 0x11_0000
    then some ((240 + c / 262144) ∷ tail_byte (c / 4096) ∷ tail_byte (c / 64) ∷ tail_byte c ∷ [])
    else none

abbrev join : Option Bytes → Option Bytes → Option Bytes
join none b = none
join (some a) none = none
join (some a) (some b) = some (a ++ b)

-- `s.encode()`
unfoldable pub encode : Str → Option Bytes
unfolding encode_char
encode [] = some []
encode (c ∷ s) = join (encode_char c) (encode s)

abbrev is_tail : ℕ → Bool
is_tail b = leb 128 b && leb b 191

abbrev accept : Bool → ℕ → Bytes → Option (ℕ × Bytes)
accept ok c r = if ok then some (c, r) else none

two : ℕ → Bytes → Option (ℕ × Bytes)
two a (b ∷ r) = accept (is_tail b) ((a - 192) * 64 + (b - 128)) r
two a [] = none

three : ℕ → Bytes → Option (ℕ × Bytes)
three a (b ∷ c ∷ r) =
    let n = (a - 224) * 4096 + (b - 128) * 64 + (c - 128) in
    accept (is_tail b && is_tail c && leb 0x800 n && not (is_surrogate n)) n r
three a _ = none

four : ℕ → Bytes → Option (ℕ × Bytes)
four a (b ∷ c ∷ d ∷ r) =
    let n = (a - 240) * 262144 + (b - 128) * 4096 + (c - 128) * 64 + (d - 128) in
    accept (is_tail b && is_tail c && is_tail d && leb 0x1_0000 n && ltb n 0x11_0000) n r
four a _ = none

-- the first character and the bytes behind it; overlong forms, surrogates and stray bytes raise
-- UnicodeDecodeError
decode_char : ℕ → Bytes → Option (ℕ × Bytes)
unfolding two three four
decode_char a r =
    if ltb a 0x80
    then some (a, r)
    else if ltb a 0xc2
    then none
    else if ltb a 0xe0
    then two a r
    else if ltb a 0xf0
    then three a r
    else if ltb a 0xf5
    then four a r
    else none

decode_loop : ℕ → Bytes → Option Str
unfolding decode_char
decode_loop fuel [] = some []
decode_loop zero (a ∷ r) = none
decode_loop (suc fuel) (a ∷ r) = elim (decode_char a r) [
  | none ↦ none
  | some (c, rest) ↦ Option.map (λ s. c ∷ s) (decode_loop fuel rest)
]

-- `b.decode()`: a character takes a byte at least, so the length is fuel enough
unfoldable pub decode : Bytes → Option Str
unfolding decode_loop
decode b = decode_loop (length b) b
