-- ===== src/Packets/Utf8/Laws.antt =====
-- `encode` against `decode`.
use eunga_py.Prelude.{
  ℕ, zero, suc, ◌+◌, ◌≤◌, ◌≡◌, refl, some, none, [], ◌∷◌, ◌++◌, length, length-append, arith,
  Option, Bool-cases, ltb, ◌/◌, ◌%◌, inl, inr,
}
use eunga_py.Packets.Integers.{Bytes}
use eunga_py.Packets.Utf8.{
  Str, encode_char, encode, join, decode_char, decode_loop, decode, two, three, four,
}

-- The bytes of one character, in front of others, are read back as that character.
decode_encode_char :
    (c : ℕ) {b : Bytes} (rest : Bytes)
    → encode_char c ≡ some b
    → (a : ℕ) × (r : Bytes) × (b ≡ a ∷ r) × (decode_char a (r ++ rest) ≡ some (c, rest))
unfolding encode_char decode_char two three four
decode_encode_char c rest h = elim (Bool-cases (ltb c 0x80)) [
  | inl ascii ↦ (c, [], ground arith, ground arith)
  | inr more ↦ elim (Bool-cases (ltb c 0x800)) [
    | inl small ↦ (192 + c / 64, (128 + c % 64) ∷ [], ground arith, ground arith)
    | inr more' ↦ elim (Bool-cases (ltb c 0x1_0000)) [
      | inl small ↦
          (224 + c / 4096, (128 + c / 64 % 64) ∷ (128 + c % 64) ∷ [], ground arith, ground arith)
      | inr large ↦ (
        240 + c / 262144,
        (128 + c / 4096 % 64) ∷ (128 + c / 64 % 64) ∷ (128 + c % 64) ∷ [],
        ground arith,
        ground arith,
      )
    ]
  ]
]

join-eq_some :
    (a b : Option Bytes) {c : Bytes}
    → join a b ≡ some c
    → (x : Bytes) × (y : Bytes) × (a ≡ some x) × (b ≡ some y) × (c ≡ x ++ y)
join-eq_some none b h = cc
join-eq_some (some x) none h = cc
join-eq_some (some x) (some y) h = (x, y, refl, refl, ground arith)

decode_step :
    (fuel c a : ℕ) (r y : Bytes) (s : Str)
    → decode_char a (r ++ y) ≡ some (c, y)
    → decode_loop fuel y ≡ some s
    → decode_loop (suc fuel) (a ∷ (r ++ y)) ≡ some (c ∷ s)
unfolding decode_loop
decode_step fuel c a r y s first rest = ground (arith, first, rest)

too_short : (a : ℕ) (r y : Bytes) → ¬ (length ((a ∷ r) ++ y) ≤ 0)
too_short a r y h = omega arith

shorter_tail : (a : ℕ) (r y : Bytes) {fuel : ℕ} → length ((a ∷ r) ++ y) ≤ suc fuel → length y ≤ fuel
shorter_tail a r y h = omega (arith, length-append r y)

decode_loop-encode :
    (s : Str) (fuel : ℕ) {b : Bytes}
    → encode s ≡ some b
    → length b ≤ fuel
    → decode_loop fuel b ≡ some s
unfolding encode
decode_loop-encode [] fuel {b} h fits =
    let empty : b ≡ [] = ground arith in rw empty (unfold decode_loop in refl)
decode_loop-encode (c ∷ s) zero h fits =
    let (x, y, head, tail, whole) = join-eq_some (encode_char c) (encode s) h in
    let (a, r, shape, first) = decode_encode_char c y head in
    absurd (too_short a r y (rw (whole, shape) at fits))
decode_loop-encode (c ∷ s) (suc fuel) h fits =
    let (x, y, head, tail, whole) = join-eq_some (encode_char c) (encode s) h in
    let (a, r, shape, first) = decode_encode_char c y head in
    let shorter = shorter_tail a r y (rw (whole, shape) at fits) in
    rw (whole, shape) (decode_step fuel c a r y s first (decode_loop-encode s fuel tail shorter))

-- Text that has an encoding is what its encoding decodes to.
pub decode-encode : (s : Str) {b : Bytes} → encode s ≡ some b → decode b ≡ some s
unfolding decode
decode-encode s {b} h = decode_loop-encode s (length b) h (omega arith)
