-- ===== src/Packets/RoundTrip/Strings.antt =====
-- ULEB128 numbers and strings.
use native.Mathlib.Nat.{pow-suc}
use native.Mathlib.Numerals.{towards_suc}
use eunga_py.Prelude.{
  ℕ, zero, suc, ◌+◌, ◌*◌, ◌/◌, ◌%◌, ◌^◌, ◌<◌, ◌≡◌, ◌≢◌, refl, ap, ◌∙◌, Option, none, some, [], ◌∷◌,
  ◌++◌, length, take-length-append, drop-length-append, append_assoc, arith, false, Bool-cases, inl,
  inr, ◌==◌,
}
use eunga_py.Packets.Integers.{Bytes}
use eunga_py.Packets.Utf8.{Str, encode}
use eunga_py.Packets.Utf8.Laws.{decode-encode}
use eunga_py.Packets.Reader.{read_uleb, read_text, read_string}
use eunga_py.Packets.Writer.{uleb_loop, write_uleb128, tagged, write_string}
use eunga_py.Packets.RoundTrip.Rules.{Encodes, >>=-of_some}

-- The next seven bits stand 128 times higher.
weight : (num shift : ℕ) → (num % 128) * 2 ^ shift + num / 128 * 2 ^ (shift + 7) ≡ num * 2 ^ shift
weight num shift =
    let digits : num ≡ num % 128 + 128 * (num / 128) = omega arith in
    let power : 2 ^ (shift + 7) ≡ 128 * 2 ^ shift = simp towards_suc (omega (arith, eight shift)) in
    rw power (omega (arith, ap (λ (t : ℕ). t * 2 ^ shift) digits))
  where
    eight : (s : ℕ) → 2 ^ suc s ≡ 2 ^ s * 2
    eight s = pow-suc 2 s

read_last :
    (count shift byte : ℕ) (rest : Bytes)
    → byte < 128
    → read_uleb count shift (byte ∷ rest) ≡ some (count + byte * 2 ^ shift, rest)
unfolding read_uleb
read_last count shift byte rest h =
    let low : byte % 128 ≡ byte = omega arith in
    let high : byte / 128 % 2 ≡ 0 = omega arith in rw (low, high)

read_more :
    (count shift low : ℕ) (rest : Bytes)
    → low < 128
    → read_uleb count shift ((low + 128) ∷ rest)
      ≡ read_uleb (count + low * 2 ^ shift) (shift + 7) rest
unfolding read_uleb
read_more count shift low rest h =
    let same : (low + 128) % 128 ≡ low = omega arith in
    let high : (low + 128) / 128 % 2 ≡ 1 = omega arith in rw (same, high)

uleb_loop-read :
    (fuel num count shift : ℕ) (rest : Bytes)
    → num < fuel
    → num ≢ 0
    → read_uleb count shift (uleb_loop fuel num ++ rest) ≡ some (count + num * 2 ^ shift, rest)
unfolding uleb_loop
uleb_loop-read zero num count shift rest h p = absurd (omega arith)
uleb_loop-read (suc fuel) num count shift rest h p =
    let nonzero : (num == 0) ≡ false = ground arith in
    elim (Bool-cases (num / 128 == 0)) [
      | inl last ↦
          let whole : num % 128 ≡ num = ground arith in
          rw (nonzero, last) (rw whole (read_last count shift num rest (ground arith)))
      | inr more ↦
          rw (nonzero, more)
            (read_more count shift (num % 128) (uleb_loop fuel (num / 128) ++ rest) (omega arith)
              ∙ uleb_loop-read fuel (num / 128) (count + num % 128 * 2 ^ shift) (shift + 7) rest
                  (omega arith) (ground arith)
              ∙ ap (λ (t : ℕ). some (t, rest)) (omega (arith, weight num shift)))
    ]

-- The number comes back, and the bytes behind it are left.
pub read_uleb-write_uleb128 :
    (num : ℕ) (rest : Bytes) → read_uleb 0 0 (write_uleb128 num ++ rest) ≡ some (num, rest)
unfolding write_uleb128
read_uleb-write_uleb128 num rest = elim (Bool-cases (num == 0)) [
  | inl empty ↦
      let none_left : num ≡ 0 = ground arith in
      rw empty (rw none_left (read_last 0 0 0 rest (omega arith)))
  | inr some_left ↦ rw some_left (
      uleb_loop-read (num + 1) num 0 0 rest (omega arith) (ground arith)
      ∙ ap (λ (t : ℕ). some (t, rest)) (omega arith))
]

read_text-append :
    (s : Str) (e rest : Bytes)
    → encode s ≡ some e
    → read_text (length e) (e ++ rest) ≡ some (s, rest)
unfolding read_text
read_text-append s e rest h = rw (take-length-append, drop-length-append, decode-encode s h)

read_tagged :
    (s : Str) (e rest : Bytes)
    → encode s ≡ some e
    → read_string (0x0b ∷ ((write_uleb128 (length e) ++ e) ++ rest)) ≡ some (s, rest)
unfolding read_string
read_tagged s e rest h = rw append_assoc (
    >>=-of_some (read_uleb 0 0) read_text (write_uleb128 (length e) ++ (e ++ rest))
      (read_uleb-write_uleb128 (length e) (e ++ rest))
    ∙ read_text-append s e rest h)

tagged-eq_some :
    (o : Option Bytes) {b : Bytes}
    → tagged o ≡ some b
    → (e : Bytes) × (o ≡ some e) × (b ≡ 0x0b ∷ (write_uleb128 (length e) ++ e))
unfolding tagged
tagged-eq_some none h = cc
tagged-eq_some (some e) h = (e, refl, ground arith)

-- A string is read back as it was written, the empty one included.
pub string-Encodes : (s : Str) → Encodes Str (write_string s) read_string s
unfolding write_string
string-Encodes [] = record { at = λ b rest h. unfold read_string in ground arith }
string-Encodes (c ∷ s) = record {
  at = λ b rest h.
      let (e, encoded, same) = tagged-eq_some (encode (c ∷ s)) h in
      rw same (read_tagged (c ∷ s) e rest encoded);
}
