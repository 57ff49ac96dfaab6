-- ===== src/Packets/Frames/Laws.antt =====
-- Lemmas on headers and on the loop of `BanchoPacketReader.__next__`.
use eunga_py.Prelude.{
  ℕ, zero, suc, ◌-◌, ◌%◌, ◌/◌, ◌≤◌, ◌<◌, ◌≡◌, ◌≢◌, refl, sym, ap, ◌∙◌, Bool, true, false,
  Bool-cases, Option-cases, inl, inr, none, some, [], ◌∷◌, ◌++◌, length, drop, arith,
}
use eunga_py.Packets.Integers.{Bytes, to_le, from_le, to_bytes}
use eunga_py.Packets.Ids.{ClientPackets, client_packet}
use eunga_py.Packets.Writer.{◌<>◌, write_u16, write_u32}
use eunga_py.Packets.Frames.{frame, read_header, stop, raised, exhausted, found, next}

-- The seven bytes in front of the payload.
abbrev pub header : ℕ → ℕ → Bytes → Bytes
header id len payload =
    (id % 256)
    ∷ (id / 256 % 256)
    ∷ 0
    ∷ (len % 256)
    ∷ (len / 256 % 256)
    ∷ (len / 256 / 256 % 256)
    ∷ (len / 256 / 256 / 256 % 256)
    ∷ payload

pub frame-eq_some :
    (id : ℕ) (payload : Bytes) {b : Bytes}
    → frame id payload ≡ some b
    → (id < 65536) × (length payload < 4294967296) × (b ≡ header id (length payload) payload)
unfolding frame write_u16 write_u32 to_bytes to_le ◌<>◌
frame-eq_some id payload h = ground arith

read_header-header :
    (id len : ℕ) (body : Bytes)
    → id < 65536
    → len < 4294967296
    → read_header (header id len body) ≡ some ((id, len), body)
unfolding read_header from_le
read_header-header id len body p q = ground arith

-- The header of a frame gives back the id and the size of the payload, and leaves the payload.
pub read_header-frame :
    (id : ℕ) (payload rest : Bytes) {b : Bytes}
    → frame id payload ≡ some b
    → read_header (b ++ rest) ≡ some ((id, length payload), payload ++ rest)
read_header-frame id payload rest h =
    let (small, short, same) = frame-eq_some id payload h in
    rw same (read_header-header id (length payload) (payload ++ rest) small short)

length-drop : (n : ℕ) (b : Bytes) → length (drop n b) ≡ length b - n
length-drop zero b = omega arith
length-drop (suc n) [] = omega arith
length-drop (suc n) (x ∷ b) = omega (arith, length-drop n b)

read_header-shorter :
    (b : Bytes) {h : ℕ × ℕ} {body : Bytes} → read_header b ≡ some (h, body) → length body < length b
unfolding read_header
read_header-shorter b {h = head} {body = body} h =
    let same : body ≡ drop 7 b = ground arith in
    let long : 7 ≤ length b = ground arith in omega (arith, length-drop 7 b, ap length same)

module _ (handled : ClientPackets → Bool) where
  -- One round of the loop, by what the header says.
  next-raised :
      (fuel : ℕ) (b : Bytes) → b ≢ [] → read_header b ≡ none → next handled (suc fuel) b ≡ raised
  unfolding next
  next-raised fuel [] p h = absurd (p refl)
  next-raised fuel (x ∷ r) p h = ground arith

  pub next-unknown :
      (fuel : ℕ) (b : Bytes) {id len : ℕ} {body : Bytes}
      → b ≢ []
      → read_header b ≡ some ((id, len), body)
      → client_packet id ≡ none
      → next handled (suc fuel) b ≡ raised
  unfolding next
  next-unknown fuel [] p h u = absurd (p refl)
  next-unknown fuel (x ∷ r) p h u = ground arith

  pub next-found :
      (fuel : ℕ) (b : Bytes) {id len : ℕ} {body : Bytes} {packet : ClientPackets}
      → b ≢ []
      → read_header b ≡ some ((id, len), body)
      → client_packet id ≡ some packet
      → handled packet ≡ true
      → next handled (suc fuel) b ≡ found packet len body
  unfolding next
  next-found fuel [] p h u q = absurd (p refl)
  next-found fuel (x ∷ r) p h u q = ground arith

  pub next-skip :
      (fuel : ℕ) (b : Bytes) {id len : ℕ} {body : Bytes} {packet : ClientPackets}
      → b ≢ []
      → read_header b ≡ some ((id, len), body)
      → client_packet id ≡ some packet
      → handled packet ≡ false
      → next handled (suc fuel) b ≡ next handled fuel (drop len body)
  unfolding next
  next-skip fuel [] p h u q = absurd (p refl)
  next-skip fuel (x ∷ r) p h u q = ground arith

  pub next-nil : (fuel : ℕ) → next handled fuel [] ≡ stop
  unfolding next
  next-nil zero = refl
  next-nil (suc fuel) = refl

  -- What a round of the loop does, whatever the fuel.
  data Round (b : Bytes) : Type 0 where
    raises : ((fuel : ℕ) → next handled (suc fuel) b ≡ raised) → Round b
    finds :
        (packet : ClientPackets) (len : ℕ) (body : Bytes)
        → ((fuel : ℕ) → next handled (suc fuel) b ≡ found packet len body)
        → Round b
    skips :
        (rest : Bytes)
        → length rest < length b
        → ((fuel : ℕ) → next handled (suc fuel) b ≡ next handled fuel rest)
        → Round b

  round : (b : Bytes) → b ≢ [] → Round b
  round b p = elim (Option-cases (read_header b)) [
    | inl short ↦ raises (λ fuel. next-raised fuel b p short)
    | inr (((id, len), body), head) ↦ elim (Option-cases (client_packet id)) [
      | inl unknown ↦ raises (λ fuel. next-unknown fuel b p head unknown)
      | inr (packet, known) ↦ elim (Bool-cases (handled packet)) [
        | inl on ↦ finds packet len body (λ fuel. next-found fuel b p head known on)
        | inr off ↦
            skips (drop len body) (omega (arith, read_header-shorter b head, length-drop len body))
              (λ fuel. next-skip fuel b p head known off)
      ]
    ]
  ]

  cons-ne-nil : (x : ℕ) (r : Bytes) → ◌≢◌ {A = Bytes} (x ∷ r) []
  cons-ne-nil x r e = cc

  -- Fuel for the length of the body is enough, and more makes no difference.
  pub next-fuel :
      (f g : ℕ) (b : Bytes) → length b ≤ f → length b ≤ g → next handled f b ≡ next handled g b
  next-fuel f g [] p q = next-nil f ∙ sym (next-nil g)
  next-fuel zero g (x ∷ r) p q = absurd (omega arith)
  next-fuel (suc f) zero (x ∷ r) p q = absurd (omega arith)
  next-fuel (suc f) (suc g) (x ∷ r) p q = elim (round (x ∷ r) (cons-ne-nil x r)) [
    | raises e ↦ e f ∙ sym (e g)
    | finds packet len body e ↦ e f ∙ sym (e g)
    | skips rest shorter e ↦ e f ∙ next-fuel f g rest (omega arith) (omega arith) ∙ sym (e g)
  ]

  -- The loop ends: with fuel for the length of the body it does not run out.
  pub next-ne-exhausted : (f : ℕ) (b : Bytes) → length b ≤ f → next handled f b ≢ exhausted
  next-ne-exhausted f [] h e = cc (next-nil f)
  next-ne-exhausted zero (x ∷ r) h e = absurd (omega arith)
  next-ne-exhausted (suc f) (x ∷ r) h e = elim (round (x ∷ r) (cons-ne-nil x r)) [
    | raises s ↦ cc (s f)
    | finds packet len body s ↦ cc (s f)
    | skips rest shorter s ↦ next-ne-exhausted f rest (omega arith) (sym (s f) ∙ e)
  ]
