-- ===== src/Packets/Frames/Unknown.antt =====
-- A frame whose id is not a member of `ClientPackets`.
use eunga_py.Prelude.{
  ℕ, zero, suc, ◌≡◌, ◌≢◌, refl, ◌∙◌, Bool, inl, inr, Option-cases, none, some, [], ◌∷◌, ◌++◌,
  length, arith,
}
use eunga_py.Packets.Integers.{Bytes}
use eunga_py.Packets.Ids.{ClientPackets, client_packet, client_value, client_packet_sound}
use eunga_py.Packets.Reader.{Reader}
use eunga_py.Packets.Frames.{frame, next, raised, packets}
use eunga_py.Packets.Frames.Laws.{read_header-frame, next-unknown, next-fuel}
use eunga_py.Packets.Frames.Streams.{frame-long}

client_packet-unknown :
    (id : ℕ) → ((p : ClientPackets) → client_value p ≢ id) → client_packet id ≡ none
client_packet-unknown id unknown = elim (Option-cases (client_packet id)) [
  | inl e ↦ e
  | inr (p, e) ↦ absurd (unknown p (client_packet_sound id e))
]

module _ {A : Type 0} (packet_cls : ClientPackets → ℕ → Reader A)
    (handled : ClientPackets → Bool) where
  packets-raised :
      (fuel : ℕ) (b : Bytes)
      → b ≢ []
      → next handled (length b) b ≡ raised
      → packets packet_cls handled fuel b ≡ none
  unfolding packets
  packets-raised zero [] there e = absurd (there refl)
  packets-raised zero (x ∷ b) there e = refl
  packets-raised (suc fuel) b there e = ground arith

  -- The whole body is lost to an exception if its first frame has an id that is no client packet's,
  -- whatever follows it and whatever the fuel.
  pub packets-unknown :
      (fuel id : ℕ) (payload rest : Bytes) {b : Bytes}
      → ((p : ClientPackets) → client_value p ≢ id)
      → frame id payload ≡ some b
      → packets packet_cls handled fuel (b ++ rest) ≡ none
  packets-unknown fuel id payload rest {b} unknown framed =
      let (there, longer) = frame-long id payload rest framed in
      packets-raised fuel (b ++ rest) there (
        next-fuel handled (length (b ++ rest)) (suc (length (b ++ rest))) (b ++ rest) (omega arith)
          (omega arith)
        ∙ next-unknown handled (length (b ++ rest)) (b ++ rest) there
            (read_header-frame id payload rest framed) (client_packet-unknown id unknown))
