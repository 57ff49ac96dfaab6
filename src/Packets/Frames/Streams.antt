-- ===== src/Packets/Frames/Streams.antt =====
-- The iteration of `BanchoPacketReader` over a whole body.
use eunga_py.Prelude.{
  ℕ, zero, suc, ◌≤◌, ◌<◌, ◌≡◌, ◌≢◌, refl, ◌∙◌, Bool, true, false, some, List, [], ◌∷◌, ◌++◌, length,
  length-append, drop-length-append, arith,
}
use eunga_py.Packets.Integers.{Bytes}
use eunga_py.Packets.Ids.{ClientPackets, client_value, client_packet-client_value}
use eunga_py.Packets.Reader.{Reader}
use eunga_py.Packets.Frames.{frame, found, next, packets}
use eunga_py.Packets.Frames.Laws.{
  frame-eq_some, read_header-frame, next-nil, next-found, next-skip, next-fuel,
}

module _ {A : Type 0} (packet_cls : ClientPackets → ℕ → Reader A)
    (handled : ClientPackets → Bool) where
  -- A body of whole frames, each of a packet that is known, with the values that the classes of the
  -- handled ones read from their payloads.
  pub data IsStream : Bytes → List A → Type 0 where
    end : IsStream [] []
    ignored :
        (packet : ClientPackets) (payload b rest : Bytes) {whole : Bytes} {l : List A}
        → handled packet ≡ false
        → frame (client_value packet) payload ≡ some b
        → whole ≡ b ++ rest
        → IsStream rest l
        → IsStream whole l
    taken :
        (packet : ClientPackets) (payload b rest : Bytes) (a : A) {whole : Bytes} {l : List A}
        → handled packet ≡ true
        → frame (client_value packet) payload ≡ some b
        → packet_cls packet (length payload) (payload ++ rest) ≡ some (a, rest)
        → whole ≡ b ++ rest
        → IsStream rest l
        → IsStream whole (a ∷ l)

pub frame-long :
    (id : ℕ) (payload rest : Bytes) {b : Bytes}
    → frame id payload ≡ some b
    → (b ++ rest ≢ []) × (length rest < length (b ++ rest))
frame-long id payload rest h =
    let (small, short, same) = frame-eq_some id payload h in
    rw same ((λ e. cc), omega (arith, length-append payload rest))

too_long :
    (packet : ClientPackets) (payload b rest : Bytes)
    → frame (client_value packet) payload ≡ some b
    → ¬ (length (b ++ rest) ≤ 0)
too_long packet payload b rest framed h =
    let longer = (frame-long (client_value packet) payload rest framed).1 in omega arith

within : {m n k : ℕ} → m < n → n ≤ k → m ≤ k
within p q = omega arith

below : {m n k : ℕ} → m < n → n ≤ suc k → m ≤ k
below p q = omega arith

module _ {A : Type 0} (packet_cls : ClientPackets → ℕ → Reader A)
    (handled : ClientPackets → Bool) where
  -- The iterator passes over a frame that is not handled.
  next-ignored :
      (packet : ClientPackets) (payload rest : Bytes) {b : Bytes}
      → handled packet ≡ false
      → frame (client_value packet) payload ≡ some b
      → next handled (length (b ++ rest)) (b ++ rest) ≡ next handled (length rest) rest
  next-ignored packet payload rest {b} off framed =
      let (there, longer) = frame-long (client_value packet) payload rest framed in
      next-fuel handled (length (b ++ rest)) (suc (length (b ++ rest))) (b ++ rest) (omega arith)
        (omega arith)
      ∙ next-skip handled (length (b ++ rest)) (b ++ rest) there
          (read_header-frame (client_value packet) payload rest framed)
          (client_packet-client_value packet) off
      ∙ rw drop-length-append
          (next-fuel handled (length (b ++ rest)) (length rest) rest (omega arith) (omega arith))

  next-taken :
      (packet : ClientPackets) (payload rest : Bytes) {b : Bytes}
      → handled packet ≡ true
      → frame (client_value packet) payload ≡ some b
      → next handled (length (b ++ rest)) (b ++ rest)
        ≡ found packet (length payload) (payload ++ rest)
  next-taken packet payload rest {b} on framed =
      let (there, longer) = frame-long (client_value packet) payload rest framed in
      next-fuel handled (length (b ++ rest)) (suc (length (b ++ rest))) (b ++ rest) (omega arith)
        (omega arith)
      ∙ next-found handled (length (b ++ rest)) (b ++ rest) there
          (read_header-frame (client_value packet) payload rest framed)
          (client_packet-client_value packet) on

  -- One round of the loop depends on what the iterator comes to.
  packets-same :
      (fuel : ℕ) (b c : Bytes)
      → next handled (length b) b ≡ next handled (length c) c
      → packets packet_cls handled (suc fuel) b ≡ packets packet_cls handled (suc fuel) c
  unfolding packets
  packets-same fuel b c e = rw (e, packets)

  packets-found :
      (fuel : ℕ) (b body rest : Bytes) (packet : ClientPackets) (len : ℕ) (a : A) (l : List A)
      → next handled (length b) b ≡ found packet len body
      → packet_cls packet len body ≡ some (a, rest)
      → packets packet_cls handled fuel rest ≡ some l
      → packets packet_cls handled (suc fuel) b ≡ some (a ∷ l)
  unfolding packets
  packets-found fuel b body rest packet len a l e r h = ground arith

  packets-nil : (fuel : ℕ) → packets packet_cls handled fuel [] ≡ some []
  unfolding packets
  packets-nil zero = refl
  packets-nil (suc fuel) = ground (arith, next-nil handled 0)

  -- Let a body consist of whole frames, each with the id of a client packet, and let the class of each
  -- handled packet read its payload and no more and no less of the body. Then the iteration gives the
  -- values that these classes read, in order, and passes over the frames of the packets that are not
  -- handled.
  pub packets-IsStream :
      (fuel : ℕ) {b : Bytes} {l : List A}
      → length b ≤ fuel
      → IsStream packet_cls handled b l
      → packets packet_cls handled fuel b ≡ some l
  packets-IsStream fuel h end = packets-nil fuel
  packets-IsStream zero h (ignored packet payload b rest off framed same s) =
      absurd (too_long packet payload b rest framed (rw same at h))
  packets-IsStream zero h (taken packet payload b rest a on framed reads same s) =
      absurd (too_long packet payload b rest framed (rw same at h))
  packets-IsStream (suc fuel) h (ignored packet payload b rest off framed same s) =
      let shorter = (frame-long (client_value packet) payload rest framed).1 in
      rw same (
        packets-same fuel (b ++ rest) rest (next-ignored packet payload rest off framed)
        ∙ packets-IsStream (suc fuel) (within shorter (rw same at h)) s)
  packets-IsStream (suc fuel) h (taken packet payload b rest a on framed reads same s) =
      let shorter = (frame-long (client_value packet) payload rest framed).1 in
      rw same (
        packets-found fuel (b ++ rest) (payload ++ rest) rest packet (length payload) a _
          (next-taken packet payload rest on framed) reads
          (packets-IsStream fuel (below shorter (rw same at h)) s))
