-- ===== src/Packets/Frames.antt =====
-- Frames: `write`, the header, and the loop of `BanchoPacketReader.__next__`.
pub mod Laws
pub mod Streams
pub mod Unknown
use eunga_py.Prelude.{
  ℕ, zero, suc, Bool, true, false, Option, none, some, List, [], ◌∷◌, length, take, drop, leb,
  if◌then◌else◌,
}
use eunga_py.Prelude.Int.{ℤ}
use eunga_py.Packets.Integers.{Bytes, from_le}
use eunga_py.Packets.Utf8.{Str}
use eunga_py.Packets.Structs.{ScoreFrame}
use eunga_py.Packets.Ids.{ClientPackets, client_packet, ServerPackets, server_value}
use eunga_py.Packets.Reader.{Reader}
use eunga_py.Packets.Writer.{
  ◌<>◌, write_string, write_u8, write_i8, write_u16, write_u32, write_i32, write_i64,
}
use eunga_py.Packets.Writer.Structs.{
  each, write_i32_list, write_message, write_channel, write_match, write_scoreframe,
}
use eunga_py.Match.Types.{Match}

-- An argument of `write`, tagged with its `osuTypes`: those that `_noexpand_types`, `_expand_types` and
-- `raw` serve and that a packet uses.
pub data Arg : Type 0 where
  raw : Bytes → Arg
  i32 : ℤ → Arg
  i64 : ℤ → Arg
  u8 : ℕ → Arg
  u16 : ℕ → Arg
  f32 : ℕ → Arg
  string : Str → Arg
  i32_list : List ℤ → Arg
  scoreframe : ScoreFrame → Arg
  message : Str → Str → Str → ℤ → Arg
  channel : Str → Str → ℕ → Arg
  match_state : Match → Bool → Arg

-- A match names its host, who has to be online.
unfoldable pub write_arg : (ℕ → Bool) → Arg → Option Bytes
write_arg online (raw b) = some b
write_arg online (i32 z) = write_i32 z
write_arg online (i64 z) = write_i64 z
write_arg online (u8 n) = write_u8 n
write_arg online (u16 n) = write_u16 n
write_arg online (f32 bits) = write_u32 bits
write_arg online (string s) = write_string s
write_arg online (i32_list l) = write_i32_list l
write_arg online (scoreframe s) = write_scoreframe s
write_arg online (message sender text recipient id) = write_message sender text recipient id
write_arg online (channel name topic count) = write_channel name topic count
write_arg online (match_state m send_pw) = write_match online m send_pw

-- "<Hx", the size, and the payload
unfoldable pub frame : ℕ → Bytes → Option Bytes
frame packid payload =
    write_u16 packid <> some (0 ∷ []) <> write_u32 (length payload) <> some payload

unfoldable pub framed : ℕ → Option Bytes → Option Bytes
framed packid none = none
framed packid (some payload) = frame packid payload

-- The id is packed, the payload is built behind it, and the size goes in between.
unfoldable pub write : (ℕ → Bool) → ServerPackets → List Arg → Option Bytes
unfolding framed
write online packet args = framed (server_value packet) (each (write_arg online) args)

-- `struct.unpack("<HxI", view[:7])`, which wants all of the seven bytes
unfoldable pub read_header : Reader (ℕ × ℕ)
read_header b =
    if leb 7 (length b)
    then some ((from_le (take 2 b), from_le (take 4 (drop 3 b))), drop 7 b)
    else none

-- What `__next__` comes to: the end of the body, an exception, or a packet that is handled, with its
-- length and the bytes behind its header. `exhausted` means that the fuel ran out.
pub data Next : Type 0 where
  stop raised exhausted : Next
  found : ClientPackets → ℕ → Bytes → Next

unfoldable pub next : (ClientPackets → Bool) → ℕ → Bytes → Next
next handled fuel [] = stop
next handled zero (x ∷ r) = exhausted
next handled (suc fuel) (x ∷ r) = elim (read_header (x ∷ r)) [
  | none ↦ raised
  | some ((id, len), body) ↦ elim (client_packet id) [
    | none ↦ raised
    | some packet ↦ elim (handled packet) [
      | true ↦ found packet len body
      | false ↦ next handled fuel (drop len body)
    ]
  ]
]

-- `for packet in BanchoPacketReader(view, packet_map)`: the class of a packet reads its fields off
-- the body, with `current_len` at hand. `none` is an exception. A packet takes seven bytes at least,
-- so the length of the body is fuel enough.
module _ {A : Type 0} (packet_cls : ClientPackets → ℕ → Reader A)
    (handled : ClientPackets → Bool) where
  unfoldable pub packets : ℕ → Bytes → Option (List A)
  packets zero b = elim b [ [] ↦ some [] | x ∷ r ↦ none ]
  packets (suc fuel) b = elim (next handled (length b) b) [
    | stop ↦ some []
    | raised ↦ none
    | exhausted ↦ none
    | found packet len body ↦ elim (packet_cls packet len body) [
      | none ↦ none
      | some (a, rest) ↦ elim (packets fuel rest) [ none ↦ none | some l ↦ some (a ∷ l) ]
    ]
  ]
