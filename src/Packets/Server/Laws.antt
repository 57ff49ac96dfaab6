-- ===== src/Packets/Server/Laws.antt =====
-- `write` of app/packets.py against the reader of headers.
use eunga_py.Prelude.{ℕ, ◌≡◌, Bool, Option, none, some, List, ◌++◌, length, arith}
use eunga_py.Packets.Integers.{Bytes}
use eunga_py.Packets.Ids.{ServerPackets, server_value}
use eunga_py.Packets.Writer.Structs.{each}
use eunga_py.Packets.Frames.{Arg, write_arg, frame, framed, write, read_header}
use eunga_py.Packets.Frames.Laws.{read_header-frame}

framed-eq_some :
    (id : ℕ) (o : Option Bytes) {b : Bytes}
    → framed id o ≡ some b
    → (payload : Bytes) × (o ≡ some payload) × (frame id payload ≡ some b)
unfolding framed
framed-eq_some id none h = cc
framed-eq_some id (some payload) h = (payload, ground arith, h)

-- What `write` returns is its arguments, written one after the other, behind a header from which
-- the reader takes the packet's id and their exact size.
pub write-read_header :
    (online : ℕ → Bool) (packet : ServerPackets) (args : List Arg) (rest : Bytes) {b : Bytes}
    → write online packet args ≡ some b
    → (payload : Bytes) × (each (write_arg online) args ≡ some payload)
      × (read_header (b ++ rest) ≡ some ((server_value packet, length payload), payload ++ rest))
unfolding write
write-read_header online packet args rest h =
    let (payload, written, whole) =
      framed-eq_some (server_value packet) (each (write_arg online) args) h in
    (payload, written, read_header-frame (server_value packet) payload rest whole)
