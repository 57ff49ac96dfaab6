-- ===== src/Packets/Writer/Structs.antt =====
-- The `write_…` functions of structured values. The player and host of a match are named by id; the
-- sessions say who is online.
use eunga_py.Prelude.{ℕ, Bool, Option, none, some, List, [], ◌∷◌, is_empty, length, if◌then◌else◌}
use eunga_py.Prelude.Int.{ℤ, pos}
use eunga_py.Bits.{has}
use eunga_py.GameMode
use eunga_py.Packets.Integers.{Bytes}
use eunga_py.Packets.Utf8.{Str}
use eunga_py.Packets.Structs.{ScoreFrame}
use eunga_py.Packets.Writer.{
  ◌<>◌, write_string, write_u8, write_i8, write_u16, write_u32, write_i32, write_u32_of,
}
use eunga_py.Match.Types.{Match, Slot, status_value, team_value, condition_value, team_type_value}

-- one element after the other
unfoldable pub each : {A : Type 0} → (A → Option Bytes) → List A → Option Bytes
each f [] = some []
each f (x ∷ xs) = f x <> each f xs

unfoldable pub write_i32_list : List ℤ → Option Bytes
write_i32_list l = write_u16 (length l) <> each write_i32 l

unfoldable pub write_message : Str → Str → Str → ℤ → Option Bytes
write_message sender msg recipient sender_id =
    write_string sender <> write_string msg <> write_string recipient <> write_i32 sender_id

unfoldable pub write_channel : Str → Str → ℕ → Option Bytes
write_channel name topic count = write_string name <> write_string topic <> write_u16 count

abbrev pub flag : Bool → ℕ
flag b = if b then 1 else 0

-- osu expects \x0b\x00 if there is a password that is not sent
unfoldable pub write_passwd : Str → Bool → Option Bytes
write_passwd passwd send_pw =
    if is_empty passwd
    then some (0 ∷ [])
    else if send_pw
    then write_string passwd
    else some (0x0b ∷ 0 ∷ [])

-- `assert s.player is not None` where the status says that the slot has a player
unfoldable pub write_slot_id : Slot → Option Bytes
write_slot_id s =
    if has (status_value s.status) 124
    then elim s.player [ none ↦ none | some id ↦ write_u32 id ]
    else some []

-- `m.host.id`: ValueError if the host is not online
unfoldable pub write_host : (ℕ → Bool) → Match → Option Bytes
write_host online m = if online m.host_id then write_u32 m.host_id else none

unfoldable pub write_slot_mods : Match → Option Bytes
write_slot_mods m = if m.freemods then each (λ s. write_u32 s.mods) m.slots else some []

unfoldable pub write_match : (ℕ → Bool) → Match → Bool → Option Bytes
write_match online m send_pw =
    write_u16 m.id
    <> write_i8 (pos (flag m.in_progress))
    <> write_i8 (pos 0)
    <> write_u32 m.mods
    <> write_string m.name
    <> write_passwd m.passwd send_pw
    <> write_string m.map_name
    <> write_i32 m.map_id
    <> write_string m.map_md5
    <> each (λ s. write_u8 (status_value s.status)) m.slots
    <> each (λ s. write_u8 (team_value s.team)) m.slots
    <> each write_slot_id m.slots
    <> write_host online m
    <> write_u8 (GameMode.value m.mode)
    <> write_u8 (condition_value m.win_condition)
    <> write_u8 (team_type_value m.team_type)
    <> write_u8 (flag m.freemods)
    <> write_slot_mods m
    <> write_u32_of m.seed

-- SCOREFRAME_FMT.pack, "<iBHHHHHHiHH?BB?"
unfoldable pub write_scoreframe : ScoreFrame → Option Bytes
write_scoreframe s =
    write_i32 s.time
    <> write_u8 s.id
    <> write_u16 s.num300
    <> write_u16 s.num100
    <> write_u16 s.num50
    <> write_u16 s.num_geki
    <> write_u16 s.num_katu
    <> write_u16 s.num_miss
    <> write_i32 s.total_score
    <> write_u16 s.max_combo
    <> write_u16 s.current_combo
    <> write_u8 (flag s.perfect)
    <> write_u8 s.current_hp
    <> write_u8 s.tag_byte
    <> write_u8 (flag s.score_v2)
