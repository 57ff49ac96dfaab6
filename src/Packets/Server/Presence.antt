-- ===== src/Packets/Server/Presence.antt =====
-- The packets that are made up of several values of a player, or of joined text. A code point of a
-- literal is its ASCII code; a float is its bit pattern, so the quotient by 100.0 is an argument.
use Prim.Native.Nat.{bit_or}
use eunga_py.Prelude.{ℕ, ◌*◌, Bool, Option, [], ◌∷◌, ◌++◌, ltb, if◌then◌else◌}
use eunga_py.Prelude.Int.{ℤ, pos}
use eunga_py.Packets.Integers.{Bytes}
use eunga_py.Packets.Utf8.{Str}
use eunga_py.Packets.Ids.{ServerPackets}
use eunga_py.Packets.Frames.{write, i32, i64, u8, u16, f32, string}

module _ (online : ℕ → Bool) where
  -- f"{old}>>>>{new}"
  unfoldable pub change_username : Str → Str → Option Bytes
  change_username old new =
      write online ServerPackets.handle_irc_change_username
        (string (old ++ ((b'>' ∷ b'>' ∷ b'>' ∷ b'>' ∷ []) ++ new)) ∷ [])

  -- icon_url + "|" + onclick_url
  unfoldable pub main_menu_icon : Str → Str → Option Bytes
  main_menu_icon icon_url onclick_url =
      write online ServerPackets.main_menu_icon (string (icon_url ++ (b'|' ∷ onclick_url)) ∷ [])

  -- `accuracy` is the pattern of `accuracy / 100.0`.
  unfoldable pub user_stats : ℤ → ℕ → Str → Str → ℤ → ℕ → ℤ → ℤ → ℕ → ℤ → ℤ → ℤ → ℕ → Option Bytes
  user_stats user_id action info_text map_md5 mods mode map_id ranked_score accuracy plays
        total_score global_rank pp =
      let over = ltb 0xffff pp in
      let shown_score = if over then pos pp else ranked_score in
      let shown_pp : ℕ = if over then 0 else pp in
      write online ServerPackets.user_stats (
        i32 user_id
        ∷ u8 action
        ∷ string info_text
        ∷ string map_md5
        ∷ i32 mods
        ∷ u8 mode
        ∷ i32 map_id
        ∷ i64 shown_score
        ∷ f32 accuracy
        ∷ i32 plays
        ∷ i64 total_score
        ∷ i32 global_rank
        ∷ u16 shown_pp
        ∷ [])

  -- The offset is a whole number of hours from -24 on; `mode << 5` is `mode * 32`.
  unfoldable pub user_presence : ℤ → Str → ℕ → ℕ → ℕ → ℕ → ℕ → ℕ → ℤ → Option Bytes
  user_presence user_id name utc_offset_24 country_code privileges mode latitude longitude
        global_rank =
      write online ServerPackets.user_presence (
        i32 user_id
        ∷ string name
        ∷ u8 utc_offset_24
        ∷ u8 country_code
        ∷ u8 (bit_or privileges (mode * 32))
        ∷ f32 longitude
        ∷ f32 latitude
        ∷ i32 global_rank
        ∷ [])
