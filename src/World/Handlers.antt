-- ===== src/World/Handlers.antt =====
-- The packet handlers of app/api/domains/cho.py that act on the sessions, after `reader` has read the
-- packet, and their choice by `bancho_handler`. `update_latest_activity_soon`, a write to the database
-- later on, and the logging are left out.
use eunga_py.Prelude.Text.{codes, eq_str}
use eunga_py.Prelude.{
  ℕ, suc, ◌-◌, Bool, true, false, not, ◌||◌, Option, none, some, List, [], ◌∷◌, ◌++◌, length, take,
  drop, set, get_elem?, replicate, ◌==◌, ltb, if◌then◌else◌,
}
use eunga_py.Prelude.Int.{ℤ, pos, negsuc}
use eunga_py.Prelude.Actions.{pure, or_raise, ◌>>=◌, ◌>>◌}
use eunga_py.GameMode
use eunga_py.GameMode.{GameMode}
use eunga_py.Packets.Integers.{Bytes}
use eunga_py.Packets.Utf8.{Str}
use eunga_py.Packets.Server
use eunga_py.Packets.Structs.{MultiplayerMatch}
use eunga_py.Packets.Frames.{write, message}
use eunga_py.Packets.Ids.{ServerPackets}
use eunga_py.Match.Types.{
  Match, MatchWinConditions, MatchTeamTypes, new_slot, team_type_of, condition_of,
}
use eunga_py.Match.Settings.{validate_match_data, member}
use eunga_py.Match.Handlers.{mods_of}
use eunga_py.World.{
  World, Act, App, update, gets, modify, on_player, on_match, is_online, enqueue, restricted,
}
use eunga_py.World.Channels.{get_by_name, packet, join_channel, leave_channel}
use eunga_py.World.Spectating.{get_online, create_channel, list_channel}
use eunga_py.World.Matches.{match_of, free_cell, host_of, share_state, channel_send_bot, join_match}

-- `s.endswith(suffix)` and `s.removesuffix(suffix)`
abbrev pub endswith : Str → Str → Bool
endswith s suffix = eq_str (drop (length s - length suffix) s) suffix

abbrev pub removesuffix : Str → Str → Str
removesuffix s suffix = if endswith s suffix then take (length s - length suffix) s else s

-- `IGNORED_CHANNELS`
abbrev pub is_ignored : Str → Bool
is_ignored name = eq_str name (codes "#highlight") || eq_str name (codes "#userlog")

-- `matches[i]` of a Python list with 64 cells: a negative index counts from the end
abbrev pub cell : List (Option ℕ) → ℤ → Option (Option ℕ)
cell l (pos n) = get_elem? l n
cell l (negsuc n) = if ltb n (length l) then get_elem? l (length l - suc n) else none

-- `if not 0 <= match_id < 64: return`, then the match, if there is one
abbrev pub valid_match : ℤ → World → Option ℕ
valid_match (negsuc n) w = none
valid_match (pos n) w =
    let found = get_elem? w.matches n in
    if ltb n 64 then (elim found [ none ↦ none | some m ↦ m ]) else none

unfoldable pub channel_join : ℕ → Str → Act Unit
channel_join player name = do
  found ← get_by_name name
  if is_ignored name
      then pure tt
      else elim found [ none ↦ pure tt | some c ↦ join_channel player c >> pure tt ]

unfoldable pub channel_part : ℕ → Str → Act Unit
channel_part player name = do
  found ← get_by_name name
  if is_ignored name
      then pure tt
      else elim found [ none ↦ pure tt | some c ↦ leave_channel player c true ]

unfoldable pub lobby_part : ℕ → Act Unit
lobby_part player = on_player player (λ s. record s { in_lobby = false })

-- One match of `LobbyJoin`: a host without a session is passed over. The text of a match is decoded, so
-- that no other ValueError is met.
unfoldable pub show_match : ℕ → Option ℕ → Act Unit
show_match player none = pure tt
show_match player (some t) = do
  w ← gets (λ w. w)
  if is_online w (match_of t w).host_id
      then packet (λ online. Server.new_match online (match_of t w)) >>= (λ b. enqueue b player)
      else pure tt

unfoldable pub show_matches : ℕ → List (Option ℕ) → Act Unit
show_matches player [] = pure tt
show_matches player (m ∷ l) = show_match player m >> show_matches player l

unfoldable pub lobby_join : ℕ → Act Unit
lobby_join player = do
  on_player player (λ s. record s { in_lobby = true })
  l ← gets (λ w. w.matches)
  show_matches player l

-- `match_join_fail() + notification(…)`
unfoldable pub refuse_with : ℕ → Str → Act Unit
refuse_with player text = do
  a ← packet Server.match_join_fail
  b ← packet (λ online. Server.notification online text)
  enqueue (a ++ b) player

-- `Player.send_bot`
unfoldable pub player_send_bot : App → Str → ℕ → Act Unit
player_send_bot app msg p = do
  w ← gets (λ w. w)
  b ← packet (λ online.
      Server.send_message online (w.player app.bot).name msg (w.player p).name (pos app.bot))
  enqueue b p

-- `Match(…)` in `MatchCreate`
unfoldable pub new_match :
    ℕ → ℕ → MultiplayerMatch → GameMode → MatchWinConditions → MatchTeamTypes → Match
new_match id host_id d mode win_condition team_type = record {
  id = id;
  name = d.name;
  passwd = removesuffix d.passwd (codes "//private");
  has_public_history = not (endswith d.passwd (codes "//private"));
  host_id = host_id;
  referees = [];
  map_id = d.map_id;
  map_md5 = d.map_md5;
  map_name = d.map_name;
  prev_map_id = pos 0;
  mods = mods_of d.mods;
  mode = mode;
  freemods = d.freemods;
  slots = replicate 16 new_slot;
  team_type = team_type;
  win_condition = win_condition;
  in_progress = false;
  starting = false;
  seed = d.seed;
  is_scrimming = false;
  use_pp_scoring = false;
  tourney_clients = [];
}

-- the match object `t` in the cell `id`
abbrev pub put_table : ℕ → ℕ → Match → ℕ → World → World
put_table id c m t w = record w {
  fresh = suc w.fresh;
  table = update w.table t (record { state = m; chat = c });
  matches = set w.matches id (some t);
}

-- A new match object in the cell `id`, its channel listed.
unfoldable pub create_table : ℕ → ℕ → Match → Act ℕ
create_table id c m = do
  t ← gets (λ w. w.fresh)
  modify (put_table id c m t)
  list_channel c
  pure t

abbrev pub restricted_text : Str
restricted_text = codes "Multiplayer is not available while restricted."

abbrev pub silenced_text : Str
silenced_text = codes "Multiplayer is not available while silenced."

module _ (app : App) where
  -- `MatchCreate` with a free cell
  unfoldable pub create_match : ℕ → MultiplayerMatch → ℕ → Act Unit
  create_match player d id = do
    let number = app.str (pos id)
    c ←
        create_channel (codes "#multi_" ++ number)
          (codes "MID " ++ number ++ codes "'s multiplayer channel.") true
    mode ← or_raise (member GameMode.of_value d.mode)
    win_condition ← or_raise (member condition_of d.win_condition)
    team_type ← or_raise (member team_type_of d.team_type)
    t ← create_table id c (new_match id player d mode win_condition team_type)
    joined ← join_match player t d.passwd
    name ← gets (λ w. (w.player player).name)
    channel_send_bot app (codes "Match created by " ++ name ++ codes ".") c

  abbrev pub no_cell : ℕ → Act Unit
  no_cell player = do
    player_send_bot app (codes "Failed to create match (no slots available).") player
    b ← packet Server.match_join_fail
    enqueue b player

  unfoldable pub match_create : ℕ → MultiplayerMatch → Act Unit
  match_create player d = do
    r ← gets (λ w. restricted (w.player player))
    free ← gets (λ w. free_cell w.matches)
    if not (validate_match_data d player)
        then pure tt
        else if r
        then refuse_with player restricted_text
        else if app.silenced player
        then refuse_with player silenced_text
        else elim free [ none ↦ no_cell player | some id ↦ create_match player d id ]

  unfoldable pub join_cell : ℕ → Option ℕ → Str → Act Unit
  join_cell player none passwd = packet Server.match_join_fail >>= λ b. enqueue b player
  join_cell player (some t) passwd = do
    r ← gets (λ w. restricted (w.player player))
    if r
        then refuse_with player restricted_text
        else if app.silenced player
        then refuse_with player silenced_text
        else join_match player t passwd >> pure tt

  unfoldable pub match_join : ℕ → ℤ → Str → Act Unit
  match_join player match_id passwd = do
    m ← gets (λ w. cell w.matches match_id)
    m ← or_raise m
    join_cell player m passwd

  -- `match_invite` of app/packets.py, `Match.url` and `embed`
  abbrev pub embed : Match → Str
  embed m =
      codes "[osump://"
      ++ app.str (pos m.id)
      ++ codes "/"
      ++ m.passwd
      ++ codes " "
      ++ m.name
      ++ codes "]"

  abbrev pub invite_packet : World → ℕ → Match → ℕ → Option Bytes
  invite_packet w player m target = write (is_online w) ServerPackets.match_invite (
      message (w.player player).name (codes "Come join my game: " ++ embed m ++ codes ".")
        (w.player target).name (pos player)
      ∷ [])

  abbrev pub invite : ℕ → ℕ → Option ℕ → Act Unit
  invite player t none = pure tt
  invite player t (some target) = do
    b ← gets (λ w. invite_packet w player (match_of t w) target)
    if target == app.bot
        then player_send_bot app (codes "I'm too busy!") player
        else or_raise b >>= (λ b. enqueue b target)

  unfoldable pub match_invite : ℕ → ℤ → Act Unit
  match_invite player user_id = do
    m ← gets (λ w. (w.player player).match)
    target ← gets (get_online user_id)
    elim m [ none ↦ pure tt | some t ↦ invite player t target ]

-- the host sets the password of the match
abbrev pub set_passwd : ℕ → ℕ → Str → Act Unit
set_passwd player t passwd = do
  h ← host_of t
  if player == h then on_match t (λ m. record m { passwd = passwd }) >> share_state t else pure tt

unfoldable pub change_password : ℕ → MultiplayerMatch → Act Unit
change_password player d = do
  m ← gets (λ w. (w.player player).match)
  if not (validate_match_data d player)
      then pure tt
      else elim m [ none ↦ pure tt | some t ↦ set_passwd player t d.passwd ]
