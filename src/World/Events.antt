-- ===== src/World/Events.antt =====
-- The handlers of the tournament clients, of friends and of the settings of a session in
-- app/api/domains/cho.py, and the choice of a handler by `bancho_handler`.
use Prim.Native.Nat.{bit_and}
use eunga_py.Prelude.{
  ℕ, zero, suc, Bool, true, false, not, ◌&&◌, Option, none, some, List, [], ◌∷◌, ◌++◌, any, ◌==◌,
  if◌then◌else◌,
}
use eunga_py.Prelude.Int.{ℤ, pos, eq_ℤ}
use eunga_py.Prelude.Actions.{pure, or_raise, ◌>>=◌, ◌>>◌}
use eunga_py.Packets.Integers.{Bytes}
use eunga_py.Packets.Utf8.{Str}
use eunga_py.Packets.Server
use eunga_py.Packets.Structs.{MultiplayerMatch}
use eunga_py.Match.Types.{Match}
use eunga_py.Match.Seats.{holds}
use eunga_py.World.{
  World, PresenceFilter, nil, all, friends_only, Act, App, gets, on_player, on_match, contains,
  list_remove, enqueue, restricted,
}
use eunga_py.World.Channels.{packet, join_channel, leave_channel}
use eunga_py.World.Spectating.{
  get_online, start_spectating, stop_spectating, handle_frames, cant_spectate,
}
use eunga_py.World.Matches.{match_of, leave_match}
use eunga_py.World.Players.{logout, add_friend, remove_friend}
use eunga_py.World.Handlers.{
  channel_join, channel_part, lobby_part, lobby_join, match_create, match_join, match_invite,
  change_password, valid_match,
}

abbrev pub is_donator : World → ℕ → Bool
is_donator w p = not (bit_and (w.player p).priv 48 == 0)

-- the match that a tournament client names, none if it may not
unfoldable pub tourney_match : ℕ → ℤ → World → Option ℕ
tourney_match player match_id w = if is_donator w player then valid_match match_id w else none

abbrev pub send_info : ℕ → ℕ → Act Unit
send_info player t = do
  m ← gets (match_of t)
  b ← packet (λ online. Server.update_match online m false)
  enqueue b player

unfoldable pub tourney_info : ℕ → ℤ → Act Unit
tourney_info player match_id = do
  m ← gets (tourney_match player match_id)
  elim m [ none ↦ pure tt | some t ↦ send_info player t ]

-- `match.tourney_clients.add(player.id)`
unfoldable pub add_client : ℕ → Match → Match
add_client player m = record m {
  tourney_clients =
      if contains m.tourney_clients player
      then m.tourney_clients
      else m.tourney_clients ++ (player ∷ []);
}

abbrev pub join_chat : ℕ → ℕ → Act Unit
join_chat player t = do
  w ← gets (λ w. w)
  if any (holds player) (match_of t w).slots
      then pure tt
      else join_channel player (w.table t).chat
        >>= (λ joined. if joined then on_match t (add_client player) else pure tt)

unfoldable pub tourney_join : ℕ → ℤ → Act Unit
tourney_join player match_id = do
  m ← gets (tourney_match player match_id)
  elim m [ none ↦ pure tt | some t ↦ join_chat player t ]

abbrev pub leave_chat : ℕ → ℕ → Act Unit
leave_chat player t = do
  w ← gets (λ w. w)
  if contains (match_of t w).tourney_clients player
      then (do
        leave_channel player (w.table t).chat true
        l ← gets (λ w. (match_of t w).tourney_clients)
        l ← or_raise (list_remove l player)
        on_match t (λ m. record m { tourney_clients = l }))
      else pure tt

unfoldable pub tourney_leave : ℕ → ℤ → Act Unit
tourney_leave player match_id = do
  m ← gets (tourney_match player match_id)
  elim m [ none ↦ pure tt | some t ↦ leave_chat player t ]

module _ (app : App) where
  -- the player that a friend packet names, none for the bot
  abbrev pub friend_target : ℤ → World → Option ℕ
  friend_target user_id w = elim (get_online user_id w) [
    | none ↦ none
    | some q ↦ if q == app.bot then none else some q
  ]

  abbrev pub unblock : ℕ → ℕ → Act Unit
  unblock player q = do
    l ← gets (λ w. (w.player player).blocks)
    if contains l q
        then or_raise (list_remove l q) >>= (λ l'. on_player player (λ s. record s { blocks = l' }))
        else pure tt

  unfoldable pub friend_add : ℕ → ℤ → Act Unit
  friend_add player user_id = do
    target ← gets (friend_target user_id)
    elim target [ none ↦ pure tt | some q ↦ unblock player q >> add_friend player q ]

  unfoldable pub friend_remove : ℕ → ℤ → Act Unit
  friend_remove player user_id = do
    target ← gets (friend_target user_id)
    elim target [ none ↦ pure tt | some q ↦ remove_friend player q ]

-- `PresenceFilter(n)` for 0 <= n < 3
unfoldable pub filter_of : ℤ → Option PresenceFilter
filter_of (pos zero) = some nil
filter_of (pos (suc zero)) = some all
filter_of (pos (suc (suc zero))) = some friends_only
filter_of _ = none

unfoldable pub receive_updates : ℕ → ℤ → Act Unit
receive_updates player value = elim (filter_of value) [
  | none ↦ pure tt
  | some f ↦ on_player player (λ s. record s { pres_filter = f })
]

unfoldable pub set_away_message : ℕ → Str → Act Unit
set_away_message player text = on_player player (λ s. record s { away_msg = some text })

unfoldable pub toggle_blocking_dms : ℕ → ℤ → Act Unit
toggle_blocking_dms player value =
    on_player player (λ s. record s { pm_private = eq_ℤ value (pos 1) })

-- The packets, each with what its class read; `logout` comes with whether a second has passed since the
-- login, and with fuel for the loop of `Player.logout`.
pub data Event : Type 0 where
  logout_request : Bool → ℕ → Event
  start_spectating_request : ℤ → Event
  stop_spectating_request : Event
  spectate_frames_request : Bytes → Event
  cant_spectate_request : Event
  part_lobby join_lobby : Event
  create_match_request : MultiplayerMatch → Event
  join_match_request : ℤ → Str → Event
  part_match : Event
  channel_join_request channel_part_request : Str → Event
  tournament_info tournament_join tournament_leave : ℤ → Event
  friend_add_request friend_remove_request : ℤ → Event
  receive_updates_request : ℤ → Event
  set_away_message_request : Str → Event
  match_invite_request : ℤ → Event
  match_change_password_request : MultiplayerMatch → Event
  toggle_block_non_friend_dms_request : ℤ → Event

-- `@register(…, restricted=True)`
unfoldable pub for_restricted : Event → Bool
for_restricted (logout_request late fuel) = true
for_restricted (channel_join_request name) = true
for_restricted (channel_part_request name) = true
for_restricted (receive_updates_request value) = true
for_restricted _ = false

module _ (app : App) where
  -- `packet.handle(player)`
  unfoldable pub handle : ℕ → Event → Act Unit
  handle p (logout_request late fuel) = if late then logout app fuel p >> pure tt else pure tt
  handle p (start_spectating_request target) = start_spectating app p target
  handle p stop_spectating_request = stop_spectating app p
  handle p (spectate_frames_request raw_data) = handle_frames p raw_data
  handle p cant_spectate_request = cant_spectate p
  handle p part_lobby = lobby_part p
  handle p join_lobby = lobby_join p
  handle p (create_match_request d) = match_create app p d
  handle p (join_match_request id passwd) = match_join app p id passwd
  handle p part_match = leave_match app p
  handle p (channel_join_request name) = channel_join p name
  handle p (channel_part_request name) = channel_part p name
  handle p (tournament_info id) = tourney_info p id
  handle p (tournament_join id) = tourney_join p id
  handle p (tournament_leave id) = tourney_leave p id
  handle p (friend_add_request id) = friend_add app p id
  handle p (friend_remove_request id) = friend_remove app p id
  handle p (receive_updates_request value) = receive_updates p value
  handle p (set_away_message_request text) = set_away_message p text
  handle p (match_invite_request id) = match_invite app p id
  handle p (match_change_password_request d) = change_password p d
  handle p (toggle_block_non_friend_dms_request value) = toggle_blocking_dms p value

  -- one packet of the body: a restricted player has the handlers of the restricted map
  unfoldable pub dispatch : ℕ → Event → Act Unit
  dispatch p e = do
    r ← gets (λ w. restricted (w.player p))
    if r && not (for_restricted e) then pure tt else handle p e

  -- packets of any players, one after the other; an exception ends its packet
  unfoldable pub run : List (ℕ × Event) → World → World
  run [] w = w
  run ((p, e) ∷ l) w = run l (dispatch p e w).1
