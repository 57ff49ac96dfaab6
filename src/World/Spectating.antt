-- ===== src/World/Spectating.antt =====
-- `add_spectator` and `remove_spectator` of app/objects/player.py, and the packet handlers of spectators
-- in app/api/domains/cho.py.
use eunga_py.Prelude.Text.{codes}
use eunga_py.Prelude.{
  ℕ, suc, Bool, true, false, Option, none, some, List, [], ◌∷◌, ◌++◌, length, is_empty, ◌==◌,
  if◌then◌else◌,
}
use eunga_py.Prelude.Int.{ℤ, pos, negsuc}
use eunga_py.Prelude.Actions.{pure, or_raise, ◌>>=◌, ◌>>◌}
use eunga_py.Packets.Integers.{Bytes, to_bytes}
use eunga_py.Packets.Utf8.{Str}
use eunga_py.Packets.Server
use eunga_py.World.{
  World, Act, App, update, gets, modify, on_player, list_remove, is_online, each, enqueue,
}
use eunga_py.World.Channels.{
  new_channel, get_by_name, packet, join_channel, leave_channel, info_packet,
}

-- the first session with this id, `players.get(id=…)` of an integer from a packet
abbrev pub get_online : ℤ → World → Option ℕ
get_online (pos n) w = if is_online w n then some n else none
get_online (negsuc n) w = none

-- A new channel object, its address given back.
unfoldable pub create_channel : Str → Str → Bool → Act ℕ
create_channel name topic is_instance = do
  c ← gets (λ w. w.fresh)
  modify (λ w. record w {
    fresh = suc w.fresh;
    channel = update w.channel c (new_channel name topic false is_instance);
  })
  pure c

-- `channels.append(channel)`
unfoldable pub list_channel : ℕ → Act Unit
list_channel c = modify (λ w. record w { channels = w.channels ++ (c ∷ []) })

abbrev pub spectators_of : ℕ → Act (List ℕ)
spectators_of p = gets (λ w. (w.player p).spectators)

-- the packets of `add_spectator`
unfoldable pub tell_spectators : ℕ → ℕ → Act Unit
tell_spectators self player = do
  stealth ← gets (λ w. (w.player player).stealth)
  l ← spectators_of self
  if stealth
      then each l (λ s. do
        b ← packet (λ online. Server.fellow_spectator_joined online (pos s))
        enqueue b player)
      else (do
        player_joined ← packet (λ online. Server.fellow_spectator_joined online (pos player))
        each l (λ s. do
          enqueue player_joined s
          b ← packet (λ online. Server.fellow_spectator_joined online (pos s))
          enqueue b player)
        b ← packet (λ online. Server.spectator_joined online (pos player))
        enqueue b self)

-- the assignments of `add_spectator`
unfoldable pub watch : ℕ → ℕ → Act Unit
watch self player = do
  on_player self (λ s. record s { spectators = s.spectators ++ (player ∷ []) })
  on_player player (λ s. record s { spectating = some self })

-- the assignments of `remove_spectator`
unfoldable pub unwatch : ℕ → ℕ → Act Unit
unwatch self player = do
  l ← spectators_of self
  l' ← or_raise (list_remove l player)
  on_player self (λ s. record s { spectators = l' })
  on_player player (λ s. record s { spectating = none })

-- the new usercount, to the host and the spectators left
unfoldable pub tell_left : ℕ → ℕ → ℕ → Act Unit
tell_left self player c = do
  info ← info_packet c
  fellow ← packet (λ online. Server.fellow_spectator_left online (pos player))
  enqueue info self
  l ← spectators_of self
  each l (enqueue (fellow ++ info))

-- the host has not changed
unfoldable pub rejoin : ℕ → ℕ → Act Unit
rejoin player new_host = do
  stealth ← gets (λ w. (w.player player).stealth)
  l ← spectators_of new_host
  if stealth then pure tt else (do
    b ← packet (λ online. Server.spectator_joined online (pos player))
    enqueue b new_host
    player_joined ← packet (λ online. Server.fellow_spectator_joined online (pos player))
    each l (λ s. if s == player then pure tt else enqueue player_joined s))

-- struct.pack("<HxI", 15, len(raw_data)) + raw_data
abbrev frames_packet : Bytes → Option Bytes
frames_packet raw_data = elim (to_bytes 4 (length raw_data)) [
  | none ↦ none
  | some n ↦ some (15 ∷ 0 ∷ 0 ∷ (n ++ raw_data))
]

unfoldable pub handle_frames : ℕ → Bytes → Act Unit
handle_frames player raw_data = do
  frame_data ← or_raise (frames_packet raw_data)
  l ← spectators_of player
  each l (enqueue frame_data)

abbrev pub cannot_watch : ℕ → Option ℕ → Act Unit
cannot_watch player none = pure tt
cannot_watch player (some host) = do
  stealth ← gets (λ w. (w.player player).stealth)
  l ← spectators_of host
  if stealth then pure tt else (do
    b ← packet (λ online. Server.spectator_cant_spectate online (pos player))
    enqueue b host
    each l (enqueue b))

unfoldable pub cant_spectate : ℕ → Act Unit
cant_spectate player = do host ← gets (λ w. (w.player player).spectating); cannot_watch player host

module _ (app : App) where
  abbrev pub spec_name : ℕ → Str
  spec_name p = codes "#spec_" ++ app.str (pos p)

  -- the channel of the spectators of `self`, made and joined if there is none
  unfoldable pub spec_channel : ℕ → Option ℕ → Act ℕ
  spec_channel self (some c) = pure c
  spec_channel self none = do
    name ← gets (λ w. (w.player self).name)
    c ← create_channel (spec_name self) (name ++ codes "'s spectator channel.") true
    joined ← join_channel self c
    list_channel c
    pure c

  unfoldable pub add_spectator : ℕ → ℕ → Act Unit
  add_spectator self player = do
    found ← get_by_name (spec_name self)
    c ← spec_channel self found
    joined ← join_channel player c
    if joined then tell_spectators self player >> watch self player else pure tt

  -- `remove_spectator` after its assignments
  unfoldable pub leave_spectators : ℕ → ℕ → Act Unit
  leave_spectators self player = do
    found ← get_by_name (spec_name self)
    c ← or_raise found
    leave_channel player c true
    l ← spectators_of self
    if is_empty l then leave_channel self c true else tell_left self player c
    b ← packet (λ online. Server.spectator_left online (pos player))
    enqueue b self

  unfoldable pub remove_spectator : ℕ → ℕ → Act Unit
  remove_spectator self player = do unwatch self player; leave_spectators self player

  abbrev pub spectate : ℕ → ℕ → Option ℕ → Act Unit
  spectate player new_host none = add_spectator new_host player
  spectate player new_host (some current_host) =
      if current_host == new_host
      then rejoin player new_host
      else (remove_spectator current_host player >> add_spectator new_host player)

  -- with the player that the packet names, and the host that there is
  abbrev pub spectate_target : ℕ → Option ℕ → Option ℕ → Act Unit
  spectate_target player none current_host = pure tt
  spectate_target player (some new_host) current_host = spectate player new_host current_host

  unfoldable pub start_spectating : ℕ → ℤ → Act Unit
  start_spectating player target_id = do
    found ← gets (get_online target_id)
    current_host ← gets (λ w. (w.player player).spectating)
    spectate_target player found current_host

  unfoldable pub stop_spectating : ℕ → Act Unit
  stop_spectating player = do
    host ← gets (λ w. (w.player player).spectating)
    elim host [ none ↦ pure tt | some h ↦ remove_spectator h player ]
