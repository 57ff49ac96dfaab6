-- ===== src/World/Channels.antt =====
-- The methods of `Channel`, the lookup of a channel by name, and `join_channel` and `leave_channel` of
-- app/objects/player.py.
use Prim.Native.Nat.{bit_and}
use eunga_py.Prelude.Text.{codes, eq_str}
use eunga_py.Prelude.{
  ℕ, Bool, true, false, not, ◌&&◌, ◌||◌, Option, none, some, List, [], ◌∷◌, ◌++◌, length, is_empty,
  take, ◌==◌, if◌then◌else◌,
}
use eunga_py.Prelude.Int.{pos}
use eunga_py.Prelude.Actions.{pure, or_raise, ◌>>=◌, ◌>>◌}
use eunga_py.Packets.Integers.{Bytes}
use eunga_py.Packets.Utf8.{Str}
use eunga_py.Packets.Server
use eunga_py.World.{
  Channel, World, Act, gets, modify, on_player, on_channel, contains, list_remove, is_online, each,
  enqueue,
}

-- `s.startswith(prefix)`
abbrev pub startswith : Str → Str → Bool
startswith s prefix = eq_str (take (length prefix) s) prefix

-- `Channel(…)` with the privileges that are the default
unfoldable pub new_channel : Str → Str → Bool → Bool → Channel
new_channel name topic auto_join is_instance = record {
  real_name = name;
  name =
      if startswith name (codes "#spec_")
      then codes "#spectator"
      else if startswith name (codes "#multi_")
      then codes "#multiplayer"
      else name;
  topic = topic;
  read_priv = 1;
  write_priv = 1;
  auto_join = auto_join;
  is_instance = is_instance;
  players = [];
}

unfoldable pub can_read : Channel → ℕ → Bool
can_read self priv = if self.read_priv == 0 then true else not (bit_and priv self.read_priv == 0)

unfoldable pub can_write : Channel → ℕ → Bool
can_write self priv = if self.write_priv == 0 then true else not (bit_and priv self.write_priv == 0)

unfoldable pub find_channel : World → Str → List ℕ → Option ℕ
find_channel w name [] = none
find_channel w name (c ∷ l) =
    let rest = find_channel w name l in if eq_str (w.channel c).real_name name then some c else rest

-- `channels.get_by_name`
unfoldable pub get_by_name : Str → Act (Option ℕ)
get_by_name name = gets (λ w. find_channel w name w.channels)

-- the packet of `app.packets.…`, an exception if a value does not fit
unfoldable pub packet : ((ℕ → Bool) → Option Bytes) → Act Bytes
packet make w = or_raise (make (is_online w)) w

abbrev pub members : ℕ → Act (List ℕ)
members c = gets (λ w. (w.channel c).players)

-- `Channel.enqueue`
unfoldable pub channel_enqueue : Bytes → List ℕ → ℕ → Act Unit
channel_enqueue b immune c = do
  l ← members c
  each l (λ p. if contains immune p then pure tt else enqueue b p)

-- `Channel.send`
unfoldable pub channel_send : Str → ℕ → Bool → ℕ → Act Unit
channel_send msg sender to_self c = do
  w ← gets (λ w. w)
  b ← packet (λ online.
      Server.send_message online (w.player sender).name msg (w.channel c).name (pos sender))
  l ← members c
  each l (λ p.
      if not (contains (w.player p).blocks sender) && (to_self || not (p == sender))
      then enqueue b p
      else pure tt)

-- `Player.send` into a channel
unfoldable pub player_send : Str → ℕ → ℕ → ℕ → Act Unit
player_send msg sender c p = do
  w ← gets (λ w. w)
  b ← packet (λ online.
      Server.send_message online (w.player sender).name msg (w.channel c).name (pos sender))
  enqueue b p

-- `Channel.send_selective`
unfoldable pub send_selective : Str → ℕ → List ℕ → ℕ → Act Unit
send_selective msg sender recipients c =
    each recipients
      (λ p. members c >>= λ l. if contains l p then player_send msg sender c p else pure tt)

-- `Channel.append`
unfoldable pub append : ℕ → ℕ → Act Unit
append p c = on_channel c (λ s. record s { players = s.players ++ (p ∷ []) })

-- `self.channels.append(channel)` of a player
unfoldable pub add_channel : ℕ → ℕ → Act Unit
add_channel c p = on_player p (λ s. record s { channels = s.channels ++ (c ∷ []) })

-- `channels.remove(channel)`
unfoldable pub unlist : ℕ → Act Unit
unlist c = do
  l ← gets (λ w. w.channels)
  l' ← or_raise (list_remove l c)
  modify (λ w. record w { channels = l' })

-- the rest of `Channel.remove`, given the players left
unfoldable pub removed : ℕ → List ℕ → Act Unit
removed c l = do
  on_channel c (λ s. record s { players = l })
  i ← gets (λ w. (w.channel c).is_instance)
  if is_empty l && i then unlist c else pure tt

-- `Channel.remove`
unfoldable pub remove : ℕ → ℕ → Act Unit
remove p c = do l ← members c; l ← or_raise (list_remove l p); removed c l

-- `self.channels.remove(channel)` of a player
unfoldable pub drop_channel : ℕ → ℕ → Act Unit
drop_channel c p = do
  l ← gets (λ w. (w.player p).channels)
  l ← or_raise (list_remove l c)
  on_player p (λ s. record s { channels = l })

-- `channel_info` of the channel as it is
unfoldable pub info_packet : ℕ → Act Bytes
info_packet c = do
  s ← gets (λ w. w.channel c)
  packet (λ online. Server.channel_info online s.name s.topic (length s.players))

-- the new usercount, to the players who can see it
unfoldable pub announce : ℕ → Act Unit
announce c = do
  b ← info_packet c
  w ← gets (λ w. w)
  if (w.channel c).is_instance
      then each (w.channel c).players (enqueue b)
      else each w.online
          (λ p. if can_read (w.channel c) (w.player p).priv then enqueue b p else pure tt)

-- the three reasons not to join
unfoldable pub refused : ℕ → ℕ → World → Bool
refused p c w =
    contains (w.channel c).players p
    || not (can_read (w.channel c) (w.player p).priv)
    || (eq_str (w.channel c).real_name (codes "#lobby") && not (w.player p).in_lobby)

-- what the player who has joined and the others are told
unfoldable pub welcome : ℕ → ℕ → Act Bool
welcome p c = do
  name ← gets (λ w. (w.channel c).name)
  b ← packet (λ online. Server.channel_join online name)
  enqueue b p
  announce c
  pure true

-- the rest of `join_channel`, given that it is not refused
unfoldable pub admit : ℕ → ℕ → Act Bool
admit p c = do append p c; add_channel c p; welcome p c

unfoldable pub join_channel : ℕ → ℕ → Act Bool
join_channel p c = do r ← gets (refused p c); if r then pure false else admit p c

-- what the player who has left, if kicked, and the others are told
unfoldable pub farewell : ℕ → ℕ → Bool → Act Unit
farewell p c kick = do
  name ← gets (λ w. (w.channel c).name)
  if kick
      then (packet (λ online. Server.channel_kick online name) >>= λ b. enqueue b p)
      else pure tt
  announce c

-- the rest of `leave_channel`, given that the player is in the channel
unfoldable pub part_channel : ℕ → ℕ → Bool → Act Unit
part_channel p c kick = do remove p c; drop_channel c p; farewell p c kick

unfoldable pub leave_channel : ℕ → ℕ → Bool → Act Unit
leave_channel p c kick = do l ← members c; if contains l p then part_channel p c kick else pure tt
