-- ===== src/Packets/Server.antt =====
-- The packets that the server sends: the functions of app/packets.py behind `write`. Each is `write`
-- with an id and tagged arguments; `online` tells whether a player has a session, which the state of a
-- match asks of its host.
pub mod Presence
pub mod Laws
use eunga_py.Prelude.{ℕ, Bool, true, Option, List, [], ◌∷◌}
use eunga_py.Prelude.Int.{ℤ, pos}
use eunga_py.Packets.Integers.{Bytes}
use eunga_py.Packets.Utf8.{Str}
use eunga_py.Packets.Structs.{ScoreFrame}
use eunga_py.Packets.Ids.{ServerPackets}
use eunga_py.Packets.Frames.{
  write, raw, i32, u8, string, i32_list, scoreframe, message, channel, match_state,
}
use eunga_py.Match.Types.{Match}

module _ (online : ℕ → Bool) where
  unfoldable pub login_reply : ℤ → Option Bytes
  login_reply user_id = write online ServerPackets.user_id (i32 user_id ∷ [])

  unfoldable pub send_message : Str → Str → Str → ℤ → Option Bytes
  send_message sender msg recipient sender_id =
      write online ServerPackets.send_message (message sender msg recipient sender_id ∷ [])

  unfoldable pub pong : Option Bytes
  pong = write online ServerPackets.pong ([])

  unfoldable pub logout : ℤ → Option Bytes
  logout user_id = write online ServerPackets.user_logout (i32 user_id ∷ u8 0 ∷ [])

  unfoldable pub spectator_joined : ℤ → Option Bytes
  spectator_joined user_id = write online ServerPackets.spectator_joined (i32 user_id ∷ [])

  unfoldable pub spectator_left : ℤ → Option Bytes
  spectator_left user_id = write online ServerPackets.spectator_left (i32 user_id ∷ [])

  unfoldable pub spectate_frames : Bytes → Option Bytes
  spectate_frames frames = write online ServerPackets.spectate_frames (raw frames ∷ [])

  unfoldable pub version_update : Option Bytes
  version_update = write online ServerPackets.version_update ([])

  unfoldable pub spectator_cant_spectate : ℤ → Option Bytes
  spectator_cant_spectate user_id =
      write online ServerPackets.spectator_cant_spectate (i32 user_id ∷ [])

  unfoldable pub get_attention : Option Bytes
  get_attention = write online ServerPackets.get_attention ([])

  unfoldable pub notification : Str → Option Bytes
  notification msg = write online ServerPackets.notification (string msg ∷ [])

  unfoldable pub update_match : Match → Bool → Option Bytes
  update_match m send_pw = write online ServerPackets.update_match (match_state m send_pw ∷ [])

  unfoldable pub new_match : Match → Option Bytes
  new_match m = write online ServerPackets.new_match (match_state m true ∷ [])

  unfoldable pub dispose_match : ℤ → Option Bytes
  dispose_match id = write online ServerPackets.dispose_match (i32 id ∷ [])

  unfoldable pub toggle_block_non_friend_dm : Option Bytes
  toggle_block_non_friend_dm = write online ServerPackets.toggle_block_non_friend_dms ([])

  unfoldable pub match_join_success : Match → Option Bytes
  match_join_success m = write online ServerPackets.match_join_success (match_state m true ∷ [])

  unfoldable pub match_join_fail : Option Bytes
  match_join_fail = write online ServerPackets.match_join_fail ([])

  unfoldable pub fellow_spectator_joined : ℤ → Option Bytes
  fellow_spectator_joined user_id =
      write online ServerPackets.fellow_spectator_joined (i32 user_id ∷ [])

  unfoldable pub fellow_spectator_left : ℤ → Option Bytes
  fellow_spectator_left user_id =
      write online ServerPackets.fellow_spectator_left (i32 user_id ∷ [])

  unfoldable pub match_start : Match → Option Bytes
  match_start m = write online ServerPackets.match_start (match_state m true ∷ [])

  unfoldable pub match_score_update : ScoreFrame → Option Bytes
  match_score_update frame = write online ServerPackets.match_score_update (scoreframe frame ∷ [])

  unfoldable pub match_transfer_host : Option Bytes
  match_transfer_host = write online ServerPackets.match_transfer_host ([])

  unfoldable pub match_all_players_loaded : Option Bytes
  match_all_players_loaded = write online ServerPackets.match_all_players_loaded ([])

  unfoldable pub match_player_failed : ℤ → Option Bytes
  match_player_failed slot_id = write online ServerPackets.match_player_failed (i32 slot_id ∷ [])

  unfoldable pub match_complete : Option Bytes
  match_complete = write online ServerPackets.match_complete ([])

  unfoldable pub match_skip : Option Bytes
  match_skip = write online ServerPackets.match_skip ([])

  unfoldable pub channel_join : Str → Option Bytes
  channel_join name = write online ServerPackets.channel_join_success (string name ∷ [])

  unfoldable pub channel_info : Str → Str → ℕ → Option Bytes
  channel_info name topic p_count =
      write online ServerPackets.channel_info (channel name topic p_count ∷ [])

  unfoldable pub channel_kick : Str → Option Bytes
  channel_kick name = write online ServerPackets.channel_kick (string name ∷ [])

  unfoldable pub channel_auto_join : Str → Str → ℕ → Option Bytes
  channel_auto_join name topic p_count =
      write online ServerPackets.channel_auto_join (channel name topic p_count ∷ [])

  unfoldable pub bancho_privileges : ℤ → Option Bytes
  bancho_privileges priv = write online ServerPackets.privileges (i32 priv ∷ [])

  unfoldable pub friends_list : List ℤ → Option Bytes
  friends_list friends = write online ServerPackets.friends_list (i32_list friends ∷ [])

  unfoldable pub protocol_version : ℤ → Option Bytes
  protocol_version ver = write online ServerPackets.protocol_version (i32 ver ∷ [])

  unfoldable pub monitor : Option Bytes
  monitor = write online ServerPackets.monitor ([])

  unfoldable pub match_player_skipped : ℤ → Option Bytes
  match_player_skipped user_id = write online ServerPackets.match_player_skipped (i32 user_id ∷ [])

  unfoldable pub restart_server : ℤ → Option Bytes
  restart_server ms = write online ServerPackets.restart (i32 ms ∷ [])

  unfoldable pub channel_info_end : Option Bytes
  channel_info_end = write online ServerPackets.channel_info_end ([])

  unfoldable pub match_change_password : Str → Option Bytes
  match_change_password new = write online ServerPackets.match_change_password (string new ∷ [])

  unfoldable pub silence_end : ℤ → Option Bytes
  silence_end delta = write online ServerPackets.silence_end (i32 delta ∷ [])

  unfoldable pub user_silenced : ℤ → Option Bytes
  user_silenced user_id = write online ServerPackets.user_silenced (i32 user_id ∷ [])

  unfoldable pub user_presence_single : ℤ → Option Bytes
  user_presence_single user_id = write online ServerPackets.user_presence_single (i32 user_id ∷ [])

  unfoldable pub user_presence_bundle : List ℤ → Option Bytes
  user_presence_bundle user_ids =
      write online ServerPackets.user_presence_bundle (i32_list user_ids ∷ [])

  unfoldable pub user_dm_blocked : Str → Option Bytes
  user_dm_blocked target =
      write online ServerPackets.user_dm_blocked (message [] [] target (pos 0) ∷ [])

  unfoldable pub target_silenced : Str → Option Bytes
  target_silenced target =
      write online ServerPackets.target_is_silenced (message [] [] target (pos 0) ∷ [])

  unfoldable pub version_update_forced : Option Bytes
  version_update_forced = write online ServerPackets.version_update_forced ([])

  unfoldable pub switch_server : ℤ → Option Bytes
  switch_server t = write online ServerPackets.switch_server (i32 t ∷ [])

  unfoldable pub account_restricted : Option Bytes
  account_restricted = write online ServerPackets.account_restricted ([])

  unfoldable pub rtx : Str → Option Bytes
  rtx msg = write online ServerPackets.rtx (string msg ∷ [])

  unfoldable pub match_abort : Option Bytes
  match_abort = write online ServerPackets.match_abort ([])

  unfoldable pub switch_tournament_server : Str → Option Bytes
  switch_tournament_server ip = write online ServerPackets.switch_tournament_server (string ip ∷ [])
