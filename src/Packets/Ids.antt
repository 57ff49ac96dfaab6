-- ===== src/Packets/Ids.antt =====
-- The ids of the packets: `ClientPackets` and `ServerPackets`, and the lookup of a member by value.
use eunga_py.Prelude.{
  ℕ, ◌≡◌, refl, Bool-cases, inl, inr, Option, none, some, List, [], ◌∷◌, ◌==◌, ==_iff,
  if◌then◌else◌,
}

-- UNKNOWN_PACKET, of value -1, is left out: no id that is read has that value.
pub data ClientPackets : Type 0 where
  change_action send_public_message logout request_status_update ping start_spectating :
      ClientPackets
  stop_spectating spectate_frames error_report cant_spectate send_private_message : ClientPackets
  part_lobby join_lobby create_match join_match part_match match_change_slot match_ready :
      ClientPackets
  match_lock match_change_settings match_start match_score_update match_complete : ClientPackets
  match_change_mods match_load_complete match_no_beatmap match_not_ready match_failed :
      ClientPackets
  match_has_beatmap match_skip_request channel_join beatmap_info_request : ClientPackets
  match_transfer_host friend_add friend_remove match_change_team channel_part : ClientPackets
  receive_updates set_away_message irc_only user_stats_request match_invite : ClientPackets
  match_change_password tournament_match_info_request user_presence_request : ClientPackets
  user_presence_request_all toggle_block_non_friend_dms tournament_join_match_channel :
      ClientPackets
  tournament_leave_match_channel : ClientPackets

unfoldable pub client_value : ClientPackets → ℕ
client_value change_action = 0
client_value send_public_message = 1
client_value logout = 2
client_value request_status_update = 3
client_value ping = 4
client_value start_spectating = 16
client_value stop_spectating = 17
client_value spectate_frames = 18
client_value error_report = 20
client_value cant_spectate = 21
client_value send_private_message = 25
client_value part_lobby = 29
client_value join_lobby = 30
client_value create_match = 31
client_value join_match = 32
client_value part_match = 33
client_value match_change_slot = 38
client_value match_ready = 39
client_value match_lock = 40
client_value match_change_settings = 41
client_value match_start = 44
client_value match_score_update = 47
client_value match_complete = 49
client_value match_change_mods = 51
client_value match_load_complete = 52
client_value match_no_beatmap = 54
client_value match_not_ready = 55
client_value match_failed = 56
client_value match_has_beatmap = 59
client_value match_skip_request = 60
client_value channel_join = 63
client_value beatmap_info_request = 68
client_value match_transfer_host = 70
client_value friend_add = 73
client_value friend_remove = 74
client_value match_change_team = 77
client_value channel_part = 78
client_value receive_updates = 79
client_value set_away_message = 82
client_value irc_only = 84
client_value user_stats_request = 85
client_value match_invite = 87
client_value match_change_password = 90
client_value tournament_match_info_request = 93
client_value user_presence_request = 97
client_value user_presence_request_all = 98
client_value toggle_block_non_friend_dms = 99
client_value tournament_join_match_channel = 108
client_value tournament_leave_match_channel = 109

all_client_packets : List ClientPackets
all_client_packets =
    change_action ∷ send_public_message ∷ logout ∷ request_status_update ∷ ping ∷ start_spectating
    ∷ stop_spectating ∷ spectate_frames ∷ error_report ∷ cant_spectate ∷ send_private_message
    ∷ part_lobby ∷ join_lobby ∷ create_match ∷ join_match ∷ part_match ∷ match_change_slot
    ∷ match_ready ∷ match_lock ∷ match_change_settings ∷ match_start ∷ match_score_update
    ∷ match_complete ∷ match_change_mods ∷ match_load_complete ∷ match_no_beatmap ∷ match_not_ready
    ∷ match_failed ∷ match_has_beatmap ∷ match_skip_request ∷ channel_join ∷ beatmap_info_request
    ∷ match_transfer_host ∷ friend_add ∷ friend_remove ∷ match_change_team ∷ channel_part
    ∷ receive_updates ∷ set_away_message ∷ irc_only ∷ user_stats_request ∷ match_invite
    ∷ match_change_password ∷ tournament_match_info_request ∷ user_presence_request
    ∷ user_presence_request_all ∷ toggle_block_non_friend_dms ∷ tournament_join_match_channel
    ∷ tournament_leave_match_channel ∷ []

find_client : ℕ → List ClientPackets → Option ClientPackets
find_client n [] = none
find_client n (p ∷ l) = if client_value p == n then some p else find_client n l

-- `ClientPackets(n)`, which raises ValueError for a number that is no member's
unfoldable pub client_packet : ℕ → Option ClientPackets
unfolding find_client client_value all_client_packets
client_packet n = find_client n all_client_packets

-- Every member is found by its value.
pub client_packet-client_value : (p : ClientPackets) → client_packet (client_value p) ≡ some p
unfolding client_packet
client_packet-client_value change_action = refl
client_packet-client_value _ = refl

find_client_sound :
    (n : ℕ) (l : List ClientPackets) {p : ClientPackets}
    → find_client n l ≡ some p
    → client_value p ≡ n
unfolding find_client
find_client_sound n [] h = cc
find_client_sound n (q ∷ l) h = elim (Bool-cases (client_value q == n)) [
  | inl e ↦ cc ((==_iff (client_value q) n).0 e, rw e at h)
  | inr e ↦ find_client_sound n l (rw e at h)
]

pub client_packet_sound :
    (n : ℕ) {p : ClientPackets} → client_packet n ≡ some p → client_value p ≡ n
client_packet_sound n h = find_client_sound n all_client_packets (unfold client_packet in h)

pub data ServerPackets : Type 0 where
  user_id send_message pong handle_irc_change_username handle_irc_quit user_stats : ServerPackets
  user_logout spectator_joined spectator_left spectate_frames version_update : ServerPackets
  spectator_cant_spectate get_attention notification update_match new_match dispose_match :
      ServerPackets
  toggle_block_non_friend_dms match_join_success match_join_fail fellow_spectator_joined :
      ServerPackets
  fellow_spectator_left all_players_loaded match_start match_score_update : ServerPackets
  match_transfer_host match_all_players_loaded match_player_failed match_complete : ServerPackets
  match_skip unauthorized channel_join_success channel_info channel_kick channel_auto_join :
      ServerPackets
  beatmap_info_reply privileges friends_list protocol_version main_menu_icon monitor : ServerPackets
  match_player_skipped user_presence restart match_invite channel_info_end : ServerPackets
  match_change_password silence_end user_silenced user_presence_single user_presence_bundle :
      ServerPackets
  user_dm_blocked target_is_silenced version_update_forced switch_server account_restricted :
      ServerPackets
  rtx match_abort switch_tournament_server : ServerPackets

unfoldable pub server_value : ServerPackets → ℕ
server_value ServerPackets.user_id = 5
server_value ServerPackets.send_message = 7
server_value ServerPackets.pong = 8
server_value ServerPackets.handle_irc_change_username = 9
server_value ServerPackets.handle_irc_quit = 10
server_value ServerPackets.user_stats = 11
server_value ServerPackets.user_logout = 12
server_value ServerPackets.spectator_joined = 13
server_value ServerPackets.spectator_left = 14
server_value ServerPackets.spectate_frames = 15
server_value ServerPackets.version_update = 19
server_value ServerPackets.spectator_cant_spectate = 22
server_value ServerPackets.get_attention = 23
server_value ServerPackets.notification = 24
server_value ServerPackets.update_match = 26
server_value ServerPackets.new_match = 27
server_value ServerPackets.dispose_match = 28
server_value ServerPackets.toggle_block_non_friend_dms = 34
server_value ServerPackets.match_join_success = 36
server_value ServerPackets.match_join_fail = 37
server_value ServerPackets.fellow_spectator_joined = 42
server_value ServerPackets.fellow_spectator_left = 43
server_value ServerPackets.all_players_loaded = 45
server_value ServerPackets.match_start = 46
server_value ServerPackets.match_score_update = 48
server_value ServerPackets.match_transfer_host = 50
server_value ServerPackets.match_all_players_loaded = 53
server_value ServerPackets.match_player_failed = 57
server_value ServerPackets.match_complete = 58
server_value ServerPackets.match_skip = 61
server_value ServerPackets.unauthorized = 62
server_value ServerPackets.channel_join_success = 64
server_value ServerPackets.channel_info = 65
server_value ServerPackets.channel_kick = 66
server_value ServerPackets.channel_auto_join = 67
server_value ServerPackets.beatmap_info_reply = 69
server_value ServerPackets.privileges = 71
server_value ServerPackets.friends_list = 72
server_value ServerPackets.protocol_version = 75
server_value ServerPackets.main_menu_icon = 76
server_value ServerPackets.monitor = 80
server_value ServerPackets.match_player_skipped = 81
server_value ServerPackets.user_presence = 83
server_value ServerPackets.restart = 86
server_value ServerPackets.match_invite = 88
server_value ServerPackets.channel_info_end = 89
server_value ServerPackets.match_change_password = 91
server_value ServerPackets.silence_end = 92
server_value ServerPackets.user_silenced = 94
server_value ServerPackets.user_presence_single = 95
server_value ServerPackets.user_presence_bundle = 96
server_value ServerPackets.user_dm_blocked = 100
server_value ServerPackets.target_is_silenced = 101
server_value ServerPackets.version_update_forced = 102
server_value ServerPackets.switch_server = 103
server_value ServerPackets.account_restricted = 104
server_value ServerPackets.rtx = 105
server_value ServerPackets.match_abort = 106
server_value ServerPackets.switch_tournament_server = 107
