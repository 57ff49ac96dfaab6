-- ===== src/World/Ties/Handlers.antt =====
-- The packet handlers of app/api/domains/cho.py on channels, the lobby and matches keep the ties.
use eunga_py.Prelude.{ℕ, ◌≤◌, refl, true, not, Option, none, some, List, [], ◌∷◌, ◌++◌, ◌==◌, arith}
use eunga_py.Prelude.Int.{ℤ}
use eunga_py.Packets.Utf8.{Str}
use eunga_py.Packets.Structs.{MultiplayerMatch}
use eunga_py.GameMode.{GameMode}
use eunga_py.Match.Types.{MatchWinConditions, MatchTeamTypes, new_slot}
use eunga_py.Match.Settings.{validate_match_data}
use eunga_py.World.{App, modify, is_online}
use eunga_py.World.Count.{here, update_at}
use eunga_py.World.Matches.{match_of}
use eunga_py.World.Handlers.{
  is_ignored, channel_join, channel_part, lobby_part, show_match, show_matches, lobby_join,
  refuse_with, player_send_bot, new_match, put_table, create_table, create_match, no_cell,
  match_create, join_cell, match_join, invite, match_invite, set_passwd, change_password,
  restricted_text, silenced_text,
}
use eunga_py.World.Calm.{
  IsCalm, IsCalm-pure, IsCalm-or_raise, IsCalm-gets, IsCalm-if, IsCalm-option, IsCalm-bind,
  IsCalm-on_player, IsCalm-on_match, IsCalm-enqueue,
}
use eunga_py.World.Calm.Channels.{IsCalm-join_channel}
use eunga_py.World.Calm.Leave.{IsCalm-leave_channel}
use eunga_py.World.Calm.Messages.{
  IsCalm-packet_then, IsCalm-gets_then, IsCalm-then, IsCalm-send, IsCalm-get_by_name,
  IsCalm-create_channel, IsCalm-list_channel,
}
use eunga_py.World.Calm.Matches.{IsCalm-share_state, IsCalm-channel_send_bot, IsCalm-host_of}
use eunga_py.World.Ties.{seats, Keeps, Lands-calm, Keeps-bind, Lands-if, Lands-option}
use eunga_py.World.Ties.Join.{Keeps-join_match}

pub IsCalm-channel_join : (player : ℕ) (name : Str) → IsCalm (channel_join player name)
unfolding channel_join
IsCalm-channel_join player name = IsCalm-bind _ _ (IsCalm-get_by_name name) (λ found.
    IsCalm-if (is_ignored name) _ _ (IsCalm-pure tt) (
      IsCalm-option found _ _ (IsCalm-pure tt)
        (λ c. IsCalm-bind _ _ (IsCalm-join_channel player c) (λ b. IsCalm-pure tt))))

pub IsCalm-channel_part : (player : ℕ) (name : Str) → IsCalm (channel_part player name)
unfolding channel_part
IsCalm-channel_part player name = IsCalm-bind _ _ (IsCalm-get_by_name name) (λ found.
    IsCalm-if (is_ignored name) _ _ (IsCalm-pure tt)
      (IsCalm-option found _ _ (IsCalm-pure tt) (λ c. IsCalm-leave_channel player c true)))

pub IsCalm-lobby_part : (player : ℕ) → IsCalm (lobby_part player)
unfolding lobby_part
IsCalm-lobby_part player = IsCalm-on_player player _ (λ s. refl) (λ s. refl) (λ s. refl) (λ s. refl)

IsCalm-show_match : (player : ℕ) (m : Option ℕ) → IsCalm (show_match player m)
unfolding show_match
IsCalm-show_match player none = IsCalm-pure tt
IsCalm-show_match player (some t) = IsCalm-gets_then _ _ (λ w.
    IsCalm-if (is_online w (match_of t w).host_id) _ _ (IsCalm-send _ player) (IsCalm-pure tt))

IsCalm-show_matches : (player : ℕ) (l : List (Option ℕ)) → IsCalm (show_matches player l)
unfolding show_matches
IsCalm-show_matches player [] = IsCalm-pure tt
IsCalm-show_matches player (m ∷ l) =
    IsCalm-then _ _ (IsCalm-show_match player m) (IsCalm-show_matches player l)

pub IsCalm-lobby_join : (player : ℕ) → IsCalm (lobby_join player)
unfolding lobby_join
IsCalm-lobby_join player =
    IsCalm-then _ _ (IsCalm-on_player player _ (λ s. refl) (λ s. refl) (λ s. refl) (λ s. refl))
      (IsCalm-gets_then _ _ (IsCalm-show_matches player))

IsCalm-refuse_with : (player : ℕ) (text : Str) → IsCalm (refuse_with player text)
unfolding refuse_with
IsCalm-refuse_with player text =
    IsCalm-packet_then _ _ (λ a. IsCalm-packet_then _ _ (λ b. IsCalm-enqueue (a ++ b) player))

IsCalm-player_send_bot : (app : App) (msg : Str) (p : ℕ) → IsCalm (player_send_bot app msg p)
unfolding player_send_bot
IsCalm-player_send_bot app msg p = IsCalm-gets_then _ _ (λ w. IsCalm-send _ p)

-- nobody sits in a new match
module _ (id c player : ℕ) (d : MultiplayerMatch) (g : GameMode) (v : MatchWinConditions)
    (y : MatchTeamTypes) where
  Keeps-put_table : (t : ℕ) → Keeps (modify (put_table id c (new_match id player d g v y) t))
  unfolding new_match new_slot
  Keeps-put_table t = record {
    at = λ w h u. record {
      known = record { known = h.known.known; once = h.known.once };
      watched = h.watched;
      seated = λ q.
          update_at (λ u x. seats q x.state.slots ≤ here (w.player q).match u) w.table t _
            (omega arith) (λ u ne. h.seated q u);
    };
  }

  Keeps-create_table : Keeps (create_table id c (new_match id player d g v y))
  unfolding create_table
  Keeps-create_table = Keeps-bind _ _ (Lands-calm _ (IsCalm-gets _)) (λ t.
      Keeps-bind _ _ (Keeps-put_table t)
        (λ u. Lands-calm _ (IsCalm-then _ _ (IsCalm-list_channel c) (IsCalm-pure t))))

module _ (app : App) where
  Keeps-create_match :
      (player : ℕ) (d : MultiplayerMatch) (id : ℕ) → Keeps (create_match app player d id)
  unfolding create_match
  Keeps-create_match player d id =
      Keeps-bind _ _ (Lands-calm _ (IsCalm-create_channel _ _ true)) (λ c.
        Keeps-bind _ _ (Lands-calm _ (IsCalm-or_raise _)) (λ g.
          Keeps-bind _ _ (Lands-calm _ (IsCalm-or_raise _)) (λ v.
            Keeps-bind _ _ (Lands-calm _ (IsCalm-or_raise _)) (λ y.
              Keeps-bind _ _ (Keeps-create_table id c player d g v y) (λ t.
                Keeps-bind _ _ (Keeps-join_match player t d.passwd) (λ joined.
                  Lands-calm _
                    (IsCalm-gets_then _ _ (λ name. IsCalm-channel_send_bot app _ c))))))))

  IsCalm-no_cell : (player : ℕ) → IsCalm (no_cell app player)
  IsCalm-no_cell player =
      IsCalm-then _ _ (IsCalm-player_send_bot app _ player) (IsCalm-send _ player)

  pub Keeps-match_create : (player : ℕ) (d : MultiplayerMatch) → Keeps (match_create app player d)
  unfolding match_create
  Keeps-match_create player d = Keeps-bind _ _ (Lands-calm _ (IsCalm-gets _)) (λ r.
      Keeps-bind _ _ (Lands-calm _ (IsCalm-gets _)) (λ free.
        Lands-if (not (validate_match_data d player)) _ _ (Lands-calm _ (IsCalm-pure tt)) (
          Lands-if r _ _ (Lands-calm _ (IsCalm-refuse_with player restricted_text)) (
            Lands-if (app.silenced player) _ _
              (Lands-calm _ (IsCalm-refuse_with player silenced_text))
              (Lands-option free _ _ (Lands-calm _ (IsCalm-no_cell player))
                (Keeps-create_match player d))))))

  Keeps-join_cell :
      (player : ℕ) (m : Option ℕ) (passwd : Str) → Keeps (join_cell app player m passwd)
  unfolding join_cell
  Keeps-join_cell player none passwd = Lands-calm _ (IsCalm-send _ player)
  Keeps-join_cell player (some t) passwd = Keeps-bind _ _ (Lands-calm _ (IsCalm-gets _)) (λ r.
      Lands-if r _ _ (Lands-calm _ (IsCalm-refuse_with player restricted_text)) (
        Lands-if (app.silenced player) _ _ (Lands-calm _ (IsCalm-refuse_with player silenced_text))
          (Keeps-bind _ _ (Keeps-join_match player t passwd) (λ b. Lands-calm _ (IsCalm-pure tt)))))

  pub Keeps-match_join :
      (player : ℕ) (match_id : ℤ) (passwd : Str) → Keeps (match_join app player match_id passwd)
  unfolding match_join
  Keeps-match_join player match_id passwd = Keeps-bind _ _ (Lands-calm _ (IsCalm-gets _)) (λ m.
      Keeps-bind _ _ (Lands-calm _ (IsCalm-or_raise m)) (λ m. Keeps-join_cell player m passwd))

  IsCalm-invite : (player t : ℕ) (target : Option ℕ) → IsCalm (invite app player t target)
  IsCalm-invite player t none = IsCalm-pure tt
  IsCalm-invite player t (some q) = IsCalm-gets_then _ _ (λ b.
      IsCalm-if (q == app.bot) _ _ (IsCalm-player_send_bot app _ player)
        (IsCalm-bind _ _ (IsCalm-or_raise b) (λ b. IsCalm-enqueue b q)))

  pub IsCalm-match_invite : (player : ℕ) (id : ℤ) → IsCalm (match_invite app player id)
  unfolding match_invite
  IsCalm-match_invite player id = IsCalm-gets_then _ _ (λ m.
      IsCalm-gets_then _ _
        (λ target. IsCalm-option m _ _ (IsCalm-pure tt) (λ t. IsCalm-invite player t target)))

IsCalm-set_passwd : (player t : ℕ) (passwd : Str) → IsCalm (set_passwd player t passwd)
IsCalm-set_passwd player t passwd = IsCalm-bind _ _ (IsCalm-host_of t) (λ h.
    IsCalm-if (player == h) _ _
      (IsCalm-then _ _ (IsCalm-on_match t _ (λ m. refl)) (IsCalm-share_state t)) (IsCalm-pure tt))

pub IsCalm-change_password : (player : ℕ) (d : MultiplayerMatch) → IsCalm (change_password player d)
unfolding change_password
IsCalm-change_password player d = IsCalm-gets_then _ _ (λ m.
    IsCalm-if (not (validate_match_data d player)) _ _ (IsCalm-pure tt)
      (IsCalm-option m _ _ (IsCalm-pure tt) (λ t. IsCalm-set_passwd player t d.passwd)))
