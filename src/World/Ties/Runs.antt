-- ===== src/World/Ties/Runs.antt =====
-- The ties along any sequence of packets, `bancho_handler` of app/api/domains/cho.py.
use eunga_py.Prelude.{ℕ, refl, true, not, ◌&&◌, List, [], ◌∷◌, any}
use eunga_py.Prelude.Int.{ℤ}
use eunga_py.Packets.Utf8.{Str}
use eunga_py.Match.Seats.{holds}
use eunga_py.World.{World, App, contains}
use eunga_py.World.Matches.{match_of}
use eunga_py.World.Players.{add_friend, remove_friend}
use eunga_py.World.Events.{
  add_client, tourney_info, tourney_join, tourney_leave, unblock, friend_add, friend_remove,
  filter_of, receive_updates, set_away_message, toggle_blocking_dms, Event, logout_request,
  start_spectating_request, stop_spectating_request, spectate_frames_request, cant_spectate_request,
  part_lobby, join_lobby, create_match_request, join_match_request, part_match,
  channel_join_request, channel_part_request, tournament_info, tournament_join, tournament_leave,
  friend_add_request, friend_remove_request, receive_updates_request, set_away_message_request,
  match_invite_request, match_change_password_request, toggle_block_non_friend_dms_request,
  for_restricted, handle, dispatch, run,
}
use eunga_py.World.Calm.{
  IsCalm, IsCalm-pure, IsCalm-or_raise, IsCalm-gets, IsCalm-if, IsCalm-option, IsCalm-bind,
  IsCalm-on_player, IsCalm-on_match,
}
use eunga_py.World.Calm.Channels.{IsCalm-join_channel}
use eunga_py.World.Calm.Leave.{IsCalm-leave_channel}
use eunga_py.World.Calm.Messages.{
  IsCalm-gets_then, IsCalm-then, IsCalm-send, IsCalm-handle_frames, IsCalm-cant_spectate,
}
use eunga_py.World.Ties.{IsConsistent, Keeps, Lands-calm, Keeps-bind, Lands-if}
use eunga_py.World.Ties.Watch.{Keeps-start_spectating, Keeps-stop_spectating}
use eunga_py.World.Ties.Leave.{Keeps-leave_match, Keeps-logout}
use eunga_py.World.Ties.Handlers.{
  IsCalm-channel_join, IsCalm-channel_part, IsCalm-lobby_part, IsCalm-lobby_join,
  Keeps-match_create, Keeps-match_join, IsCalm-match_invite, IsCalm-change_password,
}

IsCalm-tourney_info : (player : ℕ) (id : ℤ) → IsCalm (tourney_info player id)
unfolding tourney_info
IsCalm-tourney_info player id = IsCalm-gets_then _ _ (λ m.
    IsCalm-option m _ _ (IsCalm-pure tt) (λ t. IsCalm-gets_then _ _ (λ m. IsCalm-send _ player)))

IsCalm-tourney_join : (player : ℕ) (id : ℤ) → IsCalm (tourney_join player id)
unfolding tourney_join add_client
IsCalm-tourney_join player id = IsCalm-gets_then _ _ (λ m.
    IsCalm-option m _ _ (IsCalm-pure tt) (λ t. IsCalm-gets_then _ _ (λ w.
      IsCalm-if (any (holds player) (match_of t w).slots) _ _ (IsCalm-pure tt) (
        IsCalm-bind _ _ (IsCalm-join_channel player _) (λ joined.
          IsCalm-if joined _ _ (IsCalm-on_match t (add_client player) (λ m. refl))
            (IsCalm-pure tt))))))

IsCalm-tourney_leave : (player : ℕ) (id : ℤ) → IsCalm (tourney_leave player id)
unfolding tourney_leave
IsCalm-tourney_leave player id = IsCalm-gets_then _ _ (λ m.
    IsCalm-option m _ _ (IsCalm-pure tt) (λ t. IsCalm-gets_then _ _ (λ w.
      IsCalm-if (contains (match_of t w).tourney_clients player) _ _
        (IsCalm-then _ _ (IsCalm-leave_channel player _ true) (
          IsCalm-gets_then _ _
            (λ l. IsCalm-bind _ _ (IsCalm-or_raise _) (λ l. IsCalm-on_match t _ (λ m. refl)))))
        (IsCalm-pure tt))))

IsCalm-add_friend : (p q : ℕ) → IsCalm (add_friend p q)
unfolding add_friend
IsCalm-add_friend p q = IsCalm-gets_then _ _ (λ l.
    IsCalm-if (contains l q) _ _ (IsCalm-pure tt)
      (IsCalm-on_player p _ (λ s. refl) (λ s. refl) (λ s. refl) (λ s. refl)))

IsCalm-remove_friend : (p q : ℕ) → IsCalm (remove_friend p q)
unfolding remove_friend
IsCalm-remove_friend p q = IsCalm-gets_then _ _ (λ l.
    IsCalm-if (contains l q) _ _
      (IsCalm-bind _ _ (IsCalm-or_raise _)
        (λ l. IsCalm-on_player p _ (λ s. refl) (λ s. refl) (λ s. refl) (λ s. refl)))
      (IsCalm-pure tt))

IsCalm-receive_updates : (p : ℕ) (value : ℤ) → IsCalm (receive_updates p value)
unfolding receive_updates
IsCalm-receive_updates p value =
    IsCalm-option (filter_of value) _ _ (IsCalm-pure tt)
      (λ f. IsCalm-on_player p _ (λ s. refl) (λ s. refl) (λ s. refl) (λ s. refl))

IsCalm-set_away_message : (p : ℕ) (text : Str) → IsCalm (set_away_message p text)
unfolding set_away_message
IsCalm-set_away_message p text =
    IsCalm-on_player p _ (λ s. refl) (λ s. refl) (λ s. refl) (λ s. refl)

IsCalm-toggle_blocking_dms : (p : ℕ) (value : ℤ) → IsCalm (toggle_blocking_dms p value)
unfolding toggle_blocking_dms
IsCalm-toggle_blocking_dms p value =
    IsCalm-on_player p _ (λ s. refl) (λ s. refl) (λ s. refl) (λ s. refl)

module _ (app : App) where
  IsCalm-unblock : (p q : ℕ) → IsCalm (unblock app p q)
  IsCalm-unblock p q = IsCalm-gets_then _ _ (λ l.
      IsCalm-if (contains l q) _ _
        (IsCalm-bind _ _ (IsCalm-or_raise _)
          (λ l. IsCalm-on_player p _ (λ s. refl) (λ s. refl) (λ s. refl) (λ s. refl)))
        (IsCalm-pure tt))

  IsCalm-friend_add : (p : ℕ) (id : ℤ) → IsCalm (friend_add app p id)
  unfolding friend_add
  IsCalm-friend_add p id = IsCalm-gets_then _ _ (λ target.
      IsCalm-option target _ _ (IsCalm-pure tt)
        (λ q. IsCalm-then _ _ (IsCalm-unblock p q) (IsCalm-add_friend p q)))

  IsCalm-friend_remove : (p : ℕ) (id : ℤ) → IsCalm (friend_remove app p id)
  unfolding friend_remove
  IsCalm-friend_remove p id =
      IsCalm-gets_then _ _
        (λ target. IsCalm-option target _ _ (IsCalm-pure tt) (IsCalm-remove_friend p))

  Keeps-handle : (p : ℕ) (e : Event) → Keeps (handle app p e)
  unfolding handle
  Keeps-handle p (logout_request late fuel) =
      Lands-if late _ _
        (Keeps-bind _ _ (Keeps-logout app fuel p) (λ b. Lands-calm _ (IsCalm-pure tt)))
        (Lands-calm _ (IsCalm-pure tt))
  Keeps-handle p (start_spectating_request target) = Keeps-start_spectating app p target
  Keeps-handle p stop_spectating_request = Keeps-stop_spectating app p
  Keeps-handle p (spectate_frames_request raw_data) = Lands-calm _ (IsCalm-handle_frames p raw_data)
  Keeps-handle p cant_spectate_request = Lands-calm _ (IsCalm-cant_spectate p)
  Keeps-handle p part_lobby = Lands-calm _ (IsCalm-lobby_part p)
  Keeps-handle p join_lobby = Lands-calm _ (IsCalm-lobby_join p)
  Keeps-handle p (create_match_request d) = Keeps-match_create app p d
  Keeps-handle p (join_match_request id passwd) = Keeps-match_join app p id passwd
  Keeps-handle p part_match = Keeps-leave_match app p
  Keeps-handle p (channel_join_request name) = Lands-calm _ (IsCalm-channel_join p name)
  Keeps-handle p (channel_part_request name) = Lands-calm _ (IsCalm-channel_part p name)
  Keeps-handle p (tournament_info id) = Lands-calm _ (IsCalm-tourney_info p id)
  Keeps-handle p (tournament_join id) = Lands-calm _ (IsCalm-tourney_join p id)
  Keeps-handle p (tournament_leave id) = Lands-calm _ (IsCalm-tourney_leave p id)
  Keeps-handle p (friend_add_request id) = Lands-calm _ (IsCalm-friend_add p id)
  Keeps-handle p (friend_remove_request id) = Lands-calm _ (IsCalm-friend_remove p id)
  Keeps-handle p (receive_updates_request value) = Lands-calm _ (IsCalm-receive_updates p value)
  Keeps-handle p (set_away_message_request text) = Lands-calm _ (IsCalm-set_away_message p text)
  Keeps-handle p (match_invite_request id) = Lands-calm _ (IsCalm-match_invite app p id)
  Keeps-handle p (match_change_password_request d) = Lands-calm _ (IsCalm-change_password p d)
  Keeps-handle p (toggle_block_non_friend_dms_request value) =
      Lands-calm _ (IsCalm-toggle_blocking_dms p value)

  Keeps-dispatch : (p : ℕ) (e : Event) → Keeps (dispatch app p e)
  unfolding dispatch
  Keeps-dispatch p e = Keeps-bind _ _ (Lands-calm _ (IsCalm-gets _)) (λ r.
      Lands-if (r && not (for_restricted e)) _ _ (Lands-calm _ (IsCalm-pure tt)) (Keeps-handle p e))

-- Any sequence of the 22 packets Logout, StartSpectating, StopSpectating, SpectateFrames, CantSpectate,
-- LobbyPart, LobbyJoin, MatchCreate, MatchJoin, MatchPart, ChannelJoin, ChannelPart,
-- TourneyMatchInfoRequest, TourneyMatchJoinChannel, TourneyMatchLeaveChannel, FriendAdd, FriendRemove,
-- ReceiveUpdates, SetAwayMessage, MatchInvite, MatchChangePassword and ToggleBlockingDMs, exceptions
-- included, keeps the ties between the sessions: a member of a channel is a member once and has it
-- among its channels, the spectators of a host are those who spectate it, and a player who sits in a
-- match sits in one slot and has it as the match. The packets inside a match, which move players
-- between its slots, and those of the chat are not among them.
pub run-IsConsistent :
    (app : App) (l : List (ℕ × Event)) (w : World) → IsConsistent w → IsConsistent (run app l w)
unfolding run
run-IsConsistent app [] w h = h
run-IsConsistent app ((p, e) ∷ l) w h =
    run-IsConsistent app l (dispatch app p e w).1 ((Keeps-dispatch app p e).at w h tt)
