-- ===== src/World/Calm/Matches.antt =====
-- The operations of app/objects/match.py and app/objects/player.py on a match that keep every player
-- seated are calm, and the end of `logout`.
use eunga_py.Prelude.{
  ℕ, zero, suc, refl, Bool, true, false, not, ◌&&◌, ◌||◌, Option, none, some, List, [], ◌∷◌, ◌==◌,
}
use eunga_py.Prelude.Text.{eq_str}
use eunga_py.Prelude.Actions.{pure, ◌>>=◌}
use eunga_py.Packets.Integers.{Bytes}
use eunga_py.Packets.Utf8.{Str}
use eunga_py.Match.Seats.{get_free}
use eunga_py.World.{Act, App, contains}
use eunga_py.World.Channels.{channel_enqueue, packet}
use eunga_py.World.Matches.{
  host_of, lobby_state, share_state, channel_send_bot, join_fail, choose_slot, leave_lobby, dispose,
  pass_host, drop_referee, carry_on, match_of, is_staff, in_match,
}
use eunga_py.World.Players.{sign_out, leave_first, leave_channels, say_goodbye}
use eunga_py.World.Calm.{
  IsCalm, IsCalm-pure, IsCalm-raise, IsCalm-or_raise, IsCalm-gets, IsCalm-if, IsCalm-option,
  IsCalm-bind, IsCalm-on_match, IsCalm-enqueue,
}
use eunga_py.World.Calm.Leave.{IsCalm-leave_channel}
use eunga_py.World.Calm.Messages.{
  IsCalm-packet_then, IsCalm-gets_then, IsCalm-then, IsCalm-send, IsCalm-modify,
  IsCalm-channel_enqueue, IsCalm-get_by_name, IsCalm-broadcast,
}

pub IsCalm-host_of : (t : ℕ) → IsCalm (host_of t)
unfolding host_of
IsCalm-host_of t =
    IsCalm-gets_then _ _
      (λ h. IsCalm-gets_then _ _ (λ online. IsCalm-if online _ _ (IsCalm-pure h) IsCalm-raise))

send_if_members :
    (make : (ℕ → Bool) → Option Bytes) (c : ℕ) (l : List ℕ)
    → IsCalm (elim l [ [] ↦ pure tt | p ∷ ps ↦ packet make >>= λ b. channel_enqueue b [] c ])
send_if_members make c [] = IsCalm-pure tt
send_if_members make c (p ∷ ps) = IsCalm-packet_then _ _ (λ b. IsCalm-channel_enqueue b [] c)

IsCalm-lobby_state : (t : ℕ) → IsCalm (lobby_state t)
unfolding lobby_state
IsCalm-lobby_state t = IsCalm-bind _ _ (IsCalm-get_by_name _) (λ lobby. IsCalm-gets_then _ _ (λ m.
    IsCalm-option lobby _ _ (IsCalm-pure tt)
      (λ c. IsCalm-gets_then _ _ (λ l. send_if_members _ c l))))

pub IsCalm-share_state : (t : ℕ) → IsCalm (share_state t)
unfolding share_state
IsCalm-share_state t = IsCalm-gets_then _ _ (λ m. IsCalm-gets_then _ _ (λ c.
    IsCalm-packet_then _ _
      (λ b. IsCalm-then _ _ (IsCalm-channel_enqueue b [] c) (IsCalm-lobby_state t))))

pub IsCalm-channel_send_bot : (app : App) (msg : Str) (c : ℕ) → IsCalm (channel_send_bot app msg c)
unfolding channel_send_bot
IsCalm-channel_send_bot app msg c =
    IsCalm-gets_then _ _ (λ w. IsCalm-packet_then _ _ (λ b. IsCalm-channel_enqueue b [] c))

IsCalm-join_fail : (p : ℕ) → IsCalm (join_fail p)
unfolding join_fail
IsCalm-join_fail p =
    IsCalm-packet_then _ _ (λ b. IsCalm-then _ _ (IsCalm-enqueue b p) (IsCalm-pure none))

pub IsCalm-leave_lobby : (p : ℕ) → IsCalm (leave_lobby p)
unfolding leave_lobby
IsCalm-leave_lobby p = IsCalm-bind _ _ (IsCalm-get_by_name _) (λ lobby.
    IsCalm-option lobby _ _ (IsCalm-pure tt) (λ c.
      IsCalm-gets_then _ _ (λ b. IsCalm-if b _ _ (IsCalm-leave_channel p c true) (IsCalm-pure tt))))

pub IsCalm-choose_slot : (p t : ℕ) (passwd : Str) → IsCalm (choose_slot p t passwd)
unfolding choose_slot
IsCalm-choose_slot p t passwd = IsCalm-gets_then _ _ (λ w.
    IsCalm-if (in_match p w || contains (match_of t w).tourney_clients p) _ _ (IsCalm-join_fail p) (
      IsCalm-bind _ _ (IsCalm-host_of t) (λ h. IsCalm-if (p == h) _ _ (IsCalm-pure (some 0)) (
        IsCalm-if (not (eq_str passwd (match_of t w).passwd) && not (is_staff p w)) _ _
          (IsCalm-join_fail p)
          (IsCalm-option (get_free (match_of t w).slots) _ _ (IsCalm-join_fail p)
            (λ i. IsCalm-pure (some i)))))))

pub IsCalm-dispose : (t : ℕ) → IsCalm (dispose t)
unfolding dispose
IsCalm-dispose t = IsCalm-then _ _ (IsCalm-on_match t _ (λ m. refl)) (
    IsCalm-then _ _ (IsCalm-modify _ (λ w. refl) (λ w. refl) (λ w. refl)) (
      IsCalm-gets_then _ _ (λ id. IsCalm-bind _ _ (IsCalm-get_by_name _) (λ lobby.
        IsCalm-option lobby _ _ (IsCalm-pure tt)
          (λ c. IsCalm-packet_then _ _ (λ b. IsCalm-channel_enqueue b [] c))))))

IsCalm-pass_host : (t : ℕ) (o : Option ℕ) → IsCalm (pass_host t o)
unfolding pass_host
IsCalm-pass_host t none = IsCalm-pure tt
IsCalm-pass_host t (some q) =
    IsCalm-then _ _ (IsCalm-on_match t _ (λ m. refl))
      (IsCalm-bind _ _ (IsCalm-host_of t) (λ h. IsCalm-send _ h))

module _ (app : App) where
  IsCalm-drop_referee : (p t : ℕ) → IsCalm (drop_referee app p t)
  unfolding drop_referee
  IsCalm-drop_referee p t = IsCalm-gets_then _ _ (λ w.
      IsCalm-if (contains (match_of t w).referees p) _ _
        (IsCalm-bind _ _ (IsCalm-or_raise _) (λ l.
          IsCalm-then _ _ (IsCalm-on_match t _ (λ m. refl)) (IsCalm-channel_send_bot app _ _)))
        (IsCalm-pure tt))

  pub IsCalm-carry_on : (p t : ℕ) → IsCalm (carry_on app p t)
  unfolding carry_on
  IsCalm-carry_on p t = IsCalm-bind _ _ (IsCalm-host_of t) (λ h. IsCalm-gets_then _ _ (λ next.
      IsCalm-then _ _ (IsCalm-if (p == h) _ _ (IsCalm-pass_host t next) (IsCalm-pure tt))
        (IsCalm-then _ _ (IsCalm-drop_referee p t) (IsCalm-share_state t))))

IsCalm-leave_first :
    (p : ℕ) (l : List ℕ) (rest : Act Bool) → IsCalm rest → IsCalm (leave_first p l rest)
IsCalm-leave_first p [] rest h = IsCalm-pure true
IsCalm-leave_first p (c ∷ l) rest h = IsCalm-then _ _ (IsCalm-leave_channel p c false) h

pub IsCalm-leave_channels : (p fuel : ℕ) → IsCalm (leave_channels p fuel)
unfolding leave_channels
IsCalm-leave_channels p zero = IsCalm-gets _
IsCalm-leave_channels p (suc fuel) =
    IsCalm-gets_then _ _ (λ l. IsCalm-leave_first p l _ (IsCalm-leave_channels p fuel))

IsCalm-sign_out : (p : ℕ) → IsCalm (sign_out p)
unfolding sign_out
IsCalm-sign_out p = IsCalm-gets_then _ _ (λ l.
    IsCalm-if (contains l p) _ _
      (IsCalm-bind _ _ (IsCalm-or_raise _)
        (λ l. IsCalm-modify _ (λ w. refl) (λ w. refl) (λ w. refl)))
      (IsCalm-pure tt))

pub IsCalm-say_goodbye : (p : ℕ) → IsCalm (say_goodbye p)
unfolding say_goodbye
IsCalm-say_goodbye p = IsCalm-then _ _ (IsCalm-sign_out p) (
    IsCalm-gets_then _ _
      (λ r. IsCalm-if r _ _ (IsCalm-pure tt) (IsCalm-packet_then _ _ (λ b. IsCalm-broadcast b []))))
