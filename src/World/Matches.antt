-- ===== src/World/Matches.antt =====
-- `Matches.get_free` and `remove` of app/objects/collections.py, the messages of a match to its chat and
-- to #lobby (app/objects/match.py), and `join_match` and `leave_match` of app/objects/player.py.
use Prim.Native.Nat.{bit_and}
use eunga_py.Prelude.Text.{codes, eq_str}
use eunga_py.Prelude.{
  ℕ, suc, Bool, true, false, not, ◌&&◌, ◌||◌, Option, none, some, List, [], ◌∷◌, ◌++◌, all, length,
  ◌==◌, leb, if◌then◌else◌,
}
use eunga_py.Prelude.Int.{pos}
use eunga_py.Prelude.Actions.{pure, raise, or_raise, ◌>>=◌, ◌>>◌}
use eunga_py.Packets.Integers.{Bytes}
use eunga_py.Packets.Utf8.{Str}
use eunga_py.Packets.Server
use eunga_py.Match.Types.{
  Match, Slot, open_slot, locked, not_ready, is_status, red, head_to_head, tag_coop, team_vs,
  tag_team_vs, MatchTeamTypes,
}
use eunga_py.Match.Seats.{empty, reset, adjust, get_slot_id, get_free}
use eunga_py.World.{
  World, Act, App, gets, modify, on_player, on_match, contains, list_remove, is_online, enqueue,
}
use eunga_py.World.Channels.{get_by_name, packet, join_channel, leave_channel, channel_enqueue}

-- `Matches.get_free`
unfoldable pub free_cell : List (Option ℕ) → Option ℕ
free_cell [] = none
free_cell (m ∷ l) =
    let rest = free_cell l in
    elim m [ none ↦ some 0 | some t ↦ elim rest [ none ↦ none | some i ↦ some (suc i) ] ]

-- `Matches.remove`
unfoldable pub clear_cell : ℕ → List (Option ℕ) → List (Option ℕ)
clear_cell t [] = []
clear_cell t (m ∷ l) =
    let rest = clear_cell t l in
    elim m [ none ↦ none ∷ rest | some u ↦ if t == u then none ∷ l else some u ∷ rest ]

abbrev pub match_of : ℕ → World → Match
match_of t w = (w.table t).state

-- to the members of #lobby, if there is one
unfoldable pub lobby_enqueue : Bytes → Act Unit
lobby_enqueue b = do
  lobby ← get_by_name (codes "#lobby")
  elim lobby [ none ↦ pure tt | some c ↦ channel_enqueue b [] c ]

-- `match.host`, a ValueError if the host has no session
unfoldable pub host_of : ℕ → Act ℕ
host_of t = do
  h ← gets (λ w. (match_of t w).host_id)
  online ← gets (λ w. is_online w h)
  if online then pure h else raise

-- `Match.enqueue_state` to the lobby
unfoldable pub lobby_state : ℕ → Act Unit
lobby_state t = do
  lobby ← get_by_name (codes "#lobby")
  m ← gets (match_of t)
  elim lobby [
    | none ↦ pure tt
    | some c ↦ gets (λ w. (w.channel c).players) >>= λ l. elim l [
      | [] ↦ pure tt
      | p ∷ ps ↦
          packet (λ online. Server.update_match online m false) >>= λ b. channel_enqueue b [] c
    ]
  ]

-- `Match.enqueue_state`
unfoldable pub share_state : ℕ → Act Unit
share_state t = do
  m ← gets (match_of t)
  c ← gets (λ w. (w.table t).chat)
  b ← packet (λ online. Server.update_match online m true)
  channel_enqueue b [] c
  lobby_state t

module _ (app : App) where
  abbrev bot_text : Str → Str
  bot_text msg =
      if leb 31979 (length msg)
      then codes "message would have crashed games ("
        ++ app.str (pos (length msg))
        ++ codes " chars)"
      else msg

  -- `Channel.send_bot`
  unfoldable pub channel_send_bot : Str → ℕ → Act Unit
  channel_send_bot msg c = do
    w ← gets (λ w. w)
    b ← packet (λ online.
        Server.send_message online (w.player app.bot).name (bot_text msg) (w.channel c).name
          (pos app.bot))
    channel_enqueue b [] c

-- `player.match` is truthy
abbrev pub in_match : ℕ → World → Bool
in_match p w = elim (w.player p).match [ none ↦ false | some t ↦ true ]

-- `self in app.state.sessions.players.staff`
abbrev pub is_staff : ℕ → World → Bool
is_staff p w = is_online w p && not (bit_and (w.player p).priv 28672 == 0)

-- `match_join_fail`, and no slot
unfoldable pub join_fail : ℕ → Act (Option ℕ)
join_fail p = do b ← packet Server.match_join_fail; enqueue b p; pure none

-- the slot that `join_match` takes, none after the packet of a failure
unfoldable pub choose_slot : ℕ → ℕ → Str → Act (Option ℕ)
choose_slot p t passwd = do
  w ← gets (λ w. w)
  if in_match p w || contains (match_of t w).tourney_clients p then join_fail p else (do
    h ← host_of t
    if p == h
        then pure (some 0)
        else if not (eq_str passwd (match_of t w).passwd) && not (is_staff p w)
        then join_fail p
        else elim (get_free (match_of t w).slots) [ none ↦ join_fail p | some i ↦ pure (some i) ])

-- a player who takes a slot of a match with these teams
unfoldable pub take_slot : ℕ → MatchTeamTypes → Slot → Slot
take_slot p team_type s = record s {
  team = elim team_type [
    | head_to_head ↦ s.team
    | tag_coop ↦ s.team
    | team_vs ↦ red
    | tag_team_vs ↦ red
  ];
  status = not_ready;
  player = some p;
}

-- the assignments of `join_match`
unfoldable pub sit : ℕ → ℕ → ℕ → Act Unit
sit p t i = do
  on_match t (λ m. record m { slots = adjust m.slots i (take_slot p m.team_type) })
  on_player p (λ s. record s { «match» = some t })

-- `join_match` leaves #lobby
unfoldable pub leave_lobby : ℕ → Act Unit
leave_lobby p = do
  lobby ← get_by_name (codes "#lobby")
  elim lobby [
    | none ↦ pure tt
    | some c ↦ gets (λ w. contains (w.player p).channels c) >>= λ b.
        if b then leave_channel p c true else pure tt
  ]

-- the rest of `join_match`, given the slot
unfoldable pub enter : ℕ → ℕ → Option ℕ → Act Bool
enter p t none = pure false
enter p t (some i) = do
  c ← gets (λ w. (w.table t).chat)
  joined ← join_channel p c
  if joined
      then (do
        leave_lobby p
        sit p t i
        m ← gets (match_of t)
        b ← packet (λ online. Server.match_join_success online m)
        enqueue b p
        share_state t
        pure true)
      else pure false

unfoldable pub join_match : ℕ → ℕ → Str → Act Bool
join_match p t passwd = do i ← choose_slot p t passwd; enter p t i

-- the slot is left: a locked one stays locked
unfoldable pub vacate : Slot → Slot
vacate s = reset (if is_status s.status locked then locked else open_slot) s

-- `get_slot`, the assertion and the reset
unfoldable pub stand_up : ℕ → ℕ → Act Unit
stand_up p t = do
  i ← gets (λ w. get_slot_id p (match_of t w).slots)
  i ← or_raise i
  on_match t (λ m. record m { slots = adjust m.slots i vacate })

-- the player in the first slot that has one
unfoldable pub first_player : List Slot → Option ℕ
first_player [] = none
first_player (s ∷ l) = let rest = first_player l in elim s.player [ none ↦ rest | some p ↦ some p ]

-- the match is empty: it leaves the list
unfoldable pub dispose : ℕ → Act Unit
dispose t = do
  on_match t (λ m. record m { starting = false })
  modify (λ w. record w { matches = clear_cell t w.matches })
  id ← gets (λ w. (match_of t w).id)
  lobby ← get_by_name (codes "#lobby")
  elim lobby [
    | none ↦ pure tt
    | some c ↦
        packet (λ online. Server.dispose_match online (pos id)) >>= λ b. channel_enqueue b [] c
  ]

-- the next host
unfoldable pub pass_host : ℕ → Option ℕ → Act Unit
pass_host t none = pure tt
pass_host t (some q) = do
  on_match t (λ m. record m { host_id = q })
  h ← host_of t
  b ← packet Server.match_transfer_host
  enqueue b h

module _ (app : App) where
  -- `self.match.referees.remove(self)`, if it is one
  unfoldable pub drop_referee : ℕ → ℕ → Act Unit
  drop_referee p t = do
    w ← gets (λ w. w)
    if contains (match_of t w).referees p
        then (do
          l ← or_raise (list_remove (match_of t w).referees p)
          on_match t (λ m. record m { referees = l })
          channel_send_bot app ((w.player p).name ++ codes " removed from match referees.")
              (w.table t).chat)
        else pure tt

  -- the match goes on without the player
  unfoldable pub carry_on : ℕ → ℕ → Act Unit
  carry_on p t = do
    h ← host_of t
    next ← gets (λ w. first_player (match_of t w).slots)
    if p == h then pass_host t next else pure tt
    drop_referee p t
    share_state t

  -- the rest of `leave_match`, given the match
  unfoldable pub quit_match : ℕ → ℕ → Act Unit
  quit_match p t = do
    stand_up p t
    c ← gets (λ w. (w.table t).chat)
    leave_channel p c true
    deserted ← gets (λ w. all empty (match_of t w).slots)
    if deserted then dispose t else carry_on p t
    on_player p (λ s. record s { «match» = none })

  abbrev pub leave_seat : ℕ → Option ℕ → Act Unit
  leave_seat p none = pure tt
  leave_seat p (some t) = quit_match p t

  unfoldable pub leave_match : ℕ → Act Unit
  leave_match p = do m ← gets (λ w. (w.player p).match); leave_seat p m
