-- ===== src/Match/Room.antt =====
-- A match with what its handlers write to: the members of its chat and of #lobby, and the packets
-- enqueued to players, oldest first. What was written before an exception stays written.
pub mod Triple
use eunga_py.Prelude.Text.{codes}
use eunga_py.Prelude.{
  ℕ, Bool, true, false, not, Option, none, some, List, [], ◌∷◌, ◌++◌, any, length, map, ◌==◌, leb,
  if◌then◌else◌,
}
use eunga_py.Prelude.Int.{ℤ, pos}
pub use eunga_py.Prelude.Actions.{Result, done, raised, Action, pure, raise, or_raise, resume, ◌>>◌}
unfoldable pub use eunga_py.Prelude.Actions.{◌>>=◌}
use eunga_py.GameMode.{GameMode}
use eunga_py.Packets.Integers.{Bytes}
use eunga_py.Packets.Utf8.{Str}
use eunga_py.Packets.Server
use eunga_py.Match.Types.{Match, Slot, no_map, is_status}
use eunga_py.Match.Seats.{adjust, get_slot_id, start_slot, players_where}

pub record Room : Type 0 where
  pub state : Match
  pub chat : List ℕ
  pub lobby : Option (List ℕ)
  pub sent : List (ℕ × Bytes)
  -- the slots whose scores `update_matchpoints` was asked to await
  pub scoring : List (List ℕ)

abbrev pub Exec : Type 0 → Type 0
Exec A = Action Room A

abbrev pub gets : {A : Type 0} → (Match → A) → Exec A
gets f r = (done (f r.state), r)

abbrev pub modify : (Match → Match) → Exec Unit
modify f r = (done tt, record r { state = f r.state })

abbrev pub map_slots : (Slot → Slot) → Exec Unit
map_slots f = modify (λ m. record m { slots = map f m.slots })

abbrev pub update_slot : ℕ → (Slot → Slot) → Exec Unit
update_slot i f = modify (λ m. record m { slots = adjust m.slots i f })

abbrev pub is_member : List ℕ → ℕ → Bool
is_member l p = any (λ q. q == p) l

-- `Channel.enqueue`: to each member that is not in `immune`
unfoldable pub deliver : Bytes → List ℕ → List ℕ → List (ℕ × Bytes)
deliver b immune [] = []
deliver b immune (p ∷ l) =
    let rest = deliver b immune l in if is_member immune p then rest else (p, b) ∷ rest

abbrev pub send : List (ℕ × Bytes) → Exec Unit
send l r = (done tt, record r { sent = r.sent ++ l })

-- the players of #lobby, none if there is no such channel
abbrev pub lobby_players : Room → List ℕ
lobby_players r = elim r.lobby [ none ↦ [] | some l ↦ l ]

abbrev pub chat_enqueue : Bytes → List ℕ → Exec Unit
chat_enqueue b immune r = send (deliver b immune r.chat) r

abbrev pub lobby_enqueue : Bytes → Exec Unit
lobby_enqueue b r = send (deliver b [] (lobby_players r)) r

pub record Beatmap : Type 0 where
  pub id : ℤ
  pub md5 : Str
  pub full_name : Str

-- What the handlers ask of the rest of the server: the sessions, the bot, the settings, `str` of an
-- integer, and the beatmaps known by their MD5.
pub record Sessions : Type 0 where
  pub online : ℕ → Bool
  pub mode_of : ℕ → GameMode
  pub bot_id : ℕ
  pub bot_name : Str
  pub domain : Str
  pub str : ℤ → Str
  pub from_md5 : Str → Option Beatmap

-- `Channel.name` of the chat of a match
abbrev pub multiplayer : Str
multiplayer = codes "#multiplayer"

-- `Match.enqueue`
unfoldable pub enqueue : Bytes → Bool → List ℕ → Exec Unit
enqueue b lobby immune = do chat_enqueue b immune; if lobby then lobby_enqueue b else pure tt

-- `match.get_slot(player)` and the assertion after it
unfoldable pub seat : ℕ → Exec ℕ
seat p = do i ← gets (λ m. get_slot_id p m.slots); or_raise i

module _ (app : Sessions) where
  -- `Match.host`, a ValueError if the host has no session
  unfoldable pub host : Exec ℕ
  host = do id ← gets (λ m. m.host_id); if app.online id then pure id else raise

  -- one packet of the state of the match
  unfoldable pub state_packet : Bool → Exec Bytes
  state_packet send_pw = do m ← gets (λ m. m); or_raise (Server.update_match app.online m send_pw)

  abbrev lobby_state : List ℕ → Exec Unit
  lobby_state [] = pure tt
  lobby_state (p ∷ l) = do b ← state_packet false; lobby_enqueue b

  -- `Match.enqueue_state`
  unfoldable pub enqueue_state : Bool → Exec Unit
  enqueue_state lobby = do
    b ← state_packet true
    chat_enqueue b []
    if lobby then (λ r. lobby_state (lobby_players r) r) else pure tt

  -- `Match.start`
  unfoldable pub start : Exec Unit
  start = do
    no_map_ids ← gets (λ m. players_where (λ s. is_status s.status no_map) m.slots)
    map_slots start_slot
    modify (λ m. record m { in_progress = true })
    m ← gets (λ m. m)
    b ← or_raise (Server.match_start app.online m)
    enqueue b false no_map_ids
    enqueue_state true

  abbrev bot_text : Str → Str
  bot_text msg =
      if leb 31979 (length msg)
      then codes "message would have crashed games ("
        ++ app.str (pos (length msg))
        ++ codes " chars)"
      else msg

  -- `Channel.send_bot`
  unfoldable pub send_bot : Str → Exec Unit
  send_bot msg = do
    b ←
        or_raise
          (Server.send_message app.online app.bot_name (bot_text msg) multiplayer (pos app.bot_id))
    chat_enqueue b []
