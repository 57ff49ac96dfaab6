-- ===== src/World.antt =====
-- The state that the sessions share (app/state/sessions.py, app/objects/collections.py) and what its
-- objects hold: `Player` of app/objects/player.py, `Channel` of app/objects/channel.py, the match list.
-- Objects are named by numbers: a player by the id of its user, channels and matches by addresses.
pub mod Count
pub mod Calm
pub mod Ties
pub mod Quiet
pub mod Cells
pub mod Channels
pub mod Players
pub mod Matches
pub mod Spectating
pub mod Handlers
pub mod Events
use Prim.Native.Nat.{bit_and}
use eunga_py.Prelude.{
  ℕ, Bool, true, false, not, Option, none, some, List, [], ◌∷◌, ◌++◌, any, ◌==◌, if◌then◌else◌,
}
use eunga_py.Prelude.Int.{ℤ, pos}
use eunga_py.Prelude.Actions.{Action, done, pure, ◌>>=◌, ◌>>◌}
use eunga_py.GameMode.{GameMode}
use eunga_py.Packets.Integers.{Bytes}
use eunga_py.Packets.Utf8.{Str}
use eunga_py.Match.Types.{Match}

-- `instance` is a word of the notation, hence `is_instance`.
pub record Channel : Type 0 where
  pub real_name : Str
  pub name : Str
  pub topic : Str
  pub read_priv : ℕ
  pub write_priv : ℕ
  pub auto_join : Bool
  pub is_instance : Bool
  pub players : List ℕ

pub data PresenceFilter : Type 0 where
  nil all friends_only : PresenceFilter

-- The attributes of a player that the operations below use; `_packet_queue` is `queue`.
pub record Player : Type 0 where
  pub name : Str
  pub token : Str
  pub priv : ℕ
  pub stealth : Bool
  pub in_lobby : Bool
  pub channels : List ℕ
  pub spectators : List ℕ
  pub spectating : Option ℕ
  pub «match» : Option ℕ
  pub friends : List ℕ
  pub blocks : List ℕ
  pub pres_filter : PresenceFilter
  pub away_msg : Option Str
  pub pm_private : Bool
  pub queue : List Bytes

-- a match object with its `chat`
pub record Table : Type 0 where
  pub state : Match
  pub chat : ℕ

pub record World : Type 0 where
  pub player : ℕ → Player
  pub channel : ℕ → Channel
  pub table : ℕ → Table
  -- the first address that no object has
  pub fresh : ℕ
  -- `app.state.sessions`: players, channels and the cells of matches
  pub online : List ℕ
  pub channels : List ℕ
  pub matches : List (Option ℕ)

abbrev pub Act : Type 0 → Type 0
Act A = Action World A

-- What the operations ask of the rest of the server: the bot, `str` of an integer, and whether the
-- silence of a player lasts at the time of the packet.
pub record App : Type 0 where
  pub bot : ℕ
  pub str : ℤ → Str
  pub silenced : ℕ → Bool

-- assignment to one object of a store
abbrev pub update : {A : Type 0} → (ℕ → A) → ℕ → A → ℕ → A
update f k v q = if q == k then v else f q

abbrev pub gets : {A : Type 0} → (World → A) → Act A
gets f w = (done (f w), w)

abbrev pub modify : (World → World) → Act Unit
modify f w = (done tt, f w)

-- assignments to the attributes of one object
abbrev pub set_player : ℕ → (Player → Player) → World → World
set_player p f w = record w { player = update w.player p (f (w.player p)) }

abbrev pub set_channel : ℕ → (Channel → Channel) → World → World
set_channel c f w = record w { channel = update w.channel c (f (w.channel c)) }

abbrev pub set_table : ℕ → (Match → Match) → World → World
set_table t f w = record w {
  table = update w.table t (record (w.table t) { state = f ((w.table t).state) });
}

unfoldable pub on_player : ℕ → (Player → Player) → Act Unit
on_player p f = modify (set_player p f)

unfoldable pub on_channel : ℕ → (Channel → Channel) → Act Unit
on_channel c f = modify (set_channel c f)

unfoldable pub on_match : ℕ → (Match → Match) → Act Unit
on_match t f = modify (set_table t f)

-- `x in l`
abbrev pub contains : List ℕ → ℕ → Bool
contains l x = any (λ y. y == x) l

-- `l.remove(x)`: the first one is taken out, and it is a ValueError if there is none
abbrev pub list_remove : List ℕ → ℕ → Option (List ℕ)
list_remove [] x = none
list_remove (y ∷ l) x =
    let rest = list_remove l x in
    if y == x then some l else elim rest [ none ↦ none | some l' ↦ some (y ∷ l') ]

-- `players.get(id=…)` finds a session
abbrev pub is_online : World → ℕ → Bool
is_online w p = contains w.online p

-- `for x in l: …`
abbrev pub each : List ℕ → (ℕ → Act Unit) → Act Unit
each [] f = pure tt
each (x ∷ l) f = f x >> each l f

-- `Player.enqueue`
unfoldable pub enqueue : Bytes → ℕ → Act Unit
enqueue b p = on_player p (λ s. record s { queue = s.queue ++ (b ∷ []) })

-- `Player.restricted`
unfoldable pub restricted : Player → Bool
restricted s = bit_and s.priv 1 == 0
