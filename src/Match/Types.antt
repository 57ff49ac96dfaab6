-- ===== src/Match/Types.antt =====
-- The enumerations and the fields of `Slot` and `Match` of app/objects/match.py.
use eunga_py.Prelude.{ℕ, zero, suc, Bool, false, Option, none, some, List, ◌==◌}
use eunga_py.Prelude.Int.{ℤ}
use eunga_py.Mods.{Mods, nomod}
use eunga_py.GameMode.{GameMode}
use eunga_py.Packets.Utf8.{Str}

-- `open` is a word of the notation, hence `open_slot`.
pub data SlotStatus : Type 0 where
  open_slot locked not_ready ready no_map playing complete quit : SlotStatus

unfoldable pub status_value : SlotStatus → ℕ
status_value open_slot = 1
status_value locked = 2
status_value not_ready = 4
status_value ready = 8
status_value no_map = 16
status_value playing = 32
status_value complete = 64
status_value quit = 128

-- Equality of members is equality of their values.
unfoldable pub is_status : SlotStatus → SlotStatus → Bool
unfolding status_value
is_status a b = status_value a == status_value b

pub data MatchTeams : Type 0 where
  neutral blue red : MatchTeams

unfoldable pub team_value : MatchTeams → ℕ
team_value neutral = 0
team_value blue = 1
team_value red = 2

pub data MatchWinConditions : Type 0 where
  score accuracy combo scorev2 : MatchWinConditions

unfoldable pub condition_value : MatchWinConditions → ℕ
condition_value score = 0
condition_value accuracy = 1
condition_value combo = 2
condition_value scorev2 = 3

-- `MatchWinConditions(n)`
unfoldable pub condition_of : ℕ → Option MatchWinConditions
condition_of zero = some score
condition_of (suc zero) = some accuracy
condition_of (suc (suc zero)) = some combo
condition_of (suc (suc (suc zero))) = some scorev2
condition_of _ = none

pub data MatchTeamTypes : Type 0 where
  head_to_head tag_coop team_vs tag_team_vs : MatchTeamTypes

unfoldable pub team_type_value : MatchTeamTypes → ℕ
team_type_value head_to_head = 0
team_type_value tag_coop = 1
team_type_value team_vs = 2
team_type_value tag_team_vs = 3

-- `MatchTeamTypes(n)`
unfoldable pub team_type_of : ℕ → Option MatchTeamTypes
team_type_of zero = some head_to_head
team_type_of (suc zero) = some tag_coop
team_type_of (suc (suc zero)) = some team_vs
team_type_of (suc (suc (suc zero))) = some tag_team_vs
team_type_of _ = none

-- A `Player` object is named by the id of its user: the sessions hold one object for a user.
pub record Slot : Type 0 where
  pub player : Option ℕ
  pub status : SlotStatus
  pub team : MatchTeams
  pub mods : Mods
  pub loaded : Bool
  pub skipped : Bool

-- `Slot()`
unfoldable pub new_slot : Slot
new_slot = record {
  player = none;
  status = open_slot;
  team = neutral;
  mods = nomod;
  loaded = false;
  skipped = false;
}

-- The attributes of a match that its packets and handlers use.
pub record Match : Type 0 where
  pub id : ℕ
  pub name : Str
  pub passwd : Str
  pub has_public_history : Bool
  pub host_id : ℕ
  pub referees : List ℕ
  pub map_id : ℤ
  pub map_md5 : Str
  pub map_name : Str
  pub prev_map_id : ℤ
  pub mods : Mods
  pub mode : GameMode
  pub freemods : Bool
  pub slots : List Slot
  pub team_type : MatchTeamTypes
  pub win_condition : MatchWinConditions
  pub in_progress : Bool
  pub starting : Bool
  pub seed : ℤ
  pub is_scrimming : Bool
  pub use_pp_scoring : Bool
  pub tourney_clients : List ℕ

-- Equality of members is equality of their values.
unfoldable pub is_team : MatchTeams → MatchTeams → Bool
unfolding team_value
is_team a b = team_value a == team_value b
