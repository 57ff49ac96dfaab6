-- ===== src/Packets/Structs.antt =====
-- The structured values of the protocol. A float is its IEEE 754 bit pattern.
use eunga_py.Prelude.{ℕ, Bool, List, Option}
use eunga_py.Prelude.Int.{ℤ}
use eunga_py.Packets.Integers.{Bytes}
use eunga_py.Packets.Utf8.{Str}

pub record Message : Type 0 where
  pub sender : Str
  pub text : Str
  pub recipient : Str
  pub sender_id : ℤ

pub record Channel : Type 0 where
  pub name : Str
  pub topic : Str
  pub players : ℤ

pub data ReplayAction : Type 0 where
  standard new_song skip completion fail pause unpause song_select watching_other : ReplayAction

pub record ScoreFrame : Type 0 where
  pub time : ℤ
  pub id : ℕ
  pub num300 : ℕ
  pub num100 : ℕ
  pub num50 : ℕ
  pub num_geki : ℕ
  pub num_katu : ℕ
  pub num_miss : ℕ
  pub total_score : ℤ
  pub max_combo : ℕ
  pub current_combo : ℕ
  pub perfect : Bool
  pub current_hp : ℕ
  pub tag_byte : ℕ
  pub score_v2 : Bool
  pub combo_portion : Option ℕ
  pub bonus_portion : Option ℕ

pub record ReplayFrame : Type 0 where
  pub button_state : ℕ
  pub taiko_byte : ℕ
  pub x : ℕ
  pub y : ℕ
  pub time : ℤ

pub record ReplayFrameBundle : Type 0 where
  pub replay_frames : List ReplayFrame
  pub score_frame : ScoreFrame
  pub action : ReplayAction
  pub extra : ℤ
  pub sequence : ℕ
  pub raw_data : Bytes

pub record MultiplayerMatch : Type 0 where
  pub id : ℤ
  pub in_progress : Bool
  pub powerplay : ℤ
  pub mods : ℤ
  pub name : Str
  pub passwd : Str
  pub map_name : Str
  pub map_id : ℤ
  pub map_md5 : Str
  pub slot_statuses : List ℤ
  pub slot_teams : List ℤ
  pub slot_ids : List ℤ
  pub host_id : ℤ
  pub mode : ℤ
  pub win_condition : ℤ
  pub team_type : ℤ
  pub freemods : Bool
  pub slot_mods : List ℤ
  pub seed : ℤ
