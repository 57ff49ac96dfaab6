-- ===== src/Beatmaps.antt =====
-- Maps and their sets: `Beatmap` and `BeatmapSet._update_if_available` of app/objects/beatmap.py, with the
-- statements that the update sends to the database. A time is a number; a map's reference to its set is
-- left out, as is what a raise leaves half done.
pub mod Update
pub mod Parsed
pub mod Current
use mathlib.Core.Option
use eunga_py.Prelude.{
  ℕ, Bool, true, false, not, ◌&&◌, Option, none, some, List, [], ◌∷◌, ◌++◌, map, any, take, drop,
  is_empty, ◌==◌, if◌then◌else◌,
}
use eunga_py.Prelude.Int.{ℤ, pos, negsuc, eq_ℤ}
use eunga_py.Prelude.Text.{Str, codes, eq_str}
use eunga_py.Prelude.Options.{◌>>=◌}
use eunga_py.GameMode.{GameMode, of_value}
use eunga_py.RankedStatus.{
  RankedStatus, not_submitted, pending, update_available, ranked, approved, qualified, loved,
  from_osuapi,
}
use eunga_py.Scores.{Float}

pub record Beatmap : Type 0 where
  pub md5 : Str
  pub id : ℤ
  pub set_id : ℤ
  pub artist : Str
  pub title : Str
  pub version : Str
  pub creator : Str
  pub last_update : ℕ
  pub total_length : ℤ
  pub max_combo : ℤ
  pub status : RankedStatus
  pub frozen : Bool
  pub plays : ℕ
  pub passes : ℕ
  pub mode : GameMode
  pub bpm : Float
  pub cs : Float
  pub od : Float
  pub ar : Float
  pub hp : Float
  pub diff : Float
  pub filename : Str

-- one map as osu!api has it: texts, of which two may be null
pub record ApiMap : Type 0 where
  pub beatmap_id : Str
  pub file_md5 : Str
  pub beatmapset_id : Str
  pub artist : Str
  pub title : Str
  pub version : Str
  pub creator : Str
  pub last_update : Str
  pub total_length : Str
  pub max_combo : Option Str
  pub approved : Str
  pub mode : Str
  pub bpm : Option Str
  pub diff_size : Str
  pub diff_overall : Str
  pub diff_approach : Str
  pub diff_drain : Str
  pub difficultyrating : Str

-- `int`, `float` and `datetime` of Python, which may raise; `to_nat` is the number that is not negative
pub record Parsing : Type 0 where
  pub int : Str → Option ℤ
  pub to_nat : ℤ → Option ℕ
  pub float : Str → Option Float
  pub zero_float : Float
  pub datetime : ℤ → ℤ → ℤ → ℤ → ℤ → ℤ → Option ℕ

-- the values of the `IntEnum`
unfoldable pub status_value : RankedStatus → ℤ
status_value not_submitted = negsuc 0
status_value pending = pos 0
status_value update_available = pos 1
status_value ranked = pos 2
status_value approved = pos 3
status_value qualified = pos 4
status_value loved = pos 5

unfoldable pub official : RankedStatus → Bool
official ranked = true
official approved = true
official loved = true
official _ = false

unfoldable pub any_beatmaps_have_official_leaderboards : List Beatmap → Bool
any_beatmaps_have_official_leaderboards maps = any (λ m. official m.status) maps

-- `IGNORED_BEATMAP_CHARS`
abbrev pub ignored : ℕ → Bool
ignored c = any (λ k. k == c) (58 ∷ 92 ∷ 47 ∷ 42 ∷ 60 ∷ 62 ∷ 63 ∷ 34 ∷ 124 ∷ [])

unfoldable pub translate : Str → Str
translate [] = []
translate (c ∷ t) = if ignored c then translate t else c ∷ translate t

unfoldable pub filename_of : ApiMap → Str
filename_of r = translate (
    r.artist
    ++ codes " - "
    ++ r.title
    ++ codes " ("
    ++ r.creator
    ++ codes ") ["
    ++ r.version
    ++ codes "].osu")

-- dictionaries from ids, in the order of insertion
unfoldable pub set_key : {A : Type 0} → ℤ → A → List (ℤ × A) → List (ℤ × A)
set_key k v [] = (k, v) ∷ []
set_key k v ((j, w) ∷ l) =
    let rest = set_key k v l in if eq_ℤ j k then (j, v) ∷ l else (j, w) ∷ rest

abbrev pub find_key : {A : Type 0} → ℤ → List (ℤ × A) → Option A
find_key k [] = none
find_key k ((j, w) ∷ l) = let rest = find_key k l in if eq_ℤ j k then some w else rest

module _ (py : Parsing) where
  open py use {int, to_nat, float, zero_float, datetime}

  -- `int(text[a:a + n])`
  unfoldable pub int_slice : ℕ → ℕ → Str → Option ℤ
  int_slice a n t = int (take n (drop a t))

  unfoldable pub parse_last_update : Str → Option ℕ
  parse_last_update t = do
    year ← int_slice 0 4 t
    month ← int_slice 5 2 t
    day ← int_slice 8 2 t
    hour ← int_slice 11 2 t
    minute ← int_slice 14 2 t
    second ← int_slice 17 2 t
    datetime year month day hour minute second

  abbrev pub int_or_zero : Option Str → Option ℤ
  int_or_zero none = some (pos 0)
  int_or_zero (some t) = int t

  abbrev pub float_or_zero : Option Str → Option Float
  float_or_zero none = some zero_float
  float_or_zero (some t) = float t

  -- the status, which a map that is frozen keeps
  unfoldable pub parse_status : Beatmap → ApiMap → Option RankedStatus
  parse_status m r =
      if not m.frozen then (int r.approved >>= λ n. some (from_osuapi n)) else some m.status

  -- `_parse_from_osuapi_resp`
  unfoldable pub parse_from_osuapi_resp : Beatmap → ApiMap → Option Beatmap
  parse_from_osuapi_resp m r = do
    set_id ← int r.beatmapset_id
    last_update ← parse_last_update r.last_update
    total_length ← int r.total_length
    max_combo ← int_or_zero r.max_combo
    status ← parse_status m r
    mode_id ← int r.mode
    mode_value ← to_nat mode_id
    mode ← of_value mode_value
    bpm ← float_or_zero r.bpm
    cs ← float r.diff_size
    od ← float r.diff_overall
    ar ← float r.diff_approach
    hp ← float r.diff_drain
    diff ← float r.difficultyrating
    some (record {
      md5 = r.file_md5;
      id = m.id;
      set_id = set_id;
      artist = r.artist;
      title = r.title;
      version = r.version;
      creator = r.creator;
      last_update = last_update;
      total_length = total_length;
      max_combo = max_combo;
      status = status;
      frozen = m.frozen;
      plays = m.plays;
      passes = m.passes;
      mode = mode;
      bpm = bpm;
      cs = cs;
      od = od;
      ar = ar;
      hp = hp;
      diff = diff;
      filename = filename_of r;
    })
