-- ===== src/Submission.antt =====
-- The state that a score submission works on (app/services/score_submission.py): the tables of the
-- database, the player objects, the counters of the beatmap objects and the score object.
pub mod Stats
pub mod Checks
pub mod Persist
pub mod Transaction
pub mod Submit
pub mod Service
pub mod Grades
pub mod Keeps
pub mod Steps
pub mod Rollback
pub mod Restored
pub mod Best
pub mod Ends
pub mod Totals
pub mod Added
pub mod Counted
pub mod Whole
pub mod Names
pub mod Reflects
pub mod Runs
use Prim.Native.Nat.{bit_and}
use eunga_py.Prelude.{
  ℕ, Bool, true, false, Option, none, some, List, [], ◌∷◌, ◌++◌, ◌==◌, if◌then◌else◌,
}
use eunga_py.Prelude.Int.{ℤ}
use eunga_py.Prelude.Text.{Str, eq_str}
use eunga_py.Mods.{Mods}
use eunga_py.GameMode.{GameMode, value}
use eunga_py.Scores.{Grade, Float}
use eunga_py.Scores.Table.{Rows}
use eunga_py.Scores.Play.{Score}

-- `ModeData` of app/objects/player.py; a missing grade is a KeyError
pub record ModeData : Type 0 where
  pub tscore : ℤ
  pub rscore : ℤ
  pub pp : ℤ
  pub acc : Float
  pub plays : ℤ
  pub playtime : ℤ
  pub max_combo : ℤ
  pub total_hits : ℤ
  pub rank : ℕ
  pub grades : Grade → Option ℤ

-- `ClientDetails`, with the date of the version in the form `%Y%m%d`
pub record ClientDetails : Type 0 where
  pub osu_version : Str
  pub client_hash : Str
  pub uninstall_md5 : Str
  pub disk_signature_md5 : Str

-- The attributes of a `Player` that a submission uses; `display_name` is what `name_for_lang` gives for
-- the preferred language.
pub record Account : Type 0 where
  pub name : Str
  pub display_name : Str
  pub token : Str
  pub priv : ℕ
  pub client_details : Option ClientDetails
  pub status_mods : Mods
  pub status_mode : GameMode
  pub stats : GameMode → Option ModeData
  pub recent_scores : GameMode → Option Score
  pub session_play_count : ℕ
  pub session_play_history : List Score

-- `restricted` is the lack of the privilege UNRESTRICTED
unfoldable pub restricted : Account → Bool
restricted p = bit_and p.priv 1 == 0

-- a row of the table `stats`
pub record StatRow : Type 0 where
  pub tscore : ℤ
  pub rscore : ℤ
  pub pp : ℤ
  pub acc : Float
  pub plays : ℤ
  pub playtime : ℤ
  pub max_combo : ℤ
  pub total_hits : ℤ
  pub xh_count : ℤ
  pub x_count : ℤ
  pub sh_count : ℤ
  pub s_count : ℤ
  pub a_count : ℤ

-- `plays` and `passes` of a beatmap
pub record Counts : Type 0 where
  pub plays : ℕ
  pub passes : ℕ

-- the tables, with the keys of their rows
pub record Tables : Type 0 where
  pub scores : Rows
  pub stats : ℕ → ℕ → Option StatRow
  pub maps : ℕ → Counts
  pub achieved : List (ℕ × ℕ)

-- what the database answers to a statement: the result, an exception, or an IntegrityError
pub data Reply : Type 0 where
  fine broken conflict : Reply

-- what a submission does outside the tables and the objects
pub data Effect : Type 0 where
  activity stats_published restriction logged_out rank_entered : ℕ → Effect
  notified : ℕ → Str → Effect
  announced : Str → Effect
  metric : Str → Effect
  integrity_failure : Effect
  replay_written : ℕ → Effect
  lost_first_place : ℕ → Effect

-- `score` is the score object of the submission that runs; `replies` are the answers of the database to
-- the coming statements, and after those it answers every statement.
pub record State : Type 0 where
  pub tables : Tables
  pub replies : List Reply
  pub players : ℕ → Account
  pub maps : Str → Counts
  pub score : Score
  pub effects : List Effect

pub data Error : Type 0 where
  duplicate_score other : Error

pub data Result (A : Type 0) : Type 0 where
  done : A → Result A
  raised : Error → Result A

abbrev pub Action : Type 0 → Type 0
Action A = State → Result A × State

abbrev pub pure : {A : Type 0} → A → Action A
pure a s = (done a, s)

abbrev pub raise : {A : Type 0} → Error → Action A
raise e s = (raised e, s)

abbrev pub or_raise : {A : Type 0} → Option A → Action A
or_raise none s = (raised other, s)
or_raise (some a) s = (done a, s)

abbrev pub resume : {A B : Type 0} → Result A × State → (A → Action B) → Result B × State
resume (done a, s) f = f a s
resume (raised e, s) f = (raised e, s)

infixl 5 ◌>>=◌ ◌>>◌
unfoldable pub ◌>>=◌ : {A B : Type 0} → Action A → (A → Action B) → Action B
◌>>=◌ m f s = resume (m s) f

abbrev pub ◌>>◌ : {A B : Type 0} → Action A → Action B → Action B
m >> k = m >>= λ _. k

abbrev pub get : Action State
get s = (done s, s)

abbrev pub modify : (State → State) → Action (Unit {0})
modify f s = (done tt, f s)

abbrev pub emit : Effect → Action (Unit {0})
emit e = modify (λ s. record s { effects = s.effects ++ (e ∷ []) })

abbrev pub when : Bool → Action (Unit {0}) → Action (Unit {0})
when true m = m
when false m = pure tt

-- a method of a repository: one answer of the database
abbrev pub answer : {A : Type 0} → (Tables → A × Tables) → List Reply → Action A
answer q [] s = let (a, t) = q s.tables in (done a, record s { tables = t })
answer q (fine ∷ rest) s =
    let (a, t) = q s.tables in (done a, record s { tables = t; replies = rest })
answer q (broken ∷ rest) s = (raised other, record s { replies = rest })
answer q (conflict ∷ rest) s = (raised duplicate_score, record s { replies = rest })

unfoldable pub query : {A : Type 0} → (Tables → A × Tables) → Action A
query q s = answer q s.replies s

-- `dict[mode] = v`
unfoldable pub at_mode : {A : Type 0} → (GameMode → A) → GameMode → A → GameMode → A
at_mode f m v n = if value m == value n then v else f n

unfoldable pub at_player : (ℕ → Account) → ℕ → Account → ℕ → Account
at_player f u p v = if u == v then p else f v

unfoldable pub at_map : (Str → Counts) → Str → Counts → Str → Counts
at_map f m c n = if eq_str m n then c else f n

-- an assignment to attributes of the player of the score
abbrev pub on_player : (Account → Account) → Action (Unit {0})
on_player f =
    modify (λ s. record s {
      players = at_player s.players s.score.player (f (s.players s.score.player));
    })

abbrev pub set_stats : GameMode → ModeData → Account → Account
set_stats m d p = record p { stats = at_mode p.stats m (some d) }
