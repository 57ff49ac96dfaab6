-- ===== src/Scores/Table.antt =====
-- The table `scores` and the statements of `ScoresRepository` (app/repositories/scores.py) that a
-- submission runs: an SQL statement is the function on the rows that it denotes. A FLOAT column keeps
-- `column` of what is stored. The rows come in the order of their ids.
pub mod Best
pub mod Sums
use eunga_py.Prelude.{
  ℕ, ◌+◌, Bool, true, false, ◌&&◌, Option, none, some, List, [], ◌∷◌, ◌++◌, map, any, ◌==◌,
  if◌then◌else◌,
}
use eunga_py.Prelude.Int.{ℤ}
use eunga_py.Prelude.Text.{Str, eq_str}
use eunga_py.Mods.{Mods}
use eunga_py.Scores.{Float}

-- `ScoresTable`; a column that a submission only writes is among the others
pub record Row : Type 0 where
  pub id : ℕ
  pub map_md5 : Str
  pub score : ℤ
  pub pp : Float
  pub acc : Float
  pub max_combo : ℤ
  pub mods : Mods
  pub n300 : ℤ
  pub n100 : ℤ
  pub n50 : ℤ
  pub nmiss : ℤ
  pub ngeki : ℤ
  pub nkatu : ℤ
  pub grade : Str
  pub status : ℕ
  pub mode : ℕ
  pub time_elapsed : ℤ
  pub userid : ℕ
  pub perfect : Bool
  pub online_checksum : Str

pub record Rows : Type 0 where
  pub list : List Row
  pub next_id : ℕ

-- a map, a user and a mode
pub record Key : Type 0 where
  pub map_md5 : Str
  pub user : ℕ
  pub mode : ℕ

-- `status == BEST`, `map_md5`, `userid` and `mode` of the WHERE clauses
unfoldable pub is_best : Key → Row → Bool
is_best k r =
    r.status == 2 && (eq_str r.map_md5 k.map_md5 && (r.userid == k.user && r.mode == k.mode))

abbrev pub select : (Row → Bool) → List Row → List Row
select p [] = []
select p (r ∷ l) = if p r then r ∷ select p l else select p l

abbrev pub first : (Row → Bool) → List Row → Option Row
first p [] = none
first p (r ∷ l) = let later = first p l in if p r then some r else later

-- `fetch_many` with a map, a user, a mode and the status BEST, hidden players included
unfoldable pub fetch_best : Key → List Row → List Row
fetch_best k rows = select (is_best k) rows

unfoldable pub fetch_one : ℕ → List Row → Option Row
fetch_one i rows = first (λ r. r.id == i) rows

unfoldable pub fetch_one_by_online_checksum : Str → List Row → Option Row
fetch_one_by_online_checksum c rows = first (λ r. eq_str r.online_checksum c) rows

-- one row under the UPDATE of `mark_previous_best_scores_submitted`
unfoldable pub demote : Key → Row → Row
demote k r = if is_best k r then record r { status = 1 } else r

unfoldable pub mark_previous_best_scores_submitted : Key → List Row → List Row
mark_previous_best_scores_submitted k rows = map (demote k) rows

-- the INSERT of `create`: the row gets the next id, which is the answer
unfoldable pub create : Row → Rows → ℕ × Rows
create r rows = (
  rows.next_id,
  record { list = rows.list ++ (record r { id = rows.next_id } ∷ []); next_id = rows.next_id + 1 },
)

pub record Performance : Type 0 where
  pub pp : Float
  pub acc : Float

-- `fetch_weighted_best_performances`: `known` are the MD5s of the table of maps, of which every status is
-- taken, and `by_pp` is the database's ORDER BY
unfoldable pub fetch_weighted_best_performances :
    (List Performance → List Performance) → List Str → ℕ → ℕ → List Row → List Performance
fetch_weighted_best_performances by_pp known user mode rows = by_pp (
    map (λ r. record { pp = r.pp; acc = r.acc })
      (select
        (λ r.
          any (eq_str r.map_md5) known && (r.userid == user && (r.mode == mode && r.status == 2)))
        rows))
