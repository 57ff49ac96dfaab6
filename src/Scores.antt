-- ===== src/Scores.antt =====
-- The words of a score: `Grade` of app/objects/score.py, `SubmissionStatus` of
-- app/constants/score_statuses.py, and Python's floats, which are parameters.
pub mod Table
pub mod Play
use eunga_py.Prelude.{ℕ, Bool, Option, none, some, List, [], ◌∷◌, leb, ◌==◌, if◌then◌else◌}
use eunga_py.Prelude.Int.{ℤ}
use eunga_py.Prelude.Text.{Str, codes, eq_str}

pub data Grade : Type 0 where
  n f d c b a s sh x xh : Grade

-- the value of the `IntEnum`
unfoldable pub grade_value : Grade → ℕ
grade_value n = 0
grade_value f = 1
grade_value d = 2
grade_value c = 3
grade_value b = 4
grade_value a = 5
grade_value s = 6
grade_value sh = 7
grade_value x = 8
grade_value xh = 9

abbrev pub eq_grade : Grade → Grade → Bool
unfolding grade_value
eq_grade g h = grade_value g == grade_value h

-- `grade >= Grade.A`
abbrev pub counted : Grade → Bool
unfolding grade_value
counted g = leb 5 (grade_value g)

-- `grade.name`
unfoldable pub grade_name : Grade → Str
grade_name n = codes "N"
grade_name f = codes "F"
grade_name d = codes "D"
grade_name c = codes "C"
grade_name b = codes "B"
grade_name a = codes "A"
grade_name s = codes "S"
grade_name sh = codes "SH"
grade_name x = codes "X"
grade_name xh = codes "XH"

abbrev find_grade : Str → List (Str × Grade) → Option Grade
find_grade key [] = none
find_grade key ((k, g) ∷ l) = let later = find_grade key l in if eq_str k key then some g else later

-- `Grade.from_str` behind `s.lower()`, a KeyError for any other text
unfoldable pub from_lower : Str → Option Grade
from_lower t = find_grade t (
    (codes "xh", xh)
    ∷ (codes "x", x)
    ∷ (codes "sh", sh)
    ∷ (codes "s", s)
    ∷ (codes "a", a)
    ∷ (codes "b", b)
    ∷ (codes "c", c)
    ∷ (codes "d", d)
    ∷ (codes "f", f)
    ∷ (codes "n", n)
    ∷ [])

pub data SubmissionStatus : Type 0 where
  failed submitted best : SubmissionStatus

unfoldable pub submission_value : SubmissionStatus → ℕ
submission_value failed = 0
submission_value submitted = 1
submission_value best = 2

-- `SubmissionStatus(n)`, a ValueError for any other number
unfoldable pub submission_of : ℕ → Option SubmissionStatus
submission_of k =
    if k == 0
    then some failed
    else if k == 1
    then some submitted
    else if k == 2
    then some best
    else none

abbrev pub Float : Type 0
Float = ℕ

-- The arithmetic of Python's floats on their bit patterns. `decimal k e` is the literal whose digits are
-- `k` with `e` of them behind the point; `div` is `none` for a ZeroDivisionError, `round` for a number
-- that is not finite; `column` is what a column of the type FLOAT(6, 3) keeps of a float.
pub record Floats : Type 0 where
  pub of_int : ℤ → Float
  pub decimal : ℕ → ℕ → Float
  pub add : Float → Float → Float
  pub sub : Float → Float → Float
  pub mul : Float → Float → Float
  pub pow : Float → ℕ → Float
  pub div : Float → Float → Option Float
  pub gt : Float → Float → Bool
  pub round : Float → Option ℤ
  pub column : Float → Float
