-- ===== src/Submission/Stats.antt =====
-- How a score changes the statistics of its player: the functions of
-- app/services/score_submission.py from `apply_score_base_stats` to `apply_weighted_performance_stats`.
-- An exception leaves nothing of them, since the service restores the statistics.
use eunga_py.Prelude.{
  ℕ, ◌+◌, ◌/◌, Bool, true, false, not, ◌&&◌, ◌||◌, Option, none, some, List, [], ◌∷◌, length, ◌==◌,
  if◌then◌else◌,
}
use eunga_py.Prelude.Int.{ℤ, pos, negsuc, ◌+ℤ◌, ◌-ℤ◌, lt_ℤ}
use eunga_py.Prelude.Options.{◌>>=◌}
use eunga_py.GameMode.{as_vanilla}
use eunga_py.Scores.{Grade, xh, x, sh, s, a, eq_grade, counted, best, Float, Floats}
use eunga_py.Scores.Table.{Performance}
use eunga_py.Scores.Play.{Score, Previous, has_leaderboard, awards_ranked_pp}
use eunga_py.Submission.{ModeData}

-- `ScoreStatsUpdates`, with `none` for a key that is not required and is missing
pub record Updates : Type 0 where
  pub plays : ℤ
  pub playtime : ℤ
  pub tscore : ℤ
  pub total_hits : ℤ
  pub max_combo : Option ℤ
  pub xh_count : Option ℤ
  pub x_count : Option ℤ
  pub sh_count : Option ℤ
  pub s_count : Option ℤ
  pub a_count : Option ℤ
  pub rscore : Option ℤ
  pub acc : Option Float
  pub pp : Option ℤ

-- `n // 1000`
abbrev pub thousands : ℤ → ℤ
thousands (pos n) = pos (n / 1000)
thousands (negsuc n) = negsuc (n / 1000)

unfoldable pub base_with : Score → ModeData → ℤ → ModeData × Updates
base_with score stats time =
    let mode_vn = as_vanilla score.mode in
    let hits = stats.total_hits +ℤ (score.n300 +ℤ score.n100 +ℤ score.n50) in
    let big = hits +ℤ (score.ngeki +ℤ score.nkatu) in
    let total_hits = if mode_vn == 1 || mode_vn == 3 then big else hits in
    let plays = stats.plays +ℤ pos 1 in
    let playtime = stats.playtime +ℤ thousands time in
    let tscore = stats.tscore +ℤ score.score in
    (
      record stats { playtime = playtime; plays = plays; tscore = tscore; total_hits = total_hits },
      record {
        plays = plays;
        playtime = playtime;
        tscore = tscore;
        total_hits = total_hits;
        max_combo = none;
        xh_count = none;
        x_count = none;
        sh_count = none;
        s_count = none;
        a_count = none;
        rscore = none;
        acc = none;
        pp = none;
      },
    )

-- an AttributeError without the time
unfoldable pub apply_score_base_stats : Score → ModeData → Option (ModeData × Updates)
apply_score_base_stats score stats =
    score.time_elapsed >>= λ time. some (base_with score stats time)

unfoldable pub ranked_score_delta : Score → ℤ
ranked_score_delta score = elim score.prev_best [
  | none ↦ score.score
  | some prev ↦ score.score -ℤ prev.score
]

-- dictionaries from grades, in the order of insertion
abbrev pub grade_get : Grade → List (Grade × ℤ) → ℤ
grade_get g [] = pos 0
grade_get g ((h, k) ∷ l) = let later = grade_get g l in if eq_grade h g then k else later

abbrev pub grade_set : Grade → ℤ → List (Grade × ℤ) → List (Grade × ℤ)
grade_set g v [] = (g, v) ∷ []
grade_set g v ((h, k) ∷ l) =
    let later = grade_set g v l in if eq_grade h g then (h, v) ∷ l else (h, k) ∷ later

-- the deltas for a grade and the score before
unfoldable pub grade_deltas : Grade → Option Previous → List (Grade × ℤ)
grade_deltas grade none = if counted grade then (grade, pos 1) ∷ [] else []
grade_deltas grade (some prev) =
    let deltas = if counted grade then (grade, pos 1) ∷ [] else [] in
    if eq_grade grade prev.grade
    then []
    else if counted prev.grade
    then grade_set prev.grade (grade_get prev.grade deltas -ℤ pos 1) deltas
    else deltas

unfoldable pub grade_count_deltas : Score → List (Grade × ℤ)
grade_count_deltas score = grade_deltas score.grade score.prev_best

-- a ValueError for a grade below A
unfoldable pub set_grade_count_update : Updates → Grade → ℤ → Option Updates
set_grade_count_update updates xh v = some (record updates { xh_count = some v })
set_grade_count_update updates x v = some (record updates { x_count = some v })
set_grade_count_update updates sh v = some (record updates { sh_count = some v })
set_grade_count_update updates s v = some (record updates { s_count = some v })
set_grade_count_update updates a v = some (record updates { a_count = some v })
set_grade_count_update updates _ v = none

unfoldable pub at_grade : (Grade → Option ℤ) → Grade → ℤ → Grade → Option ℤ
at_grade f g v h = if eq_grade g h then some v else f h

-- the loop of `apply_ranked_score_stats` over the deltas
unfoldable pub apply_deltas : List (Grade × ℤ) → ModeData → Updates → Option (ModeData × Updates)
apply_deltas [] stats updates = some (stats, updates)
apply_deltas ((grade, delta) ∷ rest) stats updates = do
  old ← stats.grades grade
  updates' ← set_grade_count_update updates grade (old +ℤ delta)
  apply_deltas rest (record stats { grades = at_grade stats.grades grade (old +ℤ delta) }) updates'

unfoldable pub apply_ranked_score_stats : Score → ModeData → Updates → Option (ModeData × Updates)
apply_ranked_score_stats score stats updates = do
  (stats', updates') ← apply_deltas (grade_count_deltas score) stats updates
  let rscore = stats'.rscore +ℤ ranked_score_delta score
  some (record stats' { rscore = rscore }, record updates' { rscore = some rscore })

-- the status, whose lack is an AttributeError, is BEST
unfoldable pub is_personal_best : Score → Option Bool
is_personal_best score = do status ← score.status; some (elim status [ best ↦ true | _ ↦ false ])

-- `apply_score_stats` on a map with a leaderboard, behind the combo
unfoldable pub apply_best : Score → ModeData → Updates → Option (ModeData × Updates)
apply_best score stats updates = is_personal_best score >>= λ personal.
    if awards_ranked_pp score.bmap && personal
    then apply_ranked_score_stats score stats updates
    else some (stats, updates)

-- the part of `apply_score_stats` behind the base
unfoldable pub apply_passed : Score → ModeData → Updates → Option (ModeData × Updates)
apply_passed score stats updates =
    let longer = lt_ℤ stats.max_combo score.max_combo in
    let stats' = if longer then record stats { max_combo = score.max_combo } else stats in
    let updates' =
      if longer then record updates { max_combo = some score.max_combo } else updates in
    if not (has_leaderboard score.bmap)
    then some (stats', updates')
    else apply_best score stats' updates'

unfoldable pub apply_score_stats : Score → ModeData → Option (ModeData × Updates)
apply_score_stats score stats = apply_score_base_stats score stats >>= λ both.
    if not score.passed then some both else apply_passed score both.0 both.1

module _ (floats : Floats) where
  open floats use {of_int, decimal, add, sub, mul, pow, div, round}

  -- `sum(row.acc * 0.95**i for i, row in enumerate(rows))` from index `i` on, and the same of `pp`
  unfoldable pub weighted_sum : (Performance → Float) → ℕ → Float → List Performance → Float
  weighted_sum of i total [] = total
  weighted_sum of i total (row ∷ rows) =
      weighted_sum of (i + 1) (add total (mul (of row) (pow (decimal 95 2) i))) rows

  unfoldable pub calculate_weighted_accuracy : List Performance → Option Float
  calculate_weighted_accuracy rows = do
    let weighted_acc = weighted_sum (λ r. r.acc) 0 (of_int (pos 0)) rows
    bonus_acc ←
        div (decimal 1000 1)
          (mul (of_int (pos 20)) (sub (of_int (pos 1)) (pow (decimal 95 2) (length rows))))
    div (mul weighted_acc bonus_acc) (of_int (pos 100))

  unfoldable pub calculate_weighted_pp : List Performance → Option ℤ
  calculate_weighted_pp rows =
      let weighted_pp = weighted_sum (λ r. r.pp) 0 (of_int (pos 0)) rows in
      let bonus_pp =
        mul (decimal 4166667 4) (sub (of_int (pos 1)) (pow (decimal 9994 4) (length rows))) in
      round (add weighted_pp bonus_pp)

  unfoldable pub apply_weighted_performance_stats :
      List Performance → ModeData → Updates → Option (ModeData × Updates)
  apply_weighted_performance_stats rows stats updates = do
    acc ← calculate_weighted_accuracy rows
    pp ← calculate_weighted_pp rows
    some (record stats { acc = acc; pp = pp }, record updates { acc = some acc; pp = some pp })
