-- ===== src/Examples/Submission.antt =====
-- The theorems on score submission at concrete inputs.
use eunga_py.Prelude.{false, ◌≡◌, refl, true, none, some, [], ◌∷◌, arith}
use eunga_py.Prelude.Int.{ℤ, pos, ◌+ℤ◌, ◌-ℤ◌}
use eunga_py.GameMode.{GameMode, vanilla_mania}
use eunga_py.Scores.{Grade, s, sh, counted, Floats, SubmissionStatus, best}
use eunga_py.Scores.Table.{fetch_best}
use eunga_py.Scores.Table.Best.{OneBest}
use eunga_py.Scores.Play.{Score, Beatmap, Previous, Python}
use eunga_py.Submission.{
  ModeData, Account, Counts, State, fine, broken, raised, done, other, at_player, at_mode, query,
  ◌>>=◌,
}
use eunga_py.Submission.Stats.{Updates, apply_ranked_score_stats, ranked_score_delta}
use eunga_py.Submission.Persist.{Server}
use eunga_py.Submission.Transaction.{Outcome, persist_score_submission}
use eunga_py.Scores.Table.Sums.{held, sum_if}
use eunga_py.Submission.Reflects.{of_grade, Reflects, persist_score_submission-Reflects}
use eunga_py.Submission.Runs.{run, run-OneBest}
use eunga_py.Submission.Restored.{persist_score_submission-raises}
use eunga_py.Submission.Grades.{
  prev_score, HasGrades, one_at, one_prev, apply_ranked_score_stats-counts,
}
use eunga_py.Examples.Plays.{
  server, services, request, old_stats, play, before, old_row, one_score, with_one,
}

before-OneBest : OneBest before.tables.scores.list
unfolding fetch_best
before-OneBest = record { one = λ k. omega arith }

run-OneBest_example :
    OneBest (run ((services, request) ∷ (services, request) ∷ []) before).tables.scores.list
run-OneBest_example =
    run-OneBest ((services, request) ∷ (services, request) ∷ []) before before-OneBest

abbrev stored : State
stored = (persist_score_submission server with_one).1

abbrev after : State
after = (persist_score_submission server before).1

runs :
    (persist_score_submission server before ≡ (raised other, after))
    × ((o : Outcome) × (persist_score_submission server with_one ≡ (done o, stored)))
unfolding persist_score_submission ◌>>=◌
    eunga_py.Submission.Transaction.capture_score_submission_state
    eunga_py.Submission.Transaction.or_restore eunga_py.Submission.Transaction.transaction
    eunga_py.Submission.Transaction.in_transaction
    eunga_py.Submission.Persist.score_should_announce_first_place
    eunga_py.Submission.Stats.base_with eunga_py.Submission.Stats.is_personal_best
    eunga_py.Scores.Play.has_leaderboard eunga_py.Submission.restricted query
    eunga_py.Submission.Persist.persist_submitted_score eunga_py.Submission.Persist.row_of
    eunga_py.Submission.Transaction.persist_score_submission_stats
    eunga_py.Submission.Stats.apply_score_stats eunga_py.Submission.Stats.apply_score_base_stats
    eunga_py.Submission.Stats.apply_passed eunga_py.Submission.Stats.apply_best
    eunga_py.GameMode.as_vanilla eunga_py.GameMode.value ◌+ℤ◌ ◌-ℤ◌
    eunga_py.Scores.Play.awards_ranked_pp eunga_py.Scores.Play.key_of eunga_py.Scores.Table.create
    eunga_py.Scores.Table.fetch_weighted_best_performances
    eunga_py.Scores.Table.mark_previous_best_scores_submitted eunga_py.Scores.grade_name
    eunga_py.Scores.submission_value eunga_py.Submission.Persist.fetch_first_place_score
    eunga_py.Submission.Persist.mark_rows eunga_py.Submission.Persist.ranks_by_pp
    eunga_py.Submission.Persist.row_with eunga_py.Submission.Persist.update_stats
    eunga_py.Submission.Stats.apply_deltas apply_ranked_score_stats
    eunga_py.Submission.Stats.apply_weighted_performance_stats eunga_py.Submission.Stats.at_grade
    eunga_py.Submission.Stats.calculate_weighted_accuracy
    eunga_py.Submission.Stats.calculate_weighted_pp eunga_py.Submission.Stats.grade_count_deltas
    eunga_py.Submission.Stats.grade_deltas ranked_score_delta
    eunga_py.Submission.Stats.set_grade_count_update eunga_py.Submission.Stats.weighted_sum
    eunga_py.Submission.Transaction.is_weighted
    eunga_py.Submission.Transaction.restore_score_submission_state eunga_py.Scores.grade_value
    eunga_py.Submission.Transaction.score_can_unlock_achievements at_player at_mode
    eunga_py.Submission.Transaction.unlock_new_achievements eunga_py.Submission.Transaction.unlock
runs = (refl, (_, refl))

persist_score_submission-raises_example :
    (after.tables ≡ before.tables)
    × (after.players ≡ before.players)
    × (after.maps ≡ before.maps)
    × (after.score ≡ before.score)
    × (after.effects ≡ before.effects)
persist_score_submission-raises_example =
    persist_score_submission-raises server before other after runs.0

abbrev no_updates : Updates
no_updates = record {
  plays = pos 4;
  playtime = pos 260;
  tscore = pos 590;
  total_hits = pos 109;
  max_combo = none;
  xh_count = none;
  x_count = none;
  sh_count = none;
  s_count = none;
  a_count = none;
  rscore = none;
  acc = none;
  pp = none;
}

old_stats-HasGrades : HasGrades old_stats
old_stats-HasGrades g h = (pos 1, refl)

apply_ranked_score_stats-counts_example :
    (stats' : ModeData) × (u' : Updates) × (apply_ranked_score_stats play old_stats no_updates
      ≡ some (stats', u'))
    × (stats' ≡ record old_stats {
      rscore = old_stats.rscore +ℤ (play.score -ℤ prev_score play.prev_best);
      grades = stats'.grades;
    })
    × ((g : Grade)
        → counted g ≡ true
        → (old : ℤ) → old_stats.grades g ≡ some old
        → stats'.grades g ≡ some (old +ℤ (one_at play.grade g -ℤ one_prev play.prev_best g)))
    × ((g : Grade) → counted g ≡ false → stats'.grades g ≡ old_stats.grades g)
apply_ranked_score_stats-counts_example =
    apply_ranked_score_stats-counts play old_stats no_updates old_stats-HasGrades

with_one_grades :
    (g : Grade)
    → one_score.grades g ≡ some (sum_if (held (λ md5. true) 7 3) (of_grade g) (old_row ∷ []))
unfolding held eunga_py.Scores.grade_name ◌+ℤ◌
with_one_grades sh = refl
with_one_grades _ = refl

with_one-Reflects : Reflects (λ md5. true) 7 3 (old_row ∷ []) one_score
unfolding held eunga_py.Scores.grade_name ◌+ℤ◌
with_one-Reflects = record { rscore = refl; grades = λ g h. with_one_grades g }

persist_score_submission-Reflects_example :
    (stats' : ModeData) × ((stored.players 7).stats vanilla_mania ≡ some stats')
    × Reflects (λ md5. true) 7 3 stored.tables.scores.list stats'
unfolding eunga_py.GameMode.value eunga_py.Submission.Stats.is_personal_best fetch_best
    eunga_py.Scores.Table.is_best eunga_py.Scores.Play.key_of eunga_py.Scores.Play.has_leaderboard
    eunga_py.Scores.grade_name
persist_score_submission-Reflects_example =
    persist_score_submission-Reflects server (λ md5. true) with_one one_score refl with_one-Reflects
      true refl (refl, refl) refl refl runs.1.0 stored runs.1.1
