-- ===== src/Submission/Whole.antt =====
-- `persist_score_submission` of app/services/score_submission.py where it ends.
use eunga_py.Prelude.{◌≡◌, Bool, true, ◌&&◌, some, List, [], ◌∷◌, ◌++◌}
use eunga_py.Scores.{Floats}
use eunga_py.Scores.Table.{Row}
use eunga_py.Scores.Play.{Score, has_leaderboard}
use eunga_py.Submission.{ModeData, Tables, State, Result, done, raised, ◌>>=◌}
use eunga_py.Submission.Keeps.{IsOfScores, pure-Keeps}
use eunga_py.Submission.Ends.{Ends, Keeps-Ends, or_raise-Ends, get-Ends, bind-Ends}
use eunga_py.Submission.Stats.{is_personal_best}
use eunga_py.Submission.Totals.{Moves}
use eunga_py.Submission.Grades.{HasGrades}
use eunga_py.Submission.Steps.{unlock_if-Keeps, first_place_if-Keeps}
use eunga_py.Submission.Added.{At, At-of_scores, Inserted, marked, persist_submitted_score-Ends}
use eunga_py.Submission.Counted.{persist_score_submission_stats-Ends}
use eunga_py.Submission.Persist.{Server}
use eunga_py.Submission.Transaction.{
  Snapshot, restoring, roll_back, transaction, or_restore, restore_score_submission_state,
  in_transaction, persist_score_submission, persist_score_submission_stats,
}

committed :
    {A : Type 0} (before : Tables) (sn : Snapshot) (r : Result A) (s : State) (a : A) (t : State)
    → restoring sn (roll_back before (r, s)) ≡ (done a, t)
    → ◌≡◌ {A = Result A × State} (r, s) (done a, t)
unfolding ◌>>=◌ restore_score_submission_state
committed before sn (done v) s a t e = e
committed before sn (raised x) s a t e = absurd (cc)

module _ (server : Server) (z : Score) (b : Bool) (personal : is_personal_best z ≡ some b)
    (passed : z.passed ≡ true) (l : List Row) (d0 : ModeData) (has : HasGrades d0) where
  abbrev floats : Floats
  floats = server.python.floats

  abbrev Start : State → Type 0
  Start = At z l (λ d. d ≡ d0)

  abbrev Moved : ModeData → Type 0
  Moved d = Moves (has_leaderboard z.bmap && b) z d0 d

  abbrev Final : State → Type 0
  Final = Inserted z floats b l Moved

  Final-of_scores : IsOfScores Final
  Final-of_scores = record {
    drop = λ s r p.
        let k = marked z b l ++ (record p.row { id = p.id } ∷ []) in
        record {
          row = p.row;
          id = p.id;
          of_score = p.of_score;
          at = (At-of_scores z k Moved).drop s r p.at;
        };
    others = λ s t e p.
        let k = marked z b l ++ (record p.row { id = p.id } ∷ []) in
        record {
          row = p.row;
          id = p.id;
          of_score = p.of_score;
          at = (At-of_scores z k Moved).others s t e p.at;
        };
  }

  stats-Ends :
      Ends (Inserted z floats b l (λ d. d ≡ d0)) Final (persist_score_submission_stats server)
  stats-Ends = record {
    apply = λ s p a t e.
        let k = marked z b l ++ (record p.row { id = p.id } ∷ []) in
        record {
          row = p.row;
          id = p.id;
          of_score = p.of_score;
          at =
              (persist_score_submission_stats-Ends z k b personal passed d0 has server).apply s p.at
                a t e;
        };
  }

  in_transaction-Ends : Ends Start Final (in_transaction server)
  unfolding in_transaction
  in_transaction-Ends = get-Ends _ λ st p. or_raise-Ends _ _ λ announce q.
      bind-Ends _ _
        (Keeps-Ends (first_place_if-Keeps server (At-of_scores z l (λ d. d ≡ d0)) announce st.score)
          (λ s r. r))
        λ first.
          bind-Ends _ _ (persist_submitted_score-Ends z floats b personal l (λ d. d ≡ d0)) λ id.
            bind-Ends _ _ stats-Ends λ stats. get-Ends _ λ t r.
              bind-Ends _ _ (Keeps-Ends (unlock_if-Keeps server Final-of_scores _) (λ s q. q))
                λ unlocked. Keeps-Ends (pure-Keeps _) (λ s q. q)

  -- If it ends, the row of the score is in the table and the statistics have moved.
  pub persist_score_submission-Ends : Ends Start Final (persist_score_submission server)
  unfolding persist_score_submission or_restore transaction
  persist_score_submission-Ends = get-Ends _ λ st p. or_raise-Ends _ _ λ sn q. record {
    apply = λ s r a t e.
        in_transaction-Ends.apply s r a t
          (committed s.tables sn (in_transaction server s).0 (in_transaction server s).1 a t e);
  }
