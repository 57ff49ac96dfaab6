-- ===== src/Submission/Runs.antt =====
-- Runs of `submit_score` of app/services/score_submission.py, and the table `scores` under them.
use mathlib.Core.Path.{subst}
use eunga_py.Prelude.{
  ℕ, refl, sym, Bool, true, false, Option, none, some, List, [], ◌∷◌, ◌==◌, if◌then◌else◌,
}
use eunga_py.Prelude.Text.{Str}
use eunga_py.GameMode.{value}
use eunga_py.Scores.Table.{Rows}
use eunga_py.Scores.Table.Best.{OneBest}
use eunga_py.Scores.Play.{Score, Beatmap}
use eunga_py.Submission.{
  State, Tables, duplicate_score, other, Action, Result, done, raised, raise, emit, query, ◌>>=◌,
  announced,
}
use eunga_py.Submission.Keeps.{
  Keeps, IsOfScores, pure-Keeps, or_raise-Keeps, bind-Keeps, get-Keeps, modify-Keeps, when-Keeps,
  other-Keeps,
}
use eunga_py.Submission.Steps.{in_transaction-Keeps}
use eunga_py.Submission.Checks.{Request}
use eunga_py.Submission.Persist.{Server, reading}
use eunga_py.Submission.Transaction.{
  Outcome, Snapshot, restoring, roll_back, transaction, or_restore, restore_score_submission_state,
  in_transaction, persist_score_submission,
}
use eunga_py.Submission.Submit.{
  Services, update_submitter_status_mode, restrict_player_for_missing_replay, judge_passed,
  judge_available, calculate_score_submission_status, check_replay,
  notify_score_submitter_of_personal_best,
}
use eunga_py.Submission.Service.{
  announce_first_place, tell_loser, enter_rank, finish, finish_or_refuse, persist_and_finish,
  submit_new, duplicate_or_new, submit_checked, submit_built, with_player, with_beatmap,
  submit_score,
}
use eunga_py.Submission.Best.{OneBestIn, persist_submitted_score-OneBest}

-- submissions one after another, each with what it asks of the services
unfoldable pub run : List (Services × Request) → State → State
run [] s = s
run ((srv, request) ∷ l) s = run l (submit_score srv request s).1

of_scores : IsOfScores OneBestIn
of_scores = record {
  drop = λ s r p. p;
  others = λ s t e p. subst (λ (w : Rows). OneBest w.list) (sym e) p;
}

back :
    {A : Type 0} (st : State) (sn : Snapshot)
    → OneBestIn st
    → (r : Result A) (s : State) → OneBestIn s
    → OneBestIn (restoring sn (roll_back st.tables (r, s))).1
unfolding ◌>>=◌ restore_score_submission_state
back st sn p (done v) s q = q
back st sn p (raised e) s q = p

-- the transaction, which leads back where it raises
persist_score_submission-OneBest :
    (server : Server) → Keeps OneBestIn (persist_score_submission server)
unfolding persist_score_submission or_restore transaction
persist_score_submission-OneBest server =
    let inside =
      in_transaction-Keeps server of_scores (λ s c p. p) (λ t p d. modify-Keeps _ (λ s q. q))
        (persist_submitted_score-OneBest server.python.floats) in
    get-Keeps _ λ t p. bind-Keeps _ _ (or_raise-Keeps _) λ sn. record {
      apply = λ s q.
          back s sn q (in_transaction server s).0 (in_transaction server s).1 (inside.apply s q);
    }

-- a statement that only reads
read : {A : Type 0} (f : Tables → A) → Keeps OneBestIn (query (reading f))
read f = other-Keeps of_scores (reading f) (λ t. refl)

choose :
    {A : Type 0} (b : Bool) (m k : Action A)
    → Keeps OneBestIn m
    → Keeps OneBestIn k
    → Keeps OneBestIn (if b then m else k)
choose true m k p q = p
choose false m k p q = q

update_submitter_status_mode-OneBest : Keeps OneBestIn update_submitter_status_mode
unfolding update_submitter_status_mode
update_submitter_status_mode-OneBest = get-Keeps _ λ t p.
    bind-Keeps _ _ (when-Keeps _ _ (modify-Keeps _ (λ s p. p)))
      λ _. when-Keeps _ _ (modify-Keeps _ (λ s p. p))

restrict-OneBest : Keeps OneBestIn restrict_player_for_missing_replay
unfolding restrict_player_for_missing_replay
restrict-OneBest = get-Keeps _ λ t p.
    bind-Keeps _ _ (when-Keeps _ _ (modify-Keeps _ (λ s p. p))) λ _.
      bind-Keeps _ _ (when-Keeps _ _ (modify-Keeps _ (λ s p. p))) λ _.
        bind-Keeps _ _ (when-Keeps _ _ (modify-Keeps _ (λ s p. p)))
          λ _. when-Keeps _ _ (modify-Keeps _ (λ s p. p))

module _ (srv : Services) where
  judge_passed-OneBest : (b : Bool) → Keeps OneBestIn (judge_passed srv b)
  judge_passed-OneBest false = modify-Keeps _ (λ s p. p)
  judge_passed-OneBest true = get-Keeps _ λ t p. bind-Keeps _ _ (read _) λ rows.
      bind-Keeps _ _ (or_raise-Keeps _) λ judged. bind-Keeps _ _ (modify-Keeps _ (λ s p. p)) λ _.
        when-Keeps _ _ (
          bind-Keeps _ _ (read _)
            λ all. bind-Keeps _ _ (or_raise-Keeps _) λ place. modify-Keeps _ (λ s p. p))

  judge_available-OneBest : (b : Bool) → Keeps OneBestIn (judge_available srv b)
  judge_available-OneBest false = pure-Keeps tt
  judge_available-OneBest true = get-Keeps _ λ t p.
      bind-Keeps _ _ (or_raise-Keeps _)
        λ both. bind-Keeps _ _ (modify-Keeps _ (λ s p. p)) λ _. judge_passed-OneBest t.score.passed

  calculate-OneBest :
      (request : Request) → Keeps OneBestIn (calculate_score_submission_status srv request)
  unfolding calculate_score_submission_status
  calculate-OneBest request = get-Keeps _ λ t p. bind-Keeps _ _ (or_raise-Keeps _) λ acc.
      bind-Keeps _ _ (modify-Keeps _ (λ s p. p))
        λ _. bind-Keeps _ _ (judge_available-OneBest _) λ _. modify-Keeps _ (λ s p. p)

  check_replay-OneBest : (b : Bool) (l : List ℕ) → Keeps OneBestIn (check_replay srv b l)
  check_replay-OneBest false l = pure-Keeps false
  check_replay-OneBest true l = bind-Keeps _ _ (when-Keeps _ _ restrict-OneBest) λ _. pure-Keeps _

  notify-OneBest : (s : Score) → Keeps OneBestIn (notify_score_submitter_of_personal_best srv s)
  unfolding notify_score_submitter_of_personal_best
  notify-OneBest s =
      choose _ _ _ (bind-Keeps _ _ (or_raise-Keeps _) λ text. modify-Keeps _ (λ s p. p))
        (pure-Keeps tt)

  announce-OneBest : (first : Option ℕ) → Keeps OneBestIn (announce_first_place srv first)
  unfolding announce_first_place
  announce-OneBest first = get-Keeps _ λ t p. bind-Keeps _ _ (or_raise-Keeps _) λ announces.
      choose _ _ _
        (bind-Keeps _ _ (or_raise-Keeps _) λ text.
          choose srv.has_announce_channel (emit (announced text)) (raise other)
            (modify-Keeps _ (λ s p. p)) (record { apply = λ s p. p }))
        (pure-Keeps tt)

  tell_loser-OneBest : (s : Score) (first : Option ℕ) → Keeps OneBestIn (tell_loser srv s first)
  tell_loser-OneBest s none = pure-Keeps tt
  tell_loser-OneBest s (some prev) =
      when-Keeps _ _ (bind-Keeps _ _ (read _) λ _. modify-Keeps _ (λ s p. p))

  enter_rank-OneBest :
      (b : Bool) (s : Score) (o : Outcome) → Keeps OneBestIn (enter_rank srv b s o.stats)
  enter_rank-OneBest false s o = pure-Keeps tt
  enter_rank-OneBest true s o = get-Keeps _ λ t p.
      bind-Keeps _ _ (when-Keeps _ _ (modify-Keeps _ (λ s p. p))) λ _. modify-Keeps _ (λ s p. p)

  finish-OneBest : (keeps : Bool) (o : Outcome) → Keeps OneBestIn (finish srv keeps o)
  unfolding finish
  finish-OneBest keeps o = get-Keeps _ λ t p.
      bind-Keeps _ _ (when-Keeps _ _ (modify-Keeps _ (λ s p. p))) λ _.
        bind-Keeps _ _ (enter_rank-OneBest _ t.score o) λ _.
          bind-Keeps _ _ (when-Keeps _ _ (modify-Keeps _ (λ s p. p))) λ _.
            bind-Keeps _ _ (modify-Keeps _ (λ s p. p)) λ _.
              bind-Keeps _ _ (or_raise-Keeps _) λ personal.
                bind-Keeps _ _
                  (when-Keeps _ _ (
                    bind-Keeps _ _
                      (bind-Keeps _ _ (notify-OneBest t.score)
                        λ _. announce-OneBest o.previous_first_place)
                      λ _. tell_loser-OneBest t.score o.previous_first_place))
                  λ _. pure-Keeps _

  finished :
      (keeps : Bool) (r : Result Outcome) (s : State)
      → OneBestIn s
      → OneBestIn (finish_or_refuse srv keeps (r, s)).1
  finished keeps (done o) s p = (finish-OneBest keeps o).apply s p
  finished keeps (raised duplicate_score) s p = p
  finished keeps (raised other) s p = p

  submit_new-OneBest : (request : Request) → Keeps OneBestIn (submit_new srv request)
  unfolding submit_new persist_and_finish
  submit_new-OneBest request = bind-Keeps _ _ (calculate-OneBest request) λ _. get-Keeps _ λ t p.
      bind-Keeps _ _ (check_replay-OneBest _ _) λ keeps.
        bind-Keeps _ _ (modify-Keeps _ (λ s p. p)) λ _.
          bind-Keeps _ _ (or_raise-Keeps _) λ personal.
            bind-Keeps _ _ (when-Keeps _ _ (modify-Keeps _ (λ s p. p))) λ _. record {
              apply = λ s q.
                  finished keeps (persist_score_submission srv.server s).0
                    (persist_score_submission srv.server s).1
                    ((persist_score_submission-OneBest srv.server).apply s q);
            }

  known-OneBest :
      {A : Type 0} (request : Request) (known : Option A)
      → Keeps OneBestIn (duplicate_or_new srv request known)
  known-OneBest request (some _) = pure-Keeps _
  known-OneBest request none = submit_new-OneBest request

  submit_checked-OneBest :
      (request : Request) (md5 : Str) → Keeps OneBestIn (submit_checked srv request md5)
  unfolding submit_checked
  submit_checked-OneBest request md5 = get-Keeps _ λ t p.
      bind-Keeps _ _ (when-Keeps _ _ (modify-Keeps _ (λ s p. p))) λ _.
        bind-Keeps _ _ (modify-Keeps _ (λ s p. p)) λ _.
          bind-Keeps _ _ update_submitter_status_mode-OneBest
            λ _. bind-Keeps _ _ (read _) λ known. known-OneBest request known

  submit_built-OneBest :
      (request : Request) (md5 : Str) (s : Score) → Keeps OneBestIn (submit_built srv request md5 s)
  unfolding submit_built
  submit_built-OneBest request md5 s =
      choose (value s.mode == 3) _ _
        (bind-Keeps _ _ (modify-Keeps _ (λ s p. p)) λ _. submit_checked-OneBest request md5)
        (pure-Keeps _)

  with_player-OneBest :
      (request : Request) (md5 : Str) (m : Beatmap) (user : Option ℕ)
      → Keeps OneBestIn (with_player srv request md5 m user)
  with_player-OneBest request md5 m none = pure-Keeps _
  with_player-OneBest request md5 m (some user) =
      bind-Keeps _ _ (or_raise-Keeps _) λ s. submit_built-OneBest request md5 s

  with_beatmap-OneBest :
      (request : Request) (md5 : Str) (m : Option Beatmap)
      → Keeps OneBestIn (with_beatmap srv request md5 m)
  with_beatmap-OneBest request md5 none = pure-Keeps _
  with_beatmap-OneBest request md5 (some m) =
      bind-Keeps _ _ (or_raise-Keeps _) λ name. with_player-OneBest request md5 m _

  pub submit_score-OneBest : (request : Request) → Keeps OneBestIn (submit_score srv request)
  unfolding submit_score
  submit_score-OneBest request =
      bind-Keeps _ _ (or_raise-Keeps _) λ md5. with_beatmap-OneBest request md5 _

-- After any submissions, whatever the database answers and whether they raise, a user has at most one
-- score of the status BEST on a map in a mode, if that was so before.
pub run-OneBest :
    (l : List (Services × Request)) (s : State)
    → OneBest s.tables.scores.list
    → OneBest (run l s).tables.scores.list
unfolding run
run-OneBest [] s p = p
run-OneBest ((srv, request) ∷ l) s p =
    run-OneBest l (submit_score srv request s).1 ((submit_score-OneBest srv request).apply s p)
