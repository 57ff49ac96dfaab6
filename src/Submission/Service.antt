-- ===== src/Submission/Service.antt =====
-- `announce_first_place` and `submit_score` of app/services/score_submission.py.
use eunga_py.Prelude.{
  ℕ, ◌+◌, Bool, true, false, not, Option, none, some, List, [], ◌∷◌, ◌++◌, take, ◌==◌,
  if◌then◌else◌,
}
use eunga_py.Prelude.Int.{pos}
use eunga_py.Prelude.Text.{Str, codes}
use eunga_py.Mods.Text.{mods_repr}
use eunga_py.GameMode.{GameMode, value}
use eunga_py.Scores.Table.{fetch_one_by_online_checksum}
use eunga_py.Scores.Play.{Score, Beatmap}
use eunga_py.Submission.{
  ModeData, Account, restricted, State, Result, done, raised, duplicate_score, other, Action, pure,
  raise, or_raise, get, emit, when, ◌>>=◌, ◌>>◌, query, at_mode, on_player, set_stats,
  stats_published, integrity_failure, activity, rank_entered, announced, metric, replay_written,
  lost_first_place,
}
use eunga_py.Submission.Stats.{is_personal_best}
use eunga_py.Submission.Checks.{
  Request, score_submission_beatmap_md5, score_submission_username,
  build_score_from_submission_request, validate_submission_integrity,
}
use eunga_py.Submission.Persist.{reading, score_should_announce_first_place}
use eunga_py.Submission.Transaction.{Outcome, Persisted, persist_score_submission}
use eunga_py.Submission.Submit.{
  Services, Answer, submitted, refused, beatmap_not_found, player_not_found, duplicate_submission,
  invalid_gamemode, set_score, update_submitter_status_mode, calculate_score_submission_status,
  check_replay, format_score_submission_performance, notify_score_submitter_of_personal_best,
}

-- `" ".join(…)`
abbrev pub joined : List Str → Str
joined [] = []
joined (t ∷ []) = t
joined (t ∷ u ∷ rest) = t ++ (codes " " ++ joined (u ∷ rest))

-- `player.recent_scores[mode] = score` and the record of the session
unfoldable pub record_play : Score → Account → Account
unfolding at_mode
record_play s p = record p {
  recent_scores = at_mode p.recent_scores s.mode (some s);
  session_play_count = p.session_play_count + 1;
  session_play_history = take 50 (s ∷ p.session_play_history);
}

-- `current_stats.rank = …`
unfoldable pub set_rank : GameMode → ModeData → ℕ → Account → Account
unfolding at_mode
set_rank mode stats rank p = set_stats mode (record stats { rank = rank }) p

module _ (srv : Services) where
  open srv use {server, global_rank, domain, name_of, fixed2}

  unfoldable pub previous_text : Score → Option ℕ → List Str
  previous_text s none = []
  previous_text s (some prev) =
      if s.player == prev
      then []
      else (codes "(Previous #1: [https://"
          ++ domain
          ++ codes "/u/"
          ++ server.python.str (pos prev)
          ++ codes " "
          ++ name_of prev
          ++ codes "])")
        ∷ []

  unfoldable pub announcement : Score → Option ℕ → Option Str
  announcement s first = elim s.acc [
    | none ↦ none
    | some acc ↦ elim (format_score_submission_performance srv s) [
      | none ↦ none
      | some performance ↦
          let head = codes "\u{1}ACTION achieved #1 on " ++ s.bmap.embed in
          let mods = if s.mods == 0 then [] else (codes "+" ++ mods_repr s.mods) ∷ [] in
          let tail = codes "with " ++ fixed2 acc ++ codes "% for " ++ performance ++ codes "." in
          some (joined (head ∷ (mods ++ (tail ∷ previous_text s first))))
    ]
  ]

  -- an AssertionError if there is no channel for announcements
  unfoldable pub announce_first_place : Option ℕ → Action (Unit {0})
  announce_first_place first = do
    st ← get
    announces ← or_raise (score_should_announce_first_place st)
    let told = or_raise (announcement st.score first) >>= λ text.
        if srv.has_announce_channel then emit (announced text) else raise other
    if announces then told else pure tt

  abbrev pub tell_loser : Score → Option ℕ → Action (Unit {0})
  tell_loser s none = pure tt
  tell_loser s (some prev) =
      when (not (s.player == prev)) (query (reading (λ t. tt)) >> emit (lost_first_place prev))

  abbrev pub enter_rank : Bool → Score → Persisted → Action (Unit {0})
  enter_rank false s stats = pure tt
  enter_rank true s stats = do
    st ← get
    when (not (restricted (st.players s.player))) (emit (rank_entered s.player))
    on_player (set_rank s.mode stats.current_stats (global_rank s.player s.mode))

  -- behind the transaction
  unfoldable pub finish : Bool → Outcome → Action Answer
  unfolding record_play
  finish keeps_replay outcome = do
    st ← get
    let s = st.score
    when keeps_replay (emit (replay_written outcome.score_id))
    enter_rank outcome.stats.should_update_rank s outcome.stats
    when outcome.stats.is_public_submission (emit (stats_published s.player))
    on_player (record_play s)
    personal ← or_raise (is_personal_best s)
    when personal (
        notify_score_submitter_of_personal_best srv s
        >> announce_first_place outcome.previous_first_place
        >> tell_loser s outcome.previous_first_place)
    pure (submitted s outcome)

  -- `except DuplicateScoreError`
  abbrev pub finish_or_refuse : Bool → Result Outcome × State → Result Answer × State
  finish_or_refuse keeps (done outcome, st) = finish keeps outcome st
  finish_or_refuse keeps (raised duplicate_score, st) = (done (refused duplicate_submission), st)
  finish_or_refuse keeps (raised other, st) = (raised other, st)

  unfoldable pub persist_and_finish : Bool → Action Answer
  persist_and_finish keeps st = finish_or_refuse keeps (persist_score_submission server st)

  -- from the judgement of a score that was not submitted before
  unfoldable pub submit_new : Request → Action Answer
  submit_new request = do
    calculate_score_submission_status srv request
    st ← get
    keeps ← check_replay srv st.score.passed request.replay_file
    emit (metric (codes "bancho.submitted_scores"))
    personal ← or_raise (is_personal_best st.score)
    when personal (emit (metric (codes "bancho.submitted_scores_best")))
    persist_and_finish keeps

  abbrev pub duplicate_or_new : {A : Type 0} → Request → Option A → Action Answer
  duplicate_or_new request (some _) = pure (refused duplicate_submission)
  duplicate_or_new request none = submit_new request

  -- from a score of VANILLA_MANIA on
  unfoldable pub submit_checked : Request → Str → Action Answer
  submit_checked request md5 = do
    st ← get
    let s = st.score
    let player = st.players s.player
    let sound = validate_submission_integrity server.python player request s md5
    when (not sound) (emit integrity_failure)
    emit (activity s.player)
    update_submitter_status_mode
    known ← query (reading (λ t. fetch_one_by_online_checksum s.client_checksum t.scores.list))
    duplicate_or_new request known

  unfoldable pub submit_built : Request → Str → Score → Action Answer
  submit_built request md5 s =
      if value s.mode == 3
      then set_score (λ _. s) >> submit_checked request md5
      else pure (refused invalid_gamemode)

  abbrev pub with_player : Request → Str → Beatmap → Option ℕ → Action Answer
  with_player request md5 beatmap none = pure (refused player_not_found)
  with_player request md5 beatmap (some user) =
      or_raise (build_score_from_submission_request server.python request beatmap user) >>= λ s.
      submit_built request md5 s

  abbrev pub with_beatmap : Request → Str → Option Beatmap → Action Answer
  with_beatmap request md5 none = pure (refused beatmap_not_found)
  with_beatmap request md5 (some beatmap) =
      or_raise (score_submission_username request) >>= λ username.
      with_player request md5 beatmap (srv.authenticate username request.password_md5)

  -- `submit_score` of a server that does not run under pytest
  unfoldable pub submit_score : Request → Action Answer
  submit_score request = do
    md5 ← or_raise (score_submission_beatmap_md5 request)
    with_beatmap request md5 (srv.fetch_beatmap md5)
