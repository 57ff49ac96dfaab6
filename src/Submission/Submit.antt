-- ===== src/Submission/Submit.antt =====
-- `submit_score` of app/services/score_submission.py and the steps around the transaction. The lock on
-- the checksum of the score has no part here, since one submission runs at a time.
use eunga_py.Prelude.{
  ℕ, Bool, true, false, not, ◌&&◌, Option, none, some, List, [], ◌++◌, ltb, ◌==◌, length, is_empty,
  if◌then◌else◌,
}
use eunga_py.Prelude.Int.{ℤ, pos}
use eunga_py.Prelude.Text.{Str, codes}
use eunga_py.Bits.{clear}
use eunga_py.GameMode.{GameMode, value}
use eunga_py.RankedStatus.{loved, pending}
use eunga_py.Scores.{failed, Float}
use eunga_py.Scores.Play.{
  Score, Beatmap, has_leaderboard, calculate_accuracy, calculate_status, calculate_placement,
}
use eunga_py.Submission.{
  restricted, Action, pure, or_raise, get, modify, emit, when, ◌>>=◌, ◌>>◌, query, on_player,
  stats_published, restriction, logged_out, notified,
}
use eunga_py.Submission.Checks.{Request, min_replay_size}
use eunga_py.Submission.Persist.{Server, reading}
use eunga_py.Submission.Transaction.{Outcome}

-- What `submit_score` asks beyond the transaction: beatmaps by MD5, the players online by name and
-- password, the .osu files, pp and stars, the rank of a player, the channel for announcements and its
-- domain, names of users, and the formats `:,`, `:,.2f` and `:.2f`.
pub record Services : Type 0 where
  pub server : Server
  pub fetch_beatmap : Str → Option Beatmap
  pub authenticate : Str → Str → Option ℕ
  pub osu_file_available : ℕ → Str → Bool
  pub performance : Score → Option (Float × Float)
  pub global_rank : ℕ → GameMode → ℕ
  pub has_announce_channel : Bool
  pub domain : Str
  pub name_of : ℕ → Str
  pub grouped : ℤ → Str
  pub grouped2 : Float → Str
  pub fixed2 : Float → Str

pub data ErrorCode : Type 0 where
  beatmap_not_found player_not_found duplicate_submission invalid_gamemode : ErrorCode

-- `SubmittedScore` or `ScoreSubmissionError`
pub data Answer : Type 0 where
  submitted : Score → Outcome → Answer
  refused : ErrorCode → Answer

abbrev pub set_score : (Score → Score) → Action (Unit {0})
set_score f = modify (λ st. record st { score = f st.score })

unfoldable pub is_pending : Beatmap → Bool
is_pending m = elim m.status [ pending ↦ true | _ ↦ false ]

unfoldable pub update_submitter_status_mode : Action (Unit {0})
update_submitter_status_mode = do
  st ← get
  let s = st.score
  let player = st.players s.player
  let changed = not (value s.mode == value player.status_mode)
  when changed (on_player (λ p. record p { status_mods = s.mods; status_mode = s.mode }))
  when (changed && not (restricted player)) (emit (stats_published s.player))

-- `restrict`, and `logout` in it if the player is online
unfoldable pub restrict_player_for_missing_replay : Action (Unit {0})
restrict_player_for_missing_replay = do
  st ← get
  let player = st.players st.score.player
  let fresh = not (restricted player)
  let online = fresh && not (is_empty player.token)
  when fresh (on_player (λ p. record p { priv = clear p.priv 1 }))
  when fresh (emit (restriction st.score.player))
  when online (on_player (λ p. record p { token = [] }))
  when online (emit (logged_out st.score.player))

module _ (srv : Services) where
  open srv use {server, osu_file_available, performance, grouped, grouped2, fixed2, domain, name_of}

  abbrev pub judge_passed : Bool → Action (Unit {0})
  judge_passed false =
      set_score
        (λ s. record s { pp = some (server.python.floats.of_int (pos 0)); status = some failed })
  judge_passed true = do
    st ← get
    rows ← query (reading (λ t. t.scores.list))
    judged ← or_raise (calculate_status server.python rows st.score)
    set_score (λ _. judged)
    let ranks = not (is_pending judged.bmap)
    when ranks (
        query (reading (λ t. t.scores.list)) >>= λ all.
        or_raise (calculate_placement server.python server.visible judged all) >>= λ place.
        set_score (λ s. record s { rank = some place }))

  abbrev pub judge_available : Bool → Action (Unit {0})
  judge_available false = pure tt
  judge_available true = do
    st ← get
    (pp, sr) ← or_raise (performance st.score)
    set_score (λ s. record s { pp = some pp; sr = some sr })
    judge_passed st.score.passed

  -- without the .osu file pp and status stay unassigned
  unfoldable pub calculate_score_submission_status : Request → Action (Unit {0})
  calculate_score_submission_status request = do
    st ← get
    acc ← or_raise (calculate_accuracy server.python st.score)
    set_score (λ s. record s { acc = some acc })
    judge_available (osu_file_available st.score.bmap.id st.score.bmap.md5)
    set_score (λ s. record s {
      time_elapsed = some (if s.passed then request.score_time else request.fail_time);
    })

  -- the replay to write: none for a failed play, nor for one whose replay is too short
  abbrev pub check_replay : Bool → List ℕ → Action Bool
  check_replay false replay = pure false
  check_replay true replay =
      let valid = not (ltb (length replay) min_replay_size) in
      when (not valid) restrict_player_for_missing_replay >> pure valid

  unfoldable pub pp_text : Score → Option Str
  pp_text s = elim s.pp [ none ↦ none | some pp ↦ some (grouped2 pp ++ codes "pp") ]

  abbrev pub is_loved_vanilla : Score → Bool
  is_loved_vanilla s = (elim s.bmap.status [ loved ↦ true | _ ↦ false ]) && ltb (value s.mode) 4

  unfoldable pub format_score_submission_performance : Score → Option Str
  format_score_submission_performance s =
      if is_loved_vanilla s then some (grouped s.score ++ codes " score") else pp_text s

  abbrev pub rank_text : Option ℕ → Str
  rank_text none = codes "None"
  rank_text (some n) = server.python.str (pos n)

  unfoldable pub notify_score_submitter_of_personal_best : Score → Action (Unit {0})
  notify_score_submitter_of_personal_best s =
      let told = or_raise (format_score_submission_performance s) >>= λ text. emit (
        notified s.player
          (codes "You achieved #" ++ rank_text s.rank ++ codes "! (" ++ text ++ codes ")")) in
      if has_leaderboard s.bmap then told else pure tt
