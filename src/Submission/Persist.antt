-- ===== src/Submission/Persist.antt =====
-- `persist_submitted_score`, `persist_score_submission_stats`, `unlock_new_achievements` and
-- `persist_score_submission` of app/services/score_submission.py, with the UPDATE of `StatsRepository`.
use eunga_py.Prelude.{
  ℕ, ◌+◌, Bool, true, false, not, ◌&&◌, Option, none, some, List, leb, ◌==◌, if◌then◌else◌,
}
use eunga_py.Prelude.Int.{ℤ}
use eunga_py.Prelude.Text.{Str, eq_str}
use eunga_py.GameMode.{value}
use eunga_py.Scores.{grade_name, SubmissionStatus, submission_value, Float, Floats}
use eunga_py.Scores.Table.{
  Row, Rows, Performance, mark_previous_best_scores_submitted, create, select,
}
use eunga_py.Scores.Play.{Score, has_leaderboard, key_of, Python}
use eunga_py.Submission.{
  restricted, StatRow, Counts, Tables, State, Action, pure, or_raise, get, modify, when, ◌>>=◌,
  ◌>>◌, query, at_map,
}
use eunga_py.Submission.Stats.{Updates, is_personal_best}

-- `Achievement`, with its condition on a score and a vanilla mode
pub record Achievement : Type 0 where
  pub id : ℕ
  pub cond : Score → ℕ → Bool

-- What a submission asks of the server and the database: the floats, the MD5s in the table of maps,
-- ORDER BY pp DESC, the row that ORDER BY … DESC LIMIT 1 gives by pp or by score, the users whose
-- privileges make them visible, and the achievements.
pub record Server : Type 0 where
  pub python : Python
  pub known_maps : List Str
  pub by_pp : List Performance → List Performance
  pub top : Bool → List Row → Option Row
  pub visible : ℕ → Bool
  pub achievements : List Achievement

-- `StatsRepository.partial_update` on a row
abbrev or_keep : {A : Type 0} → Option A → A → A
or_keep none old = old
or_keep (some new) old = new

unfoldable pub update_row : Floats → Updates → StatRow → StatRow
update_row floats u r = record {
  tscore = u.tscore;
  rscore = or_keep u.rscore r.rscore;
  pp = or_keep u.pp r.pp;
  acc = elim u.acc [ none ↦ r.acc | some acc ↦ floats.column acc ];
  plays = u.plays;
  playtime = u.playtime;
  max_combo = or_keep u.max_combo r.max_combo;
  total_hits = u.total_hits;
  xh_count = or_keep u.xh_count r.xh_count;
  x_count = or_keep u.x_count r.x_count;
  sh_count = or_keep u.sh_count r.sh_count;
  s_count = or_keep u.s_count r.s_count;
  a_count = or_keep u.a_count r.a_count;
}

unfoldable pub update_stats : Floats → ℕ → ℕ → Updates → Tables → Unit {0} × Tables
update_stats floats user mode u t = (
  tt,
  record t {
    stats = λ v m.
        if user == v && mode == m
        then elim (t.stats v m) [ none ↦ none | some r ↦ some (update_row floats u r) ]
        else t.stats v m;
  },
)

-- `MapsRepository.partial_update` of the counters
unfoldable pub update_map : ℕ → Counts → Tables → Unit {0} × Tables
update_map id c t = (tt, record t { maps = λ n. if id == n then c else t.maps n })

-- the row that `persist_submitted_score` inserts
unfoldable pub row_with : Floats → Score → Float → Float → SubmissionStatus → ℤ → Row
row_with floats s pp acc status time = record {
  id = 0;
  map_md5 = s.bmap.md5;
  score = s.score;
  pp = floats.column pp;
  acc = floats.column acc;
  max_combo = s.max_combo;
  mods = s.mods;
  n300 = s.n300;
  n100 = s.n100;
  n50 = s.n50;
  nmiss = s.nmiss;
  ngeki = s.ngeki;
  nkatu = s.nkatu;
  grade = grade_name s.grade;
  status = submission_value status;
  mode = value s.mode;
  time_elapsed = time;
  userid = s.player;
  perfect = s.perfect;
  online_checksum = s.client_checksum;
}

abbrev pub row_from :
    Floats → Score → Option Float → Option Float → Option SubmissionStatus → Option ℤ → Option Row
row_from floats s (some pp) (some acc) (some status) (some time) =
    some (row_with floats s pp acc status time)
row_from floats s _ _ _ _ = none

-- what is not assigned yet raises
unfoldable pub row_of : Floats → Score → Option Row
row_of floats s = row_from floats s s.pp s.acc s.status s.time_elapsed

abbrev pub on_rows : {A : Type 0} → (Rows → A × Rows) → Tables → A × Tables
on_rows f t = let (a, rows) = f t.scores in (a, record t { scores = rows })

unfoldable pub mark_rows : Score → Rows → Unit {0} × Rows
mark_rows s rows =
    (tt, record rows { list = mark_previous_best_scores_submitted (key_of s) rows.list })

abbrev pub set_id : ℕ → State → State
set_id i st = record st { score = record st.score { id = some i } }

unfoldable pub persist_submitted_score : Floats → Action ℕ
persist_submitted_score floats = do
  st ← get
  personal ← or_raise (is_personal_best st.score)
  when personal (query (on_rows (mark_rows st.score)))
  row ← or_raise (row_of floats st.score)
  id ← query (on_rows (create row))
  modify (set_id id)
  pure id

-- `first_place_scoring_metric` is "pp"
unfoldable pub ranks_by_pp : Score → Bool
ranks_by_pp s = leb 4 (value s.mode)

unfoldable pub score_should_announce_first_place : State → Option Bool
score_should_announce_first_place st = elim (is_personal_best st.score) [
  | none ↦ none
  | some personal ↦ some (
      personal
      && (has_leaderboard st.score.bmap
          && ((elim st.score.rank [ none ↦ false | some rank ↦ rank == 1 ])
              && not (restricted (st.players st.score.player)))))
]

unfoldable pub fetch_first_place_score : Server → Score → List Row → Option Row
fetch_first_place_score server s rows = server.top (ranks_by_pp s) (
    select
      (λ r.
        eq_str r.map_md5 s.bmap.md5
        && (r.mode == value s.mode && (r.status == 2 && server.visible r.userid)))
      rows)

abbrev pub reading : {A : Type 0} → (Tables → A) → Tables → A × Tables
reading f t = (f t, t)

abbrev pub first_place_if : Server → Bool → Score → Action (Option ℕ)
first_place_if server false s = pure none
first_place_if server true s = query (
    reading (λ t. elim (fetch_first_place_score server s t.scores.list) [
      | none ↦ none
      | some r ↦ some r.userid
    ]))

abbrev pub set_counts : Counts → State → State
set_counts c st = record st { maps = at_map st.maps st.score.bmap.md5 c }

-- `apply_beatmap_play_stats`
unfoldable pub count_play : Bool → Counts → Counts
count_play passed c = record {
  plays = c.plays + 1;
  passes = if passed then c.passes + 1 else c.passes;
}

-- the UPDATE of the map when the player is not restricted
abbrev pub count_public : Bool → Action (Unit {0})
count_public false = pure tt
count_public true = do
  st ← get
  let c = count_play st.score.passed (st.maps st.score.bmap.md5)
  modify (set_counts c)
  query (update_map st.score.bmap.id c)
