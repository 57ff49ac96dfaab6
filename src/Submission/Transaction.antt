-- ===== src/Submission/Transaction.antt =====
-- `persist_score_submission_stats`, `unlock_new_achievements` and `persist_score_submission` of
-- app/services/score_submission.py: the transaction, and the objects restored when it raises.
use eunga_py.Prelude.{
  ℕ, Bool, true, false, not, ◌&&◌, Option, none, some, List, [], ◌∷◌, ◌++◌, any, ◌==◌,
  if◌then◌else◌,
}
use eunga_py.GameMode.{value, as_vanilla}
use eunga_py.Scores.{Floats}
use eunga_py.Scores.Table.{fetch_weighted_best_performances}
use eunga_py.Scores.Play.{Score, has_leaderboard, awards_ranked_pp}
use eunga_py.Submission.{
  ModeData, Account, restricted, Counts, Tables, State, Result, done, raised, Action, pure, raise,
  or_raise, get, modify, when, ◌>>=◌, ◌>>◌, query, at_mode, on_player, set_stats,
}
use eunga_py.Submission.Stats.{
  Updates, is_personal_best, apply_score_stats, apply_weighted_performance_stats,
}
use eunga_py.Submission.Persist.{
  Achievement, Server, update_stats, persist_submitted_score, score_should_announce_first_place,
  reading, first_place_if, set_counts, count_public,
}

-- `score.passed and score.bmap.has_leaderboard`, `awards_ranked_pp` and the status BEST
unfoldable pub is_weighted : Score → Option Bool
is_weighted s = elim (s.passed && has_leaderboard s.bmap) [
  | false ↦ some false
  | true ↦ elim (is_personal_best s) [
    | none ↦ none
    | some personal ↦ some (awards_ranked_pp s.bmap && personal)
  ]
]

-- `ScoreStatsPersistenceResult`: `previous_stats` is a shallow copy, which shares the grades
pub record Persisted : Type 0 where
  pub previous_stats : ModeData
  pub current_stats : ModeData
  pub should_update_rank : Bool
  pub is_public_submission : Bool

-- `ScoreSubmissionPersistenceResult`
pub record Outcome : Type 0 where
  pub score_id : ℕ
  pub stats : Persisted
  pub previous_first_place : Option ℕ
  pub unlocked : List ℕ

module _ (server : Server) where
  abbrev pub floats : Floats
  floats = server.python.floats

  -- the new accuracy and pp, from the best scores of the player
  abbrev pub weigh_if : Bool → ModeData × Updates → Action (ModeData × Updates)
  weigh_if false both = pure both
  weigh_if true (stats, updates) = do
    st ← get
    let s = st.score
    rows ← query (
        reading (λ t.
          fetch_weighted_best_performances server.by_pp server.known_maps s.player (value s.mode)
            t.scores.list))
    or_raise (apply_weighted_performance_stats floats rows stats updates)

  unfoldable pub persist_score_submission_stats : Action Persisted
  persist_score_submission_stats = do
    st ← get
    let s = st.score
    stats ← or_raise ((st.players s.player).stats s.mode)
    applied ← or_raise (apply_score_stats s stats)
    on_player (set_stats s.mode applied.0)
    weighted ← or_raise (is_weighted s)
    (current, updates) ← weigh_if weighted applied
    on_player (set_stats s.mode current)
    query (update_stats floats s.player (value s.mode) updates)
    let public = not (restricted (st.players s.player))
    count_public public
    pure (record {
      previous_stats = record stats { grades = current.grades };
      current_stats = current;
      should_update_rank = weighted;
      is_public_submission = public;
    })

  -- `achievement_is_unlocked`
  unfoldable pub achievement_is_unlocked : ℕ → Achievement → List (ℕ × ℕ) → Bool
  achievement_is_unlocked user a rows = any (λ (u, id). u == user && id == a.id) rows

  abbrev pub achieve : ℕ → Achievement → Tables → Unit {0} × Tables
  achieve user a t = (tt, record t { achieved = t.achieved ++ ((user, a.id) ∷ []) })

  -- the loop over the achievements, with the rows that were read before it
  unfoldable pub unlock : Score → List (ℕ × ℕ) → List Achievement → Action (List ℕ)
  unlock s rows [] = pure []
  unlock s rows (a ∷ rest) =
      let fresh = not (achievement_is_unlocked s.player a rows) && a.cond s (as_vanilla s.mode) in
      when fresh (query (achieve s.player a)) >> unlock s rows rest >>= λ others.
      pure (if fresh then a.id ∷ others else others)

  unfoldable pub unlock_new_achievements : Action (List ℕ)
  unlock_new_achievements = do
    st ← get
    all ← query (reading (λ t. server.achievements))
    rows ← query (reading (λ t. t.achieved))
    unlock st.score rows all

  unfoldable pub score_can_unlock_achievements : State → Bool
  score_can_unlock_achievements st =
      st.score.passed
      && (awards_ranked_pp st.score.bmap && not (restricted (st.players st.score.player)))

  abbrev pub unlock_if : Bool → Action (List ℕ)
  unlock_if false = pure []
  unlock_if true = unlock_new_achievements

  -- what runs inside the transaction
  unfoldable pub in_transaction : Action Outcome
  in_transaction = do
    st ← get
    announce ← or_raise (score_should_announce_first_place st)
    first ← first_place_if server announce st.score
    id ← persist_submitted_score floats
    stats ← persist_score_submission_stats
    st' ← get
    unlocked ← unlock_if (score_can_unlock_achievements st')
    pure
        (record { score_id = id; stats = stats; previous_first_place = first; unlocked = unlocked })

-- `ScoreSubmissionStateSnapshot`
pub record Snapshot : Type 0 where
  pub score_id : Option ℕ
  pub stats : ModeData
  pub counts : Counts
  pub recent_score : Option Score

abbrev pub capture_with : State → Option ModeData → Option Snapshot
capture_with st none = none
capture_with st (some stats) = some (record {
  score_id = st.score.id;
  stats = stats;
  counts = st.maps st.score.bmap.md5;
  recent_score = (st.players st.score.player).recent_scores st.score.mode;
})

-- a KeyError if the player has no statistics in the mode
unfoldable pub capture_score_submission_state : State → Option Snapshot
capture_score_submission_state st =
    capture_with st ((st.players st.score.player).stats st.score.mode)

abbrev pub restore_player : Score → Snapshot → Account → Account
restore_player s snapshot p = record p {
  stats = at_mode p.stats s.mode (some snapshot.stats);
  recent_scores = at_mode p.recent_scores s.mode snapshot.recent_score;
}

unfoldable pub restore_score_submission_state : Snapshot → Action (Unit {0})
restore_score_submission_state snapshot = do
  st ← get
  modify (λ t. record t { score = record t.score { id = snapshot.score_id } })
  on_player (restore_player st.score snapshot)
  modify (set_counts snapshot.counts)

-- a transaction of the database: when the block raises, the tables are what they were
abbrev pub roll_back : {A : Type 0} → Tables → Result A × State → Result A × State
roll_back t (done a, s) = (done a, s)
roll_back t (raised e, s) = (raised e, record s { tables = t })

unfoldable pub transaction : {A : Type 0} → Action A → Action A
transaction m s = roll_back s.tables (m s)

-- `except BaseException: restore; raise`
abbrev pub restoring : {A : Type 0} → Snapshot → Result A × State → Result A × State
restoring snapshot (done a, s) = (done a, s)
restoring snapshot (raised e, s) = (restore_score_submission_state snapshot >> raise e) s

unfoldable pub or_restore : {A : Type 0} → Snapshot → Action A → Action A
or_restore snapshot m s = restoring snapshot (m s)

unfoldable pub persist_score_submission : Server → Action Outcome
persist_score_submission server = do
  st ← get
  snapshot ← or_raise (capture_score_submission_state st)
  or_restore snapshot (transaction (in_transaction server))
