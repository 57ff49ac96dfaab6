-- ===== src/Submission/Restored.antt =====
-- `persist_score_submission` of app/services/score_submission.py when it raises.
use mathlib.Core.Path.{subst}
use eunga_py.GameMode.{GameMode}
use eunga_py.Prelude.Options.{some_inj}
use eunga_py.Prelude.{ℕ, ◌≡◌, refl, sym, ap, ◌∙◌, Option, none, some}
use eunga_py.Scores.Play.{Score}
use eunga_py.Submission.{
  ModeData, Tables, State, Error, Result, done, raised, or_raise, ◌>>=◌, query, at_mode, at_player,
  at_map,
}
use eunga_py.Submission.Keeps.{
  Keeps, IsOfScores, pure-Keeps, or_raise-Keeps, bind-Keeps, get-Keeps, when-Keeps, query-Keeps,
}
use eunga_py.Submission.Rollback.{
  Near, Near-IsFree, set_id-Keeps, set_counts-Keeps, set_stats-Keeps, at_mode_self, at_player_self,
  at_map_self,
}
use eunga_py.Submission.Steps.{in_transaction-Keeps}
use eunga_py.Submission.Persist.{Server, persist_submitted_score}
use eunga_py.Submission.Transaction.{
  Snapshot, capture_with, restore_player, capture_score_submission_state,
  restore_score_submission_state, or_restore, restoring, roll_back, transaction, in_transaction,
  persist_score_submission,
}

module _ (server : Server) (st : State) (sn : Snapshot) where
  abbrev P : State → Type 0
  P = Near st sn

  query_keeps : {A : Type 0} (q : Tables → A × Tables) → Keeps P (query q)
  query_keeps q = query-Keeps (Near-IsFree st sn) q

  mode_same : {t : State} → P t → t.score.mode ≡ st.score.mode
  mode_same p = ap (λ (z : Score). z.mode) p.whose

  persist_submitted_score-Keeps : Keeps P (persist_submitted_score server.python.floats)
  unfolding persist_submitted_score
  persist_submitted_score-Keeps = get-Keeps _ λ t p. bind-Keeps _ _ (or_raise-Keeps _) λ personal.
      bind-Keeps _ _ (when-Keeps personal _ (query_keeps _)) λ _.
        bind-Keeps _ _ (or_raise-Keeps _) λ row.
          bind-Keeps _ _ (query_keeps _)
            λ id. bind-Keeps _ _ (set_id-Keeps st sn id) λ _. pure-Keeps id

  apart : IsOfScores P
  apart = record {
    drop = λ s r p. (Near-IsFree st sn).move s s.tables r p;
    others = λ s t e p. (Near-IsFree st sn).move s t s.replies p;
  }

  all_steps : Keeps P (in_transaction server)
  all_steps =
      in_transaction-Keeps server apart (λ s c p. (set_counts-Keeps st sn c).apply s p)
        (λ t p d. set_stats-Keeps st sn t.score d (mode_same p)) persist_submitted_score-Keeps

-- all but the answers that the database has still to give
pub record SameObjects (st t : State) : Type 0 where
  pub tables : t.tables ≡ st.tables
  pub players : t.players ≡ st.players
  pub maps : t.maps ≡ st.maps
  pub score : t.score ≡ st.score
  pub effects : t.effects ≡ st.effects

SameObjects-refl : (st t : State) → st ≡ t → SameObjects st t
SameObjects-refl st t e = record {
  tables = sym (ap (λ (s : State). s.tables) e);
  players = sym (ap (λ (s : State). s.players) e);
  maps = sym (ap (λ (s : State). s.maps) e);
  score = sym (ap (λ (s : State). s.score) e);
  effects = sym (ap (λ (s : State). s.effects) e);
}

-- what the snapshot holds
record Captured (st : State) (sn : Snapshot) : Type 0 where
  id : sn.score_id ≡ st.score.id
  stats : (st.players st.score.player).stats st.score.mode ≡ some sn.stats
  counts : sn.counts ≡ st.maps st.score.bmap.md5
  recent : sn.recent_score ≡ (st.players st.score.player).recent_scores st.score.mode

captured :
    (st : State) (o : Option ModeData)
    → (st.players st.score.player).stats st.score.mode ≡ o
    → (sn : Snapshot) → capture_with st o ≡ some sn
    → Captured st sn
captured st none q sn e = absurd (cc)
captured st (some d) q sn e =
    subst (Captured st) (some_inj e) (record { id = refl; stats = q; counts = refl; recent = refl })

Near-refl : (st : State) (sn : Snapshot) → Captured st sn → Near st sn st
Near-refl st sn c =
    let u = st.score.player in
    let m = st.score.mode in
    let q = st.players u in
    record {
      whose = refl;
      maps = rw c.counts (at_map_self st.maps st.score.bmap.md5);
      players = at_player_self st.players u _ (
          sym (
            ap
              (λ (f : GameMode → Option ModeData). record q {
                stats = f;
                recent_scores = at_mode q.recent_scores m sn.recent_score;
              })
              (at_mode_self q.stats m (some sn.stats) c.stats)
            ∙ ap (λ (f : GameMode → Option Score). record q { recent_scores = f })
                (at_mode_self q.recent_scores m sn.recent_score (sym c.recent))));
      effects = refl;
    }

raised_state :
    {A : Type 0} {e e' : Error} {s t : State}
    → ◌≡◌ {A = Result A × State} (raised e, s) (raised e', t)
    → s ≡ t
raised_state q = ap (λ p. p.1) q

-- the end of a transaction that began in `st`
restored :
    {A : Type 0} (st : State) (sn : Snapshot)
    → Captured st sn
    → (r : Result A) (s : State) → Near st sn s
    → (e : Error) (t : State) → restoring sn (roll_back st.tables (r, s)) ≡ (raised e, t)
    → SameObjects st t
unfolding ◌>>=◌ restore_score_submission_state
restored st sn c (done v) s p e t q = absurd (cc)
restored st sn c (raised e') s p e t q = subst (SameObjects st) (raised_state q) (record {
  tables = refl;
  players =
      ap (λ (z : Score). at_player s.players z.player (restore_player z sn (s.players z.player)))
        p.whose
      ∙ p.players;
  maps = ap (λ (z : Score). at_map s.maps z.bmap.md5 sn.counts) p.whose ∙ p.maps;
  score =
      ap (λ (z : Score). record z { id = sn.score_id }) p.whose
      ∙ ap (λ (i : Option ℕ). record st.score { id = i }) c.id;
  effects = p.effects;
})

persisted_raised :
    (server : Server) (st : State) (o : Option Snapshot)
    → ((sn : Snapshot) → o ≡ some sn → Captured st sn)
    → (e : Error) (t : State)
    → (or_raise o >>= λ sn. or_restore sn (transaction (in_transaction server))) st ≡ (raised e, t)
    → SameObjects st t
unfolding ◌>>=◌ or_restore transaction
persisted_raised server st none cap e t q = SameObjects-refl st t (raised_state q)
persisted_raised server st (some sn) cap e t q =
    let c = cap sn refl in
    restored st sn c (in_transaction server st).0 (in_transaction server st).1
      ((all_steps server st sn).apply st (Near-refl st sn c)) e t q

-- Whatever the database answers, if `persist_score_submission` raises, then the tables, the players with
-- their statistics and recent scores, the counters of the beatmaps and the score are what they were, and
-- nothing was sent.
pub persist_score_submission-raises :
    (server : Server) (st : State) (e : Error) (t : State)
    → persist_score_submission server st ≡ (raised e, t)
    → (t.tables ≡ st.tables)
      × (t.players ≡ st.players)
      × (t.maps ≡ st.maps)
      × (t.score ≡ st.score)
      × (t.effects ≡ st.effects)
unfolding persist_score_submission ◌>>=◌ capture_score_submission_state
persist_score_submission-raises server st e t q =
    let same =
      persisted_raised server st (capture_score_submission_state st)
        (captured st ((st.players st.score.player).stats st.score.mode) refl) e t q in
    (same.tables, same.players, same.maps, same.score, same.effects)
