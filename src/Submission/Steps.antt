-- ===== src/Submission/Steps.antt =====
-- The steps of the transaction of app/services/score_submission.py, and a predicate that each keeps.
use eunga_py.Prelude.{ℕ, ◌≡◌, refl, Bool, true, false, none, List, [], ◌∷◌}
use eunga_py.Scores.Play.{Score}
use eunga_py.Submission.{Counts, ModeData, Tables, State, query, on_player, set_stats}
use eunga_py.Submission.Keeps.{
  Keeps, IsOfScores, pure-Keeps, or_raise-Keeps, bind-Keeps, get-Keeps, modify-Keeps, when-Keeps,
  other-Keeps,
}
use eunga_py.Submission.Stats.{Updates}
use eunga_py.Submission.Persist.{
  Achievement, Server, set_counts, persist_submitted_score, first_place_if, count_public,
  update_stats, update_map,
}
use eunga_py.Submission.Transaction.{
  weigh_if, unlock, unlock_if, unlock_new_achievements, in_transaction,
  persist_score_submission_stats,
}

module _ (server : Server) {P : State → Type 0} (of_scores : IsOfScores P) where
  keep :
      {A : Type 0} (q : Tables → A × Tables)
      → ((t : Tables) → (q t).1.scores ≡ t.scores)
      → Keeps P (query q)
  keep q same = other-Keeps of_scores q same

  weigh_if-Keeps : (b : Bool) (both : ModeData × Updates) → Keeps P (weigh_if server b both)
  weigh_if-Keeps false both = pure-Keeps both
  weigh_if-Keeps true (stats, updates) =
      get-Keeps _ λ t p. bind-Keeps _ _ (keep _ (λ t. refl)) λ rows. or_raise-Keeps _

  unlock-Keeps :
      (s : Score) (rows : List (ℕ × ℕ)) (l : List Achievement) → Keeps P (unlock server s rows l)
  unfolding unlock
  unlock-Keeps s rows [] = pure-Keeps []
  unlock-Keeps s rows (a ∷ l) =
      bind-Keeps _ _
        (bind-Keeps _ _ (when-Keeps _ _ (keep _ (λ t. refl))) λ _. unlock-Keeps s rows l)
        λ others. pure-Keeps _

  pub unlock_if-Keeps : (b : Bool) → Keeps P (unlock_if server b)
  unfolding unlock_new_achievements
  unlock_if-Keeps false = pure-Keeps []
  unlock_if-Keeps true = get-Keeps _ λ t p.
      bind-Keeps _ _ (keep _ (λ t. refl))
        λ all. bind-Keeps _ _ (keep _ (λ t. refl)) λ rows. unlock-Keeps t.score rows all

  pub first_place_if-Keeps : (b : Bool) (s : Score) → Keeps P (first_place_if server b s)
  first_place_if-Keeps false s = pure-Keeps none
  first_place_if-Keeps true s = keep _ (λ t. refl)

module _ (server : Server) {P : State → Type 0} (of_scores : IsOfScores P)
    (counts : (s : State) (c : Counts) → P s → P (set_counts c s))
    (stats : (t : State) → P t → (d : ModeData) → Keeps P (on_player (set_stats t.score.mode d)))
    (persist : Keeps P (persist_submitted_score server.python.floats)) where
  count_public-Keeps : (b : Bool) → Keeps P (count_public b)
  unfolding update_map
  count_public-Keeps false = pure-Keeps tt
  count_public-Keeps true = get-Keeps _ λ t p.
      bind-Keeps _ _ (modify-Keeps _ (λ s. counts s _)) λ _. keep server of_scores _ (λ t. refl)

  persist_score_submission_stats-Keeps : Keeps P (persist_score_submission_stats server)
  unfolding persist_score_submission_stats update_stats
  persist_score_submission_stats-Keeps = get-Keeps _ λ t p. bind-Keeps _ _ (or_raise-Keeps _) λ old.
      bind-Keeps _ _ (or_raise-Keeps _) λ applied. bind-Keeps _ _ (stats t p applied.0) λ _.
        bind-Keeps _ _ (or_raise-Keeps _) λ weighted.
          bind-Keeps _ _ (weigh_if-Keeps server of_scores weighted applied) λ both.
            bind-Keeps _ _ (stats t p both.0) λ _.
              bind-Keeps _ _ (keep server of_scores _ (λ t. refl))
                λ _. bind-Keeps _ _ (count_public-Keeps _) λ _. pure-Keeps _

  pub in_transaction-Keeps : Keeps P (in_transaction server)
  unfolding in_transaction
  in_transaction-Keeps = get-Keeps _ λ t p. bind-Keeps _ _ (or_raise-Keeps _) λ announce.
      bind-Keeps _ _ (first_place_if-Keeps server of_scores announce t.score) λ first.
        bind-Keeps _ _ persist λ id.
          bind-Keeps _ _ persist_score_submission_stats-Keeps λ persisted.
            get-Keeps _
              λ t' p'. bind-Keeps _ _ (unlock_if-Keeps server of_scores _) λ unlocked. pure-Keeps _
