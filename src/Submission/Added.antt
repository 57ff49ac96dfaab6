-- ===== src/Submission/Added.antt =====
-- What a transaction of app/services/score_submission.py that ends has done to the rows of `scores` and
-- to the statistics of the player in the mode of the score.
use mathlib.Core.Path.{subst}
use eunga_py.Prelude.{
  ℕ, ◌≡◌, sym, ap, ◌∙◌, Bool, true, false, some, List, [], ◌∷◌, ◌++◌, if◌then◌else◌,
}
use eunga_py.Prelude.Options.{some_inj}
use eunga_py.Scores.{Floats}
use eunga_py.Scores.Table.{Row, Rows, mark_previous_best_scores_submitted, create}
use eunga_py.Scores.Play.{Score, key_of}
use eunga_py.Submission.{ModeData, Reply, Tables, State, pure, when, query}
use eunga_py.Submission.Keeps.{IsOfScores, pure-Keeps}
use eunga_py.Submission.Ends.{
  Ends, Keeps-Ends, modify-Ends, query-Ends, or_raise-Ends, get-Ends, bind-Ends,
}
use eunga_py.Submission.Stats.{is_personal_best}
use eunga_py.Submission.Persist.{
  row_of, row_with, on_rows, mark_rows, set_id, persist_submitted_score,
}

module _ (z : Score) where
  -- the rows, the score up to its id, and the statistics of its player in its mode
  pub record At (l : List Row) (D : ModeData → Type 0) (s : State) : Type 0 where
    pub rows : s.tables.scores.list ≡ l
    pub whose : s.score ≡ record z { id = s.score.id }
    pub stats : ModeData
    pub found : (s.players z.player).stats z.mode ≡ some stats
    pub shape : D stats

  module _ (l : List Row) (D : ModeData → Type 0) where
    pub At-of_scores : IsOfScores (At l D)
    At-of_scores = record {
      drop = λ s r p. record {
        rows = p.rows;
        whose = p.whose;
        stats = p.stats;
        found = p.found;
        shape = p.shape;
      };
      others = λ s t e p. record {
        rows = ap (λ (w : Rows). w.list) e ∙ p.rows;
        whose = p.whose;
        stats = p.stats;
        found = p.found;
        shape = p.shape;
      };
    }

  -- the rows with another list
  rows_to :
      {l : List Row} {D : ModeData → Type 0} (l' : List Row) (s : State) (t : Tables)
      (r : List Reply)
      → t.scores.list ≡ l'
      → At l D s
      → At l' D (record s { tables = t; replies = r })
  rows_to l' s t r e p = record {
    rows = e;
    whose = p.whose;
    stats = p.stats;
    found = p.found;
    shape = p.shape;
  }

  abbrev pub marked : Bool → List Row → List Row
  marked b l = if b then mark_previous_best_scores_submitted (key_of z) l else l

  -- the rows with one more for the score
  pub record Inserted (floats : Floats) (b : Bool) (l : List Row) (D : ModeData → Type 0)
      (s : State) : Type 0 where
    pub row : Row
    pub id : ℕ
    pub of_score : row_of floats z ≡ some row
    pub at : At (marked b l ++ (record row { id = id } ∷ [])) D s

  module _ (floats : Floats) (b : Bool) (personal : is_personal_best z ≡ some b) (l : List Row)
      (D : ModeData → Type 0) where
    same_personal : (y : Score) → y ≡ record z { id = y.id } → is_personal_best y ≡ some b
    unfolding is_personal_best
    same_personal y e = ap is_personal_best e ∙ personal

    same_row : (y : Score) → y ≡ record z { id = y.id } → row_of floats y ≡ row_of floats z
    unfolding row_of row_with
    same_row y e = ap (row_of floats) e

    same_key : (y : Score) → y ≡ record z { id = y.id } → key_of y ≡ key_of z
    unfolding key_of
    same_key y e = ap key_of e

    mark-Ends :
        (y : Score)
        → y ≡ record z { id = y.id }
        → (c : Bool) → c ≡ b
        → Ends (At l D) (At (marked b l) D) (when c (query (on_rows (mark_rows y))))
    unfolding mark_rows
    mark-Ends y e false q =
        subst (λ v. Ends (At l D) (At (marked v l) D) (pure tt)) q
          (Keeps-Ends (pure-Keeps tt) (λ s p. p))
    mark-Ends y e true q =
        subst (λ v. Ends (At l D) (At (marked v l) D) (query (on_rows (mark_rows y)))) q
          (query-Ends _ (λ s r p.
            rows_to (marked true l) s (on_rows (mark_rows y) s.tables).1 r
              (ap (λ k. mark_previous_best_scores_submitted k s.tables.scores.list) (same_key y e)
                ∙ ap (mark_previous_best_scores_submitted (key_of z)) p.rows)
              p))

    inserted :
        (row : Row)
        → row_of floats z ≡ some row
        → (s : State) (r : List Reply) → At (marked b l) D s
        → Inserted floats b l D
            (record s { tables = (on_rows (create row) s.tables).1; replies = r })
    unfolding create
    inserted row f s r p =
        let new : Row = record row { id = s.tables.scores.next_id } in
        record {
          row = row;
          id = s.tables.scores.next_id;
          of_score = f;
          at =
              rows_to (marked b l ++ (new ∷ [])) s (on_rows (create row) s.tables).1 r
                (ap (λ k. k ++ (new ∷ [])) p.rows) p;
        }

    identified : (i : ℕ) (s : State) → Inserted floats b l D s → Inserted floats b l D (set_id i s)
    identified i s p = record {
      row = p.row;
      id = p.id;
      of_score = p.of_score;
      at = record {
        rows = p.at.rows;
        whose = ap (λ (y : Score). record y { id = some i }) p.at.whose;
        stats = p.at.stats;
        found = p.at.found;
        shape = p.at.shape;
      };
    }

    pub persist_submitted_score-Ends :
        Ends (At l D) (Inserted floats b l D) (persist_submitted_score floats)
    unfolding persist_submitted_score
    persist_submitted_score-Ends = get-Ends _ λ st p. or_raise-Ends _ _ λ c e.
        bind-Ends _ _
          (mark-Ends st.score p.whose c (some_inj (sym e ∙ same_personal st.score p.whose)))
          λ _. or_raise-Ends _ _ λ row f.
            bind-Ends _ _ (query-Ends _ (inserted row (sym (same_row st.score p.whose) ∙ f))) λ id.
              bind-Ends _ _ (modify-Ends _ (identified id))
                λ _. Keeps-Ends (pure-Keeps id) (λ s q. q)
