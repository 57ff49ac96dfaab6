-- ===== src/Submission/Counted.antt =====
-- `persist_score_submission_stats` of app/services/score_submission.py where it ends: how the ranked score
-- and the grades of the player have moved.
use mathlib.Core.Path.{subst}
use eunga_py.Prelude.{◌≡◌, refl, sym, ap, ◌∙◌, Bool, true, false, ◌&&◌, Option, none, some, List}
use eunga_py.Prelude.Options.{some_inj, ◌>>=◌}
use eunga_py.Prelude.Int.{ℤ}
use eunga_py.Scores.{Float, Floats}
use eunga_py.Scores.Table.{Row, Performance}
use eunga_py.Scores.Play.{Score, has_leaderboard}
use eunga_py.Submission.{Account, ModeData, State, at_player, at_mode, set_stats}
use eunga_py.Submission.Keeps.{
  Keeps, IsOfScores, pure-Keeps, bind-Keeps, get-Keeps, modify-Keeps, other-Keeps,
}
use eunga_py.Submission.Ends.{
  Ends, Gives, Keeps-Ends, modify-Ends, or_raise-Ends, get-Ends, bind-Ends, or_raise-Gives,
  get-Gives, bind-Gives, Gives-Ends,
}
use eunga_py.Submission.Stats.{
  Updates, is_personal_best, ranked_score_delta, apply_score_stats,
  apply_weighted_performance_stats, calculate_weighted_accuracy, calculate_weighted_pp,
}
use eunga_py.Submission.Totals.{Moves, SameRanked, apply_score_stats-Moves}
use eunga_py.Submission.Grades.{HasGrades}
use eunga_py.Submission.Rollback.{at_player-same, at_mode-same}
use eunga_py.Submission.Added.{At, At-of_scores}
use eunga_py.Submission.Persist.{Server, count_public, update_stats, update_map}
use eunga_py.Submission.Transaction.{weigh_if, persist_score_submission_stats}

pair_left :
    {d d' : ModeData} {u u' : Updates}
    → ◌≡◌ {A = Option (ModeData × Updates)} (some (d, u)) (some (d', u'))
    → d ≡ d'
pair_left e = ap (λ p. p.0) (some_inj e)

weighed :
    (o : Option Float) (q : Option ℤ) (d d' : ModeData) (u u' : Updates)
    → ◌≡◌ {A = Option (ModeData × Updates)}
        (o >>= λ acc. q >>= λ pp.
          some (record d { acc = acc; pp = pp }, record u { acc = some acc; pp = some pp }))
        (some (d', u'))
    → SameRanked d d'
weighed none q d d' u u' e = absurd (cc)
weighed (some acc) none d d' u u' e = absurd (cc)
weighed (some acc) (some pp) d d' u u' e =
    subst (SameRanked d) (pair_left e) (record { rscore = refl; grades = refl })

-- the weighing changes the accuracy and pp alone
weighted_same :
    (floats : Floats) (rows : List Performance) (d d' : ModeData) (u u' : Updates)
    → apply_weighted_performance_stats floats rows d u ≡ some (d', u')
    → SameRanked d d'
unfolding apply_weighted_performance_stats
weighted_same floats rows d d' u u' e =
    weighed (calculate_weighted_accuracy floats rows) (calculate_weighted_pp floats rows) d d' u u'
      e

weigh_if-Gives :
    {P : State → Type 0} (server : Server)
    → IsOfScores P
    → (b : Bool) (x : ModeData × Updates)
    → Gives P (λ y s. P s × SameRanked x.0 y.0) (weigh_if server b x)
weigh_if-Gives {P} server free false (d, u) =
    or_raise-Gives (λ y s. P s × SameRanked d y.0) (some (d, u))
      (λ y e s p.
        (p, subst (λ v. SameRanked d v.0) (some_inj e) (record { rscore = refl; grades = refl })))
weigh_if-Gives {P} server free true (d, u) =
    get-Gives (λ y s. P s × SameRanked d y.0) _
      λ t p.
        bind-Gives (λ y s. P s × SameRanked d y.0) _ _ (other-Keeps free _ (λ t. refl))
          λ rows.
            or_raise-Gives (λ y s. P s × SameRanked d y.0) _
              (λ y e s p. (p, weighted_same server.python.floats rows d y.0 u y.1 e))

module _ (z : Score) (l : List Row) where
  put :
      (D E : ModeData → Type 0) (y : Score) (d : ModeData)
      → y ≡ record z { id = y.id }
      → E d
      → (s : State) → At z l D s
      → At z l E (record s {
        players =
            at_player s.players s.score.player (set_stats y.mode d (s.players s.score.player));
      })
  put D E y d e shape s p = record {
    rows = p.rows;
    whose = p.whose;
    stats = d;
    found =
        ap
          (λ (v : Score).
            (at_player s.players v.player (set_stats y.mode d (s.players v.player)) z.player).stats
              z.mode)
          p.whose
        ∙ ap (λ (a : Account). a.stats z.mode)
            (at_player-same s.players z.player (set_stats y.mode d (s.players z.player)))
        ∙ ap (λ (v : Score). at_mode (s.players z.player).stats v.mode (some d) z.mode) e
        ∙ at_mode-same (s.players z.player).stats z.mode (some d);
    shape = shape;
  }

  count_public-At : (D : ModeData → Type 0) (b : Bool) → Keeps (At z l D) (count_public b)
  unfolding update_map
  count_public-At D false = pure-Keeps tt
  count_public-At D true = get-Keeps _ λ t p.
      bind-Keeps _ _
        (modify-Keeps _ (λ s q. record {
          rows = q.rows;
          whose = q.whose;
          stats = q.stats;
          found = q.found;
          shape = q.shape;
        }))
        λ _. other-Keeps (At-of_scores z l D) _ (λ t. refl)

  module _ (b : Bool) (personal : is_personal_best z ≡ some b) (passed : z.passed ≡ true)
      (d0 : ModeData) (has : HasGrades d0) where
    abbrev Start : ModeData → Type 0
    Start d = d ≡ d0

    abbrev Moved : ModeData → Type 0
    Moved d = Moves (has_leaderboard z.bmap && b) z d0 d

    started :
        (s : State)
        → At z l Start s
        → (old : ModeData) → (s.players s.score.player).stats s.score.mode ≡ some old
        → old ≡ d0
    started s p old e =
        some_inj (sym e ∙ ap (λ (v : Score). (s.players v.player).stats v.mode) p.whose ∙ p.found)
        ∙ p.shape

    moved :
        (y : Score) (old d : ModeData) (u : Updates)
        → y ≡ record z { id = y.id }
        → old ≡ d0
        → apply_score_stats y old ≡ some (d, u)
        → Moved d
    unfolding ranked_score_delta is_personal_best
    moved y old d u e same q =
        let w = record z { id = y.id } in
        let m = apply_score_stats-Moves w b personal d0 d u passed has (
          sym (ap (λ (v : Score). apply_score_stats v d0) e)
          ∙ sym (ap (apply_score_stats y) same)
          ∙ q) in
        record { rscore = m.rscore; grades = m.grades }

    then_same : (d d' : ModeData) → Moved d → SameRanked d d' → Moved d'
    then_same d d' m s = record {
      rscore = s.rscore ∙ m.rscore;
      grades = λ g h old e. ap (λ f. f g) s.grades ∙ m.grades g h old e;
    }

    pub persist_score_submission_stats-Ends :
        (server : Server)
        → Ends (At z l Start) (At z l Moved) (persist_score_submission_stats server)
    unfolding persist_score_submission_stats update_stats
    persist_score_submission_stats-Ends server = get-Ends _ λ t p. or_raise-Ends _ _ λ old e.
        or_raise-Ends _ _ λ x f.
          let m = moved t.score old x.0 x.1 p.whose (started t p old e) f in
          bind-Ends _ _ (modify-Ends _ (put Start Moved t.score x.0 p.whose m)) λ _.
            or_raise-Ends _ _ λ weighted q.
              Gives-Ends _ _ _ (weigh_if-Gives server (At-of_scores z l Moved) weighted x) λ y.
                bind-Ends _ _
                  (modify-Ends _
                    (λ s r. put Moved Moved t.score y.0 p.whose (then_same x.0 y.0 m r.1) s r.0))
                  λ _.
                    bind-Ends _ _
                      (Keeps-Ends (other-Keeps (At-of_scores z l Moved) _ (λ t. refl)) (λ s r. r))
                      λ _.
                        bind-Ends _ _ (Keeps-Ends (count_public-At Moved _) (λ s r. r))
                          λ _. Keeps-Ends (pure-Keeps _) (λ s r. r)
