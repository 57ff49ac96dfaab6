-- ===== src/Submission/Totals.antt =====
-- What `apply_score_stats` and the weighing of app/services/score_submission.py do to the ranked score
-- and the counts of grades.
use mathlib.Core.Path.{subst}
use eunga_py.Prelude.{
  ◌≡◌, refl, sym, ap, ◌∙◌, Bool, true, false, not, ◌&&◌, Option, none, some, if◌then◌else◌,
}
use eunga_py.Prelude.Int.{ℤ, ◌+ℤ◌, ◌-ℤ◌, lt_ℤ}
use eunga_py.Prelude.Options.{◌>>=◌, some_inj}
use eunga_py.Scores.{Grade, counted}
use eunga_py.Scores.Play.{Score, has_leaderboard, awards_ranked_pp}
use eunga_py.Submission.{ModeData}
use eunga_py.Submission.Grades.{
  HasGrades, one_at, one_prev, delta_prev, apply_ranked_score_stats-counts,
}
use eunga_py.Submission.Stats.{
  Updates, is_personal_best, ranked_score_delta, base_with, apply_score_base_stats, apply_best,
  apply_passed, apply_score_stats, apply_ranked_score_stats,
}

-- how the ranked score and the grades change: by the score if it counts, else not at all
pub record Moves (counts : Bool) (z : Score) (d d' : ModeData) : Type 0 where
  pub rscore : d'.rscore ≡ (if counts then d.rscore +ℤ ranked_score_delta z else d.rscore)
  pub grades :
      (g : Grade)
      → counted g ≡ true
      → (old : ℤ) → d.grades g ≡ some old
      → d'.grades g
        ≡ some (if counts then old +ℤ (one_at z.grade g -ℤ one_prev z.prev_best g) else old)

-- the statistics are those of `d` but for other attributes
pub record SameRanked (d d' : ModeData) : Type 0 where
  pub rscore : d'.rscore ≡ d.rscore
  pub grades : d'.grades ≡ d.grades

both :
    {d d' : ModeData} {u u' : Updates}
    → ◌≡◌ {A = Option (ModeData × Updates)} (some (d, u)) (some (d', u'))
    → d ≡ d'
both e = ap (λ p. p.0) (some_inj e)

module _ (z : Score) where
  SameRanked-Moves :
      {c : Bool} {d d1 d' : ModeData} → SameRanked d d1 → Moves c z d1 d' → Moves c z d d'
  SameRanked-Moves {c} s m = record {
    rscore = m.rscore ∙ ap (λ (k : ℤ). if c then k +ℤ ranked_score_delta z else k) s.rscore;
    grades = λ g h old e. m.grades g h old (ap (λ f. f g) s.grades ∙ e);
  }

  grades_with : {d d1 : ModeData} → SameRanked d d1 → HasGrades d → HasGrades d1
  grades_with s has g h = let (k, e) = has g h in (k, ap (λ f. f g) s.grades ∙ e)

  unmoved : (d : ModeData) → Moves false z d d
  unmoved d = record { rscore = refl; grades = λ g h old e. e }

  picked :
      (b : Bool) (d d' : ModeData) (u u' : Updates)
      → HasGrades d
      → (if b then apply_ranked_score_stats z d u else some (d, u)) ≡ some (d', u')
      → Moves b z d d'
  picked true d d' u u' has e =
      let (d1, u1, q, same, moved, others) = apply_ranked_score_stats-counts z d u has in
      let found : Moves true z d d1 = record {
        rscore =
            ap (λ (k : ModeData). k.rscore) same
            ∙ ap (λ (v : ℤ). d.rscore +ℤ v) (sym (delta_prev z));
        grades = moved;
      } in
      subst (Moves true z d) (both (sym q ∙ e)) found
  picked false d d' u u' has e = subst (Moves false z d) (both e) (unmoved d)

  module _ (b : Bool) (personal : is_personal_best z ≡ some b) where
    apply_best-Moves :
        (d d' : ModeData) (u u' : Updates)
        → HasGrades d
        → apply_best z d u ≡ some (d', u')
        → Moves b z d d'
    unfolding apply_best awards_ranked_pp
    apply_best-Moves d d' u u' has e = picked b d d' u u' has (
        subst
          (λ o.
            ◌≡◌ {A = Option (ModeData × Updates)}
              (o >>= λ p. if p then apply_ranked_score_stats z d u else some (d, u))
              (some (d', u')))
          personal e)

    on_board :
        (board : Bool) (d d' : ModeData) (u u' : Updates)
        → HasGrades d
        → (if not board then some (d, u) else apply_best z d u) ≡ some (d', u')
        → Moves (board && b) z d d'
    on_board true d d' u u' has e = apply_best-Moves d d' u u' has e
    on_board false d d' u u' has e = subst (Moves false z d) (both e) (unmoved d)

    longer_same :
        (l : Bool) (d : ModeData)
        → SameRanked d (if l then record d { max_combo = z.max_combo } else d)
    longer_same true d = record { rscore = refl; grades = refl }
    longer_same false d = record { rscore = refl; grades = refl }

    apply_passed-Moves :
        (d d' : ModeData) (u u' : Updates)
        → HasGrades d
        → apply_passed z d u ≡ some (d', u')
        → Moves (has_leaderboard z.bmap && b) z d d'
    unfolding apply_passed
    apply_passed-Moves d d' u u' has e =
        let l = lt_ℤ d.max_combo z.max_combo in
        let same = longer_same l d in
        SameRanked-Moves same (
          on_board (has_leaderboard z.bmap) (if l then record d { max_combo = z.max_combo } else d)
            d' (if l then record u { max_combo = some z.max_combo } else u) u'
            (grades_with same has) e)

    timed :
        (o : Option ℤ) (d d1 : ModeData) (u : Updates)
        → ◌≡◌ {A = Option (ModeData × Updates)}
            (o >>= λ time. some (base_with z d time))
            (some (d1, u))
        → SameRanked d d1
    unfolding base_with
    timed none d d1 u e = absurd (cc)
    timed (some time) d d1 u e =
        subst (SameRanked d) (both e) (record { rscore = refl; grades = refl })

    based :
        (o : Option (ModeData × Updates)) (d d' : ModeData) (u' : Updates)
        → ((d1 : ModeData) (u : Updates) → o ≡ some (d1, u) → SameRanked d d1)
        → HasGrades d
        → ◌≡◌ {A = Option (ModeData × Updates)} (o >>= λ p. apply_passed z p.0 p.1) (some (d', u'))
        → Moves (has_leaderboard z.bmap && b) z d d'
    based none d d' u' same has e = absurd (cc)
    based (some (d1, u)) d d' u' same has e =
        let s = same d1 u refl in
        SameRanked-Moves s (apply_passed-Moves d1 d' u u' (grades_with s has) e)

    -- the ranked score and the grades move if the map has a leaderboard and the score is a best one
    pub apply_score_stats-Moves :
        (d d' : ModeData) (u' : Updates)
        → z.passed ≡ true
        → HasGrades d
        → apply_score_stats z d ≡ some (d', u')
        → Moves (has_leaderboard z.bmap && b) z d d'
    unfolding apply_score_stats apply_score_base_stats
    apply_score_stats-Moves d d' u' passed has e =
        based (apply_score_base_stats z d) d d' u' (λ d1 u q. timed z.time_elapsed d d1 u q) has
          (subst
            (λ p.
              ◌≡◌ {A = Option (ModeData × Updates)}
                (apply_score_base_stats z d >>= λ both.
                  if not p then some both else apply_passed z both.0 both.1)
                (some (d', u')))
            passed e)
