-- ===== src/Submission/Reflects.antt =====
-- The statistics of a player as sums over the best scores in the table, under
-- `persist_score_submission` of app/services/score_submission.py.
use mathlib.Core.Path.{subst}
use eunga_py.Prelude.{
  ℕ, ◌≡◌, refl, sym, ap, ◌∙◌, inl, inr, Bool, true, ◌&&◌, Option, none, some, List, [], ◌∷◌, ◌++◌,
  ◌==◌, ==-refl, Bool-cases, arith, if◌then◌else◌,
}
use eunga_py.Prelude.Int.{ℤ, pos, ◌+ℤ◌, ◌-ℤ◌, int_laws}
use eunga_py.Prelude.Options.{some_inj}
use eunga_py.Prelude.Text.{Str, eq_str}
use eunga_py.GameMode.{value}
use eunga_py.Submission.Names.{one_named}
use eunga_py.Scores.{
  Grade, counted, grade_name, SubmissionStatus, failed, submitted, best, submission_value, Floats,
}
use eunga_py.Scores.Table.{Row, is_best, select, fetch_best, mark_previous_best_scores_submitted}
use eunga_py.Scores.Table.Sums.{
  held, sum_if, sum_if-append, sum_if-select, sum_if-mark, sum_if-mark_off,
}
use eunga_py.Scores.Play.{Score, Previous, has_leaderboard, key_of}
use eunga_py.Submission.{ModeData, State, done}
use eunga_py.Submission.Stats.{is_personal_best}
use eunga_py.Submission.Grades.{prev_score, delta_prev, one_at, one_prev}
use eunga_py.Submission.Totals.{Moves}
use eunga_py.Submission.Added.{marked}
use eunga_py.Submission.Best.{row_from-some}
use eunga_py.Submission.Whole.{persist_score_submission-Ends}
use eunga_py.Submission.Persist.{Server, row_of, row_with}
use eunga_py.Submission.Transaction.{Outcome, persist_score_submission}

abbrev pub score_of : Row → ℤ
score_of r = r.score

-- one for a row of the grade
abbrev pub of_grade : Grade → Row → ℤ
of_grade g r = if eq_str r.grade (grade_name g) then pos 1 else pos 0

-- The ranked score is the sum of the scores held, and the counts of grades from A on count them.
pub record Reflects (board : Str → Bool) (user mode : ℕ) (l : List Row) (stats : ModeData)
    : Type 0 where
  pub rscore : stats.rscore ≡ sum_if (held board user mode) score_of l
  pub grades :
      (g : Grade)
      → counted g ≡ true
      → stats.grades g ≡ some (sum_if (held board user mode) (of_grade g) l)

-- the previous best score is the one best row for the key, if there is one
abbrev pub Matches : Option Previous → List Row → Type 0
Matches none [] = Unit
Matches (some p) (r ∷ []) = (p.score ≡ r.score) × (r.grade ≡ grade_name p.grade)
Matches _ _ = ⊥

personal_value :
    (z : Score) (st : SubmissionStatus)
    → z.status ≡ some st
    → (b : Bool) → is_personal_best z ≡ some b
    → (submission_value st == 2) ≡ b
unfolding is_personal_best submission_value
personal_value z failed e b p = some_inj (sym (rw e) ∙ p)
personal_value z submitted e b p = some_inj (sym (rw e) ∙ p)
personal_value z best e b p = some_inj (sym (rw e) ∙ p)

-- the row of the score
record Stored (board : Str → Bool) (z : Score) (b : Bool) (r : Row) : Type 0 where
  score : r.score ≡ z.score
  grade : r.grade ≡ grade_name z.grade
  counts : held board z.player (value z.mode) r ≡ (has_leaderboard z.bmap && b)

row-Stored :
    (floats : Floats) (board : Str → Bool) (z : Score) (b : Bool)
    → is_personal_best z ≡ some b
    → board z.bmap.md5 ≡ has_leaderboard z.bmap
    → (row : Row) → row_of floats z ≡ some row
    → (id : ℕ) → Stored board z b (record row { id = id })
unfolding row_of row_with held
row-Stored floats board z b personal on row e id =
    let (pp, acc, st, time, known, q) =
      row_from-some floats z z.pp z.acc z.status z.time_elapsed row e in
    let best_one = personal_value z st known b personal in
    record {
      score = ap (λ (r : Row). r.score) q;
      grade = ap (λ (r : Row). r.grade) q;
      counts =
          ap (λ (r : Row). held board z.player (value z.mode) r) q
          ∙ rw (best_one, on, ==-refl z.player, ==-refl (value z.mode)) (ground arith);
    }

module _ (board : Str → Bool) (z : Score) (b : Bool)
    (on : board z.bmap.md5 ≡ has_leaderboard z.bmap) where
  abbrev total : (Row → ℤ) → List Row → ℤ
  total = sum_if (held board z.player (value z.mode))

  gained : (m v w : ℤ) → m +ℤ w ≡ m +ℤ v +ℤ (w -ℤ v)
  gained m v w = omega int_laws

  same : (u : ℤ) → u +ℤ pos 0 ≡ u
  same u = omega int_laws

  -- how a sum moves when a row is added, and the best ones before are no longer held
  total-inserted :
      (w : Row → ℤ) (l : List Row) (row : Row) (new old : ℤ)
      → held board z.player (value z.mode) row ≡ (has_leaderboard z.bmap && b)
      → w row ≡ new
      → sum_if (is_best (key_of z)) w l ≡ old
      → total w (marked z b l ++ (row ∷ []))
        ≡ (if has_leaderboard z.bmap && b then total w l +ℤ (new -ℤ old) else total w l)
  unfolding key_of
  total-inserted w l row new old counts fresh before =
      sum_if-append (held board z.player (value z.mode)) w (marked z b l) row
      ∙ rw counts (elim (Bool-cases b) [
        | inl p ↦ elim (Bool-cases (has_leaderboard z.bmap)) [
          | inl h ↦
              rw (p, h, fresh)
                (gained (total w (mark_previous_best_scores_submitted (key_of z) l)) old new
                  ∙ ap (λ (v : ℤ). v +ℤ (new -ℤ old))
                      (ap
                          (λ (v : ℤ).
                            total w (mark_previous_best_scores_submitted (key_of z) l) +ℤ v)
                          (sym before)
                        ∙ sum_if-mark board (key_of z) (on ∙ h) w l))
          | inr h ↦ rw (p, h) (same _ ∙ sum_if-mark_off board (key_of z) (on ∙ h) w l)
        ]
        | inr p ↦ elim (Bool-cases (has_leaderboard z.bmap)) [
          | inl h ↦ rw (p, h) (same (total w l))
          | inr h ↦ rw (p, h) (same (total w l))
        ]
      ])

  -- the row of the score before has its score and its grade
  before_score :
      (p : Option Previous) (l : List Row)
      → Matches p l
      → sum_if (λ r. true) score_of l ≡ prev_score p
  before_score none [] m = refl
  before_score none (r ∷ _) m = elim m [ ]
  before_score (some p) [] m = elim m [ ]
  before_score (some p) (r ∷ (_ ∷ _)) m = elim m [ ]
  before_score (some p) (r ∷ []) m = same r.score ∙ sym m.0

  before_grade :
      (g : Grade)
      → counted g ≡ true
      → (p : Option Previous) (l : List Row) → Matches p l
      → sum_if (λ r. true) (of_grade g) l ≡ one_prev p g
  before_grade g h none [] m = refl
  before_grade g h none (r ∷ _) m = elim m [ ]
  before_grade g h (some p) [] m = elim m [ ]
  before_grade g h (some p) (r ∷ (_ ∷ _)) m = elim m [ ]
  before_grade g h (some p) (r ∷ []) m =
      same (of_grade g r)
      ∙ ap (λ (v : Str). if eq_str v (grade_name g) then pos 1 else pos 0) m.1
      ∙ one_named p.grade g h

  -- the statistics that have moved are the sums again
  Moves-Reflects :
      (l : List Row) (row : Row) (d0 d : ModeData)
      → Reflects board z.player (value z.mode) l d0
      → Matches z.prev_best (fetch_best (key_of z) l)
      → Stored board z b row
      → Moves (has_leaderboard z.bmap && b) z d0 d
      → Reflects board z.player (value z.mode) (marked z b l ++ (row ∷ [])) d
  unfolding fetch_best
  Moves-Reflects l row d0 d sums m stored moved =
      let k = key_of z in
      let counts = has_leaderboard z.bmap && b in
      let of_best = sum_if-select (is_best k) in
      record {
        rscore =
            moved.rscore
            ∙ (λ i. if counts then sums.rscore i +ℤ delta_prev z i else sums.rscore i)
            ∙ sym (
                total-inserted score_of l row z.score (prev_score z.prev_best) stored.counts
                  stored.score
                  (of_best score_of l ∙ before_score z.prev_best (select (is_best k) l) m));
        grades = λ g h.
            moved.grades g h (total (of_grade g) l) (sums.grades g h)
            ∙ ap some (
                sym (
                  total-inserted (of_grade g) l row (one_at z.grade g) (one_prev z.prev_best g)
                    stored.counts
                    (ap (λ (v : Str). if eq_str v (grade_name g) then pos 1 else pos 0) stored.grade
                      ∙ one_named z.grade g h)
                    (of_best (of_grade g) l
                      ∙ before_grade g h z.prev_best (select (is_best k) l) m)));
      }

-- Let the statistics of the player of a passed score, in the mode of the score, be the sums over the
-- player's best scores in the table on the maps that have a leaderboard: the ranked score that of their
-- scores, each count of grades from A on the number of them that have the grade; `board` says which maps
-- have a leaderboard, the map of the score as the object of the map does. Let the previous best score of
-- the submission be the best one in the table for the map, the player and the mode, or be missing if the
-- table has none. If `persist_score_submission` ends without raising, whatever the database answers on
-- the way, then the statistics of the player in the mode are these sums over the table as it is then.
pub persist_score_submission-Reflects :
    (server : Server) (board : Str → Bool) (before : State) (stats : ModeData)
    → (before.players before.score.player).stats before.score.mode ≡ some stats
    → Reflects board before.score.player (value before.score.mode) before.tables.scores.list stats
    → (b : Bool) → is_personal_best before.score ≡ some b
    → Matches before.score.prev_best (fetch_best (key_of before.score) before.tables.scores.list)
    → before.score.passed ≡ true
    → board before.score.bmap.md5 ≡ has_leaderboard before.score.bmap
    → (o : Outcome) (after : State) → persist_score_submission server before ≡ (done o, after)
    → (stats' : ModeData) × ((after.players before.score.player).stats before.score.mode
        ≡ some stats')
      × Reflects board before.score.player (value before.score.mode) after.tables.scores.list stats'
persist_score_submission-Reflects server board before stats found sums b personal m passed on o
      after e =
    let z = before.score in
    let l = before.tables.scores.list in
    let p =
      (persist_score_submission-Ends server z b personal passed l stats
          (λ g h. (_, sums.grades g h))).apply
        before (record { rows = refl; whose = refl; stats = stats; found = found; shape = refl }) o
        after e in
    let stored = row-Stored server.python.floats board z b personal on p.row p.of_score p.id in
    let new = record p.row { id = p.id } in
    (
      p.at.stats,
      p.at.found,
      subst (λ k. Reflects board z.player (value z.mode) k p.at.stats) (sym p.at.rows)
          (Moves-Reflects board z b on l new stats p.at.stats sums m stored p.at.shape),
    )
