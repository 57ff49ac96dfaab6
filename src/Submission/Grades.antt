-- ===== src/Submission/Grades.antt =====
-- The counts of grades under `apply_ranked_score_stats` of app/services/score_submission.py.
use mathlib.Core.Bool.{true≢false}
use eunga_py.Prelude.{
  false, ℕ, ◌≡◌, refl, sym, ap, ◌∙◌, inl, inr, Bool-cases, true, ◌&&◌, Option, none, some, List, [],
  ◌∷◌, ◌==◌, arith, if◌then◌else◌,
}
use eunga_py.Prelude.Int.{ℤ, pos, ◌+ℤ◌, ◌-ℤ◌, int_laws}
use eunga_py.Prelude.Options.{some_inj}
use eunga_py.Scores.{Grade, n, f, d, c, b, a, s, sh, x, xh, grade_value, eq_grade, counted}
use eunga_py.Scores.Play.{Score, Previous}
use eunga_py.Submission.{ModeData}
use eunga_py.Submission.Stats.{
  Updates, grade_deltas, grade_count_deltas, set_grade_count_update, at_grade, apply_deltas,
  apply_ranked_score_stats, ranked_score_delta,
}

-- one for a grade that is counted, at that grade
abbrev pub one_at : Grade → Grade → ℤ
one_at g h = if counted g && eq_grade g h then pos 1 else pos 0

abbrev pub one_prev : Option Previous → Grade → ℤ
one_prev none h = pos 0
one_prev (some prev) h = one_at prev.grade h

-- the score of the score before, if there is one
abbrev pub prev_score : Option Previous → ℤ
prev_score none = pos 0
prev_score (some prev) = prev.score

-- the dictionary of statistics has the grades from A on
abbrev pub HasGrades : ModeData → Type 0
HasGrades stats = (g : Grade) → counted g ≡ true → (k : ℤ) × (stats.grades g ≡ some k)

set_update :
    (u : Updates) (g : Grade) (v : ℤ)
    → counted g ≡ true
    → (u' : Updates) × (set_grade_count_update u g v ≡ some u')
unfolding set_grade_count_update grade_value
set_update u xh v h = (_, refl)
set_update u x v h = (_, refl)
set_update u sh v h = (_, refl)
set_update u s v h = (_, refl)
set_update u a v h = (_, refl)
set_update u n v h = absurd (cc)
set_update u f v h = absurd (cc)
set_update u d v h = absurd (cc)
set_update u c v h = absurd (cc)
set_update u b v h = absurd (cc)

-- the sum of the deltas of a grade
abbrev delta_at : List (Grade × ℤ) → Grade → ℤ
delta_at [] g = pos 0
delta_at ((h, k) ∷ l) g = (if eq_grade h g then k else pos 0) +ℤ delta_at l g

abbrev AllCounted : List (Grade × ℤ) → Type 0
AllCounted [] = Unit
AllCounted ((g, k) ∷ l) = (counted g ≡ true) × AllCounted l

-- what the loop makes of the statistics
pub record Applied (stats stats' : ModeData) (D : Grade → ℤ) : Type 0 where
  pub same : stats' ≡ record stats { grades = stats'.grades }
  pub moved :
      (g : Grade)
      → counted g ≡ true
      → (old : ℤ) → stats.grades g ≡ some old
      → stats'.grades g ≡ some (old +ℤ D g)
  pub others : (g : Grade) → counted g ≡ false → stats'.grades g ≡ stats.grades g

add_zero : (v : ℤ) → v ≡ v +ℤ pos 0
add_zero v = omega int_laws

Applied-HasGrades :
    {stats stats' : ModeData} {D : Grade → ℤ}
    → HasGrades stats
    → Applied stats stats' D
    → HasGrades stats'
Applied-HasGrades {D} has p g h = let (k, e) = has g h in (k +ℤ D g, p.moved g h k e)

grade_of : ℕ → Grade
grade_of k =
    if k == 0
    then n
    else if k == 1
    then f
    else if k == 2
    then d
    else if k == 3
    then c
    else if k == 4
    then b
    else if k == 5
    then a
    else if k == 6
    then s
    else if k == 7
    then sh
    else if k == 8
    then x
    else xh

grade_of-value : (g : Grade) → grade_of (grade_value g) ≡ g
unfolding grade_of grade_value
grade_of-value n = refl
grade_of-value _ = refl

pub eq_grade-eq : (g h : Grade) → eq_grade g h ≡ true → g ≡ h
unfolding grade_value
eq_grade-eq g h e =
    let same : grade_value g ≡ grade_value h = ground arith in
    sym (grade_of-value g) ∙ ap grade_of same ∙ grade_of-value h

at_grade_lem :
    (counts : Grade → Option ℤ) (g h : Grade) (old v old' : ℤ)
    → counts g ≡ some old
    → counts h ≡ some old'
    → (eq_grade g h ≡ true → g ≡ h)
    → at_grade counts g (old +ℤ v) h ≡ some (old' +ℤ (if eq_grade g h then v else pos 0))
unfolding at_grade
at_grade_lem counts g h old v old' e e' same = elim (Bool-cases (eq_grade g h)) [
  | inl q ↦ rw q (
      let r : old ≡ old' = some_inj (sym e ∙ ap counts (same q) ∙ e') in
      ap (λ (k : ℤ). some (k +ℤ v)) r)
  | inr q ↦ rw q (e' ∙ ap (λ (k : ℤ). some k) (add_zero old'))
]

-- a grade below A is none of those that are counted
at_grade_other :
    (counts : Grade → Option ℤ) (g h : Grade) (v : ℤ)
    → counted g ≡ true
    → counted h ≡ false
    → at_grade counts g v h ≡ counts h
unfolding at_grade
at_grade_other counts g h v yes_g no_h = elim (Bool-cases (eq_grade g h)) [
  | inl q ↦ absurd (true≢false (sym yes_g ∙ ap counted (eq_grade-eq g h q) ∙ no_h))
  | inr q ↦ rw q
]

plus_assoc : (u v w : ℤ) → u +ℤ v +ℤ w ≡ u +ℤ (v +ℤ w)
plus_assoc u v w = omega int_laws

Applied-trans :
    {p q r : ModeData} {D E : Grade → ℤ}
    → Applied p q D
    → Applied q r E
    → Applied p r (λ g. D g +ℤ E g)
Applied-trans {r} {D} {E} one two = record {
  same = two.same ∙ ap (λ (m : ModeData). record m { grades = r.grades }) one.same;
  moved = λ g h old e.
      two.moved g h (old +ℤ D g) (one.moved g h old e)
      ∙ ap (λ (k : ℤ). some k) (plus_assoc old (D g) (E g));
  others = λ g h. two.others g h ∙ one.others g h;
}

-- one round of the loop, then the others
apply_deltas-Applied :
    (l : List (Grade × ℤ)) (stats : ModeData) (u : Updates)
    → AllCounted l
    → HasGrades stats
    → (stats' : ModeData) × (u' : Updates) × (apply_deltas l stats u ≡ some (stats', u'))
      × Applied stats stats' (delta_at l)
unfolding apply_deltas
apply_deltas-Applied [] stats u all has = (
  stats,
  u,
  refl,
  record {
    same = refl;
    moved = λ g h old e. e ∙ ap (λ (k : ℤ). some k) (add_zero old);
    others = λ g h. refl;
  },
)
apply_deltas-Applied ((g, k) ∷ l) stats u all has =
    let (old, e) = has g all.0 in
    let (u1, q) = set_update u g (old +ℤ k) all.0 in
    let next : ModeData = record stats { grades = at_grade stats.grades g (old +ℤ k) } in
    let first : Applied stats next (λ h. if eq_grade g h then k else pos 0) = record {
      same = refl;
      moved = λ h ch old' e'. at_grade_lem stats.grades g h old k old' e e' (eq_grade-eq g h);
      others = λ h ch. at_grade_other stats.grades g h (old +ℤ k) all.0 ch;
    } in
    let (stats', u', r, rest) =
      apply_deltas-Applied l next u1 all.1 (Applied-HasGrades has first) in
    (stats', u', rw (e, q) r, Applied-trans first rest)

-- The deltas are those of grades from A on, and sum up to one for the grade of the score less one for the
-- grade of the score before.
deltas-AllCounted : (g : Grade) (prev : Option Previous) → AllCounted (grade_deltas g prev)
unfolding grade_deltas
deltas-AllCounted g none = elim (Bool-cases (counted g)) [ inl q ↦ rw q (q, tt) | inr q ↦ rw q tt ]
deltas-AllCounted g (some prev) = elim (Bool-cases (eq_grade g prev.grade)) [
  | inl e ↦ rw e tt
  | inr e ↦ elim (Bool-cases (counted g)) [
    | inl q ↦ elim (Bool-cases (counted prev.grade)) [
      | inl r ↦ rw (e, q, r, e) (q, (r, tt))
      | inr r ↦ rw (e, q, r) (q, tt)
    ]
    | inr q ↦ elim (Bool-cases (counted prev.grade)) [
      | inl r ↦ rw (e, q, r) (r, tt)
      | inr r ↦ rw (e, q, r) tt
    ]
  ]
]

self_zero : (v : ℤ) → pos 0 ≡ v -ℤ v
self_zero v = omega int_laws

delta_at-deltas :
    (g h : Grade) (prev : Option Previous)
    → delta_at (grade_deltas g prev) h ≡ one_at g h -ℤ one_prev prev h
unfolding grade_deltas ◌+ℤ◌ ◌-ℤ◌
delta_at-deltas g h none = elim (Bool-cases (counted g)) [
  | inl q ↦ elim (Bool-cases (eq_grade g h)) [ inl r ↦ rw (q, r) | inr r ↦ rw (q, r) ]
  | inr q ↦ rw q
]
delta_at-deltas g h (some prev) = elim (Bool-cases (eq_grade g prev.grade)) [
  | inl e ↦ rw e (
      self_zero (one_at g h)
      ∙ ap (λ (k : Grade). one_at g h -ℤ one_at k h) (eq_grade-eq g prev.grade e))
  | inr e ↦ rw e (ground arith)
]

less_zero : (v : ℤ) → v ≡ v -ℤ pos 0
less_zero v = omega int_laws

less_prev :
    (v : ℤ) (p : Option Previous)
    → elim p [ none ↦ v | some prev ↦ v -ℤ prev.score ] ≡ v -ℤ prev_score p
less_prev v none = less_zero v
less_prev v (some prev) = refl

pub delta_prev : (z : Score) → ranked_score_delta z ≡ z.score -ℤ prev_score z.prev_best
unfolding ranked_score_delta
delta_prev z = less_prev z.score z.prev_best

-- Where the statistics have the counts of the grades from A on, `apply_ranked_score_stats` does not
-- raise. It adds the score less that of the score before, if there is one, to the ranked score, and
-- each grade from A on gains one if it is the grade of the score and loses one if it is the grade of
-- the score before; the counts of the other grades and all else of the statistics stay as they were.
pub apply_ranked_score_stats-counts :
    (score : Score) (stats : ModeData) (u : Updates)
    → HasGrades stats
    → (stats' : ModeData) × (u' : Updates) × (apply_ranked_score_stats score stats u
        ≡ some (stats', u'))
      × (stats' ≡ record stats {
        rscore = stats.rscore +ℤ (score.score -ℤ prev_score score.prev_best);
        grades = stats'.grades;
      })
      × ((g : Grade)
          → counted g ≡ true
          → (old : ℤ) → stats.grades g ≡ some old
          → stats'.grades g ≡ some (old +ℤ (one_at score.grade g -ℤ one_prev score.prev_best g)))
      × ((g : Grade) → counted g ≡ false → stats'.grades g ≡ stats.grades g)
unfolding apply_ranked_score_stats grade_count_deltas
apply_ranked_score_stats-counts score stats u has =
    let l = grade_deltas score.grade score.prev_best in
    let (next, u1, e, applied) =
      apply_deltas-Applied l stats u (deltas-AllCounted score.grade score.prev_best) has in
    let r = next.rscore +ℤ ranked_score_delta score in
    (
      record next { rscore = r },
      record u1 { rscore = some r },
      rw e,
      ap
            (λ (m : ModeData). record m {
              rscore = m.rscore +ℤ ranked_score_delta score;
              grades = next.grades;
            })
            applied.same
          ∙ ap (λ (v : ℤ). record stats { rscore = stats.rscore +ℤ v; grades = next.grades })
              (delta_prev score),
      λ g h old q.
          applied.moved g h old q
          ∙ ap (λ (k : ℤ). some (old +ℤ k)) (delta_at-deltas score.grade g score.prev_best),
      applied.others,
    )
