-- ===== src/Submission/Names.antt =====
-- The names of the grades of app/objects/score.py, as the column `grade` of a score has them.
use eunga_py.Prelude.{◌≡◌, refl, ap, ◌∙◌, inl, inr, true, Bool-cases, if◌then◌else◌}
use eunga_py.Prelude.Int.{pos}
use eunga_py.Prelude.Text.{eq_str}
use eunga_py.Scores.{
  Grade, n, f, d, c, b, a, s, sh, x, xh, grade_value, eq_grade, counted, grade_name,
}
use eunga_py.Submission.Grades.{one_at, eq_grade-eq}

-- grades have the same name if they are the same
name_eq : (g h : Grade) → eq_str (grade_name g) (grade_name h) ≡ eq_grade g h
unfolding grade_name grade_value
name_eq n n = refl
name_eq n _ = refl
name_eq f f = refl
name_eq f _ = refl
name_eq d d = refl
name_eq d _ = refl
name_eq c c = refl
name_eq c _ = refl
name_eq b b = refl
name_eq b _ = refl
name_eq a a = refl
name_eq a _ = refl
name_eq s s = refl
name_eq s _ = refl
name_eq sh sh = refl
name_eq sh _ = refl
name_eq x x = refl
name_eq x _ = refl
name_eq xh xh = refl
name_eq xh _ = refl

pub one_named :
    (g h : Grade)
    → counted h ≡ true
    → (if eq_str (grade_name g) (grade_name h) then pos 1 else pos 0) ≡ one_at g h
one_named g h e = rw (name_eq g h) (elim (Bool-cases (eq_grade g h)) [
  | inl q ↦ let same : counted g ≡ true = ap counted (eq_grade-eq g h q) ∙ e in rw (q, same)
  | inr q ↦ rw q (elim (Bool-cases (counted g)) [ inl r ↦ rw r | inr r ↦ rw r ])
])
