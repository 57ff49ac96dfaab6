-- ===== src/Scores/Table/Best.antt =====
-- The best scores in the table `scores` (app/repositories/scores.py): how many a user has on a map in a
-- mode, under the UPDATE and the INSERT of a submission.
use eunga_py.Prelude.{
  ◌≤◌, ◌≡◌, refl, sym, ap, ◌∙◌, inl, inr, Bool, true, not, ◌&&◌, List, [], ◌∷◌, ◌++◌, length,
  length-append, Bool-cases, arith,
}
use eunga_py.Prelude.Text.Laws.{eq_str-eq}
use eunga_py.Scores.Table.{
  Row, Key, is_best, select, fetch_best, demote, mark_previous_best_scores_submitted,
}

pub select-append : (p : Row → Bool) (l k : List Row) → select p (l ++ k) ≡ select p l ++ select p k
select-append p [] k = refl
select-append p (r ∷ l) k = elim (Bool-cases (p r)) [
  | inl e ↦ rw e (ap (λ t. r ∷ t) (select-append p l k))
  | inr e ↦ rw e (select-append p l k)
]

-- at most one best score for a user on a map in a mode
pub record OneBest (l : List Row) : Type 0 where
  pub one : (k : Key) → length (fetch_best k l) ≤ 1

-- a row is best for a key after the UPDATE for `j` if it was and was not best for `j`
is_best-demote : (j k : Key) (r : Row) → is_best k (demote j r) ≡ (is_best k r && not (is_best j r))
unfolding demote is_best
is_best-demote j k r = ground arith

is_best-eq : (j k : Key) (r : Row) → is_best j r ≡ true → is_best k r ≡ true → j ≡ k
unfolding is_best
is_best-eq j k r e f =
    let maps : j.map_md5 ≡ k.map_md5 =
      sym (eq_str-eq r.map_md5 j.map_md5 (ground arith))
      ∙ eq_str-eq r.map_md5 k.map_md5 (ground arith) in
    let users : j.user ≡ k.user = ground arith in
    let modes : j.mode ≡ k.mode = ground arith in
    λ i. record { map_md5 = maps i; user = users i; mode = modes i }

pub fetch_best-mark_le :
    (j k : Key) (l : List Row)
    → length (fetch_best k (mark_previous_best_scores_submitted j l)) ≤ length (fetch_best k l)
unfolding fetch_best mark_previous_best_scores_submitted
fetch_best-mark_le j k [] = omega arith
fetch_best-mark_le j k (r ∷ l) = ground (arith, is_best-demote j k r, fetch_best-mark_le j k l)

pub fetch_best-mark :
    (k : Key) (l : List Row) → fetch_best k (mark_previous_best_scores_submitted k l) ≡ []
unfolding fetch_best mark_previous_best_scores_submitted
fetch_best-mark k [] = refl
fetch_best-mark k (r ∷ l) = ground (arith, is_best-demote k k r, fetch_best-mark k l)

pub mark-OneBest :
    (j : Key) (l : List Row) → OneBest l → OneBest (mark_previous_best_scores_submitted j l)
mark-OneBest j l h = record { one = λ k. omega (arith, fetch_best-mark_le j k l, h.one k) }

-- A row that is not best may be added, and a best one if there is none for its key.
pub add-OneBest :
    (l : List Row) (r : Row)
    → OneBest l
    → ((k : Key) → is_best k r ≡ true → fetch_best k l ≡ [])
    → OneBest (l ++ (r ∷ []))
unfolding fetch_best
add-OneBest l r h new = record {
  one = λ k. elim (Bool-cases (is_best k r)) [
    | inl e ↦ rw (select-append (is_best k) l (r ∷ []), new k e, e) (omega arith)
    | inr e ↦ rw (select-append (is_best k) l (r ∷ []), e, length-append) (omega (arith, h.one k))
  ];
}
