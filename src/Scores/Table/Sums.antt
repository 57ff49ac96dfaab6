-- ===== src/Scores/Table/Sums.antt =====
-- Sums over the best scores of a user in a mode, on the maps that have a leaderboard, under the UPDATE
-- and the INSERT of a submission.
use eunga_py.Prelude.{
  ℕ, ◌≡◌, refl, sym, ap, ◌∙◌, inl, inr, Bool, true, false, ◌&&◌, List, [], ◌∷◌, ◌++◌, map, ◌==◌,
  Bool-cases, arith, if◌then◌else◌,
}
use eunga_py.Prelude.Int.{ℤ, pos, ◌+ℤ◌, int_laws}
use eunga_py.Prelude.Text.{Str}
use eunga_py.Prelude.Text.Laws.{eq_str-eq}
use eunga_py.Scores.Table.{Row, Key, is_best, select, demote, mark_previous_best_scores_submitted}

-- the rows that the statistics of a user in a mode stand for
unfoldable pub held : (Str → Bool) → ℕ → ℕ → Row → Bool
held board user mode r = r.status == 2 && (board r.map_md5 && (r.userid == user && r.mode == mode))

abbrev pub sum_if : (Row → Bool) → (Row → ℤ) → List Row → ℤ
sum_if p w [] = pos 0
sum_if p w (r ∷ l) = (if p r then w r else pos 0) +ℤ sum_if p w l

zero_left : (v : ℤ) → v ≡ pos 0 +ℤ v
zero_left v = omega int_laws

assoc : (u v w : ℤ) → u +ℤ (v +ℤ w) ≡ u +ℤ v +ℤ w
assoc u v w = omega int_laws

zero_right : (v : ℤ) → v +ℤ pos 0 ≡ v
zero_right v = omega int_laws

interchange : (a b c d : ℤ) → a +ℤ c +ℤ (b +ℤ d) ≡ a +ℤ b +ℤ (c +ℤ d)
interchange a b c d = omega int_laws

pub sum_if-append :
    (p : Row → Bool) (w : Row → ℤ) (l : List Row) (r : Row)
    → sum_if p w (l ++ (r ∷ [])) ≡ sum_if p w l +ℤ (if p r then w r else pos 0)
sum_if-append p w [] r = let v : ℤ = if p r then w r else pos 0 in omega int_laws
sum_if-append p w (q ∷ l) r =
    ap (λ (k : ℤ). (if p q then w q else pos 0) +ℤ k) (sum_if-append p w l r)
    ∙ assoc (if p q then w q else pos 0) (sum_if p w l) (if p r then w r else pos 0)

pub sum_if-select :
    (p : Row → Bool) (w : Row → ℤ) (l : List Row) → sum_if p w l ≡ sum_if (λ r. true) w (select p l)
sum_if-select p w [] = refl
sum_if-select p w (r ∷ l) = elim (Bool-cases (p r)) [
  | inl e ↦ rw e (ap (λ (k : ℤ). w r +ℤ k) (sum_if-select p w l))
  | inr e ↦ rw e (sym (zero_left (sum_if p w l)) ∙ sum_if-select p w l)
]

-- a row under the UPDATE
demote_best : (k : Key) (r : Row) → is_best k r ≡ true → demote k r ≡ record r { status = 1 }
unfolding demote
demote_best k r e = rw e

demote_other : (k : Key) (r : Row) → is_best k r ≡ false → demote k r ≡ r
unfolding demote
demote_other k r e = rw e

module _ (board : Str → Bool) (k : Key) (on : board k.map_md5 ≡ true) where
  held_demoted : (r : Row) → held board k.user k.mode (record r { status = 1 }) ≡ false
  unfolding held
  held_demoted r = refl

  held_best : (r : Row) → is_best k r ≡ true → held board k.user k.mode r ≡ true
  unfolding held is_best
  held_best r e =
      let maps : board r.map_md5 ≡ true =
        ap board (eq_str-eq r.map_md5 k.map_md5 (ground arith)) ∙ on in
      ground arith

  module _ (w : Row → ℤ) where
    -- what is best for the key is no longer held
    row_marked :
        (r : Row)
        → (if held board k.user k.mode (demote k r) then w (demote k r) else pos 0)
            +ℤ (if is_best k r then w r else pos 0)
          ≡ (if held board k.user k.mode r then w r else pos 0)
    row_marked r = elim (Bool-cases (is_best k r)) [
      | inl e ↦ rw (demote_best k r e, held_demoted r, e, held_best r e) (sym (zero_left (w r)))
      | inr e ↦
          rw (demote_other k r e, e)
            (zero_right (if held board k.user k.mode r then w r else pos 0))
    ]

    -- The UPDATE takes the best scores for the key out of the sum.
    pub sum_if-mark :
        (l : List Row)
        → sum_if (held board k.user k.mode) w (mark_previous_best_scores_submitted k l)
            +ℤ sum_if (is_best k) w l
          ≡ sum_if (held board k.user k.mode) w l
    unfolding mark_previous_best_scores_submitted
    sum_if-mark [] = omega int_laws
    sum_if-mark (r ∷ l) =
        let a : ℤ = if held board k.user k.mode (demote k r) then w (demote k r) else pos 0 in
        let b : ℤ = if is_best k r then w r else pos 0 in
        let c : ℤ = sum_if (held board k.user k.mode) w (map (demote k) l) in
        interchange a b c (sum_if (is_best k) w l)
        ∙ ap (λ (v : ℤ). v +ℤ (c +ℤ sum_if (is_best k) w l)) (row_marked r)
        ∙ ap (λ (v : ℤ). (if held board k.user k.mode r then w r else pos 0) +ℤ v) (sum_if-mark l)

-- On a map that has no leaderboard the UPDATE leaves the sum alone.
module _ (board : Str → Bool) (k : Key) (off : board k.map_md5 ≡ false) where
  unheld_best : (r : Row) → is_best k r ≡ true → held board k.user k.mode r ≡ false
  unfolding held is_best
  unheld_best r e =
      let maps : board r.map_md5 ≡ false =
        ap board (eq_str-eq r.map_md5 k.map_md5 (ground arith)) ∙ off in
      ground arith

  unheld_demoted : (r : Row) → held board k.user k.mode (record r { status = 1 }) ≡ false
  unfolding held
  unheld_demoted r = refl

  module _ (w : Row → ℤ) where
    row_off :
        (r : Row)
        → (if held board k.user k.mode (demote k r) then w (demote k r) else pos 0)
          ≡ (if held board k.user k.mode r then w r else pos 0)
    row_off r = elim (Bool-cases (is_best k r)) [
      | inl e ↦ rw (demote_best k r e, unheld_demoted r, unheld_best r e)
      | inr e ↦ rw (demote_other k r e)
    ]

    pub sum_if-mark_off :
        (l : List Row)
        → sum_if (held board k.user k.mode) w (mark_previous_best_scores_submitted k l)
          ≡ sum_if (held board k.user k.mode) w l
    unfolding mark_previous_best_scores_submitted
    sum_if-mark_off [] = refl
    sum_if-mark_off (r ∷ l) =
        ap (λ (v : ℤ). v +ℤ sum_if (held board k.user k.mode) w (map (demote k) l)) (row_off r)
        ∙ ap (λ (v : ℤ). (if held board k.user k.mode r then w r else pos 0) +ℤ v)
            (sum_if-mark_off l)
