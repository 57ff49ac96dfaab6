-- ===== src/Prelude/Text/Laws.antt =====
-- Equality of texts.
use mathlib.Core.Path.{subst}
use eunga_py.Prelude.{
  ◌≡◌, refl, ap, inl, inr, true, [], ◌∷◌, ◌==◌, ==_iff, ==-refl, Bool-cases, arith,
}
use eunga_py.Prelude.Text.{Str, eq_str}

pub eq_str-eq : (v w : Str) → eq_str v w ≡ true → v ≡ w
eq_str-eq [] [] e = refl
eq_str-eq [] (y ∷ w) e = absurd (cc)
eq_str-eq (x ∷ v) [] e = absurd (cc)
eq_str-eq (x ∷ v) (y ∷ w) e = elim (Bool-cases (x == y)) [
  | inl q ↦
      subst (λ z. x ∷ v ≡ z ∷ w) ((==_iff x y).0 q) (ap (λ z. x ∷ z) (eq_str-eq v w (ground arith)))
  | inr q ↦ absurd (ground arith)
]

pub eq_str_refl : (v : Str) → eq_str v v ≡ true
eq_str_refl [] = refl
eq_str_refl (x ∷ v) = rw (==-refl x) (eq_str_refl v)
