-- ===== src/World/Count.antt =====
-- How often a number occurs in a list, and what `l.append(x)`, `l.remove(x)` and `x in l` say of it.
use mathlib.Core.Path.{subst}
use mathlib.Core.Bool.{false≢true}
use eunga_py.Prelude.{
  ◌≢◌, ℕ, ◌+◌, ◌≤◌, ◌≡◌, refl, sym, ap, ◌∙◌, Bool, true, false, Option, none, some, List, [], ◌∷◌,
  ◌++◌, ◌==◌, ==_iff, ==-refl, Bool-cases, inl, inr, arith, if◌then◌else◌,
}
pub use eunga_py.Prelude.Options.{some_inj}
use eunga_py.World.{contains, list_remove, update}

-- 1 if the numbers are equal
abbrev pub one : ℕ → ℕ → ℕ
one x y = if x == y then 1 else 0

abbrev pub count : ℕ → List ℕ → ℕ
count x [] = 0
count x (y ∷ l) = one y x + count x l

-- 1 if the option holds the number
abbrev pub here : Option ℕ → ℕ → ℕ
here none x = 0
here (some y) x = one y x

pub count-append : (x y : ℕ) (l : List ℕ) → count x (l ++ (y ∷ [])) ≡ count x l + one y x
count-append x y [] = omega arith
count-append x y (z ∷ l) = omega (arith, count-append x y l)

pub count-contains : (x : ℕ) (l : List ℕ) → contains l x ≡ false → count x l ≡ 0
count-contains x [] h = refl
count-contains x (y ∷ l) h = let rec = count-contains x l in ground arith

-- `x` in front of the list or behind it
front :
    (x y z : ℕ) (b : Bool) (l l' : List ℕ) (o : Option (List ℕ))
    → (z == y) ≡ b
    → ((r : List ℕ) → o ≡ some r → count x l ≡ count x r + one y x)
    → (if b then some l else elim o [ none ↦ none | some r ↦ some (z ∷ r) ]) ≡ some l'
    → one z x + count x l ≡ count x l' + one y x
front x y z true l l' o e rec h =
    subst (λ k. one z x + count x l ≡ count x k + one y x) (some_inj h)
      (subst (λ k. one z x + count x l ≡ count x l + one k x) ((==_iff z y).0 e) (omega arith))
front x y z false l l' none e rec h = absurd (cc)
front x y z false l l' (some r) e rec h =
    subst (λ k. one z x + count x l ≡ count x k + one y x) (some_inj h) (omega (arith, rec r refl))

pub count-list_remove :
    (x y : ℕ) (l l' : List ℕ) → list_remove l y ≡ some l' → count x l ≡ count x l' + one y x
count-list_remove x y [] l' h = absurd (cc)
count-list_remove x y (z ∷ l) l' h =
    front x y z (z == y) l l' (list_remove l y) refl (count-list_remove x y l) h

pub one_refl : (x : ℕ) → one x x ≡ 1
one_refl x = ground arith

pub update_same : {A : Type 0} (f : ℕ → A) (k : ℕ) (v : A) → update f k v k ≡ v
update_same f k v = ap (λ b. if b then v else f k) (==-refl k)

pub one_ne : (x y : ℕ) → x ≢ y → one x y ≡ 0
one_ne x y h = ground arith

pub here_le : (o : Option ℕ) (x : ℕ) → here o x ≤ 1
here_le none x = omega arith
here_le (some y) x = ground arith

pub one_eq : (x y : ℕ) → 1 ≤ one x y → x ≡ y
one_eq x y h = ground arith

-- An attribute that an assignment keeps is the same at each place.
pub update_keeps :
    {A B : Type 0} (g : A → B) (f : ℕ → A) (k : ℕ) (v : A) (q : ℕ)
    → g v ≡ g (f k)
    → g (update f k v q) ≡ g (f q)
update_keeps g f k v q e = elim (Bool-cases (q == k)) [
  | inl h ↦
      subst (λ b. g (if b then v else f q) ≡ g (f q)) (sym h)
        (e ∙ ap (λ i. g (f i)) (sym ((==_iff q k).0 h)))
  | inr h ↦ subst (λ b. g (if b then v else f q) ≡ g (f q)) (sym h) refl
]

-- An attribute of the object assigned to.
pub update_map :
    {A B : Type 0} (g : A → B) (f : ℕ → A) (k : ℕ) (v : A) (q : ℕ)
    → g (update f k v q) ≡ update (λ i. g (f i)) k (g v) q
update_map g f k v q = elim (Bool-cases (q == k)) [
  | inl h ↦ subst (λ b. g (if b then v else f q) ≡ (if b then g v else g (f q))) (sym h) refl
  | inr h ↦ subst (λ b. g (if b then v else f q) ≡ (if b then g v else g (f q))) (sym h) refl
]

-- A claim on each place after an assignment: on the new value, and on the others.
pub update_at :
    {A : Type 0} (P : ℕ → A → Type 0) (f : ℕ → A) (k : ℕ) (v : A)
    → P k v
    → ((q : ℕ) → q ≢ k → P q (f q))
    → (q : ℕ) → P q (update f k v q)
update_at P f k v new others q = elim (Bool-cases (q == k)) [
  | inl h ↦
      subst (λ b. P q (if b then v else f q)) (sym h)
        (subst (λ i. P i v) (sym ((==_iff q k).0 h)) new)
  | inr h ↦
      subst (λ b. P q (if b then v else f q)) (sym h)
        (others q (λ e. false≢true (sym h ∙ (==_iff q k).1 e)))
]

-- A claim on all numbers: on one, and on the others.
pub split_at : (P : ℕ → Type 0) (k : ℕ) → P k → ((q : ℕ) → q ≢ k → P q) → (q : ℕ) → P q
split_at P k new others = update_at (λ q u. P q) (λ q. tt) k tt new others
