-- ===== src/Mods/Text/RoundTrip.antt =====
-- The printed form of a mask of mods under `from_modstr` of app/constants/mods.py.
use eunga_py.Prelude.{
  ℕ, ◌^◌, ◌<◌, ◌≡◌, refl, ◌∙◌, inl, inr, Bool, true, false, ◌&&◌, ◌||◌, List, [], ◌∷◌, ◌++◌, All,
  any, ◌==◌, Bool-cases, arith, if◌then◌else◌,
}
use eunga_py.Prelude.Text.{Str}
use eunga_py.Bits.{has, bit, bit-bit_or}
use eunga_py.Bits.Digits.{Agree-eq, bit_or-lt}
use eunga_py.Bits.Masks.{has-flag}
use eunga_py.Mods.{Mods, nomod, all_mods, ◌∣∣◌}
use eunga_py.Mods.Text.{
  modstr2mod, mod2modstr, find_str, chunks, join_mods, names, from_modstr, mods_repr,
}

infixr 20 ◌⊗◌
abbrev ◌⊗◌ : {A B : Type 0} → A → B → A × B
a ⊗ b = (a, b)

-- the name of a single mod, in front of any text, is parsed as that mod
abbrev IsNamed : Mods → Type 0
IsNamed k =
    (s : Str) (acc : Mods)
    → join_mods modstr2mod acc (chunks (find_str k mod2modstr ++ s))
      ≡ join_mods modstr2mod (acc ∣∣ k) (chunks s)

-- the mods of the list that are in the mask, put together
abbrev union : Mods → Mods → List Mods → Mods
union acc m [] = acc
union acc m (k ∷ l) = union (if has m k then acc ∣∣ k else acc) m l

all_mods-IsNamed : All IsNamed all_mods
all_mods-IsNamed =
    (λ s acc. refl)
    ⊗ (λ s acc. refl)
    ⊗ (λ s acc. refl)
    ⊗ (λ s acc. refl)
    ⊗ (λ s acc. refl)
    ⊗ (λ s acc. refl)
    ⊗ (λ s acc. refl)
    ⊗ (λ s acc. refl)
    ⊗ (λ s acc. refl)
    ⊗ (λ s acc. refl)
    ⊗ (λ s acc. refl)
    ⊗ (λ s acc. refl)
    ⊗ (λ s acc. refl)
    ⊗ (λ s acc. refl)
    ⊗ (λ s acc. refl)
    ⊗ (λ s acc. refl)
    ⊗ (λ s acc. refl)
    ⊗ (λ s acc. refl)
    ⊗ (λ s acc. refl)
    ⊗ (λ s acc. refl)
    ⊗ (λ s acc. refl)
    ⊗ (λ s acc. refl)
    ⊗ (λ s acc. refl)
    ⊗ (λ s acc. refl)
    ⊗ (λ s acc. refl)
    ⊗ (λ s acc. refl)
    ⊗ (λ s acc. refl)
    ⊗ (λ s acc. refl)
    ⊗ (λ s acc. refl)
    ⊗ (λ s acc. refl)
    ⊗ (λ s acc. refl)
    ⊗ tt

join_mods-names :
    (m : Mods) (l : List Mods)
    → All IsNamed l
    → (acc : Mods) → join_mods modstr2mod acc (chunks (names m l)) ≡ union acc m l
join_mods-names m [] p acc = refl
join_mods-names m (k ∷ l) p acc = elim (Bool-cases (has m k)) [
  | inl e ↦ rw e (p.0 (names m l) acc ∙ join_mods-names m l p.1 (acc ∣∣ k))
  | inr e ↦ rw e (join_mods-names m l p.1 acc)
]

bit-union :
    (m j : ℕ) (l : List Mods) (acc : Mods)
    → bit (union acc m l) j ≡ (bit acc j || any (λ k. bit k j && has m k) l)
bit-union m j [] acc = ground arith
bit-union m j (k ∷ l) acc =
    bit-union m j l (if has m k then acc ∣∣ k else acc) ∙ elim (Bool-cases (has m k)) [
      | inl e ↦ rw e (ground (arith, bit-bit_or acc k j))
      | inr e ↦ rw e (ground arith)
    ]

union-lt :
    (m : ℕ) (l : List Mods) (acc : Mods)
    → All (λ k. k < 2 ^ 31) l
    → acc < 2 ^ 31
    → union acc m l < 2 ^ 31
union-lt m [] acc p h = h
union-lt m (k ∷ l) acc p h = elim (Bool-cases (has m k)) [
  | inl e ↦ rw e (union-lt m l (acc ∣∣ k) p.1 (bit_or-lt 31 acc k h p.0))
  | inr e ↦ rw e (union-lt m l acc p.1 h)
]

or_false : (b : Bool) → (b || false) ≡ b
or_false true = refl
or_false false = refl

digit :
    (m i : ℕ)
    → (bit 0 i || any (λ k. bit k i && has m k) all_mods) ≡ (has m (2 ^ i) || false)
    → bit (union 0 m all_mods) i ≡ bit m i
digit m i e = bit-union m i all_mods 0 ∙ e ∙ or_false (has m (2 ^ i)) ∙ has-flag m i

all_mods-small : All (λ k. k < 2 ^ 31) all_mods
all_mods-small =
    omega arith
    ⊗ omega arith
    ⊗ omega arith
    ⊗ omega arith
    ⊗ omega arith
    ⊗ omega arith
    ⊗ omega arith
    ⊗ omega arith
    ⊗ omega arith
    ⊗ omega arith
    ⊗ omega arith
    ⊗ omega arith
    ⊗ omega arith
    ⊗ omega arith
    ⊗ omega arith
    ⊗ omega arith
    ⊗ omega arith
    ⊗ omega arith
    ⊗ omega arith
    ⊗ omega arith
    ⊗ omega arith
    ⊗ omega arith
    ⊗ omega arith
    ⊗ omega arith
    ⊗ omega arith
    ⊗ omega arith
    ⊗ omega arith
    ⊗ omega arith
    ⊗ omega arith
    ⊗ omega arith
    ⊗ omega arith
    ⊗ tt

union-all_mods : (m : Mods) → m < 2 ^ 31 → union 0 m all_mods ≡ m
unfolding bit
union-all_mods m small =
    Agree-eq 31 (union 0 m all_mods) m (union-lt m all_mods 0 all_mods-small (omega arith)) small (
      digit m 0 refl
      ⊗ digit m 1 refl
      ⊗ digit m 2 refl
      ⊗ digit m 3 refl
      ⊗ digit m 4 refl
      ⊗ digit m 5 refl
      ⊗ digit m 6 refl
      ⊗ digit m 7 refl
      ⊗ digit m 8 refl
      ⊗ digit m 9 refl
      ⊗ digit m 10 refl
      ⊗ digit m 11 refl
      ⊗ digit m 12 refl
      ⊗ digit m 13 refl
      ⊗ digit m 14 refl
      ⊗ digit m 15 refl
      ⊗ digit m 16 refl
      ⊗ digit m 17 refl
      ⊗ digit m 18 refl
      ⊗ digit m 19 refl
      ⊗ digit m 20 refl
      ⊗ digit m 21 refl
      ⊗ digit m 22 refl
      ⊗ digit m 23 refl
      ⊗ digit m 24 refl
      ⊗ digit m 25 refl
      ⊗ digit m 26 refl
      ⊗ digit m 27 refl
      ⊗ digit m 28 refl
      ⊗ digit m 29 refl
      ⊗ digit m 30 refl
      ⊗ tt)

-- Any mask of the 31 mods, of one mod, of several or of none, is what its printed form is parsed as.
pub from_modstr-mods_repr : (m : Mods) → m < 2 ^ 31 → from_modstr (mods_repr m) ≡ m
unfolding from_modstr mods_repr
from_modstr-mods_repr m small = elim (Bool-cases (m == 0)) [
  | inl e ↦ rw e (ground arith)
  | inr e ↦ rw e (join_mods-names m all_mods all_mods-IsNamed nomod ∙ union-all_mods m small)
]
