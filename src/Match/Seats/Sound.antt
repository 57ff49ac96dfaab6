-- ===== src/Match/Seats/Sound.antt =====
-- The invariant of the slots of a match, of app/objects/match.py: a slot whose status asks for a player
-- has one, and no player sits in two slots.
use mathlib.Core.Path.{subst}
use mathlib.Core.Bool.{false≢true}
use eunga_py.Prelude.{
  ℕ, zero, suc, ◌≡◌, refl, sym, ap, ◌∙◌, ◌≢◌, ◌⊎◌, inl, inr, Bool, true, false, none, some, List,
  [], ◌∷◌, get_elem?, replicate, map, arith, Option-cases, Bool-cases, if◌then◌else◌,
}
use eunga_py.Bits.{has}
use eunga_py.Match.Types.{Slot, status_value, new_slot}
use eunga_py.Match.Seats.{adjust, empty, holds, get_slot_id}

-- the mask that `write_match` tests
abbrev pub IsSeated : Slot → Type 0
IsSeated s = has (status_value s.status) 124 ≡ true → empty s ≡ false

pub record IsSound (l : List Slot) : Type 0 where
  pub seated : (i : ℕ) (s : Slot) → get_elem? l i ≡ some s → IsSeated s
  pub single :
      (i j p : ℕ) (s t : Slot)
      → get_elem? l i ≡ some s
      → get_elem? l j ≡ some t
      → s.player ≡ some p
      → t.player ≡ some p
      → i ≡ j

-- Replacing the slot `s` by `t` brings no new player and keeps its status right.
pub record IsTameTo (t s : Slot) : Type 0 where
  pub same : (p : ℕ) → t.player ≡ some p → s.player ≡ some p
  pub still : IsSeated s → IsSeated t

abbrev pub IsTame : (Slot → Slot) → Slot → Type 0
IsTame f s = IsTameTo (f s) s

pub IsTameTo-if :
    (b : Bool) (t s : Slot) → (b ≡ true → IsTameTo t s) → IsTameTo (if b then t else s) s
IsTameTo-if true t s h = h refl
IsTameTo-if false t s h = record { same = λ p e. e; still = λ g. g }

module _ {ℓ} {A : Type ℓ} where
  pub get_elem?-map :
      {B : Type ℓ} (f : A → B) (l : List A) (i : ℕ) (t : B)
      → get_elem? (map f l) i ≡ some t
      → (s : A) × (get_elem? l i ≡ some s) × (t ≡ f s)
  get_elem?-map f [] i t h = cc
  get_elem?-map f (x ∷ l) zero t h = (x, refl, cc)
  get_elem?-map f (x ∷ l) (suc i) t h = get_elem?-map f l i t h

  pub get_elem?-adjust_cases :
      (l : List A) (i j : ℕ) (f : A → A) (t : A)
      → get_elem? (adjust l i f) j ≡ some t
      → (s : A) × (get_elem? l j ≡ some s) × (((i ≢ j) × (t ≡ s)) ⊎ ((i ≡ j) × (t ≡ f s)))
  get_elem?-adjust_cases [] i j f t h = cc
  get_elem?-adjust_cases (x ∷ l) zero zero f t h = (x, refl, inr (refl, cc))
  get_elem?-adjust_cases (x ∷ l) zero (suc j) f t h =
      (t, h, inl ((λ e. absurd (omega (arith, e))), refl))
  get_elem?-adjust_cases (x ∷ l) (suc i) zero f t h =
      (x, refl, inl ((λ e. absurd (omega (arith, e))), cc))
  get_elem?-adjust_cases (x ∷ l) (suc i) (suc j) f t h =
      let (s, e, c) = get_elem?-adjust_cases l i j f t h in
      (
        s,
        e,
        elim c [
          | inl (ne, e') ↦ inl ((λ k. ne (omega (arith, k))), e')
          | inr (k, e') ↦ inr (ap suc k, e')
        ],
      )

pub map-IsSound :
    (f : Slot → Slot) (l : List Slot) → ((s : Slot) → IsTame f s) → IsSound l → IsSound (map f l)
map-IsSound f l tame h = record {
  seated = λ i t e.
      let (s, e', q) = get_elem?-map f l i t e in
      subst IsSeated (sym q) ((tame s).still (h.seated i s e'));
  single = λ i j p s t es et ps pt.
      let (s', es', qs) = get_elem?-map f l i s es in
      let (t', et', qt) = get_elem?-map f l j t et in
      h.single i j p s' t' es' et' ((tame s').same p (sym (ap (λ x. x.player) qs) ∙ ps))
        ((tame t').same p (sym (ap (λ x. x.player) qt) ∙ pt));
}

-- the slot before the assignment, with the player that the new one has
module _ (f : Slot → Slot) (l : List Slot) (i : ℕ) (s : Slot) (e : get_elem? l i ≡ some s)
    (tame : IsTame f s) where
  before :
      (j : ℕ) (t : Slot)
      → get_elem? (adjust l i f) j ≡ some t
      → (u : Slot) × (get_elem? l j ≡ some u)
        × ((p : ℕ) → t.player ≡ some p → u.player ≡ some p)
        × (IsSeated u → IsSeated t)
  before j t h =
      let (u, e', c) = get_elem?-adjust_cases l i j f t h in
      elim c [
        | inl (ne, q) ↦
            (u, e', (λ p ph. sym (ap (λ x. x.player) q) ∙ ph), (λ g. subst IsSeated (sym q) g))
        | inr (k, q) ↦
            let us : u ≡ s = cc in
            (
              u,
              e',
              (λ p ph.
                  ap (λ x. x.player) us
                  ∙ tame.same p
                      (sym (ap (λ x. (f x).player) us) ∙ sym (ap (λ x. x.player) q) ∙ ph)),
              (λ g. subst IsSeated (sym (q ∙ ap f us)) (tame.still (subst IsSeated us g))),
            )
      ]

  pub adjust-IsSound : IsSound l → IsSound (adjust l i f)
  adjust-IsSound h = record {
    seated = λ j t e'. let (u, eu, same, still) = before j t e' in still (h.seated j u eu);
    single = λ j k p t t' ej ek pt pt'.
        let (u, eu, same, still) = before j t ej in
        let (u', eu', same', still') = before k t' ek in
        h.single j k p u u' eu eu' (same p pt) (same' p pt');
  }

holds-player : (p : ℕ) (s : Slot) → holds p s ≡ true → s.player ≡ some p
holds-player p s h = elim (Option-cases s.player) [
  | inl e ↦ ground arith
  | inr (q, e) ↦ ground arith
]

pub get_slot_id-holds :
    (p : ℕ) (l : List Slot) (i : ℕ)
    → get_slot_id p l ≡ some i
    → (s : Slot) × (get_elem? l i ≡ some s) × (s.player ≡ some p)
unfolding get_slot_id
get_slot_id-holds p [] i h = cc
get_slot_id-holds p (s ∷ l) i h = elim (Bool-cases (holds p s)) [
  | inl e ↦ let z : i ≡ 0 = ground arith in (s, ap (get_elem? (s ∷ l)) z, holds-player p s e)
  | inr e ↦ elim (Option-cases (get_slot_id p l)) [
    | inl n ↦ absurd (ground arith)
    | inr (j, ej) ↦
        let z : i ≡ suc j = ground arith in
        let (t, et, pt) = get_slot_id-holds p l j ej in (t, ap (get_elem? (s ∷ l)) z ∙ et, pt)
  ]
]

pub get_elem?-replicate :
    {A : Type 0} (n i : ℕ) (x t : A) → get_elem? (replicate n x) i ≡ some t → t ≡ x
get_elem?-replicate zero i x t h = cc
get_elem?-replicate (suc n) zero x t h = cc
get_elem?-replicate (suc n) (suc i) x t h = get_elem?-replicate n i x t h

pub new_slot_vacant : (t : Slot) → t ≡ new_slot → (t.player ≡ none) × IsSeated t
unfolding new_slot status_value has
new_slot_vacant t e = (ap (λ s. s.player) e, subst IsSeated (sym e) (λ b. absurd (false≢true b)))

-- The slots of a match with one player in its first slot, as it is once created.
module _ (s : Slot) (n : ℕ) (seated : IsSeated s) where
  alone-IsSeated : (i : ℕ) (t : Slot) → get_elem? (s ∷ replicate n new_slot) i ≡ some t → IsSeated t
  alone-IsSeated zero t e = let same : s ≡ t = cc in subst IsSeated same seated
  alone-IsSeated (suc i) t e = (new_slot_vacant t (get_elem?-replicate n i new_slot t e)).1

  alone_first :
      (i p : ℕ) (t : Slot)
      → get_elem? (s ∷ replicate n new_slot) i ≡ some t
      → t.player ≡ some p
      → i ≡ 0
  alone_first zero p t e h = refl
  alone_first (suc i) p t e h =
      absurd (cc ((new_slot_vacant t (get_elem?-replicate n i new_slot t e)).0))

  pub alone-IsSound : IsSound (s ∷ replicate n new_slot)
  alone-IsSound = record {
    seated = alone-IsSeated;
    single = λ i j p a b ea eb pa pb. alone_first i p a ea pa ∙ sym (alone_first j p b eb pb);
  }
