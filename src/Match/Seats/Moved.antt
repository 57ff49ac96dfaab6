-- ===== src/Match/Seats/Moved.antt =====
-- `MatchChangeSlot`: the slots before and after a player moved.
use mathlib.Core.Bool.{false≢true, true, false}
use eunga_py.Bits.{has}
use eunga_py.Prelude.{
  Option-cases, ℕ, ◌≡◌, ◌≢◌, refl, sym, ap, ◌∙◌, ◌⊎◌, inl, inr, none, some, List, get_elem?, arith,
}
use eunga_py.Match.Types.{Slot, open_slot, status_value}
use eunga_py.Match.Seats.{get_slot_id, adjust, copy_from, reset}
use eunga_py.Match.Seats.Sound.{IsSound, IsSeated, get_elem?-adjust_cases, get_slot_id-holds}

meet :
    (i j k k' n n' : ℕ)
    → j ≢ k
    → j ≢ k'
    → (n ≡ k) ⊎ ((i ≡ k) × (n ≡ j))
    → (n' ≡ k') ⊎ ((i ≡ k') × (n' ≡ j))
    → n ≡ n'
    → k ≡ k'
meet i j k k' n n' ne ne' (inl a) (inl b) e = omega (arith, a, b, e)
meet i j k k' n n' ne ne' (inl a) (inr (b, c)) e = absurd (ne (omega (arith, a, b, c, e)))
meet i j k k' n n' ne ne' (inr (a, b)) (inl c) e = absurd (ne' (omega (arith, a, b, c, e)))
meet i j k k' n n' ne ne' (inr (a, b)) (inr (c, d)) e = omega (arith, a, c)

module _ (l : List Slot) (i j : ℕ) (slot : Slot) (e : get_elem? l j ≡ some slot) where
  abbrev placed : List Slot
  placed = adjust l i (λ s. copy_from s slot)

  abbrev moved : List Slot
  moved = adjust placed j (reset open_slot)

  -- where the player of a slot was before
  abbrev Origin : ℕ → Slot → Type 0
  Origin k t =
      (j ≢ k)
      × (n : ℕ) × (u : Slot) × (get_elem? l n ≡ some u)
      × (t.player ≡ u.player)
      × (t.status ≡ u.status)
      × ((n ≡ k) ⊎ ((i ≡ k) × (n ≡ j)))

  placed-Origin : (k : ℕ) (t : Slot) → j ≢ k → get_elem? placed k ≡ some t → Origin k t
  unfolding copy_from
  placed-Origin k t ne h =
      let (u, eu, c) = get_elem?-adjust_cases l i k (λ s. copy_from s slot) t h in
      elim c [
        | inl (ni, q) ↦ (ne, k, u, eu, ap (λ x. x.player) q, ap (λ x. x.status) q, inl refl)
        | inr (ik, q) ↦ (ne, j, slot, e, ap (λ x. x.player) q, ap (λ x. x.status) q, inr (ik, refl))
      ]

  origin :
      (k : ℕ) (t : Slot)
      → get_elem? moved k ≡ some t
      → Origin k t ⊎ ((t.player ≡ none) × (t.status ≡ open_slot))
  unfolding reset
  origin k t h =
      let (u, eu, c) = get_elem?-adjust_cases placed j k (reset open_slot) t h in
      elim c [
        | inl (nj, q) ↦ inl (placed-Origin k t nj (eu ∙ ap some (sym q)))
        | inr (jk, q) ↦ inr (ap (λ x. x.player) q, ap (λ x. x.status) q)
      ]

  moved-IsSeated : IsSound l → (k : ℕ) (t : Slot) → get_elem? moved k ≡ some t → IsSeated t
  unfolding status_value has
  moved-IsSeated h k t et = elim (origin k t et) [
    | inl o ↦
        let (ne, n, u, eu, same, status, place) = o in
        λ b.
          ap (λ x. elim x [ none ↦ true | some p ↦ false ]) same
          ∙ h.seated n u eu (sym (ap (λ x. has (status_value x) 124) status) ∙ b)
    | inr (gone, open_now) ↦
        λ b. absurd (false≢true (sym (ap (λ x. has (status_value x) 124) open_now) ∙ b))
  ]

  single_origin :
      IsSound l
      → (k k' p : ℕ) (s t : Slot) → get_elem? moved k ≡ some s
      → get_elem? moved k' ≡ some t
      → s.player ≡ some p
      → t.player ≡ some p
      → k ≡ k'
  single_origin h k k' p s t es et ps pt = elim (origin k s es) [
    | inr (gone, status) ↦ absurd (cc)
    | inl o ↦ elim (origin k' t et) [
      | inr (gone, status) ↦ absurd (cc)
      | inl o' ↦
          let (ne, n, u, eu, same, status, place) = o in
          let (ne', n', u', eu', same', status', place') = o' in
          let met : n ≡ n' = h.single n n' p u u' eu eu' (sym same ∙ ps) (sym same' ∙ pt) in
          meet i j k k' n n' ne ne' place place' met
    ]
  ]

  pub moved-IsSound : IsSound l → IsSound moved
  moved-IsSound h = record { seated = moved-IsSeated h; single = single_origin h }

  -- Whoever moves to their own slot is in none afterwards.
  pub moved-vacates :
      IsSound l → (p : ℕ) → slot.player ≡ some p → i ≡ j → get_slot_id p moved ≡ none
  moved-vacates h p sits same = elim (Option-cases (get_slot_id p moved)) [
    | inl gone ↦ gone
    | inr (k, found) ↦
        let (t, et, pt) = get_slot_id-holds p moved k found in
        elim (origin k t et) [
          | inr (left, status) ↦ absurd (cc)
          | inl o ↦
              let (ne, n, u, eu, kept, st, place) = o in
              let met : n ≡ j = h.single n j p u slot eu e (sym kept ∙ pt) sits in
              elim place [
                | inl at_k ↦ absurd (ne (omega (arith, met, at_k)))
                | inr (at_i, at_j) ↦ absurd (ne (omega (arith, at_i, same)))
              ]
        ]
  ]
