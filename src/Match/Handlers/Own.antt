-- ===== src/Match/Handlers/Own.antt =====
-- `MatchChangeSlot` of app/api/domains/cho.py towards the slot that the player sits in.
use eunga_py.Prelude.{
  ℕ, ◌<◌, ◌≡◌, refl, ap, ◌∙◌, true, zero, suc, [], ◌∷◌, Bool-cases, inl, inr, none, some, List,
  get_elem?, arith, lt→ltb,
}
use eunga_py.Prelude.Int.{pos}
use eunga_py.Match.Types.{Slot, open_slot, is_status}
use eunga_py.Match.Seats.{get_slot_id, holds}
use eunga_py.Match.Seats.Sound.{IsSound, get_slot_id-holds}
use eunga_py.Match.Seats.Moved.{moved-vacates}
use eunga_py.Match.Room.{Room, Sessions, seat, ◌>>=◌}
use eunga_py.Match.Room.Triple.{IsCalm-enqueue_state}
use eunga_py.Match.Handlers.{change_slot}

get_slot_id-some :
    (p : ℕ) (l : List Slot) (i : ℕ) (s : Slot)
    → get_elem? l i ≡ some s
    → s.player ≡ some p
    → (j : ℕ) × (get_slot_id p l ≡ some j)
unfolding get_slot_id
get_slot_id-some p [] i s e h = cc
get_slot_id-some p (t ∷ l) zero s e h =
    let same : t.player ≡ some p = cc in
    let held : holds p t ≡ true = ground arith in (0, ground arith)
get_slot_id-some p (t ∷ l) (suc i) s e h = elim (Bool-cases (holds p t)) [
  | inl held ↦ (0, ground arith)
  | inr other ↦ let (j, found) = get_slot_id-some p l i s e h in (suc j, ground arith)
]

-- the player's slot is the only one that holds them
get_slot_id-own :
    (p : ℕ) (l : List Slot) (i : ℕ) (s : Slot)
    → IsSound l
    → get_elem? l i ≡ some s
    → s.player ≡ some p
    → get_slot_id p l ≡ some i
get_slot_id-own p l i s sound here sits =
    let (j, found) = get_slot_id-some p l i s here sits in
    let (t, there, held) = get_slot_id-holds p l j found in
    let same : j ≡ i = sound.single j i p t s there here held sits in found ∙ ap some same

-- In a match with sound slots, a player whose slot is open, as it is once the host locked and unlocked
-- it, and who moves to that same slot, sits in no slot afterwards.
pub change_slot_own :
    (app : Sessions) (p i : ℕ) (s : Slot) (r : Room)
    → IsSound r.state.slots
    → i < 16
    → get_elem? r.state.slots i ≡ some s
    → s.player ≡ some p
    → is_status s.status open_slot ≡ true
    → get_slot_id p (change_slot app p (pos i) r).1.state.slots ≡ none
unfolding change_slot seat ◌>>=◌
change_slot_own app p i s r sound small here sits is_open =
    rw (lt→ltb i 16 small, here, is_open, get_slot_id-own p r.state.slots i s sound here sits, here)
      (ap (λ m. get_slot_id p m.slots) ((IsCalm-enqueue_state app true).at _)
        ∙ moved-vacates r.state.slots i i s here sound p sits refl)
