-- ===== src/Match/Handlers/Keep/Tame.antt =====
-- Lemmas on the assignments to slots that the handlers make.
use Prim.Native.Nat.{bit_and}
use eunga_py.Prelude.{ℕ, ◌≡◌, refl, sym, ap, ◌∙◌, true, false, none, some, arith}
use mathlib.Core.Bool.{false≢true}
use eunga_py.Bits.{has}
use eunga_py.Mods.{nomod, inverted, speed_changing_mods}
use eunga_py.Match.Types.{
  Match, Slot, SlotStatus, open_slot, locked, ready, complete, status_value, is_status,
}
use eunga_py.Match.Seats.{unready, reset_loaded, start_slot, empty}
use eunga_py.Match.Seats.Sound.{IsTame, IsTameTo, IsTameTo-if, map-IsSound}
use eunga_py.Match.Room.Triple.{Sound}
use eunga_py.Match.Settings.{occupied, to_freemods, from_freemods}
use eunga_py.Match.Handlers.{set_status}

-- a status that asks for no player may go anywhere, any status may go to a player's slot
pub IsTame-vacant :
    (status : SlotStatus)
    → has (status_value status) 124 ≡ false
    → (s : Slot) → IsTame (set_status status) s
IsTame-vacant status h s = record {
  same = λ p e. e;
  still = λ g b. absurd (false≢true (sym h ∙ b));
}

pub player-empty : (s : Slot) (p : ℕ) → s.player ≡ some p → empty s ≡ false
player-empty s p h = ap (λ x. elim x [ none ↦ true | some q ↦ false ]) h

pub IsTame-status :
    (status : SlotStatus) (p : ℕ) (s : Slot) → s.player ≡ some p → IsTame (set_status status) s
IsTame-status status p s h = record { same = λ q e. e; still = λ g b. player-empty s p h }

pub is_status-value : (a b : SlotStatus) → is_status a b ≡ true → status_value a ≡ status_value b
unfolding is_status
is_status-value a b h = ground arith

-- `not_ready` replaces a status that asks for a player
pub IsTame-unready :
    (expected : SlotStatus)
    → has (status_value expected) 124 ≡ true
    → (s : Slot) → IsTame (unready expected) s
unfolding unready
IsTame-unready expected h s = IsTameTo-if (is_status s.status expected) _ s (λ e. record {
  same = λ p e'. e';
  still = λ g b. g (ap (λ v. has v 124) (is_status-value s.status expected e) ∙ h);
})

pub IsTame-reset_loaded : (s : Slot) → IsTame reset_loaded s
unfolding reset_loaded
IsTame-reset_loaded s = record { same = λ p e. e; still = λ g. g }

pub IsTame-start : (s : Slot) → IsTame start_slot s
unfolding start_slot
IsTame-start s = IsTameTo-if _ _ s (λ e. record { same = λ p e'. e'; still = λ g b. grind (arith) })

-- assignments that leave the player and the status alone
pub IsTame-occupied : (f : Slot → Slot) (s : Slot) → IsTameTo (f s) s → IsTame (occupied f) s
IsTame-occupied f s h = grind (arith, IsTameTo-if (empty s) s (f s))

pub complete_occupied : has (status_value complete) 124 ≡ true
unfolding status_value has
complete_occupied = refl

pub ready_occupied : has (status_value ready) 124 ≡ true
unfolding status_value has
ready_occupied = refl

pub vacant_open : has (status_value open_slot) 124 ≡ false
unfolding status_value has
vacant_open = refl

pub vacant_locked : has (status_value locked) 124 ≡ false
unfolding status_value has
vacant_locked = refl

pub to_freemods-IsSound : (m : Match) → Sound m → Sound (to_freemods m)
unfolding to_freemods
to_freemods-IsSound m h =
    map-IsSound _ m.slots
      (λ s.
        IsTame-occupied (λ s. record s { mods = bit_and m.mods (inverted speed_changing_mods) }) s
          (record { same = λ q k. k; still = λ g. g }))
      h

pub from_freemods-IsSound : (s : Slot) (m : Match) → Sound m → Sound (from_freemods s m)
unfolding from_freemods
from_freemods-IsSound s m h =
    map-IsSound _ m.slots
      (λ s.
        IsTame-occupied (λ s. record s { mods = nomod }) s
          (record { same = λ q k. k; still = λ g. g }))
      h
