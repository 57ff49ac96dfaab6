-- ===== src/Match/Seats.antt =====
-- The slots of a match: `Slot`'s methods and the lookups of `Match`. A slot object is named by its index.
pub mod Sound
pub mod Moved
use eunga_py.Prelude.{
  ℕ, zero, suc, Bool, true, false, not, ◌&&◌, Option, none, some, List, [], ◌∷◌, ◌==◌,
  if◌then◌else◌,
}
use eunga_py.Match.Types.{
  Slot, SlotStatus, open_slot, not_ready, no_map, playing, complete, MatchTeams, neutral, is_status,
}
use eunga_py.Mods.{nomod}

-- `self.player is None`
abbrev pub empty : Slot → Bool
empty s = elim s.player [ none ↦ true | some p ↦ false ]

-- `player is s.player`
abbrev pub holds : ℕ → Slot → Bool
holds p s = elim s.player [ none ↦ false | some q ↦ p == q ]

unfoldable pub copy_from : Slot → Slot → Slot
copy_from self other = record self {
  player = other.player;
  status = other.status;
  team = other.team;
  mods = other.mods;
}

unfoldable pub reset : SlotStatus → Slot → Slot
reset new_status self = record self {
  player = none;
  status = new_status;
  team = neutral;
  mods = nomod;
  loaded = false;
  skipped = false;
}

-- assignments to the slot object with this index
abbrev pub adjust {ℓ} : {A : Type ℓ} → List A → ℕ → (A → A) → List A
adjust [] i f = []
adjust (s ∷ l) zero f = f s ∷ l
adjust (s ∷ l) (suc i) f = s ∷ adjust l i f

unfoldable pub get_slot_id : ℕ → List Slot → Option ℕ
get_slot_id p [] = none
get_slot_id p (s ∷ l) =
    let rest = get_slot_id p l in
    if holds p s then some 0 else elim rest [ none ↦ none | some i ↦ some (suc i) ]

unfoldable pub get_slot : ℕ → List Slot → Option Slot
get_slot p [] = none
get_slot p (s ∷ l) = let rest = get_slot p l in if holds p s then some s else rest

unfoldable pub get_free : List Slot → Option ℕ
get_free [] = none
get_free (s ∷ l) =
    let rest = get_free l in
    if is_status s.status open_slot
    then some 0
    else elim rest [ none ↦ none | some i ↦ some (suc i) ]

-- the body of each loop of `Match` over its slots
unfoldable pub unready : SlotStatus → Slot → Slot
unready expected s = if is_status s.status expected then record s { status = not_ready } else s

unfoldable pub reset_loaded : Slot → Slot
reset_loaded s = record s { loaded = false; skipped = false }

unfoldable pub start_slot : Slot → Slot
start_slot s =
    if not (empty s) && not (is_status s.status no_map) then record s { status = playing } else s

-- the ids of the players whose slot satisfies a test, slot after slot
unfoldable pub players_where : (Slot → Bool) → List Slot → List ℕ
players_where test [] = []
players_where test (s ∷ l) =
    let rest = players_where test l in
    elim s.player [ none ↦ rest | some p ↦ if test s then p ∷ rest else rest ]

unfoldable pub is_playing : Slot → Bool
is_playing slot = is_status slot.status playing && not slot.loaded
