-- ===== src/Packets/RoundTrip/Slots.antt =====
-- The slots of a match in its packet.
use eunga_py.Prelude.{
  ℕ, ◌^◌, ◌<◌, ◌≡◌, refl, true, false, Bool-cases, inl, inr, Option-cases, none, some, List, [],
  ◌∷◌, map, All, length, arith, if◌then◌else◌,
}
use eunga_py.Prelude.Int.{ℤ, pos}
use eunga_py.Bits.{has}
use eunga_py.Match.Types.{Slot, open_slot, status_value, team_value}
use eunga_py.Packets.Reader.{times, read_i32, read_i8}
use eunga_py.Packets.Reader.Structs.{read_slot_ids, has_player, low_byte}
use eunga_py.Packets.Writer.{write_u8, write_u32}
use eunga_py.Packets.Writer.Structs.{each, write_slot_id}
use eunga_py.Packets.RoundTrip.Rules.{
  Encodes, Encodes-nil, Encodes-bind, Encodes-last, Encodes-each, Encodes-skip, Encodes-raise,
}
use eunga_py.Packets.RoundTrip.Scalars.{u8_i8-Encodes, u32_i32-Encodes, signed_byte}

-- `quit` is 128, which a signed byte shows as -128.
abbrev pub sent_status : Slot → ℤ
sent_status s = signed_byte (status_value s.status)

abbrev pub sent_team : Slot → ℤ
sent_team s = signed_byte (team_value s.team)

-- The ids that are sent: those of the players in slots whose status says so.
abbrev pub sent_ids : List Slot → List ℤ
sent_ids [] = []
sent_ids (s ∷ l) =
    if has (status_value s.status) 124
    then elim s.player [ none ↦ sent_ids l | some id ↦ pos id ∷ sent_ids l ]
    else sent_ids l

-- A reader of signed words can take the ids and mods of the slot.
abbrev pub Fits : Slot → Type 0
Fits s = (elim s.player [ none ↦ 0 | some id ↦ id ] < 2 ^ 31) × (s.mods < 2 ^ 31)

has_player_sent : (s : Slot) → has_player (sent_status s) ≡ has (status_value s.status) 124
unfolding has_player low_byte has status_value
has_player_sent s =
    elim s.status
      as (λ st. has_player (signed_byte (status_value st)) ≡ has (status_value st) 124) [
        | open_slot ↦ refl
        | _ ↦ refl
      ]

pub statuses-Encodes :
    (l : List Slot)
    → Encodes
        (List ℤ)
        (each (λ s. write_u8 (status_value s.status)) l)
        (times (length l) read_i8)
        (map sent_status l)
statuses-Encodes l =
    Encodes-each (λ (s : Slot). write_u8 (status_value s.status)) read_i8 sent_status l (every l)
  where
    every :
        (l : List Slot)
        → All (λ s. Encodes ℤ (write_u8 (status_value s.status)) read_i8 (sent_status s)) l
    every [] = tt
    every (s ∷ l) = (u8_i8-Encodes (status_value s.status), every l)

pub teams-Encodes :
    (l : List Slot)
    → Encodes
        (List ℤ)
        (each (λ s. write_u8 (team_value s.team)) l)
        (times (length l) read_i8)
        (map sent_team l)
teams-Encodes l =
    Encodes-each (λ (s : Slot). write_u8 (team_value s.team)) read_i8 sent_team l (every l)
  where
    every :
        (l : List Slot)
        → All (λ s. Encodes ℤ (write_u8 (team_value s.team)) read_i8 (sent_team s)) l
    every [] = tt
    every (s ∷ l) = (u8_i8-Encodes (team_value s.team), every l)

pub mods-Encodes :
    (l : List Slot)
    → All Fits l
    → Encodes
        (List ℤ)
        (each (λ s. write_u32 s.mods) l)
        (times (length l) read_i32)
        (map (λ s. pos s.mods) l)
mods-Encodes l h =
    Encodes-each (λ (s : Slot). write_u32 s.mods) read_i32 (λ s. pos s.mods) l (every l h)
  where
    every :
        (l : List Slot)
        → All Fits l
        → All (λ s. Encodes ℤ (write_u32 s.mods) read_i32 (pos s.mods)) l
    every [] h = tt
    every (s ∷ l) h = (u32_i32-Encodes s.mods h.0.1, every l h.1)

module _ (s : Slot) where
  empty_id : has (status_value s.status) 124 ≡ false → write_slot_id s ≡ some []
  unfolding write_slot_id
  empty_id h = ground arith

  missing_id : has (status_value s.status) 124 ≡ true → s.player ≡ none → write_slot_id s ≡ none
  unfolding write_slot_id
  missing_id h p = ground arith

  id-Encodes :
      (id : ℕ)
      → has (status_value s.status) 124 ≡ true
      → s.player ≡ some id
      → id < 2 ^ 31
      → Encodes ℤ (write_slot_id s) read_i32 (pos id)
  unfolding write_slot_id
  id-Encodes id h p small = rw (h, p) (u32_i32-Encodes id small)

pub ids-Encodes :
    (l : List Slot)
    → All Fits l
    → Encodes (List ℤ) (each write_slot_id l) (read_slot_ids (map sent_status l)) (sent_ids l)
unfolding each read_slot_ids
ids-Encodes [] h = Encodes-nil []
ids-Encodes (s ∷ l) h =
    let others = ids-Encodes l h.1 in
    rw has_player_sent (elim (Bool-cases (has (status_value s.status) 124)) [
      | inr off ↦ rw off (Encodes-skip (empty_id s off) others)
      | inl on ↦ elim (Option-cases s.player) [
        | inl gone ↦ rw on (Encodes-raise _ _ _ (missing_id s on gone))
        | inr (id, there) ↦ rw on (
            simp there (
              Encodes-bind _ (id-Encodes s id on there (ground arith))
                (Encodes-last (λ is. pos id ∷ is) others)))
      ]
    ])
