-- ===== src/Match/Settings.antt =====
-- `MatchChangeSettings` and `validate_match_data` of app/api/domains/cho.py. The lookup of the beatmap
-- is one step: no other handler runs while it is awaited.
use Prim.Native.Nat.{bit_and}
use Prim.Native.Nat.{bit_and, bit_or}
use eunga_py.Prelude.{
  ℕ, zero, suc, Bool, true, false, not, ◌&&◌, Option, none, some, List, [], ◌∷◌, ◌++◌, length, map,
  ◌==◌, leb, if◌then◌else◌,
}
use eunga_py.Prelude.Text.{codes}
use eunga_py.Prelude.Int.{ℤ, pos, negsuc, eq_ℤ}
use eunga_py.Mods.{nomod, inverted, speed_changing_mods}
use eunga_py.GameMode
use eunga_py.GameMode.{GameMode}
use eunga_py.Packets.Utf8.{Str}
use eunga_py.Packets.Structs.{MultiplayerMatch}
use eunga_py.Match.Types.{
  Match, Slot, ready, MatchTeams, neutral, red, team_type_value, team_type_of, condition_value,
  condition_of,
}
use eunga_py.Match.Seats.{empty, holds, unready}
use eunga_py.Match.Room.{
  Exec, pure, or_raise, gets, ◌>>=◌, ◌>>◌, modify, map_slots, Sessions, host, enqueue_state,
  send_bot, Beatmap,
}

unfoldable pub validate_match_data : MultiplayerMatch → ℕ → Bool
validate_match_data untrusted expected_host_id =
    eq_ℤ untrusted.host_id (pos expected_host_id) && leb (length untrusted.name) 50

-- assignments to the slots that have a player
abbrev pub occupied : (Slot → Slot) → Slot → Slot
occupied f s = if empty s then s else f s

-- an enumeration's constructor applied to an integer
abbrev pub member : {A : Type 0} → (ℕ → Option A) → ℤ → Option A
member of_nat (pos n) = of_nat n
member of_nat (negsuc n) = none

-- the first slot whose player is the host, `host` having been found
unfoldable pub get_host_slot : ℕ → List Slot → Option Slot
get_host_slot h [] = none
get_host_slot h (s ∷ l) = let rest = get_host_slot h l in if holds h s then some s else rest

unfoldable pub to_freemods : Match → Match
to_freemods m = record m {
  slots =
      map (occupied (λ s. record s { mods = bit_and m.mods (inverted speed_changing_mods) }))
        m.slots;
  mods = bit_and m.mods speed_changing_mods;
}

unfoldable pub from_freemods : Slot → Match → Match
from_freemods host_slot m = record m {
  mods = bit_or (bit_and m.mods speed_changing_mods) host_slot.mods;
  slots = map (occupied (λ s. record s { mods = nomod })) m.slots;
}

-- `self.match_data.freemods == player.match.freemods`
abbrev pub same_freemods : Bool → Bool → Bool
same_freemods a b = if a then b else not b

-- The tuple of names indexed by an integer: -1 is the last one, an index out of range an IndexError.
abbrev pub team_name : ℤ → Option Str
team_name (pos zero) = some (codes "head-to-head")
team_name (pos (suc zero)) = some (codes "tag-coop")
team_name (pos (suc (suc zero))) = some (codes "team-vs")
team_name (pos (suc (suc (suc zero)))) = some (codes "tag-team-vs")
team_name (pos _) = none
team_name (negsuc zero) = some (codes "tag-team-vs")
team_name (negsuc (suc zero)) = some (codes "team-vs")
team_name (negsuc (suc (suc zero))) = some (codes "tag-coop")
team_name (negsuc (suc (suc (suc zero)))) = some (codes "head-to-head")
team_name (negsuc _) = none

-- `team_type in (head_to_head, tag_coop)`
abbrev pub default_team : ℤ → MatchTeams
default_team t = if eq_ℤ t (pos 0) then neutral else if eq_ℤ t (pos 1) then neutral else red

module _ (app : Sessions) where
  unfoldable pub change_freemods : Bool → Exec Unit
  change_freemods freemods = do
    current ← gets (λ m. m.freemods)
    if same_freemods freemods current then pure tt else do
      modify (λ m. record m { freemods = freemods })
      if freemods then modify to_freemods else do
        h ← host app
        l ← gets (λ m. m.slots)
        host_slot ← or_raise (get_host_slot h l)
        modify (from_freemods host_slot)

  -- the chat line that announces a new map
  unfoldable pub announce_map : MultiplayerMatch → Exec Unit
  announce_map d = do
    prev ← gets (λ m. m.prev_map_id)
    if eq_ℤ prev d.map_id
        then pure tt
        else send_bot app (
            codes "Selected: [https://osu."
            ++ app.domain
            ++ codes "/b/"
            ++ app.str d.map_id
            ++ codes " "
            ++ d.map_name
            ++ codes "].")

  unfoldable pub take_map : MultiplayerMatch → Option Beatmap → Exec Unit
  take_map d (some bmap) = do
    modify (λ m. record m { map_id = bmap.id; map_md5 = bmap.md5; map_name = bmap.full_name })
    h ← host app
    mode ← or_raise (GameMode.of_value (GameMode.as_vanilla (app.mode_of h)))
    modify (λ m. record m { mode = mode })
  take_map d none = do
    modify (λ m. record m { map_id = d.map_id; map_md5 = d.map_md5; map_name = d.map_name })
    mode ← or_raise (member GameMode.of_value d.mode)
    modify (λ m. record m { mode = mode })

  unfoldable pub change_map : MultiplayerMatch → Exec Unit
  change_map d = do
    current ← gets (λ m. m.map_id)
    if eq_ℤ d.map_id (negsuc 0)
        then (do
          map_slots (unready ready)
          modify (λ m. record m {
            prev_map_id = m.map_id;
            map_id = negsuc 0;
            map_md5 = [];
            map_name = [];
          }))
        else if eq_ℤ current (negsuc 0)
        then (do announce_map d; take_map d (app.from_md5 d.map_md5))
        else pure tt

  unfoldable pub change_team_type : ℤ → Exec Unit
  change_team_type team_type = do
    current ← gets (λ m. team_type_value m.team_type)
    if eq_ℤ (pos current) team_type then pure tt else do
      scrim ← gets (λ m. m.is_scrimming)
      if scrim
          then (do
            name ← or_raise (team_name team_type)
            send_bot app (
                codes
                  "Changing team type while scrimming will reset the overall score - to do so, please use the !mp teams "
                ++ name
                ++ codes " command."))
          else do
            map_slots (occupied (λ s. record s { team = default_team team_type }))
            new ← or_raise (member team_type_of team_type)
            modify (λ m. record m { team_type = new })

  unfoldable pub change_win_condition : ℤ → Exec Unit
  change_win_condition win_condition = do
    current ← gets (λ m. condition_value m.win_condition)
    if eq_ℤ (pos current) win_condition then pure tt else do
      modify (λ m. record m { use_pp_scoring = false })
      new ← or_raise (member condition_of win_condition)
      modify (λ m. record m { win_condition = new })

  unfoldable pub change_settings : ℕ → MultiplayerMatch → Exec Unit
  change_settings p d = if not (validate_match_data d p) then pure tt else do
    h ← host app
    if not (p == h) then pure tt else do
      change_freemods d.freemods
      change_map d
      change_team_type d.team_type
      change_win_condition d.win_condition
      modify (λ m. record m { name = d.name })
      enqueue_state app true
