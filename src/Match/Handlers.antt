-- ===== src/Match/Handlers.antt =====
-- The packet handlers of app/api/domains/cho.py that act inside a match, after `reader` has read the
-- packet: each begins with a player whose `match` is the room's.
pub mod Keep
pub mod Runs
pub mod Own
use Prim.Native.Nat.{bit_and}
use eunga_py.Prelude.{
  leb, if◌then◌else◌, ℕ, zero, suc, ◌+◌, ◌-◌, ◌%◌, ◌^◌, Bool, true, false, not, ◌&&◌, ◌||◌, Option,
  none, some, List, [], ◌∷◌, ◌++◌, any, length, get_elem?, set, ◌==◌, ltb, if◌then◌else◌,
}
use eunga_py.Prelude.Int.{ℤ, pos, negsuc}
use eunga_py.Bits.{clear}
use eunga_py.Mods.{Mods, inverted, speed_changing_mods}
use eunga_py.Packets.Integers.{Bytes, to_bytes}
use eunga_py.Packets.Server
use eunga_py.Packets.Structs.{MultiplayerMatch}
use eunga_py.Match.Types.{
  Slot, SlotStatus, open_slot, locked, not_ready, ready, no_map, playing, complete, is_status, blue,
  red, is_team,
}
use eunga_py.Match.Seats.{copy_from, reset, holds, unready, reset_loaded, players_where, is_playing}
use eunga_py.Match.Room.{
  Room, done, Exec, pure, raise, or_raise, gets, ◌>>=◌, ◌>>◌, modify, map_slots, update_slot,
  is_member, send, Sessions, enqueue, host, enqueue_state, seat, start,
}
use eunga_py.Match.Settings.{change_settings}

-- `0 <= slot_id < 16`
abbrev pub slot_index : ℤ → Option ℕ
slot_index (pos n) = if ltb n 16 then some n else none
slot_index (negsuc n) = none

abbrev pub set_status : SlotStatus → Slot → Slot
set_status status s = record s { status = status }

-- Python's `Mods(n)` of a signed 32-bit integer: a number that is not negative stays as it is, and to a
-- negative one 2 ^ 31 is added, or to the least one 2 ^ 32.
abbrev pub mods_of : ℤ → Mods
mods_of (pos n) = n
mods_of (negsuc n) = if leb (2 ^ 31) (suc n) then 2 ^ 32 - suc n else 2 ^ 31 - suc n

-- the indices of the slots that played: `was_playing` holds the slot objects
abbrev pub was_playing : List ℕ → ℕ → List Slot → List ℕ
was_playing not_playing i [] = []
was_playing not_playing i (s ∷ l) =
    let rest = was_playing not_playing (suc i) l in
    elim s.player [ none ↦ rest | some p ↦ if is_member not_playing p then rest else i ∷ rest ]

-- `asyncio.create_task(player.match.update_matchpoints(was_playing))`
abbrev pub await_scores : List ℕ → Exec Unit
await_scores slots r = (done tt, record r { scoring = r.scoring ++ (slots ∷ []) })

-- `buf[11] = slot_id`, an IndexError if the buffer is shorter
abbrev pub put_slot_id : Bytes → ℕ → Option Bytes
put_slot_id buf slot_id = if ltb 11 (length buf) then some (set buf 11 slot_id) else none

module _ (app : Sessions) where
  -- the rest of `change_slot`, given the index
  abbrev pub change_to : ℕ → Option ℕ → Exec Unit
  change_to p none = pure tt
  change_to p (some i) = do
    l ← gets (λ m. m.slots)
    target ← or_raise (get_elem? l i)
    if not (is_status target.status open_slot) then pure tt else do
      j ← seat p
      l ← gets (λ m. m.slots)
      slot ← or_raise (get_elem? l j)
      update_slot i (λ s. copy_from s slot)
      update_slot j (reset open_slot)
      enqueue_state app true

  unfoldable pub change_slot : ℕ → ℤ → Exec Unit
  change_slot p slot_id = change_to p (slot_index slot_id)

  -- MatchReady, MatchNoBeatmap, MatchNotReady and MatchHasBeatmap
  unfoldable pub change_status : SlotStatus → ℕ → Exec Unit
  change_status status p = do i ← seat p; update_slot i (set_status status); enqueue_state app false

  -- the rest of `lock`, given the index
  abbrev pub lock_at : Option ℕ → Exec Unit
  lock_at none = pure tt
  lock_at (some i) = do
    l ← gets (λ m. m.slots)
    slot ← or_raise (get_elem? l i)
    if is_status slot.status locked
        then (do update_slot i (set_status open_slot); enqueue_state app true)
        else do
          h ← host app
          if holds h slot
              then pure tt
              else do update_slot i (set_status locked); enqueue_state app true

  unfoldable pub lock : ℕ → ℤ → Exec Unit
  lock p slot_id = do h ← host app; if not (p == h) then pure tt else lock_at (slot_index slot_id)

  unfoldable pub match_start : ℕ → Exec Unit
  match_start p = do h ← host app; if not (p == h) then pure tt else start app

  unfoldable pub score_update : ℕ → Bytes → Exec Unit
  score_update p play_data = do
    i ← seat p
    size ← or_raise (to_bytes 4 (length play_data))
    buf ← or_raise (put_slot_id ((48 ∷ 0 ∷ 0 ∷ []) ++ size ++ play_data) i)
    enqueue buf false []

  unfoldable pub match_complete : ℕ → Exec Unit
  match_complete p = do
    i ← seat p
    update_slot i (set_status complete)
    l ← gets (λ m. m.slots)
    if any (λ s. is_status s.status playing) l then pure tt else do
      not_playing ← pure (players_where (λ s. not (is_status s.status complete)) l)
      map_slots (unready complete)
      map_slots reset_loaded
      modify (λ m. record m { in_progress = false })
      b ← or_raise (Server.match_complete app.online)
      enqueue b false not_playing
      enqueue_state app true
      scrim ← gets (λ m. m.is_scrimming)
      if scrim then await_scores (was_playing not_playing 0 l) else pure tt

  unfoldable pub change_mods : ℕ → ℤ → Exec Unit
  change_mods p mods = do
    freemods ← gets (λ m. m.freemods)
    h ← host app
    if freemods
        then (do
          if p == h
              then modify (λ m. record m { mods = bit_and (mods_of mods) speed_changing_mods })
              else pure tt
          i ← seat p
          update_slot i
              (λ s. record s { mods = bit_and (mods_of mods) (inverted speed_changing_mods) })
          enqueue_state app true)
        else if not (p == h)
        then pure tt
        else do modify (λ m. record m { mods = mods_of mods }); enqueue_state app true

  unfoldable pub load_complete : ℕ → Exec Unit
  load_complete p = do
    i ← seat p
    update_slot i (λ s. record s { loaded = true })
    l ← gets (λ m. m.slots)
    if any is_playing l
        then pure tt
        else do b ← or_raise (Server.match_all_players_loaded app.online); enqueue b false []

  unfoldable pub failed : ℕ → Exec Unit
  failed p = do
    i ← seat p
    b ← or_raise (Server.match_player_failed app.online (pos i))
    enqueue b false []

  unfoldable pub skip_request : ℕ → Exec Unit
  skip_request p = do
    i ← seat p
    update_slot i (λ s. record s { skipped = true })
    b ← or_raise (Server.match_player_skipped app.online (pos p))
    enqueue b true []
    l ← gets (λ m. m.slots)
    if any (λ s. is_status s.status playing && not s.skipped) l
        then pure tt
        else do b ← or_raise (Server.match_skip app.online); enqueue b false []

  -- the rest of `transfer_host`, given the target and given the index
  abbrev pub transfer_to : Option ℕ → Exec Unit
  transfer_to none = pure tt
  transfer_to (some target) = do
    modify (λ m. record m { host_id = target })
    h ← host app
    b ← or_raise (Server.match_transfer_host app.online)
    send ((h, b) ∷ [])
    enqueue_state app true

  abbrev pub transfer_at : Option ℕ → Exec Unit
  transfer_at none = pure tt
  transfer_at (some i) = do
    l ← gets (λ m. m.slots)
    slot ← or_raise (get_elem? l i)
    transfer_to slot.player

  unfoldable pub transfer_host : ℕ → ℤ → Exec Unit
  transfer_host p slot_id = do
    h ← host app
    if not (p == h) then pure tt else transfer_at (slot_index slot_id)

  unfoldable pub change_team : ℕ → Exec Unit
  change_team p = do
    i ← seat p
    update_slot i (λ s. record s { team = if is_team s.team blue then red else blue })
    enqueue_state app false

-- a packet of a player in the match
pub data Event : Type 0 where
  slot_event lock_event mods_event host_event : ℤ → Event
  settings_event : MultiplayerMatch → Event
  score_event : Bytes → Event
  ready_event no_beatmap_event not_ready_event has_beatmap_event : Event
  start_event complete_event loaded_event failed_event skip_event team_event : Event

unfoldable pub handle : Sessions → ℕ → Event → Exec Unit
handle app p (slot_event slot_id) = change_slot app p slot_id
handle app p (lock_event slot_id) = lock app p slot_id
handle app p (mods_event mods) = change_mods app p mods
handle app p (host_event slot_id) = transfer_host app p slot_id
handle app p ready_event = change_status app ready p
handle app p no_beatmap_event = change_status app no_map p
handle app p not_ready_event = change_status app not_ready p
handle app p has_beatmap_event = change_status app not_ready p
handle app p (settings_event match_data) = change_settings app p match_data
handle app p (score_event play_data) = score_update app p play_data
handle app p start_event = match_start app p
handle app p complete_event = match_complete app p
handle app p loaded_event = load_complete app p
handle app p failed_event = failed app p
handle app p skip_event = skip_request app p
handle app p team_event = change_team app p
