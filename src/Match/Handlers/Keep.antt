-- ===== src/Match/Handlers/Keep.antt =====
-- The handlers of app/api/domains/cho.py against the invariant of the slots, put together.
pub mod Tame
pub mod Actions
pub mod Settings
use eunga_py.Prelude.{
  ℕ, ◌≡◌, refl, sym, ap, ◌∙◌, Bool, true, false, not, ◌&&◌, Option, none, some, List, [], get_elem?,
  any, arith, if◌then◌else◌, ◌==◌,
}
use mathlib.Core.Bool.{false≢true}
use eunga_py.Prelude.Int.{ℤ, pos, negsuc, eq_ℤ}
use eunga_py.Bits.{has, clear}
use eunga_py.Mods.{nomod, speed_changing_mods}
use eunga_py.Packets.Integers.{Bytes}
use eunga_py.Packets.Structs.{MultiplayerMatch}
use eunga_py.Match.Types.{
  Match, Slot, SlotStatus, open_slot, locked, not_ready, ready, no_map, playing, complete,
  status_value, is_status,
}
use eunga_py.Match.Seats.{
  adjust, copy_from, reset, unready, reset_loaded, start_slot, empty, holds, is_playing,
}
use eunga_py.Match.Seats.Sound.{IsSound, IsTame, IsTameTo, IsTameTo-if, map-IsSound, adjust-IsSound}
use eunga_py.Match.Seats.Moved.{moved-IsSound}
use eunga_py.Match.Room.{
  Exec, pure, or_raise, ◌>>=◌, update_slot, Sessions, Beatmap, enqueue, host, enqueue_state,
}
use eunga_py.Match.Room.Triple.{
  Triple, Sound, Keeps, Triple-bind, Triple-if, Triple-weaken, IsCalm-or_raise, IsCalm-gets,
  IsCalm-enqueue, IsCalm-host, IsCalm-enqueue_state, IsCalm-send_bot, IsCalm-send, IsCalm-pure,
  IsCalm-bind, Triple-calm, Keeps-calm, Triple-or_raise, Triple-gets, Triple-seat, Keeps-update,
  Keeps-map_slots, Keeps-modify, Keeps-start,
}
use eunga_py.Match.Settings.{
  occupied, change_freemods, to_freemods, from_freemods, announce_map, take_map, change_map,
  change_team_type, change_win_condition, change_settings, default_team, same_freemods,
  validate_match_data,
}
use eunga_py.Match.Handlers.{
  set_status, slot_index, change_slot, change_status, lock, match_start, score_update,
  match_complete, change_mods, load_complete, failed, skip_request, transfer_host, change_team,
  transfer_to, transfer_at, lock_at, change_to, Event, handle, slot_event, lock_event, mods_event,
  host_event, settings_event, score_event, ready_event, no_beatmap_event, not_ready_event,
  has_beatmap_event, start_event, complete_event, loaded_event, failed_event, skip_event,
  team_event,
}
use Actions.{
  change_status-Keeps, change_team-Keeps, match_start-Keeps, score_update-Keeps, failed-Keeps,
  load_complete-Keeps, skip_request-Keeps, match_complete-Keeps, change_mods-Keeps,
  transfer_host-Keeps, lock-Keeps, change_slot-Keeps,
}
use Settings.{
  IsTame-team, change_freemods-Keeps, announce_map-Keeps, take_map-Keeps, change_map-Keeps,
  change_team_type-Keeps, change_win_condition-Keeps, change_settings-Keeps,
}

-- Every handler keeps the slots of its room sound, whatever the packet holds: a slot whose status asks
-- for a player has one, and no player sits in two slots. The slots are sound after an exception too.
pub handle-Keeps : (app : Sessions) (p : ℕ) (e : Event) → Keeps (handle app p e)
unfolding handle
handle-Keeps app p (slot_event z) = change_slot-Keeps app p z
handle-Keeps app p (lock_event z) = lock-Keeps app p z
handle-Keeps app p (mods_event z) = change_mods-Keeps app p z
handle-Keeps app p (host_event z) = transfer_host-Keeps app p z
handle-Keeps app p (settings_event d) = change_settings-Keeps app p d
handle-Keeps app p (score_event b) = score_update-Keeps app p b
handle-Keeps app p ready_event = change_status-Keeps app ready p
handle-Keeps app p no_beatmap_event = change_status-Keeps app no_map p
handle-Keeps app p not_ready_event = change_status-Keeps app not_ready p
handle-Keeps app p has_beatmap_event = change_status-Keeps app not_ready p
handle-Keeps app p start_event = match_start-Keeps app p
handle-Keeps app p complete_event = match_complete-Keeps app p
handle-Keeps app p loaded_event = load_complete-Keeps app p
handle-Keeps app p failed_event = failed-Keeps app p
handle-Keeps app p skip_event = skip_request-Keeps app p
handle-Keeps app p team_event = change_team-Keeps app p
