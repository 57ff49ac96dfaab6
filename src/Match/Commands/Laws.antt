-- ===== src/Match/Commands/Laws.antt =====
-- Any sequence of packets, `!mp` commands and timers, and what `!mp lock` and `!mp mods` of
-- app/commands.py do.
use mathlib.Core.Path.{subst}
use eunga_py.Prelude.{
  suc, ◌%◌, ◌≡◌, refl, sym, ap, ◌∙◌, Bool, true, false, not, ◌==◌, none, some, List, [], ◌∷◌, map,
  length, if◌then◌else◌,
}
use eunga_py.Mods.{Mods}
use eunga_py.Mods.Filter.{filter_invalid_combos}
use eunga_py.Mods.Filter.Compatible.{IsCompatible, filter-IsCompatible}
use eunga_py.Mods.Text.{from_modstr}
use eunga_py.GameMode
use eunga_py.Packets.Utf8.{Str}
use eunga_py.Match.Types.{Slot, open_slot, locked, status_value, is_status}
use eunga_py.Match.Seats.{get_free}
use eunga_py.Match.Seats.Sound.{IsSound}
use eunga_py.Match.Room.{
  Room, Result, done, raised, Exec, ◌>>=◌, ◌>>◌, modify, map_slots, Sessions, enqueue_state,
}
use eunga_py.Match.Room.Triple.{Post, Sound, Keeps, IsCalm-bind, IsCalm-pure, IsCalm-enqueue_state}
use eunga_py.Match.Handlers.Keep.{handle-Keeps}
use eunga_py.Match.Handlers.{set_status}
use eunga_py.Match.Commands.{
  Context, answer, single, swap_status, mp_lock, mp_mods, mods_with, command_mods, set_free_mods,
}
use eunga_py.Match.Commands.Timers.{
  Step, packet_step, command_step, start_step, alert_step, take_step, take_steps,
}
use eunga_py.Match.Commands.Keep.Timers.{Keeps-command, Keeps-timer_start, Keeps-timer_alert}

sound_after :
    {A : Type 0} (m : Exec A) (r : Room)
    → Keeps m
    → IsSound r.state.slots
    → IsSound (m r).1.state.slots
sound_after {A = A} m r k h = go (m r) (k.at r h)
  where
    go : (x : Result A × Room) → Post (λ a. Sound) x → IsSound x.1.state.slots
    go (done a, v) p = p
    go (raised, v) p = p

step-IsSound :
    (app : Sessions) (s : Step) (r : Room)
    → IsSound r.state.slots
    → IsSound (take_step app s r).state.slots
unfolding take_step
step-IsSound app (packet_step p e) r h = sound_after _ r (handle-Keeps app p e) h
step-IsSound app (command_step ctx c) r h = sound_after _ r (Keeps-command app c ctx) h
step-IsSound app (start_step p) r h = sound_after _ r (Keeps-timer_start app p) h
step-IsSound app (alert_step t) r h = sound_after _ r (Keeps-timer_alert app t) h

-- From a room with sound slots, any sequence of the packets that act inside a match, from
-- MatchChangeSlot to MatchChangeTeam, of the `!mp` commands start, abort, mods, freemods, host, randpw,
-- addref, rmref, lock, unlock and condition, and of timers of `!mp start` that run out keeps the slots
-- sound: a slot whose status asks for a player has one, and no player sits in two slots. The other
-- `!mp` commands and the packets that seat and unseat players are not among the steps.
pub steps-IsSound :
    (app : Sessions) (l : List Step) (r : Room)
    → IsSound r.state.slots
    → IsSound (take_steps app l r).state.slots
unfolding take_steps
steps-IsSound app [] r h = h
steps-IsSound app (s ∷ l) r h = steps-IsSound app l (take_step app s r) (step-IsSound app s r h)

-- the new state and the reply leave the match alone
reply_calm :
    (app : Sessions) (s : Str) (r : Room)
    → ((enqueue_state app true >> answer s) r).1.state ≡ r.state
reply_calm app s r =
    (IsCalm-bind _ _ (IsCalm-enqueue_state app true) (λ u. IsCalm-pure (some s))).at r

not_open :
    (s : Slot) (b : Bool)
    → is_status s.status open_slot ≡ b
    → is_status (if b then set_status locked s else s).status open_slot ≡ false
unfolding is_status status_value
not_open s true e = refl
not_open s false e = e

none_free : (l : List Slot) → get_free (map (swap_status open_slot locked) l) ≡ none
unfolding get_free swap_status
none_free [] = refl
none_free (s ∷ l) =
    ap
      (λ b. if b then some 0 else elim (get_free (map (swap_status open_slot locked) l)) [
        | none ↦ none
        | some i ↦ some (suc i)
      ])
      (not_open s (is_status s.status open_slot) refl)
    ∙ ap (λ o. elim o [ none ↦ none | some i ↦ some (suc i) ]) (none_free l)

-- After `!mp lock` no slot is free: the next player to join finds the match full.
pub get_free-mp_lock :
    (app : Sessions) (ctx : Context) (r : Room) → get_free (mp_lock app ctx r).1.state.slots ≡ none
unfolding mp_lock ◌>>=◌
get_free-mp_lock app ctx r =
    ap (λ m. get_free m.slots) (reply_calm app _ (map_slots (swap_status open_slot locked) r).1)
    ∙ none_free r.state.slots

module _ (app : Sessions) (ctx : Context) (r : Room) (mods : Mods) where
  -- the mods of the match, whether the players have their own being known
  central :
      (s : Str) (f : Bool)
      → f ≡ false
      → (((if f then set_free_mods app ctx.player mods else modify (λ m. record m { mods = mods }))
            >> (enqueue_state app true >> answer s))
          r).1.state.mods
        ≡ mods
  unfolding ◌>>=◌
  central s true e = absurd (cc)
  central s false e =
      ap (λ m. m.mods) (reply_calm app s (modify (λ m. record m { mods = mods }) r).1)

  even_text :
      (s : Str) (b : Bool)
      → b ≡ true
      → r.state.freemods ≡ false
      → ((if not b then answer s else command_mods app ctx r.state mods) r).1.state.mods ≡ mods
  unfolding command_mods
  even_text s true e f = central _ r.state.freemods f
  even_text s false e f = absurd (cc)

-- In a match without freemods, `!mp mods` with one text of an even length leaves mods without the
-- combinations that the comments of `filter_invalid_combos` name, in the mode of the match, but for HT
-- beside DT or NC, which this does not rule out: no DT with NC, EZ with HR, SD or PF with NF, RX or AP,
-- NF with RX or AP, PF with SD, no mod of another mode, no AP with SO or RX in osu!, no RX and no HD
-- with FI in mania, and one key mod at most.
pub mp_mods-IsCompatible :
    (app : Sessions) (ctx : Context) (r : Room) (a : Str)
    → single ctx.args ≡ some a
    → (length a % 2 == 0) ≡ true
    → r.state.freemods ≡ false
    → IsCompatible (GameMode.as_vanilla r.state.mode) (mp_mods app ctx r).1.state.mods
unfolding mp_mods ◌>>=◌
mp_mods-IsCompatible app ctx r a ea el ef =
    let mode_vn = GameMode.as_vanilla r.state.mode in
    let mods = filter_invalid_combos (from_modstr a) mode_vn in
    subst (λ o. IsCompatible mode_vn (mods_with app ctx r.state o r).1.state.mods) (sym ea)
      (subst (IsCompatible mode_vn) (sym (even_text app ctx r mods _ (length a % 2 == 0) el ef))
        (filter-IsCompatible (from_modstr a) mode_vn))
