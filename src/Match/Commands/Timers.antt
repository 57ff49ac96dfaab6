-- ===== src/Match/Commands/Timers.antt =====
-- `!mp start` and its timers, `!mp condition`, and the choice of a command of app/commands.py.
use eunga_py.Prelude.Text.{codes, eq_str}
use eunga_py.Prelude.{
  ℕ, true, false, not, ◌&&◌, ◌||◌, none, some, List, [], ◌∷◌, ◌++◌, any, leb, if◌then◌else◌,
}
use eunga_py.Prelude.Int.{pos}
use eunga_py.Packets.Utf8.{Str}
use eunga_py.Match.Types.{not_ready, is_status}
use eunga_py.Match.Room.{
  Room, Exec, gets, ◌>>=◌, ◌>>◌, modify, Sessions, enqueue_state, start, send_bot,
}
use eunga_py.Match.Handlers.{Event, handle}
use eunga_py.Match.Commands.{
  Context, Reply, answer, single, is_seated, condition_named, ensure_match, mp_abort, mp_mods,
  mp_freemods, mp_host, mp_randpw, mp_addref, mp_rmref, mp_lock, mp_unlock,
}

module _ (app : Sessions) where
  abbrev in_seconds : Str → ℕ → Str → Str
  in_seconds before n after = before ++ app.str (pos n) ++ after

  -- the match starts now
  abbrev pub start_now : Reply
  start_now = start app >> answer (codes "Good luck!")

  -- `!mp start`
  unfoldable pub start_ready : Context → Reply
  start_ready ctx = do
    m ← gets (λ m. m)
    if m.starting
        then answer (in_seconds (codes "Match starting in ") ctx.remaining (codes " seconds."))
        else if any (λ s. is_status s.status not_ready) m.slots
        then answer (codes "Not all players are ready (`!mp start force` to override).")
        else start_now

  -- `!mp start N`: the timers are set
  unfoldable pub start_after : Context → ℕ → Reply
  start_after ctx duration = do
    starting ← gets (λ m. m.starting)
    if starting
        then answer (in_seconds (codes "Match starting in ") ctx.remaining (codes " seconds."))
        else if not (leb 1 duration && leb duration 300)
        then answer (codes "Timer range is 1-300 seconds.")
        else (do
          modify (λ m. record m { starting = true })
          answer (in_seconds (codes "Match will start in ") duration (codes " seconds.")))

  -- `!mp start cancel`
  unfoldable pub start_cancel : Reply
  start_cancel = do
    starting ← gets (λ m. m.starting)
    if not starting
        then answer (codes "Match timer not active!")
        else modify (λ m. record m { starting = false }) >> answer (codes "Match timer cancelled.")

  abbrev pub start_word : Str → Reply
  start_word a =
      if eq_str a (codes "cancel") || eq_str a (codes "c")
      then start_cancel
      else if not (eq_str a (codes "force") || eq_str a (codes "f"))
      then answer (codes "Invalid syntax: !mp start <force/seconds>")
      else start_now

  abbrev pub start_with : Context → List Str → Reply
  start_with ctx [] = start_ready ctx
  start_with ctx (a ∷ []) = elim (ctx.decimal a) [
    | none ↦ start_word a
    | some duration ↦ start_after ctx duration
  ]
  start_with ctx (a ∷ b ∷ l) = answer (codes "Invalid syntax: !mp start <force/seconds>")

  unfoldable pub mp_start : Context → Reply
  mp_start ctx = start_with ctx ctx.args

  -- `_start`, when the timer of a player runs out
  unfoldable pub timer_start : ℕ → Exec Unit
  timer_start p = do
    modify (λ m. record m { starting = false })
    m ← gets (λ m. m)
    if not (is_seated p m)
        then send_bot app (codes "Player left match? (cancelled)")
        else start app >> send_bot app (codes "Starting match.")

  -- `_alert_start`
  unfoldable pub timer_alert : ℕ → Exec Unit
  timer_alert t = send_bot app (in_seconds (codes "Match starting in ") t (codes " seconds."))

  -- `!mp condition pp`
  unfoldable pub condition_pp : Reply
  condition_pp = do
    m ← gets (λ m. m)
    if not m.is_scrimming
        then answer (codes "PP is only useful as a win condition during scrims.")
        else if m.use_pp_scoring
        then answer (codes "PP scoring already enabled.")
        else (do
          modify (λ m. record m { use_pp_scoring = true })
          enqueue_state app false
          answer (codes "Match win condition updated."))

  -- any other condition
  unfoldable pub condition_set : Str → Reply
  condition_set cond = do
    modify (λ m. record m { use_pp_scoring = false })
    elim (condition_named cond) [
      | none ↦ answer (codes "Invalid win condition. (score, acc, combo, scorev2, *pp)")
      | some c ↦ do
        modify (λ m. record m { win_condition = c })
        enqueue_state app false
        answer (codes "Match win condition updated.")
    ]

  unfoldable pub mp_condition : Context → Reply
  mp_condition ctx = elim (single ctx.args) [
    | none ↦ answer (codes "Invalid syntax: !mp condition <type>")
    | some cond ↦ if eq_str cond (codes "pp") then condition_pp else condition_set cond
  ]

-- the modelled commands
pub data Command : Type 0 where
  start_command abort_command mods_command freemods_command host_command randpw_command : Command
  addref_command rmref_command lock_command unlock_command condition_command : Command

abbrev pub command : Sessions → Command → Context → Reply
command app start_command ctx = mp_start app ctx
command app abort_command ctx = mp_abort app ctx
command app mods_command ctx = mp_mods app ctx
command app freemods_command ctx = mp_freemods app ctx
command app host_command ctx = mp_host app ctx
command app randpw_command ctx = mp_randpw app ctx
command app addref_command ctx = mp_addref app ctx
command app rmref_command ctx = mp_rmref app ctx
command app lock_command ctx = mp_lock app ctx
command app unlock_command ctx = mp_unlock app ctx
command app condition_command ctx = mp_condition app ctx

-- what may happen to a match next: a packet or a command of a player, or a timer that runs out
pub data Step : Type 0 where
  packet_step : ℕ → Event → Step
  command_step : Context → Command → Step
  start_step alert_step : ℕ → Step

-- the room afterwards, an exception or not
unfoldable pub take_step : Sessions → Step → Room → Room
take_step app (packet_step p e) r = (handle app p e r).1
take_step app (command_step ctx c) r = (ensure_match app ctx (command app c ctx) r).1
take_step app (start_step p) r = (timer_start app p r).1
take_step app (alert_step t) r = (timer_alert app t r).1

unfoldable pub take_steps : Sessions → List Step → Room → Room
take_steps app [] r = r
take_steps app (s ∷ l) r = take_steps app l (take_step app s r)
