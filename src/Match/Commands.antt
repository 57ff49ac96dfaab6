-- ===== src/Match/Commands.antt =====
-- The `!mp` commands of app/commands.py that act on a match alone, and the timers of `!mp start`. The
-- message was sent to the chat of the match of its player.
pub mod Timers
pub mod Keep
pub mod Laws
use Prim.Native.Nat.{bit_and}
use eunga_py.Prelude.Text.{codes, eq_str}
use eunga_py.Prelude.{
  ℕ, ◌+◌, ◌%◌, Bool, true, false, not, ◌&&◌, ◌||◌, Option, none, some, List, [], ◌∷◌, ◌++◌, any,
  length, leb, ltb, ◌==◌, if◌then◌else◌,
}
use eunga_py.Prelude.Int.{ℤ, pos}
use eunga_py.Bits.{clear}
use eunga_py.Mods.{Mods, inverted, speed_changing_mods}
use eunga_py.Mods.Filter.{filter_invalid_combos}
use eunga_py.Mods.Text.{from_modstr}
use eunga_py.GameMode
use eunga_py.Packets.Utf8.{Str}
use eunga_py.Packets.Server
use eunga_py.Match.Types.{
  Match, Slot, SlotStatus, open_slot, locked, not_ready, playing, is_status, MatchWinConditions,
  score, accuracy, combo, scorev2,
}
use eunga_py.Match.Seats.{holds, unready, reset_loaded}
use eunga_py.Match.Room.{
  Exec, pure, or_raise, gets, ◌>>=◌, ◌>>◌, modify, map_slots, update_slot, is_member, Sessions,
  enqueue, host, enqueue_state, seat, start, send_bot,
}
use eunga_py.Match.Settings.{to_freemods, from_freemods, get_host_slot}
use eunga_py.Match.Handlers.{set_status, transfer_to}

-- `Context`, with what the commands ask of Python and of the sessions: `players.get(name=…)`, the name and
-- `str` of a player, `int(s)` of a text of decimal digits, the seconds until the start of the match, and
-- the result of `secrets.token_hex(8)`. `manager` is whether the player has TOURNEY_MANAGER.
pub record Context : Type 0 where
  pub player : ℕ
  pub args : List Str
  pub manager : Bool
  pub get : Str → Option ℕ
  pub name_of : ℕ → Str
  pub shown : ℕ → Str
  pub decimal : Str → Option ℕ
  pub remaining : ℕ
  pub token : Str

abbrev pub Reply : Type 0
Reply = Exec (Option Str)

abbrev pub answer : Str → Reply
answer s = pure (some s)

-- `ctx.args[0]` if there is one argument
abbrev pub single : List Str → Option Str
single (a ∷ []) = some a
single _ = none

-- the player that the one argument names, or the reply
abbrev pub with_target : Context → Str → (ℕ → Reply) → Reply
with_target ctx syntax k = elim (single ctx.args) [
  | none ↦ answer syntax
  | some a ↦ elim (ctx.get a) [
    | none ↦ answer (codes "Could not find a user by that name.")
    | some target ↦ k target
  ]
]

-- `player in {slot.player for slot in match.slots}`
abbrev pub is_seated : ℕ → Match → Bool
is_seated p m = any (holds p) m.slots

-- one status for another
unfoldable pub swap_status : SlotStatus → SlotStatus → Slot → Slot
swap_status old new s = if is_status s.status old then set_status new s else s

unfoldable pub condition_named : Str → Option MatchWinConditions
condition_named cond =
    if eq_str cond (codes "score")
    then some score
    else if eq_str cond (codes "accuracy") || eq_str cond (codes "acc")
    then some accuracy
    else if eq_str cond (codes "combo")
    then some combo
    else if eq_str cond (codes "scorev2") || eq_str cond (codes "v2")
    then some scorev2
    else none

module _ (app : Sessions) where
  -- `ensure_match`, which looks at the host first
  unfoldable pub ensure_match : Context → Reply → Reply
  ensure_match ctx f = do
    m ← gets (λ m. m)
    h ← host app
    if is_member m.referees ctx.player || (ctx.player == h || ctx.manager) then f else pure none

  unfoldable pub mp_abort : Context → Reply
  mp_abort ctx = do
    in_progress ← gets (λ m. m.in_progress)
    if not in_progress then answer (codes "Abort what?") else (do
      map_slots (unready playing)
      map_slots reset_loaded
      modify (λ m. record m { in_progress = false })
      b ← or_raise (Server.match_abort app.online)
      enqueue b true []
      enqueue_state app true
      answer (codes "Match aborted."))

  -- the player's own mods, and the speed of the match if the player is the host
  unfoldable pub set_free_mods : ℕ → Mods → Exec Unit
  set_free_mods p mods = do
    h ← host app
    if p == h then modify (λ m. record m { mods = bit_and mods speed_changing_mods }) else pure tt
    i ← seat p
    update_slot i (λ s. record s { mods = bit_and mods (inverted speed_changing_mods) })

  -- `!mp mods` with compatible mods
  unfoldable pub command_mods : Context → Match → Mods → Reply
  command_mods ctx m mods = do
    if m.freemods then set_free_mods ctx.player mods else modify (λ m. record m { mods = mods })
    enqueue_state app true
    answer (codes "Match mods updated.")

  abbrev pub mods_with : Context → Match → Option Str → Reply
  mods_with ctx m none = answer (codes "Invalid syntax: !mp mods <mods>")
  mods_with ctx m (some a) =
      if not (length a % 2 == 0)
      then answer (codes "Invalid syntax: !mp mods <mods>")
      else command_mods ctx m (filter_invalid_combos (from_modstr a) (GameMode.as_vanilla m.mode))

  unfoldable pub mp_mods : Context → Reply
  mp_mods ctx = do m ← gets (λ m. m); mods_with ctx m (single ctx.args)

  -- host mods to central mods
  unfoldable pub freemods_off : Exec Unit
  freemods_off = do
    modify (λ m. record m { freemods = false })
    h ← host app
    l ← gets (λ m. m.slots)
    host_slot ← or_raise (get_host_slot h l)
    modify (from_freemods host_slot)

  unfoldable pub freemods_on : Exec Unit
  freemods_on = modify (λ m. record m { freemods = true }) >> modify to_freemods

  unfoldable pub mp_freemods : Context → Reply
  mp_freemods ctx = elim (single ctx.args) [
    | none ↦ answer (codes "Invalid syntax: !mp freemods <on/off>")
    | some a ↦
        if not (eq_str a (codes "on") || eq_str a (codes "off"))
        then answer (codes "Invalid syntax: !mp freemods <on/off>")
        else (do
          if eq_str a (codes "on") then freemods_on else freemods_off
          enqueue_state app true
          answer (codes "Match freemod status updated."))
  ]

  unfoldable pub mp_host : Context → Reply
  mp_host ctx = with_target ctx (codes "Invalid syntax: !mp host <name>") (λ target. do
    h ← host app
    m ← gets (λ m. m)
    if target == h
        then answer (codes "They're already host, silly!")
        else if not (is_seated target m)
        then answer (codes "Found no such player in the match.")
        else transfer_to app (some target) >> answer (codes "Match host updated."))

  unfoldable pub mp_randpw : Context → Reply
  mp_randpw ctx = do
    modify (λ m. record m { passwd = ctx.token })
    answer (codes "Match password randomized.")

  unfoldable pub mp_addref : Context → Reply
  mp_addref ctx = with_target ctx (codes "Invalid syntax: !mp addref <name>") (λ target. do
    m ← gets (λ m. m)
    if not (is_seated target m) then answer (codes "User must be in the current match!") else (do
      h ← host app
      if is_member m.referees target || target == h
          then answer (ctx.shown target ++ codes " is already a match referee!")
          else (do
            modify (λ m. record m { referees = m.referees ++ (target ∷ []) })
            answer (ctx.name_of target ++ codes " added to match referees."))))

  -- `referees.remove(target)` of a set
  abbrev pub drop_ref : ℕ → List ℕ → List ℕ
  drop_ref p [] = []
  drop_ref p (q ∷ l) = let rest = drop_ref p l in if q == p then rest else q ∷ rest

  unfoldable pub mp_rmref : Context → Reply
  mp_rmref ctx = with_target ctx (codes "Invalid syntax: !mp addref <name>") (λ target. do
    m ← gets (λ m. m)
    h ← host app
    if not (is_member m.referees target || target == h)
        then answer (ctx.shown target ++ codes " is not a match referee!")
        else if target == h
        then answer (codes "The host is always a referee!")
        else (do
          modify (λ m. record m { referees = drop_ref target m.referees })
          answer (ctx.name_of target ++ codes " removed from match referees.")))

  unfoldable pub mp_lock : Context → Reply
  mp_lock ctx = do
    map_slots (swap_status open_slot locked)
    enqueue_state app true
    answer (codes "All unused slots locked.")

  unfoldable pub mp_unlock : Context → Reply
  mp_unlock ctx = do
    map_slots (swap_status locked open_slot)
    enqueue_state app true
    answer (codes "All locked slots unlocked.")
