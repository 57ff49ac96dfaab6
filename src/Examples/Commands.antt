-- ===== src/Examples/Commands.antt =====
-- The theorems on the `!mp` commands at concrete inputs.
use eunga_py.Prelude.Text.{codes}
use eunga_py.Prelude.{◌≡◌, refl, false, none, List, [], ◌∷◌}
use eunga_py.Mods.Filter.Compatible.{IsCompatible}
use eunga_py.GameMode
use eunga_py.Match.Seats.{get_free}
use eunga_py.Match.Seats.Sound.{IsSound}
use eunga_py.Match.Room.{Room}
use eunga_py.Match.Handlers.{ready_event}
use eunga_py.Match.Commands.{Context, mp_lock, mp_mods}
use eunga_py.Match.Commands.Timers.{
  lock_command, start_command, Step, packet_step, command_step, start_step, take_steps,
}
use eunga_py.Match.Commands.Laws.{steps-IsSound, get_free-mp_lock, mp_mods-IsCompatible}
use eunga_py.Examples.{app, room, room-IsSound}

-- player 7 with the argument "DTNC"
abbrev context : Context
context = record {
  player = 7;
  args = codes "DTNC" ∷ [];
  manager = false;
  get = λ name. none;
  name_of = λ p. codes "a";
  shown = λ p. codes "<a (7)>";
  decimal = λ s. none;
  remaining = 5;
  token = codes "0011223344556677";
}

-- ready, `!mp lock`, `!mp start` with a wrong argument, and a timer that runs out
abbrev steps : List Step
steps =
    packet_step 7 ready_event
    ∷ command_step context lock_command
    ∷ command_step context start_command
    ∷ start_step 7
    ∷ []

steps-IsSound_example : IsSound (take_steps app steps room).state.slots
steps-IsSound_example = steps-IsSound app steps room room-IsSound

get_free-mp_lock_example : get_free (mp_lock app context room).1.state.slots ≡ none
get_free-mp_lock_example = get_free-mp_lock app context room

abbrev central_room : Room
central_room = record room { state = record room.state { freemods = false } }

mp_mods-IsCompatible_example :
    IsCompatible
      (GameMode.as_vanilla central_room.state.mode)
      (mp_mods app context central_room).1.state.mods
mp_mods-IsCompatible_example =
    mp_mods-IsCompatible app context central_room (codes "DTNC") refl refl refl
