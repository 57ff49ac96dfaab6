-- ===== src/Examples/World.antt =====
-- The theorems on the sessions at concrete inputs.
use eunga_py.Prelude.Text.{codes}
use eunga_py.Prelude.{
  ◌⊎◌, ℕ, zero, suc, ◌≤◌, ◌<◌, ◌≡◌, ◌≢◌, refl, sym, ap, ◌∙◌, true, false, Option, none, some, List,
  [], ◌∷◌, ◌++◌, arith, get_elem?, set,
}
use eunga_py.Prelude.Int.{pos}
use eunga_py.Prelude.Actions.{done}
use eunga_py.Packets.RoundTrip.Matches.{sent_match}
use eunga_py.Examples.{demo, first_slot}
use eunga_py.World.{Channel, all, Player, Table, World, App, update, contains, enqueue}
use eunga_py.World.Count.{count, here, update_at, update_keeps, one_ne}
use eunga_py.World.Channels.{new_channel, join_channel}
use eunga_py.World.Matches.{free_cell, clear_cell}
use eunga_py.World.Players.{joined, dequeue, leave_channels}
use eunga_py.World.Events.{
  Event, create_match_request, start_spectating_request, channel_join_request, part_lobby,
  part_match, run,
}
use eunga_py.World.Ties.{seats, IsConsistent}
use eunga_py.World.Ties.Runs.{run-IsConsistent}
use eunga_py.World.Quiet.{forget}
use eunga_py.World.Quiet.Channels.{
  Barred, Admissible, with_member, join_channel-refines, leave_channels_stuck,
}
use eunga_py.World.Quiet.Logout.{IsLinked, leave_channels_ends}
use eunga_py.World.Cells.{free_cell-lt, clear_cell-set, dequeue-enqueue}

abbrev guest : Player
guest = record {
  name = codes "guest";
  token = codes "t";
  priv = 1;
  stealth = false;
  in_lobby = true;
  channels = [];
  spectators = [];
  spectating = none;
  «match» = none;
  friends = [];
  blocks = [];
  pres_filter = all;
  away_msg = none;
  pm_private = false;
  queue = [];
}

abbrev lobby : Channel
lobby = new_channel (codes "#lobby") (codes "Multiplayer lobby.") true false

abbrev empty_table : Table
empty_table = record { state = record demo { slots = [] }; chat = 9 }

abbrev server : App
server = record { bot = 1; str = λ z. codes "0"; silenced = λ p. false }

-- players 7 and 4 online, the channel #lobby, no match
abbrev quiet_world : World
quiet_world = record {
  player = λ p. guest;
  channel = λ c. lobby;
  table = λ t. empty_table;
  fresh = 10;
  online = 7 ∷ 4 ∷ [];
  channels = 0 ∷ [];
  matches = none ∷ none ∷ [];
}

quiet-IsConsistent : IsConsistent quiet_world
unfolding new_channel
quiet-IsConsistent = record {
  known = record { known = λ p c. omega arith; once = λ p c. omega arith };
  watched = λ p q. refl;
  seated = λ p t. omega arith;
}

-- a match, a spectator, a chat, and the end of the match
abbrev session : List (ℕ × Event)
session =
    (7, create_match_request (sent_match demo true))
    ∷ (4, start_spectating_request (pos 7))
    ∷ (4, channel_join_request (codes "#lobby"))
    ∷ (7, part_match)
    ∷ []

run-IsConsistent_example : IsConsistent (run server session quiet_world)
run-IsConsistent_example = run-IsConsistent server session quiet_world quiet-IsConsistent

-- player 7 in the first slot of match 0
abbrev host_player : Player
host_player = record guest { «match» = some 0 }

abbrev host_table : Table
host_table = record { state = record demo { slots = first_slot ∷ [] }; chat = 9 }

abbrev seated_world : World
seated_world = record quiet_world {
  player = update (λ p. guest) 7 host_player;
  table = update (λ t. empty_table) 0 host_table;
}

seated-IsConsistent : IsConsistent seated_world
unfolding new_channel
seated-IsConsistent = record {
  known = record { known = λ p c. omega arith; once = λ p c. omega arith };
  watched = λ p q.
      ap (count q) (update_keeps (λ s. s.spectators) (λ p. guest) 7 host_player p refl)
      ∙ ap (λ o. here o p)
          (sym (update_keeps (λ s. s.spectating) (λ p. guest) 7 host_player q refl));
  seated = λ p.
      update_at (λ t x. seats p x.state.slots ≤ here (update (λ p. guest) 7 host_player p).match t)
        (λ t. empty_table) 0 host_table
        (update_at (λ p s. seats p (first_slot ∷ []) ≤ here s.match 0) (λ p. guest) 7 host_player
          (omega arith) (λ p ne. omega (arith, one_ne 7 p (λ e. ne (sym e)))) p)
        (λ t ne. omega arith);
}

abbrev lobby_session : List (ℕ × Event)
lobby_session = (7, part_lobby) ∷ []

-- player 7 joins #lobby
join_channel-refines_example :
    (Barred 7 0 quiet_world × (join_channel 7 0 quiet_world ≡ (done false, quiet_world)))
    ⊎ (Admissible 7 0 quiet_world
        × (forget (join_channel 7 0 quiet_world).1 ≡ forget (with_member 7 0 quiet_world)))
join_channel-refines_example = join_channel-refines 7 0 quiet_world

-- a player with the channel 0 among the channels, who is no member of it
abbrev stuck_world : World
stuck_world = record quiet_world { player = λ p. record guest { channels = 0 ∷ [] } }

stuck-absent : contains (stuck_world.channel 0).players 7 ≡ false
unfolding new_channel
stuck-absent = refl

leave_channels_stuck_example : leave_channels 7 5 stuck_world ≡ (done false, stuck_world)
leave_channels_stuck_example = leave_channels_stuck 5 7 0 [] stuck_world refl stuck-absent

-- player 7 in #lobby, and nowhere else
abbrev member_world : World
member_world = record quiet_world {
  player = λ p. record guest { channels = 0 ∷ [] };
  channel = update (λ c. record lobby { players = [] }) 0 (record lobby { players = 7 ∷ [] });
}

member-IsLinked : IsLinked 7 member_world
member-IsLinked =
    update_at (λ c s. count c (0 ∷ []) ≡ count 7 s.players) (λ c. record lobby { players = [] }) 0
      (record lobby { players = 7 ∷ [] }) (omega arith)
      (λ c ne. omega (arith, one_ne 0 c (λ e. ne (sym e))))

leave_channels_ends_example : (leave_channels 7 1 member_world).0 ≢ done false
leave_channels_ends_example = leave_channels_ends 1 7 member_world member-IsLinked refl

-- a list of matches with its second cell free
abbrev cells : List (Option ℕ)
cells = some 5 ∷ none ∷ none ∷ []

cells-free : free_cell cells ≡ some 1
unfolding free_cell
cells-free = refl

free_cell-lt_example :
    (1 < 3) × (get_elem? cells 1 ≡ some none) × ((j : ℕ) → j < 1 → get_elem? cells j ≢ some none)
free_cell-lt_example = free_cell-lt cells 1 cells-free

cells-new : (j : ℕ) → get_elem? cells j ≢ some (some 6)
cells-new zero e = absurd (cc)
cells-new (suc zero) e = absurd (cc)
cells-new (suc (suc zero)) e = absurd (cc)
cells-new (suc (suc (suc j))) e = absurd (cc)

clear_cell-set_example : clear_cell 6 (set cells 1 (some 6)) ≡ cells
clear_cell-set_example = clear_cell-set cells 1 6 cells-free cells-new

dequeue-enqueue_example :
    ((dequeue 7 (enqueue (1 ∷ 2 ∷ []) 7 quiet_world).1).0 ≡ done (some (joined [] ++ (1 ∷ 2 ∷ []))))
    × (((dequeue 7 (enqueue (1 ∷ 2 ∷ []) 7 quiet_world).1).1.player 7).queue ≡ [])
dequeue-enqueue_example = dequeue-enqueue (1 ∷ 2 ∷ []) 7 quiet_world
