-- ===== src/Examples.antt =====
-- The theorems at concrete inputs, and runs of the definitions.
mod World
mod Players
mod Commands
mod Status
mod Submission
mod Plays
mod Maps
use mathlib.Core.Path.{subst}
use eunga_py.Prelude.{
  ◌⊎◌, ℕ, zero, suc, ◌<◌, ◌^◌, ◌/◌, ◌≡◌, ◌≢◌, refl, sym, ◌==◌, Bool, true, false, ◌&&◌, none, some,
  List, [], ◌∷◌, ◌++◌, All, replicate, length, get_elem?, arith, if◌then◌else◌,
}
use eunga_py.Prelude.Int.{ℤ, pos, negsuc}
use eunga_py.Mods.Text.{from_modstr, mods_repr}
use eunga_py.Mods.Text.RoundTrip.{from_modstr-mods_repr}
use eunga_py.Bits.{has, IsSubset}
use eunga_py.Mods.{nomod, halftime, nightcore, doubletime, relax, autopilot, key4, key5, ◌∣∣◌}
use eunga_py.Mods.Filter.{filter_invalid_combos}
use eunga_py.Mods.Filter.Compatible.{filter-IsSubset, filter_halftime}
use eunga_py.Mods.Filter.Slips.{filter_slip}
use eunga_py.GameMode
use eunga_py.GameMode.{GameMode, vanilla_osu, from_params, as_vanilla, from_params-as_vanilla}
use eunga_py.Packets.Integers.{Bytes, to_bytes, to_bytes_signed, to_le, from_le, from_le_signed}
use eunga_py.Packets.Utf8.{encode, decode}
use eunga_py.Packets.Utf8.Laws.{decode-encode}
use eunga_py.Packets.Structs.{Message, ScoreFrame, MultiplayerMatch}
use eunga_py.Packets.Ids.{
  ClientPackets, client_packet, client_value, client_packet-client_value, ServerPackets,
  server_value,
}
use eunga_py.Packets.Reader.{Reader, read_string, read_uleb, read_i32}
use eunga_py.Packets.Reader.Structs.{read_match, read_message, read_scoreframe_fmt}
use eunga_py.Packets.Writer.{write_uleb128, write_string, write_u16, write_u32, write_i32, ◌<>◌}
use eunga_py.Packets.Writer.Structs.{
  each, write_match, write_message, write_scoreframe, write_slot_id,
}
use eunga_py.Packets.RoundTrip.Rules.{Encodes}
use eunga_py.Packets.RoundTrip.Strings.{string-Encodes, read_uleb-write_uleb128}
use eunga_py.Packets.RoundTrip.Messages.{message-Encodes, scoreframe_fmt-Encodes, sent}
use eunga_py.Packets.RoundTrip.Slots.{Fits}
use eunga_py.Packets.RoundTrip.Matches.{IsSendable, sent_match, match-Encodes}
use eunga_py.Packets.Frames.{
  write, frame, framed, write_arg, i32, read_header, next, exhausted, packets,
}
use eunga_py.Packets.Frames.Laws.{next-ne-exhausted}
use eunga_py.Packets.Frames.Streams.{IsStream, end, ignored, taken, packets-IsStream}
use eunga_py.Packets.Server.Laws.{write-read_header}
use eunga_py.RankedStatus.{
  not_submitted, update_available, loved, osu_api, from_osuapi, from_osuapi-osu_api,
}
use eunga_py.Match.Types.{
  status_value, open_slot, is_status, Match, Slot, not_ready, neutral, new_slot, head_to_head,
  score,
}
use eunga_py.Match.Seats.Sound.{
  IsSound, IsSeated, alone-IsSound, get_elem?-replicate, new_slot_vacant,
}
use eunga_py.Match.Room.{Room, Sessions, host, ◌>>=◌}
use eunga_py.Match.Handlers.{
  change_slot, Event, ready_event, slot_event, start_event, lock_event, handle, lock,
}
use eunga_py.Match.Handlers.Own.{change_slot_own}
use eunga_py.Match.Seats.{get_slot_id}
use eunga_py.Packets.RoundTrip.Seeds.{write_match-negative_seed}
use eunga_py.Packets.Frames.Unknown.{packets-unknown}
use eunga_py.Match.Handlers.Runs.{run}

abbrev first_slot : Slot
first_slot = record {
  player = some 7;
  status = not_ready;
  team = neutral;
  mods = nomod;
  loaded = false;
  skipped = false;
}

-- "a" is 97
abbrev demo : Match
demo = record {
  id = 3;
  name = 97 ∷ 98 ∷ [];
  passwd = 97 ∷ [];
  has_public_history = true;
  host_id = 7;
  referees = [];
  map_id = negsuc 0;
  map_md5 = [];
  map_name = 233 ∷ [];
  prev_map_id = pos 0;
  mods = doubletime;
  mode = vanilla_osu;
  freemods = true;
  slots = first_slot ∷ replicate 15 new_slot;
  team_type = head_to_head;
  win_condition = score;
  in_progress = false;
  starting = false;
  seed = pos 5;
  is_scrimming = false;
  use_pp_scoring = false;
  tourney_clients = [];
}

abbrev demo_frame : ScoreFrame
demo_frame = record {
  time = negsuc 0;
  id = 2;
  num300 = 300;
  num100 = 1;
  num50 = 0;
  num_geki = 0;
  num_katu = 0;
  num_miss = 0;
  total_score = pos 1000;
  max_combo = 301;
  current_combo = 301;
  perfect = true;
  current_hp = 200;
  tag_byte = 0;
  score_v2 = true;
  combo_portion = some 5;
  bonus_portion = none;
}

abbrev app : Sessions
app = record {
  online = λ p. true;
  mode_of = λ p. vanilla_osu;
  bot_id = 1;
  bot_name = 98 ∷ [];
  domain = 97 ∷ [];
  str = λ z. 48 ∷ [];
  from_md5 = λ md5. none;
}

abbrev room : Room
room = record { state = demo; chat = 7 ∷ []; lobby = some (9 ∷ []); sent = []; scoring = [] }

first_slot-IsSeated : IsSeated first_slot
first_slot-IsSeated b = refl

room-IsSound : IsSound room.state.slots
room-IsSound = alone-IsSound first_slot 15 first_slot-IsSeated

abbrev play : List (ℕ × Event)
play = (7, ready_event) ∷ (7, slot_event (pos 4)) ∷ (7, start_event) ∷ []

All-replicate : (P : Slot → Type 0) (n : ℕ) (s : Slot) → P s → All P (replicate n s)
All-replicate P zero s h = tt
All-replicate P (suc n) s h = (h, All-replicate P n s h)

new_slot-Fits : Fits new_slot
unfolding new_slot
new_slot-Fits = (omega arith, omega arith)

demo-IsSendable : IsSendable demo 5
demo-IsSendable = record {
  seed_eq = refl;
  seed_small = omega arith;
  id_small = omega arith;
  mods_small = omega arith;
  host_small = omega arith;
  sixteen = refl;
  slots_fit = ((omega arith, omega arith), All-replicate Fits 15 new_slot new_slot-Fits);
}

match-Encodes_example :
    Encodes MultiplayerMatch (write_match (λ p. true) demo true) read_match (sent_match demo true)
match-Encodes_example = match-Encodes (λ p. true) demo true demo-IsSendable

filter-IsSubset_example :
    IsSubset (filter_invalid_combos (key4 ∣∣ key5 ∣∣ relax) 3) (key4 ∣∣ key5 ∣∣ relax)
filter-IsSubset_example = filter-IsSubset (key4 ∣∣ key5 ∣∣ relax) 3

filter_halftime_example :
    (has (filter_invalid_combos (doubletime ∣∣ halftime) 0) (doubletime ∣∣ nightcore)
      && has (filter_invalid_combos (doubletime ∣∣ halftime) 0) halftime)
    ≡ false
unfolding has
filter_halftime_example = filter_halftime (doubletime ∣∣ halftime) 0 refl

filter_slip_example :
    (has (filter_invalid_combos (doubletime ∣∣ nightcore ∣∣ halftime) 0) nightcore ≡ true)
    × (has (filter_invalid_combos (doubletime ∣∣ nightcore ∣∣ halftime) 0) halftime ≡ true)
unfolding has
filter_slip_example = filter_slip (doubletime ∣∣ nightcore ∣∣ halftime) 0 refl refl refl

from_params-as_vanilla_example :
    (mode : GameMode) × (from_params 2 relax ≡ some mode)
    × (as_vanilla mode ≡ 2)
    × (GameMode.value mode / 4
        ≡ (if has relax autopilot then 2 else if has relax relax then 1 else 0))
from_params-as_vanilla_example = from_params-as_vanilla 2 relax (omega arith)

decode-encode_example : decode (195 ∷ 169 ∷ []) ≡ some (233 ∷ [])
unfolding encode
decode-encode_example = decode-encode (233 ∷ []) refl

string-Encodes_example : Encodes (List ℕ) (write_string (97 ∷ 233 ∷ [])) read_string (97 ∷ 233 ∷ [])
string-Encodes_example = string-Encodes (97 ∷ 233 ∷ [])

read_uleb-write_uleb128_example : read_uleb 0 0 (write_uleb128 300 ++ (1 ∷ [])) ≡ some (300, 1 ∷ [])
read_uleb-write_uleb128_example = read_uleb-write_uleb128 300 (1 ∷ [])

message-Encodes_example :
    Encodes Message
      (write_message (97 ∷ []) (98 ∷ []) (99 ∷ []) (pos 5))
      read_message
      (record { sender = 97 ∷ []; text = 98 ∷ []; recipient = 99 ∷ []; sender_id = pos 5 })
message-Encodes_example = message-Encodes (97 ∷ []) (98 ∷ []) (99 ∷ []) (pos 5)

next-ne-exhausted_example : next (λ p. true) 2 (4 ∷ 0 ∷ []) ≢ exhausted
next-ne-exhausted_example = next-ne-exhausted (λ p. true) 2 (4 ∷ 0 ∷ []) (omega arith)

scoreframe_fmt-Encodes_example :
    Encodes ScoreFrame (write_scoreframe demo_frame) read_scoreframe_fmt (sent demo_frame)
scoreframe_fmt-Encodes_example = scoreframe_fmt-Encodes demo_frame

-- a ping, which no class handles, and a move to slot 5
abbrev ping_frame : Bytes
ping_frame = 4 ∷ 0 ∷ 0 ∷ 0 ∷ 0 ∷ 0 ∷ 0 ∷ []

abbrev move_frame : Bytes
move_frame = 38 ∷ 0 ∷ 0 ∷ 4 ∷ 0 ∷ 0 ∷ 0 ∷ 5 ∷ 0 ∷ 0 ∷ 0 ∷ []

abbrev is_move : ClientPackets → Bool
is_move packet = client_value packet == 38

abbrev read_move : ClientPackets → ℕ → Reader ℤ
read_move packet len = read_i32

two_frames-IsStream : IsStream read_move is_move (ping_frame ++ move_frame) (pos 5 ∷ [])
unfolding frame write_u16 write_u32 ◌<>◌ to_bytes to_le read_i32 from_le_signed from_le client_value
two_frames-IsStream = ignored ClientPackets.ping [] ping_frame move_frame refl refl refl (
    taken ClientPackets.match_change_slot (5 ∷ 0 ∷ 0 ∷ 0 ∷ []) move_frame [] (pos 5) refl refl refl
      refl end)

packets-IsStream_example :
    packets read_move is_move 18 (ping_frame ++ move_frame) ≡ some (pos 5 ∷ [])
packets-IsStream_example = packets-IsStream read_move is_move 18 (omega arith) two_frames-IsStream

reply-written :
    write (λ p. true) ServerPackets.user_id (i32 (pos 7) ∷ [])
    ≡ some (5 ∷ 0 ∷ 0 ∷ 4 ∷ 0 ∷ 0 ∷ 0 ∷ 7 ∷ 0 ∷ 0 ∷ 0 ∷ [])
unfolding write framed frame each write_arg write_i32 write_u16 write_u32 ◌<>◌ to_bytes
    to_bytes_signed to_le server_value
reply-written = refl

write-read_header_example :
    (payload : Bytes) × (each (write_arg (λ p. true)) (i32 (pos 7) ∷ []) ≡ some payload)
    × (read_header ((5 ∷ 0 ∷ 0 ∷ 4 ∷ 0 ∷ 0 ∷ 0 ∷ 7 ∷ 0 ∷ 0 ∷ 0 ∷ []) ++ (1 ∷ []))
        ≡ some ((server_value ServerPackets.user_id, length payload), payload ++ (1 ∷ [])))
write-read_header_example =
    write-read_header (λ p. true) ServerPackets.user_id (i32 (pos 7) ∷ []) (1 ∷ []) reply-written

-- a player who is not the host tries to lock a slot
abbrev refused : List (ℕ × Event)
refused = (8, lock_event (pos 0)) ∷ []

refused-run : run app refused room ≡ room
unfolding run handle lock host ◌>>=◌
refused-run = refl

demo-small : (i p : ℕ) (s : Slot) → get_elem? demo.slots i ≡ some s → s.player ≡ some p → p < 2 ^ 32
demo-small zero p s e h = grind arith
demo-small (suc i) p s e h =
    absurd (cc ((new_slot_vacant s (get_elem?-replicate 15 i new_slot s e)).0))

refused-small :
    (i p : ℕ) (s : Slot)
    → get_elem? (run app refused room).state.slots i ≡ some s
    → s.player ≡ some p
    → p < 2 ^ 32
refused-small =
    subst
      (λ r.
        (i p : ℕ) (s : Slot) → get_elem? r.state.slots i ≡ some s → s.player ≡ some p → p < 2 ^ 32)
      (sym refused-run) demo-small

from_osuapi-osu_api_example :
    ((osu_api loved ≡ none) × ((loved ≡ not_submitted) ⊎ (loved ≡ update_available)))
    ⊎ ((n : ℤ) × (osu_api loved ≡ some n) × (from_osuapi n ≡ loved))
from_osuapi-osu_api_example = from_osuapi-osu_api loved

abbrev open_first : Slot
open_first = record first_slot { status = open_slot }

open_first-IsSeated : IsSeated open_first
open_first-IsSeated b = refl

abbrev open_room : Room
open_room = record room { state = record demo { slots = open_first ∷ replicate 15 new_slot } }

open_first-is_status : is_status open_first.status open_slot ≡ true
unfolding is_status status_value
open_first-is_status = refl

change_slot_own_example : get_slot_id 7 (change_slot app 7 (pos 0) open_room).1.state.slots ≡ none
change_slot_own_example =
    change_slot_own app 7 0 open_first open_room (alone-IsSound open_first 15 open_first-IsSeated)
      (omega arith) refl refl open_first-is_status

write_match-negative_seed_example :
    write_match (λ p. true) (record demo { seed = negsuc 4 }) true ≡ none
write_match-negative_seed_example =
    write_match-negative_seed (λ p. true) (record demo { seed = negsuc 4 }) true 4 refl

client_value-small : (p : ClientPackets) → client_value p < 200
unfolding client_value
client_value-small p = ground arith

client_value-ne_200 : (p : ClientPackets) → client_value p ≢ 200
client_value-ne_200 p e = absurd (omega (arith, client_value-small p, e))

strange-framed : frame 200 [] ≡ some (200 ∷ 0 ∷ 0 ∷ 0 ∷ 0 ∷ 0 ∷ 0 ∷ [])
unfolding frame write_u16 write_u32 ◌<>◌ to_bytes to_le
strange-framed = refl

packets-unknown_example :
    packets read_move is_move 18 ((200 ∷ 0 ∷ 0 ∷ 0 ∷ 0 ∷ 0 ∷ 0 ∷ []) ++ move_frame) ≡ none
packets-unknown_example =
    packets-unknown read_move is_move 18 200 [] move_frame client_value-ne_200 strange-framed

-- HD, DT and HR together
from_modstr-mods_repr_example : from_modstr (mods_repr 88) ≡ 88
from_modstr-mods_repr_example = from_modstr-mods_repr 88 (omega arith)
