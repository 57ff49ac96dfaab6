-- ===== src/Packets/Reader/Structs.antt =====
-- The `read_…` methods of structured values.
use eunga_py.Prelude.{
  ℕ, ◌-◌, ◌%◌, Bool, not, Option, none, some, List, [], ◌∷◌, length, take, leb, ◌==◌, if◌then◌else◌,
}
use eunga_py.Prelude.Int.{ℤ, pos, negsuc, eq_ℤ}
use eunga_py.Bits.{has}
use eunga_py.Packets.Structs
use eunga_py.Packets.Structs.{
  Message, ReplayAction, ScoreFrame, ReplayFrame, ReplayFrameBundle, MultiplayerMatch,
}
use eunga_py.Packets.Reader.{
  Reader, pure, ◌>>=◌, times, read_u8, read_i8, read_i16, read_u16, read_i32, read_f32, read_f64,
  read_string,
}

unfoldable pub read_message : Reader Message
read_message = do
  sender ← read_string
  text ← read_string
  recipient ← read_string
  sender_id ← read_i32
  pure (record { sender = sender; text = text; recipient = recipient; sender_id = sender_id })

unfoldable pub read_channel : Reader Structs.Channel
read_channel = do
  name ← read_string
  topic ← read_string
  players ← read_i32
  pure (record { name = name; topic = topic; players = players })

-- the low byte of an integer in two's complement, which is all that `status & 124` looks at
unfoldable pub low_byte : ℤ → ℕ
low_byte (pos n) = n % 256
low_byte (negsuc n) = 255 - n % 256

-- slot has a player: `status & 124 != 0`
unfoldable pub has_player : ℤ → Bool
has_player status = has (low_byte status) 124

unfoldable pub read_slot_ids : List ℤ → Reader (List ℤ)
read_slot_ids [] = pure []
read_slot_ids (status ∷ rest) =
    let others = read_slot_ids rest in
    if has_player status then (do i ← read_i32; is ← others; pure (i ∷ is)) else others

-- the mods of the slots, which are sent with freemods only
unfoldable pub read_slot_mods : Bool → Reader (List ℤ)
read_slot_mods freemods = if freemods then times 16 read_i32 else pure []

unfoldable pub read_match : Reader MultiplayerMatch
read_match = do
  id ← read_i16
  in_progress ← read_i8
  powerplay ← read_i8
  mods ← read_i32
  name ← read_string
  passwd ← read_string
  map_name ← read_string
  map_id ← read_i32
  map_md5 ← read_string
  slot_statuses ← times 16 read_i8
  slot_teams ← times 16 read_i8
  slot_ids ← read_slot_ids slot_statuses
  host_id ← read_i32
  mode ← read_i8
  win_condition ← read_i8
  team_type ← read_i8
  freemods ← read_i8
  slot_mods ← read_slot_mods (eq_ℤ freemods (pos 1))
  seed ← read_i32
  pure (record {
    id = id;
    in_progress = eq_ℤ in_progress (pos 1);
    powerplay = powerplay;
    mods = mods;
    name = name;
    passwd = passwd;
    map_name = map_name;
    map_id = map_id;
    map_md5 = map_md5;
    slot_statuses = slot_statuses;
    slot_teams = slot_teams;
    slot_ids = slot_ids;
    host_id = host_id;
    mode = mode;
    win_condition = win_condition;
    team_type = team_type;
    freemods = eq_ℤ freemods (pos 1);
    slot_mods = slot_mods;
    seed = seed;
  })

-- `?` of `struct`
unfoldable pub read_flag : Reader Bool
read_flag = do b ← read_u8; pure (not (b == 0))

-- SCOREFRAME_FMT, "<iBHHHHHHiHH?BB?"
unfoldable pub read_scoreframe_fmt : Reader ScoreFrame
read_scoreframe_fmt = do
  time ← read_i32
  id ← read_u8
  num300 ← read_u16
  num100 ← read_u16
  num50 ← read_u16
  num_geki ← read_u16
  num_katu ← read_u16
  num_miss ← read_u16
  total_score ← read_i32
  max_combo ← read_u16
  current_combo ← read_u16
  perfect ← read_flag
  current_hp ← read_u8
  tag_byte ← read_u8
  score_v2 ← read_flag
  pure (record {
    time = time;
    id = id;
    num300 = num300;
    num100 = num100;
    num50 = num50;
    num_geki = num_geki;
    num_katu = num_katu;
    num_miss = num_miss;
    total_score = total_score;
    max_combo = max_combo;
    current_combo = current_combo;
    perfect = perfect;
    current_hp = current_hp;
    tag_byte = tag_byte;
    score_v2 = score_v2;
    combo_portion = none;
    bonus_portion = none;
  })

-- `unpack_from` raises unless all of the 29 bytes are there
unfoldable pub read_scoreframe_head : Reader ScoreFrame
read_scoreframe_head b = if leb 29 (length b) then read_scoreframe_fmt b else none

unfoldable pub read_portions : ScoreFrame → Reader ScoreFrame
read_portions sf =
    if sf.score_v2
    then (do
      combo ← read_f64
      bonus ← read_f64
      pure (record sf { combo_portion = some combo; bonus_portion = some bonus }))
    else pure sf

unfoldable pub read_scoreframe : Reader ScoreFrame
read_scoreframe = do sf ← read_scoreframe_head; read_portions sf

unfoldable pub read_replayframe : Reader ReplayFrame
read_replayframe = do
  button_state ← read_u8
  taiko_byte ← read_u8
  x ← read_f32
  y ← read_f32
  time ← read_i32
  pure (record { button_state = button_state; taiko_byte = taiko_byte; x = x; y = y; time = time })

-- `ReplayAction(n)`, which raises ValueError for any other number
unfoldable pub replay_action : ℕ → Option ReplayAction
replay_action n =
    if n == 0
    then some ReplayAction.standard
    else if n == 1
    then some ReplayAction.new_song
    else if n == 2
    then some ReplayAction.skip
    else if n == 3
    then some ReplayAction.completion
    else if n == 4
    then some ReplayAction.fail
    else if n == 5
    then some ReplayAction.pause
    else if n == 6
    then some ReplayAction.unpause
    else if n == 7
    then some ReplayAction.song_select
    else if n == 8
    then some ReplayAction.watching_other
    else none

-- an exception, or the value
unfoldable pub lift : {A : Type 0} → Option A → Reader A
lift o b = elim o [ none ↦ none | some a ↦ some (a, b) ]

-- `raw_data` is the packet as it came, of `current_len` bytes
unfoldable pub read_replayframe_bundle : ℕ → Reader ReplayFrameBundle
read_replayframe_bundle current_len b =
    (do
      extra ← read_i32
      framecount ← read_u16
      frames ← times framecount read_replayframe
      code ← read_u8
      action ← lift (replay_action code)
      scoreframe ← read_scoreframe
      sequence ← read_u16
      pure (record {
        replay_frames = frames;
        score_frame = scoreframe;
        action = action;
        extra = extra;
        sequence = sequence;
        raw_data = take current_len b;
      }))
      b
