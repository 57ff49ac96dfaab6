-- ===== src/Examples/Plays.antt =====
-- Submissions, players and databases for the examples on score submission.
use eunga_py.Prelude.{◌+◌, ◌*◌, ◌/◌, true, none, some, [], ◌∷◌, ltb}
use eunga_py.Prelude.Int.{pos, pos_part}
use eunga_py.Prelude.Text.{codes}
use eunga_py.GameMode.{vanilla_mania}
use eunga_py.RankedStatus.{ranked}
use eunga_py.Scores.{s, sh, Floats, best}
use eunga_py.Scores.Table.{Row}
use eunga_py.Scores.Play.{Score, Beatmap, Previous, Python}
use eunga_py.Submission.{ModeData, Account, State, fine, broken}
use eunga_py.Submission.Checks.{Request}
use eunga_py.Submission.Persist.{Server}
use eunga_py.Submission.Submit.{Services}

-- floats that are whole numbers
abbrev pub whole : Floats
whole = record {
  of_int = pos_part;
  decimal = λ k e. k;
  add = λ a b. a + b;
  sub = λ a b. a;
  mul = λ a b. a * b;
  pow = λ a n. 1;
  div = λ a b. some (a / b);
  gt = λ a b. ltb b a;
  round = λ a. some (pos a);
  column = λ a. a;
}

-- a text of one code point is read as a number
abbrev pub python : Python
python = record {
  floats = whole;
  int = λ t. elim t [ [] ↦ none | c ∷ _ ↦ some (pos c) ];
  to_nat = λ n. some (pos_part n);
  strptime = λ t. some t;
  lower = λ t. t;
  str = λ n. pos_part n ∷ [];
  md5 = λ t. t;
}

abbrev pub server : Server
server = record {
  python = python;
  known_maps = (1 ∷ []) ∷ [];
  by_pp = λ l. l;
  top = λ by l. elim l [ [] ↦ none | r ∷ _ ↦ some r ];
  visible = λ u. true;
  achievements = [];
}

abbrev pub song : Beatmap
song = record { md5 = 1 ∷ []; id = 5; set_id = 6; status = ranked; embed = [] }

abbrev pub services : Services
services = record {
  server = server;
  fetch_beatmap = λ md5. some song;
  authenticate = λ name password. some 7;
  osu_file_available = λ id md5. true;
  performance = λ z. some (100, 4);
  global_rank = λ u m. 1;
  has_announce_channel = true;
  domain = codes "example.com";
  name_of = λ u. [];
  grouped = λ n. [];
  grouped2 = λ n. [];
  fixed2 = λ n. [];
}

-- a mania play
abbrev pub request : Request
request = record {
  score_data =
      (1 ∷ [])
      ∷ (97 ∷ [])
      ∷ (2 ∷ [])
      ∷ (9 ∷ [])
      ∷ (0 ∷ [])
      ∷ (0 ∷ [])
      ∷ (0 ∷ [])
      ∷ (0 ∷ [])
      ∷ (0 ∷ [])
      ∷ (90 ∷ [])
      ∷ (9 ∷ [])
      ∷ codes "True"
      ∷ codes "s"
      ∷ (0 ∷ [])
      ∷ codes "True"
      ∷ (3 ∷ [])
      ∷ []
      ∷ []
      ∷ [];
  password_md5 = [];
  osu_version = [];
  client_hash = [];
  unique_ids = codes "|";
  storyboard_md5 = none;
  updated_beatmap_hash = 1 ∷ [];
  score_time = pos 60000;
  fail_time = pos 0;
  replay_file = [];
}

abbrev pub old_stats : ModeData
old_stats = record {
  tscore = pos 500;
  rscore = pos 300;
  pp = pos 40;
  acc = 90;
  plays = pos 3;
  playtime = pos 200;
  max_combo = pos 20;
  total_hits = pos 100;
  rank = 2;
  grades = λ g. some (pos 1);
}

abbrev pub old_best : Previous
old_best = record { id = 1; score = pos 80; grade = sh; status = best }

abbrev pub play : Score
play = record {
  id = none;
  bmap = song;
  player = 7;
  mode = vanilla_mania;
  mods = 0;
  pp = some 100;
  sr = some 4;
  score = pos 90;
  max_combo = pos 9;
  acc = some 100;
  n300 = pos 9;
  n100 = pos 0;
  n50 = pos 0;
  nmiss = pos 0;
  ngeki = pos 0;
  nkatu = pos 0;
  grade = s;
  passed = true;
  perfect = true;
  status = some best;
  client_time = [];
  time_elapsed = some (pos 60000);
  client_flags = 0;
  client_checksum = 2 ∷ [];
  rank = some 1;
  prev_best = some old_best;
}

abbrev pub anna : Account
anna = record {
  name = 97 ∷ [];
  display_name = 97 ∷ [];
  token = 116 ∷ [];
  priv = 3;
  client_details = none;
  status_mods = 0;
  status_mode = vanilla_mania;
  stats = λ m. some old_stats;
  recent_scores = λ m. none;
  session_play_count = 0;
  session_play_history = [];
}

-- the database fails at the fifth statement, the UPDATE of the statistics
abbrev pub before : State
before = record {
  tables = record {
    scores = record { list = []; next_id = 1 };
    stats = λ u m. none;
    maps = λ id. record { plays = 0; passes = 0 };
    achieved = [];
  };
  replies = fine ∷ fine ∷ fine ∷ fine ∷ broken ∷ [];
  players = λ u. anna;
  maps = λ md5. record { plays = 0; passes = 0 };
  score = play;
  effects = [];
}

-- the player has one best score on the map
abbrev pub old_row : Row
old_row = record {
  id = 1;
  map_md5 = 1 ∷ [];
  score = pos 80;
  pp = 40;
  acc = 90;
  max_combo = pos 20;
  mods = 0;
  n300 = pos 9;
  n100 = pos 0;
  n50 = pos 0;
  nmiss = pos 0;
  ngeki = pos 0;
  nkatu = pos 0;
  grade = codes "SH";
  status = 2;
  mode = 3;
  time_elapsed = pos 60000;
  userid = 7;
  perfect = true;
  online_checksum = [];
}

abbrev pub one_score : ModeData
one_score = record old_stats {
  rscore = pos 80;
  grades = λ g. elim g [ sh ↦ some (pos 1) | _ ↦ some (pos 0) ];
}

abbrev pub bea : Account
bea = record anna { stats = λ m. some one_score }

-- every statement succeeds
abbrev pub with_one : State
with_one = record before {
  tables = record before.tables { scores = record { list = old_row ∷ []; next_id = 2 } };
  replies = [];
  players = λ u. bea;
}
