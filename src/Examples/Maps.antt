-- ===== src/Examples/Maps.antt =====
-- The theorem on updates from osu!api at a concrete input.
use mathlib.Core.List.{Memᴰ}
use eunga_py.Prelude.{◌≡◌, refl, true, false, none, some, List, [], ◌∷◌, All, ℕ}
use eunga_py.Prelude.Int.{pos, pos_part}
use eunga_py.Prelude.Text.{codes}
use eunga_py.GameMode.{vanilla_osu}
use eunga_py.RankedStatus.{ranked}
use eunga_py.Beatmaps.{Beatmap, ApiMap, Parsing}
use eunga_py.Beatmaps.Update.{
  BeatmapSet, Statement, replace_maps, found, update_if_available, new_beatmap,
}
use eunga_py.Beatmaps.Parsed.{Current}
use eunga_py.Beatmaps.Current.{update_if_available-Current}

-- a text is read as its first code point
abbrev python : Parsing
python = record {
  int = λ t. elim t [ [] ↦ none | c ∷ _ ↦ some (pos c) ];
  to_nat = λ n. some (pos_part n);
  float = λ t. elim t [ [] ↦ none | c ∷ _ ↦ some c ];
  zero_float = 0;
  datetime = λ y m d h min s. some (pos_part s);
}

abbrev answer : ℕ → ℕ → ApiMap
answer id md5 = record {
  beatmap_id = id ∷ [];
  file_md5 = md5 ∷ [];
  beatmapset_id = 9 ∷ [];
  artist = codes "a";
  title = codes "b";
  version = codes "c";
  creator = codes "d";
  last_update = codes "2020-01-02 03:04:05";
  total_length = 60 ∷ [];
  max_combo = none;
  approved = 0 ∷ [];
  mode = 1 ∷ [];
  bpm = none;
  diff_size = 4 ∷ [];
  diff_overall = 5 ∷ [];
  diff_approach = 6 ∷ [];
  diff_drain = 7 ∷ [];
  difficultyrating = 3 ∷ [];
}

-- a frozen map with an old MD5, and a map that osu!api does not have
abbrev kept : Beatmap
kept = record {
  md5 = 1 ∷ [];
  id = pos 5;
  set_id = pos 9;
  artist = [];
  title = [];
  version = [];
  creator = [];
  last_update = 0;
  total_length = pos 60;
  max_combo = pos 0;
  status = ranked;
  frozen = true;
  plays = 3;
  passes = 2;
  mode = vanilla_osu;
  bpm = 0;
  cs = 4;
  od = 5;
  ar = 6;
  hp = 7;
  diff = 3;
  filename = [];
}

abbrev maps : BeatmapSet
maps = record {
  id = pos 9;
  last_osuapi_check = 0;
  maps = kept ∷ record kept { id = pos 6; md5 = 2 ∷ []; frozen = false } ∷ [];
}

abbrev answers : List ApiMap
answers = answer 5 3 ∷ answer 7 4 ∷ []

updated :
    (after : BeatmapSet) × ((out : List Statement) × (update_if_available python 100
          (found answers)
          maps
        ≡ some (after, out)))
unfolding update_if_available eunga_py.Beatmaps.Update.update_maps eunga_py.Beatmaps.Update.by_id
    eunga_py.Beatmaps.Update.by_beatmap_id eunga_py.Beatmaps.Update.update_map
    eunga_py.Beatmaps.Update.update_old eunga_py.Beatmaps.Update.add_new
    eunga_py.Beatmaps.Update.new_beatmap eunga_py.Beatmaps.set_key
    eunga_py.Beatmaps.parse_from_osuapi_resp eunga_py.Beatmaps.parse_status
    eunga_py.Beatmaps.parse_last_update eunga_py.Beatmaps.int_slice eunga_py.Beatmaps.filename_of
    eunga_py.Beatmaps.translate eunga_py.Beatmaps.status_value eunga_py.RankedStatus.from_osuapi
    eunga_py.GameMode.of_value
updated = (_, (_, refl))

update_if_available-Current_example :
    All (Current python maps.maps answers) updated.0.maps
    × Memᴰ (replace_maps updated.0.maps) updated.1.0
update_if_available-Current_example =
    update_if_available-Current python 100 answers maps updated.0 updated.1.0 updated.1.1
