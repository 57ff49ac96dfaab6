-- ===== src/Beatmaps/Update.antt =====
-- `BeatmapSet._update_if_available` of app/objects/beatmap.py on what osu!api answers. A Python set of MD5s
-- is the list of them in the order in which they come.
use eunga_py.Prelude.{
  ℕ, false, not, Option, none, some, List, [], ◌∷◌, ◌++◌, map, is_empty, ◌==◌, ◌||◌, if◌then◌else◌,
}
use eunga_py.Prelude.Int.{ℤ, pos, eq_ℤ}
use eunga_py.Prelude.Text.{Str, eq_str}
use eunga_py.Prelude.Options.{◌>>=◌}
use eunga_py.GameMode.{vanilla_osu}
use eunga_py.RankedStatus.{not_submitted, from_osuapi}
use eunga_py.Beatmaps.{
  Beatmap, ApiMap, Parsing, status_value, set_key, find_key, parse_from_osuapi_resp,
}

pub record BeatmapSet : Type 0 where
  pub id : ℤ
  pub last_osuapi_check : ℕ
  pub maps : List Beatmap

-- what is executed on the database
pub data Statement : Type 0 where
  delete_maps : List Str → Statement
  delete_scores : List Str → Statement
  replace_set : ℤ → ℕ → Statement
  replace_maps : List Beatmap → Statement
  delete_set : ℤ → Statement

-- `api_get_beatmaps`: it raises, it has maps, or it has none with this status code
pub data Answer : Type 0 where
  unavailable : Answer
  found : List ApiMap → Answer
  missing : ℕ → Answer

-- `Beatmap.__new__` with an id: every other attribute is assigned behind it, so what stands here is read
-- by nothing, but that the map is not frozen and was not played
unfoldable pub new_beatmap : ℤ → Beatmap
new_beatmap id = record {
  md5 = [];
  id = id;
  set_id = pos 0;
  artist = [];
  title = [];
  version = [];
  creator = [];
  last_update = 0;
  total_length = pos 0;
  max_combo = pos 0;
  status = not_submitted;
  frozen = false;
  plays = 0;
  passes = 0;
  mode = vanilla_osu;
  bpm = 0;
  cs = 0;
  od = 0;
  ar = 0;
  hp = 0;
  diff = 0;
  filename = [];
}

-- `{bmap.id: bmap for bmap in self.maps}`
unfoldable pub by_id : List (ℤ × Beatmap) → List Beatmap → List (ℤ × Beatmap)
by_id d [] = d
by_id d (m ∷ l) = by_id (set_key m.id m d) l

abbrev pub deletions : List Str → List Statement
deletions md5s = if is_empty md5s then [] else delete_maps md5s ∷ delete_scores md5s ∷ []

module _ (py : Parsing) where
  open py use {int}

  -- `{int(api_map["beatmap_id"]): api_map for api_map in api_response}`
  unfoldable pub by_beatmap_id : List (ℤ × ApiMap) → List ApiMap → Option (List (ℤ × ApiMap))
  by_beatmap_id d [] = some d
  by_beatmap_id d (r ∷ l) = int r.beatmap_id >>= λ id. by_beatmap_id (set_key id r d) l

  -- a map that osu!api has
  unfoldable pub update_map : Beatmap → ApiMap → Option Beatmap
  update_map m r = do
    approved ← int r.approved
    if not (eq_str m.md5 r.file_md5)
          || not (eq_ℤ (status_value m.status) (status_value (from_osuapi approved)))
        then parse_from_osuapi_resp py m r
        else some m

  -- a map stays, as it is or updated, or its MD5 is to be deleted
  abbrev pub keep :
      Option ApiMap → Beatmap → List Beatmap × List Str → Option (List Beatmap × List Str)
  keep none m rest = some (rest.0, m.md5 ∷ rest.1)
  keep (some r) m rest = update_map m r >>= λ updated. some (updated ∷ rest.0, rest.1)

  unfoldable pub update_old :
      List (ℤ × ApiMap) → List (ℤ × Beatmap) → Option (List Beatmap × List Str)
  update_old new [] = some ([], [])
  update_old new ((id, m) ∷ l) = update_old new l >>= λ rest. keep (find_key id new) m rest

  abbrev pub add : Option Beatmap → ℤ → ApiMap → List Beatmap → Option (List Beatmap)
  add (some m) id r rest = some rest
  add none id r rest = parse_from_osuapi_resp py (new_beatmap id) r >>= λ added. some (added ∷ rest)

  unfoldable pub add_new : List (ℤ × Beatmap) → List (ℤ × ApiMap) → Option (List Beatmap)
  add_new old [] = some []
  add_new old ((id, r) ∷ l) = add_new old l >>= λ rest. add (find_key id old) id r rest

  unfoldable pub update_maps : List Beatmap → List ApiMap → Option (List Beatmap × List Str)
  update_maps maps response =
      let old = by_id [] maps in
      do
        new ← by_beatmap_id [] response
        kept ← update_old new old
        added ← add_new old new
        some (kept.0 ++ added, kept.1)

  -- the set and the statements; `now` is the time
  unfoldable pub update_if_available :
      ℕ → Answer → BeatmapSet → Option (BeatmapSet × List Statement)
  update_if_available now unavailable s = some (s, [])
  update_if_available now (found response) s = do
    (maps, deleted) ← update_maps s.maps response
    some (
      record s { last_osuapi_check = now; maps = maps },
      deletions deleted ++ (replace_set s.id now ∷ replace_maps maps ∷ []),
    )
  update_if_available now (missing code) s = some (
    s,
    if code == 404 || code == 200
        then deletions (map (λ m. m.md5) s.maps) ++ (delete_set s.id ∷ [])
        else [],
  )
