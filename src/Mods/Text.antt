-- ===== src/Mods/Text.antt =====
-- `Mods.__repr__`, `from_modstr` and `from_np`, with their tables.
pub mod RoundTrip
use eunga_py.Prelude.{
  ℕ, ◌-◌, ◌≡◌, refl, true, ◌&&◌, List, [], ◌∷◌, ◌++◌, all, leb, ◌==◌, if◌then◌else◌,
}
use eunga_py.Prelude.Text.{Str, codes, eq_str}
use eunga_py.Bits.{has}
use eunga_py.Mods.{
  Mods, nomod, all_mods, ◌∣∣◌, autopilot, autoplay, cinema, doubletime, easy, fadein, flashlight,
  halftime, hardrock, hidden, key1, key2, key3, key4, key5, key6, key7, key8, key9, keycoop, mirror,
  nightcore, nofail, perfect, random, relax, scorev2, spunout, suddendeath, target, touchscreen,
}
use eunga_py.Mods.Filter.{filter_invalid_combos}

abbrev pub modstr2mod : List (Str × Mods)
modstr2mod =
    (codes "NF", nofail)
    ∷ (codes "EZ", easy)
    ∷ (codes "TD", touchscreen)
    ∷ (codes "HD", hidden)
    ∷ (codes "HR", hardrock)
    ∷ (codes "SD", suddendeath)
    ∷ (codes "DT", doubletime)
    ∷ (codes "RX", relax)
    ∷ (codes "HT", halftime)
    ∷ (codes "NC", nightcore)
    ∷ (codes "FL", flashlight)
    ∷ (codes "AU", autoplay)
    ∷ (codes "SO", spunout)
    ∷ (codes "AP", autopilot)
    ∷ (codes "PF", perfect)
    ∷ (codes "FI", fadein)
    ∷ (codes "RN", random)
    ∷ (codes "CN", cinema)
    ∷ (codes "TP", target)
    ∷ (codes "V2", scorev2)
    ∷ (codes "MR", mirror)
    ∷ (codes "1K", key1)
    ∷ (codes "2K", key2)
    ∷ (codes "3K", key3)
    ∷ (codes "4K", key4)
    ∷ (codes "5K", key5)
    ∷ (codes "6K", key6)
    ∷ (codes "7K", key7)
    ∷ (codes "8K", key8)
    ∷ (codes "9K", key9)
    ∷ (codes "CO", keycoop)
    ∷ []

abbrev npstr2mod : List (Str × Mods)
npstr2mod =
    (codes "-NoFail", nofail)
    ∷ (codes "-Easy", easy)
    ∷ (codes "+Hidden", hidden)
    ∷ (codes "+HardRock", hardrock)
    ∷ (codes "+SuddenDeath", suddendeath)
    ∷ (codes "+DoubleTime", doubletime)
    ∷ (codes "~Relax~", relax)
    ∷ (codes "-HalfTime", halftime)
    ∷ (codes "+Nightcore", nightcore)
    ∷ (codes "+Flashlight", flashlight)
    ∷ (codes "|Autoplay|", autoplay)
    ∷ (codes "-SpunOut", spunout)
    ∷ (codes "~Autopilot~", autopilot)
    ∷ (codes "+Perfect", perfect)
    ∷ (codes "|Cinema|", cinema)
    ∷ (codes "~Target~", target)
    ∷ (codes "|1K|", key1)
    ∷ (codes "|2K|", key2)
    ∷ (codes "|3K|", key3)
    ∷ (codes "|4K|", key4)
    ∷ (codes "|5K|", key5)
    ∷ (codes "|6K|", key6)
    ∷ (codes "|7K|", key7)
    ∷ (codes "|8K|", key8)
    ∷ (codes "|9K|", key9)
    ∷ (codes "|10K|", key5 ∣∣ keycoop)
    ∷ (codes "|12K|", key6 ∣∣ keycoop)
    ∷ (codes "|14K|", key7 ∣∣ keycoop)
    ∷ (codes "|16K|", key8 ∣∣ keycoop)
    ∷ (codes "|18K|", key9 ∣∣ keycoop)
    ∷ []

abbrev pub mod2modstr : List (Mods × Str)
mod2modstr =
    (nofail, codes "NF")
    ∷ (easy, codes "EZ")
    ∷ (touchscreen, codes "TD")
    ∷ (hidden, codes "HD")
    ∷ (hardrock, codes "HR")
    ∷ (suddendeath, codes "SD")
    ∷ (doubletime, codes "DT")
    ∷ (relax, codes "RX")
    ∷ (halftime, codes "HT")
    ∷ (nightcore, codes "NC")
    ∷ (flashlight, codes "FL")
    ∷ (autoplay, codes "AU")
    ∷ (spunout, codes "SO")
    ∷ (autopilot, codes "AP")
    ∷ (perfect, codes "PF")
    ∷ (fadein, codes "FI")
    ∷ (random, codes "RN")
    ∷ (cinema, codes "CN")
    ∷ (target, codes "TP")
    ∷ (scorev2, codes "V2")
    ∷ (mirror, codes "MR")
    ∷ (key1, codes "1K")
    ∷ (key2, codes "2K")
    ∷ (key3, codes "3K")
    ∷ (key4, codes "4K")
    ∷ (key5, codes "5K")
    ∷ (key6, codes "6K")
    ∷ (key7, codes "7K")
    ∷ (key8, codes "8K")
    ∷ (key9, codes "9K")
    ∷ (keycoop, codes "CO")
    ∷ []

-- `_dict[mod]`, and `mods |= _dict[mod]` unless the key is missing
abbrev find_mods : Str → List (Str × Mods) → Mods
find_mods key [] = nomod
find_mods key ((k, v) ∷ rest) = let later = find_mods key rest in if eq_str k key then v else later

abbrev pub find_str : Mods → List (Mods × Str) → Str
find_str single [] = []
find_str single ((k, v) ∷ rest) =
    let later = find_str single rest in if k == single then v else later

-- `str.upper` of a character. The letters that are not ASCII and that the tables can still match are
-- the dotless i, the long s, and the ligatures of fi and fl.
abbrev upper_char : ℕ → Str
upper_char c =
    if leb 97 c && leb c 122
    then (c - 32) ∷ []
    else if c == 0x131
    then 73 ∷ []
    else if c == 0x17f
    then 83 ∷ []
    else if c == 0xfb01
    then 70 ∷ 73 ∷ []
    else if c == 0xfb02
    then 70 ∷ 76 ∷ []
    else c ∷ []

-- the text in chunks of two characters, in upper case; the last may be short
abbrev pub chunks : Str → List Str
chunks [] = []
chunks (c ∷ []) = upper_char c ∷ []
chunks (c ∷ d ∷ s) = (upper_char c ++ upper_char d) ∷ chunks s

abbrev pub join_mods : List (Str × Mods) → Mods → List Str → Mods
join_mods table mods [] = mods
join_mods table mods (key ∷ rest) = join_mods table (mods ∣∣ find_mods key table) rest

unfoldable pub from_modstr : Str → Mods
from_modstr s = join_mods modstr2mod nomod (chunks s)

-- the characters up to the next space, and the words behind it
abbrev words : Str → List Str
words [] = [] ∷ []
words (c ∷ s) =
    let rest = words s in
    if c == 32 then [] ∷ rest else elim rest [ [] ↦ (c ∷ []) ∷ [] | w ∷ ws ↦ (c ∷ w) ∷ ws ]

unfoldable pub from_np : Str → ℕ → Mods
from_np s mode_vn = filter_invalid_combos (join_mods npstr2mod nomod (words s)) mode_vn

abbrev pub names : Mods → List Mods → Str
names m [] = []
names m (single ∷ rest) =
    let later = names m rest in if has m single then find_str single mod2modstr ++ later else later

-- `Mods.__repr__`
unfoldable pub mods_repr : Mods → Str
mods_repr m = if m == 0 then codes "NM" else names m all_mods
