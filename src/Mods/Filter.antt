-- ===== src/Mods/Filter.antt =====
-- `Mods.filter_invalid_combos`, a block of the method for each helper.
pub mod Steps
pub mod Keys
pub mod Compatible
pub mod Slips
use Prim.Native.Nat.{bit_and}
use eunga_py.Prelude.{ℕ, suc, ◌<◌, Bool, not, ◌&&◌, List, [], ◌∷◌, ◌==◌, ltb, if◌then◌else◌}
use eunga_py.Bits.{clear, has}
use eunga_py.Bits.Masks.{count_ones}
use eunga_py.Mods.{
  Mods, nomod, nofail, easy, hidden, hardrock, suddendeath, doubletime, relax, halftime, nightcore,
  spunout, autopilot, perfect, fadein, key_mods, key_mod_list, osu_specific_mods,
  mania_specific_mods, ◌∣∣◌,
}

-- (DT|NC)HT and DTNC
pub resolve_speed : Mods → Mods
resolve_speed m =
    let dtnc = bit_and m (doubletime ∣∣ nightcore) in
    if dtnc == (doubletime ∣∣ nightcore)
    then clear m doubletime
    else if not (dtnc == 0) && has m halftime
    then clear m halftime
    else m

-- EZHR
pub resolve_difficulty : Mods → Mods
resolve_difficulty m = if has m easy && has m hardrock then clear m hardrock else m

-- `if self & a: self &= ~a`
drop_mod : Mods → Mods → Mods
drop_mod m a = if has m a then clear m a else m

-- (NF|RX|AP)SD and (NF|RX|AP)PF
pub resolve_fail : Mods → Mods
unfolding drop_mod
resolve_fail m =
    if has m (nofail ∣∣ relax ∣∣ autopilot) then drop_mod (drop_mod m suddendeath) perfect else m

-- (RX|AP)NF
pub resolve_nofail : Mods → Mods
unfolding drop_mod
resolve_nofail m = if has m (relax ∣∣ autopilot) then drop_mod m nofail else m

-- PFSD
pub resolve_perfect : Mods → Mods
resolve_perfect m = if has m perfect && has m suddendeath then clear m suddendeath else m

-- mode-unique mods
pub remove_foreign : ℕ → Mods → Mods
remove_foreign mode_vn m =
    let own = if mode_vn == 0 then m else clear m osu_specific_mods in
    if mode_vn == 3 then own else clear own mania_specific_mods

-- (SO|RX)AP in osu!
pub resolve_osu : ℕ → Mods → Mods
resolve_osu mode_vn m =
    if mode_vn == 0
    then if has m autopilot then if has m (spunout ∣∣ relax) then clear m autopilot else m else m
    else m

-- no RX, and HDFI, in mania
pub resolve_mania : ℕ → Mods → Mods
resolve_mania mode_vn m =
    if mode_vn == 3
    then (let unrelaxed = clear m relax in
        if has unrelaxed hidden && has unrelaxed fadein then clear unrelaxed fadein else unrelaxed)
    else m

-- the loop over KEY_MODS, which stops at the first one in use
pub first_key : Mods → List Mods → Mods
first_key used [] = nomod
first_key used (k ∷ rest) = if has used k then k else first_key used rest

-- keep only the first key mod
pub resolve_keys : Mods → Mods
unfolding first_key
resolve_keys m =
    let used = bit_and m key_mods in
    if ltb 1 (count_ones 31 used) then clear m (clear used (first_key used key_mod_list)) else m

pub filter_invalid_combos : Mods → ℕ → Mods
filter_invalid_combos m mode_vn =
    let compatible =
      resolve_perfect (resolve_nofail (resolve_fail (resolve_difficulty (resolve_speed m)))) in
    resolve_keys (resolve_mania mode_vn (resolve_osu mode_vn (remove_foreign mode_vn compatible)))
