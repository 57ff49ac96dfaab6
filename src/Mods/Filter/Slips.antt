-- ===== src/Mods/Filter/Slips.antt =====
-- `filter_invalid_combos` on the combination of DT, NC and HT.
use Prim.Native.Nat.{bit_and}
use eunga_py.Prelude.{ℕ, ◌≡◌, refl, sym, ◌∙◌, Bool, true, false, ◌==◌, arith, if◌then◌else◌}
use eunga_py.Bits.{bit, clear, has, bit-clear, bit-bit_and}
use eunga_py.Bits.Masks.{has-flag}
use eunga_py.Mods.{
  Mods, hardrock, suddendeath, doubletime, relax, halftime, nightcore, perfect, autopilot, nofail,
  fadein, spunout, ◌∣∣◌, key_mods, osu_specific_mods, mania_specific_mods,
}
use eunga_py.Mods.Filter.Steps.{both_set}
use eunga_py.Mods.Filter.{
  resolve_speed, resolve_difficulty, drop_mod, resolve_fail, resolve_nofail, resolve_perfect,
  remove_foreign, resolve_osu, resolve_mania, resolve_keys, filter_invalid_combos,
}

-- The flag `i` of the first is in the second.
record Stays (i : ℕ) (m r : Mods) : Type 0 where
  at : bit m i ≡ true → bit r i ≡ true

Stays-refl : (i : ℕ) (m : Mods) → Stays i m m
Stays-refl i m = record { at = λ h. h }

Stays-if :
    (i : ℕ) (c : Bool) {m x y : Mods} → Stays i m x → Stays i m y → Stays i m (if c then x else y)
Stays-if i true s t = s
Stays-if i false s t = t

-- A flag that the mask lacks survives its clearing.
Stays-clear :
    (i : ℕ) {m x : Mods} (b : Mods) → bit b i ≡ false → Stays i m x → Stays i m (clear x b)
Stays-clear i {m} {x} b h s = record { at = λ p. ground (arith, s.at p, bit-clear x b i) }

-- What the blocks after the first clear, apart from the key mods.
record IsUntouched (i : ℕ) : Type 0 where
  by_hardrock : bit hardrock i ≡ false
  by_suddendeath : bit suddendeath i ≡ false
  by_perfect : bit perfect i ≡ false
  by_nofail : bit nofail i ≡ false
  by_osu : bit osu_specific_mods i ≡ false
  by_mania : bit mania_specific_mods i ≡ false
  by_autopilot : bit autopilot i ≡ false
  by_relax : bit relax i ≡ false
  by_fadein : bit fadein i ≡ false
  by_keys : bit key_mods i ≡ false

unused_key : (used first i : ℕ) → bit used i ≡ false → bit (clear used first) i ≡ false
unused_key used first i h = ground (arith, bit-clear used first i)

module _ {i : ℕ} (u : IsUntouched i) {m x : Mods} (s : Stays i m x) where
  Stays-difficulty : Stays i m (resolve_difficulty x)
  unfolding resolve_difficulty
  Stays-difficulty = Stays-if i _ (Stays-clear i _ u.by_hardrock s) s

  Stays-drop : (b : Mods) → bit b i ≡ false → Stays i m (drop_mod x b)
  unfolding drop_mod
  Stays-drop b h = Stays-if i _ (Stays-clear i b h s) s

  Stays-perfect : Stays i m (resolve_perfect x)
  unfolding resolve_perfect
  Stays-perfect = Stays-if i _ (Stays-clear i _ u.by_suddendeath s) s

  Stays-foreign : (mode_vn : ℕ) → Stays i m (remove_foreign mode_vn x)
  unfolding remove_foreign
  Stays-foreign mode_vn =
      let own : Stays i m (if mode_vn == 0 then x else clear x osu_specific_mods) =
        Stays-if i _ s (Stays-clear i _ u.by_osu s) in
      Stays-if i _ own (Stays-clear i _ u.by_mania own)

  Stays-osu : (mode_vn : ℕ) → Stays i m (resolve_osu mode_vn x)
  unfolding resolve_osu
  Stays-osu mode_vn =
      Stays-if i (mode_vn == 0)
        (Stays-if i (has x autopilot)
          (Stays-if i (has x (spunout ∣∣ relax)) (Stays-clear i _ u.by_autopilot s) s) s)
        s

  Stays-mania : (mode_vn : ℕ) → Stays i m (resolve_mania mode_vn x)
  unfolding resolve_mania
  Stays-mania mode_vn =
      let plain = Stays-clear i relax u.by_relax s in
      Stays-if i _ (Stays-if i _ (Stays-clear i _ u.by_fadein plain) plain) s

  Stays-keys : Stays i m (resolve_keys x)
  unfolding resolve_keys
  Stays-keys =
      let off : bit (bit_and x key_mods) i ≡ false =
        ground (arith, bit-bit_and x key_mods i, u.by_keys) in
      Stays-if i _ (Stays-clear i _ (unused_key (bit_and x key_mods) _ i off) s) s

module _ {i : ℕ} (u : IsUntouched i) {m x : Mods} (s : Stays i m x) where
  Stays-fail : Stays i m (resolve_fail x)
  unfolding resolve_fail
  Stays-fail =
      Stays-if i _ (Stays-drop u (Stays-drop u s suddendeath u.by_suddendeath) perfect u.by_perfect)
        s

  Stays-nofail : Stays i m (resolve_nofail x)
  unfolding resolve_nofail
  Stays-nofail = Stays-if i _ (Stays-drop u s nofail u.by_nofail) s

Stays-filter :
    {i : ℕ} (u : IsUntouched i) (m : Mods) (mode_vn : ℕ)
    → Stays i m (resolve_speed m)
    → Stays i m (filter_invalid_combos m mode_vn)
unfolding filter_invalid_combos
Stays-filter u m mode_vn s =
    let difficulty = Stays-difficulty u s in
    let perfect_off = Stays-perfect u (Stays-nofail u (Stays-fail u difficulty)) in
    Stays-keys u (Stays-mania u (Stays-osu u (Stays-foreign u perfect_off mode_vn) mode_vn) mode_vn)

IsUntouched-halftime : IsUntouched 8
unfolding bit
IsUntouched-halftime = record {
  by_hardrock = refl;
  by_suddendeath = refl;
  by_perfect = refl;
  by_nofail = refl;
  by_osu = refl;
  by_mania = refl;
  by_autopilot = refl;
  by_relax = refl;
  by_fadein = refl;
  by_keys = refl;
}

IsUntouched-nightcore : IsUntouched 9
unfolding bit
IsUntouched-nightcore = record {
  by_hardrock = refl;
  by_suddendeath = refl;
  by_perfect = refl;
  by_nofail = refl;
  by_osu = refl;
  by_mania = refl;
  by_autopilot = refl;
  by_relax = refl;
  by_fadein = refl;
  by_keys = refl;
}

-- The first block stops at DT and NC.
speed_stops :
    (m : Mods)
    → has m doubletime ≡ true
    → has m nightcore ≡ true
    → resolve_speed m ≡ clear m doubletime
unfolding resolve_speed
speed_stops m p q = ground (arith, both_set m p q)

speed_Stays :
    (i : ℕ) (m : Mods)
    → bit doubletime i ≡ false
    → has m doubletime ≡ true
    → has m nightcore ≡ true
    → Stays i m (resolve_speed m)
speed_Stays i m h p q = rw (speed_stops m p q) (Stays-clear i doubletime h (Stays-refl i m))

-- With DT, NC and HT all on, in any game mode, the result has NC and HT on together.
pub filter_slip :
    (m : Mods) (mode_vn : ℕ)
    → has m doubletime ≡ true
    → has m nightcore ≡ true
    → has m halftime ≡ true
    → (has (filter_invalid_combos m mode_vn) nightcore ≡ true)
      × (has (filter_invalid_combos m mode_vn) halftime ≡ true)
unfolding bit
filter_slip m mode_vn dt nc ht =
    let nightcore_stays =
      Stays-filter IsUntouched-nightcore m mode_vn (speed_Stays 9 m refl dt nc) in
    let halftime_stays = Stays-filter IsUntouched-halftime m mode_vn (speed_Stays 8 m refl dt nc) in
    let r : Mods = filter_invalid_combos m mode_vn in
    (
      has-flag r 9 ∙ nightcore_stays.at (sym (has-flag m 9) ∙ nc),
      has-flag r 8 ∙ halftime_stays.at (sym (has-flag m 8) ∙ ht),
    )
