-- ===== src/Mods/Filter/Compatible.antt =====
-- Proofs about the result of `filter_invalid_combos` of app/constants/mods.py.
use eunga_py.Prelude.{
  ℕ, ◌≤◌, ◌<◌, ◌^◌, ◌≡◌, ◌≢◌, Bool, false, not, ◌&&◌, inl, inr, ◌==◌, ==_iff, Bool-cases, arith,
}
use eunga_py.Bits.{has, IsSubset, IsSubset-trans}
use eunga_py.Mods.{
  Mods, nofail, easy, hidden, hardrock, suddendeath, doubletime, relax, halftime, nightcore,
  spunout, autopilot, perfect, fadein, osu_specific_mods, mania_specific_mods, ◌∣∣◌,
}
use eunga_py.Mods.Filter.{
  resolve_speed, resolve_difficulty, resolve_fail, resolve_nofail, resolve_perfect, remove_foreign,
  resolve_osu, resolve_mania, resolve_keys, filter_invalid_combos,
}
use eunga_py.Mods.Filter.Steps.{
  Excludes, Excludes-IsSubset, apart, together, off-IsSubset, resolve_speed-IsSubset,
  resolve_difficulty-IsSubset, resolve_fail-IsSubset, resolve_nofail-IsSubset,
  resolve_perfect-IsSubset, remove_foreign-IsSubset, resolve_osu-IsSubset, resolve_mania-IsSubset,
  resolve_keys-IsSubset, resolve_speed-Excludes, resolve_speed-Excludes-halftime,
  resolve_difficulty-Excludes, resolve_fail-Excludes-suddendeath, resolve_fail-Excludes_perfect,
  resolve_nofail-Excludes, resolve_perfect-Excludes, remove_foreign-osu, remove_foreign-mania,
  resolve_osu-Excludes, resolve_mania-relax, resolve_mania-Excludes,
}
use eunga_py.Mods.Filter.Keys.{key_count, resolve_keys_one}

-- The combinations that the comments of the method name, as tests on its result.
pub record IsCompatible (mode_vn : ℕ) (m : Mods) : Type 0 where
  pub speed : (has m doubletime && has m nightcore) ≡ false
  pub difficulty : (has m easy && has m hardrock) ≡ false
  pub fail_suddendeath : (has m (nofail ∣∣ relax ∣∣ autopilot) && has m suddendeath) ≡ false
  pub fail_perfect : (has m (nofail ∣∣ relax ∣∣ autopilot) && has m perfect) ≡ false
  pub no_fail : (has m (relax ∣∣ autopilot) && has m nofail) ≡ false
  pub sudden_perfect : (has m perfect && has m suddendeath) ≡ false
  pub osu_only : (not (mode_vn == 0) && has m osu_specific_mods) ≡ false
  pub mania_only : (not (mode_vn == 3) && has m mania_specific_mods) ≡ false
  pub osu_autopilot : (mode_vn == 0 && (has m autopilot && has m (spunout ∣∣ relax))) ≡ false
  pub mania_relax : (mode_vn == 3 && has m relax) ≡ false
  pub mania_fadein : (mode_vn == 3 && (has m hidden && has m fadein)) ≡ false
  pub one_key : key_count m ≤ 1

-- What the blocks from the one named on leave.
module _ (mode_vn : ℕ) where
  abbrev from_mania : Mods → Mods
  from_mania m = resolve_keys (resolve_mania mode_vn m)

  abbrev from_foreign : Mods → Mods
  from_foreign m = from_mania (resolve_osu mode_vn (remove_foreign mode_vn m))

  abbrev from_fail : Mods → Mods
  from_fail m = from_foreign (resolve_perfect (resolve_nofail (resolve_fail m)))

  mania_on : (m : Mods) → IsSubset (from_mania m) m
  mania_on m =
      IsSubset-trans (resolve_keys-IsSubset (resolve_mania mode_vn m))
        (resolve_mania-IsSubset mode_vn m)

  foreign_on : (m : Mods) → IsSubset (from_foreign m) (remove_foreign mode_vn m)
  foreign_on m = IsSubset-trans (mania_on _) (resolve_osu-IsSubset mode_vn _)

  perfect_on : (m : Mods) → IsSubset (from_foreign m) m
  perfect_on m = IsSubset-trans (foreign_on m) (remove_foreign-IsSubset mode_vn m)

  nofail_on : (m : Mods) → IsSubset (from_foreign (resolve_perfect m)) m
  nofail_on m = IsSubset-trans (perfect_on _) (resolve_perfect-IsSubset m)

  fail_on : (m : Mods) → IsSubset (from_fail m) (resolve_fail m)
  fail_on m = IsSubset-trans (nofail_on _) (resolve_nofail-IsSubset _)

  difficulty_on : (m : Mods) → IsSubset (from_fail m) m
  difficulty_on m = IsSubset-trans (fail_on m) (resolve_fail-IsSubset m)

  speed_on : (m : Mods) → IsSubset (from_fail (resolve_difficulty m)) m
  speed_on m = IsSubset-trans (difficulty_on _) (resolve_difficulty-IsSubset m)

ruled_out :
    {a b m r : Mods}
    → a < 2 ^ 31
    → b < 2 ^ 31
    → Excludes a b m
    → IsSubset r m
    → (has r a && has r b) ≡ false
ruled_out fa fb x s = together (Excludes-IsSubset fa fb x s)

-- The method only removes mods.
pub filter-IsSubset : (m : Mods) (mode_vn : ℕ) → IsSubset (filter_invalid_combos m mode_vn) m
unfolding filter_invalid_combos
filter-IsSubset m mode_vn = IsSubset-trans (speed_on mode_vn _) (resolve_speed-IsSubset m)

-- What a test on the mode guards holds where the mode is the one tested.
guarded : (mode_vn k : ℕ) {b : Bool} → (mode_vn ≡ k → b ≡ false) → (mode_vn == k && b) ≡ false
guarded mode_vn k f = elim (Bool-cases (mode_vn == k)) [
  | inl e ↦ rw (e, f ((==_iff mode_vn k).0 e))
  | inr e ↦ rw e
]

guarded_not :
    (mode_vn k : ℕ) {b : Bool} → (mode_vn ≢ k → b ≡ false) → (not (mode_vn == k) && b) ≡ false
guarded_not mode_vn k f = elim (Bool-cases (mode_vn == k)) [
  | inl e ↦ rw e
  | inr e ↦ rw (e, f (λ p. ground arith))
]

pub filter-IsCompatible :
    (m : Mods) (mode_vn : ℕ) → IsCompatible mode_vn (filter_invalid_combos m mode_vn)
unfolding filter_invalid_combos
filter-IsCompatible m mode_vn =
    let a : Mods = resolve_speed m in
    let b : Mods = resolve_difficulty a in
    let c : Mods = resolve_fail b in
    let d : Mods = resolve_nofail c in
    let e : Mods = resolve_perfect d in
    let f : Mods = remove_foreign mode_vn e in
    let g : Mods = resolve_osu mode_vn f in
    record {
      speed = ruled_out (omega arith) (omega arith) (resolve_speed-Excludes m) (speed_on mode_vn a);
      difficulty =
          ruled_out (omega arith) (omega arith) (resolve_difficulty-Excludes a)
            (difficulty_on mode_vn b);
      fail_suddendeath =
          ruled_out (omega arith) (omega arith) (resolve_fail-Excludes-suddendeath b)
            (fail_on mode_vn b);
      fail_perfect =
          ruled_out (omega arith) (omega arith) (resolve_fail-Excludes_perfect b)
            (fail_on mode_vn b);
      no_fail =
          ruled_out (omega arith) (omega arith) (resolve_nofail-Excludes c) (nofail_on mode_vn d);
      sudden_perfect =
          ruled_out (omega arith) (omega arith) (resolve_perfect-Excludes d) (perfect_on mode_vn e);
      osu_only = guarded_not mode_vn 0 λ h.
          off-IsSubset osu_specific_mods (omega arith) (foreign_on mode_vn e)
            (remove_foreign-osu mode_vn e h);
      mania_only = guarded_not mode_vn 3 λ h.
          off-IsSubset mania_specific_mods (omega arith) (foreign_on mode_vn e)
            (remove_foreign-mania mode_vn e h);
      osu_autopilot = guarded mode_vn 0 λ h.
          ruled_out (omega arith) (omega arith) (resolve_osu-Excludes mode_vn f h)
            (mania_on mode_vn g);
      mania_relax = guarded mode_vn 3 λ h.
          off-IsSubset relax (omega arith) (resolve_keys-IsSubset (resolve_mania mode_vn g))
            (resolve_mania-relax mode_vn g h);
      mania_fadein = guarded mode_vn 3 λ h.
          ruled_out (omega arith) (omega arith) (resolve_mania-Excludes mode_vn g h)
            (resolve_keys-IsSubset _);
      one_key = resolve_keys_one (resolve_mania mode_vn g);
    }

-- Unless DT and NC were both on, HT is not left beside either.
pub filter_halftime :
    (m : Mods) (mode_vn : ℕ)
    → (has m doubletime && has m nightcore) ≡ false
    → (has (filter_invalid_combos m mode_vn) (doubletime ∣∣ nightcore)
        && has (filter_invalid_combos m mode_vn) halftime)
      ≡ false
unfolding filter_invalid_combos
filter_halftime m mode_vn h =
    ruled_out (omega arith) (omega arith) (resolve_speed-Excludes-halftime m (apart h))
      (speed_on mode_vn (resolve_speed m))
