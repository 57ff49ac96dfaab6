-- ===== src/Mods/Filter/Steps.antt =====
-- Lemmas on the blocks of `filter_invalid_combos`, one after the other.
use Prim.Native.Nat.{bit_and}
use eunga_py.Prelude.{
  ℕ, ◌^◌, ◌<◌, ◌≡◌, ◌≢◌, refl, sym, ◌∙◌, Bool, true, false, not, ◌&&◌, inl, inr, ◌==◌, ==_iff,
  Bool-cases, arith, if◌then◌else◌,
}
use eunga_py.Bits.{clear, has, IsSubset, clear-IsSubset, IsSubset-refl, IsSubset-trans, IsSubset-if}
use eunga_py.Bits.Masks.{covered, has-clear, has-flag, has-IsSubset, bit_and-mask_value}
use eunga_py.Mods.{
  Mods, nofail, easy, hidden, hardrock, suddendeath, doubletime, relax, halftime, nightcore,
  spunout, autopilot, perfect, fadein, osu_specific_mods, mania_specific_mods, ◌∣∣◌,
}
use eunga_py.Mods.Filter.{
  resolve_speed, resolve_difficulty, drop_mod, resolve_fail, resolve_nofail, resolve_perfect,
  remove_foreign, resolve_osu, resolve_mania, resolve_keys,
}

-- No two of the mods named by the masks are on together.
pub record Excludes (a b m : Mods) : Type 0 where
  pub at : has m a ≡ true → has m b ≡ true → ⊥

pub Excludes-IsSubset :
    {a b m r : Mods} → a < 2 ^ 31 → b < 2 ^ 31 → Excludes a b m → IsSubset r m → Excludes a b r
Excludes-IsSubset {a} {b} fa fb x s = record {
  at = λ p q. x.at (has-IsSubset a fa s p) (has-IsSubset b fb s q);
}

-- Each block only removes mods.
pub resolve_speed-IsSubset : (m : Mods) → IsSubset (resolve_speed m) m
unfolding resolve_speed
resolve_speed-IsSubset m = search (IsSubset-if, IsSubset-refl, clear-IsSubset)

pub resolve_difficulty-IsSubset : (m : Mods) → IsSubset (resolve_difficulty m) m
unfolding resolve_difficulty
resolve_difficulty-IsSubset m = search (IsSubset-if, IsSubset-refl, clear-IsSubset)

drop_mod-IsSubset : (m a : Mods) → IsSubset (drop_mod m a) m
unfolding drop_mod
drop_mod-IsSubset m a = search (IsSubset-if, IsSubset-refl, clear-IsSubset)

pub resolve_fail-IsSubset : (m : Mods) → IsSubset (resolve_fail m) m
unfolding resolve_fail
resolve_fail-IsSubset m =
    IsSubset-if _ (IsSubset-trans (drop_mod-IsSubset _ _) (drop_mod-IsSubset _ _)) (IsSubset-refl m)

pub resolve_nofail-IsSubset : (m : Mods) → IsSubset (resolve_nofail m) m
unfolding resolve_nofail
resolve_nofail-IsSubset m = search (IsSubset-if, IsSubset-refl, drop_mod-IsSubset)

pub resolve_perfect-IsSubset : (m : Mods) → IsSubset (resolve_perfect m) m
unfolding resolve_perfect
resolve_perfect-IsSubset m = search (IsSubset-if, IsSubset-refl, clear-IsSubset)

pub remove_foreign-IsSubset : (mode_vn : ℕ) (m : Mods) → IsSubset (remove_foreign mode_vn m) m
unfolding remove_foreign
remove_foreign-IsSubset mode_vn m =
    let own : IsSubset (if mode_vn == 0 then m else clear m osu_specific_mods) m =
      IsSubset-if _ (IsSubset-refl m) (clear-IsSubset m _) in
    IsSubset-if _ own (IsSubset-trans (clear-IsSubset _ _) own)

pub resolve_osu-IsSubset : (mode_vn : ℕ) (m : Mods) → IsSubset (resolve_osu mode_vn m) m
unfolding resolve_osu
resolve_osu-IsSubset mode_vn m = search (IsSubset-if, IsSubset-refl, clear-IsSubset)

pub resolve_mania-IsSubset : (mode_vn : ℕ) (m : Mods) → IsSubset (resolve_mania mode_vn m) m
unfolding resolve_mania
resolve_mania-IsSubset mode_vn m =
    IsSubset-if _
      (IsSubset-if _ (IsSubset-trans (clear-IsSubset _ _) (clear-IsSubset m _))
        (clear-IsSubset m _))
      (IsSubset-refl m)

pub resolve_keys-IsSubset : (m : Mods) → IsSubset (resolve_keys m) m
unfolding resolve_keys
resolve_keys-IsSubset m = search (IsSubset-if, IsSubset-refl, clear-IsSubset)

pub Excludes-if :
    (c : Bool) {a b x y : Mods}
    → (c ≡ true → Excludes a b x)
    → (c ≡ false → Excludes a b y)
    → Excludes a b (if c then x else y)
Excludes-if true f g = f refl
Excludes-if false f g = g refl

-- What is not on excludes everything.
pub absent-left : {a b m : Mods} → has m a ≡ false → Excludes a b m
absent-left h = record { at = λ p q. cc }

pub absent-right : {a b m : Mods} → has m b ≡ false → Excludes a b m
absent-right h = record { at = λ p q. cc }

pub apart : {a b m : Mods} → (has m a && has m b) ≡ false → Excludes a b m
apart h = record { at = λ p q. ground arith }

pub together : {a b m : Mods} → Excludes a b m → (has m a && has m b) ≡ false
together {a} {b} {m} x = elim (Bool-cases (has m a)) [
  | inl p ↦ elim (Bool-cases (has m b)) [ inl q ↦ absurd (x.at p q) | inr q ↦ rw (p, q) ]
  | inr p ↦ rw p
]

pub both_set : (m : Mods) → has m doubletime ≡ true → has m nightcore ≡ true → bit_and m 576 ≡ 576
both_set m p q =
    rw (bit_and-mask_value 10 m 576 (omega arith))
      (rw (sym (has-flag m 6) ∙ p, sym (has-flag m 9) ∙ q) refl)

-- A mod that has been cleared is off, whatever was on before.
abbrev cleared : (m b k : Mods) → k < 2 ^ 31 → covered 31 k b ≡ true → has (clear m b) k ≡ false
cleared = has-clear 31

pub off-IsSubset :
    {a b : Mods} (k : Mods) → k < 2 ^ 31 → IsSubset a b → has b k ≡ false → has a k ≡ false
off-IsSubset {a} k fits s h = elim (Bool-cases (has a k)) [
  | inl on ↦ absurd (cc (has-IsSubset k fits s on))
  | inr off ↦ off
]

has-drop_mod : (m a : Mods) → a < 2 ^ 31 → covered 31 a a ≡ true → has (drop_mod m a) a ≡ false
unfolding drop_mod
has-drop_mod m a fits c = ground (arith, cleared m a a fits c)

pub resolve_speed-Excludes : (m : Mods) → Excludes doubletime nightcore (resolve_speed m)
unfolding resolve_speed
resolve_speed-Excludes m =
    Excludes-if (bit_and m 576 == 576)
      (λ _. absent-left (cleared m doubletime doubletime (omega arith) refl))
      λ e.
        Excludes-IsSubset (omega arith) (omega arith)
          (record { at = λ p q. ground (arith, both_set m p q) })
          (IsSubset-if (not (bit_and m 576 == 0) && has m halftime) (clear-IsSubset m _)
            (IsSubset-refl m))

-- Half time goes beside either of the two faster mods, unless both of those were on.
pub set_both :
    (m : Mods) → bit_and m 576 ≡ 576 → (has m doubletime ≡ true) × (has m nightcore ≡ true)
set_both m h = ground (arith, bit_and-mask_value 10 m 576 (omega arith), has-flag m 6, has-flag m 9)

pub resolve_speed-Excludes-halftime :
    (m : Mods)
    → Excludes doubletime nightcore m
    → Excludes (doubletime ∣∣ nightcore) halftime (resolve_speed m)
unfolding resolve_speed
resolve_speed-Excludes-halftime m x =
    Excludes-if (bit_and m 576 == 576)
      (λ e. let both = set_both m ((==_iff (bit_and m 576) 576).0 e) in absurd (x.at both.0 both.1))
      λ e.
        Excludes-if (not (bit_and m 576 == 0) && has m halftime)
          (λ _. absent-right (cleared m halftime halftime (omega arith) refl))
          λ f. apart (unfold has in f)

pub resolve_difficulty-Excludes : (m : Mods) → Excludes easy hardrock (resolve_difficulty m)
unfolding resolve_difficulty
resolve_difficulty-Excludes m =
    Excludes-if (has m easy && has m hardrock)
      (λ _. absent-right (cleared m hardrock hardrock (omega arith) refl)) λ e. apart e

pub resolve_fail-Excludes-suddendeath :
    (m : Mods) → Excludes (nofail ∣∣ relax ∣∣ autopilot) suddendeath (resolve_fail m)
unfolding resolve_fail
resolve_fail-Excludes-suddendeath m =
    Excludes-if _
      (λ _. absent-right (
        off-IsSubset suddendeath (omega arith) (drop_mod-IsSubset _ perfect)
          (has-drop_mod m suddendeath (omega arith) refl)))
      λ e. absent-left e

pub resolve_fail-Excludes_perfect :
    (m : Mods) → Excludes (nofail ∣∣ relax ∣∣ autopilot) perfect (resolve_fail m)
unfolding resolve_fail
resolve_fail-Excludes_perfect m =
    Excludes-if _ (λ _. absent-right (has-drop_mod _ perfect (omega arith) refl)) λ e. absent-left e

pub resolve_nofail-Excludes : (m : Mods) → Excludes (relax ∣∣ autopilot) nofail (resolve_nofail m)
unfolding resolve_nofail
resolve_nofail-Excludes m =
    Excludes-if _ (λ _. absent-right (has-drop_mod m nofail (omega arith) refl)) λ e. absent-left e

pub resolve_perfect-Excludes : (m : Mods) → Excludes perfect suddendeath (resolve_perfect m)
unfolding resolve_perfect
resolve_perfect-Excludes m =
    Excludes-if (has m perfect && has m suddendeath)
      (λ _. absent-right (cleared m suddendeath suddendeath (omega arith) refl)) λ e. apart e

pub remove_foreign-osu :
    (mode_vn : ℕ) (m : Mods)
    → mode_vn ≢ 0
    → has (remove_foreign mode_vn m) osu_specific_mods ≡ false
unfolding remove_foreign
remove_foreign-osu mode_vn m h = ground (
  arith,
  cleared m osu_specific_mods osu_specific_mods (omega arith) refl,
  off-IsSubset osu_specific_mods (omega arith)
      (clear-IsSubset (clear m osu_specific_mods) mania_specific_mods),
)

pub remove_foreign-mania :
    (mode_vn : ℕ) (m : Mods)
    → mode_vn ≢ 3
    → has (remove_foreign mode_vn m) mania_specific_mods ≡ false
unfolding remove_foreign
remove_foreign-mania mode_vn m h = ground (
  arith,
  cleared m mania_specific_mods mania_specific_mods (omega arith) refl,
  cleared (clear m osu_specific_mods) mania_specific_mods mania_specific_mods (omega arith) refl,
)

resolve_osu_own-Excludes : (m : Mods) → Excludes autopilot (spunout ∣∣ relax) (resolve_osu 0 m)
unfolding resolve_osu
resolve_osu_own-Excludes m =
    Excludes-if (has m autopilot)
      (λ _.
        Excludes-if (has m (spunout ∣∣ relax))
          (λ _. absent-left (cleared m autopilot autopilot (omega arith) refl)) λ e. absent-right e)
      λ e. absent-left e

resolve_mania_own-relax : (m : Mods) → has (resolve_mania 3 m) relax ≡ false
unfolding resolve_mania
resolve_mania_own-relax m =
    off-IsSubset relax (omega arith)
      (IsSubset-if _ (clear-IsSubset (clear m relax) fadein) (IsSubset-refl _))
      (cleared m relax relax (omega arith) refl)

resolve_mania_own-Excludes : (m : Mods) → Excludes hidden fadein (resolve_mania 3 m)
unfolding resolve_mania
resolve_mania_own-Excludes m =
    Excludes-if (has (clear m relax) hidden && has (clear m relax) fadein)
      (λ _. absent-right (cleared (clear m relax) fadein fadein (omega arith) refl)) λ e. apart e

pub resolve_osu-Excludes :
    (mode_vn : ℕ) (m : Mods)
    → mode_vn ≡ 0
    → Excludes autopilot (spunout ∣∣ relax) (resolve_osu mode_vn m)
resolve_osu-Excludes mode_vn m h = rw h (resolve_osu_own-Excludes m)

pub resolve_mania-relax :
    (mode_vn : ℕ) (m : Mods) → mode_vn ≡ 3 → has (resolve_mania mode_vn m) relax ≡ false
resolve_mania-relax mode_vn m h = rw h (resolve_mania_own-relax m)

pub resolve_mania-Excludes :
    (mode_vn : ℕ) (m : Mods) → mode_vn ≡ 3 → Excludes hidden fadein (resolve_mania mode_vn m)
resolve_mania-Excludes mode_vn m h = rw h (resolve_mania_own-Excludes m)
