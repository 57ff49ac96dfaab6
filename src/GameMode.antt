-- ===== src/GameMode.antt =====
-- app/constants/gamemodes.py.
use eunga_py.Prelude.{
  ℕ, zero, suc, ◌+◌, ◌/◌, ◌%◌, ◌<◌, ◌≡◌, refl, Option, none, some, ◌==◌, arith, if◌then◌else◌,
}
use eunga_py.Bits.{has}
use eunga_py.Mods.{Mods, autopilot, relax}

pub data GameMode : Type 0 where
  vanilla_osu vanilla_taiko vanilla_catch vanilla_mania : GameMode
  relax_osu relax_taiko relax_catch relax_mania : GameMode
  autopilot_osu autopilot_taiko autopilot_catch autopilot_mania : GameMode

-- `mode.value`
unfoldable pub value : GameMode → ℕ
value vanilla_osu = 0
value vanilla_taiko = 1
value vanilla_catch = 2
value vanilla_mania = 3
value relax_osu = 4
value relax_taiko = 5
value relax_catch = 6
value relax_mania = 7
value autopilot_osu = 8
value autopilot_taiko = 9
value autopilot_catch = 10
value autopilot_mania = 11

-- `GameMode(n)`, which raises ValueError for any other number
unfoldable pub of_value : ℕ → Option GameMode
of_value n =
    if n == 0
    then some vanilla_osu
    else if n == 1
    then some vanilla_taiko
    else if n == 2
    then some vanilla_catch
    else if n == 3
    then some vanilla_mania
    else if n == 4
    then some relax_osu
    else if n == 5
    then some relax_taiko
    else if n == 6
    then some relax_catch
    else if n == 7
    then some relax_mania
    else if n == 8
    then some autopilot_osu
    else if n == 9
    then some autopilot_taiko
    else if n == 10
    then some autopilot_catch
    else if n == 11
    then some autopilot_mania
    else none

unfoldable pub from_params : ℕ → Mods → Option GameMode
unfolding of_value
from_params mode_vn mods =
    of_value
      (if has mods autopilot then mode_vn + 8 else if has mods relax then mode_vn + 4 else mode_vn)

unfoldable pub as_vanilla : GameMode → ℕ
unfolding value
as_vanilla mode = value mode % 4

pub of_value-value : (mode : GameMode) → of_value (value mode) ≡ some mode
unfolding of_value value
of_value-value vanilla_osu = refl
of_value-value _ = refl

of_value_lem : (n : ℕ) → n < 12 → (mode : GameMode) × (of_value n ≡ some mode) × (value mode ≡ n)
unfolding of_value value
of_value_lem zero h = (vanilla_osu, refl, refl)
of_value_lem (suc zero) h = (vanilla_taiko, refl, refl)
of_value_lem (suc (suc zero)) h = (vanilla_catch, refl, refl)
of_value_lem (suc (suc (suc zero))) h = (vanilla_mania, refl, refl)
of_value_lem (suc (suc (suc (suc zero)))) h = (relax_osu, refl, refl)
of_value_lem (suc (suc (suc (suc (suc zero))))) h = (relax_taiko, refl, refl)
of_value_lem (suc (suc (suc (suc (suc (suc zero)))))) h = (relax_catch, refl, refl)
of_value_lem (suc (suc (suc (suc (suc (suc (suc zero))))))) h = (relax_mania, refl, refl)
of_value_lem (suc (suc (suc (suc (suc (suc (suc (suc zero)))))))) h = (autopilot_osu, refl, refl)
of_value_lem (suc (suc (suc (suc (suc (suc (suc (suc (suc zero))))))))) h =
    (autopilot_taiko, refl, refl)
of_value_lem (suc (suc (suc (suc (suc (suc (suc (suc (suc (suc zero)))))))))) h =
    (autopilot_catch, refl, refl)
of_value_lem (suc (suc (suc (suc (suc (suc (suc (suc (suc (suc (suc zero))))))))))) h =
    (autopilot_mania, refl, refl)
of_value_lem (suc (suc (suc (suc (suc (suc (suc (suc (suc (suc (suc (suc n)))))))))))) h =
    absurd (omega arith)

-- Whatever the mods, a vanilla mode and the mods of a score give a game mode, whose vanilla mode is
-- that one; it is an autopilot mode if AP is on, else a relax mode if RX is on.
pub from_params-as_vanilla :
    (mode_vn : ℕ) (mods : Mods)
    → mode_vn < 4
    → (mode : GameMode) × (from_params mode_vn mods ≡ some mode)
      × (as_vanilla mode ≡ mode_vn)
      × (value mode / 4 ≡ (if has mods autopilot then 2 else if has mods relax then 1 else 0))
unfolding from_params as_vanilla
from_params-as_vanilla mode_vn mods h =
    let n : ℕ =
      if has mods autopilot then mode_vn + 8 else if has mods relax then mode_vn + 4 else mode_vn in
    let small : n < 12 = ground arith in
    let (mode, found, number) = of_value_lem n small in
    (mode, found, ground (arith, number), ground (arith, number))
