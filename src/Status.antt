-- ===== src/Status.antt =====
-- The mods and the mode that `ChangeAction` of app/api/domains/cho.py takes from its packet.
use Prim.Native.Nat.{bit_and}
use eunga_py.Prelude.{ℕ, ◌+◌, ◌≡◌, ◌∙◌, false, ◌&&◌, ◌||◌, ◌==◌, arith, if◌then◌else◌}
use eunga_py.Bits.{has, bit, bit-bit_and}
use eunga_py.Bits.Masks.{has-flag}
use eunga_py.Mods.{inverted, Mods, relax, autopilot}
use eunga_py.GameMode.{of_value, from_params}

-- `ChangeAction.__init__`: the mods and the mode
unfoldable pub status_mods : Mods → ℕ → Mods
status_mods mods mode =
    if has mods relax
    then if mode == 3 then bit_and mods (inverted relax) else mods
    else if has mods autopilot
    then if mode == 1 || mode == 2 || mode == 3 then bit_and mods (inverted autopilot) else mods
    else mods

unfoldable pub status_mode : Mods → ℕ → ℕ
status_mode mods mode =
    if has mods relax
    then if mode == 3 then mode else mode + 4
    else if has mods autopilot
    then if mode == 1 || mode == 2 || mode == 3 then mode else mode + 8
    else mode

relax_off : (m : Mods) → has (bit_and m (inverted relax)) relax ≡ false
unfolding bit inverted
relax_off m =
    has-flag (bit_and m (inverted relax)) 7 ∙ bit-bit_and m (inverted relax) 7 ∙ ground arith

autopilot_off : (m : Mods) → has (bit_and m (inverted autopilot)) autopilot ≡ false
unfolding bit inverted
autopilot_off m =
    has-flag (bit_and m (inverted autopilot)) 13
    ∙ bit-bit_and m (inverted autopilot) 13
    ∙ ground arith

autopilot_kept : (m : Mods) → has (bit_and m (inverted relax)) autopilot ≡ has m autopilot
unfolding bit inverted
autopilot_kept m =
    has-flag (bit_and m (inverted relax)) 13
    ∙ bit-bit_and m (inverted relax) 13
    ∙ ground (arith, has-flag m 13)

relax_kept : (m : Mods) → has (bit_and m (inverted autopilot)) relax ≡ has m relax
unfolding bit inverted
relax_kept m =
    has-flag (bit_and m (inverted autopilot)) 7
    ∙ bit-bit_and m (inverted autopilot) 7
    ∙ ground (arith, has-flag m 7)

-- Unless RX and AP are both on, the number of the mode that `ChangeAction` takes is the one that
-- `GameMode.from_params` makes of the mods that it keeps.
pub status_mode-from_params :
    (mods : Mods) (mode : ℕ)
    → (has mods relax && has mods autopilot) ≡ false
    → of_value (status_mode mods mode) ≡ from_params mode (status_mods mods mode)
unfolding from_params status_mods status_mode
status_mode-from_params mods mode e =
    ground (arith, relax_off mods, autopilot_off mods, autopilot_kept mods, relax_kept mods)
