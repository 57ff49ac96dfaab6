-- ===== src/Examples/Status.antt =====
-- The theorem on `ChangeAction` at a concrete input.
use eunga_py.Prelude.{◌≡◌, refl, ◌&&◌, false}
use eunga_py.Bits.{has}
use eunga_py.Mods.{relax, autopilot, hidden, ◌∣∣◌}
use eunga_py.GameMode.{of_value, from_params}
use eunga_py.Status.{status_mods, status_mode, status_mode-from_params}

not_both : (has (relax ∣∣ hidden) relax && has (relax ∣∣ hidden) autopilot) ≡ false
unfolding has
not_both = refl

-- RX and HD in mania
status_mode-from_params_example :
    of_value (status_mode (relax ∣∣ hidden) 3) ≡ from_params 3 (status_mods (relax ∣∣ hidden) 3)
status_mode-from_params_example = status_mode-from_params (relax ∣∣ hidden) 3 not_both
