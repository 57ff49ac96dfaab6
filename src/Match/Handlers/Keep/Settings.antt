-- ===== src/Match/Handlers/Keep/Settings.antt =====
-- `change_settings`, step by step, against the invariant of the slots.
use eunga_py.Prelude.{ℕ, refl, Bool, true, not, Option, none, some}
use eunga_py.Prelude.Int.{ℤ, pos, negsuc, eq_ℤ}
use eunga_py.Packets.Structs.{MultiplayerMatch}
use eunga_py.Match.Types.{Slot, ready}
use eunga_py.Match.Seats.Sound.{IsTame, IsTameTo}
use eunga_py.Match.Room.{Sessions, Beatmap}
use eunga_py.Match.Room.Triple.{
  Keeps, Triple-bind, Triple-if, IsCalm-or_raise, IsCalm-gets, IsCalm-host, IsCalm-send_bot,
  Keeps-calm, Keeps-map_slots, Keeps-modify,
}
use eunga_py.Match.Settings.{
  occupied, change_freemods, announce_map, take_map, change_map, change_team_type,
  change_win_condition, change_settings, default_team, same_freemods, validate_match_data,
}
use eunga_py.Match.Handlers.Keep.Tame.{
  IsTame-unready, IsTame-occupied, ready_occupied, to_freemods-IsSound, from_freemods-IsSound,
}
use eunga_py.Match.Handlers.Keep.Actions.{finish, stop, as_host}

module _ (app : Sessions) where
  pub IsTame-team :
      (f : Slot → Slot) → ((s : Slot) → IsTameTo (f s) s) → (s : Slot) → IsTame (occupied f) s
  IsTame-team f h s = IsTame-occupied f s (h s)

  pub change_freemods-Keeps : (b : Bool) → Keeps (change_freemods app b)
  unfolding change_freemods
  change_freemods-Keeps b = Triple-bind _ _ (Keeps-calm _ (IsCalm-gets _)) (λ current.
      Triple-if (same_freemods b current) _ _ (λ e. (stop app))
        (λ e. Triple-bind _ _ (Keeps-modify _ (λ m. refl)) (λ u.
          Triple-if b _ _ (λ e'. record { at = λ r h. to_freemods-IsSound r.state h })
            (λ e'. Triple-bind _ _ (Keeps-calm _ (IsCalm-host app)) (λ h.
              Triple-bind _ _ (Keeps-calm _ (IsCalm-gets _)) (λ l.
                Triple-bind _ _ (Keeps-calm _ (IsCalm-or_raise _))
                  (λ s. record { at = λ r h. from_freemods-IsSound s r.state h })))))))

  pub announce_map-Keeps : (d : MultiplayerMatch) → Keeps (announce_map app d)
  unfolding announce_map
  announce_map-Keeps d = Triple-bind _ _ (Keeps-calm _ (IsCalm-gets _)) (λ prev.
      Triple-if (eq_ℤ prev d.map_id) _ _ (λ e. (stop app))
        (λ e. Keeps-calm _ (IsCalm-send_bot app _)))

  pub take_map-Keeps : (d : MultiplayerMatch) (o : Option Beatmap) → Keeps (take_map app d o)
  unfolding take_map
  take_map-Keeps d (some bmap) = Triple-bind _ _ (Keeps-modify _ (λ m. refl)) (λ u.
      Triple-bind _ _ (Keeps-calm _ (IsCalm-host app)) (λ h.
        Triple-bind _ _ (Keeps-calm _ (IsCalm-or_raise _)) (λ mode. Keeps-modify _ (λ m. refl))))
  take_map-Keeps d none =
      Triple-bind _ _ (Keeps-modify _ (λ m. refl)) (λ u.
        Triple-bind _ _ (Keeps-calm _ (IsCalm-or_raise _)) (λ mode. Keeps-modify _ (λ m. refl)))

  pub change_map-Keeps : (d : MultiplayerMatch) → Keeps (change_map app d)
  unfolding change_map
  change_map-Keeps d = Triple-bind _ _ (Keeps-calm _ (IsCalm-gets _)) (λ current.
      Triple-if (eq_ℤ d.map_id (negsuc 0)) _ _
        (λ e.
          Triple-bind _ _ (Keeps-map_slots _ (IsTame-unready ready ready_occupied))
            (λ u. Keeps-modify _ (λ m. refl)))
        (λ e.
          Triple-if (eq_ℤ current (negsuc 0)) _ _
            (λ e'. Triple-bind _ _ (announce_map-Keeps d) (λ u. take_map-Keeps d _))
            (λ e'. (stop app))))

  pub change_team_type-Keeps : (t : ℤ) → Keeps (change_team_type app t)
  unfolding change_team_type
  change_team_type-Keeps t = Triple-bind _ _ (Keeps-calm _ (IsCalm-gets _)) (λ current.
      Triple-if (eq_ℤ (pos current) t) _ _ (λ e. (stop app))
        (λ e. Triple-bind _ _ (Keeps-calm _ (IsCalm-gets _)) (λ scrim.
          Triple-if scrim _ _
            (λ e'.
              Triple-bind _ _ (Keeps-calm _ (IsCalm-or_raise _))
                (λ name. Keeps-calm _ (IsCalm-send_bot app _)))
            (λ e'.
              Triple-bind _ _
                (Keeps-map_slots _ (
                  IsTame-team (λ s. record s { team = default_team t })
                    (λ s. record { same = λ q k. k; still = λ g. g })))
                (λ u.
                  Triple-bind _ _ (Keeps-calm _ (IsCalm-or_raise _))
                    (λ new. Keeps-modify _ (λ m. refl)))))))

  pub change_win_condition-Keeps : (c : ℤ) → Keeps (change_win_condition app c)
  unfolding change_win_condition
  change_win_condition-Keeps c = Triple-bind _ _ (Keeps-calm _ (IsCalm-gets _)) (λ current.
      Triple-if (eq_ℤ (pos current) c) _ _ (λ e. (stop app))
        (λ e. Triple-bind _ _ (Keeps-modify _ (λ m. refl)) (λ u.
          Triple-bind _ _ (Keeps-calm _ (IsCalm-or_raise _)) (λ new. Keeps-modify _ (λ m. refl)))))

  pub change_settings-Keeps : (p : ℕ) (d : MultiplayerMatch) → Keeps (change_settings app p d)
  unfolding change_settings
  change_settings-Keeps p d =
      Triple-if (not (validate_match_data d p)) _ _ (λ e. (stop app))
        (λ e. (as_host app) p _ (
          Triple-bind _ _ (change_freemods-Keeps d.freemods) (λ a.
            Triple-bind _ _ (change_map-Keeps d) (λ b.
              Triple-bind _ _ (change_team_type-Keeps d.team_type) (λ c.
                Triple-bind _ _ (change_win_condition-Keeps d.win_condition)
                  (λ d. Triple-bind _ _ (Keeps-modify _ (λ m. refl)) (λ f. (finish app) true)))))))
