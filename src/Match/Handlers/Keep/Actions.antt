-- ===== src/Match/Handlers/Keep/Actions.antt =====
-- The handlers of Match/Handlers, one by one, against the invariant of the slots.
use eunga_py.Prelude.{
  ℕ, ◌≡◌, refl, sym, ap, ◌∙◌, Bool, true, false, not, ◌&&◌, Option, none, some, List, [], get_elem?,
  any, if◌then◌else◌, ◌==◌,
}
use eunga_py.Prelude.Int.{ℤ}
use eunga_py.Bits.{has}
use eunga_py.Packets.Integers.{Bytes}
use eunga_py.Match.Types.{
  Slot, SlotStatus, open_slot, locked, playing, complete, status_value, is_status,
}
use eunga_py.Match.Seats.{adjust, copy_from, reset, holds, is_playing}
use eunga_py.Match.Seats.Sound.{IsSound, adjust-IsSound}
use eunga_py.Match.Seats.Moved.{moved-IsSound}
use eunga_py.Match.Room.{
  Exec, pure, or_raise, ◌>>=◌, update_slot, Sessions, enqueue, host, enqueue_state,
}
use eunga_py.Match.Room.Triple.{
  Triple, Sound, Keeps, Triple-bind, Triple-if, Triple-weaken, IsCalm-or_raise, IsCalm-gets,
  IsCalm-enqueue, IsCalm-host, IsCalm-enqueue_state, IsCalm-send, IsCalm-pure, IsCalm-bind,
  Triple-calm, Keeps-calm, Triple-or_raise, Triple-gets, Triple-seat, Keeps-update, Keeps-map_slots,
  Keeps-modify, Keeps-start,
}
use eunga_py.Match.Handlers.{
  set_status, slot_index, change_slot, change_status, lock, match_start, score_update,
  match_complete, change_mods, load_complete, failed, skip_request, transfer_host, change_team,
  transfer_to, transfer_at, lock_at, change_to,
}
use eunga_py.Match.Handlers.Keep.Tame.{
  IsTame-vacant, IsTame-status, IsTame-unready, IsTame-reset_loaded, IsTame-start,
  complete_occupied, vacant_open, vacant_locked,
}

module _ (app : Sessions) where
  pub finish : (lobby : Bool) → Keeps (enqueue_state app lobby)
  finish lobby = Keeps-calm _ (IsCalm-enqueue_state app lobby)

  pub stop : Keeps (pure tt)
  stop = Keeps-calm _ (IsCalm-pure tt)

  -- a handler for the host alone
  pub as_host :
      (p : ℕ) (m : Exec Unit)
      → Keeps m
      → Keeps (host app >>= λ h. if not (p == h) then pure tt else m)
  as_host p m k =
      Triple-bind _ _ (Keeps-calm _ (IsCalm-host app))
        (λ h. Triple-if (not (p == h)) _ _ (λ e. stop) (λ e. k))

  -- a packet to the players of the match
  pub broadcast :
      (b : Option Bytes) (lobby : Bool) (immune : List ℕ)
      → Keeps (or_raise b >>= λ b. enqueue b lobby immune)
  broadcast b lobby immune =
      Triple-bind _ _ (Keeps-calm _ (IsCalm-or_raise b))
        (λ b. Keeps-calm _ (IsCalm-enqueue b lobby immune))

  pub change_status-Keeps : (status : SlotStatus) (p : ℕ) → Keeps (change_status app status p)
  unfolding change_status
  change_status-Keeps status p = Keeps-update p _ _ (IsTame-status status p) (λ i. finish false)

  pub change_team-Keeps : (p : ℕ) → Keeps (change_team app p)
  unfolding change_team
  change_team-Keeps p =
      Keeps-update p _ _ (λ s e. record { same = λ q h. h; still = λ g. g }) (λ i. finish false)

  pub match_start-Keeps : (p : ℕ) → Keeps (match_start app p)
  unfolding match_start
  match_start-Keeps p = as_host p _ (Keeps-start app IsTame-start)

  pub score_update-Keeps : (p : ℕ) (b : Bytes) → Keeps (score_update app p b)
  unfolding score_update
  score_update-Keeps p b = Triple-bind _ _ (Triple-seat p) (λ i.
      Triple-weaken _ (λ s h. h.0)
        (Keeps-calm _ (
          IsCalm-bind _ _ (IsCalm-or_raise _)
            (λ size. IsCalm-bind _ _ (IsCalm-or_raise _) (λ buf. IsCalm-enqueue buf false [])))))

  pub failed-Keeps : (p : ℕ) → Keeps (failed app p)
  unfolding failed
  failed-Keeps p =
      Triple-bind _ _ (Triple-seat p) (λ i. Triple-weaken _ (λ s h. h.0) (broadcast _ false []))

  pub load_complete-Keeps : (p : ℕ) → Keeps (load_complete app p)
  unfolding load_complete
  load_complete-Keeps p =
      Keeps-update p _ _ (λ s e. record { same = λ q h. h; still = λ g. g })
        (λ i.
          Triple-bind _ _ (Keeps-calm _ (IsCalm-gets _))
            (λ l. Triple-if (any is_playing l) _ _ (λ e. stop) (λ e. broadcast _ false [])))

  pub skip_request-Keeps : (p : ℕ) → Keeps (skip_request app p)
  unfolding skip_request
  skip_request-Keeps p =
      Keeps-update p _ _ (λ s e. record { same = λ q h. h; still = λ g. g })
        (λ i. Triple-bind _ _ (Keeps-calm _ (IsCalm-or_raise _)) (λ b.
          Triple-bind _ _ (Keeps-calm _ (IsCalm-enqueue b true [])) (λ u.
            Triple-bind _ _ (Keeps-calm _ (IsCalm-gets _)) (λ l.
              Triple-if (any (λ s. is_status s.status playing && not s.skipped) l) _ _ (λ e. stop)
                (λ e. broadcast _ false [])))))

  pub match_complete-Keeps : (p : ℕ) → Keeps (match_complete app p)
  unfolding match_complete
  match_complete-Keeps p = Keeps-update p _ _ (IsTame-status complete p) (λ i.
      Triple-bind _ _ (Keeps-calm _ (IsCalm-gets _)) (λ l.
        Triple-if (any (λ s. is_status s.status playing) l) _ _ (λ e. stop)
          (λ e. Triple-bind _ _ (Keeps-calm _ (IsCalm-pure _)) (λ ids.
            Triple-bind _ _ (Keeps-map_slots _ (IsTame-unready complete complete_occupied)) (λ a.
              Triple-bind _ _ (Keeps-map_slots _ IsTame-reset_loaded) (λ b.
                Triple-bind _ _ (Keeps-modify _ (λ m. refl)) (λ c.
                  Triple-bind _ _ (Keeps-calm _ (IsCalm-or_raise _)) (λ b.
                    Triple-bind _ _ (Keeps-calm _ (IsCalm-enqueue b false ids)) (λ d.
                      Triple-bind _ _ (finish true) (λ f.
                        Triple-bind _ _ (Keeps-calm _ (IsCalm-gets _)) (λ scrim.
                          Triple-if scrim _ _ (λ e'. record { at = λ r h. h })
                            (λ e'. stop))))))))))))

  pub change_mods-Keeps : (p : ℕ) (mods : ℤ) → Keeps (change_mods app p mods)
  unfolding change_mods
  change_mods-Keeps p mods = Triple-bind _ _ (Keeps-calm _ (IsCalm-gets _)) (λ freemods.
      Triple-bind _ _ (Keeps-calm _ (IsCalm-host app)) (λ h.
        Triple-if freemods _ _
          (λ e.
            Triple-bind _ _ (Triple-if (p == h) _ _ (λ e'. Keeps-modify _ (λ m. refl)) (λ e'. stop))
              (λ u.
                Keeps-update p _ _ (λ s e'. record { same = λ q k. k; still = λ g. g })
                  (λ i. finish true)))
          (λ e.
            Triple-if (not (p == h)) _ _ (λ e'. stop)
              (λ e'. Triple-bind _ _ (Keeps-modify _ (λ m. refl)) (λ u. finish true)))))

  pub transfer_to-Keeps : (o : Option ℕ) → Keeps (transfer_to app o)
  transfer_to-Keeps none = stop
  transfer_to-Keeps (some target) = Triple-bind _ _ (Keeps-modify _ (λ m. refl)) (λ u.
      Triple-bind _ _ (Keeps-calm _ (IsCalm-host app)) (λ h.
        Triple-bind _ _ (Keeps-calm _ (IsCalm-or_raise _))
          (λ b. Triple-bind _ _ (Keeps-calm _ (IsCalm-send _)) (λ v. finish true))))

  transfer_at-Keeps : (o : Option ℕ) → Keeps (transfer_at app o)
  transfer_at-Keeps none = stop
  transfer_at-Keeps (some i) = Triple-bind _ _ (Keeps-calm _ (IsCalm-gets _)) (λ l.
      Triple-bind _ _ (Keeps-calm _ (IsCalm-or_raise _)) (λ slot. transfer_to-Keeps slot.player))

  pub transfer_host-Keeps : (p : ℕ) (slot_id : ℤ) → Keeps (transfer_host app p slot_id)
  unfolding transfer_host
  transfer_host-Keeps p slot_id = as_host p _ (transfer_at-Keeps (slot_index slot_id))

  -- a status for the slot that was read
  at_slot :
      (i : ℕ) (l : List Slot) (slot : Slot) (status : SlotStatus)
      → has (status_value status) 124 ≡ false
      → Triple
          (λ m. (Sound m × (l ≡ m.slots)) × (get_elem? l i ≡ some slot))
          (update_slot i (set_status status))
          (λ a. Sound)
  at_slot i l slot status v = record {
    at = λ r h.
        let (h0, e) = h in
        let (sound, same) = h0 in
        adjust-IsSound (set_status status) r.state.slots i slot
          (ap (λ l. get_elem? l i) (sym same) ∙ e) (IsTame-vacant status v slot) sound;
  }

  lock_at-Keeps : (o : Option ℕ) → Keeps (lock_at app o)
  lock_at-Keeps none = stop
  lock_at-Keeps (some i) = Triple-bind _ _ (Triple-gets _) (λ l.
      Triple-bind _ _ (Triple-or_raise _ (λ s h. h.0)) (λ slot.
        Triple-if (is_status slot.status locked) _ _
          (λ e. Triple-bind _ _ (at_slot i l slot open_slot vacant_open) (λ u. finish true))
          (λ e. Triple-bind _ _ (Triple-calm _ (λ s h. h.0.0) (IsCalm-host app)) (λ h.
            Triple-if (holds h slot) _ _ (λ e'. Triple-weaken _ (λ s h. h.0.0) stop)
              (λ e'. Triple-bind _ _ (at_slot i l slot locked vacant_locked) (λ u. finish true))))))

  pub lock-Keeps : (p : ℕ) (slot_id : ℤ) → Keeps (lock app p slot_id)
  unfolding lock
  lock-Keeps p slot_id = as_host p _ (lock_at-Keeps (slot_index slot_id))

  -- a player's move, once the slot is read, in its two steps
  place :
      (p i j : ℕ) (l : List Slot) (slot : Slot)
      → Triple
          (λ m. (Sound m × (l ≡ m.slots)) × (get_elem? l j ≡ some slot))
          (update_slot i (λ s. copy_from s slot))
          (λ a m. IsSound (adjust m.slots j (reset open_slot)))
  place p i j l slot = record {
    at = λ r h.
        let (h0, e) = h in
        let (sound, same) = h0 in
        moved-IsSound r.state.slots i j slot (ap (λ l. get_elem? l j) (sym same) ∙ e) sound;
  }

  vacate :
      (j : ℕ)
      → Triple
          (λ m. IsSound (adjust m.slots j (reset open_slot)))
          (update_slot j (reset open_slot))
          (λ a. Sound)
  vacate j = record { at = λ r h. h }

  change_to-Keeps : (p : ℕ) (o : Option ℕ) → Keeps (change_to app p o)
  change_to-Keeps p none = stop
  change_to-Keeps p (some i) = Triple-bind _ _ (Keeps-calm _ (IsCalm-gets _)) (λ l.
      Triple-bind _ _ (Keeps-calm _ (IsCalm-or_raise _)) (λ target.
        Triple-if (not (is_status target.status open_slot)) _ _ (λ e. stop)
          (λ e. Triple-bind _ _ (Triple-seat p) (λ j.
            Triple-weaken _ (λ s h. h.0)
              (Triple-bind _ _ (Triple-gets (λ m. m.slots)) (λ l.
                Triple-bind _ _ (Triple-or_raise _ (λ s h. h.0)) (λ slot.
                  Triple-bind _ _ (place p i j l slot)
                    (λ u. Triple-bind _ _ (vacate j) (λ v. finish true)))))))))

  pub change_slot-Keeps : (p : ℕ) (slot_id : ℤ) → Keeps (change_slot app p slot_id)
  unfolding change_slot
  change_slot-Keeps p slot_id = change_to-Keeps p (slot_index slot_id)
