-- ===== src/World/Ties/Leave.antt =====
-- `leave_match` and `logout` of app/objects/player.py keep the ties.
use eunga_py.Prelude.{ℕ, ◌≤◌, ◌≡◌, refl, sym, ap, ◌∙◌, true, false, Option, none, some, List, arith}
use eunga_py.Prelude.Actions.{or_raise, ◌>>=◌, ◌>>◌}
use eunga_py.Match.Types.{Match, Slot}
use eunga_py.Match.Seats.{adjust, get_slot_id, reset}
use eunga_py.World.{World, Act, App, on_player, on_match, set_table}
use eunga_py.World.Count.{here, update_at, one_ne, here_le}
use eunga_py.World.Matches.{match_of, vacate, stand_up, quit_match, leave_seat, leave_match}
use eunga_py.World.Players.{drop_ties, logout}
use eunga_py.World.Calm.{IsCalm-pure, IsCalm-gets, IsCalm-if, IsCalm-on_player}
use eunga_py.World.Calm.Leave.{IsCalm-leave_channel}
use eunga_py.World.Calm.Messages.{IsCalm-then}
use eunga_py.World.Calm.Matches.{
  IsCalm-dispose, IsCalm-carry_on, IsCalm-leave_channels, IsCalm-say_goodbye,
}
use eunga_py.World.Ties.{
  seats, IsConsistent, Lands, Keeps, IsStable, Lands-calm, Lands-bind, Keeps-bind, Lands-read,
  Lands-if, Lands-option,
}
use eunga_py.World.Ties.Seats.{with_match, seats-adjust, seats-get_slot_id, reseated-IsConsistent}
use eunga_py.World.Ties.Watch.{Keeps-remove_spectator}

-- the player sits in no match
abbrev pub Unseated : ℕ → World → Type 0
Unseated p w = (t : ℕ) → seats p (w.table t).state.slots ≡ 0

Unseated-IsStable : (p : ℕ) → IsStable (Unseated p)
Unseated-IsStable p w w' s e = λ t. ap (seats p) (s.slots t) ∙ e t

Lands-unseat : (p : ℕ) → Lands (Unseated p) (on_player p (with_match none))
unfolding on_player
Lands-unseat p = record {
  at = λ w k e. reseated-IsConsistent p none w k.known k.watched (λ q u.
      update_at (λ q o. seats q (w.table u).state.slots ≤ here o u) (λ i. (w.player i).match) p none
        (omega (arith, e u)) (λ q ne. k.seated q u) q);
}

abbrev leave_slot : ℕ → Match → Match
leave_slot i m = record m { slots = adjust m.slots i vacate }

seats-vacate : (q : ℕ) (l : List Slot) (i : ℕ) → seats q (adjust l i vacate) ≤ seats q l
unfolding vacate reset
seats-vacate q l i = omega (arith, seats-adjust vacate q 0 (λ s. omega arith) l i)

module _ {A : Type 0} (p t : ℕ) (k : Act A) (rest : Lands (Unseated p) k) (w : World)
    (h : IsConsistent w) (e : (w.player p).match ≡ some t) where
  vacated : (i : ℕ) → IsConsistent (set_table t (leave_slot i) w)
  vacated i = record {
    known = record { known = h.known.known; once = h.known.once };
    watched = h.watched;
    seated = λ q.
        update_at (λ u x. seats q x.state.slots ≤ here (w.player q).match u) w.table t _
          (omega (arith, seats-vacate q (match_of t w).slots i, h.seated q t))
          (λ u ne. h.seated q u);
  }

  vacated-Unseated :
      (i : ℕ)
      → get_slot_id p (match_of t w).slots ≡ some i
      → Unseated p (set_table t (leave_slot i) w)
  vacated-Unseated i g =
      update_at (λ u x. seats p x.state.slots ≡ 0) w.table t _
        (omega (
          arith,
          seats-get_slot_id p (match_of t w).slots i g,
          h.seated p t,
          ap (λ o. here o t) e,
          here_le (some t) t,
        ))
        (λ u ne. omega (arith, h.seated p u, ap (λ o. here o u) e, one_ne t u (λ e. ne (sym e))))

  stood :
      (o : Option ℕ)
      → get_slot_id p (match_of t w).slots ≡ o
      → IsConsistent (((or_raise o >>= λ i. on_match t (leave_slot i)) >>= λ u. k) w).1
  unfolding ◌>>=◌ on_match
  stood none g = h
  stood (some i) g = rest.at (set_table t (leave_slot i) w) (vacated i) (vacated-Unseated i g)

  stand_then : IsConsistent ((stand_up p t >> k) w).1
  unfolding stand_up ◌>>=◌
  stand_then = stood (get_slot_id p (match_of t w).slots) refl

module _ (app : App) where
  quit_from :
      (p t : ℕ) (w : World)
      → IsConsistent w
      → (w.player p).match ≡ some t
      → IsConsistent (quit_match app p t w).1
  unfolding quit_match
  quit_from p t w h e =
      stand_then p t _
        (Lands-bind _ (Unseated-IsStable p) _ _ (IsCalm-gets _) (λ c.
          Lands-bind _ (Unseated-IsStable p) _ _ (IsCalm-leave_channel p c true) (λ u.
            Lands-bind _ (Unseated-IsStable p) _ _ (IsCalm-gets _) (λ d.
              Lands-bind _ (Unseated-IsStable p) _ _
                (IsCalm-if d _ _ (IsCalm-dispose t) (IsCalm-carry_on app p t))
                (λ u. Lands-unseat p)))))
        w h e

  leave_from :
      (p : ℕ) (o : Option ℕ) (w : World)
      → IsConsistent w
      → (w.player p).match ≡ o
      → IsConsistent (leave_seat app p o w).1
  leave_from p none w h e = h
  leave_from p (some t) w h e = quit_from p t w h e

  pub Keeps-leave_match : (p : ℕ) → Keeps (leave_match app p)
  unfolding leave_match
  Keeps-leave_match p = Lands-read _ _ (λ w h u. leave_from p _ w h refl)

  Keeps-drop_ties : (p : ℕ) → Keeps (drop_ties app p)
  unfolding drop_ties
  Keeps-drop_ties p =
      Keeps-bind _ _
        (Lands-calm _ (IsCalm-on_player p _ (λ s. refl) (λ s. refl) (λ s. refl) (λ s. refl)))
        (λ u. Keeps-bind _ _ (Keeps-leave_match p) (λ u.
          Keeps-bind _ _ (Lands-calm _ (IsCalm-gets _)) (λ host.
            Lands-option host _ _ (Lands-calm _ (IsCalm-pure tt))
              (λ h. Keeps-remove_spectator app h p))))

  pub Keeps-logout : (fuel p : ℕ) → Keeps (logout app fuel p)
  unfolding logout
  Keeps-logout fuel p = Keeps-bind _ _ (Keeps-drop_ties p) (λ u.
      Keeps-bind _ _ (Lands-calm _ (IsCalm-leave_channels p fuel)) (λ ended.
        Lands-if ended _ _
          (Lands-calm _ (IsCalm-then _ _ (IsCalm-say_goodbye p) (IsCalm-pure true)))
          (Lands-calm _ (IsCalm-pure false))))
