-- ===== src/Match/Commands/Keep.antt =====
-- The `!mp` commands of app/commands.py and the timers of a match against the invariant of its slots.
pub mod Timers
use mathlib.Core.Bool.{false≢true}
use eunga_py.Prelude.Text.{codes, eq_str}
use eunga_py.Prelude.{
  ℕ, ◌%◌, ◌≡◌, refl, sym, ap, ◌∙◌, Bool, true, false, not, ◌&&◌, ◌||◌, Option, none, some, List, [],
  ◌∷◌, any, length, leb, ◌==◌, if◌then◌else◌,
}
use eunga_py.Bits.{has}
use eunga_py.Mods.{Mods}
use eunga_py.Packets.Utf8.{Str}
use eunga_py.Match.Types.{
  Match, Slot, SlotStatus, open_slot, locked, not_ready, playing, status_value, is_status,
}
use eunga_py.Match.Seats.Sound.{IsSound, IsTame, IsTameTo-if}
use eunga_py.Match.Room.{
  Exec, Result, done, raised, Room, resume, pure, gets, ◌>>=◌, ◌>>◌, is_member, Sessions, start,
  or_raise, enqueue_state,
}
use eunga_py.Match.Room.Triple.{
  Triple, Sound, Post, Keeps, Triple-bind, Triple-if, Triple-seat, Triple-update_slot, IsCalm-pure,
  IsCalm-gets, IsCalm-or_raise, IsCalm-enqueue, IsCalm-host, IsCalm-send_bot, Keeps-calm,
  Keeps-map_slots, Keeps-modify, Keeps-start,
}
use eunga_py.Match.Handlers.{set_status, transfer_to}
use eunga_py.Match.Handlers.Keep.Tame.{
  IsTame-vacant, IsTame-unready, IsTame-reset_loaded, IsTame-start, vacant_open, vacant_locked,
  to_freemods-IsSound, from_freemods-IsSound,
}
use eunga_py.Match.Handlers.Keep.Actions.{finish, stop, transfer_to-Keeps, broadcast}
use eunga_py.Match.Commands.{
  Context, Reply, answer, single, with_target, is_seated, swap_status, condition_named,
  ensure_match, mp_abort, set_free_mods, command_mods, mods_with, mp_mods, freemods_off,
  freemods_on, mp_freemods, mp_host, mp_randpw, mp_addref, mp_rmref, mp_lock, mp_unlock,
}
use eunga_py.Match.Commands.Timers.{
  start_now, start_ready, start_after, start_cancel, start_word, start_with, mp_start, timer_start,
  timer_alert, condition_pp, condition_set, mp_condition, Command, command, start_command,
  abort_command, mods_command, freemods_command, host_command, randpw_command, addref_command,
  rmref_command, lock_command, unlock_command, condition_command,
}

playing_occupied : has (status_value playing) 124 ≡ true
unfolding status_value has
playing_occupied = refl

pub Keeps-answer : (s : Str) → Keeps (answer s)
Keeps-answer s = Keeps-calm _ (IsCalm-pure (some s))

pub Keeps-gets : {A : Type 0} (f : Match → A) → Keeps (gets f)
Keeps-gets f = Keeps-calm _ (IsCalm-gets f)

-- one action after the other
pub Keeps-then : {A : Type 0} (m : Exec Unit) (k : Exec A) → Keeps m → Keeps k → Keeps (m >> k)
Keeps-then m k tm tk = Triple-bind m _ tm (λ u. tk)

pub Keeps-option :
    {A B : Type 0} (o : Option A) (m : Exec B) (k : A → Exec B)
    → Keeps m
    → ((a : A) → Keeps (k a))
    → Keeps (elim o [ none ↦ m | some a ↦ k a ])
Keeps-option none m k tm tk = tm
Keeps-option (some a) m k tm tk = tk a

module _ (ctx : Context) (syntax : Str) (k : ℕ → Reply) where
  pub Keeps-with_target : ((p : ℕ) → Keeps (k p)) → Keeps (with_target ctx syntax k)
  Keeps-with_target h =
      Keeps-option (single ctx.args) _ _ (Keeps-answer syntax)
        (λ a. Keeps-option (ctx.get a) _ _ (Keeps-answer _) h)

-- a status that asks for no player may replace any other
IsTame-swap :
    (old new : SlotStatus)
    → has (status_value new) 124 ≡ false
    → (s : Slot) → IsTame (swap_status old new) s
unfolding swap_status
IsTame-swap old new h s = IsTameTo-if (is_status s.status old) _ s (λ e. IsTame-vacant new h s)

module _ (app : Sessions) where
  -- the new state to all, and the reply
  pub Keeps-reply : (lobby : Bool) (s : Str) → Keeps (enqueue_state app lobby >> answer s)
  Keeps-reply lobby s = Keeps-then _ _ (finish app lobby) (Keeps-answer s)

  pub Keeps-ensure_match : (ctx : Context) (f : Reply) → Keeps f → Keeps (ensure_match app ctx f)
  unfolding ensure_match
  Keeps-ensure_match ctx f k = Triple-bind _ _ (Keeps-gets _) (λ m.
      Triple-bind _ _ (Keeps-calm _ (IsCalm-host app)) (λ h.
        Triple-if (is_member m.referees ctx.player || (ctx.player == h || ctx.manager)) _ _ (λ e. k)
          (λ e. Keeps-calm _ (IsCalm-pure none))))

  pub Keeps-mp_abort : (ctx : Context) → Keeps (mp_abort app ctx)
  unfolding mp_abort
  Keeps-mp_abort ctx = Triple-bind _ _ (Keeps-gets _) (λ b.
      Triple-if (not b) _ _ (λ e. Keeps-answer _)
        (λ e. Keeps-then _ _ (Keeps-map_slots _ (IsTame-unready playing playing_occupied)) (
          Keeps-then _ _ (Keeps-map_slots _ IsTame-reset_loaded) (
            Keeps-then _ _ (Keeps-modify _ (λ m. refl)) (
              Triple-bind _ _ (Keeps-calm _ (IsCalm-or_raise _)) (λ b.
                Keeps-then _ _ (Keeps-calm _ (IsCalm-enqueue b true [])) (Keeps-reply true _)))))))

  pub Keeps-mp_randpw : (ctx : Context) → Keeps (mp_randpw app ctx)
  unfolding mp_randpw
  Keeps-mp_randpw ctx = Keeps-then _ _ (Keeps-modify _ (λ m. refl)) (Keeps-answer _)

  pub Keeps-mp_lock : (ctx : Context) → Keeps (mp_lock app ctx)
  unfolding mp_lock
  Keeps-mp_lock ctx =
      Keeps-then _ _ (Keeps-map_slots _ (IsTame-swap open_slot locked vacant_locked))
        (Keeps-reply true _)

  pub Keeps-mp_unlock : (ctx : Context) → Keeps (mp_unlock app ctx)
  unfolding mp_unlock
  Keeps-mp_unlock ctx =
      Keeps-then _ _ (Keeps-map_slots _ (IsTame-swap locked open_slot vacant_open))
        (Keeps-reply true _)

  pub Keeps-mp_host : (ctx : Context) → Keeps (mp_host app ctx)
  unfolding mp_host
  Keeps-mp_host ctx = Keeps-with_target ctx _ _ (λ target.
      Triple-bind _ _ (Keeps-calm _ (IsCalm-host app)) (λ h. Triple-bind _ _ (Keeps-gets _) (λ m.
        Triple-if (target == h) _ _ (λ e. Keeps-answer _)
          (λ e.
            Triple-if (not (is_seated target m)) _ _ (λ e. Keeps-answer _)
              (λ e. Keeps-then _ _ (transfer_to-Keeps app (some target)) (Keeps-answer _))))))

  pub Keeps-mp_addref : (ctx : Context) → Keeps (mp_addref app ctx)
  unfolding mp_addref
  Keeps-mp_addref ctx = Keeps-with_target ctx _ _ (λ target. Triple-bind _ _ (Keeps-gets _) (λ m.
      Triple-if (not (is_seated target m)) _ _ (λ e. Keeps-answer _)
        (λ e. Triple-bind _ _ (Keeps-calm _ (IsCalm-host app)) (λ h.
          Triple-if (is_member m.referees target || target == h) _ _ (λ e. Keeps-answer _)
            (λ e. Keeps-then _ _ (Keeps-modify _ (λ m. refl)) (Keeps-answer _))))))

  pub Keeps-mp_rmref : (ctx : Context) → Keeps (mp_rmref app ctx)
  unfolding mp_rmref
  Keeps-mp_rmref ctx = Keeps-with_target ctx _ _ (λ target. Triple-bind _ _ (Keeps-gets _) (λ m.
      Triple-bind _ _ (Keeps-calm _ (IsCalm-host app)) (λ h.
        Triple-if (not (is_member m.referees target || target == h)) _ _ (λ e. Keeps-answer _)
          (λ e.
            Triple-if (target == h) _ _ (λ e. Keeps-answer _)
              (λ e. Keeps-then _ _ (Keeps-modify _ (λ m. refl)) (Keeps-answer _))))))

  pub Keeps-freemods_on : Keeps (freemods_on app)
  unfolding freemods_on
  Keeps-freemods_on =
      Keeps-then _ _ (Keeps-modify _ (λ m. refl))
        (record { at = λ r h. to_freemods-IsSound r.state h })

  pub Keeps-freemods_off : Keeps (freemods_off app)
  unfolding freemods_off
  Keeps-freemods_off = Keeps-then _ _ (Keeps-modify _ (λ m. refl)) (
      Triple-bind _ _ (Keeps-calm _ (IsCalm-host app)) (λ h. Triple-bind _ _ (Keeps-gets _) (λ l.
        Triple-bind _ _ (Keeps-calm _ (IsCalm-or_raise _))
          (λ s. record { at = λ r h. from_freemods-IsSound s r.state h }))))

  pub Keeps-mp_freemods : (ctx : Context) → Keeps (mp_freemods app ctx)
  unfolding mp_freemods
  Keeps-mp_freemods ctx = Keeps-option (single ctx.args) _ _ (Keeps-answer _) (λ a.
      Triple-if (not (eq_str a (codes "on") || eq_str a (codes "off"))) _ _ (λ e. Keeps-answer _)
        (λ e.
          Keeps-then _ _
            (Triple-if (eq_str a (codes "on")) _ _ (λ e. Keeps-freemods_on)
              (λ e. Keeps-freemods_off))
            (Keeps-reply true _)))

  pub Keeps-set_free_mods : (p : ℕ) (mods : Mods) → Keeps (set_free_mods app p mods)
  unfolding set_free_mods
  Keeps-set_free_mods p mods = Triple-bind _ _ (Keeps-calm _ (IsCalm-host app)) (λ h.
      Keeps-then _ _ (Triple-if (p == h) _ _ (λ e. Keeps-modify _ (λ m. refl)) (λ e. stop app)) (
        Triple-bind _ _ (Triple-seat p)
          (λ i. Triple-update_slot p i _ (λ s e. record { same = λ q h. h; still = λ g. g }))))

  Keeps-mods_with : (ctx : Context) (m : Match) (o : Option Str) → Keeps (mods_with app ctx m o)
  unfolding command_mods
  Keeps-mods_with ctx m none = Keeps-answer _
  Keeps-mods_with ctx m (some a) =
      Triple-if (not (length a % 2 == 0)) _ _ (λ e. Keeps-answer _)
        (λ e.
          Keeps-then _ _
            (Triple-if m.freemods _ _ (λ e. Keeps-set_free_mods ctx.player _)
              (λ e. Keeps-modify _ (λ m. refl)))
            (Keeps-reply true _))

  pub Keeps-mp_mods : (ctx : Context) → Keeps (mp_mods app ctx)
  unfolding mp_mods
  Keeps-mp_mods ctx = Triple-bind _ _ (Keeps-gets _) (λ m. Keeps-mods_with ctx m (single ctx.args))
