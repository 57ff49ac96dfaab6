-- ===== src/Match/Commands/Keep/Timers.antt =====
-- `!mp start`, `!mp condition` and the timers of app/commands.py against the invariant of the slots of a
-- match, and all commands together.
use eunga_py.Prelude.Text.{codes, eq_str}
use eunga_py.Prelude.{ℕ, refl, false, not, ◌&&◌, ◌||◌, List, [], ◌∷◌, any, leb}
use eunga_py.Packets.Utf8.{Str}
use eunga_py.Match.Types.{not_ready, is_status}
use eunga_py.Match.Room.{Sessions}
use eunga_py.Match.Room.Triple.{
  Keeps, Triple-bind, Triple-if, IsCalm-send_bot, Keeps-calm, Keeps-modify, Keeps-start,
}
use eunga_py.Match.Handlers.Keep.Tame.{IsTame-start}
use eunga_py.Match.Commands.{Context, single, is_seated, condition_named, ensure_match}
use eunga_py.Match.Commands.Timers.{
  start_now, start_ready, start_after, start_cancel, start_word, start_with, mp_start, timer_start,
  timer_alert, condition_pp, condition_set, mp_condition, Command, command, start_command,
  abort_command, mods_command, freemods_command, host_command, randpw_command, addref_command,
  rmref_command, lock_command, unlock_command, condition_command,
}
use eunga_py.Match.Commands.Keep.{
  Keeps-answer, Keeps-gets, Keeps-then, Keeps-option, Keeps-reply, Keeps-ensure_match,
  Keeps-mp_abort, Keeps-mp_randpw, Keeps-mp_lock, Keeps-mp_unlock, Keeps-mp_host, Keeps-mp_addref,
  Keeps-mp_rmref, Keeps-mp_freemods, Keeps-mp_mods,
}

module _ (app : Sessions) where
  Keeps-start_now : Keeps (start_now app)
  Keeps-start_now = Keeps-then _ _ (Keeps-start app IsTame-start) (Keeps-answer _)

  Keeps-start_ready : (ctx : Context) → Keeps (start_ready app ctx)
  unfolding start_ready
  Keeps-start_ready ctx = Triple-bind _ _ (Keeps-gets _) (λ m.
      Triple-if m.starting _ _ (λ e. Keeps-answer _)
        (λ e.
          Triple-if (any (λ s. is_status s.status not_ready) m.slots) _ _ (λ e. Keeps-answer _)
            (λ e. Keeps-start_now)))

  Keeps-start_after : (ctx : Context) (n : ℕ) → Keeps (start_after app ctx n)
  unfolding start_after
  Keeps-start_after ctx n = Triple-bind _ _ (Keeps-gets _) (λ b.
      Triple-if b _ _ (λ e. Keeps-answer _)
        (λ e.
          Triple-if (not (leb 1 n && leb n 300)) _ _ (λ e. Keeps-answer _)
            (λ e. Keeps-then _ _ (Keeps-modify _ (λ m. refl)) (Keeps-answer _))))

  Keeps-start_cancel : Keeps (start_cancel app)
  unfolding start_cancel
  Keeps-start_cancel = Triple-bind _ _ (Keeps-gets _) (λ b.
      Triple-if (not b) _ _ (λ e. Keeps-answer _)
        (λ e. Keeps-then _ _ (Keeps-modify _ (λ m. refl)) (Keeps-answer _)))

  Keeps-start_word : (a : Str) → Keeps (start_word app a)
  Keeps-start_word a =
      Triple-if (eq_str a (codes "cancel") || eq_str a (codes "c")) _ _ (λ e. Keeps-start_cancel)
        (λ e.
          Triple-if (not (eq_str a (codes "force") || eq_str a (codes "f"))) _ _
            (λ e. Keeps-answer _) (λ e. Keeps-start_now))

  Keeps-start_with : (ctx : Context) (l : List Str) → Keeps (start_with app ctx l)
  Keeps-start_with ctx [] = Keeps-start_ready ctx
  Keeps-start_with ctx (a ∷ []) =
      Keeps-option (ctx.decimal a) _ _ (Keeps-start_word a) (Keeps-start_after ctx)
  Keeps-start_with ctx (a ∷ b ∷ l) = Keeps-answer _

  Keeps-condition_pp : Keeps (condition_pp app)
  unfolding condition_pp
  Keeps-condition_pp = Triple-bind _ _ (Keeps-gets _) (λ m.
      Triple-if (not m.is_scrimming) _ _ (λ e. Keeps-answer _)
        (λ e.
          Triple-if m.use_pp_scoring _ _ (λ e. Keeps-answer _)
            (λ e. Keeps-then _ _ (Keeps-modify _ (λ m. refl)) (Keeps-reply app false _))))

  Keeps-condition_set : (cond : Str) → Keeps (condition_set app cond)
  unfolding condition_set
  Keeps-condition_set cond = Keeps-then _ _ (Keeps-modify _ (λ m. refl)) (
      Keeps-option (condition_named cond) _ _ (Keeps-answer _)
        (λ c. Keeps-then _ _ (Keeps-modify _ (λ m. refl)) (Keeps-reply app false _)))

  Keeps-mp_condition : (ctx : Context) → Keeps (mp_condition app ctx)
  unfolding mp_condition
  Keeps-mp_condition ctx = Keeps-option (single ctx.args) _ _ (Keeps-answer _) (λ a.
      Triple-if (eq_str a (codes "pp")) _ _ (λ e. Keeps-condition_pp) (λ e. Keeps-condition_set a))

  pub Keeps-command :
      (c : Command) (ctx : Context) → Keeps (ensure_match app ctx (command app c ctx))
  unfolding mp_start
  Keeps-command start_command ctx = Keeps-ensure_match app ctx _ (Keeps-start_with ctx ctx.args)
  Keeps-command abort_command ctx = Keeps-ensure_match app ctx _ (Keeps-mp_abort app ctx)
  Keeps-command mods_command ctx = Keeps-ensure_match app ctx _ (Keeps-mp_mods app ctx)
  Keeps-command freemods_command ctx = Keeps-ensure_match app ctx _ (Keeps-mp_freemods app ctx)
  Keeps-command host_command ctx = Keeps-ensure_match app ctx _ (Keeps-mp_host app ctx)
  Keeps-command randpw_command ctx = Keeps-ensure_match app ctx _ (Keeps-mp_randpw app ctx)
  Keeps-command addref_command ctx = Keeps-ensure_match app ctx _ (Keeps-mp_addref app ctx)
  Keeps-command rmref_command ctx = Keeps-ensure_match app ctx _ (Keeps-mp_rmref app ctx)
  Keeps-command lock_command ctx = Keeps-ensure_match app ctx _ (Keeps-mp_lock app ctx)
  Keeps-command unlock_command ctx = Keeps-ensure_match app ctx _ (Keeps-mp_unlock app ctx)
  Keeps-command condition_command ctx = Keeps-ensure_match app ctx _ (Keeps-mp_condition ctx)

  pub Keeps-timer_start : (p : ℕ) → Keeps (timer_start app p)
  unfolding timer_start
  Keeps-timer_start p = Keeps-then _ _ (Keeps-modify _ (λ m. refl)) (
      Triple-bind _ _ (Keeps-gets _) (λ m.
        Triple-if (not (is_seated p m)) _ _ (λ e. Keeps-calm _ (IsCalm-send_bot app _))
          (λ e.
            Keeps-then _ _ (Keeps-start app IsTame-start) (Keeps-calm _ (IsCalm-send_bot app _)))))

  pub Keeps-timer_alert : (t : ℕ) → Keeps (timer_alert app t)
  unfolding timer_alert
  Keeps-timer_alert t = Keeps-calm _ (IsCalm-send_bot app _)
