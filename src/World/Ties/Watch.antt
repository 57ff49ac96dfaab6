-- ===== src/World/Ties/Watch.antt =====
-- `add_spectator` and `remove_spectator` of app/objects/player.py, `StartSpectating` and `StopSpectating`
-- of app/api/domains/cho.py: the spectators of a host are those who spectate it.
use mathlib.Core.Path.{subst}
use eunga_py.Prelude.{
  ℕ, ◌≤◌, ◌≡◌, ◌≢◌, refl, sym, ap, ◌∙◌, fun_ext, true, Option, none, some, List, [], ◌∷◌, ◌++◌,
  is_empty, arith, ◌==◌,
}
use eunga_py.Prelude.Int.{ℤ}
use eunga_py.Prelude.Actions.{or_raise, ◌>>=◌, ◌>>◌}
use eunga_py.World.{Player, World, Act, App, on_player, set_player, list_remove, update}
use eunga_py.World.Spectating.{
  watch, unwatch, add_spectator, leave_spectators, remove_spectator, spectate, spectate_target,
  start_spectating, stop_spectating,
}
use eunga_py.World.Calm.{IsCalm, IsCalm-pure, IsCalm-or_raise, IsCalm-gets, IsCalm-if, IsCalm-bind}
use eunga_py.World.Calm.Channels.{IsCalm-join_channel}
use eunga_py.World.Calm.Leave.{IsCalm-leave_channel}
use eunga_py.World.Calm.Messages.{
  IsCalm-gets_then, IsCalm-then, IsCalm-send, IsCalm-get_by_name, IsCalm-spec_channel,
  IsCalm-tell_spectators, IsCalm-tell_left, IsCalm-rejoin,
}
use eunga_py.World.Ties.{
  IsConsistent, Lands, Keeps, IsStable, Lands-calm, Lands-bind, Keeps-bind, Lands-read,
  resume_assoc, Lands-if, Lands-option,
}
use eunga_py.World.Count.{
  count, here, update_at, update_keeps, update_map, update_same, one_ne, one_refl, here_le,
  count-append, count-list_remove,
}

-- The spectators `S` of each host and the host `G` of each spectator agree.
abbrev pub Agree : (ℕ → List ℕ) → (ℕ → Option ℕ) → Type 0
Agree S G = (p q : ℕ) → count q (S p) ≡ here (G q) p

-- an option holds one number at most
here_ne : (o : Option ℕ) (x y : ℕ) → 1 ≤ here o x → y ≢ x → here o y ≡ 0
here_ne none x y h ne = refl
here_ne (some z) x y h ne = ground arith

pub watch-Agree :
    (S : ℕ → List ℕ) (G : ℕ → Option ℕ) (h p : ℕ)
    → Agree S G
    → G p ≡ none
    → Agree (update S h (S h ++ (p ∷ []))) (update G p (some h))
watch-Agree S G h p a e = λ x y.
    update_at (λ x l. count y l ≡ here (update G p (some h) y) x) S h (S h ++ (p ∷ []))
      (update_at (λ y o. count y (S h ++ (p ∷ [])) ≡ here o h) G p (some h)
        (omega (arith, count-append p p (S h), one_refl p, one_refl h, a h p, ap (λ o. here o h) e))
        (λ y ne. omega (arith, count-append y p (S h), one_ne p y (λ e. ne (sym e)), a h y)) y)
      (λ x ne.
        update_at (λ y o. count y (S x) ≡ here o x) G p (some h)
          (omega (arith, a x p, ap (λ o. here o x) e, one_ne h x (λ e. ne (sym e)))) (λ y ne. a x y)
          y)
      x

pub unwatch-Agree :
    (S : ℕ → List ℕ) (G : ℕ → Option ℕ) (h p : ℕ) (l : List ℕ)
    → Agree S G
    → list_remove (S h) p ≡ some l
    → Agree (update S h l) (update G p none)
unwatch-Agree S G h p l a e = λ x y.
    update_at (λ x l. count y l ≡ here (update G p none y) x) S h l
      (update_at (λ y o. count y l ≡ here o h) G p none
        (omega (arith, count-list_remove p p (S h) l e, one_refl p, a h p, here_le (G p) h))
        (λ y ne.
          omega (arith, count-list_remove y p (S h) l e, one_ne p y (λ e. ne (sym e)), a h y))
        y)
      (λ x ne.
        update_at (λ y o. count y (S x) ≡ here o x) G p none
          (a x p
            ∙ here_ne (G p) h x (omega (arith, count-list_remove p p (S h) l e, one_refl p, a h p))
                ne)
          (λ y ne. a x y) y)
      x

-- other spectators of one player, another host of another
abbrev with_spectators : List ℕ → Player → Player
with_spectators l s = record s { spectators = l }

abbrev with_host : Option ℕ → Player → Player
with_host o s = record s { spectating = o }

abbrev retied : ℕ → List ℕ → ℕ → Option ℕ → World → World
retied h l p o w = set_player p (with_host o) (set_player h (with_spectators l) w)

module _ (h : ℕ) (l : List ℕ) (p : ℕ) (o : Option ℕ) (w : World) where
  abbrev first : ℕ → Player
  first = update w.player h (with_spectators l (w.player h))

  retied_spectators :
      (x : ℕ)
      → ((retied h l p o w).player x).spectators ≡ update (λ i. (w.player i).spectators) h l x
  retied_spectators x =
      update_keeps (λ s. s.spectators) first p _ x refl
      ∙ update_map (λ s. s.spectators) w.player h _ x

  retied_spectating :
      (y : ℕ)
      → ((retied h l p o w).player y).spectating ≡ update (λ i. (w.player i).spectating) p o y
  retied_spectating y =
      update_map (λ s. s.spectating) first p _ y
      ∙ ap (λ g. update g p o y)
          (fun_ext (λ i. update_keeps (λ s. s.spectating) w.player h _ i refl))

  retied_same :
      {B : Type 0} (g : Player → B)
      → ((l : List ℕ) (s : Player) → g (with_spectators l s) ≡ g s)
      → ((o : Option ℕ) (s : Player) → g (with_host o s) ≡ g s)
      → (x : ℕ) → g ((retied h l p o w).player x) ≡ g (w.player x)
  retied_same g el eo x =
      update_keeps g first p _ x (eo o (first p))
      ∙ update_keeps g w.player h _ x (el l (w.player h))

  retied-IsConsistent :
      IsConsistent w
      → Agree
          (update (λ i. (w.player i).spectators) h l)
          (update (λ i. (w.player i).spectating) p o)
      → IsConsistent (retied h l p o w)
  retied-IsConsistent k a = record {
    known = record {
      known = λ q c. omega (
        arith,
        k.known.known q c,
        ap (count c) (retied_same (λ s. s.channels) (λ l s. refl) (λ o s. refl) q),
      );
      once = k.known.once;
    };
    watched = λ x y.
        ap (count y) (retied_spectators x) ∙ a x y ∙ ap (λ o. here o x) (sym (retied_spectating y));
    seated = λ q t. omega (
      arith,
      k.seated q t,
      ap (λ o. here o t) (retied_same (λ s. s.match) (λ l s. refl) (λ o s. refl) q),
    );
  }

-- `player` spectates nobody
abbrev pub Idle : ℕ → World → Type 0
Idle player w = (w.player player).spectating ≡ none

Idle-IsStable : (player : ℕ) → IsStable (Idle player)
Idle-IsStable player w w' s e = s.spectating player ∙ e

Lands-watch : (self player : ℕ) → Lands (Idle player) (watch self player)
unfolding watch on_player ◌>>=◌
Lands-watch self player = record {
  at = λ w k e.
      retied-IsConsistent self _ player (some self) w k
        (watch-Agree _ (λ i. (w.player i).spectating) self player k.watched e);
}

module _ (app : App) where
  pub Lands-add_spectator : (self player : ℕ) → Lands (Idle player) (add_spectator app self player)
  unfolding add_spectator
  Lands-add_spectator self player =
      Lands-bind _ (Idle-IsStable player) _ _ (IsCalm-get_by_name _) (λ found.
        Lands-bind _ (Idle-IsStable player) _ _ (IsCalm-spec_channel app self found) (λ c.
          Lands-bind _ (Idle-IsStable player) _ _ (IsCalm-join_channel player c) (λ joined.
            Lands-if joined _ _
              (Lands-bind _ (Idle-IsStable player) _ _ (IsCalm-tell_spectators self player)
                (λ u. Lands-watch self player))
              (Lands-calm _ (IsCalm-pure tt)))))

-- the spectator is taken off, and the rest finds it idle
module _ {B : Type 0} (self player : ℕ) (k : Act B) (t : Lands (Idle player) k) (w : World)
    (h : IsConsistent w) where
  unwatched :
      (o : Option (List ℕ))
      → list_remove (w.player self).spectators player ≡ o
      → IsConsistent
          (((or_raise o >>= λ l.
                on_player self (with_spectators l) >> on_player player (with_host none))
              >>= λ u. k)
            w).1
  unfolding ◌>>=◌ on_player
  unwatched none e = h
  unwatched (some l) e =
      t.at (retied self l player none w)
        (retied-IsConsistent self l player none w h
          (unwatch-Agree _ (λ i. (w.player i).spectating) self player l h.watched e))
        (ap (λ s. s.spectating) (update_same (first self l player none w) player _))

  unwatch_then : IsConsistent ((unwatch self player >> k) w).1
  unfolding unwatch ◌>>=◌
  unwatch_then = unwatched (list_remove (w.player self).spectators player) refl

module _ (app : App) where
  IsCalm-leave_spectators : (self player : ℕ) → IsCalm (leave_spectators app self player)
  unfolding leave_spectators
  IsCalm-leave_spectators self player = IsCalm-bind _ _ (IsCalm-get_by_name _) (λ found.
      IsCalm-bind _ _ (IsCalm-or_raise found) (λ c.
        IsCalm-then _ _ (IsCalm-leave_channel player c true) (
          IsCalm-gets_then _ _ (λ l.
            IsCalm-then _ _
              (IsCalm-if (is_empty l) _ _ (IsCalm-leave_channel self c true)
                (IsCalm-tell_left self player c))
              (IsCalm-send _ self)))))

  pub Keeps-remove_spectator : (self player : ℕ) → Keeps (remove_spectator app self player)
  unfolding remove_spectator
  Keeps-remove_spectator self player = record {
    at = λ w h u.
        unwatch_then self player (leave_spectators app self player)
          (Lands-calm _ (IsCalm-leave_spectators self player)) w h;
  }

  -- a new host after the old one
  Keeps-change_host :
      (old new player : ℕ) → Keeps (remove_spectator app old player >> add_spectator app new player)
  unfolding remove_spectator ◌>>=◌
  Keeps-change_host old new player = record {
    at = λ w h u.
        subst (λ x. IsConsistent x.1) (sym (resume_assoc (unwatch old player w) _ _))
          (unwatch_then old player (leave_spectators app old player >> add_spectator app new player)
            (Lands-bind _ (Idle-IsStable player) _ _ (IsCalm-leave_spectators old player)
              (λ v. Lands-add_spectator app new player))
            w h);
  }

  -- with the host that the player has
  spectate_from :
      (player new_host : ℕ) (o : Option ℕ) (w : World)
      → IsConsistent w
      → (w.player player).spectating ≡ o
      → IsConsistent (spectate app player new_host o w).1
  spectate_from player new_host none w h e = (Lands-add_spectator app new_host player).at w h e
  spectate_from player new_host (some current) w h e =
      (Lands-if (current == new_host) _ _ (Lands-calm _ (IsCalm-rejoin player new_host))
          (Keeps-change_host current new_host player)).at
        w h tt

  spectate_found :
      (player : ℕ) (found : Option ℕ) (w : World)
      → IsConsistent w
      → IsConsistent (spectate_target app player found (w.player player).spectating w).1
  spectate_found player none w h = h
  spectate_found player (some n) w h = spectate_from player n _ w h refl

  pub Keeps-start_spectating :
      (player : ℕ) (target_id : ℤ) → Keeps (start_spectating app player target_id)
  unfolding start_spectating
  Keeps-start_spectating player target_id =
      Keeps-bind _ _ (Lands-calm _ (IsCalm-gets _))
        (λ found. Lands-read _ _ (λ w h u. spectate_found player found w h))

  pub Keeps-stop_spectating : (player : ℕ) → Keeps (stop_spectating app player)
  unfolding stop_spectating
  Keeps-stop_spectating player = Keeps-bind _ _ (Lands-calm _ (IsCalm-gets _)) (λ host.
      Lands-option host _ _ (Lands-calm _ (IsCalm-pure tt)) (λ h. Keeps-remove_spectator h player))
