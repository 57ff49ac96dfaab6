-- ===== src/World/Ties/Join.antt =====
-- `join_match` of app/objects/player.py keeps the ties, whatever the player's match is.
use eunga_py.Prelude.{ℕ, ◌≡◌, refl, ap, Bool, true, false, ◌||◌, Option, none, some, if◌then◌else◌}
use eunga_py.Prelude.Actions.{pure, or_raise, ◌>>=◌, ◌>>◌}
use eunga_py.Packets.Integers.{Bytes}
use eunga_py.Packets.Utf8.{Str}
use eunga_py.World.{World, Act, enqueue, on_player}
use eunga_py.World.Channels.{packet}
use eunga_py.World.Matches.{in_match, choose_slot, join_fail, enter, join_match}
use eunga_py.World.Calm.{IsCalm-enqueue}
use eunga_py.World.Calm.Matches.{IsCalm-choose_slot}
use eunga_py.World.Ties.{IsConsistent, calm_consistent, Keeps, Lands-bind}
use eunga_py.World.Ties.Seats.{Free, Free-IsStable, Lands-enter}

abbrev no_slot : Act (Option ℕ)
no_slot = pure none

module _ (p t : ℕ) (w : World) (h : IsConsistent w) where
  -- after the packet of a failure there is no slot to take
  failed :
      (o : Option Bytes)
      → IsConsistent (((or_raise o >>= λ b. enqueue b p >> no_slot) >>= enter p t) w).1
  unfolding ◌>>=◌ enter enqueue on_player
  failed none = h
  failed (some b) = calm_consistent w _ h ((IsCalm-enqueue b p).at w h.known)

  join_fail_then : IsConsistent ((join_fail p >>= enter p t) w).1
  unfolding join_fail ◌>>=◌ packet
  join_fail_then = failed _

  refused_then :
      (b c : Bool) (m : Act (Option ℕ))
      → b ≡ true
      → IsConsistent (((if b || c then join_fail p else m) >>= enter p t) w).1
  refused_then true c m e = join_fail_then
  refused_then false c m e = absurd (cc)

  joined_from :
      (passwd : Str) (o : Option ℕ)
      → (w.player p).match ≡ o
      → IsConsistent (join_match p t passwd w).1
  unfolding join_match choose_slot ◌>>=◌
  joined_from passwd none e =
      (Lands-bind (Free p) (Free-IsStable p) _ _ (IsCalm-choose_slot p t passwd)
          (Lands-enter p t)).at
        w h e
  joined_from passwd (some u) e =
      refused_then (in_match p w) _ _ (ap (λ o. elim o [ none ↦ false | some t ↦ true ]) e)

pub Keeps-join_match : (p t : ℕ) (passwd : Str) → Keeps (join_match p t passwd)
Keeps-join_match p t passwd = record { at = λ w h u. joined_from p t w h passwd _ refl }
