-- ===== src/World/Calm.antt =====
-- Steps of the state of app/state/sessions.py that keep the members of the channels known to their
-- players and that change neither spectators nor seats, and one rule for each way to build such an action.
pub mod Channels
pub mod Leave
pub mod Messages
pub mod Matches
use eunga_py.Prelude.{
  ℕ, ◌+◌, ◌≤◌, ◌≡◌, refl, sym, ap, ◌∙◌, Bool, true, false, Option, none, some, List, [], ◌∷◌, ◌++◌,
  arith, if◌then◌else◌,
}
use eunga_py.Prelude.Actions.{Result, done, raised, pure, raise, or_raise, resume, ◌>>=◌, ◌>>◌}
use eunga_py.Packets.Integers.{Bytes}
use eunga_py.Match.Types.{Match, Slot}
use eunga_py.World.{
  Player, World, Act, gets, modify, set_player, on_player, on_match, is_online, each, enqueue,
}
use eunga_py.World.Count.{count, update_keeps}
use eunga_py.World.Channels.{packet}

-- A member of a channel has it among its own channels, and is a member once.
pub record IsKnown (w : World) : Type 0 where
  pub known : (p c : ℕ) → count p (w.channel c).players ≤ count c (w.player p).channels
  pub once : (p c : ℕ) → count p (w.channel c).players ≤ 1

pub record IsCalmStep (w w' : World) : Type 0 where
  pub keeps : IsKnown w'
  pub spectators : (p : ℕ) → (w'.player p).spectators ≡ (w.player p).spectators
  pub spectating : (p : ℕ) → (w'.player p).spectating ≡ (w.player p).spectating
  pub seat : (p : ℕ) → (w'.player p).match ≡ (w.player p).match
  pub slots : (t : ℕ) → (w'.table t).state.slots ≡ (w.table t).state.slots

pub calm_refl : (w : World) → IsKnown w → IsCalmStep w w
calm_refl w h = record {
  keeps = h;
  spectators = λ p. refl;
  spectating = λ p. refl;
  seat = λ p. refl;
  slots = λ t. refl;
}

pub calm_trans : (u v w : World) → IsCalmStep u v → IsCalmStep v w → IsCalmStep u w
calm_trans u v w a b = record {
  keeps = b.keeps;
  spectators = λ p. b.spectators p ∙ a.spectators p;
  spectating = λ p. b.spectating p ∙ a.spectating p;
  seat = λ p. b.seat p ∙ a.seat p;
  slots = λ t. b.slots t ∙ a.slots t;
}

-- whether the action returns or raises
pub record IsCalm {A : Type 0} (m : Act A) : Type 0 where
  pub at : (w : World) → IsKnown w → IsCalmStep w (m w).1

module _ {A : Type 0} where
  pub IsCalm-pure : (a : A) → IsCalm (pure {S = World} a)
  IsCalm-pure a = record { at = calm_refl }

  pub IsCalm-raise : IsCalm (raise {S = World} {A = A})
  IsCalm-raise = record { at = calm_refl }

  pub IsCalm-or_raise : (o : Option A) → IsCalm (or_raise {S = World} o)
  IsCalm-or_raise none = record { at = calm_refl }
  IsCalm-or_raise (some a) = record { at = calm_refl }

  pub IsCalm-gets : (f : World → A) → IsCalm (gets f)
  IsCalm-gets f = record { at = calm_refl }

  pub IsCalm-if : (b : Bool) (m n : Act A) → IsCalm m → IsCalm n → IsCalm (if b then m else n)
  IsCalm-if true m n cm cn = cm
  IsCalm-if false m n cm cn = cn

  pub IsCalm-option :
      {B : Type 0} (o : Option B) (m : Act A) (k : B → Act A)
      → IsCalm m
      → ((b : B) → IsCalm (k b))
      → IsCalm (elim o [ none ↦ m | some b ↦ k b ])
  IsCalm-option none m k cm ck = cm
  IsCalm-option (some b) m k cm ck = ck b

module _ {A B : Type 0} where
  pub calm_resume :
      (x : Result A × World) (k : A → Act B) (w : World)
      → IsCalmStep w x.1
      → ((a : A) → IsCalm (k a))
      → IsCalmStep w (resume x k).1
  calm_resume (done a, v) k w h ck = calm_trans w v _ h ((ck a).at v h.keeps)
  calm_resume (raised, v) k w h ck = h

  pub IsCalm-bind :
      (m : Act A) (k : A → Act B) → IsCalm m → ((a : A) → IsCalm (k a)) → IsCalm (m >>= k)
  unfolding ◌>>=◌
  IsCalm-bind m k cm ck = record { at = λ w h. calm_resume (m w) k w (cm.at w h) ck }

  -- `gets f` and then what depends on the state it read
  pub IsCalm-read :
      (f : World → A) (k : A → Act B)
      → ((w : World) → IsKnown w → IsCalmStep w (k (f w) w).1)
      → IsCalm (gets f >>= k)
  unfolding ◌>>=◌
  IsCalm-read f k h = record { at = h }

pub IsCalm-packet : (make : (ℕ → Bool) → Option Bytes) → IsCalm (packet make)
unfolding packet
IsCalm-packet make = record { at = λ w. (IsCalm-or_raise (make (is_online w))).at w }

-- an assignment to other attributes of a player
pub IsCalm-on_player :
    (p : ℕ) (f : Player → Player)
    → ((s : Player) → (f s).channels ≡ s.channels)
    → ((s : Player) → (f s).spectators ≡ s.spectators)
    → ((s : Player) → (f s).spectating ≡ s.spectating)
    → ((s : Player) → (f s).match ≡ s.match)
    → IsCalm (on_player p f)
unfolding on_player
IsCalm-on_player p f ec es eg em = record {
  at = λ w h. record {
    keeps = record {
      known = λ q c.
          let same =
            update_keeps (λ s. count c s.channels) w.player p (f (w.player p)) q
              (ap (count c) (ec (w.player p))) in
          omega (arith, h.known q c, same);
      once = h.once;
    };
    spectators = λ q. update_keeps (λ s. s.spectators) w.player p _ q (es (w.player p));
    spectating = λ q. update_keeps (λ s. s.spectating) w.player p _ q (eg (w.player p));
    seat = λ q. update_keeps (λ s. s.match) w.player p _ q (em (w.player p));
    slots = λ t. refl;
  };
}

-- an assignment to other attributes of a match than its slots
pub IsCalm-on_match :
    (t : ℕ) (f : Match → Match) → ((m : Match) → (f m).slots ≡ m.slots) → IsCalm (on_match t f)
unfolding on_match
IsCalm-on_match t f e = record {
  at = λ w h. record {
    keeps = record { known = h.known; once = h.once };
    spectators = λ p. refl;
    spectating = λ p. refl;
    seat = λ p. refl;
    slots = λ u. update_keeps (λ x. x.state.slots) w.table t _ u (e (w.table t).state);
  };
}

pub IsCalm-enqueue : (b : Bytes) (p : ℕ) → IsCalm (enqueue b p)
unfolding enqueue
IsCalm-enqueue b p = IsCalm-on_player p _ (λ s. refl) (λ s. refl) (λ s. refl) (λ s. refl)

pub IsCalm-each : (l : List ℕ) (f : ℕ → Act Unit) → ((x : ℕ) → IsCalm (f x)) → IsCalm (each l f)
IsCalm-each [] f h = IsCalm-pure tt
IsCalm-each (x ∷ l) f h = IsCalm-bind _ _ (h x) (λ u. IsCalm-each l f h)
