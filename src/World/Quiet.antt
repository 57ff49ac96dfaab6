-- ===== src/World/Quiet.antt =====
-- The state of app/state/sessions.py without the packets that wait in the queues, and the actions that
-- change nothing else.
pub mod Channels
pub mod Logout
use eunga_py.Prelude.{
  ℕ, ◌≡◌, refl, sym, ap, ◌∙◌, fun_ext, Bool, true, false, Option, none, some, List, [], ◌∷◌, ◌++◌,
  if◌then◌else◌,
}
use eunga_py.Prelude.Actions.{Result, done, raised, pure, or_raise, resume, ◌>>=◌, ◌>>◌}
use eunga_py.Packets.Integers.{Bytes}
use eunga_py.World.{Player, World, Act, gets, each, on_player, enqueue, is_online}
use eunga_py.World.Count.{update_keeps}
use eunga_py.World.Channels.{packet, can_read, info_packet, announce, welcome, farewell}

abbrev pub unqueued : Player → Player
unqueued s = record s { queue = [] }

-- the state with every queue emptied
abbrev pub forget : World → World
forget w = record w { player = λ p. unqueued (w.player p) }

pub record IsQuiet {A : Type 0} (m : Act A) : Type 0 where
  pub at : (w : World) → forget (m w).1 ≡ forget w

module _ {A : Type 0} where
  IsQuiet-pure : (a : A) → IsQuiet (pure {S = World} a)
  IsQuiet-pure a = record { at = λ w. refl }

  IsQuiet-or_raise : (o : Option A) → IsQuiet (or_raise {S = World} o)
  IsQuiet-or_raise none = record { at = λ w. refl }
  IsQuiet-or_raise (some a) = record { at = λ w. refl }

  IsQuiet-gets : (f : World → A) → IsQuiet (gets f)
  IsQuiet-gets f = record { at = λ w. refl }

  IsQuiet-if : (b : Bool) (m n : Act A) → IsQuiet m → IsQuiet n → IsQuiet (if b then m else n)
  IsQuiet-if true m n qm qn = qm
  IsQuiet-if false m n qm qn = qn

module _ {A B : Type 0} where
  quiet_resume :
      (x : Result A × World) (k : A → Act B)
      → ((a : A) → IsQuiet (k a))
      → forget (resume x k).1 ≡ forget x.1
  quiet_resume (done a, v) k q = (q a).at v
  quiet_resume (raised, v) k q = refl

  IsQuiet-bind :
      (m : Act A) (k : A → Act B) → IsQuiet m → ((a : A) → IsQuiet (k a)) → IsQuiet (m >>= k)
  unfolding ◌>>=◌
  IsQuiet-bind m k qm qk = record { at = λ w. quiet_resume (m w) k qk ∙ qm.at w }

IsQuiet-packet : (make : (ℕ → Bool) → Option Bytes) → IsQuiet (packet make)
unfolding packet
IsQuiet-packet make = record { at = λ w. (IsQuiet-or_raise (make (is_online w))).at w }

IsQuiet-enqueue : (b : Bytes) (p : ℕ) → IsQuiet (enqueue b p)
unfolding enqueue on_player
IsQuiet-enqueue b p = record {
  at = λ w.
      ap (λ f. record w { player = f }) (fun_ext (λ q. update_keeps unqueued w.player p _ q refl));
}

IsQuiet-each : (l : List ℕ) (f : ℕ → Act Unit) → ((x : ℕ) → IsQuiet (f x)) → IsQuiet (each l f)
IsQuiet-each [] f q = IsQuiet-pure tt
IsQuiet-each (x ∷ l) f q = IsQuiet-bind _ _ (q x) (λ u. IsQuiet-each l f q)

IsQuiet-announce : (c : ℕ) → IsQuiet (announce c)
unfolding announce info_packet
IsQuiet-announce c =
    IsQuiet-bind _ _ (IsQuiet-bind _ _ (IsQuiet-gets _) (λ s. IsQuiet-packet _)) (λ b.
      IsQuiet-bind _ _ (IsQuiet-gets _) (λ w.
        IsQuiet-if (w.channel c).is_instance _ _ (IsQuiet-each _ _ (IsQuiet-enqueue b)) (
          IsQuiet-each _ _ (λ p.
            IsQuiet-if (can_read (w.channel c) (w.player p).priv) _ _ (IsQuiet-enqueue b p)
              (IsQuiet-pure tt)))))

pub IsQuiet-welcome : (p c : ℕ) → IsQuiet (welcome p c)
unfolding welcome
IsQuiet-welcome p c = IsQuiet-bind _ _ (IsQuiet-gets _) (λ name.
    IsQuiet-bind _ _ (IsQuiet-packet _) (λ b.
      IsQuiet-bind _ _ (IsQuiet-enqueue b p)
        (λ u. IsQuiet-bind _ _ (IsQuiet-announce c) (λ v. IsQuiet-pure true))))

pub IsQuiet-farewell : (p c : ℕ) (kick : Bool) → IsQuiet (farewell p c kick)
unfolding farewell
IsQuiet-farewell p c kick = IsQuiet-bind _ _ (IsQuiet-gets _) (λ name.
    IsQuiet-bind _ _
      (IsQuiet-if kick _ _ (IsQuiet-bind _ _ (IsQuiet-packet _) (λ b. IsQuiet-enqueue b p))
        (IsQuiet-pure tt))
      (λ u. IsQuiet-announce c))
