-- ===== src/World/Ties.antt =====
-- The ties between the sessions of app/state/sessions.py: channels and their members, hosts and their
-- spectators, matches and the players in their slots.
pub mod Watch
pub mod Seats
pub mod Join
pub mod Leave
pub mod Handlers
pub mod Runs
use eunga_py.Prelude.{
  ℕ, ◌+◌, ◌≤◌, ◌≡◌, refl, sym, ap, ◌∙◌, Bool, true, false, Option, none, some, List, [], ◌∷◌, arith,
  if◌then◌else◌,
}
use eunga_py.Prelude.Actions.{Result, done, raised, pure, resume, ◌>>=◌, ◌>>◌}
use eunga_py.Match.Types.{Slot}
use eunga_py.World.{World, Act, gets}
use eunga_py.World.Count.{count, here}
use eunga_py.World.Calm.{IsKnown, IsCalmStep, IsCalm}

-- in how many slots a player sits
abbrev pub seats : ℕ → List Slot → ℕ
seats p [] = 0
seats p (s ∷ l) = here s.player p + seats p l

-- The members of a channel have it among theirs; the spectators of a host are those who spectate it, each
-- once; and who sits in a match, in one slot, has it as the match.
pub record IsConsistent (w : World) : Type 0 where
  pub known : IsKnown w
  pub watched : (p q : ℕ) → count q (w.player p).spectators ≡ here (w.player q).spectating p
  pub seated : (p t : ℕ) → seats p (w.table t).state.slots ≤ here (w.player p).match t

pub calm_consistent : (w w' : World) → IsConsistent w → IsCalmStep w w' → IsConsistent w'
calm_consistent w w' h s = record {
  known = s.keeps;
  watched = λ p q.
      ap (count q) (s.spectators p) ∙ h.watched p q ∙ ap (λ o. here o p) (sym (s.spectating q));
  seated =
      λ p t. omega (arith, h.seated p t, ap (λ o. here o t) (s.seat p), ap (seats p) (s.slots t));
}

-- From consistent states where `P` holds the action ends in one, whether it returns or raises.
pub record Lands (P : World → Type 0) {A : Type 0} (m : Act A) : Type 0 where
  pub at : (w : World) → IsConsistent w → P w → IsConsistent (m w).1

abbrev pub Any : World → Type 0
Any w = Unit

abbrev pub Keeps : {A : Type 0} → Act A → Type 0
Keeps m = Lands Any m

-- a condition that calm steps leave alone
abbrev pub IsStable : (World → Type 0) → Type 0
IsStable P = (w w' : World) → IsCalmStep w w' → P w → P w'

pub Lands-calm : {P : World → Type 0} {A : Type 0} (m : Act A) → IsCalm m → Lands P m
Lands-calm m c = record { at = λ w h p. calm_consistent w _ h (c.at w h.known) }

module _ (P : World → Type 0) (stable : IsStable P) {A B : Type 0} where
  lands_resume :
      (w : World) (x : Result A × World) (k : A → Act B)
      → IsConsistent w
      → P w
      → IsCalmStep w x.1
      → ((a : A) → Lands P (k a))
      → IsConsistent (resume x k).1
  lands_resume w (done a, v) k h p s tk = (tk a).at v (calm_consistent w v h s) (stable w v s p)
  lands_resume w (raised, v) k h p s tk = calm_consistent w v h s

  pub Lands-bind :
      (m : Act A) (k : A → Act B) → IsCalm m → ((a : A) → Lands P (k a)) → Lands P (m >>= k)
  unfolding ◌>>=◌
  Lands-bind m k c tk = record { at = λ w h p. lands_resume w (m w) k h p (c.at w h.known) tk }

module _ {A B : Type 0} where
  pub keeps_resume :
      (x : Result A × World) (k : A → Act B)
      → IsConsistent x.1
      → ((a : A) → Keeps (k a))
      → IsConsistent (resume x k).1
  keeps_resume (done a, v) k h tk = (tk a).at v h tt
  keeps_resume (raised, v) k h tk = h

  pub Keeps-bind : (m : Act A) (k : A → Act B) → Keeps m → ((a : A) → Keeps (k a)) → Keeps (m >>= k)
  unfolding ◌>>=◌
  Keeps-bind m k c tk = record { at = λ w h p. keeps_resume (m w) k (c.at w h tt) tk }

  -- `gets f` and then what depends on the state it read
  pub Lands-read :
      {P : World → Type 0} (f : World → A) (k : A → Act B)
      → ((w : World) → IsConsistent w → P w → IsConsistent (k (f w) w).1)
      → Lands P (gets f >>= k)
  unfolding ◌>>=◌
  Lands-read f k h = record { at = h }

  -- the order in which two binds are taken
  pub resume_assoc :
      {C : Type 0} (x : Result A × World) (k : A → Act B) (j : B → Act C)
      → resume (resume x k) j ≡ resume x (λ a s. resume (k a s) j)
  resume_assoc (done a, v) k j = refl
  resume_assoc (raised, v) k j = refl

module _ {P : World → Type 0} {A : Type 0} where
  pub Lands-if : (b : Bool) (m n : Act A) → Lands P m → Lands P n → Lands P (if b then m else n)
  Lands-if true m n tm tn = tm
  Lands-if false m n tm tn = tn

  pub Lands-option :
      {B : Type 0} (o : Option B) (m : Act A) (k : B → Act A)
      → Lands P m
      → ((b : B) → Lands P (k b))
      → Lands P (elim o [ none ↦ m | some b ↦ k b ])
  Lands-option none m k tm tk = tm
  Lands-option (some b) m k tm tk = tk b
