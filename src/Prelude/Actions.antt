-- ===== src/Prelude/Actions.antt =====
-- Actions on a state that may raise: what was written before an exception stays written.
use mathlib.Core.Option.{Option, none, some}

pub data Result (A : Type 0) : Type 0 where
  done : A → Result A
  raised : Result A

abbrev pub Action : Type 0 → Type 0 → Type 0
Action S A = S → Result A × S

module _ {S : Type 0} where
  abbrev pub pure : {A : Type 0} → A → Action S A
  pure a s = (done a, s)

  abbrev pub raise : {A : Type 0} → Action S A
  raise s = (raised, s)

  -- an `Option` whose `none` is an exception
  abbrev pub or_raise : {A : Type 0} → Option A → Action S A
  or_raise none s = (raised, s)
  or_raise (some a) s = (done a, s)

  abbrev pub resume : {A B : Type 0} → Result A × S → (A → Action S B) → Result B × S
  resume (done a, s) f = f a s
  resume (raised, s) f = (raised, s)

infixl 5 ◌>>=◌ ◌>>◌
unfoldable pub ◌>>=◌ : {S A B : Type 0} → Action S A → (A → Action S B) → Action S B
◌>>=◌ m f s = resume (m s) f

abbrev pub ◌>>◌ : {S A B : Type 0} → Action S A → Action S B → Action S B
m >> k = m >>= λ _. k
