-- ===== src/Prelude/Options.antt =====
-- A chain of steps that may raise, where nothing is written.
use mathlib.Core.Option.{Option, none, some}
use mathlib.Core.Path.{◌≡◌, refl}

infixl 5 ◌>>=◌
abbrev pub ◌>>=◌ : {A B : Type 0} → Option A → (A → Option B) → Option B
none >>= f = none
some a >>= f = f a

pub some_inj : {A : Type 0} {a b : A} → ◌≡◌ {A = Option A} (some a) (some b) → a ≡ b
some_inj e = cc

-- a chain that ends has made its first step
pub bind_some :
    {A B : Type 0} (o : Option A) (f : A → Option B) {b : B}
    → ◌≡◌ {A = Option B} (o >>= f) (some b)
    → (a : A) × (◌≡◌ {A = Option A} o (some a)) × (◌≡◌ {A = Option B} (f a) (some b))
bind_some none f e = absurd (cc)
bind_some (some a) f e = (a, refl, e)
