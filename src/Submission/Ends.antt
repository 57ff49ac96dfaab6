-- ===== src/Submission/Ends.antt =====
-- What holds where an action of a submission ends without an exception.
use mathlib.Core.Path.{subst}
use eunga_py.Prelude.{◌≡◌, refl, ap, Option, none, some, List, [], ◌∷◌}
use eunga_py.Submission.{
  Reply, fine, broken, conflict, Tables, State, Result, done, raised, Action, or_raise, get, modify,
  resume, answer, ◌>>=◌, query,
}
use eunga_py.Submission.Keeps.{Keeps}

-- From `P` the action, if it ends, ends in `Q`.
pub record Ends {A : Type 0} (P Q : State → Type 0) (m : Action A) : Type 0 where
  pub apply : (s : State) → P s → (a : A) (t : State) → m s ≡ (done a, t) → Q t

pub state_of :
    {A : Type 0} {r r' : Result A} {s t : State} → ◌≡◌ {A = Result A × State} (r, s) (r', t) → s ≡ t
state_of q = ap (λ p. p.1) q

module _ {P : State → Type 0} (Q : State → Type 0) where
  answered :
      {A : Type 0} (q : Tables → A × Tables)
      → ((s : State) (r : List Reply) → P s → Q (record s { tables = (q s.tables).1; replies = r }))
      → (r : List Reply) (s : State) → P s
      → (a : A) (t : State) → answer q r s ≡ (done a, t)
      → Q t
  answered q k [] s p a t e = subst Q (ap (λ r. r.1) e) (k s s.replies p)
  answered q k (fine ∷ l) s p a t e = subst Q (ap (λ r. r.1) e) (k s l p)
  answered q k (broken ∷ l) s p a t e = absurd (cc)
  answered q k (conflict ∷ l) s p a t e = absurd (cc)

module _ {P Q : State → Type 0} where
  pub Keeps-Ends : {A : Type 0} {m : Action A} → Keeps P m → ((s : State) → P s → Q s) → Ends P Q m
  Keeps-Ends k f = record { apply = λ s p a t e. f t (subst P (ap (λ r. r.1) e) (k.apply s p)) }

  pub modify-Ends : (f : State → State) → ((s : State) → P s → Q (f s)) → Ends P Q (modify f)
  modify-Ends f k = record { apply = λ s p a t e. subst Q (ap (λ r. r.1) e) (k s p) }

  pub query-Ends :
      {A : Type 0} (q : Tables → A × Tables)
      → ((s : State) (r : List Reply) → P s → Q (record s { tables = (q s.tables).1; replies = r }))
      → Ends P Q (query q)
  unfolding query
  query-Ends q k = record { apply = λ s p. answered Q q k s.replies s p }

  chosen :
      {A B : Type 0} (o : Option A) (f : A → Action B)
      → ((v : A) → o ≡ some v → Ends P Q (f v))
      → (s : State) → P s
      → (b : B) (t : State) → resume (or_raise o s) f ≡ (done b, t)
      → Q t
  chosen none f k s p b t e = absurd (cc)
  chosen (some v) f k s p b t e = (k v refl).apply s p b t e

  pub or_raise-Ends :
      {A B : Type 0} (o : Option A) (f : A → Action B)
      → ((v : A) → o ≡ some v → Ends P Q (f v))
      → Ends P Q (or_raise o >>= f)
  unfolding ◌>>=◌
  or_raise-Ends o f k = record { apply = chosen o f k }

  pub get-Ends :
      {B : Type 0} (f : State → Action B)
      → ((s : State) → P s → Ends P Q (f s))
      → Ends P Q (get >>= f)
  unfolding ◌>>=◌
  get-Ends f k = record { apply = λ s p. (k s p).apply s p }

module _ {Q R : State → Type 0} where
  resumed :
      {A B : Type 0} (r : Result A) (s : State) (f : A → Action B)
      → ((a : A) (t : State) → ◌≡◌ {A = Result A × State} (r, s) (done a, t) → Q t)
      → ((a : A) → Ends Q R (f a))
      → (b : B) (t : State) → resume (r, s) f ≡ (done b, t)
      → R t
  resumed (done a) s f first rest b t e = (rest a).apply s (first a s refl) b t e
  resumed (raised x) s f first rest b t e = absurd (cc)

module _ {P Q R : State → Type 0} where
  pub bind-Ends :
      {A B : Type 0} (m : Action A) (f : A → Action B)
      → Ends P Q m
      → ((a : A) → Ends Q R (f a))
      → Ends P R (m >>= f)
  unfolding ◌>>=◌
  bind-Ends m f first rest = record {
    apply = λ s p. resumed (m s).0 (m s).1 f (first.apply s p) rest;
  }

-- From `P` the action, if it ends with a value, ends in `Q` of the value.
pub record Gives {A : Type 0} (P : State → Type 0) (Q : A → State → Type 0) (m : Action A)
    : Type 0 where
  pub apply : (s : State) → P s → (a : A) (t : State) → m s ≡ (done a, t) → Q a t

module _ {A : Type 0} {P : State → Type 0} (Q : A → State → Type 0) where
  given :
      (o : Option A)
      → ((v : A) → o ≡ some v → (s : State) → P s → Q v s)
      → (s : State) → P s
      → (a : A) (t : State) → or_raise o s ≡ (done a, t)
      → Q a t
  given none k s p a t e = absurd (cc)
  given (some v) k s p a t e =
      let same : v ≡ a = cc in
      subst (λ w. Q w t) same (subst (Q v) (ap (λ r. r.1) e) (k v refl s p))

  pub or_raise-Gives :
      (o : Option A) → ((v : A) → o ≡ some v → (s : State) → P s → Q v s) → Gives P Q (or_raise o)
  or_raise-Gives o k = record { apply = given o k }

  pub get-Gives :
      (f : State → Action A) → ((s : State) → P s → Gives P Q (f s)) → Gives P Q (get >>= f)
  unfolding ◌>>=◌
  get-Gives f k = record { apply = λ s p. (k s p).apply s p }

  later :
      {B : Type 0} (f : B → Action A)
      → ((b : B) → Gives P Q (f b))
      → (r : Result B) (s : State) → P s
      → (a : A) (t : State) → resume (r, s) f ≡ (done a, t)
      → Q a t
  later f k (done b) s p a t e = (k b).apply s p a t e
  later f k (raised x) s p a t e = absurd (cc)

  pub bind-Gives :
      {B : Type 0} (m : Action B) (f : B → Action A)
      → Keeps P m
      → ((b : B) → Gives P Q (f b))
      → Gives P Q (m >>= f)
  unfolding ◌>>=◌
  bind-Gives m f keeps k = record { apply = λ s p. later f k (m s).0 (m s).1 (keeps.apply s p) }

module _ {A B : Type 0} {R : State → Type 0} (Q : A → State → Type 0) where
  given_resumed :
      (r : Result A) (s : State) (f : A → Action B)
      → ((a : A) (t : State) → ◌≡◌ {A = Result A × State} (r, s) (done a, t) → Q a t)
      → ((a : A) → Ends (Q a) R (f a))
      → (b : B) (t : State) → resume (r, s) f ≡ (done b, t)
      → R t
  given_resumed (done a) s f first rest b t e = (rest a).apply s (first a s refl) b t e
  given_resumed (raised x) s f first rest b t e = absurd (cc)

  pub Gives-Ends :
      {P : State → Type 0} (m : Action A) (f : A → Action B)
      → Gives P Q m
      → ((a : A) → Ends (Q a) R (f a))
      → Ends P R (m >>= f)
  unfolding ◌>>=◌
  Gives-Ends m f first rest = record {
    apply = λ s p. given_resumed (m s).0 (m s).1 f (first.apply s p) rest;
  }
