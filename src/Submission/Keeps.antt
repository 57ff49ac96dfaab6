-- ===== src/Submission/Keeps.antt =====
-- Predicates on the state of a submission that its actions keep.
use eunga_py.Prelude.{◌≡◌, refl, Bool, true, false, Option, none, some, List, [], ◌∷◌}
use eunga_py.Submission.{
  Reply, fine, broken, conflict, Tables, State, Result, done, raised, Action, pure, or_raise, get,
  modify, when, resume, answer, ◌>>=◌, query,
}

-- A predicate that an action keeps, whether it raises or not.
pub record Keeps {A : Type 0} (P : State → Type 0) (m : Action A) : Type 0 where
  pub apply : (s : State) → P s → P (m s).1

module _ {P : State → Type 0} where
  pub pure-Keeps : {A : Type 0} (v : A) → Keeps P (pure v)
  pure-Keeps v = record { apply = λ s p. p }

  pub or_raise-Keeps : {A : Type 0} (o : Option A) → Keeps P (or_raise o)
  or_raise-Keeps none = record { apply = λ s p. p }
  or_raise-Keeps (some v) = record { apply = λ s p. p }

  resume-keeps :
      {A B : Type 0} (r : Result A) (s : State) (f : A → Action B)
      → P s
      → ((v : A) → Keeps P (f v))
      → P (resume (r, s) f).1
  resume-keeps (done v) s f p k = (k v).apply s p
  resume-keeps (raised e) s f p k = p

  pub bind-Keeps :
      {A B : Type 0} (m : Action A) (f : A → Action B)
      → Keeps P m
      → ((v : A) → Keeps P (f v))
      → Keeps P (m >>= f)
  unfolding ◌>>=◌
  bind-Keeps m f k l = record { apply = λ s p. resume-keeps (m s).0 (m s).1 f (k.apply s p) l }

  -- the state that an action begins with satisfies the predicate
  pub get-Keeps :
      {B : Type 0} (f : State → Action B)
      → ((s : State) → P s → Keeps P (f s))
      → Keeps P (get >>= f)
  unfolding ◌>>=◌
  get-Keeps f k = record { apply = λ s p. (k s p).apply s p }

  pub modify-Keeps : (f : State → State) → ((s : State) → P s → P (f s)) → Keeps P (modify f)
  modify-Keeps f k = record { apply = k }

  pub when-Keeps : (b : Bool) (m : Action (Unit {0})) → Keeps P m → Keeps P (when b m)
  when-Keeps true m k = k
  when-Keeps false m k = pure-Keeps tt

-- a predicate on the objects alone
pub record IsFree (P : State → Type 0) : Type 0 where
  pub move :
      (s : State) (t : Tables) (r : List Reply) → P s → P (record s { tables = t; replies = r })

answer-keeps :
    {A : Type 0} {P : State → Type 0}
    → IsFree P
    → (q : Tables → A × Tables) (r : List Reply) (s : State) → P s
    → P (answer q r s).1
answer-keeps free q [] s p = free.move s (q s.tables).1 s.replies p
answer-keeps free q (fine ∷ rest) s p = free.move s (q s.tables).1 rest p
answer-keeps free q (broken ∷ rest) s p = free.move s s.tables rest p
answer-keeps free q (conflict ∷ rest) s p = free.move s s.tables rest p

pub query-Keeps :
    {A : Type 0} {P : State → Type 0} → IsFree P → (q : Tables → A × Tables) → Keeps P (query q)
unfolding query
query-Keeps free q = record { apply = λ s p. answer-keeps free q s.replies s p }

-- From `P` an action leads to `R`, whether it raises or not.
pub record Leads {A : Type 0} (P R : State → Type 0) (m : Action A) : Type 0 where
  pub apply : (s : State) → P s → R (m s).1

module _ {P R : State → Type 0} (weaker : (s : State) → P s → R s) where
  pub Keeps-Leads : {A : Type 0} {m : Action A} → Keeps R m → Leads P R m
  Keeps-Leads k = record { apply = λ s p. k.apply s (weaker s p) }

  or_raise-leads :
      {A B : Type 0} (o : Option A) (f : A → Action B)
      → ((v : A) → o ≡ some v → Leads P R (f v))
      → (s : State) → P s
      → R (resume (or_raise o s) f).1
  or_raise-leads none f k s p = weaker s p
  or_raise-leads (some v) f k s p = (k v refl).apply s p

  -- a step that may raise and gives a value, which the rest may use
  pub or_raise-Leads :
      {A B : Type 0} (o : Option A) (f : A → Action B)
      → ((v : A) → o ≡ some v → Leads P R (f v))
      → Leads P R (or_raise o >>= f)
  unfolding ◌>>=◌
  or_raise-Leads o f k = record { apply = or_raise-leads o f k }

  query-leads :
      {A B : Type 0} (Q : State → Type 0) (q : Tables → A × Tables) (f : A → Action B)
      → ((s : State) (r : List Reply) → R s → R (record s { replies = r }))
      → ((s : State) (r : List Reply) → P s → Q (record s { tables = (q s.tables).1; replies = r }))
      → ((v : A) → Leads Q R (f v))
      → (r : List Reply) (s : State) → P s
      → R (resume (answer q r s) f).1
  query-leads Q q f drop to k [] s p = (k (q s.tables).0).apply _ (to s s.replies p)
  query-leads Q q f drop to k (fine ∷ r) s p = (k (q s.tables).0).apply _ (to s r p)
  query-leads Q q f drop to k (broken ∷ r) s p = drop s r (weaker s p)
  query-leads Q q f drop to k (conflict ∷ r) s p = drop s r (weaker s p)

  -- a statement after which `Q` holds, unless it raises
  pub query-Leads :
      {A B : Type 0} (Q : State → Type 0) (q : Tables → A × Tables) (f : A → Action B)
      → ((s : State) (r : List Reply) → R s → R (record s { replies = r }))
      → ((s : State) (r : List Reply) → P s → Q (record s { tables = (q s.tables).1; replies = r }))
      → ((v : A) → Leads Q R (f v))
      → Leads P R (query q >>= f)
  unfolding ◌>>=◌ query
  query-Leads Q q f drop to k = record { apply = λ s p. query-leads Q q f drop to k s.replies s p }

pub get-Leads :
    {B : Type 0} {P R : State → Type 0} (f : State → Action B)
    → ((s : State) → P s → Leads P R (f s))
    → Leads P R (get >>= f)
unfolding ◌>>=◌
get-Leads f k = record { apply = λ s p. (k s p).apply s p }

pub Leads-Keeps : {A : Type 0} {P : State → Type 0} {m : Action A} → Leads P P m → Keeps P m
Leads-Keeps l = record { apply = l.apply }

-- A predicate that no answer of the database spoils, nor a change of other tables than `scores`.
pub record IsOfScores (P : State → Type 0) : Type 0 where
  pub drop : (s : State) (r : List Reply) → P s → P (record s { replies = r })
  pub others :
      (s : State) (t : Tables) → t.scores ≡ s.tables.scores → P s → P (record s { tables = t })

module _ {A : Type 0} {P : State → Type 0} (of_scores : IsOfScores P)
    (q : Tables → A × Tables) where
  open of_scores use {drop, others}

  answer-other :
      ((t : Tables) → (q t).1.scores ≡ t.scores)
      → (r : List Reply) (s : State) → P s
      → P (answer q r s).1
  answer-other same [] s p = others s (q s.tables).1 (same s.tables) p
  answer-other same (fine ∷ r) s p = drop _ r (others s (q s.tables).1 (same s.tables) p)
  answer-other same (broken ∷ r) s p = drop s r p
  answer-other same (conflict ∷ r) s p = drop s r p

  -- a statement on other tables
  pub other-Keeps : ((t : Tables) → (q t).1.scores ≡ t.scores) → Keeps P (query q)
  unfolding query
  other-Keeps same = record { apply = λ s p. answer-other same s.replies s p }
