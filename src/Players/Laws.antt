-- ===== src/Players/Laws.antt =====
-- `append`, `remove` and `get` of `Players` in app/objects/collections.py.
use mathlib.Core.Path.{subst}
use eunga_py.Prelude.{
  map, ◌≡◌, ◌≢◌, refl, sym, ap, ◌∙◌, Bool, true, false, ◌&&◌, none, some, List, [], ◌∷◌, ◌++◌, ◌==◌,
  ==_iff, ==-refl, if◌then◌else◌, Bool-cases, inl, inr,
}
use eunga_py.Prelude.Text.{eq_str}
use eunga_py.Prelude.Options.{some_inj}
use eunga_py.Packets.Utf8.{Str}
use eunga_py.Players.{
  Session, Players, lookup, pop, eq_nat, contains, without, make_safe_name, get_token, get_id,
  get_name, find_localised, contains_name, append, remove, set_token, assign_entry, assign_token,
  logout,
}

eq_str_refl : (s : Str) → eq_str s s ≡ true
eq_str_refl [] = refl
eq_str_refl (c ∷ s) = ap (λ b. b && eq_str s s) (==-refl c) ∙ eq_str_refl s

eq_str-eq : (s t : Str) → eq_str s t ≡ true → s ≡ t
eq_str-eq [] [] e = refl
eq_str-eq [] (d ∷ t) e = absurd (cc)
eq_str-eq (c ∷ s) [] e = absurd (cc)
eq_str-eq (c ∷ s) (d ∷ t) e = head (c == d) refl e (λ h. eq_str-eq s t h)
  where
    head :
        (b : Bool)
        → (c == d) ≡ b
        → (b && eq_str s t) ≡ true
        → (eq_str s t ≡ true → s ≡ t)
        → (c ∷ s) ≡ (d ∷ t)
    head true k h rec = cc ((==_iff c d).0 k, rec h)
    head false k h rec = absurd (cc)

module _ {K A : Type 0} (eq : K → K → Bool) (k : K) where
  pop_front :
      (j : K) (a : A) (l : List (K × A)) (b : Bool)
      → lookup eq k (pop eq k l) ≡ none
      → eq j k ≡ b
      → lookup eq k (if b then pop eq k l else (j, a) ∷ pop eq k l) ≡ none
  pop_front j a l true h e = h
  pop_front j a l false h e = ap (λ b. if b then some a else lookup eq k (pop eq k l)) e ∙ h

  lookup-pop : (l : List (K × A)) → lookup eq k (pop eq k l) ≡ none
  lookup-pop [] = refl
  lookup-pop ((j, a) ∷ l) = pop_front j a l (eq j k) (lookup-pop l) refl

  module _ (j : K) (ne : (i : K) → eq i j ≡ true → eq i k ≡ false) where
    other_front :
        (i : K) (a : A) (l : List (K × A)) (b : Bool)
        → lookup eq k (pop eq j l) ≡ lookup eq k l
        → eq i j ≡ b
        → lookup eq k (if b then pop eq j l else (i, a) ∷ pop eq j l)
          ≡ (if eq i k then some a else lookup eq k l)
    other_front i a l true h e = h ∙ ap (λ b. if b then some a else lookup eq k l) (sym (ne i e))
    other_front i a l false h e = ap (λ o. if eq i k then some a else o) h

    lookup-pop_ne : (l : List (K × A)) → lookup eq k (pop eq j l) ≡ lookup eq k l
    lookup-pop_ne [] = refl
    lookup-pop_ne ((i, a) ∷ l) = other_front i a l (eq i j) (lookup-pop_ne l) refl

-- an entry that is the object has no token any more
lookup-assign :
    (p : Session) (l : List (Str × Session))
    → lookup eq_str p.token l ≡ some p
    → lookup eq_str p.token (map (assign_entry [] p) l) ≡ some (set_token [] p)
lookup-assign p [] e = absurd (cc)
lookup-assign p ((k, q) ∷ l) e = elim (Bool-cases (eq_str k p.token)) [
  | inl f ↦ let same : q ≡ p = some_inj (sym (rw f) ∙ e) in rw (f, same, ==-refl p.object)
  | inr f ↦ rw f (lookup-assign p l (sym (rw f) ∙ e))
]

other_key : (j k : Str) → j ≢ k → (i : Str) → eq_str i j ≡ true → eq_str i k ≡ false
other_key j k ne i e = elim (Bool-cases (eq_str i k)) [
  | inl h ↦ absurd (ne (sym (eq_str-eq i j e) ∙ eq_str-eq i k h))
  | inr h ↦ h
]

module _ (lower : Str → Str) (p : Session) (self : Players) where
  abbrev safe : Str
  safe = make_safe_name lower p.name

  -- `self` after `append`, after `remove`, and after `remove` in `logout`
  abbrev added : Players
  added = record {
    list = self.list ++ (p ∷ []);
    by_token = (p.token, p) ∷ self.by_token;
    by_id = (p.id, p) ∷ self.by_id;
    by_name = (safe, p) ∷ self.by_name;
  }

  abbrev taken : Players
  taken = record {
    list = without p self.list;
    by_token = pop eq_str p.token self.by_token;
    by_id = pop eq_nat p.id self.by_id;
    by_name = pop eq_str safe self.by_name;
  }

  abbrev Found : Players → Type 0
  Found s =
      (get_token lower p.token s ≡ some p)
      × (get_id lower p.id s ≡ some p)
      × (get_name lower p.name s ≡ some p)

  abbrev Lost : Players → Type 0
  Lost s =
      (get_token lower p.token s ≡ none)
      × (get_id lower p.id s ≡ none)
      × (contains_name lower p.name s ≡ false)
      × ((t : Str) → t ≢ p.token → get_token lower t s ≡ get_token lower t self)

  -- A player who is not in the list is found after `append` by the token, the id and the name.
  pub get-append :
      contains p self.list ≡ false
      → (get_token lower p.token (append lower p self) ≡ some p)
        × (get_id lower p.id (append lower p self) ≡ some p)
        × (get_name lower p.name (append lower p self) ≡ some p)
  unfolding append get_token get_id get_name
  get-append h = subst Found (sym (ap (λ b. if b then self else added) h)) (
    ap (λ b. if b then some p else lookup eq_str p.token self.by_token) (eq_str_refl p.token),
    ap (λ b. if b then some p else lookup eq_nat p.id self.by_id) (==-refl p.id),
    ap
        (λ b. elim (if b then some p else lookup eq_str safe self.by_name) [
          | some q ↦ some q
          | none ↦ find_localised lower safe added.list
        ])
        (eq_str_refl safe),
  )

  -- A player in the list is not found any more after `remove` by the token, the id or the safe name, and
  -- any other token leads to the player it led to.
  pub get-remove :
      contains p self.list ≡ true
      → (get_token lower p.token (remove lower p self) ≡ none)
        × (get_id lower p.id (remove lower p self) ≡ none)
        × (contains_name lower p.name (remove lower p self) ≡ false)
        × ((t : Str)
            → t ≢ p.token
            → get_token lower t (remove lower p self) ≡ get_token lower t self)
  unfolding remove get_token get_id contains_name
  get-remove h = subst Lost (sym (ap (λ b. if b then taken else self) h)) (
    lookup-pop eq_str p.token self.by_token,
    lookup-pop eq_nat p.id self.by_id,
    ap (λ o. elim o [ none ↦ false | some q ↦ true ]) (lookup-pop eq_str safe self.by_name),
    λ t ne. lookup-pop_ne eq_str t p.token (other_key p.token t (λ e. ne (sym e))) self.by_token,
  )

  abbrev assigned : Players
  assigned = assign_token [] p self

  -- the player is in the list still when its token is gone
  contains-assign :
      (l : List Session)
      → contains (set_token [] p) (map (λ q. if q.object == p.object then set_token [] q else q) l)
        ≡ contains p l
  unfolding contains
  contains-assign [] = refl
  contains-assign (q ∷ l) = elim (Bool-cases (q.object == p.object)) [
    | inl e ↦ rw (e, e)
    | inr e ↦ rw (e, e) (contains-assign l)
  ]

  -- `logout` takes the player out as what it is by then, without its token
  after_logout :
      contains p self.list ≡ true
      → logout lower p self ≡ record {
        list = without (set_token [] p) assigned.list;
        by_token = pop eq_str [] assigned.by_token;
        by_id = pop eq_nat p.id assigned.by_id;
        by_name = pop eq_str safe assigned.by_name;
      }
  unfolding logout remove assign_token
  after_logout h = rw (contains-assign self.list, h)

  -- `logout` sets the token to the empty one before it removes the player. So the token that a player
  -- in the list had still leads to the player afterwards, who has no token by then, while the id and
  -- the safe name lead to nobody; that is, if the token was not empty and led to the player before.
  pub get_token-logout :
      contains p self.list ≡ true
      → p.token ≢ []
      → get_token lower p.token self ≡ some p
      → (get_token lower p.token (logout lower p self) ≡ some (set_token [] p))
        × (get_id lower p.id (logout lower p self) ≡ none)
        × (contains_name lower p.name (logout lower p self) ≡ false)
  unfolding get_token get_id contains_name assign_token
  get_token-logout h ne found =
      subst
        (λ (s : Players).
          (get_token lower p.token s ≡ some (set_token [] p))
          × (get_id lower p.id s ≡ none)
          × (contains_name lower p.name s ≡ false))
        (sym (after_logout h))
        (
          lookup-pop_ne eq_str p.token [] (other_key [] p.token (λ e. ne (sym e))) assigned.by_token
              ∙ lookup-assign p self.by_token found,
          lookup-pop eq_nat p.id assigned.by_id,
          ap (λ o. elim o [ none ↦ false | some q ↦ true ])
              (lookup-pop eq_str safe assigned.by_name),
        )
