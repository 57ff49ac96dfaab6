-- ===== src/Players.antt =====
-- `Players` of app/objects/collections.py: the list of the sessions with its three dictionaries.
-- `str.lower`, which `make_safe_name` of app/utils.py calls, is a parameter.
pub mod Laws
use Prim.Native.Nat.{bit_and}
use eunga_py.Prelude.{
  ℕ, Bool, true, false, not, ◌&&◌, ◌||◌, Option, none, some, List, [], ◌∷◌, ◌++◌, any, is_empty,
  map, ◌==◌, if◌then◌else◌,
}
use eunga_py.Prelude.Text.{codes, eq_str}
use eunga_py.Packets.Utf8.{Str}

-- The attributes of a player that `Players` reads. A session object has a number of its own, since two
-- objects are the same player only if they are one object.
pub record Session : Type 0 where
  pub object : ℕ
  pub id : ℕ
  pub name : Str
  pub token : Str
  pub priv : ℕ
  pub name_ko : Option Str
  pub name_en : Option Str
  pub name_ja : Option Str

-- a dictionary: the keys with their values, the latest first
abbrev pub lookup : {K A : Type 0} → (K → K → Bool) → K → List (K × A) → Option A
lookup eq k [] = none
lookup eq k ((j, a) ∷ l) = let rest = lookup eq k l in if eq j k then some a else rest

-- `d.pop(k, None)`
abbrev pub pop : {K A : Type 0} → (K → K → Bool) → K → List (K × A) → List (K × A)
pop eq k [] = []
pop eq k ((j, a) ∷ l) = let rest = pop eq k l in if eq j k then rest else (j, a) ∷ rest

abbrev pub eq_nat : ℕ → ℕ → Bool
eq_nat a b = a == b

pub record Players : Type 0 where
  pub list : List Session
  pub by_token : List (Str × Session)
  pub by_id : List (ℕ × Session)
  pub by_name : List (Str × Session)

-- `player in self` of an object
unfoldable pub contains : Session → List Session → Bool
contains p [] = false
contains p (q ∷ l) = q.object == p.object || contains p l

-- `list.remove` of an object that is in the list
unfoldable pub without : Session → List Session → List Session
without p [] = []
without p (q ∷ l) = let rest = without p l in if q.object == p.object then l else q ∷ rest

-- `Players.staff`, `restricted` and `unrestricted`
unfoldable pub select : (Session → Bool) → List Session → List Session
select test [] = []
select test (p ∷ l) = let rest = select test l in if test p then p ∷ rest else rest

unfoldable pub staff : Players → List Session
staff self = select (λ p. not (bit_and p.priv 28672 == 0)) self.list

unfoldable pub restricted : Players → List Session
restricted self = select (λ p. bit_and p.priv 1 == 0) self.list

unfoldable pub unrestricted : Players → List Session
unrestricted self = select (λ p. not (bit_and p.priv 1 == 0)) self.list

abbrev pub set_token : Str → Session → Session
set_token token p = record p { token = token }

-- an entry whose value is the object `p`, after `p.token = token`
abbrev pub assign_entry : {K : Type 0} → Str → Session → K × Session → K × Session
assign_entry token p (k, q) = (k, if q.object == p.object then set_token token q else q)

-- `p.token = token`, which the list and the dictionaries see, since they hold the object
unfoldable pub assign_token : Str → Session → Players → Players
assign_token token p self = record {
  list = map (λ q. if q.object == p.object then set_token token q else q) self.list;
  by_token = map (assign_entry token p) self.by_token;
  by_id = map (assign_entry token p) self.by_id;
  by_name = map (assign_entry token p) self.by_name;
}

abbrev underscore : ℕ → ℕ
underscore c = if c == 32 then 95 else c

module _ (lower : Str → Str) where
  unfoldable pub make_safe_name : Str → Str
  make_safe_name name = map underscore (lower name)

  -- `player in self` of a name
  unfoldable pub contains_name : Str → Players → Bool
  contains_name name self = elim (lookup eq_str (make_safe_name name) self.by_name) [
    | none ↦ false
    | some p ↦ true
  ]

  -- `name and make_safe_name(name) == safe_name`
  abbrev called : Str → Option Str → Bool
  called safe_name none = false
  called safe_name (some name) = not (is_empty name) && eq_str (make_safe_name name) safe_name

  -- the first player with a localised name
  unfoldable pub find_localised : Str → List Session → Option Session
  find_localised safe_name [] = none
  find_localised safe_name (p ∷ l) =
      let rest = find_localised safe_name l in
      if called safe_name p.name_ko || called safe_name p.name_en || called safe_name p.name_ja
      then some p
      else rest

  -- `Players.get` by a token, an id and a name
  unfoldable pub get_token : Str → Players → Option Session
  get_token token self = lookup eq_str token self.by_token

  unfoldable pub get_id : ℕ → Players → Option Session
  get_id id self = lookup eq_nat id self.by_id

  unfoldable pub get_name : Str → Players → Option Session
  get_name name self = elim (lookup eq_str (make_safe_name name) self.by_name) [
    | some p ↦ some p
    | none ↦ find_localised (make_safe_name name) self.list
  ]

  unfoldable pub append : Session → Players → Players
  append p self = if contains p self.list then self else record {
    list = self.list ++ (p ∷ []);
    by_token = (p.token, p) ∷ self.by_token;
    by_id = (p.id, p) ∷ self.by_id;
    by_name = (make_safe_name p.name, p) ∷ self.by_name;
  }

  unfoldable pub remove : Session → Players → Players
  remove p self =
      if contains p self.list
      then record {
        list = without p self.list;
        by_token = pop eq_str p.token self.by_token;
        by_id = pop eq_nat p.id self.by_id;
        by_name = pop eq_str (make_safe_name p.name) self.by_name;
      }
      else self

  -- what `Player.logout` does to the sessions: it sets the token of the object to the empty one, calls what
  -- leaves the players alone (World/Players), and removes the player
  unfoldable pub logout : Session → Players → Players
  logout p self = remove (set_token [] p) (assign_token [] p self)
