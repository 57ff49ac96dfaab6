-- ===== src/Examples/Players.antt =====
-- The theorems on the list of sessions at concrete inputs.
use eunga_py.Prelude.{◌≡◌, ◌≢◌, refl, true, false, none, some, [], ◌∷◌}
use eunga_py.Packets.Utf8.{Str}
use eunga_py.Players.{
  Session, Players, contains, get_token, get_id, get_name, contains_name, append, remove, logout,
}
use eunga_py.Players.Laws.{get-append, get-remove, get_token-logout}

-- a lower-case function for the one name below
abbrev lower : Str → Str
lower s = s

abbrev alice : Session
alice = record {
  object = 1;
  id = 7;
  name = 97 ∷ [];
  token = 116 ∷ [];
  priv = 1;
  name_ko = none;
  name_en = none;
  name_ja = none;
}

abbrev nobody : Players
nobody = record { list = []; by_token = []; by_id = []; by_name = [] }

abbrev alone : Players
alone = record {
  list = alice ∷ [];
  by_token = (alice.token, alice) ∷ [];
  by_id = (7, alice) ∷ [];
  by_name = (alice.name, alice) ∷ [];
}

nobody-empty : contains alice nobody.list ≡ false
unfolding contains
nobody-empty = refl

alone-alice : contains alice alone.list ≡ true
unfolding contains
alone-alice = refl

alone-token : get_token lower alice.token alone ≡ some alice
unfolding get_token
alone-token = refl

alice-token : alice.token ≢ []
alice-token e = absurd (cc)

get-append_example :
    (get_token lower alice.token (append lower alice nobody) ≡ some alice)
    × (get_id lower alice.id (append lower alice nobody) ≡ some alice)
    × (get_name lower alice.name (append lower alice nobody) ≡ some alice)
get-append_example = get-append lower alice nobody nobody-empty

get-remove_example :
    (get_token lower alice.token (remove lower alice alone) ≡ none)
    × (get_id lower alice.id (remove lower alice alone) ≡ none)
    × (contains_name lower alice.name (remove lower alice alone) ≡ false)
    × ((t : Str)
        → t ≢ alice.token
        → get_token lower t (remove lower alice alone) ≡ get_token lower t alone)
get-remove_example = get-remove lower alice alone alone-alice

get_token-logout_example :
    (get_token lower alice.token (logout lower alice alone) ≡ some (record alice { token = [] }))
    × (get_id lower alice.id (logout lower alice alone) ≡ none)
    × (contains_name lower alice.name (logout lower alice alone) ≡ false)
get_token-logout_example = get_token-logout lower alice alone alone-alice alice-token alone-token
