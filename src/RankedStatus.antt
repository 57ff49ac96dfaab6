-- ===== src/RankedStatus.antt =====
-- app/constants/beatmap_statuses.py.
use eunga_py.Prelude.{◌≡◌, refl, Option, none, some, List, [], ◌∷◌, if◌then◌else◌, ◌⊎◌, inl, inr}
use eunga_py.Prelude.Text.{Str, codes, eq_str}
use eunga_py.Prelude.Int.{ℤ, pos, negsuc, eq_ℤ}

pub data RankedStatus : Type 0 where
  not_submitted pending update_available ranked approved qualified loved : RankedStatus

-- `osu_api`, a KeyError for the statuses that osu!api does not have
unfoldable pub osu_api : RankedStatus → Option ℤ
osu_api pending = some (pos 0)
osu_api ranked = some (pos 1)
osu_api approved = some (pos 2)
osu_api qualified = some (pos 3)
osu_api loved = some (pos 4)
osu_api _ = none

-- a `defaultdict` with `UpdateAvailable` for what is missing
abbrev find_status : ℤ → List (ℤ × RankedStatus) → RankedStatus
find_status n [] = update_available
find_status n ((k, s) ∷ rest) = let later = find_status n rest in if eq_ℤ k n then s else later

unfoldable pub from_osuapi : ℤ → RankedStatus
from_osuapi n = find_status n (
    (negsuc 1, pending)
    ∷ (negsuc 0, pending)
    ∷ (pos 0, pending)
    ∷ (pos 1, ranked)
    ∷ (pos 2, approved)
    ∷ (pos 3, qualified)
    ∷ (pos 4, loved)
    ∷ [])

unfoldable pub from_osudirect : ℤ → RankedStatus
from_osudirect n = find_status n (
    (pos 0, ranked)
    ∷ (pos 2, pending)
    ∷ (pos 3, qualified)
    ∷ (pos 5, pending)
    ∷ (pos 7, ranked)
    ∷ (pos 8, loved)
    ∷ [])

-- `__str__`
unfoldable pub status_name : RankedStatus → Str
status_name not_submitted = codes "Unsubmitted"
status_name pending = codes "Unranked"
status_name update_available = codes "Outdated"
status_name ranked = codes "Ranked"
status_name approved = codes "Approved"
status_name qualified = codes "Qualified"
status_name loved = codes "Loved"

abbrev find_name : Str → List (Str × RankedStatus) → RankedStatus
find_name key [] = update_available
find_name key ((k, s) ∷ rest) = let later = find_name key rest in if eq_str k key then s else later

unfoldable pub from_str : Str → RankedStatus
from_str status_str = find_name status_str (
    (codes "pending", pending)
    ∷ (codes "ranked", ranked)
    ∷ (codes "approved", approved)
    ∷ (codes "qualified", qualified)
    ∷ (codes "loved", loved)
    ∷ [])

-- A status either has no osu!api value, and is then one of the two that osu!api does not know, or it is
-- the one that its osu!api value converts back to.
pub from_osuapi-osu_api :
    (s : RankedStatus)
    → ((osu_api s ≡ none) × ((s ≡ not_submitted) ⊎ (s ≡ update_available)))
      ⊎ ((n : ℤ) × (osu_api s ≡ some n) × (from_osuapi n ≡ s))
unfolding osu_api from_osuapi
from_osuapi-osu_api not_submitted = inl (refl, inl refl)
from_osuapi-osu_api update_available = inl (refl, inr refl)
from_osuapi-osu_api pending = inr (pos 0, refl, refl)
from_osuapi-osu_api ranked = inr (pos 1, refl, refl)
from_osuapi-osu_api approved = inr (pos 2, refl, refl)
from_osuapi-osu_api qualified = inr (pos 3, refl, refl)
from_osuapi-osu_api loved = inr (pos 4, refl, refl)
