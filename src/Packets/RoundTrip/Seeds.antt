-- ===== src/Packets/RoundTrip/Seeds.antt =====
-- The seed of a match: read as a signed integer, written as an unsigned one.
use eunga_py.Prelude.{ℕ, ◌≡◌, refl, Bool, Option, none, some}
use eunga_py.Prelude.Int.{negsuc}
use eunga_py.Match.Types.{Match}
use eunga_py.Packets.Integers.{Bytes}
use eunga_py.Packets.Writer.{◌<>◌, write_u32_of}
use eunga_py.Packets.Writer.Structs.{write_match}

<>-none : (w : Option Bytes) → (w <> none) ≡ none
unfolding ◌<>◌
<>-none none = refl
<>-none (some b) = refl

negative_seed : (n : ℕ) → write_u32_of (negsuc n) ≡ none
unfolding write_u32_of
negative_seed n = refl

-- The state of a match whose seed is negative cannot be written, whatever the rest of it.
pub write_match-negative_seed :
    (online : ℕ → Bool) (m : Match) (send_pw : Bool) (n : ℕ)
    → m.seed ≡ negsuc n
    → write_match online m send_pw ≡ none
unfolding write_match
write_match-negative_seed online m send_pw n h = simp (h, negative_seed, <>-none)
