-- ===== src/World/Cells.antt =====
-- The cells of `Matches` in app/objects/collections.py, and the queue of packets of a player in
-- app/objects/player.py.
use mathlib.Core.Path.{subst}
use eunga_py.Prelude.{
  ℕ, zero, suc, ◌≡◌, ◌≢◌, ◌<◌, refl, sym, ap, ◌∙◌, Bool, true, false, Option, none, some, List, [],
  ◌∷◌, ◌++◌, append_assoc, append-nil, is_empty, length, get_elem?, set, ◌==◌, ==-refl, arith,
  if◌then◌else◌,
}
use eunga_py.Prelude.Actions.{done, pure, ◌>>=◌, ◌>>◌}
use eunga_py.Packets.Integers.{Bytes}
use eunga_py.World.{World, on_player, enqueue}
use eunga_py.World.Count.{update_same, some_inj}
use eunga_py.World.Matches.{free_cell, clear_cell}
use eunga_py.World.Players.{joined, dequeue}

-- the first free cell
abbrev IsFirst : List (Option ℕ) → ℕ → Type 0
IsFirst l i =
    (i < length l) × (get_elem? l i ≡ some none) × ((j : ℕ) → j < i → get_elem? l j ≢ some none)

behind-IsFirst : (u k : ℕ) (l : List (Option ℕ)) → IsFirst l k → IsFirst (some u ∷ l) (suc k)
behind-IsFirst u k l (lt, at, least) = (omega (arith, lt), at, earlier)
  where
    earlier : (j : ℕ) → j < suc k → get_elem? (some u ∷ l) j ≢ some none
    earlier zero h = λ e. absurd (cc)
    earlier (suc j) h = least j (omega (arith, h))

-- the answer for a list with a match in front
abbrev behind : Option ℕ → Option ℕ
behind o = elim o [ none ↦ none | some i ↦ some (suc i) ]

behind-some : (o : Option ℕ) (i : ℕ) → behind o ≡ some i → (k : ℕ) × (o ≡ some k) × (suc k ≡ i)
behind-some none i e = absurd (cc)
behind-some (some k) i e = (k, refl, some_inj e)

-- The match id that `get_free` gives is within the list, its cell is free, and no earlier one is.
pub free_cell-lt :
    (l : List (Option ℕ)) (i : ℕ)
    → free_cell l ≡ some i
    → (i < length l) × (get_elem? l i ≡ some none) × ((j : ℕ) → j < i → get_elem? l j ≢ some none)
unfolding free_cell
free_cell-lt [] i e = absurd (cc)
free_cell-lt (none ∷ l) i e =
    subst (IsFirst (none ∷ l)) (some_inj e) (omega arith, refl, λ j h. absurd (omega (arith, h)))
free_cell-lt (some u ∷ l) i e =
    let (k, q, s) = behind-some (free_cell l) i e in
    subst (IsFirst (some u ∷ l)) s (behind-IsFirst u k l (free_cell-lt l k q))

other : (t u : ℕ) → t ≢ u → (t == u) ≡ false
other t u h = ground arith

-- A match put into the free cell and removed again leaves the list as it was, if it was in no cell.
pub clear_cell-set :
    (l : List (Option ℕ)) (i t : ℕ)
    → free_cell l ≡ some i
    → ((j : ℕ) → get_elem? l j ≢ some (some t))
    → clear_cell t (set l i (some t)) ≡ l
unfolding free_cell clear_cell
clear_cell-set [] i t e new = absurd (cc)
clear_cell-set (none ∷ l) i t e new =
    subst (λ i. clear_cell t (set (none ∷ l) i (some t)) ≡ none ∷ l) (some_inj e)
      (ap (λ b. if b then none ∷ l else some t ∷ clear_cell t l) (==-refl t))
clear_cell-set (some u ∷ l) i t e new =
    let (k, q, s) = behind-some (free_cell l) i e in
    subst (λ i. clear_cell t (set (some u ∷ l) i (some t)) ≡ some u ∷ l) s
      (ap (λ b. if b then none ∷ set l k (some t) else some u ∷ clear_cell t (set l k (some t)))
          (other t u (λ h. new 0 (ap (λ x. some (some x)) (sym h))))
        ∙ ap (λ l. some u ∷ l) (clear_cell-set l k t q (λ j. new (suc j))))

joined-append : (l : List Bytes) (b : Bytes) → joined (l ++ (b ∷ [])) ≡ joined l ++ b
unfolding joined
joined-append [] b = append-nil b
joined-append (x ∷ l) b = ap (λ y. x ++ y) (joined-append l b) ∙ sym (append_assoc x (joined l) b)

-- what `dequeue` gives and leaves, once it is known whether the queue is empty
emptied :
    (p : ℕ) (l : List Bytes) (e : Bool) (w : World)
    → e ≡ false
    → (((if e
            then pure none
            else on_player p (λ s. record s { queue = [] }) >> pure (some (joined l)))
          w).0
        ≡ done (some (joined l)))
      × ((((if e
                then pure none
                else on_player p (λ s. record s { queue = [] }) >> pure (some (joined l)))
              w).1.player
            p).queue
          ≡ [])
unfolding on_player ◌>>=◌
emptied p l true w h = absurd (cc)
emptied p l false w h = (refl, ap (λ s. s.queue) (update_same w.player p _))

is_empty-append : (l : List Bytes) (b : Bytes) → is_empty (l ++ (b ∷ [])) ≡ false
is_empty-append [] b = refl
is_empty-append (x ∷ l) b = refl

-- What was enqueued last comes last: `dequeue` after `enqueue` gives the packets that waited, joined, with the
-- new one behind them, and leaves nothing.
pub dequeue-enqueue :
    (b : Bytes) (p : ℕ) (w : World)
    → ((dequeue p (enqueue b p w).1).0 ≡ done (some (joined (w.player p).queue ++ b)))
      × (((dequeue p (enqueue b p w).1).1.player p).queue ≡ [])
unfolding dequeue enqueue on_player ◌>>=◌
dequeue-enqueue b p w =
    let l = (w.player p).queue in
    let v = (enqueue b p w).1 in
    let waiting =
      ap (λ s. s.queue) (update_same w.player p (record (w.player p) { queue = l ++ (b ∷ []) })) in
    let (answer, nothing) =
      emptied p (v.player p).queue (is_empty (v.player p).queue) v
        (ap is_empty waiting ∙ is_empty-append l b) in
    (
      answer
          ∙ ap (λ q. done (some (joined q))) waiting
          ∙ ap (λ x. done (some x)) (joined-append l b),
      nothing,
    )
