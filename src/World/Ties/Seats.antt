-- ===== src/World/Ties/Seats.antt =====
-- `join_match` and `leave_match` of app/objects/player.py: who sits in a match, in one slot, has it as the
-- match.
use mathlib.Core.Path.{subst}
use eunga_py.Prelude.{
  ℕ, zero, suc, ◌+◌, ◌≤◌, ◌≡◌, refl, sym, ap, ◌∙◌, Bool, true, false, Option, none, some, List, [],
  ◌∷◌, arith, ◌==◌, if◌then◌else◌,
}
use eunga_py.Prelude.Actions.{◌>>=◌, ◌>>◌}
use eunga_py.Match.Types.{Match, Slot, MatchTeamTypes}
use eunga_py.Match.Seats.{holds, adjust, get_slot_id, reset}
use eunga_py.World.{Player, World, Act, on_player, on_match, set_player, set_table, update}
use eunga_py.World.Count.{
  count, one, here, update_at, update_keeps, update_map, one_ne, one_refl, some_inj,
}
use eunga_py.World.Matches.{match_of, take_slot, sit, enter, vacate}
use eunga_py.World.Calm.{IsCalm, IsCalm-pure, IsCalm-gets, IsCalm-enqueue, IsKnown}
use eunga_py.World.Calm.Channels.{IsCalm-join_channel}
use eunga_py.World.Calm.Messages.{IsCalm-packet_then, IsCalm-gets_then, IsCalm-then}
use eunga_py.World.Calm.Matches.{IsCalm-leave_lobby, IsCalm-share_state}
use eunga_py.World.Ties.{
  seats, IsConsistent, Lands, IsStable, Lands-calm, Lands-bind, keeps_resume, Lands-if,
}

-- The seats of one player after an assignment to one slot.
pub seats-adjust :
    (f : Slot → Slot) (q n : ℕ)
    → ((s : Slot) → here (f s).player q ≤ here s.player q + n)
    → (l : List Slot) (i : ℕ) → seats q (adjust l i f) ≤ seats q l + n
seats-adjust f q n h [] i = omega arith
seats-adjust f q n h (s ∷ l) zero = omega (arith, h s)
seats-adjust f q n h (s ∷ l) (suc i) = omega (arith, seats-adjust f q n h l i)

holds-here : (p : ℕ) (s : Slot) → holds p s ≡ true → here s.player p ≡ 1
holds-here p s = go s.player
  where
    go : (o : Option ℕ) → elim o [ none ↦ false | some q ↦ p == q ] ≡ true → here o p ≡ 1
    go none h = absurd (cc)
    go (some q) h = ground arith

-- the slot in front or one behind it
front_seat :
    (p : ℕ) (s : Slot) (l : List Slot) (i : ℕ) (b : Bool) (o : Option ℕ)
    → holds p s ≡ b
    → ((i : ℕ) → o ≡ some i → seats p (adjust l i vacate) + 1 ≡ seats p l)
    → (if b then some 0 else elim o [ none ↦ none | some i ↦ some (suc i) ]) ≡ some i
    → seats p (adjust (s ∷ l) i vacate) + 1 ≡ seats p (s ∷ l)
unfolding vacate reset
front_seat p s l i true o e rec h =
    subst (λ i. seats p (adjust (s ∷ l) i vacate) + 1 ≡ seats p (s ∷ l)) (some_inj h)
      (omega (arith, holds-here p s e))
front_seat p s l i false none e rec h = absurd (cc)
front_seat p s l i false (some j) e rec h =
    subst (λ i. seats p (adjust (s ∷ l) i vacate) + 1 ≡ seats p (s ∷ l)) (some_inj h)
      (omega (arith, rec j refl))

-- `get_slot_id` finds a seat: without it there is one seat less
pub seats-get_slot_id :
    (p : ℕ) (l : List Slot) (i : ℕ)
    → get_slot_id p l ≡ some i
    → seats p (adjust l i vacate) + 1 ≡ seats p l
unfolding get_slot_id
seats-get_slot_id p [] i e = absurd (cc)
seats-get_slot_id p (s ∷ l) i e =
    front_seat p s l i (holds p s) (get_slot_id p l) refl (seats-get_slot_id p l) e

-- other slots of a match, another match of a player
abbrev with_slots : (List Slot → List Slot) → Match → Match
with_slots f m = record m { slots = f m.slots }

abbrev pub with_match : Option ℕ → Player → Player
with_match o s = record s { «match» = o }

-- The channels and spectators of a state, and seats that fit another match of one player.
pub reseated-IsConsistent :
    (p : ℕ) (o : Option ℕ) (w : World)
    → IsKnown w
    → ((x y : ℕ) → count y (w.player x).spectators ≡ here (w.player y).spectating x)
    → ((q u : ℕ)
        → seats q (w.table u).state.slots ≤ here (update (λ i. (w.player i).match) p o q) u)
    → IsConsistent (set_player p (with_match o) w)
reseated-IsConsistent p o w k a h = record {
  known = record {
    known = λ q c. omega (
      arith,
      k.known q c,
      ap (count c) (update_keeps (λ s. s.channels) w.player p (with_match o (w.player p)) q refl),
    );
    once = k.once;
  };
  watched = λ x y.
      ap (count y) (update_keeps (λ s. s.spectators) w.player p _ x refl)
      ∙ a x y
      ∙ ap (λ o. here o x) (sym (update_keeps (λ s. s.spectating) w.player p _ y refl));
  seated = λ q u. omega (
    arith,
    h q u,
    ap (λ o. here o u) (update_map (λ s. s.match) w.player p (with_match o (w.player p)) q),
  );
}

-- `p` has no match
abbrev pub Free : ℕ → World → Type 0
Free p w = (w.player p).match ≡ none

pub Free-IsStable : (p : ℕ) → IsStable (Free p)
Free-IsStable p w w' s e = s.seat p ∙ e

-- one more seat at most, the player's own
seats-take_slot :
    (q p : ℕ) (team : MatchTeamTypes) (l : List Slot) (i : ℕ)
    → seats q (adjust l i (take_slot p team)) ≤ seats q l + one p q
unfolding take_slot
seats-take_slot q p team l i = seats-adjust (take_slot p team) q (one p q) (λ s. omega arith) l i

-- the slots of one match, after an assignment to another
abbrev seats_after : ℕ → ℕ → (Match → Match) → World → ℕ → ℕ
seats_after q t f w u =
    seats q (update w.table t (record (w.table t) { state = f (match_of t w) }) u).state.slots

abbrev join_slots : ℕ → ℕ → Match → Match
join_slots p i m = record m { slots = adjust m.slots i (take_slot p m.team_type) }

-- nobody else is seated, and the player in this match only
sit_seats :
    (p t i : ℕ) (w : World)
    → IsConsistent w
    → Free p w
    → (q u : ℕ)
    → seats_after q t (join_slots p i) w u ≤ here (update (λ i. (w.player i).match) p (some t) q) u
sit_seats p t i w k e q =
    let team = (match_of t w).team_type in
    let l = (match_of t w).slots in
    update_at
      (λ u x. seats q x.state.slots ≤ here (update (λ i. (w.player i).match) p (some t) q) u)
      w.table t _
      (update_at (λ q o. seats q (adjust l i (take_slot p team)) ≤ here o t)
        (λ i. (w.player i).match) p (some t)
        (omega (
          arith,
          seats-take_slot p p team l i,
          one_refl p,
          one_refl t,
          k.seated p t,
          ap (λ o. here o t) e,
        ))
        (λ q ne.
          omega (arith, seats-take_slot q p team l i, one_ne p q (λ e. ne (sym e)), k.seated q t))
        q)
      (λ u ne.
        update_at (λ q o. seats q (w.table u).state.slots ≤ here o u) (λ i. (w.player i).match) p
          (some t) (omega (arith, k.seated p u, ap (λ o. here o u) e)) (λ q ne. k.seated q u) q)

Lands-sit : (p t i : ℕ) → Lands (Free p) (sit p t i)
unfolding sit on_match on_player ◌>>=◌
Lands-sit p t i = record {
  at = λ w k e.
      reseated-IsConsistent p (some t) (set_table t (join_slots p i) w)
        (record { known = k.known.known; once = k.known.once }) k.watched (sit_seats p t i w k e);
}

-- the player sits down, and the rest is calm
sit_then : {A : Type 0} (p t i : ℕ) (k : Act A) → IsCalm k → Lands (Free p) (sit p t i >> k)
unfolding ◌>>=◌
sit_then p t i k c = record {
  at = λ w h e.
      keeps_resume (sit p t i w) (λ u. k) ((Lands-sit p t i).at w h e) (λ u. Lands-calm k c);
}

pub Lands-enter : (p t : ℕ) (i : Option ℕ) → Lands (Free p) (enter p t i)
unfolding enter
Lands-enter p t none = Lands-calm _ (IsCalm-pure false)
Lands-enter p t (some i) = Lands-bind _ (Free-IsStable p) _ _ (IsCalm-gets _) (λ c.
    Lands-bind _ (Free-IsStable p) _ _ (IsCalm-join_channel p c) (λ joined.
      Lands-if joined _ _
        (Lands-bind _ (Free-IsStable p) _ _ (IsCalm-leave_lobby p) (λ u. sit_then p t i _ (
          IsCalm-gets_then _ _ (λ m. IsCalm-packet_then _ _ (λ b.
            IsCalm-then _ _ (IsCalm-enqueue b p)
              (IsCalm-then _ _ (IsCalm-share_state t) (IsCalm-pure true)))))))
        (Lands-calm _ (IsCalm-pure false))))
