-- ===== src/Match/Room/Triple.antt =====
-- Hoare triples of actions, one rule for each way to build one: started where `P` holds, an action that
-- returns leaves `Q`, and one that raises leaves the slots sound.
use mathlib.Core.Path.{subst}
use eunga_py.Prelude.{
  sym, ◌∙◌, inl, inr, Option-cases, ℕ, ◌≡◌, refl, Bool, true, false, Option, none, some, List, [],
  ◌∷◌, get_elem?, if◌then◌else◌,
}
use eunga_py.Packets.Integers.{Bytes}
use eunga_py.Packets.Utf8.{Str}
use eunga_py.Match.Types.{Match, Slot}
use eunga_py.Match.Seats.{get_slot_id, start_slot}
use eunga_py.Match.Seats.Sound.{IsSound, IsTame, map-IsSound, adjust-IsSound, get_slot_id-holds}
use eunga_py.Match.Room.{
  Room, Result, done, raised, Exec, resume, pure, raise, or_raise, gets, ◌>>=◌, modify, map_slots,
  update_slot, send, chat_enqueue, lobby_enqueue, lobby_players, Sessions, enqueue, host,
  state_packet, enqueue_state, seat, start, send_bot, lobby_state,
}

abbrev pub Post : {A : Type 0} → (A → Match → Type 0) → Result A × Room → Type 0
Post Q (done a, r) = Q a r.state
Post Q (raised, r) = IsSound r.state.slots

pub record Triple {A : Type 0} (P : Match → Type 0) (m : Exec A) (Q : A → Match → Type 0)
    : Type 1 where
  pub at : (r : Room) → P r.state → Post Q (m r)

-- sound slots
abbrev pub Sound : Match → Type 0
Sound m = IsSound m.slots

abbrev pub Keeps : {A : Type 0} → Exec A → Type 1
Keeps m = Triple Sound m (λ a m. Sound m)

module _ {A B : Type 0} {Q : A → Match → Type 0} {R : B → Match → Type 0} where
  after :
      (x : Result A × Room) (k : A → Exec B)
      → Post Q x
      → ((a : A) → Triple (Q a) (k a) R)
      → Post R (resume x k)
  after (done a, r) k h t = (t a).at r h
  after (raised, r) k h t = h

  pub Triple-bind :
      {P : Match → Type 0} (m : Exec A) (k : A → Exec B)
      → Triple P m Q
      → ((a : A) → Triple (Q a) (k a) R)
      → Triple P (m >>= k) R
  unfolding ◌>>=◌
  Triple-bind m k tm tk = record { at = λ r h. after (m r) k (tm.at r h) tk }

module _ {A : Type 0} {P : Match → Type 0} {Q : A → Match → Type 0} where
  pub Triple-if :
      (b : Bool) (m n : Exec A)
      → (b ≡ true → Triple P m Q)
      → (b ≡ false → Triple P n Q)
      → Triple P (if b then m else n) Q
  Triple-if true m n tm tn = tm refl
  Triple-if false m n tm tn = tn refl

  pub Triple-pure : (a : A) → ((m : Match) → P m → Q a m) → Triple P (pure a) Q
  Triple-pure a h = record { at = λ r p. h r.state p }

  pub Triple-weaken :
      {P' : Match → Type 0} (m : Exec A) → ((s : Match) → P s → P' s) → Triple P' m Q → Triple P m Q
  Triple-weaken m h t = record { at = λ r p. t.at r (h r.state p) }

-- An action that leaves the match alone.
pub record IsCalm {A : Type 0} (m : Exec A) : Type 1 where
  pub at : (r : Room) → (m r).1.state ≡ r.state

pub IsCalm-pure : {A : Type 0} (a : A) → IsCalm (pure a)
IsCalm-pure a = record { at = λ r. refl }

pub IsCalm-raise : {A : Type 0} → IsCalm (raise {A = A})
IsCalm-raise = record { at = λ r. refl }

pub IsCalm-or_raise : {A : Type 0} (o : Option A) → IsCalm (or_raise o)
IsCalm-or_raise none = record { at = λ r. refl }
IsCalm-or_raise (some a) = record { at = λ r. refl }

pub IsCalm-gets : {A : Type 0} (f : Match → A) → IsCalm (gets f)
IsCalm-gets f = record { at = λ r. refl }

module _ {A B : Type 0} where
  calm_after :
      (x : Result A × Room) (k : A → Exec B)
      → ((a : A) → IsCalm (k a))
      → (resume x k).1.state ≡ x.1.state
  calm_after (done a, r) k t = (t a).at r
  calm_after (raised, r) k t = refl

  pub IsCalm-bind :
      (m : Exec A) (k : A → Exec B) → IsCalm m → ((a : A) → IsCalm (k a)) → IsCalm (m >>= k)
  unfolding ◌>>=◌
  IsCalm-bind m k cm ck = record { at = λ r. calm_after (m r) k ck ∙ cm.at r }

pub IsCalm-if :
    {A : Type 0} (b : Bool) (m n : Exec A) → IsCalm m → IsCalm n → IsCalm (if b then m else n)
IsCalm-if true m n cm cn = cm
IsCalm-if false m n cm cn = cn

pub IsCalm-chat : (b : Bytes) (immune : List ℕ) → IsCalm (chat_enqueue b immune)
IsCalm-chat b immune = record { at = λ r. refl }

pub IsCalm-lobby : (b : Bytes) → IsCalm (lobby_enqueue b)
IsCalm-lobby b = record { at = λ r. refl }

pub IsCalm-send : (l : List (ℕ × Bytes)) → IsCalm (send l)
IsCalm-send l = record { at = λ r. refl }

pub IsCalm-enqueue : (b : Bytes) (lobby : Bool) (immune : List ℕ) → IsCalm (enqueue b lobby immune)
unfolding enqueue
IsCalm-enqueue b lobby immune =
    IsCalm-bind _ _ (IsCalm-chat b immune)
      (λ u. IsCalm-if lobby _ _ (IsCalm-lobby b) (IsCalm-pure tt))

module _ (app : Sessions) where
  pub IsCalm-host : IsCalm (host app)
  unfolding host
  IsCalm-host =
      IsCalm-bind _ _ (IsCalm-gets _)
        (λ id. IsCalm-if (app.online id) _ _ (IsCalm-pure id) IsCalm-raise)

  IsCalm-state_packet : (b : Bool) → IsCalm (state_packet app b)
  unfolding state_packet
  IsCalm-state_packet b = IsCalm-bind _ _ (IsCalm-gets _) (λ m. IsCalm-or_raise _)

  IsCalm-lobby_state : (l : List ℕ) → IsCalm (lobby_state app l)
  IsCalm-lobby_state [] = IsCalm-pure tt
  IsCalm-lobby_state (p ∷ l) = IsCalm-bind _ _ (IsCalm-state_packet false) IsCalm-lobby

  pub IsCalm-enqueue_state : (lobby : Bool) → IsCalm (enqueue_state app lobby)
  unfolding enqueue_state
  IsCalm-enqueue_state lobby = IsCalm-bind _ _ (IsCalm-state_packet true) (λ b.
      IsCalm-bind _ _ (IsCalm-chat b []) (λ u.
        IsCalm-if lobby _ _ (record { at = λ r. (IsCalm-lobby_state (lobby_players r)).at r })
          (IsCalm-pure tt)))

  pub IsCalm-send_bot : (msg : Str) → IsCalm (send_bot app msg)
  unfolding send_bot
  IsCalm-send_bot msg = IsCalm-bind _ _ (IsCalm-or_raise _) (λ b. IsCalm-chat b [])

module _ {A : Type 0} where
  Post-calm :
      (P : Match → Type 0) (x : Result A × Room) (s : Match)
      → x.1.state ≡ s
      → P s
      → IsSound s.slots
      → Post (λ a. P) x
  Post-calm P (done a, r) s e h k = subst P (sym e) h
  Post-calm P (raised, r) s e h k = subst (λ m. IsSound m.slots) (sym e) k

  pub Triple-calm :
      {P : Match → Type 0} (m : Exec A)
      → ((s : Match) → P s → IsSound s.slots)
      → IsCalm m
      → Triple P m (λ a. P)
  Triple-calm {P = P} m h c = record {
    at = λ r p. Post-calm P (m r) r.state (c.at r) p (h r.state p);
  }

pub Keeps-calm : {A : Type 0} (m : Exec A) → IsCalm m → Keeps m
Keeps-calm m c = Triple-calm m (λ s h. h) c

-- what the rest of a handler may use after `or_raise o` or `gets f` returned
module _ {A : Type 0} {P : Match → Type 0} where
  pub Triple-or_raise :
      (o : Option A)
      → ((s : Match) → P s → IsSound s.slots)
      → Triple P (or_raise o) (λ a m. P m × (o ≡ some a))
  Triple-or_raise none h = record { at = λ r p. h r.state p }
  Triple-or_raise (some a) h = record { at = λ r p. (p, refl) }

  pub Triple-gets : (f : Match → A) → Triple P (gets f) (λ a m. P m × (a ≡ f m))
  Triple-gets f = record { at = λ r p. (p, refl) }

-- the slot with this index holds the player
abbrev pub AtSeat : ℕ → ℕ → Match → Type 0
AtSeat p i m = (s : Slot) × (get_elem? m.slots i ≡ some s) × (s.player ≡ some p)

abbrev pub Seated : ℕ → ℕ → Match → Type 0
Seated p i m = Sound m × AtSeat p i m

pub Triple-seat : (p : ℕ) → Triple Sound (seat p) (Seated p)
unfolding seat ◌>>=◌
Triple-seat p = record {
  at = λ r h. elim (Option-cases (get_slot_id p r.state.slots)) [
    | inl e ↦ subst (λ o. Post (Seated p) (or_raise o r)) (sym e) h
    | inr (i, e) ↦
        subst (λ o. Post (Seated p) (or_raise o r)) (sym e)
          (h, get_slot_id-holds p r.state.slots i e)
  ];
}

pub Triple-update_slot :
    (p i : ℕ) (f : Slot → Slot)
    → ((s : Slot) → s.player ≡ some p → IsTame f s)
    → Triple (Seated p i) (update_slot i f) (λ a. Sound)
Triple-update_slot p i f tame = record {
  at = λ r h.
      let (h0, held) = h in
      let (s, e, ep) = held in adjust-IsSound f r.state.slots i s e (tame s ep) h0;
}

-- The shape of most handlers: find the player's slot, assign to it, go on.
pub Keeps-update :
    {A : Type 0} (p : ℕ) (f : Slot → Slot) (k : ℕ → Exec A)
    → ((s : Slot) → s.player ≡ some p → IsTame f s)
    → ((i : ℕ) → Keeps (k i))
    → Keeps (seat p >>= λ i. update_slot i f >>= λ u. k i)
Keeps-update p f k tame rest =
    Triple-bind _ _ (Triple-seat p)
      (λ i. Triple-bind _ _ (Triple-update_slot p i f tame) (λ u. rest i))

pub Keeps-map_slots : (f : Slot → Slot) → ((s : Slot) → IsTame f s) → Keeps (map_slots f)
Keeps-map_slots f tame = record { at = λ r h. map-IsSound f r.state.slots tame h }

-- an assignment to other attributes than the slots
pub Keeps-modify : (f : Match → Match) → ((m : Match) → (f m).slots ≡ m.slots) → Keeps (modify f)
Keeps-modify f same = record { at = λ r h. subst IsSound (sym (same r.state)) h }

pub Keeps-start : (app : Sessions) → ((s : Slot) → IsTame start_slot s) → Keeps (start app)
unfolding start
Keeps-start app tame = Triple-bind _ _ (Keeps-calm _ (IsCalm-gets _)) (λ ids.
    Triple-bind _ _ (Keeps-map_slots start_slot tame) (λ u.
      Triple-bind _ _ (Keeps-modify _ (λ m. refl)) (λ v.
        Triple-bind _ _ (Keeps-calm _ (IsCalm-gets _)) (λ m.
          Triple-bind _ _ (Keeps-calm _ (IsCalm-or_raise _)) (λ b.
            Triple-bind _ _ (Keeps-calm _ (IsCalm-enqueue b false ids))
              (λ w. Keeps-calm _ (IsCalm-enqueue_state app true)))))))
