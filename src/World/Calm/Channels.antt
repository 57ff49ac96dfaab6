-- ===== src/World/Calm/Channels.antt =====
-- `join_channel` and `leave_channel` are calm.
use eunga_py.Prelude.{
  ℕ, ◌≤◌, ◌≡◌, refl, sym, Bool, true, false, ◌||◌, [], ◌∷◌, ◌++◌, arith, if◌then◌else◌,
}
use eunga_py.Prelude.Actions.{pure, ◌>>=◌}
use eunga_py.World.{
  Player, Channel, World, set_player, set_channel, on_player, on_channel, contains,
}
use eunga_py.World.Count.{
  count, update_keeps, update_at, split_at, one_ne, one_refl, count-append, count-contains,
}
use eunga_py.World.Channels.{
  info_packet, announce, refused, append, add_channel, welcome, admit, join_channel, farewell,
  can_read,
}
use eunga_py.World.Calm.{
  IsKnown, IsCalmStep, calm_refl, calm_trans, IsCalm, IsCalm-pure, IsCalm-gets, IsCalm-if,
  IsCalm-bind, IsCalm-read, IsCalm-packet, IsCalm-enqueue, IsCalm-each,
}

pub IsCalm-info_packet : (c : ℕ) → IsCalm (info_packet c)
unfolding info_packet
IsCalm-info_packet c = IsCalm-bind _ _ (IsCalm-gets _) (λ s. IsCalm-packet _)

IsCalm-announce : (c : ℕ) → IsCalm (announce c)
unfolding announce
IsCalm-announce c = IsCalm-bind _ _ (IsCalm-info_packet c) (λ b.
    IsCalm-bind _ _ (IsCalm-gets _) (λ w.
      IsCalm-if (w.channel c).is_instance _ _ (IsCalm-each _ _ (IsCalm-enqueue b)) (
        IsCalm-each _ _ (λ p.
          IsCalm-if (can_read (w.channel c) (w.player p).priv) _ _ (IsCalm-enqueue b p)
            (IsCalm-pure tt)))))

IsCalm-welcome : (p c : ℕ) → IsCalm (welcome p c)
unfolding welcome
IsCalm-welcome p c = IsCalm-bind _ _ (IsCalm-gets _) (λ name.
    IsCalm-bind _ _ (IsCalm-packet _) (λ b.
      IsCalm-bind _ _ (IsCalm-enqueue b p)
        (λ u. IsCalm-bind _ _ (IsCalm-announce c) (λ v. IsCalm-pure true))))

pub IsCalm-farewell : (p c : ℕ) (kick : Bool) → IsCalm (farewell p c kick)
unfolding farewell
IsCalm-farewell p c kick = IsCalm-bind _ _ (IsCalm-gets _) (λ name.
    IsCalm-bind _ _
      (IsCalm-if kick _ _ (IsCalm-bind _ _ (IsCalm-packet _) (λ b. IsCalm-enqueue b p))
        (IsCalm-pure tt))
      (λ u. IsCalm-announce c))

-- other members of a channel
pub IsKnown-channel :
    (c : ℕ) (f : Channel → Channel) (w : World)
    → ((q : ℕ) → count q (f (w.channel c)).players ≤ count c (w.player q).channels)
    → ((q : ℕ) → count q (f (w.channel c)).players ≤ 1)
    → IsKnown w
    → IsKnown (set_channel c f w)
IsKnown-channel c f w hk ho k = record {
  known = λ q.
      update_at (λ d s. count q s.players ≤ count d (w.player q).channels) w.channel c _ (hk q)
        (λ d ne. k.known q d);
  once = λ q. update_at (λ d s. count q s.players ≤ 1) w.channel c _ (ho q) (λ d ne. k.once q d);
}

-- other channels of a player
pub IsKnown-player :
    (p : ℕ) (f : Player → Player) (w : World)
    → ((d : ℕ) → count p (w.channel d).players ≤ count d (f (w.player p)).channels)
    → IsKnown w
    → IsKnown (set_player p f w)
IsKnown-player p f w hk k = record {
  known = λ q d.
      update_at (λ q s. count q (w.channel d).players ≤ count d s.channels) w.player p _ (hk d)
        (λ q ne. k.known q d) q;
  once = k.once;
}

-- the two assignments of `join_channel`
abbrev add_player : ℕ → Channel → Channel
add_player p s = record s { players = s.players ++ (p ∷ []) }

abbrev add_entry : ℕ → Player → Player
add_entry c s = record s { channels = s.channels ++ (c ∷ []) }

linked_calm :
    (p c : ℕ) (w : World)
    → IsKnown w
    → contains (w.channel c).players p ≡ false
    → IsCalmStep w (set_player p (add_entry c) (set_channel c (add_player p) w))
linked_calm p c w k h = record {
  keeps =
      let l = (w.channel c).players in
      let l' = l ++ (p ∷ []) in
      let k' =
        IsKnown-player p (add_entry c) w
          (λ d. omega (arith, k.known p d, count-append d c (w.player p).channels)) k in
      IsKnown-channel c (add_player p) (set_player p (add_entry c) w)
        (update_at (λ q s. count q l' ≤ count c s.channels) w.player p _
          (omega (
            arith,
            k.known p c,
            count-append p p l,
            count-append c c (w.player p).channels,
            one_refl p,
            one_refl c,
          ))
          (λ q ne. omega (arith, k.known q c, count-append q p l, one_ne p q (λ e. ne (sym e)))))
        (split_at (λ q. count q l' ≤ 1) p
          (omega (arith, count-append p p l, one_refl p, count-contains p l h))
          (λ q ne. omega (arith, k.once q c, count-append q p l, one_ne p q (λ e. ne (sym e)))))
        k';
  spectators = λ q. update_keeps (λ s. s.spectators) w.player p _ q refl;
  spectating = λ q. update_keeps (λ s. s.spectating) w.player p _ q refl;
  seat = λ q. update_keeps (λ s. s.match) w.player p _ q refl;
  slots = λ t. refl;
}

admit_calm :
    (p c : ℕ) (w : World)
    → IsKnown w
    → contains (w.channel c).players p ≡ false
    → IsCalmStep w (admit p c w).1
unfolding admit append add_channel on_channel on_player ◌>>=◌
admit_calm p c w k h =
    let s = linked_calm p c w k h in calm_trans w _ _ s ((IsCalm-welcome p c).at _ s.keeps)

-- the first of the three reasons
not_inside : (a b d : Bool) → (a || b || d) ≡ false → a ≡ false
not_inside true b d h = absurd (cc)
not_inside false b d h = refl

join_if :
    (p c : ℕ) (w : World) (r : Bool)
    → IsKnown w
    → refused p c w ≡ r
    → IsCalmStep w ((if r then pure false else admit p c) w).1
unfolding refused
join_if p c w true k h = calm_refl w k
join_if p c w false k h = admit_calm p c w k (not_inside _ _ _ h)

pub IsCalm-join_channel : (p c : ℕ) → IsCalm (join_channel p c)
unfolding join_channel
IsCalm-join_channel p c = IsCalm-read (refused p c) _ (λ w k. join_if p c w (refused p c w) k refl)
