-- ===== src/World/Calm/Leave.antt =====
-- `leave_channel` of app/objects/player.py is calm.
use eunga_py.Prelude.{
  ℕ, ◌≤◌, ◌≡◌, refl, sym, ap, ◌∙◌, Bool, true, false, Option, none, some, List, arith,
  if◌then◌else◌,
}
use eunga_py.Prelude.Actions.{Result, done, raised, pure, or_raise, resume, ◌>>=◌, ◌>>◌}
use eunga_py.World.{
  Player, Channel, World, modify, set_channel, on_player, on_channel, contains, list_remove,
}
use eunga_py.World.Count.{
  count, update_keeps, split_at, one_ne, one_refl, update_same, count-list_remove,
}
use eunga_py.World.Channels.{
  unlist, removed, remove, drop_channel, farewell, part_channel, leave_channel,
}
use eunga_py.World.Calm.{
  IsKnown, IsCalmStep, calm_refl, calm_trans, calm_resume, IsCalm, IsCalm-pure, IsCalm-gets,
  IsCalm-if, IsCalm-bind,
}
use eunga_py.World.Calm.Channels.{IsKnown-channel, IsKnown-player, IsCalm-farewell}

-- calm steps to a state where the player is not in the channel, unless the action raised
Gone : ℕ → ℕ → World → Result Unit × World → Type 0
Gone p c w (done u, v) = IsCalmStep w v × (count p (v.channel c).players ≡ 0)
Gone p c w (raised, v) = IsCalmStep w v

with_channels : (v : World) (l : List ℕ) → IsKnown v → IsCalmStep v (record v { channels = l })
with_channels v l h = record {
  keeps = record { known = h.known; once = h.once };
  spectators = λ p. refl;
  spectating = λ p. refl;
  seat = λ p. refl;
  slots = λ t. refl;
}

module _ (p c : ℕ) (w v : World) (h : IsCalmStep w v) (e : count p (v.channel c).players ≡ 0) where
  unlisted :
      (o : Option (List ℕ))
      → Gone p c w ((or_raise o >>= λ l. modify (λ v. record v { channels = l })) v)
  unfolding ◌>>=◌ Gone
  unlisted none = h
  unlisted (some l) = (calm_trans w v _ h (with_channels v l h.keeps), e)

  unlist_if : (b : Bool) → Gone p c w ((if b then unlist c else pure tt) v)
  unfolding unlist ◌>>=◌ Gone
  unlist_if true = unlisted (list_remove v.channels c)
  unlist_if false = (h, e)

-- a member less
abbrev with_players : List ℕ → Channel → Channel
with_players l s = record s { players = l }

module _ (p c : ℕ) (w : World) (k : IsKnown w) where
  removed-Gone :
      (o : Option (List ℕ))
      → list_remove (w.channel c).players p ≡ o
      → Gone p c w ((or_raise o >>= removed c) w)
  unfolding ◌>>=◌ Gone removed on_channel
  removed-Gone none e = calm_refl w k
  removed-Gone (some l) e =
      unlist_if p c w (set_channel c (with_players l) w)
        (record {
          keeps =
              IsKnown-channel c (with_players l) w
                (λ q. omega (arith, count-list_remove q p (w.channel c).players l e, k.known q c))
                (λ q. omega (arith, count-list_remove q p (w.channel c).players l e, k.once q c)) k;
          spectators = λ p. refl;
          spectating = λ p. refl;
          seat = λ p. refl;
          slots = λ t. refl;
        })
        (ap (λ s. count p s.players) (update_same w.channel c (with_players l (w.channel c)))
          ∙ omega (arith, count-list_remove p p (w.channel c).players l e, k.once p c, one_refl p))
        _

  remove-Gone : Gone p c w (remove p c w)
  unfolding remove ◌>>=◌
  remove-Gone = removed-Gone (list_remove (w.channel c).players p) refl

abbrev with_entries : List ℕ → Player → Player
with_entries l s = record s { channels = l }

module _ (p c : ℕ) (v : World) (k : IsKnown v) (e : count p (v.channel c).players ≡ 0) where
  dropped :
      (o : Option (List ℕ))
      → list_remove (v.player p).channels c ≡ o
      → IsCalmStep v ((or_raise o >>= λ l. on_player p (with_entries l)) v).1
  unfolding ◌>>=◌ on_player
  dropped none h = calm_refl v k
  dropped (some l) h = record {
    keeps =
        IsKnown-player p (with_entries l) v
          (split_at (λ d. count p (v.channel d).players ≤ count d l) c (omega (arith, e))
            (λ d ne. omega (
              arith,
              count-list_remove d c (v.player p).channels l h,
              k.known p d,
              one_ne c d (λ e. ne (sym e)),
            )))
          k;
    spectators = λ q. update_keeps (λ s. s.spectators) v.player p _ q refl;
    spectating = λ q. update_keeps (λ s. s.spectating) v.player p _ q refl;
    seat = λ q. update_keeps (λ s. s.match) v.player p _ q refl;
    slots = λ t. refl;
  }

  drop_channel_calm : IsCalmStep v (drop_channel c p v).1
  unfolding drop_channel ◌>>=◌
  drop_channel_calm = dropped (list_remove (v.player p).channels c) refl

-- leaving, given how the removal went
part_after :
    (p c : ℕ) (kick : Bool) (w : World) (x : Result Unit × World)
    → IsKnown w
    → Gone p c w x
    → IsCalmStep w (resume x (λ u. drop_channel c p >> farewell p c kick)).1
unfolding Gone ◌>>=◌
part_after p c kick w (raised, v) k g = g
part_after p c kick w (done u, v) k (s, e) =
    calm_resume (drop_channel c p v) _ w (calm_trans w v _ s (drop_channel_calm p c v s.keeps e))
      (λ u. IsCalm-farewell p c kick)

IsCalm-part_channel : (p c : ℕ) (kick : Bool) → IsCalm (part_channel p c kick)
unfolding part_channel ◌>>=◌
IsCalm-part_channel p c kick = record {
  at = λ w k. part_after p c kick w (remove p c w) k (remove-Gone p c w k);
}

pub IsCalm-leave_channel : (p c : ℕ) (kick : Bool) → IsCalm (leave_channel p c kick)
unfolding leave_channel
IsCalm-leave_channel p c kick =
    IsCalm-bind _ _ (IsCalm-gets _)
      (λ l. IsCalm-if (contains l p) _ _ (IsCalm-part_channel p c kick) (IsCalm-pure tt))
