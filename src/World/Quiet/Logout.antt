-- ===== src/World/Quiet/Logout.antt =====
-- The loop of `Player.logout` ends: each round leaves one channel.
use mathlib.Core.Path.{subst}
use eunga_py.Prelude.{
  ℕ, zero, suc, ◌+◌, ◌≤◌, ◌≡◌, ◌≢◌, refl, sym, ap, ◌∙◌, Bool, true, false, Option, none, some, List,
  [], ◌∷◌, ◌==◌, is_empty, length, arith, if◌then◌else◌,
}
use eunga_py.Prelude.Actions.{Result, done, raised, pure, or_raise, resume, ◌>>=◌, ◌>>◌}
use eunga_py.World.{
  Player, Channel, World, Act, modify, on_player, on_channel, set_player, set_channel, contains,
  list_remove,
}
use eunga_py.World.Count.{
  count, one_refl, one_ne, update_at, update_same, count-contains, count-list_remove, some_inj,
}
use eunga_py.World.Channels.{
  unlist, removed, remove, drop_channel, farewell, part_channel, leave_channel,
}
use eunga_py.World.Players.{leave_first, leave_channels}
use eunga_py.World.Quiet.{forget, IsQuiet-farewell}

length-list_remove :
    (l : List ℕ) (x : ℕ) (l' : List ℕ) → list_remove l x ≡ some l' → length l' + 1 ≡ length l
length-list_remove [] x l' e = absurd (cc)
length-list_remove (y ∷ l) x l' e = front (y == x) (list_remove l x) (length-list_remove l x) e
  where
    front :
        (b : Bool) (o : Option (List ℕ))
        → ((r : List ℕ) → o ≡ some r → length r + 1 ≡ length l)
        → (if b then some l else elim o [ none ↦ none | some r ↦ some (y ∷ r) ]) ≡ some l'
        → length l' + 1 ≡ length (y ∷ l)
    front true o rec e = omega (arith, ap length (some_inj e))
    front false none rec e = absurd (cc)
    front false (some r) rec e = omega (arith, ap length (some_inj e), rec r refl)

-- A player is a member of exactly its channels.
abbrev pub IsLinked : ℕ → World → Type 0
IsLinked p w = (c : ℕ) → count c (w.player p).channels ≡ count p (w.channel c).players

-- one channel less, and still linked
abbrev Left : ℕ → World → World → Type 0
Left p w v = (length (v.player p).channels + 1 ≡ length (w.player p).channels) × IsLinked p v

-- unless the action raised
AfterRound : ℕ → World → Result Unit × World → Type 0
AfterRound p w (done u, v) = Left p w v
AfterRound p w (raised, v) = Unit

abbrev members_set : List ℕ → Channel → Channel
members_set l s = record s { players = l }

abbrev channels_set : List ℕ → Player → Player
channels_set l s = record s { channels = l }

-- what is true without the queues is true of the state
unqueued-Left :
    (p : ℕ) (w v : World) (x : Result Unit × World)
    → Left p w v
    → forget x.1 ≡ forget v
    → AfterRound p w x
unfolding AfterRound
unqueued-Left p w v (done u, v') h e = subst (Left p w) (sym e) h
unqueued-Left p w v (raised, v') h e = tt

module _ (p c : ℕ) (kick : Bool) (w : World) (h : IsLinked p w) where
  -- the state after the removals
  abbrev removed_all : List ℕ → List ℕ → World
  removed_all l chs = record (set_channel c (members_set l) w) { channels = chs }

  abbrev leaving : Act Unit
  leaving = drop_channel c p >> farewell p c kick

  both-Left :
      (l ls chs : List ℕ)
      → list_remove (w.channel c).players p ≡ some l
      → list_remove (w.player p).channels c ≡ some ls
      → Left p w (set_player p (channels_set ls) (removed_all l chs))
  both-Left l ls chs el es =
      let same = ap (λ s. s.channels) (update_same w.player p (channels_set ls (w.player p))) in
      (
        omega (arith, ap length same, length-list_remove (w.player p).channels c ls es),
        λ d.
            ap (count d) same
            ∙ update_at (λ d s. count d ls ≡ count p s.players) w.channel c _
                (omega (
                  arith,
                  count-list_remove c c (w.player p).channels ls es,
                  count-list_remove p p (w.channel c).players l el,
                  one_refl c,
                  one_refl p,
                  h c,
                ))
                (λ d ne. omega (
                  arith,
                  count-list_remove d c (w.player p).channels ls es,
                  one_ne c d (λ e. ne (sym e)),
                  h d,
                ))
                d,
      )

  dropped :
      (l chs : List ℕ) (o : Option (List ℕ))
      → list_remove (w.channel c).players p ≡ some l
      → list_remove (w.player p).channels c ≡ o
      → AfterRound p w (
          ((or_raise o >>= λ l. on_player p (channels_set l)) >> farewell p c kick)
            (removed_all l chs))
  unfolding ◌>>=◌ AfterRound on_player
  dropped l chs none el es = tt
  dropped l chs (some ls) el es =
      let v = set_player p (channels_set ls) (removed_all l chs) in
      unqueued-Left p w v (farewell p c kick v) (both-Left l ls chs el es)
        ((IsQuiet-farewell p c kick).at v)

  left :
      (l chs : List ℕ)
      → list_remove (w.channel c).players p ≡ some l
      → AfterRound p w (leaving (removed_all l chs))
  unfolding drop_channel ◌>>=◌
  left l chs el = dropped l chs _ el refl

  unlisted :
      (l : List ℕ) (o : Option (List ℕ))
      → list_remove (w.channel c).players p ≡ some l
      → AfterRound p w (
          ((or_raise o >>= λ l. modify (λ w. record w { channels = l })) >> leaving)
            (removed_all l w.channels))
  unfolding ◌>>=◌ AfterRound
  unlisted l none el = tt
  unlisted l (some chs) el = left l chs el

  unlist_if :
      (b : Bool) (l : List ℕ)
      → list_remove (w.channel c).players p ≡ some l
      → AfterRound p w (((if b then unlist c else pure tt) >> leaving) (removed_all l w.channels))
  unfolding unlist ◌>>=◌
  unlist_if true l el = unlisted l _ el
  unlist_if false l el = left l w.channels el

  member_out :
      (o : Option (List ℕ))
      → list_remove (w.channel c).players p ≡ o
      → AfterRound p w (((or_raise o >>= removed c) >> leaving) w)
  unfolding ◌>>=◌ removed on_channel AfterRound
  member_out none e = tt
  member_out (some l) e = unlist_if _ l e

  part_AfterRound : AfterRound p w (part_channel p c kick w)
  unfolding part_channel remove ◌>>=◌
  part_AfterRound = member_out _ refl

  -- a channel of the player has it as a member
  is_inside :
      (b : Bool)
      → contains (w.channel c).players p ≡ b
      → 1 ≤ count c (w.player p).channels
      → AfterRound p w ((if b then part_channel p c kick else pure tt) w)
  is_inside true e k = part_AfterRound
  is_inside false e k = absurd (omega (arith, k, h c, count-contains p (w.channel c).players e))

  leave_AfterRound : 1 ≤ count c (w.player p).channels → AfterRound p w (leave_channel p c kick w)
  unfolding leave_channel ◌>>=◌
  leave_AfterRound k = is_inside _ refl k

-- the rounds after the first
module _ (p n : ℕ)
    (rest : (v : World)
      → IsLinked p v
      → length (v.player p).channels ≡ n
      → (leave_channels p n v).0 ≢ done false) where
  rounds :
      (w : World) (x : Result Unit × World)
      → AfterRound p w x
      → length (w.player p).channels ≡ suc n
      → (resume x (λ u. leave_channels p n)).0 ≢ done false
  unfolding AfterRound
  rounds w (raised, v) a e = λ q. absurd (cc)
  rounds w (done u, v) (m, k) e = rest v k (omega (arith, m, e))

  one_round :
      (w : World) (l : List ℕ)
      → (w.player p).channels ≡ l
      → IsLinked p w
      → length l ≡ suc n
      → (leave_first p l (leave_channels p n) w).0 ≢ done false
  unfolding ◌>>=◌
  one_round w [] e h k = absurd (omega (arith, k))
  one_round w (c ∷ l) e h k =
      rounds w (leave_channel p c false w)
        (leave_AfterRound p c false w h (omega (arith, ap (count c) e, one_refl c)))
        (ap length e ∙ k)

no_length : (l : List ℕ) → length l ≡ 0 → done (is_empty l) ≢ done false
no_length [] e = λ q. absurd (cc)
no_length (x ∷ l) e = absurd (omega (arith, e))

-- From a state where the player is a member of exactly its channels, the loop of `logout` is through or has
-- raised after as many rounds as the player has channels.
pub leave_channels_ends :
    (n p : ℕ) (w : World)
    → IsLinked p w
    → length (w.player p).channels ≡ n
    → (leave_channels p n w).0 ≢ done false
unfolding leave_channels ◌>>=◌
leave_channels_ends zero p w h e = no_length (w.player p).channels e
leave_channels_ends (suc n) p w h e =
    one_round p n (leave_channels_ends n p) w (w.player p).channels refl h e
