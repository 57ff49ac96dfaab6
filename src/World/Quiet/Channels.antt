-- ===== src/World/Quiet/Channels.antt =====
-- `join_channel` and `leave_channel` of app/objects/player.py against what they do to the members, and the
-- loop of `logout`.
use Prim.Native.Nat.{bit_and}
use mathlib.Core.Path.{subst}
use mathlib.Core.Bool.{true≢false}
use eunga_py.Prelude.Text.{Str, codes, eq_str}
use eunga_py.Prelude.Text.Laws.{eq_str-eq, eq_str_refl}
use eunga_py.Prelude.{
  ◌≢◌, ◌⊎◌, inl, inr, not, ◌==◌, arith, Bool-cases, ℕ, zero, suc, ◌≡◌, refl, sym, ap, ◌∙◌, Bool,
  true, false, List, [], ◌∷◌, ◌++◌, is_empty, if◌then◌else◌,
}
use eunga_py.Prelude.Actions.{done, pure, resume, ◌>>=◌}
use eunga_py.World.{World, Act, on_player, on_channel, set_player, set_channel, contains}
use eunga_py.World.Channels.{
  can_read, refused, append, add_channel, admit, join_channel, leave_channel, part_channel,
}
use eunga_py.World.Players.{leave_first, leave_channels}
use eunga_py.World.Quiet.{forget, IsQuiet-welcome}

-- the reasons not to join
pub data Barred (p c : ℕ) (w : World) : Type 0 where
  inside : contains (w.channel c).players p ≡ true → Barred p c w
  unreadable :
      (w.channel c).read_priv ≢ 0
      → bit_and (w.player p).priv (w.channel c).read_priv ≡ 0
      → Barred p c w
  out_of_lobby :
      (w.channel c).real_name ≡ codes "#lobby" → (w.player p).in_lobby ≡ false → Barred p c w

-- the player is outside, has a privilege to read, and for #lobby is in the lobby
pub record Admissible (p c : ℕ) (w : World) : Type 0 where
  pub outside : contains (w.channel c).players p ≡ false
  pub readable :
      ((w.channel c).read_priv ≡ 0) ⊎ (bit_and (w.player p).priv (w.channel c).read_priv ≢ 0)
  pub lobby : ((w.channel c).real_name ≢ codes "#lobby") ⊎ ((w.player p).in_lobby ≡ true)

-- the channel with one more member, the player with one more channel, and all else as it was
abbrev pub with_member : ℕ → ℕ → World → World
with_member p c w =
    set_player p (λ s. record s { channels = s.channels ++ (c ∷ []) })
      (set_channel c (λ s. record s { players = s.players ++ (p ∷ []) }) w)

-- whether a privilege lets one read
readable_cases :
    (read priv : ℕ)
    → (((if read == 0 then true else not (bit_and priv read == 0)) ≡ true)
        × ((read ≡ 0) ⊎ (bit_and priv read ≢ 0)))
      ⊎ (((if read == 0 then true else not (bit_and priv read == 0)) ≡ false)
          × (read ≢ 0)
          × (bit_and priv read ≡ 0))
readable_cases read priv = elim (Bool-cases (read == 0)) [
  | inl e ↦ inl (rw e, inl (ground arith))
  | inr e ↦ elim (Bool-cases (bit_and priv read == 0)) [
    | inl f ↦ inr (rw (e, f), λ q. ground arith, ground arith)
    | inr f ↦ inl (rw (e, f), inr (λ q. ground arith))
  ]
]

name_ne : (s t : Str) → eq_str s t ≡ false → s ≢ t
name_ne s t e q = absurd (true≢false (sym (eq_str_refl s) ∙ ap (eq_str s) q ∙ e))

refused_cases :
    (p c : ℕ) (w : World)
    → ((refused p c w ≡ true) × Barred p c w) ⊎ ((refused p c w ≡ false) × Admissible p c w)
unfolding refused can_read
refused_cases p c w =
    let name = (w.channel c).real_name in
    elim (Bool-cases (contains (w.channel c).players p)) [
      | inl a ↦ inl (rw a, inside a)
      | inr a ↦ elim (readable_cases (w.channel c).read_priv (w.player p).priv) [
        | inr b ↦ inl (rw (a, b.0), unreadable b.1 b.2)
        | inl b ↦ elim (Bool-cases (eq_str name (codes "#lobby"))) [
          | inr d ↦ inr (
            rw (a, b.0, d),
            record { outside = a; readable = b.1; lobby = inl (name_ne name (codes "#lobby") d) },
          )
          | inl d ↦ elim (Bool-cases (w.player p).in_lobby) [
            | inl e ↦ inr (rw (a, b.0, d, e), record { outside = a; readable = b.1; lobby = inr e })
            | inr e ↦ inl (rw (a, b.0, d, e), out_of_lobby (eq_str-eq name (codes "#lobby") d) e)
          ]
        ]
      ]
    ]

refused_then :
    (p c : ℕ) (r : Bool) (w : World)
    → r ≡ true
    → (if r then pure false else admit p c) w ≡ (done false, w)
refused_then p c true w e = refl
refused_then p c false w e = absurd (cc)

admitted_then :
    (p c : ℕ) (r : Bool) (w : World)
    → r ≡ false
    → forget ((if r then pure false else admit p c) w).1 ≡ forget (with_member p c w)
unfolding admit append add_channel on_player on_channel ◌>>=◌
admitted_then p c true w e = absurd (cc)
admitted_then p c false w e = (IsQuiet-welcome p c).at _

-- Either the player is barred, as a member of the channel, for want of a privilege to read it, or since
-- it is #lobby and the player is not in the lobby, and then `join_channel` answers no and changes
-- nothing. Or none of the three holds, and then, up to the packets that wait in the queues,
-- `join_channel` appends the player to the channel and the channel to the player and changes nothing
-- else, also when a packet cannot be written.
pub join_channel-refines :
    (p c : ℕ) (w : World)
    → (Barred p c w × (join_channel p c w ≡ (done false, w)))
      ⊎ (Admissible p c w × (forget (join_channel p c w).1 ≡ forget (with_member p c w)))
unfolding join_channel ◌>>=◌
join_channel-refines p c w = elim (refused_cases p c w) [
  | inl r ↦ inl (r.1, refused_then p c (refused p c w) w r.0)
  | inr r ↦ inr (r.1, admitted_then p c (refused p c w) w r.0)
]

-- leaving a channel that one is not in
leave_absent :
    (p c : ℕ) (kick b : Bool) (w : World)
    → b ≡ false
    → (if b then part_channel p c kick else pure tt) w ≡ (done tt, w)
leave_absent p c kick true w e = absurd (cc)
leave_absent p c kick false w e = refl

-- one round that leaves the state as it is, and the rounds after it
stuck_round :
    (p c : ℕ) (l cs : List ℕ) (w : World) (rest : Act Bool)
    → cs ≡ c ∷ l
    → contains (w.channel c).players p ≡ false
    → rest w ≡ (done false, w)
    → leave_first p cs rest w ≡ (done false, w)
unfolding leave_channel ◌>>=◌
stuck_round p c l cs w rest e h r =
    subst (λ cs. leave_first p cs rest w ≡ (done false, w)) (sym e)
      (ap (λ x. resume x (λ u. rest))
          (leave_absent p c false (contains (w.channel c).players p) w h)
        ∙ r)

-- If the first channel of a player does not have the player among its members, the loop of `logout` that
-- leaves the channels never ends: with any fuel it has changed nothing and is not through.
pub leave_channels_stuck :
    (fuel p c : ℕ) (l : List ℕ) (w : World)
    → (w.player p).channels ≡ c ∷ l
    → contains (w.channel c).players p ≡ false
    → leave_channels p fuel w ≡ (done false, w)
unfolding leave_channels ◌>>=◌
leave_channels_stuck zero p c l w e h = ap (λ cs. (done (is_empty cs), w)) e
leave_channels_stuck (suc fuel) p c l w e h =
    stuck_round p c l (w.player p).channels w (leave_channels p fuel) e h
      (leave_channels_stuck fuel p c l w e h)
