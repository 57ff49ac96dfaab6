-- ===== src/World/Calm/Messages.antt =====
-- The operations of app/objects/player.py and app/objects/match.py that only send packets, make channels
-- or assign to other attributes are calm.
use eunga_py.Prelude.{
  ℕ, ◌≤◌, ◌≡◌, refl, ap, Bool, true, Option, none, some, List, ◌++◌, arith, ◌==◌,
}
use eunga_py.Prelude.Actions.{◌>>=◌, ◌>>◌}
use eunga_py.Packets.Integers.{Bytes}
use eunga_py.Packets.Utf8.{Str}
use eunga_py.World.{World, Act, App, gets, modify, enqueue, contains}
use eunga_py.World.Count.{count, update_at}
use eunga_py.World.Channels.{new_channel, channel_enqueue, packet, get_by_name}
use eunga_py.World.Spectating.{
  create_channel, list_channel, spec_channel, tell_spectators, tell_left, rejoin, handle_frames,
  cannot_watch, cant_spectate,
}
use eunga_py.World.Players.{broadcast}
use eunga_py.World.Calm.{
  IsCalm, IsCalm-pure, IsCalm-or_raise, IsCalm-gets, IsCalm-if, IsCalm-bind, IsCalm-packet,
  IsCalm-enqueue, IsCalm-each,
}
use eunga_py.World.Calm.Channels.{IsCalm-info_packet, IsCalm-join_channel}

-- the two steps that most operations begin with
pub IsCalm-packet_then :
    {A : Type 0} (make : (ℕ → Bool) → Option Bytes) (k : Bytes → Act A)
    → ((b : Bytes) → IsCalm (k b))
    → IsCalm (packet make >>= k)
IsCalm-packet_then make k h = IsCalm-bind _ _ (IsCalm-packet make) h

pub IsCalm-gets_then :
    {A B : Type 0} (f : World → A) (k : A → Act B)
    → ((a : A) → IsCalm (k a))
    → IsCalm (gets f >>= k)
IsCalm-gets_then f k h = IsCalm-bind _ _ (IsCalm-gets f) h

pub IsCalm-then : {A : Type 0} (m : Act Unit) (k : Act A) → IsCalm m → IsCalm k → IsCalm (m >> k)
IsCalm-then m k cm ck = IsCalm-bind _ _ cm (λ u. ck)

-- a packet to one player
pub IsCalm-send :
    (make : (ℕ → Bool) → Option Bytes) (p : ℕ) → IsCalm (packet make >>= λ b. enqueue b p)
IsCalm-send make p = IsCalm-packet_then make _ (λ b. IsCalm-enqueue b p)

-- other channels, cells or sessions
pub IsCalm-modify :
    (f : World → World)
    → ((w : World) → (f w).player ≡ w.player)
    → ((w : World) → (f w).channel ≡ w.channel)
    → ((w : World) → (f w).table ≡ w.table)
    → IsCalm (modify f)
IsCalm-modify f ep ec et = record {
  at = λ w h. record {
    keeps = record {
      known = λ p c. omega (
        arith,
        h.known p c,
        ap (λ g. count c (g p).channels) (ep w),
        ap (λ g. count p (g c).players) (ec w),
      );
      once = λ p c. omega (arith, h.once p c, ap (λ g. count p (g c).players) (ec w));
    };
    spectators = λ p. ap (λ g. (g p).spectators) (ep w);
    spectating = λ p. ap (λ g. (g p).spectating) (ep w);
    seat = λ p. ap (λ g. (g p).match) (ep w);
    slots = λ t. ap (λ g. (g t).state.slots) (et w);
  };
}

pub IsCalm-channel_enqueue :
    (b : Bytes) (immune : List ℕ) (c : ℕ) → IsCalm (channel_enqueue b immune c)
unfolding channel_enqueue
IsCalm-channel_enqueue b immune c = IsCalm-gets_then _ _ (λ l.
    IsCalm-each l _ (λ p. IsCalm-if (contains immune p) _ _ (IsCalm-pure tt) (IsCalm-enqueue b p)))

pub IsCalm-broadcast : (b : Bytes) (immune : List ℕ) → IsCalm (broadcast b immune)
unfolding broadcast
IsCalm-broadcast b immune = IsCalm-gets_then _ _ (λ l.
    IsCalm-each l _ (λ p. IsCalm-if (contains immune p) _ _ (IsCalm-pure tt) (IsCalm-enqueue b p)))

pub IsCalm-get_by_name : (name : Str) → IsCalm (get_by_name name)
unfolding get_by_name
IsCalm-get_by_name name = IsCalm-gets _

-- a new channel has no members
pub IsCalm-create_channel : (name topic : Str) (i : Bool) → IsCalm (create_channel name topic i)
unfolding create_channel new_channel
IsCalm-create_channel name topic i = IsCalm-gets_then _ _ (λ c.
    IsCalm-then _ _
      (record {
        at = λ w h. record {
          keeps = record {
            known = λ p d.
                update_at (λ d s. count p s.players ≤ count d (w.player p).channels) w.channel c _
                  (omega arith) (λ d ne. h.known p d) d;
            once = λ p.
                update_at (λ d s. count p s.players ≤ 1) w.channel c _ (omega arith)
                  (λ d ne. h.once p d);
          };
          spectators = λ p. refl;
          spectating = λ p. refl;
          seat = λ p. refl;
          slots = λ t. refl;
        };
      })
      (IsCalm-pure c))

pub IsCalm-list_channel : (c : ℕ) → IsCalm (list_channel c)
unfolding list_channel
IsCalm-list_channel c = IsCalm-modify _ (λ w. refl) (λ w. refl) (λ w. refl)

-- the spectators
pub IsCalm-tell_spectators : (self player : ℕ) → IsCalm (tell_spectators self player)
unfolding tell_spectators
IsCalm-tell_spectators self player = IsCalm-gets_then _ _ (λ stealth. IsCalm-gets_then _ _ (λ l.
    IsCalm-if stealth _ _ (IsCalm-each l _ (λ s. IsCalm-send _ player)) (
      IsCalm-packet_then _ _ (λ b.
        IsCalm-then _ _
          (IsCalm-each l _ (λ s. IsCalm-then _ _ (IsCalm-enqueue b s) (IsCalm-send _ player)))
          (IsCalm-send _ self)))))

pub IsCalm-tell_left : (self player c : ℕ) → IsCalm (tell_left self player c)
unfolding tell_left
IsCalm-tell_left self player c = IsCalm-bind _ _ (IsCalm-info_packet c) (λ info.
    IsCalm-packet_then _ _ (λ fellow.
      IsCalm-then _ _ (IsCalm-enqueue info self)
        (IsCalm-gets_then _ _ (λ l. IsCalm-each l _ (IsCalm-enqueue (fellow ++ info))))))

pub IsCalm-rejoin : (player new_host : ℕ) → IsCalm (rejoin player new_host)
unfolding rejoin
IsCalm-rejoin player new_host = IsCalm-gets_then _ _ (λ stealth. IsCalm-gets_then _ _ (λ l.
    IsCalm-if stealth _ _ (IsCalm-pure tt) (
      IsCalm-packet_then _ _ (λ b. IsCalm-then _ _ (IsCalm-enqueue b new_host) (
        IsCalm-packet_then _ _ (λ b.
          IsCalm-each l _
            (λ s. IsCalm-if (s == player) _ _ (IsCalm-pure tt) (IsCalm-enqueue b s))))))))

pub IsCalm-handle_frames : (player : ℕ) (raw_data : Bytes) → IsCalm (handle_frames player raw_data)
unfolding handle_frames
IsCalm-handle_frames player raw_data =
    IsCalm-bind _ _ (IsCalm-or_raise _)
      (λ b. IsCalm-gets_then _ _ (λ l. IsCalm-each l _ (IsCalm-enqueue b)))

IsCalm-cannot_watch : (player : ℕ) (host : Option ℕ) → IsCalm (cannot_watch player host)
IsCalm-cannot_watch player none = IsCalm-pure tt
IsCalm-cannot_watch player (some host) = IsCalm-gets_then _ _ (λ stealth. IsCalm-gets_then _ _ (λ l.
    IsCalm-if stealth _ _ (IsCalm-pure tt) (
      IsCalm-packet_then _ _
        (λ b. IsCalm-then _ _ (IsCalm-enqueue b host) (IsCalm-each l _ (IsCalm-enqueue b))))))

pub IsCalm-cant_spectate : (player : ℕ) → IsCalm (cant_spectate player)
unfolding cant_spectate
IsCalm-cant_spectate player = IsCalm-gets_then _ _ (IsCalm-cannot_watch player)

module _ (app : App) where
  pub IsCalm-spec_channel : (self : ℕ) (found : Option ℕ) → IsCalm (spec_channel app self found)
  unfolding spec_channel
  IsCalm-spec_channel self (some c) = IsCalm-pure c
  IsCalm-spec_channel self none = IsCalm-gets_then _ _ (λ name.
      IsCalm-bind _ _ (IsCalm-create_channel _ _ true) (λ c.
        IsCalm-bind _ _ (IsCalm-join_channel self c)
          (λ joined. IsCalm-then _ _ (IsCalm-list_channel c) (IsCalm-pure c))))
