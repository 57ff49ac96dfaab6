-- ===== src/World/Players.antt =====
-- `logout`, the queue of packets and the friends and blocks of app/objects/player.py, and the list of
-- players of app/objects/collections.py.
use eunga_py.Prelude.{
  ℕ, zero, suc, Bool, true, false, Option, none, some, List, [], ◌∷◌, ◌++◌, is_empty, if◌then◌else◌,
}
use eunga_py.Prelude.Int.{pos}
use eunga_py.Prelude.Actions.{pure, or_raise, ◌>>=◌, ◌>>◌}
use eunga_py.Packets.Integers.{Bytes}
use eunga_py.Packets.Server
use eunga_py.World.{
  Act, App, gets, modify, on_player, contains, list_remove, each, enqueue, restricted,
}
use eunga_py.World.Channels.{packet, leave_channel}
use eunga_py.World.Spectating.{remove_spectator}
use eunga_py.World.Matches.{leave_match}

-- b"".join(queue)
unfoldable pub joined : List Bytes → Bytes
joined [] = []
joined (b ∷ l) = b ++ joined l

-- `Player.dequeue`: all that was enqueued, none if nothing was, and the queue is cleared
unfoldable pub dequeue : ℕ → Act (Option Bytes)
dequeue p = do
  l ← gets (λ w. (w.player p).queue)
  if is_empty l
      then pure none
      else on_player p (λ s. record s { queue = [] }) >> pure (some (joined l))

-- `Players.enqueue`
unfoldable pub broadcast : Bytes → List ℕ → Act Unit
broadcast b immune = do
  l ← gets (λ w. w.online)
  each l (λ p. if contains immune p then pure tt else enqueue b p)

-- `Players.append` and `Players.remove`, of the list
unfoldable pub sign_in : ℕ → Act Unit
sign_in p = do
  l ← gets (λ w. w.online)
  if contains l p then pure tt else modify (λ w. record w { online = w.online ++ (p ∷ []) })

unfoldable pub sign_out : ℕ → Act Unit
sign_out p = do
  l ← gets (λ w. w.online)
  if contains l p
      then or_raise (list_remove l p) >>= (λ l'. modify (λ w. record w { online = l' }))
      else pure tt

-- one round: the first channel is left, and the loop goes on
abbrev pub leave_first : ℕ → List ℕ → Act Bool → Act Bool
leave_first p [] rest = pure true
leave_first p (c ∷ l) rest = leave_channel p c false >> rest

-- `while self.channels: self.leave_channel(self.channels[0], kick=False)`: the answer is false if the
-- fuel ran out
unfoldable pub leave_channels : ℕ → ℕ → Act Bool
leave_channels p zero = gets (λ w. is_empty (w.player p).channels)
leave_channels p (suc fuel) = do
  l ← gets (λ w. (w.player p).channels)
  leave_first p l (leave_channels p fuel)

-- `players.remove(self)` and the packet to all others, unless the player is restricted
unfoldable pub say_goodbye : ℕ → Act Unit
say_goodbye p = do
  sign_out p
  r ← gets (λ w. restricted (w.player p))
  if r then pure tt else packet (λ online. Server.logout online (pos p)) >>= (λ b. broadcast b [])

module _ (app : App) where
  -- `logout` up to its loop
  unfoldable pub drop_ties : ℕ → Act Unit
  drop_ties p = do
    on_player p (λ s. record s { token = [] })
    leave_match app p
    host ← gets (λ w. (w.player p).spectating)
    elim host [ none ↦ pure tt | some h ↦ remove_spectator app h p ]

  -- `logout`, with fuel for its loop: false if the loop has not ended
  unfoldable pub logout : ℕ → ℕ → Act Bool
  logout fuel p = do
    drop_ties p
    ended ← leave_channels p fuel
    if ended then say_goodbye p >> pure true else pure false

-- `add_friend` and `remove_friend`, on the sets of a session
unfoldable pub add_friend : ℕ → ℕ → Act Unit
add_friend self q = do
  l ← gets (λ w. (w.player self).friends)
  if contains l q
      then pure tt
      else on_player self (λ s. record s { friends = s.friends ++ (q ∷ []) })

unfoldable pub remove_friend : ℕ → ℕ → Act Unit
remove_friend self q = do
  l ← gets (λ w. (w.player self).friends)
  if contains l q
      then or_raise (list_remove l q) >>= (λ l'. on_player self (λ s. record s { friends = l' }))
      else pure tt

unfoldable pub add_block : ℕ → ℕ → Act Unit
add_block self q = do
  l ← gets (λ w. (w.player self).blocks)
  if contains l q then pure tt else on_player self (λ s. record s { blocks = s.blocks ++ (q ∷ []) })

unfoldable pub remove_block : ℕ → ℕ → Act Unit
remove_block self q = do
  l ← gets (λ w. (w.player self).blocks)
  if contains l q
      then or_raise (list_remove l q) >>= (λ l'. on_player self (λ s. record s { blocks = l' }))
      else pure tt
