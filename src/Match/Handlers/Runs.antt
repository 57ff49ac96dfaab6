-- ===== src/Match/Handlers/Runs.antt =====
-- Packets of the players of a match, one after the other, handled as in app/api/domains/cho.py. The
-- server goes on after a handler raised.
use eunga_py.Prelude.{ℕ, List, [], ◌∷◌}
use eunga_py.Match.Room.{Room, Sessions}
use eunga_py.Match.Room.Triple.{Sound}
use eunga_py.Match.Handlers.{Event, handle}

unfoldable pub run : Sessions → List (ℕ × Event) → Room → Room
run app [] r = r
run app ((p, e) ∷ l) r = run app l (handle app p e r).1
