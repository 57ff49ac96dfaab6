-- ===== src/Packets/RoundTrip/Rules.antt =====
-- Writers against readers, and the rules by which a chain of writers meets a chain of readers.
use eunga_py.Prelude.{
  ◌≡◌, refl, ◌∙◌, Option, none, some, List, [], ◌∷◌, ◌++◌, append_assoc, map, length, All, arith,
}
use eunga_py.Packets.Integers.{Bytes}
use eunga_py.Packets.Reader.{Reader, pure, ◌>>=◌, times}
use eunga_py.Packets.Writer.{◌<>◌}
use eunga_py.Packets.Writer.Structs.{each}

-- What the writer wrote, in front of anything, is read as the value, and nothing more is taken.
pub record Encodes (A : Type 0) (w : Option Bytes) (m : Reader A) (a : A) : Type 0 where
  pub at : (b rest : Bytes) → w ≡ some b → m (b ++ rest) ≡ some (a, rest)

<>-eq_some :
    (v w : Option Bytes) {b : Bytes}
    → (v <> w) ≡ some b
    → (x : Bytes) × (y : Bytes) × (v ≡ some x) × (w ≡ some y) × (b ≡ x ++ y)
unfolding ◌<>◌
<>-eq_some none w h = cc
<>-eq_some (some x) none h = cc
<>-eq_some (some x) (some y) h = (x, y, refl, refl, ground arith)

module _ {A B : Type 0} where
  pub >>=-of_some :
      (m : Reader A) (f : A → Reader B) (b : Bytes) {a : A} {r : Bytes}
      → m b ≡ some (a, r)
      → (m >>= f) b ≡ f a r
  unfolding ◌>>=◌
  >>=-of_some m f b h = ground (arith, h)

  pub Encodes-bind :
      (f : A → Reader B) {v w : Option Bytes} {m : Reader A} {a : A} {c : B}
      → Encodes A v m a
      → Encodes B w (f a) c
      → Encodes B (v <> w) (m >>= f) c
  Encodes-bind f {v} {w} {m} first second = record {
    at = λ b rest h.
        let (x, y, ex, ey, eb) = <>-eq_some v w h in
        rw (eb, append_assoc)
          (>>=-of_some m f (x ++ (y ++ rest)) (first.at x (y ++ rest) ex) ∙ second.at y rest ey);
  }

  -- the last value, from which the result is made
  pub Encodes-last :
      (g : A → B) {v : Option Bytes} {m : Reader A} {a : A}
      → Encodes A v m a
      → Encodes B v (m >>= λ x. pure (g x)) (g a)
  Encodes-last g {v} {m} first = record {
    at = λ b rest h. >>=-of_some m (λ x. pure (g x)) (b ++ rest) (first.at b rest h);
  }

pub Encodes-nil : {A : Type 0} (a : A) → Encodes A (some []) (pure a) a
Encodes-nil a = record { at = λ b rest h. ground arith }

module _ {A B : Type 0} (w : A → Option Bytes) (m : Reader B) (g : A → B) where
  -- A list, element by element.
  pub Encodes-each :
      (l : List A)
      → All (λ x. Encodes B (w x) m (g x)) l
      → Encodes (List B) (each w l) (times (length l) m) (map g l)
  unfolding each times
  Encodes-each [] h = Encodes-nil []
  Encodes-each (x ∷ l) h = Encodes-bind _ h.0 (Encodes-last (λ xs. g x ∷ xs) (Encodes-each l h.1))

-- A writer that writes nothing, and one that raises.
pub Encodes-skip :
    {A : Type 0} {v w : Option Bytes} {m : Reader A} {a : A}
    → v ≡ some []
    → Encodes A w m a
    → Encodes A (v <> w) m a
Encodes-skip {v = v} {w = w} e h = record {
  at = λ b rest p.
      let (x, y, ex, ey, eb) = <>-eq_some v w p in
      let nothing : x ≡ [] = cc in rw (eb, nothing) (h.at y rest ey);
}

pub Encodes-raise :
    {A : Type 0} {v : Option Bytes} (w : Option Bytes) (m : Reader A) (a : A)
    → v ≡ none
    → Encodes A (v <> w) m a
Encodes-raise {v = v} w m a e = record {
  at = λ b rest p. let (x, y, ex, ey, eb) = <>-eq_some v w p in cc;
}
