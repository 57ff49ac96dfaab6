-- ===== src/Mods/Filter/Keys.antt =====
-- Lemmas on the last block of `filter_invalid_combos`, the key mods.
use Prim.Native.Nat.{bit_and}
use native.Mathlib.Nat.{le_trans}
use eunga_py.Prelude.{ℕ, ◌≤◌, Bool-cases, List, [], ◌∷◌, All, inl, inr, arith, ltb}
use eunga_py.Bits.{clear, IsSubset, bit-clear, bit-bit_and}
use eunga_py.Bits.Masks.{count_ones, count_ones-IsSubset}
use eunga_py.Mods.{Mods, key_mods, key_mod_list}
use eunga_py.Mods.Filter.{first_key, resolve_keys}

abbrev pub key_count : Mods → ℕ
key_count m = count_ones 31 (bit_and m key_mods)

first_key_one :
    (used : Mods) (l : List Mods)
    → All (λ k. count_ones 31 k ≤ 1) l
    → count_ones 31 (first_key used l) ≤ 1
unfolding first_key
first_key_one used [] h = unfold count_ones in omega arith
first_key_one used (k ∷ l) h = ground (arith, first_key_one used l h.1)

single_keys : All (λ k. count_ones 31 k ≤ 1) key_mod_list
unfolding count_ones
single_keys = omega arith

kept : (m k : Mods) → IsSubset (bit_and (clear m (clear (bit_and m key_mods) k)) key_mods) k
kept m k = record {
  at = λ i h. ground (
    arith,
    bit-bit_and (clear m (clear (bit_and m key_mods) k)) key_mods i,
    bit-clear m (clear (bit_and m key_mods) k) i,
    bit-clear (bit_and m key_mods) k i,
    bit-bit_and m key_mods i,
  );
}

pub resolve_keys_one : (m : Mods) → key_count (resolve_keys m) ≤ 1
unfolding resolve_keys
resolve_keys_one m =
    let first : Mods = first_key (bit_and m key_mods) key_mod_list in
    elim (Bool-cases (ltb 1 (key_count m))) [
      | inl many ↦ rw many (
          le_trans (count_ones-IsSubset 31 (kept m first))
            (first_key_one (bit_and m key_mods) key_mod_list single_keys))
      | inr few ↦ rw few (ground arith)
    ]
