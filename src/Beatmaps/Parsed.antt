-- ===== src/Beatmaps/Parsed.antt =====
-- What `_parse_from_osuapi_resp` of app/objects/beatmap.py gives a map, and the entries of dictionaries.
use mathlib.Core.Path.{subst}
use mathlib.Core.List.{Memᴰ}
use eunga_py.Prelude.{
  zero, suc, ◌≡◌, refl, sym, ap, ◌∙◌, inl, inr, ◌⊎◌, true, some, List, [], ◌∷◌, All, Bool-cases,
  ==_iff,
}
use eunga_py.Prelude.Int.{ℤ, pos, negsuc, eq_ℤ}
use eunga_py.Prelude.Options.{bind_some, some_inj}
use eunga_py.GameMode.{of_value}
use eunga_py.RankedStatus.{
  RankedStatus, not_submitted, pending, update_available, ranked, approved, qualified, loved,
  from_osuapi,
}
use eunga_py.Beatmaps.{
  Beatmap, ApiMap, Parsing, status_value, set_key, find_key, parse_status, parse_last_update,
  int_or_zero, float_or_zero, parse_from_osuapi_resp,
}

eq_ℤ-eq : (a b : ℤ) → eq_ℤ a b ≡ true → a ≡ b
eq_ℤ-eq (pos a) (pos b) e = ap pos ((==_iff a b).0 e)
eq_ℤ-eq (negsuc a) (negsuc b) e = ap negsuc ((==_iff a b).0 e)
eq_ℤ-eq (pos a) (negsuc b) e = absurd (cc)
eq_ℤ-eq (negsuc a) (pos b) e = absurd (cc)

abbrev status_of : ℤ → RankedStatus
status_of (negsuc a) = not_submitted
status_of (pos zero) = pending
status_of (pos (suc zero)) = update_available
status_of (pos (suc (suc zero))) = ranked
status_of (pos (suc (suc (suc zero)))) = approved
status_of (pos (suc (suc (suc (suc zero))))) = qualified
status_of (pos (suc (suc (suc (suc (suc a)))))) = loved

status_of-value : (s : RankedStatus) → status_of (status_value s) ≡ s
unfolding status_value
status_of-value not_submitted = refl
status_of-value _ = refl

pub status_value-eq : (s t : RankedStatus) → eq_ℤ (status_value s) (status_value t) ≡ true → s ≡ t
status_value-eq s t e =
    sym (status_of-value s)
    ∙ ap status_of (eq_ℤ-eq (status_value s) (status_value t) e)
    ∙ status_of-value t

-- entries of a dictionary
module _ {A : Type 0} (P : ℤ × A → Type 0) where
  pub All-set_key : (k : ℤ) (v : A) (l : List (ℤ × A)) → P (k, v) → All P l → All P (set_key k v l)
  unfolding set_key
  All-set_key k v [] p q = (p, tt)
  All-set_key k v ((j, w) ∷ l) p q = elim (Bool-cases (eq_ℤ j k)) [
    | inl e ↦ rw e (subst (λ i. P (i, v)) (sym (eq_ℤ-eq j k e)) p, q.1)
    | inr e ↦ rw e (q.0, All-set_key k v l p q.1)
  ]

  pub find_key-All : (k : ℤ) (l : List (ℤ × A)) (v : A) → All P l → find_key k l ≡ some v → P (k, v)
  find_key-All k [] v p f = absurd (cc)
  find_key-All k ((j, w) ∷ l) v p f = elim (Bool-cases (eq_ℤ j k)) [
    | inl e ↦
        subst (λ i. P (i, v)) (eq_ℤ-eq j k e)
          (subst (λ u. P (j, u)) (some_inj (sym (rw e) ∙ f)) p.0)
    | inr e ↦ find_key-All k l v p.1 (sym (rw e) ∙ f)
  ]

module _ (py : Parsing) where
  open py use {int, to_nat, float}

  -- what a map has from osu!api when it is parsed: a map that is frozen keeps its status
  pub record Parsed (m : Beatmap) (r : ApiMap) (m' : Beatmap) : Type 0 where
    pub id : m'.id ≡ m.id
    pub md5 : m'.md5 ≡ r.file_md5
    pub frozen : m'.frozen ≡ m.frozen
    pub status : parse_status py m r ≡ some m'.status

  pub parse-Parsed :
      (m : Beatmap) (r : ApiMap) (m' : Beatmap)
      → parse_from_osuapi_resp py m r ≡ some m'
      → Parsed m r m'
  unfolding parse_from_osuapi_resp
  parse-Parsed m r m' e =
      let (x1, y1, e1) = bind_some (int r.beatmapset_id) _ e in
      let (x2, y2, e2) = bind_some (parse_last_update py r.last_update) _ e1 in
      let (x3, y3, e3) = bind_some (int r.total_length) _ e2 in
      let (x4, y4, e4) = bind_some (int_or_zero py r.max_combo) _ e3 in
      let (status, parsed, e5) = bind_some (parse_status py m r) _ e4 in
      let (x6, y6, e6) = bind_some (int r.mode) _ e5 in
      let (x7, y7, e7) = bind_some (to_nat x6) _ e6 in
      let (x8, y8, e8) = bind_some (of_value x7) _ e7 in
      let (x9, y9, e9) = bind_some (float_or_zero py r.bpm) _ e8 in
      let (x10, y10, e10) = bind_some (float r.diff_size) _ e9 in
      let (x11, y11, e11) = bind_some (float r.diff_overall) _ e10 in
      let (x12, y12, e12) = bind_some (float r.diff_approach) _ e11 in
      let (x13, y13, e13) = bind_some (float r.diff_drain) _ e12 in
      let (x14, y14, e14) = bind_some (float r.difficultyrating) _ e13 in
      let q = sym (some_inj e14) in
      record {
        id = ap (λ (k : Beatmap). k.id) q;
        md5 = ap (λ (k : Beatmap). k.md5) q;
        frozen = ap (λ (k : Beatmap). k.frozen) q;
        status = parsed ∙ sym (ap (λ (k : Beatmap). some k.status) q);
      }

  -- the status is that of osu!api, or the map is frozen and a map before has the status
  abbrev pub FromApi : List Beatmap → ApiMap → Beatmap → Type 0
  FromApi olds r m' =
      ((n : ℤ) × (int r.approved ≡ some n) × (m'.status ≡ from_osuapi n))
      ⊎ ((m'.frozen ≡ true)
          × ((m : Beatmap) × Memᴰ m olds
              × (m.id ≡ m'.id)
              × (m.frozen ≡ true)
              × (m'.status ≡ m.status)))

  -- a map is as a map of the answer with its id is
  pub record Current (olds : List Beatmap) (response : List ApiMap) (m' : Beatmap) : Type 0 where
    pub api : ApiMap
    pub among : Memᴰ api response
    pub id : int api.beatmap_id ≡ some m'.id
    pub md5 : m'.md5 ≡ api.file_md5
    pub status : FromApi olds api m'

  pub status-FromApi :
      (olds : List Beatmap) (m : Beatmap) (r : ApiMap) (m' : Beatmap)
      → (m.frozen ≡ true → Memᴰ m olds)
      → Parsed m r m'
      → FromApi olds r m'
  unfolding parse_status
  status-FromApi olds m r m' mem p = elim (Bool-cases m.frozen) [
    | inl f ↦ inr (p.frozen ∙ f, (m, mem f, sym p.id, f, some_inj (sym (sym (rw f) ∙ p.status))))
    | inr f ↦
        let (n, read, e) =
          bind_some (int r.approved) (λ k. some (from_osuapi k)) (sym (rw f) ∙ p.status) in
        inl (n, read, sym (some_inj e))
  ]
