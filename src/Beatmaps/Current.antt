-- ===== src/Beatmaps/Current.antt =====
-- Maps after an update from osu!api, against `_update_if_available` of app/objects/beatmap.py.
use mathlib.Core.Path.{subst}
use mathlib.Core.List.{Memᴰ}
use eunga_py.Prelude.{
  ℕ, ◌≡◌, refl, sym, ap, ◌∙◌, inl, Bool, true, false, not, ◌||◌, Option, none, some, List, [], ◌∷◌,
  ◌++◌, All, if◌then◌else◌,
}
use eunga_py.Prelude.Int.{ℤ, eq_ℤ}
use eunga_py.Prelude.Text.{Str, eq_str}
use eunga_py.Prelude.Text.Laws.{eq_str-eq}
use eunga_py.Prelude.Options.{bind_some, some_inj}
use eunga_py.RankedStatus.{from_osuapi}
use eunga_py.Beatmaps.{
  Beatmap, ApiMap, Parsing, status_value, set_key, find_key, parse_from_osuapi_resp,
}
use eunga_py.Beatmaps.Update.{
  BeatmapSet, Statement, replace_set, replace_maps, found, deletions, update_if_available,
  new_beatmap, by_id, by_beatmap_id, update_map, keep, update_old, add, add_new, update_maps,
}
use eunga_py.Beatmaps.Parsed.{
  status_value-eq, All-set_key, find_key-All, parse-Parsed, status-FromApi, Current,
}

written : (l : List Statement) (a b : Statement) → Memᴰ b (l ++ (a ∷ b ∷ []))
written [] a b = Memᴰ.tail (Memᴰ.head refl)
written (c ∷ l) a b = Memᴰ.tail (written l a b)

module _ (py : Parsing) where
  open py use {int}

  module _ (olds : List Beatmap) (response : List ApiMap) where
    abbrev Answered : ℤ × ApiMap → Type 0
    Answered (k, r) = Memᴰ r response × (int r.beatmap_id ≡ some k)

    abbrev Before : ℤ × Beatmap → Type 0
    Before (k, m) = Memᴰ m olds × (m.id ≡ k)

    by_beatmap_id-Answered :
        (d : List (ℤ × ApiMap)) (l : List ApiMap) (new : List (ℤ × ApiMap))
        → ((r : ApiMap) → Memᴰ r l → Memᴰ r response)
        → All Answered d
        → by_beatmap_id py d l ≡ some new
        → All Answered new
    unfolding by_beatmap_id
    by_beatmap_id-Answered d [] new among p e = subst (All Answered) (some_inj e) p
    by_beatmap_id-Answered d (r ∷ l) new among p e =
        let (id, read, rest) =
          bind_some (int r.beatmap_id) (λ id. by_beatmap_id py (set_key id r d) l) e in
        by_beatmap_id-Answered (set_key id r d) l new (λ k h. among k (Memᴰ.tail h))
          (All-set_key Answered id r d (among r (Memᴰ.head refl), read) p) rest

    by_id-Before :
        (d : List (ℤ × Beatmap)) (l : List Beatmap)
        → ((m : Beatmap) → Memᴰ m l → Memᴰ m olds)
        → All Before d
        → All Before (by_id d l)
    unfolding by_id
    by_id-Before d [] among p = p
    by_id-Before d (m ∷ l) among p =
        by_id-Before (set_key m.id m d) l (λ k h. among k (Memᴰ.tail h))
          (All-set_key Before m.id m d (among m (Memᴰ.head refl), refl) p)

    parsed-Current :
        (m : Beatmap) (r : ApiMap) (m' : Beatmap)
        → Answered (m.id, r)
        → (m.frozen ≡ true → Memᴰ m olds)
        → parse_from_osuapi_resp py m r ≡ some m'
        → Current py olds response m'
    parsed-Current m r m' p mem e =
        let q = parse-Parsed py m r m' e in
        record {
          api = r;
          among = p.0;
          id = p.1 ∙ ap some (sym q.id);
          md5 = q.md5;
          status = status-FromApi py olds m r m' mem q;
        }

    same_or_parsed :
        (m : Beatmap) (r : ApiMap) (m' : Beatmap) (n : ℤ)
        → Answered (m.id, r)
        → Memᴰ m olds
        → int r.approved ≡ some n
        → (md5 status : Bool) → eq_str m.md5 r.file_md5 ≡ md5
        → eq_ℤ (status_value m.status) (status_value (from_osuapi n)) ≡ status
        → (if not md5 || not status then parse_from_osuapi_resp py m r else some m) ≡ some m'
        → Current py olds response m'
    same_or_parsed m r m' n p mem read true true f g e =
        subst (Current py olds response) (some_inj e) (record {
          api = r;
          among = p.0;
          id = p.1;
          md5 = eq_str-eq m.md5 r.file_md5 f;
          status = inl (n, read, status_value-eq m.status (from_osuapi n) g);
        })
    same_or_parsed m r m' n p mem read true false f g e = parsed-Current m r m' p (λ h. mem) e
    same_or_parsed m r m' n p mem read false status f g e = parsed-Current m r m' p (λ h. mem) e

    update_map-Current :
        (m : Beatmap) (r : ApiMap) (m' : Beatmap)
        → Answered (m.id, r)
        → Memᴰ m olds
        → update_map py m r ≡ some m'
        → Current py olds response m'
    unfolding update_map
    update_map-Current m r m' p mem e =
        let (n, read, rest) = bind_some (int r.approved) _ e in
        same_or_parsed m r m' n p mem read (eq_str m.md5 r.file_md5) _ refl refl rest

    keep-Current :
        (o : Option ApiMap) (m : Beatmap) (rest kept : List Beatmap × List Str)
        → ((r : ApiMap) → o ≡ some r → Answered (m.id, r))
        → Memᴰ m olds
        → All (Current py olds response) rest.0
        → keep py o m rest ≡ some kept
        → All (Current py olds response) kept.0
    keep-Current none m rest kept p mem q e =
        subst (λ k. All (Current py olds response) k.0) (some_inj e) q
    keep-Current (some r) m rest kept p mem q e =
        let (m', f, done) = bind_some (update_map py m r) (λ k. some (k ∷ rest.0, rest.1)) e in
        subst (λ k. All (Current py olds response) k.0) (some_inj done)
          (update_map-Current m r m' (p r refl) mem f, q)

    module _ (new : List (ℤ × ApiMap)) (answered : All Answered new) where
      update_old-Current :
          (l : List (ℤ × Beatmap)) (kept : List Beatmap × List Str)
          → All Before l
          → update_old py new l ≡ some kept
          → All (Current py olds response) kept.0
      unfolding update_old
      update_old-Current [] kept p e =
          subst (λ k. All (Current py olds response) k.0) (some_inj e) tt
      update_old-Current ((id, m) ∷ l) kept p e =
          let (rest, f, last) = bind_some (update_old py new l) (keep py (find_key id new) m) e in
          keep-Current (find_key id new) m rest kept
            (λ r g.
              let (mem, read) = find_key-All Answered id new r answered g in
              (mem, read ∙ ap some (sym p.0.1)))
            p.0.0 (update_old-Current l rest p.1 f) last

      add-Current :
          (o : Option Beatmap) (id : ℤ) (r : ApiMap) (rest added : List Beatmap)
          → Answered (id, r)
          → All (Current py olds response) rest
          → add py o id r rest ≡ some added
          → All (Current py olds response) added
      unfolding new_beatmap
      add-Current (some m) id r rest added p q e =
          subst (All (Current py olds response)) (some_inj e) q
      add-Current none id r rest added p q e =
          let (m', f, last) =
            bind_some (parse_from_osuapi_resp py (new_beatmap id) r) (λ k. some (k ∷ rest)) e in
          subst (All (Current py olds response)) (some_inj last)
            (parsed-Current (new_beatmap id) r m' p (λ h. absurd (cc)) f, q)

      add_new-Current :
          (old : List (ℤ × Beatmap)) (l : List (ℤ × ApiMap)) (added : List Beatmap)
          → All Answered l
          → add_new py old l ≡ some added
          → All (Current py olds response) added
      unfolding add_new
      add_new-Current old [] added p e = subst (All (Current py olds response)) (some_inj e) tt
      add_new-Current old ((id, r) ∷ l) added p e =
          let (rest, f, last) = bind_some (add_new py old l) (add py (find_key id old) id r) e in
          add-Current (find_key id old) id r rest added p.0 (add_new-Current old l rest p.1 f) last

  All-append : (P : Beatmap → Type 0) (k l : List Beatmap) → All P k → All P l → All P (k ++ l)
  All-append P [] l p q = q
  All-append P (m ∷ k) l p q = (p.0, All-append P k l p.1 q)

  update_maps-Current :
      (olds : List Beatmap) (response : List ApiMap) (maps : List Beatmap) (deleted : List Str)
      → update_maps py olds response ≡ some (maps, deleted)
      → All (Current py olds response) maps
  unfolding update_maps
  update_maps-Current olds response maps deleted e =
      let (new, e1, rest1) = bind_some (by_beatmap_id py [] response) _ e in
      let (kept, e2, rest2) = bind_some (update_old py new (by_id [] olds)) _ rest1 in
      let (added, e3, last) = bind_some (add_new py (by_id [] olds) new) _ rest2 in
      let answered = by_beatmap_id-Answered olds response [] response new (λ r h. h) tt e1 in
      let before = by_id-Before olds response [] olds (λ m h. h) tt in
      subst (λ k. All (Current py olds response) k.0) (some_inj last)
        (All-append (Current py olds response) kept.0 added
          (update_old-Current olds response new answered (by_id [] olds) kept before e2)
          (add_new-Current olds response new answered (by_id [] olds) new added answered e3))

-- Let osu!api answer with maps. If the update of a set ends without raising, every map of the set is as
-- some map of the answer that has its id: it has its MD5, and the status that the answer has for it, or it
-- is frozen and has the status of a frozen map with its id that was in the set before. The maps of the set
-- are those that are written to the database.
pub update_if_available-Current :
    (py : Parsing) (now : ℕ) (response : List ApiMap) (before after : BeatmapSet)
    (out : List Statement)
    → update_if_available py now (found response) before ≡ some (after, out)
    → All (Current py before.maps response) after.maps × Memᴰ (replace_maps after.maps) out
unfolding update_if_available
update_if_available-Current py now response before after out e =
    let (p, f, last) = bind_some (update_maps py before.maps response) _ e in
    let same = some_inj last in
    subst
      (λ (k : BeatmapSet × List Statement).
        All (Current py before.maps response) k.0.maps × Memᴰ (replace_maps k.0.maps) k.1)
      same
      (
        update_maps-Current py before.maps response p.0 p.1 f,
        written (deletions p.1) (replace_set before.id now) (replace_maps p.0),
      )
