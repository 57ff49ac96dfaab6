-- ===== src/Submission/Best.antt =====
-- The table `scores` under `persist_score_submission` of app/services/score_submission.py: a user has at
-- most one best score on a map in a mode.
use mathlib.Core.Path.{subst}
use eunga_py.Prelude.{
  ℕ, ◌≡◌, refl, sym, ◌∙◌, Bool, true, false, Option, none, some, List, [], arith,
}
use eunga_py.Prelude.Int.{ℤ}
use eunga_py.Prelude.Text.Laws.{eq_str-eq}
use eunga_py.Prelude.Options.{some_inj}
use eunga_py.GameMode.{value}
use eunga_py.Scores.{SubmissionStatus, failed, submitted, best, submission_value, Float, Floats}
use eunga_py.Scores.Table.{Row, Key, is_best, fetch_best, create}
use eunga_py.Scores.Table.Best.{OneBest, fetch_best-mark, mark-OneBest, add-OneBest}
use eunga_py.Scores.Play.{Score, key_of}
use eunga_py.Submission.{State, Reply, Action, pure, or_raise, modify, when, query, ◌>>=◌, ◌>>◌}
use eunga_py.Submission.Keeps.{
  Keeps, Leads, Keeps-Leads, or_raise-Leads, query-Leads, pure-Keeps, bind-Keeps, get-Keeps,
  Leads-Keeps, modify-Keeps,
}
use eunga_py.Submission.Stats.{is_personal_best}
use eunga_py.Submission.Persist.{
  row_of, row_with, row_from, on_rows, mark_rows, set_id, persist_submitted_score,
}

pub row_from-some :
    (floats : Floats) (s : Score) (pp acc : Option Float) (status : Option SubmissionStatus)
    (time : Option ℤ) (r : Row)
    → row_from floats s pp acc status time ≡ some r
    → (p : Float) × (q : Float) × (st : SubmissionStatus) × (t : ℤ) × (status ≡ some st)
      × (r ≡ row_with floats s p q st t)
row_from-some floats s (some p) (some q) (some st) (some t) r e =
    (p, q, st, t, refl, sym (some_inj e))
row_from-some floats s none _ _ _ r e = absurd (cc)
row_from-some floats s (some p) none _ _ r e = absurd (cc)
row_from-some floats s (some p) (some q) none _ r e = absurd (cc)
row_from-some floats s (some p) (some q) (some st) none r e = absurd (cc)

pub personal_status :
    (s : Score) (st : SubmissionStatus)
    → s.status ≡ some st
    → (b : Bool) → is_personal_best s ≡ some b
    → submission_value st ≡ 2
    → b ≡ true
unfolding is_personal_best submission_value
personal_status s failed e b p h = absurd (omega (arith, h))
personal_status s submitted e b p h = absurd (omega (arith, h))
personal_status s best e b p h = some_inj (sym p ∙ rw e)

-- the status of the row is that of the score, as are the map, the user and the mode
pub row_of-status :
    (floats : Floats) (s : Score) (r : Row)
    → row_of floats s ≡ some r
    → (b : Bool) → is_personal_best s ≡ some b
    → (k : Key) → is_best k r ≡ true
    → (b ≡ true) × (key_of s ≡ k)
unfolding row_of key_of is_best row_with
row_of-status floats s r e b p k h =
    let (pp, acc, st, t, f, q) = row_from-some floats s s.pp s.acc s.status s.time_elapsed r e in
    let row = row_with floats s pp acc st t in
    let h' : is_best k row ≡ true = subst (λ z. is_best k z ≡ true) q h in
    let maps : s.bmap.md5 ≡ k.map_md5 = eq_str-eq _ _ (ground arith) in
    let users : s.player ≡ k.user = ground arith in
    let modes : value s.mode ≡ k.mode = ground arith in
    (
      personal_status s st f b p (ground arith),
      λ i. record { map_md5 = maps i; user = users i; mode = modes i },
    )

abbrev pub OneBestIn : State → Type 0
OneBestIn s = OneBest s.tables.scores.list

-- there is none for the key if the score is to be a best one
abbrev Ready : Score → Bool → State → Type 0
Ready z b s = OneBestIn s × (b ≡ true → fetch_best (key_of z) s.tables.scores.list ≡ [])

module _ (floats : Floats) (z : Score) (b : Bool) (personal : is_personal_best z ≡ some b) where
  added :
      (r : Row)
      → row_of floats z ≡ some r
      → (s : State) (replies : List Reply) → Ready z b s
      → OneBestIn (record s { tables = (on_rows (create r) s.tables).1; replies = replies })
  unfolding create is_best
  added r e s replies (one, none_yet) =
      add-OneBest s.tables.scores.list (record r { id = s.tables.scores.next_id }) one
        (λ k h.
          let (yes_best, key) = row_of-status floats z r e b personal k h in
          subst (λ j. fetch_best j s.tables.scores.list ≡ []) key (none_yet yes_best))

  insert-Leads : Leads (Ready z b) OneBestIn (
      or_raise (row_of floats z) >>= λ row.
      query (on_rows (create row)) >>= λ id. modify (set_id id) >> pure id)
  insert-Leads =
      or_raise-Leads (λ s p. p.0) _ _
        λ row e.
          query-Leads (λ s p. p.0) OneBestIn _ _ (λ s r p. p) (added row e)
            λ id.
              Keeps-Leads (λ s p. p) (bind-Keeps _ _ (modify-Keeps _ (λ s p. p)) λ _. pure-Keeps id)

abbrev insert : Floats → Score → Action ℕ
insert floats z = or_raise (row_of floats z) >>= λ row.
    query (on_rows (create row)) >>= λ id. modify (set_id id) >> pure id

marked :
    (z : Score) (s : State) (r : List Reply)
    → OneBestIn s
    → Ready z true (record s { tables = (on_rows (mark_rows z) s.tables).1; replies = r })
unfolding mark_rows
marked z s r p = (
  mark-OneBest (key_of z) s.tables.scores.list p,
  λ _. fetch_best-mark (key_of z) s.tables.scores.list,
)

mark-Leads :
    (floats : Floats) (z : Score) (b : Bool)
    → is_personal_best z ≡ some b
    → Leads OneBestIn OneBestIn (when b (query (on_rows (mark_rows z))) >>= λ _. insert floats z)
unfolding ◌>>=◌
mark-Leads floats z false e = record {
  apply = λ s p. (insert-Leads floats z false e).apply s (p, λ h. absurd (cc));
}
mark-Leads floats z true e =
    query-Leads (λ s p. p) (Ready z true) _ _ (λ s r p. p) (marked z)
      (λ _. insert-Leads floats z true e)

pub persist_submitted_score-OneBest :
    (floats : Floats) → Keeps OneBestIn (persist_submitted_score floats)
unfolding persist_submitted_score
persist_submitted_score-OneBest floats =
    get-Keeps _
      λ st p. Leads-Keeps (or_raise-Leads (λ s q. q) _ _ λ b e. mark-Leads floats st.score b e)
