-- ===== src/Scores/Play.antt =====
-- `Score` of app/objects/score.py: a play that is submitted, its accuracy, its place and its status.
use eunga_py.Prelude.{
  ℕ, ◌+◌, Bool, true, false, ◌&&◌, Option, none, some, List, [], ◌∷◌, ◌++◌, leb, ◌==◌, get_elem?,
  if◌then◌else◌,
}
use eunga_py.Prelude.Int.{ℤ, pos, ◌+ℤ◌, eq_ℤ, lt_ℤ}
use eunga_py.Prelude.Text.{Str, codes, eq_str}
use eunga_py.Prelude.Options.{◌>>=◌}
use eunga_py.Bits.{has, clear}
use eunga_py.Mods.{Mods, scorev2}
use eunga_py.GameMode.{GameMode, value, as_vanilla, from_params}
use eunga_py.RankedStatus.{RankedStatus, ranked, approved, loved}
use eunga_py.Scores.{
  Grade, from_lower, grade_name, SubmissionStatus, submitted, best, submission_of, Float, Floats,
}
use eunga_py.Scores.Table.{Row, Key, fetch_best, fetch_one}

-- the parts of a `Beatmap` that a submission reads; the counters of plays are in the state
pub record Beatmap : Type 0 where
  pub md5 : Str
  pub id : ℕ
  pub set_id : ℕ
  pub status : RankedStatus
  pub embed : Str

unfoldable pub has_leaderboard : Beatmap → Bool
has_leaderboard m = elim m.status [ ranked ↦ true | approved ↦ true | loved ↦ true | _ ↦ false ]

unfoldable pub awards_ranked_pp : Beatmap → Bool
awards_ranked_pp m = true

-- the previous best score, an object made `from_sql`
pub record Previous : Type 0 where
  pub id : ℕ
  pub score : ℤ
  pub grade : Grade
  pub status : SubmissionStatus

-- An attribute that is not assigned yet is `none`, and to read it is an AttributeError; so for `id` and
-- `rank`, which are None.
pub record Score : Type 0 where
  pub id : Option ℕ
  pub bmap : Beatmap
  pub player : ℕ
  pub mode : GameMode
  pub mods : Mods
  pub pp : Option Float
  pub sr : Option Float
  pub score : ℤ
  pub max_combo : ℤ
  pub acc : Option Float
  pub n300 : ℤ
  pub n100 : ℤ
  pub n50 : ℤ
  pub nmiss : ℤ
  pub ngeki : ℤ
  pub nkatu : ℤ
  pub grade : Grade
  pub passed : Bool
  pub perfect : Bool
  pub status : Option SubmissionStatus
  pub client_time : Str
  pub time_elapsed : Option ℤ
  pub client_flags : ℕ
  pub client_checksum : Str
  pub rank : Option ℕ
  pub prev_best : Option Previous

-- What a score asks of Python: `int` of a text, `strptime` and the format that gives the same text back,
-- `str.lower`, `str` of an integer, the MD5 of a text in hexadecimal, and the floats. `to_nat` is the
-- number that is not negative: negative mods and modes are refused, where Python wraps them.
pub record Python : Type 0 where
  pub floats : Floats
  pub int : Str → Option ℤ
  pub to_nat : ℤ → Option ℕ
  pub strptime : Str → Option Str
  pub lower : Str → Str
  pub str : ℤ → Str
  pub md5 : Str → Str

unfoldable pub count_spaces : Str → ℕ
count_spaces [] = 0
count_spaces (c ∷ t) = if c == b' ' then count_spaces t + 1 else count_spaces t

-- a Boolean in the checksum
unfoldable pub bool_text : Bool → Str
bool_text true = codes "True"
bool_text false = codes "False"

unfoldable pub key_of : Score → Key
key_of s = record { map_md5 = s.bmap.md5; user = s.player; mode = value s.mode }

module _ (py : Python) where
  open py use {floats, int, to_nat, strptime, lower, str, md5}
  open floats use {of_int, decimal, add, mul, div, gt}

  unfoldable pub int_at : List Str → ℕ → Option ℤ
  int_at fields i = do t ← get_elem? fields i; int t

  -- `from_submission`, with the beatmap and the player that `build_score_from_submission_request` sets
  unfoldable pub from_submission : Beatmap → ℕ → List Str → Option Score
  from_submission bmap player fields = do
    checksum ← get_elem? fields 0
    n300 ← int_at fields 1
    n100 ← int_at fields 2
    n50 ← int_at fields 3
    ngeki ← int_at fields 4
    nkatu ← int_at fields 5
    nmiss ← int_at fields 6
    score ← int_at fields 7
    max_combo ← int_at fields 8
    perfect ← get_elem? fields 9
    grade_text ← get_elem? fields 10
    grade ← from_lower (lower grade_text)
    mods_number ← int_at fields 11
    mods ← to_nat mods_number
    passed ← get_elem? fields 12
    mode_number ← int_at fields 13
    mode_vn ← to_nat mode_number
    mode ← from_params mode_vn mods
    time_text ← get_elem? fields 14
    client_time ← strptime time_text
    version ← get_elem? fields 15
    some (record {
      id = none;
      bmap = bmap;
      player = player;
      mode = mode;
      mods = mods;
      pp = none;
      sr = none;
      score = score;
      max_combo = max_combo;
      acc = none;
      n300 = n300;
      n100 = n100;
      n50 = n50;
      nmiss = nmiss;
      ngeki = ngeki;
      nkatu = nkatu;
      grade = grade;
      passed = eq_str passed (codes "True");
      perfect = eq_str perfect (codes "True");
      status = none;
      client_time = client_time;
      time_elapsed = none;
      client_flags = clear (count_spaces version) 4;
      client_checksum = checksum;
      rank = none;
      prev_best = none;
    })

  -- `a * w`, an integer count times a float literal
  abbrev weigh : ℤ → ℕ → Float
  weigh a w = mul (of_int a) (of_int (pos w))

  -- `100.0 * points / most`
  abbrev percent : Float → Float → Option Float
  percent points most = div (mul (of_int (pos 100)) points) most

  unfoldable pub accuracy_osu : Score → Option Float
  accuracy_osu s =
      let total = s.n300 +ℤ s.n100 +ℤ s.n50 +ℤ s.nmiss in
      if eq_ℤ total (pos 0)
      then some (of_int (pos 0))
      else percent (add (add (weigh s.n300 300) (weigh s.n100 100)) (weigh s.n50 50))
          (weigh total 300)

  unfoldable pub accuracy_taiko : Score → Option Float
  accuracy_taiko s =
      let total = s.n300 +ℤ s.n100 +ℤ s.nmiss in
      if eq_ℤ total (pos 0)
      then some (of_int (pos 0))
      else percent (add (mul (of_int s.n100) (decimal 5 1)) (of_int s.n300)) (of_int total)

  unfoldable pub accuracy_catch : Score → Option Float
  accuracy_catch s =
      let total = s.n300 +ℤ s.n100 +ℤ s.n50 +ℤ s.nkatu +ℤ s.nmiss in
      if eq_ℤ total (pos 0)
      then some (of_int (pos 0))
      else percent (of_int (s.n300 +ℤ s.n100 +ℤ s.n50)) (of_int total)

  unfoldable pub accuracy_mania : Score → Option Float
  accuracy_mania s =
      let total = s.n300 +ℤ s.n100 +ℤ s.n50 +ℤ s.ngeki +ℤ s.nkatu +ℤ s.nmiss in
      let low = add (add (weigh s.n50 50) (weigh s.n100 100)) (weigh s.nkatu 200) in
      if eq_ℤ total (pos 0)
      then some (of_int (pos 0))
      else if has s.mods scorev2
      then percent (add (add low (weigh s.n300 300)) (weigh s.ngeki 305)) (weigh total 305)
      else percent (add low (weigh (s.n300 +ℤ s.ngeki) 300)) (weigh total 300)

  -- the last case, a mode that is none of the four, raises
  unfoldable pub calculate_accuracy : Score → Option Float
  calculate_accuracy s =
      let mode_vn = as_vanilla s.mode in
      if mode_vn == 0
      then accuracy_osu s
      else if mode_vn == 1
      then accuracy_taiko s
      else if mode_vn == 2
      then accuracy_catch s
      else if mode_vn == 3
      then accuracy_mania s
      else none

  -- the text of which `compute_online_checksum` takes the MD5, from the name the player goes by
  unfoldable pub compute_online_checksum : Str → Str → Str → Str → Score → Str
  compute_online_checksum name osu_version client_hash storyboard s = md5 (
      codes "chickenmcnuggets"
      ++ str (s.n100 +ℤ s.n300)
      ++ codes "o15"
      ++ str s.n50
      ++ str s.ngeki
      ++ codes "smustard"
      ++ str s.nkatu
      ++ str s.nmiss
      ++ codes "uu"
      ++ s.bmap.md5
      ++ str s.max_combo
      ++ bool_text s.perfect
      ++ name
      ++ str s.score
      ++ grade_name s.grade
      ++ str (pos s.mods)
      ++ codes "Q"
      ++ bool_text s.passed
      ++ str (pos (as_vanilla s.mode))
      ++ osu_version
      ++ s.client_time
      ++ client_hash
      ++ storyboard)

  -- `Score.from_sql`: of the columns, those that the submission reads later
  unfoldable pub from_sql : ℕ → List Row → Option Previous
  from_sql i rows = do
    r ← fetch_one i rows
    grade ← from_lower (lower r.grade)
    status ← submission_of r.status
    some (record { id = r.id; score = r.score; grade = grade; status = status })

  unfoldable pub judge_against : List Row → Score → List Row → Option Score
  judge_against rows s [] = some (record s { status = some best })
  judge_against rows s (rec ∷ _) = do
    prev ← from_sql rec.id rows
    pp ← s.pp
    some (
        if gt pp rec.pp
        then record s { prev_best = some (record prev { status = submitted }); status = some best }
        else record s { prev_best = some prev; status = some submitted })

  -- `calculate_status`
  unfoldable pub calculate_status : List Row → Score → Option Score
  calculate_status rows s = judge_against rows s (fetch_best (key_of s) rows)

  -- the scores that `calculate_placement` counts: better ones of unrestricted users on the same map
  unfoldable pub is_better : (ℕ → Bool) → Score → Row → Option Bool
  is_better visible s r =
      let on_board =
        eq_str r.map_md5 s.bmap.md5
        && (r.mode == value s.mode && (r.status == 2 && visible r.userid)) in
      if leb 4 (value s.mode)
      then (do pp ← s.pp; some (on_board && gt r.pp pp))
      else some (on_board && lt_ℤ s.score r.score)

  unfoldable pub count_better : (ℕ → Bool) → Score → List Row → Option ℕ
  count_better visible s [] = some 0
  count_better visible s (r ∷ l) = do
    rest ← count_better visible s l
    better ← is_better visible s r
    some (if better then rest + 1 else rest)

  unfoldable pub calculate_placement : (ℕ → Bool) → Score → List Row → Option ℕ
  calculate_placement visible s rows = do n ← count_better visible s rows; some (n + 1)
