-- ===== src/Submission/Checks.antt =====
-- What `submit_score` of app/services/score_submission.py reads from a request and checks of it: the
-- user name, the hashes of the client, the checksum of the score and the hash of the beatmap. The checks
-- raise ValueError or AssertionError, which `submit_score` catches: they are true if nothing is raised.
use eunga_py.Prelude.{
  ℕ, ◌-◌, Bool, false, ◌&&◌, Option, none, some, List, [], ◌∷◌, ◌==◌, get_elem?, take, length,
  if◌then◌else◌,
}
use eunga_py.Prelude.Int.{ℤ}
use eunga_py.Prelude.Text.{Str, eq_str}
use eunga_py.Prelude.Options.{◌>>=◌}
use eunga_py.Scores.Play.{Score, Beatmap, Python, from_submission, compute_online_checksum}
use eunga_py.Submission.{ClientDetails, Account}

-- `ScoreSubmissionRequest`; `replay_file` is what reading the file gives
pub record Request : Type 0 where
  pub score_data : List Str
  pub password_md5 : Str
  pub osu_version : Str
  pub client_hash : Str
  pub unique_ids : Str
  pub storyboard_md5 : Option Str
  pub updated_beatmap_hash : Str
  pub score_time : ℤ
  pub fail_time : ℤ
  pub replay_file : List ℕ

-- an IndexError if the data is empty
unfoldable pub score_submission_beatmap_md5 : Request → Option Str
score_submission_beatmap_md5 request = get_elem? request.score_data 0

-- `username[-1]`
unfoldable pub last_char : Str → Option ℕ
last_char [] = none
last_char (c ∷ []) = some c
last_char (c ∷ d ∷ t) = last_char (d ∷ t)

-- the name without one space at its end, an IndexError for an empty name
unfoldable pub strip_supporter : Str → Option Str
strip_supporter name = do
  c ← last_char name
  some (if c == b' ' then take (length name - 1) name else name)

unfoldable pub score_submission_username : Request → Option Str
score_submission_username request = do name ← get_elem? request.score_data 1; strip_supporter name

-- `text.split("|", maxsplit=1)` unpacked into two
unfoldable pub split_bar : Str → Option (Str × Str)
split_bar [] = none
split_bar (c ∷ t) =
    if c == b'|'
    then some ([], t)
    else elim (split_bar t) [ none ↦ none | some (head, rest) ↦ some (c ∷ head, rest) ]

pub record UniqueIdHashes : Type 0 where
  pub unique_id1_md5 : Str
  pub unique_id2_md5 : Str

module _ (py : Python) where
  unfoldable pub parse_unique_id_hashes : Str → Option UniqueIdHashes
  parse_unique_id_hashes unique_ids = do
    (id1, id2) ← split_bar unique_ids
    some (record { unique_id1_md5 = py.md5 id1; unique_id2_md5 = py.md5 id2 })

  unfoldable pub validate_score_checksum : Str → Str → Str → Option Str → Score → Bool
  validate_score_checksum name osu_version client_hash storyboard s =
      let text : Str = elim storyboard [ none ↦ [] | some md5 ↦ md5 ] in
      eq_str s.client_checksum (compute_online_checksum py name osu_version client_hash text s)

unfoldable pub validate_client_details : Option ClientDetails → Str → Str → UniqueIdHashes → Bool
validate_client_details none osu_version client_hash hashes = false
validate_client_details (some client) osu_version client_hash hashes =
    eq_str osu_version client.osu_version
    && (eq_str client_hash client.client_hash
        && (eq_str hashes.unique_id1_md5 client.uninstall_md5
            && eq_str hashes.unique_id2_md5 client.disk_signature_md5))

unfoldable pub validate_beatmap_hash : Str → Str → Bool
validate_beatmap_hash submitted updated = eq_str submitted updated

-- `validate_submission_integrity` for the player and the MD5 of the beatmap
unfoldable pub validate_submission_integrity : Python → Account → Request → Score → Str → Bool
validate_submission_integrity py player request s md5 =
    elim (parse_unique_id_hashes py request.unique_ids) [
      | none ↦ false
      | some hashes ↦
          validate_client_details player.client_details request.osu_version request.client_hash
            hashes
          && (validate_score_checksum py player.display_name request.osu_version request.client_hash
                request.storyboard_md5 s
              && validate_beatmap_hash md5 request.updated_beatmap_hash)
    ]

-- `build_score_from_submission_request`
unfoldable pub build_score_from_submission_request : Python → Request → Beatmap → ℕ → Option Score
unfolding from_submission
build_score_from_submission_request py request beatmap player = elim request.score_data [
  | [] ↦ from_submission py beatmap player []
  | _ ∷ [] ↦ from_submission py beatmap player []
  | _ ∷ (_ ∷ fields) ↦ from_submission py beatmap player fields
]

abbrev pub min_replay_size : ℕ
min_replay_size = 24
