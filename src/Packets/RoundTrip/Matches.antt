-- ===== src/Packets/RoundTrip/Matches.antt =====
-- The state of a match: the server's `write_match` against `read_match`.
use mathlib.Core.Path.{subst, ap₂}
use eunga_py.Prelude.{
  ℕ, ◌^◌, ◌<◌, ◌≡◌, refl, Bool, true, false, Bool-cases, inl, inr, some, List, [], ◌∷◌, map, All,
  length, arith, if◌then◌else◌,
}
use eunga_py.Prelude.Int.{ℤ, pos, eq_ℤ}
use eunga_py.GameMode
use eunga_py.GameMode.{GameMode}
use eunga_py.Match.Types.{
  Match, status_value, team_value, condition_value, team_type_value, MatchWinConditions,
  MatchTeamTypes,
}
use eunga_py.Packets.Utf8.{Str, decode}
use eunga_py.Packets.Structs.{MultiplayerMatch}
use eunga_py.Packets.Reader.{◌>>=◌, times, read_i8, read_i32, read_string, read_uleb, read_text}
use eunga_py.Packets.Reader.Structs.{read_match, read_slot_mods}
use eunga_py.Packets.Writer.{write_u8, write_string, write_u32_of}
use eunga_py.Packets.Writer.Structs.{
  each, write_match, write_passwd, write_host, write_slot_mods, flag,
}
use eunga_py.Packets.RoundTrip.Rules.{Encodes, Encodes-bind, Encodes-last, Encodes-nil}
use eunga_py.Packets.RoundTrip.Scalars.{
  i8-Encodes, u8_i8-Encodes, i32-Encodes, u32_i32-Encodes, u16_i16-Encodes, seed-Encodes,
  signed_byte,
}
use eunga_py.Packets.RoundTrip.Strings.{string-Encodes}
use eunga_py.Packets.RoundTrip.Slots.{
  Fits, sent_status, sent_team, sent_ids, statuses-Encodes, teams-Encodes, ids-Encodes,
  mods-Encodes,
}

-- The numbers of a match are in the range that its reader takes: ids and seeds of 31 bits, sixteen
-- slots, and a seed that is not negative.
pub record IsSendable (m : Match) (seed : ℕ) : Type 0 where
  pub seed_eq : m.seed ≡ pos seed
  pub seed_small : seed < 2 ^ 31
  pub id_small : m.id < 2 ^ 15
  pub mods_small : m.mods < 2 ^ 31
  pub host_small : m.host_id < 2 ^ 31
  pub sixteen : length m.slots ≡ 16
  pub slots_fit : All Fits m.slots

-- What the client reads.
abbrev sent_with : Match → Bool → Bool → Bool → MultiplayerMatch
sent_with m send_pw in_progress freemods = record {
  id = pos m.id;
  in_progress = in_progress;
  powerplay = pos 0;
  mods = pos m.mods;
  name = m.name;
  passwd = if send_pw then m.passwd else [];
  map_name = m.map_name;
  map_id = m.map_id;
  map_md5 = m.map_md5;
  slot_statuses = map sent_status m.slots;
  slot_teams = map sent_team m.slots;
  slot_ids = sent_ids m.slots;
  host_id = pos m.host_id;
  mode = pos (GameMode.value m.mode);
  win_condition = pos (condition_value m.win_condition);
  team_type = pos (team_type_value m.team_type);
  freemods = freemods;
  slot_mods = if m.freemods then map (λ s. pos s.mods) m.slots else [];
  seed = m.seed;
}

abbrev pub sent_match : Match → Bool → MultiplayerMatch
sent_match m send_pw = sent_with m send_pw m.in_progress m.freemods

-- \x0b\x00 stands for a password that is not shown, and is read as the empty string.
hidden-Encodes : Encodes Str (some (0x0b ∷ 0 ∷ [])) read_string []
unfolding read_string read_uleb read_text ◌>>=◌ decode
hidden-Encodes = record { at = λ b rest h. ground arith }

passwd-Encodes :
    (passwd : Str) (send_pw : Bool)
    → Encodes Str (write_passwd passwd send_pw) read_string (if send_pw then passwd else [])
unfolding write_passwd
passwd-Encodes [] true = unfold write_string in string-Encodes []
passwd-Encodes [] false = unfold write_string in string-Encodes []
passwd-Encodes (c ∷ s) true = string-Encodes (c ∷ s)
passwd-Encodes (c ∷ s) false = hidden-Encodes

host-Encodes :
    (online : ℕ → Bool) (m : Match)
    → m.host_id < 2 ^ 31
    → Encodes ℤ (write_host online m) read_i32 (pos m.host_id)
unfolding write_host
host-Encodes online m small = elim (Bool-cases (online m.host_id)) [
  | inl on ↦ rw on (u32_i32-Encodes m.host_id small)
  | inr off ↦ rw off (record { at = λ b rest h. cc })
]

-- A number below 128 is itself as a signed byte.
small_byte-Encodes : (n : ℕ) → n < 128 → Encodes ℤ (write_u8 n) read_i8 (pos n)
small_byte-Encodes n h =
    let same : signed_byte n ≡ pos n = ground arith in rw same at (u8_i8-Encodes n)

mode-lt : (mode : GameMode) → GameMode.value mode < 128
unfolding GameMode.value
mode-lt mode = ground arith

condition-lt : (c : MatchWinConditions) → condition_value c < 128
unfolding condition_value
condition-lt c = ground arith

team_type-lt : (t : MatchTeamTypes) → team_type_value t < 128
unfolding team_type_value
team_type-lt t = ground arith

flag-lt : (b : Bool) → flag b < 128
flag-lt b = ground arith

eq_flag : (b : Bool) → eq_ℤ (pos (flag b)) (pos 1) ≡ b
eq_flag true = refl
eq_flag false = refl

slot_mods-Encodes :
    (m : Match)
    → length m.slots ≡ 16
    → All Fits m.slots
    → Encodes
        (List ℤ)
        (write_slot_mods m)
        (read_slot_mods m.freemods)
        (if m.freemods then map (λ s. pos s.mods) m.slots else [])
unfolding write_slot_mods read_slot_mods
slot_mods-Encodes m n h = elim (Bool-cases m.freemods) [
  | inl on ↦ simp on (rw n at (mods-Encodes m.slots h))
  | inr off ↦ simp off (Encodes-nil [])
]

seed_field-Encodes :
    (m : Match) (seed : ℕ)
    → m.seed ≡ pos seed
    → seed < 2 ^ 31
    → Encodes ℤ (write_u32_of m.seed) read_i32 m.seed
seed_field-Encodes m seed e h = simp e (seed-Encodes seed h)

module _ (online : ℕ → Bool) (m : Match) (send_pw : Bool) {seed : ℕ} (ok : IsSendable m seed) where
  statuses :
      Encodes
        (List ℤ)
        (each (λ s. write_u8 (status_value s.status)) m.slots)
        (times 16 read_i8)
        (map sent_status m.slots)
  statuses = rw ok.sixteen at (statuses-Encodes m.slots)

  teams :
      Encodes
        (List ℤ)
        (each (λ s. write_u8 (team_value s.team)) m.slots)
        (times 16 read_i8)
        (map sent_team m.slots)
  teams = rw ok.sixteen at (teams-Encodes m.slots)

  slot_mods :
      Encodes
        (List ℤ)
        (write_slot_mods m)
        (read_slot_mods (eq_ℤ (pos (flag m.freemods)) (pos 1)))
        (if m.freemods then map (λ s. pos s.mods) m.slots else [])
  slot_mods = rw (eq_flag m.freemods) (slot_mods-Encodes m ok.sixteen ok.slots_fit)

  raw-Encodes : Encodes MultiplayerMatch (write_match online m send_pw) read_match (
      sent_with m send_pw
        (eq_ℤ (pos (flag m.in_progress)) (pos 1))
        (eq_ℤ (pos (flag m.freemods)) (pos 1)))
  unfolding write_match read_match
  raw-Encodes =
      let mode = small_byte-Encodes (GameMode.value m.mode) (mode-lt m.mode) in
      let condition =
        small_byte-Encodes (condition_value m.win_condition) (condition-lt m.win_condition) in
      let team_type = small_byte-Encodes (team_type_value m.team_type) (team_type-lt m.team_type) in
      Encodes-bind _ (u16_i16-Encodes m.id ok.id_small) (
        Encodes-bind _ (i8-Encodes (pos (flag m.in_progress))) (
          Encodes-bind _ (i8-Encodes (pos 0)) (
            Encodes-bind _ (u32_i32-Encodes m.mods ok.mods_small) (
              Encodes-bind _ (string-Encodes m.name) (
                Encodes-bind _ (passwd-Encodes m.passwd send_pw) (
                  Encodes-bind _ (string-Encodes m.map_name) (
                    Encodes-bind _ (i32-Encodes m.map_id) (
                      Encodes-bind _ (string-Encodes m.map_md5) (
                        Encodes-bind _ statuses (
                          Encodes-bind _ teams (
                            Encodes-bind _ (ids-Encodes m.slots ok.slots_fit) (
                              Encodes-bind _ (host-Encodes online m ok.host_small) (
                                Encodes-bind _ mode (
                                  Encodes-bind _ condition (
                                    Encodes-bind _ team_type (
                                      Encodes-bind _
                                        (small_byte-Encodes (flag m.freemods) (flag-lt m.freemods))
                                        (Encodes-bind _ slot_mods (
                                          Encodes-last _ (
                                            seed_field-Encodes m seed ok.seed_eq
                                              ok.seed_small)))))))))))))))))))

  -- The state of a match is read back as it was written, whether the password is sent or hidden.
  pub match-Encodes :
      Encodes MultiplayerMatch (write_match online m send_pw) read_match (sent_match m send_pw)
  match-Encodes =
      subst (λ r. Encodes MultiplayerMatch (write_match online m send_pw) read_match r)
        (ap₂ (sent_with m send_pw) (eq_flag m.in_progress) (eq_flag m.freemods)) raw-Encodes
