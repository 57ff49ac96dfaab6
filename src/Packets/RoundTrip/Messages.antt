-- ===== src/Packets/RoundTrip/Messages.antt =====
-- Messages and score frames.
use eunga_py.Prelude.{Bool, true, false, none, not, ◌==◌}
use eunga_py.Prelude.Int.{ℤ}
use eunga_py.Packets.Utf8.{Str}
use eunga_py.Packets.Structs.{Message, ScoreFrame}
use eunga_py.Packets.Reader.Structs.{read_message, read_flag, read_scoreframe_fmt}
use eunga_py.Packets.Writer.{write_u8}
use eunga_py.Packets.Writer.Structs.{write_message, write_scoreframe, flag}
use eunga_py.Packets.RoundTrip.Rules.{Encodes, Encodes-bind, Encodes-last}
use eunga_py.Packets.RoundTrip.Scalars.{u8-Encodes, u16-Encodes, i32-Encodes}
use eunga_py.Packets.RoundTrip.Strings.{string-Encodes}

-- A message is read back as it was written.
pub message-Encodes :
    (sender msg recipient : Str) (sender_id : ℤ)
    → Encodes Message
        (write_message sender msg recipient sender_id)
        read_message
        (record { sender = sender; text = msg; recipient = recipient; sender_id = sender_id })
unfolding write_message read_message
message-Encodes sender msg recipient sender_id = Encodes-bind _ (string-Encodes sender) (
    Encodes-bind _ (string-Encodes msg)
      (Encodes-bind _ (string-Encodes recipient) (Encodes-last _ (i32-Encodes sender_id))))

flag-Encodes : (b : Bool) → Encodes Bool (write_u8 (flag b)) read_flag b
unfolding read_flag
flag-Encodes true = Encodes-last (λ n. not (n == 0)) (u8-Encodes 1)
flag-Encodes false = Encodes-last (λ n. not (n == 0)) (u8-Encodes 0)

-- The fields of a score frame that are sent.
abbrev pub sent : ScoreFrame → ScoreFrame
sent s = record s { combo_portion = none; bonus_portion = none }

-- A score frame is read back as it was written, up to the two portions of ScoreV2, which the format
-- leaves out.
pub scoreframe_fmt-Encodes :
    (s : ScoreFrame) → Encodes ScoreFrame (write_scoreframe s) read_scoreframe_fmt (sent s)
unfolding write_scoreframe read_scoreframe_fmt
scoreframe_fmt-Encodes s = Encodes-bind _ (i32-Encodes s.time) (
    Encodes-bind _ (u8-Encodes s.id) (
      Encodes-bind _ (u16-Encodes s.num300) (
        Encodes-bind _ (u16-Encodes s.num100) (
          Encodes-bind _ (u16-Encodes s.num50) (
            Encodes-bind _ (u16-Encodes s.num_geki) (
              Encodes-bind _ (u16-Encodes s.num_katu) (
                Encodes-bind _ (u16-Encodes s.num_miss) (
                  Encodes-bind _ (i32-Encodes s.total_score) (
                    Encodes-bind _ (u16-Encodes s.max_combo) (
                      Encodes-bind _ (u16-Encodes s.current_combo) (
                        Encodes-bind _ (flag-Encodes s.perfect) (
                          Encodes-bind _ (u8-Encodes s.current_hp) (
                            Encodes-bind _ (u8-Encodes s.tag_byte)
                              (Encodes-last _ (flag-Encodes s.score_v2)))))))))))))))
