-- ===== src/Reader/Dispatch/Safety.antt =====
-- What the reader makes of a whole message, it reads from that message only.
use ulog_cpp.Prelude.{arith, true, false, Bytes, [], ◌∷◌, Option, none, some}
use ulog_cpp.Exception.{Result, ok, err, ◌>>=◌, IsClean}
use ulog_cpp.Memory.{read_le, read_bytes, le_value}
use ulog_cpp.RawMessages.{header_msg_size, HoldsMessage}
use ulog_cpp.Messages.Info.{parse_info, parse_parameter_default}
use ulog_cpp.Messages.Format.{parse_format}
use ulog_cpp.Messages.Logging.{parse_logging}
use ulog_cpp.Messages.Logged.{parse_add_logged, parse_data, parse_dropout, parse_sync}
use ulog_cpp.Messages.Info.Safety.{parse_info-IsClean, parse_parameter_default-IsClean}
use ulog_cpp.Messages.Format.Safety.{parse_format-IsClean}
use ulog_cpp.Messages.Logged.Safety.{
  parse_data-IsClean, parse_add_logged-IsClean, parse_dropout-IsClean, parse_sync-IsClean,
}
use ulog_cpp.Messages.Logging.Safety.{parse_logging-IsClean}
use ulog_cpp.Handler.{
  Event, message_info, parameter, parameter_default, message_format, add_logged_message, logging,
  data_msg, dropout, sync,
}
use ulog_cpp.Reader.State.{msg_size_of}
use ulog_cpp.Reader.Frames.{IsMessage}
use ulog_cpp.Reader.Dispatch.{common_event, header_event, data_event}

-- No read outside of the message, and no loop without an end.
abbrev pub IsSafe : Option (Result Event) → Type 0
IsSafe none = Unit
IsSafe (some r) = IsClean r

bind-IsClean :
    {A : Type 0} (r : Result A) (f : A → Event) → IsClean r → IsClean (r >>= λ a. ok (f a))
bind-IsClean (ok a) f h = (λ e. cc, λ e. cc)
bind-IsClean (err x) f h = (λ e. h.0 cc, λ e. h.1 cc)

IsMessage-HoldsMessage : (m : Bytes) → IsMessage m → HoldsMessage m (msg_size_of m)
unfolding header_msg_size read_le read_bytes le_value
IsMessage-HoldsMessage [] v = absurd (omega (arith, v.whole))
IsMessage-HoldsMessage (x ∷ []) v = absurd (omega (arith, v.whole))
IsMessage-HoldsMessage (x ∷ y ∷ m) v = record {
  header = ground arith;
  whole = omega (arith, v.whole);
}

common-IsSafe : (m : Bytes) → HoldsMessage m (msg_size_of m) → IsSafe (common_event m)
unfolding common_event
common-IsSafe m v =
    let n = msg_size_of m in
    ground (
      arith,
      bind-IsClean (parse_info m false) message_info (parse_info-IsClean m n false v),
      bind-IsClean (parse_info m true) message_info (parse_info-IsClean m n true v),
      bind-IsClean (parse_info m false) parameter (parse_info-IsClean m n false v),
      bind-IsClean (parse_parameter_default m) parameter_default
          (parse_parameter_default-IsClean m n v),
    )

-- A whole message of any type and content, in the header or behind it: its constructor returns or
-- throws an exception of the code, reads no byte outside of the message, and its loop is given
-- enough rounds.
pub event-IsSafe : (m : Bytes) → IsMessage m → IsSafe (header_event m) × IsSafe (data_event m)
unfolding header_event data_event
event-IsSafe m w =
    let v = IsMessage-HoldsMessage m w in
    let n = msg_size_of m in
    let common = common-IsSafe m v in
    (
      ground (arith, bind-IsClean (parse_format m) message_format (parse_format-IsClean m n v)),
      ground (
        arith,
        bind-IsClean (parse_add_logged m) add_logged_message (parse_add_logged-IsClean m n v),
        bind-IsClean (parse_logging m false) logging (parse_logging-IsClean m n false v),
        bind-IsClean (parse_logging m true) logging (parse_logging-IsClean m n true v),
        bind-IsClean (parse_data m) data_msg (parse_data-IsClean m n v),
        bind-IsClean (parse_dropout m) dropout (parse_dropout-IsClean m n v),
        bind-IsClean (parse_sync m) (λ _. sync) (parse_sync-IsClean m n v),
      ),
    )
