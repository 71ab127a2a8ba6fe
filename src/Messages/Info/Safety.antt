-- ===== src/Messages/Info/Safety.antt =====
-- The constructors of `MessageInfo` and `ParameterDefault` read nothing outside of the message.
use ulog_cpp.Prelude.{ℕ, ◌+◌, ◌-◌, take, drop, Bool, true, false, arith, Bytes}
use ulog_cpp.Exception.{IsClean}
use ulog_cpp.Memory.{le_value, read_bytes_inside, read_le_inside}
use ulog_cpp.RawMessages.{HoldsMessage}
use ulog_cpp.Field.Safety.{parse_field-IsClean}
use ulog_cpp.Messages.Info.{parse_info, parse_parameter_default}

-- The number in the byte at `off`.
abbrev byte_at : Bytes → ℕ → ℕ
byte_at msg off = le_value (take 1 (drop off msg))

abbrev key_at : Bytes → ℕ → ℕ → Bytes
key_at msg off len = take len (drop off msg)

pub parse_info-IsClean :
    (msg : Bytes) (size : ℕ) (multi : Bool) → HoldsMessage msg size → IsClean (parse_info msg multi)
unfolding parse_info
parse_info-IsClean msg size true v =
    let key_len = byte_at msg 4 in
    ground (
      arith,
      v.header,
      read_le_inside 1 msg 3,
      read_le_inside 1 msg 4,
      read_bytes_inside msg 5 key_len,
      read_bytes_inside msg (5 + key_len) (size - key_len - 2),
      parse_field-IsClean (key_at msg 5 key_len),
    )
parse_info-IsClean msg size false v =
    let key_len = byte_at msg 3 in
    ground (
      arith,
      v.header,
      read_le_inside 1 msg 3,
      read_bytes_inside msg 4 key_len,
      read_bytes_inside msg (4 + key_len) (size - key_len - 1),
      parse_field-IsClean (key_at msg 4 key_len),
    )

pub parse_parameter_default-IsClean :
    (msg : Bytes) (size : ℕ) → HoldsMessage msg size → IsClean (parse_parameter_default msg)
unfolding parse_parameter_default
parse_parameter_default-IsClean msg size v =
    let key_len = byte_at msg 4 in
    ground (
      arith,
      v.header,
      read_le_inside 1 msg 3,
      read_le_inside 1 msg 4,
      read_bytes_inside msg 5 key_len,
      read_bytes_inside msg (5 + key_len) (size - key_len - 2),
      parse_field-IsClean (key_at msg 5 key_len),
    )
