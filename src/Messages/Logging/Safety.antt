-- ===== src/Messages/Logging/Safety.antt =====
-- The constructor of `Logging` reads nothing outside of the message.
use ulog_cpp.Prelude.{ℕ, ◌-◌, Bool, true, false, arith, Bytes}
use ulog_cpp.Exception.{IsClean}
use ulog_cpp.Memory.{read_bytes_inside, read_le_inside}
use ulog_cpp.RawMessages.{HoldsMessage}
use ulog_cpp.Messages.Logging.{parse_logging}

pub parse_logging-IsClean :
    (msg : Bytes) (size : ℕ) (tagged : Bool)
    → HoldsMessage msg size
    → IsClean (parse_logging msg tagged)
unfolding parse_logging
parse_logging-IsClean msg size true v = ground (
  arith,
  v.header,
  read_le_inside 1 msg 3,
  read_le_inside 2 msg 4,
  read_le_inside 8 msg 6,
  read_bytes_inside msg 14 (size - 11),
)
parse_logging-IsClean msg size false v = ground (
  arith,
  v.header,
  read_le_inside 1 msg 3,
  read_le_inside 8 msg 4,
  read_bytes_inside msg 12 (size - 9),
)
