-- ===== src/Messages/Logged/Safety.antt =====
-- The constructors of the logged message classes read nothing outside of the message.
use ulog_cpp.Prelude.{ℕ, ◌-◌, arith, Bytes}
use ulog_cpp.Exception.{IsClean}
use ulog_cpp.Memory.{read_bytes_inside, read_le_inside}
use ulog_cpp.RawMessages.{HoldsMessage}
use ulog_cpp.Messages.Logged.{parse_add_logged, parse_data, parse_dropout, parse_sync}

module _ (msg : Bytes) (size : ℕ) (v : HoldsMessage msg size) where
  pub parse_data-IsClean : IsClean (parse_data msg)
  unfolding parse_data
  parse_data-IsClean =
      ground (arith, v.header, read_le_inside 2 msg 3, read_bytes_inside msg 5 (size - 2))

  pub parse_add_logged-IsClean : IsClean (parse_add_logged msg)
  unfolding parse_add_logged
  parse_add_logged-IsClean = ground (
    arith,
    v.header,
    read_le_inside 1 msg 3,
    read_le_inside 2 msg 4,
    read_bytes_inside msg 6 (size - 3),
  )

  pub parse_dropout-IsClean : IsClean (parse_dropout msg)
  unfolding parse_dropout
  parse_dropout-IsClean = ground (arith, v.header, read_le_inside 2 msg 3)

  pub parse_sync-IsClean : IsClean (parse_sync msg)
  unfolding parse_sync
  parse_sync-IsClean = ground (arith, v.header, read_bytes_inside msg 3 8)
