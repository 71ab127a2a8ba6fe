-- ===== src/Messages/Logged.antt =====
-- messages.hpp and messages.cpp: `AddLoggedMessage`, `Data`, `Dropout` and `Sync`.
pub mod RoundTrip
pub mod Safety
use ulog_cpp.Prelude.{
  ℕ, ◌+◌, ◌-◌, ◌%◌, ◌^◌, not, [], ◌∷◌, ◌++◌, ltb, if◌then◌else◌, Bytes, bytes_eq, length,
}
use ulog_cpp.Exception.{
  Result, ok, err, ◌>>=◌, ◌>>◌, throw_if, parsing_exception, message_too_short, message_too_long,
  invalid_sync_magic,
}
use ulog_cpp.Memory.{read_bytes, read_le, le_bytes}
use ulog_cpp.RawMessages.{ULogMessageType, header_msg_size, message_header, exceeds_u16}

pub record AddLoggedMessage : Type 0 where
  pub multi_id : ℕ
  pub msg_id : ℕ
  pub message_name : Bytes

pub record Data : Type 0 where
  pub msg_id : ℕ
  pub payload : Bytes

pub record Dropout : Type 0 where
  pub duration_ms : ℕ

abbrev pub sync_magic_bytes : Bytes
sync_magic_bytes = 0x2F ∷ 0x73 ∷ 0x13 ∷ 0x20 ∷ 0x25 ∷ 0x0C ∷ 0xBB ∷ 0x12 ∷ []

-- `CHECK_MSG_SIZE`.
abbrev pub check_msg_size : ℕ → ℕ → Result (Unit {0})
check_msg_size size min_required =
    throw_if (ltb size min_required) (parsing_exception message_too_short)

unfoldable pub parse_add_logged : Bytes → Result AddLoggedMessage
parse_add_logged msg = do
  size ← header_msg_size msg
  check_msg_size size 4
  multi ← read_le 1 msg 3
  id ← read_le 2 msg 4
  name ← read_bytes msg 6 (size - 3)
  ok (record { multi_id = multi; msg_id = id; message_name = name })

unfoldable pub serialize_add_logged : AddLoggedMessage → Result Bytes
serialize_add_logged m = do
  throw_if (exceeds_u16 (length m.message_name + 3)) (parsing_exception message_too_long)
  ok (
      message_header ((length m.message_name + 3) % 2 ^ 16) ULogMessageType.add_logged_msg
      ++ (le_bytes 1 m.multi_id ++ (le_bytes 2 m.msg_id ++ m.message_name)))

unfoldable pub parse_data : Bytes → Result Data
parse_data msg = do
  size ← header_msg_size msg
  check_msg_size size 3
  id ← read_le 2 msg 3
  bytes ← read_bytes msg 5 (size - 2)
  ok (record { msg_id = id; payload = bytes })

unfoldable pub serialize_data : Data → Result Bytes
serialize_data m = do
  throw_if (exceeds_u16 (length m.payload + 2)) (parsing_exception message_too_long)
  ok (
      message_header ((length m.payload + 2) % 2 ^ 16) ULogMessageType.data_msg
      ++ (le_bytes 2 m.msg_id ++ m.payload))

unfoldable pub parse_dropout : Bytes → Result Dropout
parse_dropout msg = do
  size ← header_msg_size msg
  check_msg_size size 2
  duration ← read_le 2 msg 3
  ok (record { duration_ms = duration })

unfoldable pub serialize_dropout : Dropout → Result Bytes
serialize_dropout m = ok (message_header 2 ULogMessageType.dropout ++ le_bytes 2 m.duration_ms)

-- A `Sync` has no state: its constructor checks the magic bytes.
unfoldable pub parse_sync : Bytes → Result (Unit {0})
parse_sync msg = do
  size ← header_msg_size msg
  check_msg_size size 8
  magic ← read_bytes msg 3 8
  throw_if (not (bytes_eq magic sync_magic_bytes)) (parsing_exception invalid_sync_magic)

unfoldable pub serialize_sync : Result Bytes
serialize_sync = ok (message_header 8 ULogMessageType.sync ++ sync_magic_bytes)
