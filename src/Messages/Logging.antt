-- ===== src/Messages/Logging.antt =====
-- messages.hpp and messages.cpp: `Logging`, with and without a tag.
pub mod RoundTrip
pub mod Safety
use ulog_cpp.Prelude.{
  ℕ, ◌+◌, ◌-◌, ◌%◌, ◌^◌, Bool, true, false, ◌||◌, ◌++◌, ltb, ◌==◌, if◌then◌else◌, Bytes, codes,
  length,
}
use ulog_cpp.Exception.{Result, ok, err, ◌>>=◌, ◌>>◌, throw_if, parsing_exception, message_too_long}
use ulog_cpp.Memory.{read_bytes, read_le, le_bytes}
use ulog_cpp.RawMessages.{ULogMessageType, header_msg_size, message_header, exceeds_u16}
use ulog_cpp.Messages.Logged.{check_msg_size}

-- `Logging::Level`.
pub data Level : Type 0 where
  emergency alert critical error warning notice info debug : Level

-- The value of each enumerator.
abbrev pub level_byte : Level → ℕ
level_byte emergency = b'0'
level_byte alert = b'1'
level_byte critical = b'2'
level_byte error = b'3'
level_byte warning = b'4'
level_byte notice = b'5'
level_byte info = b'6'
level_byte debug = b'7'

-- A byte out of the range of the levels is read as `Debug`.
unfoldable pub level_of_byte : ℕ → Level
level_of_byte b =
    if ltb b b'0' || ltb b'7' b
    then debug
    else if b == b'0'
    then emergency
    else if b == b'1'
    then alert
    else if b == b'2'
    then critical
    else if b == b'3'
    then error
    else if b == b'4'
    then warning
    else if b == b'5'
    then notice
    else if b == b'6'
    then info
    else debug

pub record Logging : Type 0 where
  pub log_level : Level
  pub tag : ℕ
  pub has_tag : Bool
  pub timestamp : ℕ
  pub message : Bytes

-- `Logging(const uint8_t* msg, bool is_tagged)`.
unfoldable pub parse_logging : Bytes → Bool → Result Logging
parse_logging msg true = do
  size ← header_msg_size msg
  check_msg_size size 12
  level ← read_le 1 msg 3
  tag ← read_le 2 msg 4
  timestamp ← read_le 8 msg 6
  message ← read_bytes msg 14 (size - 11)
  ok (record {
    log_level = level_of_byte level;
    tag = tag;
    has_tag = true;
    timestamp = timestamp;
    message = message;
  })
parse_logging msg false = do
  size ← header_msg_size msg
  check_msg_size size 10
  level ← read_le 1 msg 3
  timestamp ← read_le 8 msg 4
  message ← read_bytes msg 12 (size - 9)
  ok (record {
    log_level = level_of_byte level;
    tag = 0;
    has_tag = false;
    timestamp = timestamp;
    message = message;
  })

-- `Logging(Level level, std::string message, uint64_t timestamp)`.
unfoldable pub make_logging : Level → Bytes → ℕ → Logging
make_logging level message timestamp = record {
  log_level = level;
  tag = 0;
  has_tag = false;
  timestamp = timestamp;
  message = message;
}

-- `Logging::logLevelStr`.
pub log_level_str : Level → Bytes
log_level_str emergency = codes "Emergency"
log_level_str alert = codes "Alert"
log_level_str critical = codes "Critical"
log_level_str error = codes "Error"
log_level_str warning = codes "Warning"
log_level_str notice = codes "Notice"
log_level_str info = codes "Info"
log_level_str debug = codes "Debug"

serialize_tagged : Logging → Result Bytes
serialize_tagged m = do
  throw_if (exceeds_u16 (length m.message + 11)) (parsing_exception message_too_long)
  ok (
      message_header ((length m.message + 11) % 2 ^ 16) ULogMessageType.logging_tagged
      ++ (le_bytes 1 (level_byte m.log_level)
          ++ (le_bytes 2 m.tag ++ (le_bytes 8 m.timestamp ++ m.message))))

serialize_untagged : Logging → Result Bytes
serialize_untagged m = do
  throw_if (exceeds_u16 (length m.message + 9)) (parsing_exception message_too_long)
  ok (
      message_header ((length m.message + 9) % 2 ^ 16) ULogMessageType.logging
      ++ (le_bytes 1 (level_byte m.log_level) ++ (le_bytes 8 m.timestamp ++ m.message)))

unfoldable pub serialize_logging : Logging → Result Bytes
unfolding serialize_tagged serialize_untagged
serialize_logging m = if m.has_tag then serialize_tagged m else serialize_untagged m
