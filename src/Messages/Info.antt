-- ===== src/Messages/Info.antt =====
-- messages.hpp and messages.cpp: `MessageInfo`, which is also `Parameter`, and
-- `ParameterDefault`.
pub mod RoundTrip
pub mod Safety
use ulog_cpp.Prelude.{
  ℕ, ◌+◌, ◌-◌, ◌%◌, ◌^◌, Bool, true, false, not, ◌||◌, ◌++◌, ltb, ◌==◌, if◌then◌else◌, Bytes, codes,
  length,
}
use ulog_cpp.Prelude.Int.{ℤ, pos, negsuc}
use ulog_cpp.Exception.{
  Result, ok, err, ◌>>=◌, ◌>>◌, throw_if, parsing_exception, message_too_long, key_too_long,
}
use ulog_cpp.Memory.{read_bytes, read_le, le_bytes}
use ulog_cpp.RawMessages.{ULogMessageType, header_msg_size, message_header, exceeds_u16}
use ulog_cpp.Field.{Field, make_field, parse_field, encode, minus_one}
use ulog_cpp.Messages.Logged.{check_msg_size}

pub record MessageInfo : Type 0 where
  pub field : Field
  pub value : Bytes
  pub continued : Bool
  pub is_multi : Bool

-- `using Parameter = MessageInfo`.
abbrev pub Parameter : Type 0
Parameter = MessageInfo

-- `MessageInfo(const uint8_t* msg, bool is_multi)`.
unfoldable pub parse_info : Bytes → Bool → Result MessageInfo
parse_info msg true = do
  size ← header_msg_size msg
  check_msg_size size 3
  is_continued ← read_le 1 msg 3
  key_len ← read_le 1 msg 4
  throw_if (ltb (size - 2) key_len) (parsing_exception key_too_long)
  key ← read_bytes msg 5 key_len
  field ← parse_field key
  value ← read_bytes msg (5 + key_len) (size - key_len - 2)
  ok (record { field = field; value = value; continued = not (is_continued == 0); is_multi = true })
parse_info msg false = do
  size ← header_msg_size msg
  check_msg_size size 2
  key_len ← read_le 1 msg 3
  throw_if (ltb (size - 1) key_len) (parsing_exception key_too_long)
  key ← read_bytes msg 4 key_len
  field ← parse_field key
  value ← read_bytes msg (4 + key_len) (size - key_len - 1)
  ok (record { field = field; value = value; continued = false; is_multi = false })

-- `uint8_t is_continued = _continued`.
abbrev pub bool_byte : Bool → ℕ
bool_byte true = 1
bool_byte false = 0

serialize_multi : MessageInfo → Result Bytes
serialize_multi m = do
  let key = encode m.field
  let msg_size = length key + length m.value + 2
  throw_if (exceeds_u16 msg_size || ltb 255 (length key)) (parsing_exception message_too_long)
  ok (
      message_header (msg_size % 2 ^ 16) ULogMessageType.info_multiple
      ++ (le_bytes 1 (bool_byte m.continued) ++ (le_bytes 1 (length key) ++ (key ++ m.value))))

serialize_single : MessageInfo → ULogMessageType → Result Bytes
serialize_single m type = do
  let key = encode m.field
  let msg_size = length key + length m.value + 1
  throw_if (exceeds_u16 msg_size || ltb 255 (length key)) (parsing_exception message_too_long)
  ok (message_header (msg_size % 2 ^ 16) type ++ (le_bytes 1 (length key) ++ (key ++ m.value)))

-- `MessageInfo::serialize`. The type is that of the caller, but for a multi message.
unfoldable pub serialize_info : MessageInfo → ULogMessageType → Result Bytes
unfolding serialize_multi serialize_single
serialize_info m type = if m.is_multi then serialize_multi m else serialize_single m type

abbrev plain_info : Field → Bytes → MessageInfo
plain_info field value = record {
  field = field;
  value = value;
  continued = false;
  is_multi = false;
}

-- `MessageInfo(key, value)` for an `int32_t`, a `float` and a `std::string`: the value is the 32
-- bits of a number, or the text.
pub int32_info : Bytes → ℕ → MessageInfo
int32_info key value = plain_info (make_field (codes "int32_t") key minus_one) (le_bytes 4 value)

pub float_info : Bytes → ℕ → MessageInfo
float_info key bits = plain_info (make_field (codes "float") key minus_one) (le_bytes 4 bits)

pub string_info : Bytes → Bytes → MessageInfo
string_info key value = plain_info (make_field (codes "char") key (pos (length value))) value

pub record ParameterDefault : Type 0 where
  pub field : Field
  pub value : Bytes
  pub default_types : ℕ

unfoldable pub parse_parameter_default : Bytes → Result ParameterDefault
parse_parameter_default msg = do
  size ← header_msg_size msg
  check_msg_size size 3
  default_types ← read_le 1 msg 3
  key_len ← read_le 1 msg 4
  throw_if (ltb (size - 2) key_len) (parsing_exception key_too_long)
  key ← read_bytes msg 5 key_len
  field ← parse_field key
  value ← read_bytes msg (5 + key_len) (size - key_len - 2)
  ok (record { field = field; value = value; default_types = default_types })

unfoldable pub serialize_parameter_default : ParameterDefault → Result Bytes
serialize_parameter_default m = do
  let key = encode m.field
  let msg_size = length key + length m.value + 2
  throw_if (exceeds_u16 msg_size || ltb 255 (length key)) (parsing_exception message_too_long)
  ok (
      message_header (msg_size % 2 ^ 16) ULogMessageType.parameter_default
      ++ (le_bytes 1 m.default_types ++ (le_bytes 1 (length key) ++ (key ++ m.value))))
