-- ===== src/RawMessages.antt =====
-- raw_messages.hpp: message types, the packed message header, and the sizes of the packed structs.
use ulog_cpp.Prelude.{
  ℕ, ◌+◌, ◌%◌, ◌^◌, ◌≤◌, ◌<◌, ◌≡◌, refl, Bool, true, false, ◌&&◌, [], ◌∷◌, ◌++◌, append_assoc, ltb,
  arith, Bytes, length, length-append,
}
use ulog_cpp.Exception.{Result, ok}
use ulog_cpp.Memory.{read_bytes, read_le, le_bytes, read_bytes_at, read_le_at}

-- `enum class ULogMessageType : uint8_t`.
pub data ULogMessageType : Type 0 where
  format data_msg info info_multiple parameter parameter_default : ULogMessageType
  add_logged_msg remove_logged_msg sync dropout logging logging_tagged flag_bits : ULogMessageType

-- The value of each enumerator.
abbrev pub type_byte : ULogMessageType → ℕ
type_byte ULogMessageType.format = b'F'
type_byte ULogMessageType.data_msg = b'D'
type_byte ULogMessageType.info = b'I'
type_byte ULogMessageType.info_multiple = b'M'
type_byte ULogMessageType.parameter = b'P'
type_byte ULogMessageType.parameter_default = b'Q'
type_byte ULogMessageType.add_logged_msg = b'A'
type_byte ULogMessageType.remove_logged_msg = b'R'
type_byte ULogMessageType.sync = b'S'
type_byte ULogMessageType.dropout = b'O'
type_byte ULogMessageType.logging = b'L'
type_byte ULogMessageType.logging_tagged = b'C'
type_byte ULogMessageType.flag_bits = b'B'

abbrev pub ulog_file_magic_bytes : Bytes
ulog_file_magic_bytes = b'U' ∷ b'L' ∷ b'o' ∷ b'g' ∷ 0x01 ∷ 0x12 ∷ 0x35 ∷ []

-- `ULOG_MSG_HEADER_LEN`, which is `sizeof(ulog_message_header_s)`.
abbrev pub msg_header_len : ℕ
msg_header_len = 3

-- `sizeof(ulog_file_header_s)` and `sizeof(ulog_message_flag_bits_s)`.
abbrev pub sizeof_file_header : ℕ
sizeof_file_header = 8 + 8

abbrev pub sizeof_flag_bits : ℕ
sizeof_flag_bits = 3 + 8 + 8 + 24

-- The fields of `ulog_message_header_s`, read from a message.
unfoldable pub header_msg_size : Bytes → Result ℕ
header_msg_size msg = read_le 2 msg 0

unfoldable pub header_msg_type : Bytes → Result ℕ
header_msg_type msg = read_le 1 msg 2

-- A message header as it lies in memory: `msg_size` and `msg_type`.
unfoldable pub message_header : ℕ → ULogMessageType → Bytes
message_header size type = le_bytes 2 size ++ type_byte type ∷ []

-- `const int msg_size = n; msg_size > std::numeric_limits<uint16_t>::max()`: the conversion of a
-- `size_t` to `int` keeps the low 32 bits, and the upper half of them is negative.
abbrev pub exceeds_u16 : ℕ → Bool
exceeds_u16 n = ltb 65535 (n % 2 ^ 32) && ltb (n % 2 ^ 32) (2 ^ 31)

length-message_header : (size : ℕ) (type : ULogMessageType) → length (message_header size type) ≡ 3
unfolding message_header le_bytes
length-message_header size type = refl

pub exceeds_u16-false : (n : ℕ) → n < 2 ^ 16 → exceeds_u16 n ≡ false
exceeds_u16-false n h = ground arith

pub exceeds_u16-true : (n : ℕ) → 2 ^ 16 ≤ n → n < 2 ^ 31 → exceeds_u16 n ≡ true
exceeds_u16-true n h k = ground arith

-- The size that a message's header carries.
pub header_msg_size_at :
    (size : ℕ) (type : ULogMessageType) (body : Bytes)
    → size < 2 ^ 16
    → header_msg_size (message_header size type ++ body) ≡ ok size
unfolding header_msg_size message_header le_bytes
header_msg_size_at size type body h = read_le_at [] 2 size (type_byte type ∷ body) 0 refl h

-- A number or a run of bytes behind the header, `off` bytes into the body.
pub read_le_behind :
    (size : ℕ) (type : ULogMessageType) (pre : Bytes) (w n : ℕ) (post : Bytes) (off : ℕ)
    → off ≡ length pre + 3
    → n < 256 ^ w
    → read_le w (message_header size type ++ (pre ++ (le_bytes w n ++ post))) off ≡ ok n
read_le_behind size type pre w n post off e h =
    rw (← append_assoc (message_header size type) pre (le_bytes w n ++ post)) (
      read_le_at (message_header size type ++ pre) w n post off
        (omega (
          arith,
          length-append {0} (message_header size type) pre,
          length-message_header size type,
        ))
        h)

pub read_bytes_behind :
    (size : ℕ) (type : ULogMessageType) (pre bs post : Bytes) (off len : ℕ)
    → off ≡ length pre + 3
    → len ≡ length bs
    → read_bytes (message_header size type ++ (pre ++ (bs ++ post))) off len ≡ ok bs
read_bytes_behind size type pre bs post off len e h =
    rw (← append_assoc (message_header size type) pre (bs ++ post)) (
      read_bytes_at (message_header size type ++ pre) bs post off len
        (omega (
          arith,
          length-append {0} (message_header size type) pre,
          length-message_header size type,
        ))
        h)

-- The memory behind `msg` holds a whole message, whose header says `size`.
pub record HoldsMessage (msg : Bytes) (size : ℕ) : Type 0 where
  pub header : header_msg_size msg ≡ ok size
  pub whole : size + 3 ≤ length msg
