-- ===== src/Messages/FileHeader.antt =====
-- messages.hpp and messages.cpp: `FileHeader`; raw_messages.hpp: `ulog_file_header_s` and
-- `ulog_message_flag_bits_s`.
use ulog_cpp.Prelude.{
  ℕ, Bool, true, false, not, ◌&&◌, ◌||◌, [], ◌∷◌, ◌++◌, if◌then◌else◌, Bytes, bytes_eq, take, drop,
}
use Prim.Native.Nat.{bit_or}
use ulog_cpp.Exception.{Result, ok}
use ulog_cpp.Memory.{le_bytes, le_value}
use ulog_cpp.RawMessages.{ULogMessageType, type_byte, ulog_file_magic_bytes}

pub record FileHeaderS : Type 0 where
  pub magic : Bytes
  pub timestamp : ℕ

pub record FlagBitsS : Type 0 where
  pub msg_size : ℕ
  pub msg_type : ℕ
  pub compat_flags : Bytes
  pub incompat_flags : Bytes
  pub appended_offset0 : ℕ
  pub appended_offset1 : ℕ
  pub appended_offset2 : ℕ

pub record FileHeader : Type 0 where
  pub header : FileHeaderS
  pub flag_bits : FlagBitsS
  pub has_flag_bits : Bool

abbrev zeros : Bytes
zeros = 0 ∷ 0 ∷ 0 ∷ 0 ∷ 0 ∷ 0 ∷ 0 ∷ 0 ∷ []

-- `ulog_message_flag_bits_s _flag_bits{}`: zeros, but for the type.
abbrev default_flag_bits : FlagBitsS
default_flag_bits = record {
  msg_size = 0;
  msg_type = type_byte ULogMessageType.flag_bits;
  compat_flags = zeros;
  incompat_flags = zeros;
  appended_offset0 = 0;
  appended_offset1 = 0;
  appended_offset2 = 0;
}

-- `FileHeader(header, flag_bits)`.
unfoldable pub header_with_flags : FileHeaderS → FlagBitsS → FileHeader
header_with_flags header flag_bits = record {
  header = header;
  flag_bits = flag_bits;
  has_flag_bits = true;
}

-- `FileHeader(header)`.
unfoldable pub header_without_flags : FileHeaderS → FileHeader
header_without_flags header = record {
  header = header;
  flag_bits = default_flag_bits;
  has_flag_bits = false;
}

-- `compat_flags[0] |= ULOG_COMPAT_FLAG0_DEFAULT_PARAMETERS_MASK`.
set_default_parameters : Bytes → Bytes
set_default_parameters [] = []
set_default_parameters (b ∷ bs) = bit_or b 1 ∷ bs

-- `FileHeader(uint64_t timestamp, bool has_default_parameters)`.
unfoldable pub make_header : ℕ → Bool → FileHeader
unfolding set_default_parameters
make_header timestamp has_default_parameters = record {
  header = record { magic = ulog_file_magic_bytes ++ 1 ∷ []; timestamp = timestamp };
  flag_bits = record default_flag_bits {
    compat_flags = if has_default_parameters then set_default_parameters zeros else zeros;
    msg_size = 40;
  };
  has_flag_bits = true;
}

-- The structs as they lie in memory.
unfoldable pub header_bytes : FileHeaderS → Bytes
header_bytes h = h.magic ++ le_bytes 8 h.timestamp

unfoldable pub flag_bits_bytes : FlagBitsS → Bytes
flag_bits_bytes f =
    le_bytes 2 f.msg_size
    ++ (le_bytes 1 f.msg_type
        ++ (f.compat_flags
            ++ (f.incompat_flags
                ++ (le_bytes 8 f.appended_offset0
                    ++ (le_bytes 8 f.appended_offset1 ++ le_bytes 8 f.appended_offset2)))))

-- `reinterpret_cast` of memory that holds the whole struct.
unfoldable pub read_header : Bytes → FileHeaderS
read_header bytes = record { magic = take 8 bytes; timestamp = le_value (take 8 (drop 8 bytes)) }

unfoldable pub read_flag_bits_s : Bytes → FlagBitsS
read_flag_bits_s bytes = record {
  msg_size = le_value (take 2 bytes);
  msg_type = le_value (take 1 (drop 2 bytes));
  compat_flags = take 8 (drop 3 bytes);
  incompat_flags = take 8 (drop 11 bytes);
  appended_offset0 = le_value (take 8 (drop 19 bytes));
  appended_offset1 = le_value (take 8 (drop 27 bytes));
  appended_offset2 = le_value (take 8 (drop 35 bytes));
}

-- `FileHeader::serialize`: the size of the flags message is set anew.
unfoldable pub serialize_header : FileHeader → Result Bytes
serialize_header h = ok (
    header_bytes h.header
    ++ (if h.has_flag_bits then flag_bits_bytes (record h.flag_bits { msg_size = 40 }) else []))

-- `FileHeader::operator==`, which compares the flag bits where the left side has them.
unfoldable pub header_eq : FileHeader → FileHeader → Bool
header_eq g h =
    bytes_eq (header_bytes g.header) (header_bytes h.header)
    && (not g.has_flag_bits || bytes_eq (flag_bits_bytes g.flag_bits) (flag_bits_bytes h.flag_bits))
