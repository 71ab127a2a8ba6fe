-- ===== src/Reader/Header.antt =====
-- reader.cpp: `readMagic` and `readFlagBits`, with the steps over the chunk that `readChunk` makes
-- by what they return.
pub mod Structs
pub mod RoundTrip
use ulog_cpp.Prelude.{
  ◌+◌, Bool, true, false, not, ◌||◌, [], ◌∷◌, ltb, ◌==◌, if◌then◌else◌, Bytes, bytes_eq, length,
  take,
}
use Prim.Native.Nat.{bit_and}
use ulog_cpp.RawMessages.{
  ulog_file_magic_bytes, sizeof_file_header, sizeof_flag_bits, msg_header_len, type_byte,
  ULogMessageType,
}
use ulog_cpp.Messages.FileHeader.{
  FlagBitsS, read_header, read_flag_bits_s, header_with_flags, header_without_flags,
}
use ulog_cpp.Handler.{
  DataHandlerInterface, not_enough_for_magic, wrong_magic, not_enough_for_flags, appended_offsets,
  unknown_incompat_flag,
}
use ulog_cpp.Reader.State.{
  State, Config, consume, read_flag_bits, read_header as state_header, invalid_data,
}

-- `memcmp(header->magic, ulog_file_magic_bytes, 7) == 0`.
abbrev pub magic_matches : Bytes → Bool
magic_matches bytes = bytes_eq (take 7 bytes) ulog_file_magic_bytes

any_set : Bytes → Bool
any_set [] = false
any_set (b ∷ bs) = not (b == 0) || any_set bs

-- A flag other than `ULOG_INCOMPAT_FLAG0_DATA_APPENDED_MASK` is set.
unfoldable pub has_incompat_flags : Bytes → Bool
unfolding any_set
has_incompat_flags [] = false
has_incompat_flags (b ∷ bs) = not (bit_and b 0xFE == 0) || any_set bs

module _ (H : DataHandlerInterface) where
  open H use {S, error, file_header}

  abbrev set_state : State → Config S → Config S
  set_state s c = record c { reader = record c.reader { state = s } }

  -- A fatal error: the state from which nothing is parsed.
  abbrev fail_with : (S → S) → Config S → Config S
  fail_with report c = record (set_state invalid_data c) { handler = report c.handler }

  unfoldable pub do_read_magic : Config S → Config S
  do_read_magic c =
      if ltb (length c.input) sizeof_file_header
      then fail_with (error not_enough_for_magic false) c
      else if not (magic_matches c.input)
      then fail_with (error wrong_magic false) c
      else consume sizeof_file_header (record c {
        reader = record c.reader { state = read_flag_bits; file_header = read_header c.input };
      })

  -- A flags message: appended data is reported, and unknown flags are fatal.
  with_flags : FlagBitsS → Config S → Config S
  with_flags flags c =
      let s =
        if flags.appended_offset0 == 0 then c.handler else error appended_offsets true c.handler in
      if has_incompat_flags flags.incompat_flags
      then fail_with (error unknown_incompat_flag false) (record c { handler = s })
      else consume (flags.msg_size + msg_header_len) (record (set_state state_header c) {
        handler = file_header (header_with_flags c.reader.file_header flags) s;
      })

  unfoldable pub do_read_flag_bits : Config S → Config S
  unfolding with_flags
  do_read_flag_bits c =
      let flags = read_flag_bits_s c.input in
      if ltb (length c.input) sizeof_flag_bits
      then fail_with (error not_enough_for_flags false) c
      else if flags.msg_type == type_byte ULogMessageType.flag_bits
      then with_flags flags c
      else record (set_state state_header c) {
        handler = file_header (header_without_flags c.reader.file_header) c.handler;
      }
