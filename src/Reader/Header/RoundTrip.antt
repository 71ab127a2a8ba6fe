-- ===== src/Reader/Header/RoundTrip.antt =====
-- What `FileHeader::serialize` writes is what the start of `readChunk` takes in.
use ulog_cpp.Prelude.{
  ℕ, ◌+◌, ◌^◌, ◌<◌, ◌≡◌, refl, sym, ap, ◌∙◌, arith, Bool, true, false, [], ◌∷◌, ◌++◌, ltb,
  ltb-false, ◌==◌, ==_iff, Bytes, bytes_eq_refl, length, length-append, drop, drop-append,
}
use ulog_cpp.Exception.{ok}
use ulog_cpp.Memory.{le_bytes}
use ulog_cpp.RawMessages.{
  ulog_file_magic_bytes, sizeof_file_header, sizeof_flag_bits, msg_header_len, type_byte,
  ULogMessageType,
}
use ulog_cpp.Messages.FileHeader.{
  FileHeaderS, FileHeader, header_bytes, flag_bits_bytes, read_header, read_flag_bits_s,
  serialize_header, header_with_flags,
}
use ulog_cpp.Handler.{DataHandlerInterface}
use ulog_cpp.Reader.State.{Config, consume, read_flag_bits, read_header as state_header}
use ulog_cpp.Reader.Header.{
  magic_matches, has_incompat_flags, do_read_magic, with_flags, do_read_flag_bits,
}
use ulog_cpp.Reader.Header.Structs.{
  length-header_bytes, read_header-header_bytes, flag_bits_bytes-parts, read_flag_bits_s-parts,
  length-flag_bits_bytes,
}

-- A header of the magic and a version, with flags of the right type and sizes, of which the reader
-- knows all that it must, and no appended data.
pub record IsFileHeader (h : FileHeader) : Type 0 where
  pub version : ℕ
  pub magic : h.header.magic ≡ ulog_file_magic_bytes ++ version ∷ []
  pub timestamp : h.header.timestamp < 256 ^ 8
  pub has_flags : h.has_flag_bits ≡ true
  pub flags_size : h.flag_bits.msg_size ≡ 40
  pub flags_type : h.flag_bits.msg_type ≡ type_byte ULogMessageType.flag_bits
  pub compat : length h.flag_bits.compat_flags ≡ 8
  pub incompat : length h.flag_bits.incompat_flags ≡ 8
  pub all_known : has_incompat_flags h.flag_bits.incompat_flags ≡ false
  pub not_appended : h.flag_bits.appended_offset0 ≡ 0
  pub offset1 : h.flag_bits.appended_offset1 < 256 ^ 8
  pub offset2 : h.flag_bits.appended_offset2 < 256 ^ 8

-- The bytes of such a header.
pub serialize_header-IsFileHeader :
    (h : FileHeader)
    → IsFileHeader h
    → serialize_header h ≡ ok (header_bytes h.header ++ flag_bits_bytes h.flag_bits)
unfolding serialize_header
serialize_header-IsFileHeader h v =
    let sized : ℕ → Bytes =
      λ n. header_bytes h.header ++ flag_bits_bytes (record h.flag_bits { msg_size = n }) in
    rw v.has_flags (ap (λ n. ok (sized n)) (sym v.flags_size))

header_bytes-version :
    (h : FileHeaderS) (version : ℕ)
    → h.magic ≡ ulog_file_magic_bytes ++ version ∷ []
    → header_bytes h ≡ (ulog_file_magic_bytes ++ version ∷ []) ++ le_bytes 8 h.timestamp
unfolding header_bytes
header_bytes-version h version m = ap (λ a. a ++ le_bytes 8 h.timestamp) m

header_with_flags-same :
    (h : FileHeader) → h.has_flag_bits ≡ true → header_with_flags h.header h.flag_bits ≡ h
unfolding header_with_flags
header_with_flags-same h e =
    let with_has : Bool → FileHeader =
      λ b. record { header = h.header; flag_bits = h.flag_bits; has_flag_bits = b } in
    ap with_has (sym e)

module _ (H : DataHandlerInterface) where
  open H use {S, file_header}

  -- Behind the file header, at the flags.
  abbrev pub behind_magic : FileHeader → Bytes → Config S → Config S
  behind_magic h rest c = record {
    reader = record c.reader {
      state = read_flag_bits;
      file_header = h.header;
      total_num_read = c.reader.total_num_read + 16;
    };
    handler = c.handler;
    input = flag_bits_bytes h.flag_bits ++ rest;
  }

  pub do_read_magic-header_bytes :
      (h : FileHeader) (rest : Bytes) (c : Config S)
      → IsFileHeader h
      → c.input ≡ header_bytes h.header ++ (flag_bits_bytes h.flag_bits ++ rest)
      → do_read_magic H c ≡ behind_magic h rest c
  unfolding do_read_magic consume
  do_read_magic-header_bytes h rest c v e =
      let flags = flag_bits_bytes h.flag_bits ++ rest in
      let eight : length h.header.magic ≡ 8 = ap length v.magic in
      let long : ltb (length c.input) sizeof_file_header ≡ false = ltb-false (length c.input) 16 (
        omega (
          arith,
          ap length e,
          length-append {0} (header_bytes h.header) flags,
          length-header_bytes h.header eight,
        )) in
      let matches : magic_matches c.input ≡ true =
        ap magic_matches
          (e ∙ ap (λ b. b ++ flags) (header_bytes-version h.header v.version v.magic))
        ∙ bytes_eq_refl ulog_file_magic_bytes in
      let read : read_header c.input ≡ h.header =
        ap read_header e ∙ read_header-header_bytes h.header flags eight v.timestamp in
      let left : drop 16 c.input ≡ flags =
        ap (λ b. drop 16 b) e
        ∙ drop-append (header_bytes h.header) flags 16 (sym (length-header_bytes h.header eight)) in
      rw (long, matches, read, left) refl

  -- Behind both.
  abbrev pub behind_header : FileHeader → Bytes → Config S → Config S
  behind_header h rest c = record {
    reader = record c.reader {
      state = state_header;
      file_header = h.header;
      total_num_read = c.reader.total_num_read + 16 + 43;
    };
    handler = file_header h c.handler;
    input = rest;
  }

  pub do_read_flag_bits-flag_bits_bytes :
      (h : FileHeader) (rest : Bytes) (c : Config S)
      → IsFileHeader h
      → do_read_flag_bits H (behind_magic h rest c) ≡ behind_header h rest c
  unfolding do_read_flag_bits with_flags consume
  do_read_flag_bits-flag_bits_bytes h rest c v =
      let f = h.flag_bits in
      let bytes = flag_bits_bytes f ++ rest in
      let len = length-flag_bits_bytes f rest v.compat v.incompat in
      let long : ltb (length bytes) sizeof_flag_bits ≡ false =
        ltb-false (length bytes) 43
          (omega (arith, length-append {0} (flag_bits_bytes f) rest, len)) in
      let read : read_flag_bits_s bytes ≡ f =
        ap read_flag_bits_s (flag_bits_bytes-parts f rest v.compat v.incompat)
        ∙ read_flag_bits_s-parts f rest v.compat v.incompat (omega (arith, v.flags_size))
            (omega (arith, v.flags_type)) (omega (arith, v.not_appended)) v.offset1 v.offset2 in
      let type : (f.msg_type == type_byte ULogMessageType.flag_bits) ≡ true =
        (==_iff f.msg_type _).1 v.flags_type in
      let none_appended : (f.appended_offset0 == 0) ≡ true =
        (==_iff f.appended_offset0 0).1 v.not_appended in
      let taken : f.msg_size + msg_header_len ≡ 43 = omega (arith, v.flags_size) in
      let left : drop 43 bytes ≡ rest = drop-append (flag_bits_bytes f) rest 43 (sym len) in
      rw
        (
          long,
          read,
          type,
          none_appended,
          v.all_known,
          taken,
          left,
          header_with_flags-same h v.has_flags,
        )
        refl
