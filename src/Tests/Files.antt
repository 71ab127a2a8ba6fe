-- ===== src/Tests/Files.antt =====
-- The theorem on whole files at a concrete input.
use ulog_cpp.Prelude.{◌++◌, refl, arith, true, List, [], ◌∷◌, Bytes}
use ulog_cpp.Messages.FileHeader.{FileHeader, make_header, header_bytes, flag_bits_bytes}
use ulog_cpp.Handler.{DataHandlerInterface, returned}
use ulog_cpp.Reader.State.{initial}
use ulog_cpp.Reader.Frames.{IsMessage, rest, message}
use ulog_cpp.Reader.Header.{has_incompat_flags}
use ulog_cpp.Reader.Header.RoundTrip.{IsFileHeader, serialize_header-IsFileHeader}
use ulog_cpp.Reader.Dispatch.{handle_message, read_header_message, header_event}
use ulog_cpp.Reader.Machine.Delivery.{Delivered, all_delivered, delivered}
use ulog_cpp.Reader.Machine.Chunks.{joined, read_chunks, Leaves}
use ulog_cpp.Reader.Machine.File.{after_header, read_chunks-serialize_header}

-- A handler that counts the file headers, and no other call.
abbrev count_headers : DataHandlerInterface
count_headers = record {
  S = List FileHeader;
  error = λ _ _ s. s;
  file_header = λ h s. h ∷ s;
  on_event = λ e s. (s, returned);
}

abbrev pub new_header : FileHeader
new_header = make_header 7 true

pub new_header-IsFileHeader : IsFileHeader new_header
unfolding make_header has_incompat_flags
new_header-IsFileHeader = record {
  version = 1;
  magic = refl;
  timestamp = omega arith;
  has_flags = refl;
  flags_size = refl;
  flags_type = refl;
  compat = refl;
  incompat = refl;
  all_known = refl;
  not_appended = refl;
  offset1 = omega arith;
  offset2 = omega arith;
}

-- A message that is not of the header is skipped there.
abbrev skipped : Bytes
skipped = 2 ∷ 0 ∷ b'O' ∷ 5 ∷ 0 ∷ []

skipped-IsMessage : IsMessage skipped
skipped-IsMessage = record {
  whole = refl;
  size = λ h. omega (arith, h);
  type = λ h. omega (arith, h);
}

skipped-Delivered :
    Delivered count_headers
      (after_header count_headers new_header [])
      (skipped ∷ [])
      (after_header count_headers new_header [])
unfolding handle_message read_header_message header_event
skipped-Delivered = delivered refl refl all_delivered

read_chunks-serialize_header_example :
    Leaves count_headers
      (read_chunks count_headers initial [] (
        ((header_bytes new_header.header ++ flag_bits_bytes new_header.flag_bits) ++ (2 ∷ 0 ∷ []))
        ∷ (b'O' ∷ 5 ∷ 0 ∷ 9 ∷ [])
        ∷ []))
      (9 ∷ [])
      (after_header count_headers new_header [])
unfolding joined
read_chunks-serialize_header_example =
    read_chunks-serialize_header count_headers new_header [] _ (2 ∷ 0 ∷ [])
      ((b'O' ∷ 5 ∷ 0 ∷ 9 ∷ []) ∷ []) new_header-IsFileHeader
      (serialize_header-IsFileHeader new_header new_header-IsFileHeader)
      (message skipped skipped-IsMessage refl (rest (omega arith))) skipped-Delivered
