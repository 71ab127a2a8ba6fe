-- ===== src/Tests/Logs.antt =====
-- The theorem on whole logs at a concrete input.
use ulog_cpp.Prelude.{◌≡◌, ◌++◌, refl, arith, List, [], ◌∷◌, Bytes, bytes_eq, codes}
use ulog_cpp.Messages.FileHeader.{make_header, serialize_header, header_bytes, flag_bits_bytes}
use ulog_cpp.Messages.Format.{serialize_format, format_str}
use ulog_cpp.Handler.{
  Event, header_complete, message_format, add_logged_message, data_msg, Outcome, returned,
}
use ulog_cpp.Messages.Logged.{serialize_add_logged, serialize_data, AddLoggedMessage}
use ulog_cpp.Reader.State.{initial}
use ulog_cpp.Reader.Header.RoundTrip.{serialize_header-IsFileHeader}
use ulog_cpp.Reader.Machine.Chunks.{joined, read_chunks, Leaves}
use ulog_cpp.Reader.Machine.File.{after_header}
use ulog_cpp.Memory.{le_bytes}
use ulog_cpp.RawMessages.{message_header}
use ulog_cpp.Field.{make_field, encode, type_of_name, find_basic_type}
use ulog_cpp.Text.Decimal.{to_string}
use ulog_cpp.Writer.{write_event, emit, header_to, Writer, new_writer, writer, write_file_header}
use ulog_cpp.Log.{calls, if_returned}
use ulog_cpp.Log.Written.{in_data}
use ulog_cpp.Log.RoundTrip.{read_chunks-calls}
use ulog_cpp.Tests.{keep_events, sample, sample-IsData, sample_format, sample_format-IsFormat}
use ulog_cpp.Tests.Files.{new_header, new_header-IsFileHeader}

abbrev attitude : AddLoggedMessage
attitude = record { multi_id = 0; msg_id = 300; message_name = codes "attitude" }

abbrev log : List Event
log =
    message_format sample_format
    ∷ header_complete
    ∷ add_logged_message attitude
    ∷ data_msg sample
    ∷ []

abbrev written : Writer × Outcome
written = calls writer log (write_file_header new_header new_writer)

-- The first chunk ends within the format.
abbrev start : Bytes
start = 31 ∷ 0 ∷ b'F' ∷ codes "attitude:"

abbrev others : Bytes
others =
    codes "float[3] x;float[3] x;"
    ++ (11 ∷ 0 ∷ b'A' ∷ 0 ∷ 44 ∷ 1 ∷ codes "attitude")
    ++ (4 ∷ 0 ∷ b'D' ∷ 44 ∷ 1 ∷ 7 ∷ 8 ∷ [])

abbrev head : Bytes
head = header_bytes new_header.header ++ flag_bits_bytes new_header.flag_bits

written_output : written.0.output ≡ head ++ (start ++ joined (others ∷ []))
unfolding calls if_returned joined write_file_header header_to write_event emit serialize_format
    serialize_add_logged serialize_data serialize_header make_header header_bytes flag_bits_bytes
    message_header le_bytes format_str encode make_field type_of_name find_basic_type bytes_eq
    to_string
written_output = refl

read_chunks-calls_example :
    (written.1 ≡ returned)
    × Leaves keep_events (read_chunks keep_events initial [] ((head ++ start) ∷ others ∷ [])) [] (
        in_data keep_events (after_header keep_events new_header []) (
          data_msg sample
          ∷ add_logged_message attitude
          ∷ header_complete
          ∷ message_format sample_format
          ∷ []))
unfolding calls joined
read_chunks-calls_example =
    read_chunks-calls keep_events new_header (message_format sample_format ∷ [])
      (add_logged_message attitude) (data_msg sample ∷ []) [] _ written.0 written.1 head start
      (others ∷ []) new_header-IsFileHeader ((sample_format-IsFormat, tt), tt)
      (record {
        instance_id = omega arith;
        id = omega arith;
        not_empty = omega arith;
        fits = omega arith;
      })
      tt ((sample-IsData, tt), tt) refl refl
      (serialize_header-IsFileHeader new_header new_header-IsFileHeader) written_output
