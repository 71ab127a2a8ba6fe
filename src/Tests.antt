-- ===== src/Tests.antt =====
-- Runs of the code on small inputs, and the theorems at concrete inputs.
mod Resolution
mod Values
mod Views
mod Files
mod Logs
mod Containers
mod SimpleWriters
mod Samples
use ulog_cpp.Prelude.{
  none, ◌≢◌, ℕ, ◌≡◌, ◌≤◌, ◌↔◌, ◌++◌, refl, arith, true, some, List, [], ◌∷◌, Bytes, bytes_eq, codes,
}
use ulog_cpp.Prelude.Int.{pos}
use ulog_cpp.Exception.{ok, ◌>>=◌, Exception}
use ulog_cpp.Memory.{read_le, read_bytes, le_value}
use ulog_cpp.RawMessages.{header_msg_size}
use ulog_cpp.Text.Decimal.{stoi, to_string, stoi-to_string}
use ulog_cpp.Field.{
  Field, make_field, minus_one, parse_field, encode, type_of_name, find_basic_type,
}
use ulog_cpp.Field.RoundTrip.{IsPrintable, parse_field-encode}
use ulog_cpp.Messages.Logged.{
  AddLoggedMessage, Data, serialize_data, parse_data, serialize_add_logged, parse_add_logged,
  parse_dropout,
}
use ulog_cpp.Messages.Logged.RoundTrip.{IsData, parse-serialize_data, parse-serialize_add_logged}
use ulog_cpp.Messages.Logging.{Logging, info, serialize_logging, parse_logging}
use ulog_cpp.Messages.Logging.RoundTrip.{parse-serialize_logging}
use ulog_cpp.Messages.Info.{MessageInfo, ParameterDefault}
use ulog_cpp.Messages.Format.{MessageFormat, format_str}
use ulog_cpp.Messages.Format.RoundTrip.{IsFormat, IsFormatField}
use ulog_cpp.Handler.{
  Event, data_msg, add_logged_message, dropout, DataHandlerInterface, returned, thrown,
}
use ulog_cpp.Reader.State.{Reader, Config, read_data, initial}
use ulog_cpp.Reader.Session.{place}
use ulog_cpp.Reader.Frames.{IsMessage, Framed, rest, message}
use ulog_cpp.Reader.Dispatch.{handle_message, read_data_message, header_event, data_event}
use ulog_cpp.Reader.Dispatch.Keeps.{InSession, handle_message-InSession}
use ulog_cpp.Reader.Dispatch.Safety.{IsSafe, event-IsSafe}
use ulog_cpp.Reader.Machine.{read_chunk, finished}
use ulog_cpp.Reader.Machine.Termination.{Stops, read_chunk-Stops}
use ulog_cpp.Reader.Machine.Delivery.{
  IsReady, Delivered, all_delivered, delivered, session, read_chunk-delivers,
}
use ulog_cpp.Reader.Machine.Chunks.{joined, read_chunks, Leaves, read_chunks-delivers}
use ulog_cpp.Formats.{find_message_format}
use ulog_cpp.DataContainer.State.{DataContainer, Subscription, full_log, make_container}
use ulog_cpp.DataContainer.Events.{find_subscription, container_data, container_add_logged}
use ulog_cpp.DataContainer.Samples.{
  with_sample, container_data-find_subscription, container_add_logged-find_subscription,
}
use ulog_cpp.Writer.{Writer, write_event}
use ulog_cpp.Writer.Events.{write_event-read_event}
use ulog_cpp.SimpleWriter.{SimpleWriter, find_format, write_add_logged, write_data, add_sizes}
use ulog_cpp.SimpleWriter.Session.{
  IsOpen, subscribed, wrote, write_add_logged-write_data, write_data-data_event,
}
use ulog_cpp.SimpleWriter.Order.{data_call, after, InSync, after-InSync}
use ulog_cpp.SimpleWriter.Layout.{Aligned, end_of, add_sizes_iff}

-- A handler that keeps the events, the last one first.
abbrev keep_events : DataHandlerInterface
keep_events = record {
  S = List Event;
  error = λ _ _ s. s;
  file_header = λ _ s. s;
  on_event = λ e s. (e ∷ s, returned);
}

abbrev data_reader : Reader
data_reader = record initial { state = read_data }

-- A dropout of 5 ms, and the start of another message.
abbrev dropout_bytes : Bytes
dropout_bytes = 2 ∷ 0 ∷ b'O' ∷ 5 ∷ 0 ∷ []

abbrev after_dropout : Config (List Event)
after_dropout = record (session keep_events data_reader []) {
  handler = dropout (record { duration_ms = 5 }) ∷ [];
}

dropout_handled :
    handle_message keep_events dropout_bytes (session keep_events data_reader [])
    ≡ (after_dropout, returned)
unfolding handle_message read_data_message data_event parse_dropout header_msg_size read_le
    read_bytes le_value
dropout_handled = refl

ready : IsReady keep_events data_reader
ready = record {
  in_session = tt;
  clean = refl;
  short = omega arith;
  within = omega arith;
  room = omega arith;
}

dropout-IsMessage : IsMessage dropout_bytes
dropout-IsMessage = record {
  whole = refl;
  size = λ h. omega (arith, h);
  type = λ h. omega (arith, h);
}

-- The stream is cut within the header and within the message.
abbrev cuts : List Bytes
cuts = (2 ∷ 0 ∷ []) ∷ (b'O' ∷ 5 ∷ []) ∷ [] ∷ (0 ∷ 9 ∷ 0 ∷ []) ∷ []

stream-Framed : Framed (dropout_bytes ++ (9 ∷ 0 ∷ [])) (dropout_bytes ∷ []) (9 ∷ 0 ∷ [])
stream-Framed = message dropout_bytes dropout-IsMessage refl (rest (omega arith))

dropout-Delivered :
    Delivered keep_events (session keep_events data_reader []) (dropout_bytes ∷ []) after_dropout
dropout-Delivered = delivered dropout_handled refl all_delivered

read_chunks-delivers_example :
    Leaves keep_events (read_chunks keep_events data_reader [] cuts) (9 ∷ 0 ∷ []) after_dropout
unfolding joined
read_chunks-delivers_example =
    read_chunks-delivers keep_events cuts data_reader [] ready stream-Framed dropout-Delivered

read_chunk-delivers_example :
    (k : ℕ) × (t : ℕ) × (read_chunk keep_events data_reader [] (dropout_bytes ++ (9 ∷ 0 ∷ []))
      ≡ finished (place (9 ∷ 0 ∷ []) k t [] after_dropout) returned)
    × (2048 ≤ k)
    × (2 ≤ k)
read_chunk-delivers_example =
    read_chunk-delivers keep_events data_reader [] (dropout_bytes ++ (9 ∷ 0 ∷ [])) ready
      stream-Framed dropout-Delivered

-- A stream that begins with bytes that are no message.
read_chunk-Stops_example :
    Stops keep_events (read_chunk keep_events data_reader [] (0 ∷ 0 ∷ 0 ∷ dropout_bytes))
read_chunk-Stops_example =
    read_chunk-Stops keep_events data_reader [] (0 ∷ 0 ∷ 0 ∷ dropout_bytes) (omega arith)
      (omega arith)

event-IsSafe_example : IsSafe (header_event dropout_bytes) × IsSafe (data_event dropout_bytes)
event-IsSafe_example = event-IsSafe dropout_bytes dropout-IsMessage

abbrev open_writer : Writer
open_writer = record { is_header_complete = true; output = 1 ∷ [] }

abbrev sample : Data
sample = record { msg_id = 300; payload = 7 ∷ 8 ∷ [] }

sample-IsData : IsData sample
sample-IsData = record { id = omega arith; not_empty = omega arith; fits = omega arith }

write_event-read_event_example :
    (m : Bytes) × (write_event (data_msg sample) open_writer
      ≡ (record open_writer { output = (1 ∷ []) ++ m }, returned))
    × IsMessage m
    × (data_event m ≡ some (ok (data_msg sample)))
write_event-read_event_example =
    write_event-read_event (data_msg sample) open_writer sample-IsData tt

parse-serialize_data_example : (serialize_data sample >>= parse_data) ≡ ok sample
parse-serialize_data_example = parse-serialize_data sample sample-IsData

abbrev sample_logged : AddLoggedMessage
sample_logged = record { multi_id = 1; msg_id = 300; message_name = codes "vehicle" }

parse-serialize_add_logged_example :
    (serialize_add_logged sample_logged >>= parse_add_logged) ≡ ok sample_logged
parse-serialize_add_logged_example = parse-serialize_add_logged sample_logged (record {
  instance_id = omega arith;
  id = omega arith;
  not_empty = omega arith;
  fits = omega arith;
})

abbrev sample_logging : Logging
sample_logging = record {
  log_level = info;
  timestamp = 1000000;
  tag = 3;
  has_tag = true;
  message = codes "armed";
}

parse-serialize_logging_example :
    (serialize_logging sample_logging >>= λ bytes. parse_logging bytes true) ≡ ok sample_logging
parse-serialize_logging_example = parse-serialize_logging sample_logging (record {
  time = omega arith;
  tag_range = omega arith;
  no_tag = λ h. cc;
  not_empty = omega arith;
  fits = omega arith;
})

-- 'float[3] x'
abbrev sample_field : Field
sample_field = make_field (codes "float") (codes "x") (pos 3)

sample_field-IsPrintable : IsPrintable sample_field
sample_field-IsPrintable = record {
  type_str = codes "float";
  name_str = codes "x";
  length = pos 3;
  made = refl;
  type_name = record { no_space = ground arith; no_bracket = ground arith };
  printable = omega arith;
}

parse_field-encode_example : parse_field (encode sample_field) ≡ ok sample_field
parse_field-encode_example = parse_field-encode sample_field sample_field-IsPrintable

sample_encoded : encode sample_field ≡ codes "float[3] x"
unfolding encode make_field type_of_name find_basic_type bytes_eq to_string
sample_encoded = refl

abbrev sample_info : MessageInfo
sample_info = record { field = sample_field; value = 1 ∷ 2 ∷ []; continued = true; is_multi = true }

abbrev sample_default : ParameterDefault
sample_default = record { field = sample_field; value = 1 ∷ 2 ∷ []; default_types = 3 }

abbrev sample_format : MessageFormat
sample_format = record { name = codes "attitude"; fields = sample_field ∷ sample_field ∷ [] }

sample-IsFormatField : IsFormatField sample_field
sample-IsFormatField = record {
  printable = sample_field-IsPrintable;
  no_semicolon = rw sample_encoded (ground arith);
}

sample_text : format_str sample_format ≡ codes "attitude:float[3] x;float[3] x;"
unfolding format_str encode make_field type_of_name find_basic_type bytes_eq to_string
sample_text = refl

sample_format-IsFormat : IsFormat sample_format
sample_format-IsFormat = record {
  name = ground arith;
  fields = (sample-IsFormatField, (sample-IsFormatField, tt));
  fits = rw sample_text (omega arith);
}
