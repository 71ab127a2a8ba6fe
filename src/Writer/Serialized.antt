-- ===== src/Writer/Serialized.antt =====
-- Each class's serialized message is whole, and is the one that the reader makes the event of.
use ulog_cpp.Prelude.{
  ℕ, ◌+◌, ◌%◌, ◌^◌, ◌≤◌, ◌<◌, ◌≡◌, refl, ap, arith, true, false, Option, some, Bytes, length,
  length-append, ◌++◌, Bool-cases, inl, inr,
}
use ulog_cpp.Exception.{Result, ok, ◌>>=◌}
use ulog_cpp.Memory.{le_bytes}
use mathlib.Core.Path.{subst}
use ulog_cpp.RawMessages.{type_byte, ULogMessageType, message_header, exceeds_u16-false}
use ulog_cpp.Messages.Format.{MessageFormat, serialize_format, format_str, parse_format}
use ulog_cpp.Messages.Format.RoundTrip.{IsFormat, parse-serialize_format}
use ulog_cpp.Messages.Logged.{
  sync_magic_bytes, AddLoggedMessage, Data, Dropout, serialize_add_logged, serialize_data,
  serialize_dropout, serialize_sync, parse_add_logged, parse_data, parse_dropout, parse_sync,
}
use ulog_cpp.Messages.Logged.RoundTrip.{
  IsData, IsAddLogged, parse-serialize_data, parse-serialize_add_logged, parse-serialize_dropout,
  parse-serialize_sync,
}
use ulog_cpp.Messages.Logging.{Logging, level_byte, serialize_logging, parse_logging}
use ulog_cpp.Messages.Logging.RoundTrip.{fixed_size, IsLogging, parse-serialize_logging}
use ulog_cpp.Handler.{Event, message_format, add_logged_message, logging, data_msg, dropout, sync}
use ulog_cpp.Reader.Frames.{IsMessage}
use ulog_cpp.Reader.Dispatch.{header_event, data_event}

-- The event that the reader makes of a message: formats are read in the header, and the others
-- behind it.
abbrev pub read_event : Event → Bytes → Option (Result Event)
read_event (message_format _) m = header_event m
read_event _ m = data_event m

type_byte_pos : (type : ULogMessageType) → 1 ≤ type_byte type
type_byte_pos type = ground arith

header-IsMessage :
    (size : ℕ) (type : ULogMessageType) (body : Bytes)
    → length body ≡ size
    → 1 ≤ size
    → size < 2 ^ 16
    → IsMessage (message_header (size % 2 ^ 16) type ++ body)
unfolding message_header le_bytes
header-IsMessage size type body e pos fits = record {
  whole = omega (arith, e);
  size = λ h. omega (arith, h);
  type = λ h. omega (arith, h, type_byte_pos type);
}

-- A message that was serialized is parsed as the round trip says.
pub back :
    {A : Type 0} {r : Result Bytes} {b : Bytes} {a : A} (parse : Bytes → Result A)
    → r ≡ ok b
    → (r >>= parse) ≡ ok a
    → parse b ≡ ok a
back {a = a} parse e h = subst (λ r. (r >>= parse) ≡ ok a) e h

-- The event's message, that the serialization gives.
abbrev pub Written : Event → Result Bytes → Type 0
Written e r = (m : Bytes) × (r ≡ ok m) × IsMessage m × (read_event e m ≡ some (ok e))

pub written :
    (e : Event) (size : ℕ) (type : ULogMessageType) (body : Bytes) {r : Result Bytes}
    → r ≡ ok (message_header (size % 2 ^ 16) type ++ body)
    → length body ≡ size
    → 1 ≤ size
    → size < 2 ^ 16
    → read_event e (message_header (size % 2 ^ 16) type ++ body) ≡ some (ok e)
    → Written e r
written e size type body s len pos fits back = (
  message_header (size % 2 ^ 16) type ++ body,
  s,
  header-IsMessage size type body len pos fits,
  back,
)

pub data-Written : (m : Data) → IsData m → Written (data_msg m) (serialize_data m)
data-Written m v =
    let size = length m.payload + 2 in
    let body = le_bytes 2 m.msg_id ++ m.payload in
    let e : serialize_data m
        ≡ ok (message_header (size % 2 ^ 16) ULogMessageType.data_msg ++ body) =
      unfold serialize_data in rw (exceeds_u16-false size v.fits) refl in
    written (data_msg m) size ULogMessageType.data_msg body e (unfold le_bytes in omega arith)
      (omega arith) v.fits
      (unfold data_event message_header le_bytes in
        ap (λ r. some (r >>= λ m. ok (data_msg m))) (back parse_data e (parse-serialize_data m v)))

pub add_logged-Written :
    (m : AddLoggedMessage) → IsAddLogged m → Written (add_logged_message m) (serialize_add_logged m)
add_logged-Written m v =
    let size = length m.message_name + 3 in
    let type = ULogMessageType.add_logged_msg in
    let body = le_bytes 1 m.multi_id ++ (le_bytes 2 m.msg_id ++ m.message_name) in
    let e : serialize_add_logged m ≡ ok (message_header (size % 2 ^ 16) type ++ body) =
      unfold serialize_add_logged in rw (exceeds_u16-false size v.fits) refl in
    written (add_logged_message m) size type body e (unfold le_bytes in omega arith) (omega arith)
      v.fits
      (unfold data_event message_header le_bytes in
        ap (λ r. some (r >>= λ m. ok (add_logged_message m)))
          (back parse_add_logged e (parse-serialize_add_logged m v)))

pub dropout-Written :
    (m : Dropout) → m.duration_ms < 2 ^ 16 → Written (dropout m) (serialize_dropout m)
dropout-Written m v =
    let e : serialize_dropout m
        ≡ ok (message_header 2 ULogMessageType.dropout ++ le_bytes 2 m.duration_ms) =
      unfold serialize_dropout in refl in
    written (dropout m) 2 ULogMessageType.dropout (le_bytes 2 m.duration_ms) e
      (unfold le_bytes in refl) (omega arith) (omega arith)
      (unfold data_event message_header le_bytes in
        ap (λ r. some (r >>= λ m. ok (dropout m)))
          (back parse_dropout e (parse-serialize_dropout m v)))

pub sync-Written : Written sync serialize_sync
sync-Written =
    let e : serialize_sync ≡ ok (message_header 8 ULogMessageType.sync ++ sync_magic_bytes) =
      unfold serialize_sync in refl in
    written sync 8 ULogMessageType.sync sync_magic_bytes e refl (omega arith) (omega arith) (
      unfold data_event message_header le_bytes in
      ap (λ r. some (r >>= λ _. ok sync)) (back parse_sync e parse-serialize_sync))

untagged_lem :
    (m : Logging) → IsLogging m → m.has_tag ≡ false → Written (logging m) (serialize_logging m)
untagged_lem m v h =
    let size = length m.message + 9 in
    let type = ULogMessageType.logging in
    let body = le_bytes 1 (level_byte m.log_level) ++ (le_bytes 8 m.timestamp ++ m.message) in
    let fits : size < 2 ^ 16 = subst (λ t. length m.message + fixed_size t < 2 ^ 16) h v.fits in
    let e : serialize_logging m ≡ ok (message_header (size % 2 ^ 16) type ++ body) =
      unfold serialize_logging in rw (h, exceeds_u16-false size fits) refl in
    let p : (serialize_logging m >>= λ b. parse_logging b false) ≡ ok m =
      subst (λ t. (serialize_logging m >>= λ b. parse_logging b t) ≡ ok m) h
        (parse-serialize_logging m v) in
    written (logging m) size type body e (unfold le_bytes in omega arith) (omega arith) fits (
      unfold data_event message_header le_bytes in
      ap (λ r. some (r >>= λ m. ok (logging m))) (back (λ b. parse_logging b false) e p))

tagged_lem :
    (m : Logging) → IsLogging m → m.has_tag ≡ true → Written (logging m) (serialize_logging m)
tagged_lem m v h =
    let size = length m.message + 11 in
    let type = ULogMessageType.logging_tagged in
    let body =
      le_bytes 1 (level_byte m.log_level)
      ++ (le_bytes 2 m.tag ++ (le_bytes 8 m.timestamp ++ m.message)) in
    let fits : size < 2 ^ 16 = subst (λ t. length m.message + fixed_size t < 2 ^ 16) h v.fits in
    let e : serialize_logging m ≡ ok (message_header (size % 2 ^ 16) type ++ body) =
      unfold serialize_logging in rw (h, exceeds_u16-false size fits) refl in
    let p : (serialize_logging m >>= λ b. parse_logging b true) ≡ ok m =
      subst (λ t. (serialize_logging m >>= λ b. parse_logging b t) ≡ ok m) h
        (parse-serialize_logging m v) in
    written (logging m) size type body e (unfold le_bytes in omega arith) (omega arith) fits (
      unfold data_event message_header le_bytes in
      ap (λ r. some (r >>= λ m. ok (logging m))) (back (λ b. parse_logging b true) e p))

pub logging-Written : (m : Logging) → IsLogging m → Written (logging m) (serialize_logging m)
logging-Written m v = elim (Bool-cases m.has_tag) [
  | inl h ↦ tagged_lem m v h
  | inr h ↦ untagged_lem m v h
]

pub format-Written :
    (m : MessageFormat) → IsFormat m → Written (message_format m) (serialize_format m)
format-Written m v =
    let size = length (format_str m) in
    let type = ULogMessageType.format in
    let e : serialize_format m ≡ ok (message_header (size % 2 ^ 16) type ++ format_str m) =
      unfold serialize_format in rw (exceeds_u16-false size v.fits) refl in
    let pos : 1 ≤ size = unfold format_str in omega (arith, length-append {0} m.name) in
    written (message_format m) size type (format_str m) e refl pos v.fits (
      unfold header_event message_header le_bytes in
      ap (λ r. some (r >>= λ m. ok (message_format m)))
        (back parse_format e (parse-serialize_format m v)))
