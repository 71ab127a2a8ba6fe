-- ===== src/SimpleWriter.antt =====
-- simple_writer.hpp and simple_writer.cpp: `SimpleWriter`, which checks the order of the calls, the
-- formats and the sizes of the data before it hands them to a `Writer`.
pub mod Layout
pub mod Session
pub mod Order
use ulog_cpp.Prelude.{
  ℕ, zero, suc, ◌+◌, ◌*◌, ◌%◌, ◌^◌, Bool, true, false, not, ◌&&◌, ◌||◌, Option, none, some, List,
  [], ◌∷◌, ◌++◌, leb, ltb, ◌==◌, if◌then◌else◌, Bytes, bytes_eq, codes, length, take, get_elem?,
}
use ulog_cpp.Prelude.Int.{ℤ, pos, negsuc, pos_part, ltb_ℤ}
use ulog_cpp.Exception.{
  Reason, Exception, Result, ok, err, ◌>>=◌, ◌>>◌, throw_if, usage_exception,
  header_already_complete, header_not_complete, first_field_not_timestamp, duplicate_format_name,
  invalid_name, invalid_field_name, invalid_field_type, requires_padding, unknown_format,
  invalid_id, data_too_small,
}
use ulog_cpp.Field.{Field, BasicType, uint64, TypeAttributes, find_basic_type, eq_ℤ, minus_one}
use ulog_cpp.Messages.FileHeader.{make_header}
use ulog_cpp.Messages.Info.{MessageInfo}
use ulog_cpp.Messages.Format.{make_format}
use ulog_cpp.Messages.Logging.{Level, make_logging}
use ulog_cpp.Handler.{
  Event, header_complete, message_info, message_format, parameter, add_logged_message, logging,
  data_msg, Outcome, returned, thrown,
}
use ulog_cpp.Writer.{new_writer, Writer, write_file_header, write_event}

-- `formats` holds the names with `Format::message_size`, `subscriptions` the
-- `Subscription::message_size` by id. The writer is owned by the object.
pub record SimpleWriter : Type 0 where
  pub writer : Writer
  pub is_header_complete : Bool
  pub formats : List (Bytes × ℕ)
  pub subscriptions : List ℕ

-- The constructor with a callback.
unfoldable pub make_simple_writer : ℕ → SimpleWriter
make_simple_writer timestamp_us = record {
  writer = write_file_header (make_header timestamp_us false) new_writer;
  is_header_complete = false;
  formats = [];
  subscriptions = [];
}

unfoldable pub find_format : Bytes → List (Bytes × ℕ) → Option ℕ
find_format name [] = none
find_format name ((n, size) ∷ fs) = if bytes_eq n name then some size else find_format name fs

abbrev between : ℕ → ℕ → ℕ → Bool
between low high c = leb low c && leb c high

-- `[a-z0-9_]` and `[a-zA-Z0-9_\-/]`.
abbrev field_name_char : ℕ → Bool
field_name_char c = between b'a' b'z' c || between b'0' b'9' c || c == b'_'

abbrev format_name_char : ℕ → Bool
format_name_char c = field_name_char c || between b'A' b'Z' c || c == b'-' || c == b'/'

all_of : (ℕ → Bool) → Bytes → Bool
all_of p [] = true
all_of p (c ∷ s) = p c && all_of p s

-- `std::regex_match` with a class under `+`.
matches : (ℕ → Bool) → Bytes → Bool
unfolding all_of
matches p [] = false
matches p (c ∷ s) = all_of p (c ∷ s)

abbrev is_uint64 : BasicType → Bool
is_uint64 uint64 = true
is_uint64 _ = false

-- The first field is 'uint64_t timestamp'.
starts_with_timestamp : List Field → Bool
starts_with_timestamp [] = false
starts_with_timestamp (f ∷ _) =
    bytes_eq f.name (codes "timestamp") && is_uint64 f.type.type && eq_ℤ f.array_length minus_one

check_field_names : List Field → Result (Unit {0})
unfolding matches
check_field_names [] = ok tt
check_field_names (f ∷ fs) =
    throw_if (not (matches field_name_char f.name)) (usage_exception (invalid_field_name f.name))
    >> check_field_names fs

-- `array_length <= 0 ? 1 : array_length`.
abbrev pub array_size : ℤ → ℕ
array_size (pos zero) = 1
array_size (pos (suc n)) = suc n
array_size (negsuc _) = 1

-- The loop over the fields' types, with the size of the fields before: `unsigned` has 32 bits. A
-- product beyond `int` is not modelled.
unfoldable pub add_sizes : ℕ → List Field → Result ℕ
add_sizes message_size [] = ok message_size
add_sizes message_size (f ∷ fs) = elim (find_basic_type f.type.name) [
  | none ↦ err (usage_exception (invalid_field_type f.type.name))
  | some t ↦
      throw_if (not (message_size % pos_part t.size == 0)) (usage_exception requires_padding)
      >> add_sizes ((message_size + array_size f.array_length * pos_part t.size) % 2 ^ 32) fs
]

abbrev has_format : Option ℕ → Bool
has_format none = false
has_format (some _) = true

-- The checks of `writeMessageFormat`, and the size that they find.
unfoldable pub check_format : SimpleWriter → Bytes → List Field → Result ℕ
unfolding matches starts_with_timestamp check_field_names
check_format s name fields =
    throw_if s.is_header_complete (usage_exception header_already_complete)
    >> throw_if (not (starts_with_timestamp fields)) (usage_exception first_field_not_timestamp)
    >> throw_if (has_format (find_format name s.formats))
        (usage_exception (duplicate_format_name name))
    >> throw_if (not (matches format_name_char name)) (usage_exception (invalid_name name))
    >> check_field_names fields
    >> add_sizes 0 fields

-- A call of the writer.
unfoldable pub forward : Event → SimpleWriter → SimpleWriter × Outcome
forward e s = let (w, o) = write_event e s.writer in (record s { writer = w }, o)

abbrev stop : Reason → SimpleWriter → SimpleWriter × Outcome
stop r s = (s, thrown (usage_exception r))

-- `writeMessageFormat`. The format is known before the writer has taken it.
unfoldable pub write_message_format : Bytes → List Field → SimpleWriter → SimpleWriter × Outcome
write_message_format name fields s = elim (check_format s name fields) [
  | err x ↦ (s, thrown x)
  | ok message_size ↦
      forward (message_format (make_format name fields))
        (record s { formats = (name, message_size) ∷ s.formats })
]

-- `headerComplete`.
unfoldable pub complete_header : SimpleWriter → SimpleWriter × Outcome
unfolding forward
complete_header s =
    if s.is_header_complete
    then stop header_already_complete s
    else (record (forward header_complete s).0 { is_header_complete = true }, returned)

-- `writeInfo`, `writeParameter` and `writeParameterChange`, with the message that the key and the
-- value make.
unfoldable pub write_info : MessageInfo → SimpleWriter → SimpleWriter × Outcome
write_info m s = forward (message_info m) s

unfoldable pub write_parameter : MessageInfo → SimpleWriter → SimpleWriter × Outcome
write_parameter m s =
    if s.is_header_complete then stop header_already_complete s else forward (parameter m) s

unfoldable pub write_parameter_change : MessageInfo → SimpleWriter → SimpleWriter × Outcome
write_parameter_change m s =
    if not s.is_header_complete then stop header_not_complete s else forward (parameter m) s

-- `writeTextMessage`.
unfoldable pub write_text_message : Level → Bytes → ℕ → SimpleWriter → SimpleWriter × Outcome
write_text_message level message timestamp s =
    if not s.is_header_complete
    then stop header_not_complete s
    else forward (logging (make_logging level message timestamp)) s

-- The id that a call returns, unless it throws.
abbrev result_of : ℕ → Outcome → Result ℕ
result_of id returned = ok id
result_of id (thrown x) = err x

add_subscription : Bytes → ℕ → Option ℕ → SimpleWriter → SimpleWriter × Result ℕ
add_subscription name multi_id none s = (s, err (usage_exception (unknown_format name)))
add_subscription name multi_id (some size) s =
    let id = length s.subscriptions % 2 ^ 16 in
    let (s', o) =
      forward
        (add_logged_message (record { multi_id = multi_id; msg_id = id; message_name = name }))
        (record s { subscriptions = s.subscriptions ++ size ∷ [] }) in
    (s', result_of id o)

-- `writeAddLoggedMessage`. The id is the number of subscriptions, as a `uint16_t`.
unfoldable pub write_add_logged : Bytes → ℕ → SimpleWriter → SimpleWriter × Result ℕ
unfolding add_subscription
write_add_logged name multi_id s =
    if not s.is_header_complete
    then (s, err (usage_exception header_not_complete))
    else add_subscription name multi_id (find_format name s.formats) s

write_sized : ℕ → Bytes → Option ℕ → SimpleWriter → SimpleWriter × Outcome
write_sized id bytes none s = stop invalid_id s
write_sized id bytes (some expected_size) s =
    if ltb (length bytes) expected_size
    then stop data_too_small s
    else forward (data_msg (record { msg_id = id; payload = take expected_size bytes })) s

-- `writeDataImpl`, on the memory of the data. The padding at its end is left out.
unfoldable pub write_data : ℕ → Bytes → SimpleWriter → SimpleWriter × Outcome
unfolding write_sized
write_data id bytes s =
    if not s.is_header_complete
    then stop header_not_complete s
    else write_sized id bytes (get_elem? s.subscriptions id) s
