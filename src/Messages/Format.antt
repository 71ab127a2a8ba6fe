-- ===== src/Messages/Format.antt =====
-- messages.hpp and messages.cpp: `MessageFormat`, but for the resolution of its fields.
pub mod RoundTrip
pub mod Safety
pub mod Sizes
use ulog_cpp.Prelude.{
  bytes_less, ℕ, zero, suc, ◌+◌, ◌%◌, ◌^◌, Bool, true, false, not, ◌&&◌, ◌||◌, Option, none, some,
  List, [], ◌∷◌, ◌++◌, map, ◌==◌, if◌then◌else◌, Bytes, bytes_eq, length, take, drop,
}
use ulog_cpp.Prelude.Int.{ℤ, pos, ◌+ℤ◌}
use ulog_cpp.Exception.{
  Result, ok, err, ◌>>=◌, ◌>>◌, throw_if, parsing_exception, access_exception, message_too_long,
  no_colon, no_semicolon, field_not_found, out_of_fuel,
}
use ulog_cpp.Memory.{read_bytes}
use ulog_cpp.RawMessages.{ULogMessageType, header_msg_size, message_header, exceeds_u16}
use ulog_cpp.Text.Find.{find}
use ulog_cpp.Field.{Field, parse_field, encode, field_eq, size_bytes}

-- `fields` is `_fields_ordered`. The map `_fields` shares its fields and is found by `field_map`.
pub record MessageFormat : Type 0 where
  pub name : Bytes
  pub fields : List Field

unfoldable pub contains_name : Bytes → List Field → Bool
contains_name name [] = false
contains_name name (f ∷ fs) = bytes_eq f.name name || contains_name name fs

-- `_fields.insert` for each field in order: of two fields with one name the first is kept. The
-- second argument holds the fields that are in the map already.
unfoldable pub insert_fields : List Field → List Field → List Field
unfolding contains_name
insert_fields [] kept = kept
insert_fields (f ∷ fs) kept =
    insert_fields fs (if contains_name f.name kept then kept else kept ++ f ∷ [])

-- `_fields`, in the order of insertion.
unfoldable pub field_map : List Field → List Field
unfolding insert_fields
field_map fs = insert_fields fs []

-- The loop over '<field0>;<field1>;…'. Each round takes at least a semicolon off the text.
unfoldable pub parse_fields : ℕ → Bytes → Result (List Field)
parse_fields fuel [] = ok []
parse_fields zero (c ∷ s) = err out_of_fuel
parse_fields (suc fuel) (c ∷ s) = elim (find b';' (c ∷ s)) [
  | none ↦ err (parsing_exception no_semicolon)
  | some semicolon ↦ parse_field (take semicolon (c ∷ s)) >>= λ f.
      parse_fields fuel (drop (semicolon + 1) (c ∷ s)) >>= λ fs. ok (f ∷ fs)
]

-- '<name>:<fields>', with the place of the colon.
parse_named : Bytes → Option ℕ → Result MessageFormat
parse_named str none = err (parsing_exception no_colon)
parse_named str (some colon) = do
  let rest = drop (colon + 1) str
  fields ← parse_fields (length rest) rest
  ok (record { name = take colon str; fields = fields })

unfoldable pub parse_format_str : Bytes → Result MessageFormat
unfolding parse_named
parse_format_str str = parse_named str (find b':' str)

-- `MessageFormat(const uint8_t* msg)`.
unfoldable pub parse_format : Bytes → Result MessageFormat
parse_format msg = do size ← header_msg_size msg; str ← read_bytes msg 3 size; parse_format_str str

-- `MessageFormat(std::string name, const std::vector<Field>& fields)`.
unfoldable pub make_format : Bytes → List Field → MessageFormat
make_format name fields = record { name = name; fields = fields }

encode_fields : List Field → Bytes
encode_fields [] = []
encode_fields (f ∷ fs) = encode f ++ (b';' ∷ encode_fields fs)

-- The text of a format.
unfoldable pub format_str : MessageFormat → Bytes
unfolding encode_fields
format_str m = m.name ++ (b':' ∷ encode_fields m.fields)

-- `MessageFormat::serialize`.
unfoldable pub serialize_format : MessageFormat → Result Bytes
serialize_format m = do
  let str = format_str m
  throw_if (exceeds_u16 (length str)) (parsing_exception message_too_long)
  ok (message_header (length str % 2 ^ 16) ULogMessageType.format ++ str)

-- `MessageFormat::field`, which looks in the map.
unfoldable pub find_field : Bytes → List Field → Result Field
find_field name [] = err (access_exception (field_not_found name))
find_field name (f ∷ fs) = if bytes_eq f.name name then ok f else find_field name fs

unfoldable pub field : MessageFormat → Bytes → Result Field
unfolding find_field
field m name = find_field name (field_map m.fields)

-- `MessageFormat::fieldNames`.
unfoldable pub field_names : MessageFormat → List Bytes
field_names m = map (λ f. f.name) m.fields

-- The fields of a map in its order, which is that of the names.
insert_by_name : Field → List Field → List Field
insert_by_name f [] = f ∷ []
insert_by_name f (g ∷ fs) =
    let rest = insert_by_name f fs in if bytes_less f.name g.name then f ∷ g ∷ fs else g ∷ rest

by_name : List Field → List Field
unfolding insert_by_name
by_name [] = []
by_name (f ∷ fs) = insert_by_name f (by_name fs)

-- `MessageFormat::sizeBytes`: the sum over the map.
sum_sizes : List Field → Result ℤ
sum_sizes [] = ok (pos 0)
sum_sizes (f ∷ fs) = do size ← size_bytes f; rest ← sum_sizes fs; ok (size +ℤ rest)

unfoldable pub format_size_bytes : MessageFormat → Result ℤ
unfolding sum_sizes by_name
format_size_bytes m = sum_sizes (by_name (field_map m.fields))
