-- ===== src/Value.antt =====
-- messages.hpp and messages.cpp: `Value`, a view of a field in memory; utils.hpp. `int` offsets are
-- integers, and a sum beyond `int` is not modelled.
pub mod Decode
pub mod Elements
pub mod Bounds
pub mod RoundTrip
pub mod Texts
pub mod Cast
pub mod Resolved
use ulog_cpp.Prelude.{
  ℕ, zero, suc, ◌+◌, ◌*◌, Bool, true, false, not, ◌&&◌, ◌||◌, Option, none, some, List, [], ◌∷◌,
  leb, ltb, ◌==◌, if◌then◌else◌, Bytes, length, take, drop, map,
}
use ulog_cpp.Prelude.Int.{ℤ, pos, negsuc, ◌+ℤ◌, ◌-ℤ◌, ◌*ℤ◌, ltb_ℤ}
use ulog_cpp.Exception.{
  Result, ok, err, ◌>>=◌, ◌>>◌, throw_if, access_exception, length_error, fault, non_array_element,
  nested_as_basic, unexpected_size, memory_too_short, non_nested_access, not_nested,
  unresolved_access, not_array, index_out_of_bounds,
}
use ulog_cpp.Memory.{read_bytes, le_value}
use ulog_cpp.Field.{
  Field, BasicType, int8, uint8, int16, uint16, int32, uint32, int64, uint64, float, double, char,
  bool, nested, is_nested, definition_resolved, minus_one,
}
use ulog_cpp.Messages.Format.{MessageFormat, field}
use ulog_cpp.Messages.Info.{MessageInfo}
use ulog_cpp.Formats.{Formats, find_message_format}

-- `_backing_ref_begin` is a place in the memory `backing`, at whose end `_backing_ref_end` is.
pub record Value : Type 0 where
  pub field_ref : Field
  pub array_index : ℤ
  pub begin : ℤ
  pub backing : Bytes

-- The constructor from a field and a vector.
unfoldable pub make_value : Field → Bytes → Value
make_value f backing = record {
  field_ref = f;
  array_index = minus_one;
  begin = pos 0;
  backing = backing;
}

-- `MessageInfo::value`.
unfoldable pub info_value : MessageInfo → Value
info_value m = make_value m.field m.value

-- `NativeTypeVariant`, where a `bool` keeps its byte (0 or 1; another byte is no `bool`): a number or a vector of numbers by the bits of each, or a string.
pub data Native : Type 0 where
  scalar : BasicType → ℕ → Native
  vector : BasicType → List ℕ → Native
  text : Bytes → Native

-- `sizeof` of a type. There is none for a nested field, which is not decoded.
abbrev pub sizeof : BasicType → ℕ
sizeof int8 = 1
sizeof uint8 = 1
sizeof int16 = 2
sizeof uint16 = 2
sizeof int32 = 4
sizeof uint32 = 4
sizeof int64 = 8
sizeof uint64 = 8
sizeof float = 4
sizeof double = 8
sizeof char = 1
sizeof bool = 1
sizeof nested = 0

-- A read at a place before the memory is a fault, as one behind it.
unfoldable pub read_at : Bytes → ℤ → ℕ → Result Bytes
read_at b (pos n) w = read_bytes b n w
read_at b (negsuc n) w = err fault

-- `deserialize<T>`, for a `T` of so many bytes.
unfoldable pub deserialize : ℕ → Value → ℤ → ℤ → Result ℕ
deserialize w v offset array_offset = do
  let total_offset = offset +ℤ array_offset *ℤ pos w
  let end = pos (length v.backing)
  throw_if (ltb_ℤ end v.begin || ltb_ℤ (end -ℤ v.begin -ℤ total_offset) (pos w))
      (access_exception unexpected_size)
  bytes ← read_at v.backing (v.begin +ℤ total_offset) w
  ok (le_value bytes)

-- The loop of `deserializeVector`, with the elements that are left.
unfoldable pub elements_from : ℕ → Value → ℤ → ℕ → ℕ → Result (List ℕ)
elements_from w v offset i zero = ok []
elements_from w v offset i (suc n) = do
  x ← deserialize w v offset (pos i)
  xs ← elements_from w v offset (suc i) n
  ok (x ∷ xs)

-- `deserializeVector<T>`: `resize` refuses a negative size, which it takes for a huge one.
unfoldable pub deserialize_vector : ℕ → Value → ℤ → ℤ → Result (List ℕ)
unfolding elements_from
deserialize_vector w v offset (pos n) = elements_from w v offset 0 n
deserialize_vector w v offset (negsuc _) = err length_error

-- `strnlen`, on the memory from the pointer on. The character is read before the length is tested.
unfoldable pub strnlen : Bytes → ℕ → Result ℕ
strnlen [] max_len = err fault
strnlen (c ∷ b) zero = ok 0
strnlen (c ∷ b) (suc max_len) =
    let rest = strnlen b max_len in if c == 0 then ok 0 else (rest >>= λ n. ok (suc n))

-- A pointer before the memory.
unfoldable pub string_at : Bytes → ℤ → ℕ → Result Bytes
string_at b (negsuc _) max_len = err fault
string_at b (pos n) max_len = do len ← strnlen (drop n b) max_len; ok (take len (drop n b))

-- A length that is negative ends the loop of `strnlen` at once.
abbrev pub as_length : ℤ → ℕ
as_length (pos n) = n
as_length (negsuc _) = 0

-- A `char` array.
unfoldable pub decode_string : Value → Result Native
unfolding string_at
decode_string v = do
  let start = v.begin +ℤ v.field_ref.offset_in_message_bytes
  throw_if (ltb_ℤ (pos (length v.backing) -ℤ start) v.field_ref.array_length)
      (access_exception memory_too_short)
  s ← string_at v.backing start (as_length v.field_ref.array_length)
  ok (text s)

abbrev pub is_char : BasicType → Bool
is_char char = true
is_char _ = false

-- The first switch, with the array offset.
unfoldable pub decode_single : Value → ℤ → Result Native
decode_single v array_offset =
    let t = v.field_ref.type.type in
    if is_nested t
    then err (access_exception nested_as_basic)
    else (deserialize (sizeof t) v v.field_ref.offset_in_message_bytes array_offset >>= λ x.
        ok (scalar t x))

-- The second switch.
unfoldable pub decode_array : Value → Result Native
decode_array v =
    let t = v.field_ref.type.type in
    if is_nested t
    then err (access_exception nested_as_basic)
    else if is_char t
    then decode_string v
    else (deserialize_vector (sizeof t) v v.field_ref.offset_in_message_bytes
          v.field_ref.array_length
        >>= λ xs. ok (vector t xs))

abbrev pub is_negative : ℤ → Bool
is_negative (pos _) = false
is_negative (negsuc _) = true

abbrev pub is_minus_one : ℤ → Bool
is_minus_one (negsuc zero) = true
is_minus_one _ = false

-- `asNativeTypeVariant`.
unfoldable pub as_native_type_variant : Value → Result Native
as_native_type_variant v =
    let i = v.array_index in
    let n = v.field_ref.array_length in
    if not (is_negative i) && is_negative n
    then err (access_exception non_array_element)
    else if is_minus_one n || not (is_negative i)
    then decode_single v (if is_negative i then pos 0 else i)
    else decode_array v

-- `operator[](const Field& field)`.
unfoldable pub sub_value : Value → Field → Result Value
sub_value v f = do
  throw_if (not (is_nested v.field_ref.type.type)) (access_exception non_nested_access)
  throw_if (not (definition_resolved v.field_ref)) (access_exception unresolved_access)
  let submessage_offset =
      v.field_ref.offset_in_message_bytes
      +ℤ (if is_negative v.array_index then pos 0 else v.field_ref.type.size *ℤ v.array_index)
  ok (record {
    field_ref = f;
    array_index = minus_one;
    begin = v.begin +ℤ submessage_offset;
    backing = v.backing;
  })

-- `nested_message->field(field_name)`, in the formats. Without a format the pointer is null.
pointed_field : Option Bytes → Bytes → Formats → Result Field
pointed_field none name fs = err fault
pointed_field (some format) name fs = elim (find_message_format format fs) [
  | none ↦ err fault
  | some m ↦ field m name
]

-- `Field::nestedField`.
unfoldable pub nested_field : Formats → Field → Bytes → Result Field
unfolding pointed_field
nested_field fs f name = do
  throw_if (not (is_nested f.type.type)) (access_exception not_nested)
  pointed_field f.type.nested_message name fs

-- `operator[](const std::string& field_name)`.
unfoldable pub sub_value_named : Formats → Value → Bytes → Result Value
unfolding pointed_field
sub_value_named fs v name = do
  throw_if (not (is_nested v.field_ref.type.type)) (access_exception non_nested_access)
  throw_if (not (definition_resolved v.field_ref)) (access_exception unresolved_access)
  f ← pointed_field v.field_ref.type.nested_message name fs
  sub_value v f

-- `operator[](size_t index)`.
unfoldable pub element : Value → ℕ → Result Value
element v index = do
  throw_if (is_negative v.field_ref.array_length) (access_exception not_array)
  throw_if (leb (as_length v.field_ref.array_length) index) (access_exception index_out_of_bounds)
  ok (record v { array_index = pos index })
