-- ===== src/Field.antt =====
-- messages.hpp and messages.cpp, class `Field`: the type attributes, the two constructors, the
-- encoding and the size. `int` members are integers; a product beyond `int` is not modelled.
pub mod RoundTrip
pub mod Safety
pub mod Sizes
use ulog_cpp.Prelude.{
  ℕ, zero, ◌+◌, ◌-◌, ◌≡◌, Bool, true, false, not, ◌&&◌, ◌||◌, Option, none, some, List, [], ◌∷◌,
  ◌++◌, leb, ltb, ◌==◌, if◌then◌else◌, Bytes, bytes_eq, codes, length, take, drop, get_elem?,
}
use ulog_cpp.Prelude.Int.{ℤ, pos, negsuc, pos_part, neg_part, ltb_ℤ, ◌*ℤ◌}
use ulog_cpp.Exception.{
  Result, ok, err, ◌>>=◌, ◌>>◌, throw_if, parsing_exception, access_exception, nested_not_resolved,
  not_nested, invalid_key_format, missing_bracket, unresolved_type,
}
use ulog_cpp.Text.Find.{find}
use ulog_cpp.Text.Decimal.{stoi, to_string}

-- `Field::BasicType`.
pub data BasicType : Type 0 where
  int8 uint8 int16 uint16 int32 uint32 int64 uint64 : BasicType
  float double char bool nested : BasicType

abbrev pub is_nested : BasicType → Bool
is_nested nested = true
is_nested _ = false

-- `Field::TypeAttributes`. The pointer to the nested format is the format's name in the map of
-- formats, which owns it.
pub record TypeAttributes : Type 0 where
  pub name : Bytes
  pub type : BasicType
  pub size : ℤ
  pub nested_message : Option Bytes

-- An `_offset_in_message_bytes` of -1 is "not resolved", an `_array_length` of -1 "no array".
pub record Field : Type 0 where
  pub type : TypeAttributes
  pub array_length : ℤ
  pub offset_in_message_bytes : ℤ
  pub name : Bytes

abbrev pub minus_one : ℤ
minus_one = negsuc 0

abbrev attributes : Bytes → BasicType → ℕ → TypeAttributes
attributes name type size = record {
  name = name;
  type = type;
  size = pos size;
  nested_message = none;
}

-- `Field::kBasicTypes`.
abbrev basic_types : List TypeAttributes
basic_types =
    attributes (codes "int8_t") int8 1
    ∷ attributes (codes "uint8_t") uint8 1
    ∷ attributes (codes "int16_t") int16 2
    ∷ attributes (codes "uint16_t") uint16 2
    ∷ attributes (codes "int32_t") int32 4
    ∷ attributes (codes "uint32_t") uint32 4
    ∷ attributes (codes "int64_t") int64 8
    ∷ attributes (codes "uint64_t") uint64 8
    ∷ attributes (codes "float") float 4
    ∷ attributes (codes "double") double 8
    ∷ attributes (codes "bool") bool 1
    ∷ attributes (codes "char") char 1
    ∷ []

find_type : Bytes → List TypeAttributes → Option TypeAttributes
find_type name [] = none
find_type name (t ∷ ts) = if bytes_eq t.name name then some t else find_type name ts

-- `kBasicTypes.find`.
unfoldable pub find_basic_type : Bytes → Option TypeAttributes
unfolding find_type
find_basic_type name = find_type name basic_types

-- A type that is not basic is taken to be a nested format.
or_nested : Bytes → Option TypeAttributes → TypeAttributes
or_nested name (some t) = t
or_nested name none = attributes name nested 0

unfoldable pub type_of_name : Bytes → TypeAttributes
unfolding or_nested
type_of_name name = or_nested name (find_basic_type name)

-- The constructor from a type, a name and an array length.
unfoldable pub make_field : Bytes → Bytes → ℤ → Field
make_field type_str name_str array_length = record {
  type = type_of_name type_str;
  array_length = array_length;
  offset_in_message_bytes = minus_one;
  name = name_str;
}

-- The last character of the key is the closing bracket.
abbrev is_bracket : Option ℕ → Bool
is_bracket none = false
is_bracket (some last) = last == b']'

-- '<type>[len]', with the place of the first bracket.
parse_array : Bytes → ℕ → Result (Bytes × ℤ)
parse_array key_array bracket = do
  throw_if (not (is_bracket (get_elem? key_array (length key_array - 1))))
      (parsing_exception missing_bracket)
  array_length ← stoi (drop (bracket + 1) key_array)
  ok (take bracket key_array, array_length)

-- The type's name and the array length, read from what stands before the first space.
unfoldable pub parse_key_array : Bytes → Result (Bytes × ℤ)
unfolding parse_array
parse_key_array key_array = elim (find b'[' key_array) [
  | none ↦ ok (key_array, minus_one)
  | some bracket ↦ parse_array key_array bracket
]

-- The constructor from input bytes: '<type>[len] <name>' or '<type> <name>'.
unfoldable pub parse_field : Bytes → Result Field
unfolding parse_key_array
parse_field str = elim (find b' ' str) [
  | none ↦ err (parsing_exception invalid_key_format)
  | some first_space ↦ do
    key ← parse_key_array (take first_space str)
    ok (make_field key.0 (drop (first_space + 1) str) key.1)
]

-- `Field::encode`.
unfoldable pub encode : Field → Bytes
encode f = elim f.array_length [
  | pos n ↦ f.type.name ++ (b'[' ∷ (to_string n ++ (b']' ∷ b' ' ∷ f.name)))
  | negsuc _ ↦ f.type.name ++ (b' ' ∷ f.name)
]

abbrev pub eq_ℤ : ℤ → ℤ → Bool
eq_ℤ a b = not (ltb_ℤ a b) && not (ltb_ℤ b a)

-- `Field::operator==`.
unfoldable pub field_eq : Field → Field → Bool
field_eq f g =
    bytes_eq f.type.name g.type.name && eq_ℤ f.array_length g.array_length && bytes_eq f.name g.name

-- `Field::definitionResolved`.
unfoldable pub definition_resolved : Field → Bool
definition_resolved f =
    not (ltb_ℤ f.offset_in_message_bytes (pos 0))
    && (not (is_nested f.type.type) || elim f.type.nested_message [ none ↦ false | some _ ↦ true ])

-- The number of elements: one where the field is no array.
abbrev pub count : ℤ → ℤ
count (negsuc zero) = pos 1
count n = n

-- `Field::sizeBytes`.
unfoldable pub size_bytes : Field → Result ℤ
size_bytes f =
    if not (definition_resolved f)
    then err (parsing_exception (unresolved_type f.type.name))
    else ok (f.type.size *ℤ count f.array_length)

-- `Field::resolveDefinition(int offset)`: what becomes of the field.
unfoldable pub resolve_plain : Field → ℤ → Result Field
resolve_plain f offset =
    if definition_resolved f
    then ok f
    else if is_nested f.type.type
    then err (parsing_exception nested_not_resolved)
    else ok (record f { offset_in_message_bytes = offset })

-- `Field::nestedFormat`, by the name of the format.
unfoldable pub nested_format : Field → Result (Option Bytes)
nested_format f =
    if not (is_nested f.type.type)
    then err (access_exception not_nested)
    else ok f.type.nested_message
