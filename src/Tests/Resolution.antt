-- ===== src/Tests/Resolution.antt =====
-- The resolution of nested formats, run on two formats that hold themselves.
use ulog_cpp.Prelude.{◌≡◌, ◌≢◌, refl, arith, false, [], ◌∷◌, bytes_eq, bytes_less, codes}
use ulog_cpp.Prelude.Int.{pos, negsuc, ◌+ℤ◌, ◌*ℤ◌}
use ulog_cpp.Exception.{ok, out_of_fuel}
use ulog_cpp.Field.{
  Field, uint16, resolve_plain, make_field, minus_one, definition_resolved, type_of_name,
  find_basic_type, size_bytes,
}
use ulog_cpp.Messages.Format.{format_size_bytes, field_map}
use ulog_cpp.Handler.{returned, thrown}
use ulog_cpp.Formats.{
  Formats, nested_size, resolve_own, set_offset, fuel_for, resolve_unresolved, resolve_from,
  resolve_format, find_message_format,
}
use ulog_cpp.Formats.Store.{AllSized}
use ulog_cpp.Formats.Termination.{resolve_format-ends}
use ulog_cpp.Formats.Layout.{IsPlaced, resolve_format-layout}
use ulog_cpp.Value.{make_value, info_value, vector, as_native_type_variant}
use ulog_cpp.Value.RoundTrip.{le_array}
use ulog_cpp.Value.Resolved.{resolve_plain-le_array, resolve_own-info_value}
use ulog_cpp.Messages.Info.{MessageInfo}
use ulog_cpp.Memory.{le_bytes}

-- 'A:int8_t[-5] x;A f;': the second field stands at the offset -5, at which it counts as not
-- resolved, so that the resolution of its format begins again, whatever fuel is given.
abbrev negative_offset : Formats
negative_offset =
    (record {
      name = codes "A";
      fields =
          make_field (codes "int8_t") (codes "x") (negsuc 4)
          ∷ make_field (codes "A") (codes "f") minus_one
          ∷ [];
    })
    ∷ []

resolve_again : (resolve_format (codes "A") negative_offset).1 ≡ thrown out_of_fuel
unfolding resolve_format resolve_from fuel_for find_message_format bytes_eq definition_resolved
    make_field resolve_unresolved type_of_name find_basic_type size_bytes ◌+ℤ◌ ◌*ℤ◌
resolve_again = refl

-- 'A:int8_t x;A f;': a format that holds itself is resolved.
abbrev holds_itself : Formats
holds_itself =
    (record {
      name = codes "A";
      fields =
          make_field (codes "int8_t") (codes "x") minus_one
          ∷ make_field (codes "A") (codes "f") minus_one
          ∷ [];
    })
    ∷ []

resolve_itself : (resolve_format (codes "A") holds_itself).1 ≡ returned
unfolding resolve_format resolve_from fuel_for find_message_format bytes_eq definition_resolved
    make_field resolve_unresolved type_of_name find_basic_type size_bytes ◌+ℤ◌ ◌*ℤ◌
    format_size_bytes field_map nested_size bytes_less
resolve_itself = refl

resolve_format-ends_example :
    ((resolve_format (codes "A") holds_itself).1 ≢ thrown out_of_fuel)
    × AllSized (resolve_format (codes "A") holds_itself).0
unfolding make_field type_of_name find_basic_type bytes_eq
resolve_format-ends_example =
    resolve_format-ends (codes "A") holds_itself
      ((record { size = tt; elements = tt }, (record { size = tt; elements = tt }, tt)), tt)

-- 'uint16_t[2] x', with its numbers behind three bytes, and as an info message.
abbrev words : Field
words = make_field (codes "uint16_t") (codes "x") (pos 2)

resolve_plain-le_array_example :
    (g : Field) × (resolve_plain words (pos 3) ≡ ok g)
    × (as_native_type_variant (make_value g (7 ∷ 7 ∷ 7 ∷ 1 ∷ 0 ∷ 2 ∷ 1 ∷ []))
        ≡ ok (vector uint16 (1 ∷ 258 ∷ [])))
unfolding make_field type_of_name find_basic_type bytes_eq definition_resolved le_array le_bytes
resolve_plain-le_array_example =
    resolve_plain-le_array words 3 (1 ∷ 258 ∷ []) (7 ∷ 7 ∷ 7 ∷ []) [] refl refl refl refl refl
      (omega arith, (omega arith, tt))

abbrev words_info : MessageInfo
words_info = record {
  field = words;
  value = 1 ∷ 0 ∷ 2 ∷ 1 ∷ [];
  continued = false;
  is_multi = false;
}

resolve_own-info_value_example :
    (g : Field) × (resolve_own words holds_itself ≡ ((g, holds_itself), returned))
    × (as_native_type_variant (info_value (record words_info { field = g }))
        ≡ ok (vector uint16 (1 ∷ 258 ∷ [])))
unfolding make_field type_of_name find_basic_type bytes_eq definition_resolved le_array le_bytes
resolve_own-info_value_example =
    resolve_own-info_value words_info holds_itself (1 ∷ 258 ∷ []) [] refl refl refl refl refl
      (omega arith, (omega arith, tt))

-- 'B:int8_t[3] x;int32_t y;': the second field stands behind the three bytes of the first.
abbrev two_fields : Formats
two_fields =
    (record {
      name = codes "B";
      fields =
          make_field (codes "int8_t") (codes "x") (pos 3)
          ∷ make_field (codes "int32_t") (codes "y") minus_one
          ∷ [];
    })
    ∷ []

resolve_format-layout_example :
    IsPlaced
      (codes "B")
      (record {
        name = codes "B";
        fields =
            set_offset (pos 0) (make_field (codes "int8_t") (codes "x") (pos 3))
            ∷ set_offset (pos 3) (make_field (codes "int32_t") (codes "y") minus_one)
            ∷ [];
      })
      two_fields
      (resolve_format (codes "B") two_fields)
unfolding make_field type_of_name find_basic_type bytes_eq find_message_format definition_resolved
resolve_format-layout_example = resolve_format-layout (codes "B") two_fields _ refl (
  record { basic = refl; unresolved = refl; sized = record { size = tt; elements = tt } },
  (record { basic = refl; unresolved = refl; sized = record { size = tt; elements = tt } }, tt),
)
