-- ===== src/Tests/Values.antt =====
-- The theorems on values at concrete inputs, and runs of the code.
use ulog_cpp.Prelude.{ℕ, ◌≡◌, refl, arith, true, none, [], ◌∷◌, ◌++◌, Bytes, codes}
use ulog_cpp.Prelude.Int.{pos, ◌+ℤ◌, ◌-ℤ◌, ◌*ℤ◌}
use ulog_cpp.Exception.{ok, err, ◌>>=◌, fault, access_exception, unexpected_size}
use ulog_cpp.Field.{Field, BasicType, uint16, int32, char, minus_one}
use ulog_cpp.Memory.{le_value, le_bytes}
use ulog_cpp.Value.{
  Value, make_value, scalar, vector, text, as_native_type_variant, decode_single, decode_array,
  decode_string, string_at, strnlen, deserialize, read_at, element,
}
use ulog_cpp.Value.Bounds.{as_native-scalar, as_native-numbers}
use ulog_cpp.Value.Elements.{element_of, element-vector}
use ulog_cpp.Value.RoundTrip.{le_array, as_native-le_array}
use ulog_cpp.Value.Texts.{as_native-text, as_native-text_full}
use ulog_cpp.Value.Cast.{one, as_type, as_type-first}
use ulog_cpp.Value.Cast.Integers.{machine_number, file_number, as_type-InRange}

-- A field at the offset 1, with its bytes.
abbrev at_one : Field → Bytes → Value
at_one f bytes = make_value (record f { offset_in_message_bytes = pos 1 }) (7 ∷ bytes)

abbrev plain : BasicType → ℕ → Field
plain t size = record {
  type = record { name = []; type = t; size = pos size; nested_message = none };
  array_length = minus_one;
  offset_in_message_bytes = minus_one;
  name = codes "x";
}

abbrev array : BasicType → ℕ → ℕ → Field
array t size n = record (plain t size) { array_length = pos n }

as_native-scalar_example :
    as_native_type_variant (at_one (plain uint16 2) (0x34 ∷ 0x12 ∷ [])) ≡ ok (scalar uint16 0x1234)
unfolding make_value le_value
as_native-scalar_example =
    as_native-scalar (at_one (plain uint16 2) (0x34 ∷ 0x12 ∷ [])) 0 1 refl refl refl refl refl

as_native-numbers_example :
    as_native_type_variant (at_one (array uint16 2 2) (1 ∷ 0 ∷ 2 ∷ []))
    ≡ err (access_exception unexpected_size)
unfolding make_value
as_native-numbers_example =
    (as_native-numbers (at_one (array uint16 2 2) (1 ∷ 0 ∷ 2 ∷ [])) 0 1 1 refl refl refl refl refl
        refl).1
      (omega arith)

abbrev two_numbers : Value
two_numbers = at_one (array uint16 2 2) (1 ∷ 0 ∷ 2 ∷ 0 ∷ [])

as_native-le_array_example : as_native_type_variant two_numbers ≡ ok (vector uint16 (1 ∷ 2 ∷ []))
unfolding make_value le_array le_bytes
as_native-le_array_example =
    as_native-le_array two_numbers 0 1 (1 ∷ 2 ∷ []) (7 ∷ []) [] refl refl refl refl refl refl refl
      refl (omega arith, (omega arith, tt))

element-vector_example :
    (element two_numbers 1 >>= as_native_type_variant) ≡ element_of uint16 (1 ∷ 2 ∷ []) 1
element-vector_example = element-vector two_numbers uint16 (1 ∷ 2 ∷ []) 1 as_native-le_array_example

as_native-text_example :
    as_native_type_variant (at_one (array char 1 4) (codes "ab" ++ (0 ∷ 9 ∷ [])))
    ≡ ok (text (codes "ab"))
unfolding make_value
as_native-text_example =
    as_native-text (at_one (array char 1 4) (codes "ab" ++ (0 ∷ 9 ∷ []))) 0 1 4 (7 ∷ [])
      (codes "ab") (9 ∷ []) refl refl refl refl refl refl refl
      (λ e. omega (arith, e), (λ e. omega (arith, e), tt)) (omega arith) (omega arith)

as_native-text_full_example :
    as_native_type_variant (at_one (array char 1 2) (codes "abc")) ≡ ok (text (codes "ab"))
unfolding make_value
as_native-text_full_example =
    as_native-text_full (at_one (array char 1 2) (codes "abc")) 0 1 b'c' (7 ∷ []) (codes "ab") []
      refl refl refl refl refl refl refl (λ e. omega (arith, e), (λ e. omega (arith, e), tt))

-- With no byte behind it, `strnlen` reads outside of the memory.
text_end_read : as_native_type_variant (at_one (array char 1 2) (codes "ab")) ≡ err fault
unfolding as_native_type_variant decode_array decode_string string_at strnlen make_value ◌+ℤ◌ ◌-ℤ◌
text_end_read = refl

-- A machine that leaves the bits as they are.
abbrev keep_bits : BasicType → BasicType → ℕ → ℕ
keep_bits to from x = x

as_type-first_example :
    as_type true keep_bits (one int32) two_numbers
    ≡ (element two_numbers 0 >>= as_type true keep_bits (one int32))
as_type-first_example =
    as_type-first true keep_bits int32 uint16 1 (2 ∷ []) two_numbers as_native-le_array_example

-- A `char` above 127, where `char` is signed.
abbrev high_char : Value
high_char = at_one (plain char 1) (0xFE ∷ [])

high_char_read : as_native_type_variant high_char ≡ ok (scalar char 0xFE)
unfolding make_value le_value
high_char_read = as_native-scalar high_char 0 1 refl refl refl refl refl

as_type-InRange_example :
    (y : ℕ) × (as_type true keep_bits (one int32) high_char ≡ ok (scalar int32 y))
    × (machine_number true int32 y ≡ pos 254)
unfolding file_number
as_type-InRange_example =
    as_type-InRange true keep_bits int32 char 0xFE high_char high_char_read (omega arith) refl refl
      refl refl (omega arith)

-- The value of an info message whose field nobody resolved: it is read one byte before the memory.
unresolved_read : as_native_type_variant (make_value (plain uint16 2) (1 ∷ 2 ∷ [])) ≡ err fault
unfolding as_native_type_variant decode_single deserialize read_at make_value ◌+ℤ◌ ◌-ℤ◌ ◌*ℤ◌
unresolved_read = refl
