-- ===== src/Value/Resolved.antt =====
-- Values whose field was resolved by one of the two `resolveDefinition` of `Field`.
use ulog_cpp.Prelude.{ℕ, ◌^◌, ◌<◌, ◌≡◌, refl, arith, false, List, [], ◌++◌, Bytes, All, length}
use ulog_cpp.Prelude.Int.{pos}
use ulog_cpp.Exception.{ok}
use ulog_cpp.Field.{Field, is_nested, definition_resolved, resolve_plain}
use ulog_cpp.Handler.{returned}
use ulog_cpp.Formats.{Formats, resolve_unresolved, resolve_own}
use ulog_cpp.Messages.Info.{MessageInfo}
use ulog_cpp.Value.{make_value, info_value, vector, sizeof, as_native_type_variant, is_char}
use ulog_cpp.Value.RoundTrip.{le_array, as_native-le_array}

-- A field with an offset, and a memory that holds numbers for it there.
at_offset :
    (f : Field) (o : ℕ) (xs : List ℕ) (pre post : Bytes)
    → is_nested f.type.type ≡ false
    → is_char f.type.type ≡ false
    → f.array_length ≡ pos (length xs)
    → length pre ≡ o
    → All (λ x. x < 256 ^ sizeof f.type.type) xs
    → as_native_type_variant (
        make_value
          (record f { offset_in_message_bytes = pos o })
          (pre ++ (le_array (sizeof f.type.type) xs ++ post)))
      ≡ ok (vector f.type.type xs)
unfolding make_value
at_offset f o xs pre post n c l p h =
    let v =
      make_value (record f { offset_in_message_bytes = pos o })
        (pre ++ (le_array (sizeof f.type.type) xs ++ post)) in
    as_native-le_array v 0 o xs pre post refl refl l refl n c refl (omega (arith, p)) h

-- An array of numbers, no string, that is not resolved: `resolveDefinition(offset)` returns, and
-- the value of the resolved field in a memory with numbers of its type at the offset reads as these
-- numbers.
pub resolve_plain-le_array :
    (f : Field) (o : ℕ) (xs : List ℕ) (pre post : Bytes)
    → definition_resolved f ≡ false
    → is_nested f.type.type ≡ false
    → is_char f.type.type ≡ false
    → f.array_length ≡ pos (length xs)
    → length pre ≡ o
    → All (λ x. x < 256 ^ sizeof f.type.type) xs
    → (g : Field) × (resolve_plain f (pos o) ≡ ok g)
      × (as_native_type_variant (make_value g (pre ++ (le_array (sizeof f.type.type) xs ++ post)))
          ≡ ok (vector f.type.type xs))
unfolding resolve_plain
resolve_plain-le_array f o xs pre post r n c l p h = (
  record f { offset_in_message_bytes = pos o },
  rw (r, n) refl,
  at_offset f o xs pre post n c l p h,
)

-- An info message of an array of numbers, no string, that is not resolved, with numbers of its type
-- as the value: `resolveDefinition` with the formats at offset 0, which the container calls for it,
-- returns and leaves the formats as they are, and the value of the message with the resolved field
-- reads as these numbers.
pub resolve_own-info_value :
    (m : MessageInfo) (fs : Formats) (xs : List ℕ) (post : Bytes)
    → definition_resolved m.field ≡ false
    → is_nested m.field.type.type ≡ false
    → is_char m.field.type.type ≡ false
    → m.field.array_length ≡ pos (length xs)
    → m.value ≡ le_array (sizeof m.field.type.type) xs ++ post
    → All (λ x. x < 256 ^ sizeof m.field.type.type) xs
    → (g : Field) × (resolve_own m.field fs ≡ ((g, fs), returned))
      × (as_native_type_variant (info_value (record m { field = g }))
          ≡ ok (vector m.field.type.type xs))
unfolding resolve_own resolve_unresolved info_value
resolve_own-info_value m fs xs post r n c l e h = (
  record m.field { offset_in_message_bytes = pos 0 },
  rw (r, resolve_own, n) refl,
  rw e (at_offset m.field 0 xs [] post n c l refl h),
)
