-- ===== src/Tests/Views.antt =====
-- The theorems on subscriptions and comparisons at concrete inputs.
use ulog_cpp.Prelude.{◌≡◌, ◌⊎◌, refl, arith, some, true, false, ◌++◌, [], ◌∷◌, bytes_eq, codes, map}
use ulog_cpp.Prelude.Int.{pos}
use ulog_cpp.Exception.{
  ◌>>=◌, ok, err, fault, parsing_exception, access_exception, field_not_found, field_not_resolved,
  sample_out_of_range,
}
use ulog_cpp.Field.{
  definition_resolved, Field, uint16, make_field, minus_one, type_of_name, find_basic_type,
  field_eq,
}
use ulog_cpp.Messages.Format.{MessageFormat, contains_name, field, field_map}
use ulog_cpp.Messages.Equality.{format_eq, format_eq-same}
use ulog_cpp.Value.{make_value, scalar, as_native_type_variant}
use ulog_cpp.Memory.{le_bytes}
use ulog_cpp.Handler.{returned}
use ulog_cpp.Formats.{find_message_format, resolve_format}
use ulog_cpp.Subscription.Payload.{Cell, IsCell, resolve_format-at_name}
use ulog_cpp.DataContainer.State.{Subscription}
use ulog_cpp.Subscription.{TypedDataView, begin, end, at_index, at_name, has_field}
use ulog_cpp.Subscription.Iteration.{view_of, iterate, at_index-samples, iterate-samples}
use ulog_cpp.Subscription.Backwards.{iterate_back, iterate_back-samples}
use mathlib.Core.List
use ulog_cpp.Subscription.Access.{at_name-has_field}

abbrev byte_field : Field
byte_field = record (make_field (codes "int8_t") (codes "x") minus_one) {
  offset_in_message_bytes = pos 0;
}

abbrev one_byte : MessageFormat
one_byte = record { name = codes "A"; fields = byte_field ∷ [] }

abbrev two_samples : Subscription
two_samples = record {
  add_logged = record { multi_id = 0; msg_id = 1; message_name = codes "A" };
  samples = record { msg_id = 1; payload = 5 ∷ [] } ∷ record { msg_id = 1; payload = 6 ∷ [] } ∷ [];
  format = codes "A";
}

at_index-samples_example :
    at_index one_byte two_samples 2 ≡ err (access_exception sample_out_of_range)
at_index-samples_example = at_index-samples one_byte two_samples 2

iterate-samples_example :
    iterate 3 (begin one_byte two_samples) (end one_byte two_samples)
    ≡ ok (map (view_of one_byte) two_samples.samples)
iterate-samples_example = iterate-samples one_byte two_samples

iterate_back-samples_example :
    iterate_back 3 (end one_byte two_samples) (begin one_byte two_samples)
    ≡ ok (map (view_of one_byte) (List.reverse two_samples.samples))
iterate_back-samples_example = iterate_back-samples one_byte two_samples

abbrev a_view : TypedDataView
a_view = record {
  data_ref = record { msg_id = 1; payload = 5 ∷ [] };
  message_format_ref = one_byte;
}

at_name-has_field_example :
    (has_field a_view (codes "x") ≡ true
      → (f : Field) × (field one_byte (codes "x") ≡ ok f)
        × (at_name a_view (codes "x") ≡ ok (make_value f (5 ∷ []))))
    × (has_field a_view (codes "x") ≡ false
        → (at_name a_view (codes "x") ≡ err (access_exception (field_not_found (codes "x"))))
          ⊎ (at_name a_view (codes "x") ≡ err (parsing_exception field_not_resolved)))
at_name-has_field_example = at_name-has_field a_view (codes "x")

format_eq-same_example : format_eq one_byte one_byte ≡ ok true
unfolding contains_name
format_eq-same_example =
    (format_eq-same one_byte one_byte (refl, tt) (refl, tt)).0 refl ((refl, refl, refl), tt)

-- A format that repeats a name against one that does not: the maps have one size, and the second
-- field is read behind the list of the right side.
repeated_fault :
    format_eq (record one_byte { fields = byte_field ∷ byte_field ∷ [] }) one_byte ≡ err fault
unfolding format_eq bytes_eq field_map field_eq make_field type_of_name find_basic_type
repeated_fault = refl

-- A byte and a 16-bit number, and a format of these two fields.
abbrev byte_cell : Cell
byte_cell = (make_field (codes "uint8_t") (codes "x") minus_one, 5)

abbrev word_cell : Cell
word_cell = (make_field (codes "uint16_t") (codes "y") minus_one, 770)

abbrev cells_format : MessageFormat
cells_format = record { name = codes "C"; fields = byte_cell.0 ∷ word_cell.0 ∷ [] }

byte_cell-IsCell : IsCell byte_cell
unfolding make_field type_of_name find_basic_type bytes_eq definition_resolved
byte_cell-IsCell = record {
  plain = record { basic = refl; unresolved = refl; sized = record { size = tt; elements = tt } };
  single = refl;
  size = refl;
  fits = omega arith;
}

word_cell-IsCell : IsCell word_cell
unfolding make_field type_of_name find_basic_type bytes_eq definition_resolved
word_cell-IsCell = record {
  plain = record { basic = refl; unresolved = refl; sized = record { size = tt; elements = tt } };
  single = refl;
  size = refl;
  fits = omega arith;
}

resolve_format-at_name_example :
    let fs = cells_format ∷ [] in
    ((resolve_format (codes "C") fs).1 ≡ returned)
    × (m : MessageFormat) × (find_message_format (codes "C") (resolve_format (codes "C") fs).0
        ≡ some m)
    × ((at_name
            (record {
              data_ref = record {
                msg_id = 1;
                payload = (le_bytes 1 5 ++ (le_bytes 2 770 ++ [])) ++ (0 ∷ []);
              };
              message_format_ref = m;
            })
            (codes "y")
          >>= as_native_type_variant)
        ≡ ok (scalar uint16 770))
unfolding make_field type_of_name find_basic_type bytes_eq find_message_format contains_name
resolve_format-at_name_example =
    resolve_format-at_name (codes "C") (0 ∷ []) 1 (byte_cell ∷ []) [] word_cell (cells_format ∷ [])
      refl (byte_cell-IsCell, (word_cell-IsCell, tt)) (refl, (refl, tt))
