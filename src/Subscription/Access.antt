-- ===== src/Subscription/Access.antt =====
-- Which fields of a view are found.
use ulog_cpp.Prelude.{
  ◌≡◌, refl, true, false, Option, none, some, List, [], ◌∷◌, Bytes, bytes_eq, Bool-cases,
  Option-cases, inl, inr, ◌⊎◌,
}
use ulog_cpp.Exception.{
  Result, ok, err, parsing_exception, access_exception, field_not_found, field_not_resolved,
}
use ulog_cpp.Field.{Field, definition_resolved}
use ulog_cpp.Messages.Format.{find_field, field, field_map}
use ulog_cpp.Value.{make_value}
use ulog_cpp.Subscription.{TypedDataView, at_field, at_name, find_in_map, has_field}

found_or_error : Bytes → Option Field → Result Field
found_or_error name none = err (access_exception (field_not_found name))
found_or_error name (some f) = ok f

find_field-find_in_map :
    (name : Bytes) (fs : List Field)
    → find_field name fs ≡ found_or_error name (find_in_map name fs)
unfolding find_field find_in_map found_or_error
find_field-find_in_map name [] = refl
find_field-find_in_map name (f ∷ fs) = elim (Bool-cases (bytes_eq f.name name)) [
  | inl h ↦ rw h refl
  | inr h ↦ rw h (find_field-find_in_map name fs)
]

-- If `hasField` is true for a name, `at` gives the value of the field of this name in the data; if
-- it is false, `at` throws that there is no such field or that it is not resolved.
pub at_name-has_field :
    (v : TypedDataView) (name : Bytes)
    → (has_field v name ≡ true
        → (f : Field) × (field v.message_format_ref name ≡ ok f)
          × (at_name v name ≡ ok (make_value f v.data_ref.payload)))
      × (has_field v name ≡ false
          → (at_name v name ≡ err (access_exception (field_not_found name)))
            ⊎ (at_name v name ≡ err (parsing_exception field_not_resolved)))
unfolding has_field at_name at_field field found_or_error
at_name-has_field v name =
    let found = find_field-find_in_map name (field_map v.message_format_ref.fields) in
    elim (Option-cases (find_in_map name (field_map v.message_format_ref.fields))) [
      | inl h ↦ rw (found, h) (λ i. absurd (cc i), λ i. inl refl)
      | inr (f, h) ↦ elim (Bool-cases (definition_resolved f)) [
        | inl g ↦ rw (found, h, g) (λ i. (f, refl, refl), λ i. absurd (cc i))
        | inr g ↦ rw (found, h, g) (λ i. absurd (cc i), λ i. inr refl)
      ]
    ]
