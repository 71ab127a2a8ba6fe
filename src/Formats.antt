-- ===== src/Formats.antt =====
-- messages.cpp: `resolveDefinition` of `Field` and `MessageFormat`, over the map of formats. The
-- formats are a store: their fields are changed in place, and a nested format is found by its name.
pub mod Store
pub mod Progress
pub mod Termination
pub mod Names
pub mod Layout
use ulog_cpp.Prelude.{
  ℕ, zero, suc, ◌+◌, ◌*◌, Bool, true, false, Option, none, some, List, [], ◌∷◌, ltb, ◌==◌,
  if◌then◌else◌, Bytes, bytes_eq, bytes_less, length, get_elem?,
}
use ulog_cpp.Prelude.Int.{ℤ, pos, ◌+ℤ◌}
use ulog_cpp.Exception.{Result, ok, err, parsing_exception, format_not_found, out_of_fuel}
use ulog_cpp.Field.{Field, is_nested, definition_resolved, size_bytes}
use ulog_cpp.Messages.Format.{MessageFormat, format_size_bytes}
use ulog_cpp.Handler.{Outcome, returned, thrown}

-- `std::map` from the names, in the order of the names.
abbrev pub Formats : Type 0
Formats = List MessageFormat

-- An element of the map is put in its place.
unfoldable pub insert_format : MessageFormat → Formats → Formats
insert_format m [] = m ∷ []
insert_format m (n ∷ fs) =
    let rest = insert_format m fs in if bytes_less m.name n.name then m ∷ n ∷ fs else n ∷ rest

unfoldable pub find_message_format : Bytes → Formats → Option MessageFormat
find_message_format name [] = none
find_message_format name (m ∷ fs) =
    let rest = find_message_format name fs in if bytes_eq m.name name then some m else rest

-- The field at a place of a list is changed.
change_at : ℕ → (Field → Field) → List Field → List Field
change_at i change [] = []
change_at zero change (f ∷ fs) = change f ∷ fs
change_at (suc i) change (f ∷ fs) = f ∷ change_at i change fs

-- A field of a format in the store, and the field changed in place.
pub change_field : Bytes → ℕ → (Field → Field) → Formats → Formats
unfolding change_at
change_field name i change [] = []
change_field name i change (m ∷ fs) =
    let rest = change_field name i change fs in
    if bytes_eq m.name name
    then record m { fields = change_at i change m.fields } ∷ fs
    else m ∷ rest

field_of : ℕ → Option MessageFormat → Option Field
field_of i none = none
field_of i (some m) = get_elem? m.fields i

pub stored_field : Bytes → ℕ → Formats → Option Field
unfolding field_of
stored_field name i fs = field_of i (find_message_format name fs)

abbrev pub set_offset : ℤ → Field → Field
set_offset offset f = record f { offset_in_message_bytes = offset }

abbrev set_nested : Bytes → Field → Field
set_nested nested f = record f { type = record f.type { nested_message = some nested } }

abbrev set_size : ℤ → Field → Field
set_size size f = record f { type = record f.type { size = size } }

-- `_type.nested_message->sizeBytes()`.
unfoldable pub nested_size : Option MessageFormat → Result ℤ
nested_size none = ok (pos 0)
nested_size (some m) = format_size_bytes m

-- `Field::resolveDefinition(existing_formats, offset)` on a field that is not resolved, where
-- `change` changes the field and `resolve` resolves a format.
module _ (A : Type 0) (change : (Field → Field) → A → A) (formats : A → Formats)
    (resolve : Bytes → A → A × Outcome) where
  with_size : Result ℤ → A → A × Outcome
  with_size (ok size) a = (change (set_size size) a, returned)
  with_size (err x) a = (a, thrown x)

  after_nested : Bytes → A × Outcome → A × Outcome
  unfolding with_size
  after_nested nested (a, thrown x) = (a, thrown x)
  after_nested nested (a, returned) =
      with_size (nested_size (find_message_format nested (formats a))) a

  resolve_nested : Bytes → Option MessageFormat → A → A × Outcome
  unfolding after_nested
  resolve_nested nested none a = (a, thrown (parsing_exception (format_not_found nested)))
  resolve_nested nested (some _) a =
      after_nested nested (resolve nested (change (set_nested nested) a))

  unfoldable pub resolve_unresolved : Field → ℤ → A → A × Outcome
  unfolding resolve_nested
  resolve_unresolved f offset a =
      let b = change (set_offset offset) a in
      if is_nested f.type.type
      then resolve_nested f.type.name (find_message_format f.type.name (formats a)) b
      else (b, returned)

-- The rest of `MessageFormat::resolveDefinition` from the field at `i` on, which `next` does.
then_next :
    (ℤ → Formats → Formats × Outcome) → Bytes → ℕ → ℤ → Formats × Outcome → Formats × Outcome
then_next next name i offset (fs, thrown x) = (fs, thrown x)
then_next next name i offset (fs, returned) = elim (stored_field name i fs) [
  | none ↦ (fs, returned)
  | some f ↦ elim (size_bytes f) [ err x ↦ (fs, thrown x) | ok size ↦ next (offset +ℤ size) fs ]
]

-- `MessageFormat::resolveDefinition` from the field at `i` on, at an offset.
unfoldable pub resolve_from : ℕ → Bytes → ℕ → ℤ → Formats → Formats × Outcome
unfolding then_next stored_field change_field
resolve_from zero name i offset fs = (fs, thrown out_of_fuel)
resolve_from (suc fuel) name i offset fs = elim (stored_field name i fs) [
  | none ↦ (fs, returned)
  | some f ↦
      then_next (λ o gs. resolve_from fuel name (suc i) o gs) name i offset
        (elim (definition_resolved f) [
          | true ↦ (fs, returned)
          | false ↦
              resolve_unresolved Formats (change_field name i) (λ gs. gs)
                (λ nested gs. resolve_from fuel nested 0 (pos 0) gs) f offset fs
        ])
]

pub count_fields : Formats → ℕ
count_fields [] = 0
count_fields (m ∷ fs) = length m.fields + count_fields fs

-- Each nested call resolves one more field, if no offset is negative, and a format has no more
-- fields than all formats have.
unfoldable pub fuel_for : Formats → ℕ
unfolding count_fields
fuel_for fs = (count_fields fs + 1) * (count_fields fs + 2)

unfoldable pub resolve_format : Bytes → Formats → Formats × Outcome
resolve_format name fs = resolve_from (fuel_for fs) name 0 (pos 0) fs

-- `Field::resolveDefinition(existing_formats, 0)` on a field of its own: what becomes of the field
-- and the formats.
unfoldable pub resolve_own : Field → Formats → (Field × Formats) × Outcome
resolve_own f fs = elim (definition_resolved f) [
  | true ↦ ((f, fs), returned)
  | false ↦
      resolve_unresolved (Field × Formats) (λ change a. (change a.0, a.1)) (λ a. a.1)
        (λ nested a. let (gs, o) = resolve_format nested a.1 in ((a.0, gs), o)) f (pos 0) (f, fs)
]
