-- ===== src/Formats/Names.antt =====
-- The resolution of fields leaves the names of the formats as they are.
use ulog_cpp.Prelude.{
  ℕ, zero, suc, ◌≡◌, refl, ◌∙◌, ap, Option, Option-cases, none, some, List, [], ◌∷◌, map,
  Bool-cases, inl, inr, Bytes, bytes_eq,
}
use ulog_cpp.Prelude.Int.{ℤ, pos, ◌+ℤ◌}
use ulog_cpp.Exception.{Result, Result-cases, ok, err}
use ulog_cpp.Field.{Field, is_nested, definition_resolved, size_bytes}
use ulog_cpp.Messages.Format.{MessageFormat}
use ulog_cpp.Handler.{Outcome, returned, thrown}
use ulog_cpp.Formats.{
  Formats, change_field, stored_field, set_offset, set_nested, set_size, with_size, after_nested,
  resolve_nested, resolve_unresolved, then_next, resolve_from, fuel_for, resolve_format,
  resolve_own,
}

abbrev pub names : Formats → List Bytes
names = map (λ m. m.name)

change_field-names :
    (name : Bytes) (i : ℕ) (change : Field → Field) (fs : Formats)
    → names (change_field name i change fs) ≡ names fs
unfolding change_field
change_field-names name i change [] = refl
change_field-names name i change (m ∷ fs) = elim (Bool-cases (bytes_eq m.name name)) [
  | inl h ↦ rw h refl
  | inr h ↦ rw h (ap (◌∷◌ m.name) (change_field-names name i change fs))
]

module _ (A : Type 0) (change : (Field → Field) → A → A) (formats : A → Formats)
    (resolve : Bytes → A → A × Outcome)
    (change_names : (g : Field → Field) (a : A) → names (formats (change g a)) ≡ names (formats a))
    (resolve_names : (n : Bytes) (a : A)
      → names (formats (resolve n a).0) ≡ names (formats a)) where
  with_size-names :
      (r : Result ℤ) (a : A)
      → names (formats (with_size A change formats resolve r a).0) ≡ names (formats a)
  unfolding with_size
  with_size-names (ok z) a = change_names (set_size z) a
  with_size-names (err x) a = refl

  after_nested-names :
      (nested : Bytes) (p : A × Outcome)
      → names (formats (after_nested A change formats resolve nested p).0) ≡ names (formats p.0)
  unfolding after_nested
  after_nested-names nested (a, thrown x) = refl
  after_nested-names nested (a, returned) = with_size-names _ a

  resolve_nested-names :
      (nested : Bytes) (o : Option MessageFormat) (a : A)
      → names (formats (resolve_nested A change formats resolve nested o a).0) ≡ names (formats a)
  unfolding resolve_nested
  resolve_nested-names nested none a = refl
  resolve_nested-names nested (some _) a =
      after_nested-names nested (resolve nested (change (set_nested nested) a))
      ∙ resolve_names nested (change (set_nested nested) a)
      ∙ change_names (set_nested nested) a

  pub resolve_unresolved-names :
      (f : Field) (offset : ℤ) (a : A)
      → names (formats (resolve_unresolved A change formats resolve f offset a).0)
        ≡ names (formats a)
  unfolding resolve_unresolved
  resolve_unresolved-names f offset a = elim (Bool-cases (is_nested f.type.type)) [
    | inl h ↦ rw h (
        resolve_nested-names f.type.name _ (change (set_offset offset) a)
        ∙ change_names (set_offset offset) a)
    | inr h ↦ rw h (change_names (set_offset offset) a)
  ]

then_next-names :
    (next : ℤ → Formats → Formats × Outcome) (name : Bytes) (i : ℕ) (offset : ℤ)
    (p : Formats × Outcome)
    → ((o : ℤ) (gs : Formats) → names (next o gs).0 ≡ names gs)
    → names (then_next next name i offset p).0 ≡ names p.0
unfolding then_next
then_next-names next name i offset (fs, thrown x) go = refl
then_next-names next name i offset (fs, returned) go =
    elim (Option-cases (stored_field name i fs)) [
      | inl n ↦ rw (n, then_next) refl
      | inr (f, h) ↦ elim (Result-cases (size_bytes f)) [
        | inl (x, r) ↦ rw (h, then_next, r) refl
        | inr (z, r) ↦ rw (h, then_next, r) (go (offset +ℤ z) fs)
      ]
    ]

resolve_from-names :
    (fuel : ℕ) (name : Bytes) (i : ℕ) (offset : ℤ) (fs : Formats)
    → names (resolve_from fuel name i offset fs).0 ≡ names fs
unfolding resolve_from
resolve_from-names zero name i offset fs = refl
resolve_from-names (suc fuel) name i offset fs = elim (Option-cases (stored_field name i fs)) [
  | inl n ↦ rw (n, resolve_from) refl
  | inr (f, s) ↦ elim (Bool-cases (definition_resolved f)) [
    | inl e ↦
        rw (s, resolve_from, e)
          (then_next-names (λ o gs. resolve_from fuel name (suc i) o gs) name i offset
            (fs, returned) (λ o gs. resolve_from-names fuel name (suc i) o gs))
    | inr e ↦
        rw (s, resolve_from, e)
          (then_next-names (λ o gs. resolve_from fuel name (suc i) o gs) name i offset _
              (λ o gs. resolve_from-names fuel name (suc i) o gs)
            ∙ resolve_unresolved-names Formats (change_field name i) (λ gs. gs)
                (λ nested gs. resolve_from fuel nested 0 (pos 0) gs)
                (λ g a. change_field-names name i g a)
                (λ n a. resolve_from-names fuel n 0 (pos 0) a) f offset fs)
  ]
]

pub resolve_format-names :
    (name : Bytes) (fs : Formats) → names (resolve_format name fs).0 ≡ names fs
unfolding resolve_format
resolve_format-names name fs = resolve_from-names (fuel_for fs) name 0 (pos 0) fs

pub resolve_own-names : (f : Field) (fs : Formats) → names (resolve_own f fs).0.1 ≡ names fs
unfolding resolve_own
resolve_own-names f fs = elim (Bool-cases (definition_resolved f)) [
  | inl h ↦ rw (h, resolve_own) refl
  | inr h ↦
      rw (h, resolve_own)
        (resolve_unresolved-names (Field × Formats) (λ change a. (change a.0, a.1)) (λ a. a.1)
          (λ nested a. let (gs, o) = resolve_format nested a.1 in ((a.0, gs), o)) (λ g a. refl)
          (λ n a. resolve_format-names n a.1) f (pos 0) (f, fs))
]
