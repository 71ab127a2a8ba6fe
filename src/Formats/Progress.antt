-- ===== src/Formats/Progress.antt =====
-- What the resolution of one field makes of the number of fields that are not resolved.
use ulog_cpp.Prelude.{
  ℕ, ◌≤◌, ◌<◌, ◌≡◌, ◌≢◌, refl, ◌∙◌, arith, true, false, Option, Option-cases, none, some, [], ◌∷◌,
  Bool-cases, inl, inr, Bytes,
}
use mathlib.Core.Path.{subst}
use ulog_cpp.Prelude.Int.{ℤ, pos, negsuc}
use ulog_cpp.Exception.{Result, ok, err, out_of_fuel}
use ulog_cpp.Field.{Field, is_nested, definition_resolved}
use ulog_cpp.Field.Sizes.{IsNat, IsSized}
use ulog_cpp.Messages.Format.{MessageFormat}
use ulog_cpp.Messages.Format.Sizes.{format_size_bytes-IsNat, format_size_bytes-ne-out_of_fuel}
use ulog_cpp.Handler.{Outcome, returned, thrown}
use ulog_cpp.Formats.{
  Formats, find_message_format, change_field, stored_field, nested_size, set_offset, set_nested,
  set_size, with_size, after_nested, resolve_nested, resolve_unresolved, count_fields,
}
use ulog_cpp.Formats.Store.{
  AllSized, pending_fields, pending, change_field-pending, change_field-pending_same,
  change_field-count_fields, change_field-All, change_field-stored_field, find_message_format-All,
}

-- A store of so many fields, with no negative size.
pub record IsStore (total : ℕ) (fs : Formats) : Type 0 where
  pub same : count_fields fs ≡ total
  pub sized : AllSized fs

-- A resolution that has ended, and has left no more fields unresolved than there were.
pub record Good (total bound : ℕ) (p : Formats × Outcome) : Type 0 where
  pub ends : p.1 ≢ thrown out_of_fuel
  pub fewer : pending p.0 ≤ bound
  pub store : IsStore total p.0

changed-IsStore :
    (total : ℕ) (name : Bytes) (i : ℕ) (change : Field → Field) (fs : Formats)
    → ((f : Field) → IsSized f → IsSized (change f))
    → IsStore total fs
    → IsStore total (change_field name i change fs)
changed-IsStore total name i change fs keep v = record {
  same = change_field-count_fields name i change fs ∙ v.same;
  sized = change_field-All IsSized name i change fs keep v.sized;
}

counted_once : (f : Field) → definition_resolved f ≡ false → pending_fields (f ∷ []) ≡ 1
unfolding pending_fields
counted_once f e = rw e

counted_at_most : (f : Field) → pending_fields (f ∷ []) ≤ 1
unfolding pending_fields
counted_at_most f = ground arith

not_counted : (f : Field) → definition_resolved f ≡ true → pending_fields (f ∷ []) ≡ 0
unfolding pending_fields
not_counted f e = rw e

-- With an offset that is not negative a field is resolved, but for its nested format.
basic_resolved :
    (n : ℕ) (f : Field)
    → is_nested f.type.type ≡ false
    → definition_resolved (set_offset (pos n) f) ≡ true
unfolding definition_resolved
basic_resolved n f e = ground arith

nested_resolved :
    (nested : Bytes) (n : ℕ) (f : Field)
    → definition_resolved (set_nested nested (set_offset (pos n) f)) ≡ true
unfolding definition_resolved
nested_resolved nested n f = ground arith

module _ (name : Bytes) (i : ℕ) (total : ℕ) where
  offset-IsStore :
      (n : ℕ) (fs : Formats)
      → IsStore total fs
      → IsStore total (change_field name i (set_offset (pos n)) fs)
  offset-IsStore n fs v =
      changed-IsStore total name i _ fs (λ f w. record { size = w.size; elements = w.elements }) v

  nested-IsStore :
      (nested : Bytes) (fs : Formats)
      → IsStore total fs
      → IsStore total (change_field name i (set_nested nested) fs)
  nested-IsStore nested fs v =
      changed-IsStore total name i _ fs (λ f w. record { size = w.size; elements = w.elements }) v

  -- A field that gets an offset is not counted more, and not at all if its type is basic.
  offset_pending :
      (n : ℕ) (f : Field) (fs : Formats)
      → stored_field name i fs ≡ some f
      → definition_resolved f ≡ false
      → (pending (change_field name i (set_offset (pos n)) fs) ≤ pending fs)
        × (is_nested f.type.type ≡ false
            → pending (change_field name i (set_offset (pos n)) fs) < pending fs)
  offset_pending n f fs h e =
      let c = change_field-pending name i (set_offset (pos n)) fs f h in
      (
        omega (arith, c, counted_once f e, counted_at_most (set_offset (pos n) f)),
        λ basic. omega (arith, c, counted_once f e, not_counted _ (basic_resolved n f basic)),
      )

  nested_pending :
      (nested : Bytes) (n : ℕ) (f : Field) (fs : Formats)
      → stored_field name i fs ≡ some f
      → definition_resolved f ≡ false
      → pending
          (change_field name i (set_nested nested) (change_field name i (set_offset (pos n)) fs))
        < pending fs
  nested_pending nested n f fs h e =
      let gs = change_field name i (set_offset (pos n)) fs in
      let stored = change_field-stored_field name i (set_offset (pos n)) fs f h in
      omega (
        arith,
        change_field-pending name i (set_offset (pos n)) fs f h,
        change_field-pending name i (set_nested nested) gs (set_offset (pos n) f) stored,
        counted_once f e,
        not_counted _ (nested_resolved nested n f),
      )

  module _ (resolve : Bytes → Formats → Formats × Outcome) where
    abbrev change : (Field → Field) → Formats → Formats
    change = change_field name i

    with_size-Good :
        (r : Result ℤ) (bound : ℕ) (fs : Formats)
        → ((z : ℤ) → r ≡ ok z → IsNat z)
        → r ≢ err out_of_fuel
        → pending fs ≤ bound
        → IsStore total fs
        → Good total bound (with_size Formats change (λ gs. gs) resolve r fs)
    unfolding with_size
    with_size-Good (ok z) bound fs nat ne h v = record {
      ends = λ e. cc;
      fewer = omega (
        arith,
        change_field-pending_same name i (set_size z) fs (λ f. unfold definition_resolved in refl),
      );
      store =
          changed-IsStore total name i _ fs
            (λ f w. record { size = nat z refl; elements = w.elements }) v;
    }
    with_size-Good (err x) bound fs nat ne h v = record { ends = λ e. ne cc; fewer = h; store = v }

    nested_size-IsNat :
        (o : Option MessageFormat) (fs : Formats) (nested : Bytes)
        → find_message_format nested fs ≡ o
        → IsStore total fs
        → ((z : ℤ) → nested_size o ≡ ok z → IsNat z) × (nested_size o ≢ err out_of_fuel)
    unfolding nested_size
    nested_size-IsNat none fs nested e v =
        (λ z h. let t : pos 0 ≡ z = cc in subst IsNat t tt, λ h. cc)
    nested_size-IsNat (some m) fs nested e v = (
      λ z h.
          format_size_bytes-IsNat m z (find_message_format-All IsSized nested fs m v.sized e).0 h,
      format_size_bytes-ne-out_of_fuel m,
    )

    after_nested-Good :
        (nested : Bytes) (bound : ℕ) (p : Formats × Outcome)
        → Good total bound p
        → Good total bound (after_nested Formats change (λ gs. gs) resolve nested p)
    unfolding after_nested
    after_nested-Good nested bound (fs, thrown x) v = v
    after_nested-Good nested bound (fs, returned) v =
        let (nat, ne) = nested_size-IsNat (find_message_format nested fs) fs nested refl v.store in
        with_size-Good (nested_size (find_message_format nested fs)) bound fs nat ne v.fewer v.store

    pub resolve_unresolved-Good :
        (f : Field) (offset : ℤ) (fs : Formats)
        → IsNat offset
        → ((nested : Bytes) (gs : Formats)
            → IsStore total gs
            → pending gs < pending fs
            → Good total (pending gs) (resolve nested gs))
        → stored_field name i fs ≡ some f
        → definition_resolved f ≡ false
        → IsStore total fs
        → Good total (pending fs) (resolve_unresolved Formats change (λ gs. gs) resolve f offset fs)
    unfolding resolve_unresolved resolve_nested
    resolve_unresolved-Good f (negsuc n) fs nat rec h e v = absurd nat
    resolve_unresolved-Good f (pos n) fs nat rec h e v =
        let (le, lt) = offset_pending n f fs h e in
        let w = offset-IsStore n fs v in
        elim (Bool-cases (is_nested f.type.type)) [
          | inr basic ↦ rw basic (record { ends = λ t. cc; fewer = le; store = w })
          | inl nested ↦ elim (Option-cases (find_message_format f.type.name fs)) [
            | inl missing ↦ rw (nested, missing) (record { ends = λ t. cc; fewer = le; store = w })
            | inr (m, found) ↦
                rw (nested, found)
                  (let less = nested_pending f.type.name n f fs h e in
                    let good = rec f.type.name _ (nested-IsStore f.type.name _ w) less in
                    after_nested-Good f.type.name (pending fs) _ (record {
                      ends = good.ends;
                      fewer = omega (arith, good.fewer, less);
                      store = good.store;
                    }))
          ]
        ]
