-- ===== src/Formats/Layout.antt =====
-- Where `MessageFormat::resolveDefinition` places the fields of basic types.
use ulog_cpp.Prelude.{
  ℕ, zero, suc, ◌+◌, ◌*◌, ◌≤◌, ◌<◌, ◌≡◌, ◌≢◌, refl, sym, ap, ◌∙◌, arith, true, false, Option, none,
  some, List, [], ◌∷◌, ◌++◌, append-nil, append_assoc, All, Bytes, bytes_eq, bytes_eq_iff, length,
  length-append, get_elem?, Bool-cases, inl, inr, if◌then◌else◌,
}
use ulog_cpp.Prelude.Int.{ℤ, pos, negsuc, pos_part, ◌*ℤ◌, +ℤ_pos, *ℤ_pos}
use ulog_cpp.Exception.{ok}
use ulog_cpp.Field.{Field, is_nested, definition_resolved, size_bytes, count}
use ulog_cpp.Field.Sizes.{IsNat, IsSized}
use ulog_cpp.Messages.Format.{MessageFormat}
use ulog_cpp.Handler.{Outcome, returned}
use ulog_cpp.Formats.Store.{change_field-stored_field}
use ulog_cpp.Formats.{
  Formats, find_message_format, change_at, change_field, field_of, stored_field, set_offset,
  resolve_unresolved, then_next, resolve_from, count_fields, fuel_for, resolve_format,
}

-- A field of a basic type that is not resolved, with no negative size.
pub record IsPlain (f : Field) : Type 0 where
  pub basic : is_nested f.type.type ≡ false
  pub unresolved : definition_resolved f ≡ false
  pub sized : IsSized f

-- The bytes of a field with no negative size.
abbrev pub byte_size : Field → ℕ
byte_size f = pos_part f.type.size * pos_part (count f.array_length)

-- Each field at the sum of the sizes before it.
abbrev pub layout : ℕ → List Field → List Field
layout offset [] = []
layout offset (f ∷ fs) = set_offset (pos offset) f ∷ layout (offset + byte_size f) fs

change_at-length :
    (before : List Field) (f : Field) (fs : List Field) (g : Field → Field)
    → change_at (length before) g (before ++ f ∷ fs) ≡ before ++ g f ∷ fs
unfolding change_at
change_at-length [] f fs g = refl
change_at-length (h ∷ before) f fs g = ap (◌∷◌ h) (change_at-length before f fs g)

get_elem?-length :
    (before : List Field) (f : Field) (fs : List Field)
    → get_elem? (before ++ f ∷ fs) (length before) ≡ some f
get_elem?-length [] f fs = refl
get_elem?-length (h ∷ before) f fs = get_elem?-length before f fs

get_elem?-end : (before : List Field) → get_elem? before (length before) ≡ none
get_elem?-end [] = refl
get_elem?-end (h ∷ before) = get_elem?-end before

find-change_field :
    (name : Bytes) (i : ℕ) (g : Field → Field) (fs : Formats) (m : MessageFormat)
    → find_message_format name fs ≡ some m
    → find_message_format name (change_field name i g fs)
      ≡ some (record m { fields = change_at i g m.fields })
unfolding find_message_format change_field
find-change_field name i g [] m h = absurd (cc h)
find-change_field name i g (n ∷ fs) m h = elim (Bool-cases (bytes_eq n.name name)) [
  | inl e ↦
      let same : n ≡ m = ground (arith, e) in
      let changed : MessageFormat → Option MessageFormat =
        λ k. some (record k { fields = change_at i g k.fields }) in
      rw e (rw e (ap changed same))
  | inr e ↦ rw e (rw e (find-change_field name i g fs m (ground (arith, e))))
]

find_other :
    (name other : Bytes) (i : ℕ) (g : Field → Field) (fs : Formats)
    → other ≢ name
    → find_message_format other (change_field name i g fs) ≡ find_message_format other fs
unfolding find_message_format change_field
find_other name other i g [] ne = refl
find_other name other i g (n ∷ fs) ne = elim (Bool-cases (bytes_eq n.name name)) [
  | inl e ↦
      let differ : bytes_eq n.name other ≡ false =
        ground (arith, bytes_eq_iff n.name name, bytes_eq_iff n.name other) in
      rw e (rw differ refl)
  | inr e ↦
      rw e (ap (λ r. if bytes_eq n.name other then some n else r) (find_other name other i g fs ne))
]

length-count_fields :
    (name : Bytes) (fs : Formats) (m : MessageFormat)
    → find_message_format name fs ≡ some m
    → length m.fields ≤ count_fields fs
unfolding find_message_format count_fields
length-count_fields name [] m h = absurd (cc h)
length-count_fields name (n ∷ fs) m h = ground (arith, length-count_fields name fs m)

product-IsNat : (a b : ℤ) → IsNat a → IsNat b → a *ℤ b ≡ pos (pos_part a * pos_part b)
product-IsNat (pos a) (pos b) h k = *ℤ_pos a b
product-IsNat (pos a) (negsuc b) h k = absurd k
product-IsNat (negsuc a) b h k = absurd h

pub placed_resolved :
    (f : Field) (offset : ℕ) → IsPlain f → definition_resolved (set_offset (pos offset) f) ≡ true
unfolding definition_resolved
placed_resolved f offset h = let basic = h.basic in ground (arith, basic)

-- The size of a placed field.
size_bytes-placed :
    (f : Field) (offset : ℕ)
    → IsPlain f
    → size_bytes (set_offset (pos offset) f) ≡ ok (pos (byte_size f))
unfolding size_bytes
size_bytes-placed f offset h =
    rw (placed_resolved f offset h)
      (ap ok (product-IsNat f.type.size (count f.array_length) h.sized.size h.sized.elements))

stored-found :
    (name : Bytes) (i : ℕ) (fs : Formats) (m : MessageFormat)
    → find_message_format name fs ≡ some m
    → stored_field name i fs ≡ get_elem? m.fields i
unfolding stored_field field_of
stored-found name i fs m h = rw h refl

-- What the resolution of a format is to leave: its fields placed, and the others as they were.
pub record IsPlaced (name : Bytes) (m : MessageFormat) (fs : Formats) (p : Formats × Outcome)
    : Type 0 where
  pub returns : p.1 ≡ returned
  pub found : find_message_format name p.0 ≡ some m
  pub others :
      (other : Bytes) → other ≢ name → find_message_format other p.0 ≡ find_message_format other fs

-- One round on a plain field.
resolve_step :
    (fuel : ℕ) (name : Bytes) (offset : ℕ) (before after : List Field) (f : Field) (fs : Formats)
    (m : MessageFormat)
    → find_message_format name fs ≡ some m
    → m.fields ≡ before ++ f ∷ after
    → IsPlain f
    → resolve_from (suc fuel) name (length before) (pos offset) fs
      ≡ resolve_from fuel name
          (suc (length before))
          (pos (offset + byte_size f))
          (change_field name (length before) (set_offset (pos offset)) fs)
unfolding resolve_from resolve_unresolved then_next
resolve_step fuel name offset before after f fs m h e plain =
    let i = length before in
    let gs = change_field name i (set_offset (pos offset)) fs in
    let here : stored_field name i fs ≡ some f =
      stored-found name i fs m h ∙ rw e (get_elem?-length before f after) in
    let placed : stored_field name i gs ≡ some (set_offset (pos offset) f) =
      change_field-stored_field name i (set_offset (pos offset)) fs f here in
    rw (here, resolve_from, plain.unresolved)
      (rw plain.basic (rw (placed, then_next, size_bytes-placed f offset plain, +ℤ_pos) refl))

resolve_from-layout :
    (fuel : ℕ) (name : Bytes) (offset : ℕ) (before after : List Field) (fs : Formats)
    (m : MessageFormat)
    → find_message_format name fs ≡ some m
    → m.fields ≡ before ++ after
    → All IsPlain after
    → length after < fuel
    → IsPlaced name
        (record m { fields = before ++ layout offset after })
        fs
        (resolve_from fuel name (length before) (pos offset) fs)
unfolding resolve_from
resolve_from-layout zero name offset before after fs m h e plain room = absurd (omega (arith, room))
resolve_from-layout (suc fuel) name offset before [] fs m h e plain room =
    let ends : stored_field name (length before) fs ≡ none =
      stored-found name (length before) fs m h
      ∙ rw e (ap (λ l. get_elem? l (length before)) (append-nil before) ∙ get_elem?-end before) in
    rw (ends, resolve_from)
      (record {
        returns = refl;
        found =
            h
            ∙ (let of_fields : List Field → Option MessageFormat =
                  λ l. some (record m { fields = l }) in
                ap of_fields e);
        others = λ other ne. refl;
      })
resolve_from-layout (suc fuel) name offset before (f ∷ after) fs m h e (plain, rest) room =
    let gs = change_field name (length before) (set_offset (pos offset)) fs in
    let n : MessageFormat = record m {
      fields = change_at (length before) (set_offset (pos offset)) m.fields;
    } in
    let fields : n.fields ≡ (before ++ set_offset (pos offset) f ∷ []) ++ after =
      ap (change_at (length before) (set_offset (pos offset))) e
      ∙ change_at-length before f after (set_offset (pos offset))
      ∙ sym (append_assoc before (set_offset (pos offset) f ∷ []) after) in
    let len : length (before ++ set_offset (pos offset) f ∷ []) ≡ suc (length before) =
      omega (arith, length-append {0} before (set_offset (pos offset) f ∷ [])) in
    let next =
      resolve_from-layout fuel name (offset + byte_size f)
        (before ++ set_offset (pos offset) f ∷ []) after gs n
        (find-change_field name (length before) (set_offset (pos offset)) fs m h) fields rest
        (omega (arith, room)) in
    let placed =
      rw
        (
          len,
          append_assoc before (set_offset (pos offset) f ∷ [])
              (layout (offset + byte_size f) after),
        )
        at next in
    rw (resolve_step fuel name offset before after f fs m h e plain) (record {
      returns = placed.returns;
      found = placed.found;
      others = λ other ne.
          placed.others other ne
          ∙ find_other name other (length before) (set_offset (pos offset)) fs ne;
    })

enough : (total n : ℕ) → n ≤ total → n < (total + 1) * (total + 2)
enough total n h = grind arith

-- If a format has fields of basic types only, of no negative size and none of them resolved, its
-- resolution returns, places each field behind the sizes of those before it, and leaves the other
-- formats as they are.
pub resolve_format-layout :
    (name : Bytes) (fs : Formats) (m : MessageFormat)
    → find_message_format name fs ≡ some m
    → All IsPlain m.fields
    → IsPlaced name (record m { fields = layout 0 m.fields }) fs (resolve_format name fs)
unfolding resolve_format fuel_for
resolve_format-layout name fs m h plain =
    let few = length-count_fields name fs m h in
    resolve_from-layout ((count_fields fs + 1) * (count_fields fs + 2)) name 0 [] m.fields fs m h
      refl plain (enough (count_fields fs) (length m.fields) few)
