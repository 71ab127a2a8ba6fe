-- ===== src/Messages/Equality.antt =====
-- messages.hpp: `operator==` of the messages.
use ulog_cpp.Prelude.{
  suc, sym, ◌++◌, append-nil, append_assoc, ◌≡◌, ◌↔◌, refl, ap, ◌∙◌, arith, Bool, true, false, not,
  ◌&&◌, List, [], ◌∷◌, ◌==◌, ==_iff, if◌then◌else◌, bytes_eq, bytes_eq_iff, length, Bool-cases, inl,
  inr,
}
use ulog_cpp.Prelude.Int.{eq_of_parts}
use ulog_cpp.Exception.{Result, ok, err, fault}
use ulog_cpp.Field.{Field, field_eq}
use ulog_cpp.Messages.Format.{MessageFormat, contains_name, insert_fields, field_map}
use ulog_cpp.Messages.Info.{MessageInfo}
use ulog_cpp.Messages.Logged.{Data}
use ulog_cpp.Messages.Logging.{Level, level_byte, Logging}

unfoldable pub data_eq : Data → Data → Bool
data_eq a b = a.msg_id == b.msg_id && bytes_eq a.payload b.payload

abbrev bool_eq : Bool → Bool → Bool
bool_eq true b = b
bool_eq false b = not b

unfoldable pub info_eq : MessageInfo → MessageInfo → Bool
info_eq a b =
    field_eq a.field b.field
    && bytes_eq a.value b.value
    && bool_eq a.continued b.continued
    && bool_eq a.is_multi b.is_multi

unfoldable pub logging_eq : Logging → Logging → Bool
logging_eq a b =
    level_byte a.log_level == level_byte b.log_level
    && a.tag == b.tag
    && bool_eq a.has_tag b.has_tag
    && a.timestamp == b.timestamp
    && bytes_eq a.message b.message

-- The loop over the fields of the left side, which reads those of the right by index.
fields_eq_from : List Field → List Field → Result Bool
fields_eq_from [] gs = ok true
fields_eq_from (f ∷ fs) [] = err fault
fields_eq_from (f ∷ fs) (g ∷ gs) =
    let rest = fields_eq_from fs gs in if field_eq f g then rest else ok false

-- The sizes that are compared are those of the maps.
unfoldable pub format_eq : MessageFormat → MessageFormat → Result Bool
unfolding fields_eq_from
format_eq a b =
    if not (bytes_eq a.name b.name)
    then ok false
    else if not (length (field_map a.fields) == length (field_map b.fields))
    then ok false
    else fields_eq_from a.fields b.fields

pub data_eq_iff : (a b : Data) → (data_eq a b ≡ true) ↔ (a ≡ b)
unfolding data_eq
data_eq_iff a b = ground (arith, bytes_eq_iff a.payload b.payload)

level_eq : (a b : Level) → (level_byte a ≡ level_byte b) → a ≡ b
level_eq a b h = ground arith

pub logging_eq_iff : (a b : Logging) → (logging_eq a b ≡ true) ↔ (a ≡ b)
unfolding logging_eq
logging_eq_iff a b =
    ground (arith, level_eq a.log_level b.log_level, bytes_eq_iff a.message b.message)

-- What the equality of fields compares.
abbrev pub SameField : Field → Field → Type 0
SameField f g = (f.type.name ≡ g.type.name) × (f.array_length ≡ g.array_length) × (f.name ≡ g.name)

pub field_eq_iff : (f g : Field) → (field_eq f g ≡ true) ↔ SameField f g
unfolding field_eq
field_eq_iff f g = ground (
  arith,
  bytes_eq_iff f.type.name g.type.name,
  bytes_eq_iff f.name g.name,
  eq_of_parts f.array_length g.array_length,
)

pub info_eq_iff :
    (a b : MessageInfo)
    → (info_eq a b ≡ true) ↔ (
        SameField a.field b.field
        × (a.value ≡ b.value)
        × (a.continued ≡ b.continued)
        × (a.is_multi ≡ b.is_multi))
unfolding info_eq
info_eq_iff a b = ground (arith, field_eq_iff a.field b.field, bytes_eq_iff a.value b.value)

-- The same fields in the same order.
abbrev pub SameFields : List Field → List Field → Type 0
SameFields [] [] = Unit
SameFields (f ∷ fs) (g ∷ gs) = SameField f g × SameFields fs gs
SameFields _ _ = ⊥

fields_eq_from-same :
    (fs gs : List Field)
    → length fs ≡ length gs
    → (SameFields fs gs → fields_eq_from fs gs ≡ ok true)
      × ((SameFields fs gs → ⊥) → fields_eq_from fs gs ≡ ok false)
unfolding fields_eq_from
fields_eq_from-same [] [] l = (λ _. refl, λ h. absurd (h tt))
fields_eq_from-same [] (g ∷ gs) l = absurd (omega (arith, l))
fields_eq_from-same (f ∷ fs) [] l = absurd (omega (arith, l))
fields_eq_from-same (f ∷ fs) (g ∷ gs) l =
    let (same, other) = fields_eq_from-same fs gs (omega (arith, l)) in
    elim (Bool-cases (field_eq f g)) [
      | inl h ↦ rw h (λ s. same s.1, λ n. other (λ s. n ((field_eq_iff f g).0 h, s)))
      | inr h ↦ rw h (λ s. absurd (cc ((field_eq_iff f g).1 s.0, h)), λ n. refl)
    ]

-- Each name is new among those before it.
abbrev pub AreNew : List Field → List Field → Type 0
AreNew kept [] = Unit
AreNew kept (f ∷ fs) = (contains_name f.name kept ≡ false) × AreNew (kept ++ f ∷ []) fs

insert_fields-AreNew : (fs kept : List Field) → AreNew kept fs → insert_fields fs kept ≡ kept ++ fs
unfolding insert_fields
insert_fields-AreNew [] kept h = sym (append-nil kept)
insert_fields-AreNew (f ∷ fs) kept (h, hs) =
    rw h (insert_fields-AreNew fs (kept ++ f ∷ []) hs ∙ append_assoc kept (f ∷ []) fs)

-- Without a repeated name the map has all fields.
pub field_map-AreNew : (fs : List Field) → AreNew [] fs → field_map fs ≡ fs
unfolding field_map
field_map-AreNew fs h = insert_fields-AreNew fs [] h

SameFields-length : (fs gs : List Field) → SameFields fs gs → length fs ≡ length gs
SameFields-length [] [] h = refl
SameFields-length [] (g ∷ gs) h = absurd h
SameFields-length (f ∷ fs) [] h = absurd h
SameFields-length (f ∷ fs) (g ∷ gs) (h, hs) = ap suc (SameFields-length fs gs hs)

-- For two formats that repeat no field name, `operator==` reads no field outside of the lists, is
-- true if the names are the same and the fields are the same in order, and false otherwise.
pub format_eq-same :
    (a b : MessageFormat)
    → AreNew [] a.fields
    → AreNew [] b.fields
    → ((a.name ≡ b.name) → SameFields a.fields b.fields → format_eq a b ≡ ok true)
      × (((a.name ≡ b.name) × SameFields a.fields b.fields → ⊥) → format_eq a b ≡ ok false)
unfolding format_eq
format_eq-same a b da db = elim (Bool-cases (bytes_eq a.name b.name)) [
  | inr h ↦ rw h (λ e s. absurd (cc ((bytes_eq_iff a.name b.name).1 e, h)), λ n. refl)
  | inl h ↦ elim (Bool-cases (length a.fields == length b.fields)) [
    | inl l ↦
        let len = (==_iff (length a.fields) (length b.fields)).0 l in
        let (same, other) = fields_eq_from-same a.fields b.fields len in
        rw (h, field_map-AreNew a.fields da, field_map-AreNew b.fields db, l)
          (λ e s. same s, λ n. other (λ s. n ((bytes_eq_iff a.name b.name).0 h, s)))
    | inr l ↦
        rw (h, field_map-AreNew a.fields da, field_map-AreNew b.fields db, l)
          (
            λ e s. absurd (
                cc (
                  (==_iff (length a.fields) (length b.fields)).1
                      (SameFields-length a.fields b.fields s),
                  l,
                )),
            λ n. refl,
          )
  ]
]
