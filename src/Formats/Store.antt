-- ===== src/Formats/Store.antt =====
-- Fields of the store of formats: what a change of one field leaves as it was.
use ulog_cpp.Prelude.{
  ℕ, zero, suc, ◌+◌, ◌≤◌, ◌<◌, ◌≡◌, refl, ap, arith, Option-cases, some, List, [], ◌∷◌, All,
  Bool-cases, inl, inr, Bytes, bytes_eq, length, get_elem?, if◌then◌else◌,
}
use mathlib.Core.Path.{subst}
use ulog_cpp.Field.{Field, definition_resolved}
use ulog_cpp.Field.Sizes.{IsSized}
use ulog_cpp.Messages.Format.{MessageFormat}
use ulog_cpp.Formats.{
  Formats, find_message_format, change_at, change_field, field_of, stored_field, count_fields,
}

abbrev pub AllSized : Formats → Type 0
AllSized = All (λ m. All IsSized m.fields)

-- The fields that are not resolved.
unfoldable pub pending_fields : List Field → ℕ
pending_fields [] = 0
pending_fields (f ∷ fs) = (if definition_resolved f then 0 else 1) + pending_fields fs

unfoldable pub pending : Formats → ℕ
pending [] = 0
pending (m ∷ fs) = pending_fields m.fields + pending fs

-- What a change does to one field, it does to the number of fields that are not resolved.
change_at-pending :
    (i : ℕ) (change : Field → Field) (l : List Field) (f : Field)
    → get_elem? l i ≡ some f
    → pending_fields (change_at i change l) + pending_fields (f ∷ [])
      ≡ pending_fields l + pending_fields (change f ∷ [])
unfolding pending_fields change_at
change_at-pending i change [] f h = cc
change_at-pending zero change (g ∷ l) f h = let e : g ≡ f = cc in rw e (omega arith)
change_at-pending (suc i) change (g ∷ l) f h = omega (arith, change_at-pending i change l f h)

pub change_field-pending :
    (name : Bytes) (i : ℕ) (change : Field → Field) (fs : Formats) (f : Field)
    → stored_field name i fs ≡ some f
    → pending (change_field name i change fs) + pending_fields (f ∷ [])
      ≡ pending fs + pending_fields (change f ∷ [])
unfolding pending change_field stored_field field_of find_message_format
change_field-pending name i change [] f = λ h. cc
change_field-pending name i change (m ∷ fs) f = elim (Bool-cases (bytes_eq m.name name)) [
  | inl e ↦ rw e (λ h. omega (arith, change_at-pending i change m.fields f h))
  | inr e ↦ rw e (λ h. omega (arith, change_field-pending name i change fs f h))
]

length-change_at :
    (i : ℕ) (change : Field → Field) (l : List Field) → length (change_at i change l) ≡ length l
unfolding change_at
length-change_at i change [] = refl
length-change_at zero change (g ∷ l) = refl
length-change_at (suc i) change (g ∷ l) = ap suc (length-change_at i change l)

pub change_field-count_fields :
    (name : Bytes) (i : ℕ) (change : Field → Field) (fs : Formats)
    → count_fields (change_field name i change fs) ≡ count_fields fs
unfolding change_field count_fields
change_field-count_fields name i change [] = refl
change_field-count_fields name i change (m ∷ fs) =
    ground (arith, length-change_at i change m.fields, change_field-count_fields name i change fs)

change_at-All :
    (P : Field → Type 0) (i : ℕ) (change : Field → Field) (l : List Field)
    → ((f : Field) → P f → P (change f))
    → All P l
    → All P (change_at i change l)
unfolding change_at
change_at-All P i change [] keep h = tt
change_at-All P zero change (g ∷ l) keep (x, h) = (keep g x, h)
change_at-All P (suc i) change (g ∷ l) keep (x, h) = (x, change_at-All P i change l keep h)

pub change_field-All :
    (P : Field → Type 0) (name : Bytes) (i : ℕ) (change : Field → Field) (fs : Formats)
    → ((f : Field) → P f → P (change f))
    → All (λ m. All P m.fields) fs
    → All (λ m. All P m.fields) (change_field name i change fs)
unfolding change_field
change_field-All P name i change [] keep h = tt
change_field-All P name i change (m ∷ fs) keep (x, h) = elim (Bool-cases (bytes_eq m.name name)) [
  | inl e ↦ rw e (change_at-All P i change m.fields keep x, h)
  | inr e ↦ rw e (x, change_field-All P name i change fs keep h)
]

change_at-get_elem? :
    (i : ℕ) (change : Field → Field) (l : List Field) (f : Field)
    → get_elem? l i ≡ some f
    → get_elem? (change_at i change l) i ≡ some (change f)
unfolding change_at
change_at-get_elem? i change [] f h = cc
change_at-get_elem? zero change (g ∷ l) f h = cc
change_at-get_elem? (suc i) change (g ∷ l) f h = change_at-get_elem? i change l f h

-- The changed field is found in its place.
pub change_field-stored_field :
    (name : Bytes) (i : ℕ) (change : Field → Field) (fs : Formats) (f : Field)
    → stored_field name i fs ≡ some f
    → stored_field name i (change_field name i change fs) ≡ some (change f)
unfolding change_field stored_field field_of find_message_format
change_field-stored_field name i change [] f = λ h. cc
change_field-stored_field name i change (m ∷ fs) f = elim (Bool-cases (bytes_eq m.name name)) [
  | inl e ↦ rw e (λ h. rw e (change_at-get_elem? i change m.fields f h))
  | inr e ↦ rw e (λ h. rw e (change_field-stored_field name i change fs f h))
]

get_elem?-All :
    (P : Field → Type 0) (l : List Field) (i : ℕ) (f : Field)
    → All P l
    → get_elem? l i ≡ some f
    → P f × (i < length l)
get_elem?-All P [] i f h e = cc
get_elem?-All P (g ∷ l) zero f (x, h) e = let t : g ≡ f = cc in (subst P t x, omega arith)
get_elem?-All P (g ∷ l) (suc i) f (x, h) e =
    let (y, k) = get_elem?-All P l i f h e in (y, omega arith)

pub find_message_format-All :
    (P : Field → Type 0) (name : Bytes) (fs : Formats) (m : MessageFormat)
    → All (λ m. All P m.fields) fs
    → find_message_format name fs ≡ some m
    → All P m.fields × (length m.fields ≤ count_fields fs)
unfolding find_message_format count_fields
find_message_format-All P name [] m h = λ e. cc
find_message_format-All P name (n ∷ fs) m (x, h) = elim (Bool-cases (bytes_eq n.name name)) [
  | inl t ↦ rw t (λ e. let u : n ≡ m = cc in rw (← u) (x, omega arith))
  | inr t ↦ rw t (λ e. let (y, k) = find_message_format-All P name fs m h e in (y, omega arith))
]

-- A stored field has what all fields have, and stands below the number of all fields.
pub stored_field-All :
    (P : Field → Type 0) (name : Bytes) (i : ℕ) (fs : Formats) (f : Field)
    → All (λ m. All P m.fields) fs
    → stored_field name i fs ≡ some f
    → P f × (i < count_fields fs)
unfolding stored_field field_of
stored_field-All P name i fs f h = elim (Option-cases (find_message_format name fs)) [
  | inl n ↦ rw n (λ e. cc)
  | inr (m, n) ↦ rw n (λ e.
      let (x, k) = find_message_format-All P name fs m h n in
      let (y, l) = get_elem?-All P m.fields i f x e in (y, omega arith))
]

change_at-pending_same :
    (i : ℕ) (change : Field → Field) (l : List Field)
    → ((f : Field) → definition_resolved (change f) ≡ definition_resolved f)
    → pending_fields (change_at i change l) ≡ pending_fields l
unfolding pending_fields change_at
change_at-pending_same i change [] same = refl
change_at-pending_same zero change (f ∷ l) same = rw (same f)
change_at-pending_same (suc i) change (f ∷ l) same =
    omega (arith, change_at-pending_same i change l same)

-- A change that leaves fields resolved or not as they were, wherever it is made.
pub change_field-pending_same :
    (name : Bytes) (i : ℕ) (change : Field → Field) (fs : Formats)
    → ((f : Field) → definition_resolved (change f) ≡ definition_resolved f)
    → pending (change_field name i change fs) ≡ pending fs
unfolding pending change_field
change_field-pending_same name i change [] same = refl
change_field-pending_same name i change (m ∷ fs) same = ground (
  arith,
  change_at-pending_same i change m.fields same,
  change_field-pending_same name i change fs same,
)
