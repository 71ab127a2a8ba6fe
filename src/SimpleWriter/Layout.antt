-- ===== src/SimpleWriter/Layout.antt =====
-- The layout of a format that `writeMessageFormat` accepts: no field needs padding.
use ulog_cpp.Prelude.{
  ℕ, zero, suc, max, ◌+◌, ◌*◌, ◌%◌, ◌^◌, ◌≤◌, ◌<◌, ◌≡◌, ◌↔◌, refl, sym, ap, ◌∙◌, arith, ◌==◌,
  ==_iff, Bool-cases, Option-cases, inl, inr, Option, none, some, List, [], ◌∷◌,
}
use ulog_cpp.Prelude.Int.{ℤ, pos, negsuc, pos_part}
use ulog_cpp.Exception.{ok}
use ulog_cpp.Field.{Field, TypeAttributes, find_basic_type}
use ulog_cpp.SimpleWriter.{array_size, add_sizes}

-- The elements of a field by the length of its array: one of a length that is no array (-1), and one
-- of an array of no elements too.
unfoldable pub num_elements : ℤ → ℕ
num_elements length = max 1 (pos_part length)

-- `array_size` counts these elements.
array_size-num_elements : (length : ℤ) → array_size length ≡ num_elements length
unfolding num_elements
array_size-num_elements (pos zero) = refl
array_size-num_elements (pos (suc n)) = omega arith
array_size-num_elements (negsuc n) = refl

-- The bytes of the elements of a field.
unfoldable pub span_of : Option TypeAttributes → Field → ℕ
span_of none f = 0
span_of (some t) f = num_elements f.array_length * pos_part t.size

-- The offset behind the fields.
unfoldable pub end_of : ℕ → List Field → ℕ
unfolding span_of
end_of o [] = o
end_of o (f ∷ fs) = end_of (o + span_of (find_basic_type f.type.name) f) fs

-- Each field has a basic type, and begins at a multiple of the type's size.
pub data Aligned : ℕ → List Field → Type 0 where
  no_fields : {o : ℕ} → Aligned o []
  next_field :
      {o : ℕ} {f : Field} {fs : List Field} (t : TypeAttributes)
      → find_basic_type f.type.name ≡ some t
      → o % pos_part t.size ≡ 0
      → Aligned (o + span_of (some t) f) fs
      → Aligned o (f ∷ fs)

end_of-le : (o : ℕ) (fs : List Field) → o ≤ end_of o fs
unfolding end_of
end_of-le o [] = omega arith
end_of-le o (f ∷ fs) = omega (arith, end_of-le (o + span_of (find_basic_type f.type.name) f) fs)

add_sizes_sound :
    (o : ℕ) (fs : List Field) (r : ℕ)
    → end_of o fs < 2 ^ 32
    → add_sizes o fs ≡ ok r
    → Aligned o fs × (r ≡ end_of o fs)
unfolding add_sizes end_of span_of
add_sizes_sound o [] r = λ h e. (no_fields, cc)
add_sizes_sound o (f ∷ fs) r = elim (Option-cases (find_basic_type f.type.name)) [
  | inl n ↦ rw n (λ h e. cc)
  | inr (t, s) ↦ elim (Bool-cases (o % pos_part t.size == 0)) [
    | inl k ↦
        rw (s, add_sizes, k, array_size-num_elements f.array_length)
          (λ h e.
            let o' = o + num_elements f.array_length * pos_part t.size in
            let small : o' % 2 ^ 32 ≡ o' = omega (arith, h, end_of-le o' fs) in
            let (a, x) = add_sizes_sound o' fs r h (rw (← small) e) in
            (next_field t s ((==_iff (o % pos_part t.size) 0).0 k) a, x))
    | inr k ↦ rw (s, add_sizes, k) (λ h e. cc)
  ]
]

add_sizes_complete :
    (o : ℕ) (fs : List Field)
    → end_of o fs < 2 ^ 32
    → Aligned o fs
    → add_sizes o fs ≡ ok (end_of o fs)
unfolding add_sizes end_of span_of
add_sizes_complete o [] h no_fields = refl
add_sizes_complete o (f ∷ fs) h (next_field t s k a) =
    let o' = o + num_elements f.array_length * pos_part t.size in
    let ends : end_of o (f ∷ fs) ≡ end_of o' fs = rw s refl in
    let small : o' % 2 ^ 32 ≡ o' = omega (arith, h, ends, end_of-le o' fs) in
    rw
      (
        s,
        add_sizes,
        (==_iff (o % pos_part t.size) 0).1 k,
        array_size-num_elements f.array_length,
        small,
      )
      (add_sizes_complete o' fs (omega (arith, h, ends)) a)

-- For fields that end below 2^32 bytes, the loop of `writeMessageFormat` over the types finds a
-- size, and throws nothing, if and only if each field has a basic type and begins at a multiple of
-- its type's size, and the size is the sum over the fields of their elements' sizes, where a field
-- that is no array, and an array of length 0, has one element.
pub add_sizes_iff :
    (fs : List Field) (r : ℕ)
    → end_of 0 fs < 2 ^ 32
    → (add_sizes 0 fs ≡ ok r) ↔ (Aligned 0 fs × (r ≡ end_of 0 fs))
add_sizes_iff fs r h =
    (λ e. add_sizes_sound 0 fs r h e, λ (a, e). add_sizes_complete 0 fs h a ∙ ap ok (sym e))
