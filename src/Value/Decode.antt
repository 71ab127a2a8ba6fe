-- ===== src/Value/Decode.antt =====
-- What `deserialize` reads, and when it throws.
use ulog_cpp.Prelude.{
  ℕ, ◌+◌, ◌*◌, ◌^◌, ◌<◌, ◌≡◌, refl, ap, ◌∙◌, arith, true, false, ◌||◌, ◌++◌, leb, leb→le, le→leb,
  if◌then◌else◌, Bytes, length, length-append, take-append, drop-append, take, drop, Bool-cases,
  inl, inr,
}
use ulog_cpp.Prelude.Int.{ℤ, pos, +ℤ_pos, *ℤ_pos, ◌-ℤ◌, ltb_ℤ}
use ulog_cpp.Exception.{ok, err, ◌>>=◌, access_exception, unexpected_size}
use ulog_cpp.Field.{is_nested, minus_one}
use ulog_cpp.Memory.{
  length-le_bytes, le_value-le_bytes, read_bytes, read_bytes_inside, le_value, le_bytes,
}
use ulog_cpp.Value.{
  Value, scalar, vector, is_char, sizeof, elements_from, deserialize_vector, read_at, deserialize,
  decode_single, decode_array, as_native_type_variant,
}

-- The test of `deserialize`: whether the bytes from `at` on hold so many.
fits_lem :
    (len b t w : ℕ)
    → (ltb_ℤ (pos len) (pos b) || ltb_ℤ (pos len -ℤ pos b -ℤ pos t) (pos w))
      ≡ (if leb (b + t + w) len then false else true)
unfolding ◌-ℤ◌
fits_lem len b t w = ground arith

-- With a begin and an offset that are not negative, `deserialize` reads the bytes of the element,
-- if the memory holds them, and throws otherwise.
pub deserialize_lem :
    (w b o k : ℕ) (v : Value) (offset index : ℤ)
    → v.begin ≡ pos b
    → offset ≡ pos o
    → index ≡ pos k
    → deserialize w v offset index ≡ (
        if leb (b + (o + k * w) + w) (length v.backing)
        then ok (le_value (take w (drop (b + (o + k * w)) v.backing)))
        else err (access_exception unexpected_size))
unfolding deserialize read_at read_bytes
deserialize_lem w b o k v offset index e f g =
    elim (Bool-cases (leb (b + (o + k * w) + w) (length v.backing))) [
      | inl h ↦
          rw (e, f, g, *ℤ_pos, +ℤ_pos, fits_lem, h, +ℤ_pos)
            (rw (read_bytes_inside v.backing (b + (o + k * w)) w (leb→le _ _ h)))
      | inr h ↦ rw (e, f, g, *ℤ_pos, +ℤ_pos, fits_lem, h)
    ]

-- A place in the memory that holds the element gives its number, whatever stands around it.
pub deserialize_at :
    (w b o k n : ℕ) (pre post : Bytes) (v : Value) (offset index : ℤ)
    → v.begin ≡ pos b
    → offset ≡ pos o
    → index ≡ pos k
    → v.backing ≡ pre ++ (le_bytes w n ++ post)
    → length pre ≡ b + (o + k * w)
    → n < 256 ^ w
    → deserialize w v offset index ≡ ok n
deserialize_at w b o k n pre post v offset index e f g m l h =
    let at = b + (o + k * w) in
    let size : length v.backing ≡ at + w + length post = rw m (
      omega (
        arith,
        l,
        length-append {0} pre (le_bytes w n ++ post),
        length-append {0} (le_bytes w n) post,
        length-le_bytes w n,
      )) in
    let bytes : take w (drop at v.backing) ≡ le_bytes w n =
      rw (m, drop-append pre (le_bytes w n ++ post) at (omega (arith, l)))
        (take-append (le_bytes w n) post w (omega (arith, length-le_bytes w n))) in
    deserialize_lem w b o k v offset index e f g
    ∙ rw (le→leb (at + w) (length v.backing) (omega (arith, size)), bytes)
        (ap ok (le_value-le_bytes w n h))

-- Neither an array nor an element of one: the single value is read.
pub as_native-single :
    (v : Value)
    → v.field_ref.array_length ≡ minus_one
    → v.array_index ≡ minus_one
    → as_native_type_variant v ≡ decode_single v (pos 0)
unfolding as_native_type_variant
as_native-single v l i = simp (l, i)

-- An element of an array: the value at the index is read.
pub as_native-element :
    (v : Value) (n k : ℕ)
    → v.field_ref.array_length ≡ pos n
    → v.array_index ≡ pos k
    → as_native_type_variant v ≡ decode_single v (pos k)
unfolding as_native_type_variant
as_native-element v n k l i = simp (l, i)

-- An array as a whole.
pub as_native-array :
    (v : Value) (n : ℕ)
    → v.field_ref.array_length ≡ pos n
    → v.array_index ≡ minus_one
    → as_native_type_variant v ≡ decode_array v
unfolding as_native_type_variant
as_native-array v n l i = simp (l, i)

-- A single value is read, of the type of its field.
pub decode_single_lem :
    (v : Value) (index : ℤ)
    → is_nested v.field_ref.type.type ≡ false
    → decode_single v index ≡ (
        deserialize (sizeof v.field_ref.type.type) v v.field_ref.offset_in_message_bytes index
        >>= λ x. ok (scalar v.field_ref.type.type x))
unfolding decode_single
decode_single_lem v index t = rw t refl

deserialize_vector-pos :
    (w : ℕ) (v : Value) (offset array_length : ℤ) (n : ℕ)
    → array_length ≡ pos n
    → deserialize_vector w v offset array_length ≡ elements_from w v offset 0 n
unfolding deserialize_vector
deserialize_vector-pos w v offset array_length n l = rw l refl

-- An array that is no string: its elements are read.
pub decode_array_lem :
    (v : Value) (n : ℕ)
    → v.field_ref.array_length ≡ pos n
    → is_nested v.field_ref.type.type ≡ false
    → is_char v.field_ref.type.type ≡ false
    → decode_array v ≡ (
        elements_from (sizeof v.field_ref.type.type) v v.field_ref.offset_in_message_bytes 0 n
        >>= λ xs. ok (vector v.field_ref.type.type xs))
unfolding decode_array
decode_array_lem v n l t c = rw (t, c, deserialize_vector-pos _ v _ _ n l) refl
