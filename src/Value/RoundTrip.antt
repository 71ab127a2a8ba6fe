-- ===== src/Value/RoundTrip.antt =====
-- Reading back the arrays of numbers that stand in the memory.
use ulog_cpp.Prelude.{
  ℕ, suc, ◌+◌, ◌*◌, ◌^◌, ◌<◌, ◌≡◌, refl, sym, ap, ◌∙◌, arith, false, List, [], ◌∷◌, ◌++◌,
  append_assoc, Bytes, All, length, length-append,
}
use native.Mathlib.Nat.{suc-mul}
use ulog_cpp.Prelude.Int.{ℤ, pos}
use ulog_cpp.Exception.{ok}
use ulog_cpp.Field.{is_nested, minus_one}
use ulog_cpp.Memory.{le_bytes, length-le_bytes}
use ulog_cpp.Value.{Value, vector, sizeof, elements_from, as_native_type_variant, is_char}
use ulog_cpp.Value.Decode.{deserialize_at, decode_array_lem, as_native-array}

-- The bytes of numbers that stand one after the other.
unfoldable pub le_array : ℕ → List ℕ → Bytes
le_array w [] = []
le_array w (x ∷ xs) = le_bytes w x ++ le_array w xs

elements_from-le_array :
    (w b o i : ℕ) (xs : List ℕ) (pre post : Bytes) (v : Value) (offset : ℤ)
    → v.begin ≡ pos b
    → offset ≡ pos o
    → v.backing ≡ pre ++ (le_array w xs ++ post)
    → length pre ≡ b + (o + i * w)
    → All (λ x. x < 256 ^ w) xs
    → elements_from w v offset i (length xs) ≡ ok xs
unfolding elements_from le_array
elements_from-le_array w b o i [] pre post v offset e f m l h = refl
elements_from-le_array w b o i (x ∷ xs) pre post v offset e f m l (hx, hxs) =
    let mem : v.backing ≡ pre ++ (le_bytes w x ++ (le_array w xs ++ post)) =
      m ∙ ap (λ r. pre ++ r) (append_assoc (le_bytes w x) (le_array w xs) post) in
    let here =
      deserialize_at w b o i x pre (le_array w xs ++ post) v offset (pos i) e f refl mem l hx in
    let mem1 : v.backing ≡ (pre ++ le_bytes w x) ++ (le_array w xs ++ post) =
      mem ∙ sym (append_assoc pre (le_bytes w x) (le_array w xs ++ post)) in
    let next : length (pre ++ le_bytes w x) ≡ b + (o + suc i * w) =
      omega (arith, l, length-append {0} pre (le_bytes w x), length-le_bytes w x, suc-mul i w) in
    let rest =
      elements_from-le_array w b o (suc i) xs (pre ++ le_bytes w x) post v offset e f mem1 next
        hxs in
    rw (here, rest) refl

-- An array of numbers, no string, that stands in the memory in little-endian order, each number
-- within the bits of its type, reads as the vector of these numbers, whatever stands around it.
pub as_native-le_array :
    (v : Value) (b o : ℕ) (xs : List ℕ) (pre post : Bytes)
    → let w = sizeof v.field_ref.type.type in
      v.begin ≡ pos b
      → v.field_ref.offset_in_message_bytes ≡ pos o
      → v.field_ref.array_length ≡ pos (length xs)
      → v.array_index ≡ minus_one
      → is_nested v.field_ref.type.type ≡ false
      → is_char v.field_ref.type.type ≡ false
      → v.backing ≡ pre ++ (le_array w xs ++ post)
      → length pre ≡ b + o
      → All (λ x. x < 256 ^ w) xs
      → as_native_type_variant v ≡ ok (vector v.field_ref.type.type xs)
as_native-le_array v b o xs pre post e f l i t c m p h =
    let read =
      elements_from-le_array (sizeof v.field_ref.type.type) b o 0 xs pre post v
        v.field_ref.offset_in_message_bytes e f m (omega (arith, p)) h in
    as_native-array v (length xs) l i ∙ decode_array_lem v (length xs) l t c ∙ rw read refl
