-- ===== src/Value/Texts.antt =====
-- What `asNativeTypeVariant` reads of a `char` array, with `strnlen` of utils.hpp.
use ulog_cpp.Prelude.{
  ℕ, zero, suc, ◌+◌, ◌≤◌, ◌≡◌, ◌≢◌, refl, sym, ap, ◌∙◌, arith, true, false, [], ◌∷◌, ◌++◌, Bytes,
  All, length, length-append, take, drop, take-append, drop-append, if◌then◌else◌, leb, le→leb,
  Bool-cases, inl, inr,
}
use ulog_cpp.Prelude.Int.{+ℤ_pos, pos, ◌-ℤ◌, ltb_ℤ}
use ulog_cpp.Exception.{ok, err, ◌>>=◌, bind_assoc, access_exception, memory_too_short}
use ulog_cpp.Field.{char, minus_one}
use ulog_cpp.Value.{Value, text, strnlen, decode_array, decode_string, as_native_type_variant}
use ulog_cpp.Value.Decode.{as_native-array}

-- `strnlen` counts up to the first zero.
strnlen-zero :
    (s post : Bytes) (max_len : ℕ)
    → All (λ c. c ≢ 0) s
    → length s ≤ max_len
    → strnlen (s ++ (0 ∷ post)) max_len ≡ ok (length s)
unfolding strnlen
strnlen-zero [] post zero h l = refl
strnlen-zero [] post (suc m) h l = refl
strnlen-zero (c ∷ s) post zero h l = absurd (omega (arith, l))
strnlen-zero (c ∷ s) post (suc m) (hc, hs) l =
    ground (arith, strnlen-zero s post m hs (omega (arith, l)))

-- It stops at its limit, where it still reads the byte.
strnlen-full :
    (s post : Bytes) (c : ℕ)
    → All (λ c. c ≢ 0) s
    → strnlen (s ++ (c ∷ post)) (length s) ≡ ok (length s)
unfolding strnlen
strnlen-full [] post c h = refl
strnlen-full (d ∷ s) post c (hd, hs) = ground (arith, strnlen-full s post c hs)

string_fits :
    (len at n : ℕ) → ltb_ℤ (pos len -ℤ pos at) (pos n) ≡ (if leb (at + n) len then false else true)
unfolding ◌-ℤ◌
string_fits len at n = ground arith

-- A `char` array.
decode_string_lem :
    (v : Value) (b o n : ℕ)
    → v.begin ≡ pos b
    → v.field_ref.offset_in_message_bytes ≡ pos o
    → v.field_ref.array_length ≡ pos n
    → decode_string v ≡ (
        if leb (b + o + n) (length v.backing)
        then (strnlen (drop (b + o) v.backing) n >>= λ len.
            ok (text (take len (drop (b + o) v.backing))))
        else err (access_exception memory_too_short))
unfolding decode_string
decode_string_lem v b o n e f l = elim (Bool-cases (leb (b + o + n) (length v.backing))) [
  | inl h ↦
      rw (e, f, l, +ℤ_pos, string_fits, h) (bind_assoc (strnlen (drop (b + o) v.backing) n) _ _)
  | inr h ↦ rw (e, f, l, +ℤ_pos, string_fits, h) refl
]

decode_array-char : (v : Value) → v.field_ref.type.type ≡ char → decode_array v ≡ decode_string v
unfolding decode_array
decode_array-char v t = rw t refl

-- The memory behind the start of the string, which starts with `s`.
as_native-found :
    (v : Value) (b o n : ℕ) (pre s rest : Bytes)
    → v.begin ≡ pos b
    → v.field_ref.offset_in_message_bytes ≡ pos o
    → v.field_ref.array_length ≡ pos n
    → v.array_index ≡ minus_one
    → v.field_ref.type.type ≡ char
    → v.backing ≡ pre ++ (s ++ rest)
    → length pre ≡ b + o
    → n ≤ length s + length rest
    → strnlen (s ++ rest) n ≡ ok (length s)
    → as_native_type_variant v ≡ ok (text s)
as_native-found v b o n pre s rest e f l i t m p h found =
    let behind : drop (b + o) v.backing ≡ s ++ rest =
      rw m (drop-append pre (s ++ rest) (b + o) (sym p)) in
    let size : length v.backing ≡ length pre + (length s + length rest) =
      rw m (omega (arith, length-append {0} pre (s ++ rest), length-append {0} s rest)) in
    as_native-array v n l i
    ∙ decode_array-char v t
    ∙ decode_string_lem v b o n e f l
    ∙ rw (le→leb (b + o + n) (length v.backing) (omega (arith, size, p, h)), behind, found)
        (ap (λ z. ok (text z)) (take-append s rest (length s) refl))

-- A `char` array that lies in the memory and begins with bytes that are not zero and a zero reads
-- as the text of the bytes before the zero; the zero may stand right behind the array.
pub as_native-text :
    (v : Value) (b o n : ℕ) (pre s post : Bytes)
    → v.begin ≡ pos b
    → v.field_ref.offset_in_message_bytes ≡ pos o
    → v.field_ref.array_length ≡ pos n
    → v.array_index ≡ minus_one
    → v.field_ref.type.type ≡ char
    → v.backing ≡ pre ++ (s ++ (0 ∷ post))
    → length pre ≡ b + o
    → All (λ c. c ≢ 0) s
    → length s ≤ n
    → n ≤ length s + suc (length post)
    → as_native_type_variant v ≡ ok (text s)
as_native-text v b o n pre s post e f l i t m p h lo hi =
    as_native-found v b o n pre s (0 ∷ post) e f l i t m p hi (strnlen-zero s post n h lo)

-- A `char` array that lies in the memory with no zero in it, and with at least one byte behind it,
-- reads as the text of all its bytes, whatever that byte is.
pub as_native-text_full :
    (v : Value) (b o c : ℕ) (pre s post : Bytes)
    → v.begin ≡ pos b
    → v.field_ref.offset_in_message_bytes ≡ pos o
    → v.field_ref.array_length ≡ pos (length s)
    → v.array_index ≡ minus_one
    → v.field_ref.type.type ≡ char
    → v.backing ≡ pre ++ (s ++ (c ∷ post))
    → length pre ≡ b + o
    → All (λ c. c ≢ 0) s
    → as_native_type_variant v ≡ ok (text s)
as_native-text_full v b o c pre s post e f l i t m p h =
    as_native-found v b o (length s) pre s (c ∷ post) e f l i t m p (omega arith)
      (strnlen-full s post c h)
