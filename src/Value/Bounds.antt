-- ===== src/Value/Bounds.antt =====
-- Which reads of a `Value` stay in the memory, and that the others are refused.
use ulog_cpp.Prelude.{
  ℕ, zero, suc, ◌+◌, ◌*◌, ◌≤◌, ◌<◌, ◌≡◌, refl, ap, ◌∙◌, arith, Bool, true, false, List, [], ◌∷◌,
  leb, leb→le, le→leb, leb-false, leb-false→lt, length, take, drop, if◌then◌else◌, Bool-cases, inl,
  inr,
}
use native.Mathlib.Nat.{add-mul, suc-mul}
use ulog_cpp.Prelude.Int.{ℤ, pos}
use ulog_cpp.Exception.{ok, err, ◌>>=◌, access_exception, unexpected_size}
use ulog_cpp.Field.{BasicType, is_nested, minus_one}
use ulog_cpp.Memory.{le_value}
use ulog_cpp.Value.{
  Value, scalar, vector, sizeof, deserialize, elements_from, as_native_type_variant, is_char,
}
use ulog_cpp.Value.Decode.{
  deserialize_lem, decode_single_lem, as_native-single, as_native-array, decode_array_lem,
}

module _ (w b o : ℕ) (v : Value) (offset : ℤ) (e : v.begin ≡ pos b) (f : offset ≡ pos o) where
  pub deserialize-fits :
      (k : ℕ)
      → b + (o + k * w) + w ≤ length v.backing
      → deserialize w v offset (pos k) ≡ ok (le_value (take w (drop (b + (o + k * w)) v.backing)))
  deserialize-fits k h =
      deserialize_lem w b o k v offset (pos k) e f refl
      ∙ rw (le→leb (b + (o + k * w) + w) (length v.backing) h) refl

  pub deserialize-short :
      (k : ℕ)
      → length v.backing < b + (o + k * w) + w
      → deserialize w v offset (pos k) ≡ err (access_exception unexpected_size)
  deserialize-short k h =
      deserialize_lem w b o k v offset (pos k) e f refl
      ∙ rw (leb-false (b + (o + k * w) + w) (length v.backing) h) refl

  grow : (i n : ℕ) → (i + suc n) * w ≡ i * w + w + n * w
  grow i n = add-mul i (suc n) w ∙ omega (arith, suc-mul n w)

  shift : (i n : ℕ) → (suc i + n) * w ≡ (i + suc n) * w
  shift i n = ap (λ m. m * w) (omega arith)

  -- The elements that lie in the memory are read.
  pub elements_from-fits :
      (i n : ℕ)
      → b + (o + (i + n) * w) ≤ length v.backing
      → (xs : List ℕ) × (elements_from w v offset i n ≡ ok xs)
  unfolding elements_from
  elements_from-fits i zero h = ([], refl)
  elements_from-fits i (suc n) h =
      let here : b + (o + i * w) + w ≤ length v.backing = omega (arith, h, grow i n) in
      let (xs, hxs) = elements_from-fits (suc i) n (omega (arith, h, shift i n)) in
      (
        le_value (take w (drop (b + (o + i * w)) v.backing)) ∷ xs,
        rw (deserialize-fits i here, hxs) refl,
      )

  -- One that does not ends the loop.
  pub elements_from-short :
      (i n : ℕ)
      → length v.backing < b + (o + (i + suc n) * w)
      → elements_from w v offset i (suc n) ≡ err (access_exception unexpected_size)
  unfolding elements_from
  elements_from-short i zero h = rw (deserialize-short i (omega (arith, h, grow i 0))) refl
  elements_from-short i (suc n) h =
      elim (Bool-cases (leb (b + (o + i * w) + w) (length v.backing))) [
        | inl g ↦
            rw
              (
                deserialize-fits i (leb→le _ _ g),
                elements_from-short (suc i) n (omega (arith, h, shift i (suc n))),
              )
              refl
        | inr g ↦ rw (deserialize-short i (leb-false→lt _ _ g)) refl
      ]

ok_if :
    (t : BasicType) (c : Bool) (x : ℕ)
    → ((if c then ok x else err (access_exception unexpected_size)) >>= λ y. ok (scalar t y))
      ≡ (if c then ok (scalar t x) else err (access_exception unexpected_size))
ok_if t true x = refl
ok_if t false x = refl

-- A field that is no array and not nested, at an offset and a begin that are not negative: it reads
-- as the little-endian number of its bytes if they all lie in the memory, and is refused if not.
pub as_native-scalar :
    (v : Value) (b o : ℕ)
    → v.begin ≡ pos b
    → v.field_ref.offset_in_message_bytes ≡ pos o
    → v.field_ref.array_length ≡ minus_one
    → v.array_index ≡ minus_one
    → is_nested v.field_ref.type.type ≡ false
    → as_native_type_variant v ≡ (
        let w = sizeof v.field_ref.type.type in
        if leb (b + o + w) (length v.backing)
        then ok (scalar v.field_ref.type.type (le_value (take w (drop (b + o) v.backing))))
        else err (access_exception unexpected_size))
as_native-scalar v b o e f l i t =
    let first : b + (o + 0 * sizeof v.field_ref.type.type) ≡ b + o = omega arith in
    as_native-single v l i
    ∙ decode_single_lem v (pos 0) t
    ∙ rw (deserialize_lem _ b o 0 v _ _ e f refl, first) (ok_if _ _ _)

-- An array of numbers that is not empty, at an offset and a begin that are not negative: it reads
-- as a vector of its type if all elements lie in the memory, and is refused if one does not.
pub as_native-numbers :
    (v : Value) (b o n : ℕ)
    → v.begin ≡ pos b
    → v.field_ref.offset_in_message_bytes ≡ pos o
    → v.field_ref.array_length ≡ pos (suc n)
    → v.array_index ≡ minus_one
    → is_nested v.field_ref.type.type ≡ false
    → is_char v.field_ref.type.type ≡ false
    → (b + (o + suc n * sizeof v.field_ref.type.type) ≤ length v.backing
        → (xs : List ℕ) × (as_native_type_variant v ≡ ok (vector v.field_ref.type.type xs)))
      × (length v.backing < b + (o + suc n * sizeof v.field_ref.type.type)
          → as_native_type_variant v ≡ err (access_exception unexpected_size))
as_native-numbers v b o n e f l i t c = (
  λ h.
      let (xs, hxs) =
        elements_from-fits (sizeof v.field_ref.type.type) b o v v.field_ref.offset_in_message_bytes
          e f 0 (suc n) (omega (arith, h)) in
      (xs, as_native-array v (suc n) l i ∙ decode_array_lem v (suc n) l t c ∙ rw hxs refl),
  λ h.
      let short =
        elements_from-short (sizeof v.field_ref.type.type) b o v v.field_ref.offset_in_message_bytes
          e f 0 n (omega (arith, h)) in
      as_native-array v (suc n) l i ∙ decode_array_lem v (suc n) l t c ∙ rw short refl,
)
