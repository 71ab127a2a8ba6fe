-- ===== src/Value/Cast/Integers.antt =====
-- Integers that are read and cast by `as<T>` to integer types.
use ulog_cpp.Prelude.{
  ℕ, ◌-◌, ◌*◌, ◌%◌, ◌^◌, ◌<◌, ◌≡◌, refl, ap, ◌∙◌, arith, Bool, true, false, leb, if◌then◌else◌,
}
use native.Mathlib.Nat.{mod-eq_of_lt}
use ulog_cpp.Prelude.Int.{ℤ, pos, negsuc}
use ulog_cpp.Exception.{ok}
use ulog_cpp.Field.{
  BasicType, int8, uint8, int16, uint16, int32, uint32, int64, uint64, float, double, char, bool,
  nested, is_nested,
}
use ulog_cpp.Value.{Value, scalar, sizeof, as_native_type_variant, is_char}
use ulog_cpp.Value.Cast.{
  is_floating, is_bool, value_of, to_bits, static_cast, static_cast_ensure_unsigned_char, one,
  visit, as_type,
}

-- The two's complement of so many numbers, from the half of them on.
abbrev pub complement : ℕ → ℕ → ℤ
complement half bits = if leb half bits then negsuc (2 * half - 1 - bits) else pos bits

-- The number that bits stand for in a file: a `char` is a number from 0 to 255.
unfoldable pub file_number : BasicType → ℕ → ℤ
file_number int8 bits = complement (2 ^ 7) bits
file_number int16 bits = complement (2 ^ 15) bits
file_number int32 bits = complement (2 ^ 31) bits
file_number int64 bits = complement (2 ^ 63) bits
file_number _ bits = pos bits

-- The number that bits stand for on the machine.
unfoldable pub machine_number : Bool → BasicType → ℕ → ℤ
unfolding file_number
machine_number char_signed char bits = if char_signed then complement (2 ^ 7) bits else pos bits
machine_number char_signed t bits = file_number t bits

-- How many numbers below 0, and how many others, a type has.
abbrev pub below : Bool → BasicType → ℕ
below char_signed int8 = 2 ^ 7
below char_signed int16 = 2 ^ 15
below char_signed int32 = 2 ^ 31
below char_signed int64 = 2 ^ 63
below char_signed char = if char_signed then 2 ^ 7 else 0
below char_signed _ = 0

abbrev pub above : Bool → BasicType → ℕ
above char_signed int8 = 2 ^ 7
above char_signed int16 = 2 ^ 15
above char_signed int32 = 2 ^ 31
above char_signed int64 = 2 ^ 63
above char_signed uint16 = 2 ^ 16
above char_signed uint32 = 2 ^ 32
above char_signed uint64 = 2 ^ 64
above char_signed char = if char_signed then 2 ^ 7 else 2 ^ 8
above char_signed _ = 2 ^ 8

-- The numbers that a type has.
abbrev pub InRange : Bool → BasicType → ℤ → Type 0
InRange char_signed t (pos n) = n < above char_signed t
InRange char_signed t (negsuc n) = n < below char_signed t

complement-pos : (half n : ℕ) → n < half → complement half (n % (2 * half)) ≡ pos n
complement-pos half n h =
    let small : n % (2 * half) ≡ n = mod-eq_of_lt (omega (arith, h)) in ground (arith, small)

complement-negsuc :
    (half n : ℕ) → n < half → complement half (2 * half - 1 - n % (2 * half)) ≡ negsuc n
complement-negsuc half n h =
    let small : n % (2 * half) ≡ n = mod-eq_of_lt (omega (arith, h)) in ground (arith, small)

-- An integer that the type has is the number of the bits that it is converted to.
machine_number-to_bits :
    (char_signed : Bool) (t : BasicType) (z : ℤ)
    → is_floating t ≡ false
    → is_bool t ≡ false
    → is_nested t ≡ false
    → InRange char_signed t z
    → machine_number char_signed t (to_bits t z) ≡ z
unfolding machine_number file_number to_bits
machine_number-to_bits char_signed int8 (pos n) f b m h = complement-pos (2 ^ 7) n h
machine_number-to_bits char_signed int8 (negsuc n) f b m h = complement-negsuc (2 ^ 7) n h
machine_number-to_bits char_signed int16 (pos n) f b m h = complement-pos (2 ^ 15) n h
machine_number-to_bits char_signed int16 (negsuc n) f b m h = complement-negsuc (2 ^ 15) n h
machine_number-to_bits char_signed int32 (pos n) f b m h = complement-pos (2 ^ 31) n h
machine_number-to_bits char_signed int32 (negsuc n) f b m h = complement-negsuc (2 ^ 31) n h
machine_number-to_bits char_signed int64 (pos n) f b m h = complement-pos (2 ^ 63) n h
machine_number-to_bits char_signed int64 (negsuc n) f b m h = complement-negsuc (2 ^ 63) n h
machine_number-to_bits true char (pos n) f b m h = complement-pos (2 ^ 7) n h
machine_number-to_bits true char (negsuc n) f b m h = complement-negsuc (2 ^ 7) n h
machine_number-to_bits false char (pos n) f b m h = ap pos (mod-eq_of_lt h)
machine_number-to_bits false char (negsuc n) f b m h = absurd (omega (arith, h))
machine_number-to_bits char_signed uint8 (pos n) f b m h = ap pos (mod-eq_of_lt h)
machine_number-to_bits char_signed uint8 (negsuc n) f b m h = absurd (omega (arith, h))
machine_number-to_bits char_signed uint16 (pos n) f b m h = ap pos (mod-eq_of_lt h)
machine_number-to_bits char_signed uint16 (negsuc n) f b m h = absurd (omega (arith, h))
machine_number-to_bits char_signed uint32 (pos n) f b m h = ap pos (mod-eq_of_lt h)
machine_number-to_bits char_signed uint32 (negsuc n) f b m h = absurd (omega (arith, h))
machine_number-to_bits char_signed uint64 (pos n) f b m h = ap pos (mod-eq_of_lt h)
machine_number-to_bits char_signed uint64 (negsuc n) f b m h = absurd (omega (arith, h))
machine_number-to_bits char_signed float z f b m h = absurd (cc)
machine_number-to_bits char_signed double z f b m h = absurd (cc)
machine_number-to_bits char_signed bool z f b m h = absurd (cc)
machine_number-to_bits char_signed nested z f b m h = absurd (cc)

-- The value of an integer that is no `char` is its number.
value_of-file_number :
    (char_signed : Bool) (t : BasicType) (x : ℕ)
    → is_char t ≡ false
    → value_of char_signed t x ≡ file_number t x
unfolding value_of file_number
value_of-file_number char_signed char x c = absurd (cc)
value_of-file_number char_signed int8 x c = refl
value_of-file_number char_signed int16 x c = refl
value_of-file_number char_signed int32 x c = refl
value_of-file_number char_signed int64 x c = refl
value_of-file_number char_signed _ x c = refl

-- The value of the bits of a `char`, converted to `unsigned char`.
unsigned_char-bits :
    (char_signed : Bool) (x : ℕ) → x < 256 → to_bits uint8 (value_of char_signed char x) ≡ x
unfolding to_bits value_of
unsigned_char-bits char_signed x h = ground (arith, h)

char_number : (x : ℕ) → file_number uint8 x ≡ file_number char x
unfolding file_number
char_number x = refl

module _ (char_signed : Bool) (float_cast : BasicType → BasicType → ℕ → ℕ) where
  static_cast_integer :
      (to from : BasicType) (x : ℕ)
      → is_floating to ≡ false
      → is_floating from ≡ false
      → is_bool to ≡ false
      → static_cast char_signed float_cast to from x ≡ to_bits to (value_of char_signed from x)
  unfolding static_cast
  static_cast_integer to from x f g b = rw (f, g, b) refl

  cast_other :
      (to from : BasicType) (x : ℕ)
      → is_char from ≡ false
      → is_floating to ≡ false
      → is_floating from ≡ false
      → is_bool to ≡ false
      → static_cast_ensure_unsigned_char char_signed float_cast to from x
        ≡ to_bits to (file_number from x)
  unfolding static_cast_ensure_unsigned_char
  cast_other to from x c f g b = rw c (
      static_cast_integer to from x f g b
      ∙ ap (to_bits to) (value_of-file_number char_signed from x c))

  cast_integer :
      (to from : BasicType) (x : ℕ)
      → x < 256 ^ sizeof from
      → is_floating to ≡ false
      → is_floating from ≡ false
      → is_bool to ≡ false
      → static_cast_ensure_unsigned_char char_signed float_cast to from x
        ≡ to_bits to (file_number from x)
  unfolding static_cast_ensure_unsigned_char
  cast_integer to char x h f g b =
      let bits =
        static_cast_integer uint8 char x refl refl refl ∙ unsigned_char-bits char_signed x h in
      let number = value_of-file_number char_signed uint8 x refl ∙ char_number x in
      rw bits (static_cast_integer to uint8 x f refl b ∙ ap (to_bits to) number)
  cast_integer to int8 x h f g b = cast_other to int8 x refl f g b
  cast_integer to _ x h f g b = cast_other to _ x refl f g b

-- An integer whose bits are of its type, that is read and cast by `as<T>` to an integer type other
-- than `bool` that has its number, is this number in the new type. The number of a `char` that is
-- read is the unsigned one, whether the machine's `char` is signed or not.
pub as_type-InRange :
    (char_signed : Bool) (float_cast : BasicType → BasicType → ℕ → ℕ) (to from : BasicType) (x : ℕ)
    (v : Value)
    → as_native_type_variant v ≡ ok (scalar from x)
    → x < 256 ^ sizeof from
    → is_floating to ≡ false
    → is_floating from ≡ false
    → is_bool to ≡ false
    → is_nested to ≡ false
    → InRange char_signed to (file_number from x)
    → (y : ℕ) × (as_type char_signed float_cast (one to) v ≡ ok (scalar to y))
      × (machine_number char_signed to y ≡ file_number from x)
unfolding as_type visit
as_type-InRange char_signed float_cast to from x v h s f g b m r =
    let bits = cast_integer char_signed float_cast to from x s f g b in
    (
      to_bits to (file_number from x),
      rw (h, bits) refl,
      machine_number-to_bits char_signed to (file_number from x) f b m r,
    )
