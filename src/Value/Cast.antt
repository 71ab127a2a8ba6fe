-- ===== src/Value/Cast.antt =====
-- messages.hpp: `Value::as<T>`; utils.hpp: `staticCastEnsureUnsignedChar`. A type `T` is one of the
-- field types, a vector of one, or a string.
pub mod Integers
use ulog_cpp.Prelude.{
  ℕ, ◌-◌, ◌*◌, ◌%◌, ◌^◌, ◌<◌, ◌≡◌, refl, sym, ap, ◌∙◌, arith, Bool, true, false, ◌&&◌, ◌||◌, List,
  [], ◌∷◌, map, leb, ◌==◌, if◌then◌else◌,
}
use native.Mathlib.Nat.{mod-eq_of_lt}
use ulog_cpp.Prelude.Int.{ℤ, pos, negsuc}
use ulog_cpp.Exception.{
  Result, ok, err, ◌>>=◌, bind_assoc, access_exception, string_and_other, empty_vector,
}
use ulog_cpp.Field.{
  BasicType, int8, uint8, int16, uint16, int32, uint32, int64, uint64, float, double, char, bool,
  nested, is_nested,
}
use ulog_cpp.Value.{
  Value, Native, scalar, vector, text, sizeof, as_native_type_variant, element, is_char,
}
use ulog_cpp.Value.Elements.{element_of, element-vector}

-- Whether a type is signed. For `char`, the machine decides.
abbrev pub is_signed : Bool → BasicType → Bool
is_signed char_signed int8 = true
is_signed char_signed int16 = true
is_signed char_signed int32 = true
is_signed char_signed int64 = true
is_signed char_signed char = char_signed
is_signed char_signed _ = false

abbrev pub is_floating : BasicType → Bool
is_floating float = true
is_floating double = true
is_floating _ = false

-- The place of an enumerator.
abbrev type_index : BasicType → ℕ
type_index int8 = 0
type_index uint8 = 1
type_index int16 = 2
type_index uint16 = 3
type_index int32 = 4
type_index uint32 = 5
type_index int64 = 6
type_index uint64 = 7
type_index float = 8
type_index double = 9
type_index char = 10
type_index bool = 11
type_index nested = 12

-- The two types are one.
abbrev pub same_type : BasicType → BasicType → Bool
same_type a b = type_index a == type_index b

abbrev pub is_bool : BasicType → Bool
is_bool bool = true
is_bool _ = false

-- Two to the number of bits, and half of it.
abbrev pub modulus : BasicType → ℕ
modulus t = 256 ^ sizeof t

abbrev pub half : BasicType → ℕ
half t = 128 * 256 ^ (sizeof t - 1)

-- The number of an integer's bits.
unfoldable pub value_of : Bool → BasicType → ℕ → ℤ
value_of char_signed t bits =
    if is_signed char_signed t && leb (half t) bits then negsuc (modulus t - 1 - bits) else pos bits

-- The conversion to an integer, modulo two to the number of bits.
unfoldable pub to_bits : BasicType → ℤ → ℕ
to_bits t (pos n) = n % modulus t
to_bits t (negsuc n) = modulus t - 1 - n % modulus t

pub data Target : Type 0 where
  one many : BasicType → Target
  string : Target

-- Whether `char` is signed, and how floating-point numbers are converted, is up to the machine.
module _ (char_signed : Bool) (float_cast : BasicType → BasicType → ℕ → ℕ) where
  -- `static_cast`.
  unfoldable pub static_cast : BasicType → BasicType → ℕ → ℕ
  static_cast to from x =
      if is_floating to || is_floating from
      then float_cast to from x
      else if is_bool to
      then (if x == 0 then 0 else 1)
      else to_bits to (value_of char_signed from x)

  -- `staticCastEnsureUnsignedChar<ReturnType, OriginType>`. `unsigned char` is `uint8_t`.
  unfoldable pub static_cast_ensure_unsigned_char : BasicType → BasicType → ℕ → ℕ
  unfolding static_cast
  static_cast_ensure_unsigned_char to from x =
      if is_char from
      then static_cast to uint8 (static_cast uint8 char x)
      else static_cast to from x

  -- The visitor of `as<T>`.
  unfoldable pub visit : Target → Native → Result Native
  visit string (text s) = ok (text s)
  visit string (scalar t x) = err (access_exception string_and_other)
  visit string (vector t xs) = err (access_exception string_and_other)
  visit (one to) (text s) = err (access_exception string_and_other)
  visit (many to) (text s) = err (access_exception string_and_other)
  visit (many to) (vector t xs) =
      if same_type to t
      then ok (vector t xs)
      else ok (vector to (map (static_cast_ensure_unsigned_char to t) xs))
  visit (one to) (vector t []) = err (access_exception empty_vector)
  visit (one to) (vector t (x ∷ xs)) = ok (scalar to (static_cast_ensure_unsigned_char to t x))
  visit (many to) (scalar t x) = ok (vector to (static_cast_ensure_unsigned_char to t x ∷ []))
  visit (one to) (scalar t x) = ok (scalar to (static_cast_ensure_unsigned_char to t x))

  -- `as<T>`.
  unfoldable pub as_type : Target → Value → Result Native
  as_type target v = as_native_type_variant v >>= visit target

  -- For an array with a first element, `as<T>` for a `T` that is no vector gives what `as<T>` gives
  -- for the element at index 0.
  pub as_type-first :
      (to t : BasicType) (x : ℕ) (xs : List ℕ) (v : Value)
      → as_native_type_variant v ≡ ok (vector t (x ∷ xs))
      → as_type (one to) v ≡ (element v 0 >>= as_type (one to))
  unfolding as_type visit element_of
  as_type-first to t x xs v h = rw h (
      ap (λ r. r >>= visit (one to)) (sym (element-vector v t (x ∷ xs) 0 h))
      ∙ bind_assoc (element v 0) as_native_type_variant (visit (one to)))
