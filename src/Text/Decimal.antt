-- ===== src/Text/Decimal.antt =====
-- `std::to_string` of a non-negative `int` and `std::stoi`, and that the one undoes the other.
use mathlib.Core.List.{concat-ne-nil}
use ulog_cpp.Prelude.{
  ℕ, zero, suc, ◌+◌, ◌-◌, ◌*◌, ◌/◌, ◌%◌, ◌^◌, ◌≤◌, ◌<◌, ◌≡◌, ◌≢◌, refl, ap, ◌∙◌, Bool, true, false,
  ◌&&◌, ◌||◌, [], ◌∷◌, ◌++◌, arith, ltb, leb, ◌==◌, if◌then◌else◌, Bytes, All,
}
use ulog_cpp.Prelude.Int.{ℤ, pos, negsuc}
use ulog_cpp.Exception.{Result, ok, err, invalid_argument, out_of_range, IsClean}

-- The decimal digits of a number, with a round of fuel for each digit.
digits : ℕ → ℕ → Bytes
digits zero n = []
digits (suc fuel) n =
    let more = digits fuel (n / 10) ++ (b'0' + n % 10) ∷ [] in
    if ltb n 10 then (b'0' + n) ∷ [] else more

unfoldable pub to_string : ℕ → Bytes
unfolding digits
to_string n = digits (suc n) n

abbrev is_digit : ℕ → Bool
is_digit c = leb b'0' c && leb c b'9'

-- `isspace` in the C locale.
abbrev is_space : ℕ → Bool
is_space c = c == b' ' || (leb 9 c && leb c 13)

skip_space : Bytes → Bytes
skip_space [] = []
skip_space (c ∷ s) = if is_space c then skip_space s else c ∷ s

leading_digits : Bytes → Bytes
leading_digits [] = []
leading_digits (c ∷ s) = if is_digit c then c ∷ leading_digits s else []

-- The number that digits spell behind `n`.
digits_value : ℕ → Bytes → ℕ
digits_value n [] = n
digits_value n (c ∷ s) = digits_value (n * 10 + (c - b'0')) s

abbrev negate : ℕ → ℤ
negate zero = pos 0
negate (suc n) = negsuc n

-- The bounds of `int`.
in_int : Bool → ℕ → Result ℤ
in_int true n = if ltb (2 ^ 31) n then err out_of_range else ok (negate n)
in_int false n = if leb (2 ^ 31) n then err out_of_range else ok (pos n)

number : Bool → Bytes → Result ℤ
unfolding in_int
number negative [] = err invalid_argument
number negative (c ∷ s) = in_int negative (digits_value 0 (c ∷ s))

signed : Bytes → Result ℤ
unfolding leading_digits number
signed [] = err invalid_argument
signed (c ∷ s) =
    if c == b'-'
    then number true (leading_digits s)
    else if c == b'+'
    then number false (leading_digits s)
    else number false (leading_digits (c ∷ s))

unfoldable pub stoi : Bytes → Result ℤ
unfolding skip_space signed digits_value
stoi s = signed (skip_space s)

stoi_examples :
    (stoi (b' ' ∷ b'-' ∷ b'1' ∷ b'2' ∷ b']' ∷ []) ≡ ok (negsuc 11))
    × (stoi (b']' ∷ []) ≡ err invalid_argument)
    × (to_string 1500 ≡ b'1' ∷ b'5' ∷ b'0' ∷ b'0' ∷ [])
unfolding stoi to_string
stoi_examples = (refl, refl, refl)

abbrev pub IsDigits : Bytes → Type 0
IsDigits = All (λ c. (b'0' ≤ c) × (c ≤ b'9'))

All-digit_last : (ds : Bytes) (d : ℕ) → IsDigits ds → d < 10 → IsDigits (ds ++ (b'0' + d) ∷ [])
All-digit_last [] d h lt = ((omega arith, omega arith), tt)
All-digit_last (c ∷ ds) d (hc, h) lt = (hc, All-digit_last ds d h lt)

digits-IsDigits : (fuel n : ℕ) → IsDigits (digits fuel n)
unfolding digits
digits-IsDigits zero n = tt
digits-IsDigits (suc fuel) n =
    ground (arith, All-digit_last (digits fuel (n / 10)) (n % 10) (digits-IsDigits fuel (n / 10)))

digits_value_last :
    (ds : Bytes) (m d : ℕ) → digits_value m (ds ++ (b'0' + d) ∷ []) ≡ digits_value m ds * 10 + d
unfolding digits_value
digits_value_last [] m d = omega arith
digits_value_last (c ∷ ds) m d = digits_value_last ds (m * 10 + (c - b'0')) d

digits_value-digits : (fuel n : ℕ) → n < fuel → digits_value 0 (digits fuel n) ≡ n
unfolding digits digits_value
digits_value-digits zero n h = elim h [ ]
digits_value-digits (suc fuel) n h =
    ground (
      arith,
      digits_value_last (digits fuel (n / 10)) 0 (n % 10),
      digits_value-digits fuel (n / 10),
    )

leading_digits-append :
    (ds : Bytes) (c : ℕ) (s : Bytes)
    → IsDigits ds
    → is_digit c ≡ false
    → leading_digits (ds ++ (c ∷ s)) ≡ ds
unfolding leading_digits
leading_digits-append [] c s h e = rw e
leading_digits-append (d ∷ ds) c s (hd, h) e = ground (arith, leading_digits-append ds c s h e)

-- Digits, behind which no digit stands, are read whole.
stoi_digits :
    (ds : Bytes) (c : ℕ) (s : Bytes)
    → IsDigits ds
    → ds ≢ []
    → is_digit c ≡ false
    → digits_value 0 ds < 2 ^ 31
    → stoi (ds ++ (c ∷ s)) ≡ ok (pos (digits_value 0 ds))
unfolding stoi
stoi_digits [] c s h ne e lt = absurd (ne refl)
stoi_digits (d ∷ ds) c s h ne e lt = ground (arith, leading_digits-append (d ∷ ds) c s h e)

to_string-ne-nil : (n : ℕ) → to_string n ≢ []
unfolding to_string
to_string-ne-nil n = ground (arith, concat-ne-nil (b'0' + n % 10) (digits n (n / 10)))

pub to_string-IsDigits : (n : ℕ) → IsDigits (to_string n)
unfolding to_string
to_string-IsDigits n = digits-IsDigits (suc n) n

-- A number below 2^31 is parsed by `std::stoi` from its decimal print, whatever stands behind a
-- character that is no digit.
pub stoi-to_string :
    (n c : ℕ) (s : Bytes)
    → n < 2 ^ 31
    → is_digit c ≡ false
    → stoi (to_string n ++ (c ∷ s)) ≡ ok (pos n)
stoi-to_string n c s h e =
    let v : digits_value 0 (to_string n) ≡ n =
      unfold to_string in digits_value-digits (suc n) n (omega arith) in
    stoi_digits (to_string n) c s (to_string-IsDigits n) (to_string-ne-nil n) e (omega arith)
    ∙ ap (λ m. ok (pos m)) v

number-IsClean : (negative : Bool) (s : Bytes) → IsClean (number negative s)
unfolding number
number-IsClean negative [] = ground arith
number-IsClean true (c ∷ s) = ground arith
number-IsClean false (c ∷ s) = ground arith

signed-IsClean : (s : Bytes) → IsClean (signed s)
unfolding signed
signed-IsClean [] = ground arith
signed-IsClean (c ∷ s) = ground (
  arith,
  number-IsClean true (leading_digits s),
  number-IsClean false (leading_digits s),
  number-IsClean false (leading_digits (c ∷ s)),
)

pub stoi-IsClean : (s : Bytes) → IsClean (stoi s)
stoi-IsClean s = unfold stoi in signed-IsClean (skip_space s)
