-- ===== src/Exception.antt =====
-- exception.hpp: what the library throws, with the standard library's own exceptions that reach
-- a caller, and results of code that may throw.
use ulog_cpp.Prelude.{◌≡◌, refl, ◌⊎◌, inl, inr, ◌≢◌, Bytes, Bool, true, false}

-- The reasons that the code writes out, with the name that it appends to some of them.
pub data Reason : Type 0 where
  message_too_short message_too_long key_too_long : Reason
  invalid_key_format missing_bracket no_colon no_semicolon invalid_sync_magic : Reason
  format_not_found unresolved_type : Bytes → Reason
  nested_not_resolved field_not_resolved : Reason
  no_previous_info_multi duplicate_format duplicate_msg_id logged_format_not_found : Reason
  invalid_subscription : Reason
  string_and_other empty_vector sample_out_of_range : Reason
  not_nested not_array non_array_element non_nested_access unresolved_access : Reason
  index_out_of_bounds unexpected_size memory_too_short nested_as_basic : Reason
  field_not_found subscription_not_found : Bytes → Reason
  header_already_complete header_not_complete formats_after_header : Reason
  add_logged_before_header first_field_not_timestamp requires_padding : Reason
  duplicate_format_name invalid_name invalid_field_name invalid_field_type : Bytes → Reason
  unknown_format : Bytes → Reason
  invalid_id data_too_small : Reason

-- `fault` is a read outside of the memory that is given, which C++ leaves undefined, and
-- `out_of_fuel` the end of the rounds that a loop of the model was given.
pub data Exception : Type 0 where
  parsing_exception usage_exception access_exception : Reason → Exception
  invalid_argument out_of_range length_error : Exception
  fault : Exception
  out_of_fuel : Exception

-- A value, or the exception that is thrown in its place.
pub data Result {ℓ} (A : Type ℓ) : Type ℓ where
  err : Exception → Result A
  ok : A → Result A

-- What comes next, unless an exception was thrown.
infixl 5 ◌>>=◌
abbrev pub ◌>>=◌ {ℓ κ} : {V : Type ℓ} {W : Type κ} → Result V → (V → Result W) → Result W
err thrown >>= next = err thrown
ok value >>= next = next value

pub Result-cases {ℓ} :
    {V : Type ℓ} (r : Result V) → ((e : Exception) × (r ≡ err e)) ⊎ ((v : V) × (r ≡ ok v))
Result-cases (err e) = inl (e, refl)
Result-cases (ok v) = inr (v, refl)

-- `if (bad) throw e;`
abbrev pub throw_if : Bool → Exception → Result (Unit {0})
throw_if false _ = ok tt
throw_if true e = err e

-- The same for a check, which has no value.
infixl 5 ◌>>◌
abbrev pub ◌>>◌ {ℓ} : {W : Type ℓ} → Result (Unit {0}) → Result W → Result W
check >> next = check >>= λ _. next

-- Neither of the two outcomes that the model adds to the exceptions of the code.
abbrev pub IsClean {ℓ} : {A : Type ℓ} → Result A → Type ℓ
IsClean r = (r ≢ err fault) × (r ≢ err out_of_fuel)

-- What returned by a chain returned by each of its steps.
pub bind-ok {ℓ κ} :
    {V : Type ℓ} {W : Type κ} (r : Result V) (next : V → Result W) (w : W)
    → (r >>= next) ≡ ok w
    → (v : V) × (r ≡ ok v) × (next v ≡ ok w)
bind-ok (ok v) next w h = (v, refl, h)
bind-ok (err e) next w h = absurd (cc h)

pub bind_assoc {ℓ κ ι} :
    {V : Type ℓ} {W : Type κ} {X : Type ι} (r : Result V) (f : V → Result W) (g : W → Result X)
    → ((r >>= f) >>= g) ≡ (r >>= λ v. f v >>= g)
bind_assoc (ok v) f g = refl
bind_assoc (err e) f g = refl
