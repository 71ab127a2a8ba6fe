-- ===== src/Field/Sizes.antt =====
-- Sizes of fields that are not negative.
use ulog_cpp.Prelude.{◌≡◌, ◌≢◌, arith, Bool-cases, inl, inr}
use ulog_cpp.Prelude.Int.{ℤ, pos, negsuc, ◌+ℤ◌, ◌*ℤ◌}
use mathlib.Core.Path.{subst}
use ulog_cpp.Exception.{ok, err, out_of_fuel}
use ulog_cpp.Field.{Field, size_bytes, definition_resolved, count}

-- An integer that is not negative.
abbrev pub IsNat : ℤ → Type 0
IsNat (pos _) = Unit
IsNat (negsuc _) = ⊥

-- A field of which neither the size of the type nor the number of elements is negative.
pub record IsSized (f : Field) : Type 0 where
  pub size : IsNat f.type.size
  pub elements : IsNat (count f.array_length)

pub +ℤ-IsNat : (a b : ℤ) → IsNat a → IsNat b → IsNat (a +ℤ b)
unfolding ◌+ℤ◌
+ℤ-IsNat (pos m) (pos n) h k = ground arith
+ℤ-IsNat (pos m) (negsuc n) h k = absurd k
+ℤ-IsNat (negsuc m) b h k = absurd h

pub *ℤ-IsNat : (a b : ℤ) → IsNat a → IsNat b → IsNat (a *ℤ b)
unfolding ◌*ℤ◌
*ℤ-IsNat (pos m) (pos n) h k = ground arith
*ℤ-IsNat (pos m) (negsuc n) h k = absurd k
*ℤ-IsNat (negsuc m) b h k = absurd h

-- The size of a resolved field is a product of these, and that of another is no size.
pub size_bytes-IsNat : (f : Field) (z : ℤ) → IsSized f → size_bytes f ≡ ok z → IsNat z
unfolding size_bytes
size_bytes-IsNat f z v = elim (Bool-cases (definition_resolved f)) [
  | inl e ↦ rw e (λ h.
      let t : f.type.size *ℤ count f.array_length ≡ z = cc in
      subst IsNat t (*ℤ-IsNat _ _ v.size v.elements))
  | inr e ↦ rw e (λ h. cc)
]

pub size_bytes-ne-out_of_fuel : (f : Field) → size_bytes f ≢ err out_of_fuel
unfolding size_bytes
size_bytes-ne-out_of_fuel f = ground arith
