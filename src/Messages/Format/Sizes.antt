-- ===== src/Messages/Format/Sizes.antt =====
-- The size of a format whose fields have sizes that are not negative.
use ulog_cpp.Prelude.{
  ◌≡◌, ◌≢◌, arith, bytes_less, Bool, true, false, inl, inr, List, [], ◌∷◌, ◌++◌, All, if◌then◌else◌,
}
use ulog_cpp.Prelude.Int.{ℤ, pos, ◌+ℤ◌}
use mathlib.Core.Path.{subst}
use ulog_cpp.Exception.{Result-cases, ok, err, out_of_fuel}
use ulog_cpp.Field.{Field, size_bytes}
use ulog_cpp.Field.Sizes.{IsNat, IsSized, +ℤ-IsNat, size_bytes-IsNat, size_bytes-ne-out_of_fuel}
use ulog_cpp.Messages.Format.{
  MessageFormat, contains_name, insert_fields, field_map, insert_by_name, by_name, sum_sizes,
  format_size_bytes,
}

All-append : (P : Field → Type 0) (a b : List Field) → All P a → All P b → All P (a ++ b)
All-append P [] b h k = k
All-append P (f ∷ a) b (x, h) k = (x, All-append P a b h k)

kept-All :
    (P : Field → Type 0) (b : Bool) (kept : List Field) (f : Field)
    → P f
    → All P kept
    → All P (if b then kept else kept ++ f ∷ [])
kept-All P true kept f x h = h
kept-All P false kept f x h = All-append P kept (f ∷ []) h (x, tt)

insert_fields-All :
    (P : Field → Type 0) (l kept : List Field) → All P l → All P kept → All P (insert_fields l kept)
unfolding insert_fields
insert_fields-All P [] kept h k = k
insert_fields-All P (f ∷ l) kept (x, h) k =
    insert_fields-All P l _ h (kept-All P (contains_name f.name kept) kept f x k)

-- The map holds fields of the list only.
pub field_map-All : (P : Field → Type 0) (l : List Field) → All P l → All P (field_map l)
unfolding field_map
field_map-All P l h = insert_fields-All P l [] h tt

if-All :
    (P : Field → Type 0) (b : Bool) (k l : List Field)
    → All P k
    → All P l
    → All P (if b then k else l)
if-All P true k l h g = h
if-All P false k l h g = g

insert_by_name-All :
    (P : Field → Type 0) (f : Field) (l : List Field) → P f → All P l → All P (insert_by_name f l)
unfolding insert_by_name
insert_by_name-All P f [] x h = (x, tt)
insert_by_name-All P f (g ∷ l) x (y, h) =
    if-All P (bytes_less f.name g.name) (f ∷ g ∷ l) (g ∷ insert_by_name f l) (x, (y, h))
      (y, insert_by_name-All P f l x h)

by_name-All : (P : Field → Type 0) (l : List Field) → All P l → All P (by_name l)
unfolding by_name
by_name-All P [] h = tt
by_name-All P (f ∷ l) (x, h) = insert_by_name-All P f (by_name l) x (by_name-All P l h)

sum_sizes-IsNat : (l : List Field) (z : ℤ) → All IsSized l → sum_sizes l ≡ ok z → IsNat z
unfolding sum_sizes
sum_sizes-IsNat [] z h = λ e. let t : pos 0 ≡ z = cc in subst IsNat t tt
sum_sizes-IsNat (f ∷ l) z (x, h) = elim (Result-cases (size_bytes f)) [
  | inl (y, r) ↦ rw r (λ e. cc)
  | inr (a, r) ↦ elim (Result-cases (sum_sizes l)) [
    | inl (y, s) ↦ rw (r, s) (λ e. cc)
    | inr (b, s) ↦
        rw (r, s)
          (λ e.
            let t : a +ℤ b ≡ z = cc in
            subst IsNat t (+ℤ-IsNat a b (size_bytes-IsNat f a x r) (sum_sizes-IsNat l b h s)))
  ]
]

sum_sizes-ne-out_of_fuel : (l : List Field) → sum_sizes l ≢ err out_of_fuel
unfolding sum_sizes
sum_sizes-ne-out_of_fuel [] = ground arith
sum_sizes-ne-out_of_fuel (f ∷ l) =
    ground (arith, size_bytes-ne-out_of_fuel f, sum_sizes-ne-out_of_fuel l)

pub format_size_bytes-IsNat :
    (m : MessageFormat) (z : ℤ) → All IsSized m.fields → format_size_bytes m ≡ ok z → IsNat z
unfolding format_size_bytes
format_size_bytes-IsNat m z h e =
    sum_sizes-IsNat (by_name (field_map m.fields)) z
      (by_name-All IsSized (field_map m.fields) (field_map-All IsSized m.fields h)) e

pub format_size_bytes-ne-out_of_fuel : (m : MessageFormat) → format_size_bytes m ≢ err out_of_fuel
unfolding format_size_bytes
format_size_bytes-ne-out_of_fuel m = sum_sizes-ne-out_of_fuel (by_name (field_map m.fields))
