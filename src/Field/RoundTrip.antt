-- ===== src/Field/RoundTrip.antt =====
-- The parser of `Field` reads back what `encode` prints.
use ulog_cpp.Prelude.{
  ℕ, ◌-◌, ◌^◌, ◌≤◌, ◌<◌, ◌≡◌, refl, Option, none, some, List, [], ◌∷◌, ◌++◌, append_assoc, arith,
  Bytes, bytes_eq_iff, length, length-append, get_elem?,
}
use ulog_cpp.Prelude.Int.{ℤ, pos, negsuc}
use ulog_cpp.Exception.{ok}
use ulog_cpp.Text.Find.{Lacks, find-append, find-none, take_before, drop_behind}
use ulog_cpp.Text.Decimal.{stoi, to_string, stoi-to_string, IsDigits, to_string-IsDigits}
use ulog_cpp.Field.{
  TypeAttributes, Field, minus_one, basic_types, find_type, find_basic_type, or_nested,
  type_of_name, make_field, parse_array, parse_key_array, parse_field, encode,
}

find_type-name :
    (name : Bytes) (ts : List TypeAttributes) {t : TypeAttributes}
    → find_type name ts ≡ some t
    → t.name ≡ name
unfolding find_type
find_type-name name [] h = cc
find_type-name name (u ∷ ts) {t} h =
    ground (arith, bytes_eq_iff u.name name, find_type-name name ts {t = t})

or_nested-name :
    (name : Bytes) (o : Option TypeAttributes)
    → ((t : TypeAttributes) → o ≡ some t → t.name ≡ name)
    → (or_nested name o).name ≡ name
unfolding or_nested
or_nested-name name (some t) h = h t refl
or_nested-name name none h = refl

-- The type keeps the name that it was looked up by.
pub type_of_name-name : (name : Bytes) → (type_of_name name).name ≡ name
unfolding type_of_name find_basic_type
type_of_name-name name =
    or_nested-name name (find_basic_type name) (λ t e. find_type-name name basic_types e)

get_elem?_last : (s : Bytes) (c : ℕ) → get_elem? (s ++ c ∷ []) (length s) ≡ some c
get_elem?_last [] c = refl
get_elem?_last (b ∷ s) c = get_elem?_last s c

parse_array_lem :
    (t ds : Bytes) (n : ℕ)
    → stoi (ds ++ b']' ∷ []) ≡ ok (pos n)
    → parse_array (t ++ (b'[' ∷ (ds ++ b']' ∷ []))) (length t) ≡ ok (t, pos n)
unfolding parse_array
parse_array_lem t ds n h =
    let closed = ds ++ b']' ∷ [] in
    let k : length (t ++ (b'[' ∷ closed)) - 1 ≡ length (t ++ (b'[' ∷ ds)) = omega (
      arith,
      length-append {0} t (b'[' ∷ closed),
      length-append {0} t (b'[' ∷ ds),
      length-append {0} ds (b']' ∷ []),
    ) in
    let last : get_elem? (t ++ (b'[' ∷ closed)) (length (t ++ (b'[' ∷ ds))) ≡ some b']' =
      rw (← append_assoc t (b'[' ∷ ds) (b']' ∷ [])) (get_elem?_last (t ++ (b'[' ∷ ds)) b']') in
    rw (k, last, drop_behind t b'[' closed, h, take_before t b'[' closed)

-- '<type>' with no bracket is no array.
parse_key_array_plain : (t : Bytes) → Lacks b'[' t → parse_key_array t ≡ ok (t, minus_one)
unfolding parse_key_array
parse_key_array_plain t h = rw (find-none b'[' t h, parse_key_array)

parse_key_array_sized :
    (t : Bytes) (n : ℕ)
    → Lacks b'[' t
    → n < 2 ^ 31
    → parse_key_array (t ++ (b'[' ∷ (to_string n ++ b']' ∷ []))) ≡ ok (t, pos n)
unfolding parse_key_array
parse_key_array_sized t n h lt =
    rw (find-append b'[' t (to_string n ++ b']' ∷ []) h, parse_key_array)
      (parse_array_lem t (to_string n) n (stoi-to_string n b']' [] lt refl))

-- A text with a space: the key is read from what stands before it, and the rest is the name.
parse_field_split :
    (key name t : Bytes) (n : ℤ)
    → Lacks b' ' key
    → parse_key_array key ≡ ok (t, n)
    → parse_field (key ++ (b' ' ∷ name)) ≡ ok (make_field t name n)
unfolding parse_field
parse_field_split key name t n h e =
    rw (find-append b' ' key name h, parse_field)
      (rw (take_before key b' ' name, e, drop_behind key b' ' name))

Lacks-append : (c : ℕ) (a b : Bytes) → Lacks c a → Lacks c b → Lacks c (a ++ b)
Lacks-append c [] b h k = k
Lacks-append c (x ∷ a) b (hx, h) k = (hx, Lacks-append c a b h k)

IsDigits-Lacks : (c : ℕ) (ds : Bytes) → c < b'0' → IsDigits ds → Lacks c ds
IsDigits-Lacks c [] lt h = tt
IsDigits-Lacks c (d ∷ ds) lt (hd, h) = (omega arith, IsDigits-Lacks c ds lt h)

-- An array length that a field can be printed with: none, or an `int` that is not negative.
abbrev pub IsPrintableLength : ℤ → Type 0
IsPrintableLength (pos n) = n < 2 ^ 31
IsPrintableLength (negsuc n) = n ≡ 0

-- A type's name that the parser can tell from what follows it.
pub record IsTypeName (t : Bytes) : Type 0 where
  pub no_space : Lacks b' ' t
  pub no_bracket : Lacks b'[' t

-- What stands before the space of the encoding.
key_of : Bytes → ℤ → Bytes
key_of t (pos n) = t ++ (b'[' ∷ (to_string n ++ b']' ∷ []))
key_of t (negsuc n) = t

encode-key_of :
    (t name : Bytes) (n : ℤ) → encode (make_field t name n) ≡ key_of t n ++ (b' ' ∷ name)
unfolding encode make_field key_of
encode-key_of t name (pos n) = simp (type_of_name-name, append_assoc)
encode-key_of t name (negsuc n) = rw type_of_name-name

key_of-Lacks : (t : Bytes) (n : ℤ) → IsTypeName t → Lacks b' ' (key_of t n)
unfolding key_of
key_of-Lacks t (negsuc n) h = h.no_space
key_of-Lacks t (pos n) h = Lacks-append b' ' t _ h.no_space (
  omega arith,
  Lacks-append b' ' (to_string n) (b']' ∷ [])
      (IsDigits-Lacks b' ' (to_string n) (omega arith) (to_string-IsDigits n)) (omega arith),
)

parse_key_array-key_of :
    (t : Bytes) (n : ℤ)
    → IsTypeName t
    → IsPrintableLength n
    → parse_key_array (key_of t n) ≡ ok (t, n)
unfolding key_of
parse_key_array-key_of t (pos n) h lt = parse_key_array_sized t n h.no_bracket lt
parse_key_array-key_of t (negsuc n) h e = rw e (parse_key_array_plain t h.no_bracket)

parse_field-encode-make_field :
    (t name : Bytes) (n : ℤ)
    → IsTypeName t
    → IsPrintableLength n
    → parse_field (encode (make_field t name n)) ≡ ok (make_field t name n)
parse_field-encode-make_field t name n h p =
    rw encode-key_of (
      parse_field_split (key_of t n) name t n (key_of-Lacks t n h) (parse_key_array-key_of t n h p))

-- A field as the constructor makes it, from a type's name with no space and no bracket, any name,
-- and an array length of -1 or from 0 to 2^31 - 1.
pub record IsPrintable (f : Field) : Type 0 where
  pub type_str : Bytes
  pub name_str : Bytes
  pub length : ℤ
  pub made : f ≡ make_field type_str name_str length
  pub type_name : IsTypeName type_str
  pub printable : IsPrintableLength length

-- A field as its constructor makes it from a type's name with no space and no bracket, any name,
-- and an array length of -1 or from 0 to 2^31 - 1, is parsed as it was from its encoding.
pub parse_field-encode : (f : Field) → IsPrintable f → parse_field (encode f) ≡ ok f
parse_field-encode f p =
    rw p.made (parse_field-encode-make_field p.type_str p.name_str p.length p.type_name p.printable)

-- An encoding holds at least the space.
pub encode_pos : (f : Field) → 1 ≤ length (encode f)
unfolding encode
encode_pos f = elim f.array_length as (λ n. 1 ≤ length (encode (record f { array_length = n }))) [
  | pos n ↦
      omega (arith, length-append {0} f.type.name (b'[' ∷ (to_string n ++ (b']' ∷ b' ' ∷ f.name))))
  | negsuc n ↦ omega (arith, length-append {0} f.type.name (b' ' ∷ f.name))
]
