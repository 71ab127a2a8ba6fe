-- ===== src/Value/Elements.antt =====
-- The elements of an array: `operator[](size_t)` against `deserializeVector`.
use ulog_cpp.Prelude.{
  ℕ, zero, suc, ◌+◌, ◌≤◌, ◌<◌, ◌≡◌, ◌≢◌, refl, sym, ap, ◌∙◌, arith, false, Option, none, some, List,
  ◌∷◌, leb, leb→le, le→leb, leb-false, leb-false→lt, length, get_elem?, get_elem?-none,
  get_elem?-some, if◌then◌else◌, Bool-cases, inl, inr,
}
use ulog_cpp.Prelude.Int.{ℤ, pos, negsuc}
use ulog_cpp.Exception.{Result, ok, err, ◌>>=◌, bind-ok, access_exception, index_out_of_bounds}
use ulog_cpp.Field.{BasicType, is_nested}
use ulog_cpp.Value.{
  Value, Native, scalar, vector, sizeof, deserialize, elements_from, deserialize_vector,
  decode_single, decode_array, decode_string, as_native_type_variant, element, is_negative,
}
use ulog_cpp.Value.Decode.{decode_single_lem, as_native-element}

-- The first step of the loop, and what is left of it.
elements_from-step :
    (w : ℕ) (v : Value) (offset : ℤ) (i n : ℕ) (xs : List ℕ)
    → elements_from w v offset i (suc n) ≡ ok xs
    → (x : ℕ) × (ys : List ℕ) × (xs ≡ x ∷ ys)
      × (deserialize w v offset (pos i) ≡ ok x)
      × (elements_from w v offset (suc i) n ≡ ok ys)
unfolding elements_from
elements_from-step w v offset i n xs h =
    let (x, hx, h1) = bind-ok (deserialize w v offset (pos i)) _ xs h in
    let (ys, hys, h2) = bind-ok (elements_from w v offset (suc i) n) _ xs h1 in
    (x, ys, cc h2, hx, hys)

pub elements_from-length :
    (w : ℕ) (v : Value) (offset : ℤ) (i n : ℕ) (xs : List ℕ)
    → elements_from w v offset i n ≡ ok xs
    → length xs ≡ n
unfolding elements_from
elements_from-length w v offset i zero xs h = ground arith
elements_from-length w v offset i (suc n) xs h =
    let (x, ys, e, _, h1) = elements_from-step w v offset i n xs h in
    rw e (ap suc (elements_from-length w v offset (suc i) n ys h1))

-- Every number of the vector is what `deserialize` reads at its place.
pub elements_from-get :
    (w : ℕ) (v : Value) (offset : ℤ) (i n : ℕ) (xs : List ℕ) (k x j : ℕ)
    → elements_from w v offset i n ≡ ok xs
    → get_elem? xs k ≡ some x
    → j ≡ i + k
    → deserialize w v offset (pos j) ≡ ok x
unfolding elements_from
elements_from-get w v offset i zero xs k x j h g l = ground arith
elements_from-get w v offset i (suc n) xs zero x j h g l =
    let (y, ys, e, hy, _) = elements_from-step w v offset i n xs h in
    let at : some y ≡ some x = ap (λ z. get_elem? z zero) (sym e) ∙ g in
    let here : j ≡ i = omega (arith, l) in rw here (hy ∙ cc at)
elements_from-get w v offset i (suc n) xs (suc k) x j h g l =
    let (y, ys, e, _, h1) = elements_from-step w v offset i n xs h in
    elements_from-get w v offset (suc i) n ys k x j h1 (ap (λ z. get_elem? z (suc k)) (sym e) ∙ g)
      (omega (arith, l))

decode_single-ne :
    (v : Value) (index : ℤ) (t : BasicType) (xs : List ℕ) → decode_single v index ≢ ok (vector t xs)
unfolding decode_single
decode_single-ne v index t xs h = ground arith

decode_string-ne : (v : Value) (t : BasicType) (xs : List ℕ) → decode_string v ≢ ok (vector t xs)
unfolding decode_string
decode_string-ne v t xs h = ground arith

decode_array-vector :
    (v : Value) (t : BasicType) (xs : List ℕ)
    → decode_array v ≡ ok (vector t xs)
    → (v.field_ref.type.type ≡ t)
      × (is_nested v.field_ref.type.type ≡ false)
      × (deserialize_vector
            (sizeof v.field_ref.type.type)
            v
            v.field_ref.offset_in_message_bytes
            v.field_ref.array_length
          ≡ ok xs)
unfolding decode_array
decode_array-vector v t xs h = ground (arith, decode_string-ne v t xs)

-- Only an array of numbers gives a vector, and its numbers are those of `elements_from`.
as_native-vector :
    (v : Value) (t : BasicType) (xs : List ℕ)
    → as_native_type_variant v ≡ ok (vector t xs)
    → decode_array v ≡ ok (vector t xs)
unfolding as_native_type_variant
as_native-vector v t xs h =
    ground
      (arith, decode_single-ne v (if is_negative v.array_index then pos 0 else v.array_index) t xs)

deserialize_vector-count :
    (w : ℕ) (v : Value) (offset array_length : ℤ) (xs : List ℕ)
    → deserialize_vector w v offset array_length ≡ ok xs
    → (n : ℕ) × (array_length ≡ pos n) × (elements_from w v offset 0 n ≡ ok xs)
unfolding deserialize_vector
deserialize_vector-count w v offset (pos n) xs h = (n, refl, h)
deserialize_vector-count w v offset (negsuc n) xs h = absurd (cc h)

number_or_error : BasicType → Option ℕ → Result Native
number_or_error t none = err (access_exception index_out_of_bounds)
number_or_error t (some x) = ok (scalar t x)

-- What an element of the vector is, with an exception behind its end.
unfoldable pub element_of : BasicType → List ℕ → ℕ → Result Native
unfolding number_or_error
element_of t xs k = number_or_error t (get_elem? xs k)

-- The index of a value is not read by `deserialize`, which is given one.
deserialize-element :
    (w : ℕ) (v : Value) (offset index i : ℤ)
    → deserialize w (record v { array_index = i }) offset index ≡ deserialize w v offset index
unfolding deserialize
deserialize-element w v offset index i = refl

element-ok :
    (v : Value) (n k : ℕ)
    → v.field_ref.array_length ≡ pos n
    → k < n
    → element v k ≡ ok (record v { array_index = pos k })
unfolding element
element-ok v n k l h = simp (l, leb-false n k h)

element-err :
    (v : Value) (n k : ℕ)
    → v.field_ref.array_length ≡ pos n
    → n ≤ k
    → element v k ≡ err (access_exception index_out_of_bounds)
unfolding element
element-err v n k l h = simp (l, le→leb n k h)

-- If a value reads as a vector of numbers, `operator[]` and the read of the element give the number
-- of the vector at the index, and an index behind the end of the vector is refused.
pub element-vector :
    (v : Value) (t : BasicType) (xs : List ℕ) (k : ℕ)
    → as_native_type_variant v ≡ ok (vector t xs)
    → (element v k >>= as_native_type_variant) ≡ element_of t xs k
unfolding element_of number_or_error
element-vector v t xs k h =
    let (ht, hn, hv) = decode_array-vector v t xs (as_native-vector v t xs h) in
    let (n, hl, he) = deserialize_vector-count _ v _ _ xs hv in
    let len = elements_from-length _ v _ 0 n xs he in
    elim (Bool-cases (leb n k)) [
      | inl b ↦
          let none = get_elem?-none xs k (omega (arith, len, leb→le n k b)) in
          rw (element-err v n k hl (leb→le n k b), none) refl
      | inr b ↦
          let (x, some_x) = get_elem?-some xs k (omega (arith, len, leb-false→lt n k b)) in
          let read = elements_from-get _ v _ 0 n xs k x k he some_x (omega arith) in
          ap (λ r. r >>= as_native_type_variant) (element-ok v n k hl (leb-false→lt n k b))
          ∙ as_native-element (record v { array_index = pos k }) n k hl refl
          ∙ decode_single_lem (record v { array_index = pos k }) (pos k) hn
          ∙ rw
              (
                deserialize-element (sizeof v.field_ref.type.type) v
                    v.field_ref.offset_in_message_bytes (pos k) (pos k),
                read,
                some_x,
                ht,
              )
              refl
    ]
