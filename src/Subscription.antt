-- ===== src/Subscription.antt =====
-- subscription.hpp: `TypedDataView`, `SubscriptionIterator` and `Subscription`, whose members stand
-- with the container that holds them.
pub mod Access
pub mod Iteration
pub mod Backwards
pub mod Payload
use ulog_cpp.Prelude.{
  ℕ, zero, suc, ◌+◌, Bool, true, false, not, ◌&&◌, ◌||◌, Option, none, some, List, [], ◌∷◌, leb,
  ltb, ◌==◌, length, get_elem?, if◌then◌else◌, Bytes, bytes_eq,
}
use ulog_cpp.Prelude.Int.{ℤ, pos, negsuc, ◌+ℤ◌, ◌-ℤ◌, ltb_ℤ}
use ulog_cpp.Exception.{
  Result, ok, err, ◌>>=◌, ◌>>◌, throw_if, parsing_exception, access_exception, fault,
  field_not_resolved, sample_out_of_range,
}
use ulog_cpp.Field.{Field, definition_resolved, eq_ℤ}
use ulog_cpp.Messages.Format.{MessageFormat, field, field_map, field_names}
use ulog_cpp.Messages.Logged.{Data}
use ulog_cpp.Value.{Value, make_value}
use ulog_cpp.DataContainer.State.{Subscription}

-- The two references are to what the view holds here.
pub record TypedDataView : Type 0 where
  pub data_ref : Data
  pub message_format_ref : MessageFormat

-- `at(const Field& field)`, and `operator[]`.
unfoldable pub at_field : TypedDataView → Field → Result Value
at_field v f = do
  throw_if (not (definition_resolved f)) (parsing_exception field_not_resolved)
  ok (make_value f v.data_ref.payload)

-- `at(const std::string& field_name)`, and `operator[]`.
unfoldable pub at_name : TypedDataView → Bytes → Result Value
at_name v name = do f ← field v.message_format_ref name; at_field v f

-- `find` in a map of fields.
unfoldable pub find_in_map : Bytes → List Field → Option Field
find_in_map name [] = none
find_in_map name (f ∷ fs) =
    let rest = find_in_map name fs in if bytes_eq f.name name then some f else rest

abbrev is_resolved : Option Field → Bool
is_resolved none = false
is_resolved (some f) = definition_resolved f

-- `hasField`.
unfoldable pub has_field : TypedDataView → Bytes → Bool
has_field v name = is_resolved (find_in_map name (field_map v.message_format_ref.fields))

-- An iterator is the place of a sample in the vector, or the end of the vector; what it points to is
-- read at that place.
pub record SubscriptionIterator : Type 0 where
  pub samples : List Data
  pub place : ℕ
  pub message_format : MessageFormat

-- The end of the vector has no sample.
abbrev pub sample_at : List Data → ℕ → Result Data
sample_at ds n = elim (get_elem? ds n) [ none ↦ err fault | some d ↦ ok d ]

-- `operator*`.
unfoldable pub deref : SubscriptionIterator → Result TypedDataView
deref it = do
  d ← sample_at it.samples it.place
  ok (record { data_ref = d; message_format_ref = it.message_format })

-- The iterator of the vector at a place. There is none before the first sample and behind the end,
-- where a step of the vector's iterator is undefined.
abbrev pub at_place : SubscriptionIterator → ℤ → Result SubscriptionIterator
at_place it (negsuc _) = err fault
at_place it (pos n) = if leb n (length it.samples) then ok (record it { place = n }) else err fault

-- `operator+=`, and `operator+`.
unfoldable pub advance : SubscriptionIterator → ℤ → Result SubscriptionIterator
advance it n = at_place it (pos it.place +ℤ n)

-- `operator-=`, and `operator-`.
unfoldable pub retreat : SubscriptionIterator → ℤ → Result SubscriptionIterator
retreat it n = at_place it (pos it.place -ℤ n)

-- `operator++`.
unfoldable pub increment : SubscriptionIterator → Result SubscriptionIterator
increment it = at_place it (pos it.place +ℤ pos 1)

-- `operator--`.
unfoldable pub decrement : SubscriptionIterator → Result SubscriptionIterator
decrement it = at_place it (pos it.place -ℤ pos 1)

-- `operator-` of two iterators.
unfoldable pub difference : SubscriptionIterator → SubscriptionIterator → ℤ
difference it other = pos it.place -ℤ pos other.place

-- `operator[]`.
unfoldable pub subscript : SubscriptionIterator → ℤ → Result TypedDataView
subscript it n = advance it n >>= deref

-- The comparisons, of iterators into one vector.
unfoldable pub same_place : SubscriptionIterator → SubscriptionIterator → Bool
same_place it other = it.place == other.place

unfoldable pub is_before : SubscriptionIterator → SubscriptionIterator → Bool
is_before it other = ltb it.place other.place

unfoldable pub is_at_most : SubscriptionIterator → SubscriptionIterator → Bool
is_at_most it other = leb it.place other.place

-- The methods of `Subscription`, with the format that its pointer leads to.
module _ (format : MessageFormat) where
  unfoldable pub begin : Subscription → SubscriptionIterator
  begin s = record { samples = s.samples; place = 0; message_format = format }

  unfoldable pub end : Subscription → SubscriptionIterator
  end s = record { samples = s.samples; place = length s.samples; message_format = format }

  -- `size`.
  abbrev pub sample_count : Subscription → ℕ
  sample_count s = length s.samples

  -- `at`, and `operator[]`.
  unfoldable pub at_index : Subscription → ℕ → Result TypedDataView
  at_index s n = do
    throw_if (leb (sample_count s) n) (access_exception sample_out_of_range)
    subscript (begin s) (pos n)
