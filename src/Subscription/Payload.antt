-- ===== src/Subscription/Payload.antt =====
-- From the resolution of a format to the values that are read of a sample.
use ulog_cpp.Prelude.{
  ℕ, ◌+◌, ◌^◌, ◌<◌, ◌≡◌, refl, sym, ap, ◌∙◌, arith, false, ◌||◌, some, List, [], ◌∷◌, ◌++◌,
  append-nil, append_assoc, map, All, Bytes, bytes_eq, bytes_eq_refl, length, length-append,
}
use ulog_cpp.Prelude.Int.{pos}
use ulog_cpp.Exception.{ok, ◌>>=◌}
use ulog_cpp.Memory.{le_bytes, length-le_bytes}
use ulog_cpp.Field.{Field, minus_one}
use ulog_cpp.Messages.Format.{MessageFormat, contains_name, find_field, field}
use ulog_cpp.Messages.Logged.{Data}
use ulog_cpp.Messages.Equality.{AreNew, field_map-AreNew}
use ulog_cpp.Formats.{Formats, set_offset, find_message_format, resolve_format}
use ulog_cpp.Formats.Layout.{IsPlain, byte_size, layout, resolve_format-layout, placed_resolved}
use ulog_cpp.Handler.{returned}
use ulog_cpp.Value.{scalar, sizeof, make_value, as_native_type_variant}
use ulog_cpp.Value.Decode.{deserialize_at, as_native-single, decode_single_lem}
use ulog_cpp.Subscription.{TypedDataView, at_field, at_name}

-- A field that is no array and is not resolved, with the number that a sample has for it.
abbrev pub Cell : Type 0
Cell = Field × ℕ

pub record IsCell (c : Cell) : Type 0 where
  pub plain : IsPlain c.0
  pub single : c.0.array_length ≡ minus_one
  pub size : c.0.type.size ≡ pos (sizeof c.0.type.type)
  pub fits : c.1 < 256 ^ sizeof c.0.type.type

abbrev pub fields_of : List Cell → List Field
fields_of = map (λ c. c.0)

-- The bytes of the numbers in the order of the fields.
abbrev pub payload_of : List Cell → Bytes
payload_of [] = []
payload_of (c ∷ cs) = le_bytes (sizeof c.0.type.type) c.1 ++ payload_of cs

byte_size-IsCell : (c : Cell) → IsCell c → byte_size c.0 ≡ sizeof c.0.type.type
byte_size-IsCell c h = rw (h.size, h.single) (omega arith)

AreNew-contains_name :
    (kept before after : List Field) (f : Field)
    → AreNew kept (before ++ f ∷ after)
    → contains_name f.name (kept ++ before) ≡ false
AreNew-contains_name kept [] after f (n, _) = rw (append-nil kept) n
AreNew-contains_name kept (g ∷ before) after f (_, new) =
    rw⁻¹ (append_assoc kept (g ∷ []) before)
      (AreNew-contains_name (kept ++ g ∷ []) before after f new)

fields_of-append : (cs ds : List Cell) → fields_of (cs ++ ds) ≡ fields_of cs ++ fields_of ds
fields_of-append [] ds = refl
fields_of-append (c ∷ cs) ds = ap (◌∷◌ c.0) (fields_of-append cs ds)

payload_of-append : (cs ds : List Cell) → payload_of (cs ++ ds) ≡ payload_of cs ++ payload_of ds
payload_of-append [] ds = refl
payload_of-append (c ∷ cs) ds =
    ap (λ r. le_bytes (sizeof c.0.type.type) c.1 ++ r) (payload_of-append cs ds)
    ∙ sym (append_assoc (le_bytes (sizeof c.0.type.type) c.1) (payload_of cs) (payload_of ds))

-- A field whose name is not met before is found where it was placed.
found_placed :
    (before after : List Cell) (c : Cell) (offset : ℕ)
    → All IsCell before
    → contains_name c.0.name (fields_of before) ≡ false
    → find_field c.0.name (layout offset (fields_of (before ++ c ∷ after)))
      ≡ ok (set_offset (pos (offset + length (payload_of before))) c.0)
unfolding find_field contains_name
found_placed [] after c offset h new =
    let place : offset ≡ offset + 0 = omega arith in
    rw (bytes_eq_refl c.0.name) (ap (λ o. ok (set_offset (pos o) c.0)) place)
found_placed (d ∷ before) after c offset (h, hs) new =
    let differ : bytes_eq d.0.name c.0.name ≡ false = ground (arith, new) in
    let rest : contains_name c.0.name (fields_of before) ≡ false = ground (arith, new) in
    let place : offset + byte_size d.0 + length (payload_of before)
        ≡ offset + length (payload_of (d ∷ before)) =
      omega (
        arith,
        byte_size-IsCell d h,
        length-append {0} (le_bytes (sizeof d.0.type.type) d.1) (payload_of before),
        length-le_bytes (sizeof d.0.type.type) d.1,
      ) in
    rw differ (
      found_placed before after c (offset + byte_size d.0) hs rest
      ∙ ap (λ o. ok (set_offset (pos o) c.0)) place)

All-split :
    (P : Cell → Type 0) (before after : List Cell) (c : Cell)
    → All P (before ++ c ∷ after)
    → All P before × P c
All-split P [] after c (h, hs) = (tt, h)
All-split P (b ∷ before) after c (h, hs) = let (x, y) = All-split P before after c hs in ((h, x), y)

-- The number of a field stands at its place in the payload.
read_cell :
    (c : Cell) (pre post : Bytes)
    → IsCell c
    → as_native_type_variant (
        make_value
          (set_offset (pos (length pre)) c.0)
          (pre ++ (le_bytes (sizeof c.0.type.type) c.1 ++ post)))
      ≡ ok (scalar c.0.type.type c.1)
unfolding make_value
read_cell c pre post h =
    let v =
      make_value (set_offset (pos (length pre)) c.0)
        (pre ++ (le_bytes (sizeof c.0.type.type) c.1 ++ post)) in
    let read =
      deserialize_at (sizeof c.0.type.type) 0 (length pre) 0 c.1 pre post v (pos (length pre))
        (pos 0) refl refl refl refl (omega arith) h.fits in
    as_native-single v h.single refl ∙ decode_single_lem v (pos 0) h.plain.basic ∙ rw read refl

contains_name-append :
    (n : Bytes) (fs : List Field) (f : Field)
    → contains_name n (fs ++ f ∷ []) ≡ (contains_name n fs || bytes_eq f.name n)
unfolding contains_name
contains_name-append n [] f = ground arith
contains_name-append n (g ∷ fs) f = ground (arith, contains_name-append n fs f)

-- The placed fields have the names of the fields.
layout-AreNew :
    (kept placed fs : List Field) (offset : ℕ)
    → ((n : Bytes) → contains_name n placed ≡ contains_name n kept)
    → AreNew kept fs
    → AreNew placed (layout offset fs)
layout-AreNew kept placed [] offset same h = tt
layout-AreNew kept placed (f ∷ fs) offset same (h, hs) = (
  same f.name ∙ h,
  layout-AreNew (kept ++ f ∷ []) (placed ++ set_offset (pos offset) f ∷ []) fs
      (offset + byte_size f)
      (λ n.
        contains_name-append n placed (set_offset (pos offset) f)
        ∙ ap (λ b. b || bytes_eq f.name n) (same n)
        ∙ sym (contains_name-append n kept f))
      hs,
)

cells_plain : (cs : List Cell) → All IsCell cs → All IsPlain (fields_of cs)
cells_plain [] h = tt
cells_plain (c ∷ cs) (h, hs) = (h.plain, cells_plain cs hs)

-- The view on a sample by the placed format.
abbrev pub sample_view : Bytes → ℕ → List Cell → Bytes → TypedDataView
sample_view name msg_id cs padding = record {
  data_ref = record { msg_id = msg_id; payload = payload_of cs ++ padding };
  message_format_ref = record { name = name; fields = layout 0 (fields_of cs) };
}

at_name-cell :
    (name padding : Bytes) (msg_id : ℕ) (before after : List Cell) (c : Cell)
    → All IsCell (before ++ c ∷ after)
    → AreNew [] (fields_of (before ++ c ∷ after))
    → (at_name (sample_view name msg_id (before ++ c ∷ after) padding) c.0.name
        >>= as_native_type_variant)
      ≡ ok (scalar c.0.type.type c.1)
unfolding at_name at_field field
at_name-cell name padding msg_id before after c h new =
    let (hb, hc) = All-split IsCell before after c h in
    let unmet : contains_name c.0.name (fields_of before) ≡ false =
      AreNew-contains_name [] (fields_of before) (fields_of after) c.0
        (rw⁻¹ (fields_of-append before (c ∷ after)) new) in
    let whole =
      field_map-AreNew (layout 0 (fields_of (before ++ c ∷ after)))
        (layout-AreNew [] [] (fields_of (before ++ c ∷ after)) 0 (λ n. refl) new) in
    let found = found_placed before after c 0 hb unmet in
    let start : 0 + length (payload_of before) ≡ length (payload_of before) = omega arith in
    let bytes : payload_of (before ++ c ∷ after) ++ padding
        ≡ payload_of before
          ++ (le_bytes (sizeof c.0.type.type) c.1 ++ (payload_of after ++ padding)) =
      ap (λ r. r ++ padding) (payload_of-append before (c ∷ after))
      ∙ append_assoc (payload_of before) (payload_of (c ∷ after)) padding
      ∙ ap (λ r. payload_of before ++ r)
          (append_assoc (le_bytes (sizeof c.0.type.type) c.1) (payload_of after) padding) in
    let read = read_cell c (payload_of before) (payload_of after ++ padding) hc in
    rw (whole, found, start)
      (rw (placed_resolved c.0 (length (payload_of before)) hc.plain, bytes) read)

-- A format whose fields are no arrays, of basic types and with different names, none of them
-- resolved: it is resolved, and the view by the resolved format on a sample that holds numbers for
-- the fields in order reads each of them by the name of its field.
pub resolve_format-at_name :
    (name padding : Bytes) (msg_id : ℕ) (before after : List Cell) (c : Cell) (fs : Formats)
    → let cs = before ++ c ∷ after in
      find_message_format name fs ≡ some (record { name = name; fields = fields_of cs })
      → All IsCell cs
      → AreNew [] (fields_of cs)
      → let sample : Data = record { msg_id = msg_id; payload = payload_of cs ++ padding } in
        ((resolve_format name fs).1 ≡ returned)
        × (m : MessageFormat) × (find_message_format name (resolve_format name fs).0 ≡ some m)
        × ((at_name (record { data_ref = sample; message_format_ref = m }) c.0.name
              >>= as_native_type_variant)
            ≡ ok (scalar c.0.type.type c.1))
resolve_format-at_name name padding msg_id before after c fs f h new =
    let placed = resolve_format-layout name fs _ f (cells_plain (before ++ c ∷ after) h) in
    (placed.returns, _, placed.found, at_name-cell name padding msg_id before after c h new)
