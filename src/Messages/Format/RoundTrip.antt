-- ===== src/Messages/Format/RoundTrip.antt =====
-- What `MessageFormat::serialize` writes is what its constructor reads.
use ulog_cpp.Prelude.{
  ℕ, zero, suc, ◌%◌, ◌^◌, ◌≤◌, ◌<◌, ◌≡◌, refl, List, [], ◌∷◌, ◌++◌, append-nil, arith, Bytes, All,
  length, length-append,
}
use ulog_cpp.Exception.{ok, ◌>>=◌}
use ulog_cpp.RawMessages.{ULogMessageType, header_msg_size_at, exceeds_u16-false, read_bytes_behind}
use ulog_cpp.Text.Find.{Lacks, find-append, take_before, drop_behind}
use ulog_cpp.Field.{Field, parse_field, encode}
use ulog_cpp.Field.RoundTrip.{IsPrintable, parse_field-encode, encode_pos}
use ulog_cpp.Messages.Format.{
  MessageFormat, parse_fields, parse_format_str, parse_format, encode_fields, format_str,
  serialize_format,
}

-- A field that is printed with no semicolon.
pub record IsFormatField (f : Field) : Type 0 where
  pub printable : IsPrintable f
  pub no_semicolon : Lacks b';' (encode f)

-- A text that starts with a field's encoding and a semicolon gives that field first.
parse_fields_step :
    (fuel : ℕ) (key rest : Bytes) (f : Field) (fs : List Field)
    → 1 ≤ length key
    → Lacks b';' key
    → parse_field key ≡ ok f
    → parse_fields fuel rest ≡ ok fs
    → parse_fields (suc fuel) (key ++ (b';' ∷ rest)) ≡ ok (f ∷ fs)
unfolding parse_fields
parse_fields_step fuel [] rest f fs pos h e r = absurd (omega arith)
parse_fields_step fuel (c ∷ key) rest f fs pos h e r =
    rw (find-append b';' (c ∷ key) rest h, parse_fields)
      (rw (take_before (c ∷ key) b';' rest, e, drop_behind (c ∷ key) b';' rest, r))

parse_fields-encode_fields :
    (fs : List Field) (fuel : ℕ)
    → All IsFormatField fs
    → length (encode_fields fs) ≤ fuel
    → parse_fields fuel (encode_fields fs) ≡ ok fs
unfolding encode_fields
parse_fields-encode_fields [] zero v h = unfold parse_fields in refl
parse_fields-encode_fields [] (suc fuel) v h = unfold parse_fields in refl
parse_fields-encode_fields (f ∷ fs) zero v h =
    absurd (omega (arith, length-append {0} (encode f) (b';' ∷ encode_fields fs)))
parse_fields-encode_fields (f ∷ fs) (suc fuel) (v, vs) h =
    parse_fields_step fuel (encode f) (encode_fields fs) f fs (encode_pos f) v.no_semicolon
      (parse_field-encode f v.printable)
      (parse_fields-encode_fields fs fuel vs
        (omega (arith, length-append {0} (encode f) (b';' ∷ encode_fields fs))))

parse_format_str-format_str :
    (m : MessageFormat)
    → Lacks b':' m.name
    → All IsFormatField m.fields
    → parse_format_str (format_str m) ≡ ok m
unfolding parse_format_str format_str
parse_format_str-format_str m h vs =
    let rest = encode_fields m.fields in
    rw (
      find-append b':' m.name rest h,
      take_before m.name b':' rest,
      drop_behind m.name b':' rest,
      parse_fields-encode_fields m.fields (length rest) vs (omega arith),
    )

-- A format whose name has no colon, whose fields are printed with no semicolon, and whose text fits.
pub record IsFormat (m : MessageFormat) : Type 0 where
  pub name : Lacks b':' m.name
  pub fields : All IsFormatField m.fields
  pub fits : length (format_str m) < 2 ^ 16

pub parse-serialize_format :
    (m : MessageFormat) → IsFormat m → (serialize_format m >>= parse_format) ≡ ok m
unfolding serialize_format parse_format
parse-serialize_format m v =
    let str = format_str m in
    let n = length str in
    let small : n % 2 ^ 16 ≡ n = omega (arith, v.fits) in
    let body = read_bytes_behind n ULogMessageType.format [] str [] 3 n refl refl in
    rw (exceeds_u16-false n v.fits, small, header_msg_size_at n _ _ v.fits)
      (rw (rw append-nil at body) (parse_format_str-format_str m v.name v.fields))
