-- ===== src/Messages/Info/RoundTrip.antt =====
-- What `MessageInfo` and `ParameterDefault` serialize is what their constructors read.
use ulog_cpp.Prelude.{
  ℕ, ◌+◌, ◌-◌, ◌%◌, ◌^◌, ◌<◌, ◌≡◌, refl, Bool, true, false, not, [], ◌++◌, append-nil, append_assoc,
  ltb-false, arith, ◌==◌, if◌then◌else◌, Bytes, length, length-append,
}
use ulog_cpp.Exception.{ok, ◌>>=◌}
use ulog_cpp.Memory.{read_bytes, read_le, le_bytes, length-le_bytes}
use ulog_cpp.RawMessages.{
  ULogMessageType, header_msg_size, message_header, header_msg_size_at, exceeds_u16-false,
  read_le_behind, read_bytes_behind,
}
use ulog_cpp.Field.{Field, encode}
use ulog_cpp.Field.RoundTrip.{IsPrintable, parse_field-encode, encode_pos}
use ulog_cpp.Messages.Info.{
  MessageInfo, bool_byte, parse_info, serialize_multi, serialize_single, serialize_info,
  ParameterDefault, parse_parameter_default, serialize_parameter_default,
}

-- A field and a value that fit a message with `extra` bytes beside them.
pub record Fits (f : Field) (value : Bytes) (extra : ℕ) : Type 0 where
  pub field : IsPrintable f
  pub key : length (encode f) < 2 ^ 8
  pub size : length (encode f) + length value + extra < 2 ^ 16

module _ (f : Field) (value : Bytes) where
  single_lem :
      (type : ULogMessageType)
      → Fits f value 1
      → let m : MessageInfo = record {
        field = f;
        value = value;
        continued = false;
        is_multi = false;
      } in
        (serialize_single m type >>= λ bytes. parse_info bytes false) ≡ ok m
  unfolding serialize_single parse_info
  single_lem type v =
      let key = encode f in
      let size = length key + length value + 1 in
      let small : size % 2 ^ 16 ≡ size = omega (arith, v.size) in
      let k = read_le_behind size type [] 1 (length key) (key ++ value) 3 refl v.key in
      let body =
        read_bytes_behind size type (le_bytes 1 (length key)) key value 4 (length key)
          (omega (arith, length-le_bytes 1 (length key))) refl in
      let rest =
        read_bytes_behind size type (le_bytes 1 (length key) ++ key) value [] (4 + length key)
          (size - length key - 1)
          (omega (
            arith,
            length-append {0} (le_bytes 1 (length key)) key,
            length-le_bytes 1 (length key),
          ))
          (omega arith) in
      rw
        (
          exceeds_u16-false size v.size,
          ltb-false 255 (length key) (omega (arith, v.key)),
          small,
          header_msg_size_at size _ _ v.size,
          ltb-false size 2 (omega (arith, encode_pos f)),
          k,
          ltb-false (size - 1) (length key) (omega arith),
          body,
          parse_field-encode f v.field,
        )
        (rw (simp (append-nil, append_assoc) at rest))

-- The layout that multi messages and default parameters share: a byte, the length of the key, the
-- key and the value.
module _ (f : Field) (value : Bytes) (b : ℕ) (type : ULogMessageType) (v : Fits f value 2) where
  abbrev size_of : ℕ
  size_of = length (encode f) + length value + 2

  abbrev layout : Bytes
  layout =
      message_header size_of type
      ++ (le_bytes 1 b ++ (le_bytes 1 (length (encode f)) ++ (encode f ++ value)))

  abbrev head : Bytes
  head = le_bytes 1 b ++ le_bytes 1 (length (encode f))

  length-head : length head ≡ 2
  length-head = omega (
    arith,
    length-append {0} (le_bytes 1 b) (le_bytes 1 (length (encode f))),
    length-le_bytes 1 b,
    length-le_bytes 1 (length (encode f)),
  )

  layout_size : header_msg_size layout ≡ ok size_of
  layout_size = header_msg_size_at size_of type _ v.size

  layout_byte : b < 256 → read_le 1 layout 3 ≡ ok b
  layout_byte h = read_le_behind size_of type [] 1 b _ 3 refl h

  layout_key_len : read_le 1 layout 4 ≡ ok (length (encode f))
  layout_key_len =
      read_le_behind size_of type (le_bytes 1 b) 1 (length (encode f)) (encode f ++ value) 4
        (omega (arith, length-le_bytes 1 b)) v.key

  layout_key : read_bytes layout 5 (length (encode f)) ≡ ok (encode f)
  layout_key = simp append_assoc at (
      read_bytes_behind size_of type head (encode f) value 5 (length (encode f))
        (omega (arith, length-head)) refl)

  layout_value :
      read_bytes layout (5 + length (encode f)) (size_of - length (encode f) - 2) ≡ ok value
  layout_value =
      simp (append-nil, append_assoc) at
        (read_bytes_behind size_of type (head ++ encode f) value [] (5 + length (encode f))
          (size_of - length (encode f) - 2)
          (omega (arith, length-append {0} head (encode f), length-head)) (omega arith))

bool_byte-lt : (b : Bool) → bool_byte b < 256
bool_byte-lt true = omega arith
bool_byte-lt false = omega arith

bool_byte_back : (b : Bool) → not (bool_byte b == 0) ≡ b
bool_byte_back true = refl
bool_byte_back false = refl

module _ (f : Field) (value : Bytes) (v : Fits f value 2) where
  multi_lem :
      (continued : Bool)
      → let m : MessageInfo = record {
        field = f;
        value = value;
        continued = continued;
        is_multi = true;
      } in
        (serialize_multi m >>= λ bytes. parse_info bytes true) ≡ ok m
  unfolding serialize_multi parse_info
  multi_lem continued =
      let b = bool_byte continued in
      let key = length (encode f) in
      let type = ULogMessageType.info_multiple in
      let n = key + length value + 2 in
      let fits : n % 2 ^ 16 ≡ n = omega (arith, v.size) in
      let small : bool_byte continued < 256 = bool_byte-lt continued in
      rw (
        exceeds_u16-false n v.size,
        ltb-false 255 key (omega (arith, v.key)),
        fits,
        layout_size f value b type v,
        ltb-false n 3 (omega (arith, encode_pos f)),
        layout_byte f value b type v small,
        layout_key_len f value b type v,
        ltb-false (n - 2) key (omega arith),
        layout_key f value b type v,
        parse_field-encode f v.field,
        layout_value f value b type v,
        bool_byte_back continued,
      )

  parameter_default_lem :
      (default_types : ℕ)
      → default_types < 256
      → let m : ParameterDefault = record {
        field = f;
        value = value;
        default_types = default_types;
      } in
        (serialize_parameter_default m >>= parse_parameter_default) ≡ ok m
  unfolding serialize_parameter_default parse_parameter_default
  parameter_default_lem d small =
      let key = length (encode f) in
      let type = ULogMessageType.parameter_default in
      let n = key + length value + 2 in
      let fits : n % 2 ^ 16 ≡ n = omega (arith, v.size) in
      rw (
        exceeds_u16-false n v.size,
        ltb-false 255 key (omega (arith, v.key)),
        fits,
        layout_size f value d type v,
        ltb-false n 3 (omega (arith, encode_pos f)),
        layout_byte f value d type v small,
        layout_key_len f value d type v,
        ltb-false (n - 2) key (omega arith),
        layout_key f value d type v,
        parse_field-encode f v.field,
        layout_value f value d type v,
      )

-- An info message that fits, and is marked as continued only if it is a multi message.
pub record IsInfo (m : MessageInfo) : Type 0 where
  pub fits : Fits m.field m.value (if m.is_multi then 2 else 1)
  pub single : m.is_multi ≡ false → m.continued ≡ false

by_kind :
    (f : Field) (value : Bytes) (continued is_multi : Bool) (type : ULogMessageType)
    → let m : MessageInfo = record {
      field = f;
      value = value;
      continued = continued;
      is_multi = is_multi;
    } in
      IsInfo m → (serialize_info m type >>= λ bytes. parse_info bytes is_multi) ≡ ok m
unfolding serialize_info
by_kind f value continued true type v = multi_lem f value v.fits continued
by_kind f value continued false type v = rw (v.single refl) (single_lem f value type v.fits)

pub parse-serialize_info :
    (m : MessageInfo) (type : ULogMessageType)
    → IsInfo m
    → (serialize_info m type >>= λ bytes. parse_info bytes m.is_multi) ≡ ok m
parse-serialize_info m type v = by_kind m.field m.value m.continued m.is_multi type v

pub parse-serialize_parameter_default :
    (m : ParameterDefault)
    → Fits m.field m.value 2
    → m.default_types < 2 ^ 8
    → (serialize_parameter_default m >>= parse_parameter_default) ≡ ok m
parse-serialize_parameter_default m v h = parameter_default_lem m.field m.value v m.default_types h
