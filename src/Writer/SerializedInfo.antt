-- ===== src/Writer/SerializedInfo.antt =====
-- The same for info messages, parameters and default parameters.
use ulog_cpp.Prelude.{
  ◌+◌, ◌%◌, ◌^◌, ◌<◌, ◌≡◌, refl, ap, arith, Bool, true, false, some, Bytes, length, length-append,
  ◌++◌, if◌then◌else◌, Bool-cases, inl, inr, ltb-false,
}
use ulog_cpp.Exception.{ok, ◌>>=◌}
use ulog_cpp.Memory.{le_bytes}
use mathlib.Core.Path.{subst}
use ulog_cpp.RawMessages.{ULogMessageType, message_header, exceeds_u16-false}
use ulog_cpp.Field.{encode}
use ulog_cpp.Messages.Info.{
  bool_byte, MessageInfo, ParameterDefault, serialize_info, parse_info, serialize_parameter_default,
  parse_parameter_default,
}
use ulog_cpp.Messages.Info.RoundTrip.{
  Fits, IsInfo, parse-serialize_info, parse-serialize_parameter_default,
}
use ulog_cpp.Handler.{Event, message_info, parameter, parameter_default}
use ulog_cpp.Reader.Dispatch.{data_event}
use ulog_cpp.Writer.Serialized.{read_event, back, written, Written}

pub parameter_default-Written :
    (m : ParameterDefault)
    → Fits m.field m.value 2
    → m.default_types < 2 ^ 8
    → Written (parameter_default m) (serialize_parameter_default m)
parameter_default-Written m v d =
    let key = encode m.field in
    let size = length key + length m.value + 2 in
    let type = ULogMessageType.parameter_default in
    let body = le_bytes 1 m.default_types ++ (le_bytes 1 (length key) ++ (key ++ m.value)) in
    let e : serialize_parameter_default m ≡ ok (message_header (size % 2 ^ 16) type ++ body) =
      unfold serialize_parameter_default in
      rw (exceeds_u16-false size v.size, ltb-false 255 (length key) (omega (arith, v.key))) refl in
    written (parameter_default m) size type body e
      (unfold le_bytes in omega (arith, length-append {0} key m.value)) (omega arith) v.size
      (unfold data_event message_header le_bytes in
        ap (λ r. some (r >>= λ m. ok (parameter_default m)))
          (back parse_parameter_default e (parse-serialize_parameter_default m v d)))

-- The key of an info message that fits has a length of one byte, and its size is that of `extra`
-- bytes with the key and the value.
info-Fits :
    (m : MessageInfo) (multi : Bool)
    → IsInfo m
    → m.is_multi ≡ multi
    → Fits m.field m.value (if multi then 2 else 1)
info-Fits m multi v h = subst (λ t. Fits m.field m.value (if t then 2 else 1)) h v.fits

info_back :
    (m : MessageInfo) (type : ULogMessageType) (multi : Bool)
    → IsInfo m
    → m.is_multi ≡ multi
    → (serialize_info m type >>= λ b. parse_info b multi) ≡ ok m
info_back m type multi v h =
    subst (λ t. (serialize_info m type >>= λ b. parse_info b t) ≡ ok m) h
      (parse-serialize_info m type v)

single_bytes :
    (m : MessageInfo) (type : ULogMessageType)
    → IsInfo m
    → m.is_multi ≡ false
    → let key = encode m.field in
      serialize_info m type
      ≡ ok (
          message_header ((length key + length m.value + 1) % 2 ^ 16) type
          ++ (le_bytes 1 (length key) ++ (key ++ m.value)))
unfolding serialize_info
single_bytes m type v h =
    let f = info-Fits m false v h in
    let key = encode m.field in
    rw
      (
        h,
        exceeds_u16-false (length key + length m.value + 1) f.size,
        ltb-false 255 (length key) (omega (arith, f.key)),
      )
      refl

single_info-Written :
    (m : MessageInfo) (type : ULogMessageType) (e : Event)
    → IsInfo m
    → m.is_multi ≡ false
    → ((body : Bytes)
        → let b =
            message_header ((length (encode m.field) + length m.value + 1) % 2 ^ 16) type ++ body in
          parse_info b false ≡ ok m → read_event e b ≡ some (ok e))
    → Written e (serialize_info m type)
single_info-Written m type e v h reads =
    let f = info-Fits m false v h in
    let key = encode m.field in
    let body = le_bytes 1 (length key) ++ (key ++ m.value) in
    let s = single_bytes m type v h in
    written e (length key + length m.value + 1) type body s
      (unfold le_bytes in omega (arith, length-append {0} key m.value)) (omega arith) f.size
      (reads body (back (λ b. parse_info b false) s (info_back m type false v h)))

multi_info-Written :
    (m : MessageInfo)
    → IsInfo m
    → m.is_multi ≡ true
    → Written (message_info m) (serialize_info m ULogMessageType.info)
multi_info-Written m v h =
    let f = info-Fits m true v h in
    let key = encode m.field in
    let type = ULogMessageType.info_multiple in
    let size = length key + length m.value + 2 in
    let body =
      le_bytes 1 (bool_byte m.continued) ++ (le_bytes 1 (length key) ++ (key ++ m.value)) in
    let s : serialize_info m ULogMessageType.info
        ≡ ok (message_header (size % 2 ^ 16) type ++ body) =
      unfold serialize_info in
      rw (h, exceeds_u16-false size f.size, ltb-false 255 (length key) (omega (arith, f.key)))
        refl in
    written (message_info m) size type body s
      (unfold le_bytes in omega (arith, length-append {0} key m.value)) (omega arith) f.size
      (unfold data_event message_header le_bytes in
        ap (λ r. some (r >>= λ m. ok (message_info m)))
          (back (λ b. parse_info b true) s (info_back m ULogMessageType.info true v h)))

pub message_info-Written :
    (m : MessageInfo) → IsInfo m → Written (message_info m) (serialize_info m ULogMessageType.info)
message_info-Written m v = elim (Bool-cases m.is_multi) [
  | inl h ↦ multi_info-Written m v h
  | inr h ↦ single_info-Written m ULogMessageType.info (message_info m) v h (λ body p.
      unfold data_event message_header le_bytes in
      ap (λ r. some (r >>= λ m. ok (message_info m))) p)
]

pub parameter-Written :
    (m : MessageInfo)
    → IsInfo m
    → m.is_multi ≡ false
    → Written (parameter m) (serialize_info m ULogMessageType.parameter)
parameter-Written m v h =
    single_info-Written m ULogMessageType.parameter (parameter m) v h (λ body p.
      unfold data_event message_header le_bytes in ap (λ r. some (r >>= λ m. ok (parameter m))) p)
