-- ===== src/Messages/Logged/RoundTrip.antt =====
-- What `serialize` of the logged message classes writes is what their constructors read.
use ulog_cpp.Prelude.{
  ◌+◌, ◌-◌, ◌%◌, ◌^◌, ◌≤◌, ◌<◌, ◌≡◌, refl, [], ◌++◌, append-nil, ltb-false, arith, bytes_eq, length,
  length-append, append_assoc,
}
use ulog_cpp.Exception.{ok, ◌>>=◌}
use ulog_cpp.Memory.{read_bytes, read_le, le_value, le_bytes, length-le_bytes}
use ulog_cpp.RawMessages.{
  ULogMessageType, header_msg_size, message_header, header_msg_size_at, exceeds_u16-false,
  read_le_behind, read_bytes_behind,
}
use ulog_cpp.Messages.Logged.{
  AddLoggedMessage, Data, Dropout, parse_add_logged, serialize_add_logged, parse_data,
  serialize_data, parse_dropout, serialize_dropout, parse_sync, serialize_sync,
}

-- A `Data` message that has a 16-bit id and 1 to 65533 bytes.
pub record IsData (m : Data) : Type 0 where
  pub id : m.msg_id < 2 ^ 16
  pub not_empty : 1 ≤ length m.payload
  pub fits : length m.payload + 2 < 2 ^ 16

-- A data message with a 16-bit id and 1 to 65533 bytes is serialized, and is parsed as it was.
pub parse-serialize_data : (m : Data) → IsData m → (serialize_data m >>= parse_data) ≡ ok m
unfolding serialize_data parse_data
parse-serialize_data m v =
    let size = length m.payload + 2 in
    let small : size % 2 ^ 16 ≡ size = omega arith in
    let id = read_le_behind size ULogMessageType.data_msg [] 2 m.msg_id m.payload 3 refl v.id in
    let body =
      read_bytes_behind size ULogMessageType.data_msg (le_bytes 2 m.msg_id) m.payload [] 5
        (size - 2) (omega (arith, length-le_bytes 2 m.msg_id)) (omega arith) in
    rw
      (
        exceeds_u16-false size v.fits,
        small,
        header_msg_size_at size _ _ v.fits,
        ltb-false size 3 (omega arith),
        id,
      )
      (rw (rw append-nil at body))

-- A subscription that has an 8-bit instance, a 16-bit id and a name of 1 to 65532 bytes.
pub record IsAddLogged (m : AddLoggedMessage) : Type 0 where
  pub instance_id : m.multi_id < 2 ^ 8
  pub id : m.msg_id < 2 ^ 16
  pub not_empty : 1 ≤ length m.message_name
  pub fits : length m.message_name + 3 < 2 ^ 16

-- A subscription with an 8-bit instance, a 16-bit id and a name of 1 to 65532 bytes is serialized,
-- and is parsed as it was.
pub parse-serialize_add_logged :
    (m : AddLoggedMessage) → IsAddLogged m → (serialize_add_logged m >>= parse_add_logged) ≡ ok m
unfolding serialize_add_logged parse_add_logged
parse-serialize_add_logged m v =
    let type = ULogMessageType.add_logged_msg in
    let size = length m.message_name + 3 in
    let small : size % 2 ^ 16 ≡ size = omega arith in
    let head = le_bytes 1 m.multi_id ++ le_bytes 2 m.msg_id in
    let instance_id =
      read_le_behind size type [] 1 m.multi_id (le_bytes 2 m.msg_id ++ m.message_name) 3 refl
        v.instance_id in
    let id =
      read_le_behind size type (le_bytes 1 m.multi_id) 2 m.msg_id m.message_name 4
        (omega (arith, length-le_bytes 1 m.multi_id)) v.id in
    let name =
      read_bytes_behind size type head m.message_name [] 6 (size - 3)
        (omega (
          arith,
          length-append {0} (le_bytes 1 m.multi_id) (le_bytes 2 m.msg_id),
          length-le_bytes 1 m.multi_id,
          length-le_bytes 2 m.msg_id,
        ))
        (omega arith) in
    rw
      (
        exceeds_u16-false size v.fits,
        small,
        header_msg_size_at size _ _ v.fits,
        ltb-false size 4 (omega arith),
        instance_id,
        id,
      )
      (rw (simp (append-nil, append_assoc) at name))

-- A dropout of a 16-bit duration is read back as it was.
pub parse-serialize_dropout :
    (m : Dropout) → m.duration_ms < 2 ^ 16 → (serialize_dropout m >>= parse_dropout) ≡ ok m
unfolding serialize_dropout parse_dropout
parse-serialize_dropout m h =
    let duration = read_le_behind 2 ULogMessageType.dropout [] 2 m.duration_ms [] 3 refl h in
    rw (header_msg_size_at 2 ULogMessageType.dropout (le_bytes 2 m.duration_ms) (omega arith))
      (rw (rw append-nil at duration))

-- A sync message is read back.
pub parse-serialize_sync : (serialize_sync >>= parse_sync) ≡ ok tt
unfolding serialize_sync parse_sync header_msg_size message_header le_bytes read_le read_bytes
    le_value bytes_eq
parse-serialize_sync = refl
