-- ===== src/Log/Messages.antt =====
-- What the reader does with a message that the writer wrote for an event.
use ulog_cpp.Prelude.{◌≡◌, ◌≢◌, refl, arith, true, false, some, Bytes}
use ulog_cpp.Exception.{Result, ok}
use ulog_cpp.RawMessages.{ULogMessageType}
use ulog_cpp.Messages.Info.{MessageInfo, Parameter, ParameterDefault}
use ulog_cpp.Messages.Format.{MessageFormat}
use ulog_cpp.Handler.{
  Event, header_complete, message_info, message_format, parameter, parameter_default,
  add_logged_message, logging, data_msg, dropout, sync,
}
use ulog_cpp.Reader.Dispatch.{header_event, data_event, ends_header, is_type, common_event}
use ulog_cpp.Writer.Serialized.{read_event}

-- An event of the header section.
abbrev pub IsHeaderEvent : Event → Type 0
IsHeaderEvent (message_info _) = Unit
IsHeaderEvent (message_format _) = Unit
IsHeaderEvent (parameter _) = Unit
IsHeaderEvent (parameter_default _) = Unit
IsHeaderEvent _ = ⊥

-- An event of the data section.
abbrev pub IsDataEvent : Event → Type 0
IsDataEvent header_complete = ⊥
IsDataEvent (message_format _) = ⊥
IsDataEvent _ = Unit

-- An event whose message begins the data section.
abbrev pub IsStart : Event → Type 0
IsStart (add_logged_message _) = Unit
IsStart (logging _) = Unit
IsStart _ = ⊥

-- A message that both sections may hold is of none of the types of one section.
common_type :
    (m : Bytes) (r : Result Event)
    → common_event m ≡ some r
    → is_type ULogMessageType.format m ≡ false
unfolding common_event
common_type m r h = ground (arith, h)

data_common_info :
    (i : MessageInfo) (m : Bytes)
    → data_event m ≡ some (ok (message_info i))
    → (ends_header m ≡ false) × (common_event m ≡ some (ok (message_info i)))
unfolding data_event
data_common_info i m h = ground (arith, h)

data_common_parameter :
    (i : Parameter) (m : Bytes)
    → data_event m ≡ some (ok (parameter i))
    → (ends_header m ≡ false) × (common_event m ≡ some (ok (parameter i)))
unfolding data_event
data_common_parameter i m h = ground (arith, h)

data_common_default :
    (d : ParameterDefault) (m : Bytes)
    → data_event m ≡ some (ok (parameter_default d))
    → (ends_header m ≡ false) × (common_event m ≡ some (ok (parameter_default d)))
unfolding data_event
data_common_default d m h = ground (arith, h)

header_common :
    (m : Bytes) (e : Event) → common_event m ≡ some (ok e) → header_event m ≡ some (ok e)
unfolding header_event
header_common m e h = rw (common_type m (ok e) h) h

common_ne : (f : MessageFormat) (m : Bytes) → common_event m ≢ some (ok (message_format f))
unfolding common_event
common_ne f m h = ground (arith, h)

format_stays :
    (f : MessageFormat) (m : Bytes)
    → header_event m ≡ some (ok (message_format f))
    → ends_header m ≡ false
unfolding header_event
format_stays f m h = let not_common = common_ne f m in ground (arith, h, not_common)

pub header_kept :
    (e : Event) (m : Bytes)
    → IsHeaderEvent e
    → read_event e m ≡ some (ok e)
    → (ends_header m ≡ false) × (header_event m ≡ some (ok e))
header_kept (message_info i) m k h =
    let (stays, common) = data_common_info i m h in (stays, header_common m _ common)
header_kept (message_format f) m k h = (format_stays f m h, h)
header_kept (parameter p) m k h =
    let (stays, common) = data_common_parameter p m h in (stays, header_common m _ common)
header_kept (parameter_default d) m k h =
    let (stays, common) = data_common_default d m h in (stays, header_common m _ common)
header_kept _ m k h = absurd k

pub start_ends :
    (e : Event) (m : Bytes) → IsStart e → read_event e m ≡ some (ok e) → ends_header m ≡ true
unfolding data_event
start_ends (add_logged_message a) m k h = ground (arith, h)
start_ends (logging l) m k h = ground (arith, h)
start_ends _ m k h = absurd k

pub data_read : (e : Event) (m : Bytes) → IsDataEvent e → read_event e m ≡ data_event m
data_read header_complete m k = absurd k
data_read (message_format f) m k = absurd k
data_read (message_info i) m k = refl
data_read (parameter i) m k = refl
data_read (parameter_default i) m k = refl
data_read (add_logged_message i) m k = refl
data_read (logging i) m k = refl
data_read (data_msg i) m k = refl
data_read (dropout i) m k = refl
data_read sync m k = refl
