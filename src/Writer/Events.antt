-- ===== src/Writer/Events.antt =====
-- What the writer writes for an event is one message, from which the reader makes the event again.
use ulog_cpp.Prelude.{◌^◌, ◌<◌, ◌≡◌, refl, true, false, some, Bytes, ◌++◌}
use ulog_cpp.Exception.{ok}
use ulog_cpp.Messages.Info.RoundTrip.{Fits, IsInfo}
use ulog_cpp.Messages.Format.RoundTrip.{IsFormat}
use ulog_cpp.Messages.Logged.RoundTrip.{IsData, IsAddLogged}
use ulog_cpp.Messages.Logging.RoundTrip.{IsLogging}
use ulog_cpp.Handler.{
  Event, header_complete, message_info, message_format, parameter, parameter_default,
  add_logged_message, logging, data_msg, dropout, sync, returned,
}
use ulog_cpp.Reader.Frames.{IsMessage}
use ulog_cpp.Writer.{Writer, write_event}
use ulog_cpp.Writer.Serialized.{
  read_event, data-Written, add_logged-Written, dropout-Written, sync-Written, logging-Written,
  format-Written,
}
use ulog_cpp.Writer.SerializedInfo.{
  parameter_default-Written, message_info-Written, parameter-Written,
}

-- An event that the writer is in the state for.
abbrev pub Allowed : Event → Writer → Type 0
Allowed (message_format _) w = w.is_header_complete ≡ false
Allowed (add_logged_message _) w = w.is_header_complete ≡ true
Allowed _ w = Unit

-- An event whose message can be written and read: its values are within the bounds of the format.
abbrev pub Writable : Event → Type 0
Writable header_complete = ⊥
Writable (message_info m) = IsInfo m
Writable (message_format m) = IsFormat m
Writable (parameter m) = IsInfo m × (m.is_multi ≡ false)
Writable (parameter_default m) = Fits m.field m.value 2 × m.default_types < 2 ^ 8
Writable (add_logged_message m) = IsAddLogged m
Writable (logging m) = IsLogging m
Writable (data_msg m) = IsData m
Writable (dropout m) = m.duration_ms < 2 ^ 16
Writable sync = Unit

-- For an event that is not the end of the header, that the writer is in the state for and whose
-- values are within the bounds of the message: the writer returns, and appends one whole message,
-- from which the reader makes the same event.
pub write_event-read_event :
    (e : Event) (w : Writer)
    → Writable e
    → Allowed e w
    → (m : Bytes) × (write_event e w ≡ (record w { output = w.output ++ m }, returned))
      × IsMessage m
      × (read_event e m ≡ some (ok e))
unfolding write_event
write_event-read_event header_complete w v a = elim v [ ]
write_event-read_event (message_info i) w v a =
    let (m, s, f, r) = message_info-Written i v in (m, rw s refl, f, r)
write_event-read_event (message_format x) w v a =
    let (m, s, f, r) = format-Written x v in (m, rw (a, s) refl, f, r)
write_event-read_event (parameter p) w (v, h) a =
    let (m, s, f, r) = parameter-Written p v h in (m, rw s refl, f, r)
write_event-read_event (parameter_default p) w (v, h) a =
    let (m, s, f, r) = parameter_default-Written p v h in (m, rw s refl, f, r)
write_event-read_event (add_logged_message x) w v a =
    let (m, s, f, r) = add_logged-Written x v in (m, rw (a, s) refl, f, r)
write_event-read_event (logging l) w v a =
    let (m, s, f, r) = logging-Written l v in (m, rw s refl, f, r)
write_event-read_event (data_msg d) w v a =
    let (m, s, f, r) = data-Written d v in (m, rw s refl, f, r)
write_event-read_event (dropout d) w v a =
    let (m, s, f, r) = dropout-Written d v in (m, rw s refl, f, r)
write_event-read_event sync w v a = let (m, s, f, r) = sync-Written in (m, rw s refl, f, r)
