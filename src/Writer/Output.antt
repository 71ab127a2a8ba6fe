-- ===== src/Writer/Output.antt =====
-- What a call of the writer leaves as it was.
use ulog_cpp.Prelude.{◌≡◌, refl, Bytes}
use ulog_cpp.Exception.{Result, ok, err}
use ulog_cpp.Handler.{
  Event, header_complete, message_info, message_format, parameter, parameter_default,
  add_logged_message, logging, data_msg, dropout, sync, Outcome,
}
use ulog_cpp.Prelude.{arith}
use ulog_cpp.Messages.Format.{serialize_format}
use ulog_cpp.Messages.Logged.{serialize_add_logged}
use ulog_cpp.Writer.{Writer, emit, write_event}

-- Any event but the end of the header.
abbrev pub IsBody : Event → Type 0
IsBody header_complete = ⊥
IsBody _ = Unit

abbrev Same : Writer → Writer × Outcome → Type 0
Same w p = p.0.is_header_complete ≡ w.is_header_complete

emit-Same : (r : Result Bytes) (w : Writer) → Same w (emit r w)
unfolding emit
emit-Same (ok b) w = refl
emit-Same (err x) w = refl

pub write_event-is_header_complete :
    (e : Event) (w : Writer)
    → IsBody e
    → (write_event e w).0.is_header_complete ≡ w.is_header_complete
unfolding write_event
write_event-is_header_complete header_complete w b = absurd b
write_event-is_header_complete (message_info m) w b = emit-Same _ w
write_event-is_header_complete (message_format m) w b =
    ground (arith, emit-Same (serialize_format m) w)
write_event-is_header_complete (parameter m) w b = emit-Same _ w
write_event-is_header_complete (parameter_default m) w b = emit-Same _ w
write_event-is_header_complete (add_logged_message m) w b =
    ground (arith, emit-Same (serialize_add_logged m) w)
write_event-is_header_complete (logging m) w b = emit-Same _ w
write_event-is_header_complete (data_msg m) w b = emit-Same _ w
write_event-is_header_complete (dropout m) w b = emit-Same _ w
write_event-is_header_complete sync w b = emit-Same _ w
