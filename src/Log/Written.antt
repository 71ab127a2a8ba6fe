-- ===== src/Log/Written.antt =====
-- The messages that the writer writes of a log, and what the handler gets of them.
use ulog_cpp.Prelude.{
  ◌≡◌, refl, sym, ap, ◌∙◌, arith, Bool, true, false, some, List, [], ◌∷◌, ◌++◌, append_assoc,
  append-nil, All, Bytes,
}
use mathlib.Core.Path.{subst}
use ulog_cpp.Exception.{ok}
use ulog_cpp.Handler.{
  Event, header_complete, message_info, message_format, parameter, parameter_default,
  add_logged_message, logging, data_msg, dropout, sync, Outcome, returned, thrown,
  DataHandlerInterface,
}
use ulog_cpp.Reader.State.{read_header, read_data, Config}
use ulog_cpp.Reader.Frames.{IsMessage, Framed, rest, message}
use ulog_cpp.Reader.Dispatch.{handle_message, data_event}
use ulog_cpp.Reader.Dispatch.Sections.{
  handle_message-header, handle_message-data, handle_message-start,
}
use ulog_cpp.Reader.Machine.Delivery.{Delivered, all_delivered, delivered}
use ulog_cpp.Writer.{Writer, writer, write_event}
use ulog_cpp.Writer.Events.{Allowed, Writable, write_event-read_event}
use ulog_cpp.Log.{calls, if_returned}
use ulog_cpp.Log.Messages.{IsHeaderEvent, IsDataEvent, IsStart, header_kept, start_ends, data_read}

-- The events of each part of a log, with values within the bounds of their messages.
abbrev pub IsHeaderPart : List Event → Type 0
IsHeaderPart es = All (λ e. Writable e × IsHeaderEvent e) es

abbrev pub IsDataPart : List Event → Type 0
IsDataPart es = All (λ e. Writable e × IsDataEvent e) es

IsHeaderEvent-Allowed :
    (e : Event) (w : Writer) → IsHeaderEvent e → w.is_header_complete ≡ false → Allowed e w
IsHeaderEvent-Allowed (message_info _) w k h = tt
IsHeaderEvent-Allowed (message_format _) w k h = h
IsHeaderEvent-Allowed (parameter _) w k h = tt
IsHeaderEvent-Allowed (parameter_default _) w k h = tt
IsHeaderEvent-Allowed _ w k h = absurd k

IsDataEvent-Allowed :
    (e : Event) (w : Writer) → IsDataEvent e → w.is_header_complete ≡ true → Allowed e w
IsDataEvent-Allowed header_complete w k h = absurd k
IsDataEvent-Allowed (message_format _) w k h = absurd k
IsDataEvent-Allowed (add_logged_message _) w k h = h
IsDataEvent-Allowed (message_info _) w k h = tt
IsDataEvent-Allowed (parameter _) w k h = tt
IsDataEvent-Allowed (parameter_default _) w k h = tt
IsDataEvent-Allowed (logging _) w k h = tt
IsDataEvent-Allowed (data_msg _) w k h = tt
IsDataEvent-Allowed (dropout _) w k h = tt
IsDataEvent-Allowed sync w k h = tt

start_data : (e : Event) → IsStart e → IsDataEvent e
start_data (add_logged_message _) k = tt
start_data (logging _) k = tt
start_data _ k = absurd k

-- A handler that takes an event and others takes the event, and then the others.
behind_call :
    {S : Type 0} (k : S → S × Outcome) (r : S × Outcome) (s' : S)
    → if_returned k r ≡ (s', returned)
    → (t : S) × (r ≡ (t, returned)) × (k t ≡ (s', returned))
unfolding if_returned
behind_call k (t, returned) s' h = (t, refl, h)
behind_call k (t, thrown x) s' h = absurd (cc)

calls_cons :
    (H : DataHandlerInterface) (e : Event) (es : List Event) (s s' : H.S)
    → calls H (e ∷ es) s ≡ (s', returned)
    → (t : H.S) × (H.on_event e s ≡ (t, returned)) × (calls H es t ≡ (s', returned))
unfolding calls
calls_cons H e es s s' h = behind_call (λ t. calls H es t) (H.on_event e s) s' h

calls_first :
    (H : DataHandlerInterface) (e : Event) (es : List Event) (s t : H.S)
    → H.on_event e s ≡ (t, returned)
    → calls H (e ∷ es) s ≡ calls H es t
unfolding calls if_returned
calls_first H e es s t h = rw h refl

abbrev pub with_state : Bool → Bytes → Writer
with_state b o = record { is_header_complete = b; output = o }

-- The writer's state behind a log.
abbrev pub closed : Writer → Bytes → Writer
closed w bytes = with_state true (w.output ++ bytes)

module _ (H : DataHandlerInterface) where
  open H use {S, on_event}

  -- The reader's session in the data section.
  abbrev pub in_data : Config S → S → Config S
  in_data c s = record c { reader = record c.reader { state = read_data }; handler = s }

  -- The writer writes a stream of whole messages of the events, which the handler gets.
  abbrev pub IsWritten : List Event → Writer → Config S → S → Type 0
  IsWritten es w c s =
      (bytes : Bytes) × (ms : List Bytes) × (calls writer es w ≡ (closed w bytes, returned))
      × Framed bytes ms []
      × Delivered H c ms (in_data c s)

  nil-IsWritten :
      (w : Writer) (c : Config S) (s : S)
      → w.is_header_complete ≡ true
      → IsWritten [] w (in_data c s) s
  unfolding calls
  nil-IsWritten w c s h =
      let same : w ≡ closed w [] =
        ap (λ b. with_state b w.output) h ∙ ap (with_state true) (sym (append-nil w.output)) in
      ([], [], ap (λ v. (v, returned)) same, rest (omega arith), all_delivered)

  cons-IsWritten :
      (e : Event) (es : List Event) (m : Bytes) (w : Writer) (c : Config S) (t s : S)
      → write_event e w ≡ (record w { output = w.output ++ m }, returned)
      → IsMessage m
      → handle_message H m c ≡ (record c { handler = t }, returned)
      → c.reader.need_recovery ≡ false
      → IsWritten es (record w { output = w.output ++ m }) (record c { handler = t }) s
      → IsWritten (e ∷ es) w c s
  cons-IsWritten e es m w c t s wrote whole handled clean (bytes, ms, called, framed, ds) = (
    m ++ bytes,
    m ∷ ms,
    calls_first writer e es w _ wrote
        ∙ called
        ∙ ap (λ o. (with_state true o, returned)) (append_assoc w.output m bytes),
    message m whole refl framed,
    delivered handled clean ds,
  )

  data-IsWritten :
      (ds : List Event) (w : Writer) (c : Config S) (s s' : S)
      → IsDataPart ds
      → w.is_header_complete ≡ true
      → c.reader.need_recovery ≡ false
      → calls H ds s ≡ (s', returned)
      → IsWritten ds w (in_data c s) s'
  unfolding calls
  data-IsWritten [] w c s s' vs h clean called =
      subst (λ t. IsWritten [] w (in_data c s) t) (ap (λ r. r.0) called) (nil-IsWritten w c s h)
  data-IsWritten (e ∷ ds) w c s s' ((v, k), vs) h clean called =
      let (t, first, others) = calls_cons H e ds s s' called in
      let (m, wrote, whole, read) = write_event-read_event e w v (IsDataEvent-Allowed e w k h) in
      let event : data_event m ≡ some (ok e) = sym (data_read e m k) ∙ read in
      let handled = handle_message-data H m whole e (in_data c s) t refl event first in
      cons-IsWritten e ds m w (in_data c s) t s' wrote whole handled clean
        (data-IsWritten ds (record w { output = w.output ++ m }) c t s' vs h clean others)

  -- The end of the header is no message: the reader finds it with the first message behind.
  start-IsWritten :
      (e : Event) (ds : List Event) (w : Writer) (c : Config S) (s' : S)
      → Writable e
      → IsStart e
      → IsDataPart ds
      → c.reader.state ≡ read_header
      → c.reader.need_recovery ≡ false
      → calls H (header_complete ∷ e ∷ ds) c.handler ≡ (s', returned)
      → IsWritten (header_complete ∷ e ∷ ds) w c s'
  unfolding calls if_returned write_event
  start-IsWritten e ds w c s' v k vs st clean called =
      let (s, completed, behind) = calls_cons H header_complete (e ∷ ds) c.handler s' called in
      let (t, first, others) = calls_cons H e ds s s' behind in
      let w1 = with_state true w.output in
      let (m, wrote, whole, read) =
        write_event-read_event e w1 v (IsDataEvent-Allowed e w1 (start_data e k) refl) in
      let event : data_event m ≡ some (ok e) = sym (data_read e m (start_data e k)) ∙ read in
      let handled =
        handle_message-start H m whole e c s t st (start_ends e m k read) event completed first in
      let (bytes, ms, called, framed, dl) =
        data-IsWritten ds (with_state true (w.output ++ m)) c t s' vs refl clean others in
      (
        m ++ bytes,
        m ∷ ms,
        calls_first writer e ds w1 _ wrote
            ∙ called
            ∙ ap (λ o. (with_state true o, returned)) (append_assoc w.output m bytes),
        message m whole refl framed,
        delivered handled clean dl,
      )

  pub log-IsWritten :
      (hs : List Event) (e : Event) (ds : List Event) (w : Writer) (c : Config S) (s' : S)
      → IsHeaderPart hs
      → Writable e
      → IsStart e
      → IsDataPart ds
      → w.is_header_complete ≡ false
      → c.reader.state ≡ read_header
      → c.reader.need_recovery ≡ false
      → calls H (hs ++ header_complete ∷ e ∷ ds) c.handler ≡ (s', returned)
      → IsWritten (hs ++ header_complete ∷ e ∷ ds) w c s'
  log-IsWritten [] e ds w c s' hv v k vs h st clean called =
      start-IsWritten e ds w c s' v k vs st clean called
  log-IsWritten (x ∷ hs) e ds w c s' ((xv, xk), hv) v k vs h st clean called =
      let (t, first, others) =
        calls_cons H x (hs ++ header_complete ∷ e ∷ ds) c.handler s' called in
      let (m, wrote, whole, read) =
        write_event-read_event x w xv (IsHeaderEvent-Allowed x w xk h) in
      let (stays, event) = header_kept x m xk read in
      let handled = handle_message-header H m whole x c t st stays event first in
      cons-IsWritten x (hs ++ header_complete ∷ e ∷ ds) m w c t s' wrote whole handled clean (
        log-IsWritten hs e ds (record w { output = w.output ++ m }) (record c { handler = t }) s' hv
          v k vs h st clean others)
