-- ===== src/Reader/Dispatch/Sections.antt =====
-- What becomes of a message with an event in each section, and of the one that ends the header.
use ulog_cpp.Prelude.{◌≡◌, refl, arith, true, false, ◌||◌, some, ◌==◌, Bytes}
use ulog_cpp.Exception.{ok}
use ulog_cpp.Handler.{Event, header_complete, returned, DataHandlerInterface}
use ulog_cpp.Reader.State.{State, read_header, read_data, Config, msg_size_of, msg_type_of}
use ulog_cpp.Reader.Frames.{IsMessage}
use ulog_cpp.Reader.Dispatch.{
  header_event, data_event, ends_header, deliver, read_header_message, read_data_message,
  is_state_header, is_state_data, then_data, read_message, catch_parsing, handle_message,
}

not_empty_message : (m : Bytes) → IsMessage m → (msg_size_of m == 0 || msg_type_of m == 0) ≡ false
not_empty_message m v = let size = v.size in let type = v.type in ground (arith, size, type)

module _ (H : DataHandlerInterface) (m : Bytes) (whole : IsMessage m) (e : Event) where
  open H use {S, on_event}

  header_state :
      (st : State) → st ≡ read_header → (is_state_header H st ≡ true) × (is_state_data H st ≡ false)
  unfolding is_state_header is_state_data
  header_state st h = rw h (refl, refl)

  data_state :
      (st : State) → st ≡ read_data → (is_state_header H st ≡ false) × (is_state_data H st ≡ true)
  unfolding is_state_header is_state_data
  data_state st h = rw h (refl, refl)

  deliver_ok :
      (c : Config S) (t : S)
      → on_event e c.handler ≡ (t, returned)
      → deliver H (some (ok e)) c ≡ (record c { handler = t }, returned)
  unfolding deliver
  deliver_ok c t called = rw called refl

  read_data_message_ok :
      (c : Config S) (t : S)
      → data_event m ≡ some (ok e)
      → on_event e c.handler ≡ (t, returned)
      → read_data_message H m c ≡ (record c { handler = t }, returned)
  unfolding read_data_message
  read_data_message_ok c t event called = rw event (deliver_ok c t called)

  handled_ok :
      (c d : Config S) → read_message H m c ≡ (d, returned) → handle_message H m c ≡ (d, returned)
  unfolding handle_message catch_parsing
  handled_ok c d h = rw (not_empty_message m whole, h) refl

  -- A message of the header section.
  pub handle_message-header :
      (c : Config S) (t : S)
      → c.reader.state ≡ read_header
      → ends_header m ≡ false
      → header_event m ≡ some (ok e)
      → on_event e c.handler ≡ (t, returned)
      → handle_message H m c ≡ (record c { handler = t }, returned)
  unfolding read_message then_data read_header_message
  handle_message-header c t st stays event called =
      let (in_header, not_data) = header_state c.reader.state st in
      handled_ok c (record c { handler = t })
        (rw (in_header, stays, event, deliver_ok c t called, not_data) refl)

  -- A message of the data section.
  pub handle_message-data :
      (c : Config S) (t : S)
      → c.reader.state ≡ read_data
      → data_event m ≡ some (ok e)
      → on_event e c.handler ≡ (t, returned)
      → handle_message H m c ≡ (record c { handler = t }, returned)
  unfolding read_message then_data
  handle_message-data c t st event called =
      let (not_header, in_data) = data_state c.reader.state st in
      handled_ok c (record c { handler = t })
        (rw (not_header, in_data) (read_data_message_ok c t event called))

  -- The message that ends the header.
  pub handle_message-start :
      (c : Config S) (s t : S)
      → c.reader.state ≡ read_header
      → ends_header m ≡ true
      → data_event m ≡ some (ok e)
      → on_event header_complete c.handler ≡ (s, returned)
      → on_event e s ≡ (t, returned)
      → handle_message H m c
        ≡ (record c { reader = record c.reader { state = read_data }; handler = t }, returned)
  unfolding read_message then_data read_header_message is_state_data
  handle_message-start c s t st ends event completed called =
      let (in_header, _) = header_state c.reader.state st in
      let d : Config S = record c { reader = record c.reader { state = read_data }; handler = s } in
      handled_ok c (record d { handler = t })
        (rw (in_header, ends, completed) (read_data_message_ok d t event called))
