-- ===== src/Reader/Dispatch/Frame.antt =====
-- What handling a message does does not depend on the buffer and the chunk.
use ulog_cpp.Prelude.{ℕ, ◌||◌, ◌==◌, ◌≡◌, refl, Bytes, Option, none, some, Bool-cases, inl, inr}
use ulog_cpp.Exception.{parsing_exception, Result, ok, err}
use ulog_cpp.Handler.{Event, DataHandlerInterface, Outcome, returned, thrown}
use ulog_cpp.Reader.State.{Config, corruption, msg_size_of, msg_type_of}
use ulog_cpp.Reader.Session.{place}
use ulog_cpp.Reader.Dispatch.{
  deliver, then_data, is_state_data, is_state_header, ends_header, header_event, data_event,
  read_header_message, read_data_message, read_message, catch_parsing, handle_message,
}

module _ (H : DataHandlerInterface) (b : Bytes) (k t : ℕ) (i : Bytes) where
  open H use {S}

  at_place : Config S → Config S
  at_place = place b k t i

  placed : Config S × Outcome → Config S × Outcome
  unfolding at_place
  placed p = (at_place p.0, p.1)

  deliver_place :
      (o : Option (Result Event)) (c : Config S) → deliver H o (at_place c) ≡ placed (deliver H o c)
  unfolding deliver placed
  deliver_place none c = refl
  deliver_place (some (ok e)) c = refl
  deliver_place (some (err x)) c = refl

  read_header_message_place :
      (msg : Bytes) (c : Config S)
      → read_header_message H msg (at_place c) ≡ placed (read_header_message H msg c)
  unfolding read_header_message placed
  read_header_message_place msg c = elim (Bool-cases (ends_header msg)) [
    | inl e ↦ rw e refl
    | inr e ↦ rw e (deliver_place (header_event msg) c)
  ]

  then_data_place :
      (msg : Bytes) (p : Config S × Outcome)
      → then_data H msg (placed p) ≡ placed (then_data H msg p)
  unfolding then_data read_data_message placed
  then_data_place msg (c, thrown x) = refl
  then_data_place msg (c, returned) = elim (Bool-cases (is_state_data H c.reader.state)) [
    | inl e ↦ rw e (deliver_place (data_event msg) c)
    | inr e ↦ rw e refl
  ]

  read_message_place :
      (msg : Bytes) (c : Config S) → read_message H msg (at_place c) ≡ placed (read_message H msg c)
  unfolding read_message placed
  read_message_place msg c = elim (Bool-cases (is_state_header H c.reader.state)) [
    | inl e ↦
        rw (e, read_header_message_place msg c) (then_data_place msg (read_header_message H msg c))
    | inr e ↦ rw e (then_data_place msg (c, returned))
  ]

  catch_parsing_place :
      (p : Config S × Outcome) → catch_parsing H (placed p) ≡ placed (catch_parsing H p)
  unfolding catch_parsing placed corruption
  catch_parsing_place (c, returned) = refl
  catch_parsing_place (c, thrown (parsing_exception r)) = refl
  catch_parsing_place (c, thrown _) = refl

  -- With other bytes at hand a message has the same effect and the same outcome.
  pub handle_message-place :
      (msg : Bytes) (c : Config S)
      → handle_message H msg (place b k t i c)
        ≡ (place b k t i (handle_message H msg c).0, (handle_message H msg c).1)
  unfolding handle_message placed corruption
  handle_message-place msg c = elim (Bool-cases (msg_size_of msg == 0 || msg_type_of msg == 0)) [
    | inl e ↦ rw e refl
    | inr e ↦ rw (e, read_message_place msg c) (catch_parsing_place (read_message H msg c))
  ]
