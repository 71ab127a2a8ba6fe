-- ===== src/Reader/Dispatch/Keeps.antt =====
-- Handling a message leaves the buffer and the chunk alone.
use ulog_cpp.Prelude.{
  ◌||◌, ◌==◌, ◌≡◌, refl, arith, Bytes, Option, none, some, Bool-cases, if◌then◌else◌, inl, inr,
}
use ulog_cpp.Exception.{parsing_exception, Result, ok, err}
use ulog_cpp.Handler.{Event, DataHandlerInterface, Outcome, returned, thrown}
use ulog_cpp.Reader.State.{
  State, read_header, read_data, Config, corruption, msg_size_of, msg_type_of,
}
use ulog_cpp.Reader.Bounds.{Keeps}
use ulog_cpp.Reader.Dispatch.{
  deliver, then_data, is_state_data, is_state_header, ends_header, header_event, data_event,
  read_header_message, read_data_message, read_message, catch_parsing, handle_message,
}

-- The file header has been read, and no fatal error has been met.
abbrev pub InSession : State → Type 0
InSession read_header = Unit
InSession read_data = Unit
InSession _ = ⊥

module _ (H : DataHandlerInterface) where
  open H use {S}

  corruption-Keeps : (c : Config S) → Keeps c (corruption H c)
  unfolding corruption
  corruption-Keeps c = record { input = refl; partial = refl; capacity = refl; total = refl }

  deliver-Keeps : (o : Option (Result Event)) (c : Config S) → Keeps c (deliver H o c).0
  unfolding deliver
  deliver-Keeps none c = record { input = refl; partial = refl; capacity = refl; total = refl }
  deliver-Keeps (some (ok e)) c = record {
    input = refl;
    partial = refl;
    capacity = refl;
    total = refl;
  }
  deliver-Keeps (some (err x)) c = record {
    input = refl;
    partial = refl;
    capacity = refl;
    total = refl;
  }

  read_header_message-Keeps : (msg : Bytes) (c : Config S) → Keeps c (read_header_message H msg c).0
  unfolding read_header_message
  read_header_message-Keeps msg c = elim (Bool-cases (ends_header msg)) [
    | inl e ↦ rw e (record { input = refl; partial = refl; capacity = refl; total = refl })
    | inr e ↦ rw e (deliver-Keeps (header_event msg) c)
  ]

  then_data-Keeps :
      (msg : Bytes) (c : Config S) (p : Config S × Outcome)
      → Keeps c p.0
      → Keeps c (then_data H msg p).0
  unfolding then_data read_data_message
  then_data-Keeps msg c (c', thrown x) k = k
  then_data-Keeps msg c (c', returned) k = elim (Bool-cases (is_state_data H c'.reader.state)) [
    | inl e ↦ rw e (ground (arith, deliver-Keeps (data_event msg) c'))
    | inr e ↦ rw e k
  ]

  read_message-Keeps : (msg : Bytes) (c : Config S) → Keeps c (read_message H msg c).0
  unfolding read_message
  read_message-Keeps msg c =
      then_data-Keeps msg c
        (if is_state_header H c.reader.state then read_header_message H msg c else (c, returned))
        (elim (Bool-cases (is_state_header H c.reader.state)) [
          | inl e ↦ rw e (read_header_message-Keeps msg c)
          | inr e ↦ rw e (record { input = refl; partial = refl; capacity = refl; total = refl })
        ])

  catch_parsing-Keeps :
      (c : Config S) (p : Config S × Outcome) → Keeps c p.0 → Keeps c (catch_parsing H p).0
  unfolding catch_parsing
  catch_parsing-Keeps c (c', returned) k = k
  catch_parsing-Keeps c (c', thrown (parsing_exception r)) k = ground (arith, corruption-Keeps c')
  catch_parsing-Keeps c (c', thrown _) k = k

  pub handle_message-Keeps : (msg : Bytes) (c : Config S) → Keeps c (handle_message H msg c).0
  unfolding handle_message
  handle_message-Keeps msg c = elim (Bool-cases (msg_size_of msg == 0 || msg_type_of msg == 0)) [
    | inl e ↦ rw e (corruption-Keeps c)
    | inr e ↦ rw e (catch_parsing-Keeps c (read_message H msg c) (read_message-Keeps msg c))
  ]

  deliver_state :
      (o : Option (Result Event)) (c : Config S) → (deliver H o c).0.reader.state ≡ c.reader.state
  unfolding deliver
  deliver_state none c = refl
  deliver_state (some (ok e)) c = refl
  deliver_state (some (err x)) c = refl

  read_header_message-InSession :
      (msg : Bytes) (c : Config S)
      → InSession c.reader.state
      → InSession (read_header_message H msg c).0.reader.state
  unfolding read_header_message
  read_header_message-InSession msg c h = elim (Bool-cases (ends_header msg)) [
    | inl e ↦ rw e tt
    | inr e ↦ rw e (rw (deliver_state (header_event msg) c) h)
  ]

  then_data-InSession :
      (msg : Bytes) (p : Config S × Outcome)
      → InSession p.0.reader.state
      → InSession (then_data H msg p).0.reader.state
  unfolding then_data read_data_message
  then_data-InSession msg (c, thrown x) h = h
  then_data-InSession msg (c, returned) h = elim (Bool-cases (is_state_data H c.reader.state)) [
    | inl e ↦ rw e (rw (deliver_state (data_event msg) c) h)
    | inr e ↦ rw e h
  ]

  catch_parsing-InSession :
      (p : Config S × Outcome)
      → InSession p.0.reader.state
      → InSession (catch_parsing H p).0.reader.state
  unfolding catch_parsing corruption
  catch_parsing-InSession (c, returned) h = h
  catch_parsing-InSession (c, thrown (parsing_exception r)) h = h
  catch_parsing-InSession (c, thrown _) h = h

  -- For every handler and message, a reader that is in the header or the data section is in one of
  -- these behind the message, whatever the handler does.
  pub handle_message-InSession :
      (msg : Bytes) (c : Config S)
      → InSession c.reader.state
      → InSession (handle_message H msg c).0.reader.state
  unfolding handle_message read_message corruption
  handle_message-InSession msg c h =
      elim (Bool-cases (msg_size_of msg == 0 || msg_type_of msg == 0)) [
        | inl e ↦ rw e h
        | inr e ↦ rw e (
            catch_parsing-InSession (read_message H msg c) (
              then_data-InSession msg
                (if is_state_header H c.reader.state
                  then read_header_message H msg c
                  else (c, returned))
                (elim (Bool-cases (is_state_header H c.reader.state)) [
                  | inl k ↦ rw k (read_header_message-InSession msg c h)
                  | inr k ↦ rw k h
                ])))
      ]
