-- ===== src/Reader/Dispatch.antt =====
-- reader.cpp: `readHeaderMessage`, `readDataMessage`, and the `try` block of `readChunk` around
-- them.
pub mod Keeps
pub mod Sections
pub mod Frame
pub mod Safety
use ulog_cpp.Prelude.{ℕ, Bool, true, false, ◌||◌, Option, none, some, ◌==◌, if◌then◌else◌, Bytes}
use ulog_cpp.Exception.{Exception, parsing_exception, Result, ok, err, ◌>>=◌}
use ulog_cpp.RawMessages.{type_byte, ULogMessageType}
use ulog_cpp.Messages.Info.{parse_info, parse_parameter_default}
use ulog_cpp.Messages.Format.{parse_format}
use ulog_cpp.Messages.Logged.{parse_add_logged, parse_data, parse_dropout, parse_sync}
use ulog_cpp.Messages.Logging.{parse_logging}
use ulog_cpp.Handler.{
  Event, header_complete, message_info, message_format, parameter, parameter_default,
  add_logged_message, logging, data_msg, dropout, sync, Outcome, returned, thrown,
  DataHandlerInterface,
}
use ulog_cpp.Reader.State.{
  State, read_header, read_data, Config, msg_size_of, msg_type_of, corruption,
}

abbrev pub is_type : ULogMessageType → Bytes → Bool
is_type type msg = msg_type_of msg == type_byte type

-- What a message that both sections may hold says. `none` is any other message.
unfoldable pub common_event : Bytes → Option (Result Event)
common_event msg =
    if is_type ULogMessageType.info msg
    then some (parse_info msg false >>= λ m. ok (message_info m))
    else if is_type ULogMessageType.info_multiple msg
    then some (parse_info msg true >>= λ m. ok (message_info m))
    else if is_type ULogMessageType.parameter msg
    then some (parse_info msg false >>= λ m. ok (parameter m))
    else if is_type ULogMessageType.parameter_default msg
    then some (parse_parameter_default msg >>= λ m. ok (parameter_default m))
    else none

-- The cases of the switch of `readHeaderMessage` that carry a message.
unfoldable pub header_event : Bytes → Option (Result Event)
unfolding common_event
header_event msg =
    if is_type ULogMessageType.format msg
    then some (parse_format msg >>= λ m. ok (message_format m))
    else common_event msg

-- The cases of the switch of `readDataMessage`.
unfoldable pub data_event : Bytes → Option (Result Event)
unfolding common_event
data_event msg =
    if is_type ULogMessageType.add_logged_msg msg
    then some (parse_add_logged msg >>= λ m. ok (add_logged_message m))
    else if is_type ULogMessageType.logging msg
    then some (parse_logging msg false >>= λ m. ok (logging m))
    else if is_type ULogMessageType.logging_tagged msg
    then some (parse_logging msg true >>= λ m. ok (logging m))
    else if is_type ULogMessageType.data_msg msg
    then some (parse_data msg >>= λ m. ok (data_msg m))
    else if is_type ULogMessageType.dropout msg
    then some (parse_dropout msg >>= λ m. ok (dropout m))
    else if is_type ULogMessageType.sync msg
    then some (parse_sync msg >>= λ _. ok sync)
    else common_event msg

-- The messages that end the header.
abbrev pub ends_header : Bytes → Bool
ends_header msg =
    is_type ULogMessageType.add_logged_msg msg
    || is_type ULogMessageType.logging msg
    || is_type ULogMessageType.logging_tagged msg

module _ (H : DataHandlerInterface) where
  open H use {S, on_event}

  abbrev call : Event → Config S → Config S × Outcome
  call e c = let (s, o) = on_event e c.handler in (record c { handler = s }, o)

  -- Construct the message and hand it over. A constructor that throws changes nothing.
  unfoldable pub deliver : Option (Result Event) → Config S → Config S × Outcome
  deliver none c = (c, returned)
  deliver (some (ok e)) c = call e c
  deliver (some (err x)) c = (c, thrown x)

  unfoldable pub read_header_message : Bytes → Config S → Config S × Outcome
  unfolding deliver
  read_header_message msg c =
      if ends_header msg
      then call header_complete (record c { reader = record c.reader { state = read_data } })
      else deliver (header_event msg) c

  unfoldable pub read_data_message : Bytes → Config S → Config S × Outcome
  unfolding deliver
  read_data_message msg c = deliver (data_event msg) c

  is_state_header : State → Bool
  is_state_header read_header = true
  is_state_header _ = false

  is_state_data : State → Bool
  is_state_data read_data = true
  is_state_data _ = false

  -- `if (_state == State::ReadData)`, if the call before it returned.
  then_data : Bytes → Config S × Outcome → Config S × Outcome
  then_data msg (c, thrown x) = (c, thrown x)
  then_data msg (c, returned) =
      if is_state_data c.reader.state then read_data_message msg c else (c, returned)

  -- The body of the `try` block. A message that ends the header is read as data too.
  unfoldable pub read_message : Bytes → Config S → Config S × Outcome
  unfolding is_state_header is_state_data then_data
  read_message msg c =
      then_data msg
        (if is_state_header c.reader.state then read_header_message msg c else (c, returned))

  -- `catch (const ParsingException&)`. Any other exception goes on to the caller.
  unfoldable pub catch_parsing : Config S × Outcome → Config S × Outcome
  catch_parsing (c, returned) = (c, returned)
  catch_parsing (c, thrown (parsing_exception _)) = (corruption H c, returned)
  catch_parsing (c, thrown x) = (c, thrown x)

  -- A whole message: an empty one or one of type 0 is a corruption.
  unfoldable pub handle_message : Bytes → Config S → Config S × Outcome
  unfolding read_message catch_parsing
  handle_message msg c =
      if msg_size_of msg == 0 || msg_type_of msg == 0
      then (corruption H c, returned)
      else catch_parsing (read_message msg c)
