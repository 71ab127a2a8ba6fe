-- ===== src/Writer.antt =====
-- writer.hpp and writer.cpp: `Writer`, which serializes what it is handed.
pub mod Output
pub mod Serialized
pub mod SerializedInfo
pub mod Events
use ulog_cpp.Prelude.{Bool, true, false, not, if◌then◌else◌, Bytes, [], ◌++◌}
use ulog_cpp.Exception.{
  Result, ok, err, usage_exception, formats_after_header, add_logged_before_header,
}
use ulog_cpp.RawMessages.{ULogMessageType}
use ulog_cpp.Messages.FileHeader.{FileHeader, serialize_header}
use ulog_cpp.Messages.Info.{serialize_info, serialize_parameter_default}
use ulog_cpp.Messages.Format.{serialize_format}
use ulog_cpp.Messages.Logged.{
  serialize_add_logged, serialize_data, serialize_dropout, serialize_sync,
}
use ulog_cpp.Messages.Logging.{serialize_logging}
use ulog_cpp.Handler.{
  Event, header_complete, message_info, message_format, parameter, parameter_default,
  add_logged_message, logging, data_msg, dropout, sync, Outcome, returned, thrown,
  DataHandlerInterface,
}

-- `output` holds the bytes that the callback was given.
pub record Writer : Type 0 where
  pub is_header_complete : Bool
  pub output : Bytes

-- The constructor.
abbrev pub new_writer : Writer
new_writer = record { is_header_complete = false; output = [] }

-- A message is given to the callback once it is known to fit, so one that throws gives nothing.
unfoldable pub emit : Result Bytes → Writer → Writer × Outcome
emit (ok bytes) w = (record w { output = w.output ++ bytes }, returned)
emit (err x) w = (w, thrown x)

-- `Writer::fileHeader`.
unfoldable pub header_to : Result Bytes → Writer → Writer
header_to (ok bytes) w = record w { output = w.output ++ bytes }
header_to (err x) w = w

unfoldable pub write_file_header : FileHeader → Writer → Writer
unfolding header_to
write_file_header h w = header_to (serialize_header h) w

-- The other methods.
unfoldable pub write_event : Event → Writer → Writer × Outcome
unfolding emit
write_event header_complete w = (record w { is_header_complete = true }, returned)
write_event (message_info m) w = emit (serialize_info m ULogMessageType.info) w
write_event (message_format m) w =
    if w.is_header_complete
    then (w, thrown (usage_exception formats_after_header))
    else emit (serialize_format m) w
write_event (parameter m) w = emit (serialize_info m ULogMessageType.parameter) w
write_event (parameter_default m) w = emit (serialize_parameter_default m) w
write_event (add_logged_message m) w =
    if not w.is_header_complete
    then (w, thrown (usage_exception add_logged_before_header))
    else emit (serialize_add_logged m) w
write_event (logging m) w = emit (serialize_logging m) w
write_event (data_msg m) w = emit (serialize_data m) w
write_event (dropout m) w = emit (serialize_dropout m) w
write_event sync w = emit serialize_sync w

-- The writer as a handler: it leaves `error` as the interface defines it, with no effect.
abbrev pub writer : DataHandlerInterface
writer = record {
  S = Writer;
  error = λ _ _ w. w;
  file_header = write_file_header;
  on_event = write_event;
}
