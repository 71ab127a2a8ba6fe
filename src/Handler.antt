-- ===== src/Handler.antt =====
-- data_handler_interface.hpp: what the reader calls, as events, and an implementation as a record.
use ulog_cpp.Prelude.{◌≡◌, ◌⊎◌, inl, inr, refl, Bool}
use ulog_cpp.Exception.{Exception}
use ulog_cpp.Messages.FileHeader.{FileHeader}
use ulog_cpp.Messages.Info.{MessageInfo, Parameter, ParameterDefault}
use ulog_cpp.Messages.Format.{MessageFormat}
use ulog_cpp.Messages.Logged.{AddLoggedMessage, Data, Dropout}
use ulog_cpp.Messages.Logging.{Logging}

-- The calls that carry what a message says.
pub data Event : Type 0 where
  header_complete : Event
  message_info : MessageInfo → Event
  message_format : MessageFormat → Event
  parameter : Parameter → Event
  parameter_default : ParameterDefault → Event
  add_logged_message : AddLoggedMessage → Event
  logging : Logging → Event
  data_msg : Data → Event
  dropout : Dropout → Event
  sync : Event

-- The texts that `Reader` gives to `error`.
pub data ErrorText : Type 0 where
  corruption_detected not_enough_for_magic wrong_magic not_enough_for_flags : ErrorText
  appended_offsets unknown_incompat_flag : ErrorText

-- A call returns, or throws; either way it may have changed the handler.
pub data Outcome : Type 0 where
  returned : Outcome
  thrown : Exception → Outcome

-- An implementation of `DataHandlerInterface` with its state. `error` and `fileHeader` return, as
-- those of the repository's implementations do; the other calls may throw.
pub record DataHandlerInterface : Type 1 where
  pub S : Type 0
  pub error : ErrorText → Bool → S → S
  pub file_header : FileHeader → S → S
  pub on_event : Event → S → S × Outcome

pub Outcome-cases : (o : Outcome) → (o ≡ returned) ⊎ ((x : Exception) × (o ≡ thrown x))
Outcome-cases returned = inl refl
Outcome-cases (thrown x) = inr (x, refl)
