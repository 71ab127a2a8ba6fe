-- ===== src/DataContainer/State.antt =====
-- data_container.hpp: the state, with its maps; data_container.cpp: the constructor, `error` and
-- `fileHeader`.
use ulog_cpp.Prelude.{
  ℕ, Bool, true, false, not, ◌&&◌, Option, none, some, List, [], ◌∷◌, ◌++◌, if◌then◌else◌, Bytes,
  bytes_eq,
}
use ulog_cpp.Exception.{Reason, parsing_exception}
use ulog_cpp.Messages.FileHeader.{FileHeader}
use ulog_cpp.Messages.Info.{MessageInfo, Parameter, ParameterDefault}
use ulog_cpp.Messages.Logged.{AddLoggedMessage, Data, Dropout}
use ulog_cpp.Messages.Logging.{Logging}
use ulog_cpp.Handler.{ErrorText, Outcome, returned, thrown}
use ulog_cpp.Prelude.{bytes_less}
use ulog_cpp.Formats.{Formats}

-- `DataContainer::StorageConfig`.
pub data StorageConfig : Type 0 where
  header full_log : StorageConfig

-- `std::map` from names, in the order of the names: `insert` keeps the entry that is there.
abbrev pub NameMap : Type 0 → Type 0
NameMap A = List (Bytes × A)

unfoldable pub insert_entry : {A : Type 0} → Bytes → A → NameMap A → NameMap A
insert_entry key a [] = (key, a) ∷ []
insert_entry key a ((k, b) ∷ es) =
    let rest = insert_entry key a es in
    if bytes_eq k key
    then (k, b) ∷ es
    else if bytes_less key k
    then (key, a) ∷ (k, b) ∷ es
    else (k, b) ∷ rest

unfoldable pub find_entry : {A : Type 0} → Bytes → NameMap A → Option A
find_entry key [] = none
find_entry key ((k, b) ∷ es) =
    let rest = find_entry key es in if bytes_eq k key then some b else rest

unfoldable pub set_entry : {A : Type 0} → Bytes → A → NameMap A → NameMap A
set_entry key a [] = []
set_entry key a ((k, b) ∷ es) =
    let rest = set_entry key a es in if bytes_eq k key then (k, a) ∷ es else (k, b) ∷ rest

-- A `Subscription` with the samples in order. The pointer to its format is the format's name.
pub record Subscription : Type 0 where
  pub add_logged : AddLoggedMessage
  pub samples : List Data
  pub format : Bytes

-- `subscriptions` is `_subscriptions_by_message_id`, by the id of each; `by_name` has the ids of
-- `_subscriptions_by_name_and_multi_id`, which shares the subscriptions.
pub record DataContainer : Type 0 where
  pub storage_config : StorageConfig
  pub is_header_complete : Bool
  pub had_fatal_error : Bool
  pub parsing_errors : List ErrorText
  pub file_headers : Option FileHeader
  pub infos : NameMap MessageInfo
  pub infos_multi : NameMap (List (List MessageInfo))
  pub formats : Formats
  pub initial_parameters : NameMap Parameter
  pub default_parameters : NameMap ParameterDefault
  pub changed_parameters : List Parameter
  pub subscriptions : List Subscription
  pub by_name : List ((Bytes × ℕ) × ℕ)
  pub logs : List Logging
  pub dropouts : List Dropout

unfoldable pub make_container : StorageConfig → DataContainer
make_container config = record {
  storage_config = config;
  is_header_complete = false;
  had_fatal_error = false;
  parsing_errors = [];
  file_headers = none;
  infos = [];
  infos_multi = [];
  formats = [];
  initial_parameters = [];
  default_parameters = [];
  changed_parameters = [];
  subscriptions = [];
  by_name = [];
  logs = [];
  dropouts = [];
}

-- `error`.
unfoldable pub container_error : ErrorText → Bool → DataContainer → DataContainer
container_error text recoverable c = record c {
  had_fatal_error = if not recoverable then true else c.had_fatal_error;
  parsing_errors = c.parsing_errors ++ text ∷ [];
}

-- `fileHeader`. `none` stands for the header of the constructor.
unfoldable pub container_file_header : FileHeader → DataContainer → DataContainer
container_file_header h c = record c { file_headers = some h }

abbrev pub Call : Type 0
Call = DataContainer × Outcome

abbrev pub stop : Reason → DataContainer → Call
stop r c = (c, thrown (parsing_exception r))

-- Only the header is kept.
abbrev pub is_header_config : StorageConfig → Bool
is_header_config header = true
is_header_config full_log = false

abbrev pub is_skipped : DataContainer → Bool
is_skipped c = c.is_header_complete && is_header_config c.storage_config

-- One call behind another, unless it throws.
unfoldable pub and_then : (DataContainer → Call) → Call → Call
and_then next (c, returned) = next c
and_then next (c, thrown x) = (c, thrown x)
