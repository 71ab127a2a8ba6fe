-- ===== src/DataContainer/Events.antt =====
-- data_container.cpp: the handlers of the messages; data_container.hpp: the lookup of subscriptions.
pub mod Subscribed
pub mod Invariant
pub mod Reachable
use ulog_cpp.Prelude.{
  ℕ, Bool, true, false, not, ◌&&◌, Option, none, some, List, [], ◌∷◌, ◌++◌, ◌==◌, if◌then◌else◌,
  Bytes, bytes_eq,
}
use ulog_cpp.Exception.{
  Result, ok, err, access_exception, no_previous_info_multi, duplicate_format, duplicate_msg_id,
  logged_format_not_found, invalid_subscription, subscription_not_found,
}
use ulog_cpp.Messages.Info.{MessageInfo, Parameter, ParameterDefault}
use ulog_cpp.Messages.Format.{MessageFormat}
use ulog_cpp.Messages.Logged.{AddLoggedMessage, Data, Dropout}
use ulog_cpp.Messages.Logging.{Logging}
use ulog_cpp.Handler.{
  Event, header_complete, message_info, message_format, parameter, parameter_default,
  add_logged_message, logging, data_msg, dropout, sync, returned, DataHandlerInterface,
}
use ulog_cpp.Formats.{insert_format, find_message_format}
use ulog_cpp.DataContainer.State.{
  insert_entry, find_entry, set_entry, Subscription, DataContainer, Call, stop, is_header_config,
  is_skipped, and_then, container_error, container_file_header,
}
use ulog_cpp.DataContainer.Resolution.{resolve_info, resolve_default, container_header_complete}

-- The copy of a message whose field is resolved if the header is complete, handed on.
with_resolved : (MessageInfo → DataContainer → Call) → MessageInfo → DataContainer → Call
with_resolved next m c = elim c.is_header_complete [
  | false ↦ next m c
  | true ↦
      let ((n, fs), o) = resolve_info m c.formats in
      and_then (next n) (record c { formats = fs }, o)
]

-- `messages[messages.size() - 1].push_back(message_info)`.
add_to_last : MessageInfo → List (List MessageInfo) → List (List MessageInfo)
add_to_last m [] = []
add_to_last m (l ∷ []) = (l ++ m ∷ []) ∷ []
add_to_last m (l ∷ k ∷ ls) = l ∷ add_to_last m (k ∷ ls)

is_nil : List (List MessageInfo) → Bool
is_nil [] = true
is_nil (_ ∷ _) = false

or_empty : Option (List (List MessageInfo)) → List (List MessageInfo)
or_empty none = []
or_empty (some l) = l

-- `_message_info_multi[name]`, which makes an empty entry if there is none, and its new value.
store_multi : MessageInfo → DataContainer → Call
unfolding add_to_last is_nil or_empty insert_entry find_entry set_entry
store_multi m c =
    let name = m.field.name in
    let entries = insert_entry name [] c.infos_multi in
    let messages = or_empty (find_entry name entries) in
    let made = record c { infos_multi = entries } in
    if not m.continued
    then (record c { infos_multi = set_entry name (messages ++ (m ∷ []) ∷ []) entries }, returned)
    else if is_nil messages
    then stop no_previous_info_multi made
    else (record c { infos_multi = set_entry name (add_to_last m messages) entries }, returned)

store_info : MessageInfo → DataContainer → Call
unfolding store_multi insert_entry
store_info m c =
    if is_skipped c
    then (c, returned)
    else if m.is_multi
    then store_multi m c
    else (record c { infos = insert_entry m.field.name m c.infos }, returned)

-- `messageInfo`.
unfoldable pub container_message_info : MessageInfo → DataContainer → Call
unfolding with_resolved store_info resolve_info and_then
container_message_info m c = with_resolved store_info m c

abbrev is_some : {A : Type 0} → Option A → Bool
is_some none = false
is_some (some _) = true

-- `messageFormat`.
unfoldable pub container_message_format : MessageFormat → DataContainer → Call
container_message_format m c =
    if is_some (find_message_format m.name c.formats)
    then stop duplicate_format c
    else (record c { formats = insert_format m c.formats }, returned)

store_parameter : Parameter → DataContainer → Call
unfolding insert_entry
store_parameter m c =
    if c.is_header_complete
    then (record c { changed_parameters = c.changed_parameters ++ m ∷ [] }, returned)
    else (
      record c { initial_parameters = insert_entry m.field.name m c.initial_parameters },
      returned,
    )

-- `parameter`.
unfoldable pub container_parameter : Parameter → DataContainer → Call
unfolding with_resolved store_parameter resolve_info and_then
container_parameter m c = elim (is_skipped c) [
  | true ↦ (c, returned)
  | false ↦ with_resolved store_parameter m c
]

store_default : ParameterDefault → DataContainer → Call
unfolding insert_entry
store_default m c =
    (record c { default_parameters = insert_entry m.field.name m c.default_parameters }, returned)

-- `parameterDefault`.
unfoldable pub container_parameter_default : ParameterDefault → DataContainer → Call
unfolding store_default and_then resolve_default
container_parameter_default m c = elim c.is_header_complete [
  | false ↦ store_default m c
  | true ↦
      let ((n, fs), o) = resolve_default m c.formats in
      and_then (store_default n) (record c { formats = fs }, o)
]

unfoldable pub find_subscription : ℕ → List Subscription → Option Subscription
find_subscription id [] = none
find_subscription id (s ∷ ss) =
    let rest = find_subscription id ss in if s.add_logged.msg_id == id then some s else rest

abbrev same_key : Bytes × ℕ → Bytes × ℕ → Bool
same_key a b = bytes_eq a.0 b.0 && a.1 == b.1

unfoldable pub find_name : Bytes × ℕ → List ((Bytes × ℕ) × ℕ) → Option ℕ
find_name key [] = none
find_name key ((k, id) ∷ es) =
    let rest = find_name key es in if same_key k key then some id else rest

-- `insert`, which keeps the entry that is there.
insert_name : Bytes × ℕ → ℕ → List ((Bytes × ℕ) × ℕ) → List ((Bytes × ℕ) × ℕ)
insert_name key id es = if is_some (find_name key es) then es else es ++ (key, id) ∷ []

-- `addLoggedMessage`.
unfoldable pub container_add_logged : AddLoggedMessage → DataContainer → Call
unfolding insert_name
container_add_logged m c =
    if is_skipped c
    then (c, returned)
    else if is_some (find_subscription m.msg_id c.subscriptions)
    then stop duplicate_msg_id c
    else if not (is_some (find_message_format m.message_name c.formats))
    then stop logged_format_not_found c
    else (
      record c {
        subscriptions =
            c.subscriptions
            ++ (record { add_logged = m; samples = []; format = m.message_name }) ∷ [];
        by_name = insert_name (m.message_name, m.multi_id) m.msg_id c.by_name;
      },
      returned,
    )

-- `logging`.
unfoldable pub container_logging : Logging → DataContainer → Call
container_logging m c =
    if is_skipped c then (c, returned) else (record c { logs = c.logs ++ m ∷ [] }, returned)

-- `emplaceSample` on the subscription with the id.
unfoldable pub add_sample : Data → List Subscription → List Subscription
add_sample d [] = []
add_sample d (s ∷ ss) =
    let rest = add_sample d ss in
    if s.add_logged.msg_id == d.msg_id
    then record s { samples = s.samples ++ d ∷ [] } ∷ ss
    else s ∷ rest

-- `data`.
unfoldable pub container_data : Data → DataContainer → Call
container_data d c =
    if is_header_config c.storage_config
    then (c, returned)
    else if not (is_some (find_subscription d.msg_id c.subscriptions))
    then stop invalid_subscription c
    else (record c { subscriptions = add_sample d c.subscriptions }, returned)

-- `dropout`.
unfoldable pub container_dropout : Dropout → DataContainer → Call
container_dropout m c =
    if is_skipped c then (c, returned) else (record c { dropouts = c.dropouts ++ m ∷ [] }, returned)

-- Each event's method. `sync` is that of the interface.
unfoldable pub container_event : Event → DataContainer → Call
container_event header_complete c = container_header_complete c
container_event (message_info m) c = container_message_info m c
container_event (message_format m) c = container_message_format m c
container_event (parameter m) c = container_parameter m c
container_event (parameter_default m) c = container_parameter_default m c
container_event (add_logged_message m) c = container_add_logged m c
container_event (logging m) c = container_logging m c
container_event (data_msg d) c = container_data d c
container_event (dropout m) c = container_dropout m c
container_event sync c = (c, returned)

abbrev pub container : DataHandlerInterface
container = record {
  S = DataContainer;
  error = container_error;
  file_header = container_file_header;
  on_event = container_event;
}

subscription_at : Bytes → Option ℕ → List Subscription → Result Subscription
subscription_at name none ss = err (access_exception (subscription_not_found name))
subscription_at name (some id) ss = elim (find_subscription id ss) [
  | none ↦ err (access_exception (subscription_not_found name))
  | some s ↦ ok s
]

-- `subscription`. An id that `by_name` holds is that of a subscription.
unfoldable pub subscription : Bytes → ℕ → DataContainer → Result Subscription
unfolding subscription_at
subscription name multi_id c =
    subscription_at name (find_name (name, multi_id) c.by_name) c.subscriptions
