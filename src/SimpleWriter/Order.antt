-- ===== src/SimpleWriter/Order.antt =====
-- The order of the calls: the object and its writer agree on whether the header is complete.
use ulog_cpp.Prelude.{
  ℕ, ◌≡◌, refl, ◌∙◌, Bool, true, false, not, List, Bytes, Option, none, some, length, if◌then◌else◌,
  get_elem?, ltb,
}
use ulog_cpp.Exception.{Result, ok, err}
use ulog_cpp.Field.{Field}
use ulog_cpp.Messages.Info.{MessageInfo}
use ulog_cpp.Messages.Logging.{Level}
use ulog_cpp.Handler.{Event, message_info, parameter}
use ulog_cpp.Writer.{write_event}
use ulog_cpp.Writer.Output.{IsBody, write_event-is_header_complete}
use ulog_cpp.SimpleWriter.{
  SimpleWriter, forward, find_format, check_format, write_message_format, complete_header,
  write_info, write_parameter, write_parameter_change, write_text_message, add_subscription,
  write_add_logged, write_sized, write_data,
}

-- A call of the object.
pub data Call : Type 0 where
  format_call : Bytes → List Field → Call
  complete_call : Call
  info_call parameter_call change_call : MessageInfo → Call
  text_call : Level → Bytes → ℕ → Call
  add_logged_call : Bytes → ℕ → Call
  data_call : ℕ → Bytes → Call

-- What a call makes of the object, whether it returns or throws.
unfoldable pub after : Call → SimpleWriter → SimpleWriter
after (format_call name fields) s = (write_message_format name fields s).0
after complete_call s = (complete_header s).0
after (info_call m) s = (write_info m s).0
after (parameter_call m) s = (write_parameter m s).0
after (change_call m) s = (write_parameter_change m s).0
after (text_call level text time) s = (write_text_message level text time s).0
after (add_logged_call name multi_id) s = (write_add_logged name multi_id s).0
after (data_call id bytes) s = (write_data id bytes s).0

abbrev pub InSync : SimpleWriter → Type 0
InSync s = s.writer.is_header_complete ≡ s.is_header_complete

forward-InSync : (e : Event) (s : SimpleWriter) → IsBody e → InSync s → InSync (forward e s).0
unfolding forward
forward-InSync e s b v = write_event-is_header_complete e s.writer b ∙ v

if-InSync :
    {O : Type 0} (b : Bool) (p q : SimpleWriter × O)
    → InSync p.0
    → InSync q.0
    → InSync (if b then p else q).0
if-InSync true p q h k = h
if-InSync false p q h k = k

format-InSync :
    (name : Bytes) (fields : List Field) (r : Result ℕ) (s : SimpleWriter)
    → check_format s name fields ≡ r
    → InSync s
    → InSync (write_message_format name fields s).0
unfolding write_message_format
format-InSync name fields (err x) s h v = rw (h, write_message_format) v
format-InSync name fields (ok n) s h v = rw (h, write_message_format) (forward-InSync _ _ tt v)

subscription-InSync :
    (name : Bytes) (multi_id : ℕ) (size : Option ℕ) (s : SimpleWriter)
    → InSync s
    → InSync (add_subscription name multi_id size s).0
unfolding add_subscription
subscription-InSync name multi_id none s v = v
subscription-InSync name multi_id (some size) s v = forward-InSync _ _ tt v

sized-InSync :
    (id : ℕ) (bytes : Bytes) (size : Option ℕ) (s : SimpleWriter)
    → InSync s
    → InSync (write_sized id bytes size s).0
unfolding write_sized
sized-InSync id bytes none s v = v
sized-InSync id bytes (some n) s v =
    if-InSync (ltb (length bytes) n) _ _ v (forward-InSync _ _ tt v)

-- If the object and its writer agree on whether the header is complete, they agree after every call
-- of the object, whether the call returns or throws.
pub after-InSync : (call : Call) (s : SimpleWriter) → InSync s → InSync (after call s)
unfolding after complete_header write_info write_parameter write_parameter_change write_text_message
    write_add_logged write_data
after-InSync (format_call name fields) s v =
    format-InSync name fields (check_format s name fields) s refl v
after-InSync complete_call s v =
    if-InSync s.is_header_complete _ _ v (unfold forward write_event in refl)
after-InSync (info_call m) s v = forward-InSync (message_info m) s tt v
after-InSync (parameter_call m) s v =
    if-InSync s.is_header_complete _ _ v (forward-InSync (parameter m) s tt v)
after-InSync (change_call m) s v =
    if-InSync (not s.is_header_complete) _ _ v (forward-InSync (parameter m) s tt v)
after-InSync (text_call level text time) s v =
    if-InSync (not s.is_header_complete) _ _ v (forward-InSync _ s tt v)
after-InSync (add_logged_call name multi_id) s v =
    if-InSync (not s.is_header_complete) _ _ v
      (subscription-InSync name multi_id (find_format name s.formats) s v)
after-InSync (data_call id bytes) s v =
    if-InSync (not s.is_header_complete) _ _ v
      (sized-InSync id bytes (get_elem? s.subscriptions id) s v)
