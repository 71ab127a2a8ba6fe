-- ===== src/DataContainer/Resolution.antt =====
-- data_container.cpp: `headerComplete`, which resolves the definitions of all fields.
pub mod Names
use ulog_cpp.Prelude.{true, List, [], ◌∷◌, map, Bytes}
use ulog_cpp.Messages.Info.{MessageInfo, ParameterDefault}
use ulog_cpp.Handler.{Outcome, returned, thrown}
use ulog_cpp.Formats.{Formats, resolve_format, resolve_own}
use ulog_cpp.DataContainer.State.{DataContainer, Call, and_then}

-- `resolveDefinition` of each element in turn, up to an exception.
module _ {A : Type 0} (one : A → Formats → (A × Formats) × Outcome) where
  keep_head :
      List A
      → (A × Formats) × Outcome
      → (List A × Formats → (List A × Formats) × Outcome)
      → (List A × Formats) × Outcome
  keep_head es ((a, fs), thrown x) next = ((a ∷ es, fs), thrown x)
  keep_head es ((a, fs), returned) next = let ((bs, gs), o) = next (es, fs) in ((a ∷ bs, gs), o)

  resolve_each : List A → Formats → (List A × Formats) × Outcome
  unfolding keep_head
  resolve_each [] fs = (([], fs), returned)
  resolve_each (a ∷ es) fs = keep_head es (one a fs) (λ p. resolve_each es p.1)

unfoldable pub resolve_info : MessageInfo → Formats → (MessageInfo × Formats) × Outcome
resolve_info m fs = let ((f, gs), o) = resolve_own m.field fs in ((record m { field = f }, gs), o)

unfoldable pub resolve_default : ParameterDefault → Formats → (ParameterDefault × Formats) × Outcome
resolve_default m fs =
    let ((f, gs), o) = resolve_own m.field fs in ((record m { field = f }, gs), o)

abbrev of_entry :
    {A : Type 0}
    → (A → Formats → (A × Formats) × Outcome)
    → Bytes × A
    → Formats
    → ((Bytes × A) × Formats) × Outcome
of_entry one e fs = let ((a, gs), o) = one e.1 fs in (((e.0, a), gs), o)

resolve_names : List Bytes → Formats → Formats × Outcome
resolve_names [] fs = (fs, returned)
resolve_names (n ∷ ns) fs =
    let (gs, o) = resolve_format n fs in
    elim o [ returned ↦ resolve_names ns gs | thrown x ↦ (gs, thrown x) ]

-- The loops of `headerComplete`, in order.
resolve_formats : DataContainer → Call
unfolding resolve_names
resolve_formats c =
    let (fs, o) = resolve_names (map (λ m. m.name) c.formats) c.formats in
    (record c { formats = fs }, o)

resolve_infos : DataContainer → Call
unfolding resolve_each
resolve_infos c =
    let ((es, fs), o) = resolve_each (of_entry resolve_info) c.infos c.formats in
    (record c { infos = es; formats = fs }, o)

resolve_multi : DataContainer → Call
unfolding resolve_each
resolve_multi c =
    let one : List (List MessageInfo) → Formats → (List (List MessageInfo) × Formats) × Outcome =
      resolve_each (resolve_each resolve_info) in
    let ((es, fs), o) = resolve_each (of_entry one) c.infos_multi c.formats in
    (record c { infos_multi = es; formats = fs }, o)

resolve_defaults : DataContainer → Call
unfolding resolve_each
resolve_defaults c =
    let ((es, fs), o) = resolve_each (of_entry resolve_default) c.default_parameters c.formats in
    (record c { default_parameters = es; formats = fs }, o)

resolve_initial : DataContainer → Call
unfolding resolve_each
resolve_initial c =
    let ((es, fs), o) = resolve_each (of_entry resolve_info) c.initial_parameters c.formats in
    (record c { initial_parameters = es; formats = fs }, o)

resolve_changed : DataContainer → Call
unfolding resolve_each
resolve_changed c =
    let ((es, fs), o) = resolve_each resolve_info c.changed_parameters c.formats in
    (record c { changed_parameters = es; formats = fs }, o)

-- `headerComplete`.
unfoldable pub container_header_complete : DataContainer → Call
unfolding and_then resolve_info resolve_default resolve_formats resolve_infos resolve_multi
    resolve_defaults resolve_initial resolve_changed
container_header_complete c =
    and_then (λ d. (record d { is_header_complete = true }, returned))
      (and_then resolve_changed (
        and_then resolve_initial (
          and_then resolve_defaults
            (and_then resolve_multi (and_then resolve_infos (resolve_formats c))))))
