-- ===== src/DataContainer/Events/Reachable.antt =====
-- The invariant of a container over every sequence of messages.
use ulog_cpp.Prelude.{
  ℕ, ◌≡◌, refl, arith, Bool, true, false, not, ◌&&◌, some, List, [], ◌∷◌, All, Bytes, bytes_eq,
  bytes_eq_iff, Bool-cases, inl, inr, ◌==◌, if◌then◌else◌,
}
use ulog_cpp.Exception.{ok}
use ulog_cpp.Messages.Info.{MessageInfo, Parameter, ParameterDefault}
use ulog_cpp.Handler.{
  Event, header_complete, message_info, message_format, parameter, parameter_default,
  add_logged_message, logging, data_msg, dropout, sync, returned,
}
use ulog_cpp.Formats.Names.{names}
use ulog_cpp.DataContainer.State.{
  Subscription, DataContainer, Call, StorageConfig, make_container, is_skipped, and_then,
}
use ulog_cpp.DataContainer.Resolution.{resolve_info, resolve_default}
use ulog_cpp.DataContainer.Resolution.Names.{
  SameBase, and_then-SameBase, resolve_info-KeepsNames, resolve_default-KeepsNames,
  container_header_complete-SameBase,
}
use ulog_cpp.DataContainer.Events.{
  find_subscription, find_name, with_resolved, store_multi, store_info, store_parameter,
  store_default, is_nil, container_message_info, container_parameter, container_parameter_default,
  container_logging, container_dropout, container_event, subscription, subscription_at,
}
use ulog_cpp.DataContainer.Events.Subscribed.{WellFormed, IsNamed, SameBase-WellFormed}
use ulog_cpp.DataContainer.Events.Invariant.{
  container_add_logged-WellFormed, container_data-WellFormed, container_message_format-WellFormed,
}

refl_base :
    (c d : DataContainer)
    → names d.formats ≡ names c.formats
    → d.subscriptions ≡ c.subscriptions
    → d.by_name ≡ c.by_name
    → d.storage_config ≡ c.storage_config
    → SameBase c d
refl_base c d f s b g = record { formats = f; subscriptions = s; by_name = b; storage_config = g }

if-SameBase :
    (b : Bool) (c : DataContainer) (p q : Call)
    → SameBase c p.0
    → SameBase c q.0
    → SameBase c (if b then p else q).0
if-SameBase true c p q h k = h
if-SameBase false c p q h k = k

split-SameBase :
    (b : Bool) (c : DataContainer) (p q : Call)
    → SameBase c p.0
    → SameBase c q.0
    → SameBase c (elim b as (λ _. Call) [ false ↦ p | true ↦ q ]).0
split-SameBase false c p q h k = h
split-SameBase true c p q h k = k

store_multi-SameBase : (m : MessageInfo) (c : DataContainer) → SameBase c (store_multi m c).0
unfolding store_multi
store_multi-SameBase m c = if-SameBase (not m.continued) c _ _ (refl_base c _ refl refl refl refl) (
    if-SameBase (is_nil _) c _ _ (refl_base c _ refl refl refl refl)
      (refl_base c _ refl refl refl refl))

store_info-SameBase : (m : MessageInfo) (c : DataContainer) → SameBase c (store_info m c).0
unfolding store_info
store_info-SameBase m c =
    if-SameBase (is_skipped c) c _ _ (refl_base c c refl refl refl refl)
      (if-SameBase m.is_multi c _ _ (store_multi-SameBase m c) (refl_base c _ refl refl refl refl))

store_parameter-SameBase : (m : Parameter) (c : DataContainer) → SameBase c (store_parameter m c).0
unfolding store_parameter
store_parameter-SameBase m c =
    if-SameBase c.is_header_complete c _ _ (refl_base c _ refl refl refl refl)
      (refl_base c _ refl refl refl refl)

with_resolved-SameBase :
    (next : MessageInfo → DataContainer → Call) (m : MessageInfo) (c : DataContainer)
    → ((n : MessageInfo) (d : DataContainer) → SameBase d (next n d).0)
    → SameBase c (with_resolved next m c).0
unfolding with_resolved
with_resolved-SameBase next m c keep =
    let ((n, fs), o) = resolve_info m c.formats in
    split-SameBase c.is_header_complete c (next m c)
      (and_then (next n) (record c { formats = fs }, o)) (keep m c)
      (and_then-SameBase c (next n) (record c { formats = fs }, o) (λ d. keep n d)
        (refl_base c (record c { formats = fs }) (resolve_info-KeepsNames m c.formats) refl refl
          refl))

container_parameter_default-SameBase :
    (m : ParameterDefault) (c : DataContainer) → SameBase c (container_parameter_default m c).0
unfolding container_parameter_default store_default
container_parameter_default-SameBase m c =
    let ((n, fs), o) = resolve_default m c.formats in
    split-SameBase c.is_header_complete c (store_default m c)
      (and_then (store_default n) (record c { formats = fs }, o))
      (refl_base c _ refl refl refl refl)
      (and_then-SameBase c (store_default n) (record c { formats = fs }, o)
        (λ d. refl_base d _ refl refl refl refl)
        (refl_base c (record c { formats = fs }) (resolve_default-KeepsNames m c.formats) refl refl
          refl))

container_parameter-SameBase :
    (m : Parameter) (c : DataContainer) → SameBase c (container_parameter m c).0
unfolding container_parameter
container_parameter-SameBase m c =
    split-SameBase (is_skipped c) c (with_resolved store_parameter m c) (c, returned)
      (with_resolved-SameBase store_parameter m c store_parameter-SameBase)
      (refl_base c c refl refl refl refl)

-- Every handler keeps the invariant, whether it returns or throws.
pub container_event-WellFormed :
    (e : Event) (c : DataContainer) → WellFormed c → WellFormed (container_event e c).0
unfolding container_event container_message_info container_logging container_dropout
container_event-WellFormed header_complete c v =
    SameBase-WellFormed c _ (container_header_complete-SameBase c) v
container_event-WellFormed (message_info m) c v =
    SameBase-WellFormed c _ (with_resolved-SameBase store_info m c store_info-SameBase) v
container_event-WellFormed (message_format m) c v = container_message_format-WellFormed m c v
container_event-WellFormed (parameter m) c v =
    SameBase-WellFormed c _ (container_parameter-SameBase m c) v
container_event-WellFormed (parameter_default m) c v =
    SameBase-WellFormed c _ (container_parameter_default-SameBase m c) v
container_event-WellFormed (add_logged_message m) c v = container_add_logged-WellFormed m c v
container_event-WellFormed (logging m) c v =
    SameBase-WellFormed c _
      (if-SameBase (is_skipped c) c _ _ (refl_base c c refl refl refl refl)
        (refl_base c _ refl refl refl refl))
      v
container_event-WellFormed (data_msg d) c v = container_data-WellFormed d c v
container_event-WellFormed (dropout m) c v =
    SameBase-WellFormed c _
      (if-SameBase (is_skipped c) c _ _ (refl_base c c refl refl refl refl)
        (refl_base c _ refl refl refl refl))
      v
container_event-WellFormed sync c v = v

-- A container after these calls.
abbrev pub handled : List Event → DataContainer → DataContainer
handled [] c = c
handled (e ∷ es) c = handled es (container_event e c).0

handled-WellFormed :
    (es : List Event) (c : DataContainer) → WellFormed c → WellFormed (handled es c)
handled-WellFormed [] c v = v
handled-WellFormed (e ∷ es) c v =
    handled-WellFormed es (container_event e c).0 (container_event-WellFormed e c v)

-- A container that was made and then handed any messages, of which the handlers may have thrown at
-- any: its subscriptions have different message ids, each has a format that the container knows and
-- samples of its own id only, none with the header configuration, and each entry by name and
-- instance leads to the subscription of that name and instance.
pub make_container-WellFormed :
    (config : StorageConfig) (es : List Event) → WellFormed (handled es (make_container config))
unfolding make_container
make_container-WellFormed config es =
    handled-WellFormed es (make_container config)
      (record { distinct = tt; subscribed = tt; named = tt })

find_name-All :
    (P : (Bytes × ℕ) × ℕ → Type 0) (key : Bytes × ℕ) (id : ℕ) (es : List ((Bytes × ℕ) × ℕ))
    → All P es
    → find_name key es ≡ some id
    → P (key, id)
unfolding find_name
find_name-All P key id [] h f = absurd (cc f)
find_name-All P (name, multi) id (((n, i), j) ∷ es) (h, hs) f =
    elim (Bool-cases (bytes_eq n name && i == multi)) [
      | inl e ↦
          let names : n ≡ name = ground (arith, bytes_eq_iff n name) in
          let ids : i ≡ multi = ground arith in
          let found : j ≡ id = ground (arith, f) in rw⁻¹ (names, ids, found) h
      | inr e ↦ find_name-All P (name, multi) id es hs (ground (arith, f))
    ]

-- In a container with this invariant, an entry by name and instance leads to a subscription:
-- `subscription` returns the one that is found under the id of the entry, which has the name and
-- the instance.
pub subscription-WellFormed :
    (c : DataContainer) (name : Bytes) (multi_id id : ℕ)
    → WellFormed c
    → find_name (name, multi_id) c.by_name ≡ some id
    → (s : Subscription) × (subscription name multi_id c ≡ ok s)
      × (find_subscription id c.subscriptions ≡ some s)
      × (s.add_logged.message_name ≡ name)
      × (s.add_logged.multi_id ≡ multi_id)
unfolding subscription subscription_at
subscription-WellFormed c name multi_id id v f =
    let (s, found, n, m) =
      find_name-All (IsNamed c.subscriptions) (name, multi_id) id c.by_name v.named f in
    (s, rw (f, subscription_at, found) refl, found, n, m)
