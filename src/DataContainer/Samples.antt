-- ===== src/DataContainer/Samples.antt =====
-- The subscriptions by message id, and their samples.
use ulog_cpp.Prelude.{
  ℕ, ◌≡◌, ◌≢◌, refl, arith, none, some, List, [], ◌∷◌, ◌++◌, Bool-cases, inl, inr,
}
use ulog_cpp.Messages.Logged.{AddLoggedMessage, Data}
use ulog_cpp.Messages.Format.{MessageFormat}
use ulog_cpp.Handler.{returned}
use ulog_cpp.Formats.{find_message_format}
use ulog_cpp.DataContainer.State.{Subscription, DataContainer, full_log}
use ulog_cpp.DataContainer.Events.{
  find_subscription, add_sample, container_add_logged, container_data,
}

-- A subscription with one more sample.
abbrev pub with_sample : Data → Subscription → Subscription
with_sample d s = record s { samples = s.samples ++ d ∷ [] }

find_added :
    (d : Data) (ss : List Subscription) (s : Subscription)
    → find_subscription d.msg_id ss ≡ some s
    → find_subscription d.msg_id (add_sample d ss) ≡ some (with_sample d s)
unfolding find_subscription add_sample
find_added d [] s h = cc
find_added d (t ∷ ss) s h = ground (arith, find_added d ss s)

find_other :
    (d : Data) (id : ℕ) (ss : List Subscription)
    → id ≢ d.msg_id
    → find_subscription id (add_sample d ss) ≡ find_subscription id ss
unfolding find_subscription add_sample
find_other d id [] ne = refl
find_other d id (t ∷ ss) ne = ground (arith, find_other d id ss ne)

find_last :
    (s : Subscription) (ss : List Subscription)
    → find_subscription s.add_logged.msg_id ss ≡ none
    → find_subscription s.add_logged.msg_id (ss ++ s ∷ []) ≡ some s
unfolding find_subscription
find_last s [] h = ground arith
find_last s (t ∷ ss) h = ground (arith, find_last s ss)

find_before :
    (s : Subscription) (id : ℕ) (ss : List Subscription)
    → id ≢ s.add_logged.msg_id
    → find_subscription id (ss ++ s ∷ []) ≡ find_subscription id ss
unfolding find_subscription
find_before s id [] ne = ground arith
find_before s id (t ∷ ss) ne = ground (arith, find_before s id ss ne)

-- A container of the full log that has a subscription with the id of a data message: the handler
-- returns, adds the message behind the samples of this subscription, and leaves what is found under
-- every other id as it was.
pub container_data-find_subscription :
    (d : Data) (s : Subscription) (c : DataContainer)
    → c.storage_config ≡ full_log
    → find_subscription d.msg_id c.subscriptions ≡ some s
    → let c' = (container_data d c).0 in
      ((container_data d c).1 ≡ returned)
      × (find_subscription d.msg_id c'.subscriptions ≡ some (with_sample d s))
      × ((id : ℕ)
          → id ≢ d.msg_id
          → find_subscription id c'.subscriptions ≡ find_subscription id c.subscriptions)
unfolding container_data
container_data-find_subscription d s c full h =
    rw (full, h)
      (refl, find_added d c.subscriptions s h, λ id ne. find_other d id c.subscriptions ne)

-- A container of the full log that has no subscription with the id, and has the format: the handler
-- returns, adds a subscription with no samples under the id, and leaves what is found under every
-- other id as it was.
pub container_add_logged-find_subscription :
    (m : AddLoggedMessage) (f : MessageFormat) (c : DataContainer)
    → c.storage_config ≡ full_log
    → find_subscription m.msg_id c.subscriptions ≡ none
    → find_message_format m.message_name c.formats ≡ some f
    → let c' = (container_add_logged m c).0 in
      let s : Subscription = record { add_logged = m; samples = []; format = m.message_name } in
      ((container_add_logged m c).1 ≡ returned)
      × (find_subscription m.msg_id c'.subscriptions ≡ some s)
      × ((id : ℕ)
          → id ≢ m.msg_id
          → find_subscription id c'.subscriptions ≡ find_subscription id c.subscriptions)
unfolding container_add_logged
container_add_logged-find_subscription m f c full h k =
    let s : Subscription = record { add_logged = m; samples = []; format = m.message_name } in
    elim (Bool-cases c.is_header_complete) [
      | inl e ↦
          rw (full, e, h, k)
            (refl, find_last s c.subscriptions h, λ id ne. find_before s id c.subscriptions ne)
      | inr e ↦
          rw (full, e, h, k)
            (refl, find_last s c.subscriptions h, λ id ne. find_before s id c.subscriptions ne)
    ]
