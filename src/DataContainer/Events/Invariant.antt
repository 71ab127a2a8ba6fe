-- ===== src/DataContainer/Events/Invariant.antt =====
-- The handlers that change the subscriptions or the formats keep the invariant of the container.
use ulog_cpp.Prelude.{refl, sym, ◌∙◌, Option-cases, [], ◌∷◌, ◌++◌, Bool-cases, inl, inr}
use ulog_cpp.Messages.Format.{MessageFormat}
use ulog_cpp.Messages.Logged.{AddLoggedMessage, Data}
use ulog_cpp.Formats.{find_message_format}
use ulog_cpp.Formats.Names.{names}
use ulog_cpp.DataContainer.State.{Subscription, DataContainer, is_header_config, is_skipped}
use ulog_cpp.DataContainer.Events.{
  is_some, find_subscription, add_sample, find_name, insert_name, container_data,
  container_add_logged, container_message_format,
}
use ulog_cpp.DataContainer.Events.Subscribed.{
  IsSubscription, IsNamed, WellFormed, All-map, All-snoc, find_message_format-is_name,
  insert_format-is_name, absent, snoc-Distinct, find-snoc, find_new, find-add_sample,
  add_sample-Distinct, add_sample-IsSubscription, IsNamed-trans,
}

-- `addLoggedMessage`.
pub container_add_logged-WellFormed :
    (m : AddLoggedMessage) (c : DataContainer)
    → WellFormed c
    → WellFormed (container_add_logged m c).0
unfolding container_add_logged insert_name
container_add_logged-WellFormed m c v = elim (Bool-cases (is_skipped c)) [
  | inl e ↦ rw e v
  | inr e ↦ elim (Option-cases (find_subscription m.msg_id c.subscriptions)) [
    | inr (s, h) ↦ rw (e, h) v
    | inl h ↦ elim (Bool-cases (is_some (find_message_format m.message_name c.formats))) [
      | inr k ↦ rw (e, h, k) v
      | inl k ↦
          let s : Subscription = record { add_logged = m; samples = []; format = m.message_name } in
          let base =
            IsNamed-trans c.subscriptions (c.subscriptions ++ s ∷ [])
              (λ id t found. (t, find-snoc id t s c.subscriptions found, refl)) c.by_name v.named in
          rw (e, h, k)
            (record {
              distinct =
                  snoc-Distinct s c.subscriptions (absent m.msg_id c.subscriptions h) v.distinct;
              subscribed =
                  All-snoc (IsSubscription (names c.formats) c.storage_config) c.subscriptions s
                    v.subscribed
                    (record {
                      format = refl;
                      known = sym (find_message_format-is_name m.message_name c.formats) ∙ k;
                      samples = tt;
                      kept = λ _. refl;
                    });
              named =
                  elim (Bool-cases (is_some (find_name (m.message_name, m.multi_id) c.by_name))) [
                    | inl n ↦ rw n base
                    | inr n ↦ rw n (
                        All-snoc (IsNamed (c.subscriptions ++ s ∷ [])) c.by_name _ base
                          (s, find_new s c.subscriptions h, refl, refl))
                  ];
            })
    ]
  ]
]

-- `data`.
pub container_data-WellFormed :
    (d : Data) (c : DataContainer) → WellFormed c → WellFormed (container_data d c).0
unfolding container_data
container_data-WellFormed d c v = elim (Bool-cases (is_header_config c.storage_config)) [
  | inl e ↦ rw e v
  | inr e ↦ elim (Bool-cases (is_some (find_subscription d.msg_id c.subscriptions))) [
    | inr h ↦ rw (e, h) v
    | inl h ↦
        rw (e, h)
          (record {
            distinct = add_sample-Distinct d c.subscriptions v.distinct;
            subscribed =
                add_sample-IsSubscription (names c.formats) c.storage_config d c.subscriptions
                  (λ k. cc) v.subscribed;
            named =
                IsNamed-trans c.subscriptions (add_sample d c.subscriptions)
                  (λ id s found. find-add_sample d id s c.subscriptions found) c.by_name v.named;
          })
  ]
]

-- `messageFormat`.
pub container_message_format-WellFormed :
    (m : MessageFormat) (c : DataContainer)
    → WellFormed c
    → WellFormed (container_message_format m c).0
unfolding container_message_format
container_message_format-WellFormed m c v =
    elim (Bool-cases (is_some (find_message_format m.name c.formats))) [
      | inl e ↦ rw e v
      | inr e ↦ rw e (record {
        distinct = v.distinct;
        subscribed =
            All-map (IsSubscription (names c.formats) c.storage_config) _ c.subscriptions
              (λ s h. record {
                format = h.format;
                known = insert_format-is_name s.format m c.formats h.known;
                samples = h.samples;
                kept = h.kept;
              })
              v.subscribed;
        named = v.named;
      })
    ]
