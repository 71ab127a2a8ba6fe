-- ===== src/Tests/Containers.antt =====
-- The theorems on the container at concrete inputs.
use ulog_cpp.Prelude.{◌≡◌, refl, some, List, [], ◌∷◌, bytes_eq, codes}
use ulog_cpp.Exception.{ok}
use ulog_cpp.Handler.{Event, message_format, add_logged_message, data_msg}
use ulog_cpp.Formats.{find_message_format, insert_format}
use ulog_cpp.DataContainer.State.{DataContainer, Subscription, full_log, make_container}
use ulog_cpp.DataContainer.Events.{
  find_subscription, find_name, subscription, container_event, container_message_format,
  container_add_logged, container_data,
}
use ulog_cpp.DataContainer.Events.Subscribed.{WellFormed}
use ulog_cpp.DataContainer.Events.Reachable.{
  handled, make_container-WellFormed, subscription-WellFormed,
}

-- A format, a subscription to it, one with the same id, and a sample.
abbrev some_events : List Event
some_events =
    message_format (record { name = codes "A"; fields = [] })
    ∷ add_logged_message (record { multi_id = 2; msg_id = 5; message_name = codes "A" })
    ∷ add_logged_message (record { multi_id = 3; msg_id = 5; message_name = codes "A" })
    ∷ data_msg (record { msg_id = 5; payload = 1 ∷ [] })
    ∷ []

abbrev filled : DataContainer
filled = handled some_events (make_container full_log)

make_container-WellFormed_example : WellFormed (handled some_events (make_container full_log))
make_container-WellFormed_example = make_container-WellFormed full_log some_events

filled-WellFormed : WellFormed filled
filled-WellFormed = make_container-WellFormed full_log some_events

name_there : find_name (codes "A", 2) filled.by_name ≡ some 5
unfolding find_name make_container container_event container_message_format container_add_logged
    container_data find_message_format insert_format find_subscription bytes_eq
name_there = refl

subscription-WellFormed_example :
    (s : Subscription) × (subscription (codes "A") 2 filled ≡ ok s)
    × (find_subscription 5 filled.subscriptions ≡ some s)
    × (s.add_logged.message_name ≡ codes "A")
    × (s.add_logged.multi_id ≡ 2)
subscription-WellFormed_example =
    subscription-WellFormed filled (codes "A") 2 5 filled-WellFormed name_there
