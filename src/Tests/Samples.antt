-- ===== src/Tests/Samples.antt =====
-- The theorems on the handlers of `DataContainer` at concrete inputs.
use ulog_cpp.Prelude.{none, ◌≢◌, ℕ, ◌≡◌, refl, some, [], ◌∷◌, bytes_eq, codes}
use ulog_cpp.Messages.Logged.{Data}
use ulog_cpp.Handler.{returned}
use ulog_cpp.Formats.{find_message_format}
use ulog_cpp.DataContainer.State.{DataContainer, Subscription, full_log, make_container}
use ulog_cpp.DataContainer.Events.{find_subscription, container_data, container_add_logged}
use ulog_cpp.DataContainer.Samples.{
  with_sample, container_data-find_subscription, container_add_logged-find_subscription,
}
use ulog_cpp.Tests.{sample_logged}

abbrev sample_container : DataContainer
sample_container = record (make_container full_log) {
  formats = record { name = codes "vehicle"; fields = [] } ∷ [];
  subscriptions =
      (record {
        add_logged = record { multi_id = 0; msg_id = 4; message_name = codes "vehicle" };
        samples = [];
        format = codes "vehicle";
      })
      ∷ [];
}

abbrev sample_subscription : Subscription
sample_subscription = record {
  add_logged = record { multi_id = 0; msg_id = 4; message_name = codes "vehicle" };
  samples = [];
  format = codes "vehicle";
}

abbrev sample_of_4 : Data
sample_of_4 = record { msg_id = 4; payload = 7 ∷ [] }

subscription_4 : find_subscription 4 sample_container.subscriptions ≡ some sample_subscription
unfolding find_subscription make_container
subscription_4 = refl

config : sample_container.storage_config ≡ full_log
unfolding make_container
config = refl

container_data-find_subscription_example :
    ((container_data sample_of_4 sample_container).1 ≡ returned)
    × (find_subscription 4 (container_data sample_of_4 sample_container).0.subscriptions
        ≡ some (with_sample sample_of_4 sample_subscription))
    × ((id : ℕ)
        → id ≢ 4
        → find_subscription id (container_data sample_of_4 sample_container).0.subscriptions
          ≡ find_subscription id sample_container.subscriptions)
container_data-find_subscription_example =
    container_data-find_subscription sample_of_4 sample_subscription sample_container config
      subscription_4

subscription_300 : find_subscription 300 sample_container.subscriptions ≡ none
unfolding find_subscription make_container
subscription_300 = refl

known_format :
    find_message_format (codes "vehicle") sample_container.formats
    ≡ some (record { name = codes "vehicle"; fields = [] })
unfolding find_message_format make_container bytes_eq
known_format = refl

container_add_logged-find_subscription_example :
    ((container_add_logged sample_logged sample_container).1 ≡ returned)
    × (find_subscription 300 (container_add_logged sample_logged sample_container).0.subscriptions
        ≡ some (record { add_logged = sample_logged; samples = []; format = codes "vehicle" }))
    × ((id : ℕ)
        → id ≢ 300
        → find_subscription id (container_add_logged sample_logged sample_container).0.subscriptions
          ≡ find_subscription id sample_container.subscriptions)
container_add_logged-find_subscription_example =
    container_add_logged-find_subscription sample_logged
      (record { name = codes "vehicle"; fields = [] }) sample_container config subscription_300
      known_format
