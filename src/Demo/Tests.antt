-- ===== src/Demo/Tests.antt =====
-- The demo at concrete inputs.
use embedded_provisioning_sd.Prelude.{
  ℕ, ◌<◌, ◌≡◌, refl, Bool, true, false, none, some, List, [], ◌∷◌, arith, to_bytes,
}
use embedded_provisioning_sd.Mqtt.Library.{Settles-mono, Settles, success, failed, PublishInfo}
use embedded_provisioning_sd.Mqtt.Tests.{library, labels, library-CountsAttempts}
use embedded_provisioning_sd.Agent.Subscriptions.{
  SubscriptionElement, free_element, strncmp_eq, scan, add_checked, add_subscription, handle_from,
  handle_incoming_publishes,
}
use embedded_provisioning_sd.Agent.ContextTests.{
  agent, errors, agent-CountsErrors, malloc, gives, made, commands, shared,
}
use embedded_provisioning_sd.Provisioning.Tests.{parser, encoder, reject_all, blanks, state}
use embedded_provisioning_sd.Provisioning.FlowTests.{store, config, iteration_unreachable}
use embedded_provisioning_sd.Agent.Thread.{incoming_publish_callback}
use embedded_provisioning_sd.Agent.Incoming.{QueueItem}
use embedded_provisioning_sd.Agent.Incoming.Laws.{QueuesHold}
use embedded_provisioning_sd.Demo.Handler.{
  test_topic, publish_info, expected_received, expected_not_received, not_expected_received,
  not_expected_not_received, first_item, second_item, Handler, goes, null_pointer, Setting,
  subscribe, unsubscribe, publish_message, publish_and_report, receive_item, ◌>>◌,
}
use embedded_provisioning_sd.Demo.Handler.Publish.{publishing, sleeping, completing}
use embedded_provisioning_sd.Demo.Handler.Laws.{subscribe-publish, unsubscribe-publish}
use embedded_provisioning_sd.Demo.Handler.Items.{at_queue, receive_item_none}
use embedded_provisioning_sd.Demo.Handler.TwoItems.{two_items}
use embedded_provisioning_sd.Platform.Queue.{sends, receives}
use embedded_provisioning_sd.Demo.Main.{
  device_config, Threads, Device, AgentSetting, Traffic, main_rounds,
}
use embedded_provisioning_sd.Demo.Main.Laws.{RoundsEnd, main_rounds-RoundsEnd}
use embedded_provisioning_sd.Demo.Main.Terminates.{main_rounds-Settles}
use embedded_provisioning_sd.Provisioning.Flow.Terminates.{provision_device-Settles}

-- A match for every topic.
abbrev every : List ℕ → ℕ → List ℕ → ℕ → Bool
every topic len filter flen = true

abbrev setting : Setting ℕ
setting = record {
  incoming_publish = 500;
  enqueue_callback = 600;
  user_context = 4000;
  agent = commands;
  match_topic = λ t n f m. some (every t n f m);
  sleep = λ s w. w;
  malloc = malloc;
  no_wait = [];
}

abbrev element : ℕ → ℕ → SubscriptionElement
element callback context = record {
  callback = callback;
  callback_context = context;
  filter_string_length = 4;
  filter_string = test_topic;
}

abbrev handler : List SubscriptionElement → Handler ℕ
handler subscriptions = record {
  world = 0;
  shared = record shared { subscriptions = subscriptions };
  queues = made.0;
  message_receive_flag = false;
  reports = [];
  turns = [];
}

abbrev other : PublishInfo
other = record publish_info { payload = []; payload_length = 0 }

subscribe-publish_example :
    (h' : Handler ℕ) × ((subscribe setting
          >> publish_and_report setting expected_received expected_not_received)
        (record (handler (free_element ∷ [])) {
          turns =
              completing 110 1 success []
              ∷ publishing 2 success (other ∷ [])
              ∷ sleeping (publish_info ∷ [])
              ∷ [];
        })
      ≡ goes tt h')
    × (h'.reports ≡ expected_received ∷ [])
unfolding add_subscription add_checked scan
subscribe-publish_example =
    subscribe-publish setting every refl
      (record (handler (free_element ∷ [])) {
        turns =
            completing 110 1 success []
            ∷ publishing 2 success (other ∷ [])
            ∷ sleeping (publish_info ∷ [])
            ∷ [];
      })
      110 1 2 success [] (other ∷ []) [] [] refl refl (λ z. absurd (omega arith))
      (λ z. absurd (omega arith)) (λ w. refl) (λ w. refl) refl refl (λ f g n e. refl)

unsubscribe-publish_example :
    (h' : Handler ℕ) × ((unsubscribe setting
          >> publish_and_report setting not_expected_received not_expected_not_received)
        (record (handler (element 500 0 ∷ element 600 4000 ∷ [])) {
          turns =
              completing 110 0 success []
              ∷ publishing 0 (failed 3) []
              ∷ sleeping (publish_info ∷ other ∷ [])
              ∷ [];
        })
      ≡ goes tt h')
    × (h'.reports ≡ not_expected_not_received ∷ [])
unfolding strncmp_eq
unsubscribe-publish_example =
    unsubscribe-publish setting every refl
      (record (handler (element 500 0 ∷ element 600 4000 ∷ [])) {
        turns =
            completing 110 0 success []
            ∷ publishing 0 (failed 3) []
            ∷ sleeping (publish_info ∷ other ∷ [])
            ∷ [];
      })
      110 0 0 (failed 3) [] [] (publish_info ∷ other ∷ []) [] refl refl (λ z. absurd (omega arith))
      (λ w. refl) (λ w. refl) (λ e. refl, (λ e. refl, tt))

-- The queue of the two items is there, and nothing in it waits.
receive_item_none_example :
    receive_item setting first_item (record (handler []) {
      turns =
          at_queue (record { now = record { sec = 1; usec = 0 }; others = []; ret = 110 } ∷ [])
          ∷ [];
    })
    ≡ null_pointer
receive_item_none_example =
    receive_item_none setting 2 (4096 ∷ 4160 ∷ []) first_item
      (record (handler []) {
        turns =
            at_queue (record { now = record { sec = 1; usec = 0 }; others = []; ret = 110 } ∷ [])
            ∷ [];
      })
      (record { now = record { sec = 1; usec = 0 }; others = []; ret = 110 }) [] made.2 refl
      (λ z. absurd (omega arith)) refl

abbrev publishing_twice : Handler ℕ
publishing_twice = record (handler (element 600 4000 ∷ [])) {
  turns =
      publishing 0 success (publish_info ∷ [])
      ∷ publishing 1 (failed 3) (publish_info ∷ [])
      ∷ at_queue []
      ∷ at_queue []
      ∷ at_queue []
      ∷ at_queue []
      ∷ [];
}

two_items_example :
    (h' : Handler ℕ) × (item₁ : QueueItem) × (item₂ : QueueItem) × ((do
      publish_message setting
      publish_message setting
      receive_item setting first_item
      receive_item setting second_item)
        publishing_twice
      ≡ goes tt h')
    × (h'.reports ≡ first_item item₁ ∷ second_item item₂ ∷ [])
    × (item₁.publish_info ≡ publish_info)
    × (item₂.publish_info ≡ publish_info)
    × QueuesHold 2 h'.queues (4096 ∷ 4160 ∷ []) []
unfolding incoming_publish_callback handle_incoming_publishes handle_from
two_items_example =
    two_items setting gives refl 2 4096 4160 0 1 success (failed 3) [] publishing_twice [] refl
      (λ w. refl) refl made.2 (omega arith) (omega arith) refl refl (omega arith) (made.3 4096)
      (made.3 4160) refl

abbrev threads : Threads ℕ
threads = record {
  malloc_thread = λ w. (64, w);
  pthread_create = λ thread w. (11, w);
  sleep = λ s w. w;
}

abbrev agent_setting : AgentSetting ℕ
agent_setting = record {
  base = 1000;
  command_size = 48;
  malloc = malloc;
  agent_init = λ w. (success, w);
}

abbrev device : Device ℕ
device = record {
  state = state 0;
  globals = record { command_queue = none; pool = record { queue = none; initialized = false } };
}

errors_few : (w : ℕ) → errors w < 4
errors_few w = omega arith

-- A structure is taken from the pool and sent to the agent.
abbrev one_command : Traffic
one_command = record { commands = sends (to_bytes 8 1000) ∷ []; pool = receives ∷ [] }

-- Two rounds without a broker.
main_rounds-RoundsEnd_example :
    RoundsEnd
      (library false [])
      agent
      labels
      agent_setting
      threads
      (λ w. 4)
      errors
      (parser true)
      encoder
      store
      reject_all
      config
      50
      (blanks, one_command)
      ((blanks, one_command) ∷ [])
      device
      (main_rounds
        (library false [])
        agent
        labels
        agent_setting
        threads
        (λ w. 4)
        (parser true)
        encoder
        store
        reject_all
        config
        50
        ((blanks, one_command) ∷ (blanks, one_command) ∷ [])
        device)
main_rounds-RoundsEnd_example =
    main_rounds-RoundsEnd (library false []) agent labels agent_setting threads (λ w. 4) errors
      (parser true) encoder store reject_all config 50 agent-CountsErrors (λ b. b)
      library-CountsAttempts errors_few (blanks, one_command) ((blanks, one_command) ∷ []) device

-- Those two rounds are done: without a broker every provisioning ends.
two_rounds_done :
    Settles
      (λ _ _. Unit {0})
      (main_rounds
        (library false [])
        agent
        labels
        agent_setting
        threads
        (λ w. 4)
        (parser true)
        encoder
        store
        reject_all
        config
        50
        ((blanks, one_command) ∷ (blanks, one_command) ∷ [])
        device)
two_rounds_done =
    Settles-mono _ _ _
      (main_rounds-Settles (library false []) agent labels agent_setting threads (λ w. 4) errors
        (parser true) encoder store reject_all config 50
        (λ k d.
          provision_device-Settles (library false []) (parser true) encoder store reject_all
            (device_config config) 50 k d.state
            (λ l s.
              iteration_unreachable (device_config config) l.status l.connection_established
                l.key_cert s))
        agent-CountsErrors (λ b. b) library-CountsAttempts errors_few (blanks, one_command)
        ((blanks, one_command) ∷ []) device)
      (λ oks d h. tt)
