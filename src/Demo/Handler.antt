-- ===== src/Demo/Handler.antt =====
-- main.c: `prvDataModelHandlerThread`, which subscribes, publishes and receives through the agent, and the
-- callback of its subscription.
--
-- What other threads do is a list of turns, one for each call that waits: which commands the agent
-- completes and how the waits end, and the publishes that come in behind it. A publish is dispatched
-- whole, by `prvIncomingPublishCallback`.
pub mod Delivery
pub mod Publish
pub mod Laws
pub mod Items
pub mod TwoItems
use embedded_provisioning_sd.Prelude.{
  ℕ, zero, suc, ◌+◌, Bool, true, false, Option, none, some, List, [], ◌∷◌, ◌++◌, ◌==◌,
  if◌then◌else◌,
}
use embedded_provisioning_sd.Platform.Queue.{Wake, Outcome, blocked, returned}
use embedded_provisioning_sd.Mqtt.Library.{MqttStatus, PublishInfo}
use embedded_provisioning_sd.Agent.Subscriptions.{MatchTopic, Call}
use embedded_provisioning_sd.Agent.Thread.{incoming_publish_callback}
use embedded_provisioning_sd.Agent.Incoming.{
  QueueItem, Queues, enqueue_publish, dequeue_incoming_publish, free_incoming_publish,
}
use embedded_provisioning_sd.Agent.Calls.{
  Shared, Round, Commands, publish, add_subscription_sync, remove_subscription_sync,
  add_subscription_with_queue, remove_subscription_with_queue,
}

-- "test"
abbrev pub test_topic : List ℕ
test_topic = 116 ∷ 101 ∷ 115 ∷ 116 ∷ []

-- "HelloWorld\r\n"
abbrev pub hello_world : List ℕ
hello_world = 72 ∷ 101 ∷ 108 ∷ 108 ∷ 111 ∷ 87 ∷ 111 ∷ 114 ∷ 108 ∷ 100 ∷ 13 ∷ 10 ∷ []

-- `xPublishInfo`
abbrev pub publish_info : PublishInfo
publish_info = record {
  qos = 1;
  retain = false;
  dup = false;
  topic_name = test_topic;
  topic_name_length = 4;
  payload = hello_world;
  payload_length = 12;
}

-- What is printed, less the "publish message" before each publish.
pub data Report : Type 0 where
  expected_received expected_not_received : Report
  not_expected_received not_expected_not_received : Report
  first_item second_item : QueueItem → Report
  unexpected_from_queue : Report

-- What others do at a call: two lists of rounds for its waits on the event, the wakes for its wait on a
-- queue, and the publishes that come in behind it.
pub record Turn : Type 0 where
  pub old_event : List Round
  pub rounds : List Round
  pub wakes : List Wake
  pub arrivals : List PublishInfo

-- The thread's context with its queues, `messageReceiveFlag`, what was printed, and the turns to come.
pub record Handler (W : Type 0) : Type 0 where
  pub world : W
  pub shared : Shared
  pub queues : Queues
  pub message_receive_flag : Bool
  pub reports : List Report
  pub turns : List Turn

-- The thread goes on, or waits, or accesses what NULL points to.
pub data Step (W A : Type 0) : Type 0 where
  goes : A → Handler W → Step W A
  waits null_pointer : Step W A

abbrev pub Act : Type 0 → Type 0 → Type 0
Act W A = Handler W → Step W A

module _ {W A B : Type 0} where
  abbrev pub and_then : Step W A → (A → Act W B) → Step W B
  and_then (goes a h) k = k a h
  and_then waits k = waits
  and_then null_pointer k = null_pointer

  infixl 5 ◌>>=◌ ◌>>◌
  abbrev pub ◌>>=◌ : Act W A → (A → Act W B) → Act W B
  m >>= k = λ h. and_then (m h) k

  abbrev pub ◌>>◌ : Act W A → Act W B → Act W B
  m >> n = m >>= λ _. n

abbrev pub report : {W : Type 0} → Report → Act W (Unit {0})
report r h = goes tt (record h { reports = h.reports ++ r ∷ [] })

-- The addresses of `prvDataModelHandlerIncommingPublish`, of `mqttAgentEnqueuePublishCallback` and of the
-- user context; the agent library, `MQTT_MatchTopic`, `sleep` and `malloc`; and how a wait of no time on a
-- queue ends in the agent's thread.
pub record Setting (W : Type 0) : Type 0 where
  pub incoming_publish : ℕ
  pub enqueue_callback : ℕ
  pub user_context : ℕ
  pub agent : Commands W
  pub match_topic : MatchTopic
  pub sleep : ℕ → W → W
  pub malloc : ℕ → List ℕ
  pub no_wait : List Wake

module _ {W : Type 0} (e : Setting W) where
  abbrev pub queues_behind : {A : Type 0} → Outcome A Queues → Queues
  queues_behind (blocked qs) = qs
  queues_behind (returned a qs) = qs

  -- A call of a callback by the agent's thread: `prvDataModelHandlerIncommingPublish` or
  -- `mqttAgentEnqueuePublishCallback`, with a context that is the thread's.
  unfoldable pub run_call : PublishInfo → Handler W → Call → Handler W
  run_call info h call =
      if call.callback == e.incoming_publish
      then record h { message_receive_flag = true }
      else if call.callback == e.enqueue_callback
      then record h {
        queues = queues_behind (enqueue_publish e.malloc h.queues info e.no_wait e.no_wait);
      }
      else h

  unfoldable pub run_calls : PublishInfo → Handler W → List Call → Handler W
  run_calls info h [] = h
  run_calls info h (c ∷ cs) = run_calls info (run_call info h c) cs

  unfoldable pub deliver : Handler W → List PublishInfo → Handler W
  deliver h [] = h
  deliver h (info ∷ rest) =
      deliver
        (run_calls info h (incoming_publish_callback e.match_topic h.shared.subscriptions info))
        rest

  -- The next turn; without one the thread waits.
  unfoldable pub take_turn : {A : Type 0} → (Turn → Act W A) → Act W A
  take_turn k h = elim h.turns [ [] ↦ waits | t ∷ ts ↦ k t (record h { turns = ts }) ]

  -- The end of a call of the agent, whose result is not looked at; then the publishes come in.
  abbrev pub called : Turn → Handler W → Option MqttStatus × Shared × W → Step W (Unit {0})
  called t h (none, s, w) = waits
  called t h (some status, s, w) = goes tt (deliver (record h { shared = s; world = w }) t.arrivals)

  -- The calls of the agent: `iotshdDev_MQTTAgentAddSubscription` and ...RemoveSubscription on "test", the
  -- same two with the queue, and `iotshdDev_MQTTAgentPublish`.
  unfoldable pub subscribe : Act W (Unit {0})
  subscribe = take_turn (λ t h. called t h (
      add_subscription_sync e.agent test_topic e.incoming_publish 0 5000 h.world h.shared
        t.old_event t.rounds))

  unfoldable pub unsubscribe : Act W (Unit {0})
  unsubscribe = take_turn (λ t h.
      called t h
        (remove_subscription_sync e.agent test_topic 5000 h.world h.shared t.old_event t.rounds))

  unfoldable pub subscribe_with_queue : Act W (Unit {0})
  subscribe_with_queue = take_turn (λ t h. called t h (
      add_subscription_with_queue e.agent test_topic e.enqueue_callback e.user_context 5000 h.world
        h.shared t.old_event t.rounds))

  unfoldable pub unsubscribe_with_queue : Act W (Unit {0})
  unsubscribe_with_queue = take_turn (λ t h. called t h (
      remove_subscription_with_queue e.agent test_topic 5000 h.world h.shared t.old_event t.rounds))

  unfoldable pub publish_message : Act W (Unit {0})
  publish_message =
      take_turn (λ t h. called t h (publish e.agent publish_info 100 h.world h.shared t.rounds))

  -- `sleep( 3 )`
  unfoldable pub sleep_seconds : Act W (Unit {0})
  sleep_seconds =
      take_turn (λ t h. goes tt (deliver (record h { world = e.sleep 3 h.world }) t.arrivals))

  -- `messageReceiveFlag = false;`, a publish, the wait for it to come back, and what is printed.
  unfoldable pub publish_and_report : Report → Report → Act W (Unit {0})
  publish_and_report received not_received = do
    (λ h. goes tt (record h { message_receive_flag = false }))
    publish_message
    sleep_seconds
    (λ h. report (if h.message_receive_flag then received else not_received) h)

  -- `iotshdDev_MQTTAgentDequeueIncommingPublish`
  unfoldable pub dequeue : ℕ → Act W (Option ℕ)
  dequeue block = take_turn (λ t h. elim (dequeue_incoming_publish h.queues block t.wakes) [
    | blocked qs ↦ waits
    | returned item qs ↦ goes item (deliver (record h { queues = qs }) t.arrivals)
  ])

  -- `iotshdDev_MQTTAgentFreeIncommingPublish( pUserContext, pQueueItem, false )`
  unfoldable pub free_item : ℕ → Act W (Unit {0})
  free_item p = take_turn (λ t h. elim (free_incoming_publish h.queues p false t.wakes) [
    | blocked qs ↦ waits
    | returned ok qs ↦ goes tt (deliver (record h { queues = qs }) t.arrivals)
  ])

  -- An item is dequeued, printed and given back. That it is not NULL is not asked.
  unfoldable pub receive_item : (QueueItem → Report) → Act W (Unit {0})
  receive_item as_report = do
    item ← dequeue 5000
    elim item [
      | none ↦ λ h. null_pointer
      | some p ↦ do (λ h. report (as_report (h.queues.queue_items p)) h); free_item p
    ]

  -- A dequeue that should find nothing; what it finds is not given back.
  unfoldable pub expect_no_item : Act W (Unit {0})
  expect_no_item = do
    item ← dequeue 1000
    elim item [ none ↦ goes tt | some p ↦ report unexpected_from_queue ]

  -- The body of `while( 1 )`.
  unfoldable pub handler_round : Act W (Unit {0})
  handler_round = do
    subscribe
    publish_and_report expected_received expected_not_received
    unsubscribe
    publish_and_report not_expected_received not_expected_not_received
    subscribe_with_queue
    publish_message
    publish_message
    receive_item first_item
    receive_item second_item
    unsubscribe_with_queue
    expect_no_item
    expect_no_item
