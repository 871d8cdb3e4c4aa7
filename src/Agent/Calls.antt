-- ===== src/Agent/Calls.antt =====
-- libraries/mqtt_agent/source/mqtt_agent.c: the calls that wait for the agent, and the callbacks by which
-- the agent's thread completes them.
--
-- As for the event, a critical section runs whole. Here a wait also says which callbacks the agent's
-- thread runs while the caller waits.
pub mod Laws
pub mod Refine
use embedded_provisioning_sd.Prelude.{
  ℕ, ◌%◌, ◌^◌, Bool, true, false, Option, none, some, List, [], ◌∷◌, ◌==◌, if◌then◌else◌, length,
}
use embedded_provisioning_sd.Platform.Event.{SyncEvent, set_event, consume}
use embedded_provisioning_sd.Mqtt.Library.{MqttStatus, success, is_success, PublishInfo}
use embedded_provisioning_sd.Agent.Subscriptions.{
  SubscriptionElement, add_subscription, remove_subscription,
}
use embedded_provisioning_sd.Agent.Incoming.{UserContext}

-- A user context with its event, and `xGlobalSubscriptionList`.
pub record Shared : Type 0 where
  pub return_status : MqttStatus
  pub sync_event : SyncEvent
  pub subscriptions : List SubscriptionElement

-- A command for the agent, with what its callback takes from the command's context: a publish; a
-- subscription with its filter, the filter's length and the callback with its context; an end of one.
pub data Command : Type 0 where
  publishes : Command
  subscribes : List ℕ → ℕ → ℕ → ℕ → Command
  unsubscribes : List ℕ → ℕ → Command

-- The agent completes with a status the command of the call that waits, or an earlier one.
pub data Completion : Type 0 where
  own : MqttStatus → Completion
  earlier : Command → MqttStatus → Completion

-- `prvAgentPublishCommandCallback`, with an event that is there.
unfoldable pub publish_command_callback : Shared → MqttStatus → Shared
publish_command_callback s status = record s {
  return_status = status;
  sync_event = set_event s.sync_event;
}

-- `prvAgetSubscribeCommandCallback`; whether the subscription was added is only logged.
unfoldable pub subscribe_command_callback : Shared → MqttStatus → List ℕ → ℕ → ℕ → ℕ → Shared
subscribe_command_callback s status filter len callback context =
    let list =
      if is_success status
      then (add_subscription s.subscriptions (some filter) len callback context).1
      else s.subscriptions in
    record s { return_status = status; subscriptions = list; sync_event = set_event s.sync_event }

-- `prvAgetUnsubscribeCommandCallback`
unfoldable pub unsubscribe_command_callback : Shared → MqttStatus → List ℕ → ℕ → Shared
unsubscribe_command_callback s status filter len =
    let list =
      if is_success status
      then remove_subscription s.subscriptions (some filter) len
      else s.subscriptions in
    record s { return_status = status; subscriptions = list; sync_event = set_event s.sync_event }

unfoldable pub run_callback : Command → Shared → MqttStatus → Shared
run_callback publishes s status = publish_command_callback s status
run_callback (subscribes filter len callback context) s status =
    subscribe_command_callback s status filter len callback context
run_callback (unsubscribes filter len) s status = unsubscribe_command_callback s status filter len

unfoldable pub complete : Command → Shared → Completion → Shared
complete command s (own status) = run_callback command s status
complete command s (earlier command' status) = run_callback command' s status

unfoldable pub complete_all : Command → Shared → List Completion → Shared
complete_all command s [] = s
complete_all command s (c ∷ cs) = complete_all command (complete command s c) cs

-- A round of `iotshdPal_syncEventWait`: what the agent's thread completes meanwhile, and what
-- `pthread_cond_timedwait` returns.
pub record Round : Type 0 where
  pub completions : List Completion
  pub ret : ℕ

-- `iotshdPal_syncEventWait` on the context's event, for a command: `none` while it still waits.
unfoldable pub wait_event : Command → Shared → List Round → Option Bool × Shared
wait_event command s [] =
    if s.sync_event.event_status
    then (some true, record s { sync_event = consume s.sync_event })
    else (none, s)
wait_event command s (r ∷ rs) =
    let s' = complete_all command s r.completions in
    let rest = wait_event command s' rs in
    if s.sync_event.event_status
    then (some true, record s { sync_event = consume s.sync_event })
    else if r.ret == 0
    then rest
    else (some false, s')

-- What the calls take from the agent library: a command enters its queue, or does not.
pub record Commands (W : Type 0) : Type 0 where
  -- `MQTTAgent_Publish` with `blockTimeMs`
  pub publish : PublishInfo → ℕ → W → MqttStatus × W
  -- `MQTTAgent_Subscribe` and `MQTTAgent_Unsubscribe` of a filter, its length and QoS 1
  pub subscribe : List ℕ → ℕ → ℕ → W → MqttStatus × W
  pub unsubscribe : List ℕ → ℕ → ℕ → W → MqttStatus × W

module _ {W : Type 0} (agent : Commands W) where
  -- `iotshdDev_MQTTAgentPublish`; `none` while it still waits. The wait is for a second at most.
  unfoldable pub publish :
      PublishInfo → ℕ → W → Shared → List Round → Option MqttStatus × Shared × W
  publish info block w s rounds =
      let (added, w') = agent.publish info block w in
      if is_success added
      then (let (ret, s') = wait_event publishes s rounds in
          elim ret [
            | none ↦ (none, s', w')
            | some came ↦ (some (if came then s'.return_status else added), s', w')
          ])
      else (some added, s, w')

  -- The two waits behind a command of a subscription: the first, of no time, is to take an old event away,
  -- and neither result is looked at.
  unfoldable pub wait_completed :
      Command → MqttStatus → Shared → List Round → List Round → Option MqttStatus × Shared
  wait_completed command added s rounds rounds' =
      let (old, s') = wait_event command s rounds in
      elim old [
        | none ↦ (none, s')
        | some came ↦
            let (ret, s'') = wait_event command s' rounds' in
            elim ret [ none ↦ (none, s'') | some came' ↦ (some added, s'') ]
      ]

  -- `iotshdDev_MQTTAgentAddSubscription`; `usTopicFilterLength` is not used.
  unfoldable pub add_subscription_sync :
      List ℕ → ℕ → ℕ → ℕ → W → Shared → List Round → List Round → Option MqttStatus × Shared × W
  add_subscription_sync filter callback context block w s rounds rounds' =
      let len = length filter % 2 ^ 16 in
      let (added, w') = agent.subscribe filter len block w in
      if is_success added
      then (let (ret, s') =
            wait_completed (subscribes filter len callback context) added s rounds rounds' in
          (ret, s', w'))
      else (some added, s, w')

  -- `iotshdDev_MQTTAgentRemoveSubscription`; the callback and its context are not used.
  unfoldable pub remove_subscription_sync :
      List ℕ → ℕ → W → Shared → List Round → List Round → Option MqttStatus × Shared × W
  remove_subscription_sync filter block w s rounds rounds' =
      let len = length filter % 2 ^ 16 in
      let (added, w') = agent.unsubscribe filter len block w in
      if is_success added
      then (let (ret, s') = wait_completed (unsubscribes filter len) added s rounds rounds' in
          (ret, s', w'))
      else (some added, s, w')

  -- `iotshdDev_MQTTAgentAddSubscriptionWithQueue`, with the addresses of `mqttAgentEnqueuePublishCallback`
  -- and of the user context.
  unfoldable pub add_subscription_with_queue :
      List ℕ → ℕ → ℕ → ℕ → W → Shared → List Round → List Round → Option MqttStatus × Shared × W
  add_subscription_with_queue filter enqueue_callback user_context block w s rounds rounds' =
      add_subscription_sync filter enqueue_callback user_context block w s rounds rounds'

  -- `iotshdDev_MQTTAgentRemoveSubscriptionWithQueue`
  unfoldable pub remove_subscription_with_queue :
      List ℕ → ℕ → W → Shared → List Round → List Round → Option MqttStatus × Shared × W
  remove_subscription_with_queue filter block w s rounds rounds' =
      remove_subscription_sync filter block w s rounds rounds'
