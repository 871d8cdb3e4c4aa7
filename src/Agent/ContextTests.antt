-- ===== src/Agent/ContextTests.antt =====
-- The theorems on the agent's thread, its calls and its user contexts at concrete inputs.
use embedded_provisioning_sd.Prelude.{
  ℕ, suc, ◌-◌, ◌≡◌, refl, sym, subst, true, false, some, List, [], ◌∷◌, arith, length,
  length-replicate, replicate, ltb, if◌then◌else◌,
}
use embedded_provisioning_sd.Platform.Queue.{returned}
use embedded_provisioning_sd.Mqtt.Library.{MqttStatus, success, failed, PublishInfo}
use embedded_provisioning_sd.Mqtt.Tests.{library, labels, library-CountsAttempts}
use embedded_provisioning_sd.Agent.Subscriptions.{free_element}
use embedded_provisioning_sd.Agent.Thread.{AgentLibrary, thread_loop}
use embedded_provisioning_sd.Agent.Thread.Laws.{CountsErrors, Stopped, thread_loop-Stopped}
use embedded_provisioning_sd.Agent.Incoming.{
  Queues, no_publish, create_user_context, enqueue_publish, dequeue_incoming_publish,
}
use embedded_provisioning_sd.Agent.Incoming.Create.{create_user_context_lem}
use embedded_provisioning_sd.Agent.Incoming.Items.{IsItem}
use embedded_provisioning_sd.Agent.Incoming.Laws.{
  QueuesHold, enqueue_publish_lem, dequeue_incoming_publish_lem,
  dequeue_incoming_publish-enqueue_publish,
}
use embedded_provisioning_sd.Agent.Calls.{
  Shared, Commands, publishes, own, publish, add_subscription_sync,
}
use embedded_provisioning_sd.Agent.Calls.Laws.{
  quiet, timeout, completes, completed, publish_lem, add_subscription_sync_lem,
}

-- The agent fails until the world has come to 3.
abbrev command_loop : ℕ → MqttStatus × ℕ
command_loop w = if ltb w 3 then (failed 1, suc w) else (success, w)

abbrev pub agent : AgentLibrary ℕ
agent = record {
  command_loop = command_loop;
  resume_session = λ present w. (success, w);
  mqtt_connect = λ clean w. (success, true, w);
  mqtt_disconnect = λ w. (success, w);
  is_not_connected = λ w. true;
  set_not_connected = λ w. w;
}

abbrev pub errors : ℕ → ℕ
errors w = 3 - w

pub agent-CountsErrors : CountsErrors (library false []) agent labels errors
agent-CountsErrors = record {
  command_loop_keeps = λ w. ground arith;
  command_loop_fails = λ w e. ground arith;
  mqtt_disconnect_keeps = λ w. omega arith;
  mqtt_disconnect_fails = λ w e. absurd (ground arith);
  tls_disconnect_keeps = λ w. omega arith;
  tls_connect_keeps = λ c w. omega arith;
  random_keeps = λ w. omega arith;
  sleep_keeps = λ ms w. omega arith;
  set_not_connected_keeps = λ w. omega arith;
  mqtt_connect_keeps = λ clean w. omega arith;
  resume_session_keeps = λ present w. omega arith;
}

thread_loop-Stopped_example :
    (w' : ℕ) × (thread_loop (library false []) agent labels 4 0 ≡ some (success, w'))
    × Stopped (library false []) agent labels 3 0 w'
thread_loop-Stopped_example =
    thread_loop-Stopped (library false []) agent labels errors agent-CountsErrors (λ b. b)
      library-CountsAttempts 4 0 (omega arith)

abbrev pub malloc : ℕ → List ℕ
malloc n = replicate n 0

pub gives : (n : ℕ) → length (malloc n) ≡ n
gives n = length-replicate n 0

-- The queues of that context.
pub made :
    (qs : Queues) × ((create_user_context malloc true 4096 64 2).queues ≡ some qs)
    × QueuesHold 2 qs (4096 ∷ 4160 ∷ []) []
    × ((a : ℕ) → IsItem (qs.queue_items a))
made = (create_user_context_lem malloc 4096 64 2 gives (omega arith) (omega arith)).1

abbrev info : PublishInfo
info = record no_publish {
  topic_name = 97 ∷ [];
  topic_name_length = 1;
  payload = 104 ∷ 105 ∷ [];
  payload_length = 2;
}

dequeue_incoming_publish-enqueue_publish_example :
    (qs' : Queues) × (qs'' : Queues) × (enqueue_publish malloc made.0 info [] []
      ≡ returned true qs')
    × (dequeue_incoming_publish qs' 0 [] ≡ returned (some 4096) qs'')
    × ((qs''.queue_items 4096).publish_info ≡ info)
    × QueuesHold 2 qs'' (4160 ∷ []) []
dequeue_incoming_publish-enqueue_publish_example =
    dequeue_incoming_publish-enqueue_publish malloc gives 2 4096 0 (4160 ∷ []) made.0 info made.2
      (omega arith) (omega arith) (made.3 4096) (refl, refl, omega arith)

-- The queues behind an enqueued and a dequeued publish.
taken : (qs : Queues) × QueuesHold 2 qs (4160 ∷ []) [] × IsItem (qs.queue_items 4096)
taken =
    let (qs', e, h, copied, true_size, others) =
      enqueue_publish_lem malloc gives 2 4096 (4160 ∷ []) [] made.0 info made.2 (omega arith)
        (omega arith) (made.3 4096) (refl, refl, omega arith) in
    let (qs'', e', h', same) =
      dequeue_incoming_publish_lem 2 4096 0 (4160 ∷ []) [] qs' h (omega arith) in
    (qs'', h', subst (λ t. IsItem (t 4096)) (sym same) true_size)

abbrev pub commands : Commands ℕ
commands = record {
  publish = λ info block w. (success, suc w);
  subscribe = λ filter len block w. (success, suc w);
  unsubscribe = λ filter len block w. (success, suc w);
}

abbrev pub shared : Shared
shared = record {
  return_status = success;
  sync_event = record { event_status = false };
  subscriptions = free_element ∷ [];
}

publish_lem_example :
    (publish commands info 5 0 shared (quiet ∷ completes (own (failed 2)) ∷ [])
      ≡ (some (failed 2), completed publishes shared (own (failed 2)), 1))
    × (publish commands info 5 0 shared (quiet ∷ timeout 110 ∷ []) ≡ (some success, shared, 1))
publish_lem_example =
    publish_lem commands info 5 0 shared 1 110 (failed 2) refl refl (λ e. absurd (omega arith))

add_subscription_sync_lem_example :
    let r =
      add_subscription_sync commands
        (97 ∷ [])
        500
        4096
        5
        0
        shared
        (timeout 110 ∷ [])
        (quiet ∷ completes (own (failed 2)) ∷ []) in
    (r.0 ≡ some success)
    × (r.1.sync_event.event_status ≡ false)
    × (r.1.subscriptions ≡ free_element ∷ [])
add_subscription_sync_lem_example =
    add_subscription_sync_lem commands (97 ∷ []) 500 4096 5 0 shared 1 110 (failed 2) refl refl
      (λ e. absurd (omega arith))
