-- ===== src/Agent/Thread.antt =====
-- libraries/mqtt_agent/source/mqtt_agent.c: the thread that runs the agent, and connects again behind an
-- error.
pub mod Laws
use embedded_provisioning_sd.Prelude.{
  ℕ, zero, suc, ◌+◌, Bool, true, false, not, ◌&&◌, Option, none, some, if◌then◌else◌, List,
}
use embedded_provisioning_sd.Mqtt.Library.{
  MqttStatus, success, is_success, Credentials, Library, PublishInfo,
}
use embedded_provisioning_sd.Platform.Queue.{SyncQueue, create}
use embedded_provisioning_sd.Agent.Pool.{pointer_size, CommandPool, initialize_pool}
use embedded_provisioning_sd.Agent.Subscriptions.{
  SubscriptionElement, MatchTopic, Call, handle_incoming_publishes,
}
use embedded_provisioning_sd.Mqtt.Session.{connect_with_retries, retry_max_attempts}

-- What the thread takes from coreMQTT and its agent library, on a state `W` of the world. Connections are
-- those of the agent's own MQTT context, which `xGlobalMqttAgentContext` holds.
pub record AgentLibrary (W : Type 0) : Type 0 where
  -- `MQTTAgent_CommandLoop`
  pub command_loop : W → MqttStatus × W
  -- `MQTTAgent_ResumeSession`; the Boolean is `xSessionPresent`.
  pub resume_session : Bool → W → MqttStatus × W
  -- `MQTT_Connect`, with `xSessionPresent`, and `MQTT_Disconnect`
  pub mqtt_connect : Bool → W → MqttStatus × Bool × W
  pub mqtt_disconnect : W → MqttStatus × W
  -- `connectStatus == MQTTNotConnected`, and its assignment
  pub is_not_connected : W → Bool
  pub set_not_connected : W → W

-- MQTT_AGENT_COMMAND_QUEUE_LENGTH
abbrev pub command_queue_length : ℕ
command_queue_length = 10

-- `xCommandQueue.queue`, and the pool of commands.
pub record Globals : Type 0 where
  pub command_queue : Option SyncQueue
  pub pool : CommandPool

-- `iotshdDev_MQTTAgentInit`: the queue, the pool, and `MQTTAgent_Init`, whose result it gives. The pool's
-- structures are at `base`, `command_size` bytes each.
unfoldable pub init :
    {W : Type 0}
    → ℕ
    → ℕ
    → (ℕ → List ℕ)
    → (W → MqttStatus × W)
    → Globals
    → W
    → MqttStatus × Globals × W
init base command_size malloc agent_init globals w =
    let (status, w') = agent_init w in
    (
      status,
      record {
        command_queue = create malloc command_queue_length pointer_size;
        pool = initialize_pool base command_size malloc globals.pool;
      },
      w',
    )

-- `prvIncomingPublishCallback`: the callbacks that it invokes; a publish for which there is none is only
-- logged.
unfoldable pub incoming_publish_callback :
    MatchTopic → List SubscriptionElement → PublishInfo → List Call
incoming_publish_callback match_topic list info =
    (handle_incoming_publishes match_topic list info.topic_name info.topic_name_length).1

-- How a round of the loop ends.
pub data Round (W : Type 0) : Type 0 where
  stops : W → Round W
  goes_on : W → Round W

module _ {W B : Type 0} (lib : Library W B) (agent : AgentLibrary W) where
  -- `prvMQTTConnect`
  unfoldable pub prv_mqtt_connect : Bool → W → MqttStatus × W
  prv_mqtt_connect clean_session w =
      let (status, session_present, w₁) = agent.mqtt_connect clean_session w in
      if is_success status && not clean_session
      then agent.resume_session session_present w₁
      else (status, w₁)

  -- `DisconnectMqttSession` of mqtt_agent.c, which nothing calls.
  abbrev pub disconnect_mqtt_session : W → Bool × W
  disconnect_mqtt_session w = (false, lib.tls_disconnect w)

  module _ (credentials : Credentials) where
    -- `connectToBrokerWithBackoffRetries` of mqtt_agent.c: that of mqtt_operations.c but for the
    -- credentials of a connection, with the same constants.
    abbrev pub connect_to_broker : W → Option (Bool × W)
    connect_to_broker = connect_with_retries lib credentials (retry_max_attempts + 1)

    -- The connection and the MQTT session; neither result is looked at.
    unfoldable pub connect_again : Bool → W → Option W
    connect_again clean_session w = elim (connect_to_broker w) [
      | none ↦ none
      | some (network_result, w₁) ↦
          some (prv_mqtt_connect clean_session (agent.set_not_connected w₁)).1
    ]

    -- The body of the `do` loop and its test.
    unfoldable pub loop_round : W → Option (Round W)
    loop_round w =
        let (status, w₁) = agent.command_loop w in
        if is_success status
        then (if agent.is_not_connected w₁
            then some (stops (lib.tls_disconnect w₁))
            else let (status', w₂) = agent.mqtt_disconnect w₁ in
              let w₃ = lib.tls_disconnect w₂ in
              some (if is_success status' then stops w₃ else goes_on w₃))
        else elim (connect_again false (lib.tls_disconnect w₁)) [
          | none ↦ none
          | some w₂ ↦ some (goes_on w₂)
        ]

    -- The `do` loop; `none` if the fuel does not reach its end.
    unfoldable pub run_rounds : ℕ → W → Option W
    run_rounds zero w = none
    run_rounds (suc fuel) w = elim (loop_round w) [
      | none ↦ none
      | some (stops w') ↦ some w'
      | some (goes_on w') ↦ run_rounds fuel w'
    ]

    -- `iotshdDev_MQTTAgentThreadLoop`, whose result is always MQTTSuccess.
    unfoldable pub thread_loop : ℕ → W → Option (MqttStatus × W)
    thread_loop fuel w = elim (connect_again true w) [
      | none ↦ none
      | some w₁ ↦ elim (run_rounds fuel w₁) [ none ↦ none | some w₂ ↦ some (success, w₂) ]
    ]
