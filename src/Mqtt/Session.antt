-- ===== src/Mqtt/Session.antt =====
-- Connecting with retries, `EstablishMqttSession` and `DisconnectMqttSession`.
pub mod Laws
use embedded_provisioning_sd.Prelude.{
  ℕ, zero, suc, ◌+◌, ◌%◌, ◌^◌, Bool, true, false, Option, none, some, List, ◌==◌, if◌then◌else◌,
}
use embedded_provisioning_sd.Mqtt.Library.{
  MqttStatus, is_success, PublishInfo, BackoffStatus, backoff_success, retries_exhausted,
  Credentials, Library, State, Run, done, aborted, unfinished,
}
use embedded_provisioning_sd.Mqtt.Outgoing.{handle_publish_resend, cleanup_all}

-- CONNECTION_RETRY_BACKOFF_BASE_MS, CONNECTION_RETRY_MAX_BACKOFF_DELAY_MS and
-- CONNECTION_RETRY_MAX_ATTEMPTS
abbrev pub retry_backoff_base_ms : ℕ
retry_backoff_base_ms = 500

abbrev pub retry_max_backoff_delay_ms : ℕ
retry_max_backoff_delay_ms = 5000

abbrev pub retry_max_attempts : ℕ
retry_max_attempts = 5

module _ {W B : Type 0} (lib : Library W B) where
  -- The loop of `connectToBrokerWithBackoffRetries`; `none` if the fuel does not reach its end.
  unfoldable pub connect_loop : Credentials → ℕ → B → W → Option (Bool × W)
  connect_loop credentials zero b w = none
  connect_loop credentials (suc fuel) b w =
      let (connected, w₁) = lib.tls_connect credentials w in
      elim connected [
        | true ↦ some (true, w₁)
        | false ↦
            let (random, w₂) = lib.random w₁ in
            let (status, delay, b') = lib.next_backoff (random % 2 ^ 32) b in
            elim status [
              | retries_exhausted ↦ some (false, w₂)
              | backoff_success ↦ connect_loop credentials fuel b' (lib.sleep delay w₂)
            ]
      ]

  -- `connectToBrokerWithBackoffRetries`
  unfoldable pub connect_with_retries : Credentials → ℕ → W → Option (Bool × W)
  connect_with_retries credentials fuel w =
      connect_loop credentials fuel
        (lib.init_backoff retry_backoff_base_ms retry_max_backoff_delay_ms retry_max_attempts) w

  module _ {A : Type 0} where
    -- Behind a successful `MQTT_Connect`: resend into a session that was there, or forget its publishes.
    unfoldable pub resume : Bool → State W A → Run (State W A) Bool
    resume session_present s =
        if session_present
        then (let (ok, table, w) = handle_publish_resend lib s.outgoing s.world in
            done ok (record s { outgoing = table; world = w; session_established = true }))
        else done true (record s { outgoing = cleanup_all s.outgoing; session_established = true })

    -- `EstablishMqttSession` behind the connection: the three calls of coreMQTT in their order.
    unfoldable pub start_session : State W A → Run (State W A) Bool
    start_session s =
        let (init, w₁) = lib.mqtt_init s.world in
        if is_success init
        then (let (qos, w₂) = lib.init_stateful_qos w₁ in
            if is_success qos
            then (let (connect, session_present, w₃) = lib.mqtt_connect false w₂ in
                if is_success connect
                then resume session_present (record s { world = w₃ })
                else done false (record s { world = w₃ }))
            else done false (record s { world = w₂ }))
        else done false (record s { world = w₁ })

    -- `EstablishMqttSession` with a publish callback that is not NULL.
    unfoldable pub establish_mqtt_session : Credentials → ℕ → State W A → Run (State W A) Bool
    establish_mqtt_session credentials fuel s =
        elim (connect_with_retries credentials fuel s.world) [
          | none ↦ unfinished
          | some (connected, w) ↦
              if connected
              then start_session (record s { world = w; has_callback = true })
              else done false (record s { world = w })
        ]

    -- `DisconnectMqttSession`: the flag `mqttSessionEstablished` stays as it is.
    unfoldable pub disconnect_mqtt_session : State W A → Bool × State W A
    disconnect_mqtt_session s =
        if s.session_established
        then (let (status, w) = lib.mqtt_disconnect s.world in
            (is_success status, record s { world = lib.tls_disconnect w }))
        else (false, record s { world = lib.tls_disconnect s.world })
