-- ===== src/Mqtt/Library.antt =====
-- What mqtt_operations.c takes from coreMQTT, the backoff library, the TLS transport and the clock, as
-- functions on a state `W` of the world; and the file's own global state.
use embedded_provisioning_sd.Prelude.{ℕ, Bool, true, false, Option, List, ◌≡◌, refl, ◌⊎◌, inl, inr}
use embedded_provisioning_sd.Platform.Clock.{Timespec}

-- `MQTTStatus_t`, as far as the code tells its values apart.
pub data MqttStatus : Type 0 where
  success need_more_bytes : MqttStatus
  failed : ℕ → MqttStatus

abbrev pub is_success : MqttStatus → Bool
is_success success = true
is_success need_more_bytes = false
is_success (failed n) = false

-- `( s == MQTTSuccess || s == MQTTNeedMoreBytes )`
abbrev pub may_go_on : MqttStatus → Bool
may_go_on success = true
may_go_on need_more_bytes = true
may_go_on (failed n) = false

-- `MQTTPublishInfo_t`
pub record PublishInfo : Type 0 where
  pub qos : ℕ
  pub retain : Bool
  pub dup : Bool
  pub topic_name : List ℕ
  pub topic_name_length : ℕ
  pub payload : List ℕ
  pub payload_length : ℕ

-- `MQTTPacketInfo_t` and `MQTTDeserializedInfo_t` of one incoming packet.
pub record Packet : Type 0 where
  pub type : ℕ
  pub packet_id : ℕ
  pub publish : Option PublishInfo

-- `BackoffAlgorithmStatus_t`
pub data BackoffStatus : Type 0 where
  backoff_success retries_exhausted : BackoffStatus

-- The labels of the certificate and the private key of a connection.
pub record Credentials : Type 0 where
  pub cert_label : List ℕ
  pub key_label : List ℕ

-- `W` is the world, `B` is `BackoffAlgorithmContext_t`.
pub record Library (W B : Type 0) : Type 0 where
  -- `clock_gettime( CLOCK_MONOTONIC )`
  pub read_clock : W → Timespec × W
  pub sleep : ℕ → W → W
  pub random : W → ℕ × W
  pub get_packet_id : W → ℕ × W
  pub publish : PublishInfo → ℕ → W → MqttStatus × W
  pub subscribe : List ℕ → ℕ → ℕ → W → MqttStatus × W
  pub unsubscribe : List ℕ → ℕ → ℕ → W → MqttStatus × W
  -- The packets are those for which the event callback is called, in order.
  pub process_loop : W → MqttStatus × List Packet × W
  pub mqtt_init : W → MqttStatus × W
  pub init_stateful_qos : W → MqttStatus × W
  -- `MQTT_Connect`; the Boolean is `sessionPresent`.
  pub mqtt_connect : Bool → W → MqttStatus × Bool × W
  pub mqtt_disconnect : W → MqttStatus × W
  -- `Mbedtls_Pkcs11_Connect`; whether it returned MBEDTLS_PKCS11_SUCCESS.
  pub tls_connect : Credentials → W → Bool × W
  pub tls_disconnect : W → W
  -- `BackoffAlgorithm_InitializeParams` at base, maximum and attempts.
  pub init_backoff : ℕ → ℕ → ℕ → B
  -- `BackoffAlgorithm_GetNextBackoff`
  pub next_backoff : ℕ → B → BackoffStatus × ℕ × B

-- `PublishPackets_t`
pub record PublishPacket : Type 0 where
  pub packet_id : ℕ
  pub pub_info : PublishInfo

-- The globals of the file. `app` is the state behind `appPublishCallback`, and `has_callback` says
-- that the callback is not NULL.
pub record State (W A : Type 0) : Type 0 where
  pub world : W
  pub app : A
  pub has_callback : Bool
  pub ack_packet_id : ℕ
  pub subscribe_packet_id : ℕ
  pub unsubscribe_packet_id : ℕ
  pub outgoing : List PublishPacket
  pub session_established : Bool

-- A call ends, or stops at a failed `assert`, or is not over when the fuel is.
pub data Run (S A : Type 0) : Type 0 where
  done : A → S → Run S A
  aborted : Run S A
  unfinished : Run S A

-- The call ends in a state with `P`, or at a failed `assert`; it does not run out of fuel.
abbrev pub Settles : {S A : Type 0} → (A → S → Type 0) → Run S A → Type 0
Settles P (done a s) = P a s
Settles P aborted = Unit
Settles P unfinished = ⊥

-- If the call ends, it ends in a state with `P`.
abbrev pub Ends : {S A : Type 0} → (A → S → Type 0) → Run S A → Type 0
Ends P (done a s) = P a s
Ends P aborted = Unit
Ends P unfinished = Unit

pub Run-cases :
    {S A : Type 0} (r : Run S A)
    → (((a : A) × (s : S) × (r ≡ done a s)) ⊎ (r ≡ aborted)) ⊎ (r ≡ unfinished)
Run-cases (done a s) = inl (inl (a, s, refl))
Run-cases aborted = inl (inr refl)
Run-cases unfinished = inr refl

-- The rules for a call followed by another.
pub Ends-elim :
    {S A B : Type 0} (P : A → S → Type 0) (Q : B → S → Type 0) (r : Run S A) (f : A → S → Run S B)
    → Ends P r
    → ((a : A) (s : S) → P a s → Ends Q (f a s))
    → Ends Q (elim r [ done a s ↦ f a s | aborted ↦ aborted | unfinished ↦ unfinished ])
Ends-elim P Q (done a s) f h k = k a s h
Ends-elim P Q aborted f h k = tt
Ends-elim P Q unfinished f h k = tt

pub Settles-elim :
    {S T A B : Type 0} (P : A → S → Type 0) (Q : B → T → Type 0) (r : Run S A) (f : A → S → Run T B)
    → Settles P r
    → ((a : A) (s : S) → P a s → Settles Q (f a s))
    → Settles Q (elim r [ done a s ↦ f a s | aborted ↦ aborted | unfinished ↦ unfinished ])
Settles-elim P Q (done a s) f h k = k a s h
Settles-elim P Q aborted f h k = tt
Settles-elim P Q unfinished f h k = absurd h

pub Settles-mono :
    {S A : Type 0} (P Q : A → S → Type 0) (r : Run S A)
    → Settles P r
    → ((a : A) (s : S) → P a s → Q a s)
    → Settles Q r
Settles-mono P Q (done a s) h k = k a s h
Settles-mono P Q aborted h k = tt
Settles-mono P Q unfinished h k = absurd h
