-- ===== src/Demo/Main.antt =====
-- main.c: the demo, which loads the claim credentials and then provisions the device and runs the agent
-- over and over.
pub mod Pool
pub mod Laws
pub mod Terminates
use embedded_provisioning_sd.Prelude.{
  ℕ, zero, suc, Bool, true, false, Option, none, some, List, [], ◌∷◌, ◌==◌, if◌then◌else◌,
}
use embedded_provisioning_sd.Mqtt.Library.{
  MqttStatus, Credentials, Library, State, Run, done, aborted, unfinished,
}
use embedded_provisioning_sd.Platform.Queue.{SyncQueue, Section, run_sections}
use embedded_provisioning_sd.Agent.Thread.{AgentLibrary, Globals, init, thread_loop}
use embedded_provisioning_sd.Pkcs11.Module.{Module}
use embedded_provisioning_sd.Pkcs11.Files.{Stdio}
use embedded_provisioning_sd.Pkcs11.Keys.{KeyParser}
use embedded_provisioning_sd.Pkcs11.Certificates.{PemToDer}
use embedded_provisioning_sd.Pkcs11.Credentials.{load_claim_credentials}
use embedded_provisioning_sd.Provisioning.Serializer.{KeyCert, CborParser, CborEncoder}
use embedded_provisioning_sd.Provisioning.Response.{App, MatchFleetTopic}
use embedded_provisioning_sd.Provisioning.Stage.{Config, KeyStore}
use embedded_provisioning_sd.Provisioning.Flow.{provision_device}

-- DEVICE_SERIAL_NUMBER_MAX
abbrev pub serial_number_max : ℕ
serial_number_max = 32

-- "TEST_SERIAL_NUMBER"
abbrev pub test_serial_number : List ℕ
test_serial_number =
    84 ∷ 69 ∷ 83 ∷ 84 ∷ 95 ∷ 83 ∷ 69 ∷ 82 ∷ 73 ∷ 65 ∷ 76 ∷ 95 ∷ 78 ∷ 85 ∷ 77 ∷ 66 ∷ 69 ∷ 82 ∷ []

-- `strncpy` into a buffer of `n` bytes, of a string without its terminator.
unfoldable pub strncpy : List ℕ → ℕ → List ℕ
strncpy src zero = []
strncpy [] (suc n) = 0 ∷ strncpy [] n
strncpy (x ∷ xs) (suc n) = x ∷ strncpy xs n

-- `strnlen`
unfoldable pub strnlen : List ℕ → ℕ → ℕ
strnlen s zero = 0
strnlen [] (suc n) = 0
strnlen (x ∷ xs) (suc n) = let rest = strnlen xs n in if x == 0 then 0 else suc rest

-- `deviceGetSerialNumber`
unfoldable pub device_get_serial_number : List ℕ
device_get_serial_number = strncpy test_serial_number serial_number_max

-- The configuration of the provisioning with the device's serial number.
unfoldable pub device_config : Config → Config
device_config config = record config {
  serial = device_get_serial_number;
  serial_length = strnlen device_get_serial_number 32;
}

-- What the demo takes from the system: the block that `malloc` gives for a `pthread_t`,
-- `pthread_create` of the data model's thread, and `sleep`.
pub record Threads (W : Type 0) : Type 0 where
  pub malloc_thread : W → ℕ × W
  pub pthread_create : ℕ → W → ℕ × W
  pub sleep : ℕ → W → W

-- `FRTest_ThreadCreate`; `none` is NULL.
unfoldable pub thread_create : {W : Type 0} → Threads W → W → Option ℕ × W
thread_create threads w =
    let (thread, w₁) = threads.malloc_thread w in
    let (err, w₂) = threads.pthread_create thread w₁ in (if err == 0 then some thread else none, w₂)

-- The globals of the MQTT operations and of the agent.
pub record Device (W : Type 0) : Type 0 where
  pub state : State W App
  pub globals : Globals

-- The agent's part: where the structures of the pool are and how large, `malloc`, and `MQTTAgent_Init`.
pub record AgentSetting (W : Type 0) : Type 0 where
  pub base : ℕ
  pub command_size : ℕ
  pub malloc : ℕ → List ℕ
  pub agent_init : W → MqttStatus × W

-- What runs on the agent's two queues from one initialisation of the agent to the next: the critical
-- sections of the agent's loop, of the callbacks and of the threads of the data model, each with the
-- pointers that it sends. Of the pool's queue these are the structures taken and given back.
pub record Traffic : Type 0 where
  pub commands : List Section
  pub pool : List Section

abbrev pub on_queue : List Section → Option SyncQueue → Option SyncQueue
on_queue ss none = none
on_queue ss (some q) = some (run_sections q ss)

unfoldable pub run_traffic : Traffic → Globals → Globals
run_traffic t globals = record {
  command_queue = on_queue t.commands globals.command_queue;
  pool = record globals.pool { queue = on_queue t.pool globals.pool.queue };
}

-- `rounds` is the fuel of the agent's loop, from a world.
module _ {W B : Type 0} (lib : Library W B) (agent : AgentLibrary W) (credentials : Credentials)
    (a : AgentSetting W) (threads : Threads W) (rounds : W → ℕ) where
  -- `applicationLoop`: it returns 0 whatever the calls gave. The thread of the data model runs from its
  -- creation on beside the loop of the agent, and the traffic of both is on the queues behind it.
  unfoldable pub application_loop : Traffic → Globals → W → Option (ℕ × Globals × W)
  application_loop traffic globals w =
      let (status, globals', w₁) = init a.base a.command_size a.malloc a.agent_init globals w in
      let (thread, w₂) = thread_create threads w₁ in
      elim (thread_loop lib agent credentials (rounds w₂) w₂) [
        | none ↦ none
        | some (status', w₃) ↦ some (0, run_traffic traffic globals', w₃)
      ]

  module _ {V E : Type 0} (parser : CborParser V) (encoder : CborEncoder E) (store : KeyStore W)
      (match_topic : MatchFleetTopic) (config : Config) (fuel : ℕ) where
    -- `ProvisionDevicePKCS11WithFP` as `main` calls it.
    abbrev pub provision : KeyCert → Device W → Run (State W App) Bool
    provision k d =
        provision_device lib parser encoder store match_topic (device_config config) fuel k d.state

    -- The body of `for(;;)`; whether the device was provisioned is only printed, and is the result here.
    unfoldable pub main_round : KeyCert × Traffic → Device W → Run (Device W) Bool
    main_round (k, traffic) d = elim (provision k d) [
      | done ok s ↦ elim (application_loop traffic d.globals s.world) [
        | none ↦ unfinished
        | some (result, globals, w) ↦
            done ok (record { state = record s { world = threads.sleep 5 w }; globals = globals })
      ]
      | aborted ↦ aborted
      | unfinished ↦ unfinished
    ]

    -- So many rounds of the loop, each from buffers with any contents and with any traffic.
    unfoldable pub main_rounds : List (KeyCert × Traffic) → Device W → Run (Device W) (List Bool)
    main_rounds [] d = done [] d
    main_rounds (r ∷ rs) d = elim (main_round r d) [
      | done ok d' ↦ elim (main_rounds rs d') [
        | done oks d'' ↦ done (ok ∷ oks) d''
        | aborted ↦ aborted
        | unfinished ↦ unfinished
      ]
      | aborted ↦ aborted
      | unfinished ↦ unfinished
    ]

-- The paths and labels of the claim credentials: CLAIM_CERT_PATH, pkcs11configLABEL_CLAIM_CERTIFICATE,
-- CLAIM_PRIVATE_KEY_PATH and pkcs11configLABEL_CLAIM_PRIVATE_KEY.
pub record ClaimPaths : Type 0 where
  pub cert_path : List ℕ
  pub cert_label : List ℕ
  pub key_path : List ℕ
  pub key_label : List ℕ

-- What `main` does before its loop: `xInitializePkcs11Session`, which gives a session or leaves the
-- variable, and the claim credentials, whose result is only logged. It gives the session.
unfoldable pub start :
    {W K : Type 0}
    → Module W
    → KeyParser K
    → PemToDer
    → Stdio W
    → (W → ℕ × W)
    → ClaimPaths
    → ℕ
    → ℕ
    → W
    → Option (ℕ × W)
start p11 keys pem_to_der io initialize_session paths fuel handle w =
    let (session, w₁) = initialize_session w in
    elim (load_claim_credentials p11 keys pem_to_der session fuel handle io paths.cert_path
      paths.cert_label paths.key_path paths.key_label w₁) [
        | none ↦ none
        | some (status, w₂) ↦ some (session, w₂)
      ]
