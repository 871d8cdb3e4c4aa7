-- ===== src/Provisioning/FlowTests.antt =====
-- The theorems on the provisioning flow at concrete inputs.
use embedded_provisioning_sd.Prelude.{ℕ, ◌≡◌, refl, Bool, true, false, List, [], ◌∷◌, arith, take}
use embedded_provisioning_sd.Mqtt.Library.{Settles, failed, Library, State, done}
use embedded_provisioning_sd.Mqtt.Session
use embedded_provisioning_sd.Mqtt.Session.{establish_mqtt_session, disconnect_mqtt_session}
use embedded_provisioning_sd.Mqtt.Tests.{library, labels}
use embedded_provisioning_sd.Mqtt.Topics.{subscribe_to_topic}
use embedded_provisioning_sd.Mqtt.Outgoing
use embedded_provisioning_sd.Provisioning.Serializer.{KeyCert}
use embedded_provisioning_sd.Provisioning.Response.{App}
use embedded_provisioning_sd.Provisioning.Stage.{Config, KeyStore, Local, reset_lengths, run_stages}
use embedded_provisioning_sd.Provisioning.Flow
use embedded_provisioning_sd.Provisioning.Flow.{
  claim_stages, iteration, provision_device, connect, subscribe_to_keys_cert_response_topics,
}
use embedded_provisioning_sd.Provisioning.Token.{save_credentials, Stores, save_credentials-Stores}
use embedded_provisioning_sd.Pkcs11.Tests.{
  token_module, token_module-IsToken, count, matching, keys, pem_to_der,
}
use embedded_provisioning_sd.Provisioning.Flow.Laws.{iteration_failed, provision_device_failed}
use embedded_provisioning_sd.Provisioning.Tests.{parser, encoder, blanks, reject_all, state}

-- A broker that takes connections and no subscription.
abbrev refusing : Library ℕ ℕ
refusing = record (library true []) { subscribe = λ topic len id w. (failed 1, w) }

abbrev topic : List ℕ × ℕ
topic = (97 ∷ [], 1)

abbrev pub config : Config
config = record {
  create_keys_accepted = topic;
  create_keys_rejected = topic;
  create_keys_publish = topic;
  register_accepted = topic;
  register_rejected = topic;
  register_publish = topic;
  claim_credentials = labels;
  device_credentials = labels;
  network_buffer_size = 64;
  serial = 8 ∷ [];
  serial_length = 1;
}

abbrev pub store : KeyStore ℕ
store = record {
  load_private_key = λ t n label w. (true, w);
  load_certificate = λ t n label w. (true, w);
}

abbrev begin : Local
begin = record { status = true; connection_established = false; key_cert = blanks }

-- Behind the subscription that was refused.
abbrev refused : Local
refused = record (reset_lengths begin) { status = false; connection_established = true }

abbrev connected : State ℕ App
connected = record (state 0) { session_established = true; subscribe_packet_id = 7 }

claim_refused :
    run_stages
      (take 2 (claim_stages refusing (parser true) encoder store reject_all config 50))
      (reset_lengths begin)
      (state 0)
    ≡ done refused connected
unfolding claim_stages run_stages connect establish_mqtt_session Session.connect_with_retries
    Session.connect_loop Session.start_session Session.resume Outgoing.handle_publish_resend
    subscribe_to_keys_cert_response_topics subscribe_to_topic
claim_refused = refl

iteration_failed_example :
    iteration refusing (parser true) encoder store reject_all config 50 begin (state 0)
    ≡ done
        (record refused { connection_established = false })
        (disconnect_mqtt_session refusing connected).1
iteration_failed_example =
    iteration_failed refusing (parser true) encoder store reject_all config 50 2 begin refused
      (state 0) connected claim_refused refl

provision_device_failed_example :
    provision_device refusing (parser true) encoder store reject_all config 50 blanks (state 0)
    ≡ done false (record (disconnect_mqtt_session refusing connected).1 { world = 10000 })
unfolding disconnect_mqtt_session
provision_device_failed_example =
    provision_device_failed refusing (parser true) encoder store reject_all config 50 2 blanks
      refused (state 0) connected claim_refused refl

-- Without a broker every iteration ends.
pub iteration_unreachable :
    (c : Config) (status there : Bool) (k : KeyCert) (s : State ℕ App)
    → Settles
        (λ _ _. Unit {0})
        (iteration
          (library false [])
          (parser true)
          encoder
          store
          reject_all
          c
          50
          (record { status = status; connection_established = there; key_cert = k })
          s)
unfolding iteration claim_stages run_stages connect establish_mqtt_session
    Session.connect_with_retries Session.connect_loop Flow.disconnect Flow.parse_response
    Flow.save_private_key Flow.save_certificate Flow.make_request Flow.parse_thing_name
    Flow.leave_register_topics
iteration_unreachable c true true k s = tt
iteration_unreachable c true false k s = tt
iteration_unreachable c false true k s = tt
iteration_unreachable c false false k s = tt

-- The world is the number of objects in the token.
save_credentials-Stores_example :
    (l' : Local) × (w : ℕ) × (save_credentials token_module count count matching keys pem_to_der
        token_module-IsToken
        (library true [])
        (parser true)
        encoder
        reject_all
        config
        50
        1
        3
        0
        begin
        (state 0)
      ≡ done l' (record (state 0) { world = w }))
    × (l'.key_cert ≡ blanks)
    × Stores token_module count count matching keys pem_to_der token_module-IsToken
        (library true [])
        (parser true)
        encoder
        reject_all
        config
        50
        1
        3
        0
        begin
        0
        l'
        w
save_credentials-Stores_example =
    save_credentials-Stores token_module count count matching keys pem_to_der token_module-IsToken
      (library true []) (parser true) encoder reject_all config 50 1 3 0 begin (state 0) refl
      (omega arith)
