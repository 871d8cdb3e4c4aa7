-- ===== src/Provisioning/Flow.antt =====
-- fleet_provisioning_keys_cert_demo.c: `ProvisionDevicePKCS11WithFP`, from the claim credentials to the
-- provisioned ones, with its retries.
pub mod Laws
pub mod Terminates
use embedded_provisioning_sd.Prelude.{
  ℕ, zero, suc, ◌+◌, Bool, true, false, Option, none, some, List, [], ◌∷◌, ◌++◌, ltb, if◌then◌else◌,
  copy_in, take,
}
use embedded_provisioning_sd.Mqtt.Library.{
  PublishInfo, Credentials, Library, State, Run, done, aborted, unfinished,
}
use embedded_provisioning_sd.Mqtt.Topics.{
  subscribe_to_topic, unsubscribe_from_topic, publish_to_topic,
}
use embedded_provisioning_sd.Mqtt.Session.{establish_mqtt_session, disconnect_mqtt_session}
use embedded_provisioning_sd.Provisioning.Serializer.{
  TextBuffer, KeyCert, CborParser, CborEncoder, parse_key_cert_response,
  parse_register_thing_response, generate_register_thing_request,
}
use embedded_provisioning_sd.Provisioning.Response.{
  App, MatchFleetTopic, provisioning_publish_callback, wait_for_response,
}
use embedded_provisioning_sd.Provisioning.Stage.{
  Config, KeyStore, max_thing_name_length, max_loop_count, retry_delay_ms, Local, reset_lengths,
  Stage, guarded, run_stages, both,
}

module _ {W B V E : Type 0} (lib : Library W B) (parser : CborParser V) (encoder : CborEncoder E)
    (store : KeyStore W) (match_topic : MatchFleetTopic) (config : Config) (fuel : ℕ) where
  abbrev pub S : Type 0
  S = State W App

  abbrev callback : App → PublishInfo → ℕ → App
  callback = provisioning_publish_callback match_topic

  abbrev subscribe : List ℕ × ℕ → S → Run S Bool
  subscribe topic = subscribe_to_topic lib callback fuel topic.0 topic.1

  abbrev unsubscribe : List ℕ × ℕ → S → Run S Bool
  unsubscribe topic = unsubscribe_from_topic lib callback fuel topic.0 topic.1

  -- `subscribeToKeysCertResponseTopics`
  unfoldable pub subscribe_to_keys_cert_response_topics : S → Run S Bool
  subscribe_to_keys_cert_response_topics =
      both (subscribe config.create_keys_accepted) (subscribe config.create_keys_rejected)

  -- `unsubscribeFromKeysCertResponseTopics`
  unfoldable pub unsubscribe_from_keys_cert_response_topics : S → Run S Bool
  unsubscribe_from_keys_cert_response_topics =
      both (unsubscribe config.create_keys_accepted) (unsubscribe config.create_keys_rejected)

  -- `subscribeToRegisterThingResponseTopics`
  unfoldable pub subscribe_to_register_thing_response_topics : S → Run S Bool
  subscribe_to_register_thing_response_topics =
      both (subscribe config.register_accepted) (subscribe config.register_rejected)

  -- `unsubscribeFromRegisterThingResponseTopics`
  unfoldable pub unsubscribe_from_register_thing_response_topics : S → Run S Bool
  unsubscribe_from_register_thing_response_topics =
      both (unsubscribe config.register_accepted) (unsubscribe config.register_rejected)

  -- A connection, which sets `connectionEstablished` where it succeeds.
  unfoldable pub connect : Credentials → Stage S
  connect credentials l s =
      if l.status
      then elim (establish_mqtt_session lib credentials fuel s) [
        | done ok s' ↦
            done
              (record l {
                status = ok;
                connection_established = if ok then true else l.connection_established;
              })
              s'
        | aborted ↦ aborted
        | unfinished ↦ unfinished
      ]
      else done l s

  -- `parseKeyCertResponse` on the payload received.
  unfoldable pub parse_response : Stage S
  parse_response l s =
      if l.status
      then (let (ok, k) =
            parse_key_cert_response parser s.app.payload_buffer s.app.payload_length l.key_cert in
          done (record l { status = ok; key_cert = k }) s)
      else done l s

  unfoldable pub save_private_key : Stage S
  save_private_key l s =
      if l.status
      then (let k = l.key_cert.private_key in
          let (ok, w) =
            store.load_private_key k.bytes k.length config.device_credentials.key_label s.world in
          done (record l { status = ok }) (record s { world = w }))
      else done l s

  unfoldable pub save_certificate : Stage S
  save_certificate l s =
      if l.status
      then (let c = l.key_cert.certificate in
          let (ok, w) =
            store.load_certificate c.bytes c.length config.device_credentials.cert_label s.world in
          done (record l { status = ok }) (record s { world = w }))
      else done l s

  abbrev write_request : Option (List ℕ × ℕ) → Stage S
  write_request none l s = done (record l { status = false }) s
  write_request (some (bytes, len)) l s =
      let app = s.app in
      done (record l { status = true })
        (record s {
          app = record app {
            payload_buffer = copy_in app.payload_buffer 0 bytes;
            payload_length = len;
          };
        })

  -- `generateRegisterThingRequest` into `payloadBuffer`; behind an error what it wrote is not used.
  unfoldable pub make_request : Stage S
  make_request l s =
      if l.status
      then (let t = l.key_cert.ownership_token in
          write_request
            (generate_register_thing_request encoder config.network_buffer_size t.bytes t.length
              config.serial config.serial_length)
            l s)
      else done l s

  -- `parseRegisterThingResponse` on the payload received, into `thingName`.
  unfoldable pub parse_thing_name : Stage S
  parse_thing_name l s =
      if l.status
      then (let app = s.app in
          let (ok, name) =
            parse_register_thing_response parser app.payload_buffer app.payload_length
              (record { bytes = app.thing_name; length = max_thing_name_length }) in
          done (record l { status = ok })
            (record s {
              app = record app { thing_name = name.bytes; thing_name_length = name.length };
            }))
      else done l s

  -- `if( status == true ) { unsubscribeFromRegisterThingResponseTopics(); }`
  unfoldable pub leave_register_topics : Stage S
  leave_register_topics l s =
      if l.status
      then elim (unsubscribe_from_register_thing_response_topics s) [
        | done ok s' ↦ done l s'
        | aborted ↦ aborted
        | unfinished ↦ unfinished
      ]
      else done l s

  -- `if( connectionEstablished == true ) { DisconnectMqttSession(); connectionEstablished = false; }`
  unfoldable pub disconnect : Stage S
  disconnect l s =
      if l.connection_established
      then done (record l { connection_established = false }) (disconnect_mqtt_session lib s).1
      else done l s

  -- The parts of the body that run on `status`, up to the first disconnect. The table of publishes keeps
  -- the request's bytes, where the source keeps a pointer to `payloadBuffer`.
  unfoldable pub claim_stages : List (Stage S)
  claim_stages =
      connect config.claim_credentials
      ∷ guarded subscribe_to_keys_cert_response_topics
      ∷ guarded (
          publish_to_topic lib callback config.create_keys_publish.0 config.create_keys_publish.1 []
            0)
      ∷ guarded (wait_for_response lib match_topic fuel)
      ∷ parse_response
      ∷ save_private_key
      ∷ save_certificate
      ∷ guarded unsubscribe_from_keys_cert_response_topics
      ∷ make_request
      ∷ guarded subscribe_to_register_thing_response_topics
      ∷ guarded (λ s.
        publish_to_topic lib callback config.register_publish.0 config.register_publish.1
          (take s.app.payload_length s.app.payload_buffer) s.app.payload_length s)
      ∷ guarded (wait_for_response lib match_topic fuel)
      ∷ parse_thing_name
      ∷ leave_register_topics
      ∷ []

  -- One iteration of the loop of `ProvisionDevicePKCS11WithFP`, up to its counter.
  unfoldable pub iteration : Stage S
  iteration l s =
      run_stages (claim_stages ++ disconnect ∷ connect config.device_credentials ∷ disconnect ∷ [])
        (reset_lengths l) s

  -- The loop; the result is `status`.
  unfoldable pub provision_loop : ℕ → ℕ → Stage S
  provision_loop zero count l s = unfinished
  provision_loop (suc rounds) count l s = elim (iteration l s) [
    | done l' s' ↦ elim l'.status [
      | true ↦ done l' s'
      | false ↦ elim (ltb (count + 1) max_loop_count) [
        | true ↦
            provision_loop rounds (count + 1) l'
              (record s' { world = lib.sleep retry_delay_ms s'.world })
        | false ↦ done l' s'
      ]
    ]
    | aborted ↦ aborted
    | unfinished ↦ unfinished
  ]

  -- `ProvisionDevicePKCS11WithFP`: whether it returns 0 (else -1), from buffers with any contents.
  unfoldable pub provision_device : KeyCert → S → Run S Bool
  provision_device k s =
      elim (provision_loop max_loop_count 0
        (record { status = true; connection_established = false; key_cert = k }) s) [
          | done l s' ↦ done l.status s'
          | aborted ↦ aborted
          | unfinished ↦ unfinished
        ]
