-- ===== src/Provisioning/Response.antt =====
-- fleet_provisioning_keys_cert_demo.c: the publish callback and the wait for a response.
pub mod Laws
use embedded_provisioning_sd.Prelude.{
  ℕ, Bool, true, false, Option, none, some, List, [], ◌∷◌, copy_in, take, if◌then◌else◌,
}
use embedded_provisioning_sd.Mqtt.Library.{
  PublishInfo, Library, State, Run, done, aborted, unfinished,
}
use embedded_provisioning_sd.Mqtt.Wait.{process_loop_with_timeout}

-- `ResponseStatus_t`
pub data ResponseStatus : Type 0 where
  response_not_received response_accepted response_rejected : ResponseStatus

-- The topics of `FleetProvisioningTopic_t` that the callback tells apart.
pub data FleetTopic : Type 0 where
  create_keys_and_cert_accepted create_keys_and_cert_rejected : FleetTopic
  register_thing_accepted register_thing_rejected : FleetTopic
  other_topic : FleetTopic

-- The globals `responseStatus`, `payloadBuffer`, `payloadLength`, `thingName` and `thingNameLength`.
pub record App : Type 0 where
  pub response_status : ResponseStatus
  pub payload_buffer : List ℕ
  pub payload_length : ℕ
  pub thing_name : List ℕ
  pub thing_name_length : ℕ

-- `FleetProvisioning_MatchTopic` on a topic and its length; `none` is any status but success.
abbrev pub MatchFleetTopic : Type 0
MatchFleetTopic = List ℕ → ℕ → Option FleetTopic

-- `responseStatus = ResponseAccepted`, the copy of the payload, and its length.
abbrev pub accept : PublishInfo → App → App
accept info app = record app {
  response_status = response_accepted;
  payload_buffer = copy_in app.payload_buffer 0 (take info.payload_length info.payload);
  payload_length = info.payload_length;
}

abbrev pub reject : App → App
reject app = record app { response_status = response_rejected }

abbrev pub on_topic : Option FleetTopic → PublishInfo → App → App
on_topic none info app = app
on_topic (some create_keys_and_cert_accepted) info app = accept info app
on_topic (some create_keys_and_cert_rejected) info app = reject app
on_topic (some register_thing_accepted) info app = accept info app
on_topic (some register_thing_rejected) info app = reject app
on_topic (some other_topic) info app = app

-- `provisioningPublishCallback`, less the text of the payload that is made for the log and given back:
-- `Provisioning/Print` has that as `dump_payload`.
unfoldable pub provisioning_publish_callback : MatchFleetTopic → App → PublishInfo → ℕ → App
provisioning_publish_callback match_topic app info packet_id =
    on_topic (match_topic info.topic_name info.topic_name_length) info app

abbrev pub is_accepted : ResponseStatus → Bool
is_accepted response_not_received = false
is_accepted response_accepted = true
is_accepted response_rejected = false

module _ {W B : Type 0} (lib : Library W B) (match_topic : MatchFleetTopic) where
  -- `waitForResponse`: what `ProcessLoopWithTimeout` returns is not looked at.
  unfoldable pub wait_for_response : ℕ → State W App → Run (State W App) Bool
  wait_for_response fuel s =
      let app = s.app in
      elim (process_loop_with_timeout lib (provisioning_publish_callback match_topic) fuel
        (record s { app = record app { response_status = response_not_received } })) [
          | done ok s' ↦ done (is_accepted s'.app.response_status) s'
          | aborted ↦ aborted
          | unfinished ↦ unfinished
        ]
