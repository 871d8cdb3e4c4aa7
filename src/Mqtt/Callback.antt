-- ===== src/Mqtt/Callback.antt =====
-- `mqttCallback`, which coreMQTT calls for each incoming packet.
pub mod Cases
use Prim.Native.Nat.{bit_and}
use embedded_provisioning_sd.Prelude.{
  ℕ, Bool, true, false, ◌||◌, Option, none, some, List, [], ◌∷◌, ◌==◌, if◌then◌else◌,
}
use embedded_provisioning_sd.Mqtt.Library.{
  PublishInfo, Packet, State, Run, done, aborted, unfinished,
}
use embedded_provisioning_sd.Mqtt.Outgoing.{cleanup_with_packet_id}

-- MQTT_PACKET_TYPE_PUBLISH and its siblings, of the MQTT standard.
abbrev pub type_publish : ℕ
type_publish = 0x30

abbrev pub type_puback : ℕ
type_puback = 0x40

abbrev pub type_suback : ℕ
type_suback = 0x90

abbrev pub type_unsuback : ℕ
type_unsuback = 0xB0

-- `( pPacketInfo->type & 0xF0U ) == MQTT_PACKET_TYPE_PUBLISH`
abbrev pub is_publish : ℕ → Bool
is_publish type = bit_and type 0xF0 == type_publish

-- The types of the acknowledgements.
abbrev pub is_ack : ℕ → Bool
is_ack type = type == type_suback || (type == type_unsuback || type == type_puback)

module _ {W A : Type 0} (callback : A → PublishInfo → ℕ → A) where
  -- `appPublishCallback`, if it is not NULL.
  abbrev pub call_app : PublishInfo → ℕ → State W A → State W A
  call_app info id s = if s.has_callback then record s { app = callback s.app info id } else s

  abbrev pub handle_publish : Option PublishInfo → ℕ → State W A → Run (State W A) (Unit {0})
  handle_publish none id s = aborted
  handle_publish (some info) id s = done tt (call_app info id s)

  -- `mqttCallback`; PINGRESP and unknown types are only logged.
  unfoldable pub mqtt_callback : Packet → State W A → Run (State W A) (Unit {0})
  mqtt_callback p s =
      if is_publish p.type
      then handle_publish p.publish p.packet_id s
      else if p.type == type_suback
      then (if s.subscribe_packet_id == p.packet_id
          then done tt (record s { ack_packet_id = p.packet_id })
          else aborted)
      else if p.type == type_unsuback
      then (if s.unsubscribe_packet_id == p.packet_id
          then done tt (record s { ack_packet_id = p.packet_id })
          else aborted)
      else if p.type == type_puback
      then (if p.packet_id == 0
          then aborted
          else done tt (record s {
            ack_packet_id = p.packet_id;
            outgoing = cleanup_with_packet_id s.outgoing p.packet_id;
          }))
      else done tt s

  -- The calls that one `MQTT_ProcessLoop` makes.
  unfoldable pub deliver : List Packet → State W A → Run (State W A) (Unit {0})
  deliver [] s = done tt s
  deliver (p ∷ ps) s = elim (mqtt_callback p s) [
    | done u s' ↦ deliver ps s'
    | aborted ↦ aborted
    | unfinished ↦ unfinished
  ]
