-- ===== src/Mqtt/Outgoing.antt =====
-- The table `outgoingPublishPackets`: a QoS 1 publish stays in it until its PUBACK. The models are for
-- a table of any length; MAX_OUTGOING_PUBLISHES is 5.
pub mod Laws
use embedded_provisioning_sd.Prelude.{
  ℕ, ◌+◌, Bool, true, false, Option, none, some, List, [], ◌∷◌, map, ◌==◌, if◌then◌else◌, set,
}
use embedded_provisioning_sd.Mqtt.Library.{
  PublishInfo, PublishPacket, MqttStatus, is_success, Library,
}

-- MQTT_PACKET_ID_INVALID
abbrev pub packet_id_invalid : ℕ
packet_id_invalid = 0

-- An entry that `memset` cleared.
abbrev pub free_packet : PublishPacket
free_packet = record {
  packet_id = 0;
  pub_info = record {
    qos = 0;
    retain = false;
    dup = false;
    topic_name = [];
    topic_name_length = 0;
    payload = [];
    payload_length = 0;
  };
}

abbrev pub is_free : PublishPacket → Bool
is_free p = p.packet_id == packet_id_invalid

-- `getNextFreeIndexForOutgoingPublishes` from index `i` on; `none` is `false`.
unfoldable pub get_next_free_index : List PublishPacket → ℕ → Option ℕ
get_next_free_index [] i = none
get_next_free_index (p ∷ ps) i =
    let rest = get_next_free_index ps (i + 1) in if is_free p then some i else rest

-- `cleanupOutgoingPublishAt`
unfoldable pub cleanup_at : List PublishPacket → ℕ → List PublishPacket
cleanup_at ps index = set ps index free_packet

-- `cleanupOutgoingPublishes`
unfoldable pub cleanup_all : List PublishPacket → List PublishPacket
cleanup_all ps = map (λ _. free_packet) ps

-- The loop of `cleanupOutgoingPublishWithPacketID`: the first entry with the id is cleared.
unfoldable pub cleanup_with_packet_id : List PublishPacket → ℕ → List PublishPacket
cleanup_with_packet_id [] id = []
cleanup_with_packet_id (p ∷ ps) id =
    if p.packet_id == id then free_packet ∷ ps else p ∷ cleanup_with_packet_id ps id

abbrev pub as_duplicate : PublishPacket → PublishPacket
as_duplicate p = let info = p.pub_info in record p { pub_info = record info { dup = true } }

module _ {W B : Type 0} (lib : Library W B) where
  -- The loop of `handlePublishResend`: whether it got to the end, the table and the world.
  unfoldable pub handle_publish_resend : List PublishPacket → W → Bool × List PublishPacket × W
  handle_publish_resend [] w = (true, [], w)
  handle_publish_resend (p ∷ ps) w = elim (is_free p) [
    | true ↦ let (ok, ps', w') = handle_publish_resend ps w in (ok, p ∷ ps', w')
    | false ↦
        let (status, w') = lib.publish (as_duplicate p).pub_info p.packet_id w in
        let (ok, ps', w'') = handle_publish_resend ps w' in
        if is_success status
        then (ok, as_duplicate p ∷ ps', w'')
        else (false, as_duplicate p ∷ ps, w')
  ]
