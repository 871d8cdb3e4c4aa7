-- ===== src/Mqtt/Topics.antt =====
-- `SubscribeToTopic`, `UnsubscribeFromTopic` and `PublishToTopic`.
pub mod Laws
use embedded_provisioning_sd.Prelude.{
  ℕ, Bool, true, false, Option, none, some, List, ◌==◌, if◌then◌else◌, set,
}
use embedded_provisioning_sd.Mqtt.Library.{
  MqttStatus, is_success, PublishInfo, PublishPacket, Library, State, Run, done, aborted,
}
use embedded_provisioning_sd.Mqtt.Outgoing.{get_next_free_index, cleanup_at}
use embedded_provisioning_sd.Mqtt.Outgoing.Laws.{entry}
use embedded_provisioning_sd.Mqtt.Wait.{wait_for_packet_ack, process_loop_timeout_ms}

-- The entry that `PublishToTopic` fills in: MQTTQoS1, and the flags `dup` and `retain` as they are.
abbrev pub filled : PublishPacket → List ℕ → ℕ → List ℕ → ℕ → ℕ → PublishPacket
filled old topic len payload plen id =
    let info = old.pub_info in
    record {
      packet_id = id;
      pub_info = record info {
        qos = 1;
        topic_name = topic;
        topic_name_length = len;
        payload = payload;
        payload_length = plen;
      };
    }

module _ {W B A : Type 0} (lib : Library W B) (callback : A → PublishInfo → ℕ → A) where
  -- `SubscribeToTopic`; `fuel` is for the wait.
  unfoldable pub subscribe_to_topic : ℕ → List ℕ → ℕ → State W A → Run (State W A) Bool
  subscribe_to_topic fuel topic len s =
      if len == 0
      then aborted
      else let (id, w) = lib.get_packet_id s.world in
        let (status, w') = lib.subscribe topic len id w in
        let s' : State W A = record s { subscribe_packet_id = id; world = w' } in
        if is_success status
        then wait_for_packet_ack lib callback fuel id process_loop_timeout_ms s'
        else done false s'

  -- `UnsubscribeFromTopic`
  unfoldable pub unsubscribe_from_topic : ℕ → List ℕ → ℕ → State W A → Run (State W A) Bool
  unsubscribe_from_topic fuel topic len s =
      if len == 0
      then aborted
      else let (id, w) = lib.get_packet_id s.world in
        let (status, w') = lib.unsubscribe topic len id w in
        let s' : State W A = record s { unsubscribe_packet_id = id; world = w' } in
        if is_success status
        then wait_for_packet_ack lib callback fuel id process_loop_timeout_ms s'
        else done false s'

  -- `PublishToTopic` behind the search for an entry.
  unfoldable pub publish_at : ℕ → List ℕ → ℕ → List ℕ → ℕ → State W A → Run (State W A) Bool
  publish_at index topic len payload plen s =
      let (id, w) = lib.get_packet_id s.world in
      let packet = filled (entry s.outgoing index) topic len payload plen id in
      let (status, w') = lib.publish packet.pub_info id w in
      let table = set s.outgoing index packet in
      if is_success status
      then done true (record s { outgoing = table; world = w' })
      else done false (record s { outgoing = cleanup_at table index; world = w' })

  -- `PublishToTopic`
  unfoldable pub publish_to_topic : List ℕ → ℕ → List ℕ → ℕ → State W A → Run (State W A) Bool
  unfolding publish_at
  publish_to_topic topic len payload plen s =
      if len == 0 then aborted else elim (get_next_free_index s.outgoing 0) [
        | none ↦ done false s
        | some index ↦ publish_at index topic len payload plen s
      ]
