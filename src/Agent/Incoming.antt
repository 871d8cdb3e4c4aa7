-- ===== src/Agent/Incoming.antt =====
-- libraries/mqtt_agent/source/mqtt_agent.c: user contexts, and the queue of incoming publishes.
pub mod Items
pub mod Laws
pub mod Create
use embedded_provisioning_sd.Prelude.{
  ℕ, zero, suc, ◌+◌, ◌*◌, ◌%◌, ◌^◌, Bool, true, false, Option, none, some, List, [], ◌∷◌, ltb, ◌==◌,
  if◌then◌else◌, copy_in, copy_out, take,
}
use embedded_provisioning_sd.Platform.Queue.{SyncQueue, Wake, Outcome, blocked, returned}
use embedded_provisioning_sd.Platform.Queue
use embedded_provisioning_sd.Platform.Event
use embedded_provisioning_sd.Platform.Event.{SyncEvent}
use embedded_provisioning_sd.Mqtt.Library.{MqttStatus, success, PublishInfo}
use embedded_provisioning_sd.Agent.Pool.{
  pointer_size, message_send, message_receive, populate, structures,
}

-- `iotshdDev_MQTTAgentQueueItem_t`; the pointers of `publishInfo` are the bytes that they lead to, and
-- `none` is a NULL buffer.
pub record QueueItem : Type 0 where
  pub publish_info : PublishInfo
  pub topic_payload_buffer : Option (List ℕ)
  pub topic_payload_buffer_size : ℕ

-- What `memset` leaves.
abbrev pub no_publish : PublishInfo
no_publish = record {
  qos = 0;
  retain = false;
  dup = false;
  topic_name = [];
  topic_name_length = 0;
  payload = [];
  payload_length = 0;
}

abbrev pub empty_item : QueueItem
empty_item = record {
  publish_info = no_publish;
  topic_payload_buffer = none;
  topic_payload_buffer_size = 0;
}

-- The two queues of a user context, and the items at their addresses.
pub record Queues : Type 0 where
  pub incoming_publish_queue : SyncQueue
  pub free_publish_message_queue : SyncQueue
  pub queue_items : ℕ → QueueItem

-- `iotshdDev_MQTTAgentUserContext_t`; without queues their pointers and that of the items are NULL.
pub record UserContext : Type 0 where
  pub return_status : MqttStatus
  pub sync_event : Option SyncEvent
  pub queue_size : ℕ
  pub queues : Option Queues

-- The context's queues with every item's pointer in the queue of free ones; `malloc` is taken to succeed
-- here, as the code does. The items are at `base`, `item_size` bytes each.
unfoldable pub create_queues : (ℕ → List ℕ) → ℕ → ℕ → ℕ → Option Queues
create_queues malloc base item_size size = elim (Queue.create malloc size pointer_size) [
  | none ↦ none
  | some q ↦ some (record {
    incoming_publish_queue = q;
    free_publish_message_queue = populate q (structures base item_size size 0);
    queue_items = λ a. empty_item;
  })
]

-- `iotshdDev_MQTTAgentCreateUserContext` of a size; `event_allocated` says whether there is memory for the
-- event, and the context itself is taken to be there.
unfoldable pub create_user_context : (ℕ → List ℕ) → Bool → ℕ → ℕ → ℕ → UserContext
create_user_context malloc event_allocated base item_size size =
    elim (Event.create event_allocated) [
      | none ↦ record { return_status = success; sync_event = none; queue_size = 0; queues = none }
      | some event ↦ record {
        return_status = success;
        sync_event = some event;
        queue_size = size;
        queues = if ltb 0 size then create_queues malloc base item_size size else none;
      }
    ]

-- `requiredTopicPayloadSize`, a `size_t`
unfoldable pub required_size : PublishInfo → ℕ
required_size info = (info.topic_name_length + 1 + info.payload_length + 1) % 2 ^ 64

-- The buffer of an item for so many bytes: the old one if it is large enough, else a new one.
unfoldable pub ensure_buffer : (ℕ → List ℕ) → ℕ → QueueItem → List ℕ × ℕ
ensure_buffer malloc size item = elim item.topic_payload_buffer [
  | none ↦ (malloc size, size)
  | some buffer ↦
      if ltb item.topic_payload_buffer_size size
      then (malloc size, size)
      else (buffer, item.topic_payload_buffer_size)
]

-- The topic and the payload with their terminators, in a buffer.
unfoldable pub write_publish : List ℕ → PublishInfo → List ℕ
write_publish buffer info =
    let n = info.topic_name_length in
    let with_topic = copy_in (copy_in buffer 0 (take n info.topic_name)) n (0 ∷ []) in
    let with_payload = copy_in with_topic (n + 1) (take info.payload_length info.payload) in
    copy_in with_payload (n + 1 + info.payload_length) (0 ∷ [])

-- An item that has taken a copy of a publish.
unfoldable pub fill_item : (ℕ → List ℕ) → QueueItem → PublishInfo → QueueItem
fill_item malloc item info =
    let (buffer, size) = ensure_buffer malloc (required_size info) item in
    let written = write_publish buffer info in
    record {
      publish_info = record info {
        topic_name = copy_out written 0 info.topic_name_length;
        payload = copy_out written (info.topic_name_length + 1) info.payload_length;
      };
      topic_payload_buffer = some written;
      topic_payload_buffer_size = size;
    }

-- The items with another one at an address.
abbrev pub store_item : (ℕ → QueueItem) → ℕ → QueueItem → ℕ → QueueItem
store_item items at item a = if a == at then item else items a

-- The end of `mqttAgentEnqueuePublishCallback`, for an item and what the sending gave.
abbrev pub enqueued : Queues → Outcome Bool SyncQueue → Outcome Bool Queues
enqueued qs (blocked q) = blocked (record qs { incoming_publish_queue = q })
enqueued qs (returned ok q) = returned true (record qs { incoming_publish_queue = q })

-- `mqttAgentEnqueuePublishCallback`, with what other threads do at its two calls of the queues: whether
-- there was a free item.
unfoldable pub enqueue_publish :
    (ℕ → List ℕ) → Queues → PublishInfo → List Wake → List Wake → Outcome Bool Queues
enqueue_publish malloc qs info wakes wakes' =
    elim (message_receive qs.free_publish_message_queue 0 wakes) [
      | blocked q ↦ blocked (record qs { free_publish_message_queue = q })
      | returned got q ↦ elim got [
        | none ↦ returned false (record qs { free_publish_message_queue = q })
        | some p ↦
            let filled : Queues = record qs {
              free_publish_message_queue = q;
              queue_items = store_item qs.queue_items p (fill_item malloc (qs.queue_items p) info);
            } in
            enqueued filled (message_send qs.incoming_publish_queue (some p) 0 wakes')
      ]
    ]

-- `iotshdDev_MQTTAgentDequeueIncommingPublish`; the pointer is NULL where nothing came.
unfoldable pub dequeue_incoming_publish : Queues → ℕ → List Wake → Outcome (Option ℕ) Queues
dequeue_incoming_publish qs block wakes =
    elim (message_receive qs.incoming_publish_queue block wakes) [
      | blocked q ↦ blocked (record qs { incoming_publish_queue = q })
      | returned got q ↦ returned got (record qs { incoming_publish_queue = q })
    ]

-- The item that `iotshdDev_MQTTAgentFreeIncommingPublish` leaves.
unfoldable pub clear_item : Bool → QueueItem → QueueItem
clear_item free_buffer item =
    let kept = record item { publish_info = no_publish } in
    elim item.topic_payload_buffer [
      | none ↦ kept
      | some buffer ↦
          if free_buffer
          then record kept { topic_payload_buffer = none; topic_payload_buffer_size = 0 }
          else kept
    ]

-- `iotshdDev_MQTTAgentFreeIncommingPublish` of an item's address, with what the sending gave.
unfoldable pub free_incoming_publish : Queues → ℕ → Bool → List Wake → Outcome Bool Queues
free_incoming_publish qs p free_buffer wakes =
    let items = store_item qs.queue_items p (clear_item free_buffer (qs.queue_items p)) in
    elim (message_send qs.free_publish_message_queue (some p) 0 wakes) [
      | blocked q ↦ blocked (record qs { free_publish_message_queue = q; queue_items = items })
      | returned ok q ↦
          returned ok (record qs { free_publish_message_queue = q; queue_items = items })
    ]
