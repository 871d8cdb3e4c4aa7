-- ===== src/Agent/Incoming/Laws.antt =====
-- What the queue of incoming publishes keeps: the publish that was enqueued is the one dequeued, and the
-- items are shared out between the two queues and the user.
use embedded_provisioning_sd.Prelude.{
  ℕ, ◌<◌, ◌≡◌, refl, sym, ap, subst, ◌∙◌, Bool, true, false, some, List, [], ◌∷◌, ◌++◌, ◌==◌,
  ==_refl, length,
}
use embedded_provisioning_sd.Platform.Queue.{returned}
use embedded_provisioning_sd.Mqtt.Library.{PublishInfo}
use embedded_provisioning_sd.Agent.Pool.{get_command}
use embedded_provisioning_sd.Agent.Pool.Ownership.{QueueHolds, IsPointer, send_pointer, get_pointer}
use embedded_provisioning_sd.Agent.Incoming.{
  Queues, fill_item, store_item, enqueue_publish, dequeue_incoming_publish, clear_item,
  free_incoming_publish, no_publish,
}
use embedded_provisioning_sd.Agent.Incoming.Items.{
  IsItem, IsPublish, fill_item_lem, clear_item-IsCleared,
}

-- The queues of a user context, of a capacity, hold the free items and those that wait.
abbrev pub QueuesHold : ℕ → Queues → List ℕ → List ℕ → Type 0
QueuesHold cap qs free waiting =
    QueueHolds cap qs.free_publish_message_queue free
    × QueueHolds cap qs.incoming_publish_queue waiting

module _ (malloc : ℕ → List ℕ) (gives : (n : ℕ) → length (malloc n) ≡ n) where
  -- With a free item that is an address and has a true size, and room in the queue of incoming publishes,
  -- `mqttAgentEnqueuePublishCallback` moves the oldest free item behind the publishes that wait, with a
  -- copy of the publish in it, and leaves the other items.
  pub enqueue_publish_lem :
      (cap p : ℕ) (free waiting : List ℕ) (qs : Queues) (info : PublishInfo)
      → QueuesHold cap qs (p ∷ free) waiting
      → IsPointer p
      → length waiting < cap
      → IsItem (qs.queue_items p)
      → IsPublish info
      → (qs' : Queues) × (enqueue_publish malloc qs info [] [] ≡ returned true qs')
        × QueuesHold cap qs' free (waiting ++ p ∷ [])
        × ((qs'.queue_items p).publish_info ≡ info)
        × IsItem (qs'.queue_items p)
        × ((a : ℕ) → (a == p) ≡ false → qs'.queue_items a ≡ qs.queue_items a)
  unfolding enqueue_publish get_command
  enqueue_publish_lem cap p free waiting qs info (hf, hw) small room good ok =
      let (qf, ef, hf') = get_pointer cap qs.free_publish_message_queue free p 0 hf small in
      let (qw, ew, hw') = send_pointer cap qs.incoming_publish_queue waiting p hw room in
      let items = store_item qs.queue_items p (fill_item malloc (qs.queue_items p) info) in
      let filled : Queues = record {
        free_publish_message_queue = qf;
        incoming_publish_queue = qw;
        queue_items = items;
      } in
      let at : items p ≡ fill_item malloc (qs.queue_items p) info = rw (==_refl p) refl in
      let (copied, true_size) = fill_item_lem malloc gives (qs.queue_items p) info good ok in
      (
        filled,
        simp (enqueue_publish, ef, ew),
        (hf', hw'),
        ap (λ t. t.publish_info) at ∙ copied,
        subst IsItem (sym at) true_size,
        λ a ne. rw ne refl,
      )

-- The oldest publish that waits is dequeued, and its item stays as it is.
pub dequeue_incoming_publish_lem :
    (cap p block : ℕ) (free waiting : List ℕ) (qs : Queues)
    → QueuesHold cap qs free (p ∷ waiting)
    → IsPointer p
    → (qs' : Queues) × (dequeue_incoming_publish qs block [] ≡ returned (some p) qs')
      × QueuesHold cap qs' free waiting
      × (qs'.queue_items ≡ qs.queue_items)
unfolding dequeue_incoming_publish get_command
dequeue_incoming_publish_lem cap p block free waiting qs (hf, hw) small =
    let (q, e, h) = get_pointer cap qs.incoming_publish_queue waiting p block hw small in
    (record qs { incoming_publish_queue = q }, simp (dequeue_incoming_publish, e), (hf, h), refl)

-- With room in the queue of free items, `iotshdDev_MQTTAgentFreeIncommingPublish` puts the item behind
-- them, without a publish and with a true size, and leaves the other items.
pub free_incoming_publish_lem :
    (cap p : ℕ) (free_buffer : Bool) (free waiting : List ℕ) (qs : Queues)
    → QueuesHold cap qs free waiting
    → length free < cap
    → IsItem (qs.queue_items p)
    → (qs' : Queues) × (free_incoming_publish qs p free_buffer [] ≡ returned true qs')
      × QueuesHold cap qs' (free ++ p ∷ []) waiting
      × ((qs'.queue_items p).publish_info ≡ no_publish)
      × IsItem (qs'.queue_items p)
      × ((a : ℕ) → (a == p) ≡ false → qs'.queue_items a ≡ qs.queue_items a)
unfolding free_incoming_publish
free_incoming_publish_lem cap p free_buffer free waiting qs (hf, hw) room good =
    let (q, e, h) = send_pointer cap qs.free_publish_message_queue free p hf room in
    let items = store_item qs.queue_items p (clear_item free_buffer (qs.queue_items p)) in
    let at : items p ≡ clear_item free_buffer (qs.queue_items p) = rw (==_refl p) refl in
    let cleared = clear_item-IsCleared free_buffer (qs.queue_items p) good in
    (
      record qs { free_publish_message_queue = q; queue_items = items },
      simp (free_incoming_publish, e),
      (h, hw),
      subst (λ t. t.publish_info ≡ no_publish) (sym at) cleared.0,
      subst IsItem (sym at) cleared.1,
      λ a ne. rw ne refl,
    )

module _ (malloc : ℕ → List ℕ) (gives : (n : ℕ) → length (malloc n) ≡ n) where
  -- A publish that is enqueued where none waits is the one dequeued: its topic, its payload and all else
  -- of it are those that came in, whatever buffer the item had. The item is a free one that is an address
  -- and has a true size.
  pub dequeue_incoming_publish-enqueue_publish :
      (cap p block : ℕ) (free : List ℕ) (qs : Queues) (info : PublishInfo)
      → QueuesHold cap qs (p ∷ free) []
      → IsPointer p
      → 0 < cap
      → IsItem (qs.queue_items p)
      → IsPublish info
      → (qs' : Queues) × (qs'' : Queues) × (enqueue_publish malloc qs info [] []
          ≡ returned true qs')
        × (dequeue_incoming_publish qs' block [] ≡ returned (some p) qs'')
        × ((qs''.queue_items p).publish_info ≡ info)
        × QueuesHold cap qs'' free []
  dequeue_incoming_publish-enqueue_publish cap p block free qs info h small room good ok =
      let (qs', e, h', copied, true_size, others) =
        enqueue_publish_lem malloc gives cap p free [] qs info h small room good ok in
      let (qs'', e', h'', same) = dequeue_incoming_publish_lem cap p block free [] qs' h' small in
      (qs', qs'', e, e', ap (λ t. (t p).publish_info) same ∙ copied, h'')
