-- ===== src/Agent/Incoming/Create.antt =====
-- What `iotshdDev_MQTTAgentCreateUserContext` leaves.
use embedded_provisioning_sd.Prelude.{
  ℕ, zero, suc, ◌*◌, ◌^◌, ◌<◌, ◌≡◌, refl, ap, inl, inr, true, false, none, some, List, [], arith,
  Option-cases, ltb, length,
}
use embedded_provisioning_sd.Platform.Queue
use embedded_provisioning_sd.Platform.Queue.{SyncQueue, Outcome, blocked, returned}
use embedded_provisioning_sd.Platform.Queue.Simulation.{create-Holds}
use embedded_provisioning_sd.Platform.Event
use embedded_provisioning_sd.Agent.Pool.{pointer_size, populate, structures}
use embedded_provisioning_sd.Agent.Pool.Ownership.{populate-QueueHolds}
use embedded_provisioning_sd.Agent.Incoming.{Queues, empty_item, create_queues, create_user_context}
use embedded_provisioning_sd.Agent.Incoming.Items.{IsItem}
use embedded_provisioning_sd.Agent.Incoming.Laws.{QueuesHold}

length-structures : (base item_size n i : ℕ) → length (structures base item_size n i) ≡ n
length-structures base item_size zero i = refl
length-structures base item_size (suc n) i = ap suc (length-structures base item_size n (suc i))

created :
    (malloc : ℕ → List ℕ) (size : ℕ) → 0 < size → Queue.create malloc size pointer_size ≡ none → ⊥
unfolding Queue.create
created malloc size some_items e = ground arith

-- Where the event has its memory, `iotshdDev_MQTTAgentCreateUserContext` of a size that is not 0 and fits
-- the queue leaves a context whose event is clear, in whose queues no publish waits, every item is free in
-- the order of their addresses, and each has a true size.
pub create_user_context_lem :
    (malloc : ℕ → List ℕ) (base item_size size : ℕ)
    → ((n : ℕ) → length (malloc n) ≡ n)
    → 0 < size
    → size * pointer_size < 2 ^ 32
    → let ctx = create_user_context malloc true base item_size size in
      (ctx.sync_event ≡ some (record { event_status = false }))
      × ((qs : Queues) × (ctx.queues ≡ some qs)
          × QueuesHold size qs (structures base item_size size 0) []
          × ((a : ℕ) → IsItem (qs.queue_items a)))
unfolding create_user_context create_queues Event.create
create_user_context_lem malloc base item_size size gives some_items small =
    let positive : ltb 0 size ≡ true = ground arith in
    elim (Option-cases (Queue.create malloc size pointer_size)) [
      | inl null ↦ absurd (created malloc size some_items null)
      | inr (q, there) ↦
          let empty = create-Holds malloc size pointer_size gives small there in
          (
            refl,
            (
              record {
                incoming_publish_queue = q;
                free_publish_message_queue = populate q (structures base item_size size 0);
                queue_items = λ a. empty_item;
              },
              simp (create_user_context, create_queues, positive, there),
              (
                populate-QueueHolds size (structures base item_size size 0) q [] empty
                    (omega (arith, length-structures base item_size size 0)),
                empty,
              ),
              λ a b e. absurd (ground arith),
            ),
          )
    ]
