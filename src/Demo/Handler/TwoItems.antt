-- ===== src/Demo/Handler/TwoItems.antt =====
-- Two publishes of `prvDataModelHandlerThread` come back through its queue.
use embedded_provisioning_sd.Prelude.{
  ℕ, ◌+◌, ◌<◌, ◌≤◌, ◌≡◌, refl, sym, ap, subst, ◌∙◌, false, List, [], ◌∷◌, ◌++◌, arith, length,
  length-append, append_assoc, ◌==◌, ==_refl, to_bytes,
}
use embedded_provisioning_sd.Platform.Queue.{Wake}
use embedded_provisioning_sd.Platform.Queue.Ready.{receive-ready, send-ready}
use embedded_provisioning_sd.Mqtt.Library.{MqttStatus, success, PublishInfo}
use embedded_provisioning_sd.Agent.Subscriptions.{Call}
use embedded_provisioning_sd.Agent.Pool.{pointer_size, message_send, message_receive, get_command}
use embedded_provisioning_sd.Agent.Pool.Ownership.{
  pointers, length-pointers, IsPointer, get_pointer,
}
use embedded_provisioning_sd.Agent.Incoming.{QueueItem, Queues, enqueue_publish}
use embedded_provisioning_sd.Agent.Incoming.Items.{IsItem, IsPublish}
use embedded_provisioning_sd.Agent.Incoming.Laws.{QueuesHold, enqueue_publish_lem}
use embedded_provisioning_sd.Agent.Calls.{
  own, publishes, complete, run_callback, publish_command_callback,
}
use embedded_provisioning_sd.Agent.Calls.Laws.{completed, publish_lem}
use embedded_provisioning_sd.Demo.Handler.{
  publish_info, first_item, second_item, Turn, Handler, goes, Setting, run_call, run_calls, deliver,
  take_turn, publish_message, receive_item, ◌>>◌,
}
use embedded_provisioning_sd.Demo.Handler.Delivery.{calls_for}
use embedded_provisioning_sd.Demo.Handler.Publish.{publishing}
use embedded_provisioning_sd.Demo.Handler.Items.{at_queue, receive_item_some}

-- With a free item and room, the agent's thread does not wait at either queue.
enqueue_publish-ready :
    (malloc : ℕ → List ℕ) (cap p : ℕ) (free waiting : List ℕ) (qs : Queues) (info : PublishInfo)
    (ws ws' : List Wake)
    → QueuesHold cap qs (p ∷ free) waiting
    → IsPointer p
    → length waiting < cap
    → enqueue_publish malloc qs info ws ws' ≡ enqueue_publish malloc qs info [] []
unfolding enqueue_publish message_receive message_send get_command
enqueue_publish-ready malloc cap p free waiting qs info ws ws' (hf, hw) small room =
    let (qf, got, hf') = get_pointer cap qs.free_publish_message_queue free p 0 hf small in
    let first =
      receive-ready cap pointer_size qs.free_publish_message_queue (to_bytes pointer_size p)
        (pointers free) 0 ws hf in
    let second =
      send-ready cap pointer_size qs.incoming_publish_queue (pointers waiting)
        (to_bytes pointer_size p) 0 ws' hw (omega (arith, length-pointers waiting)) in
    simp (enqueue_publish, message_receive, message_send, first, got, second)

-- The publish of the thread has the lengths that it says.
publish_info-IsPublish : IsPublish publish_info
publish_info-IsPublish = (refl, refl, omega arith)

module _ {W : Type 0} (e : Setting W) (gives : (n : ℕ) → length (e.malloc n) ≡ n)
    (other_callback : (e.enqueue_callback == e.incoming_publish) ≡ false) where
  -- The call that puts a publish into the thread's queue.
  abbrev pub enqueues : Call
  enqueues = record { callback = e.enqueue_callback; callback_context = e.user_context }

  -- A publish that comes in for the queue alone fills the next free item and waits.
  arrives :
      (cap p : ℕ) (free waiting : List ℕ) (h : Handler W)
      → QueuesHold cap h.queues (p ∷ free) waiting
      → IsPointer p
      → length waiting < cap
      → IsItem (h.queues.queue_items p)
      → calls_for e h publish_info ≡ enqueues ∷ []
      → (qs : Queues) × (deliver e h (publish_info ∷ []) ≡ record h { queues = qs })
        × QueuesHold cap qs free (waiting ++ p ∷ [])
        × ((qs.queue_items p).publish_info ≡ publish_info)
        × IsItem (qs.queue_items p)
        × ((a : ℕ) → (a == p) ≡ false → qs.queue_items a ≡ h.queues.queue_items a)
  unfolding deliver run_calls run_call
  arrives cap p free waiting h holds small room good calls =
      let (qs, there, holds', copied, true_size, others) =
        enqueue_publish_lem e.malloc gives cap p free waiting h.queues publish_info holds small room
          good publish_info-IsPublish in
      let ready =
        enqueue_publish-ready e.malloc cap p free waiting h.queues publish_info e.no_wait e.no_wait
          holds small room in
      (
        qs,
        simp (
          deliver,
          run_calls,
          run_call,
          calls,
          other_callback,
          ==_refl e.enqueue_callback,
          ready,
          there,
        ),
        holds',
        copied,
        true_size,
        others,
      )

  -- The same behind a publish of the thread that the agent takes and completes.
  publish_arrives :
      (cap p m : ℕ) (status : MqttStatus) (free waiting : List ℕ) (h : Handler W) (ts : List Turn)
      → h.turns ≡ publishing m status (publish_info ∷ []) ∷ ts
      → (e.agent.publish publish_info 100 h.world).0 ≡ success
      → h.shared.sync_event.event_status ≡ false
      → QueuesHold cap h.queues (p ∷ free) waiting
      → IsPointer p
      → length waiting < cap
      → IsItem (h.queues.queue_items p)
      → calls_for e h publish_info ≡ enqueues ∷ []
      → (h' : Handler W) × (publish_message e h ≡ goes tt h')
        × (h'.turns ≡ ts)
        × (h'.reports ≡ h.reports)
        × (h'.shared.sync_event.event_status ≡ false)
        × (calls_for e h' publish_info ≡ enqueues ∷ [])
        × QueuesHold cap h'.queues free (waiting ++ p ∷ [])
        × ((h'.queues.queue_items p).publish_info ≡ publish_info)
        × IsItem (h'.queues.queue_items p)
        × ((a : ℕ) → (a == p) ≡ false → h'.queues.queue_items a ≡ h.queues.queue_items a)
  unfolding publish_message take_turn complete run_callback publish_command_callback
  publish_arrives cap p m status free waiting h ts turns taken clear holds small room good calls =
      let behind : Handler W = record h {
        shared = completed publishes h.shared (own status);
        world = (e.agent.publish publish_info 100 h.world).1;
        turns = ts;
      } in
      let (there, out_of_time) =
        publish_lem e.agent publish_info 100 h.world h.shared m 1 status taken clear
          (λ z. absurd (omega arith)) in
      let (qs, came, holds', copied, true_size, others) =
        arrives cap p free waiting behind holds small room good calls in
      let ends : publish_message e h ≡ goes tt (record behind { queues = qs }) =
        simp (publish_message, take_turn, turns, there, came) in
      (
        record behind { queues = qs },
        ends,
        refl,
        refl,
        refl,
        calls,
        holds',
        copied,
        true_size,
        others,
      )

  -- Two publishes that wait are received and printed in their order.
  receive_two :
      (cap p₁ p₂ : ℕ) (free : List ℕ) (h : Handler W) (ts : List Turn)
      → h.turns ≡ at_queue [] ∷ at_queue [] ∷ at_queue [] ∷ at_queue [] ∷ ts
      → QueuesHold cap h.queues free (p₁ ∷ p₂ ∷ [])
      → IsPointer p₁
      → IsPointer p₂
      → (p₂ == p₁) ≡ false
      → length free + 2 ≤ cap
      → IsItem (h.queues.queue_items p₁)
      → IsItem (h.queues.queue_items p₂)
      → (h' : Handler W) × ((receive_item e first_item >> receive_item e second_item) h
          ≡ goes tt h')
        × (h'.reports
            ≡ h.reports
              ++ first_item (h.queues.queue_items p₁) ∷ second_item (h.queues.queue_items p₂) ∷ [])
        × QueuesHold cap h'.queues (free ++ p₁ ∷ p₂ ∷ []) []
  receive_two cap p₁ p₂ free h ts turns holds small₁ small₂ ne room good₁ good₂ =
      let (c, ec, rc, tc, hc, oc) =
        receive_item_some e cap p₁ free (p₂ ∷ []) first_item h (at_queue [] ∷ at_queue [] ∷ ts)
          holds small₁ (omega arith) good₁ turns in
      let same = oc p₂ ne in
      let (d, ed, rd, td, hd, od) =
        receive_item_some e cap p₂ (free ++ p₁ ∷ []) [] second_item c ts hc small₂
          (omega (arith, length-append free (p₁ ∷ []))) (subst IsItem (sym same) good₂) tc in
      (
        d,
        rw ec ed,
        rd
            ∙ ap (λ l. l ++ second_item (c.queues.queue_items p₂) ∷ []) rc
            ∙ append_assoc h.reports (first_item (h.queues.queue_items p₁) ∷ [])
                (second_item (c.queues.queue_items p₂) ∷ [])
            ∙ ap (λ i. h.reports ++ first_item (h.queues.queue_items p₁) ∷ second_item i ∷ []) same,
        subst (λ l. QueuesHold cap d.queues l []) (append_assoc free (p₁ ∷ []) (p₂ ∷ [])) hd,
      )

  -- Two publishes of the thread that the agent takes and completes, and that come back before the thread
  -- receives, for its queue alone, are the two that it receives and prints, in their order, and their items
  -- are free again, behind the others. No publish waits before, and two items are free.
  pub two_items :
      (cap p₁ p₂ m₁ m₂ : ℕ) (status₁ status₂ : MqttStatus) (free : List ℕ) (h : Handler W)
      (ts : List Turn)
      → h.turns
        ≡ publishing m₁ status₁ (publish_info ∷ [])
          ∷ publishing m₂ status₂ (publish_info ∷ [])
          ∷ at_queue []
          ∷ at_queue []
          ∷ at_queue []
          ∷ at_queue []
          ∷ ts
      → ((w : W) → (e.agent.publish publish_info 100 w).0 ≡ success)
      → h.shared.sync_event.event_status ≡ false
      → QueuesHold cap h.queues (p₁ ∷ p₂ ∷ free) []
      → IsPointer p₁
      → IsPointer p₂
      → (p₁ == p₂) ≡ false
      → (p₂ == p₁) ≡ false
      → length free + 2 ≤ cap
      → IsItem (h.queues.queue_items p₁)
      → IsItem (h.queues.queue_items p₂)
      → calls_for e h publish_info ≡ enqueues ∷ []
      → (h' : Handler W) × (item₁ : QueueItem) × (item₂ : QueueItem) × ((do
        publish_message e
        publish_message e
        receive_item e first_item
        receive_item e second_item)
            h
          ≡ goes tt h')
        × (h'.reports ≡ h.reports ++ first_item item₁ ∷ second_item item₂ ∷ [])
        × (item₁.publish_info ≡ publish_info)
        × (item₂.publish_info ≡ publish_info)
        × QueuesHold cap h'.queues (free ++ p₁ ∷ p₂ ∷ []) []
  two_items cap p₁ p₂ m₁ m₂ status₁ status₂ free h ts turns taken clear holds small₁ small₂ ne₁ ne₂
        room good₁ good₂ calls =
      let queue_turns = at_queue [] ∷ at_queue [] ∷ ts in
      let (a, ea, ta, ra, ca, la, ha, ia, ga, oa) =
        publish_arrives cap p₁ m₁ status₁ (p₂ ∷ free) [] h
          (publishing m₂ status₂ (publish_info ∷ []) ∷ at_queue [] ∷ at_queue [] ∷ queue_turns)
          turns (taken h.world) clear holds small₁ (omega arith) good₁ calls in
      let (b, eb, tb, rb, cb, lb, hb, ib, gb, ob) =
        publish_arrives cap p₂ m₂ status₂ free (p₁ ∷ []) a (at_queue [] ∷ at_queue [] ∷ queue_turns)
          ta (taken a.world) ca ha small₂ (omega arith) (subst IsItem (sym (oa p₂ ne₂)) good₂) la in
      let same = ob p₁ ne₁ in
      let (d, ed, rd, hd) =
        receive_two cap p₁ p₂ free b ts tb hb small₁ small₂ ne₂ room (subst IsItem (sym same) ga)
          gb in
      (
        d,
        b.queues.queue_items p₁,
        b.queues.queue_items p₂,
        rw (ea, eb) ed,
        rd
            ∙ ap
                (λ l.
                  l
                  ++ first_item (b.queues.queue_items p₁)
                    ∷ second_item (b.queues.queue_items p₂)
                    ∷ [])
                (rb ∙ ra),
        ap (λ i. i.publish_info) same ∙ ia,
        ib,
        hd,
      )
