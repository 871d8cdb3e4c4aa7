-- ===== src/Demo/Handler/Items.antt =====
-- The publishes that `prvDataModelHandlerThread` takes from its queue.
use embedded_provisioning_sd.Prelude.{
  ℕ, ◌<◌, ◌≡◌, ◌≢◌, refl, sym, ap, subst, ◌∙◌, some, false, List, [], ◌∷◌, ◌++◌, length, ◌==◌,
}
use embedded_provisioning_sd.Platform.Queue.{Wake}
use embedded_provisioning_sd.Platform.Queue.Ready.{receive-timeout}
use embedded_provisioning_sd.Agent.Pool.{pointer_size, message_receive}
use embedded_provisioning_sd.Agent.Pool.Ownership.{IsPointer}
use embedded_provisioning_sd.Agent.Incoming.{QueueItem, dequeue_incoming_publish}
use embedded_provisioning_sd.Agent.Incoming.Items.{IsItem}
use embedded_provisioning_sd.Agent.Incoming.Laws.{
  QueuesHold, dequeue_incoming_publish_lem, free_incoming_publish_lem,
}
use embedded_provisioning_sd.Demo.Handler.{
  Report, Turn, Handler, goes, null_pointer, Setting, deliver, take_turn, dequeue, free_item,
  receive_item,
}

-- A turn at a queue with what comes to its wait, and nothing else.
abbrev pub at_queue : List Wake → Turn
at_queue ws = record { old_event = []; rounds = []; wakes = ws; arrivals = [] }

module _ {W : Type 0} (e : Setting W) where
  -- Where no publish waits and the wait for one runs out of time, the thread accesses what NULL points
  -- to.
  pub receive_item_none :
      (cap : ℕ) (free : List ℕ) (as_report : QueueItem → Report) (h : Handler W) (w : Wake)
      (ts : List Turn)
      → QueuesHold cap h.queues free []
      → w.others ≡ []
      → w.ret ≢ 0
      → h.turns ≡ at_queue (w ∷ []) ∷ ts
      → receive_item e as_report h ≡ null_pointer
  unfolding receive_item dequeue take_turn dequeue_incoming_publish message_receive deliver
  receive_item_none cap free as_report h w ts (hf, hw) quiet failed turns =
      let (q, gave_up, hw') =
        receive-timeout cap pointer_size h.queues.incoming_publish_queue 5000 w hw quiet failed in
      simp (
        receive_item, dequeue, take_turn, turns, dequeue_incoming_publish, message_receive, gave_up,
      )

  -- A publish that waits is printed, and its item is given back behind the free ones.
  pub receive_item_some :
      (cap p : ℕ) (free waiting : List ℕ) (as_report : QueueItem → Report) (h : Handler W)
      (ts : List Turn)
      → QueuesHold cap h.queues free (p ∷ waiting)
      → IsPointer p
      → length free < cap
      → IsItem (h.queues.queue_items p)
      → h.turns ≡ at_queue [] ∷ at_queue [] ∷ ts
      → (h' : Handler W) × (receive_item e as_report h ≡ goes tt h')
        × (h'.reports ≡ h.reports ++ as_report (h.queues.queue_items p) ∷ [])
        × (h'.turns ≡ ts)
        × QueuesHold cap h'.queues (free ++ p ∷ []) waiting
        × ((a : ℕ) → (a == p) ≡ false → h'.queues.queue_items a ≡ h.queues.queue_items a)
  unfolding receive_item dequeue free_item take_turn deliver
  receive_item_some cap p free waiting as_report h ts holds small room good turns =
      let (qs, e₁, holds₁, same) =
        dequeue_incoming_publish_lem cap p 5000 free waiting h.queues holds small in
      let (qs', e₂, holds₂, cleared, true_size, others) =
        free_incoming_publish_lem cap p false free waiting qs holds₁ room
          (subst (λ t. IsItem (t p)) (sym same) good) in
      let taken : Handler W = record h { queues = qs; turns = at_queue [] ∷ ts } in
      let shown : Handler W = record taken {
        reports = h.reports ++ as_report (qs.queue_items p) ∷ [];
      } in
      let first : dequeue e 5000 h ≡ goes (some p) taken = simp (dequeue, take_turn, turns, e₁) in
      let second : free_item e p shown ≡ goes tt (record shown { queues = qs'; turns = ts }) =
        simp (free_item, take_turn, e₂) in
      (
        record shown { queues = qs'; turns = ts },
        simp (receive_item, first, second),
        ap (λ t. h.reports ++ as_report (t p) ∷ []) same,
        refl,
        holds₂,
        λ a ne. others a ne ∙ ap (λ t. t a) same,
      )
