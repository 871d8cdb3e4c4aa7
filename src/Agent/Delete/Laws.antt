-- ===== src/Agent/Delete/Laws.antt =====
-- When `iotshdDev_MQTTAgentDeleteUserContext` accesses what it has given back.
use embedded_provisioning_sd.Prelude.{ℕ, suc, ◌≡◌, refl, true, false, some, List, ◌==◌}
use embedded_provisioning_sd.Platform.Queue.{Wake}
use embedded_provisioning_sd.Platform.Memory.{
  Block, Memory, finished, fault, is_allocated, touch, remove_block, free, delete_queue,
  receive_from,
}
use embedded_provisioning_sd.Platform.Memory.Laws.{
  Safe-and_then, Safe-fault, Held, Gone, free-Held, touch-Held, touch-Gone, delete_queue-Gone,
}
use embedded_provisioning_sd.Agent.Delete.{
  ContextPointers, drain, delete_and_drain, delete_user_context,
}

module _ (wakes : List Wake) (fuel : ℕ) where
  -- A loop that receives from a queue that is gone faults at once.
  drain-Gone : (q : ℕ) (m : Memory) → Gone q m → drain wakes (suc fuel) q m ≡ fault
  unfolding drain receive_from
  drain-Gone q m h = rw (touch-Gone q m h) refl

  delete_and_drain-faults :
      (q : ℕ) (m : Memory)
      → (q == 0) ≡ false
      → Held q m
      → delete_and_drain wakes (suc fuel) q q m ≡ fault
  unfolding delete_and_drain
  delete_and_drain-faults q m there h = Safe-fault _ (
      rw there (
        Safe-and_then (λ u. Gone q) (λ u n. ⊥) (delete_queue q m) _ (delete_queue-Gone q m there h)
          (λ u n g. rw (drain-Gone q n g) tt)))

  -- With a queue of free items that lies in at most one block, no block being empty,
  -- `iotshdDev_MQTTAgentDeleteUserContext` accesses memory that is not allocated, however the other
  -- pointers are: it receives from the queue that it has deleted.
  pub delete_user_context_faults :
      (ctx : ContextPointers) (m : Memory)
      → (ctx.user_context == 0) ≡ false
      → (ctx.free_publish_message_queue == 0) ≡ false
      → Held ctx.free_publish_message_queue m
      → delete_user_context wakes (suc fuel) ctx m ≡ fault
  unfolding delete_user_context
  delete_user_context_faults ctx m there queue h =
      let q = ctx.free_publish_message_queue in
      Safe-fault _ (
        rw there (
          Safe-and_then (λ u. Held q) (λ u n. ⊥) (touch ctx.user_context m) _
            (touch-Held q ctx.user_context m h)
            (λ u m₁ h₁.
              Safe-and_then (λ u. Held q) (λ u n. ⊥) (free ctx.sync_event m₁) _
                (free-Held q ctx.sync_event m₁ h₁)
                (λ u m₂ h₂. rw (delete_and_drain-faults q m₂ queue h₂) tt))))

  -- Without queues and items, `iotshdDev_MQTTAgentDeleteUserContext` ends, and gives back the block of
  -- the event and then that of the context, which it has accessed; all else of the memory stays.
  pub delete_user_context_no_queues :
      (ctx : ContextPointers) (m : Memory) (bs bs' : List Block)
      → (ctx.user_context == 0) ≡ false
      → ctx.free_publish_message_queue ≡ 0
      → ctx.incoming_publish_queue ≡ 0
      → ctx.queue_items ≡ 0
      → (ctx.sync_event == 0) ≡ false
      → is_allocated ctx.user_context m.blocks ≡ true
      → remove_block ctx.sync_event m.blocks ≡ some bs
      → remove_block ctx.user_context bs ≡ some bs'
      → delete_user_context wakes fuel ctx m ≡ finished tt (record m { blocks = bs' })
  unfolding delete_user_context delete_and_drain touch free
  delete_user_context_no_queues ctx m bs bs' there e₁ e₂ e₃ event live e e' =
      simp
        (delete_user_context, delete_and_drain, touch, free, there, e₁, e₂, e₃, event, live, e, e')
