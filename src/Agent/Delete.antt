-- ===== src/Agent/Delete.antt =====
-- libraries/mqtt_agent/source/mqtt_agent.c: `iotshdDev_MQTTAgentDeleteUserContext`, over the blocks of
-- memory that it gives back.
pub mod Laws
use embedded_provisioning_sd.Prelude.{
  ℕ, zero, suc, Bool, Option, none, some, List, ◌==◌, if◌then◌else◌, from_bytes,
}
use embedded_provisioning_sd.Platform.Queue.{Wake}
use embedded_provisioning_sd.Platform.Memory.{
  Command, finished, out_of_fuel, ◌>>=◌, ◌>>◌, skip, touch, free, load_buffer, clear_buffer,
  delete_queue, receive_from,
}

-- The pointers of a user context; 0 is NULL.
pub record ContextPointers : Type 0 where
  pub user_context : ℕ
  pub sync_event : ℕ
  pub free_publish_message_queue : ℕ
  pub incoming_publish_queue : ℕ
  pub queue_items : ℕ

-- What other threads do at each call of a queue.
module _ (wakes : List Wake) where
  -- The items' `topicPayloadBuffer` is the buffer at their address.
  -- `while( iotshdPal_syncQueueReceive( ... ) == true ) { ... }`
  unfoldable pub drain : ℕ → ℕ → Command (Unit {0})
  drain zero queue = λ m. out_of_fuel
  drain (suc fuel) queue = do
    received ← receive_from queue wakes
    elim received [
      | none ↦ skip
      | some bytes ↦ do
        let item = from_bytes bytes
        touch item
        buffer ← load_buffer item
        free buffer
        clear_buffer item
        drain fuel queue
    ]

  -- The deletion of a queue and the loop behind it, which receives from `drained`.
  unfoldable pub delete_and_drain : ℕ → ℕ → ℕ → Command (Unit {0})
  delete_and_drain fuel queue drained =
      if queue == 0 then skip else (delete_queue queue >> drain fuel drained)

  -- `iotshdDev_MQTTAgentDeleteUserContext`. When the second loop runs, the pointer to the queue of free
  -- items is NULL: it was so, or the code behind the first loop has set it. No pointer of the context is
  -- used once it is set to NULL.
  unfoldable pub delete_user_context : ℕ → ContextPointers → Command (Unit {0})
  delete_user_context fuel ctx = if ctx.user_context == 0 then skip else do
    touch ctx.user_context
    free ctx.sync_event
    delete_and_drain fuel ctx.free_publish_message_queue ctx.free_publish_message_queue
    delete_and_drain fuel ctx.incoming_publish_queue 0
    free ctx.queue_items
    free ctx.user_context
