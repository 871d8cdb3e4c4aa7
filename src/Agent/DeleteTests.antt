-- ===== src/Agent/DeleteTests.antt =====
-- The deletion of a user context at concrete inputs.
use embedded_provisioning_sd.Prelude.{◌≡◌, refl, [], ◌∷◌, arith}
use embedded_provisioning_sd.Platform.Queue.{SyncQueue}
use embedded_provisioning_sd.Platform.Memory.{Memory, fault}
use embedded_provisioning_sd.Agent.Delete.{ContextPointers, delete_user_context}
use embedded_provisioning_sd.Agent.Delete.Laws.{delete_user_context_faults}

abbrev empty_queue : SyncQueue
empty_queue = record {
  buffer = [];
  number_of_queue_items = 2;
  queue_item_size = 8;
  items_in_queue = 0;
  enqueue_index = 0;
  dequeue_index = 0;
}

-- A context at 100, its event at 200, and a queue at 300 with its buffer at 400.
abbrev memory : Memory
memory = record {
  blocks =
      record { start = 400; size = 16 }
      ∷ record { start = 300; size = 60 }
      ∷ record { start = 200; size = 16 }
      ∷ record { start = 100; size = 40 }
      ∷ [];
  queue_at = λ a. empty_queue;
  buffer_at = λ a. 400;
}

abbrev with_queue : ContextPointers
with_queue = record {
  user_context = 100;
  sync_event = 200;
  free_publish_message_queue = 300;
  incoming_publish_queue = 0;
  queue_items = 0;
}

delete_user_context_faults_example : delete_user_context [] 1 with_queue memory ≡ fault
delete_user_context_faults_example =
    delete_user_context_faults [] 0 with_queue memory refl refl
      ((omega arith, (omega arith, (omega arith, (omega arith, tt)))), omega arith)
