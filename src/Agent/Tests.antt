-- ===== src/Agent/Tests.antt =====
-- The theorems on subscriptions and on the pool of commands at concrete inputs.
use embedded_provisioning_sd.Prelude.{
  ℕ, ◌≤◌, ◌≡◌, refl, Bool, true, false, ◌&&◌, none, some, List, [], ◌∷◌, ◌++◌, arith,
  length-replicate, replicate, ◌==◌, to_bytes, from_bytes,
}
use embedded_provisioning_sd.Platform.Queue
use embedded_provisioning_sd.Platform.Queue.{SyncQueue, Outcome, returned}
use embedded_provisioning_sd.Agent.Subscriptions.{
  SubscriptionElement, strncmp_eq, free_element, scan, add_checked, add_subscription,
  remove_subscription, handle_incoming_publishes,
}
use embedded_provisioning_sd.Agent.Subscriptions.Add.{element, add_subscription_lem}
use embedded_provisioning_sd.Agent.Subscriptions.Dispatch.{
  matcher, has_call, handle-remove, handle-add,
}
use embedded_provisioning_sd.Agent.Pool.{
  pointer_size, pool_size, structures, CommandPool, initialize_pool, get_command, populate,
  message_send, message_receive,
}
use embedded_provisioning_sd.Agent.Pool.Ownership.{count, took, Reach, here, next}
use embedded_provisioning_sd.Agent.Pool.Exclusive.{pool_structures, held_once}

-- The filters "a" and "bc".
abbrev filter_a : List ℕ
filter_a = 97 ∷ []

abbrev filter_bc : List ℕ
filter_bc = 98 ∷ 99 ∷ []

-- A free element between two that are in use.
abbrev three : List SubscriptionElement
three = element filter_a 1 500 1 ∷ free_element ∷ element filter_bc 2 600 2 ∷ []

add_subscription_lem_example :
    add_subscription three (some filter_a) 1 700 3
    ≡ (true, element filter_a 1 500 1 ∷ element filter_a 1 700 3 ∷ element filter_bc 2 600 2 ∷ [])
unfolding strncmp_eq
add_subscription_lem_example =
    add_subscription_lem filter_a 1 700 3 three (λ e. omega arith) (λ e. omega arith)

-- A match that compares the whole texts.
abbrev exact : List ℕ → ℕ → List ℕ → ℕ → Bool
exact topic len filter flen = len == flen && strncmp_eq topic filter len

handle-remove_example :
    (handle_incoming_publishes
      (matcher exact filter_a 1)
      (remove_subscription three (some filter_a) 1)
      filter_a
      1).1
    ≡ []
unfolding strncmp_eq
handle-remove_example = handle-remove exact filter_a 1 three filter_a 1 (λ e. omega arith)

-- A match for every topic.
abbrev every : List ℕ → ℕ → List ℕ → ℕ → Bool
every topic len filter flen = true

handle-add_example :
    has_call
      (handle_incoming_publishes
        (matcher every filter_a 1)
        (add_subscription three (some filter_bc) 2 700 3).1
        filter_a
        1).1
      700
      3
    ≡ true
unfolding strncmp_eq add_subscription add_checked scan
handle-add_example =
    handle-add every filter_a 1 three filter_bc 2 700 3 (λ f g n e. refl) refl (λ e. omega arith)
      (λ e. omega arith) refl

abbrev zeros : ℕ → List ℕ
zeros n = replicate n 0

abbrev flat : List ℕ → List ℕ
flat [] = []
flat (x ∷ xs) = to_bytes pointer_size x ++ flat xs

-- The pool's queue at the start, with ten structures of 48 bytes from 1000 on, and behind one taking.
abbrev first_queue : SyncQueue
first_queue = record {
  buffer = flat (structures 1000 48 pool_size 0);
  number_of_queue_items = 10;
  queue_item_size = 8;
  items_in_queue = 10;
  enqueue_index = 0;
  dequeue_index = 0;
}

abbrev second_queue : SyncQueue
second_queue = record first_queue { items_in_queue = 9; dequeue_index = 1 }

abbrev started : CommandPool
started = record { queue = some first_queue; initialized = true }

initialize_first :
    initialize_pool 1000 48 zeros (record { queue = none; initialized = false }) ≡ started
unfolding initialize_pool Queue.create populate message_send Queue.send Queue.wait_while
    Queue.run_sections Queue.run_section Queue.enqueue to_bytes
initialize_first = refl

take_first : get_command first_queue 5 [] ≡ returned (some 1000) second_queue
unfolding get_command message_receive Queue.receive Queue.wait_while Queue.run_sections
    Queue.run_section Queue.dequeue from_bytes to_bytes
take_first = refl

one_taken : Reach 1000 48 first_queue [] second_queue (1000 ∷ [])
one_taken = next here (took 1000 5 take_first refl)

held_once_example :
    (count 1000 (1000 ∷ []) ≤ 1) × (count 1000 (1000 ∷ []) ≤ count 1000 (pool_structures 1000 48))
held_once_example =
    held_once 1000 48 zeros none first_queue second_queue (1000 ∷ []) (λ n. length-replicate n 0)
      (omega arith) (omega arith) initialize_first one_taken 1000
