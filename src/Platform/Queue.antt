-- ===== src/Platform/Queue.antt =====
-- platform/posix/pal_queue/pal_queue.c: a bounded queue of items of equal size over one buffer of
-- bytes, shared by threads under a mutex.
--
-- A critical section runs whole. While a thread is in `pthread_cond_timedwait` the mutex is free,
-- and other threads run critical sections; a `Wake` says which, and what the wait returned. The
-- broadcasts move no state: they only end waits.
pub mod Valid
pub mod Fifo
pub mod Refine
pub mod Simulation
pub mod Calls
pub mod Ready
pub mod History
pub mod Abstract
use embedded_provisioning_sd.Prelude.{
  ℕ, ◌+◌, ◌-◌, ◌*◌, ◌%◌, ◌^◌, Bool, true, false, Option, none, some, List, [], ◌∷◌, add_u32, ◌==◌,
  if◌then◌else◌, copy_in, copy_out,
}
use embedded_provisioning_sd.Platform.Clock.{Timeval, Timespec, deadline}

-- `struct iotshdPal_SyncQueue`, less the mutex and the two conditions.
pub record SyncQueue : Type 0 where
  pub buffer : List ℕ
  pub number_of_queue_items : ℕ
  pub queue_item_size : ℕ
  pub items_in_queue : ℕ
  pub enqueue_index : ℕ
  pub dequeue_index : ℕ

-- `iotshdPal_syncQueueCreate`; `none` is NULL. `malloc` gives the bytes of a new block, and is taken
-- to succeed, as the code does. The item size is stored in 32 bits.
unfoldable pub create : (ℕ → List ℕ) → ℕ → ℕ → Option SyncQueue
create malloc number size =
    if number == 0
    then none
    else if size == 0
    then none
    else some (record {
      buffer = malloc (number * size % 2 ^ 64);
      number_of_queue_items = number;
      queue_item_size = size % 2 ^ 32;
      items_in_queue = 0;
      enqueue_index = 0;
      dequeue_index = 0;
    })

abbrev pub is_full : SyncQueue → Bool
is_full q = q.items_in_queue == q.number_of_queue_items

abbrev pub is_empty : SyncQueue → Bool
is_empty q = q.items_in_queue == 0

-- `index * queueItemSize`, a product of two `uint32_t`.
abbrev pub offset : SyncQueue → ℕ → ℕ
offset q index = index * q.queue_item_size % 2 ^ 32

-- The critical section of `iotshdPal_syncQueueSend` behind `if( ret == 0 )`.
unfoldable pub enqueue : SyncQueue → List ℕ → SyncQueue
enqueue q item = record q {
  items_in_queue = add_u32 q.items_in_queue 1;
  enqueue_index = add_u32 q.enqueue_index 1 % q.number_of_queue_items;
  buffer = copy_in q.buffer (offset q q.enqueue_index) item;
}

-- The critical section of `iotshdPal_syncQueueReceive` behind `if( ret == 0 )`.
unfoldable pub dequeue : SyncQueue → List ℕ × SyncQueue
dequeue q = (
  copy_out q.buffer (offset q q.dequeue_index) q.queue_item_size,
  record q {
    items_in_queue = (q.items_in_queue + 2 ^ 32 - 1) % 2 ^ 32;
    dequeue_index = add_u32 q.dequeue_index 1 % q.number_of_queue_items;
  },
)

-- What another thread does while the mutex is free: it gets past its own loop, or does nothing.
pub data Section : Type 0 where
  sends : List ℕ → Section
  receives : Section

unfoldable pub run_section : SyncQueue → Section → SyncQueue
run_section q (sends item) = if is_full q then q else enqueue q item
run_section q receives = if is_empty q then q else (dequeue q).1

unfoldable pub run_sections : SyncQueue → List Section → SyncQueue
run_sections q [] = q
run_sections q (s ∷ ss) = run_sections (run_section q s) ss

-- One round of the waiting loop: the time read before the wait, what other threads do during it,
-- and what `pthread_cond_timedwait` returns (0, or an error such as ETIMEDOUT).
pub record Wake : Type 0 where
  pub now : Timeval
  pub others : List Section
  pub ret : ℕ

-- The loop's end: `ret` is `none` while the thread still waits when the rounds are used up.
pub record Waited : Type 0 where
  pub ret : Option ℕ
  pub queue : SyncQueue
  pub deadlines : List Timespec

abbrev pub add_deadline : Timespec → Waited → Waited
add_deadline t w = record w { deadlines = t ∷ w.deadlines }

-- `while( <test> ) { ... pthread_cond_timedwait ...; if( ret != 0 ) break; }`
unfoldable pub wait_while : (SyncQueue → Bool) → ℕ → SyncQueue → List Wake → Waited
wait_while test block q [] =
    if test q
    then record { ret = none; queue = q; deadlines = [] }
    else record { ret = some 0; queue = q; deadlines = [] }
wait_while test block q (w ∷ ws) =
    let q' = run_sections q w.others in
    let rest = wait_while test block q' ws in
    if test q
    then add_deadline (deadline w.now block)
        (if w.ret == 0 then rest else record { ret = some w.ret; queue = q'; deadlines = [] })
    else record { ret = some 0; queue = q; deadlines = [] }

-- What a call returned, and the queue behind it; `blocked` if it has not returned.
pub data Outcome {ℓ} (A : Type ℓ) (Q : Type ℓ) : Type ℓ where
  blocked : Q → Outcome A Q
  returned : A → Q → Outcome A Q

-- `iotshdPal_syncQueueSend`
unfoldable pub send : SyncQueue → List ℕ → ℕ → List Wake → Outcome Bool SyncQueue
send q item block wakes =
    let w = wait_while is_full block q wakes in
    elim w.ret [
      | none ↦ blocked w.queue
      | some ret ↦ if ret == 0 then returned true (enqueue w.queue item) else returned false w.queue
    ]

-- `iotshdPal_syncQueueReceive`; `some` is `true` and the bytes copied into `pvBuffer`.
unfoldable pub receive : SyncQueue → ℕ → List Wake → Outcome (Option (List ℕ)) SyncQueue
receive q block wakes =
    let w = wait_while is_empty block q wakes in
    elim w.ret [
      | none ↦ blocked w.queue
      | some ret ↦
          if ret == 0
          then returned (some (dequeue w.queue).0) (dequeue w.queue).1
          else returned none w.queue
    ]
