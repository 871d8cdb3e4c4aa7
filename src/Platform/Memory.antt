-- ===== src/Platform/Memory.antt =====
-- platform/posix: memory as blocks that `malloc` gave, for the functions that give it back: those that
-- delete a queue and an event.
pub mod Laws
use embedded_provisioning_sd.Prelude.{
  ℕ, ◌+◌, Bool, true, false, ◌&&◌, ◌||◌, Option, none, some, List, [], ◌∷◌, ltb, leb, ◌==◌,
  if◌then◌else◌,
}
use embedded_provisioning_sd.Platform.Queue.{SyncQueue, Wake, Outcome, blocked, returned, receive}

-- An allocated block: where it starts, and its size.
pub record Block : Type 0 where
  pub start : ℕ
  pub size : ℕ

abbrev pub contains : ℕ → Block → Bool
contains a b = leb b.start a && ltb a (b.start + b.size)

-- The allocated blocks, with the queue whose structure starts at an address, and the pointer that the
-- structure at an address has to a buffer of its own.
pub record Memory : Type 0 where
  pub blocks : List Block
  pub queue_at : ℕ → SyncQueue
  pub buffer_at : ℕ → ℕ

-- A command ends, or accesses what is not allocated, or is not over when the fuel is, or still waits.
pub data Run (A : Type 0) : Type 0 where
  finished : A → Memory → Run A
  fault out_of_fuel waiting : Run A

abbrev pub Command : Type 0 → Type 0
Command A = Memory → Run A

module _ {A B : Type 0} where
  abbrev pub and_then : Run A → (A → Command B) → Run B
  and_then (finished a m) k = k a m
  and_then fault k = fault
  and_then out_of_fuel k = out_of_fuel
  and_then waiting k = waiting

  infixl 5 ◌>>=◌ ◌>>◌
  abbrev pub ◌>>=◌ : Command A → (A → Command B) → Command B
  c >>= k = λ m. and_then (c m) k

  abbrev pub ◌>>◌ : Command A → Command B → Command B
  c >> d = c >>= λ _. d

abbrev pub skip : Command (Unit {0})
skip = finished tt

abbrev pub is_allocated : ℕ → List Block → Bool
is_allocated a [] = false
is_allocated a (b ∷ bs) = contains a b || is_allocated a bs

-- An access through a pointer.
unfoldable pub touch : ℕ → Command (Unit {0})
touch a m = if is_allocated a m.blocks then finished tt m else fault

-- The blocks without the one that starts at an address, if there is one.
unfoldable pub remove_block : ℕ → List Block → Option (List Block)
remove_block p [] = none
remove_block p (b ∷ bs) =
    let rest = remove_block p bs in
    if b.start == p then some bs else elim rest [ none ↦ none | some bs' ↦ some (b ∷ bs') ]

-- `free`: of NULL nothing, of what `malloc` did not give a fault.
unfoldable pub free : ℕ → Command (Unit {0})
free p m = if p == 0 then finished tt m else elim (remove_block p m.blocks) [
  | none ↦ fault
  | some bs ↦ finished tt (record m { blocks = bs })
]

-- `iotshdPal_syncEventDelete`
unfoldable pub delete_event : ℕ → Command (Unit {0})
delete_event event = if event == 0 then skip else free event

-- The pointer to its buffer in the structure at an address, and an assignment of NULL to it.
abbrev pub load_buffer : ℕ → Command ℕ
load_buffer a m = finished (m.buffer_at a) m

abbrev pub clear_buffer : ℕ → Command (Unit {0})
clear_buffer a m = finished tt (record m { buffer_at = λ b. if b == a then 0 else m.buffer_at b })

-- `iotshdPal_syncQueueDelete`
unfoldable pub delete_queue : ℕ → Command (Unit {0})
delete_queue queue = if queue == 0 then skip else do
  touch queue
  buffer ← load_buffer queue
  (if buffer == 0 then skip else free buffer)
  free queue

-- The queue at an address becomes another.
abbrev pub store_queue : ℕ → SyncQueue → Command (Unit {0})
store_queue queue q m =
    finished tt (record m { queue_at = λ a. if a == queue then q else m.queue_at a })

abbrev pub load_queue : ℕ → Command SyncQueue
load_queue queue m = finished (m.queue_at queue) m

-- The end of a receive: an item was copied out of the buffer.
unfoldable pub received_from : ℕ → Outcome (Option (List ℕ)) SyncQueue → Command (Option (List ℕ))
received_from queue (blocked q) = λ m. waiting
received_from queue (returned none q) = store_queue queue q >> finished none
received_from queue (returned (some item) q) = do
  buffer ← load_buffer queue
  touch buffer
  store_queue queue q
  finished (some item)

-- `iotshdPal_syncQueueReceive` of the queue at an address, without a time to wait.
unfoldable pub receive_from : ℕ → List Wake → Command (Option (List ℕ))
receive_from queue wakes = do
  touch queue
  q ← load_queue queue
  received_from queue (receive q 0 wakes)
