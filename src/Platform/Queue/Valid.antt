-- ===== src/Platform/Queue/Valid.antt =====
-- The invariant of `struct iotshdPal_SyncQueue`, and that each critical section keeps it.
use embedded_provisioning_sd.Prelude.{
  ℕ, suc, ◌+◌, ◌-◌, ◌*◌, ◌%◌, ◌^◌, ◌≤◌, ◌<◌, ◌≡◌, sym, ap, ◌∙◌, inl, inr, false, some, List, [],
  ◌∷◌, arith, length, length-copy_in, Bool-cases,
}
use native.Mathlib.Nat.{mod-eq_of_lt, mod-lt, mod-add-mod}
use embedded_provisioning_sd.Platform.Queue.{
  SyncQueue, create, offset, enqueue, dequeue, Section, sends, receives, run_section, run_sections,
  is_full, is_empty,
}

pub record IsValid (q : SyncQueue) : Type 0 where
  pub some_items : 0 < q.number_of_queue_items
  pub some_size : 0 < q.queue_item_size
  pub storage : length q.buffer ≡ q.number_of_queue_items * q.queue_item_size
  pub small : q.number_of_queue_items * q.queue_item_size < 2 ^ 32
  pub items_in : q.items_in_queue ≤ q.number_of_queue_items
  pub enqueue_in : q.enqueue_index < q.number_of_queue_items
  pub dequeue_in : q.dequeue_index < q.number_of_queue_items
  pub indices : q.enqueue_index ≡ (q.dequeue_index + q.items_in_queue) % q.number_of_queue_items

pub mul-lt : (a n s : ℕ) → a < n → a * s + s ≤ n * s
mul-lt a n s h = grind arith

le-mul : (n s : ℕ) → 0 < s → n ≤ n * s
le-mul n s h = grind arith

-- Below 2 ^ 32 bytes no offset wraps, and every slot lies within the buffer.
pub offset_lem :
    {q : SyncQueue} (i : ℕ)
    → IsValid q
    → i < q.number_of_queue_items
    → (offset q i ≡ i * q.queue_item_size)
      × (i * q.queue_item_size + q.queue_item_size ≤ length q.buffer)
offset_lem {q} i v h =
    let e = mul-lt i q.number_of_queue_items q.queue_item_size h in
    (mod-eq_of_lt (omega (arith, v.some_size, v.small)), omega (arith, v.storage))

pub number-lt : {q : SyncQueue} → IsValid q → q.number_of_queue_items < 2 ^ 32
number-lt {q} v =
    omega (arith, le-mul q.number_of_queue_items q.queue_item_size v.some_size, v.small)

mul-pos-le : (n s : ℕ) → 0 < n → s ≤ n * s
mul-pos-le n s h = grind arith

-- What `iotshdPal_syncQueueCreate` returns below 2 ^ 32 bytes is valid, empty and of the size asked.
pub create-IsValid :
    (malloc : ℕ → List ℕ) (number size : ℕ) {q : SyncQueue}
    → ((n : ℕ) → length (malloc n) ≡ n)
    → number * size < 2 ^ 32
    → create malloc number size ≡ some q
    → IsValid q
      × (q.items_in_queue ≡ 0)
      × (q.number_of_queue_items ≡ number)
      × (q.queue_item_size ≡ size)
unfolding create
create-IsValid malloc number size {q} m small e =
    ground (arith, m (number * size % 2 ^ 64), mul-pos-le number size)

step-mod : (d k n : ℕ) → ((d + k) % n + 1) % n ≡ (d + (k + 1)) % n
step-mod d k n = rw mod-add-mod (ap (λ t. t % n) (omega arith))

shift-mod : (d k n : ℕ) → 0 < k → ((d + 1) % n + (k - 1)) % n ≡ (d + k) % n
shift-mod d k n h = rw mod-add-mod (ap (λ t. t % n) (omega arith))

pub room-lt :
    {q : SyncQueue} → IsValid q → is_full q ≡ false → q.items_in_queue < q.number_of_queue_items
room-lt v room = ground arith

enqueue_indices : (e d k n : ℕ) → e ≡ (d + k) % n → (e + 1) % n ≡ (d + (k + 1)) % n
enqueue_indices e d k n h = rw h (step-mod d k n)

pub items-enqueue :
    {q : SyncQueue} (item : List ℕ)
    → IsValid q
    → is_full q ≡ false
    → (enqueue q item).items_in_queue ≡ suc q.items_in_queue
unfolding enqueue
items-enqueue item v room = omega (arith, room-lt v room, number-lt v)

-- What `itemsInQueue - 1` and `dequeueIndex + 1` come to, without a wrap.
pub dequeue_fields :
    {q : SyncQueue}
    → IsValid q
    → is_empty q ≡ false
    → (0 < q.items_in_queue)
      × ((dequeue q).1.items_in_queue ≡ q.items_in_queue - 1)
      × ((dequeue q).1.dequeue_index ≡ (q.dequeue_index + 1) % q.number_of_queue_items)
unfolding dequeue
dequeue_fields {q} v more =
    let pos : 0 < q.items_in_queue = ground arith in
    (
      pos,
      omega (arith, number-lt v),
      ap (λ t. t % q.number_of_queue_items) (mod-eq_of_lt (omega (arith, number-lt v))),
    )

-- With room, the sending section keeps the invariant, whatever the item's bytes.
pub enqueue-IsValid :
    {q : SyncQueue} (item : List ℕ) → IsValid q → is_full q ≡ false → IsValid (enqueue q item)
unfolding enqueue
enqueue-IsValid {q} item v room =
    let n : ℕ = q.number_of_queue_items in
    let lt = room-lt v room in
    let wrap : (q.items_in_queue + 1) % 2 ^ 32 ≡ q.items_in_queue + 1 =
      mod-eq_of_lt (omega (arith, number-lt v)) in
    let wrap' : (q.enqueue_index + 1) % 2 ^ 32 ≡ q.enqueue_index + 1 =
      mod-eq_of_lt (omega (arith, number-lt v)) in
    record {
      some_items = v.some_items;
      some_size = v.some_size;
      storage = length-copy_in q.buffer (offset q q.enqueue_index) item ∙ v.storage;
      small = v.small;
      items_in = omega (arith, wrap);
      enqueue_in = mod-lt _ v.some_items;
      dequeue_in = v.dequeue_in;
      indices =
          rw (wrap, wrap')
            (enqueue_indices q.enqueue_index q.dequeue_index q.items_in_queue n v.indices);
    }

-- With an item in it, so does the receiving section.
pub dequeue-IsValid : {q : SyncQueue} → IsValid q → is_empty q ≡ false → IsValid (dequeue q).1
unfolding dequeue
dequeue-IsValid {q} v more =
    let n : ℕ = q.number_of_queue_items in
    let pos : 0 < q.items_in_queue = ground arith in
    let wrap : (q.items_in_queue + 2 ^ 32 - 1) % 2 ^ 32 ≡ q.items_in_queue - 1 =
      omega (arith, number-lt v) in
    let wrap' : (q.dequeue_index + 1) % 2 ^ 32 ≡ q.dequeue_index + 1 =
      mod-eq_of_lt (omega (arith, number-lt v)) in
    record {
      some_items = v.some_items;
      some_size = v.some_size;
      storage = v.storage;
      small = v.small;
      items_in = omega (arith, wrap);
      enqueue_in = v.enqueue_in;
      dequeue_in = mod-lt _ v.some_items;
      indices =
          rw (wrap, wrap') (v.indices ∙ sym (shift-mod q.dequeue_index q.items_in_queue n pos));
    }

pub run_section-IsValid : {q : SyncQueue} (s : Section) → IsValid q → IsValid (run_section q s)
unfolding run_section
run_section-IsValid {q} (sends item) v = elim (Bool-cases (is_full q)) [
  | inl full ↦ rw full v
  | inr room ↦ rw room (enqueue-IsValid item v room)
]
run_section-IsValid {q} receives v = elim (Bool-cases (is_empty q)) [
  | inl none_left ↦ rw none_left v
  | inr more ↦ rw more (dequeue-IsValid v more)
]

-- Whatever other threads do, the queue stays valid.
pub run_sections-IsValid :
    {q : SyncQueue} (ss : List Section) → IsValid q → IsValid (run_sections q ss)
unfolding run_sections
run_sections-IsValid [] v = v
run_sections-IsValid {q} (s ∷ ss) v =
    run_sections-IsValid {q = run_section q s} ss (run_section-IsValid s v)
