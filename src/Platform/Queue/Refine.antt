-- ===== src/Platform/Queue/Refine.antt =====
-- The ring of bytes behaves as the list of the items that it holds, oldest first.
use native.Mathlib.Nat.{mod-eq_of_lt, mod-eq-sub-mod, mod-add-mod}
use embedded_provisioning_sd.Prelude.{
  ℕ, zero, suc, ◌+◌, ◌-◌, ◌%◌, ◌<◌, ◌≡◌, ◌≢◌, ◌≤◌, ◌⊎◌, inl, inr, refl, sym, ap, ◌∙◌, false, List,
  [], ◌∷◌, ◌++◌, arith, length, dec_lt, copy_out, copy_out-copy_in_self, copy_out-copy_in_before,
  copy_out-copy_in_after,
}
use embedded_provisioning_sd.Platform.Queue.{SyncQueue, offset, enqueue, dequeue, is_full, is_empty}
use embedded_provisioning_sd.Platform.Queue.Valid.{
  IsValid, offset_lem, mul-lt, items-enqueue, dequeue_fields,
}
use embedded_provisioning_sd.Platform.Queue.Fifo.{Items}

module _ (slot_at : ℕ → List ℕ) (size : ℕ) where
  -- So many slots from the start on, round the ring.
  abbrev pub cells : ℕ → ℕ → Items
  cells zero start = []
  cells (suc count) start = slot_at start ∷ cells count ((start + 1) % size)

  length-cells : (count start : ℕ) → length (cells count start) ≡ count
  length-cells zero start = refl
  length-cells (suc count) start = omega (arith, length-cells count ((start + 1) % size))

  cells_pos :
      (count start : ℕ)
      → 0 < count
      → cells count start ≡ slot_at start ∷ cells (count - 1) ((start + 1) % size)
  cells_pos zero start some_left = absurd (omega arith)
  cells_pos (suc count) start some_left =
      let less : count ≡ suc count - 1 = omega arith in
      ap (λ k. slot_at start ∷ cells k ((start + 1) % size)) less

-- Below twice the size, a remainder takes the size off once or not at all.
once_round :
    (size i : ℕ)
    → i < size + size
    → ((i < size) × (i % size ≡ i)) ⊎ ((size ≤ i) × (i % size + size ≡ i))
once_round size i below = elim (dec_lt i size) [
  | yes inside ↦ inl (inside, mod-eq_of_lt inside)
  | no beyond ↦
      let rest = mod-eq_of_lt {n = i - size} {m = size} (omega arith) in
      inr (omega arith, omega (arith, rest, mod-eq-sub-mod {n = i} {m = size} (omega arith)))
]

-- So less than one whole round does not lead back to the start.
never_back :
    (size start steps : ℕ)
    → start < size
    → 0 < steps
    → steps < size
    → (start + steps) % size ≢ start
never_back size start steps inside some_steps few back =
    elim (once_round size (start + steps) (omega arith)) [
      | inl r ↦ omega (arith, r.1)
      | inr r ↦ omega (arith, r.1)
    ]

one_further :
    (size start count : ℕ) → (start + 1 + count) % size ≡ ((start + 1) % size + count) % size
one_further size start count = sym (mod-add-mod (start + 1) size count)

-- A write to the slot behind the cells adds one cell to them.
cells-write :
    (before after : ℕ → List ℕ) (size : ℕ) (item : List ℕ) (count start at : ℕ)
    → start < size
    → count < size
    → at ≡ (start + count) % size
    → after at ≡ item
    → ((k : ℕ) → k < size → k ≢ at → after k ≡ before k)
    → cells after size (suc count) start ≡ cells before size count start ++ item ∷ []
cells-write before after size item zero start at inside room there new old =
    let none : (start + 0) % size ≡ start =
      ap (λ k. k % size) (omega arith) ∙ mod-eq_of_lt inside in
    let first : at ≡ start = there ∙ none in rw (← first, new)
cells-write before after size item (suc count) start at inside room there new old =
    let apart = λ (same : start ≡ at).
      never_back size start (suc count) inside (omega arith) room (sym (same ∙ there)) in
    rw (old start inside apart) (
      ap (λ items. before start ∷ items)
        (cells-write before after size item count ((start + 1) % size) at (omega arith)
          (omega arith) (there ∙ ap (λ k. k % size) (omega arith) ∙ one_further size start count)
          new old))

-- The bytes of slot `i`.
abbrev pub slot : SyncQueue → ℕ → List ℕ
slot q i = copy_out q.buffer (offset q i) q.queue_item_size

abbrev pub contents : SyncQueue → Items
contents q = cells (slot q) q.number_of_queue_items q.items_in_queue q.dequeue_index

pub length-contents : (q : SyncQueue) → length (contents q) ≡ q.items_in_queue
length-contents q = length-cells (slot q) q.number_of_queue_items q.items_in_queue q.dequeue_index

slot-enqueue_self :
    {q : SyncQueue} (item : List ℕ)
    → IsValid q
    → length item ≡ q.queue_item_size
    → slot (enqueue q item) q.enqueue_index ≡ item
unfolding enqueue
slot-enqueue_self {q} item v fits =
    let o = offset_lem q.enqueue_index v v.enqueue_in in
    copy_out-copy_in_self q.buffer (offset q q.enqueue_index) q.queue_item_size item fits
      (omega (arith, o))

slot-enqueue_ne :
    {q : SyncQueue} (item : List ℕ) (j : ℕ)
    → IsValid q
    → length item ≡ q.queue_item_size
    → j < q.number_of_queue_items
    → j ≢ q.enqueue_index
    → slot (enqueue q item) j ≡ slot q j
unfolding enqueue
slot-enqueue_ne {q} item j v fits hj ne =
    let o = offset_lem q.enqueue_index v v.enqueue_in in
    let p = offset_lem j v hj in
    elim (dec_lt j q.enqueue_index) [
      | yes lt ↦
          copy_out-copy_in_before q.buffer (offset q q.enqueue_index) (offset q j) q.queue_item_size
            item (omega (arith, o, p, mul-lt j q.enqueue_index q.queue_item_size lt))
      | no ge ↦
          copy_out-copy_in_after q.buffer (offset q q.enqueue_index) (offset q j) q.queue_item_size
            item
            (omega (arith, o, p, fits, mul-lt q.enqueue_index j q.queue_item_size (omega arith)))
    ]

enqueue_frame :
    (q : SyncQueue) (item : List ℕ)
    → ((enqueue q item).number_of_queue_items ≡ q.number_of_queue_items)
      × ((enqueue q item).queue_item_size ≡ q.queue_item_size)
      × ((enqueue q item).dequeue_index ≡ q.dequeue_index)
unfolding enqueue
enqueue_frame q item = (refl, refl, refl)

cells_eq :
    (f : ℕ → List ℕ) (n n' h h' k k' : ℕ)
    → n ≡ n'
    → h ≡ h'
    → k ≡ k'
    → cells f n k h ≡ cells f n' k' h'
cells_eq f n n' h h' k k' a b c = rw (a, b, c)

-- The sending section appends the item to the contents.
pub contents-enqueue :
    {q : SyncQueue} (item : List ℕ)
    → IsValid q
    → is_full q ≡ false
    → length item ≡ q.queue_item_size
    → contents (enqueue q item) ≡ contents q ++ item ∷ []
contents-enqueue {q} item v room fits =
    let frame = enqueue_frame q item in
    cells_eq (slot (enqueue q item)) _ q.number_of_queue_items _ q.dequeue_index _
      (suc q.items_in_queue) frame.0 frame.2 (items-enqueue item v room)
    ∙ (cells-write (slot q) (slot (enqueue q item)) q.number_of_queue_items item q.items_in_queue
        q.dequeue_index q.enqueue_index v.dequeue_in (ground arith) v.indices
        (slot-enqueue_self item v fits) (λ j hj ne. slot-enqueue_ne item j v fits hj ne))

-- The receiving section takes the oldest item, and leaves the rest.
pub contents-dequeue :
    {q : SyncQueue}
    → IsValid q
    → is_empty q ≡ false
    → contents q ≡ (dequeue q).0 ∷ contents (dequeue q).1
unfolding dequeue
contents-dequeue {q} v more =
    let f = dequeue_fields v more in
    cells_pos (slot q) q.number_of_queue_items q.items_in_queue q.dequeue_index f.0
    ∙ ap (λ t. slot q q.dequeue_index ∷ t)
        (sym (cells_eq (slot q) _ q.number_of_queue_items _ _ _ _ refl f.2 f.1))
