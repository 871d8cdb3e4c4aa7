-- ===== src/Platform/Queue/Abstract.antt =====
-- The queue that a caller of pal_queue.h sees: the rings of bytes, less where in the storage the
-- items stand and what the free slots hold.
use mathlib.Core.Equiv.{IsEquiv, iso_to_equiv}
use mathlib.Core.HLevel.{Σ_prop_path, Σ_set, prop→set}
use mathlib.Core.List.{is_set}
use mathlib.Core.Quot
use mathlib.Core.Quot.{Quot, Quot-set}
use native.Mathlib.Bridge.{le_prop}
use native.Mathlib.Nat.{ℕ_set, mod-lt}
use embedded_provisioning_sd.Prelude.{
  ℕ, zero, suc, ◌+◌, ◌*◌, ◌%◌, ◌^◌, ◌≤◌, ◌<◌, ◌≡◌, refl, sym, ap, ◌∙◌, some, List, [], ◌∷◌, ◌++◌,
  subst, false, ◌==◌, ==_of_ne, arith, append-nil, append_assoc, length, length-append,
  length-copy_out, All,
}
use embedded_provisioning_sd.Platform.Queue.{SyncQueue, create, Section, sends, run_sections}
use embedded_provisioning_sd.Platform.Queue.Valid.{offset_lem}
use embedded_provisioning_sd.Platform.Queue.Fifo
use embedded_provisioning_sd.Platform.Queue.Fifo.{Items}
use embedded_provisioning_sd.Platform.Queue.Refine.{cells, slot, contents, length-contents}
use embedded_provisioning_sd.Platform.Queue.Simulation.{
  Holds, SectionFits, run_section-Holds, run_sections-Holds,
}
use embedded_provisioning_sd.Platform.Queue.Simulation.{create-Holds}

-- A ring for `cap` items of `size` bytes.
abbrev pub Ring : ℕ → ℕ → Type 0
Ring cap size = (q : SyncQueue) × Holds cap size q (contents q)

abbrev pub SameContents : (cap size : ℕ) → Ring cap size → Ring cap size → Type 0
SameContents cap size a b = contents a.0 ≡ contents b.0

abbrev pub AbstractQueue : ℕ → ℕ → Type 0
AbstractQueue cap size = Quot (SameContents cap size)

-- At most `cap` items, of `size` bytes each.
abbrev pub BoundedItems : ℕ → ℕ → Type 0
BoundedItems cap size = (xs : Items) × ((length xs ≤ cap) × All (λ item. length item ≡ size) xs)

All-IsProp : (size : ℕ) (xs : Items) → IsProp (All (λ item. length item ≡ size) xs)
All-IsProp size [] = λ a b. refl
All-IsProp size (x ∷ xs) = λ a b i. (ℕ_set _ _ a.0 b.0 i, All-IsProp size xs a.1 b.1 i)

Bounded-IsProp :
    (cap size : ℕ) (xs : Items) → IsProp ((length xs ≤ cap) × All (λ item. length item ≡ size) xs)
Bounded-IsProp cap size xs = λ a b i. (le_prop a.0 b.0 i, All-IsProp size xs a.1 b.1 i)

BoundedItems-set : (cap size : ℕ) → IsSet (BoundedItems cap size)
BoundedItems-set cap size =
    Σ_set (is_set (is_set ℕ_set)) (λ xs. prop→set (Bounded-IsProp cap size xs))

cells-fit :
    (slot_at : ℕ → List ℕ) (n size count start : ℕ)
    → ((i : ℕ) → i < n → length (slot_at i) ≡ size)
    → start < n
    → All (λ item. length item ≡ size) (cells slot_at n count start)
cells-fit slot_at n size zero start fit inside = tt
cells-fit slot_at n size (suc count) start fit inside = (
  fit start inside,
  cells-fit slot_at n size count ((start + 1) % n) fit (mod-lt (start + 1) (omega arith)),
)

contents-Bounded :
    (cap size : ℕ) (r : Ring cap size)
    → (length (contents r.0) ≤ cap) × All (λ item. length item ≡ size) (contents r.0)
contents-Bounded cap size (q, h) = (
  omega (arith, length-contents q, h.valid.items_in, h.number),
  cells-fit (slot q) q.number_of_queue_items size q.items_in_queue q.dequeue_index
      (λ i inside.
        let o = offset_lem i h.valid inside in
        length-copy_out q.buffer _ q.queue_item_size (omega (arith, o)) ∙ h.item_size)
      h.valid.dequeue_in,
)

-- What the queue holds, oldest first.
pub view : (cap size : ℕ) → AbstractQueue cap size → BoundedItems cap size
view cap size =
    Quot.lift (BoundedItems-set cap size) (λ r. (contents r.0, contents-Bounded cap size r))
      (λ a b same. Σ_prop_path (Bounded-IsProp cap size) same)

ring_of_Holds : (cap size : ℕ) {q : SyncQueue} (xs : Items) → Holds cap size q xs → Ring cap size
ring_of_Holds cap size {q} xs h =
    (q, record { valid = h.valid; number = h.number; item_size = h.item_size; items = refl })

run_ring : (cap size : ℕ) (s : Section) → SectionFits size s → Ring cap size → Ring cap size
run_ring cap size s fits r =
    ring_of_Holds cap size _ (run_section-Holds cap size r.0 (contents r.0) s r.1 fits)

contents-run_ring :
    (cap size : ℕ) (s : Section) (fits : SectionFits size s) (r : Ring cap size)
    → contents (run_ring cap size s fits r).0 ≡ Fifo.run_section cap (contents r.0) s
unfolding run_ring ring_of_Holds
contents-run_ring cap size s fits r =
    (run_section-Holds cap size r.0 (contents r.0) s r.1 fits).items

-- A critical section, on any ring that holds these items.
pub run_abstract :
    (cap size : ℕ) (s : Section)
    → SectionFits size s
    → AbstractQueue cap size
    → AbstractQueue cap size
run_abstract cap size s fits =
    Quot.lift Quot-set (λ r. Quot.mk (run_ring cap size s fits r))
      (λ a b same. Quot.sound (
        contents-run_ring cap size s fits a
        ∙ ap (λ xs. Fifo.run_section cap xs s) same
        ∙ sym (contents-run_ring cap size s fits b)))

view-run_abstract :
    (cap size : ℕ) (s : Section) (fits : SectionFits size s) (x : AbstractQueue cap size)
    → (view cap size (run_abstract cap size s fits x)).0
      ≡ Fifo.run_section cap (view cap size x).0 s
unfolding view run_abstract
view-run_abstract cap size s fits =
    Quot.ind (λ x. is_set (is_set ℕ_set) _ _) (λ r. contents-run_ring cap size s fits r)

abbrev sends_of : Items → List Section
sends_of [] = []
sends_of (x ∷ xs) = sends x ∷ sends_of xs

run_section-sends :
    (n : ℕ) (xs : Items) (y : List ℕ)
    → length xs < n
    → Fifo.run_section n xs (sends y) ≡ xs ++ y ∷ []
unfolding Fifo.run_section
run_section-sends n xs y room =
    let more : (length xs == n) ≡ false = ==_of_ne (length xs) n (omega arith) in rw more

-- Sends alone, as long as there is room.
run_sections-sends :
    (room_for : ℕ) (xs ys : Items)
    → length xs + length ys ≤ room_for
    → Fifo.run_sections room_for xs (sends_of ys) ≡ xs ++ ys
unfolding Fifo.run_sections Fifo.run_section
run_sections-sends n xs [] room = sym (append-nil xs)
run_sections-sends n xs (y ∷ ys) room =
    let next = run_sections-sends n (xs ++ y ∷ []) ys (omega (arith, length-append xs (y ∷ []))) in
    ap (λ front. Fifo.run_sections n front (sends_of ys)) (run_section-sends n xs y (omega arith))
    ∙ next
    ∙ append_assoc xs (y ∷ []) ys

sends-fit :
    (size : ℕ) (xs : Items)
    → All (λ item. length item ≡ size) xs
    → All (SectionFits size) (sends_of xs)
sends-fit size [] fit = tt
sends-fit size (x ∷ xs) fit = (fit.0, sends-fit size xs fit.1)

module _ (cap size : ℕ) {new : SyncQueue} (empty : Holds cap size new []) where
  filled-Holds : (b : BoundedItems cap size) → Holds cap size (run_sections new (sends_of b.0)) b.0
  filled-Holds (xs, (few, fit)) =
      subst (Holds cap size (run_sections new (sends_of xs)))
        (run_sections-sends cap [] xs (omega (arith, few)))
        (run_sections-Holds cap size (sends_of xs) new [] empty (sends-fit size xs fit))

  filled : BoundedItems cap size → AbstractQueue cap size
  filled b = Quot.mk (ring_of_Holds cap size b.0 (filled-Holds b))

  view-filled : (b : BoundedItems cap size) → view cap size (filled b) ≡ b
  unfolding view filled ring_of_Holds
  view-filled b = Σ_prop_path (Bounded-IsProp cap size) (filled-Holds b).items

  filled-view : (x : AbstractQueue cap size) → filled (view cap size x) ≡ x
  unfolding view filled ring_of_Holds
  filled-view =
      Quot.ind (λ x. Quot-set _ _)
        (λ r. Quot.sound ((filled-Holds (contents r.0, contents-Bounded cap size r)).items))

  view-IsEquiv : IsEquiv (view cap size)
  view-IsEquiv =
      (iso_to_equiv
        (record { fun = view cap size; inv = filled; rinv = view-filled; linv = filled-view })).1

-- Where a queue can be created, the queues up to their contents are exactly the lists of at most
-- `cap` items of `size` bytes each (the view of the contents is an equivalence of types), and a
-- critical section, with an item of the queue's size, acts on them as on the list.
pub view_lem :
    (malloc : ℕ → List ℕ) (cap size : ℕ) {new : SyncQueue} (s : Section)
    (x : AbstractQueue cap size)
    → ((n : ℕ) → length (malloc n) ≡ n)
    → cap * size < 2 ^ 32
    → create malloc cap size ≡ some new
    → (fits : SectionFits size s)
    → IsEquiv (view cap size)
      × ((view cap size (run_abstract cap size s fits x)).0
          ≡ Fifo.run_section cap (view cap size x).0 s)
view_lem malloc cap size s x all small e fits = (
  view-IsEquiv cap size (create-Holds malloc cap size all small e),
  view-run_abstract cap size s fits x,
)
