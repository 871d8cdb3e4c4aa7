-- ===== src/Platform/Queue/Simulation.antt =====
-- Every critical section, wait and call on the ring of bytes matches the one on the list of items.
use embedded_provisioning_sd.Prelude.{
  ℕ, ◌*◌, ◌^◌, ◌<◌, some, ◌≡◌, refl, sym, ap, ◌∙◌, inl, inr, false, List, [], ◌∷◌, ◌++◌, arith,
  length, ◌==◌, Bool-cases, All,
}
use embedded_provisioning_sd.Platform.Queue.{
  SyncQueue, create, enqueue, dequeue, Section, sends, receives, run_section, run_sections, is_full,
  is_empty, Wake, Outcome, blocked, returned,
}
use embedded_provisioning_sd.Platform.Queue.Valid.{
  IsValid, create-IsValid, enqueue-IsValid, dequeue-IsValid,
}
use embedded_provisioning_sd.Platform.Queue.Fifo
use embedded_provisioning_sd.Platform.Queue.Fifo.{Items}
use embedded_provisioning_sd.Platform.Queue.Refine.{
  contents, length-contents, contents-enqueue, contents-dequeue,
}

-- The queue is valid, has room for `cap` items of `size` bytes, and holds `xs`, oldest first.
pub record Holds (cap size : ℕ) (q : SyncQueue) (xs : Items) : Type 0 where
  pub valid : IsValid q
  pub number : q.number_of_queue_items ≡ cap
  pub item_size : q.queue_item_size ≡ size
  pub items : contents q ≡ xs

-- A thread sends items of the queue's size.
abbrev pub SectionFits : ℕ → Section → Type 0
SectionFits size (sends item) = length item ≡ size
SectionFits size receives = Unit

abbrev pub WakeFits : ℕ → Wake → Type 0
WakeFits size w = All (SectionFits size) w.others

-- The outcomes agree, and the queue left behind holds the list left behind.
abbrev pub Agree : {A : Type 0} → ℕ → ℕ → Outcome A SyncQueue → Outcome A Items → Type 0
Agree cap size (blocked q) (blocked xs) = Holds cap size q xs
Agree cap size (blocked q) (returned b xs) = ⊥
Agree cap size (returned a q) (blocked xs) = ⊥
Agree cap size (returned a q) (returned b xs) = (a ≡ b) × Holds cap size q xs

module _ (cap size : ℕ) where
  length_of_Holds :
      (q : SyncQueue) (xs : Items) → Holds cap size q xs → length xs ≡ q.items_in_queue
  length_of_Holds q xs h = ap length (sym h.items) ∙ length-contents q

  pub is_full_of_Holds :
      (q : SyncQueue) (xs : Items) → Holds cap size q xs → is_full q ≡ (length xs == cap)
  is_full_of_Holds q xs h = rw (length_of_Holds q xs h, h.number)

  pub is_empty_of_Holds :
      (q : SyncQueue) (xs : Items) → Holds cap size q xs → is_empty q ≡ Fifo.is_empty xs
  is_empty_of_Holds q [] h = ground (arith, length_of_Holds q [] h)
  is_empty_of_Holds q (x ∷ xs) h = ground (arith, length_of_Holds q (x ∷ xs) h)

  enqueue_frame :
      (q : SyncQueue) (item : List ℕ)
      → ((enqueue q item).number_of_queue_items ≡ q.number_of_queue_items)
        × ((enqueue q item).queue_item_size ≡ q.queue_item_size)
  unfolding enqueue
  enqueue_frame q item = (refl, refl)

  dequeue_frame :
      (q : SyncQueue)
      → ((dequeue q).1.number_of_queue_items ≡ q.number_of_queue_items)
        × ((dequeue q).1.queue_item_size ≡ q.queue_item_size)
  unfolding dequeue
  dequeue_frame q = (refl, refl)

  pub enqueue-Holds :
      (q : SyncQueue) (xs : Items) (item : List ℕ)
      → Holds cap size q xs
      → is_full q ≡ false
      → length item ≡ size
      → Holds cap size (enqueue q item) (xs ++ item ∷ [])
  enqueue-Holds q xs item h room fits = record {
    valid = enqueue-IsValid item h.valid room;
    number = (enqueue_frame q item).0 ∙ h.number;
    item_size = (enqueue_frame q item).1 ∙ h.item_size;
    items =
        contents-enqueue item h.valid room (fits ∙ sym h.item_size)
        ∙ ap (λ t. t ++ item ∷ []) h.items;
  }

  pub dequeue-Holds :
      (q : SyncQueue) (x : List ℕ) (xs : Items)
      → Holds cap size q (x ∷ xs)
      → ((dequeue q).0 ≡ x) × Holds cap size (dequeue q).1 xs
  dequeue-Holds q x xs h =
      let more : is_empty q ≡ false = is_empty_of_Holds q (x ∷ xs) h in
      let e = sym (contents-dequeue h.valid more) ∙ h.items in
      (
        cc e,
        record {
          valid = dequeue-IsValid h.valid more;
          number = (dequeue_frame q).0 ∙ h.number;
          item_size = (dequeue_frame q).1 ∙ h.item_size;
          items = cc e;
        },
      )

  pub run_section-Holds :
      (q : SyncQueue) (xs : Items) (s : Section)
      → Holds cap size q xs
      → SectionFits size s
      → Holds cap size (run_section q s) (Fifo.run_section cap xs s)
  unfolding run_section Fifo.run_section
  run_section-Holds q xs (sends item) h fits = elim (Bool-cases (is_full q)) [
    | inl full ↦ rw (full, sym (is_full_of_Holds q xs h) ∙ full) h
    | inr room ↦
        rw (room, sym (is_full_of_Holds q xs h) ∙ room) (enqueue-Holds q xs item h room fits)
  ]
  run_section-Holds q [] receives h fits = rw (is_empty_of_Holds q [] h) h
  run_section-Holds q (x ∷ xs) receives h fits =
      rw (is_empty_of_Holds q (x ∷ xs) h) (dequeue-Holds q x xs h).1

  pub run_sections-Holds :
      (ss : List Section) (q : SyncQueue) (xs : Items)
      → Holds cap size q xs
      → All (SectionFits size) ss
      → Holds cap size (run_sections q ss) (Fifo.run_sections cap xs ss)
  unfolding run_sections Fifo.run_sections
  run_sections-Holds [] q xs h fits = h
  run_sections-Holds (s ∷ ss) q xs h fits =
      run_sections-Holds ss _ _ (run_section-Holds q xs s h fits.0) fits.1

-- A created queue holds nothing.
pub create-Holds :
    (malloc : ℕ → List ℕ) (number size : ℕ) {q : SyncQueue}
    → ((n : ℕ) → length (malloc n) ≡ n)
    → number * size < 2 ^ 32
    → create malloc number size ≡ some q
    → Holds number size q []
create-Holds malloc number size {q} m small e =
    let (valid, items, n, s) = create-IsValid malloc number size m small e in
    record {
      valid = valid;
      number = n;
      item_size = s;
      items = nil_of_length (contents q) (length-contents q ∙ items);
    }
  where
    nil_of_length : (xs : Items) → length xs ≡ 0 → xs ≡ []
    nil_of_length [] h = refl
    nil_of_length (x ∷ xs) h = absurd (omega arith)
