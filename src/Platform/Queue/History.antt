-- ===== src/Platform/Queue/History.antt =====
-- A history of critical sections from any number of threads: nothing is lost, repeated or reordered.
use embedded_provisioning_sd.Prelude.{
  ℕ, ◌≡◌, refl, sym, ap, ◌∙◌, inl, inr, true, false, List, [], ◌∷◌, ◌++◌, append_assoc, append-nil,
  length, if◌then◌else◌, Bool-cases, All,
}
use embedded_provisioning_sd.Platform.Queue.{
  SyncQueue, dequeue, Section, sends, receives, run_section, run_sections, is_full, is_empty,
}
use embedded_provisioning_sd.Platform.Queue.Valid.{IsValid}
use embedded_provisioning_sd.Platform.Queue.Refine.{contents, contents-enqueue, contents-dequeue}
use embedded_provisioning_sd.Platform.Queue.Simulation.{Holds, SectionFits, run_section-Holds}
use embedded_provisioning_sd.Platform.Queue.Fifo.{Items}

-- The items that sends put in, and those that receives took out, in the order of the history.
abbrev pub accepted : SyncQueue → List Section → Items
accepted q [] = []
accepted q (sends item ∷ ss) =
    let rest = accepted (run_section q (sends item)) ss in if is_full q then rest else item ∷ rest
accepted q (receives ∷ ss) = accepted (run_section q receives) ss

abbrev pub delivered : SyncQueue → List Section → Items
delivered q [] = []
delivered q (sends item ∷ ss) = delivered (run_section q (sends item)) ss
delivered q (receives ∷ ss) =
    let rest = delivered (run_section q receives) ss in
    if is_empty q then rest else (dequeue q).0 ∷ rest

section_keeps :
    (size : ℕ) (q : SyncQueue) (s : Section)
    → IsValid q
    → q.queue_item_size ≡ size
    → SectionFits size s
    → Holds q.number_of_queue_items size (run_section q s) (contents (run_section q s))
section_keeps size q s v e fits =
    let start : Holds q.number_of_queue_items size q (contents q) = record {
      valid = v;
      number = refl;
      item_size = e;
      items = refl;
    } in
    let h = run_section-Holds q.number_of_queue_items size q (contents q) s start fits in
    record { valid = h.valid; number = h.number; item_size = h.item_size; items = refl }

run_section_of_full :
    (q : SyncQueue) (item : List ℕ) → is_full q ≡ true → run_section q (sends item) ≡ q
unfolding run_section
run_section_of_full q item full = rw full

run_section_of_empty : (q : SyncQueue) → is_empty q ≡ true → run_section q receives ≡ q
unfolding run_section
run_section_of_empty q nothing = rw nothing

contents-run_section_sends :
    (q : SyncQueue) (item : List ℕ)
    → IsValid q
    → length item ≡ q.queue_item_size
    → is_full q ≡ false
    → contents (run_section q (sends item)) ≡ contents q ++ item ∷ []
unfolding run_section
contents-run_section_sends q item v fits room = rw room (contents-enqueue item v room fits)

contents-run_section_receives :
    (q : SyncQueue)
    → IsValid q
    → is_empty q ≡ false
    → contents q ≡ (dequeue q).0 ∷ contents (run_section q receives)
unfolding run_section
contents-run_section_receives q v more = rw more (contents-dequeue v more)

-- Over any history of sections with items of the queue's size, what was in a valid queue followed by
-- what was accepted is what was delivered followed by what is left.
pub history_fifo :
    (size : ℕ) (q : SyncQueue) (ss : List Section)
    → IsValid q
    → q.queue_item_size ≡ size
    → All (SectionFits size) ss
    → contents q ++ accepted q ss ≡ delivered q ss ++ contents (run_sections q ss)
unfolding run_sections
history_fifo size q [] v e fits = append-nil (contents q)
history_fifo size q (sends item ∷ ss) v e fits =
    let q' : SyncQueue = run_section q (sends item) in
    let h = section_keeps size q (sends item) v e fits.0 in
    let ih = history_fifo size q' ss h.valid h.item_size fits.1 in
    elim (Bool-cases (is_full q)) [
      | inl full ↦
          rw full
            (ap (λ t. contents t ++ accepted q' ss) (sym (run_section_of_full q item full)) ∙ ih)
      | inr room ↦
          let c = contents-run_section_sends q item v (fits.0 ∙ sym e) room in
          rw room (
            sym (append_assoc (contents q) (item ∷ []) (accepted q' ss))
            ∙ ap (λ t. t ++ accepted q' ss) (sym c)
            ∙ ih)
    ]
history_fifo size q (receives ∷ ss) v e fits =
    let q' : SyncQueue = run_section q receives in
    let h = section_keeps size q receives v e fits.0 in
    let ih = history_fifo size q' ss h.valid h.item_size fits.1 in
    elim (Bool-cases (is_empty q)) [
      | inl nothing ↦
          rw nothing
            (ap (λ t. contents t ++ accepted q' ss) (sym (run_section_of_empty q nothing)) ∙ ih)
      | inr more ↦ rw more (
          ap (λ t. t ++ accepted q' ss) (contents-run_section_receives q v more)
          ∙ ap (λ t. (dequeue q).0 ∷ t) ih)
    ]
