-- ===== src/Platform/Tests.antt =====
-- Runs of the platform layer, and its theorems at concrete inputs.
use embedded_provisioning_sd.Prelude.{
  ℕ, ◌≡◌, refl, true, false, none, some, List, [], ◌∷◌, ◌++◌, arith, replicate, length-replicate,
}
use embedded_provisioning_sd.Platform.Clock.{Timeval}
use embedded_provisioning_sd.Platform.Queue
use embedded_provisioning_sd.Platform.Queue.{
  SyncQueue, create, sends, receives, run_sections, is_full, Wake, wait_while, returned, send,
  receive,
}
use embedded_provisioning_sd.Platform.Queue.Valid.{IsValid}
use embedded_provisioning_sd.Platform.Queue.Fifo
use embedded_provisioning_sd.Platform.Queue.Refine.{contents}
use embedded_provisioning_sd.Platform.Queue.Simulation.{Holds, Agree}
use embedded_provisioning_sd.Platform.Queue.Calls.{send_refines, receive_refines}
use embedded_provisioning_sd.Platform.Queue.History.{history_fifo, accepted, delivered}
use mathlib.Core.Equiv.{IsEquiv}
use mathlib.Core.Quot.{Quot}
use embedded_provisioning_sd.Platform.Queue.Abstract.{AbstractQueue, view, run_abstract, view_lem}
use embedded_provisioning_sd.Platform.Event
use embedded_provisioning_sd.Platform.Event.{SyncEvent}

abbrev zeros : ℕ → List ℕ
zeros n = replicate n 0

-- Two items of two bytes, one of them in use, at the end of the storage.
abbrev half_full : SyncQueue
half_full = record {
  buffer = 0 ∷ 0 ∷ 7 ∷ 8 ∷ [];
  number_of_queue_items = 2;
  queue_item_size = 2;
  items_in_queue = 1;
  enqueue_index = 0;
  dequeue_index = 1;
}

abbrev full : SyncQueue
full = record half_full { buffer = 5 ∷ 6 ∷ 7 ∷ 8 ∷ []; items_in_queue = 2; enqueue_index = 1 }

abbrev noon : Timeval
noon = record { sec = 43200; usec = 999500 }

abbrev timed_out : Wake
timed_out = record { now = noon; others = []; ret = 110 }

abbrev other_received : Wake
other_received = record { now = noon; others = receives ∷ []; ret = 0 }

half_full-IsValid : IsValid half_full
half_full-IsValid = omega arith

full-IsValid : IsValid full
full-IsValid = omega arith

half_full-Holds : Holds 2 2 half_full ((7 ∷ 8 ∷ []) ∷ [])
half_full-Holds = record {
  valid = half_full-IsValid;
  number = refl;
  item_size = refl;
  items = refl;
}

full-Holds : Holds 2 2 full ((7 ∷ 8 ∷ []) ∷ (5 ∷ 6 ∷ []) ∷ [])
full-Holds = record { valid = full-IsValid; number = refl; item_size = refl; items = refl }

-- A send into the full queue waits for a receive, and puts its item behind the one that is left.
send_after_receive :
    send full (1 ∷ 2 ∷ []) 20 (other_received ∷ [])
    ≡ returned true
        (record full { buffer = 5 ∷ 6 ∷ 1 ∷ 2 ∷ []; enqueue_index = 0; dequeue_index = 0 })
unfolding send wait_while run_sections Queue.run_section Queue.enqueue Queue.dequeue
send_after_receive = refl

create_limits : (create zeros 0 8 ≡ none) × (create zeros 8 0 ≡ none)
unfolding create
create_limits = (refl, refl)

send_refines_example :
    Agree 2 2
      (send full (1 ∷ 2 ∷ []) 20 (other_received ∷ []))
      (Fifo.send 2 ((7 ∷ 8 ∷ []) ∷ (5 ∷ 6 ∷ []) ∷ []) (1 ∷ 2 ∷ []) (other_received ∷ []))
send_refines_example =
    send_refines 2 2 full ((7 ∷ 8 ∷ []) ∷ (5 ∷ 6 ∷ []) ∷ []) (1 ∷ 2 ∷ []) 20 (other_received ∷ [])
      full-Holds refl ((tt, tt), tt)

receive_refines_example :
    Agree 2 2 (receive half_full 20 []) (Fifo.receive 2 ((7 ∷ 8 ∷ []) ∷ []) [])
receive_refines_example = receive_refines 2 2 half_full ((7 ∷ 8 ∷ []) ∷ []) 20 [] half_full-Holds tt

history_fifo_example :
    contents half_full ++ accepted half_full (sends (1 ∷ 2 ∷ []) ∷ receives ∷ [])
    ≡ delivered half_full (sends (1 ∷ 2 ∷ []) ∷ receives ∷ [])
      ++ contents (run_sections half_full (sends (1 ∷ 2 ∷ []) ∷ receives ∷ []))
history_fifo_example =
    history_fifo 2 half_full (sends (1 ∷ 2 ∷ []) ∷ receives ∷ []) half_full-IsValid refl
      (refl, (tt, tt))

-- What a caller sees of a queue that has one item in it.
abbrev half_seen : AbstractQueue 2 2
half_seen = Quot.mk (half_full, half_full-Holds)

abbrev unused : SyncQueue
unused = record {
  buffer = 0 ∷ 0 ∷ 0 ∷ 0 ∷ [];
  number_of_queue_items = 2;
  queue_item_size = 2;
  items_in_queue = 0;
  enqueue_index = 0;
  dequeue_index = 0;
}

create_two : create zeros 2 2 ≡ some unused
unfolding create
create_two = refl

view_lem_example :
    IsEquiv (view 2 2)
    × ((view 2 2 (run_abstract 2 2 (sends (1 ∷ 2 ∷ [])) refl half_seen)).0
        ≡ Fifo.run_section 2 (view 2 2 half_seen).0 (sends (1 ∷ 2 ∷ [])))
view_lem_example =
    view_lem zeros 2 2 (sends (1 ∷ 2 ∷ [])) half_seen (λ n. length-replicate n 0) (omega arith)
      create_two refl

abbrev clear : SyncEvent
clear = record { event_status = false }

abbrev set_by_other : Event.Wake
set_by_other = record { now = noon; others = Event.sets ∷ []; ret = 0 }
