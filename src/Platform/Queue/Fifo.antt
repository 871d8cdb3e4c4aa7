-- ===== src/Platform/Queue/Fifo.antt =====
-- What pal_queue.h promises: a first-in first-out list of at most `cap` items, shared by threads.
use embedded_provisioning_sd.Prelude.{
  ℕ, Bool, true, false, Option, none, some, List, [], ◌∷◌, ◌++◌, length, ◌==◌, if◌then◌else◌,
}
use embedded_provisioning_sd.Platform.Queue.{
  Section, sends, receives, Wake, Outcome, blocked, returned,
}

abbrev pub Items : Type 0
Items = List (List ℕ)

unfoldable pub run_section : ℕ → Items → Section → Items
run_section cap xs (sends item) = if length xs == cap then xs else xs ++ item ∷ []
run_section cap [] receives = []
run_section cap (x ∷ xs) receives = xs

unfoldable pub run_sections : ℕ → Items → List Section → Items
run_sections cap xs [] = xs
run_sections cap xs (s ∷ ss) = run_sections cap (run_section cap xs s) ss

-- How a wait ends: still waiting, let through, or given up.
pub data Waited : Type 0 where
  waiting ready gave_up : Items → Waited

unfoldable pub wait_while : (Items → Bool) → ℕ → Items → List Wake → Waited
wait_while test cap xs [] = if test xs then waiting xs else ready xs
wait_while test cap xs (w ∷ ws) =
    let xs' = run_sections cap xs w.others in
    let rest = wait_while test cap xs' ws in
    if test xs then (if w.ret == 0 then rest else gave_up xs') else ready xs

abbrev pub is_empty : Items → Bool
is_empty [] = true
is_empty (x ∷ xs) = false

unfoldable pub sent : List ℕ → Waited → Outcome Bool Items
sent item (waiting xs) = blocked xs
sent item (ready xs) = returned true (xs ++ item ∷ [])
sent item (gave_up xs) = returned false xs

-- A send waits while the list is full.
unfoldable pub send : ℕ → Items → List ℕ → List Wake → Outcome Bool Items
unfolding sent
send cap xs item wakes = sent item (wait_while (λ ys. length ys == cap) cap xs wakes)

unfoldable pub received : Waited → Outcome (Option (List ℕ)) Items
received (waiting xs) = blocked xs
received (ready []) = returned none []
received (ready (x ∷ xs)) = returned (some x) xs
received (gave_up xs) = returned none xs

-- A receive waits while the list is empty, and takes the oldest item.
unfoldable pub receive : ℕ → Items → List Wake → Outcome (Option (List ℕ)) Items
unfolding received
receive cap xs wakes = received (wait_while is_empty cap xs wakes)
