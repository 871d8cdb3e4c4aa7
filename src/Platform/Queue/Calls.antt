-- ===== src/Platform/Queue/Calls.antt =====
-- The waiting loops, `iotshdPal_syncQueueSend` and `iotshdPal_syncQueueReceive`, against the
-- first-in first-out list.
use embedded_provisioning_sd.Prelude.{
  ℕ, ◌≡◌, ◌≢◌, refl, sym, ap, ◌∙◌, inl, inr, Bool, true, false, Option, none, some, List, [], ◌∷◌,
  ◌++◌, map, arith, length, ◌==◌, if◌then◌else◌, Bool-cases, All,
}
use embedded_provisioning_sd.Platform.Clock.{
  Timespec, IsTimeval, IsTimespec, deadline, deadline_lem,
}
use embedded_provisioning_sd.Platform.Queue.{
  SyncQueue, enqueue, dequeue, run_sections, is_full, is_empty, Wake, Waited, add_deadline,
  wait_while, Outcome, blocked, returned, send, receive,
}
use embedded_provisioning_sd.Platform.Queue.Fifo
use embedded_provisioning_sd.Platform.Queue.Fifo.{Items}
use embedded_provisioning_sd.Platform.Queue.Simulation.{
  Holds, WakeFits, Agree, is_full_of_Holds, is_empty_of_Holds, enqueue-Holds, dequeue-Holds,
  run_sections-Holds,
}

module _ (cap size : ℕ) (test : SyncQueue → Bool) where
  -- The loop over the bytes ends as the loop over the list, with the list in the queue.
  abbrev AgreeWait : Waited → Fifo.Waited → Type 0
  AgreeWait w (Fifo.waiting xs) = (w.ret ≡ none) × Holds cap size w.queue xs
  AgreeWait w (Fifo.ready xs) =
      (w.ret ≡ some 0) × (test w.queue ≡ false) × Holds cap size w.queue xs
  AgreeWait w (Fifo.gave_up xs) =
      (r : ℕ) × (w.ret ≡ some r) × ((r == 0) ≡ false) × Holds cap size w.queue xs

  AgreeWait-add_deadline :
      (t : Timespec) (w : Waited) (v : Fifo.Waited) → AgreeWait w v → AgreeWait (add_deadline t w) v
  AgreeWait-add_deadline t w (Fifo.waiting xs) h = h
  AgreeWait-add_deadline t w (Fifo.ready xs) h = h
  AgreeWait-add_deadline t w (Fifo.gave_up xs) h = h

  wait_while-AgreeWait :
      (ltest : Items → Bool)
      → ((q : SyncQueue) (xs : Items) → Holds cap size q xs → test q ≡ ltest xs)
      → (block : ℕ) (ws : List Wake) (q : SyncQueue) (xs : Items) → Holds cap size q xs
      → All (WakeFits size) ws
      → AgreeWait (wait_while test block q ws) (Fifo.wait_while ltest cap xs ws)
  unfolding wait_while Fifo.wait_while
  wait_while-AgreeWait ltest same block [] q xs h fits = elim (Bool-cases (test q)) [
    | inl wait ↦ rw (wait, sym (same q xs h) ∙ wait) (refl, h)
    | inr go ↦ rw (go, sym (same q xs h) ∙ go) (refl, go, h)
  ]
  wait_while-AgreeWait ltest same block (w ∷ ws) q xs h fits =
      let h' = run_sections-Holds cap size w.others q xs h fits.0 in
      let rest = wait_while-AgreeWait ltest same block ws _ _ h' fits.1 in
      elim (Bool-cases (test q)) [
        | inl wait ↦ elim (Bool-cases (w.ret == 0)) [
          | inl woken ↦
              rw (wait, sym (same q xs h) ∙ wait, woken)
                (AgreeWait-add_deadline (deadline w.now block)
                  (wait_while test block (run_sections q w.others) ws)
                  (Fifo.wait_while ltest cap (Fifo.run_sections cap xs w.others) ws) rest)
          | inr failed ↦ rw (wait, sym (same q xs h) ∙ wait, failed) (w.ret, refl, failed, h')
        ]
        | inr go ↦ rw (go, sym (same q xs h) ∙ go) (refl, go, h)
      ]

module _ (cap size : ℕ) where
  send_end : Waited → List ℕ → Outcome Bool SyncQueue
  send_end w item = elim w.ret [
    | none ↦ blocked w.queue
    | some ret ↦ if ret == 0 then returned true (enqueue w.queue item) else returned false w.queue
  ]

  send_end-Agree :
      (item : List ℕ) (w : Waited) (v : Fifo.Waited)
      → length item ≡ size
      → AgreeWait cap size is_full w v
      → Agree cap size (send_end w item) (Fifo.sent item v)
  unfolding send_end Fifo.sent
  send_end-Agree item w (Fifo.waiting xs) fits h = rw (h.0) h.1
  send_end-Agree item w (Fifo.ready xs) fits h =
      rw (h.0) (refl, enqueue-Holds cap size w.queue xs item h.2 h.1 fits)
  send_end-Agree item w (Fifo.gave_up xs) fits h = rw (h.1, h.2) (refl, h.3)

  -- `iotshdPal_syncQueueSend` on a queue that holds `xs` does what `Fifo.send` does on `xs`: it still
  -- waits, or returns the same Boolean, and leaves the queue holding the same list, whatever other
  -- threads do meanwhile with items of the queue's size.
  pub send_refines :
      (q : SyncQueue) (xs : Items) (item : List ℕ) (block : ℕ) (ws : List Wake)
      → Holds cap size q xs
      → length item ≡ size
      → All (WakeFits size) ws
      → Agree cap size (send q item block ws) (Fifo.send cap xs item ws)
  unfolding send Fifo.send send_end
  send_refines q xs item block ws h fits fit =
      send_end-Agree item (wait_while is_full block q ws) _ fits (
        wait_while-AgreeWait cap size is_full (λ ys. length ys == cap) (is_full_of_Holds cap size)
          block ws q xs h fit)

  receive_end : Waited → Outcome (Option (List ℕ)) SyncQueue
  receive_end w = elim w.ret [
    | none ↦ blocked w.queue
    | some ret ↦
        if ret == 0
        then returned (some (dequeue w.queue).0) (dequeue w.queue).1
        else returned none w.queue
  ]

  receive_end-Agree :
      (w : Waited) (v : Fifo.Waited)
      → AgreeWait cap size is_empty w v
      → Agree cap size (receive_end w) (Fifo.received v)
  unfolding receive_end Fifo.received
  receive_end-Agree w (Fifo.waiting xs) h = rw (h.0) h.1
  receive_end-Agree w (Fifo.ready []) h = cc (h.1, is_empty_of_Holds cap size w.queue [] h.2)
  receive_end-Agree w (Fifo.ready (x ∷ xs)) h =
      let d = dequeue-Holds cap size w.queue x xs h.2 in rw (h.0) (ap some d.0, d.1)
  receive_end-Agree w (Fifo.gave_up xs) h = rw (h.1, h.2) (refl, h.3)

  -- `iotshdPal_syncQueueReceive` on a queue that holds `xs` does what `Fifo.receive` does on `xs`: it
  -- still waits, or returns the same item or none, and leaves the queue holding the same list, whatever
  -- other threads do meanwhile with items of the queue's size.
  pub receive_refines :
      (q : SyncQueue) (xs : Items) (block : ℕ) (ws : List Wake)
      → Holds cap size q xs
      → All (WakeFits size) ws
      → Agree cap size (receive q block ws) (Fifo.receive cap xs ws)
  unfolding receive Fifo.receive receive_end
  receive_refines q xs block ws h fit = receive_end-Agree (wait_while is_empty block q ws) _ (
      wait_while-AgreeWait cap size is_empty Fifo.is_empty (is_empty_of_Holds cap size) block ws q
        xs h fit)

-- The waits of one call ask for valid deadlines, and the one of each round lies exactly `block`
-- milliseconds after the time read in that round, when the readings are valid. So each wake-up starts
-- the block time anew.
pub wait_while-deadlines :
    (test : SyncQueue → Bool) (block : ℕ) (q : SyncQueue) (ws : List Wake)
    → All (λ w. IsTimeval w.now) ws
    → (rest : List Timespec) × (map (λ w. deadline w.now block) ws
        ≡ (wait_while test block q ws).deadlines ++ rest)
      × All IsTimespec (wait_while test block q ws).deadlines
unfolding wait_while
wait_while-deadlines test block q [] ok = elim (Bool-cases (test q)) [
  | inl wait ↦ rw wait ([], refl, tt)
  | inr go ↦ rw go ([], refl, tt)
]
wait_while-deadlines test block q (w ∷ ws) ok =
    let (rest, e, valid) = wait_while-deadlines test block (run_sections q w.others) ws ok.1 in
    let first = (deadline_lem w.now block ok.0).0 in
    elim (Bool-cases (test q)) [
      | inl wait ↦ elim (Bool-cases (w.ret == 0)) [
        | inl woken ↦ rw (wait, woken) (rest, ap (λ t. deadline w.now block ∷ t) e, (first, valid))
        | inr failed ↦ rw (wait, failed) (map (λ w. deadline w.now block) ws, refl, (first, tt))
      ]
      | inr go ↦ rw go (map (λ w. deadline w.now block) (w ∷ ws), refl, tt)
    ]

wait_while_returns :
    (test : SyncQueue → Bool) (block : ℕ) (q : SyncQueue) (ws : List Wake) (w : Wake)
    → (w.ret == 0) ≡ false
    → (r : ℕ) × ((wait_while test block q (ws ++ w ∷ [])).ret ≡ some r)
unfolding wait_while
wait_while_returns test block q [] w failed = elim (Bool-cases (test q)) [
  | inl wait ↦ rw (wait, failed) (w.ret, refl)
  | inr go ↦ rw go (0, refl)
]
wait_while_returns test block q (v ∷ ws) w failed =
    let (r, e) = wait_while_returns test block (run_sections q v.others) ws w failed in
    elim (Bool-cases (test q)) [
      | inl wait ↦ elim (Bool-cases (v.ret == 0)) [
        | inl woken ↦ rw (wait, woken) (r, e)
        | inr stopped ↦ rw (wait, stopped) (v.ret, refl)
      ]
      | inr go ↦ rw go (0, refl)
    ]

-- A send whose wait at last reports a timeout (or another error) returns, and does not wait on.
pub send_returns :
    (q : SyncQueue) (item : List ℕ) (block : ℕ) (ws : List Wake) (w : Wake)
    → w.ret ≢ 0
    → (b : Bool) × (q' : SyncQueue) × (send q item block (ws ++ w ∷ []) ≡ returned b q')
unfolding send
send_returns q item block ws w failed =
    let (r, e) = wait_while_returns is_full block q ws w (ground arith) in
    let end : SyncQueue = (wait_while is_full block q (ws ++ w ∷ [])).queue in
    elim (Bool-cases (r == 0)) [
      | inl woken ↦ (true, enqueue end item, rw (send, e, woken))
      | inr error ↦ (false, end, rw (send, e, error))
    ]
