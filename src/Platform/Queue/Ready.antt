-- ===== src/Platform/Queue/Ready.antt =====
-- Calls that need not wait, and a wait on an empty queue that runs out of time.
use embedded_provisioning_sd.Prelude.{
  ℕ, ◌<◌, ◌≡◌, ◌≢◌, refl, sym, ap, subst, ◌∙◌, Bool, true, false, ◌++◌, ◌==◌, All, none, some, List,
  [], ◌∷◌, arith, length, ==_of_ne,
}
use embedded_provisioning_sd.Platform.Queue.{
  SyncQueue, is_full, is_empty, Wake, wait_while, Outcome, blocked, returned, send, receive,
}
use embedded_provisioning_sd.Platform.Queue.Fifo
use embedded_provisioning_sd.Platform.Queue.Fifo.{Items}
use embedded_provisioning_sd.Platform.Queue.Simulation.{
  Holds, WakeFits, Agree, is_full_of_Holds, is_empty_of_Holds,
}
use embedded_provisioning_sd.Platform.Queue.Calls.{send_refines, receive_refines}

pub Agree-returned :
    {A : Type 0} (cap size : ℕ) (o : Outcome A SyncQueue) (a : A) (xs : Items)
    → Agree cap size o (returned a xs)
    → (q : SyncQueue) × (o ≡ returned a q) × Holds cap size q xs
Agree-returned cap size (blocked q) a xs h = absurd h
Agree-returned cap size (returned b q) a xs h = (q, ap (λ t. returned t q) h.0, h.1)

Agree-blocked :
    {A : Type 0} (cap size : ℕ) (o : Outcome A SyncQueue) (xs : Items)
    → Agree cap size o (blocked xs)
    → (q : SyncQueue) × (o ≡ blocked q)
Agree-blocked cap size (blocked q) xs h = (q, refl)
Agree-blocked cap size (returned b q) xs h = absurd h

wait_while-ready :
    (test : SyncQueue → Bool) (block : ℕ) (q : SyncQueue) (ws : List Wake)
    → test q ≡ false
    → wait_while test block q ws ≡ record { ret = some 0; queue = q; deadlines = [] }
unfolding wait_while
wait_while-ready test block q [] go = rw go refl
wait_while-ready test block q (w ∷ ws) go = rw go refl

module _ (cap size : ℕ) where
  -- An empty queue keeps a receive waiting.
  pub receive_none :
      (q : SyncQueue) (block : ℕ)
      → Holds cap size q []
      → (q' : SyncQueue) × (receive q block [] ≡ blocked q')
  unfolding Fifo.receive Fifo.wait_while Fifo.received
  receive_none q block h =
      Agree-blocked cap size (receive q block []) [] (receive_refines cap size q [] block [] h tt)

  -- With room, a send returns true without a wait and appends the item.
  pub send_room :
      (q : SyncQueue) (xs : Items) (item : List ℕ) (block : ℕ)
      → Holds cap size q xs
      → length item ≡ size
      → length xs < cap
      → (q' : SyncQueue) × (send q item block [] ≡ returned true q')
        × Holds cap size q' (xs ++ item ∷ [])
  unfolding Fifo.send Fifo.wait_while Fifo.sent
  send_room q xs item block h fits room = Agree-returned cap size _ true _ (
      rw (sym (ready (==_of_ne (length xs) cap (omega arith))))
        (send_refines cap size q xs item block [] h fits tt))
    where
      ready :
          (length xs == cap) ≡ false → Fifo.send cap xs item [] ≡ returned true (xs ++ item ∷ [])
      ready e = rw e

  -- With an item, a receive returns the oldest without a wait and leaves the rest.
  pub receive-some :
      (q : SyncQueue) (x : List ℕ) (xs : Items) (block : ℕ)
      → Holds cap size q (x ∷ xs)
      → (q' : SyncQueue) × (receive q block [] ≡ returned (some x) q') × Holds cap size q' xs
  unfolding Fifo.receive Fifo.wait_while Fifo.received
  receive-some q x xs block h =
      Agree-returned cap size (receive q block []) (some x) xs
        (receive_refines cap size q (x ∷ xs) block [] h tt)

  -- What others would do in a wait is no matter where there is none.
  pub receive-ready :
      (q : SyncQueue) (x : List ℕ) (xs : Items) (block : ℕ) (ws : List Wake)
      → Holds cap size q (x ∷ xs)
      → receive q block ws ≡ receive q block []
  unfolding receive
  receive-ready q x xs block ws h =
      let go = is_empty_of_Holds cap size q (x ∷ xs) h in
      simp
        (receive, wait_while-ready is_empty block q ws go, wait_while-ready is_empty block q [] go)

  pub send-ready :
      (q : SyncQueue) (xs : Items) (item : List ℕ) (block : ℕ) (ws : List Wake)
      → Holds cap size q xs
      → length xs < cap
      → send q item block ws ≡ send q item block []
  unfolding send
  send-ready q xs item block ws h room =
      let go = is_full_of_Holds cap size q xs h ∙ ==_of_ne (length xs) cap (omega arith) in
      simp (send, wait_while-ready is_full block q ws go, wait_while-ready is_full block q [] go)

  -- A receive on an empty queue gives nothing when its wait runs out of time.
  pub receive-timeout :
      (q : SyncQueue) (block : ℕ) (w : Wake)
      → Holds cap size q []
      → w.others ≡ []
      → w.ret ≢ 0
      → (q' : SyncQueue) × (receive q block (w ∷ []) ≡ returned none q') × Holds cap size q' []
  unfolding Fifo.receive Fifo.wait_while Fifo.received Fifo.run_sections
  receive-timeout q block w h quiet failed =
      let fits : All (WakeFits size) (w ∷ []) = rw quiet (tt, tt) in
      Agree-returned cap size (receive q block (w ∷ [])) none [] (
        subst (Agree cap size (receive q block (w ∷ []))) gave_up
          (receive_refines cap size q [] block (w ∷ []) h fits))
    where
      gave_up : Fifo.receive cap [] (w ∷ []) ≡ returned none []
      gave_up = rw (quiet, ==_of_ne w.ret 0 failed) refl
