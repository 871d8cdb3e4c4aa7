-- ===== src/Platform/Event.antt =====
-- platform/posix/pal_event/pal_event.c: an event that one wait consumes, under a mutex.
--
-- As for the queue, a critical section runs whole, and a `Wake` says what other threads do while the
-- mutex is free in a wait.
pub mod Laws
use embedded_provisioning_sd.Prelude.{
  ℕ, Bool, true, false, not, Option, none, some, List, [], ◌∷◌, ◌==◌, if◌then◌else◌,
}
use embedded_provisioning_sd.Platform.Clock.{Timeval, Timespec, deadline}

-- `struct iotshdPal_SyncEvent`, less the mutex and the condition.
pub record SyncEvent : Type 0 where
  pub event_status : Bool

-- `iotshdPal_syncEventCreate`; the argument says whether `malloc` gives a block.
unfoldable pub create : Bool → Option SyncEvent
create allocated = if allocated then some (record { event_status = false }) else none

-- The critical section of `iotshdPal_syncEventSet`.
unfoldable pub set_event : SyncEvent → SyncEvent
set_event e = record e { event_status = true }

-- The critical section of `iotshdPal_syncEventWait` behind `if( ret == 0 )`.
unfoldable pub consume : SyncEvent → SyncEvent
consume e = record e { event_status = false }

-- What another thread does: sets the event, or gets past its own loop (or does nothing).
pub data Section : Type 0 where
  sets waits : Section

unfoldable pub run_section : SyncEvent → Section → SyncEvent
unfolding set_event consume
run_section e sets = set_event e
run_section e waits = if e.event_status then consume e else e

unfoldable pub run_sections : SyncEvent → List Section → SyncEvent
unfolding run_section
run_sections e [] = e
run_sections e (s ∷ ss) = run_sections (run_section e s) ss

pub record Wake : Type 0 where
  pub now : Timeval
  pub others : List Section
  pub ret : ℕ

pub record Waited : Type 0 where
  pub ret : Option ℕ
  pub event : SyncEvent
  pub deadlines : List Timespec

-- `while( pSyncEvent->eventStatus == false ) { ... }`
unfoldable pub wait_set : ℕ → SyncEvent → List Wake → Waited
wait_set block e [] =
    if e.event_status
    then record { ret = some 0; event = e; deadlines = [] }
    else record { ret = none; event = e; deadlines = [] }
wait_set block e (w ∷ ws) =
    let e' = run_sections e w.others in
    let rest = wait_set block e' ws in
    if e.event_status
    then record { ret = some 0; event = e; deadlines = [] }
    else if w.ret == 0
    then record rest { deadlines = deadline w.now block ∷ rest.deadlines }
    else record { ret = some w.ret; event = e'; deadlines = deadline w.now block ∷ [] }

-- `iotshdPal_syncEventWait`: `none` while it still waits, else what it returns; and the event.
unfoldable pub wait : SyncEvent → ℕ → List Wake → Option Bool × SyncEvent
unfolding consume
wait e block wakes =
    let w = wait_set block e wakes in
    elim w.ret [
      | none ↦ (none, w.event)
      | some ret ↦ if ret == 0 then (some true, consume w.event) else (some false, w.event)
    ]
