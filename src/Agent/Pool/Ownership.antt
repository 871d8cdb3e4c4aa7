-- ===== src/Agent/Pool/Ownership.antt =====
-- Who has which command structure: the queue of the pool and the holders share them out.
use embedded_provisioning_sd.Prelude.{
  ℕ, suc, ◌+◌, ◌^◌, ◌≤◌, ◌<◌, ◌≡◌, ◌≢◌, refl, sym, ap, true, false, Option, some, List, [], ◌∷◌,
  ◌++◌, map, arith, length, length-append, ◌==◌, if◌then◌else◌, to_bytes, from_bytes-to_bytes,
  length-to_bytes, All, append-nil, append_assoc,
}
use mathlib.Core.List.{map-append}
use embedded_provisioning_sd.Platform.Queue.{SyncQueue, create, blocked, returned}
use embedded_provisioning_sd.Platform.Queue.Fifo.{Items}
use embedded_provisioning_sd.Platform.Queue.Simulation.{Holds}
use embedded_provisioning_sd.Platform.Queue.Ready.{send_room, receive-some, receive_none}
use embedded_provisioning_sd.Platform.Queue.Simulation.{create-Holds}
use embedded_provisioning_sd.Agent.Pool.{
  pointer_size, pool_size, pointer_of, message_send, message_receive, populate, structures,
  initialize_pool, get_command, release_command,
}

abbrev pub count : ℕ → List ℕ → ℕ
count a [] = 0
count a (x ∷ xs) = (if x == a then 1 else 0) + count a xs

pub count-append :
    (p : ℕ) (front back : List ℕ) → count p (front ++ back) ≡ count p front + count p back
count-append p [] back = omega arith
count-append p (x ∷ front) back = let rest = count-append p front back in ground arith

abbrev pub pointers : List ℕ → Items
pointers = map (to_bytes pointer_size)

pub length-pointers : (xs : List ℕ) → length (pointers xs) ≡ length xs
length-pointers [] = refl
length-pointers (x ∷ xs) = ap suc (length-pointers xs)

abbrev pub IsPointer : ℕ → Type 0
IsPointer p = p < 256 ^ pointer_size

-- A queue of a capacity holds exactly the pointers `xs`.
abbrev pub QueueHolds : ℕ → SyncQueue → List ℕ → Type 0
QueueHolds cap q xs = Holds cap pointer_size q (pointers xs)

-- The pool's queue holds exactly the pointers `free`.
abbrev pub HoldsPointers : SyncQueue → List ℕ → Type 0
HoldsPointers q free = QueueHolds pool_size q free

pub send_pointer :
    (cap : ℕ) (q : SyncQueue) (free : List ℕ) (command : ℕ)
    → QueueHolds cap q free
    → length free < cap
    → (q' : SyncQueue) × (message_send q (some command) 0 [] ≡ returned true q')
      × QueueHolds cap q' (free ++ command ∷ [])
unfolding message_send
send_pointer cap q free command h room =
    let (q', e, h') =
      send_room cap pointer_size q (pointers free) (to_bytes pointer_size command) 0 h
        (length-to_bytes pointer_size command) (omega (arith, length-pointers free)) in
    (q', e, rw (map-append (to_bytes pointer_size) free (command ∷ [])) h')

pub populate-QueueHolds :
    (cap : ℕ) (commands : List ℕ) (q : SyncQueue) (free : List ℕ)
    → QueueHolds cap q free
    → length free + length commands ≤ cap
    → QueueHolds cap (populate q commands) (free ++ commands)
unfolding populate
populate-QueueHolds cap [] q free h room = rw (append-nil free) h
populate-QueueHolds cap (command ∷ commands) q free h room =
    let (q', e, h') = send_pointer cap q free command h (omega arith) in
    rw (e, sym (append_assoc free (command ∷ []) commands))
      (populate-QueueHolds cap commands q' (free ++ command ∷ []) h'
        (omega (arith, length-append free (command ∷ []))))

pub get_pointer :
    (cap : ℕ) (q : SyncQueue) (free : List ℕ) (command block : ℕ)
    → QueueHolds cap q (command ∷ free)
    → IsPointer command
    → (q' : SyncQueue) × (get_command q block [] ≡ returned (some command) q')
      × QueueHolds cap q' free
unfolding get_command message_receive
get_pointer cap q free command block h small =
    let (q', e, h') =
      receive-some cap pointer_size q (to_bytes pointer_size command) (pointers free) block h in
    (q', rw (e, from_bytes-to_bytes pointer_size command small), h')

pub get_from_none :
    (q q' : SyncQueue) (block command : ℕ)
    → HoldsPointers q []
    → get_command q block [] ≢ returned (some command) q'
unfolding get_command message_receive
get_from_none q q' block command h e =
    let (end, b) = receive_none pool_size pointer_size q block h in
    let impossible : pointer_of (blocked end) ≡ returned (some command) q' = rw b at e in cc

module _ (base command_size : ℕ) where
  -- `Agent_InitializePool` on the zeroed state leaves every structure's pointer in the queue, in order.
  pub initialize_pool_lem :
      (malloc : ℕ → List ℕ) (queue : Option SyncQueue)
      → ((n : ℕ) → length (malloc n) ≡ n)
      → (q : SyncQueue) × (initialize_pool base command_size malloc
            (record { queue = queue; initialized = false })
          ≡ record { queue = some q; initialized = true })
        × HoldsPointers q (structures base command_size pool_size 0)
  unfolding initialize_pool create
  initialize_pool_lem malloc queue m = (
    _,
    refl,
    populate-QueueHolds pool_size (structures base command_size pool_size 0) _ []
        (create-Holds malloc pool_size pointer_size m (omega arith) refl) (omega arith),
  )

  -- A thread takes a command, or gives back one that is held.
  pub data Step (q : SyncQueue) (held : List ℕ) (q' : SyncQueue) (held' : List ℕ) : Type 0 where
    took :
        (command block : ℕ)
        → get_command q block [] ≡ returned (some command) q'
        → held' ≡ command ∷ held
        → Step q held q' held'
    gave :
        (command : ℕ) (xs ys : List ℕ)
        → held ≡ xs ++ command ∷ ys
        → release_command base command_size q command [] ≡ returned true q'
        → held' ≡ xs ++ ys
        → Step q held q' held'

  pub data Reach (q : SyncQueue) (held : List ℕ) : SyncQueue → List ℕ → Type 0 where
    here : Reach q held q held
    next :
        {q₁ q₂ : SyncQueue} {held₁ held₂ : List ℕ}
        → Reach q held q₁ held₁
        → Step q₁ held₁ q₂ held₂
        → Reach q held q₂ held₂

-- The queue and the holders share the structures `all` out.
pub record Owned (all : List ℕ) (q : SyncQueue) (held : List ℕ) : Type 0 where
  pub free : List ℕ
  pub holds : HoldsPointers q free
  pub shared : (a : ℕ) → count a free + count a held ≡ count a all
  pub total : length free + length held ≡ pool_size
  pub free_pointers : All IsPointer free
  pub held_pointers : All IsPointer held
