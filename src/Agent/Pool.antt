-- ===== src/Agent/Pool.antt =====
-- libraries/mqtt_agent/source/freertos_agent_message.c and freertos_command_pool.c: a queue of command
-- pointers, and the pool of command structures that such a queue guards.
pub mod Ownership
pub mod Exclusive
use embedded_provisioning_sd.Prelude.{
  ℕ, zero, suc, ◌+◌, ◌*◌, Bool, true, false, ◌&&◌, Option, none, some, List, [], ◌∷◌, ltb, leb,
  ◌==◌, if◌then◌else◌, to_bytes, from_bytes, replicate,
}
use embedded_provisioning_sd.Platform.Queue.{
  SyncQueue, create, Wake, Outcome, blocked, returned, send, receive,
}

-- `sizeof( MQTTAgentCommand_t * )` on a 64-bit target.
abbrev pub pointer_size : ℕ
pointer_size = 8

-- MQTT_COMMAND_CONTEXTS_POOL_SIZE
abbrev pub pool_size : ℕ
pool_size = 10

-- `Agent_MessageSend` on a context that is not NULL: the pointer's bytes go into the queue. `none` is
-- a NULL `pCommandToSend`.
unfoldable pub message_send : SyncQueue → Option ℕ → ℕ → List Wake → Outcome Bool SyncQueue
message_send q none block wakes = returned false q
message_send q (some command) block wakes = send q (to_bytes pointer_size command) block wakes

abbrev pub pointer_of : Outcome (Option (List ℕ)) SyncQueue → Outcome (Option ℕ) SyncQueue
pointer_of (blocked q) = blocked q
pointer_of (returned none q) = returned none q
pointer_of (returned (some bytes) q) = returned (some (from_bytes bytes)) q

-- `Agent_MessageReceive` on a context and a result pointer that are not NULL.
unfoldable pub message_receive : SyncQueue → ℕ → List Wake → Outcome (Option ℕ) SyncQueue
message_receive q block wakes = pointer_of (receive q block wakes)

-- `commandStructMessageCtx.queue` and `initStatus`; the structures themselves are behind their
-- addresses.
pub record CommandPool : Type 0 where
  pub queue : Option SyncQueue
  pub initialized : Bool

abbrev pub queue_behind : {A : Type 0} → Outcome A SyncQueue → SyncQueue
queue_behind (blocked q) = q
queue_behind (returned a q) = q

-- The loop of `Agent_InitializePool`: each pointer is sent, and the result is not looked at.
unfoldable pub populate : SyncQueue → List ℕ → SyncQueue
populate q [] = q
populate q (command ∷ commands) =
    populate (queue_behind (message_send q (some command) 0 [])) commands

-- `Agent_GetCommand` on the pool's queue; `none` is NULL.
unfoldable pub get_command : SyncQueue → ℕ → List Wake → Outcome (Option ℕ) SyncQueue
get_command q block wakes = message_receive q block wakes

-- `commandStructurePool` starts at `base`, and `command_size` is `sizeof( MQTTAgentCommand_t )`.
module _ (base command_size : ℕ) where
  -- The addresses of `n` structures from the `i`th on.
  abbrev pub structures : ℕ → ℕ → List ℕ
  structures zero i = []
  structures (suc n) i = (base + i * command_size) ∷ structures n (suc i)

  -- `Agent_InitializePool`
  unfoldable pub initialize_pool : (ℕ → List ℕ) → CommandPool → CommandPool
  initialize_pool malloc pool =
      if pool.initialized then pool else elim (create malloc pool_size pointer_size) [
        | none ↦ record { queue = none; initialized = true }
        | some q ↦ record { queue = some (populate q (structures pool_size 0)); initialized = true }
      ]

  -- `Agent_ReleaseCommand` on the pool's queue.
  unfoldable pub release_command : SyncQueue → ℕ → List Wake → Outcome Bool SyncQueue
  release_command q command wakes =
      if leb base command && ltb command (base + pool_size * command_size)
      then message_send q (some command) 0 wakes
      else returned false q
