-- ===== src/Demo/Main/Pool.antt =====
-- The agent's globals over the rounds of the demo: the pool is set up once, and sections run on its queue
-- one after the other.
use embedded_provisioning_sd.Prelude.{
  ℕ, ◌≡◌, refl, ◌++◌, inl, inr, true, Option, none, some, List, [], ◌∷◌, Bool-cases, Option-cases,
}
use embedded_provisioning_sd.Platform.Queue.{SyncQueue, Section, create, run_section, run_sections}
use embedded_provisioning_sd.Agent.Pool.{pool_size, pointer_size, CommandPool, initialize_pool}
use embedded_provisioning_sd.Provisioning.Serializer.{KeyCert}
use embedded_provisioning_sd.Demo.Main.{Traffic, on_queue}

-- Once the pool is there it is not set up again.
pub initialize_pool_again :
    (base command_size : ℕ) (malloc : ℕ → List ℕ) (pool : CommandPool)
    → pool.initialized ≡ true
    → initialize_pool base command_size malloc pool ≡ pool
unfolding initialize_pool
initialize_pool_again base command_size malloc pool there = rw there refl

-- It is there once it was set up.
pub initialize_pool_there :
    (base command_size : ℕ) (malloc : ℕ → List ℕ) (pool : CommandPool)
    → (initialize_pool base command_size malloc pool).initialized ≡ true
unfolding initialize_pool
initialize_pool_there base command_size malloc pool = elim (Bool-cases pool.initialized) [
  | inl there ↦ rw there refl
  | inr absent ↦ elim (Option-cases (create malloc pool_size pointer_size)) [
    | inl null ↦ rw (absent, null) refl
    | inr (q, e) ↦ rw (absent, e) refl
  ]
]

pub on_queue-append :
    (front back : List Section) (q : Option SyncQueue)
    → on_queue back (on_queue front q) ≡ on_queue (front ++ back) q
unfolding run_sections
on_queue-append front back none = refl
on_queue-append [] back (some q) = refl
on_queue-append (s ∷ front) back (some q) = on_queue-append front back (some (run_section q s))

-- The traffic of a list of rounds on the pool, one after the other, and that of the last on the commands.
abbrev pub pool_history : List (KeyCert × Traffic) → List Section
pool_history [] = []
pool_history (r ∷ rs) = r.1.pool ++ pool_history rs

abbrev pub last_commands : Traffic → List (KeyCert × Traffic) → List Section
last_commands t [] = t.commands
last_commands t (r ∷ rs) = last_commands r.1 rs
