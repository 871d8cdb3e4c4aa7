-- ===== src/Agent/Pool/Exclusive.antt =====
-- No command structure is handed to two holders, and giving one back never fails.
use embedded_provisioning_sd.Prelude.{
  ℕ, zero, suc, ◌+◌, ◌*◌, ◌^◌, ◌≤◌, ◌<◌, ◌≡◌, refl, sym, ap, ◌∙◌, inl, inr, Bool, true, false, ◌&&◌,
  Option, some, List, [], ◌∷◌, ◌++◌, arith, length, length-append, ltb, leb, All, Bool-cases,
  All-append,
}
use embedded_provisioning_sd.Platform.Queue.{SyncQueue, Outcome, returned}
use embedded_provisioning_sd.Agent.Pool.{
  pointer_size, pool_size, structures, initialize_pool, get_command, release_command,
}
use embedded_provisioning_sd.Agent.Pool.Ownership.{
  count, count-append, IsPointer, HoldsPointers, Owned, Step, took, gave, Reach, here, next,
  send_pointer, get_pointer, get_from_none, initialize_pool_lem,
}

returned_inj :
    {A : Type 0} {a b : A} {q q' : SyncQueue}
    → ◌≡◌ {A = Outcome (Option A) SyncQueue} (returned (some a) q) (returned (some b) q')
    → (a ≡ b) × (q ≡ q')
returned_inj e = (cc, cc)

-- A pointer into the pool passes the range test of `Agent_ReleaseCommand`.
abbrev pub in_pool : ℕ → ℕ → ℕ → Bool
in_pool base command_size command =
    leb base command && ltb command (base + pool_size * command_size)

module _ (base command_size : ℕ) where
  took-Owned :
      (all : List ℕ) (q q' : SyncQueue) (held held' : List ℕ) (command block : ℕ)
      → Owned all q held
      → get_command q block [] ≡ returned (some command) q'
      → held' ≡ command ∷ held
      → Owned all q' held'
  took-Owned all q q' held held' command block o got now = split o.free refl
    where
      split : (free : List ℕ) → o.free ≡ free → Owned all q' held'
      split [] e =
          let h : HoldsPointers q [] = rw e at o.holds in
          absurd (get_from_none q q' block command h got)
      split (x ∷ free) e =
          let h : HoldsPointers q (x ∷ free) = rw e at o.holds in
          let ok : All IsPointer (x ∷ free) = rw e at o.free_pointers in
          let (q'', got', h') = get_pointer pool_size q free x block h ok.0 in
          let (same, there) = returned_inj (sym got ∙ got') in
          rw now (record {
            free = free;
            holds = rw there h';
            shared =
                λ a. omega (arith, o.shared a, ap (count a) e, ap (λ t. count a (t ∷ [])) same);
            total = omega (arith, o.total, ap (length {A = ℕ}) e);
            free_pointers = ok.1;
            held_pointers = (rw same ok.0, o.held_pointers);
          })

  All-split :
      (xs ys : List ℕ) (x : ℕ)
      → All IsPointer (xs ++ x ∷ ys)
      → IsPointer x × All IsPointer (xs ++ ys)
  All-split [] ys x h = h
  All-split (z ∷ xs) ys x h = let (p, r) = All-split xs ys x h.1 in (p, (h.0, r))

  gave-Owned :
      (all : List ℕ) (q q' : SyncQueue) (held held' : List ℕ) (command : ℕ) (xs ys : List ℕ)
      → Owned all q held
      → held ≡ xs ++ command ∷ ys
      → release_command base command_size q command [] ≡ returned true q'
      → held' ≡ xs ++ ys
      → Owned all q' held'
  unfolding release_command
  gave-Owned all q q' held held' command xs ys o had gives now =
      elim (Bool-cases (in_pool base command_size command)) [
        | inr outside ↦
            let impossible : ◌≡◌ {A = Outcome Bool SyncQueue} (returned false q)
                (returned true q') =
              rw outside at gives in
            cc
        | inl inside ↦
            let counts = λ (a : ℕ). ap (count a) had ∙ count-append a xs (command ∷ ys) in
            let lengths = ap (length {A = ℕ}) had ∙ length-append xs (command ∷ ys) in
            let ok = All-split xs ys command (rw had at o.held_pointers) in
            let (q'', sent, h') =
              send_pointer pool_size q o.free command o.holds (omega (arith, o.total, lengths)) in
            let sent' : release_command base command_size q command [] ≡ returned true q'' =
              rw inside sent in
            let there : q' ≡ q'' = cc (gives, sent') in
            rw now (record {
              free = o.free ++ command ∷ [];
              holds = rw there h';
              shared = λ a. omega (
                arith,
                o.shared a,
                counts a,
                count-append a xs ys,
                count-append a o.free (command ∷ []),
              );
              total = omega (
                arith,
                o.total,
                lengths,
                length-append xs ys,
                length-append o.free (command ∷ []),
              );
              free_pointers = All-append IsPointer o.free (command ∷ []) o.free_pointers (ok.0, tt);
              held_pointers = ok.1;
            })
      ]

  -- Each step keeps the structures shared out.
  pub Step-Owned :
      (all : List ℕ) {q q' : SyncQueue} {held held' : List ℕ}
      → Step base command_size q held q' held'
      → Owned all q held
      → Owned all q' held'
  Step-Owned all {q} {q'} {held} {held'} (took command block got now) o =
      took-Owned all q q' held held' command block o got now
  Step-Owned all {q} {q'} {held} {held'} (gave command xs ys had gives now) o =
      gave-Owned all q q' held held' command xs ys o had gives now

  pub Reach-Owned :
      (all : List ℕ) {q : SyncQueue} {held : List ℕ} {q' : SyncQueue} {held' : List ℕ}
      → Owned all q held
      → Reach base command_size q held q' held'
      → Owned all q' held'
  Reach-Owned all o here = o
  Reach-Owned all o (next r s) = Step-Owned all s (Reach-Owned all o r)

module _ (base command_size : ℕ) (positive : 0 < command_size) where
  structures_above :
      (n i a : ℕ) → a < base + i * command_size → count a (structures base command_size n i) ≡ 0
  structures_above zero i a h = refl
  structures_above (suc n) i a h = ground (arith, structures_above n (suc i) a (omega arith))

  structures_once : (n i a : ℕ) → count a (structures base command_size n i) ≤ 1
  structures_once zero i a = omega arith
  structures_once (suc n) i a =
      ground (arith, structures_once n (suc i) a, structures_above n (suc i) a)

  structures_bounds :
      (n i a : ℕ)
      → 0 < count a (structures base command_size n i)
      → (base ≤ a) × (a < base + (i + n) * command_size)
  structures_bounds zero i a h = absurd (omega arith)
  structures_bounds (suc n) i a h = grind (arith, structures_bounds n (suc i) a)

  structures-IsPointer :
      (n i : ℕ)
      → base + (i + n) * command_size ≤ 256 ^ pointer_size
      → All IsPointer (structures base command_size n i)
  structures-IsPointer zero i h = tt
  structures-IsPointer (suc n) i h = (grind arith, structures-IsPointer n (suc i) (omega arith))

length-structures : (base command_size n i : ℕ) → length (structures base command_size n i) ≡ n
length-structures base command_size zero i = refl
length-structures base command_size (suc n) i =
    ap suc (length-structures base command_size n (suc i))

module _ (base command_size : ℕ) where
  -- All structures, in the order of their addresses.
  abbrev pub pool_structures : List ℕ
  pool_structures = structures base command_size pool_size 0

  initial-Owned :
      (malloc : ℕ → List ℕ) (queue : Option SyncQueue) (q : SyncQueue)
      → ((n : ℕ) → length (malloc n) ≡ n)
      → 0 < command_size
      → base + pool_size * command_size ≤ 256 ^ pointer_size
      → initialize_pool base command_size malloc (record { queue = queue; initialized = false })
        ≡ record { queue = some q; initialized = true }
      → Owned pool_structures q []
  initial-Owned malloc queue q m pos fits e =
      let (q₀, e₀, h) = initialize_pool_lem base command_size malloc queue m in
      let same : q ≡ q₀ = cc (e, e₀) in
      rw same (record {
        free = pool_structures;
        holds = h;
        shared = λ a. omega arith;
        total = omega arith;
        free_pointers = structures-IsPointer base command_size pos pool_size 0 (omega arith);
        held_pointers = tt;
      })

  -- From the initialised pool on, whatever threads take and give back, no command is held twice, and
  -- each that is held is one of the pool's structures. The structures have a positive size and lie
  -- below 2 ^ 64, and `malloc` gives blocks of the size asked.
  pub held_once :
      (malloc : ℕ → List ℕ) (queue : Option SyncQueue) (q q' : SyncQueue) (held : List ℕ)
      → ((n : ℕ) → length (malloc n) ≡ n)
      → 0 < command_size
      → base + pool_size * command_size ≤ 256 ^ pointer_size
      → initialize_pool base command_size malloc (record { queue = queue; initialized = false })
        ≡ record { queue = some q; initialized = true }
      → Reach base command_size q [] q' held
      → (a : ℕ) → (count a held ≤ 1) × (count a held ≤ count a pool_structures)
  held_once malloc queue q q' held m pos fits e r a =
      let o =
        Reach-Owned base command_size pool_structures (initial-Owned malloc queue q m pos fits e)
          r in
      omega (arith, o.shared a, structures_once base command_size pos pool_size 0 a)

  -- From the initialised pool on, whatever threads take and give back, `Agent_ReleaseCommand` of a
  -- command that is held returns true without waiting: the send into the pool's queue finds room. The
  -- structures have a positive size and lie below 2 ^ 64, and `malloc` gives blocks of the size asked.
  pub release_succeeds :
      (malloc : ℕ → List ℕ) (queue : Option SyncQueue) (q q' : SyncQueue) (held : List ℕ)
      (command : ℕ) (xs ys : List ℕ)
      → ((n : ℕ) → length (malloc n) ≡ n)
      → 0 < command_size
      → base + pool_size * command_size ≤ 256 ^ pointer_size
      → initialize_pool base command_size malloc (record { queue = queue; initialized = false })
        ≡ record { queue = some q; initialized = true }
      → Reach base command_size q [] q' held
      → held ≡ xs ++ command ∷ ys
      → (q'' : SyncQueue) × (release_command base command_size q' command [] ≡ returned true q'')
  unfolding release_command
  release_succeeds malloc queue q q' held command xs ys m pos fits e r had =
      let o =
        Reach-Owned base command_size pool_structures (initial-Owned malloc queue q m pos fits e)
          r in
      let counts : 1 ≤ count command held =
        ground (arith, ap (count command) had, count-append command xs (command ∷ ys)) in
      let bounds =
        structures_bounds base command_size pos pool_size 0 command
          (omega (arith, o.shared command)) in
      let inside : in_pool base command_size command ≡ true = ground (arith, bounds) in
      let (q'', sent, h') =
        send_pointer pool_size q' o.free command o.holds
          (omega (arith, o.total, ap (length {A = ℕ}) had, length-append xs (command ∷ ys))) in
      (q'', rw inside sent)
