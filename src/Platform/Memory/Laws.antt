-- ===== src/Platform/Memory/Laws.antt =====
-- What is left allocated behind `free`, and behind the deletion of a queue.
use embedded_provisioning_sd.Prelude.{
  ℕ, ◌+◌, ◌<◌, ◌≤◌, ◌≡◌, refl, sym, inl, inr, true, false, some, List, [], ◌∷◌, arith, Bool-cases,
  Option-cases, ◌==◌, if◌then◌else◌, All,
}
use embedded_provisioning_sd.Platform.Memory.{
  Block, contains, Memory, Run, finished, fault, out_of_fuel, waiting, Command, and_then, skip,
  is_allocated, touch, remove_block, free, delete_queue,
}

-- A run that ends does so with `P`, if it does not fault.
abbrev pub Safe : {A : Type 0} → (A → Memory → Type 0) → Run A → Type 0
Safe P (finished a m) = P a m
Safe P fault = Unit
Safe P out_of_fuel = ⊥
Safe P waiting = ⊥

pub Safe-and_then :
    {A B : Type 0} (P : A → Memory → Type 0) (Q : B → Memory → Type 0) (r : Run A)
    (k : A → Command B)
    → Safe P r
    → ((a : A) (m : Memory) → P a m → Safe Q (k a m))
    → Safe Q (and_then r k)
Safe-and_then P Q (finished a m) k h f = f a m h
Safe-and_then P Q fault k h f = tt
Safe-and_then P Q out_of_fuel k h f = absurd h
Safe-and_then P Q waiting k h f = absurd h

-- A run that can end only with what is false is a fault.
pub Safe-fault : {A : Type 0} (r : Run A) → Safe (λ a m. ⊥) r → r ≡ fault
Safe-fault (finished a m) h = absurd h
Safe-fault fault h = refl
Safe-fault out_of_fuel h = absurd h
Safe-fault waiting h = absurd h

-- How many blocks an address lies in.
abbrev pub owners : ℕ → List Block → ℕ
owners a [] = 0
owners a (b ∷ bs) = (if contains a b then 1 else 0) + owners a bs

abbrev pub IsPositive : Block → Type 0
IsPositive b = 0 < b.size

pub is_allocated_none : (a : ℕ) (bs : List Block) → owners a bs ≡ 0 → is_allocated a bs ≡ false
is_allocated_none a [] h = refl
is_allocated_none a (b ∷ bs) h =
    let rest = is_allocated_none a bs in
    elim (Bool-cases (contains a b)) [
      | inl inside ↦ absurd (ground arith)
      | inr outside ↦ rw outside (rest (ground arith))
    ]

remove_block_lem :
    (p : ℕ) (bs bs' : List Block)
    → All IsPositive bs
    → remove_block p bs ≡ some bs'
    → All IsPositive bs' × ((a : ℕ) → owners a bs' ≤ owners a bs) × (owners p bs' < owners p bs)
unfolding remove_block
remove_block_lem p [] bs' pos e = absurd (ground arith)
remove_block_lem p (b ∷ bs) bs' pos e = elim (Bool-cases (b.start == p)) [
  | inl here ↦
      let same : bs ≡ bs' = ground arith in
      let inside : contains p b ≡ true = ground arith in
      rw (sym same, inside) (pos.1, λ a. ground arith, omega arith)
  | inr elsewhere ↦ elim (Option-cases (remove_block p bs)) [
    | inl missing ↦ absurd (ground arith)
    | inr (rest, there) ↦
        let (ps, le, lt) = remove_block_lem p bs rest pos.1 there in
        let same : b ∷ rest ≡ bs' = ground arith in
        rw (sym same) ((pos.0, ps), λ a. let l = le a in ground arith, ground arith)
  ]
]

-- Of a queue at most one block is there, and the blocks are not empty; or none of it is.
abbrev pub Held : ℕ → Memory → Type 0
Held p m = All IsPositive m.blocks × (owners p m.blocks ≤ 1)

abbrev pub Gone : ℕ → Memory → Type 0
Gone p m = All IsPositive m.blocks × (owners p m.blocks ≡ 0)

module _ (p : ℕ) where
  -- `free` of another pointer adds nothing; of the pointer itself it leaves none of it.
  pub free-Held : (a : ℕ) (m : Memory) → Held p m → Safe (λ u. Held p) (free a m)
  unfolding free
  free-Held a m h = elim (Bool-cases (a == 0)) [
    | inl null ↦ rw null h
    | inr there ↦ elim (Option-cases (remove_block a m.blocks)) [
      | inl missing ↦ rw (there, missing) tt
      | inr (bs, e) ↦
          let (ps, le, lt) = remove_block_lem a m.blocks bs h.0 e in
          rw (there, e) (ps, omega (arith, le p, h.1))
    ]
  ]

  pub free-Gone : (m : Memory) → (p == 0) ≡ false → Held p m → Safe (λ u. Gone p) (free p m)
  unfolding free
  free-Gone m there h = elim (Option-cases (remove_block p m.blocks)) [
    | inl missing ↦ rw (there, missing) tt
    | inr (bs, e) ↦
        let (ps, le, lt) = remove_block_lem p m.blocks bs h.0 e in
        rw (there, e) (ps, omega (arith, h.1))
  ]

  pub touch-Held : (a : ℕ) (m : Memory) → Held p m → Safe (λ u. Held p) (touch a m)
  unfolding touch
  touch-Held a m h = elim (Bool-cases (is_allocated a m.blocks)) [
    | inl good ↦ rw good h
    | inr bad ↦ rw bad tt
  ]

  -- An access to what is gone is a fault.
  pub touch-Gone : (m : Memory) → Gone p m → touch p m ≡ fault
  unfolding touch
  touch-Gone m h = rw (is_allocated_none p m.blocks h.1) refl

  abbrev buffer_freed : ℕ → Command (Unit {0})
  buffer_freed buffer = if buffer == 0 then skip else free buffer

  buffer_freed-Held :
      (buffer : ℕ) (m : Memory) → Held p m → Safe (λ u. Held p) (buffer_freed buffer m)
  buffer_freed-Held buffer m h = elim (Bool-cases (buffer == 0)) [
    | inl null ↦ rw null h
    | inr there ↦ rw there (free-Held buffer m h)
  ]

  pub delete_queue-Gone :
      (m : Memory) → (p == 0) ≡ false → Held p m → Safe (λ u. Gone p) (delete_queue p m)
  unfolding delete_queue
  delete_queue-Gone m there h = rw there (
      Safe-and_then (λ u. Held p) (λ u. Gone p) (touch p m) _ (touch-Held p m h)
        (λ u m₁ h₁.
          Safe-and_then (λ u. Held p) (λ u. Gone p) (buffer_freed (m₁.buffer_at p) m₁) _
            (buffer_freed-Held (m₁.buffer_at p) m₁ h₁) (λ u m₂ h₂. free-Gone m₂ there h₂)))
