-- ===== src/Prelude/Tests.antt =====
-- Boolean tests on the native numbers, and the conditional, as the C code branches.
use Prim.Native.Nat.{ℕ, ◌+◌, ◌%◌, ◌^◌, compare, Ordering}
use mathlib.Core.Path.{◌≡◌, refl}
use mathlib.Core.Logic.{◌≢◌, ◌↔◌, ◌⊎◌, inl, inr}
use mathlib.Core.Bool.{Bool, true, false}
use mathlib.Core.Option.{Option, none, some}
use native.Mathlib.Omega.{arith}

abbrev pub ltb : ℕ → ℕ → Bool
ltb a b = elim (compare a b) [ Ordering.lt ↦ true | _ ↦ false ]

abbrev pub leb : ℕ → ℕ → Bool
leb a b = elim (compare a b) [ Ordering.gt ↦ false | _ ↦ true ]

infix 50 ◌==◌
abbrev pub ◌==◌ : ℕ → ℕ → Bool
a == b = elim (compare a b) [ Ordering.eq ↦ true | _ ↦ false ]

infix 1 if◌then◌else◌
abbrev pub if◌then◌else◌ {ℓ} : {A : Type ℓ} → Bool → A → A → A
if true then x else y = x
if false then x else y = y

pub ==_iff : (a b : ℕ) → ((a == b) ≡ true) ↔ (a ≡ b)
==_iff a b = ground arith

pub ==_of_ne : (a b : ℕ) → a ≢ b → (a == b) ≡ false
==_of_ne a b h = ground arith

pub ==_refl : (a : ℕ) → (a == a) ≡ true
==_refl a = ground arith

pub Bool-cases : (b : Bool) → (b ≡ true) ⊎ (b ≡ false)
Bool-cases true = inl refl
Bool-cases false = inr refl

pub Option-cases {ℓ} : {A : Type ℓ} (o : Option A) → (o ≡ none) ⊎ ((a : A) × (o ≡ some a))
Option-cases none = inl refl
Option-cases (some a) = inr (a, refl)

-- `uint32_t` addition.
abbrev pub add_u32 : ℕ → ℕ → ℕ
add_u32 a b = (a + b) % 2 ^ 32

-- A chain of calls that succeeds has passed its test.
pub if_then_true {ℓ} :
    {A : Type ℓ} (b : Bool) (x : Bool × A) (a : A)
    → (if b then x else (false, a)).0 ≡ true
    → (b ≡ true) × (x.0 ≡ true)
if_then_true true x a h = (refl, h)
if_then_true false x a h = absurd (ground arith)
