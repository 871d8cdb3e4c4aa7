-- ===== src/Transport/Connect/Port.antt =====
-- The string of the port.
use embedded_provisioning_sd.Prelude.{
  ℕ, zero, suc, ◌+◌, ◌-◌, ◌*◌, ◌/◌, ◌%◌, ◌^◌, ◌<◌, ◌≤◌, ◌≡◌, refl, ap, inl, inr, List, [], ◌∷◌,
  ◌++◌, arith, Bool-cases, ltb, length, take_all,
}
use native.Mathlib.Nat.{pow-suc}
use embedded_provisioning_sd.Transport.Connect.{decimal, port_string}

-- The number that a string of digits stands for, behind one already read.
abbrev pub value_from : ℕ → List ℕ → ℕ
value_from n [] = n
value_from n (c ∷ cs) = value_from (n * 10 + (c - 48)) cs

value_from-append :
    (n : ℕ) (cs : List ℕ) (c : ℕ) → value_from n (cs ++ c ∷ []) ≡ value_from n cs * 10 + (c - 48)
value_from-append n [] c = refl
value_from-append n (d ∷ cs) c = value_from-append (n * 10 + (d - 48)) cs c

length-snoc : (cs : List ℕ) (c : ℕ) → length (cs ++ c ∷ []) ≡ suc (length cs)
length-snoc [] c = refl
length-snoc (d ∷ cs) c = ap suc (length-snoc cs c)

decimal_lem :
    (fuel n : ℕ)
    → n < 10 ^ (suc fuel)
    → (value_from 0 (decimal fuel n) ≡ n) × (length (decimal fuel n) ≤ suc fuel)
unfolding decimal
decimal_lem zero n h = (omega (arith, pow-suc 10 0), omega arith)
decimal_lem (suc fuel) n h =
    let (e, l) = decimal_lem fuel (n / 10) (omega (arith, pow-suc 10 (suc fuel))) in
    elim (Bool-cases (ltb n 10)) [
      | inl small ↦ rw small (omega arith, omega arith)
      | inr large ↦ rw large (
        omega (arith, e, value_from-append 0 (decimal fuel (n / 10)) (48 + n % 10)),
        omega (arith, l, length-snoc (decimal fuel (n / 10)) (48 + n % 10)),
      )
    ]

-- The string of a port is short enough for its buffer of six bytes with the terminator, and stands for
-- the port.
pub port_string_lem :
    (port : ℕ)
    → port < 2 ^ 16
    → (length (port_string port) < 6) × (value_from 0 (port_string port) ≡ port)
unfolding port_string
port_string_lem port h =
    let (e, l) = decimal_lem 4 port (omega arith) in
    rw (take_all 5 (decimal 4 port) l) (omega arith, e)
