-- ===== src/Prelude/Bytes.antt =====
-- Memory as a list of bytes: `memcpy` into and out of it, and little-endian words.
use Prim.Native.Nat.{ℕ, zero, suc, ◌+◌, ◌*◌, ◌/◌, ◌%◌, ◌^◌, ◌≤◌, ◌<◌}
use mathlib.Core.Path.{◌≡◌, refl, ap}
use mathlib.Core.List.{List, [], ◌∷◌}
use native.Mathlib.Nat.{pow-suc}
use native.Mathlib.Omega.{arith}
use embedded_provisioning_sd.Prelude.Lists.{length, take, drop}

-- `memcpy( mem + at, src, length src )`; what would lie past the end of `mem` is not written.
abbrev pub copy_in : List ℕ → ℕ → List ℕ → List ℕ
copy_in [] at src = []
copy_in (b ∷ bs) (suc at) src = b ∷ copy_in bs at src
copy_in (b ∷ bs) zero [] = b ∷ bs
copy_in (b ∷ bs) zero (x ∷ xs) = x ∷ copy_in bs zero xs

-- `memcpy( dst, mem + at, n )`
abbrev pub copy_out : List ℕ → ℕ → ℕ → List ℕ
copy_out mem at n = take n (drop at mem)

pub length-copy_in :
    (mem : List ℕ) (at : ℕ) (src : List ℕ) → length (copy_in mem at src) ≡ length mem
length-copy_in [] at src = refl
length-copy_in (b ∷ bs) (suc at) src = ap suc (length-copy_in bs at src)
length-copy_in (b ∷ bs) zero [] = refl
length-copy_in (b ∷ bs) zero (x ∷ xs) = ap suc (length-copy_in bs zero xs)

-- Within the memory as many bytes are copied as asked for.
pub length-copy_out :
    (mem : List ℕ) (at n : ℕ) → at + n ≤ length mem → length (copy_out mem at n) ≡ n
length-copy_out mem zero zero h = refl
length-copy_out [] zero (suc n) h = absurd (omega arith)
length-copy_out (b ∷ bs) zero (suc n) h = ap suc (length-copy_out bs zero n (omega arith))
length-copy_out [] (suc at) zero h = refl
length-copy_out [] (suc at) (suc n) h = absurd (omega arith)
length-copy_out (b ∷ bs) (suc at) n h = length-copy_out bs at n (omega arith)

-- What was copied in is read back.
pub copy_out-copy_in_self :
    (mem : List ℕ) (at n : ℕ) (src : List ℕ)
    → length src ≡ n
    → at + n ≤ length mem
    → copy_out (copy_in mem at src) at n ≡ src
copy_out-copy_in_self [] at zero [] e h = ground arith
copy_out-copy_in_self [] at zero (x ∷ xs) e h = absurd (omega arith)
copy_out-copy_in_self [] at (suc n) src e h = absurd (omega arith)
copy_out-copy_in_self (b ∷ bs) (suc at) n src e h =
    copy_out-copy_in_self bs at n src e (omega arith)
copy_out-copy_in_self (b ∷ bs) zero zero [] e h = refl
copy_out-copy_in_self (b ∷ bs) zero zero (x ∷ xs) e h = absurd (omega arith)
copy_out-copy_in_self (b ∷ bs) zero (suc n) [] e h = absurd (omega arith)
copy_out-copy_in_self (b ∷ bs) zero (suc n) (x ∷ xs) e h =
    ap (λ t. x ∷ t) (copy_out-copy_in_self bs zero n xs (omega arith) (omega arith))

-- Bytes before the copy stay.
pub copy_out-copy_in_before :
    (mem : List ℕ) (at from n : ℕ) (src : List ℕ)
    → from + n ≤ at
    → copy_out (copy_in mem at src) from n ≡ copy_out mem from n
copy_out-copy_in_before [] at from n src h = refl
copy_out-copy_in_before (b ∷ bs) zero zero zero src h = refl
copy_out-copy_in_before (b ∷ bs) zero zero (suc n) src h = absurd (omega arith)
copy_out-copy_in_before (b ∷ bs) zero (suc from) n src h = absurd (omega arith)
copy_out-copy_in_before (b ∷ bs) (suc at) zero zero src h = refl
copy_out-copy_in_before (b ∷ bs) (suc at) zero (suc n) src h =
    ap (λ t. b ∷ t) (copy_out-copy_in_before bs at zero n src (omega arith))
copy_out-copy_in_before (b ∷ bs) (suc at) (suc from) n src h =
    copy_out-copy_in_before bs at from n src (omega arith)

-- Bytes behind the copy stay.
pub copy_out-copy_in_after :
    (mem : List ℕ) (at from n : ℕ) (src : List ℕ)
    → at + length src ≤ from
    → copy_out (copy_in mem at src) from n ≡ copy_out mem from n
copy_out-copy_in_after [] at from n src h = refl
copy_out-copy_in_after (b ∷ bs) (suc at) zero n src h = absurd (omega arith)
copy_out-copy_in_after (b ∷ bs) (suc at) (suc from) n src h =
    copy_out-copy_in_after bs at from n src (omega arith)
copy_out-copy_in_after (b ∷ bs) zero from n [] h = refl
copy_out-copy_in_after (b ∷ bs) zero zero n (x ∷ xs) h = absurd (omega arith)
copy_out-copy_in_after (b ∷ bs) zero (suc from) n (x ∷ xs) h =
    copy_out-copy_in_after bs zero from n xs (omega arith)

-- A pointer as it lies in memory: `k` bytes, the lowest first.
unfoldable pub to_bytes : ℕ → ℕ → List ℕ
to_bytes zero n = []
to_bytes (suc k) n = (n % 256) ∷ to_bytes k (n / 256)

unfoldable pub from_bytes : List ℕ → ℕ
from_bytes [] = 0
from_bytes (b ∷ bs) = b + 256 * from_bytes bs

pub length-to_bytes : (k n : ℕ) → length (to_bytes k n) ≡ k
unfolding to_bytes
length-to_bytes zero n = refl
length-to_bytes (suc k) n = ap suc (length-to_bytes k (n / 256))

pub from_bytes-to_bytes : (k n : ℕ) → n < 256 ^ k → from_bytes (to_bytes k n) ≡ n
unfolding to_bytes from_bytes
from_bytes-to_bytes zero n h = omega arith
from_bytes-to_bytes (suc k) n h =
    omega (arith, from_bytes-to_bytes k (n / 256) (omega (arith, pow-suc 256 k)))
