-- ===== src/Provisioning/Stage/Guarded.antt =====
-- Parts of a body under `if( status == true )`: behind a failure they do nothing.
use embedded_provisioning_sd.Prelude.{
  ◌≡◌, refl, ℕ, zero, suc, Bool, false, List, [], ◌∷◌, ◌++◌, take, All,
}
use embedded_provisioning_sd.Mqtt.Library.{Run, done, aborted, unfinished}
use embedded_provisioning_sd.Provisioning.Stage.{Local, Stage, guarded, run_stages}

-- A part of the body that does nothing once `status` is false.
abbrev pub IsGuarded : {S : Type 0} → Stage S → Type 0
IsGuarded {S} stage = (l : Local) (s : S) → l.status ≡ false → stage l s ≡ done l s

pub guarded-IsGuarded : {S : Type 0} (call : S → Run S Bool) → IsGuarded (guarded call)
guarded-IsGuarded call l s failed = simp failed

-- Guarded parts, then others: behind a failure only the others run.
run_stages-skip :
    {S : Type 0} (stages rest : List (Stage S)) (l : Local) (s : S)
    → All IsGuarded stages
    → l.status ≡ false
    → run_stages (stages ++ rest) l s ≡ run_stages rest l s
unfolding run_stages
run_stages-skip [] rest l s all failed = refl
run_stages-skip (stage ∷ stages) rest l s (first, all) failed =
    rw (first l s failed) (run_stages-skip stages rest l s all failed)

-- Two continuations of a call that ended.
elim-done :
    {S A B : Type 0} (r : Run S A) (f g : A → S → Run S B) (b : B) (t : S) (goal : Run S B)
    → elim r [ done a s ↦ f a s | aborted ↦ aborted | unfinished ↦ unfinished ] ≡ done b t
    → ((a : A) (s : S) → f a s ≡ done b t → g a s ≡ goal)
    → elim r [ done a s ↦ g a s | aborted ↦ aborted | unfinished ↦ unfinished ] ≡ goal
elim-done (done a s) f g b t goal e k = k a s e
elim-done aborted f g b t goal e k = cc
elim-done unfinished f g b t goal e k = cc

pub run_stages-step :
    {S : Type 0} (stage : Stage S) (stages : List (Stage S)) (l l' : Local) (s s' : S)
    → stage l s ≡ done l' s'
    → run_stages (stage ∷ stages) l s ≡ run_stages stages l' s'
unfolding run_stages
run_stages-step stage stages l l' s s' ends = rw ends refl

-- The same where a prefix of the guarded parts ends in a failure.
pub run_stages-fails :
    {S : Type 0} (stages rest : List (Stage S)) (n : ℕ) (l l' : Local) (s s' : S)
    → All IsGuarded stages
    → run_stages (take n stages) l s ≡ done l' s'
    → l'.status ≡ false
    → run_stages (stages ++ rest) l s ≡ run_stages rest l' s'
unfolding run_stages
run_stages-fails [] rest zero l l' s s' all ends failed = cc
run_stages-fails [] rest (suc n) l l' s s' all ends failed = cc
run_stages-fails (stage ∷ stages) rest zero l l' s s' all ends failed =
    let e : l ≡ l' = cc in
    let e' : s ≡ s' = cc in simp (e, e') (run_stages-skip (stage ∷ stages) rest l' s' all failed)
run_stages-fails (stage ∷ stages) rest (suc n) l l' s s' (first, all) ends failed =
    elim-done (stage l s) (run_stages (take n stages)) (run_stages (stages ++ rest)) l' s'
      (run_stages rest l' s') ends (λ a t e. run_stages-fails stages rest n a l' t s' all e failed)
