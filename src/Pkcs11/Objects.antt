-- ===== src/Pkcs11/Objects.antt =====
-- pkcs11_operations.c: `destroyProvidedObjects`, `pkcs11CloseSession`, and the pattern
-- `if( result == CKR_OK ) { result = ...; }`.
pub mod Laws
use embedded_provisioning_sd.Prelude.{
  ℕ, zero, suc, Bool, true, false, not, ◌&&◌, Option, none, some, List, [], ◌∷◌, ◌==◌,
  if◌then◌else◌,
}
use embedded_provisioning_sd.Pkcs11.Module.{Module, ckr_ok, ckr_host_memory, invalid_handle}

abbrev pub is_ok : ℕ → Bool
is_ok rv = rv == ckr_ok

-- A call behind another that gave CKR_OK.
abbrev pub on_ok : {W : Type 0} → ℕ × W → (W → ℕ × W) → ℕ × W
on_ok r call = if is_ok r.0 then call r.1 else r

-- A call that says whether it succeeded, with the code for its failure.
abbrev pub or_code : {W : Type 0} → ℕ → Bool × W → ℕ × W
or_code rv r = (if r.0 then ckr_ok else rv, r.1)

-- The function list, and behind it a buffer of a size.
unfoldable pub prepare : {W : Type 0} → Module W → ℕ → W → ℕ × W
prepare p11 size w =
    on_ok (p11.get_function_list w) (λ w'. or_code ckr_host_memory (p11.allocate size w'))

module _ {W : Type 0} (p11 : Module W) (session : ℕ) where
  -- The `while` loop over the objects of a label and a class, with the result and the handle of the last
  -- search; `none` if the fuel does not reach its end.
  unfoldable pub destroy_loop : List ℕ → ℕ → ℕ → ℕ → ℕ → W → Option (ℕ × ℕ × W)
  destroy_loop label class zero rv handle w = none
  destroy_loop label class (suc fuel) rv handle w =
      elim (is_ok rv && not (handle == invalid_handle)) [
        | false ↦ some (rv, handle, w)
        | true ↦
            let (destroyed, w₁) = p11.destroy_object session handle w in
            elim (is_ok destroyed) [
              | false ↦ some (destroyed, handle, w₁)
              | true ↦
                  let (found, handle', w₂) = p11.find_object session label class handle w₁ in
                  destroy_loop label class fuel found handle' w₂
            ]
      ]

  -- One round of the `for` loop.
  unfoldable pub destroy_label : ℕ → List ℕ → ℕ → ℕ → W → Option (ℕ × ℕ × W)
  destroy_label fuel label class handle w =
      let (found, handle', w₁) = p11.find_object session label class handle w in
      destroy_loop label class fuel found handle' w₁

  unfoldable pub destroy_labels : ℕ → List (List ℕ × ℕ) → ℕ → ℕ → W → Option (ℕ × W)
  destroy_labels fuel [] rv handle w = some (rv, w)
  destroy_labels fuel ((label, class) ∷ labels) rv handle w =
      elim (destroy_label fuel label class handle w) [
        | none ↦ none
        | some (rv', handle', w') ↦ destroy_labels fuel labels rv' handle' w'
      ]

  -- `destroyProvidedObjects`; `handle` is what the variable `objectHandle` holds at first.
  unfoldable pub destroy_provided_objects : ℕ → List (List ℕ × ℕ) → ℕ → W → Option (ℕ × W)
  destroy_provided_objects fuel labels handle w =
      let (rv, w₁) = p11.get_function_list w in
      if is_ok rv then destroy_labels fuel labels rv handle w₁ else some (rv, w₁)

  -- `pkcs11CloseSession`
  unfoldable pub pkcs11_close_session : W → Bool × W
  pkcs11_close_session w =
      let (rv, w') =
        on_ok (on_ok (p11.get_function_list w) (p11.close_session session)) p11.finalize in
      (is_ok rv, w')
