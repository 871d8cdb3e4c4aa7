-- ===== src/Pkcs11/Objects/Laws.antt =====
-- The loops that destroy objects: they end, and what they leave.
use embedded_provisioning_sd.Prelude.{
  ℕ, zero, suc, ◌<◌, ◌≤◌, ◌≡◌, refl, sym, ap, subst, ◌∙◌, inl, inr, not, ◌&&◌, Option, some, List,
  [], ◌∷◌, arith, Bool-cases, ◌==◌, ==_iff,
}
use embedded_provisioning_sd.Pkcs11.Module.{Module, Attribute, invalid_handle}
use embedded_provisioning_sd.Pkcs11.Objects.{
  is_ok, prepare, destroy_loop, destroy_label, destroy_labels, destroy_provided_objects,
}

module _ {W T : Type 0} (p11 : Module W) (token : W → T) (objects : T → ℕ)
    (matching : List ℕ → ℕ → T → ℕ) where
  -- The documented behaviour of the token: searches and allocations leave it as it is, a search that
  -- gives no handle says that no object has the label and the class, creating an object adds one at
  -- most, and destroying one adds none and takes it away where it gives CKR_OK.
  pub record IsToken : Type 0 where
    pub functions_keep : (w : W) → token (p11.get_function_list w).1 ≡ token w
    pub allocate_keeps : (n : ℕ) (w : W) → token (p11.allocate n w).1 ≡ token w
    pub find_keeps :
        (session : ℕ) (label : List ℕ) (class handle : ℕ) (w : W)
        → token (p11.find_object session label class handle w).2 ≡ token w
    pub find_none :
        (session : ℕ) (label : List ℕ) (class handle : ℕ) (w : W)
        → (p11.find_object session label class handle w).0 ≡ 0
        → (p11.find_object session label class handle w).1 ≡ 0
        → matching label class (token w) ≡ 0
    pub destroy_lowers :
        (session handle : ℕ) (w : W)
        → (p11.destroy_object session handle w).0 ≡ 0
        → objects (token (p11.destroy_object session handle w).1) < objects (token w)
    pub create_adds_one :
        (session : ℕ) (template : List Attribute) (w : W)
        → objects (token (p11.create_object session template w).1) ≤ suc (objects (token w))
    pub destroy_adds_none :
        (session handle : ℕ) (w : W)
        → objects (token (p11.destroy_object session handle w).1) ≤ objects (token w)

  -- What comes before the work leaves the token, whatever it gives.
  pub prepare_keeps : IsToken → (n : ℕ) (w : W) → token (prepare p11 n w).1 ≡ token w
  unfolding prepare
  prepare_keeps laws n w = elim (Bool-cases (is_ok (p11.get_function_list w).0)) [
    | inl ok ↦
        rw (prepare, ok) (laws.allocate_keeps n (p11.get_function_list w).1 ∙ laws.functions_keep w)
    | inr bad ↦ rw (prepare, bad) (laws.functions_keep w)
  ]

  module _ (session : ℕ) (laws : IsToken) where
    -- A call ends, leaves no more objects than there were, and no object of the label and the class where
    -- it gives CKR_OK.
    abbrev pub Clears : List ℕ → ℕ → W → Option (ℕ × ℕ × W) → Type 0
    Clears label class w o =
        (r : ℕ × ℕ × W) × (o ≡ some r)
        × (objects (token r.2) ≤ objects (token w))
        × ((r.0 ≡ 0) → matching label class (token r.2) ≡ 0)

    destroy_label-Clears :
        (fuel : ℕ) (label : List ℕ) (class handle : ℕ) (w : W)
        → objects (token w) < fuel
        → Clears label class w (destroy_label p11 session fuel label class handle w)
    unfolding destroy_label destroy_loop
    destroy_label-Clears zero label class handle w enough = absurd (omega arith)
    destroy_label-Clears (suc fuel) label class handle w enough =
        let (found, handle', w₁) = p11.find_object session label class handle w in
        let (destroyed, w₂) = p11.destroy_object session handle' w₁ in
        let same = ap objects (laws.find_keeps session label class handle w) in
        let adds_none = laws.destroy_adds_none session handle' w₁ in
        elim (Bool-cases (is_ok found && not (handle' == invalid_handle))) [
          | inr over ↦
              rw (destroy_label, destroy_loop, over)
                (
                  (found, handle', w₁),
                  refl,
                  omega arith,
                  λ e.
                      ap (matching label class) (laws.find_keeps session label class handle w)
                      ∙ laws.find_none session label class handle w e (ground arith),
                )
          | inl on ↦ elim (Bool-cases (is_ok destroyed)) [
            | inr failed ↦
                rw (destroy_label, destroy_loop, on, failed)
                  ((destroyed, handle', w₂), refl, omega arith, λ e. absurd (ground arith))
            | inl gone ↦
                let (r, e, l, m) = destroy_label-Clears fuel label class handle' w₂ (
                  omega (
                    arith,
                    laws.destroy_lowers session handle' w₁ ((==_iff destroyed 0).0 gone),
                  )) in
                rw (destroy_label, destroy_loop, on, gone) (r, e, omega arith, m)
          ]
        ]

    destroy_labels_end :
        (fuel : ℕ) (labels : List (List ℕ × ℕ)) (rv handle : ℕ) (w : W)
        → objects (token w) < fuel
        → (r : ℕ × W) × (destroy_labels p11 session fuel labels rv handle w ≡ some r)
          × (objects (token r.1) ≤ objects (token w))
    unfolding destroy_labels
    destroy_labels_end fuel [] rv handle w enough = ((rv, w), refl, omega arith)
    destroy_labels_end fuel ((label, class) ∷ labels) rv handle w enough =
        let ((rv', handle', w'), e, l, m) = destroy_label-Clears fuel label class handle w enough in
        let (r, e', l') = destroy_labels_end fuel labels rv' handle' w' (omega arith) in
        rw (destroy_labels, e) (r, e', omega arith)

    destroy_labels-one :
        (fuel : ℕ) (label : List ℕ) (class rv handle : ℕ) (w : W) (r : ℕ × ℕ × W)
        → destroy_label p11 session fuel label class handle w ≡ some r
        → destroy_labels p11 session fuel ((label, class) ∷ []) rv handle w ≡ some (r.0, r.2)
    unfolding destroy_labels
    destroy_labels-one fuel label class rv handle w r e = rw (destroy_labels, e) refl

    -- Where the token behaves as documented and the fuel is more than its objects, `destroyProvidedObjects`
    -- ends and adds no object. Given one label and class, it leaves no object with them where it gives
    -- CKR_OK.
    pub destroy_provided_objects_lem :
        (fuel handle : ℕ) (labels : List (List ℕ × ℕ)) (w : W)
        → objects (token w) < fuel
        → (r : ℕ × W) × (destroy_provided_objects p11 session fuel labels handle w ≡ some r)
          × (objects (token r.1) ≤ objects (token w))
          × ((label : List ℕ) (class : ℕ)
              → labels ≡ (label, class) ∷ []
              → r.0 ≡ 0
              → matching label class (token r.1) ≡ 0)
    unfolding destroy_provided_objects
    destroy_provided_objects_lem fuel handle labels w enough =
        let (rv, w₁) = p11.get_function_list w in
        let same = ap objects (laws.functions_keep w) in
        elim (Bool-cases (is_ok rv)) [
          | inr bad ↦
              rw (destroy_provided_objects, bad)
                ((rv, w₁), refl, omega arith, λ label class one e. absurd (ground arith))
          | inl ok ↦
              let (r, e, l) = destroy_labels_end fuel labels rv handle w₁ (omega arith) in
              rw (destroy_provided_objects, ok)
                (
                  r,
                  e,
                  omega arith,
                  λ label class one ok'.
                      let (r', e', l', m) =
                        destroy_label-Clears fuel label class handle w₁ (omega arith) in
                      let one_round = destroy_labels-one fuel label class rv handle w₁ r' e' in
                      let same_r : r ≡ (r'.0, r'.2) = cc (e, one, one_round) in
                      subst (λ t. matching label class (token t.1) ≡ 0) (sym same_r)
                        (m (sym (ap (λ t. t.0) same_r) ∙ ok')),
                )
        ]
