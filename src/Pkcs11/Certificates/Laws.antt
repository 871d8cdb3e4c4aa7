-- ===== src/Pkcs11/Certificates/Laws.antt =====
-- What `provisionCertificate` does to the token.
use embedded_provisioning_sd.Prelude.{
  ℕ, ◌<◌, ◌≤◌, ◌≡◌, ◌≢◌, refl, ap, ◌⊎◌, inl, inr, true, false, some, List, [], ◌∷◌, arith,
  Bool-cases,
}
use embedded_provisioning_sd.Pkcs11.Module.{Module, cko_certificate, ckr_arguments_bad}
use embedded_provisioning_sd.Pkcs11.Objects.{is_ok, prepare, destroy_provided_objects}
use embedded_provisioning_sd.Pkcs11.Objects.Laws.{
  IsToken, prepare_keeps, destroy_provided_objects_lem,
}
use embedded_provisioning_sd.Pkcs11.Certificates.{
  PemToDer, certificate_template, replace_certificate, provision_certificate,
}

module _ {W T : Type 0} (p11 : Module W) (token : W → T) (objects : T → ℕ)
    (matching : List ℕ → ℕ → T → ℕ) (pem_to_der : PemToDer) (session : ℕ)
    (laws : IsToken p11 token objects matching) where
  -- An error behind which the token is as it was: what comes before the conversion failed, or the text
  -- could not be converted.
  abbrev Refused : List ℕ → ℕ → W → ℕ × W → Type 0
  Refused text len w r =
      (r.0 ≢ 0)
      × (token r.1 ≡ token w)
      × (((prepare p11 len w).0 ≢ 0) ⊎ ((pem_to_der text len len).0 ≡ false))

  -- `v` is what `destroyProvidedObjects` gave for the label, and `r` what the creation of the converted
  -- object gave behind it.
  abbrev Replaced : ℕ → List ℕ → ℕ → List ℕ → ℕ → W → ℕ × W → ℕ × W → Type 0
  Replaced fuel text len name handle w v r =
      ((pem_to_der text len len).0 ≡ true)
      × (destroy_provided_objects p11 session fuel ((name, cko_certificate) ∷ []) handle
            (prepare p11 len w).1
          ≡ some v)
      × (objects (token v.1) ≤ objects (token w))
      × ((v.0 ≡ 0) → matching name cko_certificate (token v.1) ≡ 0)
      × (r
          ≡ p11.create_object session
              (certificate_template name (pem_to_der text len len).1 (pem_to_der text len len).2)
              v.1)

  abbrev pub Provisions : ℕ → List ℕ → ℕ → List ℕ → ℕ → W → ℕ × W → Type 0
  Provisions fuel text len name handle w r =
      Refused text len w r ⊎ ((v : ℕ × W) × Replaced fuel text len name handle w v r)

  -- Where the token behaves as documented and the fuel is more than its objects, `provisionCertificate`
  -- ends. It fails with the token as it was, and then only because the function list, the memory or the
  -- conversion to DER failed; or the text was converted, `destroyProvidedObjects` ran for the label and
  -- added no object, it left no certificate of that label if it gave CKR_OK, and the result and the token
  -- are those of creating the converted certificate in the token that it left.
  pub provision_certificate_lem :
      (fuel : ℕ) (text : List ℕ) (len : ℕ) (name : List ℕ) (handle : ℕ) (w : W)
      → objects (token w) < fuel
      → (r : ℕ × W) × (provision_certificate p11 pem_to_der session fuel
            (some text)
            len
            name
            handle
            w
          ≡ some r)
        × Provisions fuel text len name handle w r
  unfolding provision_certificate replace_certificate
  provision_certificate_lem fuel text len name handle w enough =
      let (rv, w₁) = prepare p11 len w in
      let same = prepare_keeps p11 token objects matching laws len w in
      let (converted, der, der_length) = pem_to_der text len len in
      elim (Bool-cases (is_ok rv)) [
        | inr bad ↦
            rw (provision_certificate, bad)
              ((rv, w₁), refl, inl (ground arith, same, inl (ground arith)))
        | inl ok ↦ elim (Bool-cases converted) [
          | inr no_der ↦
              rw (provision_certificate, ok, no_der)
                ((ckr_arguments_bad, w₁), refl, inl (ground arith, same, inr refl))
          | inl there ↦
              let (v, e, l, m) =
                destroy_provided_objects_lem p11 token objects matching session laws fuel handle
                  ((name, cko_certificate) ∷ []) w₁ (omega (arith, ap objects same)) in
              rw (provision_certificate, replace_certificate, ok, there, e)
                (
                  p11.create_object session (certificate_template name der der_length) v.1,
                  refl,
                  inr (
                    v,
                    (refl, refl, omega (arith, ap objects same), m name cko_certificate refl, refl),
                  ),
                )
        ]
      ]
