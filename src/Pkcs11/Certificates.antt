-- ===== src/Pkcs11/Certificates.antt =====
-- pkcs11_operations.c: `provisionCertificate`.
pub mod Laws
use embedded_provisioning_sd.Prelude.{
  ℕ, Bool, true, false, Option, none, some, List, [], ◌∷◌, ◌==◌, if◌then◌else◌, length,
}
use embedded_provisioning_sd.Pkcs11.Module.{
  Module, ckr_ok, ckr_host_memory, ckr_arguments_bad, ckr_attribute_value_invalid, cko_certificate,
  AttributeType, class, certificate_type, label, subject, token, value, AttributeValue, number,
  flag, bytes, Attribute,
}
use embedded_provisioning_sd.Pkcs11.Objects.{is_ok, prepare, destroy_provided_objects}

-- `convert_pem_to_der` of a text and its length into a buffer of a size: whether it gave 0, and the
-- object and its length.
abbrev pub PemToDer : Type 0
PemToDer = List ℕ → ℕ → ℕ → Bool × List ℕ × ℕ

-- CKC_X_509
abbrev pub ckc_x_509 : ℕ
ckc_x_509 = 0

-- "TestSubject"
abbrev pub test_subject : List ℕ
test_subject = 84 ∷ 101 ∷ 115 ∷ 116 ∷ 83 ∷ 117 ∷ 98 ∷ 106 ∷ 101 ∷ 99 ∷ 116 ∷ []

abbrev attribute : AttributeType → AttributeValue → Attribute
attribute t v = record { type = t; value = v }

-- `PKCS11_CertificateTemplate_t`, in the order of its fields.
abbrev pub certificate_template : List ℕ → List ℕ → ℕ → List Attribute
certificate_template name der len =
    attribute class (number cko_certificate)
    ∷ attribute subject (bytes test_subject (length test_subject))
    ∷ attribute certificate_type (number ckc_x_509)
    ∷ attribute value (bytes der len)
    ∷ attribute label (bytes name (length name))
    ∷ attribute token (flag true)
    ∷ []

module _ {W : Type 0} (p11 : Module W) (pem_to_der : PemToDer) (session fuel : ℕ) where
  -- Behind the conversion: the old object is destroyed, whatever comes of that, and the new one created.
  unfoldable pub replace_certificate : List ℕ → ℕ → List ℕ → ℕ → W → Option (ℕ × W)
  replace_certificate der len name handle w =
      elim (destroy_provided_objects p11 session fuel ((name, cko_certificate) ∷ []) handle w) [
        | none ↦ none
        | some (destroyed, w') ↦
            some (p11.create_object session (certificate_template name der len) w')
      ]

  -- `provisionCertificate`: `none` for a NULL certificate; `handle` is what `objectHandle` in
  -- `destroyProvidedObjects` holds at first.
  unfoldable pub provision_certificate : Option (List ℕ) → ℕ → List ℕ → ℕ → W → Option (ℕ × W)
  provision_certificate none len name handle w = some (ckr_attribute_value_invalid, w)
  provision_certificate (some text) len name handle w =
      let (rv, w₁) = prepare p11 len w in
      if is_ok rv
      then (let (converted, der, der_length) = pem_to_der text len len in
          if converted
          then replace_certificate der der_length name handle w₁
          else some (ckr_arguments_bad, w₁))
      else some (rv, w₁)
