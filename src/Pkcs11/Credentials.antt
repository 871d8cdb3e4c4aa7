-- ===== src/Pkcs11/Credentials.antt =====
-- pkcs11_operations.c: `loadClaimCredentials`, `loadCertificate` and `loadPrivateKey`.
pub mod Laws
use embedded_provisioning_sd.Prelude.{
  ℕ, ◌+◌, Bool, true, false, Option, none, some, List, if◌then◌else◌, replicate,
}
use embedded_provisioning_sd.Pkcs11.Module.{Module}
use embedded_provisioning_sd.Pkcs11.Files.{Stdio, Read, read_file}
use embedded_provisioning_sd.Pkcs11.Objects.{is_ok}
use embedded_provisioning_sd.Pkcs11.Keys.{KeyParser, provision_private_key}
use embedded_provisioning_sd.Pkcs11.Certificates.{PemToDer, provision_certificate}

-- CLAIM_CERT_BUFFER_LENGTH and CLAIM_PRIVATE_KEY_BUFFER_LENGTH
abbrev pub claim_cert_buffer_length : ℕ
claim_cert_buffer_length = 2048

abbrev pub claim_private_key_buffer_length : ℕ
claim_private_key_buffer_length = 2048

module _ {W K : Type 0} (p11 : Module W) (keys : KeyParser K) (pem_to_der : PemToDer) (session : ℕ)
    (fuel handle : ℕ) where
  -- `loadCertificate`, with the terminator counted in the length.
  unfoldable pub load_certificate : List ℕ → ℕ → List ℕ → W → Option (Bool × W)
  load_certificate text len name w =
      elim (provision_certificate p11 pem_to_der session fuel (some text) (len + 1) name handle w) [
        | none ↦ none
        | some (rv, w') ↦ some (is_ok rv, w')
      ]

  -- `loadPrivateKey`
  unfoldable pub load_private_key : List ℕ → ℕ → List ℕ → W → Bool × W
  load_private_key text len name w =
      let (rv, w') = provision_private_key p11 keys session text (len + 1) name w in (is_ok rv, w')

  module _ (io : Stdio W) where
    -- `loadClaimCredentials`
    unfoldable pub load_claim_credentials :
        List ℕ → List ℕ → List ℕ → List ℕ → W → Option (Bool × W)
    load_claim_credentials cert_path cert_label key_path key_label w =
        let (cert, w₁) =
          read_file io cert_path (replicate claim_cert_buffer_length 0) claim_cert_buffer_length 0
            w in
        if cert.status
        then (let (key, w₂) =
              read_file io key_path (replicate claim_private_key_buffer_length 0)
                claim_private_key_buffer_length 0 w₁ in
            if key.status
            then (let (rv, w₃) =
                  provision_private_key p11 keys session key.buffer (key.written + 1) key_label
                    w₂ in
                if is_ok rv
                then (elim (provision_certificate p11 pem_to_der session fuel (some cert.buffer)
                    (cert.written + 1) cert_label handle w₃) [
                      | none ↦ none
                      | some (rv', w₄) ↦ some (is_ok rv', w₄)
                    ])
                else some (false, w₃))
            else some (false, w₂))
        else some (false, w₁)
