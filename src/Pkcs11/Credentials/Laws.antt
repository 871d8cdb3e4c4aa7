-- ===== src/Pkcs11/Credentials/Laws.antt =====
-- What `loadClaimCredentials` does to the token.
use embedded_provisioning_sd.Prelude.{
  ℕ, suc, ◌+◌, ◌<◌, ◌≤◌, ◌≡◌, refl, sym, ap, ◌∙◌, ◌⊎◌, inl, inr, Bool, true, false, Option, some,
  List, arith, Bool-cases, replicate, ==_iff,
}
use embedded_provisioning_sd.Pkcs11.Module.{Module, Attribute}
use embedded_provisioning_sd.Pkcs11.Files.{Stdio, Read, read_file}
use embedded_provisioning_sd.Pkcs11.Files.Keeps.{LeavesToken, read_file_keeps}
use embedded_provisioning_sd.Pkcs11.Objects.{is_ok}
use embedded_provisioning_sd.Pkcs11.Objects.Laws.{IsToken}
use embedded_provisioning_sd.Pkcs11.Keys.{KeyParser, provision_private_key}
use embedded_provisioning_sd.Pkcs11.Keys.Laws.{IsTemplate, provision_private_key_lem}
use embedded_provisioning_sd.Pkcs11.Certificates.{
  PemToDer, certificate_template, provision_certificate,
}
use embedded_provisioning_sd.Pkcs11.Certificates.Laws.{provision_certificate_lem}
use embedded_provisioning_sd.Pkcs11.Credentials.{
  claim_cert_buffer_length, claim_private_key_buffer_length, load_claim_credentials,
}

module _ {W T K : Type 0} (p11 : Module W) (token : W → T) (objects : T → ℕ)
    (matching : List ℕ → ℕ → T → ℕ) (keys : KeyParser K) (pem_to_der : PemToDer)
    (laws : IsToken p11 token objects matching) where
  -- A text was parsed as a key, and an object with its attributes created in the token of a state.
  abbrev pub CreatesKey : ℕ → List ℕ → ℕ → List ℕ → W → W → Type 0
  CreatesKey session text len name w w' =
      ((keys.parse_key text len).0 ≡ true)
      × ((template : List Attribute) × (v : W) × (IsTemplate keys name (keys.parse_key text len).1
              template
            × (token v ≡ token w)
            × (p11.create_object session template v ≡ (0, w'))))

  -- A text was converted to a certificate, and an object with it created in a token that has no more
  -- objects than that of a state.
  abbrev pub CreatesCertificate : ℕ → List ℕ → ℕ → List ℕ → W → W → Type 0
  CreatesCertificate session text len name w w' =
      let (converted, der, der_length) = pem_to_der text len len in
      (converted ≡ true)
      × ((v : W) × (objects (token v) ≤ objects (token w))
          × (p11.create_object session (certificate_template name der der_length) v ≡ (0, w')))

  pub provision_private_key-Creates :
      (session : ℕ) (text : List ℕ) (len : ℕ) (name : List ℕ) (w : W)
      → let r = provision_private_key p11 keys session text len name w in
        (r.0 ≡ 0 → CreatesKey session text len name w r.1)
        × (objects (token r.1) ≤ suc (objects (token w)))
  provision_private_key-Creates session text len name w =
      let r = provision_private_key p11 keys session text len name w in
      elim (provision_private_key_lem p11 token objects matching keys session laws text len name
        w) [
          | inl (bad, same) ↦ (λ e. absurd (bad e), omega (arith, ap objects same))
          | inr (parsed, inl (bad, same)) ↦ (λ e. absurd (bad e), omega (arith, ap objects same))
          | inr (parsed, inr (v, template, same, is_template, created)) ↦ (
            λ e. (parsed, (template, v, (is_template, same, sym created ∙ ap (λ t. (t, r.1)) e))),
            omega (
              arith,
              laws.create_adds_one session template v,
              ap objects same,
              ap (λ t. objects (token t.1)) created,
            ),
          )
        ]

  pub provision_certificate-Creates :
      (session fuel : ℕ) (text : List ℕ) (len : ℕ) (name : List ℕ) (handle : ℕ) (w : W)
      → objects (token w) < fuel
      → (r : ℕ × W) × (provision_certificate p11 pem_to_der session fuel
            (some text)
            len
            name
            handle
            w
          ≡ some r)
        × (r.0 ≡ 0 → CreatesCertificate session text len name w r.1)
  provision_certificate-Creates session fuel text len name handle w enough =
      let (r, e, h) =
        provision_certificate_lem p11 token objects matching pem_to_der session laws fuel text len
          name handle w enough in
      (
        r,
        e,
        λ ok. elim h [
          | inl (bad, same, why) ↦ absurd (bad ok)
          | inr (v, (converted, destroyed, fewer, cleared, created)) ↦
              (converted, (v.1, fewer, sym created ∙ ap (λ t. (t, r.1)) ok))
        ],
      )

  module _ (io : Stdio W) (files : LeavesToken io token) where
    -- The two files, as `loadClaimCredentials` reads them.
    abbrev pub read_cert : List ℕ → W → Read × W
    read_cert path w =
        read_file io path (replicate claim_cert_buffer_length 0) claim_cert_buffer_length 0 w

    abbrev pub read_key : List ℕ → W → Read × W
    read_key path w =
        read_file io path (replicate claim_private_key_buffer_length 0)
          claim_private_key_buffer_length 0 w

    -- The ends of `loadClaimCredentials`.
    abbrev pub Loads : ℕ → List ℕ → List ℕ → List ℕ → List ℕ → W → Option (Bool × W) → Type 0
    Loads session cert_path cert_label key_path key_label w o =
        let (cert, w₁) = read_cert cert_path w in
        let (key, w₂) = read_key key_path w₁ in
        (r : Bool × W) × (o ≡ some r)
        × ((r.0 ≡ true)
            → (cert.status ≡ true)
              × (key.status ≡ true)
              × ((v : W) × CreatesKey session key.buffer (key.written + 1) key_label w v
                  × CreatesCertificate session cert.buffer (cert.written + 1) cert_label v r.1))
        × ((cert.status ≡ false) ⊎ (key.status ≡ false) → (r.0 ≡ false) × (token r.1 ≡ token w))

    -- Where the token and the files behave as documented and the fuel is more than the objects of the token
    -- and one, `loadClaimCredentials` ends. It succeeds only if both files are read, an object is created
    -- for the key in the one, and behind it one for the certificate in the other. Where a file cannot be
    -- read, it fails and the token is as it was.
    pub load_claim_credentials_lem :
        (session fuel handle : ℕ) (cert_path cert_label key_path key_label : List ℕ) (w : W)
        → suc (objects (token w)) < fuel
        → Loads session cert_path cert_label key_path key_label w (
            load_claim_credentials p11 keys pem_to_der session fuel handle io cert_path cert_label
              key_path key_label w)
    unfolding load_claim_credentials
    load_claim_credentials_lem session fuel handle cert_path cert_label key_path key_label w
          enough =
        let (cert, w₁) = read_cert cert_path w in
        let (key, w₂) = read_key key_path w₁ in
        let same₁ =
          read_file_keeps io token files cert_path (replicate claim_cert_buffer_length 0)
            claim_cert_buffer_length 0 w in
        let same₂ =
          read_file_keeps io token files key_path (replicate claim_private_key_buffer_length 0)
            claim_private_key_buffer_length 0 w₁
          ∙ same₁ in
        elim (Bool-cases cert.status) [
          | inr no_cert ↦
              rw (load_claim_credentials, no_cert)
                ((false, w₁), refl, λ h. absurd (ground arith), λ h. (refl, same₁))
          | inl has_cert ↦ elim (Bool-cases key.status) [
            | inr no_key ↦
                rw (load_claim_credentials, has_cert, no_key)
                  ((false, w₂), refl, λ h. absurd (ground arith), λ h. (refl, same₂))
            | inl has_key ↦
                let (rv, w₃) =
                  provision_private_key p11 keys session key.buffer (key.written + 1) key_label
                    w₂ in
                let (made, fewer) =
                  provision_private_key-Creates session key.buffer (key.written + 1) key_label w₂ in
                elim (Bool-cases (is_ok rv)) [
                  | inr refused ↦ (
                    (false, w₃),
                    simp (load_claim_credentials, has_cert, has_key, refused),
                    λ h. absurd (ground arith),
                    λ h. absurd (ground arith),
                  )
                  | inl stored ↦
                      let (r, e, made') =
                        provision_certificate-Creates session fuel cert.buffer (cert.written + 1)
                          cert_label handle w₃ (omega (arith, ap objects same₂)) in
                      let (parsed, (template, v, (is_template, same, created))) =
                        made ((==_iff rv 0).0 stored) in
                      (
                        (is_ok r.0, r.1),
                        simp (load_claim_credentials, has_cert, has_key, stored, e),
                        λ h. (
                          has_cert,
                          has_key,
                          (
                            w₃,
                            (parsed, (template, v, (is_template, same ∙ same₂, created))),
                            made' ((==_iff r.0 0).0 h),
                          ),
                        ),
                        λ h. absurd (ground arith),
                      )
                ]
          ]
        ]
