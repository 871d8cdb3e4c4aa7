-- ===== src/Provisioning/Token.antt =====
-- The provisioning flow over pkcs11_operations.c: what it stores in the token.
use embedded_provisioning_sd.Prelude.{
  ℕ, suc, ◌+◌, ◌<◌, ◌≡◌, refl, Bool, true, false, Option, none, some, List, [], ◌∷◌, arith, inl,
  inr, Bool-cases, ==_iff,
}
use embedded_provisioning_sd.Pkcs11.Module.{Module}
use embedded_provisioning_sd.Pkcs11.Objects.{is_ok}
use embedded_provisioning_sd.Pkcs11.Objects.Laws.{IsToken}
use embedded_provisioning_sd.Pkcs11.Keys.{KeyParser, provision_private_key}
use embedded_provisioning_sd.Pkcs11.Certificates.{PemToDer}
use embedded_provisioning_sd.Pkcs11.Credentials.{load_private_key, load_certificate}
use embedded_provisioning_sd.Pkcs11.Credentials.Laws.{
  CreatesKey, CreatesCertificate, provision_private_key-Creates, provision_certificate-Creates,
}
use embedded_provisioning_sd.Mqtt.Library.{Library, State, Run, done}
use embedded_provisioning_sd.Provisioning.Serializer.{CborParser, CborEncoder}
use embedded_provisioning_sd.Provisioning.Response.{App, MatchFleetTopic}
use embedded_provisioning_sd.Provisioning.Stage.{Config, KeyStore, Local, run_stages}
use embedded_provisioning_sd.Provisioning.Flow.{save_private_key, save_certificate}

abbrev settled : {W : Type 0} → W → Option (Bool × W) → Bool × W
settled w none = (false, w)
settled w (some r) = r

-- `loadPrivateKey` and `loadCertificate` as the flow calls them. A certificate for which the fuel is not
-- enough counts as not stored.
abbrev pub token_store : {W K : Type 0} → Module W → KeyParser K → PemToDer → ℕ → ℕ → ℕ → KeyStore W
token_store p11 keys pem_to_der session fuel handle = record {
  load_private_key = load_private_key p11 keys pem_to_der session fuel handle;
  load_certificate = λ text len name w.
      settled w (load_certificate p11 keys pem_to_der session fuel handle text len name w);
}

module _ {W T K B V E : Type 0} (p11 : Module W) (token : W → T) (objects : T → ℕ)
    (matching : List ℕ → ℕ → T → ℕ) (keys : KeyParser K) (pem_to_der : PemToDer)
    (laws : IsToken p11 token objects matching) (lib : Library W B) (parser : CborParser V)
    (encoder : CborEncoder E) (match_topic : MatchFleetTopic) (config : Config)
    (fuel session steps handle : ℕ) where
  abbrev store : KeyStore W
  store = token_store p11 keys pem_to_der session steps handle

  -- The two steps of the flow that store what the response brought.
  abbrev pub save_credentials : Local → State W App → Run (State W App) Local
  save_credentials = run_stages (
      save_private_key lib parser encoder store match_topic config fuel
      ∷ save_certificate lib parser encoder store match_topic config fuel
      ∷ [])

  -- What they leave in the token where they succeed: an object for the private key of the response, and
  -- behind it one for its certificate.
  abbrev pub Stores : Local → W → Local → W → Type 0
  Stores l w l' w' =
      l'.status ≡ true
      → (v : W) × CreatesKey p11 token objects matching keys pem_to_der laws session
          l.key_cert.private_key.bytes (l.key_cert.private_key.length + 1)
          config.device_credentials.key_label w v
        × CreatesCertificate p11 token objects matching keys pem_to_der laws session
            l.key_cert.certificate.bytes (l.key_cert.certificate.length + 1)
            config.device_credentials.cert_label v w'

  -- Over a token that behaves as documented, with more fuel than its objects and one, the steps of
  -- ProvisionDevicePKCS11WithFP that save the key and the certificate end, leave all but the world, and
  -- succeed only if an object was created for the key, under the device's label, and behind it one for the
  -- certificate.
  pub save_credentials-Stores :
      (l : Local) (s : State W App)
      → l.status ≡ true
      → suc (objects (token s.world)) < steps
      → (l' : Local) × (w : W) × (save_credentials l s ≡ done l' (record s { world = w }))
        × (l'.key_cert ≡ l.key_cert)
        × Stores l s.world l' w
  unfolding run_stages save_private_key save_certificate load_private_key load_certificate
  save_credentials-Stores l s begun enough =
      let k = l.key_cert.private_key in
      let c = l.key_cert.certificate in
      let (rv, w₁) =
        provision_private_key p11 keys session k.bytes (k.length + 1)
          config.device_credentials.key_label s.world in
      let (made, fewer) =
        provision_private_key-Creates p11 token objects matching keys pem_to_der laws session
          k.bytes (k.length + 1) config.device_credentials.key_label s.world in
      let (r, e, made') =
        provision_certificate-Creates p11 token objects matching keys pem_to_der laws session steps
          c.bytes (c.length + 1) config.device_credentials.cert_label handle w₁ (omega arith) in
      elim (Bool-cases (is_ok rv)) [
        | inr refused ↦ (
          record l { status = false },
          w₁,
          simp (run_stages, save_private_key, save_certificate, load_private_key, begun, refused),
          refl,
          λ h. absurd (ground arith),
        )
        | inl stored ↦ (
          record l { status = is_ok r.0 },
          r.1,
          simp (
            run_stages, save_private_key, save_certificate, load_private_key, load_certificate,
            begun, stored, e,
          ),
          refl,
          λ h. (w₁, made ((==_iff rv 0).0 stored), made' ((==_iff r.0 0).0 h)),
        )
      ]
