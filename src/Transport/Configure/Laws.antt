-- ===== src/Transport/Configure/Laws.antt =====
-- What a configuration that succeeded has set up, and what one that failed leaves.
use embedded_provisioning_sd.Prelude.{
  ℕ, ◌≡◌, refl, sym, ◌∙◌, subst, ◌⊎◌, inl, inr, Bool, true, false, arith, List, Bool-cases,
  Option-cases,
}
use embedded_provisioning_sd.Pkcs11.Module.{Module}
use embedded_provisioning_sd.Transport.Library.{
  Tls, Context, Status, Status-cases, success, is_success, Credentials, ca_chain, bio,
  invalid_credentials,
}
use embedded_provisioning_sd.Transport.Keys.{initialize_client_keys, read_certificate_into_context}
use embedded_provisioning_sd.Transport.Keys.Laws.{
  HasKey, initialize_client_keys_lem, read_certificate_into_context_lem,
}
use embedded_provisioning_sd.Transport.Configure.{
  on_success, or_status, or_credentials, context_init, freed, set_options, configure_certificates,
  configure_sni_alpn, configure_fragment_length, configure_steps, configure_mbedtls,
}

-- If the step succeeds, it leaves a context with the property.
abbrev Leaves : {W : Type 0} → (Context W → Type 0) → Status × Context W → Type 0
Leaves P r = r.0 ≡ success → P r.1

pub succeeds : (s : Status) → s ≡ success → is_success s ≡ false → ⊥
succeeds s e failed = ground arith

module _ {W : Type 0} where
  on_success-Leaves :
      (P Q : Context W → Type 0) (r : Status × Context W) (step : Context W → Status × Context W)
      → Leaves P r
      → ((c : Context W) → P c → Leaves Q (step c))
      → Leaves Q (on_success r step)
  unfolding on_success
  on_success-Leaves P Q (s, c) step h k = elim (Status-cases s) [
    | inl e ↦ rw (on_success, e) (k c (h e))
    | inr failed ↦ rw (on_success, failed) (λ e. absurd (succeeds s e failed))
  ]

  -- A property that does not depend on the world.
  abbrev Frame : (Context W → Type 0) → Type 0
  Frame P = (c : Context W) (w : W) → P c → P (record c { world = w })

  or_status-Leaves :
      (P : Context W → Type 0) (s : Status) (ctx : Context W) (r : Bool × W)
      → Frame P
      → P ctx
      → Leaves P (or_status s ctx r)
  or_status-Leaves P s ctx (b, w) frame h e = frame ctx w h

  or_credentials-Leaves :
      (P : Context W → Type 0) (r : Bool × Context W)
      → (r.0 ≡ true → P r.1)
      → Leaves P (or_credentials r)
  or_credentials-Leaves P (true, c) h e = h refl
  or_credentials-Leaves P (false, c) h e = absurd (succeeds invalid_credentials e refl)

  -- A context of a session, and one that also has its key.
  abbrev pub InSession : ℕ → Context W → Type 0
  InSession session ctx = ctx.p11_session ≡ session

  abbrev pub IsReady : ℕ → Context W → Type 0
  IsReady session ctx = (ctx.p11_session ≡ session) × HasKey ctx

  module _ (p11 : Module W) (tls : Tls W) where
    configure_certificates-IsReady :
        (root_ca_path cert_label key_label : List ℕ) (session : ℕ) (ctx : Context W)
        → InSession session ctx
        → Leaves
            (IsReady session)
            (configure_certificates p11 tls root_ca_path cert_label key_label ctx)
    unfolding configure_certificates
    configure_certificates-IsReady root_ca_path cert_label key_label session ctx h =
        let (parsed, w) = tls.parse_root_ca root_ca_path ctx.world in
        let (e, ready, same, handle) =
          initialize_client_keys_lem p11 key_label (record ctx { world = tls.set ca_chain w }) in
        on_success-Leaves (IsReady session) (IsReady session) _ _
          (on_success-Leaves (IsReady session) (IsReady session) _ _
            (elim (Bool-cases parsed) [
              | inr bad ↦ rw bad (λ e'. absurd (succeeds invalid_credentials e' refl))
              | inl good ↦ rw good (
                  or_credentials-Leaves (IsReady session)
                    (initialize_client_keys p11 key_label
                      (record ctx { world = tls.set ca_chain w }))
                    (λ ok. (same ∙ h, ready ok)))
            ])
            (λ c ic.
              or_credentials-Leaves (IsReady session)
                (read_certificate_into_context p11 tls cert_label c)
                (λ ok.
                  subst (λ t. IsReady session t)
                    (sym (read_certificate_into_context_lem p11 tls cert_label c).0) ic)))
          (λ c ic e'. ic)

    configure_sni_alpn-IsReady :
        (host : List ℕ) (credentials : Credentials) (session : ℕ) (ctx : Context W)
        → IsReady session ctx
        → Leaves (IsReady session) (configure_sni_alpn p11 tls host credentials ctx)
    unfolding configure_sni_alpn
    configure_sni_alpn-IsReady host credentials session ctx h =
        on_success-Leaves (IsReady session) (IsReady session) _ _
          (elim (Option-cases credentials.alpn_protos) [
            | inl null ↦ rw null (λ e. h)
            | inr (protocols, given) ↦ rw given (λ e. h)
          ])
          (λ c ic. elim (Bool-cases credentials.disable_sni) [
            | inl off ↦ rw off (λ e. ic)
            | inr on ↦ rw on (λ e. ic)
          ])

    configure_fragment_length-IsReady :
        (session : ℕ) (ctx : Context W)
        → IsReady session ctx
        → Leaves (IsReady session) (configure_fragment_length p11 tls ctx)
    unfolding configure_fragment_length
    configure_fragment_length-IsReady session ctx h =
        elim (Bool-cases tls.has_max_fragment_length) [
          | inl on ↦ rw on (λ e. h)
          | inr off ↦ rw off (λ e. h)
        ]

    configure_steps-IsReady :
        (host root_ca_path cert_label key_label : List ℕ) (credentials : Credentials)
        (recv_timeout_ms session : ℕ) (ctx : Context W)
        → InSession session ctx
        → Leaves (IsReady session) (
            configure_steps p11 tls host root_ca_path cert_label key_label credentials
              recv_timeout_ms ctx)
    unfolding configure_steps
    configure_steps-IsReady host root_ca_path cert_label key_label credentials recv_timeout_ms
          session ctx h =
        on_success-Leaves (IsReady session) (IsReady session) _ _
          (on_success-Leaves (IsReady session) (IsReady session) _ _
            (on_success-Leaves (IsReady session) (IsReady session) _ _
              (on_success-Leaves (InSession session) (IsReady session) _ _ (λ e. h)
                (λ c ic.
                  configure_certificates-IsReady root_ca_path cert_label key_label session
                    (record c { world = set_options p11 tls recv_timeout_ms c.world }) ic))
              (λ c. configure_sni_alpn-IsReady host credentials session c))
            (λ c ic e. ic))
          (λ c ic.
            configure_fragment_length-IsReady session (record c { world = tls.set bio c.world }) ic)

    -- A configuration that succeeds leaves a context in the session of the credentials, which signs by
    -- the algorithm of its key's type. One that fails leaves a context that has been freed.
    pub configure_mbedtls_lem :
        (host root_ca_path cert_label key_label : List ℕ) (credentials : Credentials)
        (recv_timeout_ms : ℕ) (ctx : Context W)
        → let (status, ctx') =
            configure_mbedtls p11 tls host root_ca_path cert_label key_label credentials
              recv_timeout_ms ctx in
          ((status ≡ success) × IsReady credentials.p11_session ctx')
          ⊎ ((is_success status ≡ false) × ((c : Context W) × (ctx' ≡ freed p11 tls c)))
    unfolding configure_mbedtls
    configure_mbedtls_lem host root_ca_path cert_label key_label credentials recv_timeout_ms ctx =
        let begun : Context W = record ctx {
          world = context_init p11 tls ctx.world;
          p11_session = credentials.p11_session;
        } in
        let (status, ctx') =
          configure_steps p11 tls host root_ca_path cert_label key_label credentials recv_timeout_ms
            begun in
        elim (Status-cases status) [
          | inl e ↦
              rw (configure_mbedtls, e)
                (inl (
                  refl,
                  configure_steps-IsReady host root_ca_path cert_label key_label credentials
                      recv_timeout_ms credentials.p11_session begun refl e,
                ))
          | inr failed ↦ rw (configure_mbedtls, failed) (inr (failed, (ctx', refl)))
        ]
