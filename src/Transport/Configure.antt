-- ===== src/Transport/Configure.antt =====
-- `contextInit`, `contextFree`, `configureMbedtls` and its parts.
pub mod Laws
use embedded_provisioning_sd.Prelude.{ℕ, Bool, true, false, Option, none, some, List, if◌then◌else◌}
use embedded_provisioning_sd.Pkcs11.Module.{Module}
use embedded_provisioning_sd.Transport.Library.{
  socket, ssl, config, root_ca, client_cert, verify_required, random_generator, cert_profile,
  read_timeout, debug_callback, debug_threshold, ca_chain, own_cert, bio, Tls, Context, Status,
  success, insufficient_memory, invalid_credentials, internal_error, is_success, Credentials,
}
use embedded_provisioning_sd.Transport.Keys.{initialize_client_keys, read_certificate_into_context}

-- `if( returnStatus == MBEDTLS_PKCS11_SUCCESS ) { ... }`
unfoldable pub on_success :
    {W : Type 0} → Status × Context W → (Context W → Status × Context W) → Status × Context W
on_success r step = if is_success r.0 then step r.1 else r

-- A call whose failure gives a status.
abbrev pub or_status : {W : Type 0} → Status → Context W → Bool × W → Status × Context W
or_status status ctx r = (if r.0 then success else status, record ctx { world = r.1 })

-- A step that says whether it succeeded.
abbrev pub or_credentials : {W : Type 0} → Bool × Context W → Status × Context W
or_credentials r = (if r.0 then success else invalid_credentials, r.1)

module _ {W : Type 0} (p11 : Module W) (tls : Tls W) where
  -- `contextInit`; the result of C_GetFunctionList is not read.
  unfoldable pub context_init : W → W
  context_init w =
      let w' =
        tls.init client_cert
          (tls.init root_ca (tls.init config (tls.init ssl (tls.init socket w)))) in
      (p11.get_function_list w').1

  -- `contextFree`
  unfoldable pub context_free : W → W
  context_free w =
      tls.free client_cert (tls.free root_ca (tls.free config (tls.free ssl (tls.free socket w))))

  -- A context freed.
  abbrev pub freed : Context W → Context W
  freed ctx = record ctx { world = context_free ctx.world }

  -- The calls of `configureMbedtls` behind the defaults.
  unfoldable pub set_options : ℕ → W → W
  set_options recv_timeout_ms w = tls.set debug_threshold (
      tls.set debug_callback (
        tls.set (read_timeout recv_timeout_ms)
          (tls.set cert_profile (tls.set random_generator (tls.set verify_required w)))))

  -- `configureMbedtlsCertificates` of the path and the two labels.
  unfoldable pub configure_certificates : List ℕ → List ℕ → List ℕ → Context W → Status × Context W
  configure_certificates root_ca_path cert_label key_label ctx =
      let (parsed, w) = tls.parse_root_ca root_ca_path ctx.world in
      let ctx' : Context W = record ctx { world = w } in
      let keys =
        if parsed
        then or_credentials
            (initialize_client_keys p11 key_label (record ctx' { world = tls.set ca_chain w }))
        else (invalid_credentials, ctx') in
      let certificate =
        on_success keys
          (λ c. or_credentials (read_certificate_into_context p11 tls cert_label c)) in
      on_success certificate (λ c. (success, record c { world = tls.set own_cert c.world }))

  -- `configureMbedtlsSniAlpn`
  unfoldable pub configure_sni_alpn : List ℕ → Credentials → Context W → Status × Context W
  configure_sni_alpn host credentials ctx =
      let alpn : Status × Context W = elim credentials.alpn_protos [
        | none ↦ (success, ctx)
        | some protocols ↦ or_status internal_error ctx (tls.alpn_protocols protocols ctx.world)
      ] in
      on_success alpn (λ c.
        if credentials.disable_sni
        then (success, c)
        else or_status internal_error c (tls.set_hostname host c.world))

  -- `configureMbedtlsFragmentLength`
  unfoldable pub configure_fragment_length : Context W → Status × Context W
  configure_fragment_length ctx =
      if tls.has_max_fragment_length
      then or_status internal_error ctx (tls.max_frag_len ctx.world)
      else (success, ctx)

  -- `configureMbedtls` behind `contextInit`, up to its clean-up.
  unfoldable pub configure_steps :
      List ℕ → List ℕ → List ℕ → List ℕ → Credentials → ℕ → Context W → Status × Context W
  configure_steps host root_ca_path cert_label key_label credentials recv_timeout_ms ctx =
      let defaults = or_status insufficient_memory ctx (tls.config_defaults ctx.world) in
      let certificates = on_success defaults (λ c.
        configure_certificates root_ca_path cert_label key_label
          (record c { world = set_options recv_timeout_ms c.world })) in
      let sni_alpn = on_success certificates (configure_sni_alpn host credentials) in
      let setup = on_success sni_alpn (λ c. or_status internal_error c (tls.ssl_setup c.world)) in
      on_success setup (λ c. configure_fragment_length (record c { world = tls.set bio c.world }))

  -- `configureMbedtls` with the strings of the credentials.
  unfoldable pub configure_mbedtls :
      List ℕ → List ℕ → List ℕ → List ℕ → Credentials → ℕ → Context W → Status × Context W
  configure_mbedtls host root_ca_path cert_label key_label credentials recv_timeout_ms ctx =
      let (status, ctx') =
        configure_steps host root_ca_path cert_label key_label credentials recv_timeout_ms
          (record ctx { world = context_init ctx.world; p11_session = credentials.p11_session }) in
      if is_success status then (status, ctx') else (status, freed ctx')
