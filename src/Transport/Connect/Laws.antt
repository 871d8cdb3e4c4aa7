-- ===== src/Transport/Connect/Laws.antt =====
-- When `Mbedtls_Pkcs11_Connect` succeeds, and what it leaves otherwise; the string of the port.
use embedded_provisioning_sd.Prelude.{
  ℕ, zero, suc, ◌<◌, ◌≡◌, refl, sym, subst, ◌⊎◌, inl, inr, true, false, some, List, arith,
  Bool-cases, ◌==◌, ==_iff,
}
use embedded_provisioning_sd.Pkcs11.Module.{Module}
use embedded_provisioning_sd.Transport.Library.{
  Status-cases, Tls, Context, Status, success, handshake_failed, connect_failure, is_success,
  Credentials,
}
use embedded_provisioning_sd.Transport.Configure.{freed, configure_mbedtls, on_success}
use embedded_provisioning_sd.Transport.Configure.Laws.{IsReady, succeeds, configure_mbedtls_lem}
use embedded_provisioning_sd.Transport.Connect.{
  port_string, wants_more, is_zero, handshake_loop, perform_handshake, connect_configured, clean_up,
  connect,
}

module _ {W : Type 0} (p11 : Module W) (tls : Tls W) where
  -- The last call of the handshake is at some state, and asks for no more.
  handshake_loop_ends :
      (measure : W → ℕ) (fuel : ℕ) (w : W)
      → ((v : W) → wants_more (tls.handshake v).0 ≡ true → measure (tls.handshake v).1 < measure v)
      → measure w < fuel
      → (v : W) × (handshake_loop p11 tls fuel w ≡ some (tls.handshake v))
  unfolding handshake_loop
  handshake_loop_ends measure zero w nearer enough = absurd (omega arith)
  handshake_loop_ends measure (suc fuel) w nearer enough =
      elim (Bool-cases (wants_more (tls.handshake w).0)) [
        | inl more ↦
            rw (more, handshake_loop)
              (handshake_loop_ends measure fuel (tls.handshake w).1 nearer
                (omega (arith, nearer w more)))
        | inr over ↦ rw (over, handshake_loop) (w, refl)
      ]

  -- A context whose connection is made and verified: it is that of a configuration that succeeded but for
  -- the world, the socket is connected, and the last handshake gives 0 in a state where the server's certificate is verified.
  abbrev pub Established : List ℕ → ℕ → Status × Context W → Context W → Type 0
  Established host port configured ctx =
      (configured.0 ≡ success)
      × (ctx ≡ record configured.1 { world = ctx.world })
      × ((tls.net_connect host (port_string port) configured.1.world).0 ≡ true)
      × ((v : W) × (is_zero (tls.handshake v).0 ≡ true)
          × ((tls.handshake v).1 ≡ ctx.world)
          × (tls.verify_result ctx.world ≡ 0))

  -- The ends of a connection in a session.
  abbrev pub Outcome : List ℕ → ℕ → ℕ → Status × Context W → Status × Context W → Type 0
  Outcome host port session configured (status, ctx) =
      ((status ≡ success) × Established host port configured ctx × IsReady session ctx)
      ⊎ ((is_success status ≡ false) × ((c : Context W) × (ctx ≡ freed p11 tls c)))

  perform_handshake_lem :
      (measure : W → ℕ) (fuel : ℕ) (ctx : Context W)
      → ((v : W) → wants_more (tls.handshake v).0 ≡ true → measure (tls.handshake v).1 < measure v)
      → measure ctx.world < fuel
      → (r : Status × Context W) × (perform_handshake p11 tls fuel ctx ≡ some r)
        × (r.1 ≡ record ctx { world = r.1.world })
        × (((r.0 ≡ success)
              × ((v : W) × (is_zero (tls.handshake v).0 ≡ true)
                  × ((tls.handshake v).1 ≡ r.1.world)
                  × (tls.verify_result r.1.world ≡ 0)))
            ⊎ (is_success r.0 ≡ false))
  unfolding perform_handshake
  perform_handshake_lem measure fuel ctx nearer enough =
      let (v, e) = handshake_loop_ends measure fuel ctx.world nearer enough in
      let (result, w) = tls.handshake v in
      elim (Bool-cases (is_zero result)) [
        | inr nonzero ↦
            rw (perform_handshake, e, nonzero)
              ((handshake_failed, record ctx { world = w }), refl, refl, inr refl)
        | inl zero_result ↦ elim (Bool-cases (tls.verify_result w == 0)) [
          | inl verified ↦
              rw (perform_handshake, e, zero_result, verified)
                (
                  (success, record ctx { world = w }),
                  refl,
                  refl,
                  inl (refl, (v, zero_result, refl, (==_iff (tls.verify_result w) 0).0 verified)),
                )
          | inr unverified ↦
              rw (perform_handshake, e, zero_result, unverified)
                ((handshake_failed, record ctx { world = w }), refl, refl, inr refl)
        ]
      ]

  clean_up_lem :
      (E : Context W → Type 0) (r : Status × Context W)
      → ((r.0 ≡ success) × E r.1) ⊎ (is_success r.0 ≡ false)
      → (r' : Status × Context W) × (clean_up p11 tls (some r) ≡ some r')
        × (((r'.0 ≡ success) × E r'.1)
            ⊎ ((is_success r'.0 ≡ false) × ((c : Context W) × (r'.1 ≡ freed p11 tls c))))
  unfolding clean_up
  clean_up_lem E (status, ctx) (inl (e, h)) = rw e ((success, ctx), refl, inl (refl, h))
  clean_up_lem E (status, ctx) (inr failed) =
      rw failed ((status, freed p11 tls ctx), refl, inr (failed, (ctx, refl)))

  -- The world in which the handshake begins.
  abbrev pub dialled : List ℕ → ℕ → Status × Context W → W
  dialled host port configured = (tls.net_connect host (port_string port) configured.1.world).1

  connect_configured_lem :
      (measure : W → ℕ) (fuel : ℕ) (host : List ℕ) (port : ℕ) (configured : Status × Context W)
      → ((v : W) → wants_more (tls.handshake v).0 ≡ true → measure (tls.handshake v).1 < measure v)
      → measure (dialled host port configured) < fuel
      → (r : Status × Context W) × (connect_configured p11 tls fuel host port configured ≡ some r)
        × (((r.0 ≡ success) × Established host port configured r.1) ⊎ (is_success r.0 ≡ false))
  unfolding connect_configured on_success
  connect_configured_lem measure fuel host port (status, ctx) nearer enough =
      let (reached, w) = tls.net_connect host (port_string port) ctx.world in
      elim (Status-cases status) [
        | inr failed ↦
            rw (connect_configured, on_success, failed, failed) ((status, ctx), refl, inr failed)
        | inl e ↦ elim (Bool-cases reached) [
          | inr refused ↦
              rw (connect_configured, on_success, e, refused)
                ((connect_failure, record ctx { world = w }), refl, inr refl)
          | inl up ↦
              let (r, f, same, g) =
                perform_handshake_lem measure fuel (record ctx { world = w }) nearer enough in
              rw (connect_configured, on_success, e, up, f)
                (
                  r,
                  refl,
                  elim g [ inr bad ↦ inr bad | inl (ok, v) ↦ inl (ok, (refl, same, refl, v)) ],
                )
        ]
      ]

  -- Where it succeeds, the context is in the session of the credentials and signs by the algorithm of its
  -- key's type.
  Established-IsReady :
      (host root_ca_path cert_label key_label : List ℕ) (port : ℕ) (credentials : Credentials)
      (recv_timeout_ms : ℕ) (ctx ctx' : Context W)
      → Established host port
          (configure_mbedtls p11 tls host root_ca_path cert_label key_label credentials
            recv_timeout_ms ctx)
          ctx'
      → IsReady credentials.p11_session ctx'
  Established-IsReady host root_ca_path cert_label key_label port credentials recv_timeout_ms ctx
        ctx' (e, same, up, h) =
      elim (configure_mbedtls_lem p11 tls host root_ca_path cert_label key_label credentials
        recv_timeout_ms ctx) [
          | inl (ok, ready) ↦ subst (λ t. IsReady credentials.p11_session t) (sym same) ready
          | inr (failed, freed_one) ↦ absurd (succeeds _ e failed)
        ]

  -- With its parameters, a host and a handshake that comes nearer to its end each time it asks for more,
  -- `Mbedtls_Pkcs11_Connect` ends. It succeeds only behind a configuration that succeeded, a connected
  -- socket, a handshake that gave 0 and a verified server certificate, with a context in the session of
  -- the credentials that signs by the algorithm of its key's type. Otherwise it frees the context.
  pub connect_lem :
      (measure : W → ℕ) (fuel : ℕ) (host : List ℕ) (port : ℕ) (credentials : Credentials)
      (recv_timeout_ms : ℕ) (ctx : Context W) (root_ca_path cert_label key_label : List ℕ)
      → credentials.root_ca_path ≡ some root_ca_path
      → credentials.client_cert_label ≡ some cert_label
      → credentials.private_key_label ≡ some key_label
      → ((v : W) → wants_more (tls.handshake v).0 ≡ true → measure (tls.handshake v).1 < measure v)
      → measure (
          dialled host port (
            configure_mbedtls p11 tls host root_ca_path cert_label key_label credentials
              recv_timeout_ms ctx))
        < fuel
      → (r : Status × Context W) × (connect p11 tls fuel
            (some host)
            port
            (some credentials)
            recv_timeout_ms
            ctx
          ≡ some r)
        × Outcome host port credentials.p11_session
            (configure_mbedtls p11 tls host root_ca_path cert_label key_label credentials
              recv_timeout_ms ctx)
            r
  unfolding connect
  connect_lem measure fuel host port credentials recv_timeout_ms ctx root_ca_path cert_label
        key_label e₁ e₂ e₃ nearer enough =
      let configured =
        configure_mbedtls p11 tls host root_ca_path cert_label key_label credentials recv_timeout_ms
          ctx in
      let (r, e, h) = connect_configured_lem measure fuel host port configured nearer enough in
      let (r', e', h') = clean_up_lem (Established host port configured) r h in
      let ready =
        Established-IsReady host root_ca_path cert_label key_label port credentials recv_timeout_ms
          ctx r'.1 in
      (
        r',
        simp (connect, e₁, e₂, e₃, e, e'),
        elim h' [ inl (ok, up) ↦ inl (ok, up, ready up) | inr failed ↦ inr failed ],
      )
