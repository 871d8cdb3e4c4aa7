-- ===== src/Transport/Broker/Laws.antt =====
-- A connection to the broker that succeeds is secured.
use embedded_provisioning_sd.Prelude.{
  ℕ, ◌+◌, ◌<◌, ◌≡◌, refl, subst, ◌⊎◌, inl, inr, Bool, true, false, some, arith,
}
use embedded_provisioning_sd.Pkcs11.Module.{Module}
use embedded_provisioning_sd.Mqtt.Library
use embedded_provisioning_sd.Mqtt.Library.{Library}
use embedded_provisioning_sd.Mqtt.Session.{retry_max_attempts, connect_with_retries}
use embedded_provisioning_sd.Mqtt.Session.Laws.{CountsAttempts, connect_with_retries_ends}
use embedded_provisioning_sd.Transport.Library.{Tls, Context, Credentials}
use embedded_provisioning_sd.Transport.Configure.{configure_mbedtls}
use embedded_provisioning_sd.Transport.Configure.Laws.{IsReady}
use embedded_provisioning_sd.Transport.Connect.{wants_more}
use embedded_provisioning_sd.Transport.Connect.Laws.{Established, connect_lem}
use embedded_provisioning_sd.Transport.Broker.{
  Broker, operations_credentials, agent_credentials, send_recv_timeout_ms, over_transport,
}

module _ {W B : Type 0} (p11 : Module W) (tls : Tls W) (broker : Broker) (session fuel : ℕ)
    (lib : Library W B) where
  -- `Mbedtls_Pkcs11_Connect` with the credentials was called in some context, and there its configuration
  -- succeeded, the socket was connected, the handshake gave 0 and the server's certificate was verified;
  -- the context is in the session and signs by the algorithm of its key's type.
  abbrev pub Secured : Library.Credentials → Credentials → Context W → Type 0
  Secured labels credentials ctx =
      ((before : Context W) × Established p11 tls broker.endpoint broker.port
          (configure_mbedtls p11 tls broker.endpoint broker.root_ca_path labels.cert_label
            labels.key_label credentials send_recv_timeout_ms before)
          ctx)
      × IsReady session ctx

  module _ (make : Library.Credentials → Credentials) (measure : W → ℕ)
      (few : (w : W) → measure w < fuel)
      (nearer : (v : W)
        → wants_more (tls.handshake v).0 ≡ true
        → measure (tls.handshake v).1 < measure v) where
    abbrev with_transport : Library (Context W) B
    with_transport = over_transport p11 tls broker make fuel lib

    tls_connect-Secured :
        (labels : Library.Credentials) (ctx : Context W)
        → (make labels).root_ca_path ≡ some broker.root_ca_path
        → (make labels).client_cert_label ≡ some labels.cert_label
        → (make labels).private_key_label ≡ some labels.key_label
        → (make labels).p11_session ≡ session
        → ((with_transport.tls_connect labels ctx).0 ≡ false)
          ⊎ Secured labels (make labels) (with_transport.tls_connect labels ctx).1
    unfolding over_transport
    tls_connect-Secured labels ctx e₁ e₂ e₃ e₄ =
        let ((status, ctx'), e, h) =
          connect_lem p11 tls measure fuel broker.endpoint broker.port (make labels)
            send_recv_timeout_ms ctx broker.root_ca_path labels.cert_label labels.key_label e₁ e₂ e₃
            nearer (few _) in
        elim h [
          | inl (ok, established, ready) ↦
              rw e (inr ((ctx, established), subst (λ n. IsReady n ctx') e₄ ready))
          | inr (failed, freed) ↦ rw e (inl failed)
        ]

    retries-Secured :
        (left : B → ℕ) (labels : Library.Credentials) (ctx : Context W)
        → CountsAttempts lib left
        → (make labels).root_ca_path ≡ some broker.root_ca_path
        → (make labels).client_cert_label ≡ some labels.cert_label
        → (make labels).private_key_label ≡ some labels.key_label
        → (make labels).p11_session ≡ session
        → (r : Bool × Context W) × (connect_with_retries with_transport labels
              (retry_max_attempts + 1)
              ctx
            ≡ some r)
          × ((r.0 ≡ false) ⊎ ((r.0 ≡ true) × Secured labels (make labels) r.1))
    unfolding over_transport
    retries-Secured left labels ctx counts e₁ e₂ e₃ e₄ =
        let counts' : CountsAttempts with_transport left = record {
          fresh = counts.fresh;
          uses = counts.uses;
        } in
        let (r, e, last) = connect_with_retries_ends with_transport left labels ctx counts' in
        (
          r,
          e,
          elim last [
            | inl failed ↦ inl failed
            | inr (ok, (v, same)) ↦ elim (tls_connect-Secured labels v e₁ e₂ e₃ e₄) [
              | inl failed ↦ absurd (ground (arith, same, ok, failed))
              | inr secured ↦ inr (ok, subst (λ t. Secured labels (make labels) t.1) same secured)
            ]
          ],
        )

  -- Where the backoff library counts its attempts and a handshake that asks for more comes nearer to its
  -- end, and the fuel is more than it needs, `connectToBrokerWithBackoffRetries` of mqtt_operations.c and
  -- that of mqtt_agent.c end over the transport of mbedtls_pkcs11_posix.c. Each returns true only behind a
  -- connection that is configured, connected, shaken hands on and verified, in the session of the caller.
  pub connect_with_retries-Secured :
      (measure : W → ℕ) (left : B → ℕ) (labels : Library.Credentials) (ctx : Context W)
      → ((w : W) → measure w < fuel)
      → ((v : W) → wants_more (tls.handshake v).0 ≡ true → measure (tls.handshake v).1 < measure v)
      → CountsAttempts lib left
      → let operations = operations_credentials broker session in
        let agent = agent_credentials broker session in
        ((r : Bool × Context W) × (connect_with_retries
              (over_transport p11 tls broker operations fuel lib)
              labels
              (retry_max_attempts + 1)
              ctx
            ≡ some r)
          × ((r.0 ≡ false) ⊎ ((r.0 ≡ true) × Secured labels (operations labels) r.1)))
        × ((r : Bool × Context W) × (connect_with_retries
                (over_transport p11 tls broker agent fuel lib)
                labels
                (retry_max_attempts + 1)
                ctx
              ≡ some r)
            × ((r.0 ≡ false) ⊎ ((r.0 ≡ true) × Secured labels (agent labels) r.1)))
  unfolding operations_credentials agent_credentials
  connect_with_retries-Secured measure left labels ctx few nearer counts = (
    retries-Secured (operations_credentials broker session) measure few nearer left labels ctx
        counts refl refl refl refl,
    retries-Secured (agent_credentials broker session) measure few nearer left labels ctx counts
        refl refl refl refl,
  )
