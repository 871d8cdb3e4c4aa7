-- ===== src/Transport/Tests.antt =====
-- The theorems on mbedtls_pkcs11_posix.c at a concrete library: the world is the number of calls that the
-- handshake still needs.
use embedded_provisioning_sd.Prelude.{
  ℕ, zero, suc, ◌+◌, ◌<◌, ◌≡◌, ◌↔◌, refl, ◌⊎◌, inl, inr, Bool, true, false, if◌then◌else◌, ◌==◌,
  Bool-cases, none, some, List, [], ◌∷◌, arith,
}
use embedded_provisioning_sd.Pkcs11.Module.{ckk_rsa, ckk_ec}
use embedded_provisioning_sd.Pkcs11.Tests.{token_module}
use embedded_provisioning_sd.Transport.Library.{
  SslResult, count, want_read, timed_out, Tls, Context, Status, Credentials,
}
use embedded_provisioning_sd.Transport.Keys.{
  Signed, initialize_client_keys, private_key_signing_callback,
}
use embedded_provisioning_sd.Transport.Keys.Laws.{
  HasKey, SignsWithEc, initialize_client_keys_lem, private_key_signing_callback_lem,
}
use embedded_provisioning_sd.Mqtt.Tests.{library, labels, library-CountsAttempts}
use embedded_provisioning_sd.Mqtt.Session.{connect_with_retries}
use embedded_provisioning_sd.Transport.Broker.{
  Broker, operations_credentials, agent_credentials, over_transport,
}
use embedded_provisioning_sd.Transport.Broker.Laws.{Secured, connect_with_retries-Secured}
use embedded_provisioning_sd.Transport.Configure.{configure_mbedtls}
use embedded_provisioning_sd.Transport.Connect.{wants_more, connect}
use embedded_provisioning_sd.Transport.Connect.Laws.{Outcome, connect_lem}

abbrev handshake : ℕ → SslResult × ℕ
handshake zero = (count 0, zero)
handshake (suc n) = (want_read, n)

abbrev tls : Tls ℕ
tls = record {
  init = λ part w. w;
  free = λ part w. w;
  set = λ setting w. w;
  config_defaults = λ w. (true, w);
  parse_root_ca = λ path w. (true, w);
  parse_client_cert = λ der len w. (true, w);
  alpn_protocols = λ protocols w. (true, w);
  set_hostname = λ host w. (true, w);
  ssl_setup = λ w. (true, w);
  has_max_fragment_length = true;
  max_frag_len = λ w. (true, w);
  net_connect = λ host port w. (true, 3);
  handshake = handshake;
  verify_result = λ w. 0;
  close_notify = λ w. (count 0, w);
  read = λ n w. (timed_out, [], w);
  write = λ buffer n w. (count n, w);
  append_sha256_identifier = λ hash. (0, 48 ∷ hash);
  to_mbedtls_signature = λ signature len. (48 ∷ signature, len + 1);
}

nearer : (w : ℕ) → wants_more (handshake w).0 ≡ true → (handshake w).1 < w
unfolding wants_more
nearer zero e = absurd (ground arith)
nearer (suc n) e = omega arith

abbrev fresh : Context ℕ
fresh = record { world = 2; p11_session = 0; p11_private_key = 0; key_type = 0; algorithm = none }

abbrev with_ec_key : Context ℕ
with_ec_key = record fresh { p11_private_key = 2; key_type = 3 }

abbrev text : List ℕ
text = 97 ∷ []

abbrev credentials : Credentials
credentials = record {
  alpn_protos = none;
  disable_sni = false;
  root_ca_path = some text;
  client_cert_label = some text;
  private_key_label = some text;
  p11_session = 1;
}

connect_lem_example :
    (r : Status × Context ℕ) × (connect token_module tls 4
        (some text)
        8883
        (some credentials)
        100
        fresh
      ≡ some r)
    × Outcome token_module tls text 8883 1
        (configure_mbedtls token_module tls text text text text credentials 100 fresh)
        r
connect_lem_example =
    connect_lem token_module tls (λ w. w) 4 text 8883 credentials 100 fresh text text text refl refl
      refl nearer (omega arith)

-- The search finds nothing in an empty token.
initialize_client_keys_lem_example :
    let (ok, ctx') = initialize_client_keys token_module text (record fresh { world = 0 }) in
    ((ok ≡ true) ↔ (
      ((token_module.find_object 0 text 3 0 0).0 ≡ 0)
      × ((token_module.get_key_type 0 0 0 0).0 ≡ 0)
      × ((ckk_ec ≡ ckk_rsa) ⊎ (ckk_ec ≡ ckk_ec))))
    × ((ok ≡ true) → HasKey ctx')
    × (ctx'.p11_session ≡ 0)
    × (ctx'.p11_private_key ≡ 0)
initialize_client_keys_lem_example =
    initialize_client_keys_lem token_module text (record fresh { world = 0 })

private_key_signing_callback_lem_example :
    (r : ℕ × Signed × Context ℕ) × (private_key_signing_callback token_module tls
        (5 ∷ 6 ∷ [])
        2
        []
        0
        with_ec_key
      ≡ some r)
    × (r.0 ≡ 0)
    × ((r.1.ret ≡ 0) → SignsWithEc token_module tls (5 ∷ 6 ∷ []) 2 with_ec_key r.1)
private_key_signing_callback_lem_example =
    private_key_signing_callback_lem token_module tls (5 ∷ 6 ∷ []) 2 [] 0 with_ec_key refl
      (omega arith)

-- A library whose handshake asks once for more.
abbrev one_more : ℕ → SslResult × ℕ
one_more w = if w == 1 then (want_read, 0) else (count 0, 0)

abbrev steps_left : ℕ → ℕ
steps_left w = if w == 1 then 1 else 0

abbrev dialling : Tls ℕ
dialling = record tls { net_connect = λ host port w. (true, 1); handshake = one_more }

one_more-nearer :
    (w : ℕ) → wants_more (one_more w).0 ≡ true → steps_left (one_more w).1 < steps_left w
unfolding wants_more
one_more-nearer w e = elim (Bool-cases (w == 1)) [
  | inl first ↦ rw first (omega arith)
  | inr later ↦ absurd (ground (arith, later))
]

steps_few : (w : ℕ) → steps_left w < 2
steps_few w = ground arith

abbrev broker : Broker
broker = record { endpoint = text; port = 443; root_ca_path = text; alpn_protos = text ∷ [] }

connect_with_retries-Secured_example :
    let operations = operations_credentials broker 1 in
    let agent = agent_credentials broker 1 in
    ((r : Bool × Context ℕ) × (connect_with_retries
          (over_transport token_module dialling broker operations 2 (library false []))
          labels
          6
          fresh
        ≡ some r)
      × ((r.0 ≡ false)
          ⊎ ((r.0 ≡ true)
              × Secured token_module dialling broker 1 2
                  (library false [])
                  labels
                  (operations labels)
                  r.1)))
    × ((r : Bool × Context ℕ) × (connect_with_retries
            (over_transport token_module dialling broker agent 2 (library false []))
            labels
            6
            fresh
          ≡ some r)
        × ((r.0 ≡ false)
            ⊎ ((r.0 ≡ true)
                × Secured token_module dialling broker 1 2
                    (library false [])
                    labels
                    (agent labels)
                    r.1)))
connect_with_retries-Secured_example =
    connect_with_retries-Secured token_module dialling broker 1 2 (library false []) steps_left
      (λ b. b) labels fresh steps_few one_more-nearer library-CountsAttempts
