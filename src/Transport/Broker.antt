-- ===== src/Transport/Broker.antt =====
-- The connections to the broker of mqtt_operations.c and of libraries/mqtt_agent/source/mqtt_agent.c over
-- mbedtls_pkcs11_posix.c: the credentials that each `connectToBrokerWithBackoffRetries` makes, and the
-- transport under the interface that the two take.
pub mod Laws
use embedded_provisioning_sd.Prelude.{
  ℕ, Bool, true, false, Option, none, some, List, [], ◌∷◌, ◌==◌, if◌then◌else◌,
}
use embedded_provisioning_sd.Pkcs11.Module.{Module}
use embedded_provisioning_sd.Mqtt.Library
use embedded_provisioning_sd.Mqtt.Library.{Library}
use embedded_provisioning_sd.Transport.Library.{Tls, Context, Status, is_success, Credentials}
use embedded_provisioning_sd.Transport.Connect.{connect}
use embedded_provisioning_sd.Transport.Io.{disconnect}

-- AWS_IOT_ENDPOINT, AWS_MQTT_PORT, ROOT_CA_CERT_PATH and AWS_IOT_ALPN_MQTT_CA_AUTH_MBEDTLS
pub record Broker : Type 0 where
  pub endpoint : List ℕ
  pub port : ℕ
  pub root_ca_path : List ℕ
  pub alpn_protos : List (List ℕ)

-- `tlsCredentials` in mqtt_operations.c
unfoldable pub operations_credentials : Broker → ℕ → Library.Credentials → Credentials
operations_credentials broker session labels = record {
  alpn_protos = if broker.port == 443 then some broker.alpn_protos else none;
  disable_sni = false;
  root_ca_path = some broker.root_ca_path;
  client_cert_label = some labels.cert_label;
  private_key_label = some labels.key_label;
  p11_session = session;
}

-- `tlsCredentials` in mqtt_agent.c
unfoldable pub agent_credentials : Broker → ℕ → Library.Credentials → Credentials
agent_credentials broker session labels = record {
  alpn_protos = none;
  disable_sni = false;
  root_ca_path = some broker.root_ca_path;
  client_cert_label = some labels.cert_label;
  private_key_label = some labels.key_label;
  p11_session = session;
}

-- TRANSPORT_SEND_RECV_TIMEOUT_MS of both files
abbrev pub send_recv_timeout_ms : ℕ
send_recv_timeout_ms = 1000

module _ {W : Type 0} where
  -- A call that does not concern the transport.
  abbrev pub over : {A : Type 0} → (W → A × W) → Context W → A × Context W
  over f ctx = ((f ctx.world).0, record ctx { world = (f ctx.world).1 })

  -- Whether a connection succeeded; one for which the fuel is not enough counts as not made.
  abbrev pub connected : Context W → Option (Status × Context W) → Bool × Context W
  connected ctx none = (false, ctx)
  connected ctx (some (status, ctx')) = (is_success status, ctx')

  abbrev pub disconnected : Context W → Option (Context W) → Context W
  disconnected ctx none = ctx
  disconnected ctx (some ctx') = ctx'

  -- The interface of the MQTT part with the transport's own functions as `tls_connect` and
  -- `tls_disconnect`; `make` makes the credentials of a connection.
  unfoldable pub over_transport :
      {B : Type 0}
      → Module W
      → Tls W
      → Broker
      → (Library.Credentials → Credentials)
      → ℕ
      → Library W B
      → Library (Context W) B
  over_transport p11 tls broker make fuel lib = record {
    read_clock = over lib.read_clock;
    sleep = λ ms ctx. record ctx { world = lib.sleep ms ctx.world };
    random = over lib.random;
    get_packet_id = over lib.get_packet_id;
    publish = λ info id. over (lib.publish info id);
    subscribe = λ topic len id. over (lib.subscribe topic len id);
    unsubscribe = λ topic len id. over (lib.unsubscribe topic len id);
    process_loop = λ ctx.
        let (status, packets, w) = lib.process_loop ctx.world in
        (status, packets, record ctx { world = w });
    mqtt_init = over lib.mqtt_init;
    init_stateful_qos = over lib.init_stateful_qos;
    mqtt_connect = λ clean ctx.
        let (status, present, w) = lib.mqtt_connect clean ctx.world in
        (status, present, record ctx { world = w });
    mqtt_disconnect = over lib.mqtt_disconnect;
    tls_connect = λ labels ctx. connected ctx (
        connect p11 tls fuel (some broker.endpoint) broker.port (some (make labels))
          send_recv_timeout_ms ctx);
    tls_disconnect = λ ctx. disconnected ctx (disconnect p11 tls (some ctx));
    init_backoff = lib.init_backoff;
    next_backoff = lib.next_backoff;
  }
