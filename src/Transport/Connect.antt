-- ===== src/Transport/Connect.antt =====
-- `Mbedtls_Pkcs11_Connect`.
pub mod Laws
pub mod Port
use embedded_provisioning_sd.Prelude.{
  ℕ, zero, suc, ◌+◌, ◌/◌, ◌%◌, Bool, true, false, Option, none, some, List, [], ◌∷◌, ◌++◌, ltb,
  ◌==◌, if◌then◌else◌, take,
}
use embedded_provisioning_sd.Pkcs11.Module.{Module}
use embedded_provisioning_sd.Transport.Library.{
  SslResult, count, want_read, want_write, timed_out, error, Tls, Context, Status, success,
  invalid_parameter, handshake_failed, connect_failure, is_success, Credentials,
}
use embedded_provisioning_sd.Transport.Configure.{freed, configure_mbedtls, on_success, or_status}

-- "%u"; the fuel is a bound of the number's digits behind the first.
unfoldable pub decimal : ℕ → ℕ → List ℕ
decimal zero n = (48 + n % 10) ∷ []
decimal (suc fuel) n =
    let rest = decimal fuel (n / 10) in
    if ltb n 10 then (48 + n) ∷ [] else rest ++ (48 + n % 10) ∷ []

-- `portStr`: at most five characters and the terminator.
unfoldable pub port_string : ℕ → List ℕ
port_string port = take 5 (decimal 4 port)

-- What the loop of the handshake waits for.
unfoldable pub wants_more : SslResult → Bool
wants_more (count n) = false
wants_more want_read = true
wants_more want_write = true
wants_more timed_out = false
wants_more (error n) = false

-- `mbedtlsError == 0`
unfoldable pub is_zero : SslResult → Bool
is_zero (count n) = n == 0
is_zero want_read = false
is_zero want_write = false
is_zero timed_out = false
is_zero (error n) = false

module _ {W : Type 0} (p11 : Module W) (tls : Tls W) where
  -- The `do` loop; `none` if the fuel does not reach its end.
  unfoldable pub handshake_loop : ℕ → W → Option (SslResult × W)
  handshake_loop zero w = none
  handshake_loop (suc fuel) w =
      let (result, w') = tls.handshake w in
      elim (wants_more result) [ true ↦ handshake_loop fuel w' | false ↦ some (result, w') ]

  -- The handshake and the test of the server's certificate.
  unfoldable pub perform_handshake : ℕ → Context W → Option (Status × Context W)
  perform_handshake fuel ctx = elim (handshake_loop fuel ctx.world) [
    | none ↦ none
    | some (result, w) ↦
        let verified = if is_zero result then tls.verify_result w == 0 else false in
        some (if verified then success else handshake_failed, record ctx { world = w })
  ]

  -- Behind `configureMbedtls`: the TCP connection and the handshake.
  unfoldable pub connect_configured :
      ℕ → List ℕ → ℕ → Status × Context W → Option (Status × Context W)
  connect_configured fuel host port configured =
      let (status, ctx) =
        on_success configured
          (λ c. or_status connect_failure c (tls.net_connect host (port_string port) c.world)) in
      if is_success status then perform_handshake fuel ctx else some (status, ctx)

  -- The clean-up on failure.
  unfoldable pub clean_up : Option (Status × Context W) → Option (Status × Context W)
  clean_up none = none
  clean_up (some (status, ctx)) =
      some (if is_success status then (status, ctx) else (status, freed p11 tls ctx))

  -- `Mbedtls_Pkcs11_Connect`, with `none` for a NULL network context, parameters or host.
  unfoldable pub connect :
      ℕ → Option (List ℕ) → ℕ → Option Credentials → ℕ → Context W → Option (Status × Context W)
  connect fuel (some host) port (some credentials) recv_timeout_ms ctx =
      elim credentials.root_ca_path [
        | none ↦ some (invalid_parameter, ctx)
        | some root_ca_path ↦ elim credentials.client_cert_label [
          | none ↦ some (invalid_parameter, ctx)
          | some cert_label ↦ elim credentials.private_key_label [
            | none ↦ some (invalid_parameter, ctx)
            | some key_label ↦ clean_up (
                connect_configured fuel host port (
                  configure_mbedtls p11 tls host root_ca_path cert_label key_label credentials
                    recv_timeout_ms ctx))
          ]
        ]
      ]
  connect fuel (some host) port none recv_timeout_ms ctx = some (invalid_parameter, ctx)
  connect fuel none port credentials recv_timeout_ms ctx = some (invalid_parameter, ctx)
