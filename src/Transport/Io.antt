-- ===== src/Transport/Io.antt =====
-- `Mbedtls_Pkcs11_Disconnect`, `Mbedtls_Pkcs11_Recv` and `Mbedtls_Pkcs11_Send`.
pub mod Laws
use embedded_provisioning_sd.Prelude.{ℕ, Option, none, some, List}
use embedded_provisioning_sd.Pkcs11.Module.{Module}
use embedded_provisioning_sd.Transport.Library.{
  SslResult, count, want_read, want_write, timed_out, error, Tls, Context,
}
use embedded_provisioning_sd.Transport.Configure.{freed}

-- The results that mean a timeout to the libraries above.
unfoldable pub without_retriable : SslResult → SslResult
without_retriable (count n) = count n
without_retriable want_read = count 0
without_retriable want_write = count 0
without_retriable timed_out = count 0
without_retriable (error n) = error n

module _ {W : Type 0} (p11 : Module W) (tls : Tls W) where
  -- `Mbedtls_Pkcs11_Disconnect`, with `none` for a NULL network context or parameters; what the
  -- close-notify gives is only logged.
  unfoldable pub disconnect : Option (Context W) → Option (Context W)
  disconnect none = none
  disconnect (some ctx) =
      some (freed p11 tls (record ctx { world = (tls.close_notify ctx.world).1 }))

  -- `Mbedtls_Pkcs11_Recv`
  unfoldable pub recv : ℕ → Context W → SslResult × List ℕ × Context W
  recv bytes_to_recv ctx =
      let (status, received, w) = tls.read bytes_to_recv ctx.world in
      (without_retriable status, received, record ctx { world = w })

  -- `Mbedtls_Pkcs11_Send`
  unfoldable pub send : List ℕ → ℕ → Context W → SslResult × Context W
  send buffer bytes_to_send ctx =
      let (status, w) = tls.write buffer bytes_to_send ctx.world in
      (without_retriable status, record ctx { world = w })
