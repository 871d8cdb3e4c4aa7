-- ===== src/Transport/Io/Laws.antt =====
-- What the transport functions return.
use embedded_provisioning_sd.Prelude.{ℕ, ◌≡◌, refl, ◌⊎◌, inl, inr, List}
use embedded_provisioning_sd.Pkcs11.Module.{Module}
use embedded_provisioning_sd.Transport.Library.{
  SslResult, count, want_read, want_write, timed_out, error, Tls, Context,
}
use embedded_provisioning_sd.Transport.Io.{without_retriable, recv, send}

-- What a transport function returns for a result of mbedTLS: a retriable error is no byte, and with a
-- count of bytes and any other error it is the same.
abbrev pub Returns : SslResult → SslResult → Type 0
Returns status r =
    (((status ≡ want_read) ⊎ (status ≡ want_write) ⊎ (status ≡ timed_out)) × (r ≡ count 0))
    ⊎ (((n : ℕ) × ((status ≡ count n) ⊎ (status ≡ error n))) × (r ≡ status))

without_retriable-Returns : (status : SslResult) → Returns status (without_retriable status)
unfolding without_retriable
without_retriable-Returns (count n) = inr ((n, inl refl), refl)
without_retriable-Returns want_read = inl (inl refl, refl)
without_retriable-Returns want_write = inl (inr (inl refl), refl)
without_retriable-Returns timed_out = inl (inr (inr refl), refl)
without_retriable-Returns (error n) = inr ((n, inr refl), refl)

module _ {W : Type 0} (p11 : Module W) (tls : Tls W) where
  -- `Mbedtls_Pkcs11_Recv` and `Mbedtls_Pkcs11_Send` return no byte for a retriable error of mbedTLS, and
  -- its own result otherwise; the bytes received are those that mbedTLS read.
  pub recv-send-Returns :
      (buffer : List ℕ) (len : ℕ) (ctx : Context W)
      → Returns (tls.read len ctx.world).0 (recv p11 tls len ctx).0
        × Returns (tls.write buffer len ctx.world).0 (send p11 tls buffer len ctx).0
        × ((recv p11 tls len ctx).1 ≡ (tls.read len ctx.world).1)
  unfolding recv send
  recv-send-Returns buffer len ctx = (
    without_retriable-Returns (tls.read len ctx.world).0,
    without_retriable-Returns (tls.write buffer len ctx.world).0,
    refl,
  )
