-- ===== src/Transport/Keys.antt =====
-- The client's key and certificate: `generateRandomBytes`, `readCertificateIntoContext`,
-- `initializeClientKeys` and `privateKeySigningCallback`.
pub mod Laws
use embedded_provisioning_sd.Prelude.{
  ℕ, ◌+◌, ◌*◌, ◌%◌, ◌^◌, Bool, true, false, ◌&&◌, not, Option, none, some, List, [], ltb, ◌==◌,
  if◌then◌else◌,
}
use embedded_provisioning_sd.Pkcs11.Module.{
  Module, ckr_ok, ckr_host_memory, ckr_function_failed, ckr_arguments_bad,
  ckr_attribute_value_invalid, ckr_object_handle_invalid, invalid_handle, cko_certificate,
  cko_private_key, ckk_rsa, ckk_ec, ckm_rsa_pkcs, ckm_ecdsa,
}
use embedded_provisioning_sd.Pkcs11.Objects.{is_ok}
use embedded_provisioning_sd.Pkcs11.Keys.{KeyKind, rsa_key, ec_key}
use embedded_provisioning_sd.Transport.Library.{Tls, Context}

-- `sizeof( toBeSigned )`, pkcs11RSA_SIGNATURE_INPUT_LENGTH and pkcs11ECDSA_P256_SIGNATURE_LENGTH
abbrev pub to_be_signed_size : ℕ
to_be_signed_size = 256

abbrev pub rsa_signature_input_length : ℕ
rsa_signature_input_length = 51

abbrev pub ecdsa_p256_signature_length : ℕ
ecdsa_p256_signature_length = 64

-- The mbedTLS algorithm of a PKCS #11 key type.
unfoldable pub algorithm_of : ℕ → Option KeyKind
algorithm_of kind =
    if kind == ckk_rsa then some rsa_key else if kind == ckk_ec then some ec_key else none

-- `ret`, `mech`, `toBeSigned` and `toBeSignedLen`.
pub record ToSign : Type 0 where
  pub ret : ℕ
  pub mechanism : ℕ
  pub to_be_signed : List ℕ
  pub to_be_signed_length : ℕ

-- `ret`, `pSig` and `*pSigLen`.
pub record Signed : Type 0 where
  pub ret : ℕ
  pub sig : List ℕ
  pub sig_length : ℕ

module _ {W : Type 0} (p11 : Module W) where
  -- `generateRandomBytes`, its result as the 32 bits of an `int32_t`.
  unfoldable pub generate_random_bytes : ℕ → Context W → ℕ × List ℕ × Context W
  generate_random_bytes len ctx =
      let (rv, random, w) = p11.generate_random ctx.p11_session len ctx.world in
      (rv % 2 ^ 32, random, record ctx { world = w })

  -- `initializeClientKeys` behind the test of the handle.
  unfoldable pub query_key_type : Context W → Bool × Context W
  query_key_type ctx =
      let (rv, kind, w) =
        p11.get_key_type ctx.p11_session ctx.p11_private_key ctx.key_type ctx.world in
      let ctx' : Context W = record ctx { world = w; key_type = kind } in
      if is_ok rv
      then elim (algorithm_of kind) [
        | none ↦ (false, ctx')
        | some kind' ↦ (true, record ctx' { algorithm = some kind' })
      ]
      else (false, ctx')

  -- `initializeClientKeys`; where no key is found, `ret` becomes CK_INVALID_HANDLE.
  unfoldable pub initialize_client_keys : List ℕ → Context W → Bool × Context W
  initialize_client_keys label ctx =
      let (found, handle, w) =
        p11.find_object ctx.p11_session label cko_private_key ctx.p11_private_key ctx.world in
      let rv = if is_ok found && handle == invalid_handle then invalid_handle else found in
      let ctx' : Context W = record ctx { world = w; p11_private_key = handle } in
      if is_ok rv then query_key_type ctx' else (false, ctx')

  module _ (tls : Tls W) where
    -- The steps of `readCertificateIntoContext` behind the search, for a handle.
    unfoldable pub export_certificate : ℕ → ℕ → W → Bool × W
    export_certificate session handle w =
        let (rv, len, w₁) = p11.get_value_length session handle w in
        if is_ok rv
        then (let (allocated, w₂) = p11.allocate len w₁ in
            if allocated
            then (let (rv', der, len', w₃) = p11.get_value session handle len w₂ in
                if is_ok rv' then tls.parse_client_cert der len' w₃ else (false, w₃))
            else (false, w₂))
        else (false, w₁)

    -- `readCertificateIntoContext`
    unfoldable pub read_certificate_into_context : List ℕ → Context W → Bool × Context W
    read_certificate_into_context label ctx =
        let (found, handle, w) =
          p11.find_object ctx.p11_session label cko_certificate 0 ctx.world in
        if is_ok found && not (handle == invalid_handle)
        then (let (ok, w') = export_certificate ctx.p11_session handle w in
            (ok, record ctx { world = w' }))
        else (false, record ctx { world = w })

    -- The bytes to be signed; `none` where `memcpy` writes past the buffer.
    unfoldable pub format_hash : ℕ → List ℕ → ℕ → Option ToSign
    format_hash kind hash len =
        if kind == ckk_rsa
        then (let (rv, formatted) = tls.append_sha256_identifier hash in
            some (record {
              ret = rv;
              mechanism = ckm_rsa_pkcs;
              to_be_signed = formatted;
              to_be_signed_length = rsa_signature_input_length;
            }))
        else if kind == ckk_ec
        then (if ltb to_be_signed_size len
            then none
            else some (record {
              ret = ckr_ok;
              mechanism = ckm_ecdsa;
              to_be_signed = hash;
              to_be_signed_length = len;
            }))
        else some (record {
          ret = ckr_arguments_bad;
          mechanism = 0;
          to_be_signed = [];
          to_be_signed_length = to_be_signed_size;
        })

    -- The conversion of an ECDSA signature behind C_Sign.
    unfoldable pub convert_signature : ℕ → Signed → Signed
    convert_signature kind r =
        if is_ok r.ret && kind == ckk_ec
        then (if r.sig_length == ecdsa_p256_signature_length
            then (let (converted, len) = tls.to_mbedtls_signature r.sig r.sig_length in
                record { ret = ckr_ok; sig = converted; sig_length = len })
            else record r { ret = ckr_function_failed })
        else r

    -- C_SignInit, C_Sign and the conversion, behind the format, with the old buffer and length.
    unfoldable pub sign_formatted : ToSign → List ℕ → ℕ → Context W → Signed × Context W
    sign_formatted formatted sig sig_length ctx =
        let (rv, w₁) =
          p11.sign_init ctx.p11_session formatted.mechanism ctx.p11_private_key ctx.world in
        if is_ok rv
        then (let (rv', sig', len', w₂) =
              p11.sign ctx.p11_session formatted.to_be_signed formatted.to_be_signed_length
                to_be_signed_size w₁ in
            (
              convert_signature ctx.key_type (record { ret = rv'; sig = sig'; sig_length = len' }),
              record ctx { world = w₂ },
            ))
        else (record { ret = rv; sig = sig; sig_length = sig_length }, record ctx { world = w₁ })

    -- `privateKeySigningCallback` of a hash and its length, with the old signature buffer and length:
    -- `result`, and `ret` and both behind the call. `ret` is only logged.
    unfoldable pub private_key_signing_callback :
        List ℕ → ℕ → List ℕ → ℕ → Context W → Option (ℕ × Signed × Context W)
    private_key_signing_callback hash len sig sig_length ctx =
        elim (format_hash ctx.key_type hash len) [
          | none ↦ none
          | some formatted ↦
              if is_ok formatted.ret
              then (let (signed, ctx') = sign_formatted formatted sig sig_length ctx in
                  some (0, signed, ctx'))
              else some (0, record { ret = formatted.ret; sig = sig; sig_length = sig_length }, ctx)
        ]
