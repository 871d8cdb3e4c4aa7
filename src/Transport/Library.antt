-- ===== src/Transport/Library.antt =====
-- What mbedtls_pkcs11_posix.c takes from mbedTLS and from corePKCS11's utilities, as functions on a
-- state `W` of the world, which holds the socket and the mbedTLS structures of the context.
use embedded_provisioning_sd.Prelude.{ℕ, Bool, true, false, Option, List, ◌≡◌, refl, ◌⊎◌, inl, inr}
use embedded_provisioning_sd.Pkcs11.Keys.{KeyKind}

-- The structures that `contextInit` and `contextFree` handle.
pub data Part : Type 0 where
  socket ssl config root_ca client_cert : Part

-- The calls that only set something, and whose result, if they have one, is not read.
pub data Setting : Type 0 where
  verify_required random_generator cert_profile : Setting
  read_timeout : ℕ → Setting
  debug_callback debug_threshold : Setting
  ca_chain own_cert bio : Setting

-- A result of mbedTLS: a number that is not negative, one of the three retriable errors, or another.
pub data SslResult : Type 0 where
  count : ℕ → SslResult
  want_read want_write timed_out : SslResult
  error : ℕ → SslResult

-- A Boolean result says that a call returned 0.
pub record Tls (W : Type 0) : Type 0 where
  pub init : Part → W → W
  pub free : Part → W → W
  pub set : Setting → W → W
  pub config_defaults : W → Bool × W
  -- `mbedtls_x509_crt_parse_file` of a path into the root CA
  pub parse_root_ca : List ℕ → W → Bool × W
  -- `mbedtls_x509_crt_parse` of bytes and their number into the client certificate
  pub parse_client_cert : List ℕ → ℕ → W → Bool × W
  pub alpn_protocols : List (List ℕ) → W → Bool × W
  pub set_hostname : List ℕ → W → Bool × W
  pub ssl_setup : W → Bool × W
  -- Whether MBEDTLS_SSL_MAX_FRAGMENT_LENGTH is defined, and the call behind it.
  pub has_max_fragment_length : Bool
  pub max_frag_len : W → Bool × W
  pub net_connect : List ℕ → List ℕ → W → Bool × W
  pub handshake : W → SslResult × W
  pub verify_result : W → ℕ
  pub close_notify : W → SslResult × W
  pub read : ℕ → W → SslResult × List ℕ × W
  pub write : List ℕ → ℕ → W → SslResult × W
  -- `vAppendSHA256AlgorithmIdentifierSequence`: a `CK_RV` and the bytes to be signed.
  pub append_sha256_identifier : List ℕ → ℕ × List ℕ
  -- `PKI_pkcs11SignatureTombedTLSSignature`
  pub to_mbedtls_signature : List ℕ → ℕ → List ℕ × ℕ

-- `MbedtlsPkcs11Context_t` behind the structures that the world holds. `algorithm` is that of
-- `privKey`, once it signs by `privateKeySigningCallback`.
pub record Context (W : Type 0) : Type 0 where
  pub world : W
  pub p11_session : ℕ
  pub p11_private_key : ℕ
  pub key_type : ℕ
  pub algorithm : Option KeyKind

-- `MbedtlsPkcs11Status_t`
pub data Status : Type 0 where
  success invalid_parameter insufficient_memory invalid_credentials : Status
  handshake_failed internal_error connect_failure : Status

abbrev pub is_success : Status → Bool
is_success success = true
is_success invalid_parameter = false
is_success insufficient_memory = false
is_success invalid_credentials = false
is_success handshake_failed = false
is_success internal_error = false
is_success connect_failure = false

pub Status-cases : (s : Status) → (s ≡ success) ⊎ (is_success s ≡ false)
Status-cases success = inl refl
Status-cases invalid_parameter = inr refl
Status-cases insufficient_memory = inr refl
Status-cases invalid_credentials = inr refl
Status-cases handshake_failed = inr refl
Status-cases internal_error = inr refl
Status-cases connect_failure = inr refl

-- `MbedtlsPkcs11Credentials_t`, with `none` for NULL.
pub record Credentials : Type 0 where
  pub alpn_protos : Option (List (List ℕ))
  pub disable_sni : Bool
  pub root_ca_path : Option (List ℕ)
  pub client_cert_label : Option (List ℕ)
  pub private_key_label : Option (List ℕ)
  pub p11_session : ℕ
