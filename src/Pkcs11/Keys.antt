-- ===== src/Pkcs11/Keys.antt =====
-- pkcs11_operations.c: `provisionPrivateKey` and the two kinds of keys.
pub mod Laws
use embedded_provisioning_sd.Prelude.{
  ℕ, ◌+◌, ◌*◌, ◌/◌, Bool, true, false, ◌&&◌, List, [], ◌∷◌, ◌++◌, ◌==◌, if◌then◌else◌, length, drop,
}
use embedded_provisioning_sd.Pkcs11.Module.{
  Module, ckr_ok, ckr_host_memory, ckr_arguments_bad, ckr_attribute_value_invalid,
  ckr_curve_not_supported, cko_private_key, ckk_rsa, ckk_ec, AttributeType, class, key_type, label,
  token, sign, value, ec_params, modulus, private_exponent, public_exponent, prime_1, prime_2,
  exponent_1, exponent_2, coefficient, AttributeValue, number, flag, bytes, Attribute,
}
use embedded_provisioning_sd.Pkcs11.Objects.{is_ok, on_ok, prepare}

-- EC_PARAMS_LENGTH, EC_D_LENGTH, MODULUS_LENGTH, E_LENGTH, D_LENGTH, and the length of the others.
abbrev pub ec_params_length : ℕ
ec_params_length = 10

abbrev pub ec_d_length : ℕ
ec_d_length = 32

abbrev pub modulus_length : ℕ
modulus_length = 2048 / 8

abbrev pub e_length : ℕ
e_length = 3

abbrev pub d_length : ℕ
d_length = 2048 / 8

abbrev pub prime_length : ℕ
prime_length = 128

-- `mbedtls_pk_type_t`, as far as the code tells its values apart.
pub data KeyKind : Type 0 where
  rsa_key ec_key other_key : KeyKind

-- `RsaParams_t`: each buffer with the leading byte that is skipped.
pub record RsaParams : Type 0 where
  pub modulus : List ℕ
  pub e : List ℕ
  pub d : List ℕ
  pub prime1 : List ℕ
  pub prime2 : List ℕ
  pub exponent1 : List ℕ
  pub exponent2 : List ℕ
  pub coefficient : List ℕ

-- What the file takes from mbedTLS for keys; `K` is a parsed key.
pub record KeyParser (K : Type 0) : Type 0 where
  -- `mbedtls_pk_parse_key` of bytes and their number, and whether it gave 0
  pub parse_key : List ℕ → ℕ → Bool × K
  -- `mbedtls_pk_get_type`
  pub key_kind : K → KeyKind
  -- `mbedtls_mpi_write_binary` of the private value of an EC key
  pub write_d : K → Bool × List ℕ
  -- `grp.id == MBEDTLS_ECP_DP_SECP256R1`, and MBEDTLS_OID_EC_GRP_SECP256R1
  pub is_secp256r1 : K → Bool
  pub oid_secp256r1 : List ℕ
  -- `mbedtls_rsa_export_raw` and the three exports behind it, with the buffers that they leave
  pub export_raw : K → Bool
  pub write_dp : K → Bool
  pub write_dq : K → Bool
  pub write_qp : K → Bool
  pub rsa_params : K → RsaParams

abbrev attribute : AttributeType → AttributeValue → Attribute
attribute t v = record { type = t; value = v }

-- The attributes that both templates begin with.
abbrev pub key_attributes : ℕ → List ℕ → List Attribute
key_attributes kind name =
    attribute class (number cko_private_key)
    ∷ attribute key_type (number kind)
    ∷ attribute label (bytes name (length name))
    ∷ attribute token (flag true)
    ∷ attribute sign (flag true)
    ∷ []

abbrev pub ec_template : List ℕ → List ℕ → List ℕ → List Attribute
ec_template name oid d =
    key_attributes ckk_ec name
    ++ attribute ec_params (bytes (0x06 ∷ 0x08 ∷ oid) ec_params_length)
      ∷ attribute value (bytes d ec_d_length)
      ∷ []

abbrev pub rsa_template : List ℕ → RsaParams → List Attribute
rsa_template name r =
    key_attributes ckk_rsa name
    ++ attribute modulus (bytes (drop 1 r.modulus) modulus_length)
      ∷ attribute private_exponent (bytes (drop 1 r.d) d_length)
      ∷ attribute public_exponent (bytes (drop 1 r.e) e_length)
      ∷ attribute prime_1 (bytes (drop 1 r.prime1) prime_length)
      ∷ attribute prime_2 (bytes (drop 1 r.prime2) prime_length)
      ∷ attribute exponent_1 (bytes (drop 1 r.exponent1) prime_length)
      ∷ attribute exponent_2 (bytes (drop 1 r.exponent2) prime_length)
      ∷ attribute coefficient (bytes (drop 1 r.coefficient) prime_length)
      ∷ []

-- `sizeof( RsaParams_t )`
abbrev pub rsa_params_size : ℕ
rsa_params_size = (modulus_length + 1) + (e_length + 1) + (d_length + 1) + 5 * (prime_length + 1)

module _ {W K : Type 0} (p11 : Module W) (keys : KeyParser K) (session : ℕ) where
  -- `provisionPrivateECKey` behind the buffer's allocation.
  unfoldable pub create_ec_key : List ℕ → K → W → ℕ × W
  create_ec_key name key w =
      let (written, d) = keys.write_d key in
      if written
      then (if keys.is_secp256r1 key
          then p11.create_object session (ec_template name keys.oid_secp256r1 d) w
          else (ckr_curve_not_supported, w))
      else (ckr_attribute_value_invalid, w)

  -- `provisionPrivateECKey`
  unfoldable pub provision_private_ec_key : List ℕ → K → W → ℕ × W
  provision_private_ec_key name key w = on_ok (prepare p11 ec_d_length w) (create_ec_key name key)

  -- `provisionPrivateRSAKey` behind the buffer's allocation.
  unfoldable pub create_rsa_key : List ℕ → K → W → ℕ × W
  create_rsa_key name key w =
      if keys.export_raw key && (keys.write_dp key && (keys.write_dq key && keys.write_qp key))
      then p11.create_object session (rsa_template name (keys.rsa_params key)) w
      else (ckr_attribute_value_invalid, w)

  -- `provisionPrivateRSAKey`
  unfoldable pub provision_private_rsa_key : List ℕ → K → W → ℕ × W
  provision_private_rsa_key name key w =
      on_ok (prepare p11 rsa_params_size w) (create_rsa_key name key)

  -- `provisionPrivateKey` of a key in PEM format, its length with the terminator, and a label.
  unfoldable pub provision_private_key : List ℕ → ℕ → List ℕ → W → ℕ × W
  provision_private_key text len name w =
      let (parsed, key) = keys.parse_key text len in
      if parsed
      then elim (keys.key_kind key) [
        | rsa_key ↦ provision_private_rsa_key name key w
        | ec_key ↦ provision_private_ec_key name key w
        | other_key ↦ (ckr_arguments_bad, w)
      ]
      else (ckr_arguments_bad, w)
