-- ===== src/Pkcs11/Module.antt =====
-- What pkcs11_operations.c and the TLS transport take from a PKCS #11 module and from corePKCS11's
-- utilities, as functions on a state `W` of the world, which holds the token.
use embedded_provisioning_sd.Prelude.{ℕ, Bool, List}

-- Values of the PKCS #11 standard: `CK_RV`, `CK_OBJECT_CLASS`, `CK_KEY_TYPE`, `CK_ATTRIBUTE_TYPE`,
-- `CK_MECHANISM_TYPE` and `CK_INVALID_HANDLE`.
abbrev pub ckr_ok : ℕ
ckr_ok = 0

abbrev pub ckr_host_memory : ℕ
ckr_host_memory = 0x2

abbrev pub ckr_function_failed : ℕ
ckr_function_failed = 0x6

abbrev pub ckr_arguments_bad : ℕ
ckr_arguments_bad = 0x7

abbrev pub ckr_attribute_value_invalid : ℕ
ckr_attribute_value_invalid = 0x13

abbrev pub ckr_object_handle_invalid : ℕ
ckr_object_handle_invalid = 0x82

abbrev pub ckr_curve_not_supported : ℕ
ckr_curve_not_supported = 0x140

abbrev pub invalid_handle : ℕ
invalid_handle = 0

abbrev pub cko_certificate : ℕ
cko_certificate = 1

abbrev pub cko_private_key : ℕ
cko_private_key = 3

abbrev pub ckk_rsa : ℕ
ckk_rsa = 0

abbrev pub ckk_ec : ℕ
ckk_ec = 3

abbrev pub ckm_rsa_pkcs : ℕ
ckm_rsa_pkcs = 0x1

abbrev pub ckm_ecdsa : ℕ
ckm_ecdsa = 0x1041

-- The attributes that the templates name.
pub data AttributeType : Type 0 where
  class key_type certificate_type label subject token sign value : AttributeType
  ec_params modulus private_exponent public_exponent : AttributeType
  prime_1 prime_2 exponent_1 exponent_2 coefficient : AttributeType

pub data AttributeValue : Type 0 where
  number : ℕ → AttributeValue
  flag : Bool → AttributeValue
  -- Bytes at a pointer, and `ulValueLen`.
  bytes : List ℕ → ℕ → AttributeValue

-- `CK_ATTRIBUTE`
pub record Attribute : Type 0 where
  pub type : AttributeType
  pub value : AttributeValue

pub record Module (W : Type 0) : Type 0 where
  pub get_function_list : W → ℕ × W
  -- `xFindObjectWithLabelAndClass`, with the handle's old value: the handle behind the call.
  pub find_object : ℕ → List ℕ → ℕ → ℕ → W → ℕ × ℕ × W
  pub create_object : ℕ → List Attribute → W → ℕ × W
  pub destroy_object : ℕ → ℕ → W → ℕ × W
  -- `C_GetAttributeValue` of CKA_KEY_TYPE, with the old value: the value behind the call.
  pub get_key_type : ℕ → ℕ → ℕ → W → ℕ × ℕ × W
  -- `C_GetAttributeValue` of CKA_VALUE: without a buffer it gives the length, with one the bytes and
  -- the length.
  pub get_value_length : ℕ → ℕ → W → ℕ × ℕ × W
  pub get_value : ℕ → ℕ → ℕ → W → ℕ × List ℕ × ℕ × W
  pub generate_random : ℕ → ℕ → W → ℕ × List ℕ × W
  pub sign_init : ℕ → ℕ → ℕ → W → ℕ × W
  -- `C_Sign` of bytes and their number into a buffer of a size: the signature and its length.
  pub sign : ℕ → List ℕ → ℕ → ℕ → W → ℕ × List ℕ × ℕ × W
  pub close_session : ℕ → W → ℕ × W
  pub finalize : W → ℕ × W
  -- Whether `malloc` gives a block of the size.
  pub allocate : ℕ → W → Bool × W
