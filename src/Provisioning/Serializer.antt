-- ===== src/Provisioning/Serializer.antt =====
-- fleet_provisioning_serializer.c: the request and the responses of the Fleet Provisioning API, over
-- TinyCBOR.
pub mod Parse
pub mod Generate
use Prim.Native.String.{String}
use embedded_provisioning_sd.Prelude.{
  ℕ, ◌+◌, Bool, true, false, Option, none, some, List, [], ◌∷◌, if◌then◌else◌,
}

-- `CborError`, as far as the code tells its values apart.
pub data CborError : Type 0 where
  no_error out_of_memory : CborError
  other_error : ℕ → CborError

-- `CborType` likewise.
pub data CborType : Type 0 where
  invalid_type text_string_type other_type : CborType

abbrev pub is_no_error : CborError → Bool
is_no_error no_error = true
is_no_error out_of_memory = false
is_no_error (other_error n) = false

-- A caller's buffer with the length variable beside it.
pub record TextBuffer : Type 0 where
  pub bytes : List ℕ
  pub length : ℕ

-- The four output buffers.
pub record KeyCert : Type 0 where
  pub certificate : TextBuffer
  pub certificate_id : TextBuffer
  pub private_key : TextBuffer
  pub ownership_token : TextBuffer

-- What the parsers take from TinyCBOR; `V` is `CborValue`.
pub record CborParser (V : Type 0) : Type 0 where
  -- `cbor_parser_init` on a payload and its length
  pub parser_init : List ℕ → ℕ → CborError × V
  pub is_map : V → Bool
  -- `cbor_value_map_find_value`
  pub map_find_value : V → String → CborError × V
  pub value_type : V → CborType
  -- `cbor_value_copy_text_string` into a buffer
  pub copy_text_string : V → TextBuffer → CborError × TextBuffer

module _ {V : Type 0} (cbor : CborParser V) where
  -- The block that looks up one key; where a key is missing or its value is no text the error stays
  -- `CborNoError`, and a message is logged.
  unfoldable pub parse_field : V → String → TextBuffer → CborError × TextBuffer
  parse_field map key buffer =
      let (error, value) = cbor.map_find_value map key in
      if is_no_error error
      then elim (cbor.value_type value) [
        | text_string_type ↦ cbor.copy_text_string value buffer
        | invalid_type ↦ (no_error, buffer)
        | other_type ↦ (no_error, buffer)
      ]
      else (error, buffer)

  -- The first block, behind `cbor_parser_init`: a payload that is no map is only logged.
  unfoldable pub parse_first : List ℕ → ℕ → String → TextBuffer → CborError × V × TextBuffer
  parse_first response len key buffer =
      let (error, map) = cbor.parser_init response len in
      if is_no_error error
      then (if cbor.is_map map
          then (let (error', buffer') = parse_field map key buffer in (error', map, buffer'))
          else (no_error, map, buffer))
      else (error, map, buffer)

  -- A block under `if( cborRet == CborNoError )`.
  unfoldable pub parse_next : CborError → V → String → TextBuffer → CborError × TextBuffer
  parse_next error map key buffer =
      if is_no_error error then parse_field map key buffer else (error, buffer)

  -- `parseKeyCertResponse`, where its asserts hold: no pointer is NULL, and `*pCertificateIdBufferLength`
  -- is at least 64.
  unfoldable pub parse_key_cert_response : List ℕ → ℕ → KeyCert → Bool × KeyCert
  parse_key_cert_response response len out =
      let (e₁, map, certificate) = parse_first response len "certificatePem" out.certificate in
      let (e₂, certificate_id) = parse_next e₁ map "certificateId" out.certificate_id in
      let (e₃, private_key) = parse_next e₂ map "privateKey" out.private_key in
      let (e₄, ownership_token) =
        parse_next e₃ map "certificateOwnershipToken" out.ownership_token in
      (
        is_no_error e₄,
        record {
          certificate = certificate;
          certificate_id = certificate_id;
          private_key = private_key;
          ownership_token = ownership_token;
        },
      )

  -- `parseRegisterThingResponse`
  unfoldable pub parse_register_thing_response : List ℕ → ℕ → TextBuffer → Bool × TextBuffer
  parse_register_thing_response response len thing_name =
      let (error, map, buffer) = parse_first response len "thingName" thing_name in
      (is_no_error error, buffer)

-- What the request takes from TinyCBOR; `E` is `CborEncoder`.
pub record CborEncoder (E : Type 0) : Type 0 where
  -- `cbor_encoder_init` on a buffer of a size
  pub encoder_init : ℕ → E
  -- `cbor_encoder_create_map`: the parent and the child behind the call
  pub create_map : E → ℕ → CborError × E × E
  pub encode_text_stringz : E → String → CborError × E
  pub encode_text_string : E → List ℕ → ℕ → CborError × E
  -- `cbor_encoder_close_container` of a parent and its child
  pub close_container : E → E → CborError × E
  -- The bytes written, and their number by `cbor_encoder_get_buffer_size`.
  pub written : E → List ℕ
  pub buffer_size : E → ℕ

-- A chain of calls under `if( cborRet == CborNoError )`.
pub data Encoded (A : Type 0) : Type 0 where
  encoded : A → Encoded A
  failed : CborError → Encoded A

infixl 5 ◌>>=◌
abbrev pub ◌>>=◌ : {A B : Type 0} → Encoded A → (A → Encoded B) → Encoded B
encoded a >>= f = f a
failed e >>= f = failed e

abbrev pub check : {A : Type 0} → CborError → A → Encoded A
check no_error a = encoded a
check out_of_memory a = failed out_of_memory
check (other_error n) a = failed (other_error n)

module _ {E : Type 0} (cbor : CborEncoder E) where
  abbrev pub begin_map : E → ℕ → Encoded (E × E)
  begin_map e n = let (error, parent, child) = cbor.create_map e n in check error (parent, child)

  abbrev pub put_key : E → String → Encoded E
  put_key e key = let (error, e') = cbor.encode_text_stringz e key in check error e'

  abbrev pub put_text : E → List ℕ → ℕ → Encoded E
  put_text e text len = let (error, e') = cbor.encode_text_string e text len in check error e'

  abbrev pub end_map : E → E → Encoded E
  end_map parent child = let (error, e') = cbor.close_container parent child in check error e'

  -- The calls of `generateRegisterThingRequest`, as far as they succeed.
  unfoldable pub encode_request : ℕ → List ℕ → ℕ → List ℕ → ℕ → Encoded E
  encode_request buffer_length token token_length serial serial_length = do
    (encoder, map) ← begin_map (cbor.encoder_init buffer_length) 2
    map₁ ← put_key map "certificateOwnershipToken"
    map₂ ← put_text map₁ token token_length
    map₃ ← put_key map₂ "parameters"
    (map₄, parameters) ← begin_map map₃ 1
    parameters₁ ← put_key parameters "SerialNumber"
    parameters₂ ← put_text parameters₁ serial serial_length
    map₅ ← end_map map₄ parameters₂
    end_map encoder map₅

  -- `generateRegisterThingRequest`: `some` is `true`, with the bytes in the buffer and
  -- `*pOutLengthWritten`.
  unfoldable pub generate_register_thing_request : ℕ → List ℕ → ℕ → List ℕ → ℕ → Option (List ℕ × ℕ)
  generate_register_thing_request buffer_length token token_length serial serial_length =
      elim (encode_request buffer_length token token_length serial serial_length) [
        | encoded e ↦ some (cbor.written e, cbor.buffer_size e)
        | failed error ↦ none
      ]
