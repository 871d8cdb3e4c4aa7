-- ===== src/Provisioning/Serializer/Parse.antt =====
-- What the answers of the parsers mean for the buffers.
use Prim.Native.String.{String}
use embedded_provisioning_sd.Prelude.{
  ℕ, subst, ◌≡◌, ◌≢◌, refl, ◌⊎◌, inl, inr, true, false, List, Bool-cases,
}
use embedded_provisioning_sd.Provisioning.Serializer.{
  CborError, no_error, out_of_memory, other_error, CborType, invalid_type, text_string_type,
  other_type, is_no_error, TextBuffer, CborParser, parse_field, parse_first, parse_next, KeyCert,
  parse_key_cert_response, parse_register_thing_response,
}

module _ {V : Type 0} (cbor : CborParser V) where
  -- The lookup of the key gives a text.
  abbrev pub IsText : V → String → Type 0
  IsText map key = cbor.value_type (cbor.map_find_value map key).1 ≡ text_string_type

  -- A field behind a parser that returned true: the text of the key was copied without an error; or the
  -- key is not there or no text, and the buffer is untouched.
  abbrev pub FieldOf : V → String → TextBuffer → TextBuffer → Type 0
  FieldOf map key before after =
      (IsText map key
        × (cbor.copy_text_string (cbor.map_find_value map key).1 before ≡ (no_error, after)))
      ⊎ ((cbor.value_type (cbor.map_find_value map key).1 ≢ text_string_type) × (after ≡ before))

  no_error_of : (e : CborError) → is_no_error e ≡ true → e ≡ no_error
  no_error_of no_error h = refl
  no_error_of out_of_memory h = cc
  no_error_of (other_error n) h = cc

  CborType-cases : (t : CborType) → (t ≡ text_string_type) ⊎ ((t ≡ invalid_type) ⊎ (t ≡ other_type))
  CborType-cases text_string_type = inl refl
  CborType-cases invalid_type = inr (inl refl)
  CborType-cases other_type = inr (inr refl)

  parse_field-FieldOf :
      (map : V) (key : String) (buffer : TextBuffer)
      → is_no_error (parse_field cbor map key buffer).0 ≡ true
      → FieldOf map key buffer (parse_field cbor map key buffer).1
  unfolding parse_field
  parse_field-FieldOf map key buffer ok =
      let (error, value) = cbor.map_find_value map key in
      elim (Bool-cases (is_no_error error)) [
        | inr bad ↦ let impossible : is_no_error error ≡ true = rw bad at ok in cc (impossible, bad)
        | inl good ↦ elim (CborType-cases (cbor.value_type value)) [
          | inl text ↦
              let copied = cbor.copy_text_string value buffer in
              let ok' : is_no_error copied.0 ≡ true = rw (good, text) at ok in
              rw (good, text) (inl (refl, λ i. (no_error_of copied.0 ok' i, copied.1)))
          | inr (inl missing) ↦ rw (good, missing) (inr (λ e. cc e, refl))
          | inr (inr other) ↦ rw (good, other) (inr (λ e. cc e, refl))
        ]
      ]

  parse_next-FieldOf :
      (error : CborError) (map : V) (key : String) (buffer : TextBuffer)
      → is_no_error (parse_next cbor error map key buffer).0 ≡ true
      → (is_no_error error ≡ true) × FieldOf map key buffer (parse_next cbor error map key buffer).1
  unfolding parse_next
  parse_next-FieldOf error map key buffer ok = elim (Bool-cases (is_no_error error)) [
    | inl good ↦
        let ok' : is_no_error (parse_field cbor map key buffer).0 ≡ true = rw good at ok in
        rw good (refl, parse_field-FieldOf map key buffer ok')
    | inr bad ↦ let impossible : is_no_error error ≡ true = rw bad at ok in cc (impossible, bad)
  ]

  parse_first-FieldOf :
      (response : List ℕ) (len : ℕ) (key : String) (buffer : TextBuffer)
      → cbor.is_map (cbor.parser_init response len).1 ≡ true
      → is_no_error (parse_first cbor response len key buffer).0 ≡ true
      → ((parse_first cbor response len key buffer).1 ≡ (cbor.parser_init response len).1)
        × FieldOf
            (cbor.parser_init response len).1
            key
            buffer
            (parse_first cbor response len key buffer).2
  unfolding parse_first
  parse_first-FieldOf response len key buffer map ok =
      let (error, value) = cbor.parser_init response len in
      elim (Bool-cases (is_no_error error)) [
        | inl good ↦
            let ok' : is_no_error (parse_field cbor value key buffer).0 ≡ true =
              rw (good, map) at ok in
            rw (good, map) (refl, parse_field-FieldOf value key buffer ok')
        | inr bad ↦ let impossible : is_no_error error ≡ true = rw bad at ok in cc (impossible, bad)
      ]

  -- When `parseKeyCertResponse` returns true on a payload that is a map, each of the four buffers holds
  -- the text of its key, copied without an error, or is untouched, its key being not there or no text.
  pub parse_key_cert_response_lem :
      (response : List ℕ) (len : ℕ) (out : KeyCert)
      → cbor.is_map (cbor.parser_init response len).1 ≡ true
      → (parse_key_cert_response cbor response len out).0 ≡ true
      → let map = (cbor.parser_init response len).1 in
        let out' = (parse_key_cert_response cbor response len out).1 in
        FieldOf map "certificatePem" out.certificate out'.certificate
        × FieldOf map "certificateId" out.certificate_id out'.certificate_id
        × FieldOf map "privateKey" out.private_key out'.private_key
        × FieldOf map "certificateOwnershipToken" out.ownership_token out'.ownership_token
  unfolding parse_key_cert_response
  parse_key_cert_response_lem response len out is_map ok =
      let (e₁, map, c) = parse_first cbor response len "certificatePem" out.certificate in
      let (e₂, i) = parse_next cbor e₁ map "certificateId" out.certificate_id in
      let (e₃, p) = parse_next cbor e₂ map "privateKey" out.private_key in
      let (ok₃, token) =
        parse_next-FieldOf e₃ map "certificateOwnershipToken" out.ownership_token ok in
      let (ok₂, private) = parse_next-FieldOf e₂ map "privateKey" out.private_key ok₃ in
      let (ok₁, id) = parse_next-FieldOf e₁ map "certificateId" out.certificate_id ok₂ in
      let (same, certificate) =
        parse_first-FieldOf response len "certificatePem" out.certificate is_map ok₁ in
      (
        certificate,
        subst (λ v. FieldOf v "certificateId" out.certificate_id i) same id,
        subst (λ v. FieldOf v "privateKey" out.private_key p) same private,
        subst
            (λ v.
              FieldOf v "certificateOwnershipToken" out.ownership_token
                (parse_next cbor e₃ map "certificateOwnershipToken" out.ownership_token).1)
            same token,
      )

  -- The lookup of the key reports no error, and finds nothing or a value that is no text.
  abbrev pub IsMissing : V → String → Type 0
  IsMissing map key =
      ((cbor.map_find_value map key).0 ≡ no_error)
      × (cbor.value_type (cbor.map_find_value map key).1 ≡ invalid_type)

  parse_field_missing :
      (map : V) (key : String) (buffer : TextBuffer)
      → IsMissing map key
      → parse_field cbor map key buffer ≡ (no_error, buffer)
  unfolding parse_field
  parse_field_missing map key buffer (found, missing) = rw (found, missing)

  -- A response that is a map without any of the four keys is accepted: `parseKeyCertResponse` returns
  -- true and leaves every buffer as it was, when the lookups report no error.
  pub parse_key_cert_response_missing :
      (response : List ℕ) (len : ℕ) (out : KeyCert)
      → (cbor.parser_init response len).0 ≡ no_error
      → cbor.is_map (cbor.parser_init response len).1 ≡ true
      → IsMissing (cbor.parser_init response len).1 "certificatePem"
      → IsMissing (cbor.parser_init response len).1 "certificateId"
      → IsMissing (cbor.parser_init response len).1 "privateKey"
      → IsMissing (cbor.parser_init response len).1 "certificateOwnershipToken"
      → parse_key_cert_response cbor response len out ≡ (true, out)
  unfolding parse_key_cert_response parse_first parse_next
  parse_key_cert_response_missing response len out init is_map m₁ m₂ m₃ m₄ =
      let map = (cbor.parser_init response len).1 in
      rw (
        init,
        is_map,
        parse_field_missing map "certificatePem" out.certificate m₁,
        parse_field_missing map "certificateId" out.certificate_id m₂,
        parse_field_missing map "privateKey" out.private_key m₃,
        parse_field_missing map "certificateOwnershipToken" out.ownership_token m₄,
      )

  -- When `parseRegisterThingResponse` returns true on a payload that is a map, the buffer holds the text
  -- of `thingName`, copied without an error, or is untouched, the key being not there or no text; on a
  -- payload that is no map it returns true and leaves the buffer.
  pub parse_register_thing_response_lem :
      (response : List ℕ) (len : ℕ) (thing_name : TextBuffer)
      → (cbor.is_map (cbor.parser_init response len).1 ≡ true
          → (parse_register_thing_response cbor response len thing_name).0 ≡ true
          → FieldOf
              (cbor.parser_init response len).1
              "thingName"
              thing_name
              (parse_register_thing_response cbor response len thing_name).1)
        × ((cbor.parser_init response len).0 ≡ no_error
            → cbor.is_map (cbor.parser_init response len).1 ≡ false
            → parse_register_thing_response cbor response len thing_name ≡ (true, thing_name))
  unfolding parse_register_thing_response parse_first
  parse_register_thing_response_lem response len thing_name = (
    λ is_map ok. (parse_first-FieldOf response len "thingName" thing_name is_map ok).1,
    λ init no_map. rw (init, no_map),
  )
