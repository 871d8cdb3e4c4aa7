-- ===== src/Provisioning/Tests.antt =====
-- The theorems on the serializer and the responses at concrete inputs.
use embedded_provisioning_sd.Prelude.{
  ℕ, ◌≡◌, refl, Bool, true, false, some, List, [], ◌∷◌, ◌++◌, ◌==◌, if◌then◌else◌,
}
use embedded_provisioning_sd.Mqtt.Library.{Packet, State, Ends}
use embedded_provisioning_sd.Mqtt.Tests.{library}
use embedded_provisioning_sd.Provisioning.Serializer.{
  no_error, invalid_type, text_string_type, TextBuffer, KeyCert, CborParser, parse_field,
  parse_first, parse_next, parse_key_cert_response, CborEncoder, encode_request,
  generate_register_thing_request,
}
use embedded_provisioning_sd.Provisioning.Serializer.Parse.{
  FieldOf, parse_key_cert_response_lem, parse_key_cert_response_missing,
}
use embedded_provisioning_sd.Provisioning.Serializer.Generate.{
  Item, map_of, key, text, map_end, Writes, request_items, generate_register_thing_request_lem,
}
use embedded_provisioning_sd.Provisioning.Response.{
  response_accepted, create_keys_and_cert_rejected, App, MatchFleetTopic, wait_for_response,
}
use embedded_provisioning_sd.Provisioning.Response.Laws.{wait_for_response_needs_accept}

-- A payload is a map, which is 1; its keys lead to a text, which is 2, or to nothing.
abbrev pub parser : Bool → CborParser ℕ
parser has_keys = record {
  parser_init = λ response len. (no_error, 1);
  is_map = λ v. v == 1;
  map_find_value = λ v name. (no_error, if has_keys then 2 else 0);
  value_type = λ v. if v == 2 then text_string_type else invalid_type;
  copy_text_string = λ v b. (no_error, record { bytes = 65 ∷ []; length = 1 });
}

abbrev blank : TextBuffer
blank = record { bytes = 0 ∷ 0 ∷ []; length = 2 }

abbrev letter : TextBuffer
letter = record { bytes = 65 ∷ []; length = 1 }

abbrev pub blanks : KeyCert
blanks = record {
  certificate = blank;
  certificate_id = record blank { length = 64 };
  private_key = blank;
  ownership_token = blank;
}

parse_key_cert_response_lem_example :
    FieldOf (parser true) 1 "certificatePem" blank letter
    × FieldOf (parser true) 1 "certificateId" (record blank { length = 64 }) letter
    × FieldOf (parser true) 1 "privateKey" blank letter
    × FieldOf (parser true) 1 "certificateOwnershipToken" blank letter
unfolding parse_key_cert_response parse_first parse_next parse_field
parse_key_cert_response_lem_example =
    parse_key_cert_response_lem (parser true) (1 ∷ []) 1 blanks refl refl

parse_key_cert_response_missing_example :
    parse_key_cert_response (parser false) (1 ∷ []) 1 blanks ≡ (true, blanks)
parse_key_cert_response_missing_example =
    parse_key_cert_response_missing (parser false) (1 ∷ []) 1 blanks refl refl (refl, refl)
      (refl, refl) (refl, refl) (refl, refl)

-- An encoder that keeps the items, and writes no bytes.
abbrev pub encoder : CborEncoder (List Item)
encoder = record {
  encoder_init = λ size. [];
  create_map = λ e n. (no_error, e, e ++ map_of n ∷ []);
  encode_text_stringz = λ e k. (no_error, e ++ key k ∷ []);
  encode_text_string = λ e t n. (no_error, e ++ text t n ∷ []);
  close_container = λ parent child. (no_error, child ++ map_end ∷ []);
  written = λ e. [];
  buffer_size = λ e. 0;
}

encoder-Writes : Writes encoder (λ e. e)
encoder-Writes = record {
  starts = λ size. refl;
  opens = λ e n ok. refl;
  writes_key = λ e k ok. refl;
  writes_text = λ e t n ok. refl;
  closes = λ parent child ok. refl;
}

generate_register_thing_request_lem_example :
    (e : List Item) × (e ≡ request_items encoder (7 ∷ []) 1 (8 ∷ 9 ∷ []) 2)
    × (◌≡◌ {A = List ℕ × ℕ} ([], 0) (encoder.written e, encoder.buffer_size e))
unfolding generate_register_thing_request encode_request
generate_register_thing_request_lem_example =
    generate_register_thing_request_lem encoder (λ e. e) encoder-Writes 64 (7 ∷ []) 1 (8 ∷ 9 ∷ []) 2
      ([], 0) refl

abbrev app : App
app = record {
  response_status = response_accepted;
  payload_buffer = 0 ∷ 0 ∷ [];
  payload_length = 0;
  thing_name = [];
  thing_name_length = 0;
}

abbrev pub reject_all : MatchFleetTopic
reject_all topic len = some create_keys_and_cert_rejected

abbrev pub state : ℕ → State ℕ App
state now = record {
  world = now;
  app = app;
  has_callback = true;
  ack_packet_id = 0;
  subscribe_packet_id = 0;
  unsubscribe_packet_id = 0;
  outgoing = [];
  session_established = false;
}

abbrev rejection : Packet
rejection = record {
  type = 0x30;
  packet_id = 0;
  publish = some (record {
    qos = 0;
    retain = false;
    dup = false;
    topic_name = 97 ∷ [];
    topic_name_length = 1;
    payload = [];
    payload_length = 0;
  });
}

wait_for_response_needs_accept_example :
    Ends
      (λ b _. b ≡ false)
      (wait_for_response (library true (rejection ∷ [])) reject_all 1001 (state 0))
wait_for_response_needs_accept_example =
    wait_for_response_needs_accept (library true (rejection ∷ [])) reject_all 1001 (state 0)
      (λ w. (refl, tt))
