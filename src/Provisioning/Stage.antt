-- ===== src/Provisioning/Stage.antt =====
-- fleet_provisioning_keys_cert_demo.c: the variables of `ProvisionDevicePKCS11WithFP`, and its pattern
-- `if( status == true ) { status = ...; }`.
pub mod Guarded
use embedded_provisioning_sd.Prelude.{ℕ, ◌*◌, Bool, false, List, [], ◌∷◌, if◌then◌else◌}
use embedded_provisioning_sd.Mqtt.Library.{Credentials, Run, done, aborted, unfinished}
use embedded_provisioning_sd.Provisioning.Serializer.{TextBuffer, KeyCert}

-- What the flow takes from the configuration: topics with their lengths, labels, the buffer's size, the
-- serial number with the length that `strnlen( pDeviceSerialNumber, 32 )` gives.
pub record Config : Type 0 where
  pub create_keys_accepted : List ℕ × ℕ
  pub create_keys_rejected : List ℕ × ℕ
  pub create_keys_publish : List ℕ × ℕ
  pub register_accepted : List ℕ × ℕ
  pub register_rejected : List ℕ × ℕ
  pub register_publish : List ℕ × ℕ
  pub claim_credentials : Credentials
  pub device_credentials : Credentials
  pub network_buffer_size : ℕ
  pub serial : List ℕ
  pub serial_length : ℕ

-- `loadPrivateKey` and `loadCertificate` of pkcs11_operations.c, on the text, its length and the label.
pub record KeyStore (W : Type 0) : Type 0 where
  pub load_private_key : List ℕ → ℕ → List ℕ → W → Bool × W
  pub load_certificate : List ℕ → ℕ → List ℕ → W → Bool × W

-- CERT_BUFFER_LENGTH, PRIV_KEY_BUFFER_LENGTH, CERT_ID_BUFFER_LENGTH, OWNERSHIP_TOKEN_BUFFER_LENGTH,
-- MAX_THING_NAME_LENGTH
abbrev pub cert_buffer_length : ℕ
cert_buffer_length = 2048

abbrev pub priv_key_buffer_length : ℕ
priv_key_buffer_length = 2048

abbrev pub cert_id_buffer_length : ℕ
cert_id_buffer_length = 64

abbrev pub ownership_token_buffer_length : ℕ
ownership_token_buffer_length = 512

abbrev pub max_thing_name_length : ℕ
max_thing_name_length = 128

-- FLEET_PROV_MAX_DEMO_LOOP_COUNT, and DELAY_BETWEEN_DEMO_RETRY_ITERATIONS_SECONDS in milliseconds
abbrev pub max_loop_count : ℕ
max_loop_count = 3

abbrev pub retry_delay_ms : ℕ
retry_delay_ms = 5 * 1000

-- The variables of `ProvisionDevicePKCS11WithFP` but its counter.
pub record Local : Type 0 where
  pub status : Bool
  pub connection_established : Bool
  pub key_cert : KeyCert

abbrev pub with_length : TextBuffer → ℕ → TextBuffer
with_length b n = record b { length = n }

-- The buffer lengths, as each iteration sets them.
abbrev pub reset_lengths : Local → Local
reset_lengths l =
    let k = l.key_cert in
    record l {
      key_cert = record {
        certificate = with_length k.certificate cert_buffer_length;
        certificate_id = with_length k.certificate_id cert_id_buffer_length;
        private_key = with_length k.private_key priv_key_buffer_length;
        ownership_token = with_length k.ownership_token ownership_token_buffer_length;
      };
    }

-- A part of the iteration's body.
abbrev pub Stage : Type 0 → Type 0
Stage S = Local → S → Run S Local

-- `if( status == true ) { status = call(); }`
abbrev pub guarded : {S : Type 0} → (S → Run S Bool) → Stage S
guarded call l s =
    if l.status
    then elim (call s) [
      | done ok s' ↦ done (record l { status = ok }) s'
      | aborted ↦ aborted
      | unfinished ↦ unfinished
    ]
    else done l s

unfoldable pub run_stages : {S : Type 0} → List (Stage S) → Stage S
run_stages [] l s = done l s
run_stages (stage ∷ stages) l s = elim (stage l s) [
  | done l' s' ↦ run_stages stages l' s'
  | aborted ↦ aborted
  | unfinished ↦ unfinished
]

-- `status = first(); if( status == true ) { status = second(); }`
abbrev pub both : {S : Type 0} → (S → Run S Bool) → (S → Run S Bool) → S → Run S Bool
both first second s = elim (first s) [
  | done ok s' ↦ if ok then second s' else done false s'
  | aborted ↦ aborted
  | unfinished ↦ unfinished
]
