-- ===== src/Pkcs11/Tests.antt =====
-- The theorems on pkcs11_operations.c at a concrete token and concrete files: the world is the number of
-- objects, all of which have the label that is looked for.
use embedded_provisioning_sd.Prelude.{
  ℕ, zero, suc, ◌<◌, ◌≤◌, ◌≡◌, refl, true, some, List, [], ◌∷◌, arith, replicate,
}
use embedded_provisioning_sd.Pkcs11.Module.{Module, ckr_object_handle_invalid, ckk_ec}
use embedded_provisioning_sd.Pkcs11.Files.{Stdio, read_contents, read_open, read_file}
use embedded_provisioning_sd.Pkcs11.Files.Keeps.{LeavesToken}
use embedded_provisioning_sd.Pkcs11.Objects.{
  prepare, destroy_loop, destroy_label, destroy_labels, destroy_provided_objects,
}
use embedded_provisioning_sd.Pkcs11.Objects.Laws.{IsToken}
use embedded_provisioning_sd.Pkcs11.Keys.{ec_key, KeyParser}
use embedded_provisioning_sd.Pkcs11.Certificates
use embedded_provisioning_sd.Pkcs11.Certificates.{
  PemToDer, replace_certificate, provision_certificate,
}
use embedded_provisioning_sd.Pkcs11.Certificates.Laws.{provision_certificate_lem}
use embedded_provisioning_sd.Pkcs11.Credentials.{load_claim_credentials}
use embedded_provisioning_sd.Pkcs11.Credentials.Laws.{Loads, load_claim_credentials_lem}

abbrev destroyed : ℕ → ℕ × ℕ
destroyed zero = (ckr_object_handle_invalid, zero)
destroyed (suc n) = (0, n)

abbrev pub token_module : Module ℕ
token_module = record {
  get_function_list = λ w. (0, w);
  find_object = λ session label class handle w. (0, w, w);
  create_object = λ session template w. (0, suc w);
  destroy_object = λ session handle w. destroyed w;
  get_key_type = λ session handle kind w. (0, ckk_ec, w);
  get_value_length = λ session handle w. (0, 2, w);
  get_value = λ session handle len w. (0, 48 ∷ 49 ∷ [], 2, w);
  generate_random = λ session len w. (0, replicate len 4, w);
  sign_init = λ session mechanism key w. (0, w);
  sign = λ session formatted len size w. (0, formatted, 64, w);
  close_session = λ session w. (0, w);
  finalize = λ w. (0, w);
  allocate = λ size w. (true, w);
}

abbrev pub count : ℕ → ℕ
count n = n

abbrev pub matching : List ℕ → ℕ → ℕ → ℕ
matching label class n = n

destroyed_lowers : (w : ℕ) → (destroyed w).0 ≡ 0 → (destroyed w).1 < w
destroyed_lowers zero e = absurd (ground arith)
destroyed_lowers (suc n) e = omega arith

destroyed_adds_none : (w : ℕ) → (destroyed w).1 ≤ w
destroyed_adds_none zero = omega arith
destroyed_adds_none (suc n) = omega arith

pub token_module-IsToken : IsToken token_module count count matching
token_module-IsToken = record {
  functions_keep = λ w. refl;
  allocate_keeps = λ n w. refl;
  find_keeps = λ session label class handle w. refl;
  find_none = λ session label class handle w e e'. e';
  destroy_lowers = λ session handle w e. destroyed_lowers w e;
  create_adds_one = λ session template w. omega arith;
  destroy_adds_none = λ session handle w. destroyed_adds_none w;
}

abbrev files : Stdio ℕ
files = record {
  open_file = λ path w. (some 3, w);
  seek_end = λ file w. (true, w);
  tell = λ file w. (some 4, w);
  seek_start = λ file w. (true, w);
  read = λ file n w. (replicate n 65, w);
  close = λ file w. w;
}

files-LeavesToken : LeavesToken files count
files-LeavesToken = record {
  open_file_keeps = λ path w. refl;
  seek_end_keeps = λ file w. refl;
  tell_keeps = λ file w. refl;
  seek_start_keeps = λ file w. refl;
  read_keeps = λ file n w. refl;
  close_keeps = λ file w. refl;
}

abbrev pub keys : KeyParser ℕ
keys = record {
  parse_key = λ text len. (true, 1);
  key_kind = λ key. ec_key;
  write_d = λ key. (true, 7 ∷ []);
  is_secp256r1 = λ key. true;
  oid_secp256r1 = 42 ∷ 134 ∷ [];
  export_raw = λ key. true;
  write_dp = λ key. true;
  write_dq = λ key. true;
  write_qp = λ key. true;
  rsa_params = λ key. record {
    modulus = [];
    e = [];
    d = [];
    prime1 = [];
    prime2 = [];
    exponent1 = [];
    exponent2 = [];
    coefficient = [];
  };
}

abbrev pub pem_to_der : PemToDer
pem_to_der text len size = (true, 48 ∷ [], 1)

abbrev name : List ℕ
name = 67 ∷ []

-- Two objects are destroyed, and a certificate comes in their place.
stores : provision_certificate token_module pem_to_der 1 3 (some (65 ∷ [])) 2 name 0 2 ≡ some (0, 1)
unfolding provision_certificate replace_certificate prepare destroy_provided_objects destroy_labels
    destroy_label destroy_loop
stores = refl

-- A file as long as the buffer is read in full.
fills : (read_file files name (replicate 4 0) 4 0 2).0.written ≡ 4
unfolding read_file read_open read_contents
fills = refl

load_claim_credentials_lem_example :
    Loads token_module count count matching keys pem_to_der token_module-IsToken files
      files-LeavesToken 1
      (47 ∷ [])
      name
      (48 ∷ [])
      name
      2
      (load_claim_credentials token_module keys pem_to_der 1 5 0 files
        (47 ∷ [])
        name
        (48 ∷ [])
        name
        2)
load_claim_credentials_lem_example =
    load_claim_credentials_lem token_module count count matching keys pem_to_der
      token_module-IsToken files files-LeavesToken 1 5 0 (47 ∷ []) name (48 ∷ []) name 2
      (omega arith)

provision_certificate_lem_example :
    (r : ℕ × ℕ) × (provision_certificate token_module pem_to_der 1 3 (some (65 ∷ [])) 2 name 0 2
      ≡ some r)
    × Certificates.Laws.Provisions token_module count count matching pem_to_der 1
        token_module-IsToken 3
        (65 ∷ [])
        2
        name
        0
        2
        r
provision_certificate_lem_example =
    provision_certificate_lem token_module count count matching pem_to_der 1 token_module-IsToken 3
      (65 ∷ []) 2 name 0 2 (omega arith)
