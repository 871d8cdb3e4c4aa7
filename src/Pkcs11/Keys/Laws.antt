-- ===== src/Pkcs11/Keys/Laws.antt =====
-- What `provisionPrivateKey` does to the token.
use embedded_provisioning_sd.Prelude.{
  ℕ, ◌≡◌, ◌≢◌, refl, sym, subst, ◌⊎◌, inl, inr, true, ◌&&◌, List, arith, Bool-cases,
}
use embedded_provisioning_sd.Pkcs11.Module.{Module, Attribute}
use embedded_provisioning_sd.Pkcs11.Objects.{is_ok, prepare}
use embedded_provisioning_sd.Pkcs11.Objects.Laws.{IsToken, prepare_keeps}
use embedded_provisioning_sd.Pkcs11.Keys.{
  KeyKind, rsa_key, ec_key, other_key, KeyParser, ec_template, rsa_template, ec_d_length,
  rsa_params_size, create_ec_key, provision_private_ec_key, create_rsa_key,
  provision_private_rsa_key, provision_private_key,
}

KeyKind-cases : (k : KeyKind) → (k ≡ rsa_key) ⊎ (k ≡ ec_key) ⊎ (k ≡ other_key)
KeyKind-cases rsa_key = inl refl
KeyKind-cases ec_key = inr (inl refl)
KeyKind-cases other_key = inr (inr refl)

module _ {K : Type 0} (keys : KeyParser K) where
  -- The attributes of the object for a key: an EC key of the one curve, or an RSA key.
  abbrev pub IsTemplate : List ℕ → K → List Attribute → Type 0
  IsTemplate name key template =
      ((keys.key_kind key ≡ ec_key)
        × (keys.is_secp256r1 key ≡ true)
        × (template ≡ ec_template name keys.oid_secp256r1 (keys.write_d key).1))
      ⊎ ((keys.key_kind key ≡ rsa_key) × (template ≡ rsa_template name (keys.rsa_params key)))

module _ {W T K : Type 0} (p11 : Module W) (token : W → T) (objects : T → ℕ)
    (matching : List ℕ → ℕ → T → ℕ) (keys : KeyParser K) (session : ℕ)
    (laws : IsToken p11 token objects matching) where
  -- The ends of a provisioning of a key: an error with the token as it was, or the result of creating one
  -- object with the key's attributes in that token.
  abbrev pub Provisions : List ℕ → K → W → ℕ × W → Type 0
  Provisions name key w r =
      ((r.0 ≢ 0) × (token r.1 ≡ token w))
      ⊎ ((v : W) × (template : List Attribute) × (token v ≡ token w)
          × IsTemplate keys name key template
          × (r ≡ p11.create_object session template v))

  provision_private_ec_key-Provisions :
      (name : List ℕ) (key : K) (w : W)
      → keys.key_kind key ≡ ec_key
      → Provisions name key w (provision_private_ec_key p11 keys session name key w)
  unfolding provision_private_ec_key create_ec_key
  provision_private_ec_key-Provisions name key w kind =
      let same = prepare_keeps p11 token objects matching laws ec_d_length w in
      let (rv, w₁) = prepare p11 ec_d_length w in
      elim (Bool-cases (is_ok rv)) [
        | inr bad ↦ rw (provision_private_ec_key, bad) (inl (ground arith, same))
        | inl ok ↦ elim (Bool-cases (keys.write_d key).0) [
          | inr unwritten ↦
              rw (provision_private_ec_key, create_ec_key, ok, unwritten) (inl (ground arith, same))
          | inl written ↦ elim (Bool-cases (keys.is_secp256r1 key)) [
            | inr other ↦
                rw (provision_private_ec_key, create_ec_key, ok, written, other)
                  (inl (ground arith, same))
            | inl curve ↦
                rw (provision_private_ec_key, create_ec_key, ok, written, curve)
                  (inr (
                    w₁,
                    ec_template name keys.oid_secp256r1 (keys.write_d key).1,
                    same,
                    inl (kind, refl, refl),
                    refl,
                  ))
          ]
        ]
      ]

  provision_private_rsa_key-Provisions :
      (name : List ℕ) (key : K) (w : W)
      → keys.key_kind key ≡ rsa_key
      → Provisions name key w (provision_private_rsa_key p11 keys session name key w)
  unfolding provision_private_rsa_key create_rsa_key
  provision_private_rsa_key-Provisions name key w kind =
      let same = prepare_keeps p11 token objects matching laws rsa_params_size w in
      let (rv, w₁) = prepare p11 rsa_params_size w in
      let exported =
        keys.export_raw key && (keys.write_dp key && (keys.write_dq key && keys.write_qp key)) in
      elim (Bool-cases (is_ok rv)) [
        | inr bad ↦ rw (provision_private_rsa_key, bad) (inl (ground arith, same))
        | inl ok ↦ elim (Bool-cases exported) [
          | inr failed ↦
              rw (provision_private_rsa_key, create_rsa_key, ok, failed) (inl (ground arith, same))
          | inl there ↦
              rw (provision_private_rsa_key, create_rsa_key, ok, there)
                (inr (w₁, rsa_template name (keys.rsa_params key), same, inr (kind, refl), refl))
        ]
      ]

  -- Where the token behaves as documented, `provisionPrivateKey` gives an error and leaves the token, or
  -- gives the result of creating one object with the attributes of the parsed key under the label.
  pub provision_private_key_lem :
      (text : List ℕ) (len : ℕ) (name : List ℕ) (w : W)
      → let r = provision_private_key p11 keys session text len name w in
        ((r.0 ≢ 0) × (token r.1 ≡ token w))
        ⊎ (((keys.parse_key text len).0 ≡ true) × Provisions name (keys.parse_key text len).1 w r)
  unfolding provision_private_key
  provision_private_key_lem text len name w =
      let (parsed, key) = keys.parse_key text len in
      let Ends : ℕ × W → Type 0 =
        λ r. ((r.0 ≢ 0) × (token r.1 ≡ token w)) ⊎ ((parsed ≡ true) × Provisions name key w r) in
      elim (Bool-cases parsed) [
        | inr bad ↦ rw (provision_private_key, bad) (inl (ground arith, refl))
        | inl ok ↦ elim (KeyKind-cases (keys.key_kind key)) [
          | inl kind ↦
              subst Ends (sym (simp (provision_private_key, ok, kind)))
                (inr (ok, provision_private_rsa_key-Provisions name key w kind))
          | inr (inl kind) ↦
              subst Ends (sym (simp (provision_private_key, ok, kind)))
                (inr (ok, provision_private_ec_key-Provisions name key w kind))
          | inr (inr kind) ↦ rw (provision_private_key, ok, kind) (inl (ground arith, refl))
        ]
      ]
