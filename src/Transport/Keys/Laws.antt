-- ===== src/Transport/Keys/Laws.antt =====
-- What the key set-up and the signing callback do on each branch.
use embedded_provisioning_sd.Prelude.{
  ℕ, ◌≤◌, ◌≡◌, ◌≢◌, ◌↔◌, refl, ap, ◌∙◌, ◌⊎◌, inl, inr, Bool, true, not, ◌&&◌, none, some, List,
  arith, Bool-cases, ◌==◌, ==_iff, if◌then◌else◌, if_then_true,
}
use embedded_provisioning_sd.Pkcs11.Module.{
  Module, ckk_rsa, ckk_ec, ckm_ecdsa, cko_private_key, cko_certificate, invalid_handle,
}
use embedded_provisioning_sd.Pkcs11.Objects.{is_ok}
use embedded_provisioning_sd.Pkcs11.Keys.{KeyKind, rsa_key, ec_key}
use embedded_provisioning_sd.Transport.Library.{Tls, Context}
use embedded_provisioning_sd.Transport.Keys.{
  algorithm_of, query_key_type, initialize_client_keys, export_certificate,
  read_certificate_into_context, ToSign, Signed, format_hash, convert_signature, sign_formatted,
  private_key_signing_callback, to_be_signed_size,
}

-- A context that signs by the algorithm of its key's type.
abbrev pub HasKey : {W : Type 0} → Context W → Type 0
HasKey ctx = (a : KeyKind) × (ctx.algorithm ≡ some a) × (algorithm_of ctx.key_type ≡ some a)

algorithm_of_lem :
    (kind : ℕ)
    → ((a : KeyKind) × (algorithm_of kind ≡ some a) × ((kind ≡ ckk_rsa) ⊎ (kind ≡ ckk_ec)))
      ⊎ ((algorithm_of kind ≡ none) × (kind ≢ ckk_rsa) × (kind ≢ ckk_ec))
unfolding algorithm_of
algorithm_of_lem kind = elim (Bool-cases (kind == ckk_rsa)) [
  | inl r ↦ rw r (inl (rsa_key, refl, inl ((==_iff kind ckk_rsa).0 r)))
  | inr n ↦ elim (Bool-cases (kind == ckk_ec)) [
    | inl e ↦ rw (n, e) (inl (ec_key, refl, inr ((==_iff kind ckk_ec).0 e)))
    | inr n' ↦ rw (n, n') (inr (refl, ground arith, ground arith))
  ]
]

-- The missing key's code is CKR_OK.
missing_key_is_ok :
    (found handle : ℕ)
    → is_ok (if is_ok found && (handle == invalid_handle) then invalid_handle else found)
      ≡ is_ok found
missing_key_is_ok found handle = elim (Bool-cases (is_ok found)) [
  | inr bad ↦ rw (bad, bad) refl
  | inl ok ↦ elim (Bool-cases (handle == invalid_handle)) [
    | inl e ↦ rw (ok, e) refl
    | inr n ↦ rw (ok, n) ok
  ]
]

pair_eta : {A : Type 0} (r : Bool × A) → r.0 ≡ true → r ≡ (true, r.1)
pair_eta (b, a) e = ap (λ t. (t, a)) e

module _ {W : Type 0} (p11 : Module W) where
  query_key_type_lem :
      (ctx : Context W)
      → let (rv, kind, w) =
          p11.get_key_type ctx.p11_session ctx.p11_private_key ctx.key_type ctx.world in
        let (ok, ctx') = query_key_type p11 ctx in
        ((ok ≡ true) ↔ ((rv ≡ 0) × ((kind ≡ ckk_rsa) ⊎ (kind ≡ ckk_ec))))
        × ((ok ≡ true) → HasKey ctx')
        × (ctx'.p11_session ≡ ctx.p11_session)
        × (ctx'.p11_private_key ≡ ctx.p11_private_key)
  unfolding query_key_type
  query_key_type_lem ctx =
      let (rv, kind, w) =
        p11.get_key_type ctx.p11_session ctx.p11_private_key ctx.key_type ctx.world in
      elim (Bool-cases (is_ok rv)) [
        | inr bad ↦
            rw (query_key_type, bad) ((ground arith, ground arith), ground arith, refl, refl)
        | inl ok ↦ elim (algorithm_of_lem kind) [
          | inl (a, e, which) ↦
              rw (query_key_type, ok, e)
                ((λ _. ((==_iff rv 0).0 ok, which), λ _. refl), λ _. (a, refl, e), refl, refl)
          | inr (e, n, n') ↦
              rw (query_key_type, ok, e) ((ground arith, ground arith), ground arith, refl, refl)
        ]
      ]

  -- `initializeClientKeys` succeeds exactly when the search and the query of the key's type give CKR_OK
  -- and the type is RSA or EC: whether the search found a key is not asked. Then the context signs by the
  -- algorithm of its key's type, with the handle that was found, in the session it had.
  pub initialize_client_keys_lem :
      (label : List ℕ) (ctx : Context W)
      → let (found, handle, w) =
          p11.find_object ctx.p11_session label cko_private_key ctx.p11_private_key ctx.world in
        let (rv, kind, w') = p11.get_key_type ctx.p11_session handle ctx.key_type w in
        let (ok, ctx') = initialize_client_keys p11 label ctx in
        ((ok ≡ true) ↔ ((found ≡ 0) × (rv ≡ 0) × ((kind ≡ ckk_rsa) ⊎ (kind ≡ ckk_ec))))
        × ((ok ≡ true) → HasKey ctx')
        × (ctx'.p11_session ≡ ctx.p11_session)
        × (ctx'.p11_private_key ≡ handle)
  unfolding initialize_client_keys
  initialize_client_keys_lem label ctx =
      let (found, handle, w) =
        p11.find_object ctx.p11_session label cko_private_key ctx.p11_private_key ctx.world in
      let l = query_key_type_lem (record ctx { world = w; p11_private_key = handle }) in
      elim (Bool-cases (is_ok found)) [
        | inr bad ↦
            rw (initialize_client_keys, missing_key_is_ok found handle, bad)
              ((ground arith, ground arith), ground arith, refl, refl)
        | inl ok ↦
            rw (initialize_client_keys, missing_key_is_ok found handle, ok)
              (
                (λ h. ((==_iff found 0).0 ok, (l.0.0 h).0, (l.0.0 h).1), λ h. l.0.1 (h.1, h.2)),
                l.1,
                l.2,
                l.3,
              )
      ]

  module _ (tls : Tls W) where
    export_certificate_lem :
        (session handle : ℕ) (w : W)
        → (export_certificate p11 tls session handle w).0 ≡ true
        → (v : W) × let (rv, der, len, v') =
              p11.get_value session handle (p11.get_value_length session handle w).1 v in
            (rv ≡ 0)
            × (tls.parse_client_cert der len v' ≡ export_certificate p11 tls session handle w)
    unfolding export_certificate
    export_certificate_lem session handle w h =
        let (rv, len, w₁) = p11.get_value_length session handle w in
        let (allocated, w₂) = p11.allocate len w₁ in
        let (rv', der, len', w₃) = p11.get_value session handle len w₂ in
        let (e₁, h₁) = if_then_true (is_ok rv) _ w₁ h in
        let (e₂, h₂) = if_then_true allocated _ w₂ h₁ in
        let (e₃, h₃) = if_then_true (is_ok rv') _ w₃ h₂ in
        (w₂, ((==_iff rv' 0).0 e₃, simp (export_certificate, e₁, e₂, e₃)))

    -- Where `readCertificateIntoContext` succeeds, the search gave CKR_OK and a handle that is not
    -- CK_INVALID_HANDLE, and the client certificate was parsed from the value that the token gave for it;
    -- the key of the context is as before, whatever the result.
    pub read_certificate_into_context_lem :
        (label : List ℕ) (ctx : Context W)
        → let (found, handle, w) =
            p11.find_object ctx.p11_session label cko_certificate 0 ctx.world in
          let (ok, ctx') = read_certificate_into_context p11 tls label ctx in
          (ctx' ≡ record ctx { world = ctx'.world })
          × ((ok ≡ true)
              → (found ≡ 0)
                × (handle ≢ 0)
                × ((v : W) × let (rv, der, len, v') =
                        p11.get_value ctx.p11_session handle
                          (p11.get_value_length ctx.p11_session handle w).1
                          v in
                      (rv ≡ 0) × (tls.parse_client_cert der len v' ≡ (true, ctx'.world))))
    unfolding read_certificate_into_context
    read_certificate_into_context_lem label ctx =
        let (found, handle, w) =
          p11.find_object ctx.p11_session label cko_certificate 0 ctx.world in
        elim (Bool-cases (is_ok found && not (handle == invalid_handle))) [
          | inr bad ↦ rw (read_certificate_into_context, bad) (refl, ground arith)
          | inl good ↦
              rw (read_certificate_into_context, good)
                (
                  refl,
                  λ h.
                      let (v, (e, f)) = export_certificate_lem ctx.p11_session handle w h in
                      (ground arith, ground arith, (v, (e, f ∙ pair_eta _ h))),
                )
        ]

    -- A hash and its length, as an ECDSA key signs them, with what the token gave.
    abbrev pub SignsWithEc : List ℕ → ℕ → Context W → Signed → Type 0
    SignsWithEc hash len ctx r =
        let (rv, w) = p11.sign_init ctx.p11_session ckm_ecdsa ctx.p11_private_key ctx.world in
        let (rv', sig, sig_length, w') = p11.sign ctx.p11_session hash len to_be_signed_size w in
        (rv ≡ 0)
        × (rv' ≡ 0)
        × (sig_length ≡ 64)
        × ((r.sig, r.sig_length) ≡ tls.to_mbedtls_signature sig sig_length)

    format_hash-ec :
        (kind : ℕ) (hash : List ℕ) (len : ℕ)
        → kind ≡ ckk_ec
        → len ≤ 256
        → format_hash p11 tls kind hash len
          ≡ some (record {
            ret = 0;
            mechanism = ckm_ecdsa;
            to_be_signed = hash;
            to_be_signed_length = len;
          })
    unfolding format_hash
    format_hash-ec kind hash len e h = ground arith

    convert_signature-ec :
        (kind : ℕ) (r : Signed)
        → kind ≡ ckk_ec
        → let r' = convert_signature p11 tls kind r in
          r'.ret ≡ 0
          → (r.ret ≡ 0)
            × (r.sig_length ≡ 64)
            × ((r'.sig, r'.sig_length) ≡ tls.to_mbedtls_signature r.sig r.sig_length)
    unfolding convert_signature
    convert_signature-ec kind r e h = ground arith

    sign_formatted-ec :
        (hash : List ℕ) (len : ℕ) (sig : List ℕ) (sig_length : ℕ) (ctx : Context W)
        → ctx.key_type ≡ ckk_ec
        → let formatted : ToSign = record {
          ret = 0;
          mechanism = ckm_ecdsa;
          to_be_signed = hash;
          to_be_signed_length = len;
        } in
          let r = (sign_formatted p11 tls formatted sig sig_length ctx).0 in
          r.ret ≡ 0 → SignsWithEc hash len ctx r
    unfolding sign_formatted
    sign_formatted-ec hash len sig sig_length ctx e =
        let (rv, w) = p11.sign_init ctx.p11_session ckm_ecdsa ctx.p11_private_key ctx.world in
        let (rv', sig', len', w') = p11.sign ctx.p11_session hash len to_be_signed_size w in
        elim (Bool-cases (is_ok rv)) [
          | inr bad ↦ rw (sign_formatted, bad) (ground arith)
          | inl ok ↦
              rw (sign_formatted, ok)
                (λ h.
                  let (e₁, e₂, e₃) =
                    convert_signature-ec ctx.key_type
                      (record { ret = rv'; sig = sig'; sig_length = len' }) e h in
                  ((==_iff rv 0).0 ok, e₁, e₂, e₃))
        ]

    -- With an EC key, `privateKeySigningCallback` of a hash that fits its buffer returns 0, whatever the
    -- token does. Where `ret` is CKR_OK the signature is the converted one that C_Sign gave for the hash.
    pub private_key_signing_callback_lem :
        (hash : List ℕ) (len : ℕ) (sig : List ℕ) (sig_length : ℕ) (ctx : Context W)
        → ctx.key_type ≡ ckk_ec
        → len ≤ 256
        → (r : ℕ × Signed × Context W) × (private_key_signing_callback p11 tls hash len sig
              sig_length ctx
            ≡ some r)
          × (r.0 ≡ 0)
          × ((r.1.ret ≡ 0) → SignsWithEc hash len ctx r.1)
    unfolding private_key_signing_callback
    private_key_signing_callback_lem hash len sig sig_length ctx e h =
        let (signed, ctx') =
          sign_formatted p11 tls
            (record {
              ret = 0;
              mechanism = ckm_ecdsa;
              to_be_signed = hash;
              to_be_signed_length = len;
            })
            sig sig_length ctx in
        (
          (0, signed, ctx'),
          simp (private_key_signing_callback, format_hash-ec ctx.key_type hash len e h),
          refl,
          sign_formatted-ec hash len sig sig_length ctx e,
        )
