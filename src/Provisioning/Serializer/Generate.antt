-- ===== src/Provisioning/Serializer/Generate.antt =====
-- The request that `generateRegisterThingRequest` writes, as a sequence of CBOR items.
use Prim.Native.String.{String}
use embedded_provisioning_sd.Prelude.{ℕ, ◌≡◌, refl, ap, ◌∙◌, none, some, List, [], ◌∷◌, ◌++◌}
use embedded_provisioning_sd.Provisioning.Serializer.{
  CborError, no_error, out_of_memory, other_error, CborEncoder, Encoded, encoded, failed, ◌>>=◌,
  check, begin_map, put_key, put_text, end_map, encode_request, generate_register_thing_request,
}

-- The items of a CBOR text.
pub data Item : Type 0 where
  map_of : ℕ → Item
  key : String → Item
  text : List ℕ → ℕ → Item
  map_end : Item

module _ {E : Type 0} (cbor : CborEncoder E) where
  -- TinyCBOR's documented behaviour, by the items that an encoder has written: a call without an error
  -- appends its item, and closing a map goes on from the child.
  pub record Writes (items : E → List Item) : Type 0 where
    pub starts : (size : ℕ) → items (cbor.encoder_init size) ≡ []
    pub opens :
        (e : E) (n : ℕ)
        → (cbor.create_map e n).0 ≡ no_error
        → items (cbor.create_map e n).2 ≡ items e ++ map_of n ∷ []
    pub writes_key :
        (e : E) (k : String)
        → (cbor.encode_text_stringz e k).0 ≡ no_error
        → items (cbor.encode_text_stringz e k).1 ≡ items e ++ key k ∷ []
    pub writes_text :
        (e : E) (t : List ℕ) (n : ℕ)
        → (cbor.encode_text_string e t n).0 ≡ no_error
        → items (cbor.encode_text_string e t n).1 ≡ items e ++ text t n ∷ []
    pub closes :
        (parent child : E)
        → (cbor.close_container parent child).0 ≡ no_error
        → items (cbor.close_container parent child).1 ≡ items child ++ map_end ∷ []

  abbrev pub request_items : List ℕ → ℕ → List ℕ → ℕ → List Item
  request_items token token_length serial serial_length =
      map_of 2
      ∷ key "certificateOwnershipToken"
      ∷ text token token_length
      ∷ key "parameters"
      ∷ map_of 1
      ∷ key "SerialNumber"
      ∷ text serial serial_length
      ∷ map_end
      ∷ map_end
      ∷ []

  -- If the chain gets through, its result has `P`.
  abbrev Yields : {A : Type 0} → (A → Type 0) → Encoded A → Type 0
  Yields P (encoded a) = P a
  Yields P (failed error) = Unit

  Yields-bind :
      {A B : Type 0} (P : A → Type 0) (Q : B → Type 0) (m : Encoded A) (f : A → Encoded B)
      → Yields P m
      → ((a : A) → P a → Yields Q (f a))
      → Yields Q (m >>= f)
  Yields-bind P Q (encoded a) f h k = k a h
  Yields-bind P Q (failed error) f h k = tt

  Yields-check :
      {A : Type 0} (P : A → Type 0) (error : CborError) (a : A)
      → (error ≡ no_error → P a)
      → Yields P (check error a)
  Yields-check P no_error a h = h refl
  Yields-check P out_of_memory a h = tt
  Yields-check P (other_error n) a h = tt

  module _ (items : E → List Item) (w : Writes items) where
    begin_map-Yields :
        (e : E) (n : ℕ) (xs : List Item)
        → items e ≡ xs
        → Yields (λ r. items r.1 ≡ xs ++ map_of n ∷ []) (begin_map cbor e n)
    begin_map-Yields e n xs h =
        Yields-check _ _ _ (λ ok. w.opens e n ok ∙ ap (λ t. t ++ map_of n ∷ []) h)

    put_key-Yields :
        (e : E) (k : String) (xs : List Item)
        → items e ≡ xs
        → Yields (λ e'. items e' ≡ xs ++ key k ∷ []) (put_key cbor e k)
    put_key-Yields e k xs h =
        Yields-check _ _ _ (λ ok. w.writes_key e k ok ∙ ap (λ t. t ++ key k ∷ []) h)

    put_text-Yields :
        (e : E) (t : List ℕ) (n : ℕ) (xs : List Item)
        → items e ≡ xs
        → Yields (λ e'. items e' ≡ xs ++ text t n ∷ []) (put_text cbor e t n)
    put_text-Yields e t n xs h =
        Yields-check _ _ _ (λ ok. w.writes_text e t n ok ∙ ap (λ v. v ++ text t n ∷ []) h)

    end_map-Yields :
        (parent child : E) (xs : List Item)
        → items child ≡ xs
        → Yields (λ e'. items e' ≡ xs ++ map_end ∷ []) (end_map cbor parent child)
    end_map-Yields parent child xs h =
        Yields-check _ _ _ (λ ok. w.closes parent child ok ∙ ap (λ t. t ++ map_end ∷ []) h)

    encode_request-Yields :
        (size : ℕ) (token : List ℕ) (tlen : ℕ) (serial : List ℕ) (slen : ℕ)
        → Yields
            (λ e. items e ≡ request_items token tlen serial slen)
            (encode_request cbor size token tlen serial slen)
    unfolding encode_request
    encode_request-Yields size token tlen serial slen =
        Yields-bind _ _ (begin_map cbor (cbor.encoder_init size) 2) _
          (begin_map-Yields (cbor.encoder_init size) 2 [] (w.starts size))
          λ m h₁.
            Yields-bind _ _ (put_key cbor m.1 "certificateOwnershipToken") _
              (put_key-Yields m.1 "certificateOwnershipToken" _ h₁)
              λ m₁ h₂.
                Yields-bind _ _ (put_text cbor m₁ token tlen) _ (put_text-Yields m₁ token tlen _ h₂)
                  λ m₂ h₃.
                    Yields-bind _ _ (put_key cbor m₂ "parameters") _
                      (put_key-Yields m₂ "parameters" _ h₃)
                      λ m₃ h₄.
                        Yields-bind _ _ (begin_map cbor m₃ 1) _ (begin_map-Yields m₃ 1 _ h₄) λ p h₅.
                          Yields-bind _ _ (put_key cbor p.1 "SerialNumber") _
                            (put_key-Yields p.1 "SerialNumber" _ h₅)
                            λ p₁ h₆.
                              Yields-bind _ _ (put_text cbor p₁ serial slen) _
                                (put_text-Yields p₁ serial slen _ h₆)
                                λ p₂ h₇.
                                  Yields-bind _ _ (end_map cbor p.0 p₂) _
                                    (end_map-Yields p.0 p₂ _ h₇) λ m₅ h₈. end_map-Yields m.0 m₅ _ h₈

    -- When `generateRegisterThingRequest` returns true and each call of the encoder without an error
    -- appends its item, what was written is exactly the map of the ownership token and of the
    -- parameters with the serial number, every map closed, and the length is the one that TinyCBOR
    -- reports.
    pub generate_register_thing_request_lem :
        (size : ℕ) (token : List ℕ) (tlen : ℕ) (serial : List ℕ) (slen : ℕ) (r : List ℕ × ℕ)
        → generate_register_thing_request cbor size token tlen serial slen ≡ some r
        → (e : E) × (items e ≡ request_items token tlen serial slen)
          × (r ≡ (cbor.written e, cbor.buffer_size e))
    unfolding generate_register_thing_request
    generate_register_thing_request_lem size token tlen serial slen r h =
        end (encode_request cbor size token tlen serial slen)
          (encode_request-Yields size token tlen serial slen) h
      where
        end :
            (m : Encoded E)
            → Yields (λ e. items e ≡ request_items token tlen serial slen) m
            → (elim m [
              | encoded e ↦ some (cbor.written e, cbor.buffer_size e)
              | failed error ↦ none
            ])
              ≡ some r
            → (e : E) × (items e ≡ request_items token tlen serial slen)
              × (r ≡ (cbor.written e, cbor.buffer_size e))
        end (encoded e) y h = (e, y, cc h)
        end (failed error) y h = cc
