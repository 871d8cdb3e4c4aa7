-- ===== src/Provisioning/Print/Laws.antt =====
-- What `getStringFromCbor` returns, and when it may be freed.
use embedded_provisioning_sd.Prelude.{
  ℕ, zero, suc, ◌+◌, ◌%◌, ◌^◌, ◌<◌, ◌≤◌, ◌≡◌, refl, sym, ap, subst, ◌∙◌, ◌⊎◌, inl, inr, true,
  Option, none, some, List, [], ◌∷◌, ◌++◌, arith, Bool-cases, Option-cases, length, length-append,
  append-nil, append_assoc, ◌&&◌, take, take_all, copy_in, All,
}
use embedded_provisioning_sd.Provisioning.Serializer.{no_error, is_no_error, CborParser}
use embedded_provisioning_sd.Provisioning.Print.{
  Formatted, PrintContext, Stdlib, PrettyPrinter, null_string, allocated, print_into, cbor_printer,
  print_all, to_pretty_stream, get_string_from_cbor, dump_payload,
}

copy_in-tail :
    (mem : List ℕ) (at : ℕ) (src : List ℕ)
    → length mem ≡ at + length src
    → copy_in mem at src ≡ take at mem ++ src
copy_in-tail [] zero [] e = refl
copy_in-tail [] zero (x ∷ xs) e = absurd (omega arith)
copy_in-tail [] (suc at) src e = absurd (omega arith)
copy_in-tail (b ∷ bs) (suc at) src e = ap (λ t. b ∷ t) (copy_in-tail bs at src (omega arith))
copy_in-tail (b ∷ bs) zero [] e = absurd (omega arith)
copy_in-tail (b ∷ bs) zero (x ∷ xs) e = ap (λ t. x ∷ t) (copy_in-tail bs zero xs (omega arith))

take-append : (xs ys : List ℕ) → take (length xs) (xs ++ ys) ≡ xs
take-append [] ys = refl
take-append (x ∷ xs) ys = ap (λ t. x ∷ t) (take-append xs ys)

-- A format whose two calls of `vsnprintf` agree on its text.
abbrev pub IsFormatted : Formatted → Type 0
IsFormatted f = (f.measured ≡ some (length f.text)) × (f.is_printed ≡ true)

abbrev pub texts : List Formatted → List ℕ
texts [] = []
texts (f ∷ fs) = f.text ++ texts fs

module _ (std : Stdlib) where
  -- `realloc` as documented, where it has the memory: a block of the size asked, which begins with what
  -- the old one began with.
  pub record Reallocates : Type 0 where
    pub gives :
        (old : Option (List ℕ)) (n : ℕ) → (block : List ℕ) × (std.realloc old n ≡ some block)
    pub has_size :
        (old : Option (List ℕ)) (n : ℕ) (block : List ℕ)
        → std.realloc old n ≡ some block
        → length block ≡ n
    pub keeps :
        (old : List ℕ) (n k : ℕ) (block : List ℕ)
        → std.realloc (some old) n ≡ some block
        → k ≤ n
        → k ≤ length old
        → take k block ≡ take k old

  -- The context holds a text: with its terminator in a block of just that size, or none yet.
  abbrev Prints : List ℕ → PrintContext → Type 0
  Prints text ctx =
      (ctx.length ≡ length text)
      × ((ctx.str ≡ some (text ++ 0 ∷ [])) ⊎ ((ctx.str ≡ none) × (text ≡ [])))

  -- What the new block keeps of the text.
  kept_text :
      (text : List ℕ) (ctx : PrintContext) (n : ℕ) (block : List ℕ)
      → Reallocates
      → length text ≤ n
      → std.realloc ctx.str n ≡ some block
      → (ctx.str ≡ some (text ++ 0 ∷ [])) ⊎ ((ctx.str ≡ none) × (text ≡ []))
      → take (length text) block ≡ text
  kept_text text ctx n block laws fits there (inl full) =
      let there' : std.realloc (some (text ++ 0 ∷ [])) n ≡ some block =
        ap (λ o. std.realloc o n) (sym full) ∙ there in
      laws.keeps (text ++ 0 ∷ []) n (length text) block there' fits
        (omega (arith, length-append text (0 ∷ [])))
      ∙ take-append text (0 ∷ [])
  kept_text text ctx n block laws fits there (inr (null, empty)) = rw empty refl

  cbor_printer-Prints :
      (text : List ℕ) (ctx : PrintContext) (f : Formatted)
      → Reallocates
      → IsFormatted f
      → length text + length f.text + 1 < 2 ^ 64
      → Prints text ctx
      → (ctx' : PrintContext) × (cbor_printer std ctx f ≡ (no_error, ctx'))
        × (ctx'.str ≡ some ((text ++ f.text) ++ 0 ∷ []))
        × (ctx'.length ≡ length (text ++ f.text))
  unfolding cbor_printer print_into
  cbor_printer-Prints text ctx f laws (em, ep) small (el, es) =
      let n = length text in
      let k = length f.text in
      let asked : (n + k) % 2 ^ 64 ≡ n + k = omega arith in
      let (block, there) = laws.gives ctx.str (n + k + 1) in
      let size = laws.has_size ctx.str (n + k + 1) block there in
      let kept = kept_text text ctx (n + k + 1) block laws (omega arith) there es in
      let written : copy_in block n (take k f.text ++ 0 ∷ []) ≡ (text ++ f.text) ++ 0 ∷ [] =
        rw (take_all k f.text (omega arith)) (
          copy_in-tail block n (f.text ++ 0 ∷ []) (omega (arith, length-append f.text (0 ∷ [])))
          ∙ ap (λ t. t ++ (f.text ++ 0 ∷ [])) kept
          ∙ sym (append_assoc text f.text (0 ∷ []))) in
      let more : (n + k + 1) % 2 ^ 64 ≡ n + k + 1 = omega arith in
      (
        record { str = some ((text ++ f.text) ++ 0 ∷ []); length = n + k },
        simp (cbor_printer, print_into, em, ep, el, asked, more, there, written),
        refl,
        sym (length-append text f.text),
      )

  print_all-Prints :
      (fs : List Formatted) (text : List ℕ) (ctx : PrintContext)
      → Reallocates
      → All IsFormatted fs
      → length text + length (texts fs) + 1 < 2 ^ 64
      → Prints text ctx
      → (ctx' : PrintContext) × (print_all std ctx fs ≡ (no_error, ctx'))
        × Prints (text ++ texts fs) ctx'
  unfolding print_all
  print_all-Prints [] text ctx laws good small h = (ctx, refl, rw (append-nil text) h)
  print_all-Prints (f ∷ fs) text ctx laws good small h =
      let (ctx₁, e, filled, len) =
        cbor_printer-Prints text ctx f laws good.0 (omega (arith, length-append f.text (texts fs)))
          h in
      let (ctx₂, e', h') =
        print_all-Prints fs (text ++ f.text) ctx₁ laws good.1
          (omega (arith, length-append f.text (texts fs), length-append text f.text))
          (len, inl filled) in
      (
        ctx₂,
        simp (print_all, e, e'),
        subst (λ t. Prints t ctx₂) (append_assoc text f.text (texts fs)) h',
      )

  module _ {V : Type 0} (parser : CborParser V) (pretty : PrettyPrinter V) where
    -- Where there is memory, neither TinyCBOR nor `vsnprintf` gives an error and the text with its
    -- terminator is shorter than 2 ^ 64, `getStringFromCbor` returns what was printed, in order and with
    -- a terminator behind it, or NULL if that was nothing.
    pub get_string_from_cbor_lem :
        (cbor : List ℕ) (len : ℕ)
        → Reallocates
        → (parser.parser_init cbor len).0 ≡ no_error
        → let value = (parser.parser_init cbor len).1 in
          pretty.error value ≡ no_error
          → All IsFormatted (pretty.fragments value)
          → length (texts (pretty.fragments value)) + 1 < 2 ^ 64
          → let printed = texts (pretty.fragments value) in
            let r = get_string_from_cbor std parser pretty cbor len in
            (r ≡ allocated (printed ++ 0 ∷ [])) ⊎ ((r ≡ null_string) × (printed ≡ []))
    unfolding get_string_from_cbor to_pretty_stream
    get_string_from_cbor_lem cbor len laws parsed ended good small =
        let fs = pretty.fragments (parser.parser_init cbor len).1 in
        let (ctx, e, (el, es)) =
          print_all-Prints fs [] (record { str = none; length = 0 }) laws good (omega arith)
            (refl, inr (refl, refl)) in
        elim es [
          | inl full ↦ inl (simp (get_string_from_cbor, to_pretty_stream, parsed, ended, e, full))
          | inr (null, empty) ↦
              inr (simp (get_string_from_cbor, to_pretty_stream, parsed, ended, e, null), empty)
        ]

    -- The `free` behind `getStringFromCbor` in the publish callback is defined exactly when neither the
    -- parser nor the printing gives an error: else what is freed is a literal.
    pub dump_payload_lem :
        (cbor : List ℕ) (len : ℕ)
        → dump_payload std parser pretty cbor len ≡ (
            is_no_error (parser.parser_init cbor len).0
            && is_no_error
                (to_pretty_stream std pretty
                  (record { str = none; length = 0 })
                  (parser.parser_init cbor len).1).0)
    unfolding dump_payload get_string_from_cbor
    dump_payload_lem cbor len =
        let (error, value) = parser.parser_init cbor len in
        let (error', ctx) = to_pretty_stream std pretty (record { str = none; length = 0 }) value in
        elim (Bool-cases (is_no_error error)) [
          | inr bad ↦ simp (dump_payload, get_string_from_cbor, bad)
          | inl parsed ↦ elim (Bool-cases (is_no_error error')) [
            | inr bad ↦ simp (dump_payload, get_string_from_cbor, parsed, bad)
            | inl good ↦ elim (Option-cases ctx.str) [
              | inl null ↦ simp (dump_payload, get_string_from_cbor, parsed, good, null)
              | inr (s, there) ↦ simp (dump_payload, get_string_from_cbor, parsed, good, there)
            ]
          ]
        ]
