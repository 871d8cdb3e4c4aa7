-- ===== src/Provisioning/Print/Tests.antt =====
-- The dump of a payload at concrete inputs.
use embedded_provisioning_sd.Prelude.{
  ℕ, zero, suc, ◌≤◌, ◌≡◌, refl, sym, ap, ◌∙◌, ◌⊎◌, true, Option, none, some, List, [], ◌∷◌, arith,
  length, take,
}
use embedded_provisioning_sd.Provisioning.Serializer.{no_error, other_error, other_type, CborParser}
use embedded_provisioning_sd.Provisioning.Print.{
  Stdlib, PrettyPrinter, null_string, allocated, get_string_from_cbor,
}
use embedded_provisioning_sd.Provisioning.Print.Laws.{Reallocates, get_string_from_cbor_lem}

-- The bytes of a block of a size, of which the first are given.
abbrev padded : List ℕ → ℕ → List ℕ
padded xs zero = []
padded [] (suc n) = 0 ∷ padded [] n
padded (x ∷ xs) (suc n) = x ∷ padded xs n

abbrev old_bytes : Option (List ℕ) → List ℕ
old_bytes none = []
old_bytes (some xs) = xs

abbrev std : Stdlib
std = record { realloc = λ old n. some (padded (old_bytes old) n); io_error = other_error 4 }

length-padded : (xs : List ℕ) (n : ℕ) → length (padded xs n) ≡ n
length-padded xs zero = refl
length-padded [] (suc n) = ap suc (length-padded [] n)
length-padded (x ∷ xs) (suc n) = ap suc (length-padded xs n)

take-padded : (xs : List ℕ) (n k : ℕ) → k ≤ n → k ≤ length xs → take k (padded xs n) ≡ take k xs
take-padded xs n zero h h' = refl
take-padded xs zero (suc k) h h' = absurd (omega arith)
take-padded [] (suc n) (suc k) h h' = absurd (omega arith)
take-padded (x ∷ xs) (suc n) (suc k) h h' =
    ap (λ t. x ∷ t) (take-padded xs n k (omega arith) (omega arith))

some-inj : {A : Type 0} {x y : A} → some x ≡ some y → x ≡ y
some-inj e = cc

std-Reallocates : Reallocates std
std-Reallocates = record {
  gives = λ old n. (padded (old_bytes old) n, refl);
  has_size = λ old n block e. ap length (sym (some-inj e)) ∙ length-padded (old_bytes old) n;
  keeps = λ old n k block e h h'. ap (take k) (sym (some-inj e)) ∙ take-padded old n k h h';
}

-- A payload of a byte or more is a value; it prints as "{" and "}".
abbrev parser : CborParser (List ℕ)
parser = record {
  parser_init = λ payload n. elim payload [ [] ↦ (other_error 1, []) | x ∷ xs ↦ (no_error, xs) ];
  is_map = λ v. true;
  map_find_value = λ v key. (no_error, v);
  value_type = λ v. other_type;
  copy_text_string = λ v buffer. (no_error, buffer);
}

abbrev pretty : PrettyPrinter (List ℕ)
pretty = record {
  fragments = λ v.
      record { measured = some 1; text = 123 ∷ []; is_printed = true }
      ∷ record { measured = some 1; text = 125 ∷ []; is_printed = true }
      ∷ [];
  error = λ v. no_error;
}

get_string_from_cbor_lem_example :
    (get_string_from_cbor std parser pretty (160 ∷ []) 1 ≡ allocated (123 ∷ 125 ∷ 0 ∷ []))
    ⊎ ((get_string_from_cbor std parser pretty (160 ∷ []) 1 ≡ null_string)
        × (◌≡◌ {A = List ℕ} (123 ∷ 125 ∷ []) []))
get_string_from_cbor_lem_example =
    get_string_from_cbor_lem std parser pretty (160 ∷ []) 1 std-Reallocates refl refl
      ((refl, refl), ((refl, refl), tt)) (omega arith)
