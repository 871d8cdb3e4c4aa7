-- ===== src/Provisioning/Print.antt =====
-- fleet_provisioning_serializer.c: `getStringFromCbor`, the text of a payload for the log, and
-- `cborPrinter`, through which TinyCBOR writes it; and how the publish callback of
-- fleet_provisioning_keys_cert_demo.c gives the text back.
pub mod Laws
mod Tests
use embedded_provisioning_sd.Prelude.{
  ℕ, ◌+◌, ◌%◌, ◌^◌, Bool, true, false, Option, none, some, List, [], ◌∷◌, ◌++◌, if◌then◌else◌,
  copy_in, take,
}
use embedded_provisioning_sd.Provisioning.Serializer.{CborError, is_no_error, CborParser}

-- What `vsnprintf` makes of one format and its arguments: the length, if the call without a buffer gives
-- one; the text; and whether the call with the buffer gives no error.
pub record Formatted : Type 0 where
  pub measured : Option ℕ
  pub text : List ℕ
  pub is_printed : Bool

-- `CborPrintContext_t`, with `none` for a NULL string.
pub record PrintContext : Type 0 where
  pub str : Option (List ℕ)
  pub length : ℕ

-- What `realloc` gives for a block, NULL or not, and a size, `none` being NULL; and `CborErrorIO`.
pub record Stdlib : Type 0 where
  pub realloc : Option (List ℕ) → ℕ → Option (List ℕ)
  pub io_error : CborError

-- What `cbor_value_to_pretty_stream` hands to the printer in turn, and its own error behind that.
pub record PrettyPrinter (V : Type 0) : Type 0 where
  pub fragments : V → List Formatted
  pub error : V → CborError

-- What `getStringFromCbor` returns: NULL, the literal "", or an allocated string.
pub data Dump : Type 0 where
  null_string literal_string : Dump
  allocated : List ℕ → Dump

-- `free` of the result is defined where it is NULL or an allocated string.
abbrev pub may_be_freed : Dump → Bool
may_be_freed null_string = true
may_be_freed literal_string = false
may_be_freed (allocated s) = true

module _ (std : Stdlib) where
  -- The second `vsnprintf`, into the new block: at most the length that was measured, and a terminator.
  unfoldable pub print_into : ℕ → ℕ → Formatted → List ℕ → CborError × PrintContext
  print_into old_len new_len f block = (
    if f.is_printed then CborError.no_error else std.io_error,
    record {
      str = some (copy_in block old_len (take new_len f.text ++ 0 ∷ []));
      length = (old_len + new_len) % 2 ^ 64;
    },
  )

  -- `cborPrinter`
  unfoldable pub cbor_printer : PrintContext → Formatted → CborError × PrintContext
  cbor_printer ctx f = elim f.measured [
    | none ↦ (std.io_error, ctx)
    | some new_len ↦
        let len = (ctx.length + new_len) % 2 ^ 64 in
        elim (std.realloc ctx.str ((len + 1) % 2 ^ 64)) [
          | none ↦ (std.io_error, record ctx { length = len })
          | some block ↦ print_into ctx.length new_len f block
        ]
  ]

  -- TinyCBOR's calls of the printer: the first error ends them.
  unfoldable pub print_all : PrintContext → List Formatted → CborError × PrintContext
  print_all ctx [] = (CborError.no_error, ctx)
  print_all ctx (f ∷ fs) =
      let (error, ctx') = cbor_printer ctx f in
      let rest = print_all ctx' fs in if is_no_error error then rest else (error, ctx')

  -- `cbor_value_to_pretty_stream`
  unfoldable pub to_pretty_stream :
      {V : Type 0} → PrettyPrinter V → PrintContext → V → CborError × PrintContext
  to_pretty_stream pretty ctx value =
      let (error, ctx') = print_all ctx (pretty.fragments value) in
      if is_no_error error then (pretty.error value, ctx') else (error, ctx')

  abbrev pub dumped : Option (List ℕ) → Dump
  dumped none = null_string
  dumped (some s) = allocated s

  -- `getStringFromCbor`
  unfoldable pub get_string_from_cbor :
      {V : Type 0} → CborParser V → PrettyPrinter V → List ℕ → ℕ → Dump
  get_string_from_cbor parser pretty cbor len =
      let (error, value) = parser.parser_init cbor len in
      let (error', ctx) = to_pretty_stream pretty (record { str = none; length = 0 }) value in
      if is_no_error error
      then (if is_no_error error' then dumped ctx.str else literal_string)
      else literal_string

  -- The dump of a payload in the publish callback: whether its `free( ( void * ) cborDump )` is defined.
  unfoldable pub dump_payload : {V : Type 0} → CborParser V → PrettyPrinter V → List ℕ → ℕ → Bool
  dump_payload parser pretty payload len =
      may_be_freed (get_string_from_cbor parser pretty payload len)
