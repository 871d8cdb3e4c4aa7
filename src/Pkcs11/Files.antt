-- ===== src/Pkcs11/Files.antt =====
-- pkcs11_operations.c: `readFile`.
pub mod Laws
pub mod Keeps
use embedded_provisioning_sd.Prelude.{
  ℕ, Bool, true, false, Option, none, some, List, ltb, ◌==◌, if◌then◌else◌, length, copy_in,
}

-- What `readFile` takes from the C library, on a state `W` of the world. `true` is any result but -1.
pub record Stdio (W : Type 0) : Type 0 where
  pub open_file : List ℕ → W → Option ℕ × W
  pub seek_end : ℕ → W → Bool × W
  -- `ftell`; `none` is -1.
  pub tell : ℕ → W → Option ℕ × W
  pub seek_start : ℕ → W → Bool × W
  -- `fread` of so many bytes: those that were read.
  pub read : ℕ → ℕ → W → List ℕ × W
  pub close : ℕ → W → W

-- `status`, the buffer and `*pOutWrittenLength`.
pub record Read : Type 0 where
  pub status : Bool
  pub buffer : List ℕ
  pub written : ℕ

module _ {W : Type 0} (io : Stdio W) where
  -- The last block: `fread` writes what it reads, and the length is set if it is all.
  unfoldable pub read_contents : ℕ → ℕ → List ℕ → ℕ → W → Read × W
  read_contents file len buffer written w =
      let (chunk, w') = io.read file len w in
      let buffer' = copy_in buffer 0 chunk in
      if length chunk == len
      then (record { status = true; buffer = buffer'; written = len }, w')
      else (record { status = false; buffer = buffer'; written = written }, w')

  -- The blocks that find the length of the file and test it.
  unfoldable pub read_open : ℕ → List ℕ → ℕ → ℕ → W → Read × W
  read_open file buffer buffer_length written w =
      let failed : Read = record { status = false; buffer = buffer; written = written } in
      let (at_end, w₁) = io.seek_end file w in
      if at_end
      then (let (position, w₂) = io.tell file w₁ in
          elim position [
            | none ↦ (failed, w₂)
            | some len ↦
                if ltb buffer_length len
                then (failed, w₂)
                else let (at_start, w₃) = io.seek_start file w₂ in
                  if at_start then read_contents file len buffer written w₃ else (failed, w₃)
          ])
      else (failed, w₁)

  -- `readFile` of a path into a buffer of a length.
  unfoldable pub read_file : List ℕ → List ℕ → ℕ → ℕ → W → Read × W
  read_file path buffer buffer_length written w =
      let (opened, w₁) = io.open_file path w in
      elim opened [
        | none ↦ (record { status = false; buffer = buffer; written = written }, w₁)
        | some file ↦
            let (r, w₂) = read_open file buffer buffer_length written w₁ in (r, io.close file w₂)
      ]
