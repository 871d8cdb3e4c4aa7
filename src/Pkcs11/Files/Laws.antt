-- ===== src/Pkcs11/Files/Laws.antt =====
-- What `readFile` leaves in the buffer, and that it closes what it opened.
use embedded_provisioning_sd.Prelude.{
  ℕ, ◌≤◌, ◌≡◌, ◌⊎◌, true, false, some, List, length, copy_in, copy_out,
}
use embedded_provisioning_sd.Pkcs11.Files.{Stdio, Read}

module _ {W : Type 0} (io : Stdio W) where
  -- The last block: the buffer holds the bytes of the length, or the length is not set.
  abbrev ReadsContents : ℕ → ℕ → List ℕ → ℕ → W → Read → Type 0
  ReadsContents file len buffer written w r =
      ((r.status ≡ true)
        × (r.written ≡ len)
        × (length (io.read file len w).0 ≡ len)
        × (r.buffer ≡ copy_in buffer 0 (io.read file len w).0))
      ⊎ ((r.status ≡ false) × (r.written ≡ written))

  -- The ends of a read: the whole file, of a length that the buffer has, is at the start of the buffer; or
  -- the length is not set.
  abbrev pub Reads : ℕ → List ℕ → ℕ → ℕ → Read → Type 0
  Reads file buffer buffer_length written r =
      ((r.status ≡ true)
        × (r.written ≤ buffer_length)
        × ((v : W) × ((io.tell file v).0 ≡ some r.written))
        × ((u : W) × (length (io.read file r.written u).0 ≡ r.written)
            × (copy_out r.buffer 0 r.written ≡ (io.read file r.written u).0)))
      ⊎ ((r.status ≡ false) × (r.written ≡ written))
