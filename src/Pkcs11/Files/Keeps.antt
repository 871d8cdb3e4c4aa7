-- ===== src/Pkcs11/Files/Keeps.antt =====
-- Reading a file leaves what files do not hold.
use embedded_provisioning_sd.Prelude.{
  ℕ, ◌≡◌, ◌∙◌, inl, inr, List, Bool-cases, Option-cases, length, ltb, ◌==◌,
}
use embedded_provisioning_sd.Pkcs11.Files.{Stdio, read_contents, read_open, read_file}

module _ {W T : Type 0} (io : Stdio W) (token : W → T) where
  -- The documented behaviour of files: they are not in the token.
  pub record LeavesToken : Type 0 where
    pub open_file_keeps : (path : List ℕ) (w : W) → token (io.open_file path w).1 ≡ token w
    pub seek_end_keeps : (file : ℕ) (w : W) → token (io.seek_end file w).1 ≡ token w
    pub tell_keeps : (file : ℕ) (w : W) → token (io.tell file w).1 ≡ token w
    pub seek_start_keeps : (file : ℕ) (w : W) → token (io.seek_start file w).1 ≡ token w
    pub read_keeps : (file n : ℕ) (w : W) → token (io.read file n w).1 ≡ token w
    pub close_keeps : (file : ℕ) (w : W) → token (io.close file w) ≡ token w

  module _ (files : LeavesToken) where
    read_contents_keeps :
        (file len : ℕ) (buffer : List ℕ) (written : ℕ) (w : W)
        → token (read_contents io file len buffer written w).1 ≡ token w
    unfolding read_contents
    read_contents_keeps file len buffer written w =
        elim (Bool-cases (length (io.read file len w).0 == len)) [
          | inl whole ↦ rw (read_contents, whole) (files.read_keeps file len w)
          | inr short ↦ rw (read_contents, short) (files.read_keeps file len w)
        ]

    read_open_keeps :
        (file : ℕ) (buffer : List ℕ) (buffer_length written : ℕ) (w : W)
        → token (read_open io file buffer buffer_length written w).1 ≡ token w
    unfolding read_open
    read_open_keeps file buffer buffer_length written w =
        let (at_end, w₁) = io.seek_end file w in
        let (position, w₂) = io.tell file w₁ in
        let (at_start, w₃) = io.seek_start file w₂ in
        let e₁ = files.seek_end_keeps file w in
        let e₂ = files.tell_keeps file w₁ ∙ e₁ in
        let e₃ = files.seek_start_keeps file w₂ ∙ e₂ in
        elim (Bool-cases at_end) [
          | inr no_end ↦ rw (read_open, no_end) e₁
          | inl there ↦ elim (Option-cases position) [
            | inl unknown ↦ rw (read_open, there, unknown) e₂
            | inr (len, told) ↦ elim (Bool-cases (ltb buffer_length len)) [
              | inl large ↦ rw (read_open, there, told, large) e₂
              | inr fits ↦ elim (Bool-cases at_start) [
                | inr stuck ↦ rw (read_open, there, told, fits, stuck) e₃
                | inl ready ↦
                    rw (read_open, there, told, fits, ready)
                      (read_contents_keeps file len buffer written w₃ ∙ e₃)
              ]
            ]
          ]
        ]

    pub read_file_keeps :
        (path buffer : List ℕ) (buffer_length written : ℕ) (w : W)
        → token (read_file io path buffer buffer_length written w).1 ≡ token w
    unfolding read_file
    read_file_keeps path buffer buffer_length written w =
        let (opened, w₁) = io.open_file path w in
        let e₁ = files.open_file_keeps path w in
        elim (Option-cases opened) [
          | inl absent ↦ rw (read_file, absent) e₁
          | inr (file, there) ↦
              rw (read_file, there)
                (files.close_keeps file (read_open io file buffer buffer_length written w₁).1
                  ∙ read_open_keeps file buffer buffer_length written w₁
                  ∙ e₁)
        ]
