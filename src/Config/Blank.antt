-- ===== src/Config/Blank.antt =====
-- What empty lines do to the buffer of `read_config_file` in common/utils.c.
use mod_gearman.Common.{
  ℕ, zero, suc, Bytes, true, false, ltb, [], ◌∷◌, replicate, ◌+◌, ◌≤◌, ◌<◌, ◌≡◌, refl, Bool-cases,
  inl, inr, arith,
}
use mod_gearman.Text.{isspace, ltrim, rtrim, rtrim_back, trim}
use mod_gearman.Config.{Libc, Options, Parsed, ok, fault}
use mod_gearman.Config.Files.{Files, file, buffersize, moved, parse_line, read_file, read_node}

abbrev pub blank : Bytes
blank = 10 ∷ []

module _ (libc : Libc) (callback2str : ℕ → Bytes) (files : Files)
    (include : Bytes → Options libc → Parsed (Options libc)) where
  parse_line-blank :
      (opt : Options libc) → parse_line libc callback2str files include blank opt ≡ ok opt
  unfolding isspace ltrim rtrim rtrim_back trim
  parse_line-blank opt = refl

  moved-blank : moved libc callback2str files include blank ≡ 1
  unfolding isspace ltrim
  moved-blank = refl

  full : (offset : ℕ) → 65535 ≤ offset → ltb buffersize (offset + 2) ≡ true
  full offset h = ground arith

  room : (offset : ℕ) → offset < 65535 → ltb buffersize (offset + 2) ≡ false
  room offset h = ground arith

  read_file-blanks :
      (n offset : ℕ) (opt : Options libc)
      → offset ≤ 65535
      → 65536 ≤ offset + n
      → read_file libc callback2str files include offset (replicate n blank) opt ≡ fault
  unfolding read_file
  read_file-blanks zero offset opt low enough = absurd (omega (arith, low, enough))
  read_file-blanks (suc n) offset opt low enough = elim (Bool-cases (ltb offset 65535)) [
    | inl e ↦
        rw (room offset (ground (arith, e)), parse_line-blank opt, moved-blank)
          (read_file-blanks n (offset + 1) opt (ground (arith, e)) (omega (arith, enough)))
    | inr e ↦ rw (full offset (ground (arith, e))) refl
  ]

-- A configuration file of 65,536 or more lines that hold nothing but their line break makes `fgets`
-- write behind the end of the buffer, whatever the options are: each such line moves the pointer that
-- is read to by one byte, and it is not put back.
pub read_node-blanks :
    (libc : Libc) (callback2str : ℕ → Bytes) (files : Files)
    (include : Bytes → Options libc → Parsed (Options libc)) (n : ℕ) (filename : Bytes)
    (opt : Options libc)
    → 65536 ≤ n
    → read_node libc callback2str files include filename (file (replicate n blank)) opt ≡ fault
unfolding read_node
read_node-blanks libc callback2str files include n filename opt enough =
    read_file-blanks libc callback2str files include n 0 opt (omega arith) (omega (arith, enough))
