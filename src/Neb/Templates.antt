-- ===== src/Neb/Templates.antt =====
-- The templates of performance data: `xpddefault_preprocess_file_templates` of
-- neb_module_naemon/mod_gearman.c.
use mod_gearman.Common.{
  ℕ, Bytes, Lacks, Bool, true, false, ◌==◌, if◌then◌else◌, [], ◌∷◌, length, ◌≡◌, ◌≤◌, refl, ap,
  arith,
}

-- The byte for `\t`, `\r` and `\n`; for any other the backslash stays, and the byte is read next.
abbrev pub is_escape : ℕ → Bool
is_escape c = if c == b't' then true else if c == b'r' then true else c == b'n'

abbrev pub escape_byte : ℕ → ℕ
escape_byte c = if c == b't' then 9 else if c == b'r' then 13 else 10

-- A backslash at the end is followed by the NUL.
unfoldable pub preprocess_file_templates : Bytes → Bytes
preprocess_file_templates [] = []
preprocess_file_templates (c ∷ []) = c ∷ []
preprocess_file_templates (c ∷ d ∷ template) =
    let behind = preprocess_file_templates template in
    let next = preprocess_file_templates (d ∷ template) in
    if c == 92 then (if is_escape d then escape_byte d ∷ behind else c ∷ next) else c ∷ next

fits : (template : Bytes) → length (preprocess_file_templates template) ≤ length template
unfolding preprocess_file_templates
fits [] = omega arith
fits (c ∷ []) = omega arith
fits (c ∷ d ∷ template) = ground (arith, fits template, fits (d ∷ template))

unchanged : (template : Bytes) → Lacks 92 template → preprocess_file_templates template ≡ template
unfolding preprocess_file_templates
unchanged [] h = refl
unchanged (c ∷ []) h = refl
unchanged (c ∷ d ∷ template) (ne, h) =
    let other : (c == 92) ≡ false = ground arith in
    rw other (ap (λ s. c ∷ s) (unchanged (d ∷ template) h))

-- A template is not longer after its escapes have been replaced, so it is copied back into its own
-- buffer, and a template without a backslash stays as it is.
pub preprocess_lem :
    (template : Bytes)
    → (length (preprocess_file_templates template) ≤ length template)
      × (Lacks 92 template → preprocess_file_templates template ≡ template)
preprocess_lem template = (fits template, unchanged template)
