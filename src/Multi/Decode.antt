-- ===== src/Multi/Decode.antt =====
-- What `decode_xml` of tools/send_multi.c leaves of a text.
use mathlib.Core.Path.{subst}
use mod_gearman.Common.{
  ℕ, zero, suc, Bytes, codes, Lacks, List, [], ◌∷◌, ◌++◌, none, length, take, drop, length-append,
  length-take, length-drop, All, All-append_right, ◌+◌, ◌≡◌, ◌≢◌, ◌≤◌, ◌<◌, refl, arith,
  Option-cases, inl, inr,
}
use mod_gearman.Text.Replace.{strstr}
use mod_gearman.Text.Replace.Laws.{First, strstr_lem, strstr_fits}
use mod_gearman.Multi.{Code, dtab, decode_stage, decode_all, decode_xml}

-- A round that finds the code shortens the text.
length-decoded :
    (c l : ℕ) (enc s : Bytes)
    → 2 ≤ length enc
    → l + length enc ≤ length s
    → length (take l s ++ c ∷ drop (l + length enc) s) < length s
length-decoded c l enc s long fits = omega (
  arith,
  long,
  fits,
  length-append (take l s) (c ∷ drop (l + length enc) s),
  length-take l s,
  length-drop (l + length enc) s,
)

-- A text, and no occurrence of the code in it.
record Decoded (enc s out : Bytes) : Type 0 where
  gone : strstr out enc ≡ none
  shorter : length out ≤ length s

decode_stage-Decoded :
    (n c : ℕ) (enc s : Bytes)
    → 2 ≤ length enc
    → length s ≤ n
    → Decoded enc s (decode_stage n c enc s)
unfolding decode_stage
decode_stage-Decoded zero c enc s long enough = elim (Option-cases (strstr s enc)) [
  | inl e ↦ record { gone = e; shorter = omega arith }
  | inr (l, e) ↦ absurd (omega (arith, enough, long, strstr_fits s enc l e))
]
decode_stage-Decoded (suc n) c enc s long enough = elim (Option-cases (strstr s enc)) [
  | inl e ↦ rw (e, decode_stage) (record { gone = e; shorter = omega arith })
  | inr (l, e) ↦
      let less = length-decoded c l enc s long (strstr_fits s enc l e) in
      let d =
        decode_stage-Decoded n c enc (take l s ++ c ∷ drop (l + length enc) s) long
          (omega (arith, less, enough)) in
      rw (e, decode_stage) (record { gone = d.gone; shorter = omega (arith, d.shorter, less) })
]

decode_all-shorter :
    (table : List Code) (s : Bytes)
    → All (λ (code : Code). 2 ≤ length code.1) table
    → length (decode_all table s) ≤ length s
decode_all-shorter [] s h = omega arith
decode_all-shorter ((c, enc) ∷ table) s (long, h) =
    let d = decode_stage-Decoded (length s) c enc s long (omega arith) in
    omega (arith, d.shorter, decode_all-shorter table (decode_stage (length s) c enc s) h)

-- Every code starts with the same byte.
abbrev Starts : ℕ → Bytes → Type 0
Starts b [] = ⊥
Starts b (c ∷ enc) = c ≡ b

heads_differ : (b : ℕ) (enc rest : Bytes) → Starts b enc → Lacks b (enc ++ rest) → ⊥
heads_differ b [] rest h lacks = h
heads_differ b (c ∷ enc) rest h (ne, _) = ne h

without_first : (b : ℕ) (enc s : Bytes) → Starts b enc → Lacks b s → strstr s enc ≡ none
without_first b enc s h lacks = elim (Option-cases (strstr s enc)) [
  | inl e ↦ e
  | inr (l, e) ↦
      let ((pre, rest, split, n), _) = subst (First enc s) e (strstr_lem s enc) in
      absurd (
        heads_differ b enc rest h
          (All-append_right (λ c. c ≢ b) pre (enc ++ rest) (subst (Lacks b) split lacks)))
]

decode_stage_same : (n c : ℕ) (enc s : Bytes) → strstr s enc ≡ none → decode_stage n c enc s ≡ s
unfolding decode_stage
decode_stage_same zero c enc s e = refl
decode_stage_same (suc n) c enc s e = rw (e, decode_stage) refl

decode_all_same :
    (b : ℕ) (table : List Code) (s : Bytes)
    → All (λ (code : Code). Starts b code.1) table
    → Lacks b s
    → decode_all table s ≡ s
decode_all_same b [] s h lacks = refl
decode_all_same b ((c, enc) ∷ table) s (first, h) lacks =
    rw (decode_stage_same (length s) c enc s (without_first b enc s first lacks))
      (decode_all_same b table s h lacks)

-- The table without its last code.
abbrev four : List Code
four =
    (b'>', codes "&gt;")
    ∷ (b'<', codes "&lt;")
    ∷ (b'&', codes "&amp;")
    ∷ (b'\'', codes "&#039;")
    ∷ []

-- A text without an ampersand stays as it is.
decode_xml_same : (s : Bytes) → Lacks b'&' s → decode_xml s ≡ s
unfolding decode_xml
decode_xml_same s lacks =
    decode_all_same b'&' dtab s (refl, (refl, (refl, (refl, (refl, tt))))) lacks

-- Decoding ends for any text: the result is no longer than the text, and no `&#124;` is left in it.
pub decode_xml_lem :
    (s : Bytes)
    → (strstr (decode_xml s) (codes "&#124;") ≡ none) × (length (decode_xml s) ≤ length s)
unfolding decode_xml
decode_xml_lem s =
    let before = decode_all four s in
    (
      (decode_stage-Decoded (length before) b'|' (codes "&#124;") before (ground arith)
          (omega arith)).gone,
      decode_all-shorter dtab s (ground arith),
    )
