-- ===== src/Job/Command/Split.antt =====
-- The words of a text, as a description of what `parse_command_line` of common/check_utils.c finds,
-- and how its loops over the text split it.
use mod_gearman.Common.{
  ℕ, Bytes, Lacks, Bool, true, false, not, ◌==◌, if◌then◌else◌, List, [], ◌∷◌, ◌++◌, length, All,
  append-nil, append_assoc, ◌≡◌, ◌≢◌, ◌≤◌, inl, inr, refl, arith, Bool-cases, if_both,
}
use mod_gearman.Text.{isspace, ltrim}
use mod_gearman.Job.Command.{copy_word}

abbrev begins_word : Bytes → Bool
begins_word [] = false
begins_word (c ∷ s) = not (isspace c)

abbrev extend : ℕ → Bool → List Bytes → List Bytes
extend c true (w ∷ ws) = (c ∷ w) ∷ ws
extend c _ ws = (c ∷ []) ∷ ws

-- The words of a text: its longest parts without white space.
unfoldable pub words : Bytes → List Bytes
words [] = []
words (c ∷ s) = let rest = words s in if isspace c then rest else extend c (begins_word s) rest

-- A byte that is copied as it is.
pub record IsPlain (c : ℕ) : Type 0 where
  pub no_nul : c ≢ 0
  pub no_backslash : c ≢ b'\\'
  pub no_single : c ≢ b'\''
  pub no_double : c ≢ b'"'

-- The word that a text begins with, and what is behind it.
unfoldable pub word_of : Bytes → Bytes
word_of [] = []
word_of (c ∷ s) = let rest = word_of s in if isspace c then [] else c ∷ rest

unfoldable pub behind_word : Bytes → Bytes
behind_word [] = []
behind_word (c ∷ s) = let rest = behind_word s in if isspace c then c ∷ s else rest

words-space : (c : ℕ) (s : Bytes) → isspace c ≡ true → words (c ∷ s) ≡ words s
unfolding words
words-space c s e = rw e refl

words-ink :
    (c : ℕ) (s : Bytes) → isspace c ≡ false → words (c ∷ s) ≡ extend c (begins_word s) (words s)
unfolding words
words-ink c s e = rw e refl

word_of-space : (c : ℕ) (s : Bytes) → isspace c ≡ true → word_of (c ∷ s) ≡ []
unfolding word_of
word_of-space c s e = rw e refl

pub word_of-ink : (c : ℕ) (s : Bytes) → isspace c ≡ false → word_of (c ∷ s) ≡ c ∷ word_of s
unfolding word_of
word_of-ink c s e = rw e refl

behind-space : (c : ℕ) (s : Bytes) → isspace c ≡ true → behind_word (c ∷ s) ≡ c ∷ s
unfolding behind_word
behind-space c s e = rw e refl

pub behind-ink : (c : ℕ) (s : Bytes) → isspace c ≡ false → behind_word (c ∷ s) ≡ behind_word s
unfolding behind_word
behind-ink c s e = rw e refl

words-last :
    (c : ℕ) → isspace c ≡ false → words (c ∷ []) ≡ (c ∷ word_of []) ∷ words (behind_word [])
unfolding words word_of behind_word
words-last c e = rw e refl

pub words-word :
    (c : ℕ) (s : Bytes)
    → isspace c ≡ false
    → words (c ∷ s) ≡ (c ∷ word_of s) ∷ words (behind_word s)
words-word c [] e = words-last c e
words-word c (d ∷ s) e = elim (Bool-cases (isspace d)) [
  | inl space ↦
      rw (words-ink c (d ∷ s) e, space, word_of-space d s space, behind-space d s space) refl
  | inr ink ↦
      rw (words-ink c (d ∷ s) e, ink, words-word d s ink, word_of-ink d s ink, behind-ink d s ink)
        refl
]

pub words-ltrim : (s : Bytes) → words (ltrim s) ≡ words s
unfolding ltrim
words-ltrim [] = refl
words-ltrim (c ∷ s) = elim (Bool-cases (isspace c)) [
  | inl e ↦ rw (e, words-space c s e) (words-ltrim s)
  | inr e ↦ rw e refl
]

pub ==_false : (b c : ℕ) → b ≢ c → (b == c) ≡ false
==_false b c ne = ground arith

pub copy_word-word :
    (written : Bytes) (gap : ℕ) (s : Bytes)
    → All IsPlain s
    → copy_word written gap s
      ≡ record { written = written ++ word_of s; gap = gap; rest = behind_word s }
unfolding copy_word word_of behind_word
copy_word-word written gap [] h = rw append-nil refl
copy_word-word written gap (c ∷ []) (p, h) = elim (Bool-cases (isspace c)) [
  | inl e ↦ rw (e, copy_word, append-nil) refl
  | inr e ↦ rw (e, copy_word) refl
]
copy_word-word written gap (c ∷ d ∷ s) (p, h) = elim (Bool-cases (isspace c)) [
  | inl e ↦ rw (e, copy_word, append-nil) refl
  | inr e ↦
      rw
        (
          e,
          copy_word,
          ==_false c b'\\' p.no_backslash,
          copy_word-word (written ++ (c ∷ [])) gap (d ∷ s) h,
          append_assoc,
        )
        refl
]

pub All-behind_word : (s : Bytes) → All IsPlain s → All IsPlain (behind_word s)
unfolding behind_word
All-behind_word [] h = tt
All-behind_word (c ∷ s) (p, h) =
    if_both (All IsPlain) (isspace c) (λ _. (p, h)) (λ _. All-behind_word s h)

pub All-ltrim : (s : Bytes) → All IsPlain s → All IsPlain (ltrim s)
unfolding ltrim
All-ltrim [] h = tt
All-ltrim (c ∷ s) (p, h) = if_both (All IsPlain) (isspace c) (λ _. All-ltrim s h) (λ _. (p, h))

-- A text is empty or begins with a word.
abbrev pub IsTrimmed : Bytes → Type 0
IsTrimmed [] = Unit
IsTrimmed (c ∷ s) = isspace c ≡ false

pub ltrim-IsTrimmed : (s : Bytes) → IsTrimmed (ltrim s)
unfolding ltrim
ltrim-IsTrimmed [] = tt
ltrim-IsTrimmed (c ∷ s) = if_both IsTrimmed (isspace c) (λ _. ltrim-IsTrimmed s) (λ e. e)

pub length-ltrim : (s : Bytes) → length (ltrim s) ≤ length s
unfolding ltrim
length-ltrim [] = omega arith
length-ltrim (c ∷ s) = elim (Bool-cases (isspace c)) [
  | inl e ↦ rw e (omega (arith, length-ltrim s))
  | inr e ↦ rw e (omega arith)
]

pub length-behind_word : (s : Bytes) → length (behind_word s) ≤ length s
length-behind_word [] = unfold behind_word in omega arith
length-behind_word (c ∷ s) = elim (Bool-cases (isspace c)) [
  | inl e ↦ rw (behind-space c s e) (omega arith)
  | inr e ↦ rw (behind-ink c s e) (omega (arith, length-behind_word s))
]

extend-Lacks :
    (c : ℕ) (b : Bool) (ws : List Bytes) → c ≢ 0 → All (Lacks 0) ws → All (Lacks 0) (extend c b ws)
extend-Lacks c true (w ∷ ws) ne (h, hs) = ((ne, h), hs)
extend-Lacks c true [] ne hs = ((ne, tt), tt)
extend-Lacks c false ws ne hs = ((ne, tt), hs)

pub words-Lacks : (s : Bytes) → All IsPlain s → All (Lacks 0) (words s)
unfolding words
words-Lacks [] h = tt
words-Lacks (c ∷ s) (p, h) =
    if_both (All (Lacks 0)) (isspace c) (λ _. words-Lacks s h)
      (λ _. extend-Lacks c (begins_word s) (words s) p.no_nul (words-Lacks s h))
