-- ===== src/Job/Pipe.antt =====
-- Reading the output of a check from a pipe: `read_pipe` of common/utils.c. The answers of `read`
-- are a list of texts, which ends at the end of the pipe.
use mod_gearman.Common.{
  ℕ, zero, suc, Bytes, Lacks, false, leb, if◌then◌else◌, List, [], ◌∷◌, ◌++◌, length, drop,
  replicate, All-append, append_assoc, ◌+◌, ◌-◌, ◌≡◌, ◌≢◌, ◌≤◌, ◌<◌, refl, ap, sym, ◌∙◌, arith,
}
use mod_gearman.Crypt.{c_string, written}
use mod_gearman.Crypt.RoundTrip.{c_string-zeros}
use mod_gearman.Job.Exec.{buffersize}

-- `GM_MAX_OUTPUT`
abbrev pub max_output : ℕ
max_output = 10485760

-- The bytes of a `read` are written over those of the last one, and no NUL behind them. Past
-- `GM_MAX_OUTPUT` the pipe is emptied.
unfoldable pub read_loop : ℕ → Bytes → List Bytes → Bytes → Bytes
read_loop size buffer [] target = target
read_loop size buffer (bytes ∷ reads) target =
    let text = c_string (written bytes buffer) in
    let rest = read_loop (size + length text) (written bytes buffer) reads (target ++ text) in
    if leb max_output size then target else rest

unfoldable pub read_pipe : List Bytes → Bytes
read_pipe reads = read_loop buffersize (replicate buffersize 0) reads []

drop-replicate : (n k : ℕ) → drop k (replicate {A = ℕ} n 0) ≡ replicate (n - k) 0
drop-replicate zero zero = refl
drop-replicate zero (suc k) = let e : 0 - suc k ≡ 0 = omega arith in rw e
drop-replicate (suc n) zero = let e : suc n - 0 ≡ suc n = omega arith in rw e
drop-replicate (suc n) (suc k) =
    let e : suc n - suc k ≡ n - k = omega arith in rw e (drop-replicate n k)

drop-append : (n : ℕ) (s t : Bytes) → n ≤ length s → drop n (s ++ t) ≡ drop n s ++ t
drop-append zero s t h = refl
drop-append (suc n) [] t h = absurd (omega (arith, h))
drop-append (suc n) (c ∷ s) t h = drop-append n s t (omega (arith, h))

Lacks-drop : (n : ℕ) (s : Bytes) → Lacks 0 s → Lacks 0 (drop n s)
Lacks-drop zero s h = h
Lacks-drop (suc n) [] h = tt
Lacks-drop (suc n) (c ∷ s) (_, h) = Lacks-drop n s h

first_text : (s : Bytes) → Lacks 0 s → c_string (written s (replicate buffersize 0)) ≡ s
first_text s h = rw drop-replicate (c_string-zeros s (buffersize - length s) h)

-- A second text over a longer first one: the end of the first one follows it.
second_text :
    (a b : Bytes)
    → Lacks 0 a
    → Lacks 0 b
    → length b ≤ length a
    → c_string (written b (written a (replicate buffersize 0))) ≡ b ++ drop (length b) a
second_text a b h k short =
    let z = replicate (buffersize - length a) 0 in
    let e : written b (written a (replicate buffersize 0)) ≡ (b ++ drop (length b) a) ++ z =
      ap (λ r. b ++ drop (length b) (a ++ r)) (drop-replicate buffersize (length a))
      ∙ ap (λ r. b ++ r) (drop-append (length b) a z short)
      ∙ sym (append_assoc b (drop (length b) a) z) in
    rw e (
      c_string-zeros (b ++ drop (length b) a) (buffersize - length a)
        (All-append (λ c. c ≢ 0) b (drop (length b) a) k (Lacks-drop (length b) a h)))

small_size : (n : ℕ) → n < buffersize → leb max_output (buffersize + n) ≡ false
small_size n h = ground (arith, h)

-- An output that one `read` gives arrives as it is. If a second `read` gives a text that is not
-- longer than the first one, the end of the first one arrives a second time behind it.
pub read_pipe_lem :
    (a b : Bytes)
    → Lacks 0 a
    → Lacks 0 b
    → length b ≤ length a
    → length a < buffersize
    → (read_pipe (a ∷ []) ≡ a) × (read_pipe (a ∷ b ∷ []) ≡ a ++ (b ++ drop (length b) a))
unfolding read_pipe read_loop
read_pipe_lem a b h k short fits =
    (first_text a h, rw (first_text a h, small_size (length a) fits, second_text a b h k short))
