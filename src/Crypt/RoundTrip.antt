-- ===== src/Crypt/RoundTrip.antt =====
-- A payload that mod_gm_encrypt of common/utils.c writes is read back by mod_gm_decrypt.
use mathlib.Core.Path.{subst}
use mathlib.Core.List.{concat-ne-nil}
use mod_gearman.Common.{
  ℕ, zero, suc, Bytes, codes, true, false, [], ◌∷◌, ◌++◌, some, length, take, drop, replicate,
  length-append, length-replicate, take-append, append-nil, append_assoc, ap, ◌∙◌, inl, inr, ◌+◌,
  ◌-◌, ◌%◌, ◌≡◌, ◌≤◌, ◌<◌, ◌⊎◌, arith, refl, Lacks, leb,
}
use mod_gearman.Common.Outcome.{ok, error, or_fault}
use mod_gearman.Text.Replace.{is_prefix}
use mod_gearman.Text.Replace.Laws.{is_prefix-append}
use mod_gearman.Crypt.{
  Evp, blocksize, c_string, written, max_size, is_encrypted, Mode, encode_and_encrypt, encode_only,
  encode_accept_all, base64_decode, base64_encode, mod_gm_aes_encrypt, mod_gm_aes_decrypt,
  mod_gm_encrypt, mod_gm_decrypt, read_buffer,
}
use mod_gearman.Crypt.Aes.{EvpLaws, AesResult, aes_encrypt_lem}

-- A text without NUL bytes ends at the NUL behind it, whatever follows.
pub c_string-append : (s t : Bytes) → Lacks 0 s → c_string (s ++ 0 ∷ t) ≡ s
unfolding c_string
c_string-append [] t h = refl
c_string-append (zero ∷ s) t (h, _) = absurd (h refl)
c_string-append (suc c ∷ s) t (_, h) = ap (λ r. suc c ∷ r) (c_string-append s t h)

pub c_string_self : (s : Bytes) → Lacks 0 s → c_string s ≡ s
unfolding c_string
c_string_self [] h = refl
c_string_self (zero ∷ s) (h, _) = absurd (h refl)
c_string_self (suc c ∷ s) (_, h) = ap (λ r. suc c ∷ r) (c_string_self s h)

pub c_string-zeros : (s : Bytes) (z : ℕ) → Lacks 0 s → c_string (s ++ replicate z 0) ≡ s
c_string-zeros s zero h = rw append-nil (c_string_self s h)
c_string-zeros s (suc z) h = c_string-append s (replicate z 0) h

-- A cut behind the first NUL does not change the text.
c_string-take :
    (n : ℕ) (s t : Bytes) → Lacks 0 s → length s < n → c_string (take n (s ++ 0 ∷ t)) ≡ s
unfolding c_string
c_string-take zero s t h lt = elim lt [ ]
c_string-take (suc n) [] t h lt = refl
c_string-take (suc n) (zero ∷ s) t (h, _) lt = absurd (h refl)
c_string-take (suc n) (suc c ∷ s) t (_, h) lt =
    ap (λ r. suc c ∷ r) (c_string-take n s t h (omega arith))

-- The first bytes of a buffer that a text was written to.
take-written : (s t fresh : Bytes) → take (length s) (written (s ++ t) fresh) ≡ s
take-written s t fresh = rw append_assoc (take-append s (t ++ drop (length (s ++ t)) fresh))

c_string-written :
    (n : ℕ) (p t fresh : Bytes)
    → Lacks 0 p
    → length p < n
    → c_string (take n (written ((p ++ 0 ∷ []) ++ t) fresh)) ≡ p
c_string-written n p t fresh h lt =
    let u = t ++ drop (length ((p ++ 0 ∷ []) ++ t)) fresh in
    let e : written ((p ++ 0 ∷ []) ++ t) fresh ≡ p ++ 0 ∷ u =
      append_assoc (p ++ 0 ∷ []) t _ ∙ append_assoc p (0 ∷ []) u in
    rw e (c_string-take n p u h lt)

module _ (evp : Evp) (laws : EvpLaws evp) where
  open laws use {ecb, unecb}

  -- The zeros that base64 decoding leaves behind the `n` bytes.
  abbrev filler : ℕ → Bytes
  filler n = replicate ((3 - n % 3) % 3) 0

  base64_decode-encode :
      (s : Bytes) → base64_decode evp (evp.encode_block s) ≡ some (s ++ filler (length s))
  unfolding base64_decode
  base64_decode-encode s = rw (laws.decode-encode s, base64_decode)

  base64_encode-some : (s : Bytes) → 0 < length s → base64_encode evp s ≡ some (evp.encode_block s)
  unfolding base64_encode
  base64_encode-some s pos = go (evp.encode_block s) refl
    where
      go : (t : Bytes) → evp.encode_block s ≡ t → base64_encode evp s ≡ some (evp.encode_block s)
      go [] e = absurd (omega (arith, laws.length-encode s, ap length e))
      go (c ∷ t) e = rw (e, base64_encode)

  -- `bsize - bsize % BLOCKSIZE` takes the filler off again.
  blocks_of_decoded :
      (s : Bytes)
      → length s % blocksize ≡ 0
      → let n = length (s ++ filler (length s)) in n - n % blocksize ≡ length s
  blocks_of_decoded s h = omega (
    arith,
    length-append s (filler (length s)),
    length-replicate {A = ℕ} ((3 - length s % 3) % 3) 0,
  )

  decrypts : (k s : Bytes) → length s % blocksize ≡ 0 → mod_gm_aes_decrypt evp k (ecb k s) ≡ ok s
  unfolding mod_gm_aes_decrypt
  decrypts k s h =
      let (ctx, ctx', i, u) = laws.decrypt_law k (ecb k s) (omega (arith, laws.length-ecb k s)) in
      rw (i, u, laws.unecb-ecb k s h)

  -- The buffers hold the text and its NUL: `max_size` of the encoded text is larger.
  fits : (s : Bytes) (n : ℕ) → n ≤ length s → n < max_size (length (evp.encode_block s)) - 1
  unfolding max_size
  fits s n h = omega (arith, laws.length-encode s)

  reads_encrypted :
      (k p t fresh fresh' : Bytes)
      → Lacks 0 p
      → length ((p ++ 0 ∷ []) ++ t) % blocksize ≡ 0
      → mod_gm_decrypt evp k
          (evp.encode_block (ecb k ((p ++ 0 ∷ []) ++ t)))
          encode_and_encrypt
          fresh
          fresh'
        ≡ ok p
  unfolding mod_gm_decrypt is_encrypted
  reads_encrypted k p t fresh fresh' h b =
      let text : Bytes = (p ++ 0 ∷ []) ++ t in
      let s : Bytes = ecb k text in
      let e : length s % blocksize ≡ 0 = omega (arith, laws.length-ecb k text) in
      let short : length p ≤ length s =
        omega (
          arith,
          laws.length-ecb k text,
          length-append (p ++ 0 ∷ []) t,
          length-append p (0 ∷ []),
        ) in
      rw
        (
          base64_decode-encode s,
          blocks_of_decoded s e,
          take-written s (filler (length s)) _,
          decrypts k text b,
        )
        (ap ok (c_string-written _ p t _ h (fits s (length p) short)))

  -- What mod_gm_encrypt makes of the blocks.
  encrypt_of_aes :
      (k p s : Bytes)
      → mod_gm_aes_encrypt evp k (p ++ 0 ∷ []) ≡ ok s
      → 0 < length s
      → mod_gm_encrypt evp k p encode_and_encrypt ≡ ok (evp.encode_block s)
  unfolding mod_gm_encrypt
  encrypt_of_aes k p s e pos =
      let positive : leb (length s) 0 ≡ false = ground arith in
      rw (e, positive) (ap or_fault (base64_encode-some s pos))

  encrypt_fails :
      (k p : Bytes)
      → mod_gm_aes_encrypt evp k (p ++ 0 ∷ []) ≡ error
      → mod_gm_encrypt evp k p encode_and_encrypt ≡ error
  unfolding mod_gm_encrypt
  encrypt_fails k p e = rw e

  abbrev pub RoundTrips : Bytes → Bytes → Type 0
  RoundTrips k p =
      (ciphertext : Bytes) × (mod_gm_encrypt evp k p encode_and_encrypt ≡ ok ciphertext)
      × ((fresh fresh' : Bytes)
          → mod_gm_decrypt evp k ciphertext encode_and_encrypt fresh fresh' ≡ ok p)

  abbrev pub Fails : Bytes → Bytes → Type 0
  Fails k p =
      (length p + 1 < blocksize)
      × (blocksize % (length p + 1) ≡ 0)
      × (mod_gm_encrypt evp k p encode_and_encrypt ≡ error)

  round_trip_of_aes :
      (k p q : Bytes)
      → Lacks 0 p
      → p ++ 0 ∷ [] ≡ q
      → AesResult evp laws k q
      → Fails k p ⊎ RoundTrips k p
  round_trip_of_aes k p q h e (inl (lt, d, failed)) =
      let n : length p + 1 ≡ length q = omega (arith, ap length e, length-append p (0 ∷ [])) in
      inl (rw n lt, rw n d, encrypt_fails k p (rw e failed))
  round_trip_of_aes k p q h e (inr (z, done, blocks, _)) =
      let t : Bytes = q ++ replicate z 0 in
      let n : length (ecb k t) ≡ length q + z = omega (
        arith,
        laws.length-ecb k t,
        length-append q (replicate z 0),
        length-replicate {A = ℕ} z 0,
      ) in
      let pos : 0 < length (ecb k t) = omega (arith, n, ap length e, length-append p (0 ∷ [])) in
      let whole : length ((p ++ 0 ∷ []) ++ replicate z 0) % blocksize ≡ 0 =
        rw e (omega (arith, n, laws.length-ecb k t, blocks)) in
      inr (
        evp.encode_block (ecb k t),
        encrypt_of_aes k p (ecb k t) (rw e done) pos,
        λ fresh fresh'.
            subst
              (λ u.
                mod_gm_decrypt evp k (evp.encode_block (ecb k (u ++ replicate z 0)))
                  encode_and_encrypt fresh fresh'
                ≡ ok p)
              e (reads_encrypted k p (replicate z 0) fresh fresh' h whole),
      )

  aes_of_text : (k p q : Bytes) → p ++ 0 ∷ [] ≡ q → AesResult evp laws k q
  aes_of_text k p [] e = absurd (concat-ne-nil 0 p e)
  aes_of_text k p (c ∷ s) e = aes_encrypt_lem evp laws k c s

  -- A text without NUL bytes that mod_gm_encrypt encrypts is read back by mod_gm_decrypt, whatever
  -- the fresh memory holds. The text is encrypted unless its length with the NUL divides the block
  -- size and is smaller; then the call fails.
  pub decrypt-encrypt : (k p : Bytes) → Lacks 0 p → Fails k p ⊎ RoundTrips k p
  decrypt-encrypt k p h =
      round_trip_of_aes k p (p ++ 0 ∷ []) h refl (aes_of_text k p (p ++ 0 ∷ []) refl)

  -- The modes in which the receiver takes the text as it is.
  abbrev pub ReadsClear : Mode → Bytes → Type 0
  ReadsClear encode_and_encrypt p = ⊥
  ReadsClear encode_only p = Unit
  ReadsClear encode_accept_all p = is_prefix (codes "type=") p ≡ true

  clear_buffer :
      (mode : Mode) (p t mem : Bytes)
      → ReadsClear mode p
      → is_encrypted mode (written (p ++ t) mem) ≡ false
  unfolding is_encrypted
  clear_buffer encode_and_encrypt p t mem h = elim h [ ]
  clear_buffer encode_only p t mem h = refl
  clear_buffer encode_accept_all p t mem h = rw (
    append_assoc p t (drop (length (p ++ t)) mem),
    is_prefix-append (codes "type=") p (t ++ drop (length (p ++ t)) mem) h,
  )

  -- A text that is not empty, holds no NUL and is only encoded is read back by a receiver that does
  -- not encrypt, and by one that accepts both kinds if it begins with `type=`.
  pub decrypt-encode :
      (k k' p fresh fresh' : Bytes) (mode : Mode)
      → Lacks 0 p
      → 0 < length p
      → ReadsClear mode p
      → (ciphertext : Bytes) × (mod_gm_encrypt evp k p encode_only ≡ ok ciphertext)
        × (mod_gm_decrypt evp k' ciphertext mode fresh fresh' ≡ ok p)
  unfolding mod_gm_encrypt mod_gm_decrypt
  decrypt-encode k k' p fresh fresh' mode h pos clear =
      let t : Bytes = filler (length p) in
      let mem : Bytes = take (max_size (length (evp.encode_block p))) fresh in
      (
        evp.encode_block p,
        ap or_fault (base64_encode-some p pos),
        rw (base64_decode-encode p) (
            rw (clear_buffer mode p t mem clear, read_buffer)
              (ap ok (
                ap c_string (take-append (p ++ t) (drop (length (p ++ t)) mem))
                ∙ c_string-zeros p ((3 - length p % 3) % 3) h))),
      )
