-- ===== src/Crypt/Aes.antt =====
-- What mod_gm_aes_encrypt of common/gm_crypt.c relies on in OpenSSL, and when it succeeds.
use native.Mathlib.Nat.{mod-eq_of_lt}
use native.Mathlib.Decide.{dec_lt}
use mod_gearman.Common.{
  ℕ, Bytes, true, false, ◌==◌, if◌then◌else◌, [], ◌∷◌, ◌++◌, none, some, length, take, drop,
  replicate, length-take, length-drop, length-append, length-replicate, take_all, take-append-drop,
  append-nil, append_assoc, ap, ◌∙◌, Bool-cases, inl, inr, ◌+◌, ◌-◌, ◌*◌, ◌/◌, ◌%◌, ◌≡◌, ◌≤◌, ◌<◌,
  ◌⊎◌, ◌≢◌, arith,
}
use mod_gearman.Common.Outcome.{ok, error}
use mod_gearman.Crypt.{Evp, blocksize, mod_gm_aes_encrypt}

-- Documented behaviour of OpenSSL. A context without padding keeps the bytes of an unfinished block
-- and writes every whole block at once; the final call fails if a block is unfinished. ECB mode
-- treats the blocks one by one, and decryption undoes encryption. Base64 decoding gives the bytes
-- back with zeros up to a multiple of three.
pub record EvpLaws (evp : Evp) : Type 0 where
  pub pending : evp.Ctx → Bytes
  pub key : evp.Ctx → Bytes
  pub start : Bytes → evp.Ctx
  pub feed : evp.Ctx → Bytes → evp.Ctx
  pub ecb : Bytes → Bytes → Bytes
  pub unecb : Bytes → Bytes → Bytes
  pub encrypt_init_law : (k : Bytes) → evp.encrypt_init k ≡ some (start k)
  pub pending_start : (k : Bytes) → pending (start k) ≡ []
  pub key_start : (k : Bytes) → key (start k) ≡ k
  pub encrypt_update_law :
      (ctx : evp.Ctx) (s : Bytes)
      → let t = pending ctx ++ s in
        evp.encrypt_update ctx s
        ≡ some (feed ctx s, ecb (key ctx) (take (length t - length t % blocksize) t))
  pub pending_feed :
      (ctx : evp.Ctx) (s : Bytes)
      → let t = pending ctx ++ s in pending (feed ctx s) ≡ drop (length t - length t % blocksize) t
  pub key_feed : (ctx : evp.Ctx) (s : Bytes) → key (feed ctx s) ≡ key ctx
  pub encrypt_final_law :
      (ctx : evp.Ctx)
      → evp.encrypt_final ctx ≡ (if length (pending ctx) == 0 then some [] else none)
  pub ecb-append : (k s t : Bytes) → length s % blocksize ≡ 0 → ecb k (s ++ t) ≡ ecb k s ++ ecb k t
  pub length-ecb : (k s : Bytes) → length (ecb k s) ≡ length s
  pub unecb-ecb : (k s : Bytes) → length s % blocksize ≡ 0 → unecb k (ecb k s) ≡ s
  pub decrypt_law :
      (k s : Bytes)
      → length s % blocksize ≡ 0
      → (ctx ctx' : evp.Ctx) × (evp.decrypt_init k ≡ some ctx)
        × (evp.decrypt_update ctx s ≡ some (ctx', unecb k s))
  pub decode-encode :
      (s : Bytes)
      → evp.decode_block (evp.encode_block s) ≡ some (s ++ replicate ((3 - length s % 3) % 3) 0)
  pub length-encode : (s : Bytes) → length (evp.encode_block s) ≡ (length s + 2) / 3 * 4

-- A length that divides the block size and is no multiple of it is smaller.
short_of_divides : (n : ℕ) → blocksize % n ≡ 0 → n % blocksize ≢ 0 → n < blocksize
short_of_divides n d m = elim (dec_lt n blocksize) [
  | yes lt ↦ lt
  | no ge ↦ elim (dec_lt blocksize n) [
    | yes gt ↦ absurd (omega (arith, mod-eq_of_lt gt))
    | no le ↦ let e : n ≡ blocksize = omega arith in absurd (m (rw e))
  ]
]

-- The whole blocks of a text, and the bytes behind them.
abbrev whole : Bytes → Bytes
whole t = take (length t - length t % blocksize) t

abbrev rest : Bytes → Bytes
rest t = drop (length t - length t % blocksize) t

length-whole : (t : Bytes) → length (whole t) % blocksize ≡ 0
length-whole t = omega (arith, length-take (length t - length t % blocksize) t)

length-rest : (t : Bytes) → length (rest t) ≡ length t % blocksize
length-rest t = omega (arith, length-drop (length t - length t % blocksize) t)

whole_of_blocks : (t : Bytes) → length t % blocksize ≡ 0 → whole t ≡ t
whole_of_blocks t h =
    let e : length t - length t % blocksize ≡ length t = omega arith in rw e (take_all t)

abbrev zeros : ℕ → Bytes
zeros n = replicate (blocksize - n % blocksize) 0

length-block : (t : Bytes) → length (rest t ++ zeros (length t)) ≡ blocksize
length-block t = omega (
  arith,
  length-append (rest t) (zeros (length t)),
  length-rest t,
  length-replicate {A = ℕ} (blocksize - length t % blocksize) 0,
)

module _ (evp : Evp) (laws : EvpLaws evp) where
  open laws use {pending, key, start, feed, ecb}

  update_fresh :
      (k s : Bytes) → evp.encrypt_update (start k) s ≡ some (feed (start k) s, ecb k (whole s))
  update_fresh k s =
      rw (laws.encrypt_update_law (start k) s, laws.pending_start k, laws.key_start k)

  pending_fresh : (k s : Bytes) → pending (feed (start k) s) ≡ rest s
  pending_fresh k s = rw (laws.pending_feed (start k) s, laws.pending_start k)

  update_block :
      (k s : Bytes)
      → evp.encrypt_update (feed (start k) s) (zeros (length s))
        ≡ some (feed (feed (start k) s) (zeros (length s)), ecb k (rest s ++ zeros (length s)))
  update_block k s =
      rw
        (
          laws.encrypt_update_law (feed (start k) s) (zeros (length s)),
          pending_fresh k s,
          laws.key_feed (start k) s,
          laws.key_start k,
        )
        (rw (whole_of_blocks (rest s ++ zeros (length s)) (omega (arith, length-block s))))

  pending_block : (k s : Bytes) → length (pending (feed (feed (start k) s) (zeros (length s)))) ≡ 0
  pending_block k s =
      rw (laws.pending_feed (feed (start k) s) (zeros (length s)), pending_fresh k s)
        (omega (arith, length-rest (rest s ++ zeros (length s)), length-block s))

  joined :
      (k s : Bytes)
      → ecb k (whole s) ++ ecb k (rest s ++ zeros (length s)) ≡ ecb k (s ++ zeros (length s))
  joined k s = rw (
    ← laws.ecb-append k (whole s) (rest s ++ zeros (length s)) (length-whole s),
    ← append_assoc (whole s) (rest s) (zeros (length s)),
    take-append-drop (length s - length s % blocksize) s,
  )

  -- Without the zero padding, the final call succeeds on whole blocks only.
  aes_unpadded :
      (k : Bytes) (c : ℕ) (s : Bytes)
      → (blocksize % length (c ∷ s) == 0) ≡ true
      → mod_gm_aes_encrypt evp k (c ∷ s)
        ≡ (if length (c ∷ s) % blocksize == 0 then ok (ecb k (c ∷ s)) else error)
  unfolding mod_gm_aes_encrypt
  aes_unpadded k c s h =
      rw
        (
          laws.encrypt_init_law k,
          update_fresh k (c ∷ s),
          h,
          laws.encrypt_final_law (feed (start k) (c ∷ s)),
          pending_fresh k (c ∷ s),
          length-rest (c ∷ s),
        )
        (elim (Bool-cases (length (c ∷ s) % blocksize == 0)) [
          | inl e ↦
              rw (e, append-nil) (ap (λ t. ok (ecb k t)) (whole_of_blocks (c ∷ s) (ground arith)))
          | inr e ↦ rw e
        ])

  aes_padded :
      (k : Bytes) (c : ℕ) (s : Bytes)
      → (blocksize % length (c ∷ s) == 0) ≡ false
      → mod_gm_aes_encrypt evp k (c ∷ s) ≡ ok (ecb k ((c ∷ s) ++ zeros (length (c ∷ s))))
  unfolding mod_gm_aes_encrypt
  aes_padded k c s h =
      rw
        (
          laws.encrypt_init_law k,
          update_fresh k (c ∷ s),
          h,
          update_block k (c ∷ s),
          laws.encrypt_final_law (feed (feed (start k) (c ∷ s)) (zeros (length (c ∷ s)))),
          pending_block k (c ∷ s),
        )
        (ap ok (joined k (c ∷ s)))

  abbrev pub AesResult : Bytes → Bytes → Type 0
  AesResult k t =
      ((length t < blocksize) × (blocksize % length t ≡ 0) × (mod_gm_aes_encrypt evp k t ≡ error))
      ⊎ ((z : ℕ) × (mod_gm_aes_encrypt evp k t ≡ ok (ecb k (t ++ replicate z 0)))
          × ((length t + z) % blocksize ≡ 0)
          × ((blocksize ≤ length t) ⊎ (blocksize % length t ≢ 0)))

  -- Encryption of a text that is not empty fails exactly if its length divides the block size and is
  -- smaller, at 1, 2, 4 and 8 bytes: no zeros are appended to the unfinished block. Of any other
  -- text come whole blocks, those of the text with zeros behind it.
  pub aes_encrypt_lem : (k : Bytes) (c : ℕ) (s : Bytes) → AesResult k (c ∷ s)
  aes_encrypt_lem k c s = elim (Bool-cases (blocksize % length (c ∷ s) == 0)) [
    | inr pad ↦ inr (
      blocksize - length (c ∷ s) % blocksize,
      aes_padded k c s pad,
      omega arith,
      inr (ground arith),
    )
    | inl none_added ↦ elim (Bool-cases (length (c ∷ s) % blocksize == 0)) [
      | inl e ↦
          inr (
            0,
            aes_unpadded k c s none_added ∙ rw (e, append-nil),
            ground arith,
            inl (ground arith),
          )
      | inr e ↦ inl (
        short_of_divides _ (ground arith) (ground arith),
        ground arith,
        aes_unpadded k c s none_added ∙ rw e,
      )
    ]
  ]
