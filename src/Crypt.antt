-- ===== src/Crypt.antt =====
-- common/gm_crypt.c, and `mod_gm_encrypt` and `mod_gm_decrypt` of common/utils.c: the
-- payload of every gearman job. OpenSSL is the parameter `Evp`; what the code relies on is `EvpLaws`.
pub mod Aes
pub mod RoundTrip
use mod_gearman.Common.{
  ℕ, zero, suc, Bytes, codes, Bool, true, false, ◌&&◌, ◌||◌, not, ◌==◌, leb, ltb, if◌then◌else◌, [],
  ◌∷◌, ◌++◌, Option, none, some, length, take, drop, replicate, ◌+◌, ◌-◌, ◌*◌, ◌/◌, ◌%◌, ◌≡◌,
}
use mod_gearman.Common.Outcome.{Outcome, ok, error, fault, ◌>>=◌, or_error, or_fault}
use mod_gearman.Text.Replace.{is_prefix}

abbrev pub keybytes : ℕ
keybytes = 32

abbrev pub blocksize : ℕ
blocksize = 16

-- The calls of OpenSSL, on a context of its own with padding switched off. `none` is the failure
-- of a call.
pub record Evp : Type 1 where
  pub Ctx : Type 0
  pub encrypt_init : Bytes → Option Ctx
  pub encrypt_update : Ctx → Bytes → Option (Ctx × Bytes)
  pub encrypt_final : Ctx → Option Bytes
  pub decrypt_init : Bytes → Option Ctx
  pub decrypt_update : Ctx → Bytes → Option (Ctx × Bytes)
  pub encode_block : Bytes → Bytes
  pub decode_block : Bytes → Option Bytes
  pub md5 : Bytes → Bytes

-- `for (i = 0; i < KEYBYTES; i++) key[i] = *password != 0 ? *password++ : 0;`
unfoldable pub pad_key : ℕ → Bytes → Bytes
pad_key zero password = []
pad_key (suc n) [] = 0 ∷ pad_key n []
pad_key (suc n) (c ∷ password) = c ∷ pad_key n password

unfoldable pub mod_gm_aes_init : Bytes → Bytes
mod_gm_aes_init password = pad_key keybytes password

-- The bytes of a buffer up to the first NUL.
unfoldable pub c_string : Bytes → Bytes
c_string [] = []
c_string (zero ∷ s) = []
c_string (suc c ∷ s) = suc c ∷ c_string s

-- A fresh block of memory with `s` written to its start.
abbrev pub written : Bytes → Bytes → Bytes
written s fresh = s ++ drop (length s) fresh

abbrev hex_digit : ℕ → ℕ
hex_digit n = if ltb n 10 then b'0' + n else b'A' + (n - 10)

-- `dest[i*2] = hex[(result[i] >> 4) & 0xF]; dest[i*2 + 1] = hex[result[i] & 0xF];`
unfoldable pub hex_string : Bytes → Bytes
hex_string [] = []
hex_string (b ∷ s) = hex_digit (b / 16 % 16) ∷ hex_digit (b % 16) ∷ hex_string s

-- The loop that copies a text without its line breaks.
unfoldable pub strip_newlines : Bytes → Bytes
strip_newlines [] = []
strip_newlines (c ∷ s) = let rest = strip_newlines s in if c == 10 then rest else c ∷ rest

-- The `mode` argument.
pub data Mode : Type 0 where
  encode_and_encrypt : Mode
  encode_only : Mode
  encode_accept_all : Mode

-- Is the decoded buffer to be decrypted?
unfoldable pub is_encrypted : Mode → Bytes → Bool
is_encrypted encode_and_encrypt buffer = true
is_encrypted encode_only buffer = false
is_encrypted encode_accept_all buffer = not (is_prefix (codes "type=") buffer)

unfoldable pub max_size : ℕ → ℕ
max_size ciphertext_size = ciphertext_size / 4 * 3 + 5

module _ (evp : Evp) where
  -- The result is `ciphertext` cut to the returned length. The zeros are appended unless
  -- `BLOCKSIZE % plaintext_len` is 0; a `plaintext_len` of 0 divides by zero.
  unfoldable pub mod_gm_aes_encrypt : Bytes → Bytes → Outcome Bytes
  mod_gm_aes_encrypt key [] = do
    ctx ← or_error (evp.encrypt_init key)
    (ctx', out) ← or_error (evp.encrypt_update ctx [])
    fault
  mod_gm_aes_encrypt key (c ∷ plaintext) = do
    ctx ← or_error (evp.encrypt_init key)
    (ctx', out) ← or_error (evp.encrypt_update ctx (c ∷ plaintext))
    let n : ℕ = length (c ∷ plaintext)
    (last, pad) ←
        (if blocksize % n == 0
          then ok (ctx', [])
          else or_error (evp.encrypt_update ctx' (replicate (blocksize - n % blocksize) 0)))
    rest ← or_error (evp.encrypt_final last)
    ok (out ++ pad)

  unfoldable pub mod_gm_aes_decrypt : Bytes → Bytes → Outcome Bytes
  mod_gm_aes_decrypt key ciphertext = do
    ctx ← or_error (evp.decrypt_init key)
    (ctx', out) ← or_error (evp.decrypt_update ctx ciphertext)
    ok out

  unfoldable pub mod_gm_hexsum : Bytes → Bytes
  unfolding hex_string
  mod_gm_hexsum text = hex_string (evp.md5 text)

  unfoldable pub base64_decode : Bytes → Option Bytes
  unfolding strip_newlines
  base64_decode source = elim (evp.decode_block source) [
    | some target ↦ some target
    | none ↦ evp.decode_block (strip_newlines source)
  ]

  -- `EVP_EncodeBlock` returns the length that it wrote.
  unfoldable pub base64_encode : Bytes → Option Bytes
  base64_encode source = elim (evp.encode_block source) [ [] ↦ none | c ∷ s ↦ some (c ∷ s) ]

  -- `*ciphertext`; `strlen` of the NULL that a failed `base64_encode` gives is undefined.
  unfoldable pub mod_gm_encrypt : Bytes → Bytes → Mode → Outcome Bytes
  mod_gm_encrypt key plaintext mode = do
    crypted ← (elim mode [
      | encode_and_encrypt ↦ do
        out ← mod_gm_aes_encrypt key (plaintext ++ 0 ∷ [])
        if leb (length out) 0 then error else ok out
      | encode_only ↦ ok plaintext
      | encode_accept_all ↦ ok plaintext
    ])
    or_fault (base64_encode crypted)

  -- What is done with the decoded buffer of `size` bytes.
  unfoldable pub read_buffer : Bytes → Mode → ℕ → Bytes → Bytes → Bytes → Outcome Bytes
  unfolding c_string
  read_buffer key mode size fresh fresh' decoded =
      let bsize : ℕ = length decoded in
      let buffer : Bytes = written decoded (take size fresh) in
      elim (is_encrypted mode buffer) [
        | true ↦ (do
          out ← mod_gm_aes_decrypt key (take (bsize - bsize % blocksize) buffer)
          ok (c_string (take (size - 1) (written out (take size fresh')))))
        | false ↦ ok (c_string (take bsize buffer))
      ]

  -- `*plaintext`. The two buffers of `max_size` bytes come from `malloc`, so `fresh` and `fresh'`
  -- stand for what they hold.
  unfoldable pub mod_gm_decrypt : Bytes → Bytes → Mode → Bytes → Bytes → Outcome Bytes
  unfolding read_buffer
  mod_gm_decrypt key ciphertext mode fresh fresh' = do
    decoded ← or_error (base64_decode ciphertext)
    read_buffer key mode (max_size (length ciphertext)) fresh fresh' decoded
