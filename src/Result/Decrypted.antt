-- ===== src/Result/Decrypted.antt =====
-- What `mod_gm_encrypt` of common/utils.c writes, as the buffer of a reader: `decrypted_data` in
-- `get_results` of neb_module_naemon/result_thread.c and `get_job` of worker/worker_client.c.
use mathlib.Core.Path.{subst}
use mod_gearman.Common.{Bytes, Lacks, none, some, ◌≡◌, ◌≢◌, refl, sym, ◌∙◌, Option-cases, inl, inr}
use mod_gearman.Common.Outcome.{ok, error}
use mod_gearman.Crypt.{Evp, Mode, encode_and_encrypt, base64_decode, mod_gm_encrypt, mod_gm_decrypt}
use mod_gearman.Crypt.Aes.{EvpLaws}
use mod_gearman.Crypt.RoundTrip.{decrypt-encrypt}
use mod_gearman.Result.{decrypted_data}

ok_inj : {a b : Bytes} → ok a ≡ ok b → a ≡ b
ok_inj e = cc e

error_ne_ok : (p : Bytes) → error ≢ ok p
error_ne_ok p e = cc e

module _ (evp : Evp) where
  decrypt_none :
      (key workload : Bytes) (mode : Mode) (fresh fresh' : Bytes)
      → base64_decode evp workload ≡ none
      → mod_gm_decrypt evp key workload mode fresh fresh' ≡ error
  unfolding mod_gm_decrypt
  decrypt_none key workload mode fresh fresh' e = rw e refl

  decrypted_data-some :
      (key workload : Bytes) (mode : Mode) (fresh fresh' p : Bytes)
      → mod_gm_decrypt evp key workload mode fresh fresh' ≡ ok p
      → decrypted_data evp key workload mode fresh fresh' ≡ some (some p)
  unfolding decrypted_data
  decrypted_data-some key workload mode fresh fresh' p h =
      elim (Option-cases (base64_decode evp workload)) [
        | inl e ↦ absurd (error_ne_ok p (sym (decrypt_none key workload mode fresh fresh' e) ∙ h))
        | inr (s, e) ↦ rw (e, decrypted_data, h) refl
      ]

-- A text without NUL bytes arrives whole at a reader with the same key.
pub decrypted_data-encrypt :
    (evp : Evp) (laws : EvpLaws evp) (key p ciphertext fresh fresh' : Bytes)
    → Lacks 0 p
    → mod_gm_encrypt evp key p encode_and_encrypt ≡ ok ciphertext
    → decrypted_data evp key ciphertext encode_and_encrypt fresh fresh' ≡ some (some p)
decrypted_data-encrypt evp laws key p ciphertext fresh fresh' clean sent =
    elim (decrypt-encrypt evp laws key p clean) [
      | inl (_, _, failed) ↦ absurd (error_ne_ok ciphertext (sym failed ∙ sent))
      | inr (c, written, back) ↦
          let same : c ≡ ciphertext = ok_inj (sym written ∙ sent) in
          decrypted_data-some evp key ciphertext encode_and_encrypt fresh fresh' p (
            subst (λ t. mod_gm_decrypt evp key t encode_and_encrypt fresh fresh' ≡ ok p) same
              (back fresh fresh'))
    ]
