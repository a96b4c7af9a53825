-- ===== src/Tests/OpenSsl.antt =====
-- A concrete stand-in for OpenSSL, and the theorems on common/gm_crypt.c at concrete texts. The
-- cipher adds one to each byte; a group of three bytes is encoded with a 1 before it.
use mod_gearman.Common.{
  ℕ, zero, suc, Bytes, codes, ◌==◌, if◌then◌else◌, [], ◌∷◌, ◌++◌, Option, none, some, map, length,
  take, drop, replicate, ◌+◌, ◌-◌, ◌*◌, ◌/◌, ◌%◌, ◌≡◌, ◌⊎◌, ap, refl, arith,
}
use mod_gearman.Crypt.{Evp, blocksize}
use mod_gearman.Crypt.Aes.{EvpLaws, AesResult, aes_encrypt_lem}
use mod_gearman.Crypt.RoundTrip.{Fails, RoundTrips, decrypt-encrypt}

abbrev pred : ℕ → ℕ
pred zero = 0
pred (suc n) = n

abbrev groups : Bytes → Bytes
groups [] = []
groups (a ∷ []) = 1 ∷ a ∷ 0 ∷ 0 ∷ []
groups (a ∷ b ∷ []) = 1 ∷ a ∷ b ∷ 0 ∷ []
groups (a ∷ b ∷ c ∷ s) = 1 ∷ a ∷ b ∷ c ∷ groups s

abbrev cons_three : ℕ → ℕ → ℕ → Option Bytes → Option Bytes
cons_three a b c none = none
cons_three a b c (some s) = some (a ∷ b ∷ c ∷ s)

abbrev ungroup : Bytes → Option Bytes
ungroup [] = some []
ungroup (x ∷ []) = none
ungroup (x ∷ a ∷ []) = none
ungroup (x ∷ a ∷ b ∷ []) = none
ungroup (x ∷ a ∷ b ∷ c ∷ s) = cons_three a b c (ungroup s)

abbrev behind : Bytes → Bytes
behind t = drop (length t - length t % blocksize) t

abbrev pub toy : Evp
toy = record {
  Ctx = Bytes × Bytes;
  encrypt_init = λ k. some (k, []);
  encrypt_update = λ (k, p) s. some (
    (k, behind (p ++ s)),
    map suc (take (length (p ++ s) - length (p ++ s) % blocksize) (p ++ s)),
  );
  encrypt_final = λ (k, p). if length p == 0 then some [] else none;
  decrypt_init = λ k. some (k, []);
  decrypt_update = λ c s. some (c, map pred s);
  encode_block = groups;
  decode_block = ungroup;
  md5 = λ s. s;
}

map-append : (f : ℕ → ℕ) (s t : Bytes) → map f (s ++ t) ≡ map f s ++ map f t
map-append f [] t = refl
map-append f (c ∷ s) t = ap (λ r. f c ∷ r) (map-append f s t)

length-map : (f : ℕ → ℕ) (s : Bytes) → length (map f s) ≡ length s
length-map f [] = refl
length-map f (c ∷ s) = ap suc (length-map f s)

pred-suc : (s : Bytes) → map pred (map suc s) ≡ s
pred-suc [] = refl
pred-suc (c ∷ s) = ap (λ r. c ∷ r) (pred-suc s)

ungroup-groups : (s : Bytes) → ungroup (groups s) ≡ some (s ++ replicate ((3 - length s % 3) % 3) 0)
ungroup-groups [] = refl
ungroup-groups (a ∷ []) = refl
ungroup-groups (a ∷ b ∷ []) = refl
ungroup-groups (a ∷ b ∷ c ∷ s) =
    let e : (3 - suc (suc (suc (length s))) % 3) % 3 ≡ (3 - length s % 3) % 3 = omega arith in
    rw e (ap (cons_three a b c) (ungroup-groups s))

length-groups : (s : Bytes) → length (groups s) ≡ (length s + 2) / 3 * 4
length-groups [] = refl
length-groups (a ∷ []) = refl
length-groups (a ∷ b ∷ []) = refl
length-groups (a ∷ b ∷ c ∷ s) = omega (arith, length-groups s)

pub toy_laws : EvpLaws toy
toy_laws = record {
  pending = λ (k, p). p;
  key = λ (k, p). k;
  start = λ k. (k, []);
  feed = λ (k, p) s. (k, behind (p ++ s));
  ecb = λ k s. map suc s;
  unecb = λ k s. map pred s;
  encrypt_init_law = λ k. refl;
  pending_start = λ k. refl;
  key_start = λ k. refl;
  encrypt_update_law = λ ctx s. refl;
  pending_feed = λ ctx s. refl;
  key_feed = λ ctx s. refl;
  encrypt_final_law = λ ctx. refl;
  ecb-append = λ k s t h. map-append suc s t;
  length-ecb = λ k s. length-map suc s;
  unecb-ecb = λ k s h. pred-suc s;
  decrypt_law = λ k s h. ((k, []), (k, []), refl, refl);
  decode-encode = ungroup-groups;
  length-encode = length-groups;
}

abbrev pub key : Bytes
key = codes "secret"

aes_encrypt_lem_example : AesResult toy toy_laws key (codes "type=host")
aes_encrypt_lem_example = aes_encrypt_lem toy toy_laws key b't' (codes "ype=host")

decrypt-encrypt_example :
    Fails toy toy_laws key (codes "type=host") ⊎ RoundTrips toy toy_laws key (codes "type=host")
decrypt-encrypt_example = decrypt-encrypt toy toy_laws key (codes "type=host") (ground arith)
