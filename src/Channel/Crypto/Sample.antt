-- ===== src/Channel/Crypto/Sample.antt =====
-- A toy instance of the cryptography: it keeps nothing secret and meets the documented laws, so
-- that the theorems can be applied.
use sodtware_dev_ops_gp_proj.Base.{
  ℕ, zero, suc, ◌+◌, ◌-◌, ◌%◌, ◌<◌, ◌≡◌, refl, ap, some, List, [], ◌∷◌, ◌++◌, arith, Bytes, length,
  length-append, take, take-append, All, All-append,
}
use sodtware_dev_ops_gp_proj.Channel.Crypto.{Crypto, IsSound}

replicate : ℕ → ℕ → List ℕ
replicate zero x = []
replicate (suc n) x = x ∷ replicate n x

length-replicate : (n x : ℕ) → length (replicate n x) ≡ n
unfolding replicate
length-replicate zero x = refl
length-replicate (suc n) x = ap suc (length-replicate n x)

replicate-All {ℓ} : (P : ℕ → Type ℓ) (n x : ℕ) → P x → All P (replicate n x)
unfolding replicate
replicate-All P zero x h = tt
replicate-All P (suc n) x h = (h, replicate-All P n x h)

checksum : Bytes → ℕ
checksum [] = 0
checksum (b ∷ bs) = (b + checksum bs) % 256

checksum_lt : (bs : Bytes) → checksum bs < 256
unfolding checksum
checksum_lt [] = omega arith
checksum_lt (b ∷ bs) = omega arith

first : Bytes → Bytes
first [] = []
first (b ∷ bs) = b ∷ []

unfoldable pub toy : Crypto
unfolding replicate checksum first
toy = record {
  sha256 = λ m. replicate 32 (checksum m);
  hmac_sha256 = λ k m. replicate 32 (checksum (k ++ m));
  hkdf = λ n salt info ikm. replicate n (checksum (salt ++ ikm));
  keygen = λ r. (replicate 1184 (r % 256), r % 256 ∷ []);
  encaps = λ s pk. some (s % 256 ∷ [], replicate 1088 (s % 256));
  decaps = λ sk ct. some (first ct);
  aead_encrypt = λ k n p a. p ++ replicate 16 0;
  aead_decrypt = λ k n ct a. some (take (length ct - 16) ct);
  token_hex = λ r. replicate 32 (b'0' + r % 10);
}

pub length-sha256 : (m : Bytes) → length (toy.sha256 m) ≡ 32
unfolding toy
length-sha256 m = length-replicate 32 (checksum m)

opened : (p : Bytes) → take (length (p ++ replicate 16 0) - 16) (p ++ replicate 16 0) ≡ p
unfolding replicate
opened p =
    let e : length (p ++ replicate 16 0) - 16 ≡ length p =
      omega (arith, length-append p (replicate 16 0)) in
    rw e (take-append p (replicate 16 0))

pub toy-IsSound : IsSound toy
unfolding toy
toy-IsSound = record {
  hkdf_length = λ n salt info ikm h. length-replicate n (checksum (salt ++ ikm));
  mac_length = λ k m. length-replicate 32 (checksum (k ++ m));
  mac_bytes = λ k m. replicate-All (λ x. x < 256) 32 _ (checksum_lt (k ++ m));
  public_length = λ r. length-replicate 1184 (r % 256);
  public_bytes = λ r. replicate-All (λ x. x < 256) 1184 (r % 256) (omega arith);
  private_bytes = λ r. omega arith;
  encaps_made = λ r s. (
    s % 256 ∷ [],
    replicate 1088 (s % 256),
    refl,
    refl,
    length-replicate 1088 (s % 256),
    replicate-All (λ x. x < 256) 1088 (s % 256) (omega arith),
  );
  hash_bytes = λ m. replicate-All (λ x. x < 256) 32 _ (checksum_lt m);
  aead_bytes = λ k n p a i h. All-append (λ x. x < 256) p (replicate 16 0) h (omega arith);
  aead_length = λ k n p a i. length-append p (replicate 16 0);
  aead_open = λ k n p a i. ap some (opened p);
  id_length = λ r. length-replicate 32 (b'0' + r % 10);
  id_ascii = λ r. replicate-All (λ x. x < 128) 32 (b'0' + r % 10) (omega arith);
}
