-- ===== src/Legacy/Cipher/Sample.antt =====
-- A toy instance of the cipher, which hides nothing and pads as PKCS7 does.
use sodtware_dev_ops_gp_proj.Base.{
  ℕ, zero, suc, ◌+◌, ◌-◌, ◌%◌, ◌/◌, ◌*◌, ◌<◌, ◌≡◌, refl, ap, some, [], ◌∷◌, ◌++◌, arith, Bytes,
  IsBytes, length, length-append, take, take-append, All-append,
}
use sodtware_dev_ops_gp_proj.Legacy.Cipher.{Cipher, IsCipher, aes_block_bytes}

filler : ℕ → ℕ → Bytes
filler zero b = []
filler (suc n) b = b ∷ filler n b

length-filler : (n b : ℕ) → length (filler n b) ≡ n
unfolding filler
length-filler zero b = refl
length-filler (suc n) b = ap suc (length-filler n b)

filler-IsBytes : (n b : ℕ) → b < 256 → IsBytes (filler n b)
unfolding filler
filler-IsBytes zero b h = tt
filler-IsBytes (suc n) b h = (h, filler-IsBytes n b h)

last_byte : Bytes → ℕ
last_byte [] = 0
last_byte (b ∷ []) = b
last_byte (b ∷ c ∷ bs) = last_byte (c ∷ bs)

last_byte-filler : (n b : ℕ) → last_byte (filler (suc n) b) ≡ b
unfolding last_byte filler
last_byte-filler zero b = refl
last_byte-filler (suc n) b = last_byte-filler n b

last_byte-append : (m : Bytes) (n b : ℕ) → last_byte (m ++ filler (suc n) b) ≡ b
unfolding last_byte
last_byte-append [] n b = last_byte-filler n b
last_byte-append (x ∷ []) n b = unfold filler in last_byte-filler n b
last_byte-append (x ∷ y ∷ m) n b = last_byte-append (y ∷ m) n b

missing : ℕ → ℕ
missing n = aes_block_bytes - 1 - n % aes_block_bytes

padded : Bytes → Bytes
unfolding filler missing
padded m = m ++ filler (suc (missing (length m))) (suc (missing (length m)))

unpadded : Bytes → Bytes
unfolding last_byte
unpadded p = take (length p - last_byte p) p

length-padded : (m : Bytes) → length (padded m) ≡ (length m / aes_block_bytes + 1) * aes_block_bytes
unfolding padded missing
length-padded m = omega (
  arith,
  length-append m (filler (suc (missing (length m))) (suc (missing (length m)))),
  length-filler (suc (missing (length m))) (suc (missing (length m))),
)

unpadded-padded : (m : Bytes) → unpadded (padded m) ≡ m
unfolding unpadded padded
unpadded-padded m =
    let n = missing (length m) in
    let e : length (m ++ filler (suc n) (suc n)) - suc n ≡ length m =
      omega (arith, length-append m (filler (suc n) (suc n)), length-filler (suc n) (suc n)) in
    rw (last_byte-append m n (suc n), e) (take-append m (filler (suc n) (suc n)))

unfoldable pub toy_cipher : Cipher
unfolding padded unpadded
toy_cipher = record {
  pad = padded;
  unpad = λ p. some (unpadded p);
  cbc_encrypt = λ key iv m. m;
  cbc_decrypt = λ key iv m. m;
  urandom = λ r. filler 16 (r % 256);
}

padded-IsBytes : (m : Bytes) → IsBytes m → IsBytes (padded m)
unfolding padded missing
padded-IsBytes m h =
    All-append (λ x. x < 256) m _ h
      (filler-IsBytes (suc (missing (length m))) (suc (missing (length m))) (omega arith))

pub toy_cipher-IsCipher : IsCipher toy_cipher
unfolding toy_cipher
toy_cipher-IsCipher = record {
  pad_length = length-padded;
  pad_bytes = padded-IsBytes;
  unpad_pad = λ m. ap some (unpadded-padded m);
  encrypt_length = λ key iv m. refl;
  encrypt_bytes = λ key iv m h. h;
  decrypt_encrypt = λ key iv m. refl;
  urandom_length = λ r. length-filler 16 (r % 256);
  urandom_bytes = λ r. filler-IsBytes 16 (r % 256) (omega arith);
}
