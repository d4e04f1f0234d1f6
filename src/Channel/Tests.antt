-- ===== src/Channel/Tests.antt =====
-- The channel on concrete inputs.
use sodtware_dev_ops_gp_proj.Base.{
  ℕ, ◌^◌, ◌≡◌, refl, none, some, [], ◌∷◌, Bytes, codes, ltb, leb, ◌==◌, ◌||◌, ◌&&◌, if◌then◌else◌,
  arith, length,
}
use sodtware_dev_ops_gp_proj.Base.Result.{
  ok, err, value_error, channel_error, overflow_error, ◌>>=◌,
}
use sodtware_dev_ops_gp_proj.Base.Utf8
use sodtware_dev_ops_gp_proj.Channel.Base64.{b64encode, b64decode}
use sodtware_dev_ops_gp_proj.Channel.Base64.RoundTrip.{b64decode-b64encode}
use sodtware_dev_ops_gp_proj.Channel.Nonce.{nonce_for, counter_from, nonce_bytes}
use sodtware_dev_ops_gp_proj.Channel.Nonce.RoundTrip.{counter_from-nonce_for}
use sodtware_dev_ops_gp_proj.Channel.Crypto.Sample.{toy, toy-IsSound}
use sodtware_dev_ops_gp_proj.Channel.Keys.{seal, open_sealed}
use sodtware_dev_ops_gp_proj.Channel.Keys.Laws.{transcript-injective, open_sealed-seal}

b64encode_hello : b64encode (codes "hello") ≡ codes "aGVsbG8="
unfolding b64encode
b64encode_hello = refl

-- Pads behind a complete group are passed over, but a second text is not.
b64decode_more_pads : b64decode (codes "QUJD====") none ≡ ok (codes "ABC")
unfolding b64decode
b64decode_more_pads = refl

b64decode_two_texts : b64decode (codes "QQ==QQ==") none ≡ err channel_error
unfolding b64decode
b64decode_two_texts = refl

b64decode_missing_pad : b64decode (codes "QQ=") none ≡ err channel_error
unfolding b64decode
b64decode_missing_pad = refl

-- The bits that a pad cuts off are not looked at.
b64decode_spare_bits : b64decode (codes "QR==") none ≡ ok (codes "A")
unfolding b64decode
b64decode_spare_bits = refl

b64decode_wrong_length : b64decode (codes "QQ==") (some 2) ≡ err channel_error
unfolding b64decode
b64decode_wrong_length = refl

b64decode-b64encode_example :
    (b64decode (b64encode (codes "hello")) none ≡ ok (codes "hello"))
    × (b64decode (b64encode (codes "hello")) (some 5)
        ≡ (if length (codes "hello") == 5 then ok (codes "hello") else err channel_error))
b64decode-b64encode_example = b64decode-b64encode (codes "hello") 5 (omega arith)

counter_from-nonce_for_example :
    (nonce_for 258 >>= counter_from)
    ≡ (if ltb 258 (256 ^ nonce_bytes) then ok 258 else err overflow_error)
counter_from-nonce_for_example = counter_from-nonce_for 258

abbrev one : Bytes
one = 1 ∷ []

abbrev two : Bytes
two = 2 ∷ []

abbrev three : Bytes
three = 3 ∷ []

transcript-injective_example : (one ≡ one) × (two ≡ two) × (three ≡ three) × (two ≡ two)
transcript-injective_example =
    transcript-injective one two three two one two three two refl refl refl refl

abbrev aes_key : Bytes
aes_key = codes "0123456789abcdef"

-- A key of one byte is refused.
seal_short_key : seal toy (7 ∷ []) 3 (codes "ab") (1 ∷ 2 ∷ []) ≡ err value_error
unfolding seal nonce_for
seal_short_key = refl

open_sealed-seal_example :
    (seal toy aes_key 3 (codes "ab") (1 ∷ 2 ∷ []) >>= λ (nonce, sealed).
    open_sealed toy aes_key nonce (codes "ab") sealed)
    ≡ (if ltb 3 (2 ^ 96)
        then (if length aes_key == 16 || (length aes_key == 24 || length aes_key == 32)
            then (do
              id ← Utf8.encode (codes "ab")
              if leb (length {A = ℕ} (1 ∷ 2 ∷ [])) 2_147_483_647 && leb (length id) 2_147_483_647
                  then ok (1 ∷ 2 ∷ [])
                  else err overflow_error)
            else err value_error)
        else err overflow_error)
open_sealed-seal_example = open_sealed-seal toy toy-IsSound aes_key 3 (codes "ab") (1 ∷ 2 ∷ [])
