-- ===== src/Legacy/Frame/RoundTrip.antt =====
-- Frames of legacy_device/protocol.py, built and read back.
use sodtware_dev_ops_gp_proj.Base.{
  ℕ, ◌+◌, ◌*◌, ◌/◌, ◌≤◌, ◌<◌, ◌≡◌, ◌≢◌, refl, ◌∙◌, ap, true, false, Bool-cases, inl, inr, ◌⊎◌, List,
  [], ◌∷◌, ◌++◌, Bytes, Text, IsBytes, length, length-append, All, All-map, All-append, arith,
  lt→ltb, ltb, ltb→lt, leb, le→leb, leb→le, if◌then◌else◌,
}
use sodtware_dev_ops_gp_proj.Base.Result.{ok, err, value_error, ◌>>=◌, chain_returned}
use sodtware_dev_ops_gp_proj.Base.Hex.{hex, fromhex-hex, hex-IsHexChar, IsHexChar, length-hex}
use sodtware_dev_ops_gp_proj.Base.Split.{
  split_on, split_on-append, split_on-Lacks, Lacks, strip-newline, IsSolid, is_blank,
}
use sodtware_dev_ops_gp_proj.Legacy.Cipher.{Cipher, IsCipher, aes_block_bytes}
use sodtware_dev_ops_gp_proj.Legacy.Frame.{
  ascii, read_frame, is_whole, frame_sep, max_frame_bytes, encrypt_frame, decrypt_frame,
}

abbrev IsAscii : Text → Type 0
IsAscii = All (λ x. x < 128)

pub ascii-All : (t : Text) → IsAscii t → ascii t ≡ ok t
unfolding ascii
ascii-All [] h = refl
ascii-All (x ∷ t) h = rw (lt→ltb x 128 h.0, ascii-All t h.1) refl

-- Only an ASCII text is encoded.
ascii_IsAscii : (t : Text) (m : Bytes) → ascii t ≡ ok m → IsAscii t
unfolding ascii
ascii_IsAscii [] m e = tt
ascii_IsAscii (x ∷ t) m e = elim (Bool-cases (ltb x 128)) [
  | inl small ↦
      let (rest, encoded, _) = chain_returned (ascii t) (λ rest. ok (x ∷ rest)) (rw small at e) in
      (ltb→lt x 128 small, ascii_IsAscii t rest encoded)
  | inr large ↦ let z : err value_error ≡ ok m = rw large at e in absurd (cc z)
]

hex-IsAscii : (bs : Bytes) → IsBytes bs → IsAscii (hex bs)
hex-IsAscii bs h = All-map IsHexChar (λ x. x < 128) (hex bs) (λ x k. k.1) (hex-IsHexChar bs h)

hex-Lacks : (bs : Bytes) → IsBytes bs → Lacks frame_sep (hex bs)
hex-Lacks bs h = All-map IsHexChar (λ x. x ≢ frame_sep) (hex bs) (λ x k. k.2) (hex-IsHexChar bs h)

IsHexChar-solid : (x : ℕ) → IsHexChar x → is_blank x ≡ false
IsHexChar-solid x (a, b, d, e, f, g, h) = ground arith

hex-IsSolid : (bs : Bytes) → IsBytes bs → IsSolid (hex bs)
hex-IsSolid bs h =
    All-map IsHexChar (λ x. is_blank x ≡ false) (hex bs) (λ x k. IsHexChar-solid x k)
      (hex-IsHexChar bs h)

-- The frame without its line feed.
abbrev body : Bytes → Bytes → Text
body iv ct = hex iv ++ frame_sep ∷ hex ct

body-All :
    (P : ℕ → Type 0) (iv ct : Bytes)
    → All P (hex iv)
    → P frame_sep
    → All P (hex ct)
    → All P (body iv ct)
body-All P iv ct h j k = All-append P (hex iv) (frame_sep ∷ hex ct) h (j, k)

body-ne : (iv ct : Bytes) → body iv ct ≢ []
body-ne iv ct e = absurd (omega (arith, length-append (hex iv) (frame_sep ∷ hex ct), ap length e))

split_on-body :
    (iv ct : Bytes)
    → IsBytes iv
    → IsBytes ct
    → split_on frame_sep (body iv ct) ≡ hex iv ∷ hex ct ∷ []
split_on-body iv ct h k =
    split_on-append frame_sep (hex iv) (hex ct) (hex-Lacks iv h)
    ∙ ap (λ (l : List Text). hex iv ∷ l) (split_on-Lacks frame_sep (hex ct) (hex-Lacks ct k))

read_frame_made :
    (iv ct : Bytes)
    → IsBytes iv
    → IsBytes ct
    → read_frame (hex iv ++ frame_sep ∷ hex ct ++ 10 ∷ []) ≡ ok (iv, ct)
unfolding read_frame
read_frame_made iv ct h k =
    let text = body iv ct in
    let plain =
      All-append (λ x. x < 128) text (10 ∷ [])
        (body-All (λ x. x < 128) iv ct (hex-IsAscii iv h) (omega arith) (hex-IsAscii ct k))
        (omega arith) in
    let solid =
      body-All (λ x. is_blank x ≡ false) iv ct (hex-IsSolid iv h) refl (hex-IsSolid ct k) in
    rw
      (
        ascii-All (text ++ 10 ∷ []) plain,
        strip-newline text (body-ne iv ct) solid,
        split_on-body iv ct h k,
        fromhex-hex iv h,
        fromhex-hex ct k,
      )
      refl

module _ (k : Cipher) (sound : IsCipher k) (key : Bytes) where
  -- The frame for a record.
  abbrev line : ℕ → Bytes → Bytes
  line random m =
      body (k.urandom random) (k.cbc_encrypt key (k.urandom random) (k.pad m)) ++ 10 ∷ []

  length-line :
      (random : ℕ) (m : Bytes) → length (line random m) ≡ 66 + length m / aes_block_bytes * 32
  length-line random m =
      let iv = k.urandom random in
      let ct = k.cbc_encrypt key iv (k.pad m) in
      omega (
        arith,
        length-append (body iv ct) (10 ∷ []),
        length-append (hex iv) (frame_sep ∷ hex ct),
        length-hex iv,
        length-hex ct,
        sound.urandom_length random,
        sound.encrypt_length key iv (k.pad m),
        sound.pad_length m,
      )

  encrypt_frame_short :
      (random : ℕ) (m : Text)
      → IsAscii m
      → leb (length m) 95 ≡ true
      → encrypt_frame k key random m ≡ ok (line random m)
  unfolding encrypt_frame
  encrypt_frame_short random m h t =
      let fit : leb (length (line random m)) max_frame_bytes ≡ true =
        le→leb _ _ (omega (arith, length-line random m, leb→le _ _ t)) in
      rw (ascii-All m h) (rw fit refl)

  encrypt_frame_long :
      (random : ℕ) (m : Text)
      → IsAscii m
      → leb (length m) 95 ≡ false
      → encrypt_frame k key random m ≡ err value_error
  unfolding encrypt_frame
  encrypt_frame_long random m h t =
      let large : leb (length (line random m)) max_frame_bytes ≡ false =
        ground (arith, length-line random m) in
      rw (ascii-All m h) (rw large refl)

  -- An ASCII record of at most 95 characters makes a frame of 66 bytes and 32 more for every whole
  -- block of it, within the buffer's 256; a longer one is refused with `ValueError`.
  pub encrypt_frame_size :
      (random : ℕ) (plaintext : Text)
      → IsAscii plaintext
      → ((length plaintext ≤ 95)
          × ((frame : Bytes) × (encrypt_frame k key random plaintext ≡ ok frame)
              × (length frame ≡ 66 + length plaintext / aes_block_bytes * 32)))
        ⊎ ((95 < length plaintext) × (encrypt_frame k key random plaintext ≡ err value_error))
  encrypt_frame_size random plaintext h = elim (Bool-cases (leb (length plaintext) 95)) [
    | inl t ↦ inl (
      leb→le _ _ t,
      (
        line random plaintext,
        encrypt_frame_short random plaintext h t,
        length-line random plaintext,
      ),
    )
    | inr t ↦ inr ((ground arith), encrypt_frame_long random plaintext h t)
  ]

  is_whole-line :
      (random : ℕ) (m : Bytes)
      → is_whole (k.urandom random) (k.cbc_encrypt key (k.urandom random) (k.pad m)) ≡ true
  unfolding is_whole
  is_whole-line random m =
      let iv = k.urandom random in
      ground (
        arith,
        sound.urandom_length random,
        sound.encrypt_length key iv (k.pad m),
        sound.pad_length m,
      )

  decrypt_frame-line :
      (random : ℕ) (m : Text) → IsAscii m → decrypt_frame k key (line random m) ≡ ok m
  unfolding decrypt_frame
  decrypt_frame-line random m h =
      let iv = k.urandom random in
      let ct = k.cbc_encrypt key iv (k.pad m) in
      let small = All-map (λ x. x < 128) (λ x. x < 256) m (λ x j. omega arith) h in
      rw
        (
          read_frame_made iv ct (sound.urandom_bytes random)
              (sound.encrypt_bytes key iv (k.pad m) (sound.pad_bytes m small)),
          is_whole-line random m,
          sound.decrypt_encrypt key iv (k.pad m),
          sound.unpad_pad m,
          ascii-All m h,
        )
        refl

  pub decrypt_frame-encrypt_frame :
      (random : ℕ) (plaintext : Text)
      → IsAscii plaintext
      → (encrypt_frame k key random plaintext >>= decrypt_frame k key)
        ≡ (if leb (length plaintext) 95 then ok plaintext else err value_error)
  decrypt_frame-encrypt_frame random plaintext h = elim (Bool-cases (leb (length plaintext) 95)) [
    | inl t ↦
        rw (t, encrypt_frame_short random plaintext h t) (decrypt_frame-line random plaintext h)
    | inr t ↦ rw (t, encrypt_frame_long random plaintext h t) refl
  ]

  -- What a frame that was made says of its record.
  pub encrypt_frame_back :
      (random : ℕ) (m : Text) (frame : Bytes)
      → encrypt_frame k key random m ≡ ok frame
      → IsAscii m × (decrypt_frame k key frame ≡ ok m) × (length frame ≤ 256)
  unfolding encrypt_frame
  encrypt_frame_back random m frame e =
      let (bs, encoded, _) = chain_returned (ascii m) _ e in
      let plain = ascii_IsAscii m bs encoded in
      elim (encrypt_frame_size random m plain) [
        | inl (short, (made, same, size)) ↦
            let fit : leb (length m) 95 ≡ true = le→leb _ _ short in
            let back : (encrypt_frame k key random m >>= decrypt_frame k key) ≡ ok m =
              decrypt_frame-encrypt_frame random m plain ∙ (rw fit refl) in
            let one : made ≡ frame = cc (same, e) in
            (plain, (rw e at back), omega (arith, size, short, ap length one))
        | inr (long, fails) ↦ let z : err value_error ≡ ok frame = rw fails at e in absurd (cc z)
      ]
